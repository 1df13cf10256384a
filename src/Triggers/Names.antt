-- ===== src/Triggers/Names.antt =====
-- The names of the runs that a trigger adds: no build gets two runs of one name.
use mathlib.Core.List.{map-append}
use jobserv.Prelude.{
  ℕ, ◌+◌, ◌≡◌, refl, ap, ◌∙◌, inl, inr, false, ◌||◌, none, some, List, [], ◌∷◌, ◌++◌, map, Text,
  text_eq, text_eq_refl, text_eq→eq, has_text, arith, Formatted, formatted, value_error,
  lookup_error, Option-cases, Bool-cases,
}
use jobserv.Status.{BuildStatus, failed, is}
use jobserv.Models.{
  Run, Build, find_run, modify_run, with_runs, assign_status, add_event, refresh_status,
  change_status, set_status,
}
use jobserv.Models.Consistency.{runs-refresh_status}
use jobserv.Project.{RunSpec, DefinitionResult, defined, missing_secret, key_error}
use jobserv.Triggers.{
  Call, Outcome, run_name, new_run, run_names, add_run, set_tag, tag_run, tag_refused, accept_run,
  fail_added, fail_all, after_definition, add_named, add_spec, add_runs, trigger_runs, build_of,
}

abbrev pub names : List Run → List Text
names = map (λ r. r.name)

pub names-modify_run :
    (id : ℕ) (f : Run → Run) (rs : List Run)
    → ((r : Run) → (f r).name ≡ r.name)
    → names (modify_run id f rs) ≡ names rs
unfolding modify_run
names-modify_run id f [] same = refl
names-modify_run id f (r ∷ rs) same = ground (arith, same r, names-modify_run id f rs same)

names-change_status :
    (now id : ℕ) (s : BuildStatus) (b : Build)
    → names (change_status now id s b).runs ≡ names b.runs
unfolding change_status with_runs
names-change_status now id s b =
    let saved = with_runs b (modify_run id (assign_status s) b.runs) in
    names-modify_run id (add_event now s none) (refresh_status now saved).runs
      (λ r. unfold add_event in refl)
    ∙ ap names (runs-refresh_status now saved)
    ∙ names-modify_run id (assign_status s) b.runs (λ r. unfold assign_status in refl)

pub run_names-set_status :
    (now id : ℕ) (s : BuildStatus) (b : Build) → run_names (set_status now id s b) ≡ run_names b
unfolding set_status run_names
run_names-set_status now id s b = elim (Option-cases (find_run id b.runs)) [
  | inl e ↦ rw (e, set_status)
  | inr (r, e) ↦ elim (Bool-cases (is r.status s)) [
    | inl same ↦ rw (e, set_status, same)
    | inr other ↦ rw (e, set_status, other) (names-change_status now r.id s b)
  ]
]

run_names-tag_run : (id : ℕ) (tag : Text) (b : Build) → run_names (tag_run id tag b) ≡ run_names b
unfolding run_names tag_run
run_names-tag_run id tag b = names-modify_run id (set_tag tag) b.runs (λ r. refl)

pub run_names-accept_run :
    (now : ℕ) (tags : List Text) (id : ℕ) (tag : Text) (b : Build)
    → run_names (accept_run now tags id tag b) ≡ run_names b
unfolding accept_run run_names
run_names-accept_run now tags id tag b = elim (Bool-cases (tag_refused tags tag)) [
  | inl e ↦
      rw e (run_names-set_status now id failed (tag_run id tag b) ∙ run_names-tag_run id tag b)
  | inr e ↦ rw e (run_names-tag_run id tag b)
]

run_names-fail_added : (ids : List ℕ) (b : Build) → run_names (fail_added ids b) ≡ run_names b
unfolding fail_added with_runs run_names
run_names-fail_added [] b = refl
run_names-fail_added (id ∷ ids) b =
    let fail = λ (r : Run). record r { status = failed } in
    run_names-fail_added ids (with_runs b (modify_run id fail b.runs))
    ∙ names-modify_run id fail b.runs (λ r. refl)

run_names-fail_all : (ids : List ℕ) (b : Build) → run_names (fail_all ids b) ≡ run_names b
unfolding fail_all run_names
run_names-fail_all ids b = run_names-fail_added ids b

pub run_names-add_run : (r : Run) (b : Build) → run_names (add_run r b) ≡ run_names b ++ r.name ∷ []
unfolding run_names add_run
run_names-add_run r b = map-append (λ (q : Run). q.name) b.runs (r ∷ [])

-- No text twice.
abbrev pub DistinctNames : List Text → Type 0
DistinctNames [] = Unit
DistinctNames (t ∷ l) = (has_text t l ≡ false) × DistinctNames l

has_text-snoc :
    (t u : Text) (l : List Text) → has_text t (l ++ u ∷ []) ≡ (has_text t l || text_eq u t)
has_text-snoc t u [] = ground arith
has_text-snoc t u (x ∷ l) = ground (arith, has_text-snoc t u l)

DistinctNames-snoc :
    (t : Text) (l : List Text)
    → DistinctNames l
    → has_text t l ≡ false
    → DistinctNames (l ++ t ∷ [])
DistinctNames-snoc t [] d h = (refl, tt)
DistinctNames-snoc t (x ∷ l) d h = (
  ground (arith, has_text-snoc x t l, d.0, h, text_eq→eq t x, text_eq_refl t),
  DistinctNames-snoc t l d.1 (ground (arith, h)),
)

-- The names of a build are distinct.
abbrev pub IsNamed : Build → Type 0
IsNamed b = DistinctNames (run_names b)

abbrev Rest : Type 0
Rest = List ℕ → Build → Outcome

abbrev KeepsNamed : Rest → Type 0
KeepsNamed rest = (added : List ℕ) (b : Build) → IsNamed b → IsNamed (build_of (rest added b))

after_definition-IsNamed :
    (c : Call) (added : List ℕ) (id : ℕ) (b : Build) (d : DefinitionResult) (rest : Rest)
    → KeepsNamed rest
    → IsNamed b
    → IsNamed (build_of (after_definition c added id b d rest))
unfolding after_definition build_of
after_definition-IsNamed c added id b (defined d) rest keeps h =
    keeps (added ++ id ∷ []) (accept_run c.now c.allowed_host_tags id d.host_tag b)
      (rw (run_names-accept_run c.now c.allowed_host_tags id d.host_tag b) h)
after_definition-IsNamed c added id b (missing_secret token) rest keeps h = h
after_definition-IsNamed c added id b (key_error name) rest keeps h =
    rw (run_names-fail_all (added ++ id ∷ []) b) h

add_named-IsNamed :
    (c : Call) (before : Build) (added : List ℕ) (id : ℕ) (api_key : Text) (spec : RunSpec)
    (name : Text) (b : Build) (rest : Rest)
    → KeepsNamed rest
    → IsNamed before
    → IsNamed b
    → IsNamed (build_of (add_named c before added (id, api_key) spec name b rest))
unfolding add_named build_of
add_named-IsNamed c before added id api_key spec name b rest keeps h0 h =
    let r = new_run (id, api_key) name (some c.trigger.name) c.queue_priority in
    elim (Bool-cases (has_text name c.seen)) [
      | inl g ↦ rw g h
      | inr g ↦ elim (Bool-cases (has_text name (run_names b))) [
        | inl e ↦ rw (g, e) h0
        | inr e ↦
            rw (g, e)
              (after_definition-IsNamed c added id (add_run r b) _ rest keeps (
                rw (run_names-add_run r b)
                  (unfold new_run in DistinctNames-snoc name (run_names b) h e)))
      ]
    ]

add_spec-IsNamed :
    (c : Call) (before : Build) (added : List ℕ) (keys : ℕ × Text) (spec : RunSpec)
    (name : Formatted) (b : Build) (rest : Rest)
    → KeepsNamed rest
    → IsNamed before
    → IsNamed b
    → IsNamed (build_of (add_spec c before added keys spec name b rest))
unfolding add_spec build_of
add_spec-IsNamed c before added (id, key) spec (formatted name) b rest keeps h0 h =
    add_named-IsNamed c before added id key spec name b rest keeps h0 h
add_spec-IsNamed c before added keys spec value_error b rest keeps h0 h = h
add_spec-IsNamed c before added keys spec lookup_error b rest keeps h0 h =
    rw (run_names-fail_all added b) h

add_runs-IsNamed :
    (c : Call) (before : Build) (i : ℕ) (added : List ℕ) (specs : List RunSpec) (b : Build)
    → IsNamed before
    → IsNamed b
    → IsNamed (build_of (add_runs c before i added specs b))
unfolding add_runs build_of
add_runs-IsNamed c before i added [] b h0 h = h
add_runs-IsNamed c before i added (spec ∷ specs) b h0 h =
    add_spec-IsNamed c before added (c.fresh i) spec (run_name c.trigger.run_names spec.name) b _
      (λ added' b' h'. add_runs-IsNamed c before (i + 1) added' specs b' h0 h') h0 h

-- However the addition of a trigger's runs ends, no two runs of the build have one name, whatever names
-- the session has loaded.
pub trigger_runs-IsNamed :
    (c : Call) (b : Build) → IsNamed b → IsNamed (build_of (trigger_runs c b))
unfolding trigger_runs
trigger_runs-IsNamed c b h = add_runs-IsNamed c b 0 [] c.trigger.runs b h h
