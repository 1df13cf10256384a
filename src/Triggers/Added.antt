-- ===== src/Triggers/Added.antt =====
-- Where the addition succeeds, every run of the trigger is there, under its own name.
use mathlib.Core.List.{append_assoc, append-nil}
use jobserv.Prelude.{
  ℕ, ◌+◌, ◌≡◌, refl, sym, ap, ◌∙◌, inl, inr, Option, some, List, [], ◌∷◌, ◌++◌, Text, has_text,
  Formatted, formatted, value_error, lookup_error, Bool-cases,
}
use jobserv.Models.{Build}
use jobserv.Project.{RunSpec, DefinitionResult, defined, missing_secret, key_error}
use jobserv.Triggers.{
  Call, Outcome, ok, name_error, api_error, unexpected, raised, run_name, new_run, run_names,
  add_run, accept_run, after_definition, add_named, add_spec, add_runs, trigger_runs,
}
use jobserv.Triggers.Names.{run_names-accept_run, run_names-add_run}

-- The names that a trigger's runs get.
abbrev pub AreNames : Option Text → List RunSpec → List Text → Type 0
AreNames fmt [] [] = Unit
AreNames fmt [] (n ∷ ns) = ⊥
AreNames fmt (spec ∷ specs) [] = ⊥
AreNames fmt (spec ∷ specs) (n ∷ ns) =
    (run_name fmt spec.name ≡ formatted n) × AreNames fmt specs ns

-- A build with its runs added: those that it had, and one for each run of the trigger, in order.
abbrev pub AddsAll : Option Text → List RunSpec → Build → Outcome → Type 0
AddsAll fmt specs b (ok b') =
    (ns : List Text) × AreNames fmt specs ns × (run_names b' ≡ run_names b ++ ns)
AddsAll fmt specs b (name_error b') = Unit
AddsAll fmt specs b (api_error b') = Unit
AddsAll fmt specs b (unexpected b') = Unit
AddsAll fmt specs b (raised b') = Unit

AddsAll-cons :
    (fmt : Option Text) (spec : RunSpec) (specs : List RunSpec) (b b' : Build) (n : Text)
    (o : Outcome)
    → run_name fmt spec.name ≡ formatted n
    → run_names b' ≡ run_names b ++ n ∷ []
    → AddsAll fmt specs b' o
    → AddsAll fmt (spec ∷ specs) b o
AddsAll-cons fmt spec specs b b' n (ok b'') e h (ns, are, eq) = (
  n ∷ ns,
  (e, are),
  eq ∙ ap (λ (l : List Text). l ++ ns) h ∙ append_assoc (run_names b) (n ∷ []) ns,
)
AddsAll-cons fmt spec specs b b' n (name_error b'') e h a = tt
AddsAll-cons fmt spec specs b b' n (api_error b'') e h a = tt
AddsAll-cons fmt spec specs b b' n (unexpected b'') e h a = tt
AddsAll-cons fmt spec specs b b' n (raised b'') e h a = tt

abbrev Rest : Type 0
Rest = List ℕ → Build → Outcome

module _ (c : Call) (before : Build) (spec : RunSpec) (specs : List RunSpec) (rest : Rest)
    (adds : (added : List ℕ) (b : Build) → AddsAll c.trigger.run_names specs b (rest added b)) where
  after_definition-AddsAll :
      (added : List ℕ) (id : ℕ) (b b' : Build) (n : Text) (d : DefinitionResult)
      → run_name c.trigger.run_names spec.name ≡ formatted n
      → run_names b' ≡ run_names b ++ n ∷ []
      → AddsAll c.trigger.run_names (spec ∷ specs) b (after_definition c added id b' d rest)
  unfolding after_definition
  after_definition-AddsAll added id b b' n (defined d) e h =
      let b'' = accept_run c.now c.allowed_host_tags id d.host_tag b' in
      AddsAll-cons c.trigger.run_names spec specs b b'' n (rest (added ++ id ∷ []) b'') e
        (run_names-accept_run c.now c.allowed_host_tags id d.host_tag b' ∙ h)
        (adds (added ++ id ∷ []) b'')
  after_definition-AddsAll added id b b' n (missing_secret token) e h = tt
  after_definition-AddsAll added id b b' n (key_error name) e h = tt

  add_named-AddsAll :
      (added : List ℕ) (id : ℕ) (api_key : Text) (b : Build) (n : Text)
      → run_name c.trigger.run_names spec.name ≡ formatted n
      → AddsAll c.trigger.run_names
          (spec ∷ specs)
          b
          (add_named c before added (id, api_key) spec n b rest)
  unfolding add_named
  add_named-AddsAll added id api_key b n e =
      let r = new_run (id, api_key) n (some c.trigger.name) c.queue_priority in
      elim (Bool-cases (has_text n c.seen)) [
        | inl g ↦ rw g tt
        | inr g ↦ elim (Bool-cases (has_text n (run_names b))) [
          | inl f ↦ rw (g, f) tt
          | inr f ↦
              rw (g, f)
                (after_definition-AddsAll added id b (add_run r b) n _ e
                  (unfold new_run in run_names-add_run r b))
        ]
      ]

  add_spec-AddsAll :
      (added : List ℕ) (keys : ℕ × Text) (b : Build) (f : Formatted)
      → run_name c.trigger.run_names spec.name ≡ f
      → AddsAll c.trigger.run_names (spec ∷ specs) b (add_spec c before added keys spec f b rest)
  unfolding add_spec
  add_spec-AddsAll added (id, key) b (formatted n) e = add_named-AddsAll added id key b n e
  add_spec-AddsAll added keys b value_error e = tt
  add_spec-AddsAll added keys b lookup_error e = tt

add_runs-AddsAll :
    (c : Call) (before : Build) (i : ℕ) (added : List ℕ) (specs : List RunSpec) (b : Build)
    → AddsAll c.trigger.run_names specs b (add_runs c before i added specs b)
unfolding add_runs
add_runs-AddsAll c before i added [] b = ([], tt, sym (append-nil (run_names b)))
add_runs-AddsAll c before i added (spec ∷ specs) b =
    add_spec-AddsAll c before spec specs _
      (λ added' b'. add_runs-AddsAll c before (i + 1) added' specs b') added (c.fresh i) b
      (run_name c.trigger.run_names spec.name) refl

-- Where the addition of a trigger's runs succeeds, the build has the runs that it had, and behind
-- them one for each run of the trigger, in order, under its formatted name.
pub trigger_runs-AddsAll :
    (c : Call) (b : Build) → AddsAll c.trigger.run_names c.trigger.runs b (trigger_runs c b)
unfolding trigger_runs
trigger_runs-AddsAll c b = add_runs-AddsAll c b 0 [] c.trigger.runs b
