-- ===== src/RunApi/Names.antt =====
-- Follow-ups of a finished run and the names of a build's runs.
use jobserv.Prelude.{
  ℕ, ◌+◌, ◌≡◌, ◌⊎◌, refl, inl, inr, Bool, true, false, ◌&&◌, Option, none, some, List, [], ◌∷◌,
  Text, text, text_eq, store, Option-cases, if◌then◌else◌,
}
use jobserv.Status.{BuildStatus, passed, failed, is, complete}
use jobserv.Models.{Run, Build, find_run, refresh_status, set_status, with_runs}
use jobserv.Models.Consistency.{runs-refresh_status}
use jobserv.Project.{Dict, Follow, RunSpec, Trigger, get_trigger}
use jobserv.Triggers.{Outcome, ok, name_error, api_error, unexpected, raised, build_of, run_names}
use jobserv.Triggers.Names.{IsNamed, trigger_runs-IsNamed, run_names-set_status}
use jobserv.RunApi.Followups.{
  refresh_held, Stored, and_then, start_follow, call_for, create_triggers, handle_build_complete,
  follow_specs, finish_build, caught, handle_trigger_of, handle_run, handle_triggers,
  build_params_of, first_priority,
}

abbrev pub KeepsNames : Outcome → Type 0
KeepsNames o = IsNamed (build_of o)

and_then-IsNamed :
    (o : Outcome) (rest : Build → Outcome)
    → KeepsNames o
    → ((b : Build) → IsNamed b → KeepsNames (rest b))
    → KeepsNames (and_then o rest)
unfolding build_of
and_then-IsNamed (ok b) rest h k = k b h
and_then-IsNamed (name_error b) rest h k = h
and_then-IsNamed (api_error b) rest h k = h
and_then-IsNamed (unexpected b) rest h k = h
and_then-IsNamed (raised b) rest h k = h

refresh_status-IsNamed : (now : ℕ) (b : Build) → IsNamed b → IsNamed (refresh_status now b)
unfolding run_names
refresh_status-IsNamed now b h = rw (runs-refresh_status now b) h

pub set_status-IsNamed :
    (now id : ℕ) (s : BuildStatus) (b : Build) → IsNamed b → IsNamed (set_status now id s b)
set_status-IsNamed now id s b h = rw (run_names-set_status now id s b) h

start_follow-IsNamed :
    (s : Stored) (k : ℕ) (params : Dict) (q : ℕ) (seen : List Text) (f : Follow)
    (t : Option Trigger) (b : Build)
    → IsNamed b
    → KeepsNames (start_follow s k params q seen f t b)
unfolding start_follow build_of
start_follow-IsNamed s k params q seen f none b h = h
start_follow-IsNamed s k params q seen f (some t) b h =
    trigger_runs-IsNamed (call_for s k params q seen f t) b h

create_triggers-IsNamed :
    (s : Stored) (k : ℕ) (params : Dict) (q : ℕ) (seen : List Text) (fs : List Follow) (b : Build)
    → IsNamed b
    → KeepsNames (create_triggers s k params q seen fs b)
unfolding create_triggers build_of
create_triggers-IsNamed s k params q seen [] b h = h
create_triggers-IsNamed s k params q seen (f ∷ fs) b h =
    and_then-IsNamed (start_follow s k params q seen f (get_trigger f.name s.projdef.triggers) b) _
      (start_follow-IsNamed s k params q seen f (get_trigger f.name s.projdef.triggers) b h)
      (λ b' h'. create_triggers-IsNamed s (k + 1) params q seen fs b' h')

-- The runs that are created, and the build's status after that.
refreshed-IsNamed :
    (s : Stored) (k : ℕ) (params : Dict) (q : ℕ) (seen : List Text) (fs : List Follow) (b : Build)
    → IsNamed b
    → KeepsNames
        (and_then (create_triggers s k params q seen fs b) (λ b'. ok (refresh_status s.now b')))
unfolding build_of
refreshed-IsNamed s k params q seen fs b h =
    and_then-IsNamed (create_triggers s k params q seen fs b) _
      (create_triggers-IsNamed s k params q seen fs b h)
      (λ b' h'. refresh_status-IsNamed s.now b' h')

held-IsNamed :
    (s : Stored) (k : ℕ) (params : Dict) (q : ℕ) (seen : List Text) (held : List Run)
    (fs : List Follow) (b : Build)
    → IsNamed b
    → KeepsNames
        (and_then (create_triggers s k params q seen fs b) (λ b'. ok (refresh_held s.now held b')))
unfolding build_of run_names refresh_held with_runs
held-IsNamed s k params q seen held fs b h =
    and_then-IsNamed (create_triggers s k params q seen fs b) _
      (create_triggers-IsNamed s k params q seen fs b h) (λ b' h'. h')

pub if-KeepsNames :
    (c : Bool) (o p : Outcome) → KeepsNames o → KeepsNames p → KeepsNames (if c then o else p)
if-KeepsNames true o p h k = h
if-KeepsNames false o p h k = k

follow_specs-IsNamed :
    (s : Stored) (k : ℕ) (r : Run) (rts : List RunSpec) (b : Build)
    → IsNamed b
    → KeepsNames (follow_specs s k r rts b)
unfolding follow_specs build_of
follow_specs-IsNamed s k r [] b h = h
follow_specs-IsNamed s k r (rt ∷ rts) b h =
    let started =
      and_then
        (create_triggers s k (store (text "H_TRIGGER_URL") s.url s.env) r.queue_priority
          (run_names b) rt.triggers b)
        (λ b'. ok (refresh_status s.now b')) in
    let passes = text_eq rt.name r.name && is r.status passed in
    and_then-IsNamed (if passes then started else ok b) (λ b'. follow_specs s (k + 100) r rts b')
      (if-KeepsNames passes started (ok b)
        (refreshed-IsNamed s k (store (text "H_TRIGGER_URL") s.url s.env) r.queue_priority
          (run_names b) rt.triggers b h)
        h)
      (λ b' h'. follow_specs-IsNamed s (k + 100) r rts b' h')

pub List-cases : {A : Type 0} → (xs : List A) → (xs ≡ []) ⊎ ((x : A) × (l : List A) × (xs ≡ x ∷ l))
List-cases [] = inl refl
List-cases (x ∷ l) = inr (x, l, refl)

handle_build_complete-IsNamed :
    (s : Stored) (t : Trigger) (b : Build) → IsNamed b → KeepsNames (handle_build_complete s t b)
unfolding handle_build_complete build_of
handle_build_complete-IsNamed s t b h = elim (List-cases t.triggers) [
  | inl e ↦ rw e h
  | inr (f, fs, e) ↦ rw e (
      if-KeepsNames (is b.status passed) _ (ok b)
        (held-IsNamed s 1000 (build_params_of s) (first_priority b.runs) (run_names b) b.runs
          (f ∷ fs) b h)
        h)
]

finish_build-IsNamed :
    (s : Stored) (t : Trigger) (b : Build) → IsNamed b → KeepsNames (finish_build s t b)
unfolding finish_build build_of
finish_build-IsNamed s t b h =
    if-KeepsNames (complete b.status) _ (ok b) (handle_build_complete-IsNamed s t b h) h

caught-IsNamed : (now id : ℕ) (o : Outcome) → KeepsNames o → KeepsNames (caught now id o)
unfolding caught build_of
caught-IsNamed now id (ok b) h = h
caught-IsNamed now id (name_error b) h = set_status-IsNamed now id failed b h
caught-IsNamed now id (api_error b) h = h
caught-IsNamed now id (unexpected b) h = h
caught-IsNamed now id (raised b) h = h

handle_trigger_of-IsNamed :
    (s : Stored) (r : Run) (t : Option Trigger) (b : Build)
    → IsNamed b
    → KeepsNames (handle_trigger_of s r t b)
unfolding handle_trigger_of build_of
handle_trigger_of-IsNamed s r none b h = h
handle_trigger_of-IsNamed s r (some t) b h =
    let finish = λ (b' : Build). finish_build s t b' in
    caught-IsNamed s.now r.id (and_then (follow_specs s 0 r t.runs b) finish) (
      and_then-IsNamed (follow_specs s 0 r t.runs b) finish (follow_specs-IsNamed s 0 r t.runs b h)
        (λ b' h'. finish_build-IsNamed s t b' h'))

handle_run-IsNamed :
    (s : Stored) (r : Option Run) (b : Build) → IsNamed b → KeepsNames (handle_run s r b)
unfolding handle_run build_of
handle_run-IsNamed s none b h = h
handle_run-IsNamed s (some r) b h = elim (Option-cases r.trigger) [
  | inl e ↦ rw e h
  | inr (name, e) ↦ rw e (
      if-KeepsNames (complete r.status) _ (ok b)
        (handle_trigger_of-IsNamed s r (get_trigger name s.projdef.triggers) b h) h)
]

-- However the follow-ups of a finished run end, no two runs of the build have one name.
pub handle_triggers-IsNamed :
    (s : Stored) (id : ℕ) (b : Build) → IsNamed b → IsNamed (build_of (handle_triggers s id b))
unfolding handle_triggers
handle_triggers-IsNamed s id b h = handle_run-IsNamed s (find_run id b.runs) b h
