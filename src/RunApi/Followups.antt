-- ===== src/RunApi/Followups.antt =====
-- `_create_triggers`, `_handle_build_complete` and `_handle_triggers`: the runs that a finished run
-- or a finished build starts.
use jobserv.Prelude.{
  starts_with, ℕ, ◌+◌, ◌&&◌, Option, none, some, List, [], ◌∷◌, Text, text, text_eq, store,
  if◌then◌else◌,
}
use jobserv.Status.{passed, failed, is, complete}
use jobserv.Models.{Run, Build, find_run, refresh_status, set_status, with_runs}
use jobserv.Project.{Dict, Follow, RunSpec, Trigger, ProjectDefinition, Target, get_trigger, update}
use jobserv.Triggers.{
  Call, Outcome, ok, name_error, api_error, unexpected, raised, run_names, trigger_runs,
}

-- What the storage holds for the build and the run, and what the request tells.
pub record Stored : Type 0 where
  pub now : ℕ
  pub projdef : ProjectDefinition
  pub secrets : Dict
  pub env : Dict
  pub build_params : Dict
  pub url : Text
  pub allowed_host_tags : List Text
  pub target : Text → Text → Target
  pub fresh : ℕ → ℕ → ℕ × Text

unfoldable pub call_for : Stored → ℕ → Dict → ℕ → List Text → Follow → Trigger → Call
call_for s k params queue_priority seen f t = record {
  now = s.now;
  projdef = s.projdef;
  allowed_host_tags = s.allowed_host_tags;
  trigger = record t { run_names = f.run_names };
  params = params;
  secrets = s.secrets;
  queue_priority = queue_priority;
  target = s.target;
  fresh = s.fresh k;
  seen = seen;
}

-- The rest of a handler, if no exception was raised.
abbrev pub and_then : Outcome → (Build → Outcome) → Outcome
and_then (ok b) rest = rest b
and_then (name_error b) rest = name_error b
and_then (api_error b) rest = api_error b
and_then (unexpected b) rest = unexpected b
and_then (raised b) rest = raised b

-- A trigger that the definition does not have raises.
unfoldable pub start_follow :
    Stored → ℕ → Dict → ℕ → List Text → Follow → Option Trigger → Build → Outcome
unfolding call_for
start_follow s k params queue_priority seen f none b = raised b
start_follow s k params queue_priority seen f (some t) b =
    trigger_runs (call_for s k params queue_priority seen f t) b

-- `_create_triggers`, for the names that the session has loaded.
unfoldable pub create_triggers : Stored → ℕ → Dict → ℕ → List Text → List Follow → Build → Outcome
unfolding start_follow
create_triggers s k params queue_priority seen [] b = ok b
create_triggers s k params queue_priority seen (f ∷ fs) b =
    and_then
      (start_follow s k params queue_priority seen f (get_trigger f.name s.projdef.triggers) b)
      (λ b'. create_triggers s (k + 1) params queue_priority seen fs b')

-- `refresh_status`, where the session has loaded the runs `held` of the build.
unfoldable pub refresh_held : ℕ → List Run → Build → Build
refresh_held now held b = with_runs (refresh_status now (with_runs b held)) b.runs

-- `url[: url.find("/runs/") + 1]`; a text without it gives the empty one.
build_url : Text → Option Text
build_url [] = none
build_url (c ∷ url) =
    let more : Option Text = elim (build_url url) [ none ↦ none | some u ↦ some (c ∷ u) ] in
    if starts_with (text "/runs/") (c ∷ url) then some (c ∷ []) else more

unfoldable pub build_params_of : Stored → Dict
unfolding build_url
build_params_of s =
    let url : Text = elim (build_url s.url) [ none ↦ [] | some u ↦ u ] in
    update ((text "H_TRIGGER_URL", url) ∷ []) s.build_params

unfoldable pub first_priority : List Run → ℕ
first_priority [] = 0
first_priority (r ∷ rs) = r.queue_priority

-- `_handle_build_complete`, without the notifications
unfoldable pub handle_build_complete : Stored → Trigger → Build → Outcome
unfolding build_params_of first_priority refresh_held
handle_build_complete s trigger b = elim trigger.triggers [
  | [] ↦ ok b
  | f ∷ fs ↦
      if is b.status passed
      then and_then
          (create_triggers s 1000 (build_params_of s) (first_priority b.runs) (run_names b) (f ∷ fs)
            b)
          (λ b'. ok (refresh_held s.now b.runs b'))
      else ok b
]

-- The loop over the runs of the run's trigger.
unfoldable pub follow_specs : Stored → ℕ → Run → List RunSpec → Build → Outcome
follow_specs s k r [] b = ok b
follow_specs s k r (rt ∷ rts) b =
    let params = store (text "H_TRIGGER_URL") s.url s.env in
    let started =
      and_then (create_triggers s k params r.queue_priority (run_names b) rt.triggers b)
        (λ b'. ok (refresh_status s.now b')) in
    and_then (if text_eq rt.name r.name && is r.status passed then started else ok b)
      (λ b'. follow_specs s (k + 100) r rts b')

unfoldable pub finish_build : Stored → Trigger → Build → Outcome
finish_build s trigger b = if complete b.status then handle_build_complete s trigger b else ok b

-- `except ValueError`: the run fails.
unfoldable pub caught : ℕ → ℕ → Outcome → Outcome
caught now id (name_error b) = ok (set_status now id failed b)
caught now id (ok b) = ok b
caught now id (api_error b) = api_error b
caught now id (unexpected b) = unexpected b
caught now id (raised b) = raised b

unfoldable pub handle_trigger_of : Stored → Run → Option Trigger → Build → Outcome
unfolding follow_specs finish_build caught
handle_trigger_of s r none b = raised b
handle_trigger_of s r (some t) b =
    caught s.now r.id (and_then (follow_specs s 0 r t.runs b) (λ b'. finish_build s t b'))

unfoldable pub handle_run : Stored → Option Run → Build → Outcome
unfolding handle_trigger_of
handle_run s none b = ok b
handle_run s (some r) b = elim r.trigger [
  | none ↦ ok b
  | some name ↦
      if complete r.status
      then handle_trigger_of s r (get_trigger name s.projdef.triggers) b
      else ok b
]

-- `_handle_triggers`
unfoldable pub handle_triggers : Stored → ℕ → Build → Outcome
unfolding handle_run
handle_triggers s id b = handle_run s (find_run id b.runs) b
