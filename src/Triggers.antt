-- ===== src/Triggers.antt =====
-- jobserv/trigger.py: adding the runs of a trigger to a build. The keys of the new rows and their
-- API keys (random texts) are arguments: `fresh i` are those of the i-th new run.
pub mod Names
pub mod Added
mod Samples
use jobserv.Prelude.{
  ℕ, zero, suc, ◌+◌, Bool, true, false, not, ◌&&◌, ◌||◌, Option, none, some, List, [], ◌∷◌, ◌++◌,
  map, any, Text, text, text_eq, has_text, lookup, Formatted, formatted, value_error, lookup_error,
  format, if◌then◌else◌,
}
use jobserv.Status.{BuildStatus, queued, failed}
use jobserv.Models.{Run, Build, set_status, with_runs, modify_run}
use jobserv.Project.{
  TriggerTypes, git_poller, github_pr, simple, gitlab_mr, Dict, RunSpec, Trigger, ProjectDefinition,
  Target, RunDefinition, DefinitionResult, defined, missing_secret, key_error, get_run_definition,
}

-- How the addition of runs ends: the build as it then is in the session.
pub data Outcome : Type 0 where
  ok : Build → Outcome
  -- `ValueError`, as for a name that the session knows; the callers handle it
  name_error : Build → Outcome
  -- `ApiError(400, …)`
  api_error : Build → Outcome
  -- any other exception while runs are added becomes `ApiError(500, …)`: the build and the new runs
  -- are failed, and that is committed
  unexpected : Build → Outcome
  -- an exception that nothing catches, as the commit after a constraint was violated: the build as it
  -- was before, since nothing was committed
  raised : Build → Outcome

-- `_check_for_trigger_upgrade`
unfoldable pub upgraded : TriggerTypes → Option TriggerTypes → TriggerTypes
upgraded simple (some github_pr) = github_pr
upgraded simple (some git_poller) = git_poller
upgraded type parent = type

-- `name_fmt.format(name=name)`, if there is a format
unfoldable pub run_name : Option Text → Text → Formatted
run_name none name = formatted name
run_name (some []) name = formatted name
run_name (some (c ∷ name_fmt)) name = format ((text "name", name) ∷ []) (c ∷ name_fmt)

-- `Run(build, name, trigger, queue_priority)`
unfoldable pub new_run : ℕ × Text → Text → Option Text → ℕ → Run
new_run (id, api_key) name trigger queue_priority = record {
  id = id;
  name = name;
  status = queued;
  running_acked = false;
  api_key = api_key;
  trigger = trigger;
  meta = none;
  worker_name = none;
  queue_priority = queue_priority;
  host_tag = [];
  status_events = [];
  tests = [];
}

unfoldable pub run_names : Build → List Text
run_names b = map (λ r. r.name) b.runs

unfoldable pub add_run : Run → Build → Build
unfolding with_runs
add_run r b = with_runs b (b.runs ++ r ∷ [])

set_tag : Text → Run → Run
set_tag tag r = record r { host_tag = tag }

unfoldable pub tag_run : ℕ → Text → Build → Build
unfolding with_runs set_tag
tag_run id tag b = with_runs b (modify_run id (set_tag tag) b.runs)

-- `if allowed_host_tags and r.host_tag not in allowed_host_tags`
unfoldable pub tag_refused : List Text → Text → Bool
tag_refused [] tag = false
tag_refused (t ∷ tags) tag = not (has_text tag (t ∷ tags))

-- `_fail_run`, and the build's failure
fail_run : ℕ → ℕ → Build → Build
fail_run now id b = record (set_status now id failed b) { status = failed }

-- A run whose definition was made.
unfoldable pub accept_run : ℕ → List Text → ℕ → Text → Build → Build
unfolding fail_run
accept_run now allowed_host_tags id tag b =
    let tagged = tag_run id tag b in
    if tag_refused allowed_host_tags tag then fail_run now id tagged else tagged

fail_added : List ℕ → Build → Build
fail_added [] b = b
fail_added (id ∷ ids) b =
    fail_added ids (with_runs b (modify_run id (λ r. record r { status = failed }) b.runs))

-- `except Exception`
unfoldable pub fail_all : List ℕ → Build → Build
unfolding fail_added
fail_all added b = record (fail_added added b) { status = failed }

-- What `trigger_runs` is called with; `seen` are the names of `build.runs` as the session has loaded them,
-- which a flush does not load again.
pub record Call : Type 0 where
  pub now : ℕ
  pub projdef : ProjectDefinition
  pub allowed_host_tags : List Text
  pub trigger : Trigger
  pub params : Dict
  pub secrets : Dict
  pub queue_priority : ℕ
  pub target : Text → Text → Target
  pub fresh : ℕ → ℕ × Text
  pub seen : List Text

-- The body of the loop after the definition of the run, with the rest of the loop.
after_definition :
    Call → List ℕ → ℕ → Build → DefinitionResult → (List ℕ → Build → Outcome) → Outcome
after_definition c added id b (defined d) rest =
    rest (added ++ id ∷ []) (accept_run c.now c.allowed_host_tags id d.host_tag b)
after_definition c added id b (missing_secret token) rest = api_error b
after_definition c added id b (key_error name) rest = unexpected (fail_all (added ++ id ∷ []) b)

-- One run of the trigger, under its name. A name that the session does not know, of a run that the
-- build has, violates the constraint `run_name_uc`, and the commit of the handler raises.
add_named :
    Call → Build → List ℕ → ℕ × Text → RunSpec → Text → Build → (List ℕ → Build → Outcome) → Outcome
unfolding after_definition
add_named c before added (id, api_key) spec name b rest =
    if has_text name c.seen
    then name_error b
    else if has_text name (run_names b)
    then raised before
    else (let b' = add_run (new_run (id, api_key) name (some c.trigger.name) c.queue_priority) b in
        let result =
          get_run_definition c.projdef (c.target name api_key) spec c.trigger c.params c.secrets in
        after_definition c added id b' result rest)

-- The name of one run, and its addition under that name.
add_spec :
    Call
    → Build
    → List ℕ
    → ℕ × Text
    → RunSpec
    → Formatted
    → Build
    → (List ℕ → Build → Outcome)
    → Outcome
unfolding add_named
add_spec c before added keys spec (formatted name) b rest =
    add_named c before added keys spec name b rest
add_spec c before added keys spec value_error b rest = name_error b
add_spec c before added keys spec lookup_error b rest = unexpected (fail_all added b)

-- The loop over the runs: `i` counts them, `added` has the keys of the new runs so far, and `before` is
-- the build as it was.
unfoldable pub add_runs : Call → Build → ℕ → List ℕ → List RunSpec → Build → Outcome
unfolding add_spec
add_runs c before i added [] b = ok b
add_runs c before i added (spec ∷ specs) b =
    add_spec c before added (c.fresh i) spec (run_name c.trigger.run_names spec.name) b
      (λ added' b'. add_runs c before (i + 1) added' specs b')

-- `trigger_runs`
unfoldable pub trigger_runs : Call → Build → Outcome
trigger_runs c b = add_runs c b 0 [] c.trigger.runs b

unfoldable pub build_of : Outcome → Build
build_of (ok b) = b
build_of (name_error b) = b
build_of (api_error b) = b
build_of (unexpected b) = b
build_of (raised b) = b
