-- ===== src/Models.antt =====
-- jobserv/models.py: projects, builds, runs and tests, and what changes their states.
-- A build holds its runs and events as the relationships of the source do; `id` is the key of a
-- row, and a run is found in its build by it. The clock is an argument of each operation.
pub mod Lookup
pub mod Consistency
pub mod Cancel
pub mod Events
pub mod Results
pub mod Keys
mod Samples
use jobserv.Prelude.{
  ℕ, zero, suc, ◌+◌, Bool, true, false, not, Option, none, some, List, [], ◌∷◌, ◌++◌, map, Text,
  ◌==◌, if◌then◌else◌,
}
use jobserv.Status.{
  BuildStatus, queued, running, passed, failed, cancelling, is, get_cumulative_status,
}

pub record Project : Type 0 where
  pub id : ℕ
  pub name : Text
  pub synchronous_builds : Bool
  -- no tags stand for the source's `None`
  pub allowed_host_tags : List Text

pub record TestResult : Type 0 where
  pub name : Text
  pub status : BuildStatus
  pub output : Option Text

pub record Test : Type 0 where
  pub name : Text
  pub context : Option Text
  pub status : BuildStatus
  pub results : List TestResult

pub record RunEvent : Type 0 where
  pub time : ℕ
  pub status : BuildStatus
  pub worker_name : Option Text

pub record Run : Type 0 where
  pub id : ℕ
  pub name : Text
  pub status : BuildStatus
  pub running_acked : Bool
  pub api_key : Text
  pub trigger : Option Text
  pub meta : Option Text
  pub worker_name : Option Text
  pub queue_priority : ℕ
  pub host_tag : Text
  pub status_events : List RunEvent
  pub tests : List Test

pub record BuildEvent : Type 0 where
  pub time : ℕ
  pub status : BuildStatus

pub record Build : Type 0 where
  pub id : ℕ
  pub build_id : ℕ
  pub proj_id : ℕ
  pub status : BuildStatus
  pub trigger_name : Text
  pub name : Option Text
  pub annotation : Option Text
  pub runs : List Run
  pub status_events : List BuildEvent

pub record Db : Type 0 where
  pub projects : List Project
  pub builds : List Build

-- The row of a key.
unfoldable pub find_run : ℕ → List Run → Option Run
find_run id [] = none
find_run id (r ∷ rs) = if r.id == id then some r else find_run id rs

-- A change of the row of a key.
unfoldable pub modify_run : ℕ → (Run → Run) → List Run → List Run
modify_run id f [] = []
modify_run id f (r ∷ rs) = if r.id == id then f r ∷ rs else r ∷ modify_run id f rs

unfoldable pub statuses : List Run → List BuildStatus
statuses = map (λ r. r.status)

-- `Build.refresh_status`
unfoldable pub refresh_status : ℕ → Build → Build
unfolding statuses
refresh_status now b =
    let status = get_cumulative_status (statuses b.runs) in
    if is b.status status then b else record b {
      status = status;
      status_events = b.status_events ++ record { time = now; status = status } ∷ [];
    }

-- The columns that `Run.set_status` writes.
unfoldable pub assign_status : BuildStatus → Run → Run
unfolding is
assign_status status r = record r {
  status = status;
  running_acked = if is status queued then false else r.running_acked;
}

unfoldable pub add_event : ℕ → BuildStatus → Option Text → Run → Run
add_event now status worker r = record r {
  status_events =
      r.status_events ++ record { time = now; status = status; worker_name = worker } ∷ [];
}

unfoldable pub with_runs : Build → List Run → Build
with_runs b runs = record b { runs = runs }

-- `Run.set_status`, for a run that the build has.
unfoldable pub change_status : ℕ → ℕ → BuildStatus → Build → Build
unfolding assign_status add_event with_runs
change_status now id status b =
    let saved = with_runs b (modify_run id (assign_status status) b.runs) in
    let refreshed = refresh_status now saved in
    with_runs refreshed (modify_run id (add_event now status none) refreshed.runs)

unfoldable pub set_status_of : ℕ → Option Run → BuildStatus → Build → Build
unfolding change_status
set_status_of now none status b = b
set_status_of now (some r) status b =
    if is r.status status then b else change_status now r.id status b

unfoldable pub set_status : ℕ → ℕ → BuildStatus → Build → Build
unfolding set_status_of
set_status now id status b = set_status_of now (find_run id b.runs) status b

-- `UPDATE runs SET _status = 2 WHERE id = …`, with the number of the rows that it changed: a row
-- that held the value before is not counted.
unfoldable pub force_running : Run → Run
force_running r = record r { status = running }

unfoldable pub changed_rows : Option Run → ℕ
changed_rows none = 0
changed_rows (some r) = if is r.status running then 0 else 1

unfoldable pub update_running : ℕ → Build → Build × ℕ
unfolding force_running changed_rows with_runs
update_running id b =
    (with_runs b (modify_run id force_running b.runs), changed_rows (find_run id b.runs))

-- `Run.cancel`
unfoldable pub cancel : ℕ → ℕ → Build → Build
cancel now id b =
    let (b', rows) = update_running id b in
    if rows == 1 then set_status now id failed b' else set_status now id cancelling b'

unfoldable pub cancel_each : ℕ → List ℕ → Build → Build
cancel_each now [] b = b
cancel_each now (id ∷ ids) b = cancel_each now ids (cancel now id b)

unfoldable pub run_ids : List Run → List ℕ
run_ids = map (λ r. r.id)

-- jobserv/api/build.py, `build_cancel`: every run of the build is cancelled.
unfoldable pub build_cancel : ℕ → Build → Build
build_cancel now b = cancel_each now (run_ids b.runs) b
