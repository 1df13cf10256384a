-- ===== src/Queue/Claim.antt =====
-- The second half of `Run.pop_queued`: the update that takes the run, and the notes on the worker.
-- Each of the three tries to note the worker may raise: `raises` tells which do. A run whose
-- worker cannot be noted is returned all the same.
use mathlib.Core.Option
use jobserv.Prelude.{
  ℕ, zero, suc, ◌+◌, ◌≡◌, refl, ◌≢◌, Bool, true, false, some, ◌∷◌, [], ◌++◌, Text, arith, ◌==◌,
  ==_refl, if◌then◌else◌, ◌⊎◌,
}
use jobserv.Status.{BuildStatus, running, is_refl, is→eq}
use jobserv.Models.{
  Build, Run, find_run, modify_run, with_runs, force_running, changed_rows, update_running,
  refresh_status, add_event,
}
use jobserv.Models.Lookup.{status_of, replace, KeepsId, find_run-modify_run, force_running-KeepsId}
use jobserv.Models.Consistency.{IsConsistent, runs-refresh_status, refresh_status-IsConsistent}

-- `r.worker_name = worker.name; r.running_acked = 0` and the event
unfoldable pub assign_worker : ℕ → Text → Run → Run
assign_worker now name r =
    add_event now running (some name) (record r { worker_name = some name; running_acked = false })

-- One try that does not raise.
unfoldable pub note_worker : ℕ → Text → ℕ → Build → Build
unfolding assign_worker
note_worker now name id b =
    refresh_status now (with_runs b (modify_run id (assign_worker now name) b.runs))

-- `for i in range(3)`
unfoldable pub tries : ℕ → (ℕ → Bool) → ℕ → Build → (Build → Build) → Build
tries zero raises i b note = b
tries (suc n) raises i b note =
    let again = tries n raises (i + 1) b note in if raises i then again else note b

-- The build after the update, and whether the run was taken.
unfoldable pub claim : ℕ → Text → (ℕ → Bool) → ℕ → Build → Build × Bool
unfolding tries
claim now name raises id b =
    let (b', rows) = update_running id b in
    if rows == 1 then (tries 3 raises 0 b' (note_worker now name id), true) else (b', false)

assign_worker-KeepsId : (now : ℕ) (name : Text) → KeepsId (assign_worker now name)
unfolding assign_worker add_event
assign_worker-KeepsId now name r = refl

-- Only a run that is not running yet is taken: of two workers that found the same run, the second
-- gets nothing.
pub claim-running :
    (now : ℕ) (name : Text) (raises : ℕ → Bool) (id : ℕ) (b : Build)
    → status_of id b.runs ≡ some running
    → (claim now name raises id b).1 ≡ false
unfolding claim update_running changed_rows status_of
claim-running now name raises id b h = ground (arith, is_refl running)

status_of-update_running :
    (id j : ℕ) (b : Build)
    → status_of j (update_running id b).0.runs ≡ replace (id == j) running (status_of j b.runs)
unfolding update_running status_of with_runs force_running
status_of-update_running id j b =
    ground (arith, find_run-modify_run id force_running force_running-KeepsId j b.runs)

status_of-note_worker :
    (now : ℕ) (name : Text) (id j : ℕ) (b : Build)
    → status_of j (note_worker now name id b).runs ≡ status_of j b.runs
unfolding note_worker status_of with_runs add_event
status_of-note_worker now name id j b = ground (
  arith,
  runs-refresh_status now (with_runs b (modify_run id (assign_worker now name) b.runs)),
  find_run-modify_run id (assign_worker now name) (assign_worker-KeepsId now name) j b.runs,
)

-- After a claim the run is running, whatever its state was before, taken or not and with or without
-- an error in the notes; no other run of the build changes its state.
pub status_of-claim :
    (now : ℕ) (name : Text) (raises : ℕ → Bool) (id j : ℕ) (b : Build)
    → status_of j (claim now name raises id b).0.runs
      ≡ replace (id == j) running (status_of j b.runs)
unfolding claim
status_of-claim now name raises id j b = ground (
  arith,
  status_of-update_running id j b,
  status_of-note_worker now name id j (update_running id b).0,
)

-- A run is taken from any state but `running`: also one that failed, or was asked to stop, since
-- the query saw it queued.
pub claim-taken :
    (now : ℕ) (name : Text) (raises : ℕ → Bool) (id : ℕ) (b : Build) (s : BuildStatus)
    → status_of id b.runs ≡ some s
    → s ≢ running
    → (claim now name raises id b).1 ≡ true
unfolding claim update_running changed_rows status_of
claim-taken now name raises id b s h n = ground (arith, is→eq s running)

-- Two workers that found the same run: the first update takes it, and the second gets nothing.
pub claim_once :
    (now later : ℕ) (name other : Text) (raises raises' : ℕ → Bool) (id : ℕ) (b : Build)
    (s : BuildStatus)
    → status_of id b.runs ≡ some s
    → s ≢ running
    → ((claim now name raises id b).1 ≡ true)
      × ((claim later other raises' id (claim now name raises id b).0).1 ≡ false)
claim_once now later name other raises raises' id b s h n = (
  claim-taken now name raises id b s h n,
  claim-running later other raises' id (claim now name raises id b).0
      (ground (arith, status_of-claim now name raises id id b, ==_refl id)),
)

statuses-note_worker :
    (now : ℕ) (name : Text) (id : ℕ) (b : Build) → IsConsistent (note_worker now name id b)
unfolding note_worker
statuses-note_worker now name id b =
    refresh_status-IsConsistent now (with_runs b (modify_run id (assign_worker now name) b.runs))

find_run-note_worker :
    (now : ℕ) (name : Text) (id : ℕ) (b : Build)
    → find_run id (note_worker now name id b).runs
      ≡ Option.map (assign_worker now name) (find_run id b.runs)
unfolding note_worker with_runs
find_run-note_worker now name id b = ground (
  arith,
  runs-refresh_status now (with_runs b (modify_run id (assign_worker now name) b.runs)),
  find_run-modify_run id (assign_worker now name) (assign_worker-KeepsId now name) id b.runs,
  ==_refl id,
)

-- A run in the hands of a worker: it has the worker's name, was not acknowledged, and its last event
-- tells when it began to run, and where.
abbrev pub assigned : ℕ → Text → Run → Run
assigned now name r = record r {
  status = running;
  worker_name = some name;
  running_acked = false;
  status_events =
      r.status_events ++ record { time = now; status = running; worker_name = some name } ∷ [];
}

-- Some try of the three does not raise.
abbrev pub SomeTry : (ℕ → Bool) → Type 0
SomeTry raises = (raises 0 ≡ false) ⊎ (raises 1 ≡ false) ⊎ (raises 2 ≡ false)

-- A run that is taken, where one of the tries does not raise: it is running, carries the worker's name,
-- waits for the worker's acknowledgement, has one more event, with the time, the state and the worker,
-- and is otherwise as it was; and its build's status is up to date.
pub claim-assigns :
    (now : ℕ) (name : Text) (raises : ℕ → Bool) (id : ℕ) (b : Build) (r : Run)
    → find_run id b.runs ≡ some r
    → r.status ≢ running
    → SomeTry raises
    → (find_run id (claim now name raises id b).0.runs ≡ some (assigned now name r))
      × IsConsistent (claim now name raises id b).0
unfolding claim update_running changed_rows with_runs assign_worker force_running add_event
claim-assigns now name raises id b r h n t =
    let b' = with_runs b (modify_run id force_running b.runs) in
    ground (
      arith,
      is→eq r.status running,
      find_run-note_worker now name id b',
      statuses-note_worker now name id b',
      find_run-modify_run id force_running force_running-KeepsId id b.runs,
      ==_refl id,
    )
