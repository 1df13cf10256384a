-- ===== src/Models/Events.antt =====
-- The history of a run: one event for each change of its status.
use jobserv.Prelude.{ℕ, ◌≡◌, none, some, arith, ◌≢◌}
use jobserv.Status.{BuildStatus, is→eq, is_refl}
use jobserv.Models.{
  Run, Build, find_run, modify_run, add_event, assign_status, with_runs, change_status,
  refresh_status, set_status,
}
use jobserv.Models.Lookup.{
  find_run-modify_run, add_event-KeepsId, assign_status-KeepsId, find_run-id,
}
use jobserv.Models.Consistency.{runs-refresh_status}

-- Setting another status writes it, adds one event with it and the time, and clears the worker's
-- acknowledgement if the run is queued again. All other columns stay.
pub find_run-set_status :
    (now i : ℕ) (s : BuildStatus) (b : Build) (r : Run)
    → find_run i b.runs ≡ some r
    → r.status ≢ s
    → find_run i (set_status now i s b).runs ≡ some (add_event now s none (assign_status s r))
unfolding set_status change_status with_runs
find_run-set_status now i s b r e n =
    let saved = with_runs b (modify_run r.id (assign_status s) b.runs) in
    ground (
      arith,
      find_run-id i b.runs r e,
      is→eq r.status s,
      find_run-modify_run r.id (add_event now s none) (add_event-KeepsId now s none) i
          (refresh_status now saved).runs,
      runs-refresh_status now saved,
      find_run-modify_run r.id (assign_status s) (assign_status-KeepsId s) i b.runs,
    )

-- Setting the status that a run already has changes nothing at all, and writes no event.
pub set_status-same :
    (now i : ℕ) (s : BuildStatus) (b : Build) (r : Run)
    → find_run i b.runs ≡ some r
    → r.status ≡ s
    → set_status now i s b ≡ b
unfolding set_status
set_status-same now i s b r e h = ground (arith, is_refl s)
