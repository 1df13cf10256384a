-- ===== src/Monitor.antt =====
-- jobserv/worker.py: the monitor's checks of workers and of runs. Times are in seconds.
pub mod Online
pub mod Requeue
pub mod Termination
pub mod Ended
mod Samples
use jobserv.Prelude.{
  ℕ, zero, suc, ◌+◌, ◌-◌, ◌*◌, Bool, true, false, not, ◌&&◌, ◌||◌, Option, none, some, List, [],
  ◌∷◌, map, Text, ltb, ◌==◌, if◌then◌else◌,
}
use jobserv.Status.{BuildStatus, queued, running, cancelling, failed, is}
use jobserv.Models.{Run, RunEvent, Build, Db}
use jobserv.Workers.{Worker}

-- `os.stat` of a worker's pings log.
pub record Stat : Type 0 where
  pub mtime : ℕ
  pub size : ℕ

-- What becomes of the pings log.
pub data LogAction : Type 0 where
  kept rotated truncated : LogAction

abbrev pub max_log : ℕ
max_log = 1024 * 1024

unfoldable pub offline_after : Worker → ℕ
offline_after w = if w.surges_only then 120 else 80

mark_offline : Bool → Worker → Worker
mark_offline late w = if late && w.online then record w { online = false } else w

-- An emptied log keeps the time of the last ping.
trim_log : Bool → Stat → Stat × LogAction
trim_log rotate st =
    if ltb max_log st.size
    then (record st { size = 0 }, if rotate then rotated else truncated)
    else (st, kept)

-- `_check_worker`: the worker, its log (`none` if there is no file) and what was done to the log.
unfoldable pub check_worker : ℕ → Bool → Option Stat → Worker → Worker × Option Stat × LogAction
unfolding mark_offline trim_log offline_after
check_worker now rotate none w = (mark_offline true w, none, kept)
check_worker now rotate (some st) w =
    let (st', action) = trim_log rotate st in
    (mark_offline (ltb (offline_after w) (now - st.mtime)) w, some st', action)

unfoldable pub last_event : List RunEvent → Option RunEvent
last_event [] = none
last_event (e ∷ []) = some e
last_event (e ∷ f ∷ es) = last_event (f ∷ es)

older_than : ℕ → ℕ → Option RunEvent → Bool
older_than now seconds none = false
older_than now seconds (some e) = ltb (e.time + seconds) now

-- The filter of `_check_acked` and its test of the time.
unfoldable pub is_unacked : ℕ → Run → Bool
unfolding older_than
is_unacked now r =
    is r.status running && not r.running_acked && older_than now 15 (last_event r.status_events)

-- `_check_acked`: the status is written directly, with no event and no refresh of the build.
unfoldable pub requeue : ℕ → Run → Run
unfolding is_unacked
requeue now r = if is_unacked now r then record r { status = queued } else r

unfoldable pub requeue_runs : ℕ → Build → Build
unfolding requeue
requeue_runs now b = record b { runs = map (requeue now) b.runs }

unfoldable pub check_acked : ℕ → Db → Db
unfolding requeue_runs
check_acked now db = record db { builds = map (requeue_runs now) db.builds }

-- The filter of `_check_stuck` and its test of the time: twelve hours, or ten minutes for a run
-- that was asked to stop.
unfoldable pub is_stuck : ℕ → Run → Bool
unfolding older_than
is_stuck now r =
    (is r.status running || is r.status cancelling)
    && older_than now (if is r.status cancelling then 10 * 60 else 12 * 3600)
        (last_event r.status_events)

no_worker : Option Text → Bool
no_worker none = true
no_worker (some w) = false

-- The filter of `_check_cancelled`.
unfoldable pub is_orphan : Run → Bool
unfolding no_worker
is_orphan r = is r.status cancelling && no_worker r.worker_name
