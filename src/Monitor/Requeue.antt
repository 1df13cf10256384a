-- ===== src/Monitor/Requeue.antt =====
-- Which runs the monitor puts back into the queue, and which it takes for stuck.
use jobserv.Prelude.{
  ℕ, ◌+◌, ◌<◌, ◌≡◌, ◌≢◌, ◌↔◌, ◌⊎◌, true, false, Option, none, some, List, [], ◌∷◌, map, arith,
}
use jobserv.Status.{queued, running, cancelling, is}
use jobserv.Status.Cumulative.{Same, cumulative-Same_running, cumulative-Same_queued}
use jobserv.Models.{Run, RunEvent, Build, statuses}
use jobserv.Models.Consistency.{IsConsistent}
use jobserv.Monitor.{last_event, is_unacked, requeue, requeue_runs, is_stuck}

-- The last event of the run is there, and older than this.
abbrev pub IsOlder : ℕ → ℕ → Option RunEvent → Type 0
IsOlder now seconds none = ⊥
IsOlder now seconds (some e) = e.time + seconds < now

-- A run goes back to the queue exactly when it is running, no worker has acknowledged it, and its
-- last event is more than 15 seconds old; then its status is all that changes, and else nothing.
pub requeue_lem :
    (now : ℕ) (r : Run)
    → ((requeue now r ≡ r) ⊎ (requeue now r ≡ record r { status = queued }))
      × (((requeue now r).status ≢ r.status) ↔ (
          (r.status ≡ running)
          × (r.running_acked ≡ false)
          × IsOlder now 15 (last_event r.status_events)))
unfolding requeue is
requeue_lem now r = ground arith

-- A run is taken for stuck exactly when it has run for twelve hours since its last event, or was
-- asked to stop more than ten minutes ago.
pub is_stuck_lem :
    (now : ℕ) (r : Run)
    → (is_stuck now r ≡ true) ↔ (
        ((r.status ≡ running) × IsOlder now 43200 (last_event r.status_events))
        ⊎ ((r.status ≡ cancelling) × IsOlder now 600 (last_event r.status_events)))
unfolding is_stuck is
is_stuck_lem now r = ground arith

-- Every run of a build with runs is running, and not acknowledged in time.
abbrev pub AllUnacked : ℕ → List Run → Type 0
AllUnacked now [] = ⊥
AllUnacked now (r ∷ []) = is_unacked now r ≡ true
AllUnacked now (r ∷ s ∷ rs) = (is_unacked now r ≡ true) × AllUnacked now (s ∷ rs)

AllUnacked-Same :
    (now : ℕ) (rs : List Run)
    → AllUnacked now rs
    → Same running (statuses rs) × Same queued (statuses (map (requeue now) rs))
unfolding requeue statuses is
AllUnacked-Same now [] h = absurd h
AllUnacked-Same now (r ∷ []) h = ground arith
AllUnacked-Same now (r ∷ s ∷ rs) h =
    let (a, b) = AllUnacked-Same now (s ∷ rs) h.1 in
    ((ground (arith, h.0), a), (ground (arith, h.0), b))

-- The requeue does not refresh the build: where all runs of a build go back to the queue, a status
-- that was the sum of the runs is so no longer.
pub requeue_runs_stale :
    (now : ℕ) (b : Build)
    → AllUnacked now b.runs
    → IsConsistent b
    → ¬ IsConsistent (requeue_runs now b)
unfolding requeue_runs
requeue_runs_stale now b h c d =
    let (a, q) = AllUnacked-Same now b.runs h in
    ground (
      arith,
      c,
      d,
      cumulative-Same_running (statuses b.runs) a,
      cumulative-Same_queued (statuses (map (requeue now) b.runs)) q,
    )
