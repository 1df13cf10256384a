-- ===== src/Monitor/Online.antt =====
-- When the monitor marks a worker offline.
use jobserv.Prelude.{ℕ, ◌+◌, ◌<◌, ◌≡◌, Bool, Option, none, some, arith, if◌then◌else◌}
use jobserv.Workers.{Worker}
use jobserv.Monitor.{Stat, kept, check_worker}

-- The last check-in was more than 80 seconds ago, or 120 of a worker for surges.
abbrev pub IsLate : ℕ → Option Stat → Worker → Type 0
IsLate now none w = Unit
IsLate now (some st) w = st.mtime + (if w.surges_only then 120 else 80) < now

-- Emptying the log does not make the worker late: a second check at any later time judges it as it
-- would have with the old log, and finds the log small.
pub check_worker-again :
    (now later : ℕ) (rotate : Bool) (st : Stat) (w : Worker)
    → let (w', log, action) = check_worker now rotate (some st) w in
      ((check_worker later rotate log w').0 ≡ (check_worker later rotate (some st) w').0)
      × ((check_worker later rotate log w').2 ≡ kept)
unfolding check_worker
check_worker-again now later rotate st w = ground arith
