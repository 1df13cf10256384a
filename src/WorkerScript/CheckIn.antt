-- ===== src/WorkerScript/CheckIn.antt =====
-- `cmd_check` with the server: `worker_get` answers with runs, each of them gets a lock, and each is
-- carried out by a process of its own. A process that has carried out a run returns from
-- `_handle_run` as its parent does, and goes on with the runs that follow in the list.
use jobserv.Prelude.{
  ℕ, ◌+◌, ◌≡◌, refl, inl, inr, Bool, List, [], ◌∷◌, ◌++◌, some, map, length, select, Text, arith,
  Bool-cases, if◌then◌else◌,
}
use jobserv.Models.{Db}
use jobserv.Workers.{Worker}
use jobserv.Queue.{Row}
use jobserv.WorkerApi.Polling.{Polled, worker_get, worker_get-Fits}
use jobserv.WorkerScript.Locks.{Lock, aquire_all, aquire_all_lem, StillHeld, available}

-- The loop of `cmd_check`: the runs that are executed, by the process and by those that it starts.
-- `forks` tells whether a run comes as far as the fork, and `exits` whether its process ends there.
unfoldable pub executions {ℓ} : {A : Type ℓ} → (A → Bool) → (A → Bool) → List A → List A
executions forks exits [] = []
executions forks exits (r ∷ rs) =
    let rest = executions forks exits rs in
    if forks r then r ∷ (if exits r then [] else rest) ++ rest else rest

-- The runs that a check-in gets from the server.
unfoldable pub check_in :
    ℕ → List Text → ℕ → Worker → List Lock → ℕ → (ℕ → Bool) → (Row → Bool) → Db → Polled
check_in now surges threshold w locks disk_free raises prepares db =
    worker_get now surges threshold w (available locks) disk_free raises prepares db

executions-one {ℓ} :
    {A : Type ℓ} (forks exits : A → Bool) (r : A)
    → executions forks exits (r ∷ []) ≡ select forks (r ∷ [])
unfolding executions
executions-one forks exits r = elim (Bool-cases (forks r)) [
  | inl e ↦ elim (Bool-cases (exits r)) [ inl f ↦ rw (e, f) refl | inr f ↦ rw (e, f) refl ]
  | inr e ↦ rw e refl
]

-- Each of the runs gets a lock that was free.
abbrev pub Locked : List Text → List Lock → Type 0
Locked reasons locks =
    (locks' : List Lock) × (aquire_all reasons locks ≡ some locks')
    × StillHeld locks locks'
    × (available locks ≡ length reasons + available locks')

-- A check-in gets no more runs than it has free locks: each run gets one, and the locks of other processes
-- stay theirs. Each run that comes as far as the fork is carried out once, by one process.
pub check_in-Locked :
    (now : ℕ) (surges : List Text) (threshold : ℕ) (w : Worker) (locks : List Lock) (disk_free : ℕ)
    (raises : ℕ → Bool) (prepares : Row → Bool) (db : Db) (reason : Row → Text)
    (forks exits : Row → Bool)
    → Locked
        (map reason (check_in now surges threshold w locks disk_free raises prepares db).run_defs)
        locks
      × (executions forks exits
            (check_in now surges threshold w locks disk_free raises prepares db).run_defs
          ≡ select forks
              (check_in now surges threshold w locks disk_free raises prepares db).run_defs)
unfolding check_in
check_in-Locked now surges threshold w locks disk_free raises prepares db reason forks exits =
    elim (worker_get-Fits now surges threshold w (available locks) disk_free raises prepares db) [
      | inl e ↦ rw e (aquire_all_lem [] locks (omega arith), unfold executions in refl)
      | inr (row, e, f) ↦ rw e (
        aquire_all_lem (reason row ∷ []) locks (omega (arith, f.free)),
        executions-one forks exits row,
      )
    ]
