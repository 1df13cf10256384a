-- ===== src/WorkerApi/Polling.antt =====
-- `worker_get`, and `Run.pop_queued` on the whole database: the run that a worker which checks in gets.
pub mod Returned
use jobserv.Prelude.{
  ℕ, zero, suc, ◌+◌, ◌≤◌, ◌<◌, ◌≡◌, ◌≢◌, refl, sym, subst, ◌∙◌, ◌⊎◌, inl, inr, Bool, true, false,
  ◌&&◌, Option, none, some, List, [], ◌∷◌, Text, ltb, ◌==◌, arith, Option-cases, Bool-cases,
  if◌then◌else◌, ==_refl,
}
use jobserv.Status.{BuildStatus, queued, running}
use jobserv.Models.{Db, Build, Run, find_run, modify_run, with_runs, update_running, refresh_status}
use jobserv.Models.Lookup.{status_of, KeepsId, find_run-modify_run}
use jobserv.Workers.{Worker, available}
use jobserv.Queue.{Row, find_work}
use jobserv.Queue.Claim.{claim, status_of-claim, claim-taken, tries, note_worker, assign_worker}

unfoldable pub find_build : ℕ → List Build → Option Build
find_build id [] = none
find_build id (b ∷ bs) = if b.id == id then some b else find_build id bs

unfoldable pub put_build : Build → List Build → List Build
put_build b' [] = []
put_build b' (b ∷ bs) = if b.id == b'.id then b' ∷ bs else b ∷ put_build b' bs

-- The run of a row is taken in its build.
take_run : ℕ → Worker → (ℕ → Bool) → Db → Row → Option Build → Db × Option Row
unfolding put_build
take_run now w raises db row none = (db, none)
take_run now w raises db row (some b) =
    let (b', taken) = claim now w.name raises row.run_id b in
    (record db { builds = put_build b' db.builds }, if taken then some row else none)

-- `Run.pop_queued`
unfoldable pub pop_queued : ℕ → Worker → (ℕ → Bool) → Db → Db × Option Row
unfolding take_run find_build
pop_queued now w raises db = elim (find_work w db) [
  | none ↦ (db, none)
  | some row ↦ take_run now w raises db row (find_build row.build_id db.builds)
]

-- `r.worker = None; r.status = "QUEUED"`
unfoldable pub give_back : Run → Run
give_back r = record r { status = queued; worker_name = none }

return_run : Row → Db → Option Build → Db
unfolding give_back put_build
return_run row db none = db
return_run row db (some b) = record db {
  builds = put_build (with_runs b (modify_run row.run_id give_back b.runs)) db.builds;
}

-- The database after the request, the runs that are sent, and whether the request fails.
pub record Polled : Type 0 where
  pub db : Db
  pub run_defs : List Row
  pub raised : Bool

polled : (Row → Bool) → Db × Option Row → Polled
unfolding return_run
polled prepares (db, none) = record { db = db; run_defs = []; raised = false }
polled prepares (db, some row) =
    if prepares row then (record { db = db; run_defs = row ∷ []; raised = false }) else (record {
      db = return_run row db (find_build row.build_id db.builds);
      run_defs = [];
      raised = true;
    })

-- `worker_get`, after `ping`. `runners` and `disk_free` are the worker's; `prepares` tells whether the
-- definition of a run can be read from the storage, and `raises` which notes on the worker fail.
unfoldable pub worker_get :
    ℕ → List Text → ℕ → Worker → ℕ → ℕ → (ℕ → Bool) → (Row → Bool) → Db → Polled
unfolding polled pop_queued
worker_get now surges threshold w runners disk_free raises prepares db =
    if ltb 0 runners && available surges w && ltb disk_free threshold
    then (record { db = db; run_defs = []; raised = false })
    else if ltb 0 runners && available surges w
    then polled prepares (pop_queued now w raises db)
    else (record { db = db; run_defs = []; raised = false })

-- What is known of a reply: there is a run in it only if the worker can take one now, and it is the
-- one that the queue chose.
pub record Fits (surges : List Text) (threshold : ℕ) (w : Worker) (runners disk_free : ℕ)
    (prepares : Row → Bool) (db : Db) (row : Row) : Type 0 where
  pub free : 0 < runners
  pub allowed : available surges w ≡ true
  pub disk : threshold ≤ disk_free
  pub chosen : find_work w db ≡ some row
  pub prepared : prepares row ≡ true

take_run-row :
    (now : ℕ) (w : Worker) (raises : ℕ → Bool) (db : Db) (row row' : Row) (b : Option Build)
    → (take_run now w raises db row b).1 ≡ some row'
    → row' ≡ row
unfolding take_run
take_run-row now w raises db row row' none h = absurd (ground (arith, h))
take_run-row now w raises db row row' (some b) h = ground (arith, h)

pop_queued-row :
    (now : ℕ) (w : Worker) (raises : ℕ → Bool) (db : Db) (row : Row)
    → (pop_queued now w raises db).1 ≡ some row
    → find_work w db ≡ some row
unfolding pop_queued
pop_queued-row now w raises db row h = elim (Option-cases (find_work w db)) [
  | inl e ↦ absurd (ground (arith, h, e))
  | inr (found, e) ↦
      let same =
        take_run-row now w raises db found row (find_build found.build_id db.builds)
          (ground (arith, h, e)) in
      ground (arith, e, same)
]

polled-run_defs :
    (prepares : Row → Bool) (p : Db × Option Row)
    → ((polled prepares p).run_defs ≡ [])
      ⊎ ((row : Row) × ((polled prepares p).run_defs ≡ row ∷ [])
          × (p.1 ≡ some row)
          × (prepares row ≡ true))
unfolding polled
polled-run_defs prepares (db, none) = inl refl
polled-run_defs prepares (db, some row) = elim (Bool-cases (prepares row)) [
  | inl e ↦ inr (row, ground (arith, e), refl, e)
  | inr e ↦ inl (ground (arith, e))
]

-- A worker is sent one run at most, only while it has a free runner, may be given runs and has the disk
-- for it, and it is the run that the queue has for it.
pub worker_get-Fits :
    (now : ℕ) (surges : List Text) (threshold : ℕ) (w : Worker) (runners disk_free : ℕ)
    (raises : ℕ → Bool) (prepares : Row → Bool) (db : Db)
    → ((worker_get now surges threshold w runners disk_free raises prepares db).run_defs ≡ [])
      ⊎ ((row : Row) × ((worker_get now surges threshold w runners disk_free raises prepares
              db).run_defs
            ≡ row ∷ [])
          × Fits surges threshold w runners disk_free prepares db row)
unfolding worker_get
worker_get-Fits now surges threshold w runners disk_free raises prepares db =
    elim (Bool-cases (ltb 0 runners && available surges w && ltb disk_free threshold)) [
      | inl e ↦ inl (rw e refl)
      | inr e ↦ elim (Bool-cases (ltb 0 runners && available surges w)) [
        | inr f ↦ inl (rw (e, f) refl)
        | inl f ↦ elim (polled-run_defs prepares (pop_queued now w raises db)) [
          | inl g ↦ inl (rw (e, f) g)
          | inr (row, g, k, l) ↦ inr (
            row,
            rw (e, f) g,
            record {
              free = ground (arith, f);
              allowed = ground (arith, f);
              disk = ground (arith, e, f);
              chosen = pop_queued-row now w raises db row k;
              prepared = l;
            },
          )
        ]
      ]
    ]
