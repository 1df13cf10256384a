-- ===== src/WorkerApi/Polling/Returned.antt =====
-- A run whose definition cannot be sent is not lost.
use jobserv.Prelude.{
  ℕ, zero, suc, ◌+◌, ◌≤◌, ◌<◌, ◌≡◌, ◌≢◌, refl, sym, subst, ◌∙◌, inl, inr, Bool, true, false, none,
  some, List, [], ◌∷◌, Text, ltb, arith, Option-cases, ==_refl,
}
use jobserv.Status.{BuildStatus, queued, running}
use jobserv.Models.{Db, Build, Run, find_run, modify_run, with_runs, update_running, refresh_status}
use jobserv.Models.Lookup.{status_of, KeepsId, find_run-modify_run}
use jobserv.Workers.{Worker, available}
use jobserv.Queue.{Row, find_work}
use jobserv.Queue.Claim.{claim, status_of-claim, claim-taken, tries, note_worker, assign_worker}
use jobserv.WorkerApi.Polling.{
  find_build, put_build, take_run, pop_queued, give_back, return_run, Polled, polled, worker_get,
}

find_build-put_build :
    (b b' : Build) (bs : List Build)
    → find_build b'.id bs ≡ some b
    → find_build b'.id (put_build b' bs) ≡ some b'
unfolding find_build put_build
find_build-put_build b b' [] h = absurd (ground (arith, h))
find_build-put_build b b' (c ∷ bs) h =
    ground (arith, h, find_build-put_build b b' bs, ==_refl b'.id)

-- The same, under the key that the build was found by.
put_build-at :
    (id : ℕ) (b b' : Build) (bs : List Build)
    → b'.id ≡ id
    → find_build id bs ≡ some b
    → find_build id (put_build b' bs) ≡ some b'
put_build-at id b b' bs same h =
    subst (λ i. find_build i (put_build b' bs) ≡ some b') same
      (find_build-put_build b b' bs (subst (λ i. find_build i bs ≡ some b) (sym same) h))

find_build-id : (id : ℕ) (b : Build) (bs : List Build) → find_build id bs ≡ some b → b.id ≡ id
unfolding find_build
find_build-id id b [] h = absurd (ground (arith, h))
find_build-id id b (c ∷ bs) h = ground (arith, h, find_build-id id b bs)

give_back-KeepsId : KeepsId give_back
unfolding give_back
give_back-KeepsId r = refl

id-refresh_status : (now : ℕ) (b : Build) → (refresh_status now b).id ≡ b.id
unfolding refresh_status
id-refresh_status now b = ground arith

id-tries :
    (n : ℕ) (raises : ℕ → Bool) (i now : ℕ) (name : Text) (id : ℕ) (b : Build)
    → (tries n raises i b (note_worker now name id)).id ≡ b.id
unfolding tries note_worker with_runs
id-tries zero raises i now name id b = refl
id-tries (suc n) raises i now name id b = ground (
  arith,
  id-tries n raises (i + 1) now name id b,
  id-refresh_status now (with_runs b (modify_run id (assign_worker now name) b.runs)),
)

id-claim :
    (now : ℕ) (name : Text) (raises : ℕ → Bool) (id : ℕ) (b : Build)
    → (claim now name raises id b).0.id ≡ b.id
unfolding claim update_running with_runs
id-claim now name raises id b =
    ground (arith, id-tries 3 raises 0 now name id (update_running id b).0)

status_of-some :
    (id : ℕ) (rs : List Run) (s : BuildStatus)
    → status_of id rs ≡ some s
    → (r : Run) × (find_run id rs ≡ some r)
unfolding status_of
status_of-some id rs s h = elim (Option-cases (find_run id rs)) [
  | inl e ↦ absurd (ground (arith, h, e))
  | inr p ↦ p
]

-- What is left of a run whose definition cannot be sent.
abbrev pub IsReturned : Row → Polled → Type 0
IsReturned row p =
    (b : Build) × (r : Run) × (find_build row.build_id p.db.builds ≡ some b)
    × (find_run row.run_id b.runs ≡ some r)
    × (r.status ≡ queued)
    × (r.worker_name ≡ none)

return_run-IsReturned :
    (row : Row) (db : Db) (b : Build) (r : Run)
    → find_build row.build_id db.builds ≡ some b
    → find_run row.run_id b.runs ≡ some r
    → IsReturned row (record {
      db = return_run row db (find_build row.build_id db.builds);
      run_defs = [];
      raised = true;
    })
unfolding return_run with_runs give_back
return_run-IsReturned row db b r h k =
    let b' = with_runs b (modify_run row.run_id give_back b.runs) in
    let same : b'.id ≡ row.build_id = find_build-id row.build_id b db.builds h in
    (
      b',
      give_back r,
      rw h (put_build-at row.build_id b b' db.builds same h),
      ground (
        arith,
        k,
        find_run-modify_run row.run_id give_back give_back-KeepsId row.run_id b.runs,
        ==_refl row.run_id,
      ),
      refl,
      refl,
    )

pop_queued-taken :
    (now : ℕ) (w : Worker) (raises : ℕ → Bool) (db : Db) (row : Row) (b : Build)
    → find_work w db ≡ some row
    → find_build row.build_id db.builds ≡ some b
    → (claim now w.name raises row.run_id b).1 ≡ true
    → pop_queued now w raises db ≡ (
      record db { builds = put_build (claim now w.name raises row.run_id b).0 db.builds },
      some row,
    )
unfolding pop_queued take_run
pop_queued-taken now w raises db row b f g taken = rw (pop_queued, f, take_run, g, taken) refl

worker_get-polled :
    (now : ℕ) (surges : List Text) (threshold : ℕ) (w : Worker) (runners disk_free : ℕ)
    (raises : ℕ → Bool) (prepares : Row → Bool) (db : Db)
    → 0 < runners
    → available surges w ≡ true
    → threshold ≤ disk_free
    → worker_get now surges threshold w runners disk_free raises prepares db
      ≡ polled prepares (pop_queued now w raises db)
unfolding worker_get
worker_get-polled now surges threshold w runners disk_free raises prepares db h a d =
    let first : ltb 0 runners ≡ true = ground arith in
    let second : ltb disk_free threshold ≡ false = ground arith in rw (first, a, second) refl

-- For a worker with a free runner that may be given runs and has the disk for it: a run that the queue
-- chose, that is in its build and does not run yet, and whose definition cannot be prepared, goes
-- back to the queue without a worker, and the request fails.
pub worker_get-IsReturned :
    (now : ℕ) (surges : List Text) (threshold : ℕ) (w : Worker) (runners disk_free : ℕ)
    (raises : ℕ → Bool) (prepares : Row → Bool) (db : Db) (row : Row) (b : Build) (r : Run)
    → 0 < runners
    → available surges w ≡ true
    → threshold ≤ disk_free
    → find_work w db ≡ some row
    → find_build row.build_id db.builds ≡ some b
    → find_run row.run_id b.runs ≡ some r
    → r.status ≢ running
    → prepares row ≡ false
    → IsReturned row (worker_get now surges threshold w runners disk_free raises prepares db)
      × ((worker_get now surges threshold w runners disk_free raises prepares db).raised ≡ true)
unfolding polled status_of
worker_get-IsReturned now surges threshold w runners disk_free raises prepares db row b r h a d f g
      k n p =
    let b' = (claim now w.name raises row.run_id b).0 in
    let taken = claim-taken now w.name raises row.run_id b r.status (ground (arith, k)) n in
    let same : b'.id ≡ row.build_id =
      id-claim now w.name raises row.run_id b ∙ find_build-id row.build_id b db.builds g in
    let kept : find_build row.build_id (put_build b' db.builds) ≡ some b' =
      put_build-at row.build_id b b' db.builds same g in
    let (r', k') = status_of-some row.run_id b'.runs running (
      ground (
        arith,
        status_of-claim now w.name raises row.run_id row.run_id b,
        k,
        ==_refl row.run_id,
      )) in
    let db' = record db { builds = put_build b' db.builds } in
    rw
      (
        worker_get-polled now surges threshold w runners disk_free raises prepares db h a d,
        pop_queued-taken now w raises db row b f g taken,
        p,
      )
      (return_run-IsReturned row db' b' r' kept k', refl)
