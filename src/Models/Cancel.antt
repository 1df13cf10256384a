-- ===== src/Models/Cancel.antt =====
-- What a change of a status and a cancellation do to the runs of a build.
use jobserv.Prelude.{
  ℕ, ◌≡◌, refl, inl, inr, Option, none, some, List, [], ◌∷◌, arith, Option-cases, if◌then◌else◌,
  ◌==◌, has, Distinct, false,
}
use jobserv.Status.{BuildStatus, running, failed, cancelling, is, is→eq}
use jobserv.Models.{
  Run, Build, find_run, modify_run, refresh_status, add_event, assign_status, with_runs,
  change_status, set_status, update_running, cancel, force_running, cancel_each, build_cancel,
  run_ids, changed_rows,
}
use jobserv.Models.Lookup.{
  status_of, find_run-modify_run, add_event-KeepsId, force_running-KeepsId, assign_status-KeepsId,
  find_run-id, replace,
}
use jobserv.Models.Consistency.{runs-refresh_status}

change_status-status_of :
    (now i j : ℕ) (s : BuildStatus) (b : Build)
    → status_of j (change_status now i s b).runs ≡ replace (i == j) s (status_of j b.runs)
unfolding change_status status_of with_runs add_event assign_status
change_status-status_of now i j s b =
    let saved = with_runs b (modify_run i (assign_status s) b.runs) in
    rw
      (
        find_run-modify_run i (add_event now s none) (add_event-KeepsId now s none) j
            (refresh_status now saved).runs,
        runs-refresh_status now saved,
        find_run-modify_run i (assign_status s) (assign_status-KeepsId s) j b.runs,
      )
      (ground arith)

-- Setting a status sets that of the one run, and of no other.
pub status_of-set_status :
    (now i j : ℕ) (s : BuildStatus) (b : Build)
    → status_of j (set_status now i s b).runs ≡ replace (i == j) s (status_of j b.runs)
unfolding set_status
status_of-set_status now i j s b = elim (Option-cases (find_run i b.runs)) [
  | inl e ↦ rw (e, set_status) (unfold status_of in ground arith)
  | inr (r, e) ↦
      unfold status_of in
      ground
        (arith, find_run-id i b.runs r e, is→eq r.status s, change_status-status_of now r.id j s b)
]

-- The state in which a cancellation leaves a run: only one that was running is asked to stop.
abbrev pub cancelled : BuildStatus → BuildStatus
cancelled s = if is s running then cancelling else failed

abbrev pub cancelled? : Option BuildStatus → Option BuildStatus
cancelled? none = none
cancelled? (some s) = some (cancelled s)

-- A cancellation fails every run but a running one, a run that has passed too; other runs keep
-- their states.
pub status_of-cancel :
    (now i j : ℕ) (b : Build)
    → status_of j (cancel now i b).runs
      ≡ (if i == j then cancelled? (status_of j b.runs) else status_of j b.runs)
unfolding cancel update_running changed_rows with_runs
status_of-cancel now i j b =
    let b' = with_runs b (modify_run i force_running b.runs) in
    unfold status_of force_running in
    ground (
      arith,
      find_run-modify_run i force_running force_running-KeepsId j b.runs,
      status_of-set_status now i j failed b',
      status_of-set_status now i j cancelling b',
    )

cancel_each-status_of :
    (now j : ℕ) (ids : List ℕ) (b : Build)
    → Distinct ids
    → status_of j (cancel_each now ids b).runs
      ≡ (if has j ids then cancelled? (status_of j b.runs) else status_of j b.runs)
unfolding cancel_each
cancel_each-status_of now j [] b d = refl
cancel_each-status_of now j (i ∷ ids) b d =
    ground
      (arith, cancel_each-status_of now j ids (cancel now i b) d.1, status_of-cancel now i j b, d.0)

status_of-none : (j : ℕ) (rs : List Run) → has j (run_ids rs) ≡ false → status_of j rs ≡ none
unfolding status_of find_run run_ids
status_of-none j [] h = refl
status_of-none j (r ∷ rs) h = ground (arith, status_of-none j rs)

-- Cancelling a build cancels each of its runs once: a running run is asked to stop, and every other
-- run has failed afterwards, also one that had passed.
pub status_of-build_cancel :
    (now j : ℕ) (b : Build)
    → Distinct (run_ids b.runs)
    → status_of j (build_cancel now b).runs ≡ cancelled? (status_of j b.runs)
unfolding build_cancel
status_of-build_cancel now j b d =
    ground (arith, cancel_each-status_of now j (run_ids b.runs) b d, status_of-none j b.runs)
