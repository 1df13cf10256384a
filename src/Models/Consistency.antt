-- ===== src/Models/Consistency.antt =====
-- The status of a build is the sum of the statuses of its runs, after every call that refreshes it.
use jobserv.Prelude.{
  ℕ, ◌≡◌, refl, sym, ap, ◌∙◌, inl, inr, false, none, List, [], ◌∷◌, arith, Option-cases,
}
use jobserv.Status.{BuildStatus, failed, cancelling, is, is→eq, get_cumulative_status}
use jobserv.Models.{
  Run, Build, find_run, modify_run, statuses, refresh_status, add_event, assign_status, with_runs,
  change_status, set_status, update_running, cancel, force_running, cancel_each, build_cancel,
  run_ids, changed_rows,
}
use jobserv.Models.Lookup.{
  find_run-modify_run, statuses-modify_run, add_event-KeepsId, force_running-KeepsId,
  modify_run-none,
}

abbrev pub IsConsistent : Build → Type 0
IsConsistent b = b.status ≡ get_cumulative_status (statuses b.runs)

pub runs-refresh_status : (now : ℕ) (b : Build) → (refresh_status now b).runs ≡ b.runs
unfolding refresh_status
runs-refresh_status now b = ground arith

-- Whatever the status was before, a refresh makes it the sum of the runs' statuses.
pub refresh_status-IsConsistent : (now : ℕ) (b : Build) → IsConsistent (refresh_status now b)
unfolding refresh_status
refresh_status-IsConsistent now b =
    ground (arith, is→eq b.status (get_cumulative_status (statuses b.runs)))

pub change_status-IsConsistent :
    (now id : ℕ) (s : BuildStatus) (b : Build) → IsConsistent (change_status now id s b)
unfolding change_status
change_status-IsConsistent now id s b =
    let saved = with_runs b (modify_run id (assign_status s) b.runs) in
    let rs = (refresh_status now saved).runs in
    refresh_status-IsConsistent now saved
    ∙ ap get_cumulative_status (
        sym (
          statuses-modify_run id (add_event now s none) (add_event-KeepsId now s none)
            (λ r. unfold add_event in refl) rs))

-- Setting the status of a run keeps the build's status equal to the sum of its runs.
pub set_status-IsConsistent :
    (now id : ℕ) (s : BuildStatus) (b : Build)
    → IsConsistent b
    → IsConsistent (set_status now id s b)
unfolding set_status
set_status-IsConsistent now id s b h = elim (Option-cases (find_run id b.runs)) [
  | inl e ↦ rw (e, set_status) h
  | inr (r, e) ↦ ground (arith, change_status-IsConsistent now r.id s b)
]

-- After the forced change neither of the two final states is there already.
force_running_differs :
    (r : Run)
    → (is (force_running r).status failed ≡ false)
      × (is (force_running r).status cancelling ≡ false)
unfolding force_running is
force_running_differs r = (refl, refl)

-- So does a cancellation, which first forces the run to `running` behind the build's back.
pub cancel-IsConsistent : (now id : ℕ) (b : Build) → IsConsistent b → IsConsistent (cancel now id b)
unfolding cancel update_running with_runs set_status changed_rows
cancel-IsConsistent now id b h = elim (Option-cases (find_run id b.runs)) [
  | inl e ↦
      let same = modify_run-none id force_running b.runs e in
      ground (arith, same, find_run-modify_run id force_running force_running-KeepsId id b.runs)
  | inr (r, e) ↦
      let b' = with_runs b (modify_run id force_running b.runs) in
      ground (
        arith,
        find_run-modify_run id force_running force_running-KeepsId id b.runs,
        force_running_differs r,
        change_status-IsConsistent now (force_running r).id failed b',
        change_status-IsConsistent now (force_running r).id cancelling b',
      )
]

cancel_each-IsConsistent :
    (now : ℕ) (ids : List ℕ) (b : Build) → IsConsistent b → IsConsistent (cancel_each now ids b)
unfolding cancel_each
cancel_each-IsConsistent now [] b h = h
cancel_each-IsConsistent now (id ∷ ids) b h =
    cancel_each-IsConsistent now ids (cancel now id b) (cancel-IsConsistent now id b h)

-- Cancelling every run of a build keeps the build's status equal to the sum of its runs.
pub build_cancel-IsConsistent :
    (now : ℕ) (b : Build) → IsConsistent b → IsConsistent (build_cancel now b)
unfolding build_cancel
build_cancel-IsConsistent now b = cancel_each-IsConsistent now (run_ids b.runs) b
