-- ===== src/RunApi/Waiting.antt =====
-- What a runner's report of success or failure does while tests of the run are not complete.
use jobserv.Prelude.{
  ℕ, ◌≡◌, refl, ap, ◌∙◌, inl, inr, true, false, ◌||◌, ◌==◌, Option, none, some, List, [], ◌∷◌, ◌++◌,
  Text, text_eq, Bool-cases, Option-cases, arith,
}
use jobserv.Status.{BuildStatus, running, passed, failed, is, is→eq, is_refl, complete}
use jobserv.Models.{
  Run, Test, Build, find_run, set_status, with_runs, modify_run, add_event, assign_status,
}
use jobserv.Models.Lookup.{status_of, replace, find_run-modify_run}
use jobserv.Models.Cancel.{status_of-set_status}
use jobserv.Models.Events.{find_run-set_status, set_status-same}
use jobserv.Triggers.{run_names}
use jobserv.Triggers.Names.{names-modify_run, run_names-set_status}
use jobserv.RunApi.{Request, granted, authenticate_runner, running_tests}
use jobserv.RunApi.Grepping.{Grepping, status_named, failed_tests}
use jobserv.RunApi.Followups.{Stored}
use jobserv.RunApi.Update.{
  decide, ack, add_tests, answer, after_triggers, locked_update, run_complete, settle_update,
  report_status, report_named, update_run, run_update, after_access,
}

-- A run that was set to running is not complete.
run_complete-running :
    (now id : ℕ) (b : Build) → run_complete (find_run id (set_status now id running b).runs) ≡ false
unfolding run_complete complete add_event assign_status
run_complete-running now id b = elim (Option-cases (find_run id b.runs)) [
  | inl e ↦ unfold set_status in rw (e, e) refl
  | inr (r, e) ↦ elim (Bool-cases (is r.status running)) [
    | inl same ↦
        rw (set_status-same now id running b r e (is→eq r.status running same), e)
          (rw (is→eq r.status running same) refl)
    | inr other ↦ ground (
      arith,
      is→eq r.status running,
      find_run-set_status now id running b r e
          (λ q. absurd (ground (arith, q, other, is_refl running))),
    )
  ]
]

locked_update-running :
    (s : Stored) (id : ℕ) (console : Text) (b : Build)
    → (locked_update s id running console b).build ≡ set_status s.now id running b
unfolding locked_update after_triggers answer
locked_update-running s id console b = rw (run_complete-running s.now id b) refl

modify_run-twice :
    (id : ℕ) (f g : Run → Run) (rs : List Run)
    → ((r : Run) → (f r).id ≡ r.id)
    → modify_run id g (modify_run id f rs) ≡ modify_run id (λ r. g (f r)) rs
unfolding modify_run
modify_run-twice id f g [] same = refl
modify_run-twice id f g (r ∷ rs) same = ground (arith, same r, modify_run-twice id f g rs same)

ack-id : (metadata : Option Text) (r : Run) → (ack metadata r).id ≡ r.id
unfolding ack
ack-id none r = refl
ack-id (some []) r = refl
ack-id (some (c ∷ m)) r = refl

-- What is written before the status.
noted : Option Text → List Test → Run → Run
noted metadata tests r = add_tests tests (ack metadata r)

noted-same :
    (metadata : Option Text) (tests : List Test) (r : Run)
    → ((noted metadata tests r).id ≡ r.id)
      × ((noted metadata tests r).name ≡ r.name)
      × ((noted metadata tests r).status ≡ r.status)
unfolding noted ack add_tests
noted-same none tests r = (refl, refl, refl)
noted-same (some []) tests r = (refl, refl, refl)
noted-same (some (c ∷ m)) tests r = (refl, refl, refl)

waiting_build :
    (s : Stored) (grepping : Option Grepping) (lines_of : Text → List Text) (id : ℕ) (req : Request)
    (console : Text) (b : Build) (r : Run) (name : Text) (status : BuildStatus) (tests : List Test)
    → find_run id b.runs ≡ some r
    → authenticate_runner req r ≡ granted
    → req.status ≡ some name
    → status_named name ≡ some status
    → (is status passed || is status failed) ≡ true
    → is r.status status ≡ false
    → running_tests r ≡ true
    → failed_tests grepping (lines_of (console ++ req.body)) ≡ some (tests, false)
    → (run_update s grepping lines_of id req console b).build
      ≡ set_status s.now id running (with_runs b (modify_run id (noted req.metadata tests) b.runs))
unfolding run_update update_run after_access status_named text_eq report_named report_status
    settle_update with_runs decide noted
waiting_build s grepping lines_of id req console b r [] status tests e g n v w d t f =
    absurd (ground (arith, v))
waiting_build s grepping lines_of id req console b r (c ∷ name) status tests e g n v w d t f =
    let log = console ++ req.body in
    let b' = with_runs b (modify_run id (ack req.metadata) b.runs) in
    rw (e, g, n, v, d, w, f, t)
      (locked_update-running s id log (with_runs b' (modify_run id (add_tests tests) b'.runs))
        ∙ ap (λ rs. set_status s.now id running (with_runs b rs))
            (modify_run-twice id (ack req.metadata) (add_tests tests) b.runs (ack-id req.metadata)))

status_of-modify_run :
    (id j : ℕ) (f : Run → Run) (rs : List Run)
    → ((r : Run) → (f r).id ≡ r.id)
    → ((r : Run) → (f r).status ≡ r.status)
    → status_of j (modify_run id f rs) ≡ status_of j rs
unfolding status_of
status_of-modify_run id j f rs same kept = elim (Option-cases (find_run j rs)) [
  | inl e ↦ ground (arith, e, find_run-modify_run id f same j rs)
  | inr (r, e) ↦ ground (arith, e, kept r, find_run-modify_run id f same j rs)
]

-- A run that reports success or failure while one of its tests is not complete, and whose log shows
-- no failure, is running afterwards; no other run changes its state; and no run is added, so neither
-- the follow-ups of the run nor those of its trigger are started.
pub run_update-waits :
    (s : Stored) (grepping : Option Grepping) (lines_of : Text → List Text) (id : ℕ) (req : Request)
    (console : Text) (b : Build) (r : Run) (name : Text) (status : BuildStatus) (tests : List Test)
    → find_run id b.runs ≡ some r
    → authenticate_runner req r ≡ granted
    → req.status ≡ some name
    → status_named name ≡ some status
    → (is status passed || is status failed) ≡ true
    → is r.status status ≡ false
    → running_tests r ≡ true
    → failed_tests grepping (lines_of (console ++ req.body)) ≡ some (tests, false)
    → let b' = (run_update s grepping lines_of id req console b).build in
      ((j : ℕ) → status_of j b'.runs ≡ replace (id == j) running (status_of j b.runs))
      × (run_names b' ≡ run_names b)
unfolding with_runs modify_run
run_update-waits s grepping lines_of id req console b r name status tests e g n v w d t f =
    let same =
      waiting_build s grepping lines_of id req console b r name status tests e g n v w d t f in
    let b1 = with_runs b (modify_run id (noted req.metadata tests) b.runs) in
    (
      λ j.
          ap (λ (c : Build). status_of j c.runs) same
          ∙ status_of-set_status s.now id j running b1
          ∙ ap (replace (id == j) running) (
              status_of-modify_run id j (noted req.metadata tests) b.runs
                (λ q. (noted-same req.metadata tests q).0)
                (λ q. (noted-same req.metadata tests q).2)),
      ap run_names same
          ∙ run_names-set_status s.now id running b1
          ∙ unfold run_names in
            names-modify_run id (noted req.metadata tests) b.runs
              (λ q. (noted-same req.metadata tests q).1),
    )
