-- ===== src/Queue/Samples.antt =====
-- A worker that asks for work while an older build of a synchronous project is running.
use jobserv.Prelude.{◌≡◌, refl, true, false, some, inl, [], text, All}
use jobserv.Status.{queued, is}
use jobserv.Models.{find_run}
use jobserv.Models.Lookup.{status_of}
use jobserv.Models.Consistency.{IsConsistent}
use jobserv.Fixtures.{chosen, sample_work, sample_run, sample_build, sample_db, sample_worker}
use jobserv.Queue.{nothing_seen, active, before, select_rows, order_rows, scan, worker_tags}
use jobserv.Queue.Choice.{scan_lem, first_choice}
use jobserv.Queue.Choice.Priority.{is_free, queue, find_work-first}
use jobserv.Queue.Synchronous.{JoinsActive, find_work-JoinsActive}
use jobserv.Queue.Claim.{claim, assigned, claim_once, claim-assigns}

-- The run of the older build, which is at work already.
find_work-JoinsActive_example : JoinsActive chosen (select_rows sample_db)
find_work-JoinsActive_example =
    find_work-JoinsActive (λ p. 10) sample_worker sample_db chosen (refl, (refl, tt)) one_build
      sample_work refl
  where
    one_build : All (λ a. active a ≡ true → a.build_id ≡ 10) (select_rows sample_db)
    one_build = unfold select_rows active is in ((λ h. cc), ((λ h. refl), ((λ h. refl), tt)))

scan_lem_example :
    scan (worker_tags sample_worker) nothing_seen (order_rows (select_rows sample_db))
    ≡ first_choice (worker_tags sample_worker) [] (order_rows (select_rows sample_db))
scan_lem_example = scan_lem (worker_tags sample_worker) (order_rows (select_rows sample_db))

find_work-first_example :
    All
      (λ r.
        is_free (worker_tags sample_worker) (queue sample_db) r ≡ true → before r chosen ≡ false)
      (select_rows sample_db)
find_work-first_example = find_work-first sample_worker sample_db chosen sample_work

third_queued : status_of 3 sample_build.runs ≡ some queued
unfolding status_of find_run
third_queued = refl

claim_once_example :
    ((claim 7 (text "lab1") (λ i. false) 3 sample_build).1 ≡ true)
    × ((claim 8
          (text "lab2")
          (λ i. false)
          3
          (claim 7 (text "lab1") (λ i. false) 3 sample_build).0).1
        ≡ false)
claim_once_example =
    claim_once 7 8 (text "lab1") (text "lab2") (λ i. false) (λ i. false) 3 sample_build queued
      third_queued (λ e. cc)

claim-assigns_example :
    (find_run 3 (claim 7 (text "lab1") (λ i. false) 3 sample_build).0.runs
      ≡ some (assigned 7 (text "lab1") (sample_run 3 queued)))
    × IsConsistent (claim 7 (text "lab1") (λ i. false) 3 sample_build).0
claim-assigns_example =
    claim-assigns 7 (text "lab1") (λ i. false) 3 sample_build (sample_run 3 queued) third (λ e. cc)
      (inl refl)
  where
    third : find_run 3 sample_build.runs ≡ some (sample_run 3 queued)
    third = unfold find_run in refl
