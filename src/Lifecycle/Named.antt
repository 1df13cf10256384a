-- ===== src/Lifecycle/Named.antt =====
-- The names of the runs of a build, through its whole life.
use jobserv.Prelude.{
  ℕ, suc, zero, ◌+◌, ◌≡◌, refl, subst, inl, inr, Bool, true, false, Option, none, some, List, [],
  ◌∷◌, map, select, Text, text, ◌==◌, arith, Bool-cases, if◌then◌else◌,
}
use jobserv.Status.{BuildStatus, failed, cancelling, queued, complete}
use jobserv.Models.{
  Run, Build, modify_run, with_runs, force_running, update_running, cancel, cancel_each,
  build_cancel, run_ids, refresh_status, add_event,
}
use jobserv.Models.Consistency.{runs-refresh_status}
use jobserv.Queue.Claim.{claim, tries, note_worker, assign_worker}
use jobserv.Triggers.{run_names, add_run, new_run}
use jobserv.Triggers.Names.{IsNamed, DistinctNames, names, trigger_runs-IsNamed}
use jobserv.RunApi.Names.{set_status-IsNamed}
use jobserv.RunApi.Reports.{with_runs-IsNamed, run_update-IsNamed}
use jobserv.RunApi.Rerun.{run_rerun, drop_tests}
use jobserv.WorkerApi.Polling.{give_back}
use jobserv.BuildApi.{Promotion, build_patch, build_promote}
use jobserv.BuildApi.Triggering.{fail_unexpected}
use jobserv.BuildApi.External.{external_build, names-external_runs}
use jobserv.Monitor.{requeue, requeue_runs, is_stuck, is_orphan}
use jobserv.Monitor.Termination.{
  Server, Sweep, failed_request, is_done, post_failed, answered, try_update, update_run,
  terminate_each, check_stuck, check_cancelled,
}
use jobserv.Lifecycle.Tested.{test_create-IsNamed, test_update-IsNamed}
use jobserv.Lifecycle.{
  Step, triggered, failed_unexpectedly, imported, claimed, given_back, reported, test_created,
  test_updated, run_cancelled, build_cancelled, rerun, patched, promoted, requeued, stuck, orphaned,
}

refresh_status-IsNamed : (now : ℕ) (b : Build) → IsNamed b → IsNamed (refresh_status now b)
unfolding run_names
refresh_status-IsNamed now b h = rw (runs-refresh_status now b) h

note_worker-IsNamed :
    (now : ℕ) (name : Text) (id : ℕ) (b : Build) → IsNamed b → IsNamed (note_worker now name id b)
unfolding note_worker add_event
note_worker-IsNamed now name id b h =
    refresh_status-IsNamed now (with_runs b (modify_run id (assign_worker now name) b.runs))
      (with_runs-IsNamed id (assign_worker now name) b (λ r. unfold assign_worker in refl) h)

tries-IsNamed :
    (n i : ℕ) (raises : ℕ → Bool) (b : Build) (note : Build → Build)
    → IsNamed b
    → IsNamed (note b)
    → IsNamed (tries n raises i b note)
unfolding tries
tries-IsNamed zero i raises b note h k = h
tries-IsNamed (suc n) i raises b note h k = elim (Bool-cases (raises i)) [
  | inl e ↦ rw e (tries-IsNamed n (i + 1) raises b note h k)
  | inr e ↦ rw e k
]

update_running-IsNamed : (id : ℕ) (b : Build) → IsNamed b → IsNamed (update_running id b).0
unfolding update_running
update_running-IsNamed id b h =
    with_runs-IsNamed id force_running b (λ r. unfold force_running in refl) h

claim-IsNamed :
    (now : ℕ) (name : Text) (raises : ℕ → Bool) (id : ℕ) (b : Build)
    → IsNamed b
    → IsNamed (claim now name raises id b).0
unfolding claim
claim-IsNamed now name raises id b h =
    let (b', rows) = update_running id b in
    let h' = update_running-IsNamed id b h in
    elim (Bool-cases ((update_running id b).1 == 1)) [
      | inl e ↦ rw e (
          tries-IsNamed 3 0 raises (update_running id b).0 (note_worker now name id) h'
            (note_worker-IsNamed now name id (update_running id b).0 h'))
      | inr e ↦ rw e h'
    ]

cancel-IsNamed : (now id : ℕ) (b : Build) → IsNamed b → IsNamed (cancel now id b)
unfolding cancel
cancel-IsNamed now id b h =
    let h' = update_running-IsNamed id b h in
    elim (Bool-cases ((update_running id b).1 == 1)) [
      | inl e ↦ rw e (set_status-IsNamed now id failed (update_running id b).0 h')
      | inr e ↦ rw e (set_status-IsNamed now id cancelling (update_running id b).0 h')
    ]

cancel_each-IsNamed :
    (now : ℕ) (ids : List ℕ) (b : Build) → IsNamed b → IsNamed (cancel_each now ids b)
unfolding cancel_each
cancel_each-IsNamed now [] b h = h
cancel_each-IsNamed now (id ∷ ids) b h =
    cancel_each-IsNamed now ids (cancel now id b) (cancel-IsNamed now id b h)

run_rerun-IsNamed : (now id : ℕ) (b : Build) → IsNamed b → IsNamed (run_rerun now id b)
unfolding run_rerun drop_tests
run_rerun-IsNamed now id b h =
    set_status-IsNamed now id queued _ (with_runs-IsNamed id drop_tests b (λ r. refl) h)

requeue-name : (now : ℕ) (rs : List Run) → names (map (requeue now) rs) ≡ names rs
unfolding requeue
requeue-name now [] = refl
requeue-name now (r ∷ rs) = ground (arith, requeue-name now rs)

requeue_runs-IsNamed : (now : ℕ) (b : Build) → IsNamed b → IsNamed (requeue_runs now b)
unfolding requeue_runs run_names
requeue_runs-IsNamed now b h = rw (requeue-name now b.runs) h

if-IsNamed :
    (c : Bool) (x y : Sweep)
    → IsNamed x.build
    → IsNamed y.build
    → IsNamed (if c then x else y).build
if-IsNamed true x y h k = h
if-IsNamed false x y h k = k

post_failed-IsNamed :
    (v : Server) (message : Text) (r : Run) (w : Sweep)
    → IsNamed w.build
    → IsNamed (post_failed v message r w).build
unfolding post_failed
post_failed-IsNamed v message r w h =
    run_update-IsNamed (v.stored r.id) (v.grepping r.id) v.lines_of r.id (failed_request message r)
      (w.console r.id) w.build h

try_update-IsNamed :
    (n : ℕ) (v : Server) (message : Text) (r : Run) (w : Sweep)
    → IsNamed w.build
    → IsNamed (try_update n v message r w).build
unfolding try_update answered
try_update-IsNamed zero v message r w h = h
try_update-IsNamed (suc n) v message r w h =
    let u = post_failed v message r w in
    let h' = post_failed-IsNamed v message r w h in
    if-IsNamed (is_done u.response) (answered r.id u w)
      (try_update n v message r (answered r.id u w)) h'
      (try_update-IsNamed n v message r (answered r.id u w) h')

terminate_each-IsNamed :
    (v : Server) (message : Run → Text) (rs : List Run) (w : Sweep)
    → IsNamed w.build
    → IsNamed (terminate_each v message rs w).build
unfolding terminate_each update_run
terminate_each-IsNamed v message [] w h = h
terminate_each-IsNamed v message (r ∷ rs) w h =
    let w' = update_run v (message r) r w in
    if-IsNamed w.raised w (terminate_each v message rs w') h
      (terminate_each-IsNamed v message rs w' (try_update-IsNamed 3 v (message r) r w h))

build_patch-IsNamed :
    (annotation : Option Text) (b b' : Build)
    → build_patch annotation b ≡ some b'
    → IsNamed b
    → IsNamed b'
unfolding build_patch run_names
build_patch-IsNamed none b b' e h = absurd (cc e)
build_patch-IsNamed (some []) b b' e h = absurd (cc e)
build_patch-IsNamed (some (c ∷ t)) b b' e h =
    let same : record b { annotation = some (c ∷ t) } ≡ b' = cc e in subst IsNamed same h

promoted-IsNamed :
    (d : Promotion) (c : Bool) (b b' : Build)
    → (if c
        then some
            (record b { status = BuildStatus.promoted; name = d.name; annotation = d.annotation })
        else none)
      ≡ some b'
    → IsNamed b
    → IsNamed b'
unfolding run_names
promoted-IsNamed d false b b' e h = absurd (cc e)
promoted-IsNamed d true b b' e h =
    let same : record b { status = BuildStatus.promoted; name = d.name; annotation = d.annotation }
        ≡ b' =
      cc e in
    subst IsNamed same h

build_promote-IsNamed :
    (d : Option Promotion) (b b' : Build) → build_promote d b ≡ some b' → IsNamed b → IsNamed b'
unfolding build_promote
build_promote-IsNamed none b b' e h = absurd (cc e)
build_promote-IsNamed (some d) b b' e h = promoted-IsNamed d (complete b.status) b b' e h

fail_unexpected-IsNamed :
    (now : ℕ) (key : ℕ × Text) (b : Build) → b.runs ≡ [] → IsNamed (fail_unexpected now key b)
unfolding fail_unexpected
fail_unexpected-IsNamed now (id, key) b e =
    set_status-IsNamed now id failed (add_run (new_run (id, key) (text "build-failure") none 0) b)
      (unfold add_run with_runs run_names in rw e (refl, tt))

external_build-IsNamed :
    (keys : ℕ → ℕ × Text) (trigger_name : Option Text) (names : List Text) (b : Build)
    → DistinctNames names
    → IsNamed (external_build keys trigger_name names b)
unfolding external_build with_runs run_names
external_build-IsNamed keys trigger_name names b d = rw (names-external_runs keys 0 names) d

-- Every step keeps the names of the runs distinct.
pub Step-IsNamed : {b b' : Build} → Step b b' → IsNamed b → IsNamed b'
unfolding check_stuck check_cancelled build_cancel
Step-IsNamed {b} (triggered c) h = trigger_runs-IsNamed c b h
Step-IsNamed {b} (failed_unexpectedly now key e) h = fail_unexpected-IsNamed now key b e
Step-IsNamed {b} (imported keys trigger_name names d) h =
    external_build-IsNamed keys trigger_name names b d
Step-IsNamed {b} (claimed now name raises id) h = claim-IsNamed now name raises id b h
Step-IsNamed {b} (given_back id) h =
    with_runs-IsNamed id give_back b (λ r. unfold give_back in refl) h
Step-IsNamed {b} (reported s g lines_of id req console) h =
    run_update-IsNamed s g lines_of id req console b h
Step-IsNamed {b} {b'} (test_created id name d e) h = test_create-IsNamed id name d b b' e h
Step-IsNamed {b} (test_updated s id req name context d console) h =
    test_update-IsNamed s id req name context d console b h
Step-IsNamed {b} (run_cancelled now id) h = cancel-IsNamed now id b h
Step-IsNamed {b} (build_cancelled now) h = cancel_each-IsNamed now (run_ids b.runs) b h
Step-IsNamed {b} (rerun now id) h = run_rerun-IsNamed now id b h
Step-IsNamed {b} {b'} (patched annotation e) h = build_patch-IsNamed annotation b b' e h
Step-IsNamed {b} {b'} (promoted d e) h = build_promote-IsNamed d b b' e h
Step-IsNamed {b} (requeued now) h = requeue_runs-IsNamed now b h
Step-IsNamed {b} (stuck now v message console raised) h =
    terminate_each-IsNamed v message (select (is_stuck now) b.runs)
      (record { build = b; console = console; raised = raised }) h
Step-IsNamed {b} (orphaned v message console raised) h =
    terminate_each-IsNamed v (λ r. message) (select is_orphan b.runs)
      (record { build = b; console = console; raised = raised }) h
