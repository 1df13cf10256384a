-- ===== src/Lifecycle.antt =====
-- The life of one build: the requests of its workers, runners and users and the checks of the monitor,
-- in any order, each as one step. A build starts without runs, as `Build.create` leaves it.
pub mod Tested
pub mod Named
mod Samples
use jobserv.Prelude.{ℕ, ◌≡◌, Bool, Option, some, List, [], Text}
use jobserv.Models.{Run, Build, modify_run, with_runs, cancel, build_cancel}
use jobserv.Queue.Claim.{claim}
use jobserv.Triggers.{Call, build_of, trigger_runs}
use jobserv.Triggers.Names.{DistinctNames}
use jobserv.BuildApi.Triggering.{fail_unexpected}
use jobserv.BuildApi.External.{external_build}
use jobserv.RunApi.{Request}
use jobserv.RunApi.Grepping.{Grepping}
use jobserv.RunApi.Followups.{Stored}
use jobserv.RunApi.Update.{run_update}
use jobserv.RunApi.Rerun.{run_rerun}
use jobserv.TestApi.{TestData, test_create, test_update}
use jobserv.WorkerApi.Polling.{give_back}
use jobserv.BuildApi.{Promotion, build_patch, build_promote}
use jobserv.Monitor.{requeue_runs}
use jobserv.Monitor.Termination.{Server, Sweep, check_stuck, check_cancelled}

-- One request or one check.
pub data Step : Build → Build → Type 0 where
  -- the runs of a trigger are added, also where that ends with an exception
  triggered : {b : Build} → (c : Call) → Step b (build_of (trigger_runs c b))
  -- a build without runs whose files the storage does not take, and one that another service made: two
  -- runs of one name violate the constraint, and are not committed
  failed_unexpectedly :
      {b : Build} → (now : ℕ) (key : ℕ × Text) → b.runs ≡ [] → Step b (fail_unexpected now key b)
  imported :
      {b : Build}
      → (keys : ℕ → ℕ × Text) (trigger_name : Option Text) (names : List Text) → DistinctNames names
      → Step b (external_build keys trigger_name names b)
  -- a worker that polls takes a run, or the run goes back since its definition cannot be sent
  claimed :
      {b : Build}
      → (now : ℕ) (name : Text) (raises : ℕ → Bool) (id : ℕ) → Step b (claim now name raises id b).0
  given_back : {b : Build} → (id : ℕ) → Step b (with_runs b (modify_run id give_back b.runs))
  -- the runner of a run reports
  reported :
      {b : Build}
      → (s : Stored) (grepping : Option Grepping) (lines_of : Text → List Text) (id : ℕ)
        (req : Request) (console : Text)
      → Step b (run_update s grepping lines_of id req console b).build
  test_created :
      {b b' : Build}
      → (id : ℕ) (name : Text) (d : Option TestData) → test_create id name d b ≡ some b'
      → Step b b'
  test_updated :
      {b : Build}
      → (s : Stored) (id : ℕ) (req : Request) (name : Text) (context : Option Text)
        (d : Option TestData) (console : Text)
      → Step b (test_update s id req name context d console b).build
  -- users
  run_cancelled : {b : Build} → (now id : ℕ) → Step b (cancel now id b)
  build_cancelled : {b : Build} → (now : ℕ) → Step b (build_cancel now b)
  rerun : {b : Build} → (now id : ℕ) → Step b (run_rerun now id b)
  patched :
      {b b' : Build} → (annotation : Option Text) → build_patch annotation b ≡ some b' → Step b b'
  promoted : {b b' : Build} → (d : Option Promotion) → build_promote d b ≡ some b' → Step b b'
  -- the monitor
  requeued : {b : Build} → (now : ℕ) → Step b (requeue_runs now b)
  stuck :
      {b : Build}
      → (now : ℕ) (v : Server) (message : Run → Text) (console : ℕ → Text) (raised : Bool)
      → Step b
          (check_stuck now v message
            (record { build = b; console = console; raised = raised })).build
  orphaned :
      {b : Build}
      → (v : Server) (message : Text) (console : ℕ → Text) (raised : Bool)
      → Step b
          (check_cancelled v message
            (record { build = b; console = console; raised = raised })).build

-- What a build may become, with any steps in any order.
pub data Reach : Build → Type 0 where
  created : {b : Build} → b.runs ≡ [] → Reach b
  next : {b c : Build} → Reach b → Step b c → Reach c
