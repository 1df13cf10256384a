-- ===== src/WorkerScript/Samples.antt =====
-- Runs at small inputs.
use jobserv.Prelude.{
  arith, zero, suc, ℕ, ◌+◌, ◌*◌, ◌≡◌, ◌≤◌, ◌<◌, ◌↔◌, ◌⊎◌, refl, true, false, none, some, List, [],
  ◌∷◌, map, select, Text, text, text_eq, has_text, starts_with, lookup, lower, store, ◌==◌,
}
use jobserv.Fixtures.{sample_db, sample_worker}
use jobserv.Runner.Execute.{Steps, done, has_passed}
use jobserv.WorkerScript.Reboot.{
  Host, boot, begin_loop, without, handle_reboot, handle_rebooted_run, reboot, Life, starts, lives,
  asks, boots, asked, booted, resumed, count, is_resumed, is_asked, started_since, Life-resumed,
}
use jobserv.WorkerScript.Volumes.{Outside, gcvols, gcvols-belongs}
use jobserv.WorkerScript.Retries.{Answer, status, Tries, update_run, update_run-Tries}
use jobserv.WorkerScript.Setup.{
  certs_dir, update_shared_volumes, update_shared_volumes-Wanted, Wanted,
}
use jobserv.WorkerScript.Locks.{Lock, free, held}
use jobserv.WorkerScript.Check.{Setup, Child, removed, handle_run, handle_run-passed, Succeeds}
use jobserv.WorkerScript.CheckIn.{executions, check_in, check_in-Locked, Locked}
use jobserv.WorkerScript.Loop.{Args, Times, Round, actions, after_rounds, Rested, actions-Rested}
use jobserv.WorkerScript.Check.Finishing.{handle_run-Finishes, Ends}

-- The server fails once.
abbrev answers : ℕ → Answer
answers n = elim n [ zero ↦ status 503 | suc k ↦ status 200 ]

tried_report :
    Tries (λ code. code == 200) answers 8 (update_run answers) × ((update_run answers).slept ≤ 56)
tried_report = update_run-Tries answers

abbrev section : List (Text × Text)
section = (text "cache", text "/srv/cache") ∷ []

two_volumes :
    Wanted section ((text "Cache", text "/cache") ∷ []) (text "/srv/cache") (text "/cache")
    ⊎ ((text "/srv/cache" ≡ certs_dir) × (text "/cache" ≡ certs_dir))
unfolding update_shared_volumes text_eq lookup lower store
two_volumes =
    update_shared_volumes-Wanted (some section) true ((text "Cache", text "/cache") ∷ [])
      ((text "/srv/cache", text "/cache") ∷ (certs_dir, certs_dir) ∷ []) (text "/srv/cache")
      (text "/cache") refl refl

abbrev locks : List Lock
locks = free ∷ held (text "other") ∷ free ∷ []

abbrev steps : Steps
steps = record {
  simulated = true;
  instructions = done tt;
  docker_pull = done tt;
  start_timer = done tt;
  prepare_mounts = done tt;
  docker_run = done true;
  check_for_reboot = done tt;
  update_run = done tt;
  upload_artifacts = done true;
  test_suite_errors = done false;
  report = λ n status. done tt;
}

abbrev setup : Setup
setup = record {
  called = true;
  section = some section;
  extra_certs = false;
  shared_volumes = [];
  limited = true;
  answers = answers;
  forked = true;
}

abbrev child : Child
child = record {
  answers = answers;
  imported = true;
  steps = steps;
  called = true;
  reboots = false;
  deleted = removed;
}

handle_run-passed_example : (has_passed (handle_run setup child) ≡ true) ↔ Succeeds setup child
handle_run-passed_example = handle_run-passed setup child

handle_run-Finishes_example : Ends setup child
handle_run-Finishes_example = handle_run-Finishes setup child

check_in-Locked_example :
    Locked
      (map
        (λ row. text "run")
        (check_in 5 [] 100 sample_worker locks 200 (λ n. false) (λ row. true) sample_db).run_defs)
      locks
    × (executions
          (λ row. true)
          (λ row. false)
          (check_in 5 [] 100 sample_worker locks 200 (λ n. false) (λ row. true) sample_db).run_defs
        ≡ select
            (λ row. true)
            (check_in 5 [] 100 sample_worker locks 200
              (λ n. false)
              (λ row. true)
              sample_db).run_defs)
check_in-Locked_example =
    check_in-Locked 5 [] 100 sample_worker locks 200 (λ n. false) (λ row. true) sample_db
      (λ row. text "run") (λ row. true) (λ row. false)

-- If there were two runs, the second would be carried out by two processes.
executed_twice : executions {A = ℕ} (λ n. true) (λ n. false) (1 ∷ 2 ∷ []) ≡ 1 ∷ 2 ∷ 2 ∷ []
unfolding executions
executed_twice = refl

abbrev args : Args
args = record {
  has_idle_command = true;
  idle_threshold = 15;
  docker_rm = 8;
  every = 20;
  expires = none;
}

abbrev started : Times
started = record { last_busy = 1000; next_clean = 29800 }

abbrev rounds : List Round
rounds = record { now = 1500; idle = false; later = 1500 } ∷ []

abbrev quiet : Round
quiet = record { now = 2500; idle = true; later = 2500 }

quiet_rounds : (true ≡ true) × Rested args 2500 rounds × (1000 + 15 * 60 < 2500)
unfolding actions after_rounds
quiet_rounds = actions-Rested args started rounds quiet (omega arith, tt) refl

-- A run asks for a reboot, and the host boots.
abbrev rebooted_host : Host
rebooted_host = boot true (
    handle_reboot (text "run-1") (record { rebooting = false; rebooted_run = none; executed = [] }))

one_reboot : Life (booted ∷ asked (text "run-1") ∷ []) rebooted_host
one_reboot = lives (lives starts (asks (text "run-1"))) (boots true)

Life-resumed_example :
    (count (is_resumed (text "run-1")) (booted ∷ asked (text "run-1") ∷ [])
      ≤ count (is_asked (text "run-1")) (booted ∷ asked (text "run-1") ∷ []))
    × ((handle_rebooted_run rebooted_host).1 ≡ resumed (text "run-1")
        → (rebooted_host.rebooted_run ≡ some (text "run-1"))
          × (started_since (booted ∷ asked (text "run-1") ∷ []) ≡ true))
Life-resumed_example = Life-resumed (text "run-1") one_reboot

-- Ten calls of the command that fail, with a message and a longer pause after each.
ten_calls : reboot (λ i. false) ≡ record { messages = 10; slept = 235 }
unfolding reboot
ten_calls = refl

-- The volume of a project, one of a project that was removed, and what is never deleted.
abbrev sample_outside : Outside
sample_outside = record { removes = λ v. true; posts = λ v. true }

abbrev volume_dirs : List Text
volume_dirs = text "customer-1" ∷ text "customer-2" ∷ text "lost+found" ∷ []

gcvols-belongs_example :
    has_text
      (text "customer-1")
      (gcvols sample_outside
        (record { locks = true; dryrun = false; enlisted = true })
        (text "customer-1/lmp" ∷ [])
        volume_dirs).0
    ≡ has_text (text "customer-1") volume_dirs
unfolding starts_with
gcvols-belongs_example =
    gcvols-belongs sample_outside (record { locks = true; dryrun = false; enlisted = true })
      (text "customer-1/lmp" ∷ []) volume_dirs (text "customer-1") refl

-- Of the three directories, one is deleted.
one_deleted :
    (gcvols sample_outside
      (record { locks = true; dryrun = false; enlisted = true })
      (text "customer-1/lmp" ∷ [])
      volume_dirs).0
    ≡ text "customer-1" ∷ text "lost+found" ∷ []
unfolding gcvols starts_with text_eq
one_deleted = refl

-- A loop that begins anew goes on with the run, though the host was not booted.
unbooted : handle_rebooted_run (begin_loop (handle_reboot (text "run-1") rebooted_host)) ≡ (
  record { rebooting = false; rebooted_run = none; executed = text "run-1" ∷ [] },
  resumed (text "run-1"),
)
unfolding handle_rebooted_run handle_reboot without text_eq begin_loop boot
unbooted = refl
