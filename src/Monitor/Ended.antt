-- ===== src/Monitor/Ended.antt =====
-- What becomes of a run whose end the monitor reports.
use mathlib.Core.Option
use jobserv.Prelude.{ℕ, Option, none, List}
use jobserv.Status.{failed}
use jobserv.Models.{Run, Test, Build, modify_run, with_runs, add_event, assign_status}
use jobserv.RunApi.Grepping.{Grepping}
use jobserv.RunApi.Update.{Update, ack, add_tests}

-- The run after the status was set.
failed_run : ℕ → Run → Run
failed_run now r = add_event now failed none (assign_status failed r)

-- The build when the lock is taken: the report is acknowledged, and the tests of the log are stored.
noted : ℕ → List Test → Build → Build
noted id tests b =
    let b' = with_runs b (modify_run id (ack none) b.runs) in
    with_runs b' (modify_run id (add_tests tests) b'.runs)
