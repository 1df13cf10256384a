-- ===== src/Monitor/Termination.antt =====
-- `_update_run`, `_check_stuck` and `_check_cancelled` of jobserv/worker.py: the monitor reports the
-- end of a run to the server, as the run's runner would. The requests arrive; mails are left out.
use jobserv.Prelude.{
  ℕ, zero, suc, Bool, true, false, Option, none, some, List, [], ◌∷◌, ◌++◌, select, Text, text,
  ◌==◌, if◌then◌else◌,
}
use jobserv.Models.{Run, Build}
use jobserv.RunApi.{Request}
use jobserv.RunApi.Grepping.{Grepping}
use jobserv.RunApi.Followups.{Stored}
use jobserv.RunApi.Update.{
  Update, Response, done, unauthorized, not_found, bad_request, server_error, run_update,
}
use jobserv.Monitor.{is_stuck, is_orphan}

-- The request of `_update_run` with the status FAILED.
unfoldable pub failed_request : Text → Run → Request
failed_request message r = record {
  apikey = none;
  authorization = some (text "Token " ++ r.api_key);
  body = message;
  metadata = none;
  status = some (text "FAILED");
}

-- `r.status_code == 200`
unfoldable pub is_done : Response → Bool
is_done (done cancel) = true
is_done (unauthorized a) = false
is_done not_found = false
is_done bad_request = false
is_done server_error = false

-- A build with the console logs of its runs, and whether an exception was raised.
pub record Sweep : Type 0 where
  pub build : Build
  pub console : ℕ → Text
  pub raised : Bool

-- What the server knows and computes for a run.
pub record Server : Type 0 where
  pub stored : ℕ → Stored
  pub grepping : ℕ → Option Grepping
  pub lines_of : Text → List Text

set_console : ℕ → Text → (ℕ → Text) → ℕ → Text
set_console id log console i = if i == id then log else console i

-- `requests.post` of the report, as the server answers it.
unfoldable pub post_failed : Server → Text → Run → Sweep → Update
unfolding failed_request
post_failed v message r w =
    run_update (v.stored r.id) (v.grepping r.id) v.lines_of r.id (failed_request message r)
      (w.console r.id) w.build

unfoldable pub answered : ℕ → Update → Sweep → Sweep
unfolding set_console
answered id u w = record w { build = u.build; console = set_console id u.console w.console }

-- `for x in range(3)`: the same request again, until it is answered with 200.
unfoldable pub try_update : ℕ → Server → Text → Run → Sweep → Sweep
unfolding post_failed is_done answered
try_update zero v message r w = record w { raised = true }
try_update (suc n) v message r w =
    let u = post_failed v message r w in
    let again = try_update n v message r (answered r.id u w) in
    if is_done u.response then answered r.id u w else again

-- `_update_run`
unfoldable pub update_run : Server → Text → Run → Sweep → Sweep
unfolding try_update
update_run v message r w = try_update 3 v message r w

-- The loop over the runs that the query found: an exception ends it.
unfoldable pub terminate_each : Server → (Run → Text) → List Run → Sweep → Sweep
unfolding update_run
terminate_each v message [] w = w
terminate_each v message (r ∷ rs) w =
    let later = terminate_each v message rs (update_run v (message r) r w) in
    if w.raised then w else later

-- `_check_stuck`, for the runs of one build.
unfoldable pub check_stuck : ℕ → Server → (Run → Text) → Sweep → Sweep
unfolding terminate_each
check_stuck now v message w = terminate_each v message (select (is_stuck now) w.build.runs) w

-- `_check_cancelled`, for the runs of one build.
unfoldable pub check_cancelled : Server → Text → Sweep → Sweep
unfolding terminate_each
check_cancelled v message w = terminate_each v (λ r. message) (select is_orphan w.build.runs) w
