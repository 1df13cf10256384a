-- ===== src/RunApi/Update.antt =====
-- `run_update`: a runner's report of output, metadata and status.
use jobserv.Prelude.{
  ℕ, ◌≡◌, ◌≢◌, refl, Bool, true, false, ◌||◌, Option, none, some, List, [], ◌∷◌, ◌++◌, Text,
  if◌then◌else◌,
}
use jobserv.Status.{BuildStatus, running, passed, failed, cancelling, is, complete}
use jobserv.Models.{Run, Test, Build, find_run, modify_run, with_runs, set_status}
use jobserv.Triggers.{Outcome, ok, name_error, api_error, unexpected, raised}
use jobserv.RunApi.{
  Request, Access, granted, no_header, invalid_header, incorrect_key, completed,
  authenticate_runner, running_tests,
}
use jobserv.RunApi.Grepping.{Grepping, status_named, failed_tests}
use jobserv.RunApi.Followups.{Stored, handle_triggers}

pub data Response : Type 0 where
  -- whether the header X-JOBSERV-CANCEL is sent
  done : Bool → Response
  unauthorized : Access → Response
  not_found bad_request server_error : Response

pub record Update : Type 0 where
  pub build : Build
  pub console : Text
  pub response : Response

-- The status to be set, after the tests were looked at.
unfoldable pub decide : BuildStatus → Bool → Bool → BuildStatus
decide status tests_running failures =
    if failures then failed else if tests_running then running else status

unfoldable pub ack : Option Text → Run → Run
ack none r = record r { running_acked = true }
ack (some []) r = record r { running_acked = true }
ack (some (c ∷ metadata)) r = record r { running_acked = true; meta = some (c ∷ metadata) }

unfoldable pub add_tests : List Test → Run → Run
add_tests tests r = record r { tests = r.tests ++ tests }

unfoldable pub cancel_header : Option Run → Bool
cancel_header none = false
cancel_header (some r) = is r.status cancelling

unfoldable pub answer : Option Run → Text → Build → Update
unfolding cancel_header
answer r console b = record { build = b; console = console; response = done (cancel_header r) }

-- An exception leaves what was committed: `before`, unless the failure itself was committed.
unfoldable pub after_triggers : ℕ → Text → Build → Outcome → Update
unfolding answer
after_triggers id console before (ok b) = answer (find_run id b.runs) console b
after_triggers id console before (name_error b) = record {
  build = before;
  console = console;
  response = server_error;
}
after_triggers id console before (api_error b) = record {
  build = before;
  console = console;
  response = bad_request;
}
after_triggers id console before (unexpected b) = record {
  build = b;
  console = console;
  response = server_error;
}
after_triggers id console before (raised b) = record {
  build = before;
  console = console;
  response = server_error;
}

-- `r.complete`, for the run as it is in the build.
unfoldable pub run_complete : Option Run → Bool
run_complete none = false
run_complete (some r) = complete r.status

-- The part under the build's lock.
unfoldable pub locked_update : Stored → ℕ → BuildStatus → Text → Build → Update
unfolding after_triggers
locked_update s id status console b =
    let b' = set_status s.now id status b in
    after_triggers id console b
      (if run_complete (find_run id b'.runs) then handle_triggers s id b' else ok b')

unfoldable pub settle_update :
    Stored → ℕ → Run → BuildStatus → Text → Build → Option (List Test × Bool) → Update
unfolding locked_update add_tests with_runs
settle_update s id r status console b none = record {
  build = b;
  console = console;
  response = server_error;
}
settle_update s id r status console b (some (tests, failures)) =
    locked_update s id (decide status (running_tests r) failures) console
      (with_runs b (modify_run id (add_tests tests) b.runs))

-- `if status:`
unfoldable pub report_status :
    Stored → Option Grepping → List Text → ℕ → Run → Option BuildStatus → Text → Build → Update
unfolding settle_update
report_status s grepping lines id r none console b = record {
  build = b;
  console = console;
  response = server_error;
}
report_status s grepping lines id r (some status) console b =
    if is r.status status
    then answer (some r) console b
    else if is status passed || is status failed
    then settle_update s id r status console b (failed_tests grepping lines)
    else locked_update s id status console b

unfoldable pub report_named :
    Stored → Option Grepping → List Text → ℕ → Run → Option Text → Text → Build → Update
unfolding report_status
report_named s grepping lines id r none console b = answer (some r) console b
report_named s grepping lines id r (some []) console b = answer (some r) console b
report_named s grepping lines id r (some (c ∷ name)) console b =
    report_status s grepping lines id r (status_named (c ∷ name)) console b

unfoldable pub after_access :
    Stored
    → Option Grepping
    → (Text → List Text)
    → ℕ
    → Request
    → Run
    → Access
    → Text
    → Build
    → Update
unfolding report_named ack with_runs
after_access s grepping lines_of id req r granted console b =
    let console' = console ++ req.body in
    report_named s grepping (lines_of console') id r req.status console'
      (with_runs b (modify_run id (ack req.metadata) b.runs))
after_access s grepping lines_of id req r other console b = record {
  build = b;
  console = console;
  response = unauthorized other;
}

unfoldable pub update_run :
    Stored → Option Grepping → (Text → List Text) → ℕ → Request → Option Run → Text → Build → Update
unfolding after_access
update_run s grepping lines_of id req none console b = record {
  build = b;
  console = console;
  response = not_found;
}
update_run s grepping lines_of id req (some r) console b =
    after_access s grepping lines_of id req r (authenticate_runner req r) console b

-- `run_update`; `lines_of` is `readlines` of the console log.
unfoldable pub run_update :
    Stored → Option Grepping → (Text → List Text) → ℕ → Request → Text → Build → Update
unfolding update_run
run_update s grepping lines_of id req console b =
    update_run s grepping lines_of id req (find_run id b.runs) console b

after_access-denied :
    (s : Stored) (grepping : Option Grepping) (lines_of : Text → List Text) (id : ℕ) (req : Request)
    (r : Run) (a : Access) (console : Text) (b : Build)
    → a ≢ granted
    → after_access s grepping lines_of id req r a console b
      ≡ record { build = b; console = console; response = unauthorized a }
unfolding after_access
after_access-denied s grepping lines_of id req r granted console b n = absurd (n refl)
after_access-denied s grepping lines_of id req r no_header console b n = refl
after_access-denied s grepping lines_of id req r invalid_header console b n = refl
after_access-denied s grepping lines_of id req r incorrect_key console b n = refl
after_access-denied s grepping lines_of id req r completed console b n = refl

-- A request that is not let through changes neither the build nor the console log, and is told why.
pub run_update-denied :
    (s : Stored) (grepping : Option Grepping) (lines_of : Text → List Text) (id : ℕ) (req : Request)
    (console : Text) (b : Build) (r : Run)
    → find_run id b.runs ≡ some r
    → authenticate_runner req r ≢ granted
    → run_update s grepping lines_of id req console b
      ≡ record { build = b; console = console; response = unauthorized (authenticate_runner req r) }
unfolding run_update update_run
run_update-denied s grepping lines_of id req console b r e n =
    rw e (after_access-denied s grepping lines_of id req r (authenticate_runner req r) console b n)
