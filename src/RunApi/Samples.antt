-- ===== src/RunApi/Samples.antt =====
-- Reports of a runner.
use jobserv.Prelude.{
  ℕ, ◌==◌, ◌+◌, ◌≡◌, ◌↔◌, ◌⊎◌, refl, true, false, none, some, List, [], ◌∷◌, any, Text, text,
  text_eq, lookup,
}
use jobserv.Status.{running, queued, passed, is, complete}
use jobserv.Models.Lookup.{status_of, replace}
use jobserv.Models.{Run, Build, find_run}
use jobserv.Triggers.{build_of, run_names}
use jobserv.Triggers.Names.{IsNamed}
use jobserv.RunApi.{Request, authenticate_runner, granted, running_tests}
use jobserv.RunApi.Auth.{InQuery, InHeader, authenticate_runner-granted}
use jobserv.RunApi.Grepping.{
  Grepping, failed_tests, failed_tests_lem, shows_failure, status_named, grep_lines, fixup,
}
use jobserv.RunApi.Followups.{Stored, handle_triggers}
use jobserv.RunApi.Names.{handle_triggers-IsNamed}
use jobserv.RunApi.Update.{run_update}
use jobserv.RunApi.Reports.{run_update-IsNamed}
use jobserv.RunApi.Waiting.{run_update-waits}
use jobserv.Fixtures.{named_build, sample_run, sample_definition, sample_target, sample_secrets}

abbrev stored : Stored
stored = record {
  now = 5;
  projdef = sample_definition;
  secrets = sample_secrets;
  env = [];
  build_params = [];
  url = text "/runs/";
  allowed_host_tags = [];
  target = λ name key. record sample_target { run = name; api_key = key };
  fresh = λ k i. (20 + k + i, text "key");
}

abbrev anonymous : Request
anonymous = record {
  apikey = none;
  authorization = none;
  body = text "x";
  metadata = none;
  status = some (text "PASSED");
}

abbrev keyed : Request
keyed = record anonymous { apikey = some (text "secret") }

-- A run with a test that waits.
abbrev tested_run : Run
tested_run = record (sample_run 1 running) {
  tests = record { name = text "boot"; context = none; status = queued; results = [] } ∷ [];
}

abbrev tested_build : Build
tested_build = record named_build { runs = tested_run ∷ [] }

abbrev lines_of : Text → List Text
lines_of log = log ∷ []

-- Each line is a result: its only test fails.
abbrev grepping : Grepping
grepping = record {
  test_pattern = [];
  test_pat = none;
  res_pat = λ line. some (text "a", text "FAILED");
  fixupdict = [];
}

authenticate_runner-granted_example : (authenticate_runner keyed tested_run ≡ granted) ↔ (
    InQuery (some (text "secret")) tested_run
    ⊎ (InHeader none tested_run × (complete running ≡ false)))
authenticate_runner-granted_example = authenticate_runner-granted keyed tested_run

failed_tests_lem_example : true ≡ any (shows_failure grepping) (text "l" ∷ [])
unfolding failed_tests grep_lines fixup status_named lookup text_eq
failed_tests_lem_example = failed_tests_lem grepping (text "l" ∷ []) _ true refl

one_report : IsNamed (run_update stored none lines_of 1 keyed [] named_build).build
unfolding run_names
one_report = run_update-IsNamed stored none lines_of 1 keyed [] named_build (refl, tt)

handle_triggers-IsNamed_example : IsNamed (build_of (handle_triggers stored 1 named_build))
unfolding run_names
handle_triggers-IsNamed_example = handle_triggers-IsNamed stored 1 named_build (refl, tt)

run_update-waits_example :
    let b' = (run_update stored none lines_of 1 keyed [] tested_build).build in
    ((j : ℕ) → status_of j b'.runs ≡ replace (1 == j) running (status_of j tested_build.runs))
    × (run_names b' ≡ run_names tested_build)
unfolding find_run authenticate_runner status_named text_eq is running_tests failed_tests complete
run_update-waits_example =
    run_update-waits stored none lines_of 1 keyed [] tested_build tested_run (text "PASSED") passed
      [] refl refl refl refl refl refl refl refl
