-- ===== src/Runner/Samples.antt =====
-- Runs at small inputs.
use jobserv.Prelude.{
  arith, zero, suc, ℕ, ◌≡◌, ◌↔◌, refl, true, false, none, some, List, [], ◌∷◌, ◌++◌, any, map, All,
  Text, text, text_eq, length, lookup, starts_with, strip,
}
use jobserv.Status.{BuildStatus, failed}
use jobserv.Runner.Stream.{
  Sent, accepted, refused, cancelled, IsPlain, stream_cmd, chunks, chunk, sent, finish, output_of,
  Ends, stream_cmd-taken,
}
use jobserv.Runner.Upload.{split, concat, IsGroup, split-groups}
use jobserv.Runner.Junit.{
  Suite, absent, junit_errors, suites, cases, status_of, has_failure, suite_result,
  junit_errors-failed,
}
use jobserv.Runner.Execute.{Steps, done, execute, has_passed, Passes, execute-passed}
use jobserv.Runner.Execute.Finishing.{Finishes, execute-Finishes}
use jobserv.Runner.Docker.{escape, docker_env, count, docker_env-lines}
use jobserv.Runner.Netrc.{prepare_netrc}

-- One answer is a refusal, the others are not.
abbrev answer : ℕ → Sent
answer n = elim n [ zero ↦ refused | suc k ↦ accepted ]

abbrev output : List (ℕ × Text)
output = (100, text "a") ∷ (101, text "b") ∷ []

stream_cmd-taken_example : (rest : Text) × Ends (output_of output) rest (stream_cmd answer output)
stream_cmd-taken_example = stream_cmd-taken answer output (λ n.
    elim n as (λ k. IsPlain (answer k)) [
      | zero ↦ ((λ e. cc e), λ e. cc e)
      | suc k ↦ ((λ e. cc e), λ e. cc e)
    ])

-- The first part is sent twice if the server takes both parts and asks for the end of the run.
sent_twice :
    (stream_cmd
      (λ n. elim n [ zero ↦ refused | suc k ↦ elim k [ zero ↦ cancelled | suc j ↦ accepted ] ])
      output).taken
    ≡ text "aba"
unfolding stream_cmd chunks chunk sent finish
sent_twice = refl

groups_of_one : (concat (split output 1) ≡ output) × All (IsGroup 1) (split output 1)
groups_of_one = split-groups output 1 (omega arith)

abbrev suite : Suite
suite = record {
  name = none;
  skipped_attr = absent;
  cases =
      record { name = some (text "t"); classname = none; children = text "failure" ∷ []; xml = [] }
      ∷ [];
}

failed_suites :
    (true ≡ any (λ ts. has_failure ts.cases) (suite ∷ []))
    × (◌≡◌ {A = List BuildStatus} (failed ∷ []) (map suite_result (suite ∷ [])))
unfolding junit_errors suites cases status_of text_eq
failed_suites = junit_errors-failed (suite ∷ []) true _ refl

abbrev steps : Steps
steps = record {
  simulated = false;
  instructions = done tt;
  docker_pull = done tt;
  start_timer = done tt;
  prepare_mounts = done tt;
  docker_run = done true;
  check_for_reboot = done tt;
  update_run = done tt;
  upload_artifacts = done true;
  test_suite_errors = done false;
  report = λ n status. done tt;
}

steps_pass : (has_passed (execute steps).reports ≡ true) ↔ Passes steps
steps_pass = execute-passed steps

steps_finish : Finishes (execute steps)
steps_finish = execute-Finishes steps

abbrev envvars : List (Text × Text)
envvars = (text "A", 10 ∷ []) ∷ []

escaped : docker_env envvars ≡ text "A=" ++ b'\\' ∷ b'n' ∷ 10 ∷ []
unfolding docker_env escape
escaped = refl

one_line_each : count 10 (docker_env envvars) ≡ length envvars
one_line_each = docker_env-lines envvars

gitlab_user_missing :
    prepare_netrc (text "h") (text "k") none ((text "gitlabtok", text "t") ∷ []) ≡ none
unfolding prepare_netrc lookup text_eq starts_with strip
gitlab_user_missing = refl
