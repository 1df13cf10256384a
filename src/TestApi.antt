-- ===== src/TestApi.antt =====
-- jobserv/api/test.py: the tests that a runner reports, and what they make of the status of their run
-- (`Test.set_status` of jobserv/models.py). The console log is a text.
pub mod Passing
mod Samples
use jobserv.Prelude.{
  ℕ, Bool, true, false, not, ◌&&◌, Option, none, some, List, [], ◌∷◌, ◌++◌, map, Text, text_eq,
  if◌then◌else◌,
}
use jobserv.Status.{BuildStatus, queued, passed, is, complete, get_cumulative_status}
use jobserv.Models.{Run, Test, TestResult, Build, find_run, modify_run, with_runs}
use jobserv.Models.Results.{new_result}
use jobserv.RunApi.{Request, Access, granted, authenticate_runner}
use jobserv.RunApi.Grepping.{status_named}
use jobserv.RunApi.Followups.{Stored}
use jobserv.RunApi.Update.{
  Update, Response, done, unauthorized, not_found, bad_request, server_error, locked_update,
  run_complete,
}

-- One of the results in the data of a request.
pub record ResultData : Type 0 where
  pub name : Text
  pub status : Text
  pub output : Option Text

-- The data of a request.
pub record TestData : Type 0 where
  pub context : Option Text
  pub message : Option Text
  pub status : Option Text
  pub results : List ResultData

-- `create_test_result`; `none` is a `KeyError`.
create_test_result : ResultData → Option TestResult
create_test_result d = elim (status_named d.status) [
  | none ↦ none
  | some status ↦ some (new_result d.name status d.output)
]

unfoldable pub create_results : List ResultData → Option (List TestResult)
unfolding create_test_result
create_results [] = some []
create_results (d ∷ ds) = elim (create_test_result d) [
  | none ↦ none
  | some r ↦ elim (create_results ds) [ none ↦ none | some rs ↦ some (r ∷ rs) ]
]

-- `if status: t.status = status`; `none` is a `KeyError`.
unfoldable pub first_status : Option Text → Option BuildStatus
first_status none = some queued
first_status (some []) = some queued
first_status (some (c ∷ name)) = status_named (c ∷ name)

unfoldable pub created_test :
    Text → Option Text → Option BuildStatus → Option (List TestResult) → Option Test
created_test name context none results = none
created_test name context (some status) none = none
created_test name context (some status) (some results) =
    some (record { name = name; context = context; status = status; results = results })

unfoldable pub add_test : Test → Run → Run
add_test t r = record r { tests = r.tests ++ t ∷ [] }

-- `test_create`, after the run was found and its runner was let through; `none` is an error, after which
-- nothing is committed. Without data the context is empty.
unfoldable pub test_create : ℕ → Text → Option TestData → Build → Option Build
unfolding created_test first_status create_results add_test with_runs
test_create id name none b = some (
    with_runs b (
      modify_run id
        (add_test (record { name = name; context = some []; status = queued; results = [] }))
        b.runs))
test_create id name (some d) b =
    elim (created_test name d.context (first_status d.status) (create_results d.results)) [
      | none ↦ none
      | some t ↦ some (with_runs b (modify_run id (add_test t) b.runs))
    ]

same_context : Text → Option Text → Bool
same_context context none = false
same_context context (some c) = text_eq c context

-- The filters of `test_update`; an empty context does not filter.
unfoldable pub is_test : Text → Option Text → Test → Bool
unfolding same_context
is_test name none t = text_eq t.name name
is_test name (some []) t = text_eq t.name name
is_test name (some (c ∷ context)) t = text_eq t.name name && same_context (c ∷ context) t.context

unfoldable pub find_test : (Test → Bool) → List Test → Option Test
find_test p [] = none
find_test p (t ∷ ts) = if p t then some t else find_test p ts

-- A change of the first test that fits.
unfoldable pub modify_test : (Test → Bool) → (Test → Test) → List Test → List Test
modify_test p f [] = []
modify_test p f (t ∷ ts) = if p t then f t ∷ ts else t ∷ modify_test p f ts

unfoldable pub set_test_status : BuildStatus → Test → Test
set_test_status status t = record t { status = status }

-- `Test.set_status`: the tests of the run, and the status that is returned.
unfoldable pub set_status :
    (Test → Bool) → Test → BuildStatus → List Test → List Test × Option BuildStatus
unfolding modify_test set_test_status
set_status p t status tests =
    if is t.status status
    then (tests, none)
    else (let tests' = modify_test p (set_test_status status) tests in
        (tests', some (get_cumulative_status (map (λ t. t.status) tests'))))

unfoldable pub with_tests : List Test → Run → Run
with_tests tests r = record r { tests = tests }

unfoldable pub add_results : List TestResult → Test → Test
add_results results t = record t { results = t.results ++ results }

-- The reply, with the run's `complete`.
pub data TestReply : Type 0 where
  replied : Bool → TestReply
  refused : Access → TestReply
  missing invalid failing : TestReply

pub record Tested : Type 0 where
  pub build : Build
  pub console : Text
  pub reply : TestReply

reply_of : ℕ → Update → TestReply
reply_of id u = elim u.response [
  | done cancel ↦ replied (run_complete (find_run id u.build.runs))
  | unauthorized a ↦ refused a
  | not_found ↦ missing
  | bad_request ↦ invalid
  | server_error ↦ failing
]

-- `if run_status is not None`
unfoldable pub after_status : Stored → ℕ → Text → Build → Option BuildStatus → Tested
unfolding reply_of
after_status s id console b none = record {
  build = b;
  console = console;
  reply = replied (run_complete (find_run id b.runs));
}
after_status s id console b (some status) =
    let u = locked_update s id status console b in
    record { build = u.build; console = u.console; reply = reply_of id u }

-- `if status`, for the test as it was found, and the tests of the run.
unfoldable pub report_test :
    Stored → ℕ → (Test → Bool) → Test → List Test → Option Text → Text → Build → Tested
unfolding after_status with_tests with_runs set_status
report_test s id p t tests none console b = after_status s id console b none
report_test s id p t tests (some []) console b = after_status s id console b none
report_test s id p t tests (some (c ∷ name)) console b = elim (status_named (c ∷ name)) [
  | none ↦ record { build = b; console = console; reply = failing }
  | some status ↦
      let (tests', run_status) = set_status p t status tests in
      after_status s id console (with_runs b (modify_run id (with_tests tests') b.runs)) run_status
]

-- `if msg`
unfoldable pub logged : Option Text → Text → Text
logged none console = console
logged (some msg) console = console ++ msg

-- The results of the request are stored before its status.
unfoldable pub with_results :
    Stored
    → ℕ
    → Run
    → (Test → Bool)
    → Test
    → TestData
    → Text
    → Build
    → Option (List TestResult)
    → Tested
unfolding report_test add_results with_tests modify_test with_runs
with_results s id r p t d console b none = record { build = b; console = console; reply = failing }
with_results s id r p t d console b (some results) =
    let tests = modify_test p (add_results results) r.tests in
    report_test s id p t tests d.status console
      (with_runs b (modify_run id (with_tests tests) b.runs))

unfoldable pub after_find :
    Stored → ℕ → Run → (Test → Bool) → Option TestData → Option Test → Text → Build → Tested
unfolding with_results create_results logged
after_find s id r p data' none console b = record { build = b; console = console; reply = missing }
after_find s id r p none (some t) console b = record {
  build = b;
  console = console;
  reply = replied (run_complete (some r));
}
after_find s id r p (some d) (some t) console b =
    with_results s id r p t d (logged d.message console) b (create_results d.results)

unfoldable pub after_access :
    Stored → ℕ → Run → Text → Option Text → Option TestData → Access → Text → Build → Tested
unfolding after_find find_test is_test
after_access s id r name context data' granted console b =
    after_find s id r (is_test name context) data' (find_test (is_test name context) r.tests)
      console b
after_access s id r name context data' other console b = record {
  build = b;
  console = console;
  reply = refused other;
}

-- `test_update`; `context` is an argument of the address.
unfoldable pub test_update :
    Stored → ℕ → Request → Text → Option Text → Option TestData → Text → Build → Tested
unfolding after_access
test_update s id req name context data' console b = elim (find_run id b.runs) [
  | none ↦ record { build = b; console = console; reply = missing }
  | some r ↦ after_access s id r name context data' (authenticate_runner req r) console b
]
