-- ===== src/Lifecycle/Tested.antt =====
-- Reports of tests and the names of a build's runs.
use jobserv.Prelude.{
  ℕ, ◌≡◌, refl, subst, inl, inr, Bool, Option, none, some, List, [], ◌∷◌, Text, Option-cases,
}
use jobserv.Status.{BuildStatus, queued}
use jobserv.Models.{Run, Test, TestResult, Build, find_run, modify_run, with_runs}
use jobserv.Triggers.Names.{IsNamed}
use jobserv.RunApi.{
  Request, authenticate_runner, Access, granted, no_header, invalid_header, incorrect_key,
  completed,
}
use jobserv.RunApi.Grepping.{status_named}
use jobserv.RunApi.Followups.{Stored}
use jobserv.RunApi.Reports.{with_runs-IsNamed, locked_update-IsNamed}
use jobserv.TestApi.{
  TestData, test_create, test_update, after_status, report_test, with_tests, modify_test,
  add_results, with_results, after_find, logged, create_results, after_access, is_test, find_test,
  add_test, created_test, first_status,
}
use jobserv.TestApi

after_status-IsNamed :
    (s : Stored) (id : ℕ) (console : Text) (b : Build) (o : Option BuildStatus)
    → IsNamed b
    → IsNamed (after_status s id console b o).build
unfolding after_status
after_status-IsNamed s id console b none h = h
after_status-IsNamed s id console b (some status) h = locked_update-IsNamed s id status console b h

report_test-IsNamed :
    (s : Stored) (id : ℕ) (p : Test → Bool) (t : Test) (tests : List Test) (status : Option Text)
    (console : Text) (b : Build)
    → IsNamed b
    → IsNamed (report_test s id p t tests status console b).build
unfolding report_test
report_test-IsNamed s id p t tests none console b h = h
report_test-IsNamed s id p t tests (some []) console b h = h
report_test-IsNamed s id p t tests (some (c ∷ name)) console b h =
    elim (Option-cases (status_named (c ∷ name))) [
      | inl e ↦ rw (e, report_test) h
      | inr (status, e) ↦
          rw (e, report_test)
            (after_status-IsNamed s id console _ (TestApi.set_status p t status tests).1 (
              with_runs-IsNamed id (with_tests (TestApi.set_status p t status tests).0) b
                (λ r. unfold with_tests in refl) h))
    ]

with_results-IsNamed :
    (s : Stored) (id : ℕ) (r : Run) (p : Test → Bool) (t : Test) (d : TestData) (console : Text)
    (b : Build) (o : Option (List TestResult))
    → IsNamed b
    → IsNamed (with_results s id r p t d console b o).build
unfolding with_results
with_results-IsNamed s id r p t d console b none h = h
with_results-IsNamed s id r p t d console b (some results) h =
    let tests = modify_test p (add_results results) r.tests in
    report_test-IsNamed s id p t tests d.status console _
      (with_runs-IsNamed id (with_tests tests) b (λ r. unfold with_tests in refl) h)

after_find-IsNamed :
    (s : Stored) (id : ℕ) (r : Run) (p : Test → Bool) (d : Option TestData) (t : Option Test)
    (console : Text) (b : Build)
    → IsNamed b
    → IsNamed (after_find s id r p d t console b).build
unfolding after_find
after_find-IsNamed s id r p d none console b h = h
after_find-IsNamed s id r p none (some t) console b h = h
after_find-IsNamed s id r p (some d) (some t) console b h =
    with_results-IsNamed s id r p t d (logged d.message console) b (create_results d.results) h

test_access-IsNamed :
    (s : Stored) (id : ℕ) (r : Run) (name : Text) (context : Option Text) (d : Option TestData)
    (a : Access) (console : Text) (b : Build)
    → IsNamed b
    → IsNamed (after_access s id r name context d a console b).build
unfolding after_access
test_access-IsNamed s id r name context d granted console b h =
    after_find-IsNamed s id r (is_test name context) d (find_test (is_test name context) r.tests)
      console b h
test_access-IsNamed s id r name context d no_header console b h = h
test_access-IsNamed s id r name context d invalid_header console b h = h
test_access-IsNamed s id r name context d incorrect_key console b h = h
test_access-IsNamed s id r name context d completed console b h = h

pub test_update-IsNamed :
    (s : Stored) (id : ℕ) (req : Request) (name : Text) (context : Option Text)
    (d : Option TestData) (console : Text) (b : Build)
    → IsNamed b
    → IsNamed (test_update s id req name context d console b).build
unfolding test_update
test_update-IsNamed s id req name context d console b h = elim (Option-cases (find_run id b.runs)) [
  | inl e ↦ rw (e, test_update) h
  | inr (r, e) ↦
      rw (e, test_update)
        (test_access-IsNamed s id r name context d (authenticate_runner req r) console b h)
]

created_test-IsNamed :
    (id : ℕ) (b b' : Build) (o : Option Test)
    → (elim o [ none ↦ none | some t ↦ some (with_runs b (modify_run id (add_test t) b.runs)) ])
      ≡ some b'
    → IsNamed b
    → IsNamed b'
created_test-IsNamed id b b' none e h = absurd (cc e)
created_test-IsNamed id b b' (some t) e h =
    let same : with_runs b (modify_run id (add_test t) b.runs) ≡ b' = cc e in
    subst IsNamed same (with_runs-IsNamed id (add_test t) b (λ r. unfold add_test in refl) h)

pub test_create-IsNamed :
    (id : ℕ) (name : Text) (d : Option TestData) (b b' : Build)
    → test_create id name d b ≡ some b'
    → IsNamed b
    → IsNamed b'
unfolding test_create
test_create-IsNamed id name none b b' e h =
    created_test-IsNamed id b b'
      (some (record { name = name; context = some []; status = queued; results = [] })) e h
test_create-IsNamed id name (some d) b b' e h =
    created_test-IsNamed id b b'
      (created_test name d.context (first_status d.status) (create_results d.results)) e h
