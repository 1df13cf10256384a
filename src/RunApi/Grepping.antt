-- ===== src/RunApi/Grepping.antt =====
-- `_failed_tests`: the tests and results that the console log of a run shows.
use jobserv.Prelude.{
  ◌≡◌, inl, inr, Bool, true, false, ◌||◌, Option, none, some, List, [], ◌∷◌, ◌++◌, any, Text, text,
  text_eq, lookup, Option-cases, arith, if◌then◌else◌,
}
use jobserv.Status.{
  BuildStatus, queued, running, passed, failed, running_with_failures, uploading, promoted, skipped,
  cancelling, has,
}
use jobserv.Models.{Test, TestResult}

-- The run's `test-grepping`: the groups that its two patterns find in a line.
pub record Grepping : Type 0 where
  pub test_pattern : Text
  pub test_pat : Option (Text → Option Text)
  -- the name and the result
  pub res_pat : Text → Option (Text × Text)
  pub fixupdict : List (Text × Text)

-- `BuildStatus[name]`
unfoldable pub status_named : Text → Option BuildStatus
status_named name =
    if text_eq name (text "QUEUED")
    then some queued
    else if text_eq name (text "RUNNING")
    then some running
    else if text_eq name (text "PASSED")
    then some passed
    else if text_eq name (text "FAILED")
    then some failed
    else if text_eq name (text "RUNNING_WITH_FAILURES")
    then some running_with_failures
    else if text_eq name (text "UPLOADING")
    then some uploading
    else if text_eq name (text "PROMOTED")
    then some promoted
    else if text_eq name (text "SKIPPED")
    then some skipped
    else if text_eq name (text "CANCELLING")
    then some cancelling
    else none

-- The loop's variables: the tests that are finished, `cur_test` and `failures`.
pub record Grep : Type 0 where
  pub tests : List Test
  pub cur_test : Option Test
  pub failures : Bool

-- `fixups.get(result, result)`
unfoldable pub fixup : List (Text × Text) → Text → Text
fixup fixups result = elim (lookup result fixups) [ none ↦ result | some r ↦ r ]

statuses_of : List TestResult → List BuildStatus
statuses_of [] = []
statuses_of (r ∷ rs) = r.status ∷ statuses_of rs

-- The test that ends when the next one begins.
close_test : Option Test → List Test
unfolding statuses_of
close_test none = []
close_test (some t) =
    (if has failed (statuses_of t.results) then record t { status = failed } else t) ∷ []

begin_test : Text → Option Text → Grep → Grep
unfolding close_test
begin_test pattern none g = g
begin_test pattern (some name) g = record g {
  tests = g.tests ++ close_test g.cur_test;
  cur_test = some (record { name = name; context = some pattern; status = passed; results = [] });
}

match_test : Grepping → Text → Grep → Grep
unfolding begin_test
match_test p line g = elim p.test_pat [
  | none ↦ g
  | some pat ↦ begin_test p.test_pattern (pat line) g
]

is_failed : Text → Bool
is_failed result = text_eq result (text "FAILED")

-- `cur_test`, or the test `default` that is made for a result without a test.
current : Option Test → Text → BuildStatus → Test
unfolding is_failed
current none result status = record {
  name = text "default";
  context = none;
  status = status;
  results = [];
}
current (some t) result status = if is_failed result then record t { status = failed } else t

add_result : Text → BuildStatus → Test → Test
add_result name status t = record t {
  results = t.results ++ record { name = name; status = status; output = none } ∷ [];
}

-- A result whose name is no status raises: `none`.
record_result : Option (Text × Text) → List (Text × Text) → Grep → Option Grep
unfolding current add_result is_failed
record_result none fixups g = some g
record_result (some (name, found)) fixups g =
    let result = fixup fixups found in
    elim (status_named result) [
      | none ↦ none
      | some status ↦ some (record g {
        cur_test = some (add_result name status (current g.cur_test result status));
        failures = if is_failed result then true else g.failures;
      })
    ]

grep_line : Grepping → Text → Grep → Option Grep
unfolding match_test record_result
grep_line p line g = record_result (p.res_pat line) p.fixupdict (match_test p line g)

unfoldable pub grep_lines : Grepping → List Text → Grep → Option Grep
unfolding grep_line
grep_lines p [] g = some g
grep_lines p (line ∷ lines) g = elim (grep_line p line g) [
  | none ↦ none
  | some g' ↦ grep_lines p lines g'
]

last_test : Option Test → List Test
last_test none = []
last_test (some t) = t ∷ []

-- The new tests of the run, and whether a test failed.
unfoldable pub failed_tests : Option Grepping → List Text → Option (List Test × Bool)
unfolding last_test
failed_tests none lines = some ([], false)
failed_tests (some p) lines =
    elim (grep_lines p lines (record { tests = []; cur_test = none; failures = false })) [
      | none ↦ none
      | some g ↦ some (g.tests ++ last_test g.cur_test, g.failures)
    ]

abbrev pub fails : Option (Text × Text) → List (Text × Text) → Bool
fails none fixups = false
fails (some (name, r)) fixups = text_eq (fixup fixups r) (text "FAILED")

-- A line whose result, after the fixups, is FAILED.
abbrev pub shows_failure : Grepping → Text → Bool
shows_failure p line = fails (p.res_pat line) p.fixupdict

match_test-failures :
    (p : Grepping) (line : Text) (g : Grep) → (match_test p line g).failures ≡ g.failures
unfolding match_test
match_test-failures p line g = elim (Option-cases p.test_pat) [
  | inl e ↦ ground (arith, e)
  | inr (pat, e) ↦ elim (Option-cases (pat line)) [
    | inl f ↦ ground (arith, e, f)
    | inr (name, f) ↦ ground (arith, e, f)
  ]
]

record_result-failures :
    (found : Option (Text × Text)) (fixups : List (Text × Text)) (g g' : Grep)
    → record_result found fixups g ≡ some g'
    → g'.failures ≡ (fails found fixups || g.failures)
unfolding record_result is_failed
record_result-failures none fixups g g' h = ground (arith, h)
record_result-failures (some (name, r)) fixups g g' h =
    elim (Option-cases (status_named (fixup fixups r))) [
      | inl e ↦ ground (arith, h, e)
      | inr (s, e) ↦ ground (arith, h, e)
    ]

grep_lines-failures :
    (p : Grepping) (lines : List Text) (g g' : Grep)
    → grep_lines p lines g ≡ some g'
    → g'.failures ≡ (any (shows_failure p) lines || g.failures)
unfolding grep_lines grep_line
grep_lines-failures p [] g g' h = ground (arith, h)
grep_lines-failures p (line ∷ lines) g g' h =
    let m = match_test p line g in
    elim (Option-cases (record_result (p.res_pat line) p.fixupdict m)) [
      | inl e ↦ ground (arith, h, e)
      | inr (g1, e) ↦ ground (
        arith,
        h,
        e,
        match_test-failures p line g,
        record_result-failures (p.res_pat line) p.fixupdict m g1 e,
        grep_lines-failures p lines g1 g',
      )
    ]

-- Where the log can be read, a failure is reported exactly when some line shows a failed result.
pub failed_tests_lem :
    (p : Grepping) (lines : List Text) (tests : List Test) (failures : Bool)
    → failed_tests (some p) lines ≡ some (tests, failures)
    → failures ≡ any (shows_failure p) lines
unfolding failed_tests
failed_tests_lem p lines tests failures h =
    let start : Grep = record { tests = []; cur_test = none; failures = false } in
    elim (Option-cases (grep_lines p lines start)) [
      | inl e ↦ ground (arith, h, e)
      | inr (g, e) ↦ ground (arith, h, e, grep_lines-failures p lines start g e)
    ]
