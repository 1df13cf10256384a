-- ===== src/Runner/Junit.antt =====
-- runner/jobserv_runner/handlers/simple.py, `_junit_errors`: the tests that a run reports in a file
-- junit.xml. The parsed document is an argument, as its test suites in order.
use jobserv.Prelude.{
  ℕ, ◌+◌, ◌≡◌, refl, inl, inr, Bool, true, false, ◌||◌, Option, none, some, List, [], ◌∷◌, ◌++◌,
  any, map, Text, text, text_eq, ltb, arith, Option-cases, Bool-cases, if◌then◌else◌,
}
use jobserv.Status.{BuildStatus, passed, failed, skipped}

-- An element of a suite, which may be of any kind, with the tags of the elements in it.
pub record Case : Type 0 where
  pub name : Option Text
  pub classname : Option Text
  pub children : List Text
  -- `ET.tostring(tc)`
  pub xml : Text

pub data Skipped : Type 0 where
  absent not_a_number : Skipped
  number : ℕ → Skipped

pub record Suite : Type 0 where
  pub name : Option Text
  pub skipped_attr : Skipped
  pub cases : List Case

pub record Result : Type 0 where
  pub name : Text
  pub context : Option Text
  pub status : BuildStatus
  pub output : Option Text

-- `add_test(name, context, result, results)`; the number is that of the context "junit.xml skipped=%d".
pub record AddedTest : Type 0 where
  pub name : Text
  pub skipped_count : ℕ
  pub result : BuildStatus
  pub results : List Result

-- The status of an element by the tag of its first child.
unfoldable pub status_of : List Text → BuildStatus
status_of [] = passed
status_of (tag ∷ tags) =
    if text_eq tag (text "error") || text_eq tag (text "failure")
    then failed
    else if text_eq tag (text "skipped")
    then skipped
    else passed

-- The variables of the loops: `failed` and `skipped` of the file, `result` and `results` of the suite.
pub record Seen : Type 0 where
  pub any_failed : Bool
  pub skips : ℕ
  pub result : BuildStatus
  pub results : List Result

see : Text → Case → BuildStatus → Seen → Seen
see name tc failed s = record {
  any_failed = true;
  skips = s.skips;
  result = failed;
  results =
      s.results
      ++ record { name = name; context = tc.classname; status = failed; output = some tc.xml } ∷ [];
}
see name tc skipped s = record s {
  skips = s.skips + 1;
  results =
      s.results
      ++ record { name = name; context = tc.classname; status = skipped; output = none } ∷ [];
}
see name tc status s = record s {
  results =
      s.results
      ++ record { name = name; context = tc.classname; status = status; output = none } ∷ [];
}

-- An element that has no name raises a KeyError.
unfoldable pub cases : List Case → Seen → Option Seen
unfolding see
cases [] s = some s
cases (tc ∷ tcs) s = elim tc.name [
  | none ↦ none
  | some name ↦ cases tcs (see name tc (status_of tc.children) s)
]

unfoldable pub larger : ℕ → ℕ → ℕ
larger a b = if ltb a b then b else a

suite_name : Option Text → Text
suite_name none = text "junit"
suite_name (some []) = text "junit"
suite_name (some (c ∷ name)) = c ∷ name

added : Suite → Seen → Option AddedTest
unfolding larger suite_name
added ts s =
    let test = λ (n : ℕ). some (record {
      name = suite_name ts.name;
      skipped_count = larger n s.skips;
      result = s.result;
      results = s.results;
    }) in
    elim ts.skipped_attr [ absent ↦ test 0 | number n ↦ test n | not_a_number ↦ none ]

-- `for ts in root.iter("testsuite")`: whether something failed, and the tests that are added.
unfoldable pub suites : List Suite → Bool → ℕ → Option (Bool × List AddedTest)
unfolding added
suites [] any_failed skips = some (any_failed, [])
suites (ts ∷ tss) any_failed skips =
    elim (cases ts.cases
      (record { any_failed = any_failed; skips = skips; result = passed; results = [] })) [
        | none ↦ none
        | some s ↦ elim (added ts s) [
          | none ↦ none
          | some test ↦ elim (suites tss s.any_failed s.skips) [
            | none ↦ none
            | some (f, tests) ↦ some (f, test ∷ tests)
          ]
        ]
      ]

-- `_junit_errors`, for a file that was parsed or not; `none` is an exception.
unfoldable pub junit_errors : Option (List Suite) → Option (Bool × List AddedTest)
unfolding suites
junit_errors none = some (true, [])
junit_errors (some tss) = suites tss false 0

-- An element whose first child is an error or a failure.
abbrev pub is_failure : List Text → Bool
is_failure [] = false
is_failure (tag ∷ tags) = text_eq tag (text "error") || text_eq tag (text "failure")

abbrev pub has_failure : List Case → Bool
has_failure = any (λ tc. is_failure tc.children)

see-failed :
    (name : Text) (tc : Case) (tags : List Text) (s : Seen)
    → ((see name tc (status_of tags) s).any_failed ≡ (is_failure tags || s.any_failed))
      × ((see name tc (status_of tags) s).result ≡ (if is_failure tags then failed else s.result))
unfolding see status_of
see-failed name tc [] s = (refl, refl)
see-failed name tc (tag ∷ tags) s =
    elim (Bool-cases (text_eq tag (text "error") || text_eq tag (text "failure"))) [
      | inl e ↦ (rw e refl, rw e refl)
      | inr e ↦ elim (Bool-cases (text_eq tag (text "skipped"))) [
        | inl k ↦ (rw (e, k) refl, rw (e, k) refl)
        | inr k ↦ (rw (e, k) refl, rw (e, k) refl)
      ]
    ]

cases-failed :
    (tcs : List Case) (s s' : Seen)
    → cases tcs s ≡ some s'
    → (s'.any_failed ≡ (has_failure tcs || s.any_failed))
      × (s'.result ≡ (if has_failure tcs then failed else s.result))
unfolding cases
cases-failed [] s s' h = (ground (arith, h), ground (arith, h))
cases-failed (tc ∷ tcs) s s' h = elim (Option-cases tc.name) [
  | inl e ↦ absurd (ground (arith, h, e))
  | inr (name, e) ↦
      let t = see name tc (status_of tc.children) s in
      let (f, r) = cases-failed tcs t s' (ground (arith, h, e)) in
      let (f', r') = see-failed name tc tc.children s in
      (ground (arith, f, f'), ground (arith, r, r'))
]

added-result :
    (ts : Suite) (s : Seen) (test : AddedTest) → added ts s ≡ some test → test.result ≡ s.result
unfolding added
added-result ts s test h = ground (arith, h)

-- The status of each suite.
abbrev pub suite_result : Suite → BuildStatus
suite_result ts = if has_failure ts.cases then failed else passed

abbrev pub test_result : AddedTest → BuildStatus
test_result t = t.result

suites-failed :
    (tss : List Suite) (b : Bool) (n : ℕ) (f : Bool) (tests : List AddedTest)
    → suites tss b n ≡ some (f, tests)
    → (f ≡ (any (λ ts. has_failure ts.cases) tss || b))
      × (map test_result tests ≡ map suite_result tss)
unfolding suites
suites-failed [] b n f tests h = (ground (arith, h), ground (arith, h))
suites-failed (ts ∷ tss) b n f tests h =
    let zero_seen : Seen = record { any_failed = b; skips = n; result = passed; results = [] } in
    elim (Option-cases (cases ts.cases zero_seen)) [
      | inl e ↦ absurd (ground (arith, h, e))
      | inr (s, e) ↦ elim (Option-cases (added ts s)) [
        | inl a ↦ absurd (ground (arith, h, e, a))
        | inr (test, a) ↦ elim (Option-cases (suites tss s.any_failed s.skips)) [
          | inl r ↦ absurd (ground (arith, h, e, a, r))
          | inr ((f', tests'), r) ↦
              let (x, y) = suites-failed tss s.any_failed s.skips f' tests' r in
              let (u, v) = cases-failed ts.cases zero_seen s e in
              let w = added-result ts s test a in
              let same : tests ≡ test ∷ tests' = ground (arith, h, e, a, r) in
              (ground (arith, h, e, a, r, x, u), rw same (ground (arith, y, v, w)))
        ]
      ]
    ]

-- Where no exception is raised: the file counts as failed exactly if in some suite some element begins
-- with an error or a failure, and each suite becomes one test, in order, that has failed exactly
-- if such an element is in that suite, and has passed otherwise.
pub junit_errors-failed :
    (tss : List Suite) (f : Bool) (tests : List AddedTest)
    → junit_errors (some tss) ≡ some (f, tests)
    → (f ≡ any (λ ts. has_failure ts.cases) tss) × (map test_result tests ≡ map suite_result tss)
unfolding junit_errors
junit_errors-failed tss f tests h =
    let (x, y) = suites-failed tss false 0 f tests h in (ground (arith, x), y)

-- An element with no name, such as a list of properties, raises an exception whatever else is there.
pub junit_errors-unnamed :
    (ts : Suite) (tss : List Suite) (tc : Case) (tcs : List Case)
    → ts.cases ≡ tc ∷ tcs
    → tc.name ≡ none
    → junit_errors (some (ts ∷ tss)) ≡ none
unfolding junit_errors suites cases
junit_errors-unnamed ts tss tc tcs e n = rw (e, n) refl
