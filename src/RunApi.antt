-- ===== src/RunApi.antt =====
-- jobserv/api/run.py: what a runner reports of its run. The regular expressions that find tests in
-- the console log are functions on lines; the stored definitions of the project and of the run are
-- arguments. Mail and web hooks are left out.
pub mod Grepping
pub mod Followups
pub mod Auth
pub mod Update
pub mod Names
pub mod Reports
pub mod Waiting
pub mod Rerun
mod Samples
use jobserv.Prelude.{
  ℕ, Bool, true, false, not, ◌&&◌, ◌||◌, Option, none, some, List, [], ◌∷◌, any, all, Text, text,
  text_eq, split, if◌then◌else◌,
}
use jobserv.Status.{complete}
use jobserv.Models.{Run, Test, TestResult}

-- What the handlers read of a request.
pub record Request : Type 0 where
  pub apikey : Option Text
  pub authorization : Option Text
  pub body : Text
  pub metadata : Option Text
  pub status : Option Text

pub data Access : Type 0 where
  granted : Access
  no_header invalid_header incorrect_key completed : Access

-- `if key and key == run.api_key`
unfoldable pub query_key : Option Text → Text → Bool
query_key none api_key = false
query_key (some []) api_key = false
query_key (some (c ∷ key)) api_key = text_eq (c ∷ key) api_key

-- The tests on the two parts of the header.
unfoldable pub check_parts : Run → List Text → Access
check_parts r [] = invalid_header
check_parts r (scheme ∷ []) = invalid_header
check_parts r (scheme ∷ key ∷ []) =
    if text_eq scheme (text "Token")
    then (if text_eq key r.api_key
        then (if complete r.status then completed else granted)
        else incorrect_key)
    else invalid_header
check_parts r (scheme ∷ key ∷ more ∷ parts) = invalid_header

unfoldable pub check_header : Run → Option Text → Access
unfolding check_parts
check_header r none = no_header
check_header r (some []) = no_header
check_header r (some (c ∷ key)) = check_parts r (split b' ' (c ∷ key))

-- `_authenticate_runner`
unfoldable pub authenticate_runner : Request → Run → Access
unfolding query_key check_header
authenticate_runner req r =
    if query_key req.apikey r.api_key then granted else check_header r req.authorization

-- `Test.complete` and `_running_tests`
unfoldable pub test_complete : Test → Bool
test_complete t = all (λ result. complete result.status) t.results && complete t.status

unfoldable pub running_tests : Run → Bool
unfolding test_complete
running_tests r = any (λ t. not (test_complete t)) r.tests
