-- ===== src/TestApi/Samples.antt =====
-- A run with one test that is still running.
use jobserv.Prelude.{◌≡◌, refl, none, List, [], ◌∷◌, All, text, text_eq}
use jobserv.Status.{running, passed, is, get_cumulative_status, settled}
use jobserv.Status.Cumulative.{IsPassing}
use jobserv.Models.{Test}
use jobserv.TestApi.{set_status, is_test, modify_test, set_test_status}
use jobserv.TestApi.Passing.{set_status-passed}

abbrev lint : Test
lint = record { name = text "lint"; context = none; status = running; results = [] }

abbrev unit : Test
unit = record lint { name = text "unit"; status = passed }

two_tests :
    All (λ u. IsPassing u.status) (record lint { status = passed } ∷ unit ∷ [])
    × (◌≡◌ {A = List Test}
        (record lint { status = passed } ∷ unit ∷ [])
        (modify_test (is_test (text "lint") none) (set_test_status passed) (lint ∷ unit ∷ [])))
unfolding set_status modify_test set_test_status is_test text_eq is get_cumulative_status settled
two_tests = set_status-passed (is_test (text "lint") none) lint passed (lint ∷ unit ∷ []) refl
