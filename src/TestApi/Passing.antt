-- ===== src/TestApi/Passing.antt =====
-- When a run passes by its tests.
use jobserv.Prelude.{◌≡◌, inl, inr, refl, Bool, some, List, [], ◌∷◌, map, All, arith, Bool-cases}
use jobserv.Status.{BuildStatus, passed, is}
use jobserv.Status.Cumulative.{IsPassing, cumulative-passed}
use jobserv.Models.{Test}
use jobserv.TestApi.{set_status, modify_test, set_test_status}

All-map-unmap :
    (tests : List Test)
    → All IsPassing (map (λ t. t.status) tests)
    → All (λ t. IsPassing t.status) tests
All-map-unmap [] h = tt
All-map-unmap (t ∷ ts) h = (h.0, All-map-unmap ts h.1)

-- The report of a test's status passes the run only if each test of the run then has passed or was
-- skipped, with those that reported no status since.
pub set_status-passed :
    (p : Test → Bool) (t : Test) (status : BuildStatus) (tests : List Test)
    → (set_status p t status tests).1 ≡ some passed
    → All (λ u. IsPassing u.status) (set_status p t status tests).0
      × ((set_status p t status tests).0 ≡ modify_test p (set_test_status status) tests)
unfolding set_status
set_status-passed p t status tests h = elim (Bool-cases (is t.status status)) [
  | inl e ↦ absurd (ground (arith, h, e))
  | inr e ↦
      let tests' = modify_test p (set_test_status status) tests in
      rw e (
        All-map-unmap tests'
            ((cumulative-passed (map (λ u. u.status) tests')).0 (ground (arith, h, e))),
        refl,
      )
]
