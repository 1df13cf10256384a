-- ===== src/Models/Samples.antt =====
-- A build with three runs, and the theorems at it.
use jobserv.Prelude.{ℕ, ◌≡◌, refl, some, Distinct, List, [], ◌∷◌, ◌++◌, take, drop, length, arith}
use jobserv.Models.Keys.{derive_fernet_token, derive_fernet_token-injective}
use jobserv.Status.{failed, is, get_cumulative_status}
use jobserv.Models.{
  find_run, statuses, set_status, build_cancel, run_ids, cancel, cancel_each, update_running,
  modify_run, refresh_status,
}
use jobserv.Models.Lookup.{status_of}
use jobserv.Fixtures.{sample_build}
use jobserv.Models.Consistency.{IsConsistent, set_status-IsConsistent}
use jobserv.Models.Cancel.{status_of-build_cancel, cancelled?}

sample_build-IsConsistent : IsConsistent sample_build
unfolding statuses get_cumulative_status
sample_build-IsConsistent = refl

set_status-IsConsistent_example : IsConsistent (set_status 7 3 failed sample_build)
set_status-IsConsistent_example =
    set_status-IsConsistent 7 3 failed sample_build sample_build-IsConsistent

run_ids-Distinct : Distinct (run_ids sample_build.runs)
unfolding run_ids
run_ids-Distinct = (refl, (refl, (refl, tt)))

-- The run that had passed has failed after the build was cancelled.
status_of-build_cancel_example :
    status_of 1 (build_cancel 7 sample_build).runs ≡ cancelled? (status_of 1 sample_build.runs)
status_of-build_cancel_example = status_of-build_cancel 7 1 sample_build run_ids-Distinct

cancelled_passed : status_of 1 (build_cancel 7 sample_build).runs ≡ some failed
unfolding build_cancel run_ids cancel_each cancel update_running set_status find_run modify_run is
    status_of refresh_status get_cumulative_status
cancelled_passed = refl

-- A key of 32 bytes, and the key of the run 300 of it.
abbrev server_key : List ℕ
server_key = take 32 (
    1 ∷ 2 ∷ 3 ∷ 4 ∷ 5 ∷ 6 ∷ 7 ∷ 8 ∷ 9 ∷ 10 ∷ 11 ∷ 12 ∷ 13 ∷ 14 ∷ 15 ∷ 16 ∷ 17 ∷ 18 ∷ 19 ∷ 20 ∷ 21
    ∷ 22 ∷ 23 ∷ 24 ∷ 25 ∷ 26 ∷ 27 ∷ 28 ∷ 29 ∷ 30 ∷ 31 ∷ 32 ∷ [])

abbrev run_key : List ℕ
run_key = take 12 server_key ++ 44 ∷ 1 ∷ 0 ∷ 0 ∷ [] ++ drop 16 server_key

derived : derive_fernet_token server_key 300 ≡ some run_key
unfolding derive_fernet_token
derived = refl

derive_fernet_token-injective_example : (◌≡◌ {A = ℕ} 300 300) × (length run_key ≡ length server_key)
derive_fernet_token-injective_example =
    derive_fernet_token-injective server_key 300 300 run_key (omega arith) refl derived derived
