-- ===== src/Status/Samples.antt =====
-- Tests and instances for the sums of states.
use jobserv.Prelude.{◌≡◌, ◌↔◌, refl, [], ◌∷◌, List, All, arith}
use jobserv.Status.{
  BuildStatus, queued, running, passed, failed, skipped, has, is, get_cumulative_status,
}
use jobserv.Status.Cumulative.{IsPassing, cumulative-passed}

abbrev mixed : List BuildStatus
mixed = failed ∷ queued ∷ passed ∷ []

-- One run has failed, and the build is shown as running.
one_still_waits : get_cumulative_status mixed ≡ running
unfolding get_cumulative_status
one_still_waits = refl

two_items :
    (get_cumulative_status (passed ∷ skipped ∷ []) ≡ passed) ↔ All IsPassing (passed ∷ skipped ∷ [])
two_items = cumulative-passed (passed ∷ skipped ∷ [])

same_states : (s : BuildStatus) → has s mixed ≡ has s (passed ∷ failed ∷ passed ∷ queued ∷ [])
unfolding is
same_states s = ground arith
