-- ===== src/Status/Cumulative.antt =====
-- What `get_cumulative_status` says of the items that it sums up.
use jobserv.Prelude.{
  ◌≡◌, refl, ◌↔◌, ◌⊎◌, Bool, true, false, ◌&&◌, ◌||◌, List, [], ◌∷◌, not, all, All, arith,
}
use jobserv.Status.{
  BuildStatus, queued, running, passed, failed, running_with_failures, uploading, promoted, skipped,
  cancelling, is, is→eq, has, settled, complete, get_cumulative_status,
}

abbrev pub IsPassing : BuildStatus → Type 0
IsPassing s = (s ≡ passed) ⊎ (s ≡ skipped)

abbrev pub IsSettled : BuildStatus → Type 0
IsSettled s = (s ≡ passed) ⊎ (s ≡ failed) ⊎ (s ≡ skipped)

settled-IsSettled_iff : (s : BuildStatus) → (settled s ≡ true) ↔ IsSettled s
unfolding settled
settled-IsSettled_iff s = ground arith

all-settled : (l : List BuildStatus) → (all settled l ≡ true) ↔ All IsSettled l
all-settled [] = ground arith
all-settled (s ∷ l) = ground (arith, settled-IsSettled_iff s, all-settled l)

-- An item that is not settled shows in the list of all.
settled_no :
    (s : BuildStatus) (l : List BuildStatus)
    → settled s ≡ false
    → all settled l ≡ true
    → has s l ≡ false
settled_no s [] n h = refl
settled_no s (t ∷ l) n h = ground (arith, settled_no s l n, is→eq s t)

All-IsPassing_iff :
    (l : List BuildStatus) → ((all settled l ≡ true) × (has failed l ≡ false)) ↔ All IsPassing l
unfolding settled is
All-IsPassing_iff [] = ground arith
All-IsPassing_iff (s ∷ l) = ground (arith, All-IsPassing_iff l)

open_state : List BuildStatus → Bool
open_state l =
    has queued l
    || has running l
    || has running_with_failures l
    || has uploading l
    || has promoted l
    || has cancelling l

all-settled-open : (l : List BuildStatus) → all settled l ≡ not (open_state l)
unfolding open_state settled is
all-settled-open [] = refl
all-settled-open (queued ∷ l) = refl
all-settled-open (running ∷ l) = ground (arith, all-settled-open l)
all-settled-open (s ∷ l) = ground (arith, all-settled-open l)

-- Passed, exactly when every item has passed or was skipped (so also when there is none).
pub cumulative-passed :
    (l : List BuildStatus) → (get_cumulative_status l ≡ passed) ↔ All IsPassing l
unfolding get_cumulative_status
cumulative-passed l = ground (arith, All-IsPassing_iff l)

-- Failed, exactly when every item has settled and one of them failed.
pub cumulative-failed :
    (l : List BuildStatus)
    → (get_cumulative_status l ≡ failed) ↔ (All IsSettled l × (has failed l ≡ true))
unfolding get_cumulative_status
cumulative-failed l = ground (arith, all-settled l)

-- The sum is a final state exactly when every item has settled: no build ends while a run is open.
pub cumulative-complete :
    (l : List BuildStatus) → (complete (get_cumulative_status l) ≡ true) ↔ All IsSettled l
unfolding get_cumulative_status complete
cumulative-complete l = ground (arith, all-settled l)

-- Running with failures, exactly when a run is being cancelled, or one has failed and another is
-- running, uploading or queued; but not when one is queued and another has passed.
pub cumulative-running_with_failures :
    (l : List BuildStatus)
    → (get_cumulative_status l ≡ running_with_failures) ↔ (
        (has queued l && has passed l ≡ false)
        × (has cancelling l || has failed l && (has running l || has uploading l || has queued l)
            ≡ true))
unfolding get_cumulative_status open_state
cumulative-running_with_failures l = ground (arith, all-settled-open l)

-- The sum depends only on which states occur, not on their order or number.
pub cumulative-same_states :
    (l m : List BuildStatus)
    → ((s : BuildStatus) → has s l ≡ has s m)
    → get_cumulative_status l ≡ get_cumulative_status m
unfolding get_cumulative_status open_state
cumulative-same_states l m h = rw (
  all-settled-open l,
  all-settled-open m,
  h queued,
  h running,
  h passed,
  h failed,
  h running_with_failures,
  h uploading,
  h promoted,
  h cancelling,
)

-- With a queued item and a passed one the sum is `running`, also when another item has failed.
pub cumulative-hides_failure :
    (l : List BuildStatus)
    → has queued l ≡ true
    → has passed l ≡ true
    → get_cumulative_status l ≡ running
unfolding get_cumulative_status
cumulative-hides_failure l q p = ground (arith, settled_no queued l)

-- A list of one state, over and over, that is not empty.
abbrev pub Same : BuildStatus → List BuildStatus → Type 0
Same s [] = ⊥
Same s (t ∷ []) = t ≡ s
Same s (t ∷ u ∷ l) = (t ≡ s) × Same s (u ∷ l)

has-Same : (s x : BuildStatus) (l : List BuildStatus) → Same s l → has x l ≡ is x s
has-Same s x [] h = absurd h
has-Same s x (t ∷ []) h = ground (arith, h)
has-Same s x (t ∷ u ∷ l) h = ground (arith, h.0, has-Same s x (u ∷ l) h.1)

-- While all items are running, so is the sum.
pub cumulative-Same_running :
    (l : List BuildStatus) → Same running l → get_cumulative_status l ≡ running
unfolding get_cumulative_status open_state is
cumulative-Same_running l h = simp (
  all-settled-open l,
  has-Same running running l h,
  has-Same running queued l h,
  has-Same running failed l h,
  has-Same running cancelling l h,
)

-- While all items are queued, so is the sum.
pub cumulative-Same_queued :
    (l : List BuildStatus) → Same queued l → get_cumulative_status l ≡ queued
unfolding get_cumulative_status open_state is
cumulative-Same_queued l h = simp (
  all-settled-open l,
  has-Same queued running l h,
  has-Same queued queued l h,
  has-Same queued failed l h,
  has-Same queued cancelling l h,
  has-Same queued uploading l h,
  has-Same queued passed l h,
)
