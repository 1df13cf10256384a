-- ===== src/Status.antt =====
-- jobserv/models.py: the states of runs, builds and tests, and how a status is summed up.
pub mod Cumulative
mod Samples
use jobserv.Prelude.{
  ℕ, ◌≡◌, refl, Bool, true, ◌&&◌, ◌||◌, List, any, if◌then◌else◌, all, ◌==◌, arith,
}

pub data BuildStatus : Type 0 where
  queued running passed failed running_with_failures uploading promoted skipped cancelling :
      BuildStatus

-- The number that the column `_status` holds.
unfoldable pub value : BuildStatus → ℕ
value queued = 1
value running = 2
value passed = 3
value failed = 4
value running_with_failures = 5
value uploading = 6
value promoted = 7
value skipped = 8
value cancelling = 9

-- `StatusComparator.__eq__`: states are compared by their numbers.
unfoldable pub is : BuildStatus → BuildStatus → Bool
unfolding value
is s t = value s == value t

-- `StatusMixin.complete`.
unfoldable pub complete : BuildStatus → Bool
unfolding is
complete s = is s passed || is s failed || is s promoted || is s skipped

-- `status in states`.
abbrev pub has : BuildStatus → List BuildStatus → Bool
has s states = any (is s) states

-- The local `complete` of `get_cumulative_status`.
unfoldable pub settled : BuildStatus → Bool
unfolding is
settled s = is s passed || is s failed || is s skipped

-- Each `if` of the source overrides what the ones above it chose.
unfoldable pub get_cumulative_status : List BuildStatus → BuildStatus
unfolding settled
get_cumulative_status states =
    let busy =
      if has running states || has uploading states || has cancelling states
      then (if has failed states || has cancelling states then running_with_failures else running)
      else queued in
    let waiting = if has queued states && has failed states then running_with_failures else busy in
    let started = if has queued states && has passed states then running else waiting in
    if all settled states then (if has failed states then failed else passed) else started

pub value-injective : (s t : BuildStatus) → value s ≡ value t → s ≡ t
unfolding value
value-injective s t h = ground arith

pub is_refl : (s : BuildStatus) → is s s ≡ true
unfolding is
is_refl s = ground arith

pub is→eq : (s t : BuildStatus) → is s t ≡ true → s ≡ t
unfolding is
is→eq s t h = ground arith
