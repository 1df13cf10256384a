-- ===== src/BuildApi/Triggering.antt =====
-- jobserv/trigger.py: `trigger_build`, and `_fail_unexpected`. Whether the storage takes the files of the
-- build is an argument; no `refine_build` is configured.
use jobserv.Prelude.{
  ℕ, zero, suc, ◌+◌, inl, inr, ◌≡◌, refl, Bool, true, false, Option, none, some, List, [], ◌∷◌, all,
  Text, text, arith, Option-cases, Bool-cases, ==_refl, if◌then◌else◌,
}
use jobserv.Status.{failed, is, get_cumulative_status, settled}
use jobserv.Models.{
  Build, set_status, set_status_of, change_status, refresh_status, modify_run, find_run, with_runs,
  assign_status, add_event, statuses,
}
use jobserv.Project.{Trigger, get_trigger}
use jobserv.Triggers.{Call, Outcome, new_run, add_run, run_names, trigger_runs, build_of}
use jobserv.Triggers.Names.{IsNamed, trigger_runs-IsNamed}
use jobserv.BuildApi.Numbers.{is_taken, NewBuild, new_build, try_build_ids, create}

-- `_fail_unexpected`
unfoldable pub fail_unexpected : ℕ → ℕ × Text → Build → Build
fail_unexpected now (id, api_key) b =
    set_status now id failed (add_run (new_run (id, api_key) (text "build-failure") none 0) b)

pub data Triggered : Type 0 where
  -- `KeyError`: the project has no such trigger
  no_trigger : Triggered
  -- `IntegrityError`: no number was free
  no_number : Triggered
  -- `ApiError(500, …)`, with the build
  storage_failed : Build → Triggered
  ended : Outcome → Triggered

-- What `trigger_build` does with a build: `call` has what `trigger_runs` is called with.
with_build : (Trigger → Call) → Bool → ℕ × Text → Trigger → Option (Build × List Build) → Triggered
unfolding fail_unexpected
with_build call stores key t none = no_number
with_build call stores key t (some (b, table)) =
    if stores
    then ended (trigger_runs (record (call t) { seen = run_names b }) b)
    else storage_failed (fail_unexpected (call t).now key b)

with_trigger :
    (Trigger → Call)
    → Bool
    → ℕ × Text
    → NewBuild
    → List Build
    → (ℕ → List Build)
    → Option Trigger
    → Triggered
unfolding with_build
with_trigger call stores key n seen others none = no_trigger
with_trigger call stores key n seen others (some t) =
    with_build call stores key t (create n seen others)

-- `trigger_build`, for a definition that is valid.
unfoldable pub trigger_build :
    List Trigger
    → (Trigger → Call)
    → Bool
    → ℕ × Text
    → NewBuild
    → List Build
    → (ℕ → List Build)
    → Triggered
unfolding with_trigger
trigger_build triggers call stores key n seen others =
    with_trigger call stores key n seen others (get_trigger n.trigger_name triggers)

-- A build that is done with, and failed.
abbrev pub HasFailed : Build → Type 0
HasFailed b =
    (b.status ≡ failed)
    × (all (λ r. is r.status failed) b.runs ≡ true)
    × (run_names b ≡ text "build-failure" ∷ [])

-- What is left of each way that a build may go.
abbrev pub LeftBy : Bool → Triggered → Type 0
LeftBy stores no_trigger = Unit
LeftBy stores no_number = Unit
LeftBy stores (storage_failed b) = (stores ≡ false) × HasFailed b
LeftBy stores (ended o) = (stores ≡ true) × IsNamed (build_of o)

fail_unexpected-HasFailed :
    (now : ℕ) (key : ℕ × Text) (n : NewBuild) (number : ℕ)
    → HasFailed (fail_unexpected now key (new_build n number))
unfolding fail_unexpected new_build add_run new_run set_status set_status_of change_status
    refresh_status modify_run find_run with_runs assign_status add_event statuses is run_names
    get_cumulative_status settled
fail_unexpected-HasFailed now (id, key) n number =
    (ground (arith, ==_refl id), ground (arith, ==_refl id), ground (arith, ==_refl id))

try_build_ids-new :
    (n : NewBuild) (others : ℕ → List Build) (left i first : ℕ) (b : Build) (table : List Build)
    → try_build_ids n others left i first ≡ some (b, table)
    → (number : ℕ) × (b ≡ new_build n number)
unfolding try_build_ids
try_build_ids-new n others zero i first b table h = absurd (ground (arith, h))
try_build_ids-new n others (suc left) i first b table h =
    elim (Bool-cases (is_taken n.proj_id first (others i))) [
      | inl e ↦ try_build_ids-new n others left (i + 1) (first + 1) b table (ground (arith, h, e))
      | inr e ↦ (first, ground (arith, h, e))
    ]

create-new :
    (n : NewBuild) (seen : List Build) (others : ℕ → List Build) (b : Build) (table : List Build)
    → create n seen others ≡ some (b, table)
    → (number : ℕ) × (b ≡ new_build n number)
unfolding create
create-new n seen others b table h = try_build_ids-new n others 10 0 _ b table h

with_build-LeftBy :
    (call : Trigger → Call) (stores : Bool) (key : ℕ × Text) (t : Trigger) (n : NewBuild)
    (number : ℕ) (table : List Build)
    → LeftBy stores (with_build call stores key t (some (new_build n number, table)))
unfolding with_build run_names
with_build-LeftBy call true key t n number table = (
  refl,
  trigger_runs-IsNamed (record (call t) { seen = run_names (new_build n number) })
      (new_build n number) (unfold new_build in tt),
)
with_build-LeftBy call false key t n number table =
    (refl, fail_unexpected-HasFailed (call t).now key n number)

-- What a triggered build is left with: where the storage does not take its files, it has failed with one
-- run, which failed too; where the storage takes them, no two of the runs that the build is left with
-- have one name, however the addition of the trigger's runs ended. A build whose runs were refused may
-- still be queued.
pub trigger_build-LeftBy :
    (triggers : List Trigger) (call : Trigger → Call) (stores : Bool) (key : ℕ × Text)
    (n : NewBuild) (seen : List Build) (others : ℕ → List Build)
    → LeftBy stores (trigger_build triggers call stores key n seen others)
unfolding trigger_build with_trigger
trigger_build-LeftBy triggers call stores key n seen others =
    elim (Option-cases (get_trigger n.trigger_name triggers)) [
      | inl e ↦ rw e tt
      | inr (t, e) ↦ elim (Option-cases (create n seen others)) [
        | inl f ↦ rw (e, with_trigger, f, with_build) tt
        | inr ((b, table), f) ↦
            let (number, same) = create-new n seen others b table f in
            rw (e, with_trigger, f, same) (with_build-LeftBy call stores key t n number table)
      ]
    ]
