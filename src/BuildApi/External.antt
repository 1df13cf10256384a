-- ===== src/BuildApi/External.antt =====
-- `external_build_create`: a build that was made elsewhere. `keys` are the keys of the new rows.
use jobserv.Prelude.{
  ℕ, ◌+◌, ◌≡◌, refl, inl, inr, true, false, Option, none, some, List, [], ◌∷◌, all, map, Text,
  arith, ap, Option-cases,
}
use jobserv.Status.{passed, failed, is, settled, has, get_cumulative_status}
use jobserv.Models.{Run, Build, with_runs, statuses}
use jobserv.Models.Consistency.{IsConsistent}
use jobserv.Triggers.{new_run, run_names}
use jobserv.BuildApi.Numbers.{NewBuild, create}

-- `Run(b, run["name"])` with `r.status = BuildStatus.PASSED`
unfoldable pub passed_run : ℕ × Text → Text → Run
passed_run key name = record (new_run key name none 0) { status = passed }

pub external_runs : (ℕ → ℕ × Text) → ℕ → List Text → List Run
unfolding passed_run
external_runs keys i [] = []
external_runs keys i (name ∷ names) = passed_run (keys i) name ∷ external_runs keys (i + 1) names

-- The statements after `Build.create`, for runs that carry no links.
unfoldable pub external_build : (ℕ → ℕ × Text) → Option Text → List Text → Build → Build
unfolding external_runs with_runs
external_build keys trigger_name names b =
    with_runs
      (record b { status = passed; trigger_name = elim trigger_name [ none ↦ [] | some n ↦ n ] })
      (external_runs keys 0 names)

-- `external_build_create`; `none` is the `IntegrityError` of `Build.create`.
unfoldable pub external_build_create :
    NewBuild
    → (ℕ → ℕ × Text)
    → Option Text
    → List Text
    → List Build
    → (ℕ → List Build)
    → Option Build
external_build_create n keys trigger_name names seen others =
    elim (create (record n { init_event_status = passed }) seen others) [
      | none ↦ none
      | some created ↦ some (external_build keys trigger_name names created.0)
    ]

external_runs-passed :
    (keys : ℕ → ℕ × Text) (i : ℕ) (names : List Text)
    → (all settled (statuses (external_runs keys i names)) ≡ true)
      × (has failed (statuses (external_runs keys i names)) ≡ false)
unfolding external_runs statuses settled is passed_run
external_runs-passed keys i [] = (refl, refl)
external_runs-passed keys i (name ∷ names) = external_runs-passed keys (i + 1) names

external_build-IsConsistent :
    (keys : ℕ → ℕ × Text) (trigger_name : Option Text) (names : List Text) (b : Build)
    → IsConsistent (external_build keys trigger_name names b)
unfolding external_build get_cumulative_status with_runs
external_build-IsConsistent keys trigger_name names b =
    let (s, f) = external_runs-passed keys 0 names in rw (s, f) refl

pub names-external_runs :
    (keys : ℕ → ℕ × Text) (i : ℕ) (names : List Text)
    → map (λ r. r.name) (external_runs keys i names) ≡ names
unfolding external_runs passed_run new_run
names-external_runs keys i [] = refl
names-external_runs keys i (name ∷ names) =
    ap (λ l. name ∷ l) (names-external_runs keys (i + 1) names)

-- A build of another service has the runs that were named, in their order, and its status is the sum of
-- theirs, as for a build of the server's own.
pub external_build_create-IsConsistent :
    (n : NewBuild) (keys : ℕ → ℕ × Text) (trigger_name : Option Text) (names : List Text)
    (seen : List Build) (others : ℕ → List Build) (b : Build)
    → external_build_create n keys trigger_name names seen others ≡ some b
    → IsConsistent b × (run_names b ≡ names)
unfolding external_build_create external_build with_runs run_names
external_build_create-IsConsistent n keys trigger_name names seen others b h =
    elim (Option-cases (create (record n { init_event_status = passed }) seen others)) [
      | inl e ↦ absurd (ground (arith, h, e))
      | inr (c, e) ↦
          let same : b ≡ external_build keys trigger_name names c.0 = ground (arith, h, e) in
          rw same (
            external_build-IsConsistent keys trigger_name names c.0,
            names-external_runs keys 0 names,
          )
    ]
