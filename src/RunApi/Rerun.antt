-- ===== src/RunApi/Rerun.antt =====
-- `run_rerun`, and what `_get_run_def` shows of the definition of a run.
use jobserv.Prelude.{ℕ, refl, Bool, Option, none, some, [], map, Text, text, if◌then◌else◌}
use jobserv.Status.{queued}
use jobserv.Models.{Run, Build, modify_run, with_runs, set_status}
use jobserv.Models.Lookup.{statuses-modify_run}
use jobserv.Models.Consistency.{IsConsistent, set_status-IsConsistent}
use jobserv.Project.{Dict}
use jobserv.RunApi.{Access, granted}

unfoldable pub drop_tests : Run → Run
drop_tests r = record r { tests = [] }

-- `run_rerun`, for a caller that may do it.
unfoldable pub run_rerun : ℕ → ℕ → Build → Build
unfolding with_runs drop_tests
run_rerun now id b = set_status now id queued (with_runs b (modify_run id drop_tests b.runs))

-- `{k: "TODO" for k, v in secrets.items()}`
unfoldable pub masked : Dict → Dict
masked = map (λ e. (e.0, text "TODO"))

-- The secrets and the API key of the definition that `_get_run_def` returns; `access` is the answer of
-- `_authenticate_runner`, and `allowed` that of `run_can_access_secrets`.
unfoldable pub get_run_def : Access → Bool → Dict → Text → Dict × Option Text
unfolding masked
get_run_def granted allowed secrets api_key = (secrets, some api_key)
get_run_def other allowed secrets api_key = (if allowed then secrets else masked secrets, none)

-- A build of which a run is done again still has the sum of its runs as its status.
pub run_rerun-IsConsistent :
    (now id : ℕ) (b : Build) → IsConsistent b → IsConsistent (run_rerun now id b)
unfolding run_rerun with_runs
run_rerun-IsConsistent now id b h =
    set_status-IsConsistent now id queued (with_runs b (modify_run id drop_tests b.runs))
      (rw (statuses-modify_run id drop_tests (λ r. refl) (λ r. refl) b.runs) h)
