-- ===== src/WorkerApi/Samples.antt =====
-- Requests of a worker with a token.
use jobserv.Prelude.{
  ◌≡◌, arith, refl, false, true, false, none, some, [], ◌∷◌, All, text, text_eq, has_text, split,
}
use jobserv.WorkerApi.{
  Caller, Attrs, WorkerJwt, worker_authenticated, worker_update, rejects, or_kept,
}
use jobserv.WorkerApi.Identity.{Speaks, worker_authenticated-Speaks}
use jobserv.WorkerApi.Tags.{worker_update-allowed}
use jobserv.WorkerApi.Polling.{worker_get, find_build}
use jobserv.Models.{find_run}
use jobserv.Workers.{available}
use jobserv.Fixtures.{sample_worker, sample_db, sample_build, sample_run, chosen, sample_work}
use jobserv.Status.{queued}
use jobserv.WorkerApi.Polling.Returned.{worker_get-IsReturned, IsReturned}

abbrev jwt : WorkerJwt
jwt = record { name = text "lab1"; allowed_tags = text "arm64" ∷ [] }

worker_authenticated-Speaks_example : Speaks (text "lab1") (
    worker_authenticated
      (sample_worker ∷ [])
      (text "lab1")
      (λ w key. false)
      (λ t. some jwt)
      (some (text "Bearer x")))
worker_authenticated-Speaks_example =
    worker_authenticated-Speaks (sample_worker ∷ []) (text "lab1") (λ w key. false) (λ t. some jwt)
      (some (text "Bearer x"))

abbrev lab : Caller
lab = record { worker = sample_worker; allowed_tags = text "arm64" ∷ [] }

abbrev retag : Attrs
retag = record {
  distro = none;
  mem_total = none;
  cpu_total = none;
  cpu_type = none;
  concurrent_runs = none;
  host_tags = some (text "arm64");
}

allowed_update :
    (text "arm64" ≡ text "arm64")
    × (sample_worker.name ≡ sample_worker.name)
    × (sample_worker.enlisted ≡ sample_worker.enlisted)
    × All (λ tag. has_text tag (text "arm64" ∷ []) ≡ true) (split b',' (text "arm64"))
unfolding worker_update rejects or_kept split text_eq
allowed_update =
    worker_update-allowed lab retag (text "arm64")
      (record sample_worker { host_tags = text "arm64" }) (λ e. cc e) refl refl

worker_get-IsReturned_example :
    IsReturned chosen
      (worker_get 5 [] 100 sample_worker 1 200 (λ n. false) (λ row. false) sample_db)
    × ((worker_get 5 [] 100 sample_worker 1 200 (λ n. false) (λ row. false) sample_db).raised
        ≡ true)
unfolding find_build find_run available
worker_get-IsReturned_example =
    worker_get-IsReturned 5 [] 100 sample_worker 1 200 (λ n. false) (λ row. false) sample_db chosen
      sample_build (sample_run 3 queued) (omega arith) refl (omega arith) sample_work refl refl
      (λ e. cc e) refl
