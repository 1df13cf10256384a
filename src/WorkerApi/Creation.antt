-- ===== src/WorkerApi/Creation.antt =====
-- `worker_create`: a worker that registers itself. It is enlisted by hand afterwards.
use jobserv.Prelude.{
  ℕ, ◌≡◌, arith, Bool, true, false, not, List, [], ◌∷◌, select, has_text, Text, text,
}
use jobserv.Workers.{Worker, available}

-- The data of the request. The password is hashed by a library, and is left out of the row.
pub record WorkerData : Type 0 where
  pub keys : List Text
  pub distro : Text
  pub mem_total : ℕ
  pub cpu_total : ℕ
  pub cpu_type : Text
  pub concurrent_runs : ℕ
  pub host_tags : Text
  pub surges_only : Bool

abbrev pub required : List Text
required =
    text "api_key"
    ∷ text "distro"
    ∷ text "mem_total"
    ∷ text "cpu_total"
    ∷ text "cpu_type"
    ∷ text "concurrent_runs"
    ∷ text "host_tags"
    ∷ []

pub data Created : Type 0 where
  created : Worker → Created
  -- `ApiError(400, …)` with the names
  missing : List Text → Created

create_row : Text → WorkerData → List Text → Created
create_row name d [] = created (record {
  name = name;
  distro = d.distro;
  mem_total = d.mem_total;
  cpu_total = d.cpu_total;
  cpu_type = d.cpu_type;
  enlisted = false;
  concurrent_runs = d.concurrent_runs;
  host_tags = d.host_tags;
  online = true;
  surges_only = d.surges_only;
  deleted = false;
})
create_row name d (k ∷ ks) = missing (k ∷ ks)

-- `worker_create`
unfoldable pub worker_create : Text → WorkerData → Created
unfolding create_row
worker_create name d = create_row name d (select (λ k. not (has_text k d.keys)) required)

created_unavailable :
    (surges : List Text) (name : Text) (d : WorkerData) (ks : List Text) (w : Worker)
    → create_row name d ks ≡ created w
    → available surges w ≡ false
unfolding create_row available
created_unavailable surges name d [] w h = ground (arith, h)
created_unavailable surges name d (k ∷ ks) w h = absurd (ground (arith, h))

-- A worker that has just registered is given no runs.
pub worker_create-unavailable :
    (surges : List Text) (name : Text) (d : WorkerData) (w : Worker)
    → worker_create name d ≡ created w
    → available surges w ≡ false
unfolding worker_create
worker_create-unavailable surges name d w h = created_unavailable surges name d _ w h
