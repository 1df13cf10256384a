-- ===== src/WorkerApi.antt =====
-- jobserv/api/worker.py and jobserv/worker_jwt.py: who may speak for a worker, and what a worker may
-- change. The libraries for tokens and passwords are arguments. A worker that is made from a token
-- gets the row that the source gives it.
pub mod Identity
pub mod Tags
pub mod Polling
pub mod Creation
mod Samples
use jobserv.Prelude.{
  ℕ, Bool, true, false, not, ◌&&◌, ◌||◌, Option, none, some, List, [], ◌∷◌, ◌++◌, any, all, select,
  Text, text, text_eq, has_text, split, lookup, starts_with, if◌then◌else◌,
}
use jobserv.Workers.{Worker}

-- `WorkerJWT`
pub record WorkerJwt : Type 0 where
  pub name : Text
  pub allowed_tags : List Text

-- The claims of a token whose signature holds.
pub record Claims : Type 0 where
  pub exp : Option ℕ
  pub name : Option Text

-- What `worker_from_jwt` uses of the library and of the certificates that were loaded.
pub record Tokens {ℓ} (Cert : Type ℓ) : Type ℓ where
  pub kid : Text → Option Text
  pub decode : Cert → Text → Option Claims
  pub units : Cert → List Text
  pub keys : List (Text × Cert)

claims_worker : Option Claims → List Text → Option WorkerJwt
claims_worker none allowed = none
claims_worker (some c) allowed = elim c.exp [
  | none ↦ none
  | some e ↦ elim c.name [
    | none ↦ none
    | some name ↦ some (record { name = name; allowed_tags = allowed })
  ]
]

key_worker {ℓ} : {Cert : Type ℓ} → Tokens Cert → Text → Option Text → Option WorkerJwt
unfolding claims_worker
key_worker t encoded none = none
key_worker t encoded (some []) = none
key_worker t encoded (some (c ∷ kid)) = elim (lookup (c ∷ kid) t.keys) [
  | none ↦ none
  | some cert ↦ claims_worker (t.decode cert encoded) (t.units cert)
]

-- `worker_from_jwt`; `none` is an error of the library.
unfoldable pub worker_from_jwt {ℓ} : {Cert : Type ℓ} → Tokens Cert → Text → Option WorkerJwt
unfolding key_worker
worker_from_jwt t encoded = key_worker t encoded (t.kid encoded)

-- `request.worker`, with its `allowed_tags`.
pub record Caller : Type 0 where
  pub worker : Worker
  pub allowed_tags : List Text

pub data Authenticated : Type 0 where
  caller : Caller → Authenticated
  unauthorized not_found : Authenticated

find_worker : Text → List Worker → Option Worker
find_worker name [] = none
find_worker name (w ∷ ws) = if text_eq w.name name then some w else find_worker name ws

-- `",".join(host_tags)`
unfoldable pub join : List Text → Text
join [] = []
join (t ∷ []) = t
join (t ∷ u ∷ ts) = t ++ b',' ∷ join (u ∷ ts)

-- `Worker(w.name, "?", 1, 1, "?", "", 1, w.allowed_tags)`, enlisted
new_worker : WorkerJwt → Worker
unfolding join
new_worker w = record {
  name = w.name;
  distro = text "?";
  mem_total = 1;
  cpu_total = 1;
  cpu_type = text "?";
  enlisted = true;
  concurrent_runs = 1;
  host_tags = join w.allowed_tags;
  online = true;
  surges_only = false;
  deleted = false;
}

known_worker : WorkerJwt → Option Worker → Authenticated
unfolding new_worker
known_worker w none = caller (record { worker = new_worker w; allowed_tags = w.allowed_tags })
known_worker w (some row) =
    if row.deleted
    then not_found
    else caller (record { worker = row; allowed_tags = w.allowed_tags })

bearer : List Worker → Text → Option WorkerJwt → Authenticated
unfolding known_worker find_worker
bearer workers name none = unauthorized
bearer workers name (some w) =
    if text_eq w.name name then known_worker w (find_worker w.name workers) else not_found

token : (Worker → Bool) → Option Worker → Authenticated
token valid none = not_found
token valid (some w) =
    if w.deleted
    then not_found
    else if valid w
    then caller (record { worker = w; allowed_tags = [] })
    else unauthorized

check_parts :
    List Worker
    → Text
    → (Worker → Text → Bool)
    → (Text → Option WorkerJwt)
    → List Text
    → Authenticated
unfolding bearer token
check_parts workers name valid from_jwt [] = unauthorized
check_parts workers name valid from_jwt (scheme ∷ []) = unauthorized
check_parts workers name valid from_jwt (scheme ∷ key ∷ []) =
    if text_eq scheme (text "Bearer")
    then bearer workers name (from_jwt key)
    else if text_eq scheme (text "Token")
    then token (λ w. valid w key) (find_worker name workers)
    else unauthorized
check_parts workers name valid from_jwt (scheme ∷ key ∷ more ∷ parts) = unauthorized

-- `worker_authenticated`: `valid` is `validate_api_key`, and `from_jwt` is `worker_from_jwt`.
unfoldable pub worker_authenticated :
    List Worker
    → Text
    → (Worker → Text → Bool)
    → (Text → Option WorkerJwt)
    → Option Text
    → Authenticated
unfolding check_parts
worker_authenticated workers name valid from_jwt none = unauthorized
worker_authenticated workers name valid from_jwt (some []) = unauthorized
worker_authenticated workers name valid from_jwt (some (c ∷ header)) =
    check_parts workers name valid from_jwt (split b' ' (c ∷ header))

-- The attributes of an update; one that is missing or null stays.
pub record Attrs : Type 0 where
  pub distro : Option Text
  pub mem_total : Option ℕ
  pub cpu_total : Option ℕ
  pub cpu_type : Option Text
  pub concurrent_runs : Option ℕ
  pub host_tags : Option Text

unfoldable pub or_kept {ℓ} : {A : Type ℓ} → Option A → A → A
or_kept none kept = kept
or_kept (some new) kept = new

-- `set(val.split(",")) - set(request.worker.allowed_tags)`
unfoldable pub rejects : List Text → Text → List Text
rejects allowed val = select (λ tag. not (has_text tag allowed)) (split b',' val)

-- The truth of a collection.
nonempty : List Text → Bool
nonempty [] = false
nonempty (t ∷ ts) = true

refused : List Text → Option Text → Bool
unfolding rejects nonempty
refused allowed none = false
refused [] (some val) = false
refused (t ∷ allowed) (some val) = nonempty (rejects (t ∷ allowed) val)

-- `worker_update`; `none` is `ApiError(403, …)`, after which nothing is committed.
unfoldable pub worker_update : Caller → Attrs → Option Worker
unfolding or_kept refused
worker_update c data' =
    if refused c.allowed_tags data'.host_tags
    then none
    else some (record c.worker {
      distro = or_kept data'.distro c.worker.distro;
      mem_total = or_kept data'.mem_total c.worker.mem_total;
      cpu_total = or_kept data'.cpu_total c.worker.cpu_total;
      cpu_type = or_kept data'.cpu_type c.worker.cpu_type;
      concurrent_runs = or_kept data'.concurrent_runs c.worker.concurrent_runs;
      host_tags = or_kept data'.host_tags c.worker.host_tags;
    })

-- `worker_deleted_volumes`, for a worker that is enlisted and sends directories.
unfoldable pub deleted_volumes : List Text → List Text → List Text
deleted_volumes projects directories =
    select (λ d. not (any (λ p. starts_with d p) projects)) directories
