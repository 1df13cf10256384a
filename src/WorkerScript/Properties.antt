-- ===== src/WorkerScript/Properties.antt =====
-- `HostProps`, the requests of `JobServ` and `_create_conf` of jobserv_worker.py: the configuration of
-- a host, its properties, and when they are sent to the server. The file of the cache and the server
-- are states; what the server answers to a request is an argument, and `none` is an exit of the
-- script.
use jobserv.Prelude.{
  ℕ, ◌≡◌, refl, Bool, true, false, not, ◌&&◌, Option, none, some, List, [], ◌∷◌, ◌++◌, Text, text,
  text_eq, text_eq_refl, arith, Bool-cases, inl, inr, if◌then◌else◌, ◌==◌,
}

-- The section `jobserv` of the configuration.
pub record Config : Type 0 where
  pub server_url : Text
  pub version : Text
  pub hostname : Text
  pub concurrent_runs : ℕ
  pub host_tags : Text
  pub surges_only : ℕ
  pub jwt : Option Text
  pub jwt_exp : Option ℕ
  pub host_api_key : Text

-- `if jwt:`
has_jwt : Option Text → Bool
has_jwt none = false
has_jwt (some []) = false
has_jwt (some (c ∷ t)) = true

-- What `_create_conf` is called with, the hash of the script, and the key that is drawn. `token` is
-- what the jwt holds, and `etc_hostname` the stripped text of /etc/hostname.
pub record Registration : Type 0 where
  pub server_url : Text
  pub hostname : Option Text
  pub concurrent_runs : ℕ
  pub host_tags : Text
  pub surges : Bool
  pub jwt : Option Text
  pub token : Text × Option ℕ
  pub md5 : Text
  pub drawn : Text
  pub etc_hostname : Text

name_or : Text → Option Text → Text
name_or fallback none = fallback
name_or fallback (some []) = fallback
name_or fallback (some (c ∷ t)) = c ∷ t

-- `if exp:`
exp_of : Option ℕ → Option ℕ
exp_of none = none
exp_of (some n) = if n == 0 then none else some n

unfoldable pub create_conf : Registration → Config
unfolding has_jwt name_or exp_of
create_conf r = record {
  server_url = r.server_url;
  version = r.md5;
  hostname = name_or r.etc_hostname (if has_jwt r.jwt then some r.token.0 else r.hostname);
  concurrent_runs = r.concurrent_runs;
  host_tags = r.host_tags;
  surges_only = if r.surges then 1 else 0;
  jwt = if has_jwt r.jwt then r.jwt else none;
  jwt_exp = if has_jwt r.jwt then exp_of r.token.1 else none;
  host_api_key = if has_jwt r.jwt then [] else r.drawn;
}

-- `_auth_headers`
unfoldable pub auth_headers : Config → Text
unfolding has_jwt
auth_headers c = elim c.jwt [
  | none ↦ text "Token " ++ c.host_api_key
  | some jwt ↦ if has_jwt (some jwt) then text "Bearer " ++ jwt else text "Token " ++ c.host_api_key
]

-- What the machine tells.
pub record Machine : Type 0 where
  pub cpu_total : ℕ
  pub cpu_type : Text
  pub mem_total : ℕ
  pub distro : Text

-- `HostProps.data`
pub record Props : Type 0 where
  pub machine : Machine
  pub api_key : Text
  pub name : Text
  pub concurrent_runs : ℕ
  pub host_tags : Text
  pub surges_only : Bool

unfoldable pub host_props : Machine → Config → Props
host_props m c = record {
  machine = m;
  api_key = c.host_api_key;
  name = c.hostname;
  concurrent_runs = c.concurrent_runs;
  host_tags = c.host_tags;
  surges_only = not (c.surges_only == 0);
}

same_machine : Machine → Machine → Bool
same_machine m n =
    m.cpu_total == n.cpu_total
    && text_eq m.cpu_type n.cpu_type
    && m.mem_total == n.mem_total
    && text_eq m.distro n.distro

-- `cached == self.data`
unfoldable pub same_props : Props → Props → Bool
unfolding same_machine
same_props p q =
    same_machine p.machine q.machine
    && text_eq p.api_key q.api_key
    && text_eq p.name q.name
    && p.concurrent_runs == q.concurrent_runs
    && text_eq p.host_tags q.host_tags
    && (if p.surges_only then q.surges_only else not q.surges_only)

-- The requests that change the server's worker.
pub data HostRequest : Type 0 where
  post : Text → Props → HostRequest
  patch : Text → Props → HostRequest
  delete : Text → HostRequest

-- The status that the client takes for success.
expected : HostRequest → ℕ
expected (post n p) = 201
expected (patch n p) = 200
expected (delete n) = 200

-- The cache, and the requests that were sent, the last first.
pub record Client : Type 0 where
  pub cache : Option Props
  pub sent : List HostRequest

-- `_post`, `_patch` and `_delete`: the state after the request, and whether the script goes on.
unfoldable pub send_host : (HostRequest → ℕ) → HostRequest → Client → Client × Bool
unfolding expected
send_host answers r c = (record c { sent = r ∷ c.sent }, answers r == expected r)

-- `create_host`
unfoldable pub create_host : Config → Props → HostRequest
create_host c p = elim c.jwt [ none ↦ post c.hostname p | some jwt ↦ patch c.hostname p ]

cache_if : Props → Client × Bool → Client × Bool
cache_if p (c, go_on) = (if go_on then record c { cache = some p } else c, go_on)

-- `cmd_register`, after the configuration was written.
unfoldable pub cmd_register : (HostRequest → ℕ) → Machine → Config → Client → Client × Bool
unfolding send_host create_host cache_if
cmd_register answers m c client =
    let p = host_props m c in cache_if p (send_host answers (create_host c p) client)

unfoldable pub cmd_unregister : (HostRequest → ℕ) → Config → Client → Client × Bool
unfolding send_host
cmd_unregister answers c client = send_host answers (delete c.hostname) client

is_cached : Option Props → Props → Bool
unfolding same_props
is_cached none p = false
is_cached (some q) p = same_props q p

-- `update_if_needed`
unfoldable pub update_if_needed : (HostRequest → ℕ) → Machine → Config → Client → Client × Bool
unfolding send_host cache_if is_cached
update_if_needed answers m c client =
    let p = host_props m c in
    if is_cached client.cache p
    then (client, true)
    else cache_if p (send_host answers (patch c.hostname p) client)

same_props_refl : (p : Props) → same_props p p ≡ true
unfolding same_props same_machine
same_props_refl p = ground (
  arith,
  text_eq_refl p.machine.cpu_type,
  text_eq_refl p.machine.distro,
  text_eq_refl p.api_key,
  text_eq_refl p.name,
  text_eq_refl p.host_tags,
)

same_props→cached : (p : Props) (o : Option Props) → o ≡ some p → is_cached o p ≡ true
unfolding is_cached
same_props→cached p o e = rw e (same_props_refl p)

-- A call that ends without an exit leaves a cache that the next call finds to be up to date.
update_if_needed-cached :
    (answers : HostRequest → ℕ) (m : Machine) (c : Config) (client : Client)
    → (update_if_needed answers m c client).1 ≡ true
    → is_cached (update_if_needed answers m c client).0.cache (host_props m c) ≡ true
unfolding update_if_needed send_host cache_if
update_if_needed-cached answers m c client h =
    elim (Bool-cases (is_cached client.cache (host_props m c))) [
      | inl e ↦ rw e e
      | inr e ↦
          let ok : (answers (patch c.hostname (host_props m c)) == 200) ≡ true =
            ground (arith, h, e) in
          rw (e, ok) (same_props→cached (host_props m c) (some (host_props m c)) refl)
    ]

update_if_needed-same :
    (later : HostRequest → ℕ) (m : Machine) (c : Config) (client : Client)
    → is_cached client.cache (host_props m c) ≡ true
    → update_if_needed later m c client ≡ (client, true)
unfolding update_if_needed
update_if_needed-same later m c client e = rw e refl

-- After a call that ends without an exit, further calls send nothing and change nothing, as long as
-- the machine and the configuration stay as they are, whatever the server would answer.
pub update_if_needed_again :
    (answers later : HostRequest → ℕ) (m : Machine) (c : Config) (client : Client)
    → (update_if_needed answers m c client).1 ≡ true
    → update_if_needed later m c (update_if_needed answers m c client).0
      ≡ ((update_if_needed answers m c client).0, true)
update_if_needed_again answers later m c client h =
    update_if_needed-same later m c (update_if_needed answers m c client).0
      (update_if_needed-cached answers m c client h)

-- After a registration that ends without an exit, no check sends the properties again, as long as the
-- machine and the configuration stay as they are.
pub update_if_needed-cmd_register :
    (answers later : HostRequest → ℕ) (m : Machine) (c : Config) (client : Client)
    → (cmd_register answers m c client).1 ≡ true
    → update_if_needed later m c (cmd_register answers m c client).0
      ≡ ((cmd_register answers m c client).0, true)
unfolding cmd_register send_host cache_if
update_if_needed-cmd_register answers later m c client h =
    update_if_needed-same later m c (cmd_register answers m c client).0
      (rw h (same_props→cached (host_props m c) (some (host_props m c)) refl))
