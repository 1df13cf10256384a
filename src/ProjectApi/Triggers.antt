-- ===== src/ProjectApi/Triggers.antt =====
-- The triggers of a project: `ProjectTrigger` of jobserv/models.py, and the handlers that list, add
-- and change them. The encryption of the secrets' column is left out: a row holds what
-- `secret_data` decrypts. The name of a secret in a request is a text.
use jobserv.Prelude.{
  ℕ, Bool, true, false, ◌&&◌, ◌||◌, Option, none, some, List, [], ◌∷◌, map, all, select, Text, text,
  text_eq, store, leb, ◌==◌, if◌then◌else◌,
}
use jobserv.Models.{Project}
use jobserv.Project.{TriggerTypes, git_poller, github_pr, simple, gitlab_mr}
use jobserv.Storage.{delete}
use jobserv.ProjectApi.{
  Json, null, string, list, other, truth, Reply, done, refused, raised, find_project,
}

pub record ProjectTrigger : Type 0 where
  pub id : ℕ
  pub user : Text
  pub type : TriggerTypes
  pub project : Text
  pub definition_repo : Option Json
  pub definition_file : Option Json
  pub queue_priority : Option ℕ
  pub secret_data : List (Text × Json)

-- `VALID_SECRET_PATTERN`
unfoldable pub secret_char : ℕ → Bool
secret_char c =
    (leb b'a' c && leb c b'z')
    || (leb b'A' c && leb c b'Z')
    || (leb b'0' c && leb c b'9')
    || c == b'_'
    || c == b'-'
    || c == b'.'

-- The characters after the first; `$` also fits before a line break at the end.
unfoldable pub secret_chars : Text → Bool
unfolding secret_char
secret_chars [] = true
secret_chars (c ∷ []) = secret_char c || c == 10
secret_chars (c ∷ d ∷ t) = secret_char c && secret_chars (d ∷ t)

unfoldable pub valid_secret_name : Text → Bool
unfolding secret_chars
valid_secret_name [] = false
valid_secret_name (c ∷ t) = secret_char c && secret_chars t

unfoldable pub is_string : Json → Bool
is_string (string t) = true
is_string null = false
is_string (list l) = false
is_string (other b) = false

-- `update_secrets`; `false` is a `ValueError`.
unfoldable pub update_secrets : List (Text × Json) → Bool
unfolding is_string
update_secrets secrets = all (λ (k, v). valid_secret_name k && is_string v) secrets

-- What `as_json` shows of a trigger, as far as the listing changes it.
pub record TriggerJson : Type 0 where
  pub trigger : ProjectTrigger
  pub queue_priority : ℕ
  pub secrets : List (Text × Json)

unfoldable pub as_json : ProjectTrigger → TriggerJson
as_json t = record {
  trigger = record t { secret_data = [] };
  queue_priority = elim t.queue_priority [ none ↦ 0 | some p ↦ p ];
  secrets = t.secret_data;
}

unfoldable pub same_type : TriggerTypes → TriggerTypes → Bool
same_type git_poller git_poller = true
same_type github_pr github_pr = true
same_type simple simple = true
same_type gitlab_mr gitlab_mr = true
same_type a b = false

-- `TriggerTypes[name]`; `none` is a `KeyError`.
unfoldable pub type_of : Text → Option TriggerTypes
type_of name =
    if text_eq name (text "git_poller")
    then some git_poller
    else if text_eq name (text "github_pr")
    then some github_pr
    else if text_eq name (text "simple")
    then some simple
    else if text_eq name (text "gitlab_mr")
    then some gitlab_mr
    else none

unfoldable pub triggers_of : Text → List ProjectTrigger → List ProjectTrigger
triggers_of name = select (λ t. text_eq t.project name)

-- `data["secrets"] = [{"name": x} for x in …]`
unfoldable pub redact : ProjectTrigger → TriggerJson × List Text
unfolding as_json
redact t =
    let shown = as_json t in
    (record shown { secrets = [] }, map (λ (name, value). name) shown.secrets)

unfoldable pub listing : List ProjectTrigger → Reply (List (TriggerJson × List Text))
unfolding redact
listing triggers = done 200 (map redact triggers)

unfoldable pub listing_of_type :
    List ProjectTrigger → Option TriggerTypes → Reply (List (TriggerJson × List Text))
unfolding listing same_type
listing_of_type triggers none = raised
listing_of_type triggers (some type) = listing (select (λ t. same_type t.type type) triggers)

unfoldable pub list_typed :
    List ProjectTrigger → Option Text → Reply (List (TriggerJson × List Text))
unfolding listing_of_type type_of
list_typed triggers none = listing triggers
list_typed triggers (some []) = listing triggers
list_typed triggers (some (c ∷ type)) = listing_of_type triggers (type_of (c ∷ type))

-- `project_trigger_list`
unfoldable pub project_trigger_list :
    Bool
    → Text
    → Option Text
    → List Project
    → List ProjectTrigger
    → Reply (List (TriggerJson × List Text))
unfolding list_typed find_project triggers_of
project_trigger_list permitted name type projects triggers =
    if permitted
    then elim (find_project name projects) [
      | none ↦ refused 404
      | some p ↦ list_typed (triggers_of name triggers) type
    ]
    else refused 401

-- One of the `secrets` of a request: what it has as its name and its value.
pub record SecretArg : Type 0 where
  pub name : Option Text
  pub value : Option Json

-- The loop of `project_patch_trigger`; `none` is a `KeyError`.
unfoldable pub apply_secret : List (Text × Json) → Text → Json → List (Text × Json)
apply_secret secrets name null = delete name secrets
apply_secret secrets name (string t) = store name (string t) secrets
apply_secret secrets name (list l) = store name (list l) secrets
apply_secret secrets name (other b) = store name (other b) secrets

unfoldable pub apply_arg :
    List (Text × Json) → Option Text → Option Json → Option (List (Text × Json))
unfolding apply_secret
apply_arg secrets none value = none
apply_arg secrets (some name) none = none
apply_arg secrets (some name) (some value) = some (apply_secret secrets name value)

unfoldable pub apply_secrets : List SecretArg → List (Text × Json) → Option (List (Text × Json))
unfolding apply_arg
apply_secrets [] secrets = some secrets
apply_secrets (x ∷ xs) secrets = elim (apply_arg secrets x.name x.value) [
  | none ↦ none
  | some changed ↦ apply_secrets xs changed
]

-- The body of `project_patch_trigger`.
pub record PatchArgs : Type 0 where
  pub definition_file : Option Json
  pub definition_repo : Option Json
  pub secrets : List SecretArg

-- `if val`
given : Option Json → Option Json → Option Json
given none old = old
given (some val) old = if truth val then some val else old

unfoldable pub find_trigger : ℕ → List ProjectTrigger → Option ProjectTrigger
find_trigger id [] = none
find_trigger id (t ∷ ts) = let rest = find_trigger id ts in if t.id == id then some t else rest

unfoldable pub put_trigger : ProjectTrigger → List ProjectTrigger → List ProjectTrigger
put_trigger t [] = []
put_trigger t (u ∷ us) = let rest = put_trigger t us in if u.id == t.id then t ∷ rest else u ∷ rest

-- The row with what the body gives.
unfoldable pub patched : PatchArgs → List (Text × Json) → ProjectTrigger → ProjectTrigger
unfolding given
patched args secrets t = record t {
  definition_file = given args.definition_file t.definition_file;
  definition_repo = given args.definition_repo t.definition_repo;
  secret_data = secrets;
}

-- What is committed: after a refusal the session is dropped.
unfoldable pub save_patched :
    PatchArgs
    → ProjectTrigger
    → Option (List (Text × Json))
    → List ProjectTrigger
    → Reply (List ProjectTrigger)
unfolding patched put_trigger update_secrets
save_patched args t none triggers = raised
save_patched args t (some secrets) triggers =
    if update_secrets secrets
    then done 200 (put_trigger (patched args secrets t) triggers)
    else refused 400

-- `if val:`, for the secrets of the body.
unfoldable pub save_args :
    PatchArgs → List SecretArg → ProjectTrigger → List ProjectTrigger → Reply (List ProjectTrigger)
unfolding save_patched apply_secrets
save_args args [] t triggers = done 200 (put_trigger (patched args t.secret_data t) triggers)
save_args args (x ∷ xs) t triggers =
    save_patched args t (apply_secrets (x ∷ xs) t.secret_data) triggers

-- `project_patch_trigger`
unfoldable pub project_patch_trigger :
    Bool → Text → ℕ → PatchArgs → List ProjectTrigger → Reply (List ProjectTrigger)
unfolding save_args find_trigger
project_patch_trigger permitted proj tid args triggers =
    if permitted
    then elim (find_trigger tid triggers) [
      | none ↦ refused 404
      | some t ↦
          if text_eq t.project proj then save_args args args.secrets t triggers else refused 404
    ]
    else refused 401
