-- ===== src/Project.antt =====
-- jobserv/project.py: the definition of a project, as it is after validation, and the definition of
-- a run that a worker is sent. Values of parameters are texts. Links and the settings of the
-- container, which are passed through, are left out.
pub mod Env
pub mod Secrets
pub mod Depth
pub mod Validation
pub mod Loops
mod Samples
use jobserv.Prelude.{
  ℕ, zero, suc, Bool, true, false, not, ◌&&◌, ◌||◌, Option, none, some, List, [], ◌∷◌, ◌++◌,
  flat_map, all, Text, text, text_eq, lower, split, lookup, store, if◌then◌else◌,
}

pub data TriggerTypes : Type 0 where
  git_poller github_pr simple gitlab_mr : TriggerTypes

abbrev pub Dict : Type 0
Dict = List (Text × Text)

-- A trigger to be run after a run or after a build.
pub record Follow : Type 0 where
  pub name : Text
  pub run_names : Option Text

pub record ScriptRepo : Type 0 where
  pub token : Option Text

-- Where the script of a run comes from: a name of `scripts`, or one of `script-repos`.
pub data Source : Type 0 where
  script script_repo : Text → Source

pub record RunSpec : Type 0 where
  pub name : Text
  pub host_tag : Text
  pub source : Source
  pub container_auth : Option Text
  pub params : Dict
  pub triggers : List Follow

pub record Trigger : Type 0 where
  pub name : Text
  pub type : TriggerTypes
  pub run_names : Option Text
  pub params : Dict
  pub runs : List RunSpec
  pub triggers : List Follow

pub record ProjectDefinition : Type 0 where
  pub timeout : ℕ
  pub scripts : Dict
  pub script_repos : List (Text × ScriptRepo)
  pub params : Dict
  pub triggers : List Trigger

-- `get_trigger`
unfoldable pub get_trigger : Text → List Trigger → Option Trigger
get_trigger name [] = none
get_trigger name (t ∷ ts) = if text_eq t.name name then some t else get_trigger name ts

pub record RunDefinition : Type 0 where
  pub project : Text
  pub timeout : ℕ
  pub api_key : Text
  pub trigger_type : TriggerTypes
  pub script : Option Text
  pub env : Dict
  pub secrets : Dict
  pub host_tag : Text

pub data DefinitionResult : Type 0 where
  defined : RunDefinition → DefinitionResult
  -- `ApiError(400, …)`
  missing_secret : Text → DefinitionResult
  key_error : Text → DefinitionResult

-- `d.update(m)`
unfoldable pub update : Dict → Dict → Dict
update d [] = d
update d ((k, v) ∷ m) = update (store k v d) m

-- The run's `env`: the later overrides the earlier.
unfoldable pub env_of : Dict → Dict → Dict → Dict → Text → Text → Text → Dict
env_of project trigger run params proj build name = store (text "H_RUN") name (
    store (text "H_BUILD") build (
      store (text "H_PROJECT") proj
        (update (update (update (update [] project) trigger) run) params)))

-- A secret counts as there if it is not empty.
unfoldable pub has_secret : Dict → Text → Bool
has_secret secrets token = elim (lookup token secrets) [
  | none ↦ false
  | some [] ↦ false
  | some (c ∷ v) ↦ true
]

-- `for token in (token or "").split(":")`: the first that has a name and no value.
unfoldable pub first_missing : Dict → List Text → Option Text
unfolding has_secret
first_missing secrets [] = none
first_missing secrets ([] ∷ tokens) = first_missing secrets tokens
first_missing secrets ((c ∷ token) ∷ tokens) =
    if has_secret secrets (c ∷ token) then first_missing secrets tokens else some (c ∷ token)

tokens_of : Option Text → List Text
tokens_of none = [] ∷ []
tokens_of (some token) = split b':' token

-- The script of the run and the secrets that its repository wants.
pub data Found : Type 0 where
  found : Option Text → List Text → Found
  not_found : Text → Found

unfoldable pub find_source : ProjectDefinition → Source → Found
unfolding tokens_of
find_source def (script name) = elim (lookup name def.scripts) [
  | none ↦ not_found name
  | some s ↦ found (some s) []
]
find_source def (script_repo name) = elim (lookup name def.script_repos) [
  | none ↦ not_found name
  | some repo ↦ found none (tokens_of repo.token)
]

-- `if rundef["container-auth"] not in secrets`
unfoldable pub auth_missing : Dict → Option Text → Option Text
auth_missing secrets none = none
auth_missing secrets (some []) = none
auth_missing secrets (some (c ∷ auth)) = elim (lookup (c ∷ auth) secrets) [
  | none ↦ some (c ∷ auth)
  | some v ↦ none
]

-- What the definition reads of the run's row and of its build and project.
pub record Target : Type 0 where
  pub project : Text
  pub build : Text
  pub run : Text
  pub api_key : Text

checked : Found → Dict → Option Text → RunDefinition → DefinitionResult
checked (not_found name) secrets auth def = key_error name
checked (found body tokens) secrets auth def = elim (first_missing secrets tokens) [
  | some token ↦ missing_secret token
  | none ↦ elim (auth_missing secrets auth) [
    | some token ↦ missing_secret token
    | none ↦ defined (record def { script = body })
  ]
]

-- `get_run_definition`
unfoldable pub get_run_definition :
    ProjectDefinition → Target → RunSpec → Trigger → Dict → Dict → DefinitionResult
unfolding checked
get_run_definition def target run trigger params secrets =
    checked (find_source def run.source) secrets run.container_auth (record {
      project = target.project;
      timeout = def.timeout;
      api_key = target.api_key;
      trigger_type = trigger.type;
      script = none;
      env =
          env_of def.params trigger.params run.params params target.project target.build target.run;
      secrets = secrets;
      host_tag = lower run.host_tag;
    })

-- `_check_trigger_depth`, for the child triggers named by a run or a trigger. A name that no trigger
-- has stands for the last trigger: the loop variable keeps its last value.
unfoldable pub last_or_named : Text → Trigger → List Trigger → Trigger
last_or_named name t [] = t
last_or_named name t (u ∷ us) =
    let next = last_or_named name u us in if text_eq t.name name then t else next

unfoldable pub children : List Trigger → Follow → List Follow
children [] f = []
children (t ∷ ts) f =
    let trigger = last_or_named f.name t ts in
    flat_map (λ (run : RunSpec). run.triggers) trigger.runs ++ trigger.triggers

-- `_check_trigger_depth`: whether it ends without its error.
unfoldable pub check_trigger_depth : ℕ → List Trigger → Follow → Bool
unfolding children
check_trigger_depth zero ts f = false
check_trigger_depth (suc depth) ts f = all (check_trigger_depth depth ts) (children ts f)

-- The follow-ups of a trigger: those of its runs, and its own.
unfoldable pub follows : Trigger → List Follow
follows parent = flat_map (λ (run : RunSpec). run.triggers) parent.runs ++ parent.triggers

-- `_test_recursive_triggers`, for the triggers as they are written: `validate_data` expands the loops, and
-- formats the names of follow-ups, after it.
unfoldable pub test_recursive_triggers : List Trigger → Bool
unfolding follows
test_recursive_triggers ts = all (λ parent. all (check_trigger_depth 2 ts) (follows parent)) ts
