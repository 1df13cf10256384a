-- ===== src/ProjectApi/Creating.antt =====
-- `project_create_trigger` and `project_delete` of jobserv/api/project.py.
use jobserv.Prelude.{
  ℕ, Bool, false, not, Option, none, some, List, [], ◌∷◌, ◌++◌, select, Text, text, text_eq, lookup,
  store, ◌==◌, if◌then◌else◌,
}
use jobserv.Models.{Project, Db}
use jobserv.Project.{TriggerTypes}
use jobserv.Storage.{delete}
use jobserv.ProjectApi.{Json, string, truth, Reply, done, refused, raised, find_project}
use jobserv.ProjectApi.Triggers.{ProjectTrigger, SecretArg, type_of, update_secrets}

-- The body of `project_create_trigger`: three members that are popped by themselves, of which the
-- owner is a text, and the others.
pub record TriggerArgs : Type 0 where
  pub type : Option Json
  pub owner : Option Text
  pub members : List (Text × Json)
  pub secrets : Option (List SecretArg)

-- `{x["name"]: x["value"] for x in secrets}`; `none` is a `KeyError`.
unfoldable pub secret_dict : List SecretArg → List (Text × Json) → Option (List (Text × Json))
secret_dict [] dict = some dict
secret_dict (x ∷ xs) dict = elim x.name [
  | none ↦ none
  | some name ↦ elim x.value [ none ↦ none | some value ↦ secret_dict xs (store name value dict) ]
]

-- What `d.pop("secrets")` and the conversion make of the rest `d` of the body.
unfoldable pub popped_secrets : Option (List SecretArg) → List (Text × Json) → List (Text × Json)
unfolding secret_dict
popped_secrets none d = d
popped_secrets (some secrets) d = elim (secret_dict secrets []) [ none ↦ d | some dict ↦ dict ]

-- The repository and the file of the definition, and the rest of the body: the file is popped only
-- where there is a repository.
unfoldable pub popped_definition :
    List (Text × Json) → Option Json × Option Json × List (Text × Json)
popped_definition d = elim (lookup (text "definition_repo") d) [
  | none ↦ (none, none, d)
  | some repo ↦ (
    some repo,
    lookup (text "definition_file") d,
    delete (text "definition_file") (delete (text "definition_repo") d),
  )
]

-- `if u: owner = str(u)`, for the user that the check of permissions returns.
unfoldable pub owner_of : Option Text → Option Text → Text
owner_of (some u) owner = u
owner_of none none = text "unknown-internal"
owner_of none (some owner) = owner

unfoldable pub add_trigger : ProjectTrigger → List ProjectTrigger → Reply (List ProjectTrigger)
unfolding update_secrets
add_trigger t triggers =
    if update_secrets t.secret_data then done 201 (triggers ++ t ∷ []) else refused 400

unfoldable pub typed_trigger : ℕ → Option Text → Text → TriggerTypes → TriggerArgs → ProjectTrigger
unfolding popped_definition popped_secrets owner_of
typed_trigger id user proj type args =
    let (repo, file, rest) = popped_definition args.members in
    record {
      id = id;
      user = owner_of user args.owner;
      type = type;
      project = proj;
      definition_repo = repo;
      definition_file = file;
      queue_priority = none;
      secret_data = popped_secrets args.secrets rest;
    }

-- `TriggerTypes[ttype].value`
unfoldable pub create_known :
    ℕ
    → Option Text
    → Text
    → Option TriggerTypes
    → TriggerArgs
    → List ProjectTrigger
    → Reply (List ProjectTrigger)
unfolding add_trigger typed_trigger
create_known id user proj none args triggers = raised
create_known id user proj (some type) args triggers =
    add_trigger (typed_trigger id user proj type args) triggers

unfoldable pub create_typed :
    ℕ
    → Option Text
    → Text
    → Option Json
    → TriggerArgs
    → List ProjectTrigger
    → Reply (List ProjectTrigger)
unfolding create_known
create_typed id user proj none args triggers = raised
create_typed id user proj (some (string [])) args triggers = refused 401
create_typed id user proj (some (string (c ∷ name))) args triggers =
    create_known id user proj (type_of (c ∷ name)) args triggers
create_typed id user proj (some type) args triggers = if truth type then raised else refused 401

-- `project_create_trigger`, in a session that gives the new row the key `id`.
unfoldable pub project_create_trigger :
    Bool
    → Option Text
    → ℕ
    → Text
    → TriggerArgs
    → List Project
    → List ProjectTrigger
    → Reply (List ProjectTrigger)
unfolding create_typed find_project
project_create_trigger permitted user id proj args projects triggers =
    if permitted
    then elim (find_project proj projects) [
      | none ↦ refused 404
      | some p ↦ create_typed id user proj args.type args triggers
    ]
    else refused 401

-- The rows that `project_delete` changes; the runs of a build go with it.
pub record Tables : Type 0 where
  pub db : Db
  pub triggers : List ProjectTrigger

unfoldable pub without_project : Project → Tables → Tables
without_project p t = record {
  db = record {
    projects = select (λ q. not (text_eq q.name p.name)) t.db.projects;
    builds = select (λ b. not (b.proj_id == p.id)) t.db.builds;
  };
  triggers = select (λ u. not (text_eq u.project p.name)) t.triggers;
}

unfoldable pub confirmed : Project → Bool → Tables → Reply Tables
unfolding without_project
confirmed p agreed t = if agreed then done 200 (without_project p t) else refused 401

-- `project_delete`; `answer` is what the body has as `I_REALLY_MEAN_TO_DO_THIS`.
unfoldable pub project_delete : Bool → Text → Option Text → Tables → Reply Tables
unfolding confirmed find_project
project_delete permitted name answer t =
    if permitted
    then elim (find_project name t.db.projects) [
      | none ↦ refused 404
      | some p ↦ confirmed p (elim answer [ none ↦ false | some a ↦ text_eq a (text "YES") ]) t
    ]
    else refused 401
