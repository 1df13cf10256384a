-- ===== src/ProjectApi/Samples.antt =====
-- A project with two triggers.
use jobserv.Prelude.{
  ℕ, ◌≡◌, refl, Bool, true, false, none, some, List, [], ◌∷◌, map, Text, text, text_eq, lookup,
  store, ◌==◌,
}
use jobserv.Models.{Project, Db}
use jobserv.Project.{github_pr}
use jobserv.Storage.{delete}
use jobserv.ProjectApi.{
  Json, null, string, list, done, refused, find_project, project_create, project_update,
}
use jobserv.ProjectApi.Triggers.{
  ProjectTrigger, PatchArgs, find_trigger, project_patch_trigger, project_trigger_list,
  valid_secret_name, update_secrets,
}
use jobserv.ProjectApi.Listing.{revalue, project_trigger_list-revalue}
use jobserv.ProjectApi.SecretNames.{update_secrets-IsSecret}
use jobserv.ProjectApi.Patching.{
  wanted, project_patch_trigger-wanted, project_patch_trigger-HasValidSecrets, HasValidSecrets,
}

abbrev lmp : Project
lmp = record {
  id = 1;
  name = text "lmp";
  synchronous_builds = false;
  allowed_host_tags = text "arm" ∷ [];
}

abbrev trigger : ℕ → List (Text × Json) → ProjectTrigger
trigger id secrets = record {
  id = id;
  user = text "ann";
  type = github_pr;
  project = text "lmp";
  definition_repo = none;
  definition_file = none;
  queue_priority = none;
  secret_data = secrets;
}

abbrev old_secrets : List (Text × Json)
old_secrets = (text "token", string (text "a")) ∷ (text "user", string (text "ann")) ∷ []

abbrev new_secrets : List (Text × Json)
new_secrets = (text "user", string (text "ann")) ∷ (text "key", string (text "k")) ∷ []

abbrev triggers : List ProjectTrigger
triggers = trigger 3 [] ∷ trigger 4 old_secrets ∷ []

abbrev changed : List ProjectTrigger
changed = trigger 3 [] ∷ trigger 4 new_secrets ∷ []

abbrev args : PatchArgs
args = record {
  definition_file = none;
  definition_repo = none;
  secrets =
      record { name = some (text "token"); value = some null }
      ∷ record { name = some (text "key"); value = some (string (text "k")) }
      ∷ [];
}

patch_runs : project_patch_trigger true (text "lmp") 4 args triggers ≡ done 200 changed
unfolding project_patch_trigger text_eq lookup delete store valid_secret_name update_secrets
patch_runs = refl

project_patch_trigger-wanted_example :
    (t t' : ProjectTrigger) × (◌≡◌ {A = Bool} true true)
    × (find_trigger 4 triggers ≡ some t)
    × (text_eq t.project (text "lmp") ≡ true)
    × (find_trigger 4 changed ≡ some t')
    × ((j : Text) → lookup j t'.secret_data ≡ wanted args.secrets j (lookup j t.secret_data))
    × ((id : ℕ) → (id == 4) ≡ false → find_trigger id changed ≡ find_trigger id triggers)
project_patch_trigger-wanted_example =
    project_patch_trigger-wanted true (text "lmp") 4 200 args triggers changed patch_runs

-- Every secret masked.
abbrev mask : Json → Json
mask value = string (text "***")

project_trigger_list-revalue_example :
    project_trigger_list true (text "lmp") none (lmp ∷ []) (map (revalue mask) triggers)
    ≡ project_trigger_list true (text "lmp") none (lmp ∷ []) triggers
project_trigger_list-revalue_example =
    project_trigger_list-revalue true (text "lmp") none (lmp ∷ []) mask triggers

abbrev db : Db
db = record { projects = lmp ∷ []; builds = [] }

-- An update with no tags leaves the tags.
update_ignored : project_update true (text "lmp") (some (list [])) db ≡ done 200 db
unfolding project_update text_eq find_project
update_ignored = refl

bad_tags :
    project_create true 2 (some (text "x")) false (some (string (text "arm"))) db ≡ refused 400
unfolding project_create
bad_tags = refl

line_break : valid_secret_name (b't' ∷ 10 ∷ []) ≡ true
unfolding valid_secret_name
line_break = refl

project_patch_trigger-HasValidSecrets_example : HasValidSecrets changed
unfolding update_secrets valid_secret_name
project_patch_trigger-HasValidSecrets_example =
    project_patch_trigger-HasValidSecrets true (text "lmp") 4 200 args triggers changed
      (tt, (update_secrets-IsSecret old_secrets refl, tt)) patch_runs
