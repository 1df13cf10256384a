-- ===== src/BuildApi.antt =====
-- jobserv/api/build.py with jobserv/trigger.py and jobserv/models.py: how builds come to be, and how
-- they are promoted and annotated.
pub mod Numbers
pub mod Secrets
pub mod Triggering
pub mod External
pub mod Latest
mod Samples
use mathlib.Core.List.{reverse}
use jobserv.Prelude.{
  ℕ, ◌+◌, ◌-◌, Bool, true, false, not, Option, none, some, List, [], ◌∷◌, Text, text, text_eq,
  starts_with, length, take, lookup, select, ◌==◌, if◌then◌else◌,
}
use jobserv.Status.{BuildStatus, promoted, complete}
use jobserv.Models.{Build}
use jobserv.Project.{Dict, update}

-- What `build_create` reads of a `ProjectTrigger`; `type` is the name of its type.
pub record ProjectTrigger : Type 0 where
  pub id : ℕ
  pub type : Text
  pub secret_data : Dict

unfoldable pub ends_with : Text → Text → Bool
ends_with t suffix = starts_with (reverse suffix) (reverse t)

-- `if optional: trigger_type = trigger_type[:-9]`
unfoldable pub wanted_type : Text → Text × Bool
unfolding ends_with
wanted_type type =
    if ends_with type (text "-optional") then (take (length type - 9) type, true) else (type, false)

-- The secrets of the first trigger of a type.
unfoldable pub of_type : Text → List ProjectTrigger → Option Dict
of_type type [] = none
of_type type (t ∷ ts) = if text_eq t.type type then some t.secret_data else of_type type ts

unfoldable pub of_id : ℕ → List ProjectTrigger → Option Dict
of_id id [] = none
of_id id (t ∷ ts) = if t.id == id then some t.secret_data else of_id id ts

-- `if trigger_type`: `none` is an `ApiError(400, …)`. An empty text is no type.
typed : Text × Bool → List ProjectTrigger → Option Dict
unfolding of_type
typed (type, optional) triggers = elim (of_type type triggers) [
  | some secrets ↦ some secrets
  | none ↦ if optional then some [] else none
]

unfoldable pub type_secrets : Option Text → List ProjectTrigger → Option Dict
unfolding typed wanted_type
type_secrets none triggers = some []
type_secrets (some []) triggers = some []
type_secrets (some (c ∷ type)) triggers = typed (wanted_type (c ∷ type)) triggers

-- `if trigger_id`
unfoldable pub id_secrets : Option ℕ → List ProjectTrigger → Option Dict
unfolding of_id
id_secrets none triggers = some []
id_secrets (some id) triggers = if id == 0 then some [] else of_id id triggers

-- `if "triggered-by" in secrets: del secrets["triggered-by"]`
unfoldable pub remove : Text → Dict → Dict
remove key m = select (λ e. not (text_eq e.0 key)) m

-- What a caller asks for.
pub record BuildRequest : Type 0 where
  pub trigger_type : Option Text
  pub trigger_id : Option ℕ
  pub secrets : Dict

set_user : Option Text → Dict → Dict
set_user none secrets = secrets
set_user (some user) secrets = (text "triggered-by", user) ∷ secrets

-- The secrets that `build_create` gives to `trigger_build`; `none` is an `ApiError(400, …)`.
unfoldable pub build_secrets : Option Text → List ProjectTrigger → BuildRequest → Option Dict
unfolding type_secrets id_secrets remove set_user
build_secrets user triggers r = elim (type_secrets r.trigger_type triggers) [
  | none ↦ none
  | some of_type ↦ elim (id_secrets r.trigger_id triggers) [
    | none ↦ none
    | some of_id ↦ some (
        set_user user
          (remove (text "triggered-by") (update (update (update [] of_type) of_id) r.secrets)))
  ]
]

-- `build_patch`; `none` is an `ApiError(400, …)`.
unfoldable pub build_patch : Option Text → Build → Option Build
build_patch none b = none
build_patch (some []) b = none
build_patch (some (c ∷ annotation)) b = some (record b { annotation = some (c ∷ annotation) })

-- The data of a promotion.
pub record Promotion : Type 0 where
  pub name : Option Text
  pub annotation : Option Text

-- `build_promote`; `none` is an `ApiError(400, …)`.
unfoldable pub build_promote : Option Promotion → Build → Option Build
build_promote none b = none
build_promote (some d) b =
    if complete b.status
    then some (record b { status = promoted; name = d.name; annotation = d.annotation })
    else none
