-- ===== src/ProjectApi.antt =====
-- jobserv/api/project.py: projects and the history of a run. Triggers are in the child modules. The
-- checks of permissions, which a deployment replaces, are an argument of each handler.
pub mod Triggers
pub mod Creating
pub mod Listing
pub mod SecretNames
pub mod Patching
mod Samples
use jobserv.Prelude.{
  ℕ, zero, suc, Bool, true, false, not, Option, none, some, List, [], ◌∷◌, ◌++◌, any, map, select,
  Text, text, text_eq, ltb, ◌==◌, if◌then◌else◌,
}
use mathlib.Core.List.{reverse}
use jobserv.Status.{running, is}
use jobserv.Models.{Project, Build, Run, RunEvent, Db}

-- A value of a request's body that is not an object: `other` has its truth.
pub data Json : Type 0 where
  null : Json
  string : Text → Json
  list : List Text → Json
  other : Bool → Json

unfoldable pub truth : Json → Bool
truth null = false
truth (string []) = false
truth (string (c ∷ t)) = true
truth (list []) = false
truth (list (t ∷ ts)) = true
truth (other b) = b

-- How a handler ends. `raised` is an exception that is not an `ApiError`.
pub data Reply (A : Type 0) : Type 0 where
  done : ℕ → A → Reply A
  refused : ℕ → Reply A
  raised : Reply A

-- `Query.filter_by(name=…)`
unfoldable pub find_project : Text → List Project → Option Project
find_project name [] = none
find_project name (p ∷ ps) =
    let rest = find_project name ps in if text_eq p.name name then some p else rest

-- `Project(proj, sync, allowed_host_tags)`, in a session that gives it the key `id`; a name is
-- unique in the table.
unfoldable pub add_project : ℕ → Text → Bool → List Text → Db → Reply Db
unfolding find_project
add_project id name sync tags db = elim (find_project name db.projects) [
  | none ↦ done 201 (record db {
    projects =
        db.projects
        ++ record { id = id; name = name; synchronous_builds = sync; allowed_host_tags = tags }
          ∷ [];
  })
  | some p ↦ raised
]

-- `if allowed_host_tags and not isinstance(allowed_host_tags, list)`
unfoldable pub host_tags : Option Json → Option (List Text)
unfolding truth
host_tags none = some []
host_tags (some (list tags)) = some tags
host_tags (some null) = some []
host_tags (some (string t)) = if truth (string t) then none else some []
host_tags (some (other b)) = if b then none else some []

create_named : Bool → ℕ → Text → Bool → Option (List Text) → Db → Reply Db
unfolding add_project
create_named permitted id name sync none db = refused 400
create_named permitted id name sync (some tags) db =
    if permitted then add_project id name sync tags db else refused 401

-- `project_create`, with the values of the body.
unfoldable pub project_create : Bool → ℕ → Option Text → Bool → Option Json → Db → Reply Db
unfolding create_named host_tags
project_create permitted id none sync tags db = refused 401
project_create permitted id (some []) sync tags db = refused 401
project_create permitted id (some (c ∷ name)) sync tags db =
    create_named permitted id (c ∷ name) sync (host_tags tags) db

unfoldable pub with_tags : Text → List Text → List Project → List Project
with_tags name tags [] = []
with_tags name tags (p ∷ ps) =
    let rest = with_tags name tags ps in
    if text_eq p.name name then record p { allowed_host_tags = tags } ∷ rest else p ∷ rest

-- Where the tags of the body count as false, another attribute is assigned, which nothing reads.
update_tags : Text → Json → Db → Reply Db
unfolding with_tags truth
update_tags name (list []) db = done 200 db
update_tags name (list (t ∷ tags)) db =
    done 200 (record db { projects = with_tags name (t ∷ tags) db.projects })
update_tags name null db = done 200 db
update_tags name (string t) db = if truth (string t) then refused 400 else done 200 db
update_tags name (other b) db = if b then refused 400 else done 200 db

update_found : Text → Option Json → Db → Option Project → Reply Db
unfolding update_tags
update_found name tags db none = refused 404
update_found name none db (some p) = refused 400
update_found name (some tags) db (some p) = update_tags name tags db

-- `project_update`
unfoldable pub project_update : Bool → Text → Option Json → Db → Reply Db
unfolding update_found
project_update permitted name tags db =
    if permitted then update_found name tags db (find_project name db.projects) else refused 401

-- One run in the history of a name: with the number of its build, and the times whose difference is
-- its duration.
pub record Rendered : Type 0 where
  pub run : Run
  pub build : ℕ
  pub duration : Option (ℕ × ℕ)

-- The loop over the events, from the last; `last` is the time of the very last.
last_running : ℕ → List RunEvent → Option (ℕ × ℕ)
last_running last [] = none
last_running last (x ∷ xs) =
    let rest = last_running last xs in if is x.status running then some (x.time, last) else rest

from_last : List RunEvent → Option (ℕ × ℕ)
unfolding last_running
from_last [] = none
from_last (x ∷ xs) = last_running x.time (x ∷ xs)

unfoldable pub duration : List RunEvent → Option (ℕ × ℕ)
unfolding from_last
duration events = from_last (reverse events)

-- `render`
unfoldable pub render : Build × Run → Rendered
unfolding duration
render (b, r) = record { run = r; build = b.build_id; duration = duration r.status_events }

-- `order_by(-Build.id)`: the rows of a greater key first.
unfoldable pub insert_newest : Build × Run → List (Build × Run) → List (Build × Run)
insert_newest x [] = x ∷ []
insert_newest x (y ∷ ys) =
    let rest = insert_newest x ys in if ltb x.0.id y.0.id then y ∷ rest else x ∷ y ∷ ys

insert_each : Build → List Run → List (Build × Run) → List (Build × Run)
unfolding insert_newest
insert_each b [] rows = rows
insert_each b (r ∷ rs) rows = insert_newest (b, r) (insert_each b rs rows)

-- The rows of the query of `project_run_history`.
unfoldable pub history_rows : ℕ → Text → List Build → List (Build × Run)
unfolding insert_each
history_rows proj_id name [] = []
history_rows proj_id name (b ∷ bs) =
    let rest = history_rows proj_id name bs in
    let named = select (λ r. text_eq r.name name) b.runs in
    if b.proj_id == proj_id then insert_each b named rest else rest

history_of : Text → List Build → Option Project → List Rendered
unfolding render history_rows
history_of run builds none = []
history_of run builds (some p) = map render (history_rows p.id run builds)

-- `project_run_history`, before the rows are divided into pages.
unfoldable pub project_run_history : Text → Text → Db → List Rendered
unfolding history_of find_project
project_run_history name run db = history_of run db.builds (find_project name db.projects)
