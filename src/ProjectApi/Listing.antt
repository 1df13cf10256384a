-- ===== src/ProjectApi/Listing.antt =====
-- What the listing of a project's triggers shows, and what the history of a run does.
use jobserv.Prelude.{
  ℕ, ◌≤◌, ◌≡◌, refl, ap, ◌∙◌, inl, inr, Bool, true, false, Option, none, some, List, [], ◌∷◌, map,
  All, All-imp, select, Text, text_eq, ltb, ◌==◌, arith, Bool-cases, Option-cases,
}
use jobserv.Models.{Build, Run, Project}
use jobserv.Project.{TriggerTypes}
use jobserv.ProjectApi.{Json, find_project, insert_newest, insert_each, history_rows}
use jobserv.ProjectApi.Triggers.{
  ProjectTrigger, triggers_of, type_of, same_type, as_json, redact, listing, listing_of_type,
  list_typed, project_trigger_list,
}

-- A trigger with other values for its secrets.
abbrev pub revalue : (Json → Json) → ProjectTrigger → ProjectTrigger
revalue f t = record t { secret_data = map (λ (k, v). (k, f v)) t.secret_data }

map_names :
    (f : Json → Json) (secrets : List (Text × Json))
    → map {B = Text} (λ (name, value). name) (map (λ (k, v). (k, f v)) secrets)
      ≡ map (λ (name, value). name) secrets
map_names f [] = refl
map_names f ((k, v) ∷ secrets) = ap (◌∷◌ k) (map_names f secrets)

redact-revalue : (f : Json → Json) (t : ProjectTrigger) → redact (revalue f t) ≡ redact t
unfolding redact as_json
redact-revalue f t = rw (map_names f t.secret_data) refl

map-redact :
    (f : Json → Json) (ts : List ProjectTrigger) → map redact (map (revalue f) ts) ≡ map redact ts
map-redact f [] = refl
map-redact f (t ∷ ts) = rw (redact-revalue f t, map-redact f ts) refl

select-revalue :
    (p : ProjectTrigger → Bool) (f : Json → Json) (ts : List ProjectTrigger)
    → ((t : ProjectTrigger) → p (revalue f t) ≡ p t)
    → select p (map (revalue f) ts) ≡ map (revalue f) (select p ts)
select-revalue p f [] h = refl
select-revalue p f (t ∷ ts) h = elim (Bool-cases (p t)) [
  | inl e ↦ rw (h t, e, select-revalue p f ts h) refl
  | inr e ↦ rw (h t, e, select-revalue p f ts h) refl
]

listing-revalue :
    (f : Json → Json) (ts : List ProjectTrigger) → listing (map (revalue f) ts) ≡ listing ts
unfolding listing
listing-revalue f ts = rw (map-redact f ts) refl

listing_of_type-revalue :
    (f : Json → Json) (ts : List ProjectTrigger) (type : Option TriggerTypes)
    → listing_of_type (map (revalue f) ts) type ≡ listing_of_type ts type
unfolding listing_of_type
listing_of_type-revalue f ts none = refl
listing_of_type-revalue f ts (some type) =
    ap listing (select-revalue (λ t. same_type t.type type) f ts (λ t. refl))
    ∙ listing-revalue f (select (λ t. same_type t.type type) ts)

list_typed-revalue :
    (f : Json → Json) (ts : List ProjectTrigger) (type : Option Text)
    → list_typed (map (revalue f) ts) type ≡ list_typed ts type
unfolding list_typed
list_typed-revalue f ts none = listing-revalue f ts
list_typed-revalue f ts (some []) = listing-revalue f ts
list_typed-revalue f ts (some (c ∷ type)) = listing_of_type-revalue f ts (type_of (c ∷ type))

-- The reply of the listing of triggers, whoever asks and whatever type is asked for, is the same
-- whatever the values of the secrets are.
pub project_trigger_list-revalue :
    (permitted : Bool) (name : Text) (type : Option Text) (projects : List Project)
    (f : Json → Json) (triggers : List ProjectTrigger)
    → project_trigger_list permitted name type projects (map (revalue f) triggers)
      ≡ project_trigger_list permitted name type projects triggers
unfolding project_trigger_list triggers_of
project_trigger_list-revalue false name type projects f triggers = refl
project_trigger_list-revalue true name type projects f triggers =
    elim (Option-cases (find_project name projects)) [
      | inl e ↦ rw e refl
      | inr (p, e) ↦ rw e (
          ap (λ ts. list_typed ts type)
            (select-revalue (λ t. text_eq t.project name) f triggers (λ t. refl))
          ∙ list_typed-revalue f (select (λ t. text_eq t.project name) triggers) type)
    ]

-- Rows by falling keys of their builds.
abbrev pub IsFalling : List (Build × Run) → Type 0
IsFalling [] = Unit
IsFalling ((b, r) ∷ rows) = All (λ (c, s). c.id ≤ b.id) rows × IsFalling rows

module _ (P : Build × Run → Type 0) where
  insert_newest-All :
      (x : Build × Run) (rows : List (Build × Run))
      → P x
      → All P rows
      → All P (insert_newest x rows)
  unfolding insert_newest
  insert_newest-All x [] h hs = (h, tt)
  insert_newest-All x (y ∷ ys) h hs = elim (Bool-cases (ltb x.0.id y.0.id)) [
    | inl e ↦ rw e (hs.0, insert_newest-All x ys h hs.1)
    | inr e ↦ rw e (h, hs)
  ]

  insert_each-All :
      (b : Build) (rs : List Run) (rows : List (Build × Run))
      → All (λ r. P (b, r)) rs
      → All P rows
      → All P (insert_each b rs rows)
  unfolding insert_each
  insert_each-All b [] rows h hs = hs
  insert_each-All b (r ∷ rs) rows h hs =
      insert_newest-All (b, r) (insert_each b rs rows) h.0 (insert_each-All b rs rows h.1 hs)

insert_newest-IsFalling :
    (x : Build × Run) (rows : List (Build × Run))
    → IsFalling rows
    → IsFalling (insert_newest x rows)
unfolding insert_newest
insert_newest-IsFalling x [] h = (tt, tt)
insert_newest-IsFalling (b, r) ((c, s) ∷ ys) h = elim (Bool-cases (ltb b.id c.id)) [
  | inl e ↦ rw e (
    insert_newest-All (λ y. y.0.id ≤ c.id) (b, r) ys (ground (arith, e)) h.0,
    insert_newest-IsFalling (b, r) ys h.1,
  )
  | inr e ↦ rw e (
    (
      ground (arith, e),
      All-imp (λ y. y.0.id ≤ c.id) (λ y. y.0.id ≤ b.id) ys (λ y p. ground (arith, e, p)) h.0,
    ),
    h,
  )
]

insert_each-IsFalling :
    (b : Build) (rs : List Run) (rows : List (Build × Run))
    → IsFalling rows
    → IsFalling (insert_each b rs rows)
unfolding insert_each
insert_each-IsFalling b [] rows h = h
insert_each-IsFalling b (r ∷ rs) rows h =
    insert_newest-IsFalling (b, r) (insert_each b rs rows) (insert_each-IsFalling b rs rows h)

select-All : (p : Run → Bool) (rs : List Run) → All (λ r. p r ≡ true) (select p rs)
select-All p [] = tt
select-All p (r ∷ rs) = elim (Bool-cases (p r)) [
  | inl e ↦ rw e (e, select-All p rs)
  | inr e ↦ rw e (select-All p rs)
]

-- The rows of the history of a run are of builds of the project, newest build first, and of runs of
-- that name.
pub history_rows-IsFalling :
    (proj_id : ℕ) (name : Text) (builds : List Build)
    → IsFalling (history_rows proj_id name builds)
      × All
          (λ (b, r). (b.proj_id ≡ proj_id) × (text_eq r.name name ≡ true))
          (history_rows proj_id name builds)
unfolding history_rows
history_rows-IsFalling proj_id name [] = (tt, tt)
history_rows-IsFalling proj_id name (b ∷ bs) =
    let (falling, named) = history_rows-IsFalling proj_id name bs in
    let rest = history_rows proj_id name bs in
    let rs = select (λ r. text_eq r.name name) b.runs in
    elim (Bool-cases (b.proj_id == proj_id)) [
      | inl e ↦ rw e (
        insert_each-IsFalling b rs rest falling,
        insert_each-All (λ (c, r). (c.proj_id ≡ proj_id) × (text_eq r.name name ≡ true)) b rs rest
            (All-imp (λ r. text_eq r.name name ≡ true)
              (λ r. (b.proj_id ≡ proj_id) × (text_eq r.name name ≡ true)) rs
              (λ r h. (ground (arith, e), h)) (select-All (λ r. text_eq r.name name) b.runs))
            named,
      )
      | inr e ↦ rw e (falling, named)
    ]
