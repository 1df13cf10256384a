-- ===== src/Project/Env.antt =====
-- Which value a run sees for a parameter that is set in several places.
use jobserv.Prelude.{
  ◌≡◌, refl, Option, none, some, [], ◌∷◌, arith, Text, text, text_eq, text_eq→eq, lookup, store,
  lookup-store, if◌then◌else◌,
}
use jobserv.Project.{Dict, update, env_of}

-- A dictionary has no key twice.
abbrev pub IsDict : Dict → Type 0
IsDict [] = Unit
IsDict ((k, v) ∷ m) = (lookup k m ≡ none) × IsDict m

abbrev pub or_else : Option Text → Option Text → Option Text
or_else (some v) o = some v
or_else none o = o

pub lookup-update :
    (j : Text) (d m : Dict) → IsDict m → lookup j (update d m) ≡ or_else (lookup j m) (lookup j d)
unfolding update lookup
lookup-update j d [] h = refl
lookup-update j d ((k, v) ∷ m) h =
    ground (arith, lookup-update j (store k v d) m h.1, lookup-store k j v d, h.0, text_eq→eq k j)

pub lookup_nil : (j : Text) → lookup {V = Text} j [] ≡ none
unfolding lookup
lookup_nil j = refl

pub or_else-none : (o : Option Text) → or_else o none ≡ o
or_else-none none = refl
or_else-none (some v) = refl

-- A run's variable is set by the server for H_PROJECT, H_BUILD and H_RUN, and else by the first of
-- these that names it: what the build was triggered with, the run, the trigger, the project.
pub lookup-env_of :
    (project trigger run params : Dict) (proj build name j : Text)
    → IsDict project
    → IsDict trigger
    → IsDict run
    → IsDict params
    → lookup j (env_of project trigger run params proj build name) ≡ (
        if text_eq (text "H_RUN") j
        then some name
        else if text_eq (text "H_BUILD") j
        then some build
        else if text_eq (text "H_PROJECT") j
        then some proj
        else or_else
            (lookup j params)
            (or_else (lookup j run) (or_else (lookup j trigger) (lookup j project))))
unfolding env_of
lookup-env_of project trigger run params proj build name j dp dt dr dq =
    let e1 = update [] project in
    let e2 = update e1 trigger in
    let e3 = update e2 run in
    let e4 = update e3 params in
    rw (
      lookup-store (text "H_RUN") j name
          (store (text "H_BUILD") build (store (text "H_PROJECT") proj e4)),
      lookup-store (text "H_BUILD") j build (store (text "H_PROJECT") proj e4),
      lookup-store (text "H_PROJECT") j proj e4,
      lookup-update j e3 params dq,
      lookup-update j e2 run dr,
      lookup-update j e1 trigger dt,
      lookup-update j [] project dp,
      lookup_nil j,
      or_else-none (lookup j project),
    )
