-- ===== src/Project/Secrets.antt =====
-- A run is only defined with the secrets that it wants.
use jobserv.Prelude.{
  ◌≡◌, ◌⊎◌, refl, inl, inr, true, Option, none, List, [], ◌∷◌, All, arith, Text, lower,
  Option-cases,
}
use jobserv.Project.{
  Dict, ProjectDefinition, Target, RunSpec, Trigger, RunDefinition, defined, Found, found,
  not_found, find_source, first_missing, has_secret, auth_missing, checked, get_run_definition,
  env_of,
}

first_missing-none :
    (secrets : Dict) (tokens : List Text)
    → first_missing secrets tokens ≡ none
    → All (λ token. (token ≡ []) ⊎ (has_secret secrets token ≡ true)) tokens
unfolding first_missing
first_missing-none secrets [] h = tt
first_missing-none secrets ([] ∷ tokens) h = (inl refl, first_missing-none secrets tokens h)
first_missing-none secrets ((c ∷ token) ∷ tokens) h =
    (inr (ground (arith, h)), first_missing-none secrets tokens (ground (arith, h)))

-- What the run's source wants: each token of its repository that has a name.
abbrev pub HasTokens : Dict → Found → Type 0
HasTokens secrets (not_found name) = ⊥
HasTokens secrets (found body tokens) =
    All (λ token. (token ≡ []) ⊎ (has_secret secrets token ≡ true)) tokens

checked-defined :
    (f : Found) (secrets : Dict) (auth : Option Text) (d d' : RunDefinition)
    → checked f secrets auth d ≡ defined d'
    → HasTokens secrets f
      × (auth_missing secrets auth ≡ none)
      × (d'.secrets ≡ d.secrets)
      × (d'.host_tag ≡ d.host_tag)
      × (d'.env ≡ d.env)
unfolding checked
checked-defined (not_found name) secrets auth d d' h = absurd (ground (arith, h))
checked-defined (found body tokens) secrets auth d d' h =
    elim (Option-cases (first_missing secrets tokens)) [
      | inl e ↦ (
        first_missing-none secrets tokens e,
        ground (arith, h, e),
        ground (arith, h, e),
        ground (arith, h, e),
        ground (arith, h, e),
      )
      | inr (t, e) ↦ absurd (ground (arith, h, e))
    ]

-- When a run's definition is made, its source is there, every secret that its repository's tokens
-- and its registry name is in the secrets, and the tag is in lower case.
pub get_run_definition-checked :
    (def : ProjectDefinition) (target : Target) (run : RunSpec) (trigger : Trigger)
    (params secrets : Dict) (d : RunDefinition)
    → get_run_definition def target run trigger params secrets ≡ defined d
    → HasTokens secrets (find_source def run.source)
      × (auth_missing secrets run.container_auth ≡ none)
      × (d.secrets ≡ secrets)
      × (d.host_tag ≡ lower run.host_tag)
      × (d.env
          ≡ env_of def.params trigger.params run.params params target.project target.build
              target.run)
unfolding get_run_definition
get_run_definition-checked def target run trigger params secrets d h =
    checked-defined (find_source def run.source) secrets run.container_auth _ d h
