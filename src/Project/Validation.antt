-- ===== src/Project/Validation.antt =====
-- `validate_data` behind the schema: where the scripts and the host tags of the runs come from. The
-- data is that of the definition's file, before its loops are expanded.
use jobserv.Prelude.{
  ◌≡◌, ◌⊎◌, inl, inr, refl, Bool, true, false, ◌&&◌, Option, none, some, List, [], ◌∷◌, all, All,
  Text, text, has_text, arith, Bool-cases,
}

pub record RunData : Type 0 where
  pub name : Text
  pub script : Option Text
  -- `script-repo.name`
  pub script_repo : Option Text
  pub host_tag : Option Text
  -- the params of `loop-on`
  pub loop_params : List Text

pub record TriggerData : Type 0 where
  pub name : Text
  pub type : Text
  pub runs : List RunData

pub record DefinitionData : Type 0 where
  -- the keys of `scripts` and of `script-repos`
  pub scripts : List Text
  pub script_repos : List Text
  pub triggers : List TriggerData

-- The tests on `script` and `repo`; an empty text is none.
valid_source : List Text → List Text → Option Text → Option Text → Bool
valid_source scripts repos none none = false
valid_source scripts repos none (some []) = false
valid_source scripts repos none (some (r ∷ repo)) = has_text (r ∷ repo) repos
valid_source scripts repos (some []) none = false
valid_source scripts repos (some []) (some []) = false
valid_source scripts repos (some []) (some (r ∷ repo)) = has_text (r ∷ repo) repos
valid_source scripts repos (some (s ∷ script)) none = has_text (s ∷ script) scripts
valid_source scripts repos (some (s ∷ script)) (some []) = has_text (s ∷ script) scripts
valid_source scripts repos (some (s ∷ script)) (some (r ∷ repo)) = false

-- `if "host-tag" not in run`
valid_host_tag : Option Text → List Text → Bool
valid_host_tag none params = has_text (text "host-tag") params
valid_host_tag (some tag) params = true

unfoldable pub valid_run : List Text → List Text → RunData → Bool
unfolding valid_source valid_host_tag
valid_run scripts repos r =
    valid_source scripts repos r.script r.script_repo && valid_host_tag r.host_tag r.loop_params

-- The names of `TriggerTypes`.
abbrev pub trigger_types : List Text
trigger_types = text "git_poller" ∷ text "github_pr" ∷ text "simple" ∷ text "gitlab_mr" ∷ []

-- The loop over the triggers; `false` is a SchemaError.
unfoldable pub valid_triggers : DefinitionData → Bool
unfolding valid_run
valid_triggers d =
    all (λ t. has_text t.type trigger_types && all (valid_run d.scripts d.script_repos) t.runs)
      d.triggers

-- The one source of a run, which the definition has.
abbrev pub HasSource : DefinitionData → RunData → Type 0
HasSource d r =
    ((s : Text) × (r.script ≡ some s) × (has_text s d.scripts ≡ true))
    ⊎ ((s : Text) × (r.script_repo ≡ some s) × (has_text s d.script_repos ≡ true))

valid_source-HasSource :
    (scripts repos : List Text) (script repo : Option Text)
    → valid_source scripts repos script repo ≡ true
    → ((s : Text) × (script ≡ some s) × (has_text s scripts ≡ true))
      ⊎ ((s : Text) × (repo ≡ some s) × (has_text s repos ≡ true))
unfolding valid_source
valid_source-HasSource scripts repos none none h = cc h
valid_source-HasSource scripts repos none (some []) h = cc h
valid_source-HasSource scripts repos none (some (r ∷ repo)) h = inr (r ∷ repo, refl, h)
valid_source-HasSource scripts repos (some []) none h = cc h
valid_source-HasSource scripts repos (some []) (some []) h = cc h
valid_source-HasSource scripts repos (some []) (some (r ∷ repo)) h = inr (r ∷ repo, refl, h)
valid_source-HasSource scripts repos (some (s ∷ script)) none h = inl (s ∷ script, refl, h)
valid_source-HasSource scripts repos (some (s ∷ script)) (some []) h = inl (s ∷ script, refl, h)
valid_source-HasSource scripts repos (some (s ∷ script)) (some (r ∷ repo)) h = cc h

all-All {ℓ κ} :
    {A : Type ℓ} {P : A → Type κ} (p : A → Bool) (l : List A)
    → ((a : A) → p a ≡ true → P a)
    → all p l ≡ true
    → All P l
all-All p [] f h = tt
all-All p (a ∷ l) f h = elim (Bool-cases (p a)) [
  | inl e ↦ (f a e, all-All p l f (ground (arith, h, e)))
  | inr e ↦ absurd (ground (arith, h, e))
]

-- In a definition that is accepted each run of each trigger has a script or a repository that the
-- definition has.
pub valid_triggers-HasSource :
    (d : DefinitionData) → valid_triggers d ≡ true → All (λ t. All (HasSource d) t.runs) d.triggers
unfolding valid_triggers
valid_triggers-HasSource d h =
    all-All (λ t. has_text t.type trigger_types && all (valid_run d.scripts d.script_repos) t.runs)
      d.triggers
      (λ t e.
        all-All (valid_run d.scripts d.script_repos) t.runs
          (λ r k.
            unfold valid_run in
            valid_source-HasSource d.scripts d.script_repos r.script r.script_repo
              (ground (arith, k)))
          (ground (arith, e)))
      h
