-- ===== src/Storage/Files.antt =====
-- jobserv/storage/base.py: what a storage promises of its files, and what the server keeps in them
-- whatever the storage is. Paths are those that the storage is given; the number of a build is a text.
use jobserv.Prelude.{
  ◌≡◌, refl, Bool, true, Option, none, some, [], ◌∷◌, ◌++◌, Text, text, text_eq, arith, ==_refl,
  if◌then◌else◌,
}
use jobserv.Storage.{get_run_path}

-- The operations that each storage defines: `_create_from_string` and `_get_as_string`, where `none` is
-- an exception, and which paths it takes.
pub record FileStore {ℓ} (S : Type ℓ) : Type ℓ where
  pub accepts : Text → Bool
  pub create_from_string : Text → Text → S → S
  pub get_as_string : Text → S → Option Text

-- What was written last to a path is read from it, and no other path is changed.
pub record FileLaws {ℓ} {S : Type ℓ} (f : FileStore S) : Type ℓ where
  pub get-create :
      (p q contents : Text) (s : S)
      → f.accepts p ≡ true
      → f.accepts q ≡ true
      → f.get_as_string q (f.create_from_string p contents s)
        ≡ (if text_eq p q then some contents else f.get_as_string q s)

-- "%s/%s/project.yml" and "%s/%s/params.json"
unfoldable pub build_file : Text → Text → Text → Text
build_file project build name = project ++ b'/' ∷ build ++ b'/' ∷ name

-- `json.dumps` and `json.loads`, for the parameters of a build.
pub record ParamFormat {κ} (P : Type κ) : Type κ where
  pub dumps : P → Text
  pub loads : Text → Option P

module _ {ℓ} {S : Type ℓ} (f : FileStore S) where
  -- `create_project_definition`
  unfoldable pub create_project_definition : Text → Text → Text → S → S
  unfolding build_file
  create_project_definition project build projdef =
      f.create_from_string (build_file project build (text "project.yml")) projdef

  -- `get_project_definition`
  unfoldable pub get_project_definition : Text → Text → S → Option Text
  unfolding build_file
  get_project_definition project build =
      f.get_as_string (build_file project build (text "project.yml"))

  -- `get_artifact_content`, decoded
  unfoldable pub get_artifact_content : Text → Text → Text → Text → S → Option Text
  unfolding get_run_path
  get_artifact_content project build run path =
      f.get_as_string (get_run_path project build run (some path))

module _ {ℓ κ} {S : Type ℓ} (f : FileStore S) {P : Type κ} (json : ParamFormat P) where
  -- `create_build_params`
  unfoldable pub create_build_params : Text → Text → P → S → S
  unfolding build_file
  create_build_params project build params =
      f.create_from_string (build_file project build (text "params.json")) (json.dumps params)

  unfoldable pub loaded : Option Text → Option P
  loaded none = none
  loaded (some t) = json.loads t

  -- `get_build_params`
  unfoldable pub get_build_params : Text → Text → S → Option P
  unfolding build_file loaded
  get_build_params project build s =
      loaded (f.get_as_string (build_file project build (text "params.json")) s)

  -- `git_poller_cache`: the cache that the poller is given, for one that has none the empty one, and
  -- the files after it gave `data` back, also with an exception.
  unfoldable pub git_poller_cache : P → (P → P) → S → Option S
  git_poller_cache empty use_cache s = elim (f.get_as_string (text "git_poller_cache.json") s) [
    | none ↦
        some (f.create_from_string (text "git_poller_cache.json") (json.dumps (use_cache empty)) s)
    | some t ↦ elim (json.loads t) [
      | none ↦ none
      | some cached ↦
          some
            (f.create_from_string (text "git_poller_cache.json") (json.dumps (use_cache cached)) s)
    ]
  ]

-- A common beginning does not matter.
pub text_eq-append : (p s t : Text) → text_eq (p ++ s) (p ++ t) ≡ text_eq s t
unfolding text_eq
text_eq-append [] s t = refl
text_eq-append (c ∷ p) s t = ground (arith, text_eq-append p s t, ==_refl c)
