-- ===== src/Storage.antt =====
-- jobserv/storage/base.py: the paths of a run's files, and its definition, whose secrets are stored
-- encrypted. The formats of JSON and the library for encryption are arguments.
pub mod Definitions
pub mod Files
pub mod Stored
pub mod Local
pub mod Signed
mod Samples
use jobserv.Prelude.{
  ℕ, Bool, true, false, not, Option, none, some, List, [], ◌∷◌, ◌++◌, select, Text, text, text_eq,
  lookup, store, if◌then◌else◌,
}

-- `"%s/%s/%s/" % (…)`, for the text of the build's number
unfoldable pub run_folder : Text → Text → Text → Text
run_folder project build run = project ++ b'/' ∷ build ++ b'/' ∷ run ++ b'/' ∷ []

-- `_get_run_path`
unfoldable pub get_run_path : Text → Text → Text → Option Text → Text
unfolding run_folder
get_run_path project build run none = run_folder project build run
get_run_path project build run (some []) = run_folder project build run
get_run_path project build run (some (c ∷ path)) =
    run_folder project build run ++ (if text_eq (c ∷ []) (text "/") then path else c ∷ path)

-- What the source uses of `json` and of `Fernet`, for the values `Json` of a definition; `Key` is what
-- `derive_fernet_token` returns, and `File` what the storage keeps of a definition.
pub record Formats {ℓ κ μ} (Json : Type ℓ) (Key : Type κ) (File : Type μ) : Type (ℓ ⊔ κ ⊔ μ) where
  pub truth : Json → Bool
  pub string : Text → Json
  pub as_string : Json → Option Text
  pub dumps : Json → Text
  pub loads : Text → Option Json
  pub dumps_all : List (Text × Json) → File
  pub loads_all : File → Option (List (Text × Json))
  pub encrypt : Key → Text → Text
  pub decrypt : Key → Text → Option Text

-- `del definition[key]`
unfoldable pub delete {ℓ} : {A : Type ℓ} → Text → List (Text × A) → List (Text × A)
delete key [] = []
delete key ((k, v) ∷ m) = let rest = delete key m in if text_eq k key then rest else (k, v) ∷ rest

module _ {ℓ κ μ} {Json : Type ℓ} {Key : Type κ} {File : Type μ} (f : Formats Json Key File) where
  -- `if secrets`
  hidden : Key → List (Text × Json) → Option Json → List (Text × Json)
  hidden key definition none = definition
  hidden key definition (some secrets) =
      if f.truth secrets
      then delete (text "secrets")
          (store (text "secrets-encrypted") (f.string (f.encrypt key (f.dumps secrets))) definition)
      else definition

  -- `set_run_definition`: what is stored.
  unfoldable pub set_run_definition : Key → List (Text × Json) → File
  unfolding hidden
  set_run_definition key definition =
      f.dumps_all (hidden key definition (lookup (text "secrets") definition))

  decrypted : Key → Option Text → Option Json
  decrypted key none = none
  decrypted key (some encrypted) = elim (f.decrypt key encrypted) [
    | none ↦ none
    | some secret_bytes ↦ f.loads secret_bytes
  ]

  -- `if encrypted`; `none` is an exception.
  shown : Key → List (Text × Json) → Option Json → Option (List (Text × Json))
  unfolding decrypted
  shown key rundef none = some rundef
  shown key rundef (some encrypted) =
      if f.truth encrypted
      then elim (decrypted key (f.as_string encrypted)) [
        | none ↦ none
        | some secrets ↦
            some (delete (text "secrets-encrypted") (store (text "secrets") secrets rundef))
      ]
      else some rundef

  after_load : Key → Option (List (Text × Json)) → Option (List (Text × Json))
  unfolding shown
  after_load key none = none
  after_load key (some rundef) = shown key rundef (lookup (text "secrets-encrypted") rundef)

  -- `get_run_definition`, for what was stored.
  unfoldable pub get_run_definition : Key → File → Option (List (Text × Json))
  unfolding after_load
  get_run_definition key def_str = after_load key (f.loads_all def_str)
