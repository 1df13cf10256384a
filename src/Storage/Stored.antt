-- ===== src/Storage/Stored.antt =====
-- What the server keeps of a build is read as it was written, in every storage with the laws of files.
use jobserv.Prelude.{◌≡◌, refl, ap, ◌∙◌, true, some, ◌∷◌, ◌++◌, Text, text, text_eq, text_eq_refl}
use jobserv.Storage.Files.{
  FileStore, FileLaws, ParamFormat, build_file, create_project_definition, get_project_definition,
  create_build_params, get_build_params, loaded, text_eq-append,
}

build_file-text_eq :
    (project build a b : Text)
    → text_eq (build_file project build a) (build_file project build b) ≡ text_eq a b
unfolding build_file text_eq
build_file-text_eq project build a b =
    text_eq-append (project ++ b'/' ∷ build) (b'/' ∷ a) (b'/' ∷ b)

-- The paths of the two files that a build has.
abbrev pub Accepted : {S : Type 0} → FileStore S → Text → Text → Type 0
Accepted f project build =
    (f.accepts (build_file project build (text "project.yml")) ≡ true)
    × (f.accepts (build_file project build (text "params.json")) ≡ true)

module _ {S : Type 0} (f : FileStore S) (laws : FileLaws f) {P : Type 0} (json : ParamFormat P)
    (project build : Text) (ok : Accepted f project build) where
  get_project_definition-create :
      (projdef : Text) (s : S)
      → get_project_definition f project build (create_project_definition f project build projdef s)
        ≡ some projdef
  unfolding get_project_definition create_project_definition
  get_project_definition-create projdef s =
      laws.get-create (build_file project build (text "project.yml"))
        (build_file project build (text "project.yml")) projdef s ok.0 ok.0
      ∙ rw (text_eq_refl (build_file project build (text "project.yml"))) refl

  get_project_definition-create_build_params :
      (params : P) (s : S)
      → get_project_definition f project build (create_build_params f json project build params s)
        ≡ get_project_definition f project build s
  unfolding get_project_definition create_build_params text_eq
  get_project_definition-create_build_params params s =
      laws.get-create (build_file project build (text "params.json"))
        (build_file project build (text "project.yml")) (json.dumps params) s ok.1 ok.0
      ∙ rw (build_file-text_eq project build (text "params.json") (text "project.yml")) refl

  get_build_params-create :
      (params : P) (s : S)
      → json.loads (json.dumps params) ≡ some params
      → get_build_params f json project build (create_build_params f json project build params s)
        ≡ some params
  unfolding get_build_params create_build_params loaded
  get_build_params-create params s j =
      let file = build_file project build (text "params.json") in
      let found : f.get_as_string file (f.create_from_string file (json.dumps params) s)
          ≡ some (json.dumps params) =
        laws.get-create file file (json.dumps params) s ok.1 ok.1 ∙ rw (text_eq_refl file) refl in
      ap (loaded f json) found ∙ j

  -- In a storage that keeps what is written to a path it takes, until something else is written there:
  -- after the definition of the project and the parameters of a build are stored, as `trigger_build`
  -- does, both are read as they were.
  pub stored_build :
      (projdef : Text) (params : P) (s : S)
      → json.loads (json.dumps params) ≡ some params
      → let s' =
          create_build_params f json project build params
            (create_project_definition f project build projdef s) in
        (get_project_definition f project build s' ≡ some projdef)
        × (get_build_params f json project build s' ≡ some params)
  stored_build projdef params s j = (
    get_project_definition-create_build_params params
          (create_project_definition f project build projdef s)
        ∙ get_project_definition-create projdef s,
    get_build_params-create params (create_project_definition f project build projdef s) j,
  )
