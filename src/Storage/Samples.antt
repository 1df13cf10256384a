-- ===== src/Storage/Samples.antt =====
-- Formats whose values are texts, with an encryption that adds a letter.
use jobserv.Prelude.{
  ℕ, ◌≡◌, refl, Bool, true, false, Option, none, some, List, [], ◌∷◌, ◌++◌, Text, text, text_eq,
  split, starts_with, lookup,
}
use jobserv.Storage.{Formats, run_folder, set_run_definition, get_run_definition, get_run_path}
use jobserv.Storage.Files.{
  ParamFormat, create_project_definition, get_project_definition, create_build_params,
  get_build_params, build_file,
}
use jobserv.Storage.Stored.{Accepted, stored_build}
use jobserv.Storage.Local.{
  Disk, PutUrl, generate_put_url, is_relative, list_artifacts, files_below, join, join_folder,
}
use jobserv.Storage.Signed.{local, local-FileLaws}
use jobserv.Storage.Definitions.{Laws, get_run_definition-set_run_definition}

abbrev is_some_text : Text → Bool
is_some_text [] = false
is_some_text (c ∷ t) = true

abbrev tail : Text → Option Text
tail [] = none
tail (c ∷ t) = some t

abbrev formats : Formats Text ℕ (List (Text × Text))
formats = record {
  truth = is_some_text;
  string = λ t. t;
  as_string = λ t. some t;
  dumps = λ t. t;
  loads = λ t. some t;
  dumps_all = λ m. m;
  loads_all = λ m. some m;
  encrypt = λ k t. k ∷ t;
  decrypt = λ k t. tail t;
}

formats-Laws : Laws formats
formats-Laws = record {
  loads-dumps = λ j. refl;
  loads_all-dumps_all = λ m. refl;
  decrypt-encrypt = λ k t. refl;
  as_string-string = λ t. refl;
  truth-encrypt = λ k t. refl;
}

abbrev definition : List (Text × Text)
definition = (text "project", text "lmp") ∷ (text "secrets", text "token") ∷ []

get_run_definition-set_run_definition_example :
    (m : List (Text × Text)) × (get_run_definition formats 7
        (set_run_definition formats 7 definition)
      ≡ some m)
    × ((j : Text) → lookup j m ≡ lookup j definition)
unfolding lookup text_eq
get_run_definition-set_run_definition_example =
    get_run_definition-set_run_definition formats formats-Laws 7 definition refl

artifact :
    get_run_path (text "lmp") (text "12") (text "build") (some (text "/a.log"))
    ≡ text "lmp/12/build/a.log"
unfolding get_run_path text_eq
artifact = refl

abbrev json : ParamFormat Text
json = record { dumps = λ t. t; loads = λ t. some t }

accepted : Accepted (local (text "/data")) (text "lmp") (text "12")
unfolding is_relative build_file
accepted = (refl, refl)

build_files :
    let f = local (text "/data") in
    let s' =
      create_build_params f json
        (text "lmp")
        (text "12")
        (text "params")
        (create_project_definition f (text "lmp") (text "12") (text "timeout: 5") []) in
    (get_project_definition f (text "lmp") (text "12") s' ≡ some (text "timeout: 5"))
    × (get_build_params f json (text "lmp") (text "12") s' ≡ some (text "params"))
build_files =
    stored_build (local (text "/data")) (local-FileLaws (text "/data")) json (text "lmp")
      (text "12") accepted (text "timeout: 5") (text "params") [] refl

abbrev digest : Text → Text → Text
digest key t = key ++ t

abbrev put_url : PutUrl
put_url = record {
  sig = text "kPUT,/data/lmp/12/build/a.log,text/plain";
  project = text "lmp";
  build = text "12";
  run = text "build";
  path = text "a.log";
}

signed :
    generate_put_url digest
      (text "k")
      (text "/data")
      (text "lmp")
      (text "12")
      (text "build")
      (text "a.log")
      (text "text/plain")
    ≡ some put_url
unfolding generate_put_url starts_with run_folder join join_folder
signed = refl

abbrev disk : Disk
disk =
    (text "/data/lmp/12/build/.rundef.json", text "{}")
    ∷ (text "/data/lmp/12/build/out/a.log", text "log")
    ∷ (text "/data/lmp/13/build/b", text "b")
    ∷ []

-- The definition of the run is not listed, nor are the files of another build.
listed :
    list_artifacts (text "/data") (text "lmp") (text "12") (text "build") disk
    ≡ record { name = text "out/a.log"; size_bytes = 3 } ∷ []
unfolding list_artifacts run_folder split starts_with text_eq files_below
listed = refl
