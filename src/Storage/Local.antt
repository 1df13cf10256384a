-- ===== src/Storage/Local.antt =====
-- jobserv/storage/local_storage.py: the files of a directory, as a dictionary of their paths, which
-- begin with the directory. A path is kept as a text, which is its file where no part of it is empty,
-- `.` or `..`; what the operating system makes of the others is not modelled. Folders are those of the paths; keys for the signatures, the keyed hash
-- and the types of files are arguments.
use jobserv.Prelude.{
  ℕ, Bool, false, not, Option, none, some, List, [], ◌∷◌, ◌++◌, map, select, any, length, drop,
  Text, text, text_eq, starts_with, split, lookup, store, ◌==◌, if◌then◌else◌,
}
use jobserv.Storage.{run_folder, get_run_path}

abbrev pub Disk : Type 0
Disk = List (Text × Text)

-- `storage_path[0] != "/"`, where an empty path is an IndexError.
unfoldable pub is_relative : Text → Bool
is_relative [] = false
is_relative (c ∷ path) = not (c == b'/')

-- `os.path.join`, for a directory without a slash at its end and for one with it.
unfoldable pub join : Text → Text → Text
join folder path = if starts_with (text "/") path then path else folder ++ b'/' ∷ path

unfoldable pub join_folder : Text → Text → Text
join_folder folder path = if starts_with (text "/") path then path else folder ++ path

-- `_create_from_string`; after an exception nothing is written.
unfoldable pub create_from_string : Text → Text → Text → Disk → Disk
unfolding is_relative join
create_from_string artifacts path contents disk =
    if is_relative path then store (join artifacts path) contents disk else disk

-- `_get_as_string`
unfoldable pub get_as_string : Text → Text → Disk → Option Text
unfolding is_relative join
get_as_string artifacts path disk =
    if is_relative path then lookup (join artifacts path) disk else none

-- The last part of a path.
last_part : List Text → Text
last_part [] = []
last_part (t ∷ []) = t
last_part (t ∷ u ∷ ts) = last_part (u ∷ ts)

pub record Item : Type 0 where
  pub name : Text
  pub size_bytes : ℕ

-- The files below a folder.
unfoldable pub files_below : Text → Disk → Disk
files_below folder = select (λ (path, contents). starts_with folder path)

-- `list_artifacts`
unfoldable pub list_artifacts : Text → Text → Text → Text → Disk → List Item
unfolding files_below join run_folder last_part
list_artifacts artifacts project build run disk =
    let folder = join artifacts (run_folder project build run) in
    map
      (λ (path, contents). record {
        name = drop (length folder) path;
        size_bytes = length contents;
      })
      (select
        (λ (path, contents). not (text_eq (last_part (split b'/' path)) (text ".rundef.json")))
        (files_below folder disk))

-- `delete_build`; `none` is the error of a folder that is not there.
unfoldable pub delete_build : Text → Text → Text → Disk → Option Disk
unfolding join
delete_build artifacts project build disk =
    let folder = join artifacts (project ++ b'/' ∷ build ++ b'/' ∷ []) in
    if any (λ (path, contents). starts_with folder path) disk
    then some (select (λ (path, contents). not (starts_with folder path)) disk)
    else none

-- The address of an upload.
pub record PutUrl : Type 0 where
  pub sig : Text
  pub project : Text
  pub build : Text
  pub run : Text
  pub path : Text

-- "%s,%s,%s" % (method, p, content_type), for the file `p` of a run: the path that is joined, before the
-- operating system resolves parts like `..`.
unfoldable pub artifact_path : Text → Text → Text → Text → Text → Text
unfolding join join_folder run_folder
artifact_path artifacts project build run path =
    join artifacts (join_folder (run_folder project build run) path)

unfoldable pub signed_text : Text → Text → Text → Text
signed_text method p content_type = method ++ b',' ∷ p ++ b',' ∷ content_type

-- `_generate_put_url`; `none` is the RuntimeError of a missing key.
unfoldable pub generate_put_url :
    (Text → Text → Text) → Text → Text → Text → Text → Text → Text → Text → Option PutUrl
unfolding signed_text artifact_path
generate_put_url hexdigest [] artifacts project build run path content_type = none
generate_put_url hexdigest (k ∷ key) artifacts project build run path content_type = some (record {
  sig =
      hexdigest (k ∷ key)
        (signed_text (text "PUT") (artifact_path artifacts project build run path) content_type);
  project = project;
  build = build;
  run = run;
  path = path;
})

-- `generate_signed`, for the types that `mimetypes` guesses.
unfoldable pub generate_signed :
    (Text → Text → Text)
    → Text
    → Text
    → Text
    → Text
    → Text
    → (Text → Option Text)
    → List Text
    → List (Text × (Option PutUrl × Text))
unfolding generate_put_url
generate_signed hexdigest key artifacts project build run guess paths =
    map
      (λ p.
        let ct : Text = elim (guess p) [ none ↦ [] | some t ↦ t ] in
        (p, (generate_put_url hexdigest key artifacts project build run p ct, ct)))
      paths

-- What `run_upload_artifact` reads of a request: the type as the header gives it, "None" for none.
pub record Upload : Type 0 where
  pub method : Text
  pub content_type : Option Text
  pub stream : Text

pub data UploadReply : Type 0 where
  uploaded : Disk → UploadReply
  -- a missing key, a run that is not found, and a signature that is not the computed one
  missing_key not_found invalid_signature : UploadReply

unfoldable pub header_text : Option Text → Text
header_text none = text "None"
header_text (some t) = t

-- `run_upload_artifact`; `exists` tells whether `_get_run` finds the run.
unfoldable pub run_upload_artifact :
    (Text → Text → Text)
    → Text
    → Text
    → (Text → Text → Text → Bool)
    → PutUrl
    → Upload
    → Disk
    → UploadReply
unfolding signed_text artifact_path header_text
run_upload_artifact hexdigest [] artifacts exists url req disk = missing_key
run_upload_artifact hexdigest (k ∷ key) artifacts exists url req disk =
    let p = artifact_path artifacts url.project url.build url.run url.path in
    let computed = hexdigest (k ∷ key) (signed_text req.method p (header_text req.content_type)) in
    if exists url.project url.build url.run
    then (if text_eq url.sig computed
        then uploaded (store p req.stream disk)
        else invalid_signature)
    else not_found

-- `copy_log`: the console log in the folder of the jobs is moved to the storage.
unfoldable pub copy_log : Text → Text → Text → Text → Disk → Option Text → Disk
unfolding create_from_string get_run_path
copy_log artifacts project build run disk none = disk
copy_log artifacts project build run disk (some log) =
    create_from_string artifacts (get_run_path project build run (some (text "console.log"))) log
      disk
