-- ===== src/Storage/Signed.antt =====
-- The local storage has the laws of files, for the texts of their paths, and takes an upload at the address that it has signed.
use jobserv.Prelude.{
  ◌≡◌, ◌≢◌, refl, Bool, true, false, [], ◌∷◌, ◌++◌, all, not, has_text, split, Text, text, text_eq,
  text_eq→eq, starts_with, lookup-store, arith,
}
use jobserv.Storage.{run_folder}
use jobserv.Storage.Files.{FileStore, FileLaws, text_eq-append}
use jobserv.Storage.Local.{
  Disk, is_relative, join, create_from_string, get_as_string, artifact_path, PutUrl, signed_text,
  Upload, uploaded, header_text, run_upload_artifact,
}

-- The local storage, in its directory.
abbrev pub local : Text → FileStore Disk
local artifacts = record {
  accepts = is_relative;
  create_from_string = create_from_string artifacts;
  get_as_string = get_as_string artifacts;
}

is_relative-starts_with : (p : Text) → is_relative p ≡ true → starts_with (text "/") p ≡ false
unfolding is_relative starts_with
is_relative-starts_with [] h = refl
is_relative-starts_with (c ∷ p) h = ground (arith, h)

text_eq-join :
    (artifacts p q : Text)
    → is_relative p ≡ true
    → is_relative q ≡ true
    → text_eq (join artifacts p) (join artifacts q) ≡ text_eq p q
unfolding join text_eq
text_eq-join artifacts p q h k =
    rw (is_relative-starts_with p h, is_relative-starts_with q k)
      (text_eq-append artifacts (b'/' ∷ p) (b'/' ∷ q))

pub local-FileLaws : (artifacts : Text) → FileLaws (local artifacts)
unfolding create_from_string get_as_string
local-FileLaws artifacts = record {
  get-create = λ p q contents disk h k.
      rw
        (
          h,
          k,
          lookup-store (join artifacts p) (join artifacts q) contents disk,
          text_eq-join artifacts p q h k,
        )
        refl;
}

-- No part of the path is one that the operating system resolves, as `..` and an empty one: paths that
-- differ as texts are then those of different files.
unfoldable pub is_plain : Text → Bool
is_plain path = all (λ part. not (has_text part ([] ∷ text "." ∷ text ".." ∷ []))) (split b'/' path)

-- A path that `os.path.join` and `_get_run_path` both take for one in the run's folder, and that names
-- its file without `..` and the like.
abbrev pub InRun : Text → Text → Text → Text → Type 0
InRun project build run path =
    (path ≢ [])
    × (starts_with (text "/") path ≡ false)
    × (is_relative (run_folder project build run ++ path) ≡ true)
    × (is_plain (run_folder project build run ++ path) ≡ true)

-- An upload that is accepted has the signature of its method, its file and its type.
pub run_upload_artifact-sig :
    (hexdigest : Text → Text → Text) (key artifacts : Text) (exists : Text → Text → Text → Bool)
    (url : PutUrl) (req : Upload) (disk disk' : Disk)
    → run_upload_artifact hexdigest key artifacts exists url req disk ≡ uploaded disk'
    → (url.sig
        ≡ hexdigest key (
            signed_text req.method
              (artifact_path artifacts url.project url.build url.run url.path)
              (header_text req.content_type)))
      × (exists url.project url.build url.run ≡ true)
unfolding run_upload_artifact
run_upload_artifact-sig hexdigest [] artifacts exists url req disk disk' h = absurd (cc h)
run_upload_artifact-sig hexdigest (k ∷ key) artifacts exists url req disk disk' h =
    let computed = hexdigest (k ∷ key) (
      signed_text req.method (artifact_path artifacts url.project url.build url.run url.path)
        (header_text req.content_type)) in
    ground (arith, h, text_eq→eq url.sig computed)
