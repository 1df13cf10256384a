-- ===== src/Runner/Upload.antt =====
-- runner/jobserv_runner/jobserv.py: the upload of artifacts in groups, and the retries.
use jobserv.Prelude.{
  ℕ, zero, suc, ◌+◌, ◌≤◌, ◌<◌, ◌≡◌, ◌≢◌, refl, ap, ◌∙◌, Bool, true, false, Option, none, some, List,
  [], ◌∷◌, ◌++◌, length, take, drop, length-drop, take-append-drop, All, Text, arith,
}

module _ {A : Type 0} where
  -- `items[i : i + group_size]` for each start, with the number of items as fuel.
  split_from : ℕ → List A → ℕ → List (List A)
  split_from zero items size = []
  split_from (suc n) [] size = []
  split_from (suc n) (x ∷ items) size =
      take size (x ∷ items) ∷ split_from n (drop size (x ∷ items)) size

  -- `split`
  unfoldable pub split : List A → ℕ → List (List A)
  unfolding split_from
  split items size = split_from (length items) items size

  abbrev pub concat : List (List A) → List A
  concat [] = []
  concat (g ∷ gs) = g ++ concat gs

  length-take-le : (n : ℕ) (l : List A) → length (take n l) ≤ n
  length-take-le zero l = omega arith
  length-take-le (suc n) [] = omega arith
  length-take-le (suc n) (x ∷ l) = omega (arith, length-take-le n l)

  -- What each group is.
  abbrev pub IsGroup : ℕ → List A → Type 0
  IsGroup size g = (g ≢ []) × (length g ≤ size)

  split_from-groups :
      (n : ℕ) (items : List A) (size : ℕ)
      → length items ≤ n
      → 0 < size
      → (concat (split_from n items size) ≡ items) × All (IsGroup size) (split_from n items size)
  unfolding split_from
  split_from-groups zero [] size h p = (refl, tt)
  split_from-groups zero (x ∷ items) size h p = absurd (omega (arith, h))
  split_from-groups (suc n) [] size h p = (refl, tt)
  split_from-groups (suc n) (x ∷ items) zero h p = absurd (omega (arith, p))
  split_from-groups (suc n) (x ∷ items) (suc size) h p =
      let (c, all) =
        split_from-groups n (drop size items) (suc size) (omega (arith, h, length-drop size items))
          p in
      (
        ap (λ l. x ∷ l) (ap (λ l. take size items ++ l) c ∙ take-append-drop size items),
        (((λ e. cc e), omega (arith, length-take-le size items)), all),
      )

  -- The groups of an upload hold all files, in order and once; none is empty, and none has more than
  -- the given number of files.
  pub split-groups :
      (items : List A) (size : ℕ)
      → 0 < size
      → (concat (split items size) ≡ items) × All (IsGroup size) (split items size)
  unfolding split
  split-groups items size p = split_from-groups (length items) items size (omega arith) p

-- `for i in range(1, 5)` over tries that may end with an error; the last error counts.
unfoldable pub upload_cb : ℕ → ℕ → (ℕ → Option Text) → Option Text
upload_cb zero i attempt = none
upload_cb (suc n) i attempt = elim (attempt i) [
  | none ↦ none
  | some e ↦ elim n [ zero ↦ some e | suc k ↦ upload_cb n (i + 1) attempt ]
]

-- The tries of `_get_urls`; the last exception is raised: `none`.
unfoldable pub get_urls : ℕ → ℕ → (ℕ → Option (List Text)) → Option (List Text)
get_urls zero i attempt = none
get_urls (suc n) i attempt = elim (attempt i) [
  | some urls ↦ some urls
  | none ↦ get_urls n (i + 1) attempt
]

-- The errors of one group: those of the artifacts that the server gave a URL for.
upload_each : (Text → ℕ → Option Text) → List Text → List Text
unfolding upload_cb
upload_each put [] = []
upload_each put (artifact ∷ artifacts) = elim (upload_cb 4 1 (put artifact)) [
  | none ↦ upload_each put artifacts
  | some e ↦ e ∷ upload_each put artifacts
]

upload_groups :
    (ℕ → ℕ → Option (List Text))
    → (Text → ℕ → Option Text)
    → ℕ
    → List (List Text)
    → Option (List Text)
unfolding get_urls upload_each
upload_groups signed put i [] = some []
upload_groups signed put i (g ∷ gs) = elim (get_urls 4 1 (signed i)) [
  | none ↦ none
  | some urls ↦ elim (upload_groups signed put (i + 1) gs) [
    | none ↦ none
    | some errors ↦ some (upload_each put urls ++ errors)
  ]
]

-- `JobServApi.upload`: `signed i n` is the answer to the n-th request for the URLs of the i-th group, and
-- `put a n` the error of the n-th try to send `a`.
unfoldable pub upload :
    (ℕ → ℕ → Option (List Text)) → (Text → ℕ → Option Text) → List Text → Option (List Text)
unfolding upload_groups
upload signed put uploads = upload_groups signed put 0 (split uploads 75)

-- The end of `upload_artifacts`: `none` is an exception.
unfoldable pub upload_artifacts :
    (ℕ → ℕ → Option (List Text)) → (Text → ℕ → Option Text) → List Text → Option Bool
upload_artifacts signed put [] = some true
upload_artifacts signed put (f ∷ files) = elim (upload signed put (f ∷ files)) [
  | none ↦ none
  | some [] ↦ some true
  | some (e ∷ errors) ↦ some false
]
