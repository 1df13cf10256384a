-- ===== src/Storage/Definitions.antt =====
-- What is stored of a run's definition, and that it is read back.
use jobserv.Prelude.{
  ◌≡◌, refl, sym, ap, ◌∙◌, inl, inr, Bool, true, false, none, some, List, [], ◌∷◌, Text, text,
  text_eq, text_eq_refl, text_eq→eq, lookup, store, lookup-store, arith, Option-cases, Bool-cases,
  if◌then◌else◌,
}
use jobserv.Storage.{
  Formats, delete, hidden, set_run_definition, decrypted, shown, after_load, get_run_definition,
}

-- What the libraries promise: what was written is read, what was encrypted is decrypted with the same
-- key, and an encrypted text is not empty.
pub record Laws {ℓ κ μ} {Json : Type ℓ} {Key : Type κ} {File : Type μ} (f : Formats Json Key File)
    : Type (ℓ ⊔ κ ⊔ μ) where
  pub loads-dumps : (j : Json) → f.loads (f.dumps j) ≡ some j
  pub loads_all-dumps_all : (m : List (Text × Json)) → f.loads_all (f.dumps_all m) ≡ some m
  pub decrypt-encrypt : (key : Key) (t : Text) → f.decrypt key (f.encrypt key t) ≡ some t
  pub as_string-string : (t : Text) → f.as_string (f.string t) ≡ some t
  pub truth-encrypt : (key : Key) (t : Text) → f.truth (f.string (f.encrypt key t)) ≡ true

pub lookup-delete {ℓ} :
    {A : Type ℓ} (key j : Text) (m : List (Text × A))
    → lookup j (delete key m) ≡ (if text_eq key j then none else lookup j m)
unfolding delete lookup
lookup-delete key j [] = ground arith
lookup-delete key j ((k, v) ∷ m) = ground (
  arith,
  lookup-delete key j m,
  text_eq→eq k key,
  text_eq→eq k j,
  text_eq→eq key j,
  text_eq_refl key,
)

module _ {ℓ κ μ} {Json : Type ℓ} {Key : Type κ} {File : Type μ} (f : Formats Json Key File)
    (laws : Laws f) where
  -- The definition as it is written, with secrets in it.
  covered : Key → List (Text × Json) → Json → List (Text × Json)
  covered key m secrets =
      delete (text "secrets")
        (store (text "secrets-encrypted") (f.string (f.encrypt key (f.dumps secrets))) m)

  lookup-covered :
      (key : Key) (m : List (Text × Json)) (secrets : Json) (j : Text)
      → lookup j (covered key m secrets) ≡ (
          if text_eq (text "secrets") j
          then none
          else if text_eq (text "secrets-encrypted") j
          then some (f.string (f.encrypt key (f.dumps secrets)))
          else lookup j m)
  unfolding covered
  lookup-covered key m secrets j =
      rw
        (
          lookup-delete (text "secrets") j
              (store (text "secrets-encrypted") (f.string (f.encrypt key (f.dumps secrets))) m),
          lookup-store (text "secrets-encrypted") j (f.string (f.encrypt key (f.dumps secrets))) m,
        )
        refl

  decrypted-string :
      (key : Key) (secrets : Json)
      → decrypted f key (f.as_string (f.string (f.encrypt key (f.dumps secrets)))) ≡ some secrets
  unfolding decrypted
  decrypted-string key secrets =
      rw
        (
          laws.as_string-string (f.encrypt key (f.dumps secrets)),
          decrypted,
          laws.decrypt-encrypt key (f.dumps secrets),
          laws.loads-dumps secrets,
        )
        refl

  -- The definition as it is read again.
  uncovered : Key → List (Text × Json) → Json → List (Text × Json)
  uncovered key m secrets = delete (text "secrets-encrypted") (store (text "secrets") secrets m)

  shown-covered :
      (key : Key) (m : List (Text × Json)) (secrets : Json)
      → after_load f key (some (covered key m secrets))
        ≡ some (uncovered key (covered key m secrets) secrets)
  unfolding after_load shown uncovered text_eq
  shown-covered key m secrets =
      rw
        (
          lookup-covered key m secrets (text "secrets-encrypted"),
          laws.truth-encrypt key (f.dumps secrets),
          decrypted-string key secrets,
        )
        refl

  lookup-uncovered :
      (key : Key) (m : List (Text × Json)) (secrets : Json) (j : Text)
      → lookup (text "secrets") m ≡ some secrets
      → lookup (text "secrets-encrypted") m ≡ none
      → lookup j (uncovered key (covered key m secrets) secrets) ≡ lookup j m
  unfolding uncovered
  lookup-uncovered key m secrets j h n =
      let cov = covered key m secrets in
      let one = lookup-delete (text "secrets-encrypted") j (store (text "secrets") secrets cov) in
      let two = lookup-store (text "secrets") j secrets cov in
      let three = lookup-covered key m secrets j in
      let same = λ (k : Text) (e : text_eq k j ≡ true). ap (λ t. lookup t m) (text_eq→eq k j e) in
      elim (Bool-cases (text_eq (text "secrets-encrypted") j)) [
        | inl e ↦ one ∙ rw e (sym n ∙ same (text "secrets-encrypted") e)
        | inr e ↦ elim (Bool-cases (text_eq (text "secrets") j)) [
          | inl d ↦ one ∙ rw (e, two, d) (sym h ∙ same (text "secrets") d)
          | inr d ↦ one ∙ rw (e, two, d, three, d, e) refl
        ]
      ]

  -- What is read where the storage has a definition.
  get_run_definition-dumps_all :
      (key : Key) (m : List (Text × Json)) (t : File)
      → t ≡ f.dumps_all m
      → get_run_definition f key t ≡ after_load f key (some m)
  unfolding get_run_definition
  get_run_definition-dumps_all key m t h =
      ap (λ o. after_load f key o) (ap f.loads_all h ∙ laws.loads_all-dumps_all m)

  plain_shown :
      (key : Key) (m : List (Text × Json))
      → lookup (text "secrets-encrypted") m ≡ none
      → after_load f key (some m) ≡ some m
  unfolding after_load shown
  plain_shown key m n = ap (λ o. shown f key m o) n

  stored_plain :
      (key : Key) (m : List (Text × Json))
      → ((secrets : Json) → lookup (text "secrets") m ≡ some secrets → f.truth secrets ≡ false)
      → set_run_definition f key m ≡ f.dumps_all m
  unfolding set_run_definition hidden covered
  stored_plain key m h = elim (Option-cases (lookup (text "secrets") m)) [
    | inl e ↦ ap (λ o. f.dumps_all (hidden f key m o)) e
    | inr (secrets, e) ↦
        ap (λ o. f.dumps_all (hidden f key m o)) e
        ∙ ap (λ (b : Bool). f.dumps_all (if b then covered key m secrets else m)) (h secrets e)
  ]

  stored_covered :
      (key : Key) (m : List (Text × Json)) (secrets : Json)
      → lookup (text "secrets") m ≡ some secrets
      → f.truth secrets ≡ true
      → set_run_definition f key m ≡ f.dumps_all (covered key m secrets)
  unfolding set_run_definition hidden covered
  stored_covered key m secrets e t =
      ap (λ o. f.dumps_all (hidden f key m o)) e
      ∙ ap (λ (b : Bool). f.dumps_all (if b then covered key m secrets else m)) t

  -- What is stored has no secrets but empty ones.
  pub set_run_definition-secrets :
      (key : Key) (m : List (Text × Json)) (secrets : Json)
      → lookup (text "secrets") m ≡ some secrets
      → f.truth secrets ≡ true
      → (stored : List (Text × Json)) × (f.loads_all (set_run_definition f key m) ≡ some stored)
        × (lookup (text "secrets") stored ≡ none)
  unfolding text_eq
  set_run_definition-secrets key m secrets e t = (
    covered key m secrets,
    ap f.loads_all (stored_covered key m secrets e t)
        ∙ laws.loads_all-dumps_all (covered key m secrets),
    lookup-covered key m secrets (text "secrets"),
  )

  -- With formats and an encryption that give back what was put in: a definition without an entry of the
  -- name of the encrypted secrets, that is stored and read with the key of its run, has each of its
  -- entries again, also its secrets.
  pub get_run_definition-set_run_definition :
      (key : Key) (m : List (Text × Json))
      → lookup (text "secrets-encrypted") m ≡ none
      → (m' : List (Text × Json)) × (get_run_definition f key (set_run_definition f key m)
          ≡ some m')
        × ((j : Text) → lookup j m' ≡ lookup j m)
  get_run_definition-set_run_definition key m n =
      let plain =
        λ (h : (secrets : Json)
            → lookup (text "secrets") m ≡ some secrets
            → f.truth secrets ≡ false).
          get_run_definition-dumps_all key m (set_run_definition f key m) (stored_plain key m h)
          ∙ plain_shown key m n in
      elim (Option-cases (lookup (text "secrets") m)) [
        | inl e ↦ (m, plain (λ s h. absurd (cc (sym e ∙ h))), λ j. refl)
        | inr (secrets, e) ↦ elim (Bool-cases (f.truth secrets)) [
          | inr z ↦ (m, plain (λ s h. cc (h, e, z)), λ j. refl)
          | inl z ↦ (
            uncovered key (covered key m secrets) secrets,
            get_run_definition-dumps_all key (covered key m secrets) (set_run_definition f key m)
                  (stored_covered key m secrets e z)
                ∙ shown-covered key m secrets,
            λ j. lookup-uncovered key m secrets j e n,
          )
        ]
      ]
