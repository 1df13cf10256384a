-- ===== src/ProjectApi/SecretNames.antt =====
-- The names and values that `ProjectTrigger.update_secrets` of jobserv/models.py lets through, described
-- apart from the code.
use jobserv.Prelude.{
  ℕ, ◌≤◌, ◌≡◌, ◌≢◌, ◌⊎◌, refl, ap, inl, inr, true, List, [], ◌∷◌, ◌++◌, All, Text, arith,
  Bool-cases,
}
use jobserv.ProjectApi.{Json, null, string, list, other}
use jobserv.ProjectApi.Triggers.{
  secret_char, secret_chars, valid_secret_name, is_string, update_secrets,
}

-- A letter, a digit, `_`, `-` or `.`.
abbrev pub IsNameChar : ℕ → Type 0
IsNameChar c =
    ((97 ≤ c) × (c ≤ 122))
    ⊎ ((65 ≤ c) × (c ≤ 90))
    ⊎ ((48 ≤ c) × (c ≤ 57))
    ⊎ (c ≡ 95)
    ⊎ (c ≡ 45)
    ⊎ (c ≡ 46)

-- One such character or more and, as `$` in the pattern allows, a line break at the end.
abbrev pub IsName : Text → Type 0
IsName k = (w : Text) × (w ≢ []) × All IsNameChar w × ((k ≡ w) ⊎ (k ≡ w ++ 10 ∷ []))

-- A name that is allowed, and a text.
abbrev pub IsSecret : Text × Json → Type 0
IsSecret e = IsName e.0 × (v : Text) × (e.1 ≡ string v)

secret_char-IsNameChar : (c : ℕ) → secret_char c ≡ true → IsNameChar c
unfolding secret_char
secret_char-IsNameChar c h = ground (arith, h)

after_char :
    (c : ℕ) (t w : Text)
    → (t ≡ w) ⊎ (t ≡ w ++ 10 ∷ [])
    → (c ∷ t ≡ c ∷ w) ⊎ (c ∷ t ≡ c ∷ w ++ 10 ∷ [])
after_char c t w (inl s) = inl (ap (λ (l : Text). c ∷ l) s)
after_char c t w (inr s) = inr (ap (λ (l : Text). c ∷ l) s)

secret_chars-IsName :
    (c : ℕ) (l : Text) → secret_char c ≡ true → secret_chars l ≡ true → IsName (c ∷ l)
unfolding secret_chars
secret_chars-IsName c [] k h = (c ∷ [], (λ e. cc e), (secret_char-IsNameChar c k, tt), inl refl)
secret_chars-IsName c (d ∷ []) k h = elim (Bool-cases (secret_char d)) [
  | inl e ↦ (
    c ∷ d ∷ [],
    λ q. cc q,
    (secret_char-IsNameChar c k, (secret_char-IsNameChar d e, tt)),
    inl refl,
  )
  | inr e ↦
      let break : d ≡ 10 = ground (arith, h, e) in
      (c ∷ [], (λ q. cc q), (secret_char-IsNameChar c k, tt), inr (ap (λ x. c ∷ x ∷ []) break))
]
secret_chars-IsName c (d ∷ e ∷ l) k h =
    let (w, n, good, same) =
      secret_chars-IsName d (e ∷ l) (ground (arith, h)) (ground (arith, h)) in
    (c ∷ w, λ q. cc q, (secret_char-IsNameChar c k, good), after_char c (d ∷ e ∷ l) w same)

valid_secret_name-IsName : (k : Text) → valid_secret_name k ≡ true → IsName k
unfolding valid_secret_name
valid_secret_name-IsName [] h = absurd (cc h)
valid_secret_name-IsName (c ∷ l) h = secret_chars-IsName c l (ground (arith, h)) (ground (arith, h))

is_string-string : (v : Json) → is_string v ≡ true → (t : Text) × (v ≡ string t)
unfolding is_string
is_string-string (string t) h = (t, refl)
is_string-string null h = absurd (cc h)
is_string-string (list l) h = absurd (cc h)
is_string-string (other b) h = absurd (cc h)

pub update_secrets-IsSecret :
    (secrets : List (Text × Json)) → update_secrets secrets ≡ true → All IsSecret secrets
unfolding update_secrets
update_secrets-IsSecret [] h = tt
update_secrets-IsSecret ((k, v) ∷ secrets) h = (
  (
    valid_secret_name-IsName k (ground (arith, h)),
    (is_string-string v (ground (arith, h))).0,
    (is_string-string v (ground (arith, h))).1,
  ),
  update_secrets-IsSecret secrets (ground (arith, h)),
)
