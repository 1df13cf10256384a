-- ===== src/Models/Keys.antt =====
-- `Run.derive_fernet_token` of jobserv/models.py: the key with which the secrets of a run are
-- encrypted. The base64 of the key is left out, so keys are lists of bytes.
use mathlib.Core.List.{append_assoc}
use jobserv.Prelude.{
  ℕ, zero, suc, ◌+◌, ◌*◌, ◌/◌, ◌%◌, ◌<◌, ◌≤◌, ◌≡◌, refl, sym, ap, subst, ◌∙◌, inl, inr, Option,
  none, some, List, [], ◌∷◌, ◌++◌, ltb, take, drop, length, length-append, length-drop, arith,
  Bool-cases, if◌then◌else◌,
}

-- `n.to_bytes(4, "little")`; `none` is an OverflowError.
unfoldable pub to_bytes : ℕ → Option (List ℕ)
to_bytes n =
    if ltb n 4294967296
    then some (n % 256 ∷ n / 256 % 256 ∷ n / 65536 % 256 ∷ n / 16777216 % 256 ∷ [])
    else none

-- `keyarray[pos : pos + 4] = …`
unfoldable pub set_slice : ℕ → List ℕ → List ℕ → List ℕ
set_slice pos bytes key = take pos key ++ bytes ++ drop (pos + 4) key

put_bytes : ℕ → List ℕ → Option (List ℕ) → Option (List ℕ)
unfolding set_slice
put_bytes pos key none = none
put_bytes pos key (some bytes) = some (set_slice pos bytes key)

-- `derive_fernet_token`, for the bytes of the server's key and the key of the run's row.
unfoldable pub derive_fernet_token : List ℕ → ℕ → Option (List ℕ)
unfolding to_bytes put_bytes
derive_fernet_token key id = put_bytes (id % 16) key (to_bytes id)

-- Four bytes are the number again.
from_bytes : List ℕ → ℕ
from_bytes [] = 0
from_bytes (b ∷ bs) = b + 256 * from_bytes bs

from_bytes-to_bytes :
    (n : ℕ)
    → n < 4294967296
    → from_bytes (n % 256 ∷ n / 256 % 256 ∷ n / 65536 % 256 ∷ n / 16777216 % 256 ∷ []) ≡ n
unfolding from_bytes
from_bytes-to_bytes n h = omega (arith, h)

length-take : (n : ℕ) (xs : List ℕ) → n ≤ length xs → length (take n xs) ≡ n
length-take zero xs h = refl
length-take (suc n) [] h = absurd (omega (arith, h))
length-take (suc n) (x ∷ xs) h = omega (arith, length-take n xs (omega (arith, h)))

drop-append : (xs ys : List ℕ) → drop (length xs) (xs ++ ys) ≡ ys
drop-append [] ys = refl
drop-append (x ∷ xs) ys = drop-append xs ys

take-append : (xs ys : List ℕ) → take (length xs) (xs ++ ys) ≡ xs
take-append [] ys = refl
take-append (x ∷ xs) ys = ap (◌∷◌ x) (take-append xs ys)

slice_parts :
    (front bytes back : List ℕ)
    → take (length bytes) (drop (length front) (front ++ bytes ++ back)) ≡ bytes
slice_parts front bytes back =
    ap (take (length bytes))
      (ap (drop (length front)) (append_assoc front bytes back) ∙ drop-append front (bytes ++ back))
    ∙ take-append bytes back

-- The slice that was set.
slice-set_slice :
    (pos : ℕ) (bytes key : List ℕ)
    → pos ≤ length key
    → length bytes ≡ 4
    → take 4 (drop pos (set_slice pos bytes key)) ≡ bytes
unfolding set_slice
slice-set_slice pos bytes key h l =
    let parts = slice_parts (take pos key) bytes (drop (pos + 4) key) in
    let whole = take pos key ++ bytes ++ drop (pos + 4) key in
    subst (λ n. take n (drop pos whole) ≡ bytes) l
      (subst (λ p. take (length bytes) (drop p whole) ≡ bytes) (length-take pos key h) parts)

length-set_slice :
    (pos : ℕ) (bytes key : List ℕ)
    → pos + 4 ≤ length key
    → length bytes ≡ 4
    → length (set_slice pos bytes key) ≡ length key
unfolding set_slice
length-set_slice pos bytes key h l =
    let front = take pos key in
    let back = drop (pos + 4) key in
    omega (
      arith,
      h,
      l,
      length-append (front ++ bytes) back,
      length-append front bytes,
      length-take pos key (omega (arith, h)),
      length-drop (pos + 4) key,
    )

-- What the token of a run is.
record Token (key : List ℕ) (id : ℕ) (t : List ℕ) : Type 0 where
  pub small : id < 4294967296
  pub long : length t ≡ length key
  pub part : from_bytes (take 4 (drop (id % 16) t)) ≡ id

some-inj : {A : Type 0} (a b : A) → some a ≡ some b → a ≡ b
some-inj a b e = cc e

derive_fernet_token-Token :
    (key : List ℕ) (id : ℕ) (t : List ℕ)
    → 20 ≤ length key
    → derive_fernet_token key id ≡ some t
    → Token key id t
unfolding derive_fernet_token to_bytes put_bytes
derive_fernet_token-Token key id t k = elim (Bool-cases (ltb id 4294967296)) [
  | inr e ↦ rw e (λ h. absurd (cc h))
  | inl e ↦
      let bytes = id % 256 ∷ id / 256 % 256 ∷ id / 65536 % 256 ∷ id / 16777216 % 256 ∷ [] in
      let small : id < 4294967296 = ground (arith, e) in
      rw e (λ h.
        let same : set_slice (id % 16) bytes key ≡ t = some-inj _ t h in
        record {
          small = small;
          long =
              ap length (sym same) ∙ length-set_slice (id % 16) bytes key (omega (arith, k)) refl;
          part =
              ap (λ l. from_bytes (take 4 (drop (id % 16) l))) (sym same)
              ∙ ap from_bytes (slice-set_slice (id % 16) bytes key (omega (arith, k)) refl)
              ∙ from_bytes-to_bytes id small;
        })
]

-- Of a server's key that is long enough, each run has a key of the same length. Runs whose keys of the
-- database agree in the place for the bytes have different keys for their secrets.
pub derive_fernet_token-injective :
    (key : List ℕ) (m n : ℕ) (t : List ℕ)
    → 20 ≤ length key
    → m % 16 ≡ n % 16
    → derive_fernet_token key m ≡ some t
    → derive_fernet_token key n ≡ some t
    → (m ≡ n) × (length t ≡ length key)
derive_fernet_token-injective key m n t k p a b =
    let x = derive_fernet_token-Token key m t k a in
    let y = derive_fernet_token-Token key n t k b in
    (sym x.part ∙ ap (λ i. from_bytes (take 4 (drop i t))) p ∙ y.part, x.long)
