-- ===== src/Jsend/Pages.antt =====
-- The pages of a listing hold every row once, and the links lead from the first page to the last.
use mathlib.Core.List.{map-append}
use Prim.Native.Nat.add
use native.Mathlib.Nat.{zero-add, zero-mul, suc-mul}
use jobserv.Prelude.{
  ℕ, zero, suc, ◌+◌, ◌*◌, ◌≤◌, ◌<◌, ◌≡◌, refl, sym, ap, ◌∙◌, ◌↔◌, ◌≢◌, none, some, List, [], ◌∷◌,
  ◌++◌, map, arith, ltb, if◌then◌else◌, take, drop, length,
}
use jobserv.Jsend.{page_of, ceil_div, status_str, fail}

-- The reply says `fail` for no status code.
pub status_str-ne-fail : (code : ℕ) → status_str code ≢ fail
unfolding status_str
status_str-ne-fail code h = ground arith

ceil_div-le : (n t l : ℕ) → 0 < l → (n < ceil_div t l) ↔ (n * l < t)
unfolding ceil_div
ceil_div-le n t l h = (λ p. grind arith, λ p. grind arith)

ceil_div-covers : (t l : ℕ) → 0 < l → t ≤ ceil_div t l * l
unfolding ceil_div
ceil_div-covers t l h = grind arith

module _ {A : Type 0} where
  take-nil : (n : ℕ) → take {A = A} n [] ≡ []
  take-nil zero = refl
  take-nil (suc n) = refl

  drop-nil : (n : ℕ) → drop {A = A} n [] ≡ []
  drop-nil zero = refl
  drop-nil (suc n) = refl

  take-add : (a b : ℕ) (xs : List A) → take (a + b) xs ≡ take a xs ++ take b (drop a xs)
  take-add zero b xs = rw zero-add
  take-add (suc a) b [] = simp (add.suc, take-nil)
  take-add (suc a) b (x ∷ xs) = simp add.suc (ap (◌∷◌ x) (take-add a b xs))

  take_all : (n : ℕ) (xs : List A) → length xs ≤ n → take n xs ≡ xs
  take_all zero [] h = refl
  take_all zero (x ∷ xs) h = absurd (omega arith)
  take_all (suc n) [] h = refl
  take_all (suc n) (x ∷ xs) h = ap (◌∷◌ x) (take_all n xs (omega arith))

module _ {A B : Type 0} (limit : ℕ) (query : List A) (cb_func : A → B) where
  -- The items of the first `n` pages.
  abbrev pub first_pages : ℕ → List B
  first_pages zero = []
  first_pages (suc n) = first_pages n ++ (page_of limit n query cb_func).items

  first_pages-take : (n : ℕ) → first_pages n ≡ map cb_func (take (n * limit) query)
  unfolding page_of
  first_pages-take zero = rw (zero-mul limit)
  first_pages-take (suc n) =
      rw (first_pages-take n, suc-mul n limit, take-add (n * limit) limit query)
        (sym (map-append cb_func (take (n * limit) query) (take limit (drop (n * limit) query))))

  -- The pages from 0 up to `pages` hold every row, in order, once.
  pub pages_cover :
      0 < limit → first_pages (page_of limit 0 query cb_func).pages ≡ map cb_func query
  unfolding page_of
  pages_cover h =
      let n = ceil_div (length query) limit in
      first_pages-take n
      ∙ ap (map cb_func) (take_all (n * limit) query (ceil_div-covers (length query) limit h))

  -- A page links to the one after it exactly when rows are left behind it.
  pub next-link :
      (page : ℕ)
      → 0 < limit
      → (page_of limit page query cb_func).next
        ≡ (if ltb ((page + 1) * limit) (length query) then some (page + 1, limit) else none)
  unfolding page_of
  next-link page h = ground (arith, ceil_div-le (page + 1) (length query) limit h)
