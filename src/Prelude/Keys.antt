-- ===== src/Prelude/Keys.antt =====
-- Sets and dictionaries with number keys, as lists: Python's `d[k] = v`, `d.get(k)`,
-- `d.setdefault(k, v)` and `k in d`.
use Prim.Native.Nat.{ℕ}
use mathlib.Core.Path.{◌≡◌, refl}
use mathlib.Core.Bool.{Bool, false, ◌||◌}
use mathlib.Core.Option.{Option, none, some}
use mathlib.Core.List.{List, [], ◌∷◌}
use native.Mathlib.Omega.{arith}
use jobserv.Prelude.Tests.{◌==◌, if◌then◌else◌}

abbrev pub has : ℕ → List ℕ → Bool
has k [] = false
has k (j ∷ l) = j == k || has k l

module _ {ℓ} {V : Type ℓ} where
  abbrev pub get : ℕ → List (ℕ × V) → Option V
  get k [] = none
  get k ((j, v) ∷ m) = if j == k then some v else get k m

  abbrev pub put : ℕ → V → List (ℕ × V) → List (ℕ × V)
  put k v [] = (k, v) ∷ []
  put k v ((j, w) ∷ m) = if j == k then (k, v) ∷ m else (j, w) ∷ put k v m

  abbrev pub setdefault : ℕ → V → List (ℕ × V) → List (ℕ × V)
  setdefault k v [] = (k, v) ∷ []
  setdefault k v ((j, w) ∷ m) = if j == k then (j, w) ∷ m else (j, w) ∷ setdefault k v m

  pub get-put :
      (k j : ℕ) (v : V) (m : List (ℕ × V))
      → get j (put k v m) ≡ (if k == j then some v else get j m)
  get-put k j v [] = refl
  get-put k j v ((i, w) ∷ m) = ground (arith, get-put k j v m)

  -- What a key has after `setdefault`: what it had, or else the default.
  abbrev pub or_default : Bool → V → Option V → Option V
  or_default hit v (some w) = some w
  or_default hit v none = if hit then some v else none

  pub get-setdefault :
      (k j : ℕ) (v : V) (m : List (ℕ × V))
      → get j (setdefault k v m) ≡ or_default (k == j) v (get j m)
  get-setdefault k j v [] = ground arith
  get-setdefault k j v ((i, w) ∷ m) = ground (arith, get-setdefault k j v m)

-- No key twice.
abbrev pub Distinct : List ℕ → Type 0
Distinct [] = Unit
Distinct (k ∷ l) = (has k l ≡ false) × Distinct l
