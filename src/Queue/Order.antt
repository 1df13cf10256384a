-- ===== src/Queue/Order.antt =====
-- The order of the candidates: what is running comes before what is queued.
use mathlib.Core.List.{Perm}
use mathlib.Core.List.Perm
use jobserv.Prelude.{◌≡◌, inl, inr, true, false, List, [], ◌∷◌, All, All-imp, arith, Bool-cases}
use jobserv.Queue.{Row, before, insert_row, order_rows}

insert_row-perm : (x : Row) (ys : List Row) → Perm (insert_row x ys) (x ∷ ys)
unfolding insert_row
insert_row-perm x [] = Perm.rfl
insert_row-perm x (y ∷ ys) = elim (Bool-cases (before y x)) [
  | inl e ↦ rw e (Perm.trans (Perm.cons y (insert_row-perm x ys)) (Perm.swap x y ys))
  | inr e ↦ rw e Perm.rfl
]

-- The query's order loses no row and makes none up.
pub order_rows-perm : (xs : List Row) → Perm (order_rows xs) xs
unfolding order_rows
order_rows-perm [] = Perm.rfl
order_rows-perm (x ∷ xs) =
    Perm.trans (insert_row-perm x (order_rows xs)) (Perm.cons x (order_rows-perm xs))

module _ (P : Row → Type 0) where
  insert_row-All : (x : Row) (ys : List Row) → P x → All P ys → All P (insert_row x ys)
  unfolding insert_row
  insert_row-All x [] h hs = (h, tt)
  insert_row-All x (y ∷ ys) h hs = elim (Bool-cases (before y x)) [
    | inl e ↦ rw e (hs.0, insert_row-All x ys h hs.1)
    | inr e ↦ rw e (h, hs)
  ]

  All-insert_row : (x : Row) (ys : List Row) → All P (insert_row x ys) → P x × All P ys
  unfolding insert_row
  All-insert_row x [] = λ h. h
  All-insert_row x (y ∷ ys) = elim (Bool-cases (before y x)) [
    | inl e ↦ rw e (λ h. let (hx, hs) = All-insert_row x ys h.1 in (hx, (h.0, hs)))
    | inr e ↦ rw e (λ h. h)
  ]

  -- What holds of all rows holds of all rows in the query's order.
  pub order_rows-All : (xs : List Row) → All P xs → All P (order_rows xs)
  unfolding order_rows
  order_rows-All [] h = tt
  order_rows-All (x ∷ xs) h = insert_row-All x (order_rows xs) h.0 (order_rows-All xs h.1)

  pub All-order_rows : (xs : List Row) → All P (order_rows xs) → All P xs
  unfolding order_rows
  All-order_rows [] h = tt
  All-order_rows (x ∷ xs) h =
      let (hx, hs) = All-insert_row x (order_rows xs) h in (hx, All-order_rows xs hs)

-- Each row is placed before or level with all behind it.
abbrev pub IsOrdered : List Row → Type 0
IsOrdered [] = Unit
IsOrdered (x ∷ xs) = All (λ y. before y x ≡ false) xs × IsOrdered xs

before-trans_not : (x y z : Row) → before y x ≡ false → before z y ≡ false → before z x ≡ false
unfolding before
before-trans_not x y z h k = ground arith

before_asym : (x y : Row) → before y x ≡ true → before x y ≡ false
unfolding before
before_asym x y h = ground arith

pub before_irrefl : (x : Row) → before x x ≡ false
unfolding before
before_irrefl x = ground arith

insert_row-IsOrdered : (x : Row) (ys : List Row) → IsOrdered ys → IsOrdered (insert_row x ys)
unfolding insert_row
insert_row-IsOrdered x [] h = (tt, tt)
insert_row-IsOrdered x (y ∷ ys) h = elim (Bool-cases (before y x)) [
  | inl e ↦ rw e (
    insert_row-All (λ z. before z y ≡ false) x ys (before_asym x y e) h.0,
    insert_row-IsOrdered x ys h.1,
  )
  | inr e ↦ rw e ((e, All-imp _ _ ys (λ z k. before-trans_not x y z e k) h.0), h)
]

-- The candidates come in the order that the query asks for.
pub order_rows-IsOrdered : (xs : List Row) → IsOrdered (order_rows xs)
unfolding order_rows
order_rows-IsOrdered [] = tt
order_rows-IsOrdered (x ∷ xs) = insert_row-IsOrdered x (order_rows xs) (order_rows-IsOrdered xs)
