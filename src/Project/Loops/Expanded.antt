-- ===== src/Project/Loops/Expanded.antt =====
-- The expansion in place is the replacement of each run by its copies.
use jobserv.Prelude.{
  ℕ, zero, suc, ◌+◌, ◌≤◌, ◌<◌, ◌≡◌, refl, sym, ap, subst, ◌∙◌, ◌≢◌, inl, inr, Bool, true, false,
  Option, none, some, List, [], ◌∷◌, ◌++◌, map, take, drop, length, All, All-append, All-imp, Text,
  text, text_eq, format, arith, Bool-cases, if◌then◌else◌,
}
use mathlib.Core.List.{append_assoc}
use jobserv.Project.Loops.{
  Loop, LoopRun, RunTrigger, product, name_triggers, set_value, set_values, copy_run, both,
  of_formatted, join, copy_as, add_copy, copies_of, loops, copies, index, remove, replace_run,
  with_copies, expand_at, expand_from, weight, weights, expand_runs,
}

module _ {A : Type 0} where
  -- The runs, each replaced by its copies where it has loops.
  expand_one : LoopRun A → Option (List (LoopRun A))
  expand_one r = if loops r then copies r else some (r ∷ [])

  join_runs : Option (List (LoopRun A)) → Option (List (LoopRun A)) → Option (List (LoopRun A))
  join_runs none rs = none
  join_runs (some l) none = none
  join_runs (some l) (some m) = some (l ++ m)

  pub expand_each : List (LoopRun A) → Option (List (LoopRun A))
  unfolding expand_one join_runs
  expand_each [] = some []
  expand_each (r ∷ rs) = join_runs (expand_one r) (expand_each rs)

  abbrev LoopFree : List (LoopRun A) → Type 0
  LoopFree = All (λ r. loops r ≡ false)

  set_value-loops : (name val : Text) (r : LoopRun A) → loops (set_value name val r) ≡ loops r
  unfolding set_value loops
  set_value-loops name val r = elim (Bool-cases (text_eq name (text "host-tag"))) [
    | inl e ↦ rw e refl
    | inr e ↦ rw e refl
  ]

  set_values-loops :
      (ls : List Loop) (vals : List Text) (r : LoopRun A) → loops (set_values ls vals r) ≡ loops r
  unfolding set_values
  set_values-loops [] vals r = refl
  set_values-loops (l ∷ ls) [] r = refl
  set_values-loops (l ∷ ls) (val ∷ vals) r =
      set_values-loops ls vals (set_value l.param val r) ∙ set_value-loops l.param val r

  copy_as-LoopFree :
      (run r : LoopRun A) (combo : List Text) (o : Option (Text × List RunTrigger))
      → copy_as run combo o ≡ some r
      → loops r ≡ false
  unfolding copy_as loops
  copy_as-LoopFree run r combo none h = absurd (cc h)
  copy_as-LoopFree run r combo (some (name, triggers)) h =
      let copy = record run { name = name; loop_on = []; triggers = triggers } in
      let same : set_values run.loop_on combo copy ≡ r = cc h in
      ap loops (sym same) ∙ set_values-loops run.loop_on combo copy

  -- What the copies of a run are.
  Copied : List (List Text) → List (LoopRun A) → Type 0
  Copied combos rs = LoopFree rs × (length rs ≡ length combos)

  add_copy-Copied :
      (combo : List Text) (combos : List (List Text)) (o : Option (LoopRun A))
      (p : Option (List (LoopRun A))) (rs : List (LoopRun A))
      → ((r : LoopRun A) → o ≡ some r → loops r ≡ false)
      → ((l : List (LoopRun A)) → p ≡ some l → Copied combos l)
      → add_copy o p ≡ some rs
      → Copied (combo ∷ combos) rs
  unfolding add_copy Copied
  add_copy-Copied combo combos none p rs f g h = absurd (cc h)
  add_copy-Copied combo combos (some r) none rs f g h = absurd (cc h)
  add_copy-Copied combo combos (some r) (some l) rs f g h =
      let same : r ∷ l ≡ rs = cc h in
      let (free, count) = g l refl in
      subst (Copied (combo ∷ combos)) same ((f r refl, free), ap suc count)

  copies_of-Copied :
      (run : LoopRun A) (combos : List (List Text)) (rs : List (LoopRun A))
      → copies_of run combos ≡ some rs
      → Copied combos rs
  unfolding copies_of Copied copy_run
  copies_of-Copied run [] rs h = let same : [] ≡ rs = cc h in subst (Copied []) same (tt, refl)
  copies_of-Copied run (combo ∷ combos) rs h =
      add_copy-Copied combo combos (copy_run run combo) (copies_of run combos) rs
        (λ r e.
          copy_as-LoopFree run r combo
            (both (of_formatted (format ((text "loop", join combo) ∷ []) run.name))
              (name_triggers (join combo) run.triggers))
            e)
        (λ l e. copies_of-Copied run combos l e) h

  take-append : (xs ys : List (LoopRun A)) → take (length xs) (xs ++ ys) ≡ xs
  take-append [] ys = refl
  take-append (x ∷ xs) ys = ap (◌∷◌ x) (take-append xs ys)

  drop-append : (xs ys : List (LoopRun A)) → drop (length xs) (xs ++ ys) ≡ ys
  drop-append [] ys = refl
  drop-append (x ∷ xs) ys = drop-append xs ys

-- What the walk needs of the test for equal dictionaries: a run is equal to itself, and of equal runs
-- either both have loops or none has.
pub record IsEquality {A : Type 0} (same : LoopRun A → LoopRun A → Bool) : Type 0 where
  pub same_refl : (r : LoopRun A) → same r r ≡ true
  pub same-loops : (r s : LoopRun A) → same r s ≡ true → loops r ≡ loops s

module _ {A : Type 0} (same : LoopRun A → LoopRun A → Bool) (laws : IsEquality same) where
  -- A run with loops is not one of those without.
  same-LoopFree : (r run : LoopRun A) → loops r ≡ false → loops run ≡ true → same r run ≡ false
  same-LoopFree r run f t = elim (Bool-cases (same r run)) [
    | inl e ↦ absurd (cc (f, t, laws.same-loops r run e))
    | inr e ↦ e
  ]

  index-append :
      (run : LoopRun A) (done rest : List (LoopRun A))
      → LoopFree done
      → loops run ≡ true
      → index same run (done ++ run ∷ rest) ≡ length done
  unfolding index
  index-append run [] rest f t = rw (laws.same_refl run) refl
  index-append run (r ∷ done) rest f t =
      rw (same-LoopFree r run f.0 t) (ap suc (index-append run done rest f.1 t))

  remove-append :
      (run : LoopRun A) (done rest : List (LoopRun A))
      → LoopFree done
      → loops run ≡ true
      → remove same run (done ++ run ∷ rest) ≡ done ++ rest
  unfolding remove
  remove-append run [] rest f t = rw (laws.same_refl run) refl
  remove-append run (r ∷ done) rest f t =
      rw (same-LoopFree r run f.0 t) (ap (◌∷◌ r) (remove-append run done rest f.1 t))

  replace_run-append :
      (run : LoopRun A) (done copied rest : List (LoopRun A))
      → LoopFree done
      → LoopFree copied
      → loops run ≡ true
      → replace_run same run copied (done ++ run ∷ rest) ≡ done ++ copied ++ rest
  unfolding replace_run
  replace_run-append run done copied rest f g t =
      rw
        (
          index-append run done rest f t,
          take-append done (run ∷ rest),
          drop-append done (run ∷ rest),
        )
        (remove-append run (done ++ copied) rest (All-append (λ r. loops r ≡ false) done copied f g)
          t)

  -- The runs that were passed, before what the others become.
  prefixed : List (LoopRun A) → Option (List (LoopRun A)) → Option (List (LoopRun A))
  prefixed done none = none
  prefixed done (some l) = some (done ++ l)

  prefixed-append :
      (xs ys : List (LoopRun A)) (o : Option (List (LoopRun A)))
      → prefixed (xs ++ ys) o ≡ prefixed xs (prefixed ys o)
  unfolding prefixed
  prefixed-append xs ys none = refl
  prefixed-append xs ys (some l) = ap some (append_assoc xs ys l)

  join_runs-some :
      (l : List (LoopRun A)) (o : Option (List (LoopRun A))) → join_runs (some l) o ≡ prefixed l o
  unfolding join_runs prefixed
  join_runs-some l none = refl
  join_runs-some l (some m) = refl

  prefixed_nil : (o : Option (List (LoopRun A))) → o ≡ prefixed [] o
  unfolding prefixed
  prefixed_nil none = refl
  prefixed_nil (some l) = refl

  expand_each-append :
      (xs ys : List (LoopRun A))
      → LoopFree xs
      → expand_each (xs ++ ys) ≡ prefixed xs (expand_each ys)
  unfolding expand_each expand_one
  expand_each-append [] ys h = prefixed_nil (expand_each ys)
  expand_each-append (x ∷ xs) ys h =
      rw (h.0, join_runs-some (x ∷ []) (expand_each (xs ++ ys)), expand_each-append xs ys h.1)
        (sym (prefixed-append (x ∷ []) xs (expand_each ys)))

  weights-append :
      (xs ys : List (LoopRun A)) → LoopFree xs → weights (xs ++ ys) ≡ length xs + weights ys
  unfolding weights weight
  weights-append [] ys h = omega arith
  weights-append (x ∷ xs) ys h = rw h.0 (omega (arith, weights-append xs ys h.1))

  -- Every loop has values.
  abbrev pub HasValues : List (LoopRun A) → Type 0
  HasValues = All (λ r. 0 < length (product (map (λ l. l.values) r.loop_on)))

  -- One step of the walk.
  expand_from-suc :
      (n i : ℕ) (runs later : List (LoopRun A)) (run : LoopRun A)
      → drop i runs ≡ run ∷ later
      → expand_from same (suc n) i runs ≡ (
          if loops run
          then with_copies same
              (λ changed. expand_from same n (suc i) changed)
              runs
              run
              (copies run)
          else expand_from same n (suc i) runs)
  unfolding expand_from expand_at
  expand_from-suc n i runs later run e =
      ap (expand_at same (λ changed. expand_from same n (suc i) changed) runs) e

  length-snoc :
      (done : List (LoopRun A)) (x : LoopRun A) → length (done ++ x ∷ []) ≡ suc (length done)
  length-snoc [] x = refl
  length-snoc (y ∷ done) x = ap suc (length-snoc done x)

  snoc : (done l : List (LoopRun A)) (x : LoopRun A) → done ++ x ∷ l ≡ done ++ x ∷ [] ++ l
  snoc done l x = sym (append_assoc done (x ∷ []) l)

  -- The walk, with the runs that it has passed and those that it has not.
  Walks : ℕ → List (LoopRun A) → List (LoopRun A) → Type 0
  Walks n done todo =
      expand_from same n (length done) (done ++ todo) ≡ prefixed done (expand_each todo)

  -- What the rest of the walk does after one more run is passed.
  passed_one :
      (n : ℕ) (done l : List (LoopRun A)) (x : LoopRun A)
      → Walks n (done ++ x ∷ []) l
      → expand_from same n (suc (length done)) (done ++ x ∷ l)
        ≡ prefixed done (prefixed (x ∷ []) (expand_each l))
  unfolding Walks
  passed_one n done l x h =
      ap (expand_from same n (suc (length done))) (snoc done l x)
      ∙ ap (λ i. expand_from same n i (done ++ x ∷ [] ++ l)) (sym (length-snoc done x))
      ∙ h
      ∙ prefixed-append done (x ∷ []) (expand_each l)

  -- The rest of the walk after the copies of a run take its place.
  with_copies-prefixed :
      (n : ℕ) (done rest : List (LoopRun A)) (run : LoopRun A) (o : Option (List (LoopRun A)))
      → LoopFree done
      → loops run ≡ true
      → o ≢ some []
      → ((x : LoopRun A) (l : List (LoopRun A))
          → o ≡ some (x ∷ l)
          → LoopFree (x ∷ l) × Walks n (done ++ x ∷ []) (l ++ rest))
      → with_copies same
          (λ changed. expand_from same n (suc (length done)) changed)
          (done ++ run ∷ rest)
          run
          o
        ≡ prefixed done (join_runs o (expand_each rest))
  unfolding with_copies prefixed join_runs
  with_copies-prefixed n done rest run none f t ne ih = refl
  with_copies-prefixed n done rest run (some []) f t ne ih = absurd (ne refl)
  with_copies-prefixed n done rest run (some (x ∷ l)) f t ne ih =
      let (free, walks) = ih x l refl in
      ap (expand_from same n (suc (length done)))
        (replace_run-append run done (x ∷ l) rest f free t ∙ append_assoc done (x ∷ l) rest)
      ∙ passed_one n done (l ++ rest) x walks
      ∙ ap (λ o. prefixed done (prefixed (x ∷ []) o)) (expand_each-append l rest free.1)
      ∙ ap (prefixed done) (
          sym (prefixed-append (x ∷ []) l (expand_each rest))
          ∙ sym (join_runs-some (x ∷ l) (expand_each rest)))

  -- The copies of a run that has loops with values.
  copies-Copied :
      (run : LoopRun A) (rs : List (LoopRun A))
      → copies run ≡ some rs
      → Copied (product (map (λ l. l.values) run.loop_on)) rs
  unfolding copies
  copies-Copied run rs h = copies_of-Copied run (product (map (λ l. l.values) run.loop_on)) rs h

  weight-loops :
      (run : LoopRun A)
      → loops run ≡ true
      → weight run ≡ suc (length (product (map (λ l. l.values) run.loop_on)))
  unfolding weight
  weight-loops run t = rw t refl

  weight-plain : (run : LoopRun A) → loops run ≡ false → weight run ≡ 1
  unfolding weight
  weight-plain run t = rw t refl

  weight-pos : (run : LoopRun A) → 0 < weight run
  weight-pos run = elim (Bool-cases (loops run)) [
    | inl t ↦ omega (arith, weight-loops run t)
    | inr p ↦ omega (arith, weight-plain run p)
  ]

  loop_free_values :
      (ls : List Loop)
      → (elim ls as (λ x. Bool) [ [] ↦ false | l ∷ more ↦ true ]) ≡ false
      → 0 < length (product (map (λ l. l.values) ls))
  unfolding product
  loop_free_values [] h = omega arith
  loop_free_values (l ∷ ls) h = absurd (cc h)

  LoopFree-HasValues : (rs : List (LoopRun A)) → LoopFree rs → HasValues rs
  unfolding loops
  LoopFree-HasValues rs h =
      All-imp (λ r. loops r ≡ false) (λ r. 0 < length (product (map (λ l. l.values) r.loop_on))) rs
        (λ r e. loop_free_values r.loop_on e) h

  no_copies : (run : LoopRun A) → HasValues (run ∷ []) → copies run ≢ some []
  unfolding Copied
  no_copies run v h = omega (arith, v.0, (copies-Copied run [] h).1)

  expand_from-Walks :
      (n : ℕ) (done todo : List (LoopRun A))
      → LoopFree done
      → HasValues todo
      → weights todo ≤ n
      → Walks n done todo
  unfolding Walks prefixed expand_each expand_one weights Copied expand_from expand_at
  expand_from-Walks zero done [] f v w = refl
  expand_from-Walks (suc n) done [] f v w =
      ap (expand_at same (λ changed. expand_from same n (suc (length done)) changed) (done ++ []))
        (drop-append done [])
  expand_from-Walks zero done (run ∷ rest) f v w = absurd (omega (arith, w, weight-pos run))
  expand_from-Walks (suc n) done (run ∷ rest) f v w =
      expand_from-suc n (length done) (done ++ run ∷ rest) rest run (drop-append done (run ∷ rest))
      ∙ elim (Bool-cases (loops run)) [
        | inr p ↦
            rw (p, join_runs-some (run ∷ []) (expand_each rest))
              (passed_one n done rest run (
                expand_from-Walks n (done ++ run ∷ []) rest
                  (All-append (λ r. loops r ≡ false) done (run ∷ []) f (p, tt)) v.1
                  (omega (arith, w, weight-plain run p))))
        | inl t ↦ rw t (
            with_copies-prefixed n done rest run (copies run) f t (no_copies run (v.0, tt))
              (λ x l e.
                let (free, count) = copies-Copied run (x ∷ l) e in
                (
                  free,
                  expand_from-Walks n (done ++ x ∷ []) (l ++ rest)
                      (All-append (λ r. loops r ≡ false) done (x ∷ []) f (free.0, tt))
                      (All-append (λ r. 0 < length (product (map (λ l. l.values) r.loop_on))) l rest
                        (LoopFree-HasValues l free.1) v.1)
                      (omega (arith, w, weight-loops run t, weights-append l rest free.1, count)),
                )))
      ]

-- Where every loop has values, and equal runs agree in whether they have loops: the expansion, which changes the
-- list while it goes over it, replaces each run that has loops by its copies, in their order and in
-- its place, and keeps the other runs; it fails just when a copy cannot be made.
pub expand_runs-each :
    {A : Type 0} (same : LoopRun A → LoopRun A → Bool) (runs : List (LoopRun A))
    → IsEquality same
    → All (λ r. 0 < length (product (map (λ l. l.values) r.loop_on))) runs
    → expand_runs same runs ≡ expand_each runs
unfolding expand_runs Walks
expand_runs-each same runs laws v =
    expand_from-Walks same laws (weights runs) [] runs tt v (omega arith)
    ∙ sym (prefixed_nil same laws (expand_each runs))
