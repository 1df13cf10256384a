-- ===== src/BuildApi/Latest.antt =====
-- `build_get_latest`: the newest build of a project that fits a request.
use jobserv.Prelude.{
  ℕ, ◌≤◌, ◌≡◌, sym, subst, Bool, true, false, ◌&&◌, ◌||◌, Option, none, some, List, [], ◌∷◌, All,
  Text, text_eq, ltb, arith, inl, inr, Option-cases, Bool-cases, if◌then◌else◌,
}
use jobserv.Status.{passed, promoted, is}
use jobserv.Models.{Build}

-- The arguments of the address; an empty one does not count.
pub record LatestArgs : Type 0 where
  pub promoted : Option Text
  pub all : Option Text
  pub trigger_name : Option Text

unfoldable pub is_given : Option Text → Bool
is_given none = false
is_given (some []) = false
is_given (some (c ∷ t)) = true

of_trigger : Option Text → Build → Bool
of_trigger none b = true
of_trigger (some []) b = true
of_trigger (some (c ∷ name)) b = text_eq b.trigger_name (c ∷ name)

-- The filters of the query, for the builds of the project.
unfoldable pub fits : LatestArgs → Build → Bool
unfolding is_given of_trigger
fits args b =
    (is_given args.all || is b.status (if is_given args.promoted then promoted else passed))
    && of_trigger args.trigger_name b

newer : Build → Option Build → Build
newer b none = b
newer b (some c) = if ltb b.id c.id then c else b

-- `build_get_latest`: the first by falling keys; `none` is a 404.
unfoldable pub build_get_latest : LatestArgs → List Build → Option Build
unfolding fits newer
build_get_latest args [] = none
build_get_latest args (b ∷ bs) =
    let rest = build_get_latest args bs in if fits args b then some (newer b rest) else rest

-- Where no build is found, none fits.
build_get_latest-none :
    (args : LatestArgs) (bs : List Build)
    → build_get_latest args bs ≡ none
    → All (λ c. fits args c ≡ false) bs
unfolding build_get_latest
build_get_latest-none args [] h = tt
build_get_latest-none args (b ∷ bs) h = elim (Bool-cases (fits args b)) [
  | inl e ↦ absurd (ground (arith, h, e))
  | inr e ↦ (e, build_get_latest-none args bs (ground (arith, h, e)))
]

-- No build that fits is newer.
abbrev pub Newest : LatestArgs → ℕ → List Build → Type 0
Newest args id bs = All (λ c. fits args c ≡ true → c.id ≤ id) bs

Newest-weaken :
    (args : LatestArgs) (m n : ℕ) (bs : List Build) → m ≤ n → Newest args m bs → Newest args n bs
Newest-weaken args m n [] h a = tt
Newest-weaken args m n (b ∷ bs) h a =
    ((λ f. omega (arith, h, a.0 f)), Newest-weaken args m n bs h a.1)

none-Newest :
    (args : LatestArgs) (n : ℕ) (bs : List Build)
    → All (λ c. fits args c ≡ false) bs
    → Newest args n bs
none-Newest args n [] h = tt
none-Newest args n (b ∷ bs) h = ((λ f. absurd (ground (arith, f, h.0))), none-Newest args n bs h.1)

at_build :
    {b c : Build} (args : LatestArgs) (x : Build) (bs : List Build)
    → b ≡ c
    → (fits args c ≡ true) × Newest args c.id (x ∷ bs)
    → (fits args b ≡ true) × Newest args b.id (x ∷ bs)
at_build args x bs same h =
    subst (λ y. (fits args y ≡ true) × Newest args y.id (x ∷ bs)) (sym same) h

-- The build that is found fits, and none that fits has a larger key.
pub build_get_latest-Newest :
    (args : LatestArgs) (bs : List Build) (b : Build)
    → build_get_latest args bs ≡ some b
    → (fits args b ≡ true) × Newest args b.id bs
unfolding build_get_latest
build_get_latest-Newest args [] b h = absurd (ground (arith, h))
build_get_latest-Newest args (x ∷ bs) b h = elim (Bool-cases (fits args x)) [
  | inr e ↦
      let (f, n) = build_get_latest-Newest args bs b (ground (arith, h, e)) in
      (f, ((λ k. absurd (ground (arith, k, e))), n))
  | inl e ↦ elim (Option-cases (build_get_latest args bs)) [
    | inl g ↦
        let same : b ≡ x = unfold newer in ground (arith, h, e, g) in
        at_build args x bs same
          (e, ((λ k. omega arith), none-Newest args x.id bs (build_get_latest-none args bs g)))
    | inr (c, g) ↦
        let (f, n) = build_get_latest-Newest args bs c g in
        elim (Bool-cases (ltb x.id c.id)) [
          | inl l ↦
              let same : b ≡ c = unfold newer in ground (arith, h, e, g, l) in
              at_build args x bs same (f, ((λ k. ground (arith, l)), n))
          | inr l ↦
              let same : b ≡ x = unfold newer in ground (arith, h, e, g, l) in
              at_build args x bs same
                (e, ((λ k. omega arith), Newest-weaken args c.id x.id bs (ground (arith, l)) n))
        ]
  ]
]
