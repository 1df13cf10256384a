-- ===== src/Notify/Stats.antt =====
-- The statistics of the builds before one that has ended.
use jobserv.Prelude.{
  ℕ, zero, suc, ◌+◌, ◌*◌, ◌/◌, ◌≤◌, ◌<◌, ◌≡◌, refl, subst, inl, inr, true, ◌&&◌, some, List, [],
  ◌∷◌, any, select, take, length, length-append, text, ◌==◌, arith, Bool-cases,
}
use jobserv.Status.{passed, is}
use jobserv.Models.{Build}
use jobserv.Notify.{
  counts, insert_build, newest_first, last_builds, BuildStats, count_build, count_builds, rated,
  get_build_stats,
}

length-take-le : {A : Type 0} (n : ℕ) (xs : List A) → length (take n xs) ≤ n
length-take-le zero xs = omega arith
length-take-le (suc n) [] = omega arith
length-take-le (suc n) (x ∷ xs) = omega (arith, length-take-le n xs)

take-pos : {A : Type 0} (n : ℕ) (xs : List A) → 0 < length xs → 0 < length (take (suc n) xs)
take-pos n [] h = h
take-pos n (x ∷ xs) h = omega arith

length-insert_build : (b : Build) (bs : List Build) → length (insert_build b bs) ≡ suc (length bs)
unfolding insert_build
length-insert_build b [] = refl
length-insert_build b (c ∷ cs) = ground (arith, length-insert_build b cs)

length-newest_first : (bs : List Build) → length (newest_first bs) ≡ length bs
unfolding newest_first
length-newest_first [] = refl
length-newest_first (b ∷ bs) =
    omega (arith, length-insert_build b (newest_first bs), length-newest_first bs)

-- A build of the table that is counted is among those that are looked at.
select-pos :
    (build : Build) (bs : List Build)
    → any (λ b. b.id == build.id && counts build b) bs ≡ true
    → 0 < length (select (counts build) bs)
select-pos build [] h = cc h
select-pos build (b ∷ bs) h = elim (Bool-cases (counts build b)) [
  | inl e ↦ rw e (omega arith)
  | inr e ↦ rw e (select-pos build bs (ground (arith, h, e)))
]

-- What the loop over the builds adds.
pub record Counted (n : ℕ) (s t : BuildStats) : Type 0 where
  pub total : t.total ≡ s.total + n
  pub passes : t.passes ≤ s.passes + n
  pub signs : length t.pass_fails ≡ length s.pass_fails + n

count_build-Counted : (b : Build) (s : BuildStats) → Counted 1 s (count_build b s)
unfolding count_build
count_build-Counted b s = elim (Bool-cases (is b.status passed)) [
  | inl e ↦
      rw e (record {
        total = refl;
        passes = omega arith;
        signs = length-append s.pass_fails (text "+");
      })
  | inr e ↦
      rw e (record {
        total = refl;
        passes = omega arith;
        signs = length-append s.pass_fails (text "-");
      })
]

Counted-trans : {s t u : BuildStats} (m n : ℕ) → Counted m s t → Counted n t u → Counted (m + n) s u
Counted-trans m n p q = record {
  total = omega (arith, p.total, q.total);
  passes = omega (arith, p.passes, q.passes);
  signs = omega (arith, p.signs, q.signs);
}

count_builds-Counted :
    (bs : List Build) (s : BuildStats) → Counted (length bs) s (count_builds bs s)
unfolding count_builds
count_builds-Counted [] s = record {
  total = omega arith;
  passes = omega arith;
  signs = omega arith;
}
count_builds-Counted (b ∷ bs) s =
    subst (λ n. Counted n s (count_builds bs (count_build b s))) (omega arith)
      (Counted-trans 1 (length bs) (count_build-Counted b s)
        (count_builds-Counted bs (count_build b s)))

length-last_builds :
    (build : Build) (builds : List Build)
    → any (λ b. b.id == build.id && counts build b) builds ≡ true
    → (0 < length (last_builds build builds)) × (length (last_builds build builds) ≤ 20)
unfolding last_builds
length-last_builds build builds h =
    let some_one = select-pos build builds h in
    let kept = length-newest_first (select (counts build) builds) in
    (
      take-pos 19 (newest_first (select (counts build) builds)) (omega (arith, some_one, kept)),
      length-take-le 20 (newest_first (select (counts build) builds)),
    )

-- What the mail says of the builds.
pub record Rated (s : BuildStats) (rate : ℕ) : Type 0 where
  pub some_builds : 0 < s.total
  pub few : s.total ≤ 20
  pub passes : s.passes ≤ s.total
  pub signs : length s.pass_fails ≡ s.total
  pub percent : rate ≤ 100

percent_le : (passes n : ℕ) → passes ≤ suc n → (passes * 100) / suc n ≤ 100
percent_le passes n h = grind arith

rated-Rated :
    (n : ℕ) (s : BuildStats)
    → n ≡ s.total
    → 0 < n
    → n ≤ 20
    → s.passes ≤ n
    → length s.pass_fails ≡ n
    → (rate : ℕ) × (rated n s ≡ some (s, rate)) × Rated s rate
unfolding rated
rated-Rated zero s e p f q l = absurd (omega (arith, p))
rated-Rated (suc n) s e p f q l = (
  (s.passes * 100) / suc n,
  refl,
  record {
    some_builds = omega (arith, e, p);
    few = omega (arith, e, f);
    passes = omega (arith, e, q);
    signs = omega (arith, e, l);
    percent = percent_le s.passes n q;
  },
)

-- The statistics of a build that is in the table, and has passed or failed, can be given: they are of at
-- least one and at most 20 builds, with a sign for each, and the rate of those that passed is a
-- percentage.
pub get_build_stats-Rated :
    (build : Build) (builds : List Build)
    → any (λ b. b.id == build.id && counts build b) builds ≡ true
    → (s : BuildStats) × (rate : ℕ) × (get_build_stats build builds ≡ some (s, rate)) × Rated s rate
unfolding get_build_stats
get_build_stats-Rated build builds h =
    let start : BuildStats = record { passes = 0; total = 0; pass_fails = [] } in
    let bs = last_builds build builds in
    let (p, f) = length-last_builds build builds h in
    let counted = count_builds-Counted bs start in
    let s = count_builds bs start in
    let (rate, e, r) =
      rated-Rated s.total s refl (omega (arith, counted.total, p)) (omega (arith, counted.total, f))
        (omega (arith, counted.total, counted.passes))
        (omega (arith, counted.total, counted.signs)) in
    (s, rate, e, r)
