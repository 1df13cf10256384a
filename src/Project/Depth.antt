-- ===== src/Project/Depth.antt =====
-- Triggers that start triggers: validation bounds how far they go on, as the definition is written.
-- Names of follow-ups that the expansion of loops makes afterwards are not looked at by the test.
use mathlib.Core.List.{Memᴰ, flat_map}
use jobserv.Prelude.{
  ℕ, zero, suc, ◌≤◌, ◌≡◌, ◌⊎◌, inl, inr, ap, ◌∙◌, sym, refl, Bool, true, ◌&&◌, List, [], ◌∷◌, ◌++◌,
  all, some, Text, text_eq, arith, Bool-cases,
}
use jobserv.Project.{
  RunSpec, Trigger, Follow, get_trigger, last_or_named, children, follows, check_trigger_depth,
  test_recursive_triggers,
}

-- A trigger names a follow-up for its end, or for the end of one of its runs.
abbrev pub Names : Trigger → Follow → Type 0
Names t f = Memᴰ f t.triggers ⊎ ((run : RunSpec) × Memᴰ run t.runs × Memᴰ f run.triggers)

-- A chain of triggers, each named by the one before it. What a follow-up starts is the trigger that
-- `get_trigger` finds for its name.
pub data Chain (ts : List Trigger) : ℕ → Follow → Type 0 where
  one : (f : Follow) → Chain ts 1 f
  more :
      {n : ℕ}
      → (f g : Follow) (t : Trigger) → get_trigger f.name ts ≡ some t
      → Names t g
      → Chain ts n g
      → Chain ts (suc n) f

all-Memᴰ :
    {A : Type 0} (p : A → Bool) (xs : List A) (x : A) → all p xs ≡ true → Memᴰ x xs → p x ≡ true
all-Memᴰ p [] x h m = elim m [ ]
all-Memᴰ p (y ∷ xs) x h (Memᴰ.head e) = ground (arith, h, ap p e)
all-Memᴰ p (y ∷ xs) x h (Memᴰ.tail m) = all-Memᴰ p xs x (ground (arith, h)) m

all-append :
    {A : Type 0} (p : A → Bool) (xs ys : List A) → all p (xs ++ ys) ≡ (all p xs && all p ys)
all-append p [] ys = refl
all-append p (x ∷ xs) ys = ground (arith, all-append p xs ys)

all-flat_map :
    (p : Follow → Bool) (runs : List RunSpec) (run : RunSpec) (f : Follow)
    → all p (flat_map (λ (r : RunSpec). r.triggers) runs) ≡ true
    → Memᴰ run runs
    → Memᴰ f run.triggers
    → p f ≡ true
unfolding flat_map
all-flat_map p [] run f h m k = elim m [ ]
all-flat_map p (r ∷ runs) run f h (Memᴰ.head e) k =
    let both = sym (all-append p r.triggers (flat_map (λ (r : RunSpec). r.triggers) runs)) ∙ h in
    let here : all p r.triggers ≡ true = ground (arith, both) in
    all-Memᴰ p run.triggers f (ap (λ (r : RunSpec). all p r.triggers) e ∙ here) k
all-flat_map p (r ∷ runs) run f h (Memᴰ.tail m) k =
    let both = sym (all-append p r.triggers (flat_map (λ (r : RunSpec). r.triggers) runs)) ∙ h in
    all-flat_map p runs run f (ground (arith, both)) m k

-- A test on all follow-ups of a trigger is one on each that it names.
all-Names :
    (p : Follow → Bool) (t : Trigger) (f : Follow)
    → all p (follows t) ≡ true
    → Names t f
    → p f ≡ true
unfolding follows
all-Names p t f h n =
    let both = sym (all-append p (flat_map (λ (r : RunSpec). r.triggers) t.runs) t.triggers) ∙ h in
    elim n [
      | inl m ↦ all-Memᴰ p t.triggers f (ground (arith, both)) m
      | inr (run, m, k) ↦ all-flat_map p t.runs run f (ground (arith, both)) m k
    ]

last_or_named-get_trigger :
    (name : Text) (t u : Trigger) (ts : List Trigger)
    → get_trigger name (t ∷ ts) ≡ some u
    → last_or_named name t ts ≡ u
unfolding last_or_named get_trigger
last_or_named-get_trigger name t u [] h = ground (arith, h)
last_or_named-get_trigger name t u (v ∷ ts) h = elim (Bool-cases (text_eq t.name name)) [
  | inl e ↦ ground (arith, h, e)
  | inr e ↦ rw e (last_or_named-get_trigger name v u ts (ground (arith, h, e)))
]

children-get_trigger :
    (f : Follow) (ts : List Trigger) (t : Trigger)
    → get_trigger f.name ts ≡ some t
    → children ts f ≡ follows t
unfolding children follows
children-get_trigger f [] t h = absurd (unfold get_trigger in cc h)
children-get_trigger f (u ∷ ts) t h = ap follows (last_or_named-get_trigger f.name u t ts h)

Chain-depth :
    (ts : List Trigger) (n depth : ℕ) (f : Follow)
    → check_trigger_depth depth ts f ≡ true
    → Chain ts n f
    → n ≤ depth
unfolding check_trigger_depth
Chain-depth ts n zero f h c = cc
Chain-depth ts _ (suc depth) f h (one _) = omega arith
Chain-depth ts _ (suc depth) f h (more {n = n} _ g t e m c) =
    let below = ap (all (check_trigger_depth depth ts)) (sym (children-get_trigger f ts t e)) ∙ h in
    omega (arith, Chain-depth ts n depth g (all-Names (check_trigger_depth depth ts) t g below m) c)

-- Where the triggers of a definition, as it is written, pass the test: what one of them names starts
-- chains of two triggers at most, each named by the one before it for its end or for the end of one
-- of its runs. So no trigger starts itself, in any number of steps.
pub Chain-bound :
    (ts : List Trigger) (parent : Trigger) (f : Follow) (n : ℕ)
    → test_recursive_triggers ts ≡ true
    → Memᴰ parent ts
    → Names parent f
    → Chain ts n f
    → n ≤ 2
unfolding test_recursive_triggers
Chain-bound ts parent f n h p m c =
    Chain-depth ts n 2 f
      (all-Names (check_trigger_depth 2 ts) parent f (all-Memᴰ _ ts parent h p) m) c
