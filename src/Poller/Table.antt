-- ===== src/Poller/Table.antt =====
-- `_poll`: the table of the projects that are polled, which is kept from one round to the next, with
-- `_get_projdef` and `_poll_project`. What the servers answer is an argument.
use jobserv.Prelude.{
  ℕ, ◌≡◌, refl, sym, ap, subst, ◌∙◌, inl, inr, true, Option, none, some, List, [], ◌∷◌, ◌++◌, Text,
  ◌==◌, arith, Option-cases, Bool-cases, if◌then◌else◌,
}

-- The value of a key.
unfoldable pub entry_of {ℓ} : {A : Type ℓ} → ℕ → List (ℕ × A) → Option A
entry_of n [] = none
entry_of n ((k, a) ∷ m) = let rest = entry_of n m in if k == n then some a else rest

-- `PollerEntry`: `T` is what the server tells of a trigger, `D` a definition.
pub record Entry {ℓ κ} (T : Type ℓ) (D : Type κ) : Type (ℓ ⊔ κ) where
  pub trigger : T
  pub definition : Option D
  -- the header If-None-Match
  pub etag : Option Text

at_key {ℓ} :
    {A : Type ℓ} (m : List (ℕ × A)) (k n : ℕ) (o : Option A)
    → (k == n) ≡ true
    → entry_of k m ≡ o
    → entry_of n m ≡ o
at_key m k n o h e = let same : k ≡ n = ground arith in subst (λ i. entry_of i m ≡ o) same e

module _ {ℓ κ} {T : Type ℓ} {D : Type κ} where
  -- `PollerEntry(trigger=triggers[n])`
  unfoldable pub new_entry : T → Entry T D
  new_entry t = record { trigger = t; definition = none; etag = none }

  keep_entry : ℕ → Entry T D → Option T → List (ℕ × Entry T D)
  keep_entry n e none = []
  keep_entry n e (some t) = (n, record e { trigger = t }) ∷ []

  -- The entries that are not removed, with the triggers as they now are.
  unfoldable pub keep_entries : List (ℕ × Entry T D) → List (ℕ × T) → List (ℕ × Entry T D)
  unfolding keep_entry
  keep_entries [] triggers = []
  keep_entries ((n, e) ∷ entries) triggers =
      keep_entry n e (entry_of n triggers) ++ keep_entries entries triggers

  add_entry : ℕ → T → Option (Entry T D) → List (ℕ × Entry T D)
  unfolding new_entry
  add_entry n t none = (n, new_entry t) ∷ []
  add_entry n t (some e) = []

  -- The entries for triggers that are new.
  unfoldable pub add_entries : List (ℕ × Entry T D) → List (ℕ × T) → List (ℕ × Entry T D)
  unfolding add_entry
  add_entries entries [] = []
  add_entries entries ((n, t) ∷ triggers) =
      add_entry n t (entry_of n entries) ++ add_entries entries triggers

  -- The three loops of `_poll` over the keys.
  unfoldable pub sync_entries : List (ℕ × Entry T D) → List (ℕ × T) → List (ℕ × Entry T D)
  sync_entries entries triggers = keep_entries entries triggers ++ add_entries entries triggers

  -- What an entry becomes.
  abbrev pub synced : Option (Entry T D) → Option T → Option (Entry T D)
  synced old none = none
  synced none (some t) = some (record { trigger = t; definition = none; etag = none })
  synced (some e) (some t) = some (record e { trigger = t })

  first_of : Option (Entry T D) → Option (Entry T D) → Option (Entry T D)
  first_of none o = o
  first_of (some e) o = some e

  entry_of-append :
      (n : ℕ) (a b : List (ℕ × Entry T D))
      → entry_of n (a ++ b) ≡ first_of (entry_of n a) (entry_of n b)
  unfolding entry_of first_of
  entry_of-append n [] b = refl
  entry_of-append n ((k, e) ∷ a) b = elim (Bool-cases (k == n)) [
    | inl h ↦ rw h refl
    | inr h ↦ rw h (entry_of-append n a b)
  ]

  kept : Option (Entry T D) → Option T → Option (Entry T D)
  kept none t = none
  kept (some e) none = none
  kept (some e) (some t) = some (record e { trigger = t })

  kept-none : (o : Option (Entry T D)) → kept o none ≡ none
  unfolding kept
  kept-none none = refl
  kept-none (some e) = refl

  -- One entry in front of those that are kept.
  keep_entry-first :
      (n k : ℕ) (e : Entry T D) (o : Option (Entry T D)) (triggers : List (ℕ × T))
      → first_of (entry_of n (keep_entry k e (entry_of k triggers))) (kept o (entry_of n triggers))
        ≡ kept (if k == n then some e else o) (entry_of n triggers)
  unfolding first_of keep_entry kept entry_of
  keep_entry-first n k e o triggers = elim (Bool-cases (k == n)) [
    | inl h ↦ elim (Option-cases (entry_of k triggers)) [
      | inl f ↦ rw (f, h, at_key triggers k n none h f) (kept-none o)
      | inr (t, f) ↦ rw (f, h, at_key triggers k n (some t) h f) refl
    ]
    | inr h ↦ elim (Option-cases (entry_of k triggers)) [
      | inl f ↦ rw (f, h) refl
      | inr (t, f) ↦ rw (f, h) refl
    ]
  ]

  entry_of-keep_entries :
      (n : ℕ) (entries : List (ℕ × Entry T D)) (triggers : List (ℕ × T))
      → entry_of n (keep_entries entries triggers) ≡ kept (entry_of n entries) (entry_of n triggers)
  unfolding keep_entries kept entry_of
  entry_of-keep_entries n [] triggers = refl
  entry_of-keep_entries n ((k, e) ∷ entries) triggers =
      entry_of-append n (keep_entry k e (entry_of k triggers)) (keep_entries entries triggers)
      ∙ ap (first_of (entry_of n (keep_entry k e (entry_of k triggers))))
          (entry_of-keep_entries n entries triggers)
      ∙ keep_entry-first n k e (entry_of n entries) triggers

  added : Option (Entry T D) → Option T → Option (Entry T D)
  unfolding new_entry
  added none (some t) = some (new_entry t)
  added none none = none
  added (some e) o = none

  -- One new trigger in front of the others.
  add_entry-first :
      (n k : ℕ) (t : T) (o : Option T) (entries : List (ℕ × Entry T D))
      → first_of (entry_of n (add_entry k t (entry_of k entries))) (added (entry_of n entries) o)
        ≡ added (entry_of n entries) (if k == n then some t else o)
  unfolding first_of add_entry added entry_of
  add_entry-first n k t o entries = elim (Bool-cases (k == n)) [
    | inl h ↦ elim (Option-cases (entry_of k entries)) [
      | inl f ↦ rw (f, h, at_key entries k n none h f) refl
      | inr (e, f) ↦ rw (f, h, at_key entries k n (some e) h f) refl
    ]
    | inr h ↦ elim (Option-cases (entry_of k entries)) [
      | inl f ↦ rw (f, h) refl
      | inr (e, f) ↦ rw (f, h) refl
    ]
  ]

  added-none : (o : Option (Entry T D)) → added o none ≡ none
  unfolding added
  added-none none = refl
  added-none (some e) = refl

  entry_of-add_entries :
      (n : ℕ) (entries : List (ℕ × Entry T D)) (triggers : List (ℕ × T))
      → entry_of n (add_entries entries triggers) ≡ added (entry_of n entries) (entry_of n triggers)
  unfolding add_entries entry_of
  entry_of-add_entries n entries [] = sym (added-none (entry_of n entries))
  entry_of-add_entries n entries ((k, t) ∷ triggers) =
      entry_of-append n (add_entry k t (entry_of k entries)) (add_entries entries triggers)
      ∙ ap (first_of (entry_of n (add_entry k t (entry_of k entries))))
          (entry_of-add_entries n entries triggers)
      ∙ add_entry-first n k t (entry_of n triggers) entries

  synced_either :
      (old : Option (Entry T D)) (new : Option T)
      → first_of (kept old new) (added old new) ≡ synced old new
  unfolding first_of kept added new_entry
  synced_either none none = refl
  synced_either none (some t) = refl
  synced_either (some e) none = refl
  synced_either (some e) (some t) = refl

  -- After the loops the table has the triggers that the server told of and no others: a new one without a
  -- definition, and one that was there with what it had, but for its trigger.
  pub sync_entries_lem :
      (n : ℕ) (entries : List (ℕ × Entry T D)) (triggers : List (ℕ × T))
      → entry_of n (sync_entries entries triggers)
        ≡ synced (entry_of n entries) (entry_of n triggers)
  unfolding sync_entries
  sync_entries_lem n entries triggers =
      rw
        (
          entry_of-append n (keep_entries entries triggers) (add_entries entries triggers),
          entry_of-keep_entries n entries triggers,
          entry_of-add_entries n entries triggers,
        )
        (synced_either (entry_of n entries) (entry_of n triggers))
