-- ===== src/WorkerScript/Locks.antt =====
-- `RunLocks`: the lock files of a worker, one for each run that it may carry out at a time. A file is
-- free, or held by some process with what that process wrote to it.
use jobserv.Prelude.{
  ℕ, suc, ◌+◌, ◌≤◌, ◌<◌, ◌≡◌, refl, ap, inl, inr, Bool, Option, none, some, List, [], ◌∷◌, length,
  Text, ◌==◌, arith, Option-cases,
}

pub data Lock : Type 0 where
  free : Lock
  held : Text → Lock

-- `len(locks)`: the files that could be locked.
unfoldable pub available : List Lock → ℕ
available [] = 0
available (free ∷ ls) = suc (available ls)
available (held reason ∷ ls) = available ls

-- `aquire`: the last of the locks is taken; with none left, `pop` raises an IndexError.
unfoldable pub aquire : Text → List Lock → Option (List Lock)
aquire reason [] = none
aquire reason (held other ∷ ls) = elim (aquire reason ls) [
  | none ↦ none
  | some ls' ↦ some (held other ∷ ls')
]
aquire reason (free ∷ ls) = elim (aquire reason ls) [
  | none ↦ some (held reason ∷ ls)
  | some ls' ↦ some (free ∷ ls')
]

-- The locks for the runs that the server sent, which are held when the others are released.
unfoldable pub aquire_all : List Text → List Lock → Option (List Lock)
aquire_all [] ls = some ls
aquire_all (reason ∷ reasons) ls = elim (aquire reason ls) [
  | none ↦ none
  | some ls' ↦ aquire_all reasons ls'
]

-- `HostProps.idle`
unfoldable pub idle : List Lock → Bool
idle ls = length ls == available ls

-- Each lock that was held is held as before.
abbrev pub StillHeld : List Lock → List Lock → Type 0
StillHeld [] [] = Unit
StillHeld [] (l ∷ ls) = ⊥
StillHeld (l ∷ ls) [] = ⊥
StillHeld (free ∷ ls) (m ∷ ms) = StillHeld ls ms
StillHeld (held reason ∷ ls) (m ∷ ms) = (m ≡ held reason) × StillHeld ls ms

StillHeld-refl : (ls : List Lock) → StillHeld ls ls
StillHeld-refl [] = tt
StillHeld-refl (free ∷ ls) = StillHeld-refl ls
StillHeld-refl (held r ∷ ls) = (refl, StillHeld-refl ls)

StillHeld-trans : (a b c : List Lock) → StillHeld a b → StillHeld b c → StillHeld a c
StillHeld-trans [] [] [] h k = tt
StillHeld-trans [] [] (z ∷ c) h k = absurd k
StillHeld-trans [] (y ∷ b) c h k = absurd h
StillHeld-trans (x ∷ a) [] c h k = absurd h
StillHeld-trans (free ∷ a) (free ∷ b) [] h k = absurd k
StillHeld-trans (free ∷ a) (held r ∷ b) [] h k = absurd k
StillHeld-trans (held r ∷ a) (free ∷ b) [] h k = absurd k
StillHeld-trans (held r ∷ a) (held q ∷ b) [] h k = absurd k
StillHeld-trans (free ∷ a) (free ∷ b) (z ∷ c) h k = StillHeld-trans a b c h k
StillHeld-trans (free ∷ a) (held q ∷ b) (z ∷ c) h k = StillHeld-trans a b c h k.1
StillHeld-trans (held r ∷ a) (free ∷ b) (z ∷ c) h k = absurd (cc (h.0))
StillHeld-trans (held r ∷ a) (held q ∷ b) (z ∷ c) h k =
    (cc (k.0, h.0), StillHeld-trans a b c h.1 k.1)

-- A lock that is taken was free, and no other changes.
aquire-StillHeld :
    (reason : Text) (ls ls' : List Lock)
    → aquire reason ls ≡ some ls'
    → StillHeld ls ls' × (available ls ≡ suc (available ls'))
unfolding aquire available
aquire-StillHeld reason [] ls' h = absurd (ground (arith, h))
aquire-StillHeld reason (held r ∷ ls) ls' h = elim (Option-cases (aquire reason ls)) [
  | inl e ↦ absurd (ground (arith, h, e))
  | inr (ms, e) ↦
      let same : ls' ≡ held r ∷ ms = ground (arith, h, e) in
      let (a, b) = aquire-StillHeld reason ls ms e in rw same ((refl, a), b)
]
aquire-StillHeld reason (free ∷ ls) ls' h = elim (Option-cases (aquire reason ls)) [
  | inl e ↦
      let same : ls' ≡ held reason ∷ ls = ground (arith, h, e) in rw same (StillHeld-refl ls, refl)
  | inr (ms, e) ↦
      let same : ls' ≡ free ∷ ms = ground (arith, h, e) in
      let (a, b) = aquire-StillHeld reason ls ms e in rw same (a, ap suc b)
]

aquire-none : (reason : Text) (ls : List Lock) → aquire reason ls ≡ none → available ls ≡ 0
unfolding aquire available
aquire-none reason [] h = refl
aquire-none reason (held r ∷ ls) h = elim (Option-cases (aquire reason ls)) [
  | inl e ↦ aquire-none reason ls e
  | inr (ms, e) ↦ absurd (ground (arith, h, e))
]
aquire-none reason (free ∷ ls) h = elim (Option-cases (aquire reason ls)) [
  | inl e ↦ absurd (ground (arith, h, e))
  | inr (ms, e) ↦ absurd (ground (arith, h, e))
]

aquire_all-StillHeld :
    (reasons : List Text) (ls ls' : List Lock)
    → aquire_all reasons ls ≡ some ls'
    → StillHeld ls ls' × (available ls ≡ length reasons + available ls')
unfolding aquire_all
aquire_all-StillHeld [] ls ls' h =
    let same : ls' ≡ ls = ground (arith, h) in rw same (StillHeld-refl ls, omega arith)
aquire_all-StillHeld (reason ∷ reasons) ls ls' h = elim (Option-cases (aquire reason ls)) [
  | inl e ↦ absurd (ground (arith, h, e))
  | inr (ms, e) ↦
      let (a, b) = aquire-StillHeld reason ls ms e in
      let (c, d) = aquire_all-StillHeld reasons ms ls' (ground (arith, h, e)) in
      (StillHeld-trans ls ms ls' a c, omega (arith, b, d))
]

aquire_all-none :
    (reasons : List Text) (ls : List Lock)
    → aquire_all reasons ls ≡ none
    → available ls < length reasons
unfolding aquire_all
aquire_all-none [] ls h = absurd (ground (arith, h))
aquire_all-none (reason ∷ reasons) ls h = elim (Option-cases (aquire reason ls)) [
  | inl e ↦ omega (arith, aquire-none reason ls e)
  | inr (ms, e) ↦ omega (
    arith,
    (aquire-StillHeld reason ls ms e).1,
    aquire_all-none reasons ms (ground (arith, h, e)),
  )
]

-- Where the server sends no more runs than there are free locks, each run gets a lock of its own: as many
-- locks are taken as there are runs, and those that other processes hold stay theirs.
pub aquire_all_lem :
    (reasons : List Text) (ls : List Lock)
    → length reasons ≤ available ls
    → (ls' : List Lock) × (aquire_all reasons ls ≡ some ls')
      × StillHeld ls ls'
      × (available ls ≡ length reasons + available ls')
aquire_all_lem reasons ls h = elim (Option-cases (aquire_all reasons ls)) [
  | inl e ↦ absurd (omega (arith, h, aquire_all-none reasons ls e))
  | inr (ls', e) ↦ let (a, b) = aquire_all-StillHeld reasons ls ls' e in (ls', e, a, b)
]
