-- ===== src/WorkerScript/Loop.antt =====
-- `cmd_loop`: what a round does after its check-in. The clock is read in each round; it counts
-- seconds, `idle_threshold` minutes and `docker_rm` hours.
use jobserv.Prelude.{
  ℕ, ◌+◌, ◌-◌, ◌*◌, ◌≤◌, ◌<◌, ◌≡◌, refl, sym, subst, inl, inr, Bool, true, false, ◌&&◌, Option,
  none, some, List, [], ◌∷◌, ◌++◌, All, ltb, arith, Bool-cases, if◌then◌else◌,
}

pub record Args : Type 0 where
  pub has_idle_command : Bool
  pub idle_threshold : ℕ
  pub docker_rm : ℕ
  pub every : ℕ
  -- `jwt-exp`, where it is there and not 0
  pub expires : Option ℕ

-- The variables of the loop.
pub record Times : Type 0 where
  pub last_busy : ℕ
  pub next_clean : ℕ

-- What a round reads: `now`, `HostProps.idle()`, and the clock once more at its end.
pub record Round : Type 0 where
  pub now : ℕ
  pub idle : Bool
  pub later : ℕ

pub data Action : Type 0 where
  call_idle_command clean shut_down sleep : Action

-- `if HostProps.idle()`
idle_calls : Args → Times → Round → List Action
idle_calls args t r =
    if r.idle && args.has_idle_command && ltb (args.idle_threshold * 60) (r.now - t.last_busy)
    then call_idle_command ∷ []
    else []

-- `if expires`
expiring : Args → Round → Bool
expiring args r = elim args.expires [
  | none ↦ false
  | some expires ↦ ltb expires (r.later + args.every * 2)
]

-- `if now > next_clean`; `_handle_expiring_token` does not return.
end_round : Args → Times → Round → List Action
unfolding expiring
end_round args t r =
    if ltb t.next_clean r.now
    then clean ∷ []
    else if expiring args r
    then shut_down ∷ []
    else sleep ∷ []

unfoldable pub actions : Args → Times → Round → List Action
unfolding idle_calls end_round
actions args t r = idle_calls args t r ++ end_round args t r

-- The variables after a round.
unfoldable pub after_round : Args → Times → Round → Times
after_round args t r = record {
  last_busy = if r.idle then t.last_busy else r.now;
  next_clean = if ltb t.next_clean r.now then r.later + args.docker_rm * 3600 else t.next_clean;
}

-- The variables after the rounds so far.
unfoldable pub after_rounds : Args → Times → List Round → Times
unfolding after_round
after_rounds args t [] = t
after_rounds args t (r ∷ rs) = after_rounds args (after_round args t r) rs

-- The clock does not go back.
abbrev pub Ascends : ℕ → List Round → Type 0
Ascends from [] = Unit
Ascends from (r ∷ rs) = (from ≤ r.now) × Ascends r.now rs

-- More than the threshold has passed since each round in which a run was carried out.
abbrev pub Rested : Args → ℕ → List Round → Type 0
Rested args now rs = All (λ r. r.idle ≡ false → r.now + args.idle_threshold * 60 < now) rs

Ascends-weaken : (m n : ℕ) (rs : List Round) → m ≤ n → Ascends n rs → Ascends m rs
Ascends-weaken m n [] h a = tt
Ascends-weaken m n (r ∷ rs) h a = (omega (arith, h, a.0), a.1)

-- The last busy time is no earlier than any time at which the worker was busy.
after_rounds-Rested :
    (args : Args) (t : Times) (rs : List Round) (now : ℕ)
    → Ascends t.last_busy rs
    → (after_rounds args t rs).last_busy + args.idle_threshold * 60 < now
    → Rested args now rs × (t.last_busy + args.idle_threshold * 60 < now)
unfolding after_rounds
after_rounds-Rested args t [] now a h = (tt, h)
after_rounds-Rested args t (r ∷ rs) now a h = elim (Bool-cases r.idle) [
  | inl e ↦
      let same : (after_round args t r).last_busy ≡ t.last_busy = unfold after_round in rw e refl in
      let (rest, kept) =
        after_rounds-Rested args (after_round args t r) rs now
          (subst (λ n. Ascends n rs) (sym same) (Ascends-weaken t.last_busy r.now rs a.0 a.1)) h in
      (((λ busy. absurd (ground (arith, e, busy))), rest), omega (arith, same, kept))
  | inr e ↦
      let same : (after_round args t r).last_busy ≡ r.now = unfold after_round in rw e refl in
      let (rest, kept) =
        after_rounds-Rested args (after_round args t r) rs now
          (subst (λ n. Ascends n rs) (sym same) a.1) h in
      (((λ busy. omega (arith, same, kept)), rest), omega (arith, same, kept, a.0))
]

-- The idle command is among the actions of a round.
abbrev pub calls_idle_command : List Action → Bool
calls_idle_command [] = false
calls_idle_command (call_idle_command ∷ rest) = true
calls_idle_command (clean ∷ rest) = calls_idle_command rest
calls_idle_command (shut_down ∷ rest) = calls_idle_command rest
calls_idle_command (sleep ∷ rest) = calls_idle_command rest

actions-called :
    (args : Args) (t : Times) (r : Round)
    → calls_idle_command (actions args t r) ≡ true
    → (r.idle ≡ true) × (t.last_busy + args.idle_threshold * 60 < r.now)
unfolding actions idle_calls end_round
actions-called args t r h =
    elim (Bool-cases (ltb (args.idle_threshold * 60) (r.now - t.last_busy))) [
      | inl e ↦ (ground (arith, h, e), ground (arith, e))
      | inr e ↦ absurd (ground (arith, h, e))
    ]

-- While the clock does not go back, the idle command is only called when the worker is idle, and more
-- than the threshold after each round in which it was not, and after the start.
pub actions-Rested :
    (args : Args) (t : Times) (rs : List Round) (r : Round)
    → Ascends t.last_busy rs
    → calls_idle_command (actions args (after_rounds args t rs) r) ≡ true
    → (r.idle ≡ true) × Rested args r.now rs × (t.last_busy + args.idle_threshold * 60 < r.now)
actions-Rested args t rs r a h =
    let (i, k) = actions-called args (after_rounds args t rs) r h in
    let (rested, first) = after_rounds-Rested args t rs r.now a k in (i, rested, first)
