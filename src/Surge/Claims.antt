-- ===== src/Surge/Claims.antt =====
-- The rounds end, no run is claimed twice, and what is left over has no host to take it.
use jobserv.Prelude.{
  ℕ, zero, suc, ◌+◌, ◌≤◌, ◌<◌, ◌≡◌, refl, ap, ◌∙◌, ◌⊎◌, inl, inr, true, false, none, some, List, [],
  ◌∷◌, map, length, All, All-imp, arith, Text, has_text, Option-cases, Bool-cases, if◌then◌else◌,
  ◌==◌,
}
use native.Mathlib.Nat.{le_refl}
use jobserv.Workers.{Worker}
use jobserv.Surge.{
  QueuedRun, Host, Round, claim_run, round, rounds, use_slot, keep_host, took_run, total_slots,
  hosts_of, assign,
}

unfoldable pub unclaimed : List QueuedRun → ℕ
unclaimed [] = 0
unclaimed (run ∷ runs) = if run.unclaimed then suc (unclaimed runs) else unclaimed runs

abbrev pub tags_of : List QueuedRun → List Text
tags_of = map (λ run. run.tag)

-- A claim takes one run, and keeps the runs in their places.
claim_run-one :
    (tags : List Text) (q q' : List QueuedRun)
    → claim_run tags q ≡ some q'
    → (unclaimed q ≡ suc (unclaimed q')) × (tags_of q' ≡ tags_of q)
unfolding claim_run unclaimed
claim_run-one tags [] q' h = cc
claim_run-one tags (run ∷ runs) q' h = elim (Option-cases (claim_run tags runs)) [
  | inl e ↦ ground (arith, e)
  | inr (r, e) ↦ ground (arith, e, claim_run-one tags runs r e)
]

-- The host could take the run.
abbrev pub CanTake : List Text → QueuedRun → Type 0
CanTake tags run = (run.unclaimed ≡ true) × (has_text run.tag tags ≡ true)

claim_run-none :
    (tags : List Text) (q : List QueuedRun)
    → claim_run tags q ≡ none
    → All (λ run. ¬ CanTake tags run) q
unfolding claim_run
claim_run-none tags [] h = tt
claim_run-none tags (run ∷ runs) h = elim (Option-cases (claim_run tags runs)) [
  | inl e ↦ (λ c. ground (arith, e, c.0, c.1), claim_run-none tags runs e)
  | inr (r, e) ↦ ground (arith, e)
]

-- What one round does: each slot used is a run claimed; and if it finds no match, nothing changes
-- and no host with a slot could take an unclaimed run.
record RoundLaws (hosts : List Host) (queue : List QueuedRun) : Type 0 where
  conserved :
      total_slots (round hosts queue).hosts + unclaimed queue
      ≡ total_slots hosts + unclaimed (round hosts queue).queue
  tags : tags_of (round hosts queue).queue ≡ tags_of queue
  falls : unclaimed (round hosts queue).queue ≤ unclaimed queue
  found :
      (round hosts queue).matches_found ≡ true
      → unclaimed (round hosts queue).queue < unclaimed queue
  ended :
      (round hosts queue).matches_found ≡ false
      → ((round hosts queue).hosts ≡ hosts)
        × ((round hosts queue).queue ≡ queue)
        × All (λ h. (h.slots ≡ 0) ⊎ (claim_run h.tags queue ≡ none)) hosts

abbrev NoUse : List QueuedRun → Host → Type 0
NoUse queue h = (h.slots ≡ 0) ⊎ (claim_run h.tags queue ≡ none)

no_take :
    (h : Host) (queue : List QueuedRun)
    → NoUse queue h
    → (h.slots ≡ 0) ⊎ All (λ run. ¬ CanTake h.tags run) queue
no_take h queue (inl e) = inl e
no_take h queue (inr e) = inr (claim_run-none h.tags queue e)

module _ (host : Host) (hosts : List Host) (queue : List QueuedRun) where
  round-keep : NoUse queue host → round (host ∷ hosts) queue ≡ keep_host host (round hosts queue)
  unfolding round
  round-keep (inl e) = ground (arith, e)
  round-keep (inr e) = ground (arith, e)

  round-took :
      (q : List QueuedRun)
      → (host.slots == 0) ≡ false
      → claim_run host.tags queue ≡ some q
      → round (host ∷ hosts) queue ≡ took_run host (round hosts q)
  unfolding round
  round-took q n e = ground (arith, n, e)

  keep-RoundLaws : NoUse queue host → RoundLaws hosts queue → RoundLaws (host ∷ hosts) queue
  unfolding keep_host total_slots
  keep-RoundLaws n l = record {
    conserved = rw (round-keep n) (omega (arith, l.conserved));
    tags = rw (round-keep n) l.tags;
    falls = rw (round-keep n) l.falls;
    found = rw (round-keep n) l.found;
    ended = rw (round-keep n) (λ h. let (a, b, c) = l.ended h in (ap (◌∷◌ host) a, b, (n, c)));
  }

  total_slots-use_slot :
      (hs : List Host)
      → (host.slots == 0) ≡ false
      → suc (total_slots (use_slot host hs)) ≡ host.slots + total_slots hs
  unfolding use_slot total_slots
  total_slots-use_slot hs n = ground (arith, n)

  took-RoundLaws :
      (q : List QueuedRun)
      → (host.slots == 0) ≡ false
      → claim_run host.tags queue ≡ some q
      → RoundLaws hosts q
      → RoundLaws (host ∷ hosts) queue
  unfolding took_run total_slots
  took-RoundLaws q n e l =
      let (one, same) = claim_run-one host.tags queue q e in
      record {
        conserved =
            rw (round-took q n e)
              (omega (arith, l.conserved, one, total_slots-use_slot (round hosts q).hosts n));
        tags = rw (round-took q n e) (l.tags ∙ same);
        falls = rw (round-took q n e) (omega (arith, l.falls, one));
        found = rw (round-took q n e) (λ h. omega (arith, l.falls, one));
        ended = rw (round-took q n e) (λ h. cc);
      }

round-RoundLaws : (hosts : List Host) (queue : List QueuedRun) → RoundLaws hosts queue
round-RoundLaws [] queue =
    unfold round total_slots in
    record {
      conserved = refl;
      tags = refl;
      falls = omega arith;
      found = λ h. cc;
      ended = λ h. (refl, refl, tt);
    }
round-RoundLaws (host ∷ hosts) queue = elim (Bool-cases (host.slots == 0)) [
  | inl e ↦ keep-RoundLaws host hosts queue (inl (ground (arith, e))) (round-RoundLaws hosts queue)
  | inr e ↦ elim (Option-cases (claim_run host.tags queue)) [
    | inl n ↦ keep-RoundLaws host hosts queue (inr n) (round-RoundLaws hosts queue)
    | inr (q, t) ↦ took-RoundLaws host hosts queue q e t (round-RoundLaws hosts q)
  ]
]

-- After the rounds: the loop has ended by its test.
record Settled (hosts : List Host) (queue : List QueuedRun) (r : Round) : Type 0 where
  conserved : total_slots r.hosts + unclaimed queue ≡ total_slots hosts + unclaimed r.queue
  tags : tags_of r.queue ≡ tags_of queue
  ended : r.matches_found ≡ false
  no_use : All (NoUse r.queue) r.hosts

round-Settled :
    (hosts : List Host) (queue : List QueuedRun)
    → (round hosts queue).matches_found ≡ false
    → Settled hosts queue (round hosts queue)
round-Settled hosts queue h =
    let l = round-RoundLaws hosts queue in
    let (a, b, c) = l.ended h in
    record { conserved = l.conserved; tags = l.tags; ended = h; no_use = rw (a, b) c }

-- As many rounds as there are slots are enough.
rounds-Settled :
    (n : ℕ) (hosts : List Host) (queue : List QueuedRun)
    → total_slots hosts ≤ n
    → Settled hosts queue (rounds n hosts queue)
unfolding rounds
rounds-Settled zero hosts queue h = elim (Bool-cases (round hosts queue).matches_found) [
  | inl e ↦ let l = round-RoundLaws hosts queue in absurd (omega (arith, h, l.conserved, l.found e))
  | inr e ↦ round-Settled hosts queue e
]
rounds-Settled (suc n) hosts queue h = elim (Bool-cases (round hosts queue).matches_found) [
  | inl e ↦
      let l = round-RoundLaws hosts queue in
      let r = round hosts queue in
      let s = rounds-Settled n r.hosts r.queue (omega (arith, h, l.conserved, l.found e)) in
      rw e (record {
        conserved = omega (arith, s.conserved, l.conserved);
        tags = s.tags ∙ l.tags;
        ended = s.ended;
        no_use = s.no_use;
      })
  | inr e ↦ simp e (round-Settled hosts queue e)
]

start_queue : List Text → List QueuedRun
start_queue = map (λ tag. record { tag = tag; unclaimed = true })

unclaimed-start : (queued : List Text) → unclaimed (start_queue queued) ≡ length queued
unfolding start_queue unclaimed
unclaimed-start [] = refl
unclaimed-start (t ∷ ts) = ap suc (unclaimed-start ts)

tags_of-start : (queued : List Text) → tags_of (start_queue queued) ≡ queued
unfolding start_queue
tags_of-start [] = refl
tags_of-start (t ∷ ts) = ap (◌∷◌ t) (tags_of-start ts)

assign-Settled :
    (ratio : ℕ) (workers : List Worker) (queued : List Text)
    → Settled (hosts_of ratio workers) (start_queue queued) (assign ratio workers queued)
unfolding assign start_queue
assign-Settled ratio workers queued =
    rounds-Settled (total_slots (hosts_of ratio workers)) (hosts_of ratio workers) _ (le_refl _)

-- The loop ends by its own test, the runs keep their tags and places, and each run that is claimed
-- has used up one slot of a host.
pub assign_accounts :
    (ratio : ℕ) (workers : List Worker) (queued : List Text)
    → let r = assign ratio workers queued in
      (r.matches_found ≡ false)
      × (tags_of r.queue ≡ queued)
      × (total_slots r.hosts + length queued
          ≡ total_slots (hosts_of ratio workers) + unclaimed r.queue)
assign_accounts ratio workers queued =
    let s = assign-Settled ratio workers queued in
    (s.ended, s.tags ∙ tags_of-start queued, omega (arith, s.conserved, unclaimed-start queued))

-- When the loop has ended, no host that has a slot left could take a run that is left.
pub assign_maximal :
    (ratio : ℕ) (workers : List Worker) (queued : List Text)
    → let r = assign ratio workers queued in
      All (λ h. (h.slots ≡ 0) ⊎ All (λ run. ¬ CanTake h.tags run) r.queue) r.hosts
assign_maximal ratio workers queued =
    let r = assign ratio workers queued in
    All-imp (NoUse r.queue) _ r.hosts (λ h n. no_take h r.queue n)
      (assign-Settled ratio workers queued).no_use
