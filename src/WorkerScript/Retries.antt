-- ===== src/WorkerScript/Retries.antt =====
-- The requests that are tried again: `JobServ.update_run`, `JobServ.upload_logs` and
-- `_download_runner`.
use jobserv.Prelude.{
  ℕ, zero, suc, ◌+◌, ◌*◌, ◌≤◌, ◌<◌, ◌≡◌, refl, sym, subst, ◌⊎◌, inl, inr, Bool, true, false, ltb,
  ◌==◌, arith, Bool-cases,
}

pub data Answer : Type 0 where
  status : ℕ → Answer
  -- an exception of the library for requests, which nothing catches
  raises : Answer

pub data Outcome : Type 0 where
  sent gave_up raised : Outcome

-- The requests that were made, the seconds slept between them, and how the loop ends.
pub record Tried : Type 0 where
  pub requests : ℕ
  pub slept : ℕ
  pub outcome : Outcome

-- `for i in range(tries)`, from the i-th on: before each but the first it sleeps for `2 * i`.
retry : (ℕ → Bool) → (ℕ → Answer) → ℕ → ℕ → ℕ → Tried
retry is_ok answer zero i slept = record { requests = i; slept = slept; outcome = gave_up }
retry is_ok answer (suc n) i slept = elim (answer i) [
  | raises ↦ record { requests = i + 1; slept = slept + 2 * i; outcome = raised }
  | status code ↦ elim (is_ok code) [
    | true ↦ record { requests = i + 1; slept = slept + 2 * i; outcome = sent }
    | false ↦ retry is_ok answer n (i + 1) (slept + 2 * i)
  ]
]

-- `JobServ.update_run`
unfoldable pub update_run : (ℕ → Answer) → Tried
unfolding retry
update_run answer = retry (λ code. code == 200) answer 8 0 0

-- `JobServ.upload_logs`, where `r.ok` holds of each status below 400.
unfoldable pub upload_logs : (ℕ → Answer) → Tried
unfolding retry
upload_logs answer = retry (λ code. ltb code 400) answer 4 0 0

-- `_download_runner`, with its three tries; `gave_up` is a RuntimeError. It sleeps for `i * 2` after the
-- i-th try, as the loop above does before the next one.
unfoldable pub download_runner : (ℕ → Answer) → Tried
unfolding retry
download_runner answer = retry (λ code. code == 200) answer 3 0 0

-- An answer that leads to another request.
abbrev pub Refused : (ℕ → Bool) → Answer → Type 0
Refused is_ok (status code) = is_ok code ≡ false
Refused is_ok raises = ⊥

abbrev pub Fits : (ℕ → Bool) → Answer → Outcome → Type 0
Fits is_ok (status code) sent = is_ok code ≡ true
Fits is_ok (status code) gave_up = is_ok code ≡ false
Fits is_ok (status code) raised = ⊥
Fits is_ok raises sent = ⊥
Fits is_ok raises gave_up = ⊥
Fits is_ok raises raised = Unit

-- What a loop of `tries` requests does: it makes the last of them, as the first that is not refused.
pub record Tries (is_ok : ℕ → Bool) (answer : ℕ → Answer) (tries : ℕ) (r : Tried) : Type 0 where
  pub last : ℕ
  pub counted : r.requests ≡ last + 1
  pub bounded : r.requests ≤ tries
  pub refused : (j : ℕ) → j < last → Refused is_ok (answer j)
  pub fits : Fits is_ok (answer last) r.outcome
  pub given_up : r.outcome ≡ gave_up → r.requests ≡ tries
  pub waited : r.slept ≡ last * (last + 1)

below_suc : (j i : ℕ) → j < i + 1 → (j < i) ⊎ (j ≡ i)
below_suc j i h = ground arith

Answer-cases : (a : Answer) → (a ≡ raises) ⊎ ((code : ℕ) × (a ≡ status code))
Answer-cases raises = inl refl
Answer-cases (status code) = inr (code, refl)

-- One more answer that is refused.
Refused-suc :
    (is_ok : ℕ → Bool) (answer : ℕ → Answer) (i : ℕ)
    → ((j : ℕ) → j < i → Refused is_ok (answer j))
    → Refused is_ok (answer i)
    → (j : ℕ) → j < i + 1
    → Refused is_ok (answer j)
Refused-suc is_ok answer i before r j h = elim (below_suc j i h) [
  | inl l ↦ before j l
  | inr e ↦ subst (λ k. Refused is_ok (answer k)) (sym e) r
]

slept_after : (i slept : ℕ) → slept + i ≡ i * i → slept + 2 * i ≡ i * (i + 1)
slept_after i slept w = grind arith

slept_next : (i slept : ℕ) → slept + i ≡ i * i → slept + 2 * i + (i + 1) ≡ (i + 1) * (i + 1)
slept_next i slept w = grind arith

-- The loop ends with the i-th answer.
ended-Tries :
    (is_ok : ℕ → Bool) (answer : ℕ → Answer) (tries i slept : ℕ) (o : Outcome)
    → i < tries
    → ((j : ℕ) → j < i → Refused is_ok (answer j))
    → slept + i ≡ i * i
    → Fits is_ok (answer i) o
    → (o ≡ gave_up → i + 1 ≡ tries)
    → Tries is_ok answer tries (record { requests = i + 1; slept = slept + 2 * i; outcome = o })
ended-Tries is_ok answer tries i slept o h before w f g = record {
  last = i;
  counted = refl;
  bounded = omega (arith, h);
  refused = before;
  fits = f;
  given_up = g;
  waited = slept_after i slept w;
}

slept_bound : (last slept : ℕ) → last ≤ 7 → slept ≡ last * (last + 1) → slept ≤ 56
slept_bound last slept h w = grind arith

-- One round of the loop, with what is known of the rounds after a refusal.
retry_round :
    (is_ok : ℕ → Bool) (answer : ℕ → Answer) (n i slept tries : ℕ)
    → i + suc n ≡ tries
    → ((j : ℕ) → j < i → Refused is_ok (answer j))
    → slept + i ≡ i * i
    → (((j : ℕ) → j < i + 1 → Refused is_ok (answer j))
        → Fits is_ok (answer i) gave_up
        → Tries is_ok answer tries (retry is_ok answer n (i + 1) (slept + 2 * i)))
    → Tries is_ok answer tries (retry is_ok answer (suc n) i slept)
unfolding retry
retry_round is_ok answer n i slept tries t before w rest = elim (Answer-cases (answer i)) [
  | inl e ↦
      rw (e, retry)
        (ended-Tries is_ok answer tries i slept raised (omega (arith, t)) before w
          (subst (λ a. Fits is_ok a raised) (sym e) tt) (λ h. cc))
  | inr (code, e) ↦ elim (Bool-cases (is_ok code)) [
    | inl ok ↦
        rw (e, retry, ok)
          (ended-Tries is_ok answer tries i slept sent (omega (arith, t)) before w
            (subst (λ a. Fits is_ok a sent) (sym e) ok) (λ h. cc))
    | inr bad ↦
        let next = Refused-suc is_ok answer i before (subst (λ a. Refused is_ok a) (sym e) bad) in
        let g = subst (λ a. Fits is_ok a gave_up) (sym e) bad in rw (e, retry, bad) (rest next g)
  ]
]

retry-Tries :
    (is_ok : ℕ → Bool) (answer : ℕ → Answer) (n i slept tries : ℕ)
    → i + suc n ≡ tries
    → ((j : ℕ) → j < i → Refused is_ok (answer j))
    → slept + i ≡ i * i
    → Tries is_ok answer tries (retry is_ok answer (suc n) i slept)
retry-Tries is_ok answer zero i slept tries t before w =
    retry_round is_ok answer zero i slept tries t before w (λ next g.
      unfold retry in
      ended-Tries is_ok answer tries i slept gave_up (omega (arith, t)) before w g
        (λ h. omega (arith, t)))
retry-Tries is_ok answer (suc n) i slept tries t before w =
    retry_round is_ok answer (suc n) i slept tries t before w (λ next g.
      retry-Tries is_ok answer n (i + 1) (slept + 2 * i) tries (omega (arith, t)) next
        (slept_next i slept w))

-- A report of the worker is sent eight times at most, again only while the server refuses it, and with
-- pauses of 56 seconds at most.
pub update_run-Tries :
    (answer : ℕ → Answer)
    → Tries (λ code. code == 200) answer 8 (update_run answer) × ((update_run answer).slept ≤ 56)
unfolding update_run
update_run-Tries answer =
    let is_ok = λ (code : ℕ). code == 200 in
    let t = retry-Tries is_ok answer 7 0 0 8 refl (λ j h. elim h [ ]) refl in
    (
      t,
      slept_bound t.last (retry is_ok answer 8 0 0).slept (omega (arith, t.counted, t.bounded))
          t.waited,
    )
