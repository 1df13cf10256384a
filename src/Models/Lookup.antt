-- ===== src/Models/Lookup.antt =====
-- Finding the row of a key after a change of a row.
use jobserv.Prelude.{
  ℕ, ◌≡◌, refl, Bool, Option, none, some, List, [], ◌∷◌, arith, ◌==◌, Text, if◌then◌else◌,
}
use mathlib.Core.Option
use jobserv.Status.{BuildStatus}
use jobserv.Models.{
  Run, find_run, modify_run, statuses, run_ids, assign_status, add_event, force_running,
}

-- The status that a run of the list has.
unfoldable pub status_of : ℕ → List Run → Option BuildStatus
status_of id rs = Option.map (λ r. r.status) (find_run id rs)

-- A change that keeps the key.
abbrev pub KeepsId : (Run → Run) → Type 0
KeepsId f = (r : Run) → (f r).id ≡ r.id

pub find_run-id : (i : ℕ) (rs : List Run) (r : Run) → find_run i rs ≡ some r → r.id ≡ i
unfolding find_run
find_run-id i [] r h = cc
find_run-id i (x ∷ rs) r h = ground (arith, find_run-id i rs r)

module _ (i : ℕ) (f : Run → Run) (keeps : KeepsId f) where
  pub find_run-modify_run :
      (j : ℕ) (rs : List Run)
      → find_run j (modify_run i f rs)
        ≡ (if i == j then Option.map f (find_run j rs) else find_run j rs)
  unfolding find_run modify_run
  find_run-modify_run j [] = ground arith
  find_run-modify_run j (r ∷ rs) = ground (arith, keeps r, find_run-modify_run j rs)

  pub run_ids-modify_run : (rs : List Run) → run_ids (modify_run i f rs) ≡ run_ids rs
  unfolding run_ids modify_run
  run_ids-modify_run [] = refl
  run_ids-modify_run (r ∷ rs) = ground (arith, keeps r, run_ids-modify_run rs)

  -- A change that keeps the status of its run keeps the statuses of all.
  pub statuses-modify_run :
      ((r : Run) → (f r).status ≡ r.status)
      → (rs : List Run) → statuses (modify_run i f rs) ≡ statuses rs
  unfolding statuses modify_run
  statuses-modify_run same [] = refl
  statuses-modify_run same (r ∷ rs) = ground (arith, same r, statuses-modify_run same rs)

-- A key that no row has changes no row.
pub modify_run-none :
    (i : ℕ) (f : Run → Run) (rs : List Run) → find_run i rs ≡ none → modify_run i f rs ≡ rs
unfolding find_run modify_run
modify_run-none i f [] h = refl
modify_run-none i f (r ∷ rs) h = ground (arith, modify_run-none i f rs)

pub assign_status-KeepsId : (s : BuildStatus) → KeepsId (assign_status s)
unfolding assign_status
assign_status-KeepsId s r = refl

pub add_event-KeepsId : (now : ℕ) (s : BuildStatus) (w : Option Text) → KeepsId (add_event now s w)
unfolding add_event
add_event-KeepsId now s w r = refl

pub force_running-KeepsId : KeepsId force_running
unfolding force_running
force_running-KeepsId r = refl

-- The status that a change of a row by a constant leaves.
abbrev pub replace : Bool → BuildStatus → Option BuildStatus → Option BuildStatus
replace hit s none = none
replace hit s (some t) = if hit then some s else some t
