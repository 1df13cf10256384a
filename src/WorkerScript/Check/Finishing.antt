-- ===== src/WorkerScript/Check/Finishing.antt =====
-- Each run that a worker was sent comes to an end whose report begins.
use jobserv.Prelude.{
  ◌≡◌, refl, ◌⊎◌, inl, inr, Bool, true, ◌||◌, Option, none, some, List, [], ◌∷◌, ◌++◌, any, Text,
  arith, Bool-cases,
}
use jobserv.Status.{BuildStatus, is}
use jobserv.Runner.Execute.{Execution, execute, rebooted}
use jobserv.Runner.Execute.Finishing.{is_final, Finishes, execute-Finishes}
use jobserv.WorkerScript.Retries.{Outcome, sent, gave_up, raised, update_run, download_runner}
use jobserv.WorkerScript.Check.{
  Setup, Child, after_execute, downloaded, after_update, with_volumes, handle_run,
}

any-++ : (l m : List BuildStatus) → any is_final (l ++ m) ≡ any is_final l || any is_final m
any-++ [] m = refl
any-++ (x ∷ l) m = ground (arith, any-++ l m)

-- The runner ended since the run asked for a reboot, and the machine goes down.
abbrev pub Reboots : Bool → Execution → Type 0
Reboots reboots e = (reboots ≡ true) × (cold : Bool) × (e.ended ≡ rebooted cold)

-- The report of a final status begins, or the machine goes down for the run.
abbrev pub Ends : Setup → Child → Type 0
Ends s c = (any is_final (handle_run s c) ≡ true) ⊎ Reboots c.reboots (execute c.steps)

after_execute-Finishes :
    (c : Child) (e : Execution)
    → Finishes e
    → (any is_final (e.reports ++ after_execute c e.ended) ≡ true) ⊎ Reboots c.reboots e
unfolding after_execute is_final is
after_execute-Finishes c e (inl h) =
    inl (ground (arith, h, any-++ e.reports (after_execute c e.ended)))
after_execute-Finishes c e (inr (cold, h)) = elim (Bool-cases c.reboots) [
  | inl r ↦ inr (r, cold, h)
  | inr r ↦ inl (ground (arith, any-++ e.reports (after_execute c e.ended), h, r))
]

downloaded-Finishes :
    (c : Child) (o : Outcome)
    → (any is_final (downloaded c o) ≡ true) ⊎ Reboots c.reboots (execute c.steps)
unfolding downloaded is_final is
downloaded-Finishes c sent = elim (Bool-cases c.imported) [
  | inl i ↦ rw i (after_execute-Finishes c (execute c.steps) (execute-Finishes c.steps))
  | inr i ↦ inl (ground (arith, i))
]
downloaded-Finishes c gave_up = inl refl
downloaded-Finishes c raised = inl refl

after_update-Finishes :
    (s : Setup) (c : Child) (o : Outcome)
    → (any is_final (after_update s c o) ≡ true) ⊎ Reboots c.reboots (execute c.steps)
unfolding after_update is_final is
after_update-Finishes s c raised = inl refl
after_update-Finishes s c sent = elim (Bool-cases s.forked) [
  | inl f ↦ rw f (downloaded-Finishes c (download_runner c.answers).outcome)
  | inr f ↦ inl (ground (arith, f))
]
after_update-Finishes s c gave_up = elim (Bool-cases s.forked) [
  | inl f ↦ rw f (downloaded-Finishes c (download_runner c.answers).outcome)
  | inr f ↦ inl (ground (arith, f))
]

with_volumes-Finishes :
    (s : Setup) (c : Child) (m : Option (List (Text × Text)))
    → (any is_final (with_volumes s c m) ≡ true) ⊎ Reboots c.reboots (execute c.steps)
unfolding with_volumes is_final is
with_volumes-Finishes s c none = inl refl
with_volumes-Finishes s c (some mapping) = elim (Bool-cases s.limited) [
  | inr e ↦ inl (ground (arith, e))
  | inl e ↦ rw e (after_update-Finishes s c (update_run s.answers).outcome)
]

-- However the preparation, the download or the runner fail: the report of a final status begins, or the
-- runner ended with the request for a reboot and the machine goes down for it. Whether the report
-- that begins is delivered is not stated.
pub handle_run-Finishes : (s : Setup) (c : Child) → Ends s c
unfolding handle_run is_final is
handle_run-Finishes s c = elim (Bool-cases s.called) [
  | inr e ↦ inl (ground (arith, e))
  | inl e ↦ rw e (with_volumes-Finishes s c _)
]
