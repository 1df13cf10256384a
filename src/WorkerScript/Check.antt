-- ===== src/WorkerScript/Check.antt =====
-- `_handle_run` and `cmd_check`: what a worker does with the runs that it is sent, and the statuses that
-- are reported for them, by it and by the runner. Each request, callback and change of the
-- file system that may raise is an argument.
pub mod Finishing
use jobserv.Prelude.{
  ℕ, ◌≡◌, ◌↔◌, refl, ◌⊎◌, inl, inr, Bool, true, false, ◌||◌, Option, none, some, List, [], ◌∷◌,
  ◌++◌, any, Text, arith, Bool-cases, if◌then◌else◌,
}
use jobserv.Status.{BuildStatus, running, failed, is}
use jobserv.Runner.Execute.{
  Steps, Step, Execution, Ended, returned, rebooted, execute, has_passed, Passes, execute-passed,
}
use jobserv.Runner.Execute.Finishing.{is_final, Finishes, execute-Finishes}
use jobserv.Runner.Execute
use jobserv.WorkerScript.Retries.{
  Answer, Outcome, sent, gave_up, raised, update_run, download_runner,
}
use jobserv.WorkerScript.Setup.{update_shared_volumes}

-- How `_delete_rundir` ends.
pub data Deleted : Type 0 where
  removed exits raises : Deleted

-- What happens before the fork.
pub record Setup : Type 0 where
  -- `_run_callback("RUN_START")` and `_block_metadata_service` return
  pub called : Bool
  pub section : Option (List (Text × Text))
  pub extra_certs : Bool
  pub shared_volumes : List (Text × Text)
  -- `_update_max_memory` returns
  pub limited : Bool
  pub answers : ℕ → Answer
  -- the directory is made, and the process forks
  pub forked : Bool

-- What happens in the new process.
pub record Child : Type 0 where
  pub answers : ℕ → Answer
  pub imported : Bool
  pub steps : Steps
  -- `_run_callback("RUN_COMPLETE")` returns
  pub called : Bool
  -- the machine goes down within three minutes of the command
  pub reboots : Bool
  pub deleted : Deleted

-- `_delete_rundir` as the last statement of the `try`
tidy : Deleted → List BuildStatus
tidy removed = []
tidy exits = []
tidy raises = failed ∷ []

after_execute : Child → Ended → List BuildStatus
unfolding tidy
after_execute c (returned ok) = if c.called then tidy c.deleted else failed ∷ []
after_execute c (rebooted cold) = if c.reboots then [] else failed ∷ []
after_execute c Execute.raised = failed ∷ []

downloaded : Child → Outcome → List BuildStatus
unfolding after_execute
downloaded c sent =
    if c.imported
    then (execute c.steps).reports ++ after_execute c (execute c.steps).ended
    else failed ∷ []
downloaded c gave_up = failed ∷ []
downloaded c raised = failed ∷ []

after_update : Setup → Child → Outcome → List BuildStatus
unfolding downloaded
after_update s c raised = failed ∷ []
after_update s c sent =
    if s.forked then downloaded c (download_runner c.answers).outcome else failed ∷ []
after_update s c gave_up =
    if s.forked then downloaded c (download_runner c.answers).outcome else failed ∷ []

with_volumes : Setup → Child → Option (List (Text × Text)) → List BuildStatus
unfolding after_update
with_volumes s c none = failed ∷ []
with_volumes s c (some mapping) =
    if s.limited then running ∷ after_update s c (update_run s.answers).outcome else failed ∷ []

-- `_handle_run`: the statuses whose reports begin, in order.
unfoldable pub handle_run : Setup → Child → List BuildStatus
unfolding with_volumes
handle_run s c =
    if s.called
    then with_volumes s c (update_shared_volumes s.section s.extra_certs s.shared_volumes)
    else failed ∷ []

-- What must be the case for a run to be reported as passed.
pub record Succeeds (s : Setup) (c : Child) : Type 0 where
  pub called : s.called ≡ true
  pub volumes :
      (mapping : List (Text × Text)) × (update_shared_volumes s.section s.extra_certs
          s.shared_volumes
        ≡ some mapping)
  pub limited : s.limited ≡ true
  pub updated : ((update_run s.answers).outcome ≡ sent) ⊎ ((update_run s.answers).outcome ≡ gave_up)
  pub forked : s.forked ≡ true
  pub downloaded : (download_runner c.answers).outcome ≡ sent
  pub imported : c.imported ≡ true
  pub passes : Passes c.steps

has_passed-++ : (l m : List BuildStatus) → has_passed m ≡ false → has_passed (l ++ m) ≡ has_passed l
has_passed-++ [] m h = h
has_passed-++ (x ∷ l) m h = ground (arith, has_passed-++ l m h)

after_execute-passed : (c : Child) (e : Ended) → has_passed (after_execute c e) ≡ false
unfolding after_execute tidy is
after_execute-passed c (returned ok) = elim c.deleted [
  | removed ↦ ground arith
  | exits ↦ ground arith
  | raises ↦ ground arith
]
after_execute-passed c (rebooted cold) = ground arith
after_execute-passed c Execute.raised = refl

Outcome-cases : (o : Outcome) → (o ≡ sent) ⊎ (o ≡ gave_up) ⊎ (o ≡ raised)
Outcome-cases sent = inl refl
Outcome-cases gave_up = inr (inl refl)
Outcome-cases raised = inr (inr refl)

downloaded-passed :
    (c : Child) (o : Outcome)
    → (has_passed (downloaded c o) ≡ true) ↔ ((o ≡ sent) × (c.imported ≡ true) × Passes c.steps)
unfolding downloaded is
downloaded-passed c sent =
    let e = execute c.steps in
    let (to, from) = execute-passed c.steps in
    let kept = has_passed-++ e.reports (after_execute c e.ended) (after_execute-passed c e.ended) in
    elim (Bool-cases c.imported) [
      | inl i ↦ rw (i, kept) ((λ h. (refl, refl, to h)), λ p. from p.2)
      | inr i ↦ ((λ h. absurd (ground (arith, h, i))), λ p. absurd (ground (arith, p.1, i)))
    ]
downloaded-passed c gave_up = ((λ h. absurd (ground (arith, h))), λ p. cc (p.0))
downloaded-passed c raised = ((λ h. absurd (ground (arith, h))), λ p. cc (p.0))

-- The fork, whichever way the report before it ended.
forked-passed :
    (s : Setup) (c : Child)
    → has_passed
        (if s.forked then downloaded c (download_runner c.answers).outcome else failed ∷ [])
      ≡ true
    → (s.forked ≡ true)
      × ((download_runner c.answers).outcome ≡ sent)
      × (c.imported ≡ true)
      × Passes c.steps
unfolding is
forked-passed s c h = elim (Bool-cases s.forked) [
  | inl f ↦
      let (d, i, p) =
        (downloaded-passed c (download_runner c.answers).outcome).0 (ground (arith, h, f)) in
      (f, d, i, p)
  | inr f ↦ absurd (ground (arith, h, f))
]

after_update-passed :
    (s : Setup) (c : Child) (o : Outcome)
    → has_passed (after_update s c o) ≡ true
    → ((o ≡ sent) ⊎ (o ≡ gave_up))
      × (s.forked ≡ true)
      × ((download_runner c.answers).outcome ≡ sent)
      × (c.imported ≡ true)
      × Passes c.steps
unfolding after_update is
after_update-passed s c sent h = let (f, d, i, p) = forked-passed s c h in (inl refl, f, d, i, p)
after_update-passed s c gave_up h = let (f, d, i, p) = forked-passed s c h in (inr refl, f, d, i, p)
after_update-passed s c raised h = absurd (ground (arith, h))

with_volumes-passed :
    (s : Setup) (c : Child) (m : Option (List (Text × Text)))
    → has_passed (with_volumes s c m) ≡ true
    → ((mapping : List (Text × Text)) × (m ≡ some mapping))
      × (s.limited ≡ true)
      × (has_passed (after_update s c (update_run s.answers).outcome) ≡ true)
unfolding with_volumes is
with_volumes-passed s c none h = absurd (ground (arith, h))
with_volumes-passed s c (some mapping) h = ((mapping, refl), ground (arith, h), ground (arith, h))

handle_run-to : (s : Setup) (c : Child) → has_passed (handle_run s c) ≡ true → Succeeds s c
unfolding handle_run is
handle_run-to s c h = elim (Bool-cases s.called) [
  | inr e ↦ absurd (ground (arith, h, e))
  | inl e ↦
      let (m, l, k) = with_volumes-passed s c _ (ground (arith, h, e)) in
      let (u, f, d, i, p) = after_update-passed s c (update_run s.answers).outcome k in
      record {
        called = e;
        volumes = m;
        limited = l;
        updated = u;
        forked = f;
        downloaded = d;
        imported = i;
        passes = p;
      }
]

after_update-from :
    (s : Setup) (c : Child) (o : Outcome)
    → Succeeds s c
    → (o ≡ sent) ⊎ (o ≡ gave_up)
    → has_passed (after_update s c o) ≡ true
unfolding after_update
after_update-from s c sent p u =
    rw (p.forked) ((downloaded-passed c _).1 (p.downloaded, p.imported, p.passes))
after_update-from s c gave_up p u =
    rw (p.forked) ((downloaded-passed c _).1 (p.downloaded, p.imported, p.passes))
after_update-from s c raised p (inl u) = cc u
after_update-from s c raised p (inr u) = cc u

handle_run-from : (s : Setup) (c : Child) → Succeeds s c → has_passed (handle_run s c) ≡ true
unfolding handle_run with_volumes is
handle_run-from s c p =
    let (m, e) = p.volumes in
    rw (p.called, e, with_volumes, p.limited)
      (after_update-from s c (update_run s.answers).outcome p p.updated)

-- The report that a run passed begins exactly if everything before it succeeded on the worker (but the
-- report that it runs may be lost), its handler was downloaded and loaded, and the runner's own
-- steps passed. Whether the report that begins is delivered is not stated.
pub handle_run-passed :
    (s : Setup) (c : Child) → (has_passed (handle_run s c) ≡ true) ↔ Succeeds s c
handle_run-passed s c = (handle_run-to s c, handle_run-from s c)
