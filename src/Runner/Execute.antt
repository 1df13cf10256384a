-- ===== src/Runner/Execute.antt =====
-- runner/jobserv_runner/handlers/simple.py, `SimpleHandler.execute`: the order of the steps of a run, and
-- the status that it ends with. How each step ends is an argument; the alarm that bounds the time
-- of a run, and the request of the server to end it, may come in any of them.
pub mod Finishing
use jobserv.Prelude.{
  ℕ, zero, suc, ◌+◌, ◌≡◌, ◌≢◌, ◌⊎◌, ◌↔◌, refl, sym, subst, ap, ◌∙◌, inl, inr, Bool, true, false,
  not, ◌&&◌, ◌||◌, Option, none, some, List, [], ◌∷◌, ◌++◌, any, arith, Bool-cases, if◌then◌else◌,
}
use jobserv.Status.{BuildStatus, passed, failed, is, is→eq, is_refl}

-- How a step may end.
pub data Step {ℓ} (A : Type ℓ) : Type ℓ where
  done : A → Step A
  -- `HandlerError`, with the alarm's `RunTimeoutError`
  handler_error : Step A
  -- `RunCancelledError`
  cancelled : Step A
  -- `RebootAndContinue(cold)`
  reboot : Bool → Step A
  -- another exception, and whether its stack trace was logged
  unexpected : Bool → Step A

infixl 5 ◌>>=◌ ◌>>◌
abbrev pub ◌>>=◌ {ℓ κ} : {A : Type ℓ} {B : Type κ} → Step A → (A → Step B) → Step B
done a >>= f = f a
handler_error >>= f = handler_error
cancelled >>= f = cancelled
reboot cold >>= f = reboot cold
unexpected logged >>= f = unexpected logged

abbrev pub ◌>>◌ {ℓ κ} : {A : Type ℓ} {B : Type κ} → Step A → Step B → Step B
m >> k = m >>= λ _. k

-- The steps of a run. `report n status` is how the n-th report of a final status ends.
pub record Steps : Type 0 where
  pub simulated : Bool
  pub instructions : Step (Unit {0})
  pub docker_pull : Step (Unit {0})
  pub start_timer : Step (Unit {0})
  pub prepare_mounts : Step (Unit {0})
  pub docker_run : Step Bool
  pub check_for_reboot : Step (Unit {0})
  pub update_run : Step (Unit {0})
  pub upload_artifacts : Step Bool
  pub test_suite_errors : Step Bool
  pub report : ℕ → BuildStatus → Step (Unit {0})

-- `last_status`, when the report of it begins.
unfoldable pub last_status : Steps → Step BuildStatus
last_status s = do
  if s.simulated then done tt else s.instructions
  s.docker_pull
  s.start_timer
  s.prepare_mounts
  ok ← s.docker_run
  if ok then s.check_for_reboot else done tt
  s.update_run
  uploaded ← s.upload_artifacts
  errors ← s.test_suite_errors
  done (if ok && uploaded && not errors then passed else failed)

pub data Ended : Type 0 where
  returned : Bool → Ended
  -- `RebootAndContinue` is raised to the worker's script
  rebooted : Bool → Ended
  -- another exception is raised to it
  raised : Ended

-- The statuses whose report was begun, in order, and how `execute` ends.
pub record Execution : Type 0 where
  pub reports : List BuildStatus
  pub ended : Ended

-- The report of a failure in an `except` clause.
unfoldable pub fail_run : List BuildStatus → Bool → Step (Unit {0}) → Execution
fail_run reports guarded (done _) = record { reports = reports; ended = returned false }
fail_run reports true other = record { reports = reports; ended = returned false }
fail_run reports false other = record { reports = reports; ended = raised }

-- The `except` clauses; `before` is what was reported before the exception. An exception that was not
-- logged is reported in a `try` of its own.
unfoldable pub on_error : Steps → List BuildStatus → Step (Unit {0}) → Execution
unfolding fail_run
on_error s before (done _) = record { reports = before; ended = returned true }
on_error s before (reboot cold) = record { reports = before; ended = rebooted cold }
on_error s before handler_error = fail_run (before ++ failed ∷ []) false (s.report 1 failed)
on_error s before cancelled = fail_run (before ++ failed ∷ []) false (s.report 1 failed)
on_error s before (unexpected true) = fail_run (before ++ failed ∷ []) false (s.report 1 failed)
on_error s before (unexpected false) = fail_run (before ++ failed ∷ []) true (s.report 1 failed)

unfoldable pub execute_from : Steps → Step BuildStatus → Execution
unfolding on_error
execute_from s (done status) = on_error s (status ∷ []) (s.report 0 status)
execute_from s handler_error = on_error s [] handler_error
execute_from s cancelled = on_error s [] cancelled
execute_from s (reboot cold) = on_error s [] (reboot cold)
execute_from s (unexpected logged) = on_error s [] (unexpected logged)

-- `execute`, after `get_jobserv`
unfoldable pub execute : Steps → Execution
unfolding execute_from
execute s = execute_from s (last_status s)

abbrev pub has_passed : List BuildStatus → Bool
has_passed = any (λ status. is status passed)

-- What must be the case for a run to pass.
pub record Passes (s : Steps) : Type 0 where
  pub instructed : (s.simulated ≡ true) ⊎ (s.instructions ≡ done tt)
  pub pulled : s.docker_pull ≡ done tt
  pub timed : s.start_timer ≡ done tt
  pub mounted : s.prepare_mounts ≡ done tt
  pub ran : s.docker_run ≡ done true
  pub not_rebooted : s.check_for_reboot ≡ done tt
  pub updated : s.update_run ≡ done tt
  pub uploaded : s.upload_artifacts ≡ done true
  pub no_errors : s.test_suite_errors ≡ done false

-- Inversion of a bind.
pub >>=-eq-done {ℓ κ} :
    {A : Type ℓ} {B : Type κ} (m : Step A) (f : A → Step B) {b : B}
    → (m >>= f) ≡ done b
    → (a : A) × (m ≡ done a) × (f a ≡ done b)
>>=-eq-done (done a) f h = (a, refl, h)
>>=-eq-done handler_error f h = cc
>>=-eq-done cancelled f h = cc
>>=-eq-done (reboot c) f h = cc
>>=-eq-done (unexpected l) f h = cc

-- The end of `last_status`.
finished-passed :
    (ok uploaded errors : Bool)
    → done (if ok && uploaded && not errors then passed else failed) ≡ done passed
    → (ok ≡ true) × (uploaded ≡ true) × (errors ≡ false)
finished-passed true true false h = (refl, refl, refl)
finished-passed true true true h = absurd (ground (arith, h))
finished-passed true false errors h = absurd (ground (arith, h))
finished-passed false uploaded errors h = absurd (ground (arith, h))

if-done :
    (b : Bool) (m : Step (Unit {0})) (u : Unit {0})
    → (if b then done tt else m) ≡ done u
    → (b ≡ true) ⊎ (m ≡ done tt)
if-done true m u h = inl refl
if-done false m u h = inr h

last_status-passed : (s : Steps) → last_status s ≡ done passed → Passes s
unfolding last_status
last_status-passed s h =
    let (a, i, h1) = >>=-eq-done (if s.simulated then done tt else s.instructions) _ h in
    let (b, p, h2) = >>=-eq-done s.docker_pull _ h1 in
    let (c, t, h3) = >>=-eq-done s.start_timer _ h2 in
    let (d, m, h4) = >>=-eq-done s.prepare_mounts _ h3 in
    let (ok, r, h5) = >>=-eq-done s.docker_run _ h4 in
    let (f, k, h6) = >>=-eq-done (if ok then s.check_for_reboot else done tt) _ h5 in
    let (g, u, h7) = >>=-eq-done s.update_run _ h6 in
    let (up, v, h8) = >>=-eq-done s.upload_artifacts _ h7 in
    let (errors, w, h9) = >>=-eq-done s.test_suite_errors _ h8 in
    let (x, y, z) = finished-passed ok up errors h9 in
    record {
      instructed = if-done s.simulated s.instructions a i;
      pulled = p;
      timed = t;
      mounted = m;
      ran = r ∙ ap done x;
      not_rebooted = subst (λ q. (if q then s.check_for_reboot else done tt) ≡ done tt) x k;
      updated = u;
      uploaded = v ∙ ap done y;
      no_errors = w ∙ ap done z;
    }

Passes-last_status : (s : Steps) → Passes s → last_status s ≡ done passed
unfolding last_status
Passes-last_status s p = ground (arith, p)

has_passed-snoc : (l : List BuildStatus) → has_passed (l ++ failed ∷ []) ≡ has_passed l
unfolding is
has_passed-snoc [] = refl
has_passed-snoc (x ∷ l) = ground (arith, has_passed-snoc l)

fail_run-reports :
    (l : List BuildStatus) (guarded : Bool) (m : Step (Unit {0}))
    → (fail_run l guarded m).reports ≡ l
unfolding fail_run
fail_run-reports l guarded (done _) = refl
fail_run-reports l true handler_error = refl
fail_run-reports l true cancelled = refl
fail_run-reports l true (reboot c) = refl
fail_run-reports l true (unexpected c) = refl
fail_run-reports l false handler_error = refl
fail_run-reports l false cancelled = refl
fail_run-reports l false (reboot c) = refl
fail_run-reports l false (unexpected c) = refl

on_error-passed :
    (s : Steps) (l : List BuildStatus) (m : Step (Unit {0}))
    → has_passed (on_error s l m).reports ≡ has_passed l
unfolding on_error
on_error-passed s l (done _) = refl
on_error-passed s l (reboot c) = refl
on_error-passed s l handler_error =
    rw (fail_run-reports (l ++ failed ∷ []) false (s.report 1 failed)) (has_passed-snoc l)
on_error-passed s l cancelled =
    rw (fail_run-reports (l ++ failed ∷ []) false (s.report 1 failed)) (has_passed-snoc l)
on_error-passed s l (unexpected true) =
    rw (fail_run-reports (l ++ failed ∷ []) false (s.report 1 failed)) (has_passed-snoc l)
on_error-passed s l (unexpected false) =
    rw (fail_run-reports (l ++ failed ∷ []) true (s.report 1 failed)) (has_passed-snoc l)

execute_from-passed :
    (s : Steps) (m : Step BuildStatus)
    → (has_passed (execute_from s m).reports ≡ true) ↔ (m ≡ done passed)
unfolding execute_from
execute_from-passed s (done status) = rw (on_error-passed s (status ∷ []) (s.report 0 status)) (
  (λ h. ap done (is→eq status passed (ground (arith, h)))),
  (λ h. ground (arith, h, is_refl passed)),
)
execute_from-passed s handler_error = rw (on_error-passed s [] handler_error) ((λ h. cc), λ h. cc)
execute_from-passed s cancelled = rw (on_error-passed s [] cancelled) ((λ h. cc), λ h. cc)
execute_from-passed s (reboot c) = ((λ h. absurd (unfold on_error in ground (arith, h))), λ h. cc)
execute_from-passed s (unexpected c) = rw (on_error-passed s [] (unexpected c)) ((λ h. cc), λ h. cc)

-- A run is reported as passed exactly if its container was fetched and its mounts were made, its script
-- succeeded and asked for no reboot, all artifacts were sent, no test failed, and neither the alarm
-- nor the server stopped any of this.
pub execute-passed : (s : Steps) → (has_passed (execute s).reports ≡ true) ↔ Passes s
unfolding execute
execute-passed s =
    let (to, from) = execute_from-passed s (last_status s) in
    ((λ h. last_status-passed s (to h)), λ p. from (Passes-last_status s p))
