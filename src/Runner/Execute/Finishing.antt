-- ===== src/Runner/Execute/Finishing.antt =====
-- Each run comes to an end whose report begins.
use jobserv.Prelude.{
  ◌≡◌, ◌≢◌, ◌⊎◌, refl, inl, inr, Bool, true, false, not, ◌&&◌, ◌||◌, List, [], ◌∷◌, ◌++◌, any,
  arith, if◌then◌else◌,
}
use jobserv.Status.{BuildStatus, passed, failed, is}
use jobserv.Runner.Execute.{
  Step, done, handler_error, cancelled, reboot, unexpected, ◌>>=◌, Steps, last_status, Execution,
  rebooted, fail_run, on_error, execute_from, execute,
}

unfoldable pub is_final : BuildStatus → Bool
unfolding is
is_final status = is status passed || is status failed

-- Some status of those that end a run was reported, or the run waits for a reboot.
abbrev pub Finishes : Execution → Type 0
Finishes e = (any is_final e.reports ≡ true) ⊎ ((cold : Bool) × (e.ended ≡ rebooted cold))

-- The status of a step that is done ends a run.
abbrev pub Final : Step BuildStatus → Type 0
Final (done status) = is_final status ≡ true
Final handler_error = Unit
Final cancelled = Unit
Final (reboot c) = Unit
Final (unexpected l) = Unit

>>=-Final {ℓ} :
    {A : Type ℓ} (m : Step A) (f : A → Step BuildStatus) → ((a : A) → Final (f a)) → Final (m >>= f)
>>=-Final (done a) f h = h a
>>=-Final handler_error f h = tt
>>=-Final cancelled f h = tt
>>=-Final (reboot c) f h = tt
>>=-Final (unexpected l) f h = tt

final_either : (b : Bool) → is_final (if b then passed else failed) ≡ true
unfolding is_final is
final_either true = refl
final_either false = refl

last_status-Final : (s : Steps) → Final (last_status s)
unfolding last_status
last_status-Final s = >>=-Final (if s.simulated then done tt else s.instructions) _ λ a.
    >>=-Final s.docker_pull _ λ b. >>=-Final s.start_timer _ λ c. >>=-Final s.prepare_mounts _ λ d.
      >>=-Final s.docker_run _ λ ok. >>=-Final (if ok then s.check_for_reboot else done tt) _ λ f.
        >>=-Final s.update_run _ λ g. >>=-Final s.upload_artifacts _ λ uploaded.
          >>=-Final s.test_suite_errors _ λ errors. final_either (ok && uploaded && not errors)

final_last : (l : List BuildStatus) → any is_final (l ++ failed ∷ []) ≡ true
unfolding is_final is
final_last [] = refl
final_last (x ∷ l) = ground (arith, final_last l)

fail_run-Finishes :
    (l : List BuildStatus) (guarded : Bool) (m : Step (Unit {0}))
    → any is_final (fail_run (l ++ failed ∷ []) guarded m).reports ≡ true
unfolding fail_run
fail_run-Finishes l guarded (done _) = final_last l
fail_run-Finishes l true handler_error = final_last l
fail_run-Finishes l true cancelled = final_last l
fail_run-Finishes l true (reboot c) = final_last l
fail_run-Finishes l true (unexpected c) = final_last l
fail_run-Finishes l false handler_error = final_last l
fail_run-Finishes l false cancelled = final_last l
fail_run-Finishes l false (reboot c) = final_last l
fail_run-Finishes l false (unexpected c) = final_last l

-- A step after which a status was reported, or that reports one itself.
on_error-Finishes :
    (s : Steps) (l : List BuildStatus) (m : Step (Unit {0}))
    → (any is_final l ≡ true) ⊎ (m ≢ done tt)
    → Finishes (on_error s l m)
unfolding on_error
on_error-Finishes s l (done _) (inl h) = inl h
on_error-Finishes s l (done tt) (inr n) = absurd (n refl)
on_error-Finishes s l (reboot c) h = inr (c, refl)
on_error-Finishes s l handler_error h = inl (fail_run-Finishes l false (s.report 1 failed))
on_error-Finishes s l cancelled h = inl (fail_run-Finishes l false (s.report 1 failed))
on_error-Finishes s l (unexpected true) h = inl (fail_run-Finishes l false (s.report 1 failed))
on_error-Finishes s l (unexpected false) h = inl (fail_run-Finishes l true (s.report 1 failed))

execute_from-Finishes : (s : Steps) (m : Step BuildStatus) → Final m → Finishes (execute_from s m)
unfolding execute_from
execute_from-Finishes s (done status) f =
    on_error-Finishes s (status ∷ []) (s.report 0 status) (inl (ground (arith, f)))
execute_from-Finishes s handler_error f = on_error-Finishes s [] handler_error (inr λ e. cc e)
execute_from-Finishes s cancelled f = on_error-Finishes s [] cancelled (inr λ e. cc e)
execute_from-Finishes s (reboot c) f = on_error-Finishes s [] (reboot c) (inr λ e. cc e)
execute_from-Finishes s (unexpected c) f = on_error-Finishes s [] (unexpected c) (inr λ e. cc e)

-- However the steps of a run end: either it begins the report that the run passed or failed, or the run
-- is saved for the time after a reboot.
pub execute-Finishes : (s : Steps) → Finishes (execute s)
unfolding execute
execute-Finishes s = execute_from-Finishes s (last_status s) (last_status-Final s)
