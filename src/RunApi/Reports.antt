-- ===== src/RunApi/Reports.antt =====
-- Reports of runners and the names of a build's runs.
use jobserv.Prelude.{
  ℕ, ◌≡◌, refl, inl, inr, Bool, ◌||◌, Option, none, some, List, [], ◌∷◌, ◌++◌, Text, Bool-cases,
  if◌then◌else◌,
}
use jobserv.Status.{BuildStatus, passed, failed, is}
use jobserv.Models.{Run, Test, Build, find_run, set_status, with_runs, modify_run}
use jobserv.Triggers.{Outcome, ok, name_error, api_error, unexpected, raised, build_of, run_names}
use jobserv.Triggers.Names.{IsNamed, names-modify_run}
use jobserv.RunApi.{
  Request, Access, granted, no_header, invalid_header, incorrect_key, completed,
  authenticate_runner, running_tests,
}
use jobserv.RunApi.Grepping.{Grepping, status_named, failed_tests}
use jobserv.RunApi.Followups.{Stored, handle_triggers}
use jobserv.RunApi.Names.{KeepsNames, set_status-IsNamed, if-KeepsNames, handle_triggers-IsNamed}
use jobserv.RunApi.Update.{
  decide, ack, add_tests, answer, after_triggers, locked_update, run_complete, settle_update,
  report_status, report_named, update_run, run_update, after_access,
}

pub with_runs-IsNamed :
    (id : ℕ) (f : Run → Run) (b : Build)
    → ((r : Run) → (f r).name ≡ r.name)
    → IsNamed b
    → IsNamed (with_runs b (modify_run id f b.runs))
unfolding with_runs run_names
with_runs-IsNamed id f b same h = rw (names-modify_run id f b.runs same) h

ack-name : (metadata : Option Text) (r : Run) → (ack metadata r).name ≡ r.name
unfolding ack
ack-name none r = refl
ack-name (some []) r = refl
ack-name (some (c ∷ m)) r = refl

after_triggers-IsNamed :
    (id : ℕ) (console : Text) (before : Build) (o : Outcome)
    → IsNamed before
    → KeepsNames o
    → IsNamed (after_triggers id console before o).build
unfolding after_triggers answer build_of
after_triggers-IsNamed id console before (ok b) h k = k
after_triggers-IsNamed id console before (name_error b) h k = h
after_triggers-IsNamed id console before (api_error b) h k = h
after_triggers-IsNamed id console before (unexpected b) h k = k
after_triggers-IsNamed id console before (raised b) h k = h

pub locked_update-IsNamed :
    (s : Stored) (id : ℕ) (status : BuildStatus) (console : Text) (b : Build)
    → IsNamed b
    → IsNamed (locked_update s id status console b).build
unfolding locked_update build_of
locked_update-IsNamed s id status console b h =
    let b' = set_status s.now id status b in
    let h' = set_status-IsNamed s.now id status b h in
    let finished = run_complete (find_run id b'.runs) in
    after_triggers-IsNamed id console b (if finished then handle_triggers s id b' else ok b') h (
      if-KeepsNames finished (handle_triggers s id b') (ok b') (handle_triggers-IsNamed s id b' h')
        h')

settle_update-IsNamed :
    (s : Stored) (id : ℕ) (r : Run) (status : BuildStatus) (console : Text) (b : Build)
    (found : Option (List Test × Bool))
    → IsNamed b
    → IsNamed (settle_update s id r status console b found).build
unfolding settle_update
settle_update-IsNamed s id r status console b none h = h
settle_update-IsNamed s id r status console b (some (tests, failures)) h =
    locked_update-IsNamed s id (decide status (running_tests r) failures) console _
      (with_runs-IsNamed id (add_tests tests) b (λ q. unfold add_tests in refl) h)

report_status-IsNamed :
    (s : Stored) (grepping : Option Grepping) (lines : List Text) (id : ℕ) (r : Run)
    (status : Option BuildStatus) (console : Text) (b : Build)
    → IsNamed b
    → IsNamed (report_status s grepping lines id r status console b).build
unfolding report_status answer
report_status-IsNamed s grepping lines id r none console b h = h
report_status-IsNamed s grepping lines id r (some status) console b h =
    elim (Bool-cases (is r.status status)) [
      | inl e ↦ rw e h
      | inr e ↦ elim (Bool-cases (is status passed || is status failed)) [
        | inl f ↦
            rw (e, f)
              (settle_update-IsNamed s id r status console b (failed_tests grepping lines) h)
        | inr f ↦ rw (e, f) (locked_update-IsNamed s id status console b h)
      ]
    ]

report_named-IsNamed :
    (s : Stored) (grepping : Option Grepping) (lines : List Text) (id : ℕ) (r : Run)
    (status : Option Text) (console : Text) (b : Build)
    → IsNamed b
    → IsNamed (report_named s grepping lines id r status console b).build
unfolding report_named answer
report_named-IsNamed s grepping lines id r none console b h = h
report_named-IsNamed s grepping lines id r (some []) console b h = h
report_named-IsNamed s grepping lines id r (some (c ∷ name)) console b h =
    report_status-IsNamed s grepping lines id r (status_named (c ∷ name)) console b h

after_access-IsNamed :
    (s : Stored) (grepping : Option Grepping) (lines_of : Text → List Text) (id : ℕ) (req : Request)
    (r : Run) (a : Access) (console : Text) (b : Build)
    → IsNamed b
    → IsNamed (after_access s grepping lines_of id req r a console b).build
unfolding after_access
after_access-IsNamed s grepping lines_of id req r granted console b h =
    let log = console ++ req.body in
    report_named-IsNamed s grepping (lines_of log) id r req.status log
      (with_runs b (modify_run id (ack req.metadata) b.runs))
      (with_runs-IsNamed id (ack req.metadata) b (ack-name req.metadata) h)
after_access-IsNamed s grepping lines_of id req r no_header console b h = h
after_access-IsNamed s grepping lines_of id req r invalid_header console b h = h
after_access-IsNamed s grepping lines_of id req r incorrect_key console b h = h
after_access-IsNamed s grepping lines_of id req r completed console b h = h

update_run-IsNamed :
    (s : Stored) (grepping : Option Grepping) (lines_of : Text → List Text) (id : ℕ) (req : Request)
    (r : Option Run) (console : Text) (b : Build)
    → IsNamed b
    → IsNamed (update_run s grepping lines_of id req r console b).build
unfolding update_run
update_run-IsNamed s grepping lines_of id req none console b h = h
update_run-IsNamed s grepping lines_of id req (some r) console b h =
    after_access-IsNamed s grepping lines_of id req r (authenticate_runner req r) console b h

-- Whatever a runner reports, and however the triggers that the report starts end, no two runs of
-- the build have one name.
pub run_update-IsNamed :
    (s : Stored) (grepping : Option Grepping) (lines_of : Text → List Text) (id : ℕ) (req : Request)
    (console : Text) (b : Build)
    → IsNamed b
    → IsNamed (run_update s grepping lines_of id req console b).build
unfolding run_update
run_update-IsNamed s grepping lines_of id req console b h =
    update_run-IsNamed s grepping lines_of id req (find_run id b.runs) console b h
