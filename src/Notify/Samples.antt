-- ===== src/Notify/Samples.antt =====
-- Statistics of two builds, and a hook that is accepted at the second post.
use jobserv.Prelude.{ℕ, zero, suc, ◌≡◌, refl, true, false, none, some, [], ◌∷◌, text}
use jobserv.Status.{passed, failed, is}
use jobserv.Models.{Build}
use jobserv.Fixtures.{sample_build}
use jobserv.Notify.{
  BuildStats, get_build_stats, Answer, code, error, deliver, Session, send, sent, raised,
  last_builds, count_builds, counts,
}
use jobserv.Notify.Stats.{Rated, get_build_stats-Rated}
use jobserv.Notify.Delivery.{Delivers, deliver-Delivers}
use jobserv.Notify.Mails.{mailed}

abbrev old_build : Build
old_build = record sample_build { status = failed }

abbrev new_build : Build
new_build = record sample_build { id = 12; build_id = 3; status = passed }

get_build_stats-Rated_example :
    (s : BuildStats) × (rate : ℕ) × (get_build_stats new_build (old_build ∷ new_build ∷ [])
      ≡ some (s, rate))
    × Rated s rate
unfolding counts is
get_build_stats-Rated_example = get_build_stats-Rated new_build (old_build ∷ new_build ∷ []) refl

half :
    get_build_stats new_build (old_build ∷ new_build ∷ [])
    ≡ some (record { passes = 1; total = 2; pass_fails = text "+-" }, 50)
unfolding get_build_stats last_builds count_builds is
half = refl

abbrev second : ℕ → Answer
second zero = error
second (suc n) = code 200

deliver-Delivers_example : Delivers second 4 7 (deliver second)
deliver-Delivers_example = deliver-Delivers second

abbrev good : Session
good = record { starttls = some 220; login = some 235; sends = true; quits = true }

-- The second session sends; a refused login is not tried again.
abbrev flaky : ℕ → Session
flaky zero = record good { sends = false }
flaky (suc n) = good

second_session : send flaky ≡ sent
unfolding send
second_session = refl

no_login : send (λ i. record good { login = some 535 }) ≡ raised
unfolding send
no_login = refl

quiet : mailed (some (record { users = text "a"; only_failures = true })) passed ≡ none
unfolding mailed is
quiet = refl
