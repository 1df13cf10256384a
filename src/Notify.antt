-- ===== src/Notify.antt =====
-- jobserv/notify.py: mails about builds, runs and surges, and the delivery of web hooks. The mail
-- server, the receivers of the hooks, the links of the server itself and the digits of numbers are
-- arguments. The lines of the logs are left out.
pub mod Stats
pub mod Delivery
pub mod Mails
mod Samples
use jobserv.Prelude.{
  ℕ, zero, suc, ◌+◌, ◌*◌, ◌/◌, Bool, true, false, not, ◌&&◌, ◌||◌, Option, none, some, List, [],
  ◌∷◌, ◌++◌, map, select, take, length, Text, text, leb, ltb, ◌==◌, Formatted, formatted,
  value_error, lookup_error, format, lookup, if◌then◌else◌,
}
use jobserv.Status.{
  BuildStatus, queued, running, passed, failed, running_with_failures, uploading, promoted, skipped,
  cancelling, is,
}
use jobserv.Models.{Build, Run}
use jobserv.Project.{Dict}

-- `build_url`, `run_url`: a configured format, or else a link of the server.
unfoldable pub url_of : Option Text → List (Text × Text) → Text → Formatted
url_of none args link = formatted link
url_of (some []) args link = formatted link
url_of (some (c ∷ fmt)) args link = format args (c ∷ fmt)

-- `status.name`
unfoldable pub status_name : BuildStatus → Text
status_name queued = text "QUEUED"
status_name running = text "RUNNING"
status_name passed = text "PASSED"
status_name failed = text "FAILED"
status_name running_with_failures = text "RUNNING_WITH_FAILURES"
status_name uploading = text "UPLOADING"
status_name promoted = text "PROMOTED"
status_name skipped = text "SKIPPED"
status_name cancelling = text "CANCELLING"

-- The filters of the query of `_get_build_stats`.
unfoldable pub counts : Build → Build → Bool
counts build b =
    b.proj_id == build.proj_id && leb b.id build.id && (is b.status passed || is b.status failed)

-- `order_by(Build.id.desc())`
unfoldable pub insert_build : Build → List Build → List Build
insert_build b [] = b ∷ []
insert_build b (c ∷ cs) =
    let rest = insert_build b cs in if ltb b.id c.id then c ∷ rest else b ∷ c ∷ cs

unfoldable pub newest_first : List Build → List Build
unfolding insert_build
newest_first [] = []
newest_first (b ∷ bs) = insert_build b (newest_first bs)

unfoldable pub last_builds : Build → List Build → List Build
unfolding counts newest_first
last_builds build builds = take 20 (newest_first (select (counts build) builds))

pub record BuildStats : Type 0 where
  pub passes : ℕ
  pub total : ℕ
  pub pass_fails : Text

unfoldable pub count_build : Build → BuildStats → BuildStats
count_build b s =
    if is b.status passed
    then (record {
      passes = s.passes + 1;
      total = s.total + 1;
      pass_fails = s.pass_fails ++ text "+";
    })
    else (record { passes = s.passes; total = s.total + 1; pass_fails = s.pass_fails ++ text "-" })

-- The loop over the builds.
unfoldable pub count_builds : List Build → BuildStats → BuildStats
unfolding count_build
count_builds [] s = s
count_builds (b ∷ bs) s = count_builds bs (count_build b s)

-- The statistics with the rate of builds that passed; `none` is a ZeroDivisionError. The division of
-- floats is exact enough for 20 builds: its percentage is cut to the one of the natural numbers.
unfoldable pub rated : ℕ → BuildStats → Option (BuildStats × ℕ)
rated zero s = none
rated (suc n) s = some (s, (s.passes * 100) / suc n)

-- `_get_build_stats`
unfoldable pub get_build_stats : Build → List Build → Option (BuildStats × ℕ)
unfolding rated count_builds last_builds
get_build_stats build builds =
    let s =
      count_builds (last_builds build builds) (record { passes = 0; total = 0; pass_fails = [] }) in
    rated s.total s

pub record Message : Type 0 where
  pub subject : Text
  pub body : Text
  pub to : Text
  pub message_id : Option Text
  pub in_reply_to : Option Text

-- What the mail server does for one session: `none` is an exception of the library.
pub record Session : Type 0 where
  pub starttls : Option ℕ
  pub login : Option ℕ
  pub sends : Bool
  pub quits : Bool

pub data Sent : Type 0 where
  sent gave_up raised : Sent

-- `smtp_session`, up to its `yield`.
unfoldable pub opens : Session → Bool
opens s =
    elim s.starttls [ none ↦ false | some rv ↦ rv == 220 ]
    && elim s.login [ none ↦ false | some rv ↦ rv == 235 ]

-- `for x in range(3)` in `_send`, with the sessions and the seconds slept so far. Only an error while the
-- message is sent leads to another session.
unfoldable pub send_from : ℕ → (ℕ → Session) → ℕ → Sent × ℕ
unfolding opens
send_from zero session x = (gave_up, x)
send_from (suc n) session x =
    let again = send_from n session (suc x) in
    let s = session x in
    if opens s
    then (if s.quits then (if s.sends then (sent, x) else again) else (raised, x))
    else (raised, x)

-- `_send`
unfoldable pub send : (ℕ → Session) → Sent
unfolding send_from
send session = (send_from 3 session 0).0

-- One answer to a delivery: its status code, or an exception.
pub data Answer : Type 0 where
  code : ℕ → Answer
  error : Answer

-- `r.ok`
unfoldable pub is_ok : Answer → Bool
is_ok (code c) = ltb c 400
is_ok error = false

pub record Delivered : Type 0 where
  pub posts : ℕ
  pub slept : ℕ
  pub delivered : Bool

-- The loop of `deliver`, over the seconds to sleep after each post.
unfoldable pub deliver_from : List ℕ → (ℕ → Answer) → ℕ → ℕ → Delivered
unfolding is_ok
deliver_from [] answer posts slept = record { posts = posts; slept = slept; delivered = false }
deliver_from (i ∷ delays) answer posts slept =
    let again = deliver_from delays answer (suc posts) (slept + i) in
    if is_ok (answer posts)
    then (record { posts = suc posts; slept = slept; delivered = true })
    else again

-- `deliver`
unfoldable pub deliver : (ℕ → Answer) → Delivered
unfolding deliver_from
deliver answer = deliver_from (1 ∷ 2 ∷ 4 ∷ 0 ∷ []) answer 0 0

-- What `notify_build_complete_webhook` posts.
pub record Hook : Type 0 where
  pub url : Text
  pub payload : Text
  pub sig : Text

unfoldable pub webhook : (Text → Text → Text) → Text → Text → Text → Hook
webhook hexdigest payload url secret = record {
  url = url;
  payload = payload;
  sig = text "sha256:" ++ hexdigest secret payload;
}
