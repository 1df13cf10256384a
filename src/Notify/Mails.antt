-- ===== src/Notify/Mails.antt =====
-- The messages of jobserv/notify.py, and who is told of a build that is complete (the end of
-- `_handle_build_complete` of jobserv/api/run.py).
use jobserv.Prelude.{
  ℕ, Bool, not, ◌||◌, Option, none, some, List, [], ◌∷◌, ◌++◌, Text, text, Formatted, formatted,
  value_error, lookup_error, lookup, if◌then◌else◌,
}
use jobserv.Status.{BuildStatus, failed, is}
use jobserv.Models.{Build, Run}
use jobserv.Project.{Dict}
use jobserv.Notify.{url_of, status_name, BuildStats, get_build_stats, Message, Hook, webhook}

-- What the messages take from elsewhere: the settings, the links of the server, and `"%d" % n`.
pub record Site : Type 0 where
  pub build_url_fmt : Option Text
  pub run_url_fmt : Option Text
  pub build_link : Text → ℕ → Text
  pub run_link : Text → ℕ → Text → Text
  pub decimal : ℕ → Text
  pub notification_emails : Text
  pub make_msgid : Text → Text

unfoldable pub build_url : Site → Text → Build → Formatted
build_url v project b =
    url_of v.build_url_fmt ((text "project", project) ∷ (text "build", v.decimal b.build_id) ∷ [])
      (v.build_link project b.build_id)

unfoldable pub run_url : Site → Text → Build → Run → Formatted
run_url v project b r =
    url_of v.run_url_fmt
      ((text "project", project) ∷ (text "build", v.decimal b.build_id) ∷ (text "run", r.name) ∷ [])
      (v.run_link project b.build_id r.name)

-- One more part of a text, unless it raises.
prefix : Formatted → (Text → Text) → Option Text → Option Text
prefix (formatted t) f none = none
prefix (formatted t) f (some rest) = some (f t ++ rest)
prefix value_error f rest = none
prefix lookup_error f rest = none

run_line : Run → Text → Text
run_line r url =
    text "  " ++ r.name ++ text ": " ++ status_name r.status ++ 10 ∷ text "    " ++ url ++ 10 ∷ []

-- `for run in build.runs`; `none` is an exception.
unfoldable pub run_lines : Site → Text → Build → List Run → Option Text
unfolding prefix run_line
run_lines v project b [] = some []
run_lines v project b (r ∷ rs) =
    prefix (run_url v project b r) (run_line r) (run_lines v project b rs)

unfoldable pub subject : Site → Text → Build → Text
unfolding status_name
subject v project b =
    text "jobserv: "
    ++ project
    ++ text " build #"
    ++ v.decimal b.build_id
    ++ text " : "
    ++ status_name b.status

reason_text : Option Text → Text
reason_text none = []
reason_text (some []) = []
reason_text (some (c ∷ reason)) = 10 ∷ text "Reason:" ++ 10 ∷ c ∷ reason

stats_text : Site → BuildStats × ℕ → Text
stats_text v (s, rate) =
    text "Build history for last "
    ++ v.decimal s.total
    ++ text " builds:"
    ++ 10 ∷ text "  pass rate: "
    ++ v.decimal rate
    ++ text "%"
    ++ 10 ∷ text "   (newest->oldest): "
    ++ s.pass_fails
    ++ 10 ∷ text "    "

body_of : Site → Text → Build → Option Text → Option (BuildStats × ℕ) → Option Text → Option Text
unfolding reason_text stats_text subject prefix
body_of v project b reason none lines = none
body_of v project b reason (some stats) none = none
body_of v project b reason (some stats) (some lines) =
    prefix (build_url v project b)
      (λ url.
        subject v project b ++ 10 ∷ text "Build URL: " ++ url ++ 10 ∷ 10 ∷ text "Runs:" ++ 10 ∷ [])
      (some (lines ++ reason_text reason ++ stats_text v stats))

mail_of : Text → Text → Option Text → Option Message
mail_of subject to none = none
mail_of subject to (some body) =
    some (record { subject = subject; body = body; to = to; message_id = none; in_reply_to = none })

-- `notify_build_complete_email`: the message that is sent; `none` is an exception.
unfoldable pub build_complete_email :
    Site → Text → Option Text → List Build → Text → Build → Option Message
unfolding mail_of body_of run_lines get_build_stats
build_complete_email v project reason builds to b =
    mail_of (subject v project b) to
      (body_of v project b reason (get_build_stats b builds) (run_lines v project b b.runs))

-- `msg["Message-ID"]`, and the message that is sent, if someone is to be told.
told : Text → Message → Option Message
told [] m = none
told (c ∷ to) m = some m

-- `notify_surge_started`
unfoldable pub surge_started : Site → Text → Option Message × Text
unfolding told
surge_started v tag =
    let id = v.make_msgid (text "jobserv-" ++ tag) in
    (
      told v.notification_emails (record {
        subject = text "jobserv: SURGE!!! " ++ tag;
        body = text "Surge workers have been enabled for: " ++ tag;
        to = v.notification_emails;
        message_id = some id;
        in_reply_to = none;
      }),
      id,
    )

-- `notify_surge_ended`
unfoldable pub surge_ended : Site → Text → Text → Option Message
unfolding told
surge_ended v tag in_reply_to = told v.notification_emails (record {
  subject = text "jobserv: ended surge for " ++ tag;
  body = text "Surge workers have been disabled for: " ++ tag;
  to = v.notification_emails;
  message_id = none;
  in_reply_to = some in_reply_to;
})

-- `notify_run_terminated`; `cutoff` is the text of the time.
unfoldable pub run_terminated : Site → Text → Build → Run → Text → Option (Option Message × Text)
unfolding told prefix
run_terminated v project b r cutoff =
    let id = v.make_msgid (text "jobserv-" ++ v.decimal r.id) in
    elim (prefix (run_url v project b r)
      (λ url. text "The run has been terminated after: " ++ cutoff ++ 10 ∷ text "  " ++ url)
      (some [])) [
        | none ↦ none
        | some body ↦ some (
          told v.notification_emails (record {
            subject =
                text "jobserv: Terminated "
                ++ project
                ++ b'/' ∷ v.decimal b.build_id
                ++ b'/' ∷ r.name;
            body = body;
            to = v.notification_emails;
            message_id = some id;
            in_reply_to = none;
          }),
          id,
        )
      ]

pub record Email : Type 0 where
  pub users : Text
  pub only_failures : Bool

pub record WebHook : Type 0 where
  pub url : Text
  pub secret_name : Text
  pub only_failures : Bool

-- `build.status == BuildStatus.FAILED or not ….get("only_failures")`
unfoldable pub is_wanted : BuildStatus → Bool → Bool
is_wanted status only_failures = is status failed || not only_failures

-- Whom a mail about the build is sent to.
unfoldable pub mailed : Option Email → BuildStatus → Option Text
unfolding is_wanted
mailed none status = none
mailed (some email) status = if is_wanted status email.only_failures then some email.users else none

unfoldable pub post_one :
    (Text → Text → Text) → Text → WebHook → Option Text → List Hook → List Hook
unfolding webhook
post_one hexdigest payload w none rest = rest
post_one hexdigest payload w (some []) rest = rest
post_one hexdigest payload w (some (c ∷ secret)) rest =
    webhook hexdigest payload w.url (c ∷ secret) ∷ rest

-- `for webhook in webhooks`
unfoldable pub posted : (Text → Text → Text) → Text → Dict → BuildStatus → List WebHook → List Hook
unfolding post_one is_wanted
posted hexdigest payload secrets status [] = []
posted hexdigest payload secrets status (w ∷ ws) =
    let rest = posted hexdigest payload secrets status ws in
    if is_wanted status w.only_failures
    then post_one hexdigest payload w (lookup w.secret_name secrets) rest
    else rest
