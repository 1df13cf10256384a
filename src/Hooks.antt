-- ===== src/Hooks.antt =====
-- jobserv/api/github.py: the web hook that builds pull requests. The keyed hash and what GitHub answers
-- are arguments.
pub mod Permitted
pub mod Gitlab
mod Samples
use jobserv.Prelude.{
  ℕ, ◌≡◌, refl, ◌⊎◌, inl, inr, ◌==◌, Bool, true, false, not, ◌&&◌, ◌||◌, Option, none, some, List,
  [], ◌∷◌, ◌++◌, any, map, select, Text, text, text_eq, has_text, lookup, starts_with, split, strip,
  if◌then◌else◌,
}
use jobserv.Project.{Dict, TriggerTypes, git_poller, github_pr, simple, gitlab_mr}
use jobserv.Poller.Skip.{contains}
use jobserv.Triggers.{Outcome, ok, name_error, api_error, unexpected, raised}

-- What the hook reads of a `ProjectTrigger`.
pub record HookTrigger : Type 0 where
  pub id : ℕ
  pub project : Text
  pub type : TriggerTypes
  pub secret_data : Dict

-- What is read of a request: its headers, its raw body, and the fields of its data that the event has.
pub record Delivery : Type 0 where
  pub event : Option Text
  pub signature : Option Text
  pub body : Text
  pub repository : Text
  pub comment : Text
  pub action : Text
  pub labels : List Text
  pub number : ℕ
  pub base_repository : Text

-- The code of an `ApiError`, or the value of a function.
pub data Checked {ℓ} (A : Type ℓ) : Type ℓ where
  refused : ℕ → Checked A
  fine : A → Checked A

pub Checked-cases :
    {A : Type 0} (c : Checked A) → ((code : ℕ) × (c ≡ refused code)) ⊎ ((a : A) × (c ≡ fine a))
Checked-cases (refused code) = inl (code, refl)
Checked-cases (fine a) = inr (a, refl)

-- The tests on the header, for a key.
check_signature : (Text → Text → Text) → Text → Text → Option Text → Checked (Unit {0})
check_signature digest key body none = refused 404
check_signature digest key body (some delivered) =
    if starts_with (text "sha1=") delivered
    then (if text_eq (text "sha1=" ++ digest key body) delivered then fine tt else refused 403)
    else refused 404

-- `_validate_payload`: `digest` is the hexadecimal HMAC.
unfoldable pub validate_payload : (Text → Text → Text) → Delivery → HookTrigger → Checked (Unit {0})
unfolding check_signature
validate_payload digest d t = elim (lookup (text "webhook-key") t.secret_data) [
  | none ↦ refused 403
  | some [] ↦ refused 403
  | some (c ∷ key) ↦ check_signature digest (c ∷ key) d.body d.signature
]

-- The loop of `_find_trigger`, with the code of the last error.
find_valid : (Text → Text → Text) → Delivery → ℕ → List HookTrigger → Checked HookTrigger
unfolding validate_payload
find_valid digest d last [] = refused last
find_valid digest d last (t ∷ ts) = elim (validate_payload digest d t) [
  | fine u ↦ fine t
  | refused code ↦ find_valid digest d code ts
]

is_github : TriggerTypes → Bool
is_github github_pr = true
is_github git_poller = false
is_github simple = false
is_github gitlab_mr = false

-- The filters of the query, by the type of the triggers and the name of their project.
unfoldable pub is_hook : Text → HookTrigger → Bool
unfolding is_github
is_hook proj t = is_github t.type && text_eq t.project proj

-- `_find_trigger`, among the triggers of all projects.
unfoldable pub find_trigger :
    (Text → Text → Text) → Text → Delivery → List HookTrigger → Checked HookTrigger
unfolding find_valid is_hook
find_trigger digest proj d triggers = find_valid digest d 404 (select (is_hook proj) triggers)

abbrev pub ignores : List Text
ignores =
    text "fork"
    ∷ text "ping"
    ∷ text "push"
    ∷ text "status"
    ∷ text "pull_request_review"
    ∷ text "pull_request_review_comment"
    ∷ []

-- `_filter_events`; without the header the message of the error cannot be made, which is a TypeError.
unfoldable pub filter_events : Option Text → Checked (Unit {0})
filter_events none = refused 500
filter_events (some event) =
    if not (has_text event (ignores ++ text "issue_comment" ∷ text "pull_request" ∷ []))
    then refused 400
    else if has_text event ignores
    then refused 200
    else fine tt

-- What GitHub answers about the label of a repository.
pub data LabelAnswer : Type 0 where
  undefined defined failed : LabelAnswer

labelled : LabelAnswer → List Text → Checked (Unit {0})
labelled undefined labels = fine tt
labelled failed labels = refused 500
labelled defined labels = if has_text (text "ok-to-test") labels then fine tt else refused 200

-- `_assert_ok_to_test`
unfoldable pub assert_ok_to_test : (Text → LabelAnswer) → Text → List Text → Checked (Unit {0})
unfolding labelled
assert_ok_to_test label repo labels = labelled (label repo) labels

-- What a request asks for.
pub data Asked : Type 0 where
  ignored : Asked
  pull : HookTrigger → Text → ℕ → Asked

after_labels : HookTrigger → Text → ℕ → Checked (Unit {0}) → Checked Asked
after_labels t repo number (refused code) = refused code
after_labels t repo number (fine u) = fine (pull t repo number)

-- The branches on the event.
asked : (Text → LabelAnswer) → HookTrigger → Delivery → Text → Checked Asked
unfolding assert_ok_to_test after_labels contains
asked label t d event =
    if text_eq event (text "issue_comment")
    then (if contains (text "ci-retest") d.comment
        then after_labels t d.repository d.number (assert_ok_to_test label d.repository d.labels)
        else fine ignored)
    else if text_eq event (text "pull_request")
    then (if has_text d.action (text "opened" ∷ text "synchronize" ∷ text "labeled" ∷ [])
        then after_labels t d.base_repository d.number
            (assert_ok_to_test label d.repository d.labels)
        else fine ignored)
    else fine ignored

filtered :
    (Text → LabelAnswer) → HookTrigger → Delivery → Option Text → Checked (Unit {0}) → Checked Asked
unfolding asked
filtered label t d event (refused code) = refused code
filtered label t d none (fine u) = fine ignored
filtered label t d (some event) (fine u) = asked label t d event

with_trigger : (Text → LabelAnswer) → Delivery → Checked HookTrigger → Checked Asked
unfolding filtered filter_events
with_trigger label d (refused code) = refused code
with_trigger label d (fine t) = filtered label t d d.event (filter_events d.event)

-- `on_webhook`, up to the pull request that is to be built.
unfoldable pub on_webhook :
    (Text → Text → Text) → (Text → LabelAnswer) → Text → List HookTrigger → Delivery → Checked Asked
unfolding with_trigger find_trigger
on_webhook digest label proj triggers d = with_trigger label d (find_trigger digest proj d triggers)

-- `_get_params`: five requests; `answer i` is the data of the i-th, if it has what is read of it.
unfoldable pub get_params {ℓ} : {A : Type ℓ} → (ℕ → Option A) → Checked A
get_params answer = elim (answer 0) [
  | some a ↦ fine a
  | none ↦ elim (answer 1) [
    | some a ↦ fine a
    | none ↦ elim (answer 2) [
      | some a ↦ fine a
      | none ↦ elim (answer 3) [
        | some a ↦ fine a
        | none ↦ elim (answer 4) [ some a ↦ fine a | none ↦ refused 500 ]
      ]
    ]
  ]
]

-- A trigger of the definition that was fetched.
pub record FetchedTrigger : Type 0 where
  pub name : Text
  pub type : Text
  pub branch : Option Text

-- `[x.strip() for x in branches_str.split(",") if x]`
unfoldable pub branches_of : Option Text → List Text
branches_of none = []
branches_of (some []) = []
branches_of (some (c ∷ s)) = map strip (nonempty (split b',' (c ∷ s)))
  where
    nonempty : List Text → List Text
    nonempty [] = []
    nonempty ([] ∷ l) = nonempty l
    nonempty ((x ∷ t) ∷ l) = (x ∷ t) ∷ nonempty l

builds_branch : Text → List Text → Bool
builds_branch branch [] = true
builds_branch branch (b ∷ bs) = has_text branch (b ∷ bs)

-- The loop of `_get_proj_def`; `none` is its ValueError.
unfoldable pub trigger_of_branch : Text → List FetchedTrigger → Option Text
unfolding branches_of builds_branch
trigger_of_branch branch [] = none
trigger_of_branch branch (t ∷ ts) =
    let rest = trigger_of_branch branch ts in
    if text_eq t.type (text "github_pr") && builds_branch branch (branches_of t.branch)
    then some t.name
    else rest

-- What the pull request shows after the thread that adds the runs.
pub data Shown : Type 0 where
  -- one pending status for each run
  pending : List Text → Shown
  failure : Shown
  -- the thread ended with an exception, and nothing was sent
  nothing : Shown

-- `threaded_commit`, for the way that `trigger_runs` ended: it only catches an `ApiError`.
unfoldable pub threaded_commit : Outcome → Shown
threaded_commit (ok b) = pending (map (λ r. r.name) b.runs)
threaded_commit (api_error b) = failure
threaded_commit (unexpected b) = failure
threaded_commit (name_error b) = nothing
threaded_commit (raised b) = nothing
