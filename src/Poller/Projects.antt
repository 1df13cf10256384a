-- ===== src/Poller/Projects.antt =====
-- One project of a round of the poller: `_get_projdef`, `_poll_project`, and the summaries of
-- `_gitlab_log` and `_cgit_log`. What the servers answer is an argument.
use jobserv.Prelude.{
  Bool, Option, none, some, List, [], ◌∷◌, ◌++◌, map, take, Text, text, text_eq, if◌then◌else◌,
}
use jobserv.Poller.{Refs, Change, get_repo_changes}
use jobserv.Poller.Skip.{is_skipped}
use jobserv.Poller.Table.{Entry}

-- The answer to the request of a definition.
pub data Fetched {ℓ} (D : Type ℓ) : Type ℓ where
  -- 200, with a definition that is valid, and its ETAG
  valid : D → Text → Fetched D
  -- 200, with one that is not
  invalid : Fetched D
  -- 304
  unchanged : Fetched D
  failing : Fetched D

-- `_get_projdef`: the entry, and the definition that is returned.
unfoldable pub get_projdef {ℓ κ} :
    {T : Type ℓ} {D : Type κ} → Entry T D → Fetched D → Entry T D × Option D
get_projdef e (valid d etag) = (record e { definition = some d; etag = some etag }, some d)
get_projdef e invalid = (e, none)
get_projdef e unchanged = (e, e.definition)
get_projdef e failing = (e, none)

-- A trigger of type git_poller, with the words of GIT_URL and GIT_POLL_REFS.
pub record Polled : Type 0 where
  pub name : Text
  pub urls : List Text
  pub refs : List Text

-- `for url in urls`: the changes that builds are triggered for, with the name of the trigger.
poll_urls :
    (Text → List (Text × Text))
    → Text
    → List Text
    → List Text
    → List (Text × Refs)
    → List (Text × Refs) × List (Text × Change)
poll_urls heads name refs [] cache = (cache, [])
poll_urls heads name refs (url ∷ urls) cache =
    let next = get_repo_changes cache url refs (heads url) in
    let rest = poll_urls heads name refs urls next.0 in
    (rest.0, map (λ c. (name, c)) next.1 ++ rest.1)

-- `if not urls or not refs` skips the trigger.
poll_trigger :
    (Text → List (Text × Text))
    → Text
    → List Text
    → List Text
    → List (Text × Refs)
    → List (Text × Refs) × List (Text × Change)
unfolding poll_urls
poll_trigger heads name [] refs cache = (cache, [])
poll_trigger heads name (url ∷ urls) [] cache = (cache, [])
poll_trigger heads name (url ∷ urls) (ref ∷ refs) cache =
    poll_urls heads name (ref ∷ refs) (url ∷ urls) cache

-- `_poll_project`, for the definition's triggers of type git_poller; `heads` are the references that
-- a repository has.
unfoldable pub poll_project :
    (Text → List (Text × Text))
    → List Polled
    → List (Text × Refs)
    → List (Text × Refs) × List (Text × Change)
unfolding poll_trigger
poll_project heads [] cache = (cache, [])
poll_project heads (t ∷ ts) cache =
    let next = poll_trigger heads t.name t.urls t.refs cache in
    let rest = poll_project heads ts next.0 in (rest.0, next.1 ++ rest.1)

pub record GitlabCommit : Type 0 where
  pub id : Text
  pub short_id : Text
  pub title : Text
  pub message : Text

-- The loop of `_gitlab_log`.
unfoldable pub gitlab_log : Text → Text → List GitlabCommit → Bool → Text × Bool
gitlab_log base head [] skip = ([], skip)
gitlab_log base head (c ∷ commits) skip =
    let skip' = if text_eq c.id head then is_skipped (c.message ++ c.title) else skip in
    let rest = gitlab_log base head commits skip' in
    if text_eq c.id base
    then ([], skip)
    else (c.short_id ++ text " " ++ c.title ++ 10 ∷ rest.0, rest.1)

-- An entry of the feed; an element that is not there is an empty text.
pub record CgitEntry : Type 0 where
  pub id : Text
  pub title : Text
  pub content : Text

cgit_line : Text → Text → Text
cgit_line [] title = []
cgit_line (c ∷ sha) [] = []
cgit_line (c ∷ sha) (d ∷ title) = take 7 (c ∷ sha) ++ text " " ++ d ∷ title ++ 10 ∷ []

-- The loop of `_cgit_log`.
unfoldable pub cgit_log : Text → Text → List CgitEntry → Bool → Text × Bool
unfolding cgit_line
cgit_log base head [] skip = ([], skip)
cgit_log base head (e ∷ entries) skip =
    let skip' = if text_eq e.id head then is_skipped (e.content ++ e.title) else skip in
    let rest = cgit_log base head entries skip' in
    if text_eq e.id base then ([], skip) else (cgit_line e.id e.title ++ rest.0, rest.1)
