-- ===== src/Runner/Gitconfig.antt =====
-- runner/jobserv_runner/handlers/git_poller.py: the file .gitconfig of a run, and the commands that
-- clone its repository. Base64, the host of an address, whether a server takes credentials, and how a
-- command ends, are arguments.
use jobserv.Prelude.{
  ◌≡◌, refl, sym, ap, subst, ◌∙◌, inl, inr, All, arith, Bool-cases, Bool, true, false, ◌&&◌, Option,
  none, some, List, [], ◌∷◌, ◌++◌, Text, text, lookup, starts_with, if◌then◌else◌,
}
use jobserv.Project.{Dict}

-- What is read of the run's definition; `secrets` is empty where there are none.
pub record Credentials : Type 0 where
  pub env : Dict
  pub secrets : Dict

pub record Server : Type 0 where
  pub b64 : Text → Text
  -- `urlparse(url).netloc`
  pub netloc : Text → Text
  -- `r.ok` of the request with the user's credentials
  pub accepts : Text → Bool

line : List Text → Text
line [] = 10 ∷ []
line (t ∷ ts) = t ++ line ts

-- The truth of a value that may be missing.
given : Option Text → Option Text
given none = none
given (some []) = none
given (some (c ∷ t)) = some (c ∷ t)

-- `env.get(key) or secrets.get(key)`
either : Credentials → Text → Option Text
unfolding given
either c key = elim (given (lookup key c.env)) [
  | some v ↦ some v
  | none ↦ given (lookup key c.secrets)
]

-- `extraheader` of an address
header : Text → Text → Text
unfolding line
header url value =
    line (text "[http \"" ∷ url ∷ text "\"]" ∷ []) ++ line (text "  extraheader = " ∷ value ∷ [])

-- Addresses of ssh that are replaced.
pub instead : Text → Text → Text
unfolding line
instead url of =
    line (text "[url \"" ∷ url ∷ text "\"]" ∷ [])
    ++ line (text "  insteadOf = \"" ∷ of ∷ text "\"" ∷ [])

-- `_create_github_content`: what is written, and whether there is a token.
unfoldable pub create_github_content : Server → Credentials → Text × Bool
unfolding header instead given
create_github_content s c =
    let base = instead (text "https://github.com/") (text "git@github.com:") in
    elim (lookup (text "githubtok") c.secrets) [
      | none ↦ (base, false)
      | some tok ↦ (
        elim (given (some tok)) [
          | none ↦ base
          | some t ↦
              base ++ header (text "https://github.com") (text "Authorization: Basic " ++ s.b64 t)
        ],
        true,
      )
    ]

-- The lines for one server of GitLab.
gitlab_lines : Server → Text → Text → Text → Text
unfolding header instead
gitlab_lines s url user token =
    header url (text "Authorization: Basic " ++ s.b64 (user ++ b':' ∷ token))
    ++ instead (text "https://" ++ user ++ b':' ∷ token ++ b'@' ∷ s.netloc url ++ text "/")
        (text "git@" ++ s.netloc url ++ text ":")

server_lines : Server → Option Text → Text → Text → Text
unfolding gitlab_lines
server_lines s none user token = []
server_lines s (some server) user token = gitlab_lines s server user token

user_lines : Server → Text → Option Text → Text → Option Text → Option Text
unfolding server_lines
user_lines s clone_url server user none = none
user_lines s clone_url server user (some token) = some (
    (if s.accepts clone_url then gitlab_lines s clone_url user token else [])
    ++ server_lines s server user token)

-- `_create_gitlab_content`; `none` is the KeyError of a user without a token.
unfoldable pub create_gitlab_content : Server → Credentials → Text → Option Text
unfolding user_lines either
create_gitlab_content s c clone_url = elim (either c (text "gitlabuser")) [
  | none ↦ some []
  | some user ↦
      user_lines s clone_url (either c (text "gitlabserver")) user
        (lookup (text "gitlabtok") c.secrets)
]

bitbucket_lines : Server → Text → Option Text → Option Text
unfolding header instead
bitbucket_lines s tok none = none
bitbucket_lines s tok (some user) = some (
    instead (text "https://bitbucket.org/") (text "git@bitbucket.org:")
    ++ header (text "https://bitbucket.org")
        (text "Authorization: Basic " ++ s.b64 (user ++ b':' ∷ tok)))

-- `_create_bitbucket_content`; `none` is a KeyError.
unfoldable pub create_bitbucket_content : Server → Credentials → Option Text
unfolding bitbucket_lines given
create_bitbucket_content s c = elim (given (lookup (text "bitbuckettok") c.secrets)) [
  | none ↦ some []
  | some tok ↦ bitbucket_lines s tok (lookup (text "bitbucketuser") c.secrets)
]

-- The last part of `_create_gitconfig`.
extra_header : Credentials → Text → Bool → Text
unfolding header given
extra_header c clone_url github =
    if github && starts_with (text "https://github.com") clone_url
    then []
    else elim (given (lookup (text "git.http.extraheader") c.secrets)) [
      | none ↦ []
      | some value ↦ header clone_url value
    ]

-- `_create_gitconfig`: what is written, and `none` where an exception ends it. The answer of
-- `_needs_auth` is only logged.
unfoldable pub create_gitconfig : Server → Credentials → Text → Option Text
unfolding create_github_content create_gitlab_content create_bitbucket_content extra_header
create_gitconfig s c clone_url =
    let (hub, github) = create_github_content s c in
    elim (create_gitlab_content s c clone_url) [
      | none ↦ none
      | some lab ↦ elim (create_bitbucket_content s c) [
        | none ↦ none
        | some bucket ↦ some (hub ++ lab ++ bucket ++ extra_header c clone_url github)
      ]
    ]

-- The commands of `_clone`, in the order in which they are run.
pub data Command : Type 0 where
  lfs_install clone branch checkout submodule_init submodule_update : Command

-- The commands until the first that fails; `true` tells that none did.
run_all : (Command → Bool) → List Command → List Command × Bool
run_all succeeds [] = ([], true)
run_all succeeds (c ∷ cs) =
    let rest = run_all succeeds cs in if succeeds c then (c ∷ rest.0, rest.1) else (c ∷ [], false)

-- The commands that `_clone` runs, where the settings of git allow them and the run names a commit.
unfoldable pub clone_commands : Bool → Bool → Option Text → List Command
unfolding given
clone_commands lfs submodules sha =
    (if lfs then lfs_install ∷ [] else [])
    ++ clone ∷ elim (given sha) [
      | none ↦ []
      | some s ↦
          branch ∷ checkout ∷ (if submodules then submodule_init ∷ submodule_update ∷ [] else [])
    ]

-- `_clone`, after the file was written: the commands that were run, and whether it returns.
unfoldable pub clone_repository : (Command → Bool) → Bool → Bool → Option Text → List Command × Bool
unfolding run_all clone_commands
clone_repository succeeds lfs submodules sha = run_all succeeds (clone_commands lfs submodules sha)

-- With no credentials in its definition a run gets the replacement of the addresses of GitHub, and no
-- line that has a secret.
pub create_gitconfig-plain :
    (s : Server) (env : Dict) (clone_url : Text)
    → lookup (text "gitlabuser") env ≡ none
    → create_gitconfig s (record { env = env; secrets = [] }) clone_url
      ≡ some (instead (text "https://github.com/") (text "git@github.com:"))
unfolding create_gitconfig create_github_content create_gitlab_content create_bitbucket_content
    either extra_header given lookup
create_gitconfig-plain s env clone_url h =
    rw (create_gitconfig, create_gitlab_content, either, h) refl

run_all-All :
    (succeeds : Command → Bool) (cs run : List Command)
    → (run_all succeeds cs).1 ≡ true
    → run ≡ (run_all succeeds cs).0
    → (run ≡ cs) × All (λ c. succeeds c ≡ true) run
unfolding run_all
run_all-All succeeds [] run h r = (r, subst (All (λ c. succeeds c ≡ true)) (sym r) tt)
run_all-All succeeds (c ∷ cs) run h r = elim (Bool-cases (succeeds c)) [
  | inr e ↦ absurd (ground (arith, h, e))
  | inl e ↦
      let (same, all) =
        run_all-All succeeds cs (run_all succeeds cs).0 (ground (arith, h, e)) refl in
      let whole : run ≡ c ∷ (run_all succeeds cs).0 = ground (arith, r, e) in
      (whole ∙ ap (λ l. c ∷ l) same, subst (All (λ c. succeeds c ≡ true)) (sym whole) (e, all))
]

-- Where `_clone` returns, it ran each of its commands, in order, and each of them succeeded.
pub clone_repository-All :
    (succeeds : Command → Bool) (lfs submodules : Bool) (sha : Option Text)
    → (clone_repository succeeds lfs submodules sha).1 ≡ true
    → ((clone_repository succeeds lfs submodules sha).0 ≡ clone_commands lfs submodules sha)
      × All (λ c. succeeds c ≡ true) (clone_repository succeeds lfs submodules sha).0
unfolding clone_repository
clone_repository-All succeeds lfs submodules sha h =
    run_all-All succeeds (clone_commands lfs submodules sha) _ h refl
