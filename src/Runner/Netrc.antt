-- ===== src/Runner/Netrc.antt =====
-- runner/jobserv_runner/handlers/simple.py, `_prepare_netrc`: the file of credentials that the container
-- gets. `run_host` and `clone_host` are the hosts of the run's URL and of its script repository.
use jobserv.Prelude.{
  Option, none, some, List, [], ◌∷◌, ◌++◌, Text, text, text_eq, starts_with, strip, lookup,
  if◌then◌else◌,
}

-- `none` is a KeyError.
infixl 5 ◌>>=◌
abbrev ◌>>=◌ : Option Text → (Text → Option Text) → Option Text
none >>= f = none
some t >>= f = f t

line : Text → Text
line t = t ++ 10 ∷ []

-- "machine %s\n" and "login %s\npassword %s\n"
entry : Text → Text → Text → Text
unfolding line
entry machine user token =
    line (text "machine " ++ machine)
    ++ (line (text "login " ++ user) ++ line (text "password " ++ token))

-- `secrets.get(name)`, if it is not empty.
given : Text → List (Text × Text) → Option Text
given name secrets = elim (lookup name secrets) [
  | none ↦ none
  | some [] ↦ none
  | some (c ∷ v) ↦ some (c ∷ v)
]

github : List (Text × Text) → Text
unfolding given line
github secrets = elim (given (text "githubtok") secrets) [
  | none ↦ []
  | some token ↦ line (text "machine github.com") ++ line (text "login " ++ token)
]

-- The entry of the script repository's own host.
clone_entry : Option Text → Text → Text → Text
unfolding entry
clone_entry none user token = []
clone_entry (some machine) user token =
    if text_eq machine (text "github.com") then [] else entry machine user token

-- A token needs the user that stands beside it.
with_user : Text → Text → List (Text × Text) → (Text → Text → Text) → Option Text
unfolding given
with_user tok user secrets entries = elim (given tok secrets) [
  | none ↦ some []
  | some token ↦ elim (lookup user secrets) [ none ↦ none | some name ↦ some (entries name token) ]
]

-- The secrets that are entries themselves.
netrc_secrets : List (Text × Text) → Text
unfolding line
netrc_secrets [] = []
netrc_secrets ((k, v) ∷ secrets) =
    let rest = netrc_secrets secrets in
    if starts_with (text "netrc-") k then line (strip v) ++ rest else rest

-- The contents of the file.
unfoldable pub prepare_netrc : Text → Text → Option Text → List (Text × Text) → Option Text
unfolding github with_user clone_entry netrc_secrets
prepare_netrc run_host api_key clone_host secrets =
    with_user (text "gitlabtok") (text "gitlabuser") secrets
      (λ user token. clone_entry clone_host user token ++ entry (text "gitlab.com") user token)
    >>= λ gitlab.
        with_user (text "bitbuckettok") (text "bitbucketuser") secrets
          (entry (text "bitbucket.org"))
        >>= λ bitbucket.
            with_user (text "qpmtok") (text "qpmuser") secrets (λ user token.
              entry (text "qpm-git.qualcomm.com") user token
              ++ entry (text "chipmaster2.qti.qualcomm.com") user token)
            >>= λ qpm. some (
                entry run_host (text "jobserv") api_key
                ++ (github secrets ++ (gitlab ++ (bitbucket ++ (qpm ++ netrc_secrets secrets)))))
