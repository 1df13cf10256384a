-- ===== src/Poller.antt =====
-- jobserv/git_poller.py: which changes of a repository start a build. The references that a
-- repository has, as pairs of a commit and a name, are an argument, as `_get_refs` yields them; the
-- requests that a change leads to are left out.
pub mod Changes
pub mod Skip
pub mod Table
pub mod Projects
mod Samples
use jobserv.Prelude.{
  ℕ, Bool, true, false, Option, none, some, List, [], ◌∷◌, ◌++◌, Text, text_eq, lookup, store,
  fnmatch, if◌then◌else◌,
}

-- The commit that each reference had.
abbrev pub Refs : Type 0
Refs = List (Text × Text)

pub record Change : Type 0 where
  pub git_ref : Text
  pub git_url : Text
  pub git_old_sha : Text
  pub git_sha : Text

-- `if cur != sha`
changed : Text → Text → Text → Option Text → Refs → Refs × List Change
changed url sha ref none cur_refs = (store ref sha cur_refs, [])
changed url sha ref (some cur) cur_refs = if text_eq cur sha then (cur_refs, []) else (
  store ref sha cur_refs,
  record { git_ref = ref; git_url = url; git_old_sha = cur; git_sha = sha } ∷ [],
)

-- `for pattern in refs`
unfoldable pub check_ref : Text → Text → Text → List Text → Refs → Refs × List Change
unfolding changed
check_ref url sha ref [] cur_refs = (cur_refs, [])
check_ref url sha ref (pattern ∷ patterns) cur_refs =
    let next : Refs × List Change =
      if fnmatch ref pattern
      then changed url sha ref (lookup ref cur_refs) cur_refs
      else (cur_refs, []) in
    let rest = check_ref url sha ref patterns next.0 in (rest.0, next.1 ++ rest.1)

-- The loop over what the repository has.
unfoldable pub check_refs : Text → List Text → List (Text × Text) → Refs → Refs × List Change
check_refs url patterns [] cur_refs = (cur_refs, [])
check_refs url patterns ((sha, ref) ∷ heads) cur_refs =
    let next = check_ref url sha ref patterns cur_refs in
    let rest = check_refs url patterns heads next.0 in (rest.0, next.1 ++ rest.1)

-- `refs_cache.setdefault(url, {})`
unfoldable pub refs_of : List (Text × Refs) → Text → Refs
refs_of refs_cache url = elim (lookup url refs_cache) [ none ↦ [] | some refs ↦ refs ]

-- `_get_repo_changes`
unfoldable pub get_repo_changes :
    List (Text × Refs) → Text → List Text → List (Text × Text) → List (Text × Refs) × List Change
unfolding refs_of
get_repo_changes refs_cache url patterns heads =
    let (cur_refs, changes) = check_refs url patterns heads (refs_of refs_cache url) in
    (store url cur_refs refs_cache, changes)
