-- ===== src/Poller/Changes.antt =====
-- Which changes the poller reports.
use mathlib.Core.List.{append-nil, flat_map}
use jobserv.Prelude.{
  ◌≡◌, refl, ◌∙◌, Bool, false, ◌&&◌, Option, none, some, List, [], ◌∷◌, any, Text, text_eq,
  text_eq→eq, text_eq_refl, lookup, store, lookup-store, fnmatch, arith, if◌then◌else◌,
}
use jobserv.Poller.{Refs, Change, changed, check_ref, check_refs, refs_of, get_repo_changes}

-- The change of one reference against the commit that was noted for it.
abbrev pub change_from : Text → Text → Text → Option Text → List Change
change_from url sha ref none = []
change_from url sha ref (some cur) =
    if text_eq cur sha
    then []
    else record { git_ref = ref; git_url = url; git_old_sha = cur; git_sha = sha } ∷ []

-- A reference that some pattern matches.
abbrev pub watched : List Text → Text → Bool
watched patterns ref = any (λ p. fnmatch ref p) patterns

abbrev pub change_of : Text → List Text → Refs → Text × Text → List Change
change_of url patterns cur_refs (sha, ref) =
    if watched patterns ref then change_from url sha ref (lookup ref cur_refs) else []

-- No reference twice.
abbrev pub IsRefs : List (Text × Text) → Type 0
IsRefs [] = Unit
IsRefs ((sha, ref) ∷ heads) = (any (λ h. text_eq h.1 ref) heads ≡ false) × IsRefs heads

lookup-changed :
    (url sha ref j : Text) (o : Option Text) (cur : Refs)
    → lookup ref cur ≡ o
    → lookup j (changed url sha ref o cur).0 ≡ (if text_eq ref j then some sha else lookup j cur)
unfolding changed
lookup-changed url sha ref j none cur e = lookup-store ref j sha cur
lookup-changed url sha ref j (some old) cur e =
    ground (arith, e, lookup-store ref j sha cur, text_eq→eq old sha, text_eq→eq ref j)

changed-change :
    (url sha ref : Text) (o : Option Text) (cur : Refs)
    → (changed url sha ref o cur).1 ≡ change_from url sha ref o
unfolding changed
changed-change url sha ref none cur = refl
changed-change url sha ref (some old) cur = ground arith

-- The cache after one reference.
lookup-check_ref :
    (url sha ref j : Text) (ps : List Text) (cur : Refs)
    → lookup j (check_ref url sha ref ps cur).0
      ≡ (if watched ps ref && text_eq ref j then some sha else lookup j cur)
unfolding check_ref
lookup-check_ref url sha ref j [] cur = refl
lookup-check_ref url sha ref j (p ∷ ps) cur =
    let c = (changed url sha ref (lookup ref cur) cur).0 in
    ground (
      arith,
      lookup-check_ref url sha ref j ps cur,
      lookup-check_ref url sha ref j ps c,
      lookup-changed url sha ref j (lookup ref cur) cur refl,
    )

check_ref-changes :
    (url sha ref : Text) (ps : List Text) (cur : Refs)
    → (check_ref url sha ref ps cur).1 ≡ change_of url ps cur (sha, ref)
unfolding check_ref
check_ref-changes url sha ref [] cur = refl
check_ref-changes url sha ref (p ∷ ps) cur =
    let c = changed url sha ref (lookup ref cur) cur in
    ground (
      arith,
      check_ref-changes url sha ref ps cur,
      check_ref-changes url sha ref ps c.0,
      lookup-changed url sha ref ref (lookup ref cur) cur refl,
      text_eq_refl ref,
      text_eq_refl sha,
      changed-change url sha ref (lookup ref cur) cur,
      append-nil (change_from url sha ref (lookup ref cur)),
    )

-- A reference that the repository does not list keeps what was noted for it.
lookup-check_refs :
    (url j : Text) (ps : List Text) (heads : List (Text × Text)) (cur : Refs)
    → any (λ h. text_eq h.1 j) heads ≡ false
    → lookup j (check_refs url ps heads cur).0 ≡ lookup j cur
unfolding check_refs
lookup-check_refs url j ps [] cur h = refl
lookup-check_refs url j ps ((sha, ref) ∷ heads) cur h =
    let c = (check_ref url sha ref ps cur).0 in
    ground (arith, h, lookup-check_refs url j ps heads c, lookup-check_ref url sha ref j ps cur)

-- Changes of references depend on what is noted for these only.
flat_map-change_of :
    (url : Text) (ps : List Text) (heads : List (Text × Text)) (cur cur' : Refs) (ref sha : Text)
    → any (λ h. text_eq h.1 ref) heads ≡ false
    → ((j : Text)
        → lookup j cur' ≡ (if watched ps ref && text_eq ref j then some sha else lookup j cur))
    → flat_map (change_of url ps cur') heads ≡ flat_map (change_of url ps cur) heads
unfolding flat_map
flat_map-change_of url ps [] cur cur' ref sha h e = refl
flat_map-change_of url ps ((s, r) ∷ heads) cur cur' ref sha h e = ground (
  arith,
  h,
  e r,
  text_eq→eq ref r,
  text_eq_refl r,
  flat_map-change_of url ps heads cur cur' ref sha (ground (arith, h)) e,
)

check_refs-changes :
    (url : Text) (ps : List Text) (heads : List (Text × Text)) (cur : Refs)
    → IsRefs heads
    → (check_refs url ps heads cur).1 ≡ flat_map (change_of url ps cur) heads
unfolding check_refs flat_map
check_refs-changes url ps [] cur h = refl
check_refs-changes url ps ((sha, ref) ∷ heads) cur h =
    let c = (check_ref url sha ref ps cur).0 in
    let rest = check_refs-changes url ps heads c h.1 in
    let same =
      flat_map-change_of url ps heads cur c ref sha h.0
        (λ j. lookup-check_ref url sha ref j ps cur) in
    ground (arith, check_ref-changes url sha ref ps cur, rest, same)

-- What is noted after the loop is up to date.
check_refs-settled :
    (url : Text) (ps : List Text) (heads : List (Text × Text)) (cur : Refs)
    → IsRefs heads
    → flat_map (change_of url ps (check_refs url ps heads cur).0) heads ≡ []
unfolding check_refs flat_map
check_refs-settled url ps [] cur h = refl
check_refs-settled url ps ((sha, ref) ∷ heads) cur h =
    let c = (check_ref url sha ref ps cur).0 in
    ground (
      arith,
      lookup-check_refs url ref ps heads c h.0,
      lookup-check_ref url sha ref ref ps cur,
      text_eq_refl ref,
      text_eq_refl sha,
      check_refs-settled url ps heads c h.1,
    )

-- For a repository that lists no reference twice, the changes are, in the order of the listing, those
-- of the references that some pattern matches and whose noted commit is another one; a reference
-- seen for the first time is noted and not reported.
pub get_repo_changes_lem :
    (cache : List (Text × Refs)) (url : Text) (patterns : List Text) (heads : List (Text × Text))
    → IsRefs heads
    → (get_repo_changes cache url patterns heads).1
      ≡ flat_map (change_of url patterns (refs_of cache url)) heads
unfolding get_repo_changes
get_repo_changes_lem cache url patterns heads h =
    check_refs-changes url patterns heads (refs_of cache url) h

refs_of-store :
    (url : Text) (refs : Refs) (cache : List (Text × Refs))
    → refs_of (store url refs cache) url ≡ refs
unfolding refs_of
refs_of-store url refs cache = ground (arith, lookup-store url url refs cache, text_eq_refl url)

-- Polling a repository again that has not moved in between reports nothing.
pub get_repo_changes_again :
    (cache : List (Text × Refs)) (url : Text) (patterns : List Text) (heads : List (Text × Text))
    → IsRefs heads
    → (get_repo_changes (get_repo_changes cache url patterns heads).0 url patterns heads).1 ≡ []
unfolding get_repo_changes
get_repo_changes_again cache url patterns heads h =
    let cur = (check_refs url patterns heads (refs_of cache url)).0 in
    rw (refs_of-store url cur cache) (
      check_refs-changes url patterns heads cur h
      ∙ check_refs-settled url patterns heads (refs_of cache url) h)
