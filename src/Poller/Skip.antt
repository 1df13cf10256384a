-- ===== src/Poller/Skip.antt =====
-- jobserv/git_poller.py: the summary of the commits of a change, and the commits that ask for no
-- build. The listing of GitHub is an argument.
use jobserv.Prelude.{
  ℕ, ◌≡◌, ◌↔◌, ◌⊎◌, refl, ap, inl, inr, Bool, true, false, ◌||◌, Option, none, some, List, [], ◌∷◌,
  ◌++◌, any, take, Text, text, text_eq, text_eq_refl, subst, starts_with, Bool-cases, arith, ◌==◌,
  if◌then◌else◌,
}

-- `flag in msg`
unfoldable pub contains : Text → Text → Bool
unfolding starts_with
contains flag [] = starts_with flag []
contains flag (c ∷ msg) = starts_with flag (c ∷ msg) || contains flag msg

-- `_is_skipped`, for the messages joined
unfoldable pub is_skipped : Text → Bool
is_skipped msg = contains (text "[skip ci]") msg || contains (text "[ci skip]") msg

pub record Commit : Type 0 where
  pub sha : Text
  pub message : Text

-- The characters at which `splitlines` splits.
unfoldable pub line_end : ℕ → Bool
line_end c = any (λ d. c == d) (10 ∷ 11 ∷ 12 ∷ 13 ∷ 28 ∷ 29 ∷ 30 ∷ 133 ∷ 8232 ∷ 8233 ∷ [])

line_from : Text → Text
unfolding line_end
line_from [] = []
line_from (c ∷ s) = let rest = line_from s in if line_end c then [] else c ∷ rest

-- `msg.splitlines()[0]`; the empty message has no line.
unfoldable pub first_line : Text → Option Text
unfolding line_from
first_line [] = none
first_line (c ∷ s) = some (line_from (c ∷ s))

add_line : Text → Option Text → Option (Text × Bool) → Option (Text × Bool)
add_line sha none rest = none
add_line sha (some line) none = none
add_line sha (some line) (some (log, skip)) =
    some (take 7 sha ++ text " " ++ line ++ 10 ∷ log, skip)

-- The loop of `_github_log`; `none` is an IndexError.
unfoldable pub github_log : Text → Text → List Commit → Bool → Option (Text × Bool)
unfolding add_line first_line
github_log base head [] skip = some ([], skip)
github_log base head (c ∷ commits) skip =
    let rest =
      github_log base head commits (if text_eq c.sha head then is_skipped c.message else skip) in
    if text_eq c.sha base then some ([], skip) else add_line c.sha (first_line c.message) rest

-- `flag` stands somewhere in the text.
abbrev pub Infix : Text → Text → Type 0
Infix flag msg = (pre : Text) × ((post : Text) × (pre ++ flag ++ post ≡ msg))

starts_with-prefix : (p s : Text) → starts_with p s ≡ true → (post : Text) × (p ++ post ≡ s)
unfolding starts_with
starts_with-prefix [] s h = (s, refl)
starts_with-prefix (c ∷ p) [] h = absurd (ground (arith, h))
starts_with-prefix (c ∷ p) (d ∷ s) h =
    let (post, e) = starts_with-prefix p s (ground (arith, h)) in (post, ground (arith, h, e))

starts_with-append : (p post : Text) → starts_with p (p ++ post) ≡ true
unfolding starts_with
starts_with-append [] post = refl
starts_with-append (c ∷ p) post = ground (arith, starts_with-append p post)

contains-Infix : (flag msg : Text) → contains flag msg ≡ true → Infix flag msg
unfolding contains
contains-Infix flag [] h = ([], starts_with-prefix flag [] h)
contains-Infix flag (c ∷ msg) h = elim (Bool-cases (starts_with flag (c ∷ msg))) [
  | inl e ↦ ([], starts_with-prefix flag (c ∷ msg) e)
  | inr e ↦
      let (pre, (post, q)) = contains-Infix flag msg (ground (arith, h, e)) in
      (c ∷ pre, (post, ap (◌∷◌ c) q))
]

starts_with-contains : (flag msg : Text) → starts_with flag msg ≡ true → contains flag msg ≡ true
unfolding contains
starts_with-contains flag [] h = h
starts_with-contains flag (c ∷ msg) h = ground (arith, h)

contains-append : (flag pre post : Text) → contains flag (pre ++ flag ++ post) ≡ true
unfolding contains
contains-append flag [] post =
    starts_with-contains flag (flag ++ post) (starts_with-append flag post)
contains-append flag (c ∷ pre) post = ground (arith, contains-append flag pre post)

contains_iff : (flag msg : Text) → (contains flag msg ≡ true) ↔ Infix flag msg
contains_iff flag msg = (
  contains-Infix flag msg,
  (λ i. subst (λ m. contains flag m ≡ true) i.1.1 (contains-append flag i.0 i.1.0)),
)

-- One of the two flags stands somewhere in the message.
is_skipped_iff :
    (msg : Text)
    → (is_skipped msg ≡ true) ↔ (Infix (text "[skip ci]") msg ⊎ Infix (text "[ci skip]") msg)
unfolding is_skipped
is_skipped_iff msg =
    let (to, from) = contains_iff (text "[skip ci]") msg in
    let (to', from') = contains_iff (text "[ci skip]") msg in
    (
      (λ h. elim (Bool-cases (contains (text "[skip ci]") msg)) [
        | inl e ↦ inl (to e)
        | inr e ↦ inr (to' (ground (arith, h, e)))
      ]),
      elim [ inl i ↦ ground (arith, from i) | inr i ↦ ground (arith, from' i) ],
    )

-- No commit of the list has the hash.
abbrev pub lists : Text → List Commit → Bool
lists sha = any (λ c. text_eq c.sha sha)

add_line-some :
    (sha : Text) (line : Option Text) (rest : Option (Text × Bool)) (log : Text) (skip : Bool)
    → add_line sha line rest ≡ some (log, skip)
    → (log' : Text) × (rest ≡ some (log', skip))
unfolding add_line
add_line-some sha none rest log skip h = absurd (ground (arith, h))
add_line-some sha (some line) none log skip h = absurd (ground (arith, h))
add_line-some sha (some line) (some (log', s)) log skip h = (log', ground (arith, h))

github_log-keeps :
    (base head : Text) (commits : List Commit) (skip : Bool) (log : Text) (s : Bool)
    → lists head commits ≡ false
    → github_log base head commits skip ≡ some (log, s)
    → s ≡ skip
unfolding github_log
github_log-keeps base head [] skip log s n h = ground (arith, h)
github_log-keeps base head (c ∷ commits) skip log s n h = elim (Bool-cases (text_eq c.sha base)) [
  | inl e ↦ ground (arith, h, e)
  | inr e ↦
      let other : text_eq c.sha head ≡ false = ground (arith, n) in
      let (log', q) =
        add_line-some c.sha (first_line c.message) (github_log base head commits skip) log s
          (ground (arith, h, e, other)) in
      github_log-keeps base head commits skip log' s (ground (arith, n)) q
]

-- Where the listing begins with the new commit, which is not the old one and is not listed again, and
-- the summary is made: a build is skipped exactly if [skip ci] or [ci skip] stands somewhere in the
-- message of that commit, whatever the messages of the other commits say.
pub github_log-head :
    (base head : Text) (c : Commit) (commits : List Commit) (log : Text) (skip : Bool)
    → c.sha ≡ head
    → text_eq head base ≡ false
    → lists head commits ≡ false
    → github_log base head (c ∷ commits) false ≡ some (log, skip)
    → (skip ≡ true) ↔ (Infix (text "[skip ci]") c.message ⊎ Infix (text "[ci skip]") c.message)
unfolding github_log
github_log-head base head c commits log skip e n l h =
    let own : text_eq c.sha head ≡ true = rw e (text_eq_refl head) in
    let other : text_eq c.sha base ≡ false = rw e n in
    let (log', q) =
      add_line-some c.sha (first_line c.message)
        (github_log base head commits (is_skipped c.message)) log skip
        (ground (arith, h, own, other)) in
    let same = github_log-keeps base head commits (is_skipped c.message) log' skip l q in
    rw same (is_skipped_iff c.message)
