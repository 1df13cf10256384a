-- ===== src/Hooks/Permitted.antt =====
-- Which requests make the hook build a pull request.
use mathlib.Core.List.{Memᴰ}
use jobserv.Prelude.{
  ℕ, ◌≡◌, ◌≢◌, ◌⊎◌, inl, inr, refl, sym, ap, subst, ◌∙◌, true, Option, none, some, List, [], ◌∷◌,
  ◌++◌, select, Bool, Text, text, text_eq, text_eq→eq, has_text, lookup, starts_with, arith,
  Option-cases, Bool-cases,
}
use jobserv.Poller.Skip.{contains}
use jobserv.Project.{TriggerTypes, git_poller, github_pr, simple, gitlab_mr}
use jobserv.Hooks.{
  is_github, is_hook, Checked-cases, HookTrigger, Delivery, Checked, refused, fine, check_signature,
  validate_payload, find_valid, find_trigger, filter_events, LabelAnswer, undefined, defined,
  failed, labelled, assert_ok_to_test, pull, after_labels, asked, filtered, with_trigger,
  on_webhook,
}

-- The request was signed with the key of the trigger.
pub record IsSigned (digest : Text → Text → Text) (d : Delivery) (t : HookTrigger) : Type 0 where
  pub key : Text
  pub keyed : lookup (text "webhook-key") t.secret_data ≡ some key
  pub not_empty : key ≢ []
  pub signed : d.signature ≡ some (text "sha1=" ++ digest key d.body)

-- The repository asks for no label, or the pull request has it.
abbrev pub IsTestable : (Text → LabelAnswer) → Delivery → Type 0
IsTestable label d =
    (label d.repository ≡ undefined)
    ⊎ ((label d.repository ≡ defined) × (has_text (text "ok-to-test") d.labels ≡ true))

check_signature-signed :
    (digest : Text → Text → Text) (key body : Text) (s : Option Text) (u : Unit {0})
    → check_signature digest key body s ≡ fine u
    → s ≡ some (text "sha1=" ++ digest key body)
unfolding check_signature
check_signature-signed digest key body none u h = absurd (ground (arith, h))
check_signature-signed digest key body (some delivered) u h =
    elim (Bool-cases (starts_with (text "sha1=") delivered)) [
      | inr e ↦ absurd (ground (arith, h, e))
      | inl e ↦ elim (Bool-cases (text_eq (text "sha1=" ++ digest key body) delivered)) [
        | inl f ↦ ap some (sym (text_eq→eq (text "sha1=" ++ digest key body) delivered f))
        | inr f ↦ absurd (ground (arith, h, e, f))
      ]
    ]

validate_payload-IsSigned :
    (digest : Text → Text → Text) (d : Delivery) (t : HookTrigger) (u : Unit {0})
    → validate_payload digest d t ≡ fine u
    → IsSigned digest d t
unfolding validate_payload
validate_payload-IsSigned digest d t u h =
    elim (Option-cases (lookup (text "webhook-key") t.secret_data)) [
      | inl e ↦ absurd (ground (arith, h, e))
      | inr (key, e) ↦ with_key key e h
    ]
  where
    with_key :
        (key : Text)
        → lookup (text "webhook-key") t.secret_data ≡ some key
        → validate_payload digest d t ≡ fine u
        → IsSigned digest d t
    with_key [] e h = absurd (ground (arith, h, e))
    with_key (c ∷ key) e h = record {
      key = c ∷ key;
      keyed = e;
      not_empty = λ k. cc k;
      signed = check_signature-signed digest (c ∷ key) d.body d.signature u (ground (arith, h, e));
    }

find_valid-IsSigned :
    (digest : Text → Text → Text) (d : Delivery) (last : ℕ) (ts : List HookTrigger)
    (t : HookTrigger)
    → find_valid digest d last ts ≡ fine t
    → IsSigned digest d t
unfolding find_valid
find_valid-IsSigned digest d last [] t h = absurd (ground (arith, h))
find_valid-IsSigned digest d last (x ∷ ts) t h =
    elim (Checked-cases (validate_payload digest d x)) [
      | inl (code, e) ↦ find_valid-IsSigned digest d code ts t (ground (arith, h, e))
      | inr (u, e) ↦
          let same : x ≡ t = ground (arith, h, e) in
          subst (IsSigned digest d) same (validate_payload-IsSigned digest d x u e)
    ]

find_valid-Memᴰ :
    (digest : Text → Text → Text) (d : Delivery) (last : ℕ) (ts : List HookTrigger)
    (t : HookTrigger)
    → find_valid digest d last ts ≡ fine t
    → Memᴰ t ts
unfolding find_valid
find_valid-Memᴰ digest d last [] t h = absurd (ground (arith, h))
find_valid-Memᴰ digest d last (x ∷ ts) t h = elim (Checked-cases (validate_payload digest d x)) [
  | inl (code, e) ↦ Memᴰ.tail (find_valid-Memᴰ digest d code ts t (ground (arith, h, e)))
  | inr (u, e) ↦ let same : x ≡ t = ground (arith, h, e) in Memᴰ.head (sym same)
]

Memᴰ-select :
    (p : HookTrigger → Bool) (ts : List HookTrigger) (t : HookTrigger)
    → Memᴰ t (select p ts)
    → Memᴰ t ts × (p t ≡ true)
Memᴰ-select p [] t = λ m. elim m [ ]
Memᴰ-select p (x ∷ ts) t = elim (Bool-cases (p x)) [
  | inl e ↦ rw e (λ m. kept e m (λ k. Memᴰ-select p ts t k))
  | inr e ↦ rw e (λ m. let (k, ok) = Memᴰ-select p ts t m in (Memᴰ.tail k, ok))
]
  where
    kept :
        p x ≡ true
        → Memᴰ t (x ∷ select p ts)
        → (Memᴰ t (select p ts) → Memᴰ t ts × (p t ≡ true))
        → Memᴰ t (x ∷ ts) × (p t ≡ true)
    kept e (Memᴰ.head s) later = (Memᴰ.head s, ap p s ∙ e)
    kept e (Memᴰ.tail m) later = let (k, ok) = later m in (Memᴰ.tail k, ok)

-- A trigger that the server has, of the project, and for pull requests.
abbrev pub IsOurs : Text → List HookTrigger → HookTrigger → Type 0
IsOurs proj triggers t = Memᴰ t triggers × (t.project ≡ proj) × (t.type ≡ github_pr)

is_github-github_pr : (type : TriggerTypes) → is_github type ≡ true → type ≡ github_pr
unfolding is_github
is_github-github_pr github_pr h = refl
is_github-github_pr git_poller h = absurd (cc h)
is_github-github_pr simple h = absurd (cc h)
is_github-github_pr gitlab_mr h = absurd (cc h)

is_hook-IsOurs :
    (proj : Text) (triggers : List HookTrigger) (t : HookTrigger)
    → Memᴰ t (select (is_hook proj) triggers)
    → IsOurs proj triggers t
unfolding is_hook
is_hook-IsOurs proj triggers t m =
    let (k, ok) = Memᴰ-select (is_hook proj) triggers t m in
    (
      k,
      text_eq→eq t.project proj (ground (arith, ok)),
      is_github-github_pr t.type (ground (arith, ok)),
    )

-- What must hold of a request for the pull request that is then built.
pub record Permits (digest : Text → Text → Text) (label : Text → LabelAnswer) (d : Delivery)
    (t : HookTrigger) (number : ℕ) : Type 0 where
  pub signed : IsSigned digest d t
  pub testable : IsTestable label d
  pub same_number : number ≡ d.number
  pub event :
      ((d.event ≡ some (text "issue_comment")) × (contains (text "ci-retest") d.comment ≡ true))
      ⊎ ((d.event ≡ some (text "pull_request"))
          × (has_text d.action (text "opened" ∷ text "synchronize" ∷ text "labeled" ∷ []) ≡ true))

labelled-fine :
    (a : LabelAnswer) (labels : List Text) (u : Unit {0})
    → labelled a labels ≡ fine u
    → (a ≡ undefined) ⊎ ((a ≡ defined) × (has_text (text "ok-to-test") labels ≡ true))
unfolding labelled
labelled-fine undefined labels u h = inl refl
labelled-fine failed labels u h = absurd (ground (arith, h))
labelled-fine defined labels u h = inr (refl, ground (arith, h))

after_labels-pull :
    (t t' : HookTrigger) (repo repo' : Text) (number number' : ℕ) (c : Checked (Unit {0}))
    → after_labels t repo number c ≡ fine (pull t' repo' number')
    → (c ≡ fine tt) × (t ≡ t') × (number ≡ number')
unfolding after_labels
after_labels-pull t t' repo repo' number number' (refused code) h = absurd (ground (arith, h))
after_labels-pull t t' repo repo' number number' (fine u) h =
    (refl, ground (arith, h), ground (arith, h))

Permits-from :
    (digest : Text → Text → Text) (label : Text → LabelAnswer) (d : Delivery) (t t' : HookTrigger)
    (repo repo' : Text) (number : ℕ)
    → IsSigned digest d t
    → after_labels t repo d.number (assert_ok_to_test label d.repository d.labels)
      ≡ fine (pull t' repo' number)
    → (((d.event ≡ some (text "issue_comment")) × (contains (text "ci-retest") d.comment ≡ true))
        ⊎ ((d.event ≡ some (text "pull_request"))
            × (has_text d.action (text "opened" ∷ text "synchronize" ∷ text "labeled" ∷ [])
                ≡ true)))
    → Permits digest label d t' number
unfolding assert_ok_to_test
Permits-from digest label d t t' repo repo' number s h e =
    let (c, same, n) = after_labels-pull t t' repo repo' d.number number _ h in
    record {
      signed = subst (IsSigned digest d) same s;
      testable = labelled-fine (label d.repository) d.labels tt c;
      same_number = sym n;
      event = e;
    }

asked-Permits :
    (digest : Text → Text → Text) (label : Text → LabelAnswer) (d : Delivery) (t t' : HookTrigger)
    (event repo : Text) (number : ℕ)
    → IsSigned digest d t
    → d.event ≡ some event
    → asked label t d event ≡ fine (pull t' repo number)
    → Permits digest label d t' number
unfolding asked
asked-Permits digest label d t t' event repo number s v h =
    elim (Bool-cases (text_eq event (text "issue_comment"))) [
      | inl e ↦
          let k = text_eq→eq event (text "issue_comment") e in
          elim (Bool-cases (contains (text "ci-retest") d.comment)) [
            | inl f ↦
                Permits-from digest label d t t' d.repository repo number s
                  (ground (arith, h, e, f)) (inl (v ∙ ap some k, f))
            | inr f ↦ absurd (ground (arith, h, e, f))
          ]
      | inr e ↦ elim (Bool-cases (text_eq event (text "pull_request"))) [
        | inr g ↦ absurd (ground (arith, h, e, g))
        | inl g ↦
            let k = text_eq→eq event (text "pull_request") g in
            elim (Bool-cases
              (has_text d.action (text "opened" ∷ text "synchronize" ∷ text "labeled" ∷ []))) [
                | inl f ↦
                    Permits-from digest label d t t' d.base_repository repo number s
                      (ground (arith, h, e, f, g)) (inr (v ∙ ap some k, f))
                | inr f ↦ absurd (ground (arith, h, e, f, g))
              ]
      ]
    ]

-- The pull request is built for the trigger that was found.
asked-pull :
    (label : Text → LabelAnswer) (d : Delivery) (t t' : HookTrigger) (event repo : Text)
    (number : ℕ)
    → asked label t d event ≡ fine (pull t' repo number)
    → t ≡ t'
unfolding asked
asked-pull label d t t' event repo number h =
    elim (Bool-cases (text_eq event (text "issue_comment"))) [
      | inl e ↦ elim (Bool-cases (contains (text "ci-retest") d.comment)) [
        | inl f ↦
            (after_labels-pull t t' d.repository repo d.number number
              (assert_ok_to_test label d.repository d.labels) (ground (arith, h, e, f))).1
        | inr f ↦ absurd (ground (arith, h, e, f))
      ]
      | inr e ↦ elim (Bool-cases (text_eq event (text "pull_request"))) [
        | inr g ↦ absurd (ground (arith, h, e, g))
        | inl g ↦
            elim (Bool-cases
              (has_text d.action (text "opened" ∷ text "synchronize" ∷ text "labeled" ∷ []))) [
                | inl f ↦
                    (after_labels-pull t t' d.base_repository repo d.number number
                      (assert_ok_to_test label d.repository d.labels)
                      (ground (arith, h, e, f, g))).1
                | inr f ↦ absurd (ground (arith, h, e, f, g))
              ]
      ]
    ]

filtered-pull :
    (label : Text → LabelAnswer) (d : Delivery) (t t' : HookTrigger) (event : Option Text)
    (repo : Text) (number : ℕ) (c : Checked (Unit {0}))
    → filtered label t d event c ≡ fine (pull t' repo number)
    → t ≡ t'
unfolding filtered
filtered-pull label d t t' event repo number (refused code) h = absurd (ground (arith, h))
filtered-pull label d t t' none repo number (fine u) h = absurd (ground (arith, h))
filtered-pull label d t t' (some event) repo number (fine u) h =
    asked-pull label d t t' event repo number h

with_event :
    (digest : Text → Text → Text) (label : Text → LabelAnswer) (d : Delivery) (t t' : HookTrigger)
    (event : Option Text) (repo : Text) (number : ℕ) (c : Checked (Unit {0}))
    → IsSigned digest d t
    → d.event ≡ event
    → filtered label t d event c ≡ fine (pull t' repo number)
    → Permits digest label d t' number
unfolding filtered
with_event digest label d t t' event repo number (refused code) s v h = absurd (ground (arith, h))
with_event digest label d t t' none repo number (fine u) s v h = absurd (ground (arith, h))
with_event digest label d t t' (some event) repo number (fine u) s v h =
    asked-Permits digest label d t t' event repo number s v h

-- A pull request is only built for a trigger that the server has for the pull requests of the project
-- that the request is sent to, and for a request that was signed with the key of this trigger; that is a comment which asks for it, or the opening, a change or a new label of the
-- pull request; and where the repository has the label ok-to-test, only if the pull request has it.
pub on_webhook-Permits :
    (digest : Text → Text → Text) (label : Text → LabelAnswer) (proj : Text)
    (triggers : List HookTrigger) (d : Delivery) (t : HookTrigger) (repo : Text) (number : ℕ)
    → on_webhook digest label proj triggers d ≡ fine (pull t repo number)
    → IsOurs proj triggers t × Permits digest label d t number
unfolding on_webhook find_trigger
on_webhook-Permits digest label proj triggers d t repo number h =
    elim (Checked-cases (find_valid digest d 404 (select (is_hook proj) triggers))) [
      | inl (code, e) ↦ absurd (unfold with_trigger in ground (arith, h, e))
      | inr (x, e) ↦
          let rest : filtered label x d d.event (filter_events d.event)
              ≡ fine (pull t repo number) =
            unfold with_trigger in ground (arith, h, e) in
          (
            is_hook-IsOurs proj triggers t (
                subst (λ u. Memᴰ u (select (is_hook proj) triggers))
                  (filtered-pull label d x t d.event repo number (filter_events d.event) rest)
                  (find_valid-Memᴰ digest d 404 (select (is_hook proj) triggers) x e)),
            with_event digest label d x t d.event repo number (filter_events d.event)
                (find_valid-IsSigned digest d 404 (select (is_hook proj) triggers) x e) refl rest,
          )
    ]
