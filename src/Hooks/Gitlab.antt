-- ===== src/Hooks/Gitlab.antt =====
-- jobserv/api/gitlab.py: the web hook that builds merge requests.
use jobserv.Prelude.{
  ℕ, ◌≡◌, ◌≢◌, inl, inr, sym, ap, subst, Option, none, some, List, [], ◌∷◌, Text, text, text_eq,
  text_eq→eq, has_text, lookup, arith, Option-cases, Bool-cases, if◌then◌else◌,
}
use jobserv.Hooks.{HookTrigger, Checked, refused, fine, Checked-cases}
use jobserv.Poller.Skip.{contains}

-- What is read of a request. A header that is missing is a KeyError.
pub record MergeEvent : Type 0 where
  pub event : Option Text
  pub token : Option Text
  -- `object_attributes.note` of a comment
  pub note : Text
  -- `object_attributes.action` of a merge request
  pub action : Text

check_token : Text → Option Text → Checked (Unit {0})
check_token key none = refused 400
check_token key (some token) = if text_eq key token then fine tt else refused 403

-- `_validate_payload`
unfoldable pub validate_token : MergeEvent → HookTrigger → Checked (Unit {0})
unfolding check_token
validate_token d t = elim (lookup (text "webhook-key") t.secret_data) [
  | none ↦ refused 403
  | some [] ↦ refused 403
  | some (c ∷ key) ↦ check_token (c ∷ key) d.token
]

find_valid_token : MergeEvent → ℕ → List HookTrigger → Checked HookTrigger
unfolding validate_token
find_valid_token d last [] = refused last
find_valid_token d last (t ∷ ts) = elim (validate_token d t) [
  | fine u ↦ fine t
  | refused code ↦ find_valid_token d code ts
]

-- `if "gitlabtok" not in secrets or "gitlabuser" not in secrets`
with_token : HookTrigger → Checked (Option HookTrigger)
with_token t = elim (lookup (text "gitlabtok") t.secret_data) [
  | none ↦ refused 400
  | some token ↦ elim (lookup (text "gitlabuser") t.secret_data) [
    | none ↦ refused 400
    | some user ↦ fine (some t)
  ]
]

-- `_filter_events` and the branches on the event; `fine none` is a request that is ignored.
on_event : HookTrigger → MergeEvent → Option Text → Checked (Option HookTrigger)
unfolding with_token
on_event t d none = refused 400
on_event t d (some event) =
    if text_eq event (text "Note Hook")
    then (if contains (text "ci-retest") d.note then with_token t else fine none)
    else if text_eq event (text "Merge Request Hook")
    then (if has_text d.action (text "open" ∷ text "reopen" ∷ text "update" ∷ [])
        then with_token t
        else fine none)
    else refused 400

with_found : MergeEvent → Checked HookTrigger → Checked (Option HookTrigger)
unfolding on_event
with_found d (refused code) = refused code
with_found d (fine t) = on_event t d d.event

-- `on_webhook`, up to the requests to the server: the trigger whose merge request is to be built.
unfoldable pub on_merge_event : List HookTrigger → MergeEvent → Checked (Option HookTrigger)
unfolding find_valid_token with_found
on_merge_event triggers d = with_found d (find_valid_token d 404 triggers)

-- The request carries the key of the trigger.
pub record HasToken (d : MergeEvent) (t : HookTrigger) : Type 0 where
  pub key : Text
  pub keyed : lookup (text "webhook-key") t.secret_data ≡ some key
  pub not_empty : key ≢ []
  pub given : d.token ≡ some key

check_token-given :
    (key : Text) (o : Option Text) (u : Unit {0}) → check_token key o ≡ fine u → o ≡ some key
unfolding check_token
check_token-given key none u h = absurd (ground (arith, h))
check_token-given key (some token) u h = elim (Bool-cases (text_eq key token)) [
  | inl e ↦ ap some (sym (text_eq→eq key token e))
  | inr e ↦ absurd (ground (arith, h, e))
]

validate_token-HasToken :
    (d : MergeEvent) (t : HookTrigger) (u : Unit {0}) → validate_token d t ≡ fine u → HasToken d t
unfolding validate_token
validate_token-HasToken d t u h = elim (Option-cases (lookup (text "webhook-key") t.secret_data)) [
  | inl e ↦ absurd (ground (arith, h, e))
  | inr (key, e) ↦ with_key key e h
]
  where
    with_key :
        (key : Text)
        → lookup (text "webhook-key") t.secret_data ≡ some key
        → validate_token d t ≡ fine u
        → HasToken d t
    with_key [] e h = absurd (ground (arith, h, e))
    with_key (c ∷ key) e h = record {
      key = c ∷ key;
      keyed = e;
      not_empty = λ k. cc k;
      given = check_token-given (c ∷ key) d.token u (ground (arith, h, e));
    }

find_valid_token-HasToken :
    (d : MergeEvent) (last : ℕ) (ts : List HookTrigger) (t : HookTrigger)
    → find_valid_token d last ts ≡ fine t
    → HasToken d t
unfolding find_valid_token
find_valid_token-HasToken d last [] t h = absurd (ground (arith, h))
find_valid_token-HasToken d last (x ∷ ts) t h = elim (Checked-cases (validate_token d x)) [
  | inl (code, e) ↦ find_valid_token-HasToken d code ts t (ground (arith, h, e))
  | inr (u, e) ↦
      let same : x ≡ t = ground (arith, h, e) in
      subst (HasToken d) same (validate_token-HasToken d x u e)
]

-- The trigger has what the requests to the server need.
abbrev pub HasUser : HookTrigger → Type 0
HasUser t =
    (token : Text) × (user : Text) × (lookup (text "gitlabtok") t.secret_data ≡ some token)
    × (lookup (text "gitlabuser") t.secret_data ≡ some user)

with_token-HasUser : (t t' : HookTrigger) → with_token t ≡ fine (some t') → (t ≡ t') × HasUser t
unfolding with_token
with_token-HasUser t t' h = elim (Option-cases (lookup (text "gitlabtok") t.secret_data)) [
  | inl e ↦ absurd (ground (arith, h, e))
  | inr (token, e) ↦ elim (Option-cases (lookup (text "gitlabuser") t.secret_data)) [
    | inl f ↦ absurd (ground (arith, h, e, f))
    | inr (user, f) ↦ (ground (arith, h, e, f), (token, user, e, f))
  ]
]

on_event-HasUser :
    (t t' : HookTrigger) (d : MergeEvent) (event : Option Text)
    → on_event t d event ≡ fine (some t')
    → (t ≡ t') × HasUser t
unfolding on_event
on_event-HasUser t t' d none h = absurd (ground (arith, h))
on_event-HasUser t t' d (some event) h = elim (Bool-cases (text_eq event (text "Note Hook"))) [
  | inl e ↦ elim (Bool-cases (contains (text "ci-retest") d.note)) [
    | inl f ↦ with_token-HasUser t t' (ground (arith, h, e, f))
    | inr f ↦ absurd (ground (arith, h, e, f))
  ]
  | inr e ↦ elim (Bool-cases (text_eq event (text "Merge Request Hook"))) [
    | inr f ↦ absurd (ground (arith, h, e, f))
    | inl f ↦
        elim (Bool-cases (has_text d.action (text "open" ∷ text "reopen" ∷ text "update" ∷ []))) [
          | inl g ↦ with_token-HasUser t t' (ground (arith, h, e, f, g))
          | inr g ↦ absurd (ground (arith, h, e, f, g))
        ]
  ]
]

-- A merge request is only built for a request that carries the key of a trigger, and that trigger has
-- the user and the token that the requests to the server need.
pub on_merge_event-HasToken :
    (triggers : List HookTrigger) (d : MergeEvent) (t : HookTrigger)
    → on_merge_event triggers d ≡ fine (some t)
    → HasToken d t × HasUser t
unfolding on_merge_event
on_merge_event-HasToken triggers d t h = elim (Checked-cases (find_valid_token d 404 triggers)) [
  | inl (code, e) ↦ absurd (unfold with_found in ground (arith, h, e))
  | inr (x, e) ↦
      let (same, user) =
        on_event-HasUser x t d d.event (unfold with_found in ground (arith, h, e)) in
      (
        subst (HasToken d) same (find_valid_token-HasToken d 404 triggers x e),
        subst HasUser same user,
      )
]
