-- ===== src/WorkerApi/Identity.antt =====
-- A request only ever speaks for the worker that its address names.
use jobserv.Prelude.{
  ◌≡◌, refl, inl, inr, Bool, true, false, Option, none, some, List, [], ◌∷◌, Text, text, text_eq,
  text_eq→eq, split, arith, Bool-cases, subst, if◌then◌else◌,
}
use jobserv.Workers.{Worker}
use jobserv.WorkerApi.{
  WorkerJwt, Authenticated, caller, not_found, unauthorized, find_worker, new_worker, known_worker,
  bearer, token, check_parts, worker_authenticated,
}

-- The worker has the name and is not deleted.
abbrev pub Speaks : Text → Authenticated → Type 0
Speaks name (caller c) = (c.worker.name ≡ name) × (c.worker.deleted ≡ false)
Speaks name other = Unit

find_worker-name :
    (name : Text) (ws : List Worker) (w : Worker) → find_worker name ws ≡ some w → w.name ≡ name
unfolding find_worker
find_worker-name name [] w h = cc
find_worker-name name (x ∷ ws) w h =
    ground (arith, h, find_worker-name name ws w, text_eq→eq x.name name)

if-Speaks :
    (b : Bool) (name : Text) (x y : Authenticated)
    → (b ≡ true → Speaks name x)
    → (b ≡ false → Speaks name y)
    → Speaks name (if b then x else y)
if-Speaks true name x y h k = h refl
if-Speaks false name x y h k = k refl

known_worker-Speaks :
    (w : WorkerJwt) (ws : List Worker) (o : Option Worker)
    → find_worker w.name ws ≡ o
    → Speaks w.name (known_worker w o)
unfolding known_worker new_worker
known_worker-Speaks w ws none e = (refl, refl)
known_worker-Speaks w ws (some row) e =
    if-Speaks row.deleted w.name not_found
      (caller (record { worker = row; allowed_tags = w.allowed_tags })) (λ d. tt)
      (λ d. (find_worker-name w.name ws row e, d))

bearer-Speaks :
    (ws : List Worker) (name : Text) (o : Option WorkerJwt) → Speaks name (bearer ws name o)
unfolding bearer
bearer-Speaks ws name none = tt
bearer-Speaks ws name (some w) = elim (Bool-cases (text_eq w.name name)) [
  | inl e ↦ rw e (
      subst (λ n. Speaks n (known_worker w (find_worker w.name ws))) (text_eq→eq w.name name e)
        (known_worker-Speaks w ws (find_worker w.name ws) refl))
  | inr e ↦ rw e tt
]

token-Speaks :
    (ws : List Worker) (name : Text) (valid : Worker → Bool) (o : Option Worker)
    → find_worker name ws ≡ o
    → Speaks name (token valid o)
unfolding token
token-Speaks ws name valid none e = tt
token-Speaks ws name valid (some w) e =
    let let_in = caller (record { worker = w; allowed_tags = [] }) in
    if-Speaks w.deleted name not_found (if valid w then let_in else unauthorized) (λ d. tt)
      (λ d.
        if-Speaks (valid w) name let_in unauthorized (λ v. (find_worker-name name ws w e, d))
          (λ v. tt))

check_parts-Speaks :
    (ws : List Worker) (name : Text) (valid : Worker → Text → Bool)
    (from_jwt : Text → Option WorkerJwt) (parts : List Text)
    → Speaks name (check_parts ws name valid from_jwt parts)
unfolding check_parts
check_parts-Speaks ws name valid from_jwt [] = tt
check_parts-Speaks ws name valid from_jwt (s ∷ []) = tt
check_parts-Speaks ws name valid from_jwt (s ∷ k ∷ m ∷ parts) = tt
check_parts-Speaks ws name valid from_jwt (s ∷ k ∷ []) =
    elim (Bool-cases (text_eq s (text "Bearer"))) [
      | inl b ↦ rw b (bearer-Speaks ws name (from_jwt k))
      | inr b ↦ elim (Bool-cases (text_eq s (text "Token"))) [
        | inl t ↦ rw (b, t) (token-Speaks ws name (λ w. valid w k) (find_worker name ws) refl)
        | inr t ↦ rw (b, t) tt
      ]
    ]

-- Whatever the table of workers, the passwords and the tokens are: a request that is let through
-- speaks for a worker of the name in its address which is not deleted.
pub worker_authenticated-Speaks :
    (ws : List Worker) (name : Text) (valid : Worker → Text → Bool)
    (from_jwt : Text → Option WorkerJwt) (header : Option Text)
    → Speaks name (worker_authenticated ws name valid from_jwt header)
unfolding worker_authenticated
worker_authenticated-Speaks ws name valid from_jwt none = tt
worker_authenticated-Speaks ws name valid from_jwt (some []) = tt
worker_authenticated-Speaks ws name valid from_jwt (some (c ∷ header)) =
    check_parts-Speaks ws name valid from_jwt (split b' ' (c ∷ header))
