-- ===== src/WorkerApi/Tags.antt =====
-- The tags that a worker may give itself.
use jobserv.Prelude.{
  ◌≡◌, ◌≢◌, refl, inl, inr, Bool, true, false, not, some, List, [], ◌∷◌, All, select, Text,
  has_text, split, arith, Bool-cases, subst, sym,
}
use jobserv.Workers.{Worker}
use jobserv.WorkerApi.{Caller, Attrs, rejects, refused, nonempty, or_kept, worker_update}

select_nil :
    (p : Text → Bool) (l : List Text) → select (λ t. not (p t)) l ≡ [] → All (λ t. p t ≡ true) l
select_nil p [] h = tt
select_nil p (t ∷ l) h = elim (Bool-cases (p t)) [
  | inl e ↦ (e, select_nil p l (ground (arith, h, e)))
  | inr e ↦ absurd (ground (arith, h, e))
]

nonempty-none : (l : List Text) → nonempty l ≡ false → l ≡ []
unfolding nonempty
nonempty-none [] h = refl
nonempty-none (t ∷ l) h = absurd (ground (arith, h))

nothing_refused :
    (allowed : List Text) (val : Text)
    → allowed ≢ []
    → refused allowed (some val) ≡ false
    → rejects allowed val ≡ []
unfolding refused
nothing_refused [] val n h = absurd (n refl)
nothing_refused (t ∷ allowed) val n h = nonempty-none (rejects (t ∷ allowed) val) h

-- A worker whose token restricts its tags, and that changes them, is left with these tags only if each
-- of them is allowed to it.
pub worker_update-allowed :
    (c : Caller) (attrs : Attrs) (val : Text) (w : Worker)
    → c.allowed_tags ≢ []
    → attrs.host_tags ≡ some val
    → worker_update c attrs ≡ some w
    → (w.host_tags ≡ val)
      × (w.name ≡ c.worker.name)
      × (w.enlisted ≡ c.worker.enlisted)
      × All (λ tag. has_text tag c.allowed_tags ≡ true) (split b',' w.host_tags)
unfolding worker_update or_kept
worker_update-allowed c attrs val w n e h =
    elim (Bool-cases (refused c.allowed_tags attrs.host_tags)) [
      | inl r ↦ absurd (ground (arith, h, r))
      | inr r ↦
          let tags : w.host_tags ≡ val = ground (arith, h, r, e) in
          let none_left = nothing_refused c.allowed_tags val n (ground (arith, r, e)) in
          (
            tags,
            ground (arith, h, r),
            ground (arith, h, r),
            subst (λ t. All (λ tag. has_text tag c.allowed_tags ≡ true) (split b',' t)) (sym tags)
                (select_nil (λ tag. has_text tag c.allowed_tags) (split b',' val)
                  (unfold rejects in none_left)),
          )
    ]
