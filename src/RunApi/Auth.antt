-- ===== src/RunApi/Auth.antt =====
-- Which requests a runner may make for its run.
use jobserv.Prelude.{
  ◌≡◌, ◌↔◌, ◌⊎◌, refl, inl, inr, true, false, Option, none, some, List, [], ◌∷◌, arith, Text, text,
  text_eq→eq, text_eq_iff, ap, split, Bool-cases,
}
use jobserv.Status.{complete}
use jobserv.Models.{Run}
use jobserv.RunApi.{Request, granted, query_key, check_parts, check_header, authenticate_runner}

-- The key of the run, in the query.
abbrev pub InQuery : Option Text → Run → Type 0
InQuery key r = (key ≡ some r.api_key) × ¬ (r.api_key ≡ [])

-- The key of the run, in the header.
abbrev pub InHeader : Option Text → Run → Type 0
InHeader none r = ⊥
InHeader (some header) r = (split b' ' header ≡ text "Token" ∷ r.api_key ∷ []) × ¬ (header ≡ [])

query_key-InQuery : (key : Option Text) (r : Run) → (query_key key r.api_key ≡ true) ↔ InQuery key r
unfolding query_key
query_key-InQuery none r = ((λ h. cc), λ h. cc (h.0))
query_key-InQuery (some []) r = ((λ h. cc), λ h. absurd (h.1 (cc (h.0))))
query_key-InQuery (some (c ∷ key)) r = (
  (λ h. let e = text_eq→eq (c ∷ key) r.api_key h in (ap some e, λ n. cc (e, n))),
  (λ h. (text_eq_iff (c ∷ key) r.api_key).1 (cc (h.0))),
)

check_parts-granted :
    (r : Run) (parts : List Text)
    → (check_parts r parts ≡ granted)
      ↔ ((parts ≡ text "Token" ∷ r.api_key ∷ []) × (complete r.status ≡ false))
unfolding check_parts
check_parts-granted r [] = ((λ h. cc), λ h. cc (h.0))
check_parts-granted r (s ∷ []) = ((λ h. cc), λ h. cc (h.0))
check_parts-granted r (s ∷ k ∷ m ∷ l) = ((λ h. cc), λ h. cc (h.0))
check_parts-granted r (s ∷ k ∷ []) =
    ground (arith, text_eq_iff s (text "Token"), text_eq_iff k r.api_key)

check_header-granted :
    (r : Run) (header : Option Text)
    → (check_header r header ≡ granted) ↔ (InHeader header r × (complete r.status ≡ false))
unfolding check_header
check_header-granted r none = ((λ h. cc), λ h. absurd h.0)
check_header-granted r (some []) = ((λ h. cc), λ h. absurd (h.0.1 refl))
check_header-granted r (some (c ∷ key)) =
    let (to, from) = check_parts-granted r (split b' ' (c ∷ key)) in
    ((λ h. (((to h).0, λ e. cc), (to h).1)), λ h. from (h.0.0, h.1))

-- A request is let through exactly if it has the run's key in the query, or has it in the header
-- while the run is not complete: a key in the query is good for a complete run too.
pub authenticate_runner-granted :
    (req : Request) (r : Run)
    → (authenticate_runner req r ≡ granted)
      ↔ (InQuery req.apikey r ⊎ (InHeader req.authorization r × (complete r.status ≡ false)))
unfolding authenticate_runner
authenticate_runner-granted req r = elim (Bool-cases (query_key req.apikey r.api_key)) [
  | inl e ↦ rw e ((λ h. inl ((query_key-InQuery req.apikey r).0 e)), λ h. refl)
  | inr e ↦
      let (to, from) = check_header-granted r req.authorization in
      rw e (
        (λ h. inr (to h)),
        elim [ inl q ↦ ground (arith, e, (query_key-InQuery req.apikey r).1 q) | inr h ↦ from h ],
      )
]
