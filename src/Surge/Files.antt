-- ===== src/Surge/Files.antt =====
-- Which tags are in a surge, and which have a flag file after the check.
use jobserv.Prelude.{
  ℕ, ◌-◌, ◌≡◌, refl, Bool, ◌&&◌, ◌||◌, List, [], ◌∷◌, any, arith, Text, text_eq, text_eq→eq, ltb,
}
use jobserv.Workers.{Worker}
use jobserv.Surge.{
  QueuedRun, bump, count_unclaimed, surges_of, surging, end_surges, start_surges, assign,
  check_queue,
}

-- A run with this tag that no host has claimed.
abbrev pub waiting : Text → List QueuedRun → Bool
waiting tag = any (λ run. run.unclaimed && text_eq run.tag tag)

surging-bump :
    (t tag : Text) (m : List (Text × ℕ)) → surging t (bump tag m) ≡ (text_eq tag t || surging t m)
unfolding surging bump
surging-bump t tag [] = refl
surging-bump t tag ((u, n) ∷ m) = ground (arith, surging-bump t tag m, text_eq→eq u tag)

surging-count :
    (t : Text) (m : List (Text × ℕ)) (queue : List QueuedRun)
    → surging t (count_unclaimed m queue) ≡ (surging t m || waiting t queue)
unfolding count_unclaimed
surging-count t m [] = ground arith
surging-count t m (run ∷ runs) =
    ground (
      arith,
      surging-count t m runs,
      surging-count t (bump run.tag m) runs,
      surging-bump t run.tag m,
    )

-- A tag is in a surge exactly when some run with it was left over.
surging-surges_of :
    (t : Text) (queue : List QueuedRun) → surging t (surges_of queue) ≡ waiting t queue
unfolding surges_of surging
surging-surges_of t queue = surging-count t [] queue

-- A flag file of the tag that is kept for the five minutes only.
abbrev pub young : Bool → ℕ → Text → List (Text × ℕ) → Bool
young flap now t = any (λ f. text_eq f.0 t && (flap && ltb (now - f.1) 300))

module _ (flap : Bool) (now : ℕ) (surges : List (Text × ℕ)) where
  surging-end_surges :
      (t : Text) (files : List (Text × ℕ))
      → surging t (end_surges flap now surges files).0
        ≡ ((surging t files && surging t surges) || young flap now t files)
  unfolding end_surges surging
  surging-end_surges t [] = refl
  surging-end_surges t ((u, m) ∷ files) = ground (arith, surging-end_surges t files, text_eq→eq u t)

surging-start_surges :
    (now : ℕ) (t : Text) (files surges : List (Text × ℕ))
    → surging t (start_surges now files surges).0 ≡ (surging t files || surging t surges)
unfolding start_surges surging
surging-start_surges now t files [] = ground arith
surging-start_surges now t files ((u, n) ∷ surges) = ground (
  arith,
  surging-start_surges now t files surges,
  surging-start_surges now t ((u, now) ∷ files) surges,
  text_eq→eq u t,
)

-- After the check a tag has a flag file exactly when a run with it was left over, or when it had a
-- file that is younger than five minutes and flapping is looked for.
pub check_queue_lem :
    (flap : Bool) (ratio now : ℕ) (workers : List Worker) (queued : List Text)
    (files : List (Text × ℕ)) (t : Text)
    → surging t (check_queue flap ratio now workers queued files).0
      ≡ (waiting t (assign ratio workers queued).queue || young flap now t files)
unfolding check_queue
check_queue_lem flap ratio now workers queued files t =
    let queue = (assign ratio workers queued).queue in
    let surges = surges_of queue in
    ground (
      arith,
      surging-surges_of t queue,
      surging-end_surges flap now surges t files,
      surging-start_surges now t (end_surges flap now surges files).0 surges,
    )
