-- ===== src/BuildApi/Numbers.antt =====
-- `Build.create`: builds of one project that are made at the same time. `others i` holds the builds
-- that are in the table when the i-th number is tried.
use jobserv.Prelude.{
  ℕ, zero, suc, ◌+◌, ◌≤◌, ◌<◌, ◌≡◌, refl, sym, subst, ap, inl, inr, Bool, true, false, ◌&&◌, Option,
  none, some, List, [], ◌∷◌, ◌++◌, Text, ltb, ◌==◌, arith, Bool-cases, if◌then◌else◌,
}
use jobserv.Status.{BuildStatus, queued}
use jobserv.Models.{Build}

-- The constraint `build_id_uc` has a row with these numbers.
unfoldable pub is_taken : ℕ → ℕ → List Build → Bool
is_taken proj_id build_id [] = false
is_taken proj_id build_id (b ∷ bs) =
    let rest = is_taken proj_id build_id bs in
    if b.proj_id == proj_id && b.build_id == build_id then true else rest

-- `clazz.query.filter_by(proj_id=project.id).order_by(-clazz.build_id).first()`, where 0 is none
unfoldable pub last_build_id : ℕ → List Build → ℕ
last_build_id proj_id [] = 0
last_build_id proj_id (b ∷ bs) =
    let last = last_build_id proj_id bs in
    if b.proj_id == proj_id && ltb last b.build_id then b.build_id else last

-- What a build is made of.
pub record NewBuild : Type 0 where
  pub id : ℕ
  pub proj_id : ℕ
  pub init_event_status : BuildStatus
  pub trigger_name : Text
  pub now : ℕ

-- `Build(project, build_id, reason, trigger_name)` and its event
unfoldable pub new_build : NewBuild → ℕ → Build
new_build n build_id = record {
  id = n.id;
  build_id = build_id;
  proj_id = n.proj_id;
  status = queued;
  trigger_name = n.trigger_name;
  name = none;
  annotation = none;
  runs = [];
  status_events = record { time = n.now; status = n.init_event_status } ∷ [];
}

-- The loop over the numbers; `none` is the last `IntegrityError`.
unfoldable pub try_build_ids : NewBuild → (ℕ → List Build) → ℕ → ℕ → ℕ → Option (Build × List Build)
unfolding new_build
try_build_ids n others zero i build_id = none
try_build_ids n others (suc left) i build_id =
    let rest = try_build_ids n others left (i + 1) (build_id + 1) in
    if is_taken n.proj_id build_id (others i)
    then rest
    else some (new_build n build_id, others i ++ new_build n build_id ∷ [])

-- `Build.create`: the build and the table with it. `seen` is the table when the last number is read.
unfoldable pub create : NewBuild → List Build → (ℕ → List Build) → Option (Build × List Build)
create n seen others = try_build_ids n others 10 0 (last_build_id n.proj_id seen + 1)

-- No two builds of a project have the same number.
abbrev pub IsNumbered : List Build → Type 0
IsNumbered [] = Unit
IsNumbered (b ∷ bs) = (is_taken b.proj_id b.build_id bs ≡ false) × IsNumbered bs

is_taken-snoc :
    (p i : ℕ) (b : Build) (bs : List Build)
    → is_taken p i (bs ++ b ∷ [])
      ≡ (if b.proj_id == p && b.build_id == i then true else is_taken p i bs)
unfolding is_taken
is_taken-snoc p i b [] = refl
is_taken-snoc p i b (c ∷ bs) = ground (arith, is_taken-snoc p i b bs)

same_number :
    (b c : Build)
    → (b.proj_id == c.proj_id && b.build_id == c.build_id)
      ≡ (c.proj_id == b.proj_id && c.build_id == b.build_id)
same_number b c = ground arith

IsNumbered-snoc :
    (b : Build) (bs : List Build)
    → is_taken b.proj_id b.build_id bs ≡ false
    → IsNumbered bs
    → IsNumbered (bs ++ b ∷ [])
unfolding is_taken
IsNumbered-snoc b [] h k = (refl, tt)
IsNumbered-snoc b (c ∷ bs) h k = (
  ground (arith, is_taken-snoc c.proj_id c.build_id b bs, h, k.0),
  IsNumbered-snoc b bs (ground (arith, h)) k.1,
)

-- What a creation that succeeds gives.
pub record IsCreated (n : NewBuild) (others : ℕ → List Build) (i first left : ℕ) (b : Build)
    (table : List Build) : Type 0 where
  pub tries : ℕ
  pub tried : tries < left
  pub added : table ≡ others (i + tries) ++ b ∷ []
  pub number : b.build_id ≡ first + tries
  pub of_project : b.proj_id ≡ n.proj_id
  pub was_free : is_taken n.proj_id (first + tries) (others (i + tries)) ≡ false
  pub before : (j : ℕ) → j < tries → is_taken n.proj_id (first + j) (others (i + j)) ≡ true

later :
    (n : NewBuild) (others : ℕ → List Build) (i first left : ℕ) (b : Build) (table : List Build)
    → is_taken n.proj_id first (others i) ≡ true
    → IsCreated n others (i + 1) (first + 1) left b table
    → IsCreated n others i first (suc left) b table
later n others i first left b table taken c = record {
  tries = suc c.tries;
  tried = omega (arith, c.tried);
  added = subst (λ k. table ≡ others k ++ b ∷ []) (shift i c.tries) c.added;
  number = omega (arith, c.number);
  of_project = c.of_project;
  was_free = at2 c.tries false c.was_free;
  before = λ j h.
      elim j as (λ j. j < suc c.tries → is_taken n.proj_id (first + j) (others (i + j)) ≡ true) [
        | zero ↦ λ h.
            subst (λ k. is_taken n.proj_id k (others (i + 0)) ≡ true) (plus_zero first)
              (subst (λ k. is_taken n.proj_id first (others k) ≡ true) (plus_zero i) taken)
        | suc k ↦ λ h. at2 k true (c.before k (omega (arith, h)))
      ]
        h;
}
  where
    shift : (a t : ℕ) → a + 1 + t ≡ a + suc t
    shift a t = omega arith

    plus_zero : (a : ℕ) → a ≡ a + 0
    plus_zero a = omega arith

    at2 :
        (t : ℕ) (v : Bool)
        → is_taken n.proj_id (first + 1 + t) (others (i + 1 + t)) ≡ v
        → is_taken n.proj_id (first + suc t) (others (i + suc t)) ≡ v
    at2 t v h =
        subst (λ k. is_taken n.proj_id (first + suc t) (others k) ≡ v) (shift i t)
          (subst (λ k. is_taken n.proj_id k (others (i + 1 + t)) ≡ v) (shift first t) h)

now_created :
    (n : NewBuild) (others : ℕ → List Build) (i first left : ℕ)
    → is_taken n.proj_id first (others i) ≡ false
    → IsCreated n others i first (suc left) (new_build n first) (others i ++ new_build n first ∷ [])
unfolding new_build
now_created n others i first left h = record {
  tries = 0;
  tried = omega arith;
  added = ap (λ k. others k ++ new_build n first ∷ []) (plus_zero i);
  number = omega arith;
  of_project = refl;
  was_free =
      subst (λ k. is_taken n.proj_id (first + 0) (others k) ≡ false) (plus_zero i)
        (subst (λ k. is_taken n.proj_id k (others i) ≡ false) (plus_zero first) h);
  before = λ j h. absurd (omega (arith, h));
}
  where
    plus_zero : (a : ℕ) → a ≡ a + 0
    plus_zero a = omega arith

try_build_ids-IsCreated :
    (n : NewBuild) (others : ℕ → List Build) (left i first : ℕ) (b : Build) (table : List Build)
    → try_build_ids n others left i first ≡ some (b, table)
    → IsCreated n others i first left b table
unfolding try_build_ids
try_build_ids-IsCreated n others zero i first b table h = absurd (ground (arith, h))
try_build_ids-IsCreated n others (suc left) i first b table h =
    elim (Bool-cases (is_taken n.proj_id first (others i))) [
      | inl e ↦
          later n others i first left b table e (
            try_build_ids-IsCreated n others left (i + 1) (first + 1) b table
              (ground (arith, h, e)))
      | inr e ↦
          let same : b ≡ new_build n first = ground (arith, h, e) in
          let same' : table ≡ others i ++ new_build n first ∷ [] = ground (arith, h, e) in
          rw (same, same') (now_created n others i first left e)
    ]

-- A build that was created has a number of its own in its project, larger by ten at most than the last
-- that was read: where the tables had no number twice, the one with the build has none.
pub create-IsNumbered :
    (n : NewBuild) (seen : List Build) (others : ℕ → List Build) (b : Build) (table : List Build)
    → ((i : ℕ) → i < 10 → IsNumbered (others i))
    → create n seen others ≡ some (b, table)
    → IsNumbered table
      × (last_build_id n.proj_id seen < b.build_id)
      × (b.build_id ≤ last_build_id n.proj_id seen + 10)
unfolding create
create-IsNumbered n seen others b table k h =
    let first = last_build_id n.proj_id seen + 1 in
    let c = try_build_ids-IsCreated n others 10 0 first b table h in
    let free : is_taken b.proj_id b.build_id (others (0 + c.tries)) ≡ false =
      rw (c.of_project, c.number) c.was_free in
    (
      subst IsNumbered (sym c.added) (
          IsNumbered-snoc b (others (0 + c.tries)) free (k (0 + c.tries) (omega (arith, c.tried)))),
      omega (arith, c.number),
      omega (arith, c.number, c.tried),
    )

try_build_ids-free :
    (n : NewBuild) (others : ℕ → List Build) (left i first j : ℕ)
    → j < left
    → is_taken n.proj_id (first + j) (others (i + j)) ≡ false
    → (b : Build) × (table : List Build) × (try_build_ids n others left i first ≡ some (b, table))
unfolding try_build_ids
try_build_ids-free n others zero i first j h f = absurd (omega (arith, h))
try_build_ids-free n others (suc left) i first j h f =
    elim (Bool-cases (is_taken n.proj_id first (others i))) [
      | inr e ↦ (new_build n first, others i ++ new_build n first ∷ [], rw e refl)
      | inl e ↦ rw e (after (try_build_ids-free n others left (i + 1) (first + 1)) j h f e)
    ]
  where
    after :
        ((j : ℕ)
          → j < left
          → is_taken n.proj_id (first + 1 + j) (others (i + 1 + j)) ≡ false
          → (b : Build) × (table : List Build) × (try_build_ids n others left (i + 1) (first + 1)
              ≡ some (b, table)))
        → (j : ℕ) → j < suc left
        → is_taken n.proj_id (first + j) (others (i + j)) ≡ false
        → is_taken n.proj_id first (others i) ≡ true
        → (b : Build) × (table : List Build) × (try_build_ids n others left (i + 1) (first + 1)
            ≡ some (b, table))
    after again zero h f e =
        let same : first + 0 ≡ first = omega arith in
        let same' : i + 0 ≡ i = omega arith in
        absurd (
          cc (
            sym e,
            f,
            ap (λ k. is_taken n.proj_id k (others (i + 0))) same,
            ap (λ k. is_taken n.proj_id first (others k)) same',
          ))
    after again (suc j) h f e =
        let same : first + suc j ≡ first + 1 + j = omega arith in
        let same' : i + suc j ≡ i + 1 + j = omega arith in
        again j (omega (arith, h)) (
          subst (λ k. is_taken n.proj_id (first + 1 + j) (others k) ≡ false) same'
            (subst (λ k. is_taken n.proj_id k (others (i + suc j)) ≡ false) same f))

-- A build is created whenever some of the ten numbers is free when its turn comes.
pub create-free :
    (n : NewBuild) (seen : List Build) (others : ℕ → List Build) (j : ℕ)
    → j < 10
    → is_taken n.proj_id (last_build_id n.proj_id seen + 1 + j) (others j) ≡ false
    → (b : Build) × (table : List Build) × (create n seen others ≡ some (b, table))
unfolding create
create-free n seen others j h f =
    let same : j ≡ 0 + j = omega arith in
    try_build_ids-free n others 10 0 (last_build_id n.proj_id seen + 1) j h (
      subst (λ k. is_taken n.proj_id (last_build_id n.proj_id seen + 1 + j) (others k) ≡ false) same
        f)
