-- ===== src/Queue/Synchronous.antt =====
-- Synchronous projects: a run is chosen only in the build that is already at work, or in the first.
use jobserv.Prelude.{
  ℕ, ◌≡◌, refl, sym, ap, subst, ◌∙◌, inl, inr, true, false, not, ◌||◌, Option, none, some, List, [],
  ◌∷◌, ◌++◌, arith, All, All-append, All-parts, All-imp, All-both, any-witness, any-no, Text, map,
  ◌==◌, if◌then◌else◌, Option-cases, Bool-cases, has, Distinct,
}
use jobserv.Status.{queued, is, value}
use jobserv.Models.{Project, Build, Run, Db}
use jobserv.Workers.{Worker}
use jobserv.Queue.{
  Row, nothing_seen, active, scan, before, select_rows, join_builds, join_build, row_of,
  find_project, order_rows, find_work, worker_tags,
}
use jobserv.Queue.Order.{IsOrdered, order_rows-IsOrdered, order_rows-All, All-order_rows}
use jobserv.Queue.Choice.{may_run, build_active, project_active, scan_lem, first_choice-splits}

IsOrdered-behind :
    (xs ys : List Row) (row : Row) → IsOrdered (xs ++ row ∷ ys) → All (λ y. before y row ≡ false) ys
IsOrdered-behind [] ys row h = h.0
IsOrdered-behind (x ∷ xs) ys row h = IsOrdered-behind xs ys row h.1

behind_queued :
    (row y : Row) → is row.status queued ≡ true → before y row ≡ false → active y ≡ false
unfolding before active is value
behind_queued row y q h = ground arith

-- An active row is in the one build that `c` names for its project, and the project of each row is
-- that of its build.
abbrev pub Fits : (ℕ → ℕ) → (ℕ → Option ℕ) → Row → Type 0
Fits c project_of a =
    (active a ≡ true → a.build_id ≡ c a.proj_id) × (project_of a.build_id ≡ some a.proj_id)

-- All active rows of the row's project are in its build.
abbrev pub JoinsActive : Row → List Row → Type 0
JoinsActive row rows =
    All (λ a. active a ≡ true → a.proj_id ≡ row.proj_id → a.build_id ≡ row.build_id) rows

queued_is_idle : (row : Row) → is row.status queued ≡ true → active row ≡ false
unfolding active is
queued_is_idle row h = ground arith

idle_joins :
    (row a : Row)
    → active a ≡ false
    → active a ≡ true
    → a.proj_id ≡ row.proj_id
    → a.build_id ≡ row.build_id
idle_joins row a n y = cc

may_run-parts :
    (tags : List Text) (xs : List Row) (row : Row)
    → may_run tags xs row ≡ true
    → row.sync ≡ true
    → (is row.status queued ≡ true) × (build_active row xs || not (project_active row xs) ≡ true)
unfolding may_run
may_run-parts tags xs row may sync = ground arith

module _ (c : ℕ → ℕ) (project_of : ℕ → Option ℕ) (row : Row) where
  -- An active row of the chosen build fixes the build of the project.
  build_active-fixes :
      (xs : List Row)
      → All (Fits c project_of) xs
      → project_of row.build_id ≡ some row.proj_id
      → build_active row xs ≡ true
      → row.build_id ≡ c row.proj_id
  unfolding build_active
  build_active-fixes xs fits belongs h =
      let (g, hit, (gc, gp)) = any-witness (Fits c project_of) _ xs h fits in
      let same : g.build_id ≡ row.build_id = ground (arith, hit) in
      let proj : g.proj_id ≡ row.proj_id = ground (arith, gp, belongs, ap project_of same) in
      ground (arith, gc, hit, ap c proj)

  fixed-JoinsActive :
      (rows : List Row)
      → row.build_id ≡ c row.proj_id
      → All (Fits c project_of) rows
      → JoinsActive row rows
  fixed-JoinsActive rows fixed =
      All-imp _ _ rows (λ a (ac, _) act same. ac act ∙ ap c same ∙ sym fixed)

  idle-JoinsActive :
      (rows : List Row)
      → All (λ a. active a ≡ true → a.proj_id ≡ row.proj_id → ⊥) rows
      → JoinsActive row rows
  idle-JoinsActive rows = All-imp _ _ rows (λ a n act same. absurd (n act same))

  project_idle :
      (xs : List Row)
      → project_active row xs ≡ false
      → All (λ a. active a ≡ true → a.proj_id ≡ row.proj_id → ⊥) xs
  unfolding project_active
  project_idle xs h = All-imp _ _ xs (λ a n act same. ground arith) (any-no _ xs h)

  behind-JoinsActive :
      (ys : List Row)
      → is row.status queued ≡ true
      → All (λ y. before y row ≡ false) ys
      → JoinsActive row ys
  behind-JoinsActive ys q =
      All-imp _ _ ys (λ y n act same. idle_joins row y (behind_queued row y q n) act same)

  split-JoinsActive :
      (tags : List Text) (xs ys : List Row)
      → IsOrdered (xs ++ row ∷ ys)
      → All (Fits c project_of) (xs ++ row ∷ ys)
      → may_run tags xs row ≡ true
      → row.sync ≡ true
      → JoinsActive row (xs ++ row ∷ ys)
  split-JoinsActive tags xs ys ordered fits may sync =
      let (in_xs, (here, in_ys)) = All-parts (Fits c project_of) xs (row ∷ ys) fits in
      let (q, ok) = may_run-parts tags xs row may sync in
      elim (Bool-cases (build_active row xs)) [
        | inl e ↦ fixed-JoinsActive (xs ++ row ∷ ys) (build_active-fixes xs in_xs here.1 e) fits
        | inr e ↦
            All-append _ xs (row ∷ ys) (idle-JoinsActive xs (project_idle xs (ground arith))) (
              idle_joins row row (queued_is_idle row q),
              behind-JoinsActive ys q (IsOrdered-behind xs ys row ordered),
            )
      ]

-- A run of a synchronous project is only chosen in the build that the project's active runs are in.
-- So if the active runs of each project share a build, they still do with the chosen run started.
choice-JoinsActive :
    (c : ℕ → ℕ) (project_of : ℕ → Option ℕ) (tags : List Text) (rows : List Row) (row : Row)
    → IsOrdered rows
    → All (Fits c project_of) rows
    → scan tags nothing_seen rows ≡ some row
    → row.sync ≡ true
    → JoinsActive row rows
choice-JoinsActive c project_of tags rows row ordered fits chosen sync =
    let (xs, ys, split, may) =
      first_choice-splits tags [] rows row (sym (scan_lem tags rows) ∙ chosen) in
    subst (JoinsActive row) (sym split) (
      split-JoinsActive c project_of row tags xs ys (subst IsOrdered split ordered)
        (subst (All (Fits c project_of)) split fits) may sync)

build_project : ℕ → List Build → Option ℕ
build_project id [] = none
build_project id (b ∷ bs) = if b.id == id then some b.proj_id else build_project id bs

abbrev pub build_ids : List Build → List ℕ
build_ids = map (λ b. b.id)

find_project-id :
    (id : ℕ) (ps : List Project) (p : Project) → find_project id ps ≡ some p → p.id ≡ id
unfolding find_project
find_project-id id [] p h = cc
find_project-id id (x ∷ ps) p h = ground (arith, find_project-id id ps p)

abbrev OfBuild : Build → Row → Type 0
OfBuild b a = (a.build_id ≡ b.id) × (a.proj_id ≡ b.proj_id)

map-row_of :
    (p : Project) (b : Build) (rs : List Run)
    → p.id ≡ b.proj_id
    → All (OfBuild b) (map (row_of p b) rs)
unfolding row_of
map-row_of p b [] h = tt
map-row_of p b (r ∷ rs) h = ((refl, h), map-row_of p b rs h)

join_build-OfBuild :
    (ps : List Project) (b : Build) → All (OfBuild b) (join_build (find_project b.proj_id ps) b)
unfolding join_build
join_build-OfBuild ps b = elim (Option-cases (find_project b.proj_id ps)) [
  | inl e ↦ rw (e, join_build) tt
  | inr (p, e) ↦ rw (e, join_build) (map-row_of p b _ (find_project-id b.proj_id ps p e))
]

abbrev Listed : List Build → Row → Type 0
Listed bs a =
    (has a.build_id (build_ids bs) ≡ true) × (build_project a.build_id bs ≡ some a.proj_id)

-- With distinct keys, each row's project is that of the build with the row's key.
join_builds-Listed :
    (ps : List Project) (bs : List Build)
    → Distinct (build_ids bs)
    → All (Listed bs) (join_builds ps bs)
unfolding join_builds build_project
join_builds-Listed ps [] d = tt
join_builds-Listed ps (b ∷ bs) d =
    All-append _ (join_build (find_project b.proj_id ps) b) (join_builds ps bs)
      (All-imp _ _ _ (λ a (same, proj). (ground arith, ground arith)) (join_build-OfBuild ps b))
      (All-imp _ _ _ (λ a (listed, proj). (ground arith, ground (arith, d.0)))
        (join_builds-Listed ps bs d.1))

-- The rows of the database: if the active runs of each synchronous project are in one build, `c` of
-- the project, then a run that a worker is given in a synchronous project is in the build of all of
-- that project's active runs.
pub find_work-JoinsActive :
    (c : ℕ → ℕ) (w : Worker) (db : Db) (row : Row)
    → Distinct (build_ids db.builds)
    → All (λ a. active a ≡ true → a.build_id ≡ c a.proj_id) (select_rows db)
    → find_work w db ≡ some row
    → row.sync ≡ true
    → JoinsActive row (select_rows db)
unfolding find_work
find_work-JoinsActive c w db row distinct exclusive chosen sync =
    let project_of = λ (id : ℕ). build_project id db.builds in
    let listed : All (Listed db.builds) (select_rows db) =
      unfold select_rows in join_builds-Listed db.projects db.builds distinct in
    let fits : All (Fits c project_of) (select_rows db) =
      All-both _ _ (select_rows db) exclusive (All-imp _ _ (select_rows db) (λ a l. l.1) listed) in
    All-order_rows _ (select_rows db) (
      choice-JoinsActive c project_of (worker_tags w) (order_rows (select_rows db)) row
        (order_rows-IsOrdered (select_rows db)) (order_rows-All _ (select_rows db) fits) chosen
        sync)
