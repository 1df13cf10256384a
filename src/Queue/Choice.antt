-- ===== src/Queue/Choice.antt =====
-- The loop of `pop_queued`, with its dictionaries, chooses the first row that may be run.
pub mod Priority
use jobserv.Prelude.{
  ℕ, ◌≡◌, refl, sym, ap, ◌∙◌, inl, inr, Bool, true, false, not, ◌&&◌, ◌||◌, Option, none, some,
  List, [], ◌∷◌, ◌++◌, arith, any, Text, fnmatch, has, get, setdefault, get-setdefault, ◌==◌,
  if◌then◌else◌, Option-cases, Bool-cases,
}
use mathlib.Core.List.{append_assoc, append-nil}
use jobserv.Status.{queued, is}
use jobserv.Queue.{Row, Seen, nothing_seen, active, runnable, see, scan, is_oldest}

-- The build of a project's first row.
unfoldable pub first_build : ℕ → List Row → Option ℕ
first_build proj [] = none
first_build proj (row ∷ rows) =
    if row.proj_id == proj then some row.build_id else first_build proj rows

-- Some tag of the worker matches the run's tag.
unfoldable pub tag_matches : List Text → Row → Bool
tag_matches tags row = any (λ t. fnmatch t row.tag) tags

unfoldable pub build_active : Row → List Row → Bool
build_active row pre = any (λ a. active a && a.build_id == row.build_id) pre

unfoldable pub project_active : Row → List Row → Bool
project_active row pre = any (λ a. active a && a.proj_id == row.proj_id) pre

-- Whether a row may be run, read from the rows before it: it is queued and its tag matches; and in
-- a synchronous project its build is that of the project's first row, and either a run of this
-- build is active, or none of the project.
unfoldable pub may_run : List Text → List Row → Row → Bool
unfolding tag_matches build_active project_active is_oldest
may_run tags pre row =
    is row.status queued
    && tag_matches tags row
    && (not row.sync
        || (is_oldest row (first_build row.proj_id (pre ++ row ∷ []))
            && (build_active row pre || not (project_active row pre))))

-- The first row that may be run.
unfoldable pub first_choice : List Text → List Row → List Row → Option Row
first_choice tags pre [] = none
first_choice tags pre (row ∷ rows) =
    if may_run tags pre row then some row else first_choice tags (pre ++ row ∷ []) rows

-- What the dictionaries hold after the rows `pre`.
record Agrees (pre : List Row) (seen : Seen) : Type 0 where
  projects : (p : ℕ) → has p seen.sync_projects ≡ any (λ a. active a && a.proj_id == p) pre
  builds : (b : ℕ) → has b seen.okay_sync_builds ≡ any (λ a. active a && a.build_id == b) pre
  oldest : (p : ℕ) → get p seen.oldest_builds ≡ first_build p pre

any-snoc :
    {A : Type 0} (p : A → Bool) (xs : List A) (y : A) → any p (xs ++ y ∷ []) ≡ (p y || any p xs)
any-snoc p [] y = refl
any-snoc p (x ∷ xs) y = ground (arith, any-snoc p xs y)

first_build-snoc :
    (p : ℕ) (pre : List Row) (row : Row)
    → first_build p (pre ++ row ∷ []) ≡ elim (first_build p pre) [
      | some b ↦ some b
      | none ↦ if row.proj_id == p then some row.build_id else none
    ]
unfolding first_build
first_build-snoc p [] row = ground arith
first_build-snoc p (x ∷ pre) row = ground (arith, first_build-snoc p pre row)

Agrees-see :
    (pre : List Row) (seen : Seen) (row : Row)
    → Agrees pre seen
    → Agrees (pre ++ row ∷ []) (see row seen)
unfolding see
Agrees-see pre seen row h = record {
  projects = λ p. ground (arith, h.projects p, any-snoc (λ a. active a && a.proj_id == p) pre row);
  builds = λ b. ground (arith, h.builds b, any-snoc (λ a. active a && a.build_id == b) pre row);
  oldest = λ p. ground (
    arith,
    h.oldest p,
    get-setdefault row.proj_id p row.build_id seen.oldest_builds,
    first_build-snoc p pre row,
  );
}

any-and :
    {A : Type 0} (p : A → Bool) (b : Bool) (xs : List A) → any (λ x. p x && b) xs ≡ (any p xs && b)
any-and p b [] = refl
any-and p b (x ∷ xs) = ground (arith, any-and p b xs)

queued-active : (row : Row) → is row.status queued ≡ true → active row ≡ false
unfolding active is
queued-active row h = ground arith

-- The test of the loop is the one that reads the rows themselves.
step-may_run :
    (tags : List Text) (pre : List Row) (seen : Seen) (row : Row)
    → Agrees pre seen
    → (not (active row) && runnable tags (see row seen) row) ≡ may_run tags pre row
unfolding runnable may_run
step-may_run tags pre seen row h =
    let h' = Agrees-see pre seen row h in
    ground (
      arith,
      queued-active row,
      any-and (λ t. fnmatch t row.tag)
          (not row.sync || is_oldest row (get row.proj_id (see row seen).oldest_builds)) tags,
      h'.oldest row.proj_id,
      h'.projects row.proj_id,
      h'.builds row.build_id,
      any-snoc (λ a. active a && a.proj_id == row.proj_id) pre row,
      any-snoc (λ a. active a && a.build_id == row.build_id) pre row,
    )

scan-first_choice :
    (tags : List Text) (pre : List Row) (seen : Seen) (rows : List Row)
    → Agrees pre seen
    → scan tags seen rows ≡ first_choice tags pre rows
unfolding scan first_choice
scan-first_choice tags pre seen [] h = refl
scan-first_choice tags pre seen (row ∷ rows) h = rw (
  step-may_run tags pre seen row h,
  scan-first_choice tags (pre ++ row ∷ []) (see row seen) rows (Agrees-see pre seen row h),
)

-- For all tags and rows the loop chooses the first row that may be run, or none if there is none.
pub scan_lem :
    (tags : List Text) (rows : List Row) → scan tags nothing_seen rows ≡ first_choice tags [] rows
scan_lem tags rows =
    scan-first_choice tags [] nothing_seen rows (record {
      projects = λ p. refl;
      builds = λ b. refl;
      oldest = λ p. unfold first_build in refl;
    })

-- A choice splits the rows: it may be run after those before it.
pub first_choice-splits :
    (tags : List Text) (pre rows : List Row) (row : Row)
    → first_choice tags pre rows ≡ some row
    → (xs : List Row) × (ys : List Row) × (rows ≡ xs ++ row ∷ ys)
      × (may_run tags (pre ++ xs) row ≡ true)
unfolding first_choice
first_choice-splits tags pre [] row h = cc
first_choice-splits tags pre (x ∷ rows) row h = elim (Bool-cases (may_run tags pre x)) [
  | inl e ↦ ([], rows, ground arith, rw append-nil (ground arith))
  | inr e ↦
      let (xs, ys, split, ok) = first_choice-splits tags (pre ++ x ∷ []) rows row (ground arith) in
      (x ∷ xs, ys, ap (◌∷◌ x) split, rw append_assoc at ok)
]
