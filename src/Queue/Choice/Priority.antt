-- ===== src/Queue/Choice/Priority.antt =====
-- Which run a worker gets: one that it may run, the first of these, and some run if there is one.
use mathlib.Core.List.{Mem, mem-append, mem-cons_self, append_assoc}
use mathlib.Core.List.Perm
use mathlib.Core.Logic.Or
use jobserv.Prelude.{
  ◌≡◌, sym, subst, ◌∙◌, inl, inr, Bool, true, false, not, ◌&&◌, some, List, [], ◌∷◌, ◌++◌, All,
  All-imp, all, arith, Text, Bool-cases, refl, ◌||◌, ◌==◌, ==_refl,
}
use jobserv.Status.{queued, is}
use jobserv.Models.{Db}
use jobserv.Workers.{Worker}
use jobserv.Queue.{Row, before, select_rows, order_rows, find_work, worker_tags, is_oldest}
use jobserv.Queue.Order.{
  IsOrdered, order_rows-perm, order_rows-IsOrdered, All-order_rows, before_irrefl,
}
use jobserv.Queue.Choice.{
  may_run, tag_matches, first_build, build_active, project_active, first_choice,
  first_choice-splits, scan_lem,
}

-- No row before it is of another build of its project.
unfoldable pub is_alone : List Row → Row → Bool
is_alone rows row = all (λ a. not (a.proj_id == row.proj_id) || a.build_id == row.build_id) rows

-- A queued run with a tag that the worker has, of a project that is not synchronous, or has no run of
-- another build among those that are queued or active.
unfoldable pub is_free : List Text → List Row → Row → Bool
unfolding is_alone
is_free tags rows row =
    is row.status queued && tag_matches tags row && (not row.sync || is_alone rows row)

is_oldest-alone :
    (pre : List Row) (row : Row)
    → is_alone pre row ≡ true
    → is_oldest row (first_build row.proj_id (pre ++ row ∷ [])) ≡ true
unfolding is_alone first_build is_oldest
is_oldest-alone [] row h = ground (arith, ==_refl row.proj_id, ==_refl row.build_id)
is_oldest-alone (x ∷ pre) row h = elim (Bool-cases (x.proj_id == row.proj_id)) [
  | inl e ↦ ground (arith, h, e)
  | inr e ↦ rw e (is_oldest-alone pre row (ground (arith, h)))
]

joins-alone :
    (pre : List Row) (row : Row)
    → is_alone pre row ≡ true
    → (build_active row pre || not (project_active row pre)) ≡ true
unfolding is_alone build_active project_active
joins-alone [] row h = refl
joins-alone (x ∷ pre) row h = ground (arith, h, joins-alone pre row (ground (arith, h)))

is_alone-append :
    (row : Row) (xs ys : List Row) → is_alone (xs ++ ys) row ≡ true → is_alone xs row ≡ true
unfolding is_alone
is_alone-append row [] ys h = refl
is_alone-append row (x ∷ xs) ys h = ground (arith, h, is_alone-append row xs ys (ground (arith, h)))

free_may_run :
    (tags : List Text) (pre rest : List Row) (row : Row)
    → is_free tags (pre ++ rest) row ≡ true
    → may_run tags pre row ≡ true
unfolding is_free may_run
free_may_run tags pre rest row h = elim (Bool-cases row.sync) [
  | inr e ↦ ground (arith, h, e)
  | inl e ↦
      let alone = is_alone-append row pre rest (ground (arith, h, e)) in
      ground (arith, h, e, is_oldest-alone pre row alone, joins-alone pre row alone)
]

-- Nothing free is passed over on the way to the choice.
first_choice-skips :
    (tags : List Text) (pre rows : List Row) (row : Row)
    → first_choice tags pre rows ≡ some row
    → IsOrdered rows
    → All (λ r. is_free tags (pre ++ rows) r ≡ true → before r row ≡ false) rows
unfolding first_choice
first_choice-skips tags pre [] row h o = tt
first_choice-skips tags pre (x ∷ rows) row h o = elim (Bool-cases (may_run tags pre x)) [
  | inl e ↦
      let same : x ≡ row = ground arith in
      subst
        (λ r. All (λ y. is_free tags (pre ++ x ∷ rows) y ≡ true → before y r ≡ false) (x ∷ rows))
        same (λ _. before_irrefl x, All-imp _ _ rows (λ y n _. n) o.0)
  | inr e ↦ (
    λ p. ground (arith, free_may_run tags pre (x ∷ rows) x p),
    subst (λ l. All (λ r. is_free tags l r ≡ true → before r row ≡ false) rows)
        (append_assoc pre (x ∷ []) rows)
        (first_choice-skips tags (pre ++ x ∷ []) rows row (ground arith) o.1),
  )
]

-- The run that a worker gets is queued, and its tag is matched by the worker's name or one of its
-- tags.
pub find_work_sound :
    (w : Worker) (db : Db) (row : Row)
    → find_work w db ≡ some row
    → Mem row (select_rows db)
      × (is row.status queued ≡ true)
      × (tag_matches (worker_tags w) row ≡ true)
unfolding find_work
find_work_sound w db row h =
    let rows = order_rows (select_rows db) in
    let (xs, ys, split, may) =
      first_choice-splits (worker_tags w) [] rows row (sym (scan_lem (worker_tags w) rows) ∙ h) in
    (
      Perm.subset (order_rows-perm (select_rows db)) row
          (subst (Mem row) (sym split) (mem-append.1 (Or.inr mem-cons_self))),
      unfold may_run in ground arith,
      unfold may_run in ground arith,
    )

-- The rows of the query, in its order.
abbrev pub queue : Db → List Row
queue db = order_rows (select_rows db)

-- Of the queued runs that have one of the worker's tags, and are of a project that is not synchronous
-- or has no queued or active run of another build, none is placed before the one that the worker gets.
pub find_work-first :
    (w : Worker) (db : Db) (row : Row)
    → find_work w db ≡ some row
    → All (λ r. is_free (worker_tags w) (queue db) r ≡ true → before r row ≡ false) (select_rows db)
unfolding find_work
find_work-first w db row h =
    let rows = order_rows (select_rows db) in
    All-order_rows _ (select_rows db) (
      first_choice-skips (worker_tags w) [] rows row (sym (scan_lem (worker_tags w) rows) ∙ h)
        (order_rows-IsOrdered (select_rows db)))
