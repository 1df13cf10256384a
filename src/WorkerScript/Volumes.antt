-- ===== src/WorkerScript/Volumes.antt =====
-- `cmd_gcvols` of jobserv_worker.py, with the answer of `worker_deleted_volumes` of
-- jobserv/api/worker.py: which shared volumes of a worker are deleted.
use jobserv.Prelude.{
  ◌≡◌, refl, sym, ap, subst, ◌∙◌, inl, inr, Bool, true, false, not, ◌&&◌, Option, none, some, List,
  [], ◌∷◌, any, select, Text, text, text_eq, text_eq_refl, text_eq→eq, has_text, starts_with, arith,
  Bool-cases, if◌then◌else◌,
}
use jobserv.WorkerApi.{deleted_volumes}
use jobserv.WorkerScript.Reboot.{without}

-- `vols`: the directories, without `lost+found`.
unfoldable pub listed_volumes : List Text → List Text
listed_volumes = select (λ name. not (text_eq name (text "lost+found")))

-- An event that is sent to the server: the volume, and whether it was deleted.
pub record Deletion : Type 0 where
  pub volume : Text
  pub deleted : Bool

-- For which volumes `rmtree` succeeds, and which events the server answers with 201.
pub record Outside : Type 0 where
  pub removes : Text → Bool
  pub posts : Text → Bool

removed : Outside → Text → List Text → List Text
unfolding without
removed outside x vols = if outside.removes x then without x vols else vols

-- The loop over the volumes to delete. `_post` exits where the event is not answered with 201.
unfoldable pub delete_each : Outside → List Text → List Text → List Text × List Deletion
unfolding removed
delete_each outside [] vols = (vols, [])
delete_each outside (x ∷ deletes) vols =
    let left = removed outside x vols in
    let (rest, events) = delete_each outside deletes left in
    let event : Deletion = record { volume = x; deleted = outside.removes x } in
    if outside.posts x then (rest, event ∷ events) else (left, event ∷ [])

-- `get_deleted_volumes`, as the server answers; `none` is an exception, for a worker that is not
-- enlisted.
unfoldable pub get_deleted_volumes : Bool → List Text → List Text → Option (List Text)
unfolding deleted_volumes
get_deleted_volumes enlisted projects vols =
    if enlisted then some (deleted_volumes projects vols) else none

-- What a call of the command has: whether it gets the lock, and `--dryrun`.
pub record GcArgs : Type 0 where
  pub locks : Bool
  pub dryrun : Bool
  pub enlisted : Bool

delete_answered : Outside → Bool → Option (List Text) → List Text → List Text × List Deletion
unfolding delete_each
delete_answered outside dryrun none dirs = (dirs, [])
delete_answered outside dryrun (some deletes) dirs =
    if dryrun then (dirs, []) else delete_each outside deletes dirs

gc_listed : Outside → GcArgs → List Text → List Text → List Text → List Text × List Deletion
unfolding delete_answered get_deleted_volumes
gc_listed outside args projects dirs [] = (dirs, [])
gc_listed outside args projects dirs (v ∷ vols) =
    if args.locks
    then delete_answered outside args.dryrun (get_deleted_volumes args.enlisted projects (v ∷ vols))
        dirs
    else (dirs, [])

-- `cmd_gcvols`: the directories that are left, and the events.
unfoldable pub gcvols : Outside → GcArgs → List Text → List Text → List Text × List Deletion
unfolding gc_listed listed_volumes
gcvols outside args projects dirs = gc_listed outside args projects dirs (listed_volumes dirs)

has_text-without :
    (v x : Text) (l : List Text)
    → has_text v (without x l) ≡ (if text_eq x v then false else has_text v l)
unfolding without
has_text-without v x [] = ground arith
has_text-without v x (y ∷ l) = ground (
  arith,
  has_text-without v x l,
  text_eq→eq y x,
  text_eq→eq y v,
  text_eq→eq x v,
  text_eq_refl v,
  text_eq_refl x,
)

no_head :
    (x v : Text) (deletes : List Text) → has_text v (x ∷ deletes) ≡ false → text_eq x v ≡ false
no_head x v deletes h = ground (arith, h)

has_text-select_same :
    (p : Text → Bool) (y : Text) (l : List Text)
    → has_text y (select p l) ≡ (has_text y l && p y)
    → has_text y (select p (y ∷ l)) ≡ (has_text y (y ∷ l) && p y)
has_text-select_same p y l h = ground (arith, h, text_eq_refl y)

has_text-select_other :
    (p : Text → Bool) (v y : Text) (l : List Text)
    → text_eq y v ≡ false
    → has_text v (select p l) ≡ (has_text v l && p v)
    → has_text v (select p (y ∷ l)) ≡ (has_text v (y ∷ l) && p v)
has_text-select_other p v y l e h = ground (arith, e, h)

has_text-select :
    (p : Text → Bool) (v : Text) (l : List Text) → has_text v (select p l) ≡ (has_text v l && p v)
has_text-select p v [] = refl
has_text-select p v (y ∷ l) = elim (Bool-cases (text_eq y v)) [
  | inl e ↦
      let same = text_eq→eq y v e in
      subst (λ u. has_text u (select p (y ∷ l)) ≡ (has_text u (y ∷ l) && p u)) same
        (has_text-select_same p y l (has_text-select p y l))
  | inr e ↦ has_text-select_other p v y l e (has_text-select p v l)
]

has_text-removed :
    (outside : Outside) (x v : Text) (vols : List Text)
    → text_eq x v ≡ false
    → has_text v (removed outside x vols) ≡ has_text v vols
unfolding removed
has_text-removed outside x v vols h = elim (Bool-cases (outside.removes x)) [
  | inl e ↦ rw e (has_text-without v x vols ∙ rw h refl)
  | inr e ↦ rw e refl
]

removed-gone :
    (outside : Outside) (x v : Text) (vols : List Text)
    → has_text v vols ≡ false
    → has_text v (removed outside x vols) ≡ false
unfolding removed
removed-gone outside x v vols h = elim (Bool-cases (outside.removes x)) [
  | inl e ↦ rw e (ground (arith, h, has_text-without v x vols))
  | inr e ↦ rw e h
]

removed-deleted :
    (outside : Outside) (x v : Text) (vols : List Text)
    → text_eq x v ≡ true
    → outside.removes v ≡ true
    → has_text v (removed outside x vols) ≡ false
unfolding removed
removed-deleted outside x v vols e r =
    let ok : outside.removes x ≡ true = ap outside.removes (text_eq→eq x v e) ∙ r in
    rw ok (ground (arith, e, has_text-without v x vols))

delete_each-kept :
    (outside : Outside) (v : Text) (deletes vols : List Text)
    → has_text v deletes ≡ false
    → has_text v (delete_each outside deletes vols).0 ≡ has_text v vols
unfolding delete_each
delete_each-kept outside v [] vols h = refl
delete_each-kept outside v (x ∷ deletes) vols h =
    let spared = has_text-removed outside x v vols (no_head x v deletes h) in
    elim (Bool-cases (outside.posts x)) [
      | inl e ↦
          rw e (
            delete_each-kept outside v deletes (removed outside x vols) (ground (arith, h))
            ∙ spared)
      | inr e ↦ rw e spared
    ]

delete_each-gone :
    (outside : Outside) (v : Text) (deletes vols : List Text)
    → has_text v vols ≡ false
    → has_text v (delete_each outside deletes vols).0 ≡ false
unfolding delete_each
delete_each-gone outside v [] vols h = h
delete_each-gone outside v (x ∷ deletes) vols h =
    let left = removed-gone outside x v vols h in
    elim (Bool-cases (outside.posts x)) [
      | inl e ↦ rw e (delete_each-gone outside v deletes (removed outside x vols) left)
      | inr e ↦ rw e left
    ]

delete_each-deleted :
    (outside : Outside) (v : Text) (deletes vols : List Text)
    → ((x : Text) → outside.posts x ≡ true)
    → has_text v deletes ≡ true
    → outside.removes v ≡ true
    → has_text v (delete_each outside deletes vols).0 ≡ false
unfolding delete_each
delete_each-deleted outside v [] vols answered h r = absurd (cc h)
delete_each-deleted outside v (x ∷ deletes) vols answered h r =
    rw (answered x) (elim (Bool-cases (text_eq x v)) [
      | inl e ↦
          delete_each-gone outside v deletes (removed outside x vols)
            (removed-deleted outside x v vols e r)
      | inr e ↦
          delete_each-deleted outside v deletes (removed outside x vols) answered
            (ground (arith, h, e)) r
    ])

-- A project that begins with the name of the volume.
abbrev pub belongs : List Text → Text → Bool
belongs projects v = any (λ p. starts_with v p) projects

answered-kept :
    (outside : Outside) (dryrun : Bool) (v : Text) (o : Option (List Text)) (dirs : List Text)
    → ((d : List Text) → o ≡ some d → has_text v d ≡ false)
    → has_text v (delete_answered outside dryrun o dirs).0 ≡ has_text v dirs
unfolding delete_answered
answered-kept outside dryrun v none dirs h = refl
answered-kept outside true v (some d) dirs h = refl
answered-kept outside false v (some d) dirs h = delete_each-kept outside v d dirs (h d refl)

spared :
    (enlisted : Bool) (projects vols : List Text) (v : Text) (d : List Text)
    → belongs projects v ≡ true
    → get_deleted_volumes enlisted projects vols ≡ some d
    → has_text v d ≡ false
unfolding get_deleted_volumes deleted_volumes
spared false projects vols v d b h = absurd (cc h)
spared true projects vols v d b h =
    let same : select (λ d. not (belongs projects d)) vols ≡ d = cc h in
    ap (has_text v) (sym same)
    ∙ has_text-select (λ d. not (belongs projects d)) v vols
    ∙ ground (arith, b)

listed-kept :
    (outside : Outside) (args : GcArgs) (projects dirs vols : List Text) (v : Text)
    → belongs projects v ≡ true
    → has_text v (gc_listed outside args projects dirs vols).0 ≡ has_text v dirs
unfolding gc_listed
listed-kept outside args projects dirs [] v b = refl
listed-kept outside args projects dirs (w ∷ vols) v b = elim (Bool-cases args.locks) [
  | inr e ↦ rw e refl
  | inl e ↦ rw e (
      answered-kept outside args.dryrun v (get_deleted_volumes args.enlisted projects (w ∷ vols))
        dirs (λ d q. spared args.enlisted projects (w ∷ vols) v d b q))
]

listed-gone :
    (outside : Outside) (projects dirs vols : List Text) (v : Text)
    → ((x : Text) → outside.posts x ≡ true)
    → belongs projects v ≡ false
    → has_text v vols ≡ true
    → outside.removes v ≡ true
    → has_text v
        (gc_listed outside
          (record { locks = true; dryrun = false; enlisted = true })
          projects
          dirs
          vols).0
      ≡ false
unfolding gc_listed delete_answered get_deleted_volumes deleted_volumes
listed-gone outside projects dirs [] v a b h r = absurd (cc h)
listed-gone outside projects dirs (w ∷ vols) v a b h r =
    delete_each-deleted outside v (select (λ d. not (belongs projects d)) (w ∷ vols)) dirs a
      (has_text-select (λ d. not (belongs projects d)) v (w ∷ vols) ∙ ground (arith, h, b)) r

-- A volume whose name begins the name of a project is there after each call of the command as it was
-- before, whatever the server answers and whichever deletions fail.
pub gcvols-belongs :
    (outside : Outside) (args : GcArgs) (projects dirs : List Text) (v : Text)
    → belongs projects v ≡ true
    → has_text v (gcvols outside args projects dirs).0 ≡ has_text v dirs
unfolding gcvols
gcvols-belongs outside args projects dirs v b =
    listed-kept outside args projects dirs (listed_volumes dirs) v b

-- A call that gets the lock, for an enlisted worker and without --dryrun, deletes each other volume
-- that can be deleted, but for lost+found, where the server answers each event with 201.
pub gcvols-gone :
    (outside : Outside) (projects dirs : List Text) (v : Text)
    → ((x : Text) → outside.posts x ≡ true)
    → belongs projects v ≡ false
    → has_text v dirs ≡ true
    → text_eq v (text "lost+found") ≡ false
    → outside.removes v ≡ true
    → has_text v
        (gcvols outside (record { locks = true; dryrun = false; enlisted = true }) projects dirs).0
      ≡ false
unfolding gcvols listed_volumes
gcvols-gone outside projects dirs v a b h l r =
    listed-gone outside projects dirs (listed_volumes dirs) v a b
      (has_text-select (λ name. not (text_eq name (text "lost+found"))) v dirs
        ∙ ground (arith, h, l))
      r
