-- ===== src/Queue.antt =====
-- jobserv/models.py, `Run.pop_queued`: the choice of a run for a worker that asks for work.
-- The two statements of SQL are modelled apart, since other workers may act between them.
pub mod Order
pub mod Choice
pub mod Synchronous
pub mod Claim
mod Samples
use jobserv.Prelude.{
  ℕ, Bool, true, false, not, ◌&&◌, ◌||◌, Option, none, some, List, [], ◌∷◌, ◌++◌, any, select, map,
  Text, fnmatch, has, get, setdefault, ltb, ◌==◌, if◌then◌else◌,
}
use jobserv.Status.{BuildStatus, queued, running, uploading, is, value}
use jobserv.Models.{Project, Build, Run, Db}
use jobserv.Workers.{Worker, stripped_tags}

-- A row of the query that finds the candidates.
pub record Row : Type 0 where
  pub run_id : ℕ
  pub build_id : ℕ
  pub status : BuildStatus
  pub proj_id : ℕ
  pub sync : Bool
  pub tag : Text
  pub queue_priority : ℕ

-- `runs._status in (1, 2, 6)`
is_candidate : Run → Bool
is_candidate r = is r.status queued || is r.status running || is r.status uploading

row_of : Project → Build → Run → Row
row_of p b r = record {
  run_id = r.id;
  build_id = b.id;
  status = r.status;
  proj_id = p.id;
  sync = p.synchronous_builds;
  tag = r.host_tag;
  queue_priority = r.queue_priority;
}

find_project : ℕ → List Project → Option Project
find_project id [] = none
find_project id (p ∷ ps) = if p.id == id then some p else find_project id ps

-- A build without its project joins nothing.
join_build : Option Project → Build → List Row
unfolding row_of is_candidate
join_build none b = []
join_build (some p) b = map (row_of p b) (select is_candidate b.runs)

join_builds : List Project → List Build → List Row
unfolding join_build find_project
join_builds ps [] = []
join_builds ps (b ∷ bs) = join_build (find_project b.proj_id ps) b ++ join_builds ps bs

unfoldable pub select_rows : Db → List Row
unfolding join_builds
select_rows db = join_builds db.projects db.builds

-- `ORDER BY runs._status DESC, runs.queue_priority DESC, runs.build_id ASC, runs.id ASC`
unfoldable pub before : Row → Row → Bool
unfolding value
before a b =
    if value a.status == value b.status
    then (if a.queue_priority == b.queue_priority
        then (if a.build_id == b.build_id then ltb a.run_id b.run_id else ltb a.build_id b.build_id)
        else ltb b.queue_priority a.queue_priority)
    else ltb (value b.status) (value a.status)

insert_row : Row → List Row → List Row
insert_row x [] = x ∷ []
insert_row x (y ∷ ys) = if before y x then y ∷ insert_row x ys else x ∷ y ∷ ys

unfoldable pub order_rows : List Row → List Row
unfolding insert_row
order_rows [] = []
order_rows (x ∷ xs) = insert_row x (order_rows xs)

-- What the loop has noted of the rows so far; the two dictionaries that map to `True` are sets.
pub record Seen : Type 0 where
  pub sync_projects : List ℕ
  pub okay_sync_builds : List ℕ
  pub oldest_builds : List (ℕ × ℕ)

abbrev pub nothing_seen : Seen
nothing_seen = record { sync_projects = []; okay_sync_builds = []; oldest_builds = [] }

-- `status in (2, 6) and sync`
unfoldable pub active : Row → Bool
active row = (is row.status running || is row.status uploading) && row.sync

unfoldable pub is_oldest : Row → Option ℕ → Bool
is_oldest row none = false
is_oldest row (some build_id) = row.build_id == build_id

-- The `elif` branch: the loop over the worker's tags, and the last test.
unfoldable pub runnable : List Text → Seen → Row → Bool
unfolding is_oldest
runnable tags seen row =
    is row.status queued
    && any
        (λ t.
          fnmatch t row.tag && (not row.sync || is_oldest row (get row.proj_id seen.oldest_builds)))
        tags
    && (not row.sync
        || has row.build_id seen.okay_sync_builds
        || not (has row.proj_id seen.sync_projects))

unfoldable pub see : Row → Seen → Seen
see row seen = record seen {
  sync_projects = if active row then row.proj_id ∷ seen.sync_projects else seen.sync_projects;
  okay_sync_builds =
      if active row then row.build_id ∷ seen.okay_sync_builds else seen.okay_sync_builds;
  oldest_builds = setdefault row.proj_id row.build_id seen.oldest_builds;
}

-- The loop over the rows. `runnable` reads `oldest_builds` after this row's `setdefault`.
unfoldable pub scan : List Text → Seen → List Row → Option Row
scan tags seen [] = none
scan tags seen (row ∷ rows) =
    let seen' = see row seen in
    let rest = scan tags seen' rows in
    if not (active row) && runnable tags seen' row then some row else rest

unfoldable pub worker_tags : Worker → List Text
worker_tags w = w.name ∷ stripped_tags w

-- The first statement and the loop over its rows.
unfoldable pub find_work : Worker → Db → Option Row
find_work w db = scan (worker_tags w) nothing_seen (order_rows (select_rows db))
