-- ===== src/Workers.antt =====
-- jobserv/models.py, `Worker`: which workers may be given runs.
-- The flag files of the surges in `WORKER_DIR` are the list of the tags that have one.
use jobserv.Prelude.{
  ℕ, Bool, true, false, not, ◌&&◌, ◌||◌, List, any, map, Text, has_text, split, strip,
  if◌then◌else◌,
}

pub record Worker : Type 0 where
  pub name : Text
  pub distro : Text
  pub mem_total : ℕ
  pub cpu_total : ℕ
  pub cpu_type : Text
  pub enlisted : Bool
  pub concurrent_runs : ℕ
  pub host_tags : Text
  pub online : Bool
  pub surges_only : Bool
  pub deleted : Bool

-- `[x.strip() for x in worker.host_tags.split(",")]`
unfoldable pub stripped_tags : Worker → List Text
stripped_tags w = map strip (split b',' w.host_tags)

-- `Worker.in_queue_surge`
unfoldable pub in_queue_surge : List Text → Worker → Bool
unfolding stripped_tags
in_queue_surge surges w = any (λ tag. has_text tag surges) (stripped_tags w)

-- `Worker.available`
unfoldable pub available : List Text → Worker → Bool
available surges w =
    if w.enlisted && not w.deleted
    then (if not w.surges_only || in_queue_surge surges w then true else false)
    else false
