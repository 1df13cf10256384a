-- ===== src/Surge.antt =====
-- jobserv/worker.py, `_check_queue`: which tags have more queued runs than the workers can take.
-- A surge's flag file `enable_surge-<tag>` is an entry of its tag and its time of change.
pub mod Claims
pub mod Files
mod Samples
use jobserv.Prelude.{
  ℕ, zero, suc, ◌+◌, ◌-◌, Bool, true, false, not, ◌&&◌, ◌||◌, Option, none, some, List, [], ◌∷◌,
  ◌++◌, map, Text, text_eq, has_text, ltb, ◌==◌, if◌then◌else◌,
}
use jobserv.Workers.{Worker, stripped_tags}

-- A queued run: its tag, and whether no host has claimed it.
pub record QueuedRun : Type 0 where
  pub tag : Text
  pub unclaimed : Bool

pub record Host : Type 0 where
  pub slots : ℕ
  pub tags : List Text

-- The filter of the query for the hosts.
unfoldable pub counts : Worker → Bool
counts w = w.enlisted && w.online && not w.surges_only && not w.deleted

unfoldable pub hosts_of : ℕ → List Worker → List Host
unfolding counts
hosts_of ratio [] = []
hosts_of ratio (w ∷ ws) =
    if counts w
    then record { slots = ratio; tags = stripped_tags w } ∷ hosts_of ratio ws
    else hosts_of ratio ws

-- The `for` loop over the runs: the first one that the host can take is claimed.
unfoldable pub claim_run : List Text → List QueuedRun → Option (List QueuedRun)
claim_run tags [] = none
claim_run tags (run ∷ runs) =
    let later : Option (List QueuedRun) = elim (claim_run tags runs) [
      | none ↦ none
      | some runs' ↦ some (run ∷ runs')
    ] in
    if run.unclaimed && has_text run.tag tags
    then some (record run { unclaimed = false } ∷ runs)
    else later

pub record Round : Type 0 where
  pub hosts : List Host
  pub queue : List QueuedRun
  pub matches_found : Bool

-- A host that has used its last slot is deleted.
unfoldable pub use_slot : Host → List Host → List Host
use_slot host hosts =
    if host.slots - 1 == 0 then hosts else record host { slots = host.slots - 1 } ∷ hosts

unfoldable pub keep_host : Host → Round → Round
keep_host host r = record r { hosts = host ∷ r.hosts }

unfoldable pub took_run : Host → Round → Round
unfolding use_slot
took_run host r = record r { hosts = use_slot host r.hosts; matches_found = true }

-- One pass over the hosts; each takes one run at most.
unfoldable pub round : List Host → List QueuedRun → Round
unfolding keep_host took_run
round [] queue = record { hosts = []; queue = queue; matches_found = false }
round (host ∷ hosts) queue =
    let taken : Round = elim (claim_run host.tags queue) [
      | none ↦ keep_host host (round hosts queue)
      | some queue' ↦ took_run host (round hosts queue')
    ] in
    let empty = keep_host host (round hosts queue) in if host.slots == 0 then empty else taken

-- `while matches_found`, with fuel for the rounds.
unfoldable pub rounds : ℕ → List Host → List QueuedRun → Round
rounds zero hosts queue = round hosts queue
rounds (suc n) hosts queue =
    let r = round hosts queue in
    let next = rounds n r.hosts r.queue in if r.matches_found then next else r

unfoldable pub total_slots : List Host → ℕ
total_slots [] = 0
total_slots (h ∷ hs) = h.slots + total_slots hs

-- `surges[tag] = surges.setdefault(tag, 0) + 1`
unfoldable pub bump : Text → List (Text × ℕ) → List (Text × ℕ)
bump tag [] = (tag, 1) ∷ []
bump tag ((t, n) ∷ m) = if text_eq t tag then (t, n + 1) ∷ m else (t, n) ∷ bump tag m

count_unclaimed : List (Text × ℕ) → List QueuedRun → List (Text × ℕ)
count_unclaimed surges [] = surges
count_unclaimed surges (run ∷ runs) =
    count_unclaimed (if run.unclaimed then bump run.tag surges else surges) runs

-- The hosts and the runs after the last round; every round but the last uses a slot.
unfoldable pub assign : ℕ → List Worker → List Text → Round
assign ratio workers queued =
    let hosts = hosts_of ratio workers in
    rounds (total_slots hosts) hosts (map (λ tag. record { tag = tag; unclaimed = true }) queued)

-- How many unclaimed runs each tag has.
unfoldable pub surges_of : List QueuedRun → List (Text × ℕ)
unfolding count_unclaimed
surges_of queue = count_unclaimed [] queue

unfoldable pub surging : Text → List (Text × ℕ) → Bool
surging tag [] = false
surging tag ((t, n) ∷ m) = text_eq t tag || surging tag m

-- What the monitor tells: mails, and figures for the statistics.
pub data Notice : Type 0 where
  started ended : Text → Notice

-- The flag files of the surges that were there before. With `detect_flapping` a surge lasts five
-- minutes at least.
unfoldable pub stays : Bool → ℕ → List (Text × ℕ) → Text × ℕ → Bool
stays detect_flapping now surges (tag, mtime) =
    surging tag surges || (detect_flapping && ltb (now - mtime) 300)

unfoldable pub end_surges :
    Bool → ℕ → List (Text × ℕ) → List (Text × ℕ) → List (Text × ℕ) × List Notice
unfolding stays
end_surges flap now surges [] = ([], [])
end_surges flap now surges (file ∷ files) =
    let (kept, notices) = end_surges flap now surges files in
    if stays flap now surges file then (file ∷ kept, notices) else (kept, ended file.0 ∷ notices)

unfoldable pub start_surges : ℕ → List (Text × ℕ) → List (Text × ℕ) → List (Text × ℕ) × List Notice
start_surges now files [] = (files, [])
start_surges now files ((tag, count) ∷ surges) =
    let known = surging tag files in
    let (files', notices) = start_surges now (if known then files else (tag, now) ∷ files) surges in
    (files', if known then notices else started tag ∷ notices)

-- The whole check: the flag files afterwards, and the notices.
unfoldable pub check_queue :
    Bool → ℕ → ℕ → List Worker → List Text → List (Text × ℕ) → List (Text × ℕ) × List Notice
check_queue detect_flapping ratio now workers queued files =
    let surges = surges_of (assign ratio workers queued).queue in
    let (kept, ends) = end_surges detect_flapping now surges files in
    let (files', starts) = start_surges now kept surges in (files', ends ++ starts)
