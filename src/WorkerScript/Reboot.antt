-- ===== src/WorkerScript/Reboot.antt =====
-- `_handle_reboot` and `_handle_rebooted_run` of jobserv_worker.py: a run that asks for a reboot of its
-- host, and goes on after it. What the commands of the host do is an argument.
use jobserv.Prelude.{
  ℕ, zero, suc, ◌+◌, ◌≤◌, ◌≡◌, refl, ap, Bool, true, false, Option, none, some, List, [], ◌∷◌, Text,
  text_eq, arith, if◌then◌else◌,
}

-- The flag file, the directory `rebooted-run` with the run that it is of, and the runs that are
-- executed.
pub record Host : Type 0 where
  pub rebooting : Bool
  pub rebooted_run : Option Text
  pub executed : List Text

unfoldable pub without : Text → List Text → List Text
without run [] = []
without run (r ∷ rs) = let rest = without run rs in if text_eq r run then rest else r ∷ rest

-- `_handle_reboot`, up to the command: a directory that is there already is deleted.
unfoldable pub handle_reboot : Text → Host → Host
unfolding without
handle_reboot run h = record {
  rebooting = true;
  rebooted_run = some run;
  executed = without run h.executed;
}

-- The messages that are sent to the server and the seconds slept, before the reboot or before the
-- RuntimeError, which `_handle_run` reports as a failure of the run.
pub record Rebooted : Type 0 where
  pub messages : ℕ
  pub slept : ℕ

-- `for i in range(10)`, from the i-th on, where `reboots` tells which calls of the command succeed.
unfoldable pub reboot_from : ℕ → (ℕ → Bool) → ℕ → Rebooted → Rebooted
reboot_from zero reboots i r = r
reboot_from (suc n) reboots i r =
    let again =
      reboot_from n reboots (i + 1)
        (record { messages = r.messages + 1; slept = r.slept + (i + 1) }) in
    if reboots i then r else again

unfoldable pub reboot : (ℕ → Bool) → Rebooted
unfolding reboot_from
reboot reboots =
    let r = reboot_from 10 reboots 0 (record { messages = 0; slept = 0 }) in
    record r { slept = r.slept + 180 }

-- The host starts again: no process is left. Whether that clears /tmp, with the flag, is an argument.
unfoldable pub boot : Bool → Host → Host
boot clears h = record {
  rebooting = if clears then false else h.rebooting;
  rebooted_run = h.rebooted_run;
  executed = [];
}

-- `cmd_loop` begins: a flag that is there is deleted.
unfoldable pub begin_loop : Host → Host
begin_loop h = record h { rebooting = false }

-- What happens to a host; `restarted` is a begin of the loop, `waited` a check that finds a reboot in progress, `resumed` one that goes
-- on with the run, and `polled` one that asks the server for runs.
pub data Event : Type 0 where
  asked : Text → Event
  booted restarted waited polled : Event
  resumed : Text → Event

rebooted : Text → Host → Bool → Host × Event
rebooted run h true = (h, waited)
rebooted run h false = (record h { rebooted_run = none; executed = run ∷ h.executed }, resumed run)

-- `_handle_rebooted_run`, at the beginning of `cmd_check`.
unfoldable pub handle_rebooted_run : Host → Host × Event
unfolding rebooted
handle_rebooted_run h = elim h.rebooted_run [
  | none ↦ (h, polled)
  | some run ↦ rebooted run h h.rebooting
]

pub data Step : Host → Event → Host → Type 0 where
  asks : {h : Host} → (run : Text) → Step h (asked run) (handle_reboot run h)
  boots : {h : Host} → (clears : Bool) → Step h booted (boot clears h)
  restarts : {h : Host} → Step h restarted (begin_loop h)
  checks : {h : Host} → Step h (handle_rebooted_run h).1 (handle_rebooted_run h).0

-- The life of a host, with its events, the last one first.
pub data Life : List Event → Host → Type 0 where
  starts : Life [] (record { rebooting = false; rebooted_run = none; executed = [] })
  lives : {es : List Event} {h h' : Host} {e : Event} → Life es h → Step h e h' → Life (e ∷ es) h'

unfoldable pub is_asked : Text → Event → ℕ
is_asked run (asked r) = if text_eq r run then 1 else 0
is_asked run booted = 0
is_asked run restarted = 0
is_asked run waited = 0
is_asked run polled = 0
is_asked run (resumed r) = 0

unfoldable pub is_resumed : Text → Event → ℕ
is_resumed run (resumed r) = if text_eq r run then 1 else 0
is_resumed run booted = 0
is_resumed run restarted = 0
is_resumed run waited = 0
is_resumed run polled = 0
is_resumed run (asked r) = 0

abbrev pub count : (Event → ℕ) → List Event → ℕ
count f [] = 0
count f (e ∷ es) = f e + count f es

-- Whether the host has booted, or its loop has begun anew, since the last request for a reboot.
unfoldable pub started_since : List Event → Bool
started_since [] = false
started_since (booted ∷ es) = true
started_since (restarted ∷ es) = true
started_since (asked r ∷ es) = false
started_since (waited ∷ es) = started_since es
started_since (polled ∷ es) = started_since es
started_since (resumed r ∷ es) = started_since es

-- The run that waits for a reboot.
pending : Text → Option Text → ℕ
pending run none = 0
pending run (some r) = if text_eq r run then 1 else 0

-- What holds through the life of a host.
record Inv (run : Text) (es : List Event) (h : Host) : Type 0 where
  counted : count (is_resumed run) es + pending run h.rebooted_run ≤ count (is_asked run) es
  since : (r : Text) → h.rebooted_run ≡ some r → h.rebooting ≡ false → started_since es ≡ true

Inv-checks :
    (run : Text) (es : List Event) (f : Bool) (o : Option Text) (l : List Text)
    → Inv run es (record { rebooting = f; rebooted_run = o; executed = l })
    → let h : Host = record { rebooting = f; rebooted_run = o; executed = l } in
      Inv run ((handle_rebooted_run h).1 ∷ es) (handle_rebooted_run h).0
unfolding handle_rebooted_run is_asked is_resumed started_since pending
Inv-checks run es f none l i = record {
  counted = omega (arith, i.counted);
  since = λ r e. absurd (cc e);
}
Inv-checks run es true (some r) l i = record {
  counted = omega (arith, i.counted);
  since = λ q e g. absurd (cc g);
}
Inv-checks run es false (some r) l i = record {
  counted = omega (arith, i.counted);
  since = λ q e. absurd (cc e);
}

Inv-Step :
    (run : Text) (es : List Event) (h h' : Host) (e : Event)
    → Step h e h'
    → Inv run es h
    → Inv run (e ∷ es) h'
unfolding handle_reboot boot begin_loop is_asked is_resumed started_since pending
Inv-Step run es h h' e (asks r) i = record {
  counted = omega (arith, i.counted);
  since = λ q x g. absurd (cc g);
}
Inv-Step run es h h' e (boots clears) i = record {
  counted = omega (arith, i.counted);
  since = λ q x g. refl;
}
Inv-Step run es h h' e restarts i = record {
  counted = omega (arith, i.counted);
  since = λ q x g. refl;
}
Inv-Step run es h h' e checks i = Inv-checks run es h.rebooting h.rebooted_run h.executed i

Life-Inv : (run : Text) {es : List Event} {h : Host} → Life es h → Inv run es h
unfolding pending
Life-Inv run starts = record { counted = omega arith; since = λ r e. absurd (cc e) }
Life-Inv run (lives {es} {h} {h'} {e} life step) = Inv-Step run es h h' e step (Life-Inv run life)

asked_for :
    (f : Bool) (o : Option Text) (l : List Text) (run : Text)
    → (handle_rebooted_run (record { rebooting = f; rebooted_run = o; executed = l })).1
      ≡ resumed run
    → (o ≡ some run) × (f ≡ false)
unfolding handle_rebooted_run
asked_for f none l run h = absurd (cc h)
asked_for true (some r) l run h = absurd (cc h)
asked_for false (some r) l run h = (ap some (resumed-inj r run h), refl)
  where
    resumed-inj : (a b : Text) → resumed a ≡ resumed b → a ≡ b
    resumed-inj a b e = cc e

-- Whatever runs ask for a reboot and however often the host boots, its loop begins and the worker checks:
-- a run goes on at most as often as it has asked for a reboot, and a check goes on with a run only if
-- it is the run that is kept on the disk, and the host has booted or its loop has begun since the last run asked.
pub Life-resumed :
    (run : Text) {es : List Event} {h : Host}
    → Life es h
    → (count (is_resumed run) es ≤ count (is_asked run) es)
      × ((handle_rebooted_run h).1 ≡ resumed run
          → (h.rebooted_run ≡ some run) × (started_since es ≡ true))
Life-resumed run {es} {h} life =
    let i = Life-Inv run life in
    (
      omega (arith, i.counted),
      λ e.
          let (o, f) = asked_for h.rebooting h.rebooted_run h.executed run e in
          (o, i.since run o f),
    )
