-- ===== src/Runner/Stream.antt =====
-- runner/jobserv_runner/cmd.py, `stream_cmd`: the output of a command is sent to the server in
-- pieces. What `_cmd_output` yields is a list of chunks with the times at which they are read, and
-- `answer n` is how the n-th call of the callback ends.
use mathlib.Core.List.{append_assoc, append-nil, flat_map}
use jobserv.Prelude.{
  ℕ, ◌+◌, ◌-◌, ◌≡◌, ◌≢◌, ◌⊎◌, inl, inr, refl, sym, subst, ap, ◌∙◌, Bool, true, false, ◌||◌, List,
  [], ◌∷◌, ◌++◌, length, ltb, leb, Text, if◌then◌else◌,
}

pub data Sent : Type 0 where
  accepted refused : Sent
  -- the server took the text, but its answer was lost, as by a timeout: the callback returns `False`
  unanswered : Sent
  -- the server took the text and asked for the end of the run: `RunCancelledError`
  cancelled : Sent

-- The loop's variables, the number of calls so far, and all that the server took.
pub record Stream : Type 0 where
  pub last_update : ℕ
  pub last_buff : Text
  pub calls : ℕ
  pub taken : Text

pub data Flow : Type 0 where
  going stopped : Stream → Flow

-- `stream_cb(last_buff + buff)` and what follows it.
unfoldable pub sent : ℕ → Text → Sent → Stream → Flow
sent now buff accepted s = going (record s {
  last_update = now;
  last_buff = [];
  calls = s.calls + 1;
  taken = s.taken ++ s.last_buff ++ buff;
})
sent now buff refused s = going (record s { last_buff = s.last_buff ++ buff; calls = s.calls + 1 })
sent now buff unanswered s = going (record s {
  last_buff = s.last_buff ++ buff;
  calls = s.calls + 1;
  taken = s.taken ++ s.last_buff ++ buff;
})
sent now buff cancelled s =
    stopped (record s { calls = s.calls + 1; taken = s.taken ++ s.last_buff ++ buff })

-- The body of the loop.
unfoldable pub chunk : (ℕ → Sent) → ℕ → Text → Stream → Flow
unfolding sent
chunk answer now buff s =
    if ltb 10 (now - s.last_update) || leb 1024 (length buff)
    then sent now buff (answer s.calls) s
    else going (record s { last_buff = s.last_buff ++ buff })

unfoldable pub chunks : (ℕ → Sent) → List (ℕ × Text) → Stream → Flow
unfolding chunk
chunks answer [] s = going s
chunks answer ((now, buff) ∷ cs) s = elim (chunk answer now buff s) [
  | going t ↦ chunks answer cs t
  | stopped t ↦ stopped t
]

pub data End : Type 0 where
  -- the command's own exit code decides
  exited : End
  -- `CalledProcessError(0, cmd)`
  unsent : End
  run_cancelled : End

-- What the server took in the end, and how `stream_cmd` ends.
pub record Streamed : Type 0 where
  pub taken : Text
  pub end : End

last_sent : End → Sent → Stream → Streamed
last_sent end accepted s = record { taken = s.taken ++ s.last_buff; end = end }
last_sent end refused s = record { taken = s.taken; end = unsent }
last_sent end unanswered s = record { taken = s.taken ++ s.last_buff; end = unsent }
last_sent end cancelled s = record { taken = s.taken ++ s.last_buff; end = run_cancelled }

-- The `finally` clause.
unfoldable pub finish : (ℕ → Sent) → End → Text → Stream → Streamed
unfolding last_sent
finish answer end [] s = record { taken = s.taken; end = end }
finish answer end (c ∷ buff) s = last_sent end (answer s.calls) s

finish_flow : (ℕ → Sent) → Flow → Streamed
unfolding finish
finish_flow answer (going s) = finish answer exited s.last_buff s
finish_flow answer (stopped s) = finish answer run_cancelled s.last_buff s

abbrev pub start : Stream
start = record { last_update = 0; last_buff = []; calls = 0; taken = [] }

-- `stream_cmd`
unfoldable pub stream_cmd : (ℕ → Sent) → List (ℕ × Text) → Streamed
unfolding finish_flow
stream_cmd answer output = finish_flow answer (chunks answer output start)

abbrev pub output_of : List (ℕ × Text) → Text
output_of = flat_map (λ c. c.1)

-- What was taken and what waits.
abbrev all_of : Stream → Text
all_of s = s.taken ++ s.last_buff

abbrev Keeps : Text → Flow → Type 0
Keeps t (going s) = all_of s ≡ t
Keeps t (stopped s) = ⊥

Flow-cases : (t : Text) (f : Flow) → Keeps t f → (s : Stream) × (f ≡ going s) × (all_of s ≡ t)
Flow-cases t (going s) k = (s, refl, k)
Flow-cases t (stopped s) k = absurd k

if-Keeps : (b : Bool) (t : Text) (f g : Flow) → Keeps t f → Keeps t g → Keeps t (if b then f else g)
if-Keeps true t f g h k = h
if-Keeps false t f g h k = k

-- Neither the end of the run, nor an answer that was lost.
abbrev pub IsPlain : Sent → Type 0
IsPlain a = (a ≢ cancelled) × (a ≢ unanswered)

-- Each call of the callback is answered, and none with the end of the run.
abbrev pub AllPlain : (ℕ → Sent) → Type 0
AllPlain answer = (n : ℕ) → IsPlain (answer n)

sent-Keeps :
    (now : ℕ) (buff : Text) (a : Sent) (s : Stream)
    → IsPlain a
    → Keeps (all_of s ++ buff) (sent now buff a s)
unfolding sent
sent-Keeps now buff accepted s n = append-nil (s.taken ++ s.last_buff ++ buff)
sent-Keeps now buff refused s n = sym (append_assoc s.taken s.last_buff buff)
sent-Keeps now buff unanswered s n = absurd (n.1 refl)
sent-Keeps now buff cancelled s n = absurd (n.0 refl)

chunk-Keeps :
    (answer : ℕ → Sent) (now : ℕ) (buff : Text) (s : Stream)
    → IsPlain (answer s.calls)
    → Keeps (all_of s ++ buff) (chunk answer now buff s)
unfolding chunk
chunk-Keeps answer now buff s n =
    if-Keeps (ltb 10 (now - s.last_update) || leb 1024 (length buff)) (all_of s ++ buff)
      (sent now buff (answer s.calls) s) (going (record s { last_buff = s.last_buff ++ buff }))
      (sent-Keeps now buff (answer s.calls) s n) (sym (append_assoc s.taken s.last_buff buff))

chunks-Keeps :
    (answer : ℕ → Sent) (cs : List (ℕ × Text)) (s : Stream)
    → AllPlain answer
    → Keeps (all_of s ++ output_of cs) (chunks answer cs s)
unfolding chunks flat_map
chunks-Keeps answer [] s n = sym (append-nil (all_of s))
chunks-Keeps answer ((now, buff) ∷ cs) s n =
    let kept = chunk-Keeps answer now buff s (n s.calls) in
    let (t, e, k) = Flow-cases (all_of s ++ buff) (chunk answer now buff s) kept in
    rw (e, chunks)
      (subst (λ u. Keeps u (chunks answer cs t))
        (ap (λ u. u ++ output_of cs) k ∙ append_assoc (all_of s) buff (output_of cs))
        (chunks-Keeps answer cs t n))

-- How the output that waits may end up.
abbrev pub Ends : Text → Text → Streamed → Type 0
Ends all buff r = (r.end ≡ exited) × (r.taken ≡ all) ⊎ (r.end ≡ unsent) × (r.taken ++ buff ≡ all)

last_sent-Ends :
    (a : Sent) (s : Stream) → IsPlain a → Ends (all_of s) s.last_buff (last_sent exited a s)
unfolding last_sent
last_sent-Ends accepted s n = inl (refl, refl)
last_sent-Ends refused s n = inr (refl, refl)
last_sent-Ends unanswered s n = absurd (n.1 refl)
last_sent-Ends cancelled s n = absurd (n.0 refl)

finish-Ends :
    (answer : ℕ → Sent) (buff : Text) (s : Stream)
    → s.last_buff ≡ buff
    → AllPlain answer
    → Ends (all_of s) s.last_buff (finish answer exited buff s)
unfolding finish
finish-Ends answer [] s e n = inl (refl, rw e (sym (append-nil s.taken)))
finish-Ends answer (c ∷ buff) s e n = last_sent-Ends (answer s.calls) s (n s.calls)

-- As long as no answer asks for the end of the run, and none is lost after the server took the text: either `stream_cmd` leaves the end to the command,
-- and the server took the whole output of the command, in order and once; or it raises, and the
-- server took all of the output but a last part.
pub stream_cmd-taken :
    (answer : ℕ → Sent) (output : List (ℕ × Text))
    → AllPlain answer
    → (rest : Text) × Ends (output_of output) rest (stream_cmd answer output)
unfolding stream_cmd
stream_cmd-taken answer output n =
    let (s, e, k) =
      Flow-cases (output_of output) (chunks answer output start)
        (chunks-Keeps answer output start n) in
    (
      s.last_buff,
      rw e (
          subst (λ t. Ends t s.last_buff (finish answer exited s.last_buff s)) k
            (finish-Ends answer s.last_buff s refl n)),
    )
