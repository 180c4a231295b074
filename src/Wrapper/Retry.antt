-- ===== src/Wrapper/Retry.antt =====
-- backend/wrapper.py: `stream_subprocess`, `stream_file` and `stream_subprocess_with_retry`. A child is
-- what it does until it ends.
use dmr_decrep_shahar.Prelude.{
  ℕ, String, Bool, true, false, ◌||◌, List, [], ◌∷◌, ◌++◌, if◌then◌else◌,
}

-- how a child ends: at the end of its output, by the watchdog's `RuntimeError`, or not started at all
pub data ChildEnd : Type 0 where
  eof timed_out not_spawned : ChildEnd

-- `interrupted` is whether the interrupt is set while it runs, `is_stopped` whether the stop is by then,
-- and `cancelled` whether the sleep after it is
pub record Child : Type 0 where
  pub stopped_before : Bool
  pub lines : List String
  pub ending : ChildEnd
  pub interrupted : Bool
  pub is_stopped : Bool
  pub cancelled : Bool

-- the arguments and the interrupt event
pub record Retry : Type 0 where
  pub backoff : ℕ
  pub retune_backoff : ℕ
  pub interrupt_event : Bool

-- what is yielded, the sleeps, whether the stream has ended, and the interrupt event after it
pub record Streamed : Type 0 where
  pub yielded : List String
  pub sleeps : List ℕ
  pub has_ended : Bool
  pub interrupt_left : Bool

-- the lines that a child gives
unfoldable pub child_lines : Child → List String
child_lines c = elim c.ending [ not_spawned ↦ [] | eof ↦ c.lines | timed_out ↦ c.lines ]

-- `was_interrupt`
unfoldable pub was_interrupt : Retry → Child → Bool
was_interrupt r c = elim c.ending [
  | eof ↦ r.interrupt_event || c.interrupted
  | timed_out ↦ false
  | not_spawned ↦ false
]

-- the interrupt event after a child: it is cleared only if the child ended without an error
unfoldable pub interrupt_after : Retry → Child → Bool
interrupt_after r c = elim c.ending [
  | eof ↦ false
  | timed_out ↦ r.interrupt_event || c.interrupted
  | not_spawned ↦ r.interrupt_event || c.interrupted
]

unfoldable pub yield_before : List String → Streamed → Streamed
yield_before lines s = record s { yielded = lines ++ s.yielded }

unfoldable pub sleep_before : ℕ → Streamed → Streamed
sleep_before n s = record s { sleeps = n ∷ s.sleeps }

abbrev pub ended_with : Retry → Bool → Streamed
ended_with r ended = record {
  yielded = [];
  sleeps = [];
  has_ended = ended;
  interrupt_left = r.interrupt_event;
}

-- `stream_subprocess_with_retry`, for as many children as are given
unfoldable pub stream_subprocess_with_retry : Retry → List Child → Streamed
unfolding child_lines was_interrupt interrupt_after yield_before sleep_before
stream_subprocess_with_retry r [] = ended_with r false
stream_subprocess_with_retry r (c ∷ more) =
    let after = record r { interrupt_event = interrupt_after r c } in
    let pause = if was_interrupt r c then r.retune_backoff else r.backoff in
    let rest =
      stream_subprocess_with_retry (record r { interrupt_event = interrupt_after r c }) more in
    if c.stopped_before
    then ended_with r true
    else yield_before (child_lines c) (
        if c.is_stopped
        then ended_with after true
        else sleep_before pause (if c.cancelled then ended_with after true else rest))

-- `stream_file`: the lines until the stop is set, each with whether it is by then
unfoldable pub stream_file : List (Bool × String) → List String
stream_file [] = []
stream_file ((is_stopped, line) ∷ more) =
    let rest = stream_file more in if is_stopped then [] else line ∷ rest
