-- ===== src/EventLog/Rewrite.antt =====
-- backend/event_log.py: the rewrite of the single file, with events that are appended between its passes.
use dmr_decrep_shahar.Prelude.{
  nat_key, ℕ, true, Option, List, ◌++◌, filter, All, ◌≡◌, refl, sym, ap, subst, ◌∙◌, arith,
}
use dmr_decrep_shahar.Models.{Event}
use dmr_decrep_shahar.EventIndex.{EventIndex, prune_index_older_than, chunk_size}
use dmr_decrep_shahar.EventLog.{EventLog, Line, Outcome}
use dmr_decrep_shahar.EventLog.Retention.{
  survivors, start_prune, finish_prune, append_all, prune_older_than, prune_index, SwapOutcome,
  Meanwhile, file_size, lines_after,
}
use dmr_decrep_shahar.EventLog.Survivors.{
  is_recent, ReadsBack, lines_after-append, survivors-filter,
}
use dmr_decrep_shahar.EventLog.Appending.{
  Writes, with_file, all_written, append_all-Writes, append_all-file, append_all-history,
  append_all-append, append_all-ReadsBack,
}

prune_index-Writes :
    (now : ℕ) (prune : EventIndex → Option (EventIndex × ℕ)) (l : EventLog)
    → Writes l
    → Writes (prune_index now prune l).0
unfolding prune_index
prune_index-Writes now prune l w = ground arith

prune_index-history :
    (now : ℕ) (prune : EventIndex → Option (EventIndex × ℕ)) (l : EventLog)
    → (prune_index now prune l).0.history ≡ l.history
unfolding prune_index
prune_index-history now prune l = ground arith

start_prune-Writes : (now cutoff : ℕ) (l : EventLog) → Writes l → Writes (start_prune now l cutoff)
unfolding start_prune
start_prune-Writes now cutoff l w =
    prune_index-Writes now (prune_index_older_than cutoff chunk_size now) l w

start_prune-history :
    (now cutoff : ℕ) (l : EventLog) → (start_prune now l cutoff).history ≡ l.history
unfolding start_prune
start_prune-history now cutoff l =
    prune_index-history now (prune_index_older_than cutoff chunk_size now) l

-- all of it succeeds
abbrev pub swaps : SwapOutcome
swaps = record { reads_file = true; reads_tail = true; renames = true; reopens = true }

finish_prune-file :
    (event_bytes : Event → ℕ) (x : EventLog) (before tail kept : List Line)
    → x.writer ≡ true
    → x.history ≡ before ++ tail
    → finish_prune event_bytes swaps (file_size event_bytes before) kept x
      ≡ with_file x (kept ++ tail)
unfolding finish_prune
finish_prune-file event_bytes x before tail kept opened e =
    let size = file_size event_bytes before in
    let rest : lines_after event_bytes size x.history ≡ tail =
      ap (lines_after event_bytes size) e ∙ lines_after-append event_bytes before tail in
    ap (λ t. record x { history = kept ++ t; writer = true }) rest
    ∙ subst (λ b. record x { history = kept ++ tail; writer = b } ≡ with_file x (kept ++ tail))
        opened refl

-- the log when all lines but those of events that are not older than the cutoff are gone at once
unfoldable pub drop_old : ℕ → EventLog → EventLog
unfolding is_recent
drop_old cutoff l = record l { history = filter (is_recent cutoff) l.history }

-- the passes from when the size of the file is taken
swap-at_once :
    (event_bytes : Event → ℕ) (cutoff : ℕ) (sized : EventLog)
    → (before_read before_swap : List (ℕ × Outcome × Event)) → Writes sized
    → All ReadsBack sized.history
    → finish_prune event_bytes swaps
        (file_size event_bytes sized.history)
        (survivors event_bytes cutoff
          (file_size event_bytes sized.history)
          0
          (append_all sized before_read).history)
        (append_all (append_all sized before_read) before_swap)
      ≡ append_all (drop_old cutoff sized) (before_read ++ before_swap)
unfolding drop_old
swap-at_once event_bytes cutoff sized before_read before_swap w r =
    let size = file_size event_bytes sized.history in
    let evs = before_read ++ before_swap in
    let kept = filter (is_recent cutoff) sized.history in
    let keeps : survivors event_bytes cutoff size 0 (append_all sized before_read).history ≡ kept =
      ap (survivors event_bytes cutoff size 0) (append_all-history sized before_read w)
      ∙ survivors-filter event_bytes cutoff size 0 sized.history (all_written before_read) r
          (omega arith) in
    rw (keeps, append_all-append sized before_read before_swap)
      (finish_prune-file event_bytes (append_all sized evs) sized.history (all_written evs) kept
          (append_all-Writes sized evs w).1 (append_all-history sized evs w)
        ∙ sym (append_all-file sized evs kept w))

-- Take a single file that is open, whose lines have no bytes that are replaced when they are read, and
-- let the reads, the copy of the tail, the swap and the opening succeed. Then the rewrite, with any
-- events appended before the size of the file is taken, before the first pass and before the second,
-- whether or not each is written, leaves the log as if the index was pruned, the events before the size
-- appended, all lines dropped but those of events not older than the cutoff, and the other events
-- appended after that: no recent event is lost and none twice.
pub prune_older_than-at_once :
    (now cutoff : ℕ) (event_bytes : Event → ℕ) (l : EventLog) (m : Meanwhile)
    → Writes l
    → All ReadsBack l.history
    → prune_older_than now event_bytes swaps l cutoff m
      ≡ append_all
          (drop_old cutoff (append_all (start_prune now l cutoff) m.before_size))
          (m.before_read ++ m.before_swap)
unfolding prune_older_than
prune_older_than-at_once now cutoff event_bytes l m w r =
    let started = start_prune now l cutoff in
    let w' = start_prune-Writes now cutoff l w in
    swap-at_once event_bytes cutoff (append_all started m.before_size) m.before_read m.before_swap
      (append_all-Writes started m.before_size w')
      (append_all-ReadsBack started m.before_size w' (rw (start_prune-history now cutoff l) r))
