-- ===== src/Wrapper/Consume.antt =====
-- backend/wrapper.py: a run of `consume_lines` as a run of the parser followed by runs of its clients.
use dmr_decrep_shahar.Prelude.{
  ℕ, String, Bool, true, false, Option, none, some, List, [], ◌∷◌, ◌++◌, map, append-nil,
  append_assoc, ◌≡◌, refl, sym, ap, subst, ◌∙◌, arith, inl, inr, Option-cases, All,
}
use dmr_decrep_shahar.Models.{Event}
use dmr_decrep_shahar.Parser.Handlers.{DsdLogParser}
use dmr_decrep_shahar.Parser.Line.{parse_line, parse_lines, with_event}
use dmr_decrep_shahar.State.Data.{StateManager}
use dmr_decrep_shahar.State.Apply.{apply}
use dmr_decrep_shahar.EventLog.{
  EventLog, Outcome, append_event, ready_writer, ensure_day_writer, write_event, write_line,
  index_event, push,
}
use dmr_decrep_shahar.Wrapper.{
  LineRunner, log_event, Arrival, stamp, handle_event, handle_parsed, consume_lines,
}

-- the state after some events
unfoldable pub apply_all : StateManager → List Event → StateManager
unfolding apply
apply_all s [] = s
apply_all s (ev ∷ events) = apply_all (apply s ev) events

abbrev pub heard : List Arrival → List (ℕ × String)
heard arrivals = map (λ a. (a.wall, a.line)) arrivals

-- the buffer of a log with its capacity
abbrev pub Buffer : Type 0
Buffer = ℕ × List Event

abbrev pub buffer : EventLog → Buffer
buffer l = (l.capacity, l.buf)

-- the buffer of a log, if there is one
unfoldable pub buffer_of : Option EventLog → Option Buffer
buffer_of none = none
buffer_of (some l) = some (buffer l)

unfoldable pub push_all : Option Buffer → List Event → Option Buffer
unfolding push
push_all none events = none
push_all (some b) [] = some b
push_all (some (capacity, buf)) (ev ∷ events) =
    push_all (some (capacity, push capacity buf ev)) events

ready_writer-buffer :
    (opens : Bool) (l : EventLog) (ev : Event) → buffer (ready_writer opens l ev) ≡ buffer l
unfolding ready_writer ensure_day_writer
ready_writer-buffer opens l ev = ground arith

write_event-buffer :
    (writes : Bool) (l : EventLog) (ev : Event) → buffer (write_event writes l ev) ≡ buffer l
unfolding write_event write_line
write_event-buffer writes l ev = ground arith

index_event-buffer :
    (now : ℕ) (indexes : Bool) (l : EventLog) (ev : Event)
    → buffer (index_event now indexes l ev) ≡ buffer l
unfolding index_event
index_event-buffer now indexes l ev = ground arith

append_event-buffer :
    (now : ℕ) (o : Outcome) (l : EventLog) (ev : Event)
    → buffer (append_event now o l ev) ≡ (l.capacity, push l.capacity l.buf ev)
unfolding append_event
append_event-buffer now o l ev =
    let pushed = record l { buf = push l.capacity l.buf ev } in
    let ready = ready_writer o.opens pushed ev in
    index_event-buffer now o.indexes (write_event o.writes ready ev) ev
    ∙ write_event-buffer o.writes ready ev
    ∙ ready_writer-buffer o.opens pushed ev

log_event-buffer :
    (a : Arrival) (log : Option EventLog) (ev : Event) (events : List Event)
    → push_all (buffer_of (log_event a log ev)) events ≡ push_all (buffer_of log) (ev ∷ events)
unfolding log_event push_all buffer_of
log_event-buffer a none ev events = refl
log_event-buffer a (some l) ev events =
    ap (λ b. push_all (some b) events) (append_event-buffer a.now a.outcome l ev)

-- the runner after a run: what its parser, its state, its callback and its log's buffer are
abbrev pub Delivers : LineRunner → DsdLogParser → List Event → LineRunner × Bool → Type 0
Delivers r p events (r', ended) =
    (ended ≡ true)
    × (r'.parser ≡ p)
    × (r'.state ≡ apply_all r.state (map (stamp r.channel) events))
    × (r'.reported ≡ r.reported ++ map (stamp r.channel) events)
    × (buffer_of r'.event_log ≡ push_all (buffer_of r.event_log) (map (stamp r.channel) events))

consume_lines-step :
    (r : LineRunner) (a : Arrival) (more : List Arrival) (out : DsdLogParser × Option Event)
    → a.is_stopped ≡ false
    → parse_line r.parser a.wall a.line ≡ some out
    → consume_lines r (a ∷ more) ≡ consume_lines (handle_parsed a r out) more
unfolding consume_lines
consume_lines-step r a more out s e = rw (s, e) refl

Delivers-event :
    (r : LineRunner) (a : Arrival) (p1 p2 : DsdLogParser) (o : Option Event) (events : List Event)
    (out : LineRunner × Bool)
    → Delivers (handle_parsed a r (p1, o)) p2 events out
    → Delivers r p2 (with_event o events) out
unfolding handle_parsed handle_event with_event apply_all
Delivers-event r a p1 p2 none events (r', ended) d = d
Delivers-event r a p1 p2 (some ev) events (r', ended) (e, p, s, h, b) = (
  e,
  p,
  s,
  h ∙ append_assoc r.reported (stamp r.channel ev ∷ []) (map (stamp r.channel) events),
  b ∙ log_event-buffer a r.event_log (stamp r.channel ev) (map (stamp r.channel) events),
)

push_all-nil : (b : Option Buffer) → push_all b [] ≡ b
unfolding push_all
push_all-nil none = refl
push_all-nil (some (capacity, buf)) = refl

pub handle_parsed-parser :
    (a : Arrival) (r : LineRunner) (p : DsdLogParser) (o : Option Event)
    → (handle_parsed a r (p, o)).parser ≡ p
unfolding handle_parsed handle_event
handle_parsed-parser a r p none = refl
handle_parsed-parser a r p (some ev) = refl

-- If `stop` is not called and every line can be parsed, then a run of the lines ends without an exception,
-- and it is the parser's run, with the channel of the runner stamped on its events, followed by runs of the
-- parts it feeds: the state applies those events in their order, the callback gets them in their
-- order, and the event log, if there is one, has them in its buffer, whether or not a write to a file or to the
-- index fails.
pub consume_lines-Delivers :
    (r : LineRunner) (arrivals : List Arrival) (p : DsdLogParser) (events : List Event)
    → All (λ a. a.is_stopped ≡ false) arrivals
    → parse_lines r.parser (heard arrivals) ≡ some (p, events)
    → Delivers r p events (consume_lines r arrivals)
unfolding consume_lines parse_lines apply_all push_all
consume_lines-Delivers r [] p events s h =
    let found : [] ≡ events = ground arith in
    let same : r.parser ≡ p = ground arith in
    subst (λ evs. Delivers r p evs (r, true)) found
      (refl, same, refl, sym (append-nil r.reported), sym (push_all-nil (buffer_of r.event_log)))
consume_lines-Delivers r (a ∷ more) p events (s, rest) h =
    elim (Option-cases (parse_line r.parser a.wall a.line)) [
      | inl n ↦ cc (rw (n, parse_lines) at h)
      | inr ((p1, o), n) ↦ elim (Option-cases (parse_lines p1 (heard more))) [
        | inl n' ↦ cc (rw (n, n', parse_lines) at h)
        | inr ((p2, evs), n') ↦
            let h' = rw (n, n', parse_lines) at h in
            let same : p2 ≡ p = ground (arith, h') in
            let found : with_event o evs ≡ events = ground (arith, h') in
            subst (λ all. Delivers r p all (consume_lines r (a ∷ more))) found
              (subst (Delivers r p (with_event o evs))
                (sym (consume_lines-step r a more (p1, o) s n))
                (Delivers-event r a p1 p o evs (consume_lines (handle_parsed a r (p1, o)) more) (
                  consume_lines-Delivers (handle_parsed a r (p1, o)) more p evs rest (
                    ap (λ q. parse_lines q (heard more)) (handle_parsed-parser a r p1 o)
                    ∙ n'
                    ∙ ap (λ q. some (q, evs)) same))))
      ]
    ]
