-- ===== src/EventLog/Reading.antt =====
-- backend/event_log.py: what is read of the buffer, `recent`, the rows of `iter_csv` and `stats`. The hour of
-- an event is numbered from the epoch, in place of its text.
use dmr_decrep_shahar.Prelude.{
  nat_key, string_key, ℕ, ◌+◌, ◌/◌, String, Bool, true, false, not, ◌&&◌, Option, none, some, List,
  [], ◌∷◌, reverse, filter, length, take, ltb, leb, ◌==◌, contains, if◌then◌else◌,
}
use dmr_decrep_shahar.Dict.{Dict, get, put}
use dmr_decrep_shahar.Sort.{sorted}
use dmr_decrep_shahar.Models.{
  Event, Body, type_name, quality, voice_call, lrrp_position, encryption, VoiceCallEvent,
}
use dmr_decrep_shahar.Network.{pair_key, count_up}
use dmr_decrep_shahar.EventLog.{EventLog}
use dmr_decrep_shahar.EventLog.Quality.{QualityRatios, compute_quality_ratios}

-- `type_set is None or ev.type.value in type_set`
unfoldable pub of_types : List String → Event → Bool
unfolding contains type_name
of_types [] ev = true
of_types (t ∷ ts) ev = contains (t ∷ ts) (type_name ev.body)

unfoldable pub is_before : Option ℕ → Event → Bool
is_before none ev = false
is_before (some t) ev = ltb ev.timestamp t

-- the loop of `recent`, newest first; `out` is in the order of the result
unfoldable pub collect_recent : ℕ → Option ℕ → List String → List Event → List Event → List Event
unfolding is_before of_types
collect_recent limit since types [] out = out
collect_recent limit since types (ev ∷ older) out =
    let skip = collect_recent limit since types older out in
    let rest = collect_recent limit since types older (ev ∷ out) in
    if is_before since ev
    then out
    else if not (of_types types ev)
    then skip
    else if leb limit (length out + 1)
    then ev ∷ out
    else rest

-- `recent`
unfoldable pub recent : EventLog → ℕ → Option ℕ → List String → List Event
unfolding collect_recent
recent l limit since types = collect_recent limit since types (reverse l.buf) []

-- the snapshot from the first event that is not before `since`
unfoldable pub from_since : Option ℕ → List Event → List Event
unfolding is_before
from_since since [] = []
from_since since (ev ∷ events) = if is_before since ev then from_since since events else ev ∷ events

-- the events of the rows of `iter_csv`
unfoldable pub csv_events : EventLog → Option ℕ → List String → List Event
unfolding from_since of_types
csv_events l since types = filter (of_types types) (from_since since l.buf)

pub record Stats : Type 0 where
  pub by_type : Dict String ℕ
  pub calls_by_src : Dict ℕ ℕ
  pub calls_by_tg : Dict ℕ ℕ
  pub positions_by_src : Dict ℕ ℕ
  pub hourly : Dict ℕ ℕ
  pub encrypted_calls : ℕ
  pub quality_by_kind : Dict String ℕ
  pub seen_call_key : Dict ℕ (ℕ × ℕ)

abbrev pub no_stats : Stats
no_stats = record {
  by_type = [];
  calls_by_src = [];
  calls_by_tg = [];
  positions_by_src = [];
  hourly = [];
  encrypted_calls = 0;
  quality_by_kind = [];
  seen_call_key = [];
}

-- `seen_call_key.get(ev.slot) == key`
unfoldable pub is_seen : Stats → VoiceCallEvent → Bool
unfolding get
is_seen s e = elim (get s.seen_call_key e.slot) [
  | none ↦ false
  | some (src, tgt) ↦ src == e.src && tgt == e.tgt
]

-- one call for each change of the pair that speaks on a slot
unfoldable pub stat_call : Stats → VoiceCallEvent → Stats
unfolding is_seen put count_up
stat_call s e = if e.src == 0 then s else if is_seen s e then s else record s {
  seen_call_key = put s.seen_call_key e.slot (e.src, e.tgt);
  calls_by_src = count_up s.calls_by_src e.src 1;
  calls_by_tg = count_up s.calls_by_tg e.tgt 1;
}

unfoldable pub stat_body : Stats → Body → Stats
unfolding stat_call count_up
stat_body s (voice_call e) = stat_call s e
stat_body s (lrrp_position e) = elim e.src [
  | none ↦ s
  | some src ↦ record s { positions_by_src = count_up s.positions_by_src src 1 }
]
stat_body s (encryption e) = record s { encrypted_calls = s.encrypted_calls + 1 }
stat_body s (quality kind) = record s { quality_by_kind = count_up s.quality_by_kind kind 1 }
stat_body s body = s

unfoldable pub stat_event : Stats → Event → Stats
unfolding stat_body count_up type_name
stat_event s ev =
    stat_body
      (record s {
        by_type = count_up s.by_type (type_name ev.body) 1;
        hourly = count_up s.hourly (ev.timestamp / 3_600_000_000) 1;
      })
      ev.body

-- the loop of `stats`
unfoldable pub stats_of : Stats → List Event → Stats
unfolding stat_event
stats_of s [] = s
stats_of s (ev ∷ events) = stats_of (stat_event s ev) events

-- `dict(counter.most_common(n))`
unfoldable pub most_common : {K : Type 0} → ℕ → Dict K ℕ → Dict K ℕ
unfolding sorted
most_common n d = take n (sorted (λ a b. leb b.1 a.1) d)

-- `first_event_at` and `last_event_at`
unfoldable pub first_event_at : List Event → Option ℕ
first_event_at [] = none
first_event_at (ev ∷ events) = some ev.timestamp

unfoldable pub last_event_at : List Event → Option ℕ
last_event_at [] = none
last_event_at (ev ∷ events) = elim (last_event_at events) [
  | none ↦ some ev.timestamp
  | some t ↦ some t
]

-- what `stats` returns
pub record StatsReport : Type 0 where
  pub window_size : ℕ
  pub window_capacity : ℕ
  pub first_event : Option ℕ
  pub last_event : Option ℕ
  pub events_by_type : Dict String ℕ
  pub top_by_src : Dict ℕ ℕ
  pub top_by_tg : Dict ℕ ℕ
  pub top_positions : Dict ℕ ℕ
  pub hours : Dict ℕ ℕ
  pub encrypted : ℕ
  pub kinds : Dict String ℕ
  pub quality_ratios : QualityRatios

-- `stats`
unfoldable pub stats : EventLog → StatsReport
unfolding stats_of most_common first_event_at last_event_at sorted compute_quality_ratios
stats l =
    let s = stats_of no_stats l.buf in
    record {
      window_size = length l.buf;
      window_capacity = l.capacity;
      first_event = first_event_at l.buf;
      last_event = last_event_at l.buf;
      events_by_type = s.by_type;
      top_by_src = most_common 20 s.calls_by_src;
      top_by_tg = most_common 20 s.calls_by_tg;
      top_positions = most_common 20 s.positions_by_src;
      hours = sorted (λ a b. leb a.0 b.0) s.hourly;
      encrypted = s.encrypted_calls;
      kinds = s.quality_by_kind;
      quality_ratios = compute_quality_ratios s.by_type s.quality_by_kind;
    }
