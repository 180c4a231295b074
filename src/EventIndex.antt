-- ===== src/EventIndex.antt =====
-- backend/event_index.py: the rows of the index and what writes and deletes them. A table is the list of
-- its rows in the order of `rowid`; what a connection has written since its last commit is a list of its
-- own. A time stamp stands for its text, whose order it has, a day for the text of its date. The
-- monotonic clock is an argument, read once in an operation.
pub mod Queries
pub mod Pruning
pub mod Aggregates
use Prim.Native.Nat.{zero, suc}
use dmr_decrep_shahar.Prelude.{
  ℕ, ◌+◌, ◌-◌, ◌/◌, String, Bool, true, false, not, ◌||◌, Option, none, some, List, [], ◌∷◌, ◌++◌,
  length, ltb, leb, ◌==◌, if◌then◌else◌,
}
use dmr_decrep_shahar.Models.{
  Event, Body, type_name, site_info, channel_status, lsn_status, bank_call, quality, voice_call,
  preamble_csbk, data_header, ip_mapping, lrrp_position, lrrp_request, encryption,
}

pub record Row : Type 0 where
  pub ts : ℕ
  pub day : ℕ
  pub row_type : String
  pub src : Option ℕ
  pub tgt : Option ℕ
  pub slot : Option ℕ
  pub addressing : Option String
  pub error_type : Option String
  pub encrypted : Bool
  pub frequency : Option ℕ
  pub channel_label : Option String
  pub schema_version : ℕ
  pub payload : Event

-- `_day_of`: the number of the day in place of its date
unfoldable pub day_of : ℕ → ℕ
day_of ts = ts / 86_400_000_000

-- `ev.get("src")`, or the radio of a mapping
unfoldable pub src_column : Body → Option ℕ
src_column (voice_call e) = some e.src
src_column (preamble_csbk e) = some e.src
src_column (data_header e) = some e.src
src_column (ip_mapping e) = some e.radio_id
src_column (lrrp_position e) = e.src
src_column (lrrp_request e) = some e.src
src_column e = none

unfoldable pub tgt_column : Body → Option ℕ
tgt_column (voice_call e) = some e.tgt
tgt_column (preamble_csbk e) = some e.tgt
tgt_column (data_header e) = some e.tgt
tgt_column (lrrp_request e) = some e.tgt
tgt_column e = none

unfoldable pub slot_column : Body → Option ℕ
slot_column (voice_call e) = some e.slot
slot_column (data_header e) = some e.slot
slot_column (encryption e) = some e.slot
slot_column e = none

unfoldable pub addressing_column : Body → Option String
addressing_column (preamble_csbk e) = some e.addressing
addressing_column (data_header e) = some e.addressing
addressing_column e = none

unfoldable pub error_column : Body → Option String
error_column (quality kind) = some kind
error_column e = none

unfoldable pub encrypted_column : Body → Bool
encrypted_column (encryption e) = true
encrypted_column e = false

unfoldable pub extract_columns : Event → Row
unfolding day_of type_name src_column tgt_column slot_column addressing_column error_column
    encrypted_column
extract_columns ev = record {
  ts = ev.timestamp;
  day = day_of ev.timestamp;
  row_type = type_name ev.body;
  src = src_column ev.body;
  tgt = tgt_column ev.body;
  slot = slot_column ev.body;
  addressing = addressing_column ev.body;
  error_type = error_column ev.body;
  encrypted = encrypted_column ev.body;
  frequency = ev.frequency;
  channel_label = ev.channel_label;
  schema_version = ev.schema_version;
  payload = ev;
}

-- `committed` is what a second connection reads; the length of `pending` is `_pending`
pub record EventIndex : Type 0 where
  pub committed : List Row
  pub pending : List Row
  pub last_commit : ℕ
  pub timer : Bool
  pub closed : Bool

unfoldable pub new_index : ℕ → EventIndex
new_index now = record {
  committed = [];
  pending = [];
  last_commit = now;
  timer = false;
  closed = false;
}

abbrev pub index_batch : ℕ
index_batch = 100

abbrev pub batch_time : ℕ
batch_time = 2_000_000

-- what the connection of the index itself reads
abbrev pub all_rows : EventIndex → List Row
all_rows x = x.committed ++ x.pending

-- `_commit_locked`
unfoldable pub commit : ℕ → EventIndex → EventIndex
commit now x = record x {
  committed = x.committed ++ x.pending;
  pending = [];
  last_commit = now;
  timer = false;
}

-- `append`
unfoldable pub index_append : ℕ → EventIndex → Event → EventIndex
unfolding extract_columns commit
index_append now x ev =
    let added = record x { pending = x.pending ++ extract_columns ev ∷ [] } in
    if x.closed
    then x
    else if leb index_batch (length added.pending) || leb (x.last_commit + batch_time) now
    then commit now added
    else record added { timer = true }

-- `_timed_commit` and `flush`
unfoldable pub timed_commit : ℕ → EventIndex → EventIndex
unfolding commit
timed_commit now x = if x.closed then x else commit now x

unfoldable pub flush : ℕ → EventIndex → EventIndex
unfolding commit
flush now x = if x.closed then x else commit now x

-- `close`
unfoldable pub close : ℕ → EventIndex → EventIndex
unfolding commit
close now x = if x.closed then x else record (commit now x) { closed = true }

-- `clear`
unfoldable pub clear_index : ℕ → EventIndex → EventIndex
unfolding commit
clear_index now x = if x.closed then x else record (commit now x) { committed = [] }

-- `DELETE FROM events WHERE rowid IN (SELECT rowid FROM events WHERE ... LIMIT n)`
unfoldable pub delete_first {ℓ} : {A : Type ℓ} → (A → Bool) → ℕ → List A → List A
delete_first stale n [] = []
delete_first stale zero (x ∷ xs) = x ∷ xs
delete_first stale (suc n) (x ∷ xs) =
    if stale x then delete_first stale n xs else x ∷ delete_first stale (suc n) xs

-- the loop over the chunks, with the rows that are deleted so far; `none` if the fuel runs out. Nothing
-- is appended between two chunks, where the source gives up the lock.
unfoldable pub prune_chunks : ℕ → (Row → Bool) → ℕ → ℕ → EventIndex → ℕ → Option (EventIndex × ℕ)
unfolding commit delete_first
prune_chunks zero stale chunk now x total = none
prune_chunks (suc fuel) stale chunk now x total =
    let kept = delete_first stale chunk (all_rows x) in
    let removed = length (all_rows x) - length kept in
    let after = record (commit now x) { committed = kept } in
    let rest = prune_chunks fuel stale chunk now after (total + removed) in
    if x.closed
    then some (x, total)
    else if removed == 0
    then some (after, total)
    else if ltb removed chunk
    then some (after, total + removed)
    else rest

-- enough fuel for each row to be a chunk
unfoldable pub prune_where : (Row → Bool) → ℕ → ℕ → EventIndex → Option (EventIndex × ℕ)
unfolding prune_chunks
prune_where stale chunk now x = prune_chunks (length (all_rows x) + 1) stale chunk now x 0

-- `prune_older_than` and `prune_days_older_than`
unfoldable pub prune_index_older_than : ℕ → ℕ → ℕ → EventIndex → Option (EventIndex × ℕ)
unfolding prune_where
prune_index_older_than cutoff = prune_where (λ row. ltb row.ts cutoff)

unfoldable pub prune_index_days : ℕ → ℕ → ℕ → EventIndex → Option (EventIndex × ℕ)
unfolding prune_where
prune_index_days cutoff_day = prune_where (λ row. ltb row.day cutoff_day)

-- `vacuum`, which changes no row
unfoldable pub vacuum : ℕ → EventIndex → EventIndex
unfolding commit
vacuum now x = if x.closed then x else commit now x

abbrev pub chunk_size : ℕ
chunk_size = 50_000
