-- ===== src/Recordings.antt =====
-- backend/recordings.py: `RecordingRegistry`, the listing of the recorded calls with its two caches, and
-- their retention. What is read of a file is a parameter: the first bytes of the file that has a name, a
-- size and a time of change. Times and durations are cut to whole microseconds.
pub mod Files
pub mod Caching
use Prim.Native.Nat.{zero, suc}
use dmr_decrep_shahar.Prelude.{
  string_key, ℕ, ◌+◌, ◌-◌, ◌*◌, ◌/◌, String, String_discrete, Bool, true, false, not, ◌&&◌, ◌||◌,
  Option, none, some, List, [], ◌∷◌, length, take, drop, filter, contains, ltb, leb, ◌==◌, ite,
  if◌then◌else◌,
}
use dmr_decrep_shahar.Dict.{Dict, get, put, del}
use dmr_decrep_shahar.Sort.{sorted}
use dmr_decrep_shahar.Text.{size, lower, number}
use dmr_decrep_shahar.Regex.{
  Regex, group, either, one, optional, ◌▸◌, any_case, digits, search_in, group_text,
}
use dmr_decrep_shahar.EventLog.Files.{drop_chars}
use dmr_decrep_shahar.Recordings.Files.{parse_filename, read_wav_duration}

pub record CallRecording : Type 0 where
  pub filename : String
  pub src : Option ℕ
  pub tgt : Option ℕ
  pub slot : Option ℕ
  pub started_at : ℕ
  pub duration : ℕ
  pub file_bytes : ℕ

-- the size and the time of change of a file, by which its metadata are kept
abbrev pub Version : Type 0
Version = ℕ × ℕ

-- what a directory has under a name; `stat` is missing if it cannot be read
pub record Entry : Type 0 where
  pub name : String
  pub is_file : Bool
  pub stat : Option Version

-- a recording, or nothing for a file that is too short
abbrev pub MetaCache : Type 0
MetaCache = Dict String (Version × Option CallRecording)

pub record RecordingRegistry : Type 0 where
  pub min_duration : ℕ
  pub ignore_recent : ℕ
  pub memo_ttl : ℕ
  pub meta_cache : MetaCache
  pub memo : Option (ℕ × List CallRecording)

unfoldable pub new_registry : ℕ → ℕ → ℕ → RecordingRegistry
new_registry min_duration ignore_recent memo_ttl = record {
  min_duration = min_duration;
  ignore_recent = ignore_recent;
  memo_ttl = memo_ttl;
  meta_cache = [];
  memo = none;
}

-- `p.suffix.lower() == ".wav"`
unfoldable pub is_wav : String → Bool
unfolding size lower drop_chars
is_wav name =
    ltb 4 (size name)
    && ite (String_discrete (drop_chars (size name - 4) (lower name)) ".wav") true false

-- the version of an entry, if it is a WAV file
unfoldable pub wav_version : Entry → Option Version
unfolding is_wav
wav_version e = if e.is_file && is_wav e.name then e.stat else none

-- the version of an entry that is listed: not one that was changed just now
unfoldable pub listed_version : ℕ → ℕ → Entry → Option Version
unfolding wav_version
listed_version ignore_recent now e = elim (wav_version e) [
  | none ↦ none
  | some (bytes, mtime) ↦ if ltb now (mtime + ignore_recent) then none else some (bytes, mtime)
]

-- the memo of the listing that is still served
unfoldable pub fresh_memo : RecordingRegistry → ℕ → Option (List CallRecording)
fresh_memo r now = elim r.memo [
  | none ↦ none
  | some (at, recs) ↦ if ltb now (at + r.memo_ttl) then some recs else none
]

-- `recs.sort(key=lambda r: r.started_at, reverse=True)`
unfoldable pub latest_first : List CallRecording → List CallRecording
unfolding sorted
latest_first = sorted (λ a b. leb b.started_at a.started_at)

unfoldable pub with_recording : Option CallRecording → List CallRecording → List CallRecording
with_recording none recs = recs
with_recording (some rec) recs = rec ∷ recs

-- the entries of files that are there
unfoldable pub drop_vanished : MetaCache → List String → MetaCache
unfolding contains
drop_vanished cache seen =
    if ltb (length seen) (length cache) then filter (λ e. contains seen e.0) cache else cache

module _ (reads : String → Version → List ℕ) where
  -- what a file's header makes of it
  unfoldable pub recording_of : ℕ → String → Version → Option CallRecording
  unfolding read_wav_duration parse_filename
  recording_of min_duration name (bytes, mtime) =
      let duration = read_wav_duration (reads name (bytes, mtime)) bytes in
      let (tgt, src, slot) = parse_filename name in
      if ltb duration min_duration
      then none
      else some (record {
        filename = name;
        src = src;
        tgt = tgt;
        slot = slot;
        started_at = mtime - duration;
        duration = duration;
        file_bytes = bytes;
      })

  -- the header is read, and what it makes is kept
  unfoldable pub read_entry : ℕ → MetaCache → String → Version → MetaCache × Option CallRecording
  unfolding recording_of put
  read_entry min_duration cache name version = (
    put cache name (version, recording_of min_duration name version),
    recording_of min_duration name version,
  )

  -- the cached result if it is of the same version
  unfoldable pub look_entry : ℕ → MetaCache → String → Version → MetaCache × Option CallRecording
  unfolding read_entry get
  look_entry min_duration cache name (bytes, mtime) = elim (get cache name) [
    | none ↦ read_entry min_duration cache name (bytes, mtime)
    | some ((bytes', mtime'), rec) ↦
        if bytes' == bytes && mtime' == mtime
        then (cache, rec)
        else read_entry min_duration cache name (bytes, mtime)
  ]

  -- the loop over the directory: the cache, the recordings, and the names that are seen
  unfoldable pub scan :
      RecordingRegistry → ℕ → List Entry → MetaCache → MetaCache × List CallRecording × List String
  unfolding listed_version look_entry with_recording
  scan r now [] cache = (cache, [], [])
  scan r now (e ∷ more) cache = elim (listed_version r.ignore_recent now e) [
    | none ↦ scan r now more cache
    | some version ↦
        let (cache', rec) = look_entry r.min_duration cache e.name version in
        let (cache'', recs, seen) = scan r now more cache' in
        (cache'', with_recording rec recs, e.name ∷ seen)
  ]

  -- `list_recent` of a directory that exists
  unfoldable pub list_recent :
      RecordingRegistry → ℕ → List Entry → RecordingRegistry × List CallRecording
  unfolding fresh_memo scan drop_vanished latest_first
  list_recent r now dir = elim (fresh_memo r now) [
    | some recs ↦ (r, recs)
    | none ↦
        let (cache, recs, seen) = scan r now dir r.meta_cache in
        (
          record r { meta_cache = drop_vanished cache seen; memo = some (now, latest_first recs) },
          latest_first recs,
        )
  ]

-- the files that are deleted: those changed before the cutoff, if they can be unlinked
unfoldable pub is_stale : ℕ → (String → Bool) → Entry → Bool
unfolding wav_version
is_stale cutoff unlinks e = elim (wav_version e) [
  | none ↦ false
  | some (bytes, mtime) ↦ ltb mtime cutoff && unlinks e.name
]

unfoldable pub del_names : MetaCache → List Entry → MetaCache
unfolding del
del_names cache [] = cache
del_names cache (e ∷ more) = del_names (del cache e.name) more

unfoldable pub total_bytes : List Entry → ℕ
total_bytes [] = 0
total_bytes (e ∷ more) = (elim e.stat [ none ↦ 0 | some (bytes, mtime) ↦ bytes ]) + total_bytes more

-- `prune_older_than` of a cutoff: what is left of the directory, with the numbers of files and of bytes
unfoldable pub prune_recordings :
    (String → Bool) → RecordingRegistry → ℕ → List Entry → RecordingRegistry × List Entry × ℕ × ℕ
unfolding is_stale del_names total_bytes
prune_recordings unlinks r cutoff dir =
    let gone = filter (is_stale cutoff unlinks) dir in
    (
      record r {
        meta_cache = del_names r.meta_cache gone;
        memo = if ltb 0 (length gone) then none else r.memo;
      },
      filter (λ e. not (is_stale cutoff unlinks e)) dir,
      length gone,
      total_bytes gone,
    )
