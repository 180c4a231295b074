-- ===== src/Recordings/Caching.antt =====
-- backend/recordings.py: the listing with its caches, against a scan of the directory that reads every file.
use dmr_decrep_shahar.Prelude.{
  string_key, ℕ, ◌==◌, String, ◌&&◌, Option, none, some, List, [], ◌∷◌, filter, contains, ltb, ◌≡◌,
  refl, ap, ◌∙◌, arith, inl, inr, Bool-cases, Option-cases, All, All-intro, All-Member,
  Member-filter, length,
}
use dmr_decrep_shahar.Dict.{get}
use dmr_decrep_shahar.Dict.Entries.{put-All, get-All}
use dmr_decrep_shahar.Recordings.{
  CallRecording, Version, Entry, MetaCache, RecordingRegistry, listed_version, fresh_memo,
  latest_first, with_recording, recording_of, read_entry, look_entry, scan, drop_vanished,
  list_recent,
}

module _ (reads : String → Version → List ℕ) where
  -- the recordings of a directory, each file read
  unfoldable pub recordings_in : ℕ → ℕ → ℕ → List Entry → List CallRecording
  unfolding listed_version recording_of with_recording
  recordings_in min_duration ignore_recent now [] = []
  recordings_in min_duration ignore_recent now (e ∷ more) =
      elim (listed_version ignore_recent now e) [
        | none ↦ recordings_in min_duration ignore_recent now more
        | some version ↦
            with_recording (recording_of reads min_duration e.name version)
              (recordings_in min_duration ignore_recent now more)
      ]

  -- an entry of the cache is what reading that version of the file gives
  abbrev pub IsTrue : ℕ → String × (Version × Option CallRecording) → Type 0
  IsTrue min_duration (name, (version, rec)) = rec ≡ recording_of reads min_duration name version

  abbrev pub IsSound : ℕ → MetaCache → Type 0
  IsSound min_duration cache = All (IsTrue min_duration) cache

  read_entry-IsSound :
      (m : ℕ) (cache : MetaCache) (name : String) (version : Version)
      → IsSound m cache
      → IsSound m (read_entry reads m cache name version).0
        × ((read_entry reads m cache name version).1 ≡ recording_of reads m name version)
  unfolding read_entry
  read_entry-IsSound m cache name version s =
      (put-All (IsTrue m) cache name (version, recording_of reads m name version) refl s, refl)

  look_entry-IsSound :
      (m : ℕ) (cache : MetaCache) (name : String) (version : Version)
      → IsSound m cache
      → IsSound m (look_entry reads m cache name version).0
        × ((look_entry reads m cache name version).1 ≡ recording_of reads m name version)
  unfolding look_entry
  look_entry-IsSound m cache name (bytes, mtime) s = elim (Option-cases (get cache name)) [
    | inl e ↦ rw (e, look_entry) (read_entry-IsSound m cache name (bytes, mtime) s)
    | inr (((bytes', mtime'), rec), e) ↦ elim (Bool-cases (bytes' == bytes && mtime' == mtime)) [
      | inl b ↦
          let true_entry : rec ≡ recording_of reads m name (bytes', mtime') =
            get-All (IsTrue m) cache name ((bytes', mtime'), rec) e s in
          let same : (bytes' ≡ bytes) × (mtime' ≡ mtime) = ground arith in
          rw (e, look_entry, b) (s, rw (← same.0, ← same.1) true_entry)
      | inr b ↦ rw (e, look_entry, b) (read_entry-IsSound m cache name (bytes, mtime) s)
    ]
  ]

  scan-IsSound :
      (r : RecordingRegistry) (now : ℕ) (dir : List Entry) (cache : MetaCache)
      → IsSound r.min_duration cache
      → IsSound r.min_duration (scan reads r now dir cache).0
        × ((scan reads r now dir cache).1 ≡ recordings_in r.min_duration r.ignore_recent now dir)
  unfolding scan recordings_in
  scan-IsSound r now [] cache s = (s, refl)
  scan-IsSound r now (e ∷ more) cache s =
      elim (Option-cases (listed_version r.ignore_recent now e)) [
        | inl n ↦ rw (n, scan, recordings_in) (scan-IsSound r now more cache s)
        | inr (version, n) ↦
            let (s', found) = look_entry-IsSound r.min_duration cache e.name version s in
            let (s'', rest) =
              scan-IsSound r now more (look_entry reads r.min_duration cache e.name version).0 s' in
            rw (n, scan, recordings_in)
              (
                s'',
                ap
                      (λ o.
                        with_recording o
                          (scan reads r now more
                            (look_entry reads r.min_duration cache e.name version).0).1)
                      found
                    ∙ ap (with_recording (recording_of reads r.min_duration e.name version)) rest,
              )
      ]

  drop_vanished-IsSound :
      (m : ℕ) (cache : MetaCache) (seen : List String)
      → IsSound m cache
      → IsSound m (drop_vanished cache seen)
  unfolding drop_vanished
  drop_vanished-IsSound m cache seen s = elim (Bool-cases (ltb (length seen) (length cache))) [
    | inl b ↦ rw b (
        All-intro (IsTrue m) (filter (λ e. contains seen e.0) cache) (λ e h.
          All-Member (IsTrue m) cache e s (Member-filter e (λ e'. contains seen e'.0) cache h).0))
    | inr b ↦ rw b s
  ]

  -- If every entry of the cache is what reading that version of the file gives, and there is no memo young
  -- enough to be served, then the listing is the one that reads every file, its recordings latest first,
  -- and every entry of the cache after it is again what reading gives.
  pub list_recent-recordings_in :
      (r : RecordingRegistry) (now : ℕ) (dir : List Entry)
      → IsSound r.min_duration r.meta_cache
      → fresh_memo r now ≡ none
      → ((list_recent reads r now dir).1
          ≡ latest_first (recordings_in r.min_duration r.ignore_recent now dir))
        × IsSound r.min_duration (list_recent reads r now dir).0.meta_cache
  unfolding list_recent
  list_recent-recordings_in r now dir s n =
      let (s', found) = scan-IsSound r now dir r.meta_cache s in
      rw (n, list_recent)
        (
          ap latest_first found,
          drop_vanished-IsSound r.min_duration (scan reads r now dir r.meta_cache).0
              (scan reads r now dir r.meta_cache).2 s',
        )
