-- ===== src/Tests/Recordings.antt =====
-- backend/recordings.py: a directory of a recording of two seconds, a file that is not a recording, and a
-- text, with a cache that knows the second.
use dmr_decrep_shahar.Prelude.{
  string_key, ℕ, String, String_discrete, true, none, some, List, [], ◌∷◌, ◌≡◌, refl, ite, contains,
}
use dmr_decrep_shahar.Dict.{get, put}
use dmr_decrep_shahar.Sort.{insert, sorted}
use dmr_decrep_shahar.Text.{
  size, lower, lower_char, is_upper, is_digit, take_chars, number, number_from,
}
use dmr_decrep_shahar.Regex.{
  first_of, match_many, match_few, match_one, is_finish, match_at, search_from, search_in, exact,
  fold, any_case, group_text,
}
use dmr_decrep_shahar.EventLog.Files.{drop_chars}
use dmr_decrep_shahar.Recordings.{
  Version, Entry, RecordingRegistry, recording_of, read_entry, look_entry, scan, drop_vanished,
  list_recent, is_wav, wav_version, listed_version, fresh_memo, latest_first, with_recording,
}
use dmr_decrep_shahar.Recordings.Files.{
  little_endian, same_bytes, read_wav_duration, found_number, parse_filename,
}
use dmr_decrep_shahar.Recordings.Caching.{IsSound, recordings_in, list_recent-recordings_in}

abbrev name : String
name = "2024-05-31_DMR_TG_101_SRC_2102.wav"

-- the header of 32,000 bytes of data at 16,000 bytes a second
abbrev header : List ℕ
header =
    b'R' ∷ b'I' ∷ b'F' ∷ b'F' ∷ 0 ∷ 0 ∷ 0 ∷ 0 ∷ b'W' ∷ b'A' ∷ b'V' ∷ b'E' ∷ 0 ∷ 0 ∷ 0 ∷ 0 ∷ 0 ∷ 0
    ∷ 0 ∷ 0 ∷ 0 ∷ 0 ∷ 0 ∷ 0 ∷ 0 ∷ 0 ∷ 0 ∷ 0 ∷ 128 ∷ 62 ∷ 0 ∷ 0 ∷ 0 ∷ 0 ∷ 0 ∷ 0 ∷ 0 ∷ 0 ∷ 0 ∷ 0 ∷ 0
    ∷ 125 ∷ 0 ∷ 0 ∷ []

abbrev reads : String → Version → List ℕ
reads file version = ite (String_discrete file name) header []

abbrev dir : List Entry
dir =
    record { name = name; is_file = true; stat = some (32_044, 10_000_000) }
    ∷ record { name = "short.WAV"; is_file = true; stat = some (10, 20_000_000) }
    ∷ record { name = "notes.txt"; is_file = true; stat = some (10, 20_000_000) }
    ∷ []

abbrev registry : RecordingRegistry
registry = record {
  min_duration = 200_000;
  ignore_recent = 1_500_000;
  memo_ttl = 2_000_000;
  meta_cache = ("short.WAV", ((10, 20_000_000), none)) ∷ [];
  memo = some (20_000_000, []);
}

registry-IsSound : IsSound reads 200_000 registry.meta_cache
unfolding recording_of read_wav_duration little_endian same_bytes String_discrete
registry-IsSound = (refl, tt)

old_memo : fresh_memo registry 30_000_000 ≡ none
unfolding fresh_memo
old_memo = refl

list_recent-recordings_in_example :
    ((list_recent reads registry 30_000_000 dir).1
      ≡ latest_first (recordings_in reads 200_000 1_500_000 30_000_000 dir))
    × IsSound reads 200_000 (list_recent reads registry 30_000_000 dir).0.meta_cache
list_recent-recordings_in_example =
    list_recent-recordings_in reads registry 30_000_000 dir registry-IsSound old_memo

listed :
    (list_recent reads registry 30_000_000 dir).1
    ≡ record {
      filename = name;
      src = some 2102;
      tgt = some 101;
      slot = none;
      started_at = 8_000_000;
      duration = 2_000_000;
      file_bytes = 32_044;
    }
      ∷ []
unfolding size lower lower_char is_upper is_digit take_chars number number_from first_of match_many
    match_few match_one is_finish match_at search_from search_in exact fold any_case group_text get
    put String_discrete insert sorted drop_chars little_endian same_bytes read_wav_duration
    found_number parse_filename recording_of read_entry look_entry scan drop_vanished list_recent
    is_wav wav_version listed_version fresh_memo latest_first with_recording contains
listed = refl
