-- ===== src/Recordings/Files.antt =====
-- backend/recordings.py: what the name of a recording and its first bytes tell. Durations are cut to whole
-- microseconds.
use dmr_decrep_shahar.Prelude.{
  string_key, ℕ, ◌+◌, ◌-◌, ◌*◌, ◌/◌, String, Bool, true, false, not, ◌&&◌, ◌||◌, Option, none, some,
  List, [], ◌∷◌, length, take, drop, ltb, ◌==◌, if◌then◌else◌,
}
use dmr_decrep_shahar.Text.{number}
use dmr_decrep_shahar.Regex.{
  Regex, group, either, one, optional, ◌▸◌, any_case, digits, search_in, group_text,
}

-- `[_-]?(\d+)`
abbrev pub tagged : Regex
tagged = optional (one (λ c. c == b'_' || c == b'-')) ▸ group "1" digits

abbrev pub tg_re : Regex
tg_re =
    either (any_case "TG")
      (either (any_case "Talkgroup") (either (any_case "TGID") (any_case "TGT")))
    ▸ tagged

abbrev pub src_re : Regex
src_re = either (any_case "SRC") (either (any_case "Source") (any_case "RID")) ▸ tagged

abbrev pub slot_re : Regex
slot_re = either (any_case "slot") (any_case "TS") ▸ tagged

-- `int(m.group(1)) if m else None`
unfoldable pub found_number : Regex → String → Option ℕ
unfolding search_in group_text number
found_number r name = elim (search_in r name) [
  | none ↦ none
  | some (g, rest) ↦ some (number (group_text g "1"))
]

-- `_parse_filename`
unfoldable pub parse_filename : String → Option ℕ × Option ℕ × Option ℕ
unfolding found_number
parse_filename name = (found_number tg_re name, found_number src_re name, found_number slot_re name)

-- an unsigned number of bytes, the lowest first
unfoldable pub little_endian : List ℕ → ℕ
little_endian [] = 0
little_endian (b ∷ bytes) = b + 256 * little_endian bytes

unfoldable pub same_bytes : List ℕ → List ℕ → Bool
same_bytes [] [] = true
same_bytes [] (y ∷ ys) = false
same_bytes (x ∷ xs) [] = false
same_bytes (x ∷ xs) (y ∷ ys) = x == y && same_bytes xs ys

-- `_read_wav_duration` of the first bytes of a file and its size
unfoldable pub read_wav_duration : List ℕ → ℕ → ℕ
unfolding little_endian same_bytes
read_wav_duration bytes file_size =
    let header = take 44 bytes in
    let byte_rate = little_endian (take 4 (drop 28 header)) in
    let stated = little_endian (take 4 (drop 40 header)) in
    let data_size = if stated == 0 then file_size - 44 else stated in
    let is_wave =
      same_bytes (take 4 header) (b'R' ∷ b'I' ∷ b'F' ∷ b'F' ∷ [])
      && same_bytes (take 4 (drop 8 header)) (b'W' ∷ b'A' ∷ b'V' ∷ b'E' ∷ []) in
    if ltb (length header) 44 || not is_wave
    then 0
    else if byte_rate == 0
    then 0
    else data_size * 1_000_000 / byte_rate
