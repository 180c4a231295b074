-- ===== src/Parser/Errors.antt =====
-- backend/parser.py: the one exception that leaves `parse_line`.
use Prim.Native.Char.{code}
use dmr_decrep_shahar.Text.{size}
use dmr_decrep_shahar.Prelude.{
  Bool, ℕ, ◌≤◌, ◌<◌, String, true, false, ◌&&◌, none, some, ◌≡◌, refl, subst, arith, ◌⊎◌, ◌↔◌, inl,
  inr, Bool-cases, Option-cases, ltb,
}
use dmr_decrep_shahar.Regex.{Groups, Match, search_in}
use dmr_decrep_shahar.Parser.Patterns.{sync_re}
use dmr_decrep_shahar.Parser.Handlers.{DsdLogParser, int_group}
use dmr_decrep_shahar.Parser.Line.{
  update_timestamp, sync_error, sync_line, clean_line, is_blank, parse_line,
}

-- a time of day that there is not
abbrev pub ImpossibleTime : Groups → Type 0
ImpossibleTime g = (24 ≤ int_group g "h") ⊎ (60 ≤ int_group g "m") ⊎ (60 ≤ int_group g "s")

unfoldable pub all_ascii : String → Bool
all_ascii String.[] = true
all_ascii (String.◌∷◌ c s) = ltb (code c) 128 && all_ascii s

-- the line tells a time of day that there is not
abbrev pub TellsImpossibleTime : String → Type 0
TellsImpossibleTime line =
    (is_blank line ≡ false) × ((m : Match) × (search_in sync_re line ≡ some m) × ImpossibleTime m.0)

-- the test of `time(h, mi, s)`
is_time-false :
    (h mi s : ℕ) → (ltb h 24 && ltb mi 60 && ltb s 60) ≡ false → (24 ≤ h) ⊎ (60 ≤ mi) ⊎ (60 ≤ s)
is_time-false h mi s e = grind arith

is_time-true :
    (h mi s : ℕ) → (ltb h 24 && ltb mi 60 && ltb s 60) ≡ true → (h < 24) × (mi < 60) × (s < 60)
is_time-true h mi s e = grind arith

update_timestamp-none :
    (p : DsdLogParser) (wall : ℕ) (g : Groups) → update_timestamp p wall g ≡ none ↔ ImpossibleTime g
unfolding update_timestamp
update_timestamp-none p wall g =
    elim (Bool-cases
      (ltb (int_group g "h") 24 && ltb (int_group g "m") 60 && ltb (int_group g "s") 60)) [
        | inl b ↦
            let (h, mi, s) = is_time-true (int_group g "h") (int_group g "m") (int_group g "s") b in
            ((λ e. cc (rw (b, update_timestamp) at e)), (λ i. grind arith))
        | inr b ↦ (
          (λ e. is_time-false (int_group g "h") (int_group g "m") (int_group g "s") b),
          (λ i. rw (b, update_timestamp) refl),
        )
      ]

sync_line-none :
    (p : DsdLogParser) (wall : ℕ) (line : String) (g : Groups)
    → sync_line p wall line g ≡ none ↔ update_timestamp p wall g ≡ none
unfolding sync_line
sync_line-none p wall line g = elim (Option-cases (update_timestamp p wall g)) [
  | inl e ↦ ((λ n. e), (λ n. rw (e, sync_line) refl))
  | inr (p', e) ↦ elim (Option-cases (sync_error line)) [
    | inl n ↦ ((λ h. cc (rw (e, n, sync_line) at h)), (λ h. cc (rw e at h)))
    | inr (error, n) ↦ ((λ h. cc (rw (e, n, sync_line) at h)), (λ h. cc (rw e at h)))
  ]
]

-- a line of ASCII, within the number of digits that `int` takes
abbrev pub IsPlain : String → Type 0
IsPlain line = (all_ascii line ≡ true) × (size line ≤ 4_300)

-- For a line of at most 4,300 characters, all of ASCII, `parse_line` raises an exception if and only if
-- the line is not blank and tells a time of day that there is not: an hour from 24 on, or a minute or a
-- second from 60 on.
pub parse_line-TellsImpossibleTime :
    (p : DsdLogParser) (wall : ℕ) (raw : String)
    → IsPlain raw
    → parse_line p wall raw ≡ none ↔ TellsImpossibleTime (clean_line raw)
unfolding parse_line
parse_line-TellsImpossibleTime p wall raw plain =
    let line = clean_line raw in
    elim (Bool-cases (is_blank line)) [
      | inl b ↦ ((λ h. cc (rw (b, parse_line) at h)), (λ t. cc (rw b at t.0)))
      | inr b ↦ elim (Option-cases (search_in sync_re line)) [
        | inl e ↦ ((λ h. cc (rw (b, e, parse_line) at h)), (λ t. cc (rw e at t.1.1)))
        | inr ((g, s), e) ↦
            let fails = sync_line-none p wall line g in
            let late = update_timestamp-none p wall g in
            (
              (λ h. (b, ((g, s), e, late.0 (fails.0 (rw (b, e, parse_line) at h))))),
              (λ t.
                  let same : t.1.0 ≡ (g, s) = ground (arith, rw e at t.1.1) in
                  rw (b, e, parse_line)
                    (fails.1 (late.1 (subst (λ (m : Match). ImpossibleTime m.0) same t.1.2)))),
            )
      ]
    ]
