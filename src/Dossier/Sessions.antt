-- ===== src/Dossier/Sessions.antt =====
-- backend/dossier.py: the frames of the calls.
use dmr_decrep_shahar.Prelude.{
  List, ℕ, ◌+◌, none, some, [], ◌∷◌, map, ◌≡◌, refl, arith, inl, inr, Bool-cases, Option-cases,
}
use dmr_decrep_shahar.Dossier.{
  VoiceRow, Session, Call, continues, new_session, extend, sessions_from, sessions, finish,
  group_calls,
}

-- how many rows have a time stamp that parses
unfoldable pub parsed_rows : List VoiceRow → ℕ
parsed_rows [] = 0
parsed_rows (row ∷ rows) = elim row.timestamp [
  | none ↦ parsed_rows rows
  | some ts ↦ parsed_rows rows + 1
]

unfoldable pub total_frames : List Call → ℕ
total_frames [] = 0
total_frames (c ∷ calls) = c.frames + total_frames calls

total_frames-sessions_from :
    (current : Session) (rows : List VoiceRow)
    → total_frames (map finish (sessions_from current rows)) ≡ current.frames + parsed_rows rows
unfolding sessions_from finish total_frames parsed_rows extend new_session
total_frames-sessions_from current [] = omega arith
total_frames-sessions_from current (row ∷ rows) = elim (Option-cases row.timestamp) [
  | inl e ↦ rw (e, sessions_from, parsed_rows) (total_frames-sessions_from current rows)
  | inr (ts, e) ↦ elim (Bool-cases (continues current row ts)) [
    | inl c ↦
        rw (e, c, sessions_from, parsed_rows)
          (omega (arith, total_frames-sessions_from (extend current ts) rows))
    | inr c ↦
        rw (e, c, sessions_from, parsed_rows)
          (omega (arith, total_frames-sessions_from (new_session row ts) rows))
  ]
]

-- The calls hold each voice frame whose time stamp parses once: their frames add up to the number of
-- such rows.
pub total_frames-group_calls :
    (rows : List VoiceRow) → total_frames (group_calls rows) ≡ parsed_rows rows
unfolding group_calls sessions total_frames parsed_rows new_session
total_frames-group_calls [] = refl
total_frames-group_calls (row ∷ rows) = elim (Option-cases row.timestamp) [
  | inl e ↦ rw (e, sessions, parsed_rows) (total_frames-group_calls rows)
  | inr (ts, e) ↦
      rw (e, sessions, parsed_rows)
        (omega (arith, total_frames-sessions_from (new_session row ts) rows))
]
