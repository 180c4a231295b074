-- ===== src/Tests/Dossier.antt =====
-- backend/dossier.py: three frames of two calls, and one without a time.
use dmr_decrep_shahar.Prelude.{ℕ, Option, none, some, List, [], ◌∷◌, ◌≡◌, refl}
use dmr_decrep_shahar.Dossier.{
  VoiceRow, Call, same_number, same_session, continues, new_session, extend, sessions_from,
  sessions, finish, group_calls,
}
use dmr_decrep_shahar.Dossier.Groups.{Group, Grouped, frames_of, sessions-Grouped}
use dmr_decrep_shahar.Dossier.Sessions.{parsed_rows, total_frames, total_frames-group_calls}

abbrev row : Option ℕ → VoiceRow
row ts = record { timestamp = ts; slot = some 1; src = some 7; tgt = some 100 }

abbrev rows : List VoiceRow
rows = row (some 1_000_000) ∷ row none ∷ row (some 3_000_000) ∷ row (some 9_000_000) ∷ []

abbrev call : ℕ → ℕ → Call
call ts frames = record { ts = ts; slot = some 1; src = some 7; tgt = some 100; frames = frames }

two_calls : group_calls rows ≡ call 1_000_000 2 ∷ call 9_000_000 1 ∷ []
unfolding group_calls sessions sessions_from continues same_session same_number new_session extend
    finish
two_calls = refl

total_frames-group_calls_example : total_frames (group_calls rows) ≡ parsed_rows rows
total_frames-group_calls_example = total_frames-group_calls rows

sessions-Grouped_example : (gs : List Group) × Grouped (sessions rows) (frames_of rows) gs
sessions-Grouped_example = sessions-Grouped rows
