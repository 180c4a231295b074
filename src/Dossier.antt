-- ===== src/Dossier.antt =====
-- backend/dossier.py: voice frames collapsed to calls. A row's time stamp is a number of microseconds,
-- or nothing where it does not parse; the text of it is not kept.
pub mod Groups
pub mod Sessions
use dmr_decrep_shahar.Prelude.{
  ℕ, ◌+◌, Bool, true, false, ◌&&◌, Option, none, some, List, [], ◌∷◌, map, leb, ◌==◌, if◌then◌else◌,
}

pub record VoiceRow : Type 0 where
  pub timestamp : Option ℕ
  pub slot : Option ℕ
  pub src : Option ℕ
  pub tgt : Option ℕ

-- a session while it is `current`, with its `_last_ts`; the row of its first frame holds its `_key`
pub record Session : Type 0 where
  pub first : VoiceRow
  pub ts : ℕ
  pub last_ts : ℕ
  pub frames : ℕ

-- a session as it is returned
pub record Call : Type 0 where
  pub ts : ℕ
  pub slot : Option ℕ
  pub src : Option ℕ
  pub tgt : Option ℕ
  pub frames : ℕ

-- `_CALL_GAP_SECONDS`, in microseconds
abbrev pub call_gap : ℕ
call_gap = 2_000_000

unfoldable pub same_number : Option ℕ → Option ℕ → Bool
same_number none none = true
same_number (some m) (some n) = m == n
same_number _ _ = false

-- `current["_key"] == key`
unfoldable pub same_session : VoiceRow → VoiceRow → Bool
unfolding same_number
same_session a b = same_number a.slot b.slot && same_number a.src b.src && same_number a.tgt b.tgt

unfoldable pub continues : Session → VoiceRow → ℕ → Bool
unfolding same_session
continues current row ts = same_session current.first row && leb ts (current.last_ts + call_gap)

unfoldable pub new_session : VoiceRow → ℕ → Session
new_session row ts = record { first = row; ts = ts; last_ts = ts; frames = 1 }

unfoldable pub extend : Session → ℕ → Session
extend current ts = record current { last_ts = ts; frames = current.frames + 1 }

-- the loop over the rows once there is a current session
unfoldable pub sessions_from : Session → List VoiceRow → List Session
unfolding continues new_session extend
sessions_from current [] = current ∷ []
sessions_from current (row ∷ rows) = elim row.timestamp [
  | none ↦ sessions_from current rows
  | some ts ↦
      if continues current row ts
      then sessions_from (extend current ts) rows
      else current ∷ sessions_from (new_session row ts) rows
]

-- the loop up to the first row that parses
unfoldable pub sessions : List VoiceRow → List Session
unfolding sessions_from new_session
sessions [] = []
sessions (row ∷ rows) = elim row.timestamp [
  | none ↦ sessions rows
  | some ts ↦ sessions_from (new_session row ts) rows
]

-- the private keys popped
unfoldable pub finish : Session → Call
finish s = record {
  ts = s.ts;
  slot = s.first.slot;
  src = s.first.src;
  tgt = s.first.tgt;
  frames = s.frames;
}

-- `_group_calls`
unfoldable pub group_calls : List VoiceRow → List Call
unfolding sessions finish
group_calls rows = map finish (sessions rows)
