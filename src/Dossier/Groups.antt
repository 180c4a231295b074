-- ===== src/Dossier/Groups.antt =====
-- backend/dossier.py: the sessions against the groups of frames that they stand for.
use dmr_decrep_shahar.Prelude.{
  leb, subst, ◌&&◌, Bool, leb→le, leb→gt, ◌≤◌, ◌++◌, length, Option, true, append_assoc, All, ap,
  List, ℕ, ◌+◌, ◌<◌, false, none, some, [], ◌∷◌, map, ◌≡◌, refl, arith, ◌⊎◌, inl, inr, Bool-cases,
  Option-cases,
}
use dmr_decrep_shahar.Dossier.{
  VoiceRow, Session, call_gap, same_session, continues, extend, sessions_from, same_number,
  sessions,
}

-- a frame: a row with its time stamp
abbrev pub Frame : Type 0
Frame = ℕ × VoiceRow

-- the rows whose time stamp parses
unfoldable pub frames_of : List VoiceRow → List Frame
frames_of [] = []
frames_of (row ∷ rows) = elim row.timestamp [
  | none ↦ frames_of rows
  | some ts ↦ (ts, row) ∷ frames_of rows
]

abbrev pub SameParties : VoiceRow → VoiceRow → Type 0
SameParties a b = (a.slot ≡ b.slot) × (a.src ≡ b.src) × (a.tgt ≡ b.tgt)

-- some frames in a row, not none: the first and the others
abbrev pub Group : Type 0
Group = Frame × List Frame

unfoldable pub last : Frame → List Frame → Frame
last f [] = f
last f (g ∷ gs) = last g gs

-- after `before`, each of the frames has the parties and the slot of `f`, and begins at most the gap
-- after the one before it
abbrev pub Runs : Frame → Frame → List Frame → Type 0
Runs f before [] = Unit
Runs f before (g ∷ gs) = SameParties f.1 g.1 × (g.0 ≤ before.0 + call_gap) × Runs f g gs

abbrev pub IsRun : Group → Type 0
IsRun (f, fs) = Runs f f fs

-- the second group begins with other parties or another slot, or too late
abbrev pub Apart : Group → Group → Type 0
Apart (f, fs) (g, gs) = (¬ SameParties f.1 g.1) ⊎ ((last f fs).0 + call_gap < g.0)

-- each group and the next are apart
abbrev pub AllApart : List Group → Type 0
AllApart [] = Unit
AllApart (x ∷ []) = Unit
AllApart (x ∷ y ∷ ys) = Apart x y × AllApart (y ∷ ys)

-- what a session tells of a group
unfoldable pub session_of : Group → Session
unfolding last
session_of (f, fs) = record {
  first = f.1;
  ts = f.0;
  last_ts = (last f fs).0;
  frames = length fs + 1;
}

unfoldable pub all_frames : List Group → List Frame
all_frames [] = []
all_frames ((f, fs) ∷ gs) = (f ∷ fs) ++ all_frames gs

-- the sessions are the groups, the groups the frames
abbrev pub Grouped : List Session → List Frame → List Group → Type 0
Grouped ss frames gs =
    (all_frames gs ≡ frames) × (ss ≡ map session_of gs) × All IsRun gs × AllApart gs

same_number-true : (a b : Option ℕ) → same_number a b ≡ true → a ≡ b
unfolding same_number
same_number-true none none h = refl
same_number-true (some m) (some n) h = grind arith
same_number-true (some m) none h = absurd (ground arith)
same_number-true none (some n) h = absurd (ground arith)

same_number_self : (a : Option ℕ) → same_number a a ≡ true
unfolding same_number
same_number_self none = refl
same_number_self (some m) = grind arith

both : (a b : Bool) → (a && b) ≡ true → (a ≡ true) × (b ≡ true)
both a b h = grind arith

same_session-true : (a b : VoiceRow) → same_session a b ≡ true → SameParties a b
unfolding same_session
same_session-true a b h =
    let (pair, tgt) =
      both (same_number a.slot b.slot && same_number a.src b.src) (same_number a.tgt b.tgt) h in
    let (slot, src) = both (same_number a.slot b.slot) (same_number a.src b.src) pair in
    (same_number-true _ _ slot, same_number-true _ _ src, same_number-true _ _ tgt)

SameParties-true : (a b : VoiceRow) → SameParties a b → same_session a b ≡ true
unfolding same_session
SameParties-true a b (slot, src, tgt) =
    rw (slot, src, tgt, same_number_self b.slot, same_number_self b.src, same_number_self b.tgt)
      refl

last-snoc : (f g : Frame) (fs : List Frame) → last f (fs ++ g ∷ []) ≡ g
unfolding last
last-snoc f g [] = refl
last-snoc f g (x ∷ fs) = last-snoc x g fs

length-snoc : (g : Frame) (fs : List Frame) → length (fs ++ g ∷ []) ≡ length fs + 1
length-snoc g [] = refl
length-snoc g (x ∷ fs) = omega (arith, length-snoc g fs)

session_of-snoc :
    (f g : Frame) (fs : List Frame) → extend (session_of (f, fs)) g.0 ≡ session_of (f, fs ++ g ∷ [])
unfolding session_of extend
session_of-snoc f g fs = rw (last-snoc f g fs, length-snoc g fs) refl

Runs-snoc :
    (f before g : Frame) (fs : List Frame)
    → Runs f before fs
    → SameParties f.1 g.1
    → g.0 ≤ (last before fs).0 + call_gap
    → Runs f before (fs ++ g ∷ [])
unfolding last
Runs-snoc f before g [] r same near = (same, near, tt)
Runs-snoc f before g (x ∷ fs) (p, q, r) same near = (p, q, Runs-snoc f x g fs r same near)

-- a row that continues a session, and one that does not
continues-Runs :
    (f : Frame) (fs : List Frame) (row : VoiceRow) (ts : ℕ)
    → continues (session_of (f, fs)) row ts ≡ true
    → SameParties f.1 row × (ts ≤ (last f fs).0 + call_gap)
unfolding continues session_of
continues-Runs f fs row ts h =
    let (same, near) = both (same_session f.1 row) (leb ts ((last f fs).0 + call_gap)) h in
    (same_session-true f.1 row same, leb→le _ _ near)

continues-Apart :
    (f : Frame) (fs : List Frame) (row : VoiceRow) (ts : ℕ)
    → continues (session_of (f, fs)) row ts ≡ false
    → Apart (f, fs) ((ts, row), [])
unfolding continues session_of
continues-Apart f fs row ts h = elim (Bool-cases (same_session f.1 row)) [
  | inl b ↦ inr (leb→gt _ _ (cc (rw b at h)))
  | inr b ↦ inl (λ same. cc (b, SameParties-true f.1 row same))
]

-- the first group of the sessions from a group on begins as that does
abbrev FromGroup : Frame → List Session → List Frame → Type 0
FromGroup f ss frames = (fs : List Frame) × (gs : List Group) × Grouped ss frames ((f, fs) ∷ gs)

sessions_from-Grouped :
    (f : Frame) (fs : List Frame) (rows : List VoiceRow)
    → IsRun (f, fs)
    → FromGroup f (sessions_from (session_of (f, fs)) rows) ((f ∷ fs) ++ frames_of rows)
unfolding sessions_from frames_of all_frames session_of
sessions_from-Grouped f fs [] r = (fs, [], (refl, refl, (r, tt), tt))
sessions_from-Grouped f fs (row ∷ rows) r = elim (Option-cases row.timestamp) [
  | inl e ↦ rw (e, sessions_from, frames_of) (sessions_from-Grouped f fs rows r)
  | inr (ts, e) ↦ elim (Bool-cases (continues (session_of (f, fs)) row ts)) [
    | inl c ↦
        let (same, near) = continues-Runs f fs row ts c in
        let longer = fs ++ (ts, row) ∷ [] in
        let rest : FromGroup f (sessions_from (extend (session_of (f, fs)) ts) rows)
            ((f ∷ longer) ++ frames_of rows) =
          rw (session_of-snoc f (ts, row) fs)
            (sessions_from-Grouped f longer rows (Runs-snoc f f (ts, row) fs r same near)) in
        rw (e, c, sessions_from, frames_of)
          (subst (FromGroup f (sessions_from (extend (session_of (f, fs)) ts) rows))
            (append_assoc (f ∷ fs) ((ts, row) ∷ []) (frames_of rows)) rest)
    | inr c ↦
        let (gs, others, (whole, told, runs, apart)) = sessions_from-Grouped (ts, row) [] rows tt in
        rw (e, c, sessions_from, frames_of)
          (
            fs,
            ((ts, row), gs) ∷ others,
            (
              ap (λ x. (f ∷ fs) ++ x) whole,
              ap (λ x. session_of (f, fs) ∷ x) told,
              (r, runs),
              (continues-Apart f fs row ts c, apart),
            ),
          )
  ]
]

-- The sessions stand for groups that the rows whose time stamp parses split into, in their order: a
-- session has the first row, the first and the last time and the number of the frames of its group.
-- The frames of a group have one slot, source and target, and each begins at most the gap after the
-- one before it. The group after it begins with another slot or other parties, or more than the gap
-- after its last frame.
pub sessions-Grouped :
    (rows : List VoiceRow) → (gs : List Group) × Grouped (sessions rows) (frames_of rows) gs
unfolding sessions frames_of all_frames session_of
sessions-Grouped [] = ([], (refl, refl, tt, tt))
sessions-Grouped (row ∷ rows) = elim (Option-cases row.timestamp) [
  | inl e ↦ rw (e, sessions, frames_of) (sessions-Grouped rows)
  | inr (ts, e) ↦
      let (fs, gs, grouped) = sessions_from-Grouped (ts, row) [] rows tt in
      rw (e, sessions, frames_of) (((ts, row), fs) ∷ gs, grouped)
]
