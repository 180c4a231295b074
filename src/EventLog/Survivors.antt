-- ===== src/EventLog/Survivors.antt =====
-- backend/event_log.py: what the first pass of the rewrite of a file keeps, and where the second begins.
use dmr_decrep_shahar.Prelude.{
  ℕ, ◌+◌, ◌-◌, Bool, false, List, [], ◌∷◌, ◌++◌, filter, ltb, leb, ltb→lt, ltb→ge, ◌≤◌,
  if◌then◌else◌, ◌≡◌, refl, arith, inl, inr, Bool-cases, All,
}
use dmr_decrep_shahar.Models.{Event}
use dmr_decrep_shahar.EventLog.{Line, event_line, junk}
use dmr_decrep_shahar.EventLog.Retention.{stored_size, read_size, file_size, survivors, lines_after}

-- the line is an event that is not older than the cutoff
unfoldable pub is_recent : ℕ → Line → Bool
is_recent cutoff (junk stored read) = false
is_recent cutoff (event_line ev) = leb cutoff ev.timestamp

-- no bytes of the line are replaced when it is read
abbrev pub ReadsBack : Line → Type 0
ReadsBack (event_line ev) = Unit
ReadsBack (junk stored read) = read ≡ stored

either_way :
    (a b : ℕ) (xs ys : List Line) → (if ltb a b then xs else ys) ≡ (if leb b a then ys else xs)
either_way a b xs ys = grind arith

module _ (event_bytes : Event → ℕ) where
  read_size-ReadsBack :
      (line : Line) → ReadsBack line → read_size event_bytes line ≡ stored_size event_bytes line
  unfolding read_size stored_size
  read_size-ReadsBack (event_line ev) r = refl
  read_size-ReadsBack (junk stored read) r = rw r refl

  stored_size_positive : (line : Line) → 1 ≤ stored_size event_bytes line
  unfolding stored_size
  stored_size_positive (event_line ev) = omega arith
  stored_size_positive (junk stored read) = omega arith

  read_size_positive : (line : Line) → 1 ≤ read_size event_bytes line
  unfolding read_size
  read_size_positive (event_line ev) = omega arith
  read_size_positive (junk stored read) = omega arith

  pub lines_after-append :
      (xs ys : List Line) → lines_after event_bytes (file_size event_bytes xs) (xs ++ ys) ≡ ys
  unfolding lines_after file_size stored_size
  lines_after-append [] [] = refl
  lines_after-append [] (y ∷ ys) = refl
  lines_after-append (x ∷ xs) ys =
      let size = stored_size event_bytes x in
      let left : size + file_size event_bytes xs - size ≡ file_size event_bytes xs = omega arith in
      elim (Bool-cases (ltb 0 (size + file_size event_bytes xs))) [
        | inl b ↦ rw (b, left) (lines_after-append xs ys)
        | inr b ↦ absurd (omega (arith, ltb→ge _ _ b, stored_size_positive x))
      ]

  -- the first pass reads the lines that the file had when its size was taken, and no others
  pub survivors-filter :
      (cutoff size seen : ℕ) (xs ys : List Line)
      → All ReadsBack xs
      → seen + file_size event_bytes xs ≡ size
      → survivors event_bytes cutoff size seen (xs ++ ys) ≡ filter (is_recent cutoff) xs
  unfolding survivors file_size is_recent read_size stored_size
  survivors-filter cutoff size seen [] [] r e = refl
  survivors-filter cutoff size seen [] (y ∷ ys) r e =
      elim (Bool-cases (ltb size (seen + read_size event_bytes y))) [
        | inl b ↦ rw b refl
        | inr b ↦ absurd (omega (arith, ltb→ge _ _ b, read_size_positive y))
      ]
  survivors-filter cutoff size seen (event_line ev ∷ xs) ys r e =
      let read = seen + (event_bytes ev + 1) in
      let inside : survivors event_bytes cutoff size read (xs ++ ys)
          ≡ filter (is_recent cutoff) xs =
        survivors-filter cutoff size read xs ys r.1 (omega (arith, e)) in
      elim (Bool-cases (ltb size read)) [
        | inl b ↦ absurd (omega (arith, ltb→lt _ _ b, e))
        | inr b ↦ rw (b, inside) (either_way ev.timestamp cutoff _ _)
      ]
  survivors-filter cutoff size seen (junk stored length ∷ xs) ys r e =
      let read = seen + (length + 1) in
      let inside : survivors event_bytes cutoff size read (xs ++ ys)
          ≡ filter (is_recent cutoff) xs =
        survivors-filter cutoff size read xs ys r.1 (omega (arith, e, r.0)) in
      elim (Bool-cases (ltb size read)) [
        | inl b ↦ absurd (omega (arith, ltb→lt _ _ b, e, r.0))
        | inr b ↦ rw (b, inside) refl
      ]
