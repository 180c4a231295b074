-- ===== src/EventIndex/Pruning.antt =====
-- backend/event_index.py: the loop that deletes old rows in chunks.
use Prim.Native.Nat.{zero, suc}
use dmr_decrep_shahar.Prelude.{
  ℕ, ◌+◌, ◌-◌, ◌≤◌, ◌<◌, min, Bool, false, not, Option, some, List, [], ◌∷◌, ◌++◌, length, ltb,
  ◌==◌, ◌≡◌, refl, sym, ap, ◌∙◌, arith, inl, inr, Bool-cases, ltb→lt, ltb→ge, filter,
  length-filter-le, append-nil,
}
use dmr_decrep_shahar.EventIndex.{
  EventIndex, Row, all_rows, commit, delete_first, prune_chunks, prune_where,
  prune_index_older_than, prune_index_days,
}

module _ {ℓ} {A : Type ℓ} (stale : A → Bool) where
  abbrev stales : List A → ℕ
  stales xs = length (filter stale xs)

  abbrev fresh : List A → List A
  fresh xs = filter (λ x. not (stale x)) xs

  length-delete_first :
      (n : ℕ) (xs : List A) → length (delete_first stale n xs) + min n (stales xs) ≡ length xs
  unfolding delete_first
  length-delete_first zero [] = omega arith
  length-delete_first (suc n) [] = omega arith
  length-delete_first zero (x ∷ xs) = omega arith
  length-delete_first (suc n) (x ∷ xs) = elim (Bool-cases (stale x)) [
    | inl b ↦ rw b (omega (arith, length-delete_first n xs))
    | inr b ↦ rw b (omega (arith, length-delete_first (suc n) xs))
  ]

  fresh-delete_first : (n : ℕ) (xs : List A) → fresh (delete_first stale n xs) ≡ fresh xs
  unfolding delete_first
  fresh-delete_first zero [] = refl
  fresh-delete_first (suc n) [] = refl
  fresh-delete_first zero (x ∷ xs) = refl
  fresh-delete_first (suc n) (x ∷ xs) = elim (Bool-cases (stale x)) [
    | inl b ↦ rw b (fresh-delete_first n xs)
    | inr b ↦ rw (b, b) (ap (◌∷◌ x) (fresh-delete_first (suc n) xs))
  ]

  stales-delete_first : (n : ℕ) (xs : List A) → stales (delete_first stale n xs) ≡ stales xs - n
  unfolding delete_first
  stales-delete_first zero [] = omega arith
  stales-delete_first (suc n) [] = omega arith
  stales-delete_first zero (x ∷ xs) = omega arith
  stales-delete_first (suc n) (x ∷ xs) = elim (Bool-cases (stale x)) [
    | inl b ↦ rw b (omega (arith, stales-delete_first n xs))
    | inr b ↦ rw (b, b) (stales-delete_first (suc n) xs)
  ]

  fresh-all : (xs : List A) → stales xs ≡ 0 → fresh xs ≡ xs
  fresh-all [] h = refl
  fresh-all (x ∷ xs) h = elim (Bool-cases (stale x)) [
    | inl b ↦ absurd (omega (arith, rw b at h))
    | inr b ↦ rw b (ap (◌∷◌ x) (fresh-all xs (rw b at h)))
  ]

  -- a chunk that is large enough deletes all
  delete_first-all : (n : ℕ) (xs : List A) → stales xs ≤ n → delete_first stale n xs ≡ fresh xs
  delete_first-all n xs le =
      sym (fresh-all (delete_first stale n xs) (omega (arith, stales-delete_first n xs, le)))
      ∙ fresh-delete_first n xs

-- the open index when all its rows are committed
abbrev pub at_rest : ℕ → List Row → EventIndex
at_rest now xs = record {
  committed = xs;
  pending = [];
  last_commit = now;
  timer = false;
  closed = false;
}

-- what is deleted in one pass
removed-delete_first :
    (stale : Row → Bool) (chunk : ℕ) (xs : List Row)
    → length xs - length (delete_first stale chunk xs) ≡ min chunk (stales stale xs)
removed-delete_first stale chunk xs = omega (arith, length-delete_first stale chunk xs)

-- a loop that has ended, with the rows that are left and the number of those that are gone
abbrev pub ended : ℕ → List Row → ℕ → Option (EventIndex × ℕ)
ended now xs n = some (at_rest now xs, n)

ended_lem :
    (now : ℕ) (xs ys : List Row) (m n : ℕ) → xs ≡ ys → m ≡ n → ended now xs m ≡ ended now ys n
ended_lem now xs ys m n e h = ap (λ zs. ended now zs m) e ∙ ap (ended now ys) h

prune_chunks-all :
    (fuel : ℕ) (stale : Row → Bool) (chunk now : ℕ) (x : EventIndex) (total : ℕ)
    → 0 < chunk
    → x.closed ≡ false
    → stales stale (all_rows x) < fuel
    → prune_chunks fuel stale chunk now x total
      ≡ ended now (fresh stale (all_rows x)) (total + stales stale (all_rows x))
unfolding prune_chunks commit
prune_chunks-all zero stale chunk now x total most o lt = absurd (omega (arith, lt))
prune_chunks-all (suc fuel) stale chunk now x total most o lt =
    let xs = all_rows x in
    let kept = delete_first stale chunk xs in
    let removed = length xs - length kept in
    let count : removed ≡ min chunk (stales stale xs) = removed-delete_first stale chunk xs in
    let all : stales stale xs ≤ chunk → kept ≡ fresh stale xs = delete_first-all stale chunk xs in
    elim (Bool-cases (removed == 0)) [
      | inl b ↦
          let left : stales stale xs ≡ 0 = grind (arith, count, b, most) in
          rw (o, b)
            (ended_lem now kept (fresh stale xs) _ _ (all (omega (arith, left)))
              (omega (arith, left)))
      | inr b ↦ elim (Bool-cases (ltb removed chunk)) [
        | inl c ↦
            let less : removed < chunk = ltb→lt removed chunk c in
            rw (o, b, c)
              (ended_lem now kept (fresh stale xs) _ _ (all (omega (arith, count, less)))
                (omega (arith, count, less)))
        | inr c ↦
            let full : removed ≡ chunk = omega (arith, count, ltb→ge removed chunk c) in
            let left : stales stale (kept ++ []) ≡ stales stale xs - chunk =
              ap (stales stale) (append-nil kept) ∙ stales-delete_first stale chunk xs in
            let same : fresh stale (kept ++ []) ≡ fresh stale xs =
              ap (fresh stale) (append-nil kept) ∙ fresh-delete_first stale chunk xs in
            rw (o, b, c)
              (prune_chunks-all fuel stale chunk now (at_rest now kept) (total + removed) most refl
                  (omega (arith, left, lt, most, count, full))
                ∙ ended_lem now (fresh stale (kept ++ [])) (fresh stale xs) _ _ same
                    (omega (arith, left, count, full)))
      ]
    ]

prune_where-all :
    (stale : Row → Bool) (chunk now : ℕ) (x : EventIndex)
    → 0 < chunk
    → x.closed ≡ false
    → prune_where stale chunk now x
      ≡ ended now (fresh stale (all_rows x)) (stales stale (all_rows x))
unfolding prune_where
prune_where-all stale chunk now x most o =
    prune_chunks-all (length (all_rows x) + 1) stale chunk now x 0 most o
      (omega (arith, length-filter-le stale (all_rows x)))
    ∙ ended_lem now (fresh stale (all_rows x)) (fresh stale (all_rows x)) _ _ refl (omega arith)

-- For chunks of at least one row, the loop over the chunks of an open index ends, by time and by day: it
-- leaves, committed, exactly the rows that are not older than the cutoff, in their order, and
-- returns how many it has deleted.
pub prune_index-all :
    (cutoff chunk now : ℕ) (x : EventIndex)
    → 0 < chunk
    → x.closed ≡ false
    → (prune_index_older_than cutoff chunk now x
        ≡ ended now
            (filter (λ row. not (ltb row.ts cutoff)) (all_rows x))
            (length (filter (λ row. ltb row.ts cutoff) (all_rows x))))
      × (prune_index_days cutoff chunk now x
          ≡ ended now
              (filter (λ row. not (ltb row.day cutoff)) (all_rows x))
              (length (filter (λ row. ltb row.day cutoff) (all_rows x))))
unfolding prune_index_older_than prune_index_days
prune_index-all cutoff chunk now x most o = (
  prune_where-all (λ row. ltb row.ts cutoff) chunk now x most o,
  prune_where-all (λ row. ltb row.day cutoff) chunk now x most o,
)
