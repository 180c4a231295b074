-- ===== src/Scheduler/Budget.antt =====
-- backend/rf/scheduler.py: the cap on active decoders, and the order in which it is filled.
use dmr_decrep_shahar.Prelude.{
  string_key, ℕ, ◌+◌, ◌-◌, ◌≤◌, max, String, true, false, Option, some, List, [], ◌∷◌, map, ◌≡◌, ap,
  arith, ◌⊎◌, inl, inr, Member, All-Member, length, ltb, leb, contains, Bool-cases, Member-map,
  length-append,
}
use dmr_decrep_shahar.Sort.{Ordered, sorted-Ordered, Member-sorted}
use dmr_decrep_shahar.Scheduler.{
  Scheduler, add, add_all, newest_first, collect_hang, within_hang, fill, or_else, reference_now,
  active_at, active_labels,
}
use dmr_decrep_shahar.Scheduler.Active.{
  add-Member, Member-add, add_all-Member, fill-kept, active_at-cases, Heard-within_hang,
  Member-collect_hang,
}

-- the first pair is not older
abbrev pub Newer : ℕ × String → ℕ × String → Type 0
Newer a b = b.0 ≤ a.0

newest_first-Newer : (a b : ℕ × String) → newest_first a b ≡ true → Newer a b
unfolding newest_first
newest_first-Newer (t, l) (u, m) h = ground arith

newest_first-Older : (a b : ℕ × String) → newest_first a b ≡ false → Newer b a
unfolding newest_first
newest_first-Older (t, l) (u, m) h = ground arith

within_hang-Ordered : (s : Scheduler) (ts : ℕ) → Ordered Newer (within_hang s ts)
unfolding within_hang
within_hang-Ordered s ts =
    sorted-Ordered newest_first Newer newest_first-Newer newest_first-Older
      (λ a b c h k. omega (arith, h, k)) (collect_hang s.hang ts s.last_active)

length-add : (xs : List String) (x : String) → length (add xs x) ≤ length xs + 1
unfolding add
length-add xs x = elim (Bool-cases (contains xs x)) [
  | inl e ↦ rw e (omega arith)
  | inr e ↦ rw e (omega (arith, length-append xs (x ∷ [])))
]

length-fill :
    (budget : ℕ) (kept : List String) (es : List (ℕ × String))
    → length kept ≤ budget
    → length (fill budget kept es) ≤ budget
unfolding fill
length-fill budget kept [] h = h
length-fill budget kept ((t, l) ∷ es) h = elim (Bool-cases (leb budget (length kept))) [
  | inl e ↦ rw e h
  | inr e ↦
      let room : length (add kept l) ≤ budget = ground (arith, length-add kept l) in
      rw e (length-fill budget (add kept l) es room)
]

-- The cap holds: at most `max_active` channels are active, or the control channels alone if there
-- are more of those.
pub length-active_labels :
    (s : Scheduler) (now : Option ℕ) (wall cap_size : ℕ)
    → s.max_active ≡ some cap_size
    → length (active_labels s now wall) ≤ max cap_size (length s.control)
unfolding active_labels active_at
length-active_labels s now wall cap_size h =
    let ts = or_else now (reference_now s.last_active wall) in
    let fresh = within_hang s ts in
    let active = add_all s.control (map (λ e. e.1) fresh) in
    let full : length (fill (max cap_size (length s.control)) s.control fresh)
        ≤ max cap_size (length s.control) =
      length-fill (max cap_size (length s.control)) s.control fresh (omega arith) in
    elim (Bool-cases (ltb cap_size (length active))) [
      | inl b ↦ rw (h, b) full
      | inr b ↦ rw (h, b) (ground arith)
    ]

-- what the loop leaves out is not newer than what it takes, and it fills the budget first
fill-freshest :
    (budget : ℕ) (kept : List String) (es : List (ℕ × String)) (t : ℕ) (l m : String)
    → Ordered Newer es
    → Member (t, l) es
    → ¬ Member l (fill budget kept es)
    → Member m (fill budget kept es)
    → (budget ≤ length (fill budget kept es))
      × (Member m kept ⊎ ((u : ℕ) × Member (u, m) es × (t ≤ u)))
unfolding fill
fill-freshest budget kept [] t l m o e n k = elim e [ ]
fill-freshest budget kept ((u, x) ∷ es) t l m o e n k =
    elim (Bool-cases (leb budget (length kept))) [
      | inl b ↦ rw b ((ground arith), inl (rw b at k))
      | inr b ↦
          let out : ¬ Member l (fill budget (add kept x) es) = rw b at n in
          elim e [
            | inl p ↦ absurd (
                out (
                  fill-kept l budget (add kept x) es (add-Member l kept x (inr (ap (λ y. y.1) p)))))
            | inr q ↦
                let (big, from) =
                  fill-freshest budget (add kept x) es t l m o.1 q out (rw b at k) in
                rw b (
                  big,
                  elim from [
                    | inl a ↦ elim (Member-add m kept x a) [
                      | inl c ↦ inl c
                      | inr p ↦ inr (u, inl (ap (λ y. (u, y)) p), All-Member _ es (t, l) o.0 q)
                    ]
                    | inr (v, d, le) ↦ inr (v, inr d, le)
                  ],
                )
          ]
    ]

-- If a channel heard within the hang time is not active while another one is, then there is a cap, the
-- active channels use all of its budget, and the other one is a control channel or was heard at the
-- same time or later.
pub active_labels-freshest :
    (s : Scheduler) (now : Option ℕ) (wall t : ℕ) (l m : String)
    → Member (l, t) s.last_active
    → or_else now (reference_now s.last_active wall) - t ≤ s.hang
    → ¬ Member l (active_labels s now wall)
    → Member m (active_labels s now wall)
    → (n : ℕ) × (s.max_active ≡ some n)
      × (max n (length s.control) ≤ length (active_labels s now wall))
      × (Member m s.control ⊎ ((u : ℕ) × Member (m, u) s.last_active × (t ≤ u)))
unfolding active_labels within_hang
active_labels-freshest s now wall t l m e h n k =
    let ts = or_else now (reference_now s.last_active wall) in
    let fresh = within_hang s ts in
    let inside : Member (t, l) fresh = Heard-within_hang s ts l t e h in
    elim (active_at-cases s ts) [
      | inl q ↦ absurd (
          (rw q at n) (
            add_all-Member l s.control (map (λ e. e.1) fresh)
              (inr (Member-map (λ (e : ℕ × String). e.1) (t, l) fresh inside))))
      | inr (c, some_c, q) ↦
          let (big, from) =
            fill-freshest (max c (length s.control)) s.control fresh t l m
              (within_hang-Ordered s ts) inside (rw q at n) (rw q at k) in
          (
            c,
            some_c,
            (rw q big),
            elim from [
              | inl a ↦ inl a
              | inr (u, d, le) ↦
                  let sorted_d = Member-sorted newest_first (u, m) _ d in
                  let (entry, _) = Member-collect_hang s.hang ts s.last_active u m sorted_d in
                  inr (u, entry, le)
            ],
          )
    ]
