-- ===== src/Scheduler/Active.antt =====
-- backend/rf/scheduler.py: the labels that `active_labels` chooses.
use dmr_decrep_shahar.Prelude.{
  string_key, ℕ, ◌-◌, ◌≤◌, max, String, Option, some, List, [], ◌∷◌, map, ◌≡◌, refl, ap, arith, ◌⊎◌,
  inl, inr, Member, Member-append, Member-append_left, Member-append_right, length, ltb, leb,
  contains, Member-contains, Bool-cases, Option-cases,
}
use dmr_decrep_shahar.Dict.{Dict}
use dmr_decrep_shahar.Sort.{sorted-Member, Member-sorted}
use dmr_decrep_shahar.Scheduler.{
  Scheduler, add, add_all, newest_first, collect_hang, within_hang, fill, or_else, reference_now,
  active_at, active_labels,
}

module _ (z : String) where
  pub add-Member : (xs : List String) (x : String) → Member z xs ⊎ (z ≡ x) → Member z (add xs x)
  unfolding add
  add-Member xs x m = elim (Bool-cases (contains xs x)) [
    | inl e ↦ rw e (elim m [ inl l ↦ l | inr p ↦ rw p (Member-contains xs x e) ])
    | inr e ↦ rw e (elim m [
      | inl l ↦ Member-append_left z xs (x ∷ []) l
      | inr p ↦ Member-append_right z xs (x ∷ []) (inl p)
    ])
  ]

  pub Member-add : (xs : List String) (x : String) → Member z (add xs x) → Member z xs ⊎ (z ≡ x)
  unfolding add
  Member-add xs x m = elim (Bool-cases (contains xs x)) [
    | inl e ↦ inl (rw e at m)
    | inr e ↦ ground (arith, Member-append z xs (x ∷ []) (rw e at m))
  ]

  pub add_all-Member : (xs ys : List String) → Member z xs ⊎ Member z ys → Member z (add_all xs ys)
  unfolding add_all
  add_all-Member xs [] m = ground arith
  add_all-Member xs (y ∷ ys) (inl m) = add_all-Member (add xs y) ys (inl (add-Member xs y (inl m)))
  add_all-Member xs (y ∷ ys) (inr (inl p)) =
      add_all-Member (add xs y) ys (inl (add-Member xs y (inr p)))
  add_all-Member xs (y ∷ ys) (inr (inr m)) = add_all-Member (add xs y) ys (inr m)

  pub Member-add_all : (xs ys : List String) → Member z (add_all xs ys) → Member z xs ⊎ Member z ys
  unfolding add_all
  Member-add_all xs [] m = inl m
  Member-add_all xs (y ∷ ys) m = elim (Member-add_all (add xs y) ys m) [
    | inl l ↦ elim (Member-add xs y l) [ inl a ↦ inl a | inr p ↦ inr (inl p) ]
    | inr r ↦ inr (inr r)
  ]

  pub fill-kept :
      (budget : ℕ) (kept : List String) (es : List (ℕ × String))
      → Member z kept
      → Member z (fill budget kept es)
  unfolding fill
  fill-kept budget kept [] m = m
  fill-kept budget kept ((t, l) ∷ es) m = elim (Bool-cases (leb budget (length kept))) [
    | inl e ↦ rw e m
    | inr e ↦ rw e (fill-kept budget (add kept l) es (add-Member kept l (inl m)))
  ]

  pub Member-fill :
      (budget : ℕ) (kept : List String) (es : List (ℕ × String))
      → Member z (fill budget kept es)
      → Member z kept ⊎ Member z (map (λ e. e.1) es)
  unfolding fill
  Member-fill budget kept [] m = inl m
  Member-fill budget kept ((t, l) ∷ es) m = elim (Bool-cases (leb budget (length kept))) [
    | inl e ↦ inl (rw e at m)
    | inr e ↦ elim (Member-fill budget (add kept l) es (rw e at m)) [
      | inl a ↦ elim (Member-add kept l a) [ inl b ↦ inl b | inr p ↦ inr (inl p) ]
      | inr b ↦ inr (inr b)
    ]
  ]

pub Member-collect_hang :
    (hang ts : ℕ) (last : Dict String ℕ) (t : ℕ) (l : String)
    → Member (t, l) (collect_hang hang ts last)
    → Member (l, t) last × (ts - t ≤ hang)
unfolding collect_hang
Member-collect_hang hang ts [] t l m = elim m [ ]
Member-collect_hang hang ts ((label, u) ∷ last) t l m =
    ground (arith, Member-collect_hang hang ts last t l)

pub collect_hang-Member :
    (hang ts : ℕ) (last : Dict String ℕ) (t : ℕ) (l : String)
    → Member (l, t) last
    → ts - t ≤ hang
    → Member (t, l) (collect_hang hang ts last)
unfolding collect_hang
collect_hang-Member hang ts [] t l m h = elim m [ ]
collect_hang-Member hang ts ((label, u) ∷ last) t l m h =
    ground (arith, collect_hang-Member hang ts last t l)

pub Member-map_label :
    (es : List (ℕ × String)) (l : String)
    → Member l (map (λ e. e.1) es)
    → (t : ℕ) × Member (t, l) es
Member-map_label [] l m = elim m [ ]
Member-map_label ((t, k) ∷ es) l (inl e) = (t, inl (ap (λ x. (t, x)) e))
Member-map_label ((t, k) ∷ es) l (inr m) = let (u, n) = Member-map_label es l m in (u, inr n)

-- the label was heard at most the hang time before
abbrev pub Heard : Scheduler → ℕ → String → Type 0
Heard s ts l = (t : ℕ) × Member (l, t) s.last_active × (ts - t ≤ s.hang)

pub within_hang-Heard :
    (s : Scheduler) (ts : ℕ) (l : String)
    → Member l (map (λ e. e.1) (within_hang s ts))
    → Heard s ts l
unfolding within_hang
within_hang-Heard s ts l m =
    let (t, n) = Member-map_label _ l m in
    let (entry, recent) =
      Member-collect_hang s.hang ts s.last_active t l (Member-sorted newest_first (t, l) _ n) in
    (t, entry, recent)

pub Heard-within_hang :
    (s : Scheduler) (ts : ℕ) (l : String) (t : ℕ)
    → Member (l, t) s.last_active
    → ts - t ≤ s.hang
    → Member (t, l) (within_hang s ts)
unfolding within_hang
Heard-within_hang s ts l t m h =
    sorted-Member newest_first (t, l) _ (collect_hang-Member s.hang ts s.last_active t l m h)

-- what `active_at` returns: all, or what fills the budget
pub active_at-cases :
    (s : Scheduler) (ts : ℕ)
    → (active_at s ts ≡ add_all s.control (map (λ e. e.1) (within_hang s ts)))
      ⊎ ((n : ℕ) × (s.max_active ≡ some n)
          × (active_at s ts ≡ fill (max n (length s.control)) s.control (within_hang s ts)))
unfolding active_at
active_at-cases s ts = elim (Option-cases s.max_active) [
  | inl e ↦ inl (rw e refl)
  | inr (n, e) ↦
      elim (Bool-cases (ltb n (length (add_all s.control (map (λ e. e.1) (within_hang s ts)))))) [
        | inl b ↦ inr (n, e, (rw (e, b) refl))
        | inr b ↦ inl (rw (e, b) refl)
      ]
]

-- A label is active only if it is a control channel or was heard within the hang time of the given
-- moment, or of the latest activity if none is given.
pub active_labels-Heard :
    (s : Scheduler) (now : Option ℕ) (wall : ℕ) (l : String)
    → Member l (active_labels s now wall)
    → Member l s.control ⊎ Heard s (or_else now (reference_now s.last_active wall)) l
unfolding active_labels
active_labels-Heard s now wall l m =
    let ts = or_else now (reference_now s.last_active wall) in
    elim (active_at-cases s ts) [
      | inl e ↦ elim (Member-add_all l s.control _ (rw e at m)) [
        | inl c ↦ inl c
        | inr h ↦ inr (within_hang-Heard s ts l h)
      ]
      | inr (n, _, e) ↦ elim (Member-fill l _ s.control _ (rw e at m)) [
        | inl c ↦ inl c
        | inr h ↦ inr (within_hang-Heard s ts l h)
      ]
    ]

-- Every control channel is active, whatever the cap.
pub active_labels-control :
    (s : Scheduler) (now : Option ℕ) (wall : ℕ) (l : String)
    → Member l s.control
    → Member l (active_labels s now wall)
unfolding active_labels
active_labels-control s now wall l c =
    let ts = or_else now (reference_now s.last_active wall) in
    elim (active_at-cases s ts) [
      | inl e ↦ rw e (add_all-Member l s.control (map (λ e. e.1) (within_hang s ts)) (inl c))
      | inr (n, _, e) ↦ rw e (fill-kept l _ s.control _ c)
    ]
