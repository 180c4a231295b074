-- ===== src/Scheduler/Laws.antt =====
-- backend/rf/scheduler.py: the record of last activity, under events and measured powers.
use dmr_decrep_shahar.Prelude.{
  nat_key, string_key, ℕ, ◌≤◌, max, String, Option, none, some, List, [], ◌∷◌, ◌≡◌, ◌≢◌, ◌∙◌, refl,
  ap, arith, inl, inr, Member, ltb, ite, if_pos, if_neg, String_discrete, Bool-cases, Option-cases,
  Nowhere,
}
use dmr_decrep_shahar.Dict.{Dict, get, keys}
use dmr_decrep_shahar.Dict.Laws.{get-put_self, get-put_ne}
use dmr_decrep_shahar.Models.{Event, Body, LsnState, lsn_status, bank_call}
use dmr_decrep_shahar.Scheduler.{
  Scheduler, bump, bump_states, bump_bank, bump_grants, is_traffic, on_event, or_else,
}

-- the label was active at the time `t` or later
abbrev pub SeenBy : Dict String ℕ → String → ℕ → Type 0
SeenBy last l t = (u : ℕ) × (get last l ≡ some u) × (t ≤ u)

latest : Option ℕ → ℕ → ℕ
latest none ts = ts
latest (some prev) ts = max prev ts

bump_self :
    (last : Dict String ℕ) (l : String) (ts : ℕ)
    → get (bump last (some l) ts) l ≡ some (latest (get last l) ts)
unfolding bump latest
bump_self last l ts = elim (Option-cases (get last l)) [
  | inl g ↦ rw (g, bump) (get-put_self last l ts)
  | inr (prev, g) ↦ elim (Bool-cases (ltb prev ts)) [
    | inl b ↦
        let up : ts ≡ max prev ts = ground arith in
        rw (g, b, bump) (get-put_self last l ts ∙ ap some up)
    | inr b ↦ let up : prev ≡ max prev ts = ground arith in rw (g, b, bump) (g ∙ ap some up)
  ]
]

bump-other :
    (last : Dict String ℕ) (l z : String) (ts : ℕ)
    → l ≢ z
    → get (bump last (some l) ts) z ≡ get last z
unfolding bump
bump-other last l z ts n = elim (Option-cases (get last l)) [
  | inl g ↦ rw (g, bump) (get-put_ne last l z ts n)
  | inr (prev, g) ↦ elim (Bool-cases (ltb prev ts)) [
    | inl b ↦ rw (g, b, bump) (get-put_ne last l z ts n)
    | inr b ↦ rw (g, b, bump) refl
  ]
]

pub bump-SeenBy :
    (last : Dict String ℕ) (label : Option String) (l : String) (ts t : ℕ)
    → SeenBy last l t
    → SeenBy (bump last label ts) l t
unfolding bump latest
bump-SeenBy last none l ts t h = h
bump-SeenBy last (some label) l ts t (u, e, le) = elim (String_discrete label l) [
  | yes p ↦
      let now : get (bump last (some l) ts) l ≡ some (max u ts) =
        bump_self last l ts ∙ ap (λ o. some (latest o ts)) e in
      rw p (max u ts, now, omega (arith, le))
  | no n ↦ (u, (bump-other last label l ts n ∙ e), le)
]

pub bump-seen : (last : Dict String ℕ) (l : String) (ts : ℕ) → SeenBy (bump last (some l) ts) l ts
unfolding latest
bump-seen last l ts = elim (Option-cases (get last l)) [
  | inl g ↦ (ts, (bump_self last l ts ∙ ap (λ o. some (latest o ts)) g), omega arith)
  | inr (prev, g) ↦
      (max prev ts, (bump_self last l ts ∙ ap (λ o. some (latest o ts)) g), omega arith)
]

bump_states-SeenBy :
    (labels : Dict ℕ String) (last : Dict String ℕ) (states : List LsnState) (l : String) (ts t : ℕ)
    → SeenBy last l t
    → SeenBy (bump_states labels last states ts) l t
unfolding bump_states
bump_states-SeenBy labels last [] l ts t h = h
bump_states-SeenBy labels last (s ∷ states) l ts t h = elim (String_discrete s.state "Active") [
  | yes p ↦ rw (if_pos _ p) (
      bump_states-SeenBy labels (bump last (get labels s.lsn) ts) states l ts t
        (bump-SeenBy last (get labels s.lsn) l ts t h))
  | no p ↦ rw (if_neg _ p) (bump_states-SeenBy labels last states l ts t h)
]

bump_bank-SeenBy :
    (labels : Dict ℕ String) (last : Dict String ℕ) (lsns : List ℕ) (l : String) (ts t : ℕ)
    → SeenBy last l t
    → SeenBy (bump_bank labels last lsns ts) l t
unfolding bump_bank
bump_bank-SeenBy labels last [] l ts t h = h
bump_bank-SeenBy labels last (lsn ∷ lsns) l ts t h =
    bump_bank-SeenBy labels (bump last (get labels lsn) ts) lsns l ts t
      (bump-SeenBy last (get labels lsn) l ts t h)

bump_grants-SeenBy :
    (labels : Dict ℕ String) (last : Dict String ℕ) (body : Body) (l : String) (ts t : ℕ)
    → SeenBy last l t
    → SeenBy (bump_grants labels last body ts) l t
unfolding bump_grants
bump_grants-SeenBy labels last (lsn_status states) l ts t h =
    bump_states-SeenBy labels last states l ts t h
bump_grants-SeenBy labels last (bank_call b) l ts t h =
    bump_bank-SeenBy labels last (keys b.lsn_to_tg) l ts t h
bump_grants-SeenBy labels last _ l ts t h = h

-- An event never makes a channel's last activity earlier or forgets it.
pub on_event-SeenBy :
    (s : Scheduler) (ev : Event) (now : Option ℕ) (l : String) (t : ℕ)
    → SeenBy s.last_active l t
    → SeenBy (on_event s ev now).last_active l t
unfolding on_event
on_event-SeenBy s ev now l t h =
    let ts = or_else now ev.timestamp in
    elim (Bool-cases (is_traffic ev.body)) [
      | inl e ↦ rw e (
          bump_grants-SeenBy s.lsn_to_label (bump s.last_active ev.channel_label ts) ev.body l ts t
            (bump-SeenBy s.last_active ev.channel_label l ts t h))
      | inr e ↦ rw e (bump_grants-SeenBy s.lsn_to_label s.last_active ev.body l ts t h)
    ]

bump_states-grant :
    (labels : Dict ℕ String) (last : Dict String ℕ) (states : List LsnState) (st : LsnState)
    (l : String) (ts : ℕ)
    → Member st states
    → st.state ≡ "Active"
    → get labels st.lsn ≡ some l
    → SeenBy (bump_states labels last states ts) l ts
unfolding bump_states
bump_states-grant labels last (s ∷ states) st l ts (inl e) a g =
    let active : s.state ≡ "Active" = rw (← e) a in
    let label : get labels s.lsn ≡ some l = rw (← e) g in
    rw (if_pos _ active) (
      bump_states-SeenBy labels (bump last (get labels s.lsn) ts) states l ts ts
        (rw label (bump-seen last l ts)))
bump_states-grant labels last (s ∷ states) st l ts (inr m) a g =
    bump_states-grant labels
      (ite (String_discrete s.state "Active") (bump last (get labels s.lsn) ts) last) states st l ts
      m a g
bump_states-grant labels last [] st l ts m a g = elim m [ ]

bump_bank-grant :
    (labels : Dict ℕ String) (last : Dict String ℕ) (lsns : List ℕ) (lsn : ℕ) (l : String) (ts : ℕ)
    → Member lsn lsns
    → get labels lsn ≡ some l
    → SeenBy (bump_bank labels last lsns ts) l ts
unfolding bump_bank
bump_bank-grant labels last (n ∷ lsns) lsn l ts (inl e) g =
    let label : get labels n ≡ some l = rw (← e) g in
    bump_bank-SeenBy labels (bump last (get labels n) ts) lsns l ts ts
      (rw label (bump-seen last l ts))
bump_bank-grant labels last (n ∷ lsns) lsn l ts (inr m) g =
    bump_bank-grant labels (bump last (get labels n) ts) lsns lsn l ts m g
bump_bank-grant labels last [] lsn l ts m g = elim m [ ]

-- the body grants the logical slot to a call
abbrev pub Grants : Body → ℕ → Type 0
Grants (lsn_status states) lsn =
    (st : LsnState) × Member st states × (st.state ≡ "Active") × (st.lsn ≡ lsn)
Grants (bank_call b) lsn = Member lsn (keys b.lsn_to_tg)
Grants _ lsn = Nowhere

bump_grants-grant :
    (labels : Dict ℕ String) (last : Dict String ℕ) (body : Body) (lsn : ℕ) (l : String) (ts : ℕ)
    → Grants body lsn
    → get labels lsn ≡ some l
    → SeenBy (bump_grants labels last body ts) l ts
unfolding bump_grants
bump_grants-grant labels last (lsn_status states) lsn l ts (st, m, a, e) g =
    bump_states-grant labels last states st l ts m a (rw e g)
bump_grants-grant labels last (bank_call b) lsn l ts m g =
    bump_bank-grant labels last (keys b.lsn_to_tg) lsn l ts m g
bump_grants-grant labels last _ lsn l ts m g = elim m [ ]

-- After an event that grants a logical slot to a call, an `LsnStatus` with the slot "Active" or a
-- `BankCall` that lists it, the record of the last activity has, for the channel that the plan maps the
-- slot to, a time no earlier than that of the event (or the time that is given with it).
pub on_event-grant :
    (s : Scheduler) (ev : Event) (now : Option ℕ) (lsn : ℕ) (l : String)
    → Grants ev.body lsn
    → get s.lsn_to_label lsn ≡ some l
    → SeenBy (on_event s ev now).last_active l (or_else now ev.timestamp)
unfolding on_event
on_event-grant s ev now lsn l m g =
    bump_grants-grant s.lsn_to_label _ ev.body lsn l (or_else now ev.timestamp) m g
