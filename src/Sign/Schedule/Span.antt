-- ===== src/Sign/Schedule/Span.antt =====
-- The loops over the minutes of one entry, of src/sign/Group.cpp.
use gc.Common.{
  ℕ, zero, suc, ◌+◌, ◌-◌, ◌≤◌, ◌<◌, ◌≡◌, ◌≢◌, ◌⊎◌, refl, Bool, true, false, ◌&&◌, ◌||◌, Option,
  some, arith, ltb, leb, ◌==◌, if◌then◌else◌, Bool-cases, inl, inr,
}
use gc.Tsisp003.Plan.{PlnEntry}
use gc.Tsisp003.Plan.Overlap.{IsTimed}
use gc.Sign.Schedule.{
  minutes_a_day, PlnMinute, Table, put, next_minute, minutes_a_week, sweep, occupied, start_at,
  stop_at,
}

-- Whether minute `m` lies from `k` on and before `stop`, through the end of the week where `stop` does
-- not come after `k`.
unfoldable pub covers : ℕ → ℕ → ℕ → Bool
covers k stop m =
    if ltb k stop then leb k m && ltb m stop else ltb m minutes_a_week && (leb k m || ltb m stop)

-- How many minutes these are.
abbrev pub rounds : ℕ → ℕ → ℕ
rounds k stop = if ltb k stop then stop - k else stop + minutes_a_week - k

covers-next :
    (k stop m : ℕ)
    → k < minutes_a_week
    → stop < minutes_a_week
    → (next_minute k == stop) ≡ false
    → covers k stop m ≡ ((m == k) || covers (next_minute k) stop m)
unfolding covers
covers-next k stop m lt le e = ground arith

covers-last :
    (k stop m : ℕ)
    → k < minutes_a_week
    → stop < minutes_a_week
    → (next_minute k == stop) ≡ true
    → covers k stop m ≡ (m == k)
unfolding covers
covers-last k stop m lt le e = ground arith

covers-next_self :
    (k stop : ℕ)
    → k < minutes_a_week
    → stop < minutes_a_week
    → (next_minute k == stop) ≡ false
    → covers (next_minute k) stop k ≡ false
unfolding covers
covers-next_self k stop lt le e = ground arith

rounds-next :
    (k stop : ℕ)
    → k < minutes_a_week
    → stop < minutes_a_week
    → (next_minute k == stop) ≡ false
    → (rounds (next_minute k) stop + 1 ≡ rounds k stop) × (next_minute k < minutes_a_week)
rounds-next k stop lt le e = ground arith

-- What a loop that changes the minutes of a set does: it changes these, and no other.
abbrev pub Swept : (PlnMinute → PlnMinute) → (ℕ → Bool) → Table → Table → Type 0
Swept change inside t t' = (m : ℕ) → t' m ≡ (if inside m then change (t m) else t m)

pub same_test : (k : ℕ) → (k == k) ≡ true
same_test k = ground arith

-- One round, before the loop that does the rest.
Swept-next :
    (change : PlnMinute → PlnMinute) (k stop : ℕ) (t t' : Table)
    → k < minutes_a_week
    → stop < minutes_a_week
    → (next_minute k == stop) ≡ false
    → Swept change (covers (next_minute k) stop) (put t k (change (t k))) t'
    → Swept change (covers k stop) t t'
Swept-next change k stop t t' lt le e kept m = elim (Bool-cases (m == k)) [
  | inl here ↦
      let same : m ≡ k = ground arith in
      let at_k = kept k in
      rw same (
        rw (covers-next k stop k lt le e, same_test k)
          (rw (covers-next_self k stop lt le e, same_test k) at at_k))
  | inr there ↦ let at_m = kept m in rw (covers-next k stop m lt le e, there) (rw there at at_m)
]

Swept-last :
    (change : PlnMinute → PlnMinute) (k stop : ℕ) (t : Table)
    → k < minutes_a_week
    → stop < minutes_a_week
    → (next_minute k == stop) ≡ true
    → Swept change (covers k stop) t (put t k (change (t k)))
Swept-last change k stop t lt le e m =
    rw (covers-last k stop m lt le e) (elim (Bool-cases (m == k)) [
      | inl here ↦ let same : m ≡ k = ground arith in rw here (rw same refl)
      | inr there ↦ rw there refl
    ])

-- The loop from one minute of the week to another, with fuel for as many rounds as there are minutes
-- between them, ends, and has changed these minutes and no other.
pub sweep-rounds :
    (change : PlnMinute → PlnMinute) (fuel k stop : ℕ) (t : Table)
    → k < minutes_a_week
    → stop < minutes_a_week
    → rounds k stop ≤ fuel
    → (t' : Table) × (sweep change fuel k stop t ≡ some t') × Swept change (covers k stop) t t'
unfolding sweep
sweep-rounds change zero k stop t lt le enough = absurd (ground arith)
sweep-rounds change (suc fuel) k stop t lt le enough = elim (Bool-cases (next_minute k == stop)) [
  | inl e ↦ (put t k (change (t k)), rw e refl, Swept-last change k stop t lt le e)
  | inr e ↦
      let (t', run, kept) =
        sweep-rounds change fuel (next_minute k) stop (put t k (change (t k)))
          (rounds-next k stop lt le e).1 le (omega (arith, (rounds-next k stop lt le e).0)) in
      (t', rw (e, run) refl, Swept-next change k stop t t' lt le e kept)
]

-- On each day of the week an entry starts and stops within the week, and takes at most a day.
pub rounds-IsTimed :
    (day : ℕ) (e : PlnEntry)
    → day < 7
    → IsTimed e
    → (start_at day e < minutes_a_week)
      × (stop_at day e < minutes_a_week)
      × (1 ≤ rounds (start_at day e) (stop_at day e))
      × (rounds (start_at day e) (stop_at day e) ≤ minutes_a_day)
rounds-IsTimed day e lt (sh, sm, th, tm) = ground arith

-- How a search for an occupied minute in a set ends: with one, or with none in the set.
abbrev pub Search : Option Bool → (ℕ → Bool) → Table → Type 0
Search r inside t =
    ((m : ℕ) × (r ≡ some true) × (inside m ≡ true) × ((t m).pln_id ≢ 0))
    ⊎ ((r ≡ some false) × ((m : ℕ) → inside m ≡ true → (t m).pln_id ≡ 0))

covers_self : (k stop : ℕ) → k < minutes_a_week → covers k stop k ≡ true
unfolding covers
covers_self k stop lt = ground arith

-- A minute of the span, where the first is free: it is free, or comes later.
free-here :
    (t : Table) (k m : ℕ) (later : Bool)
    → ((t k).pln_id == 0) ≡ true
    → ((m == k) || later) ≡ true
    → (later ≡ true → (t m).pln_id ≡ 0)
    → (t m).pln_id ≡ 0
free-here t k m later free h after = elim (Bool-cases (m == k)) [
  | inl here ↦ let same : m ≡ k = ground arith in rw same (ground arith)
  | inr there ↦ after (rw there at h)
]

Search-next :
    (t : Table) (r : Option Bool) (k stop : ℕ)
    → k < minutes_a_week
    → stop < minutes_a_week
    → ((t k).pln_id == 0) ≡ true
    → (next_minute k == stop) ≡ false
    → Search r (covers (next_minute k) stop) t
    → Search r (covers k stop) t
Search-next t r k stop lt le free e (inl (m, run, inside, full)) =
    inl (m, run, rw (covers-next k stop m lt le e, inside) (ground arith), full)
Search-next t r k stop lt le free e (inr (run, free_all)) =
    inr (run, λ m h. free-here t k m _ free (rw (covers-next k stop m lt le e) at h) (free_all m))

pub occupied-rounds :
    (t : Table) (fuel k stop : ℕ)
    → k < minutes_a_week
    → stop < minutes_a_week
    → rounds k stop ≤ fuel
    → Search (occupied t fuel k stop) (covers k stop) t
unfolding occupied
occupied-rounds t zero k stop lt le enough = absurd (ground arith)
occupied-rounds t (suc fuel) k stop lt le enough = elim (Bool-cases ((t k).pln_id == 0)) [
  | inr full ↦ inl (k, rw full refl, covers_self k stop lt, ground arith)
  | inl free ↦ elim (Bool-cases (next_minute k == stop)) [
    | inl e ↦ inr (
      rw (free, e) refl,
      λ m h.
          free-here t k m false free
            (let here : (m == k) ≡ true = rw (covers-last k stop m lt le e) at h in rw here refl)
            (λ f. absurd (ground arith)),
    )
    | inr e ↦
        rw (free, e)
          (Search-next t _ k stop lt le free e (
            occupied-rounds t fuel (next_minute k) stop (rounds-next k stop lt le e).1 le
              (omega (arith, (rounds-next k stop lt le e).0))))
  ]
]
