-- ===== src/Sign/Schedule/Week.antt =====
-- The loops over the days of the week and the entries of a plan, of src/sign/Group.cpp.
use gc.Common.{
  ◌>>=◌, ℕ, zero, suc, ◌+◌, ◌*◌, ◌/◌, ◌%◌, ◌≡◌, refl, ap, ◌∙◌, Bool, true, false, ◌&&◌, ◌||◌,
  Option, some, List, [], ◌∷◌, arith, ◌==◌, if◌then◌else◌, Bool-cases, inl, inr, take, ◌<◌, ◌≤◌,
}
use gc.Tsisp003.Plan.{Plan, PlnEntry}
use gc.Tsisp003.Plan.Overlap.{AllTimed}
use gc.Sign.Schedule.{
  PlnMinute, Table, minutes_a_week, sweep_entries, sweep_days, occupied_entries, occupied_days,
  start_at, stop_at,
}
use gc.Sign.Schedule.Span.{covers, Swept, Search, sweep-rounds, occupied-rounds, rounds-IsTimed}

-- Whether minute `m` of the week lies in one of the entries on the day.
unfoldable pub in_entries : ℕ → List PlnEntry → ℕ → Bool
in_entries day [] m = false
in_entries day (e ∷ es) m = covers (start_at day e) (stop_at day e) m || in_entries day es m

unfoldable pub in_days : Plan → ℕ → ℕ → ℕ → ℕ → Bool
in_days pln zero day week m = false
in_days pln (suc left) day week m =
    (pln.weekdays / week % 2 == 1 && in_entries day (take pln.entries pln.pln_entries) m)
    || in_days pln left (day + 1) (week * 2) m

-- A change of a set of minutes after which they belong to plan `v`, and no other has changed.
unfoldable pub Painted : ℕ → (ℕ → Bool) → Table → Table → Type 0
Painted v inside t t' =
    (m : ℕ) → (inside m ≡ true → (t' m).pln_id ≡ v) × (inside m ≡ false → t' m ≡ t m)

Painted-then :
    (v : ℕ) (a b : ℕ → Bool) (t t1 t2 : Table)
    → Painted v a t t1
    → Painted v b t1 t2
    → Painted v (λ m. a m || b m) t t2
unfolding Painted
Painted-then v a b t t1 t2 first second m = (
  λ h. elim (Bool-cases (b m)) [
    | inl in_b ↦ (second m).0 in_b
    | inr out_b ↦ ap (λ (x : PlnMinute). x.pln_id) ((second m).1 out_b) ∙ (first m).0 (ground arith)
  ],
  λ h. (second m).1 (ground arith) ∙ (first m).1 (ground arith),
)

Painted-none : (v : ℕ) (t : Table) → Painted v (λ m. false) t t
unfolding Painted
Painted-none v t m = (λ h. absurd (ground arith), λ h. refl)

module _ (v : ℕ) (change : PlnEntry → PlnMinute → PlnMinute)
    (sets : (e : PlnEntry) (x : PlnMinute) → (change e x).pln_id ≡ v) where
  Painted-Swept :
      (e : PlnEntry) (inside : ℕ → Bool) (t t' : Table)
      → Swept (change e) inside t t'
      → Painted v inside t t'
  unfolding Painted
  Painted-Swept e inside t t' swept m =
      (λ h. rw (swept m, h) (sets e (t m)), λ h. rw (swept m, h) refl)

  sweep_entries-Painted :
      (day : ℕ) (es : List PlnEntry) (t : Table)
      → day < 7
      → AllTimed es
      → (t' : Table) × (sweep_entries change day es t ≡ some t')
        × Painted v (in_entries day es) t t'
  unfolding sweep_entries in_entries
  sweep_entries-Painted day [] t lt timed = (t, refl, Painted-none v t)
  sweep_entries-Painted day (e ∷ es) t lt (here, rest) =
      let (start, stop, some_rounds, few) = rounds-IsTimed day e lt here in
      let (t1, run1, swept) =
        sweep-rounds (change e) minutes_a_week (start_at day e) (stop_at day e) t start stop
          (omega (arith, few)) in
      let (t2, run2, painted) = sweep_entries-Painted day es t1 lt rest in
      (t2, rw (run1, run2) refl, Painted-then v _ _ t t1 t2 (Painted-Swept e _ t t1 swept) painted)

  pub sweep_days-Painted :
      (pln : Plan) (left day week : ℕ) (t : Table)
      → day + left ≤ 7
      → AllTimed (take pln.entries pln.pln_entries)
      → (t' : Table) × (sweep_days change pln left day week t ≡ some t')
        × Painted v (in_days pln left day week) t t'
  unfolding sweep_days in_days Painted
  sweep_days-Painted pln zero day week t le timed = (t, refl, Painted-none v t)
  sweep_days-Painted pln (suc left) day week t le timed =
      elim (Bool-cases (pln.weekdays / week % 2 == 1)) [
        | inl on ↦
            let (t1, run1, painted1) =
              sweep_entries-Painted day (take pln.entries pln.pln_entries) t (omega arith) timed in
            let (t2, run2, painted2) =
              sweep_days-Painted pln left (day + 1) (week * 2) t1 (omega arith) timed in
            (t2, rw (on, run1, run2) refl, rw on (Painted-then v _ _ t t1 t2 painted1 painted2))
        | inr off ↦
            let (t2, run2, painted2) =
              sweep_days-Painted pln left (day + 1) (week * 2) t (omega arith) timed in
            (t2, rw (off, run2) refl, rw off painted2)
      ]

Search-then :
    (r1 r2 : Option Bool) (a b : ℕ → Bool) (t : Table)
    → Search r1 a t
    → Search r2 b t
    → Search (r1 >>= (λ found. if found then some true else r2)) (λ m. a m || b m) t
Search-then r1 r2 a b t (inl (m, run, inside, full)) other =
    inl (m, rw run refl, rw inside refl, full)
Search-then r1 r2 a b t (inr (run, free)) (inl (m, run2, inside, full)) =
    inl (m, rw (run, run2) refl, ground arith, full)
Search-then r1 r2 a b t (inr (run, free)) (inr (run2, free2)) = inr (
  rw (run, run2) refl,
  λ m h. elim (Bool-cases (a m)) [ inl here ↦ free m here | inr there ↦ free2 m (ground arith) ],
)

occupied_entries-Search :
    (t : Table) (day : ℕ) (es : List PlnEntry)
    → day < 7
    → AllTimed es
    → Search (occupied_entries t day es) (in_entries day es) t
unfolding occupied_entries in_entries
occupied_entries-Search t day [] lt timed = inr (refl, λ m h. absurd (ground arith))
occupied_entries-Search t day (e ∷ es) lt (here, rest) =
    let (start, stop, some_rounds, few) = rounds-IsTimed day e lt here in
    Search-then _ _ _ _ t
      (occupied-rounds t minutes_a_week (start_at day e) (stop_at day e) start stop
        (omega (arith, few)))
      (occupied_entries-Search t day es lt rest)

pub occupied_days-Search :
    (t : Table) (pln : Plan) (left day week : ℕ)
    → day + left ≤ 7
    → AllTimed (take pln.entries pln.pln_entries)
    → Search (occupied_days t pln left day week) (in_days pln left day week) t
unfolding occupied_days in_days
occupied_days-Search t pln zero day week le timed = inr (refl, λ m h. absurd (ground arith))
occupied_days-Search t pln (suc left) day week le timed =
    let later = occupied_days-Search t pln left (day + 1) (week * 2) (omega arith) timed in
    elim (Bool-cases (pln.weekdays / week % 2 == 1)) [
      | inl on ↦ rw on (
          Search-then _ _ _ _ t
            (occupied_entries-Search t day (take pln.entries pln.pln_entries) (omega arith) timed)
            later)
      | inr off ↦ rw off (
          Search-then (some false) _ (λ m. false) _ t (inr (refl, λ m h. absurd (ground arith)))
            later)
    ]
