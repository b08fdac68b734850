-- ===== src/Tsisp003/Plan/Slots.antt =====
-- The loop over the slots of a plan in src/tsisp003/Plan.cpp, and that of ToArray.
use gc.Common.{
  ℕ, zero, suc, ◌+◌, ◌*◌, ◌≤◌, ◌<◌, ◌≡◌, refl, sym, subst, ap, ◌∙◌, true, false, List, [], ◌∷◌,
  arith, ◌==◌, ==_iff, Bool-cases, inl, inr, length, ◌⊎◌, ◌≢◌, take, ltb,
}
use native.Mathlib.Numerals.{add-one}
use gc.Tsisp003.Memory.{Memory, slice, slice_six, Agree}
use gc.Tsisp003.Plan.{
  PlnEntry, Scan, scan, emit, read_entry, bad_times, pln_entry_msg, pln_entry_na,
}
use gc.Tsisp003.Plan.Overlap.{AllTimed, IsTimed}

abbrev stopped : Memory → PlnEntry → List PlnEntry → ℕ → Scan
stopped mem e es p = record {
  slots = record e { fm_type = mem p } ∷ es;
  p = p + 1;
  count = 0;
  ended = true;
}

abbrev extended : Memory → ℕ → Scan → Scan
extended mem p rest = record rest { slots = read_entry mem p ∷ rest.slots; count = suc rest.count }

-- The three ways that a round can go.
scan_cases :
    (mem : Memory) (e : PlnEntry) (es : List PlnEntry) (p : ℕ)
    → ((mem p ≡ 0) × (scan mem (e ∷ es) p ≡ stopped mem e es p))
      ⊎ (((scan mem (e ∷ es) p).ended ≡ false)
          ⊎ ((mem p ≢ 0)
              × (mem p ≤ 2)
              × (bad_times (read_entry mem p) ≡ false)
              × (scan mem (e ∷ es) p ≡ extended mem p (scan mem es (p + 6)))))
unfolding scan
scan_cases mem e es p = elim (Bool-cases (mem p == pln_entry_na)) [
  | inl z ↦ inl ((==_iff _ _).0 z, rw z)
  | inr nz ↦ elim (Bool-cases (ltb pln_entry_msg (mem p))) [
    | inl big ↦ inr (inl (rw (nz, big)))
    | inr small ↦ elim (Bool-cases (bad_times (read_entry mem p))) [
      | inl bad ↦ inr (inl (rw (nz, small, bad)))
      | inr good ↦ inr (
          inr (
            ground arith,
            ground arith,
            good,
            rw (nz, small, good) (cc (add-one (scan mem es (p + 6)).count)),
          ))
    ]
  ]
]

scan-stopped :
    (mem : Memory) (e : PlnEntry) (es : List PlnEntry) (p : ℕ)
    → mem p ≡ 0
    → scan mem (e ∷ es) p ≡ stopped mem e es p
unfolding scan
scan-stopped mem e es p z = ground arith

scan-extended :
    (mem : Memory) (e : PlnEntry) (es : List PlnEntry) (p : ℕ)
    → mem p ≢ 0
    → mem p ≤ 2
    → bad_times (read_entry mem p) ≡ false
    → scan mem (e ∷ es) p ≡ extended mem p (scan mem es (p + 6))
unfolding scan
scan-extended mem e es p nz small good = ground (arith, add-one (scan mem es (p + 6)).count)

-- The entries that the loop stored are written back as the bytes that it read.
pub emit-scan :
    (mem : Memory) (es : List PlnEntry) (p : ℕ)
    → (scan mem es p).ended ≡ true
    → (n : ℕ) × ((scan mem es p).p ≡ p + n) × (emit (scan mem es p).slots ≡ slice mem p n)
unfolding emit
emit-scan mem [] p h = unfold scan in (0, omega arith, refl)
emit-scan mem (e ∷ es) p h = elim (scan_cases mem e es p) [
  | inl (z, q) ↦ (1, rw q refl, rw (q, z))
  | inr (inl bad) ↦ absurd (ground arith)
  | inr (inr (nz, small, good, q)) ↦
      let (n, r, w) = emit-scan mem es (p + 6) (rw q at h) in
      (
        suc (suc (suc (suc (suc (suc n))))),
        rw q (omega (arith, r)),
        rw (q, slice_six) (ground arith),
      )
]

scan-le :
    (mem : Memory) (es : List PlnEntry) (p : ℕ)
    → (scan mem es p).ended ≡ true
    → p ≤ (scan mem es p).p
scan-le mem es p h = let (n, q, w) = emit-scan mem es p h in omega arith

read_entry-Agree :
    (n : ℕ) (mem other : Memory) (p : ℕ)
    → Agree n mem other
    → p + 6 ≤ n
    → read_entry other p ≡ read_entry mem p
read_entry-Agree n mem other p a h = cc (
  a p (omega arith),
  a (p + 1) (omega arith),
  a (p + 2) (omega arith),
  a (p + 3) (omega arith),
  a (p + 4) (omega arith),
  a (p + 5) (omega arith),
)

-- The loop depends on the bytes before its final pointer alone.
pub scan-Agree :
    (n : ℕ) (mem other : Memory) (es : List PlnEntry) (p : ℕ)
    → Agree n mem other
    → (scan mem es p).ended ≡ true
    → (scan mem es p).p ≤ n
    → scan other es p ≡ scan mem es p
scan-Agree n mem other [] p a h le = unfold scan in refl
scan-Agree n mem other (e ∷ es) p a h le = elim (scan_cases mem e es p) [
  | inl (z, q) ↦
      let first : other p ≡ mem p = sym (a p (omega (arith, ap (λ (s : Scan). s.p) q))) in
      rw q (
        scan-stopped other e es p (first ∙ z)
        ∙ ap (λ t. record (stopped mem e es p) { slots = record e { fm_type = t } ∷ es }) first)
  | inr (inl bad) ↦ absurd (ground arith)
  | inr (inr (nz, small, good, q)) ↦
      let h' : (scan mem es (p + 6)).ended ≡ true = rw q at h in
      let le' : (scan mem es (p + 6)).p ≤ n = rw q at le in
      let room : p + 6 ≤ n = omega (arith, scan-le mem es (p + 6) h') in
      let same = read_entry-Agree n mem other p a room in
      let first : other p ≡ mem p = sym (a p (omega arith)) in
      rw
        (
          q,
          scan-extended other e es p (rw first nz) (rw first small)
              (subst (λ x. bad_times x ≡ false) (sym same) good),
        )
        (cc (same, scan-Agree n mem other es (p + 6) a h' le'))
]

-- The entries that the loop counts have a type, 1 or 2, and times of a day. Past the count the slots
-- end, or a slot holds the type 0.
abbrev pub Ended : ℕ → List PlnEntry → Type 0
Ended zero [] = Unit {0}
Ended zero (e ∷ es) = e.fm_type ≡ 0
Ended (suc n) [] = ⊥
Ended (suc n) (e ∷ es) = (e.fm_type ≢ 0) × (e.fm_type ≤ 2) × IsTimed e × Ended n es

pub scan-Ended :
    (mem : Memory) (es : List PlnEntry) (p : ℕ)
    → (scan mem es p).ended ≡ true
    → Ended (scan mem es p).count (scan mem es p).slots
scan-Ended mem [] p h = unfold scan in tt
scan-Ended mem (e ∷ es) p h = elim (scan_cases mem e es p) [
  | inl (z, q) ↦ rw q z
  | inr (inl bad) ↦ absurd (ground arith)
  | inr (inr (nz, small, good, q)) ↦
      rw q (nz, small, ground arith, scan-Ended mem es (p + 6) (rw q at h))
]

pub AllTimed-take : (n : ℕ) (es : List PlnEntry) → Ended n es → AllTimed (take n es)
AllTimed-take zero es h = tt
AllTimed-take (suc n) [] h = absurd h
AllTimed-take (suc n) (e ∷ es) h = (h.2, AllTimed-take n es h.3)

-- How far the pointer goes: six bytes for each entry, and one for the type 0 that ends a list shorter
-- than the slots.
pub p-scan :
    (mem : Memory) (es : List PlnEntry) (p : ℕ)
    → (scan mem es p).ended ≡ true
    → let s = scan mem es p in
      ((s.count ≡ length es) × (s.p ≡ p + 6 * s.count))
      ⊎ ((s.count < length es) × (s.p ≡ p + 6 * s.count + 1))
unfolding scan
p-scan mem [] p h = inl (refl, omega arith)
p-scan mem (e ∷ es) p h = ground (arith, p-scan mem es (p + 6))

pub length-scan :
    (mem : Memory) (es : List PlnEntry) (p : ℕ) → length (scan mem es p).slots ≡ length es
unfolding scan
length-scan mem [] p = refl
length-scan mem (e ∷ es) p = ground (arith, length-scan mem es (p + 6))
