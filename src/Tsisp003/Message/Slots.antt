-- ===== src/Tsisp003/Message/Slots.antt =====
-- The loop over the slots of a message in src/tsisp003/Message.cpp, and that of ToArray.
use gc.Common.{
  ℕ, zero, suc, ◌+◌, ◌*◌, ◌≤◌, ◌<◌, ◌≡◌, refl, ap, List, [], ◌∷◌, arith, ◌==◌, ==_iff, Bool-cases,
  inl, inr, length, ◌⊎◌, ◌≢◌,
}
use native.Mathlib.Numerals.{add-one}
use gc.Tsisp003.Memory.{Memory, slice, Agree}
use gc.Tsisp003.Message.{MsgEntry, scan, emit}

-- The entries that the loop stored are written back as the bytes that it read.
pub emit-scan :
    (mem : Memory) (es : List MsgEntry) (p : ℕ)
    → (n : ℕ) × ((scan mem es p).p ≡ p + n) × (emit (scan mem es p).slots ≡ slice mem p n)
unfolding scan emit
emit-scan mem [] p = (0, omega arith, refl)
emit-scan mem (e ∷ es) p = elim (Bool-cases (mem p == 0)) [
  | inl stop ↦ (1, ground arith, ground arith)
  | inr more ↦
      let (n, q, w) = emit-scan mem es (p + 2) in
      let next : slice mem (p + 1 + 1) n ≡ slice mem (p + 2) n =
        ap (λ (t : ℕ). slice mem t n) (omega arith) in
      (suc (suc n), ground arith, ground arith)
]

pub scan-le : (mem : Memory) (es : List MsgEntry) (p : ℕ) → p ≤ (scan mem es p).p
scan-le mem es p = let (n, q, w) = emit-scan mem es p in omega arith

-- The loop depends on the bytes before its final pointer alone.
pub scan-Agree :
    (n : ℕ) (mem other : Memory) (es : List MsgEntry) (p : ℕ)
    → Agree n mem other
    → (scan mem es p).p ≤ n
    → scan other es p ≡ scan mem es p
unfolding scan
scan-Agree n mem other [] p a h = refl
scan-Agree n mem other (e ∷ es) p a h =
    ground (arith, a p, a (p + 1), scan-le mem es (p + 2), scan-Agree n mem other es (p + 2) a)

-- The loop counts at most the slots, and each entry that it counts has an id. Past the count the
-- slots end, or a slot holds the id 0.
abbrev pub Ended : ℕ → List MsgEntry → Type 0
Ended zero [] = Unit {0}
Ended zero (e ∷ es) = e.frm_id ≡ 0
Ended (suc n) [] = ⊥
Ended (suc n) (e ∷ es) = (e.frm_id ≢ 0) × Ended n es

pub scan-Ended :
    (mem : Memory) (es : List MsgEntry) (p : ℕ) → Ended (scan mem es p).count (scan mem es p).slots
unfolding scan
scan-Ended mem [] p = tt
scan-Ended mem (e ∷ es) p = elim (Bool-cases (mem p == 0)) [
  | inl stop ↦ rw stop ((==_iff _ _).0 stop)
  | inr more ↦ rw (more, add-one) (λ e. ground arith, scan-Ended mem es (p + 2))
]

-- How far the pointer goes: two bytes for each entry, and one for the id 0 that ends a list shorter
-- than the slots.
pub p-scan :
    (mem : Memory) (es : List MsgEntry) (p : ℕ)
    → let s = scan mem es p in
      ((s.count ≡ length es) × (s.p ≡ p + 2 * s.count))
      ⊎ ((s.count < length es) × (s.p ≡ p + 2 * s.count + 1))
unfolding scan
p-scan mem [] p = inl (refl, omega arith)
p-scan mem (e ∷ es) p = ground (arith, p-scan mem es (p + 2))

pub length-scan :
    (mem : Memory) (es : List MsgEntry) (p : ℕ) → length (scan mem es p).slots ≡ length es
unfolding scan
length-scan mem [] p = refl
length-scan mem (e ∷ es) p = ground (arith, length-scan mem es (p + 2))
