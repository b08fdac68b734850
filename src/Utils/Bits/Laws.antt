-- ===== src/Utils/Bits/Laws.antt =====
-- Class Bits of src/module/Utils.cpp as a set of numbers.
use gc.Common.{
  ℕ, zero, suc, ◌+◌, ◌-◌, ◌/◌, ◌%◌, ◌<◌, ◌≤◌, ◌≡◌, ◌≢◌, ◌⊎◌, refl, sym, ap, ◌∙◌, Bool, true, false,
  Option, none, some, List, [], ◌∷◌, arith, leb, ◌==◌, if◌then◌else◌, Bool-cases, inl, inr, get_or,
  set, length, length-set, length-replicate, replicate, get_or-set_self, get_or-set_ne,
}
use gc.Utils.Bits.{
  Bits, byte_get, byte_set, byte_clr, set_07_bit, clr_07_bit, get_07_bit, set_bit, clr_bit, init,
  max_from, get_max_bit,
}
use gc.Utils.Bits.Bytes.{byte_get-byte_set}

-- There are bytes enough for the bits, and they are bytes.
pub record IsValid (s : Bits) : Type 0 where
  pub places : length s.bytes ≡ (s.size + 7) / 8
  pub small : (k : ℕ) → get_or s.bytes k 0 < 256

get_or-zeros : (n k : ℕ) → ◌≡◌ {A = ℕ} (get_or (replicate n 0) k 0) 0
get_or-zeros zero k = refl
get_or-zeros (suc n) zero = refl
get_or-zeros (suc n) (suc k) = get_or-zeros n k

pub init-IsValid : (size : ℕ) → IsValid (init size)
unfolding init
init-IsValid size = record {
  places = length-replicate _ _;
  small = λ k. ground (arith, get_or-zeros ((size + 7) / 8) k);
}

set-small :
    (bytes : List ℕ) (n v k : ℕ)
    → ((j : ℕ) → get_or bytes j 0 < 256)
    → v < 256
    → get_or (set bytes n v) k 0 < 256
set-small [] n v k h lt = h k
set-small (x ∷ bytes) zero v zero h lt = lt
set-small (x ∷ bytes) zero v (suc k) h lt = h (suc k)
set-small (x ∷ bytes) (suc n) v zero h lt = h zero
set-small (x ∷ bytes) (suc n) v (suc k) h lt = set-small bytes n v k (λ j. h (suc j)) lt

module _ (s : Bits) (i : ℕ) (v : IsValid s) (lt : i < s.size) where
  -- Writing one byte of the set.
  byte-cases :
      (j b : ℕ)
      → ((i / 8 ≡ j / 8) × (get_or (set s.bytes (i / 8) b) (j / 8) 0 ≡ b))
        ⊎ ((i / 8 ≢ j / 8) × (get_or (set s.bytes (i / 8) b) (j / 8) 0 ≡ get_or s.bytes (j / 8) 0))
  byte-cases j b = elim (Bool-cases (i / 8 == j / 8)) [
    | inl e ↦
        let same : i / 8 ≡ j / 8 = ground arith in
        let here : i / 8 < length s.bytes = ground (arith, v.places) in
        inl (
          same,
          ap (λ k. get_or (set s.bytes (i / 8) b) k 0) (sym same)
              ∙ get_or-set_self s.bytes (i / 8) b 0 here,
        )
    | inr e ↦
        let other : i / 8 ≢ j / 8 = λ h. ground arith in
        inr (other, get_or-set_ne s.bytes (i / 8) (j / 8) b 0 other)
  ]

  same_bit : (j : ℕ) → i / 8 ≡ j / 8 → (7 - j % 8 == 7 - i % 8) ≡ (j == i)
  same_bit j h = ground arith

  bit_here :
      (j : ℕ) (w : Bool)
      → i / 8 ≡ j / 8
      → (if 7 - j % 8 == 7 - i % 8 then w else byte_get (get_or s.bytes (i / 8) 0) (7 - j % 8))
        ≡ (if j == i then w else get_07_bit s.bytes j)
  unfolding get_07_bit
  bit_here j w same =
      rw (same_bit j same)
        (ap (λ (k : ℕ). if j == i then w else byte_get (get_or s.bytes k 0) (7 - j % 8)) same)

  bit_there :
      (j : ℕ) (w : Bool)
      → i / 8 ≢ j / 8
      → get_07_bit s.bytes j ≡ (if j == i then w else get_07_bit s.bytes j)
  bit_there j w other = elim (Bool-cases (j == i)) [
    | inl e ↦ let same : j ≡ i = ground arith in absurd (other (ap (λ k. k / 8) (sym same)))
    | inr e ↦ rw e refl
  ]

  -- SetBit puts a number into the set and changes no other; it keeps the set in order.
  pub get_bit-set_bit :
      (s' : Bits) × (set_bit i s ≡ some s')
      × IsValid s'
      × (s'.size ≡ s.size)
      × ((j : ℕ) → get_07_bit s'.bytes j ≡ (if j == i then true else get_07_bit s.bytes j))
  unfolding set_bit set_07_bit get_07_bit
  get_bit-set_bit =
      let in_size : leb s.size i ≡ false = ground arith in
      let b = get_or s.bytes (i / 8) 0 in
      let facts = λ (j : ℕ).
        byte_get-byte_set b (7 - i % 8) (7 - j % 8) (v.small (i / 8)) (omega arith) (omega arith) in
      (
        record s { bytes = set s.bytes (i / 8) (byte_set b (7 - i % 8)) },
        rw in_size refl,
        record {
          places = length-set _ _ _ ∙ v.places;
          small = λ k. set-small s.bytes (i / 8) _ k v.small (facts 0).2;
        },
        refl,
        λ j. elim (byte-cases j (byte_set b (7 - i % 8))) [
          | inl (same, new) ↦ rw new ((facts j).0 ∙ bit_here j true same)
          | inr (other, new) ↦ rw new (bit_there j true other)
        ],
      )

  -- ClrBit takes a number out of the set and changes no other; it keeps the set in order.
  pub get_bit-clr_bit :
      (s' : Bits) × (clr_bit i s ≡ some s')
      × IsValid s'
      × (s'.size ≡ s.size)
      × ((j : ℕ) → get_07_bit s'.bytes j ≡ (if j == i then false else get_07_bit s.bytes j))
  unfolding clr_bit clr_07_bit get_07_bit
  get_bit-clr_bit =
      let in_size : leb s.size i ≡ false = ground arith in
      let b = get_or s.bytes (i / 8) 0 in
      let facts = λ (j : ℕ).
        byte_get-byte_set b (7 - i % 8) (7 - j % 8) (v.small (i / 8)) (omega arith) (omega arith) in
      (
        record s { bytes = set s.bytes (i / 8) (byte_clr b (7 - i % 8)) },
        rw in_size refl,
        record {
          places = length-set _ _ _ ∙ v.places;
          small = λ k. set-small s.bytes (i / 8) _ k v.small (facts 0).3;
        },
        refl,
        λ j. elim (byte-cases j (byte_clr b (7 - i % 8))) [
          | inl (same, new) ↦ rw new ((facts j).1 ∙ bit_here j false same)
          | inr (other, new) ↦ rw new (bit_there j false other)
        ],
      )

-- Where a loop over some of the bits ends.
pub max_from-cases :
    (s : Bits) (left i : ℕ) (max : Option ℕ)
    → ((max_from s left i max ≡ max)
        × ((k : ℕ) → i ≤ k → k < i + left → get_07_bit s.bytes k ≡ false))
      ⊎ ((m : ℕ) × (max_from s left i max ≡ some m)
          × (i ≤ m)
          × (m < i + left)
          × (get_07_bit s.bytes m ≡ true)
          × ((k : ℕ) → m < k → k < i + left → get_07_bit s.bytes k ≡ false))
unfolding max_from
max_from-cases s zero i max = inl (refl, λ k low high. absurd (omega arith))
max_from-cases s (suc left) i max = elim (Bool-cases (get_07_bit s.bytes i)) [
  | inl on ↦ elim (max_from-cases s left (i + 1) (some i)) [
    | inl (e, none_there) ↦ inr (
      i,
      rw on e,
      omega arith,
      omega arith,
      on,
      λ k low high. none_there k (omega arith) (omega arith),
    )
    | inr (m, e, low, high, set_there, rest) ↦
        inr (m, rw on e, omega arith, omega arith, set_there, λ k l h. rest k l (omega arith))
  ]
  | inr off ↦ elim (max_from-cases s left (i + 1) max) [
    | inl (e, none_there) ↦ inl (
      rw off e,
      λ k low high. elim (Bool-cases (k == i)) [
        | inl here ↦ let same : k ≡ i = ground arith in rw same off
        | inr there ↦ none_there k (ground arith) (omega arith)
      ],
    )
    | inr (m, e, low, high, set_there, rest) ↦
        inr (m, rw off e, omega arith, omega arith, set_there, λ k l h. rest k l (omega arith))
  ]
]

-- GetMaxBit gives the greatest number of the set, or -1 where the set is empty.
pub get_max_bit_lem :
    (s : Bits)
    → ((get_max_bit s ≡ none) × ((k : ℕ) → k < s.size → get_07_bit s.bytes k ≡ false))
      ⊎ ((m : ℕ) × (get_max_bit s ≡ some m)
          × (m < s.size)
          × (get_07_bit s.bytes m ≡ true)
          × ((k : ℕ) → m < k → k < s.size → get_07_bit s.bytes k ≡ false))
unfolding get_max_bit
get_max_bit_lem s = elim (max_from-cases s s.size 0 none) [
  | inl (e, none_there) ↦ inl (e, λ k lt. none_there k (omega arith) (omega arith))
  | inr (m, e, low, high, set_there, rest) ↦
      inr (m, e, omega arith, set_there, λ k l h. rest k l (omega arith))
]
