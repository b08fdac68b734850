-- ===== src/Utils/Crc/Bitwise.antt =====
-- Crc8 and Crc16_1021 of src/module/Utils.cpp against the bit-by-bit division.
use gc.Common.{
  ℕ, ◌+◌, ◌*◌, ◌/◌, ◌%◌, ◌<◌, ◌≡◌, refl, sym, ap, ap₂, subst, ◌∙◌, arith, bit_xor, Bool, true, List,
  [], ◌∷◌, get_or, ◌==◌, ==_iff, holds_below, holds_below-at,
}
use native.Mathlib.Nat.{mod-eq_of_lt}
use gc.Utils.Cnvt.Hex.{AreBytes}
use gc.Utils.Crc.{crc16_step, crc16_loop, crc16_1021, crc16_8005, reverse_u16, crc8}
use gc.Utils.Crc.Tables.{crc16_1021_table, crc8_table}
use gc.Utils.Crc.Xor.{bit_xor-zero, bit_xor_comm, bit_xor-lt}
use gc.Utils.Crc.Division.{
  divide_bit, divide_bits, divide, divide_bits-add, divide_bits-lt, add_byte, cut,
}

-- Eight steps on a byte at the top of a 16-bit register give the entry of the table.
abbrev pub is_entry : ℕ → ℕ → ℕ → List ℕ → ℕ → Bool
is_entry top poly unit table i = divide_bits top poly 8 (i * unit) == get_or table i 0

table_1021_sound : holds_below 256 (is_entry 32768 0x1021 256 crc16_1021_table) ≡ true
unfolding holds_below divide_bits divide_bit crc16_1021_table
table_1021_sound = refl

entry_1021 : (i : ℕ) → i < 256 → divide_bits 32768 0x1021 8 (i * 256) ≡ get_or crc16_1021_table i 0
entry_1021 i h =
    (==_iff _ _).0
      (holds_below-at 256 (is_entry 32768 0x1021 256 crc16_1021_table) i table_1021_sound h)

-- One round of the loop of Crc16 is eight steps of the division.
round_1021 :
    (h l b : ℕ)
    → h < 256
    → l < 256
    → b < 256
    → crc16_step crc16_1021_table (h * 256 + l) b
      ≡ divide_bits 32768 0x1021 8 (bit_xor (h * 256 + l) (b * 256))
unfolding crc16_step
round_1021 h l b hh hl hb =
    ap₂ (λ (x y : ℕ). bit_xor x (get_or crc16_1021_table y 0) % 65536) shifted index
    ∙ ap (λ (t : ℕ). bit_xor (h * 65536 + l * 256) t % 65536) (sym (entry_1021 i i-lt))
    ∙ cut 16 h (l * 256) _ (omega arith)
        (divide_bits-lt 8 15 0x1021 (i * 256) (omega (arith, i-lt)) (omega arith))
    ∙ bit_xor_comm (l * 256) _
    ∙ sym
        (divide_bits-add 8 15 0x1021 (i * 256) l (omega (arith, i-lt)) (omega arith) (omega arith))
    ∙ ap (divide_bits 32768 0x1021 8) (sym (add_byte 8 h l b hl))
  where
    i : ℕ
    i = bit_xor h b

    i-lt : i < 256
    i-lt = bit_xor-lt 8 h b hh hb

    shifted : (h * 256 + l) * 256 ≡ h * 65536 + l * 256
    shifted = omega arith

    index : bit_xor ((h * 256 + l) / 256) b % 256 ≡ i
    index =
        let high : (h * 256 + l) / 256 ≡ h = omega arith in
        ap (λ (x : ℕ). bit_xor x b % 256) high ∙ mod-eq_of_lt i-lt

step_1021 :
    (crc b : ℕ)
    → crc < 65536
    → b < 256
    → crc16_step crc16_1021_table crc b ≡ divide_bits 32768 0x1021 8 (bit_xor crc (b * 256))
step_1021 crc b hc hb =
    let e : crc / 256 * 256 + crc % 256 ≡ crc = omega arith in
    subst (λ c. crc16_step crc16_1021_table c b ≡ divide_bits 32768 0x1021 8 (bit_xor c (b * 256)))
      e (round_1021 (crc / 256) (crc % 256) b (omega arith) (omega arith) hb)

crc16_step-lt : (table : List ℕ) (crc b : ℕ) → crc16_step table crc b < 65536
unfolding crc16_step
crc16_step-lt table crc b = omega arith

loop_1021 :
    (buf : List ℕ) (crc : ℕ)
    → AreBytes buf
    → crc < 65536
    → crc16_loop crc16_1021_table (λ b. b) buf crc ≡ divide 32768 0x1021 buf crc
unfolding crc16_loop divide
loop_1021 [] crc h hc = refl
loop_1021 (b ∷ buf) crc h hc =
    loop_1021 buf (crc16_step crc16_1021_table crc b) h.1 (crc16_step-lt _ crc b)
    ∙ ap (divide 32768 0x1021 buf) (step_1021 crc b hc h.0)

-- Crc16_1021 of a buffer of bytes is the remainder of the bit-by-bit division of the buffer by the
-- polynomial 0x1021, from any starting value of 16 bits.
pub crc16_1021-divide :
    (buf : List ℕ) (precrc : ℕ)
    → AreBytes buf
    → precrc < 65536
    → crc16_1021 buf precrc ≡ divide 32768 0x1021 buf precrc
unfolding crc16_1021
crc16_1021-divide buf precrc h hc = bit_xor-zero _ ∙ loop_1021 buf precrc h hc

table_8_sound : holds_below 256 (is_entry 128 0x07 1 crc8_table) ≡ true
unfolding holds_below divide_bits divide_bit crc8_table
table_8_sound = refl

entry_8 : (i : ℕ) → i < 256 → get_or crc8_table i 0 ≡ divide_bits 128 0x07 8 i
entry_8 i h =
    sym ((==_iff _ _).0 (holds_below-at 256 (is_entry 128 0x07 1 crc8_table) i table_8_sound h))
    ∙ ap (divide_bits 128 0x07 8) (omega arith)

-- Crc8 of a buffer of bytes is the remainder of the bit-by-bit division of the buffer by the
-- polynomial 0x07, from any starting value of 8 bits.
pub crc8-divide :
    (buf : List ℕ) (precrc : ℕ)
    → AreBytes buf
    → precrc < 256
    → crc8 buf precrc ≡ divide 128 0x07 buf precrc
unfolding crc8 divide
crc8-divide [] crc h hc = refl
crc8-divide (b ∷ buf) crc h hc =
    let one : b ≡ b * 1 = omega arith in
    ap (crc8 buf)
      (entry_8 (bit_xor crc b) small ∙ ap (λ (x : ℕ). divide_bits 128 0x07 8 (bit_xor crc x)) one)
    ∙ crc8-divide buf _ h.1 (divide_bits-lt 8 7 0x07 _ (rw (← one) small) (omega arith))
  where
    small : bit_xor crc b < 256
    small = bit_xor-lt 8 crc b hc h.0

crc16_loop-lt :
    (table : List ℕ) (in_bits : ℕ → ℕ) (buf : List ℕ) (crc : ℕ)
    → crc < 65536
    → crc16_loop table in_bits buf crc < 65536
unfolding crc16_loop
crc16_loop-lt table in_bits [] crc h = h
crc16_loop-lt table in_bits (b ∷ buf) crc h =
    crc16_loop-lt table in_bits buf _ (crc16_step-lt table crc (in_bits b))

pub crc16_1021-lt : (buf : List ℕ) → crc16_1021 buf 0 < 65536
unfolding crc16_1021
crc16_1021-lt buf = rw (bit_xor-zero _) (crc16_loop-lt _ _ buf 0 (omega arith))

pub crc16_8005-lt : (buf : List ℕ) → crc16_8005 buf 0 < 65536
unfolding crc16_8005 reverse_u16
crc16_8005-lt buf = rw (bit_xor-zero _) (omega arith)
