-- ===== src/Utils/Crc/Bitwise32.antt =====
-- Crc32 of src/module/Utils.cpp against the bit-by-bit division.
use gc.Common.{
  ℕ, ◌+◌, ◌*◌, ◌/◌, ◌%◌, ◌<◌, ◌≡◌, refl, sym, ap, ap₂, subst, ◌∙◌, arith, bit_xor, true, List, [],
  ◌∷◌, get_or, ==_iff, holds_below, holds_below-at,
}
use native.Mathlib.Nat.{mod-eq_of_lt}
use gc.Utils.Cnvt.Hex.{AreBytes}
use gc.Utils.Crc.{crc32}
use gc.Utils.Crc.Tables.{crc32_table}
use gc.Utils.Crc.Xor.{bit_xor_comm, bit_xor-lt}
use gc.Utils.Crc.Bitwise.{is_entry}
use gc.Utils.Crc.Division.{
  divide_bit, divide_bits, divide, divide_bits-add, divide_bits-lt, add_byte, cut,
}

table_32_sound : holds_below 256 (is_entry 2147483648 0x04c11db7 16777216 crc32_table) ≡ true
unfolding holds_below divide_bits divide_bit crc32_table
table_32_sound = refl

entry_32 :
    (i : ℕ) → i < 256 → divide_bits 2147483648 0x04c11db7 8 (i * 16777216) ≡ get_or crc32_table i 0
entry_32 i h =
    (==_iff _ _).0
      (holds_below-at 256 (is_entry 2147483648 0x04c11db7 16777216 crc32_table) i table_32_sound h)

abbrev round : ℕ → ℕ → ℕ
round crc b =
    bit_xor (crc * 256) (get_or crc32_table (bit_xor (crc / 16777216) b % 256) 0) % 4294967296

-- One round of the loop is eight steps of the division.
round_32 :
    (h l b : ℕ)
    → h < 256
    → l < 16777216
    → b < 256
    → round (h * 16777216 + l) b
      ≡ divide_bits 2147483648 0x04c11db7 8 (bit_xor (h * 16777216 + l) (b * 16777216))
round_32 h l b hh hl hb =
    ap₂ (λ (x y : ℕ). bit_xor x (get_or crc32_table y 0) % 4294967296) shifted index
    ∙ ap (λ (t : ℕ). bit_xor (h * 4294967296 + l * 256) t % 4294967296) (sym (entry_32 i i-lt))
    ∙ cut 32 h (l * 256) _ (omega arith)
        (divide_bits-lt 8 31 0x04c11db7 (i * 16777216) (omega (arith, i-lt)) (omega arith))
    ∙ bit_xor_comm (l * 256) _
    ∙ sym (
        divide_bits-add 8 31 0x04c11db7 (i * 16777216) l (omega (arith, i-lt)) (omega arith)
          (omega arith))
    ∙ ap (divide_bits 2147483648 0x04c11db7 8) (sym (add_byte 24 h l b hl))
  where
    i : ℕ
    i = bit_xor h b

    i-lt : i < 256
    i-lt = bit_xor-lt 8 h b hh hb

    shifted : (h * 16777216 + l) * 256 ≡ h * 4294967296 + l * 256
    shifted = omega arith

    index : bit_xor ((h * 16777216 + l) / 16777216) b % 256 ≡ i
    index =
        let high : (h * 16777216 + l) / 16777216 ≡ h = omega arith in
        ap (λ (x : ℕ). bit_xor x b % 256) high ∙ mod-eq_of_lt i-lt

step_32 :
    (crc b : ℕ)
    → crc < 4294967296
    → b < 256
    → round crc b ≡ divide_bits 2147483648 0x04c11db7 8 (bit_xor crc (b * 16777216))
step_32 crc b hc hb =
    let e : crc / 16777216 * 16777216 + crc % 16777216 ≡ crc = omega arith in
    subst (λ c. round c b ≡ divide_bits 2147483648 0x04c11db7 8 (bit_xor c (b * 16777216))) e
      (round_32 (crc / 16777216) (crc % 16777216) b (omega arith) (omega arith) hb)

-- Crc32 of a buffer of bytes is the remainder of the bit-by-bit division of the buffer by the
-- polynomial 0x04c11db7, from any starting value of 32 bits.
pub crc32-divide :
    (buf : List ℕ) (precrc : ℕ)
    → AreBytes buf
    → precrc < 4294967296
    → crc32 buf precrc ≡ divide 2147483648 0x04c11db7 buf precrc
unfolding crc32 divide
crc32-divide [] crc h hc = refl
crc32-divide (b ∷ buf) crc h hc =
    crc32-divide buf (round crc b) h.1 (omega arith)
    ∙ ap (divide 2147483648 0x04c11db7 buf) (step_32 crc b hc h.0)
