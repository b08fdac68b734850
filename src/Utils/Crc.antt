-- ===== src/Utils/Crc.antt =====
-- Class Crc of src/module/Utils.cpp: table-driven checksums over a buffer.
pub mod Tables
mod Xor
mod Division
mod Tests
pub mod Bitwise
pub mod Bitwise32
use gc.Common.{
  ℕ, ◌+◌, ◌*◌, ◌/◌, ◌%◌, Bool, true, false, List, [], ◌∷◌, if◌then◌else◌, get_or, u8, u16, u32,
  bit_xor,
}
use gc.Utils.Cnvt.{reverse_bits}
use Tables.{crc8_table, crc16_1021_table, crc16_8005_table, crc32_table}

-- The list is the buffer up to the length argument, in each of these.
unfoldable pub crc8 : List ℕ → ℕ → ℕ
crc8 [] crc = crc
crc8 (b ∷ buf) crc = crc8 buf (get_or crc8_table (bit_xor crc b) 0)

-- The body of the loops of `Crc16`; `& 255` is the remainder by 256.
unfoldable pub crc16_step : List ℕ → ℕ → ℕ → ℕ
crc16_step table crc b = u16 (bit_xor (crc * 256) (get_or table (bit_xor (crc / 256) b % 256) 0))

unfoldable pub crc16_loop : List ℕ → (ℕ → ℕ) → List ℕ → ℕ → ℕ
crc16_loop table in_bits [] crc = crc
crc16_loop table in_bits (b ∷ buf) crc =
    crc16_loop table in_bits buf (crc16_step table crc (in_bits b))

-- All 16 bits mirrored: `Reverse` takes the low byte of its argument.
unfoldable pub reverse_u16 : ℕ → ℕ
reverse_u16 crc = u16 (reverse_bits (u8 (crc / 256)) + reverse_bits (u8 crc) * 0x100)

unfoldable pub crc16 : List ℕ → List ℕ → ℕ → Bool → Bool → ℕ → ℕ
crc16 table buf init ref_in ref_out xor_out =
    bit_xor (if ref_out then reverse_u16 looped else looped) xor_out
  where
    looped : ℕ
    looped =
        if ref_in
        then crc16_loop table reverse_bits buf (reverse_u16 init)
        else crc16_loop table (λ b. b) buf init

unfoldable pub crc16_1021 : List ℕ → ℕ → ℕ
unfolding crc16
crc16_1021 buf precrc = crc16 crc16_1021_table buf precrc false false 0

unfoldable pub crc16_8005 : List ℕ → ℕ → ℕ
unfolding crc16
crc16_8005 buf precrc = crc16 crc16_8005_table buf precrc true true 0

unfoldable pub crc32 : List ℕ → ℕ → ℕ
crc32 [] crc = crc
crc32 (b ∷ buf) crc =
    crc32 buf (u32 (bit_xor (crc * 256) (get_or crc32_table (bit_xor (crc / 16777216) b % 256) 0)))
