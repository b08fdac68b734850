-- ===== src/Common/Words.antt =====
-- Unsigned integers of a fixed width, as native numbers with the wrap written out.
use Prim.Native.Nat.{ℕ, ◌+◌, ◌-◌, ◌%◌, ◌<◌}
use mathlib.Core.Path.{◌≡◌}
use native.Mathlib.Omega.{arith}

-- A cast to uint32_t.
abbrev pub u32 : ℕ → ℕ
u32 value = value % 4294967296

-- A cast to uint16_t.
abbrev pub u16 : ℕ → ℕ
u16 value = value % 65536

-- A cast to uint8_t.
abbrev pub u8 : ℕ → ℕ
u8 value = value % 256

-- uint16_t a - b.
abbrev pub sub_u16 : ℕ → ℕ → ℕ
sub_u16 a b = (a + 65536 - b) % 65536

pub u16-lt : (n : ℕ) → u16 n < 65536
u16-lt n = omega arith

-- What was subtracted can be added back.
pub u16-sub_u16-add : (a b : ℕ) → a < 65536 → b < 65536 → u16 (sub_u16 a b + b) ≡ a
u16-sub_u16-add a b h k = omega arith
