-- ===== src/Utils/Bits.antt =====
-- Classes BitOffset and Bits of src/module/Utils.cpp: a set of bits, eight to a byte. An offset is not
-- negative; the exception out_of_range is `none`.
pub mod Bytes
pub mod Laws
mod Tests
use gc.Common.{
  ℕ, zero, suc, ◌+◌, ◌-◌, ◌*◌, ◌/◌, ◌%◌, ◌^◌, Bool, true, false, not, Option, none, some, List, [],
  ◌∷◌, leb, ◌==◌, if◌then◌else◌, get_or, set, replicate, length,
}

-- The first entries of MASK_BIT, of which only these are used here.
abbrev pub mask_bit : ℕ → ℕ
mask_bit k = 2 ^ k

-- A byte with one bit set, cleared and tested, by `|`, `& ~` and `&` with a mask of one bit.
unfoldable pub byte_get : ℕ → ℕ → Bool
byte_get b k = not (b / mask_bit k % 2 == 0)

unfoldable pub byte_set : ℕ → ℕ → ℕ
byte_set b k = if b / mask_bit k % 2 == 0 then b + mask_bit k else b

unfoldable pub byte_clr : ℕ → ℕ → ℕ
byte_clr b k = if b / mask_bit k % 2 == 0 then b else b - mask_bit k

unfoldable pub set_07_bit : List ℕ → ℕ → List ℕ
set_07_bit buf i = set buf (i / 8) (byte_set (get_or buf (i / 8) 0) (7 - i % 8))

unfoldable pub clr_07_bit : List ℕ → ℕ → List ℕ
clr_07_bit buf i = set buf (i / 8) (byte_clr (get_or buf (i / 8) 0) (7 - i % 8))

unfoldable pub get_07_bit : List ℕ → ℕ → Bool
get_07_bit buf i = byte_get (get_or buf (i / 8) 0) (7 - i % 8)

unfoldable pub set_70_bit : List ℕ → ℕ → List ℕ
set_70_bit buf i = set buf (i / 8) (byte_set (get_or buf (i / 8) 0) (i % 8))

unfoldable pub clr_70_bit : List ℕ → ℕ → List ℕ
clr_70_bit buf i = set buf (i / 8) (byte_clr (get_or buf (i / 8) 0) (i % 8))

unfoldable pub get_70_bit : List ℕ → ℕ → Bool
get_70_bit buf i = byte_get (get_or buf (i / 8) 0) (i % 8)

pub record Bits : Type 0 where
  pub size : ℕ
  pub bytes : List ℕ

-- The constructor with a size, and Init.
unfoldable pub init : ℕ → Bits
init size = record { size = size; bytes = replicate ((size + 7) / 8) 0 }

unfoldable pub set_bit : ℕ → Bits → Option Bits
set_bit i s = if leb s.size i then none else some (record s { bytes = set_07_bit s.bytes i })

unfoldable pub clr_bit : ℕ → Bits → Option Bits
clr_bit i s = if leb s.size i then none else some (record s { bytes = clr_07_bit s.bytes i })

unfoldable pub clr_all : Bits → Bits
clr_all s = record s { bytes = replicate (length s.bytes) 0 }

unfoldable pub get_bit : ℕ → Bits → Option Bool
get_bit i s = if leb s.size i then none else some (get_07_bit s.bytes i)

-- The loop of GetMaxBit; `none` stands for -1.
unfoldable pub max_from : Bits → ℕ → ℕ → Option ℕ → Option ℕ
max_from s zero i max = max
max_from s (suc left) i max = max_from s left (i + 1) (if get_07_bit s.bytes i then some i else max)

unfoldable pub get_max_bit : Bits → Option ℕ
get_max_bit s = max_from s s.size 0 none
