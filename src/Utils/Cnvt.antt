-- ===== src/Utils/Cnvt.antt =====
-- Class Cnvt of src/module/Utils.cpp: hexadecimal text and big-endian words.
-- `none` stands for the result -1. A buffer that a function writes is the list that it returns.
pub mod Hex
pub mod Digits
pub mod Words
mod Tests
use gc.Common.{
  ◌>>=◌, ℕ, zero, suc, ◌+◌, ◌-◌, ◌*◌, ◌/◌, ◌%◌, Bool, true, false, ◌&&◌, ◌||◌, Option, none, some,
  List, [], ◌∷◌, ◌++◌, leb, ◌==◌, if◌then◌else◌, length, get_or, u8, u16, u32,
}

-- One round of the loop of `ParseToU8`: the value of a digit.
unfoldable pub hex_digit : ℕ → Option ℕ
hex_digit c =
    if leb b'0' c && leb c b'9'
    then some (c - b'0')
    else (if leb b'A' c && leb c b'F'
        then some (c - b'A' + 0x0a)
        else (if leb b'a' c && leb c b'f' then some (c - b'a' + 0x0a) else none))

-- The two characters at the pointer.
unfoldable pub parse_to_u8 : ℕ → ℕ → Option ℕ
unfolding hex_digit
parse_to_u8 a b = do j ← hex_digit a; k ← hex_digit b; some (j * 16 + k)

-- The overload with a destination, past its length test: what was written, and whether all of the
-- text was read. The last clause is an odd end, which that test rules out.
unfoldable pub parse_pairs : List ℕ → List ℕ × Bool
parse_pairs [] = ([], true)
parse_pairs (a ∷ b ∷ cs) =
    let rest = parse_pairs cs in
    elim (parse_to_u8 a b) [ none ↦ ([], false) | some x ↦ (x ∷ rest.0, rest.1) ]
parse_pairs (a ∷ []) = ([], false)

-- `srclen` is the length of the list.
unfoldable pub parse_bytes : List ℕ → List ℕ × Bool
parse_bytes src = if length src % 2 == 1 || leb (length src) 0 then ([], false) else parse_pairs src

-- The loop of `ParseToU16` and `ParseToU32`: so many rounds, with the value so far. A text that
-- ends too early gives `none`; the callers always have the characters.
unfoldable pub parse_rounds : ℕ → List ℕ → ℕ → Option ℕ
parse_rounds zero src k = some k
parse_rounds (suc n) (a ∷ b ∷ cs) k = do x ← parse_to_u8 a b; parse_rounds n cs (k * 0x100 + x)
parse_rounds (suc n) _ k = none

unfoldable pub parse_to_u16 : List ℕ → Option ℕ
parse_to_u16 src = parse_rounds 2 src 0

-- `int64_t` holds every value.
unfoldable pub parse_to_u32 : List ℕ → Option ℕ
parse_to_u32 src = parse_rounds 4 src 0

abbrev asc : List ℕ
asc =
    b'0' ∷ b'1' ∷ b'2' ∷ b'3' ∷ b'4' ∷ b'5' ∷ b'6' ∷ b'7' ∷ b'8' ∷ b'9' ∷ b'A' ∷ b'B' ∷ b'C' ∷ b'D'
    ∷ b'E' ∷ b'F' ∷ []

-- `h & 0x0F` is the remainder by 16.
unfoldable pub parse_to_asc : ℕ → List ℕ
parse_to_asc h = get_or asc (h / 16) 0 ∷ get_or asc (h % 16) 0 ∷ []

unfoldable pub bytes_to_asc : List ℕ → List ℕ
unfolding parse_to_asc
bytes_to_asc [] = []
bytes_to_asc (h ∷ hs) = parse_to_asc h ++ bytes_to_asc hs

-- Written from the last byte down.
pub uint_to_asc : List ℕ → List ℕ
uint_to_asc [] = []
uint_to_asc (h ∷ hs) = uint_to_asc hs ++ parse_to_asc h

-- The bytes of the integer in memory, lowest first.
unfoldable pub u16_to_asc : ℕ → List ℕ
unfolding uint_to_asc
u16_to_asc h = uint_to_asc (h % 256 ∷ h / 256 % 256 ∷ [])

unfoldable pub u32_to_asc : ℕ → List ℕ
unfolding uint_to_asc
u32_to_asc h = uint_to_asc (h % 256 ∷ h / 256 % 256 ∷ h / 65536 % 256 ∷ h / 16777216 % 256 ∷ [])

-- The two bytes at the pointer.
unfoldable pub get_u16 : ℕ → ℕ → ℕ
get_u16 a b = u16 (a * 0x100 + b)

unfoldable pub put_u16 : ℕ → List ℕ
put_u16 v = u8 (v / 0x100) ∷ v % 256 ∷ []

-- The loop over the bytes at the pointer, with the value so far.
unfoldable pub get_u32_from : List ℕ → ℕ → ℕ
get_u32_from [] x = x
get_u32_from (b ∷ bs) x = get_u32_from bs (u32 (u32 (x * 0x100) + b))

unfoldable pub get_u32 : ℕ → ℕ → ℕ → ℕ → ℕ
unfolding get_u32_from
get_u32 a b c d = get_u32_from (a ∷ b ∷ c ∷ d ∷ []) 0

-- The loop that writes `n` bytes downwards; `out` is what stands above.
pub put_u32_down : ℕ → ℕ → List ℕ → List ℕ
put_u32_down zero v out = out
put_u32_down (suc n) v out = put_u32_down n (v / 256) (v % 256 ∷ out)

unfoldable pub put_u32 : ℕ → List ℕ
unfolding put_u32_down
put_u32 v = put_u32_down 4 v []

unfoldable pub swap_u16 : ℕ → ℕ
swap_u16 v = u16 (v % 256 * 0x100 + v / 0x100)

abbrev nibble_table : List ℕ
nibble_table =
    0x0 ∷ 0x8 ∷ 0x4 ∷ 0xc ∷ 0x2 ∷ 0xa ∷ 0x6 ∷ 0xe ∷ 0x1 ∷ 0x9 ∷ 0x5 ∷ 0xd ∷ 0x3 ∷ 0xb ∷ 0x7 ∷ 0xf
    ∷ []

-- `Reverse`; the two halves do not overlap, so `|` is a sum.
unfoldable pub reverse_bits : ℕ → ℕ
reverse_bits n = u8 (get_or nibble_table (n % 16) 0 * 16) + get_or nibble_table (n / 16) 0
