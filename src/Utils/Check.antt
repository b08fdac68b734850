-- ===== src/Utils/Check.antt =====
-- Class Check of src/module/Utils.cpp: the tests of received characters.
use gc.Common.{
  ℕ, ◌%◌, Bool, true, false, ◌&&◌, ◌||◌, List, [], ◌∷◌, ltb, leb, ◌==◌, not, if◌then◌else◌, length,
}

-- The C library's isxdigit.
abbrev pub is_xdigit : ℕ → Bool
is_xdigit c =
    (leb b'0' c && leb c b'9') || ((leb b'A' c && leb c b'F') || (leb b'a' c && leb c b'f'))

unfoldable pub all_xdigits : List ℕ → Bool
all_xdigits [] = true
all_xdigits (c ∷ cs) = is_xdigit c && all_xdigits cs

-- Results of `HexStr`: 0, -1 and -2.
pub data HexCheck : Type 0 where
  hex_ok bad_length bad_digit : HexCheck

-- The list is the buffer up to the length argument.
unfoldable pub hex_str : List ℕ → HexCheck
hex_str frm =
    if ltb (length frm) 2 || not (length frm % 2 == 0)
    then bad_length
    else (if all_xdigits frm then hex_ok else bad_digit)

-- `Text`: true stands for 0, false for -1.
unfoldable pub text : List ℕ → Bool
text [] = true
text (c ∷ cs) = if ltb c 0x20 || leb 0x7f c then false else text cs
