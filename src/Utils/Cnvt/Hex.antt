-- ===== src/Utils/Cnvt/Hex.antt =====
-- Hexadecimal text of src/module/Utils.cpp: its printers, its parsers and Check::HexStr.
use gc.Common.{
  zero, ℕ, suc, ◌+◌, ◌-◌, ◌*◌, ◌/◌, ◌%◌, ◌<◌, ◌≡◌, refl, ap, ap₂, Bool, true, false, ◌&&◌, none,
  some, List, map, [], ◌∷◌, ◌++◌, arith, ltb, leb, ◌==◌, ==_iff, if◌then◌else◌, length, get_or,
  holds_below, holds_below-at, holds, holds-eq, Option-cases, append_assoc, ◌↔◌, ◌⊎◌, ◌∙◌, inl, inr,
}
use gc.Utils.Check.{hex_ok, hex_str, is_xdigit, all_xdigits}
use gc.Utils.Cnvt.{
  hex_digit, parse_to_u8, parse_pairs, parse_rounds, parse_bytes, parse_to_u16, parse_to_u32,
  put_u32, put_u32_down, parse_to_asc, asc, bytes_to_asc, u16_to_asc, u32_to_asc,
}

-- Every element is a uint8_t.
abbrev pub AreBytes : List ℕ → Type 0
AreBytes [] = Unit {0}
AreBytes (b ∷ bs) = (b < 256) × AreBytes bs

digit_table : holds_below 16 (λ d. holds (hex_digit (get_or asc d 0)) d) ≡ true
unfolding holds_below hex_digit
digit_table = refl

hex_digit-asc : (d : ℕ) → d < 16 → hex_digit (get_or asc d 0) ≡ some d
hex_digit-asc d h = holds-eq _ d (holds_below-at 16 _ d digit_table h)

-- The two digits of a byte parse back to it.
pub parse_to_u8-asc :
    (h : ℕ) → h < 256 → parse_to_u8 (get_or asc (h / 16) 0) (get_or asc (h % 16) 0) ≡ some h
unfolding parse_to_u8
parse_to_u8-asc h lt =
    rw (hex_digit-asc (h / 16) (omega arith), hex_digit-asc (h % 16) (omega arith))
      (ap some (omega arith))

-- Printing bytes as hexadecimal text and parsing the text gives the bytes back, with success.
parse_pairs-bytes_to_asc : (bs : List ℕ) → AreBytes bs → parse_pairs (bytes_to_asc bs) ≡ (bs, true)
unfolding parse_pairs bytes_to_asc
parse_pairs-bytes_to_asc [] h = refl
parse_pairs-bytes_to_asc (b ∷ bs) h =
    rw (parse_to_u8-asc b h.0, parse_pairs, parse_pairs-bytes_to_asc bs h.1)

pub length-bytes_to_asc : (bs : List ℕ) → length (bytes_to_asc bs) ≡ 2 * length bs
unfolding bytes_to_asc
length-bytes_to_asc [] = refl
length-bytes_to_asc (b ∷ bs) = omega (arith, length-bytes_to_asc bs)

-- Past the length test there is the loop alone.
parse_bytes-even :
    (src : List ℕ) → length src % 2 ≡ 0 → 0 < length src → parse_bytes src ≡ parse_pairs src
unfolding parse_bytes
parse_bytes-even src e h = ground arith

parse_bytes-odd :
    (src : List ℕ) → (length src % 2 ≡ 1) ⊎ (length src ≡ 0) → parse_bytes src ≡ ([], false)
unfolding parse_bytes
parse_bytes-odd src h = ground arith

-- Text that ParseToStr printed from at least one byte is read back by ParseToU8, whole.
pub parse_bytes-bytes_to_asc :
    (b : ℕ) (bs : List ℕ) → AreBytes (b ∷ bs) → parse_bytes (bytes_to_asc (b ∷ bs)) ≡ (b ∷ bs, true)
parse_bytes-bytes_to_asc b bs h =
    parse_bytes-even _ (omega (arith, length-bytes_to_asc (b ∷ bs)))
      (omega (arith, length-bytes_to_asc (b ∷ bs)))
    ∙ parse_pairs-bytes_to_asc (b ∷ bs) h

-- A digit is what isxdigit accepts, and has a value below 16.
digit_cases :
    (c : ℕ)
    → ((is_xdigit c ≡ true) × (d : ℕ) × (hex_digit c ≡ some d) × (d < 16))
      ⊎ ((is_xdigit c ≡ false) × (hex_digit c ≡ none))
unfolding hex_digit
digit_cases c = elim (Option-cases (hex_digit c)) [
  | inl e ↦ inr (ground arith, e)
  | inr (d, e) ↦ inl (ground arith, d, e, ground arith)
]

parse_to_u8-is_xdigit :
    (a b : ℕ)
    → ((is_xdigit a && is_xdigit b ≡ true) × (x : ℕ) × (parse_to_u8 a b ≡ some x) × (x < 256))
      ⊎ ((is_xdigit a && is_xdigit b ≡ false) × (parse_to_u8 a b ≡ none))
unfolding parse_to_u8
parse_to_u8-is_xdigit a b = elim (digit_cases a) [
  | inr (p, q) ↦ inr (rw p, rw q)
  | inl (p, j, q, hj) ↦ elim (digit_cases b) [
    | inr (r, s) ↦ inr (rw (p, r), rw (q, s))
    | inl (r, k, s, hk) ↦ inl (rw (p, r), j * 16 + k, rw (q, s), omega arith)
  ]
]

parse_pairs-all_xdigits :
    (src : List ℕ) → length src % 2 ≡ 0 → (parse_pairs src).1 ≡ all_xdigits src
unfolding parse_pairs all_xdigits
parse_pairs-all_xdigits [] h = refl
parse_pairs-all_xdigits (a ∷ []) h = absurd (omega arith)
parse_pairs-all_xdigits (a ∷ b ∷ cs) h = elim (parse_to_u8-is_xdigit a b) [
  | inr (p, q) ↦ ground arith
  | inl (p, x, q, hx) ↦ ground (arith, parse_pairs-all_xdigits cs (omega arith))
]

-- ParseToU8 reads a text to its end exactly when Check::HexStr accepts it.
pub parse_bytes-hex_str : (src : List ℕ) → ((parse_bytes src).1 ≡ true) ↔ (hex_str src ≡ hex_ok)
unfolding parse_bytes hex_str
parse_bytes-hex_str src = ground (arith, parse_pairs-all_xdigits src)

-- The capital of a hexadecimal digit.
unfoldable pub upper : ℕ → ℕ
upper c = if leb b'a' c && leb c b'f' then c - 32 else c

-- A digit is printed again as the capital that has its value.
digit_prints : ℕ → Bool
digit_prints c = elim (hex_digit c) [ none ↦ true | some d ↦ get_or asc d 0 == upper c ]

digit_prints_table : holds_below 103 digit_prints ≡ true
unfolding holds_below digit_prints hex_digit upper
digit_prints_table = refl

hex_digit-lt : (c d : ℕ) → hex_digit c ≡ some d → c < 103
unfolding hex_digit
hex_digit-lt c d e = ground arith

asc-hex_digit : (c d : ℕ) → hex_digit c ≡ some d → get_or asc d 0 ≡ upper c
unfolding digit_prints
asc-hex_digit c d e = (==_iff _ _).0 (
    rw (e, digit_prints) at
      (holds_below-at 103 digit_prints c digit_prints_table (hex_digit-lt c d e)))

asc_pair :
    (j k : ℕ) → j < 16 → k < 16 → parse_to_asc (j * 16 + k) ≡ get_or asc j 0 ∷ get_or asc k 0 ∷ []
unfolding parse_to_asc
asc_pair j k hj hk = ap₂ (λ x y. get_or asc x 0 ∷ get_or asc y 0 ∷ []) (omega arith) (omega arith)

parse_to_asc-parse_to_u8 :
    (a b x : ℕ) → parse_to_u8 a b ≡ some x → parse_to_asc x ≡ upper a ∷ upper b ∷ []
unfolding parse_to_u8
parse_to_asc-parse_to_u8 a b x e = elim (digit_cases a) [
  | inr (p, q) ↦ ground arith
  | inl (p, j, q, hj) ↦ elim (digit_cases b) [
    | inr (r, s) ↦ ground arith
    | inl (r, k, s, hk) ↦
        ground (arith, asc_pair j k hj hk, asc-hex_digit a j q, asc-hex_digit b k s)
  ]
]

reprint_pairs :
    (src : List ℕ) → (parse_pairs src).1 ≡ true → bytes_to_asc (parse_pairs src).0 ≡ map upper src
unfolding parse_pairs bytes_to_asc
reprint_pairs [] h = refl
reprint_pairs (a ∷ []) h = cc
reprint_pairs (a ∷ b ∷ cs) h = elim (Option-cases (parse_to_u8 a b)) [
  | inl e ↦ ground arith
  | inr (x, e) ↦ ground (arith, parse_to_asc-parse_to_u8 a b x e, reprint_pairs cs)
]

-- A text that ParseToU8 reads to its end is the text that ParseToAsc prints of the bytes that were
-- written, but for the case of the digits.
pub bytes_to_asc-parse_bytes :
    (src : List ℕ) → (parse_bytes src).1 ≡ true → bytes_to_asc (parse_bytes src).0 ≡ map upper src
unfolding parse_bytes
bytes_to_asc-parse_bytes src h = ground (arith, reprint_pairs src)

parse_rounds-asc :
    (n h k : ℕ) (rest : List ℕ)
    → h < 256
    → parse_rounds (suc n) (parse_to_asc h ++ rest) k ≡ parse_rounds n rest (k * 256 + h)
unfolding parse_rounds parse_to_asc
parse_rounds-asc n h k rest lt = rw (parse_to_u8-asc h lt)

-- A 16-bit word printed by ParseU16ToAsc parses back, whatever text follows it.
pub parse_to_u16-u16_to_asc :
    (h : ℕ) (rest : List ℕ) → h < 65536 → parse_to_u16 (u16_to_asc h ++ rest) ≡ some h
unfolding u16_to_asc parse_to_u16 parse_rounds
parse_to_u16-u16_to_asc h rest lt =
    simp
      (
        append_assoc,
        parse_rounds-asc 1 (h / 256 % 256) 0 (parse_to_asc (h % 256) ++ rest) (omega arith),
        parse_rounds-asc 0 (h % 256) (0 * 256 + h / 256 % 256) rest (omega arith),
      )
      (ap some (omega arith))

-- A 32-bit word printed by ParseU32ToAsc parses back, whatever text follows it.
pub parse_to_u32-u32_to_asc :
    (h : ℕ) (rest : List ℕ) → h < 4294967296 → parse_to_u32 (u32_to_asc h ++ rest) ≡ some h
unfolding u32_to_asc parse_to_u32 parse_rounds
parse_to_u32-u32_to_asc h rest lt =
    simp
      (
        append_assoc,
        parse_rounds-asc 3 (h / 16777216 % 256) 0 _ (omega arith),
        parse_rounds-asc 2 (h / 65536 % 256) _ _ (omega arith),
        parse_rounds-asc 1 (h / 256 % 256) _ _ (omega arith),
        parse_rounds-asc 0 (h % 256) _ rest (omega arith),
      )
      (ap some (omega arith))

-- Whether all numbers of a list are bytes, to be evaluated.
abbrev pub are_bytes : List ℕ → Bool
are_bytes [] = true
are_bytes (b ∷ bs) = ltb b 256 && are_bytes bs

pub are_bytes-AreBytes : (bs : List ℕ) → are_bytes bs ≡ true → AreBytes bs
are_bytes-AreBytes [] h = tt
are_bytes-AreBytes (b ∷ bs) h = (ground arith, are_bytes-AreBytes bs (ground arith))

put_u32_down-AreBytes : (n v : ℕ) (out : List ℕ) → AreBytes out → AreBytes (put_u32_down n v out)
unfolding put_u32_down
put_u32_down-AreBytes zero v out h = h
put_u32_down-AreBytes (suc n) v out h =
    put_u32_down-AreBytes n (v / 256) (v % 256 ∷ out) (omega arith, h)

pub put_u32-AreBytes : (v : ℕ) → AreBytes (put_u32 v)
unfolding put_u32
put_u32-AreBytes v = put_u32_down-AreBytes 4 v [] tt
