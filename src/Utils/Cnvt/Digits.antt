-- ===== src/Utils/Cnvt/Digits.antt =====
-- The printers of hexadecimal text of src/module/Utils.cpp print digits.
use gc.Common.{
  ℕ, ◌/◌, ◌%◌, ◌<◌, ◌≡◌, refl, true, List, [], ◌∷◌, ◌++◌, arith, length, get_or, holds_below,
  holds_below-at,
}
use gc.Utils.Check.{is_xdigit, all_xdigits}
use gc.Utils.Cnvt.{asc, u16_to_asc, parse_to_asc}

asc_table : holds_below 16 (λ d. is_xdigit (get_or asc d 0)) ≡ true
unfolding holds_below
asc_table = refl

pub all_xdigits-append :
    (xs ys : List ℕ) → all_xdigits xs ≡ true → all_xdigits ys ≡ true → all_xdigits (xs ++ ys) ≡ true
unfolding all_xdigits
all_xdigits-append [] ys h k = k
all_xdigits-append (x ∷ xs) ys h k = ground (arith, all_xdigits-append xs ys)

all_xdigits-parse_to_asc : (h : ℕ) → h < 256 → all_xdigits (parse_to_asc h) ≡ true
unfolding all_xdigits parse_to_asc
all_xdigits-parse_to_asc h lt =
    rw
      (
        holds_below-at 16 (λ d. is_xdigit (get_or asc d 0)) (h / 16) asc_table (omega arith),
        holds_below-at 16 (λ d. is_xdigit (get_or asc d 0)) (h % 16) asc_table (omega arith),
      )
      refl

pub all_xdigits-u16_to_asc : (h : ℕ) → all_xdigits (u16_to_asc h) ≡ true
unfolding u16_to_asc
all_xdigits-u16_to_asc h =
    all_xdigits-append (parse_to_asc (h / 256 % 256)) (parse_to_asc (h % 256))
      (all_xdigits-parse_to_asc (h / 256 % 256) (omega arith))
      (all_xdigits-parse_to_asc (h % 256) (omega arith))

pub length-u16_to_asc : (h : ℕ) → length (u16_to_asc h) ≡ 4
unfolding u16_to_asc parse_to_asc
length-u16_to_asc h = refl
