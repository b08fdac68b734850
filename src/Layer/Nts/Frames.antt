-- ===== src/Layer/Nts/Frames.antt =====
-- The blocks of src/layer/LayerNTS.cpp and the test of their checksum.
use gc.Common.{
  ℕ, zero, suc, ◌+◌, ◌-◌, ◌≡◌, refl, sym, ap, ◌∙◌, true, some, List, [], ◌∷◌, ◌++◌, append-nil,
  arith, length, ==_iff,
}
use gc.Tsisp003.Memory.{slice, holding}
use gc.Utils.Cnvt.{parse_to_u16, u16_to_asc, parse_to_asc}
use gc.Utils.Cnvt.Hex.{parse_to_u16-u16_to_asc}
use gc.Utils.Crc.{crc16_1021}
use gc.Utils.Crc.Bitwise.{crc16_1021-lt}
use gc.Layer.DtLk.{etx}
use gc.Layer.Nts.{end_of_block, crc_ok}

slice-shift :
    (x : ℕ) (xs : List ℕ) (p n : ℕ) → slice (holding (x ∷ xs)) (suc p) n ≡ slice (holding xs) p n
slice-shift x xs p zero = refl
slice-shift x xs p (suc n) =
    let next : suc p + 1 ≡ suc (p + 1) = omega arith in
    rw next (ap (λ t. holding xs p ∷ t) (slice-shift x xs (p + 1) n))

-- A part of a list, in a buffer that holds the list.
slice-holding :
    (xs ys zs : List ℕ) → slice (holding (xs ++ (ys ++ zs))) (length xs) (length ys) ≡ ys
slice-holding (x ∷ xs) ys zs =
    slice-shift x (xs ++ (ys ++ zs)) (length xs) (length ys) ∙ slice-holding xs ys zs
slice-holding [] [] zs = refl
slice-holding [] (y ∷ ys) zs =
    ap (λ t. y ∷ t) (slice-shift y (ys ++ zs) 0 (length ys) ∙ slice-holding [] ys zs)

-- Whatever is put into a block, EndOfBlock closes it so that the test of the checksum in Rx accepts
-- the block.
pub crc_ok-end_of_block : (p : List ℕ) → crc_ok (holding (end_of_block p)) (length p + 5) ≡ true
unfolding crc_ok end_of_block u16_to_asc parse_to_asc
crc_ok-end_of_block p = rw (cut, front, back, parsed) ((==_iff crc crc).1 refl)
  where
    crc : ℕ
    crc = crc16_1021 p 0

    cut : length p + 5 - 5 ≡ length p
    cut = omega arith

    front : slice (holding (p ++ (u16_to_asc crc ++ etx ∷ []))) 0 (length p) ≡ p
    front = slice-holding [] p (u16_to_asc crc ++ etx ∷ [])

    back : slice (holding (p ++ (u16_to_asc crc ++ etx ∷ []))) (length p) 4 ≡ u16_to_asc crc
    back = slice-holding p (u16_to_asc crc) (etx ∷ [])

    parsed : parse_to_u16 (u16_to_asc crc) ≡ some crc
    parsed = ap parse_to_u16 (sym (append-nil _)) ∙ parse_to_u16-u16_to_asc crc [] (crc16_1021-lt p)
