-- ===== src/Utils/Crc/Tests.antt =====
-- Runs and instances for the checksums of src/module/Utils.cpp.
use gc.Common.{ℕ, ◌≡◌, refl, arith, List, [], ◌∷◌}
use gc.Utils.Cnvt.Hex.{are_bytes-AreBytes}
use gc.Utils.Crc.{crc16_1021, crc16_loop, crc16_step}
use gc.Utils.Crc.Tables.{crc16_1021_table}
use gc.Utils.Crc.Division.{divide}
use gc.Utils.Crc.Bitwise.{crc16_1021-divide}

-- "123456789".
abbrev digits : List ℕ
digits = b'1' ∷ b'2' ∷ b'3' ∷ b'4' ∷ b'5' ∷ b'6' ∷ b'7' ∷ b'8' ∷ b'9' ∷ []

crc16_1021_check : crc16_1021 digits 0 ≡ 0x31c3
unfolding crc16_1021 crc16_loop crc16_step crc16_1021_table
crc16_1021_check = refl

crc16_1021-divide_example : crc16_1021 digits 0 ≡ divide 32768 0x1021 digits 0
crc16_1021-divide_example =
    crc16_1021-divide digits 0 (are_bytes-AreBytes digits refl) (omega arith)
