-- ===== src/Utils/Cnvt/Tests.antt =====
-- Runs and instances for the conversions of src/module/Utils.cpp.
use gc.Common.{◌≡◌, refl, true, [], ◌∷◌}
use gc.Utils.Cnvt.{parse_bytes, parse_pairs, parse_to_u8, hex_digit}

reprinted : (parse_bytes (b'1' ∷ b'a' ∷ [])).1 ≡ true
unfolding parse_bytes parse_pairs parse_to_u8 hex_digit
reprinted = refl
