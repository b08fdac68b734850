-- ===== src/Utils/Bits/Tests.antt =====
-- Instances for class Bits of src/module/Utils.cpp.
use gc.Common.{◌≡◌, refl}
use gc.Utils.Bits.{Bits, init}

abbrev empty : Bits
empty = init 12

ten : empty.size ≡ 12
unfolding init
ten = refl
