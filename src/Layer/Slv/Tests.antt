-- ===== src/Layer/Slv/Tests.antt =====
-- An instance for src/layer/LayerSlv.cpp.
use gc.Common.{ℕ, ◌≡◌, refl, true, some, List, [], ◌∷◌, ◌++◌, arith}
use gc.Utils.Check.{all_xdigits}
use gc.Layer.Slv.{Slv, rx, tx}
use gc.Layer.Slv.Packets.{rx-tx_slave}

abbrev sender : Slv
sender = record { buf = []; max_pkt_size = 64 }

-- It has collected the start of a packet whose rest was lost.
abbrev receiver : Slv
receiver = record { buf = 2 ∷ b'7' ∷ []; max_pkt_size = 64 }

abbrev seven : List ℕ
seven = b'0' ∷ b'1' ∷ b'2' ∷ b'9' ∷ b'A' ∷ b'f' ∷ b'F' ∷ []

abbrev digits : List ℕ
digits = seven ++ (seven ++ (seven ++ seven))

are_digits : all_xdigits digits ≡ true
unfolding all_xdigits
are_digits = refl

rx-tx_slave_example :
    rx receiver ((tx sender digits).1 ++ b'X' ∷ []) ≡ (record receiver { buf = [] }, some digits)
rx-tx_slave_example =
    rx-tx_slave sender receiver digits (b'X' ∷ []) are_digits refl (omega arith) (omega arith)
