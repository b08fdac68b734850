-- ===== src/Layer/DtLk/Tests.antt =====
-- Instances for src/layer/LayerDtLk.cpp.
use gc.Common.{ℕ, ◌≡◌, refl, some, List, [], ◌∷◌, ◌++◌, arith}
use gc.Layer.DtLk.{DtLk, soh, etx, rx, take_byte}
use gc.Layer.DtLk.Packets.{idle, IsPacket, rx-IsPacket, rx-packet}

abbrev fresh : DtLk
fresh = record { buf = []; max_pkt_size = 16 }

-- Noise, a packet, and a byte behind it.
abbrev line : List ℕ
line = 0x30 ∷ soh ∷ 0x31 ∷ 0x32 ∷ etx ∷ 0x33 ∷ []

abbrev cut : List ℕ
cut = soh ∷ 0x31 ∷ 0x32 ∷ etx ∷ []

found : (rx fresh line).1 ≡ some cut
unfolding rx take_byte
found = refl

rx-IsPacket_example : IsPacket 16 cut
rx-IsPacket_example = rx-IsPacket fresh line cut (idle refl (omega arith)) found

rx-packet_example :
    rx fresh (soh ∷ ((0x31 ∷ []) ++ etx ∷ 0x33 ∷ []))
    ≡ (record fresh { buf = [] }, some (soh ∷ ((0x31 ∷ []) ++ etx ∷ [])))
rx-packet_example =
    rx-packet fresh (0x31 ∷ []) (0x33 ∷ [])
      ((λ e. omega (arith, e), λ e. omega (arith, e), λ e. omega (arith, e)), tt) (omega arith)
