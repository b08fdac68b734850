-- ===== src/Layer/DtLk.antt =====
-- Class LayerDtLk of src/layer/LayerDtLk.cpp: cuts packets out of the received bytes.
pub mod Packets
mod Tests
use gc.Common.{
  ℕ, Bool, true, false, Option, none, some, List, [], ◌∷◌, ◌++◌, ltb, ◌==◌, if◌then◌else◌, length,
}

-- CTRL_CHAR of include/tsisp003/TsiSp003Const.h.
abbrev pub soh : ℕ
soh = 0x01

abbrev pub stx : ℕ
stx = 0x02

abbrev pub etx : ℕ
etx = 0x03

abbrev pub ack : ℕ
ack = 0x06

abbrev pub nak : ℕ
nak = 0x15

-- The collected bytes are `buf` up to `length`.
pub record DtLk : Type 0 where
  pub buf : List ℕ
  pub max_pkt_size : ℕ

-- What a byte does: it goes on, or it ends a packet, which goes to the upper layer.
pub data Taken : Type 0 where
  goes_on : DtLk → Taken
  packet : List ℕ → Taken

unfoldable pub take_byte : DtLk → ℕ → Taken
take_byte s c =
    if c == soh
    then goes_on (record s { buf = c ∷ [] })
    else (if c == nak
        then goes_on s
        else (if ltb 0 (length s.buf)
            then (if ltb (length s.buf) s.max_pkt_size
                then (if c == etx
                    then packet (s.buf ++ c ∷ [])
                    else goes_on (record s { buf = s.buf ++ c ∷ [] }))
                else goes_on (record s { buf = [] }))
            else goes_on s))

-- `Rx`: the new state and the packet handed to the upper layer. After a packet the other bytes are
-- discarded.
unfoldable pub rx : DtLk → List ℕ → DtLk × Option (List ℕ)
rx s [] = (s, none)
rx s (c ∷ cs) = elim (take_byte s c) [
  | goes_on s' ↦ rx s' cs
  | packet p ↦ (record s { buf = [] }, some p)
]

unfoldable pub clr_rx : DtLk → DtLk
clr_rx s = record s { buf = [] }
