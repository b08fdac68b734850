-- ===== src/Layer/Slv.antt =====
-- Class LayerSlv of src/layer/LayerSlv.cpp: the packets to and from the slaves of a group.
-- The ring of received bytes is only cleared, and the queue that logs packets is left out.
pub mod Packets
mod Tests
use gc.Common.{
  ℕ, ◌+◌, ◌-◌, ◌%◌, Bool, true, false, ◌&&◌, ◌||◌, Option, none, some, List, [], ◌∷◌, ◌++◌, ltb,
  leb, ◌==◌, if◌then◌else◌, length, take, drop,
}
use gc.Utils.Check.{is_xdigit}
use gc.Utils.Cnvt.{parse_to_u16, u16_to_asc}
use gc.Utils.Crc.{crc16_8005}
use gc.Layer.DtLk.{stx, etx}

-- The collected bytes are `buf` up to `length`.
pub record Slv : Type 0 where
  pub buf : List ℕ
  pub max_pkt_size : ℕ

-- What a byte does: it goes on, or it ends a packet.
pub data Taken : Type 0 where
  goes_on : Slv → Taken
  ends : List ℕ → Taken

unfoldable pub take_byte : Slv → ℕ → Taken
take_byte s c =
    if c == stx
    then goes_on (record s { buf = c ∷ [] })
    else (if ltb 0 (length s.buf)
        then (if ltb (length s.buf) s.max_pkt_size
            then (if c == etx || is_xdigit c
                then (if c == etx
                    then ends (s.buf ++ c ∷ [])
                    else goes_on (record s { buf = s.buf ++ c ∷ [] }))
                else goes_on s)
            else goes_on (record s { buf = [] }))
        else goes_on s)

-- The checksum that a packet carries; -1 of the parser is kept in 16 bits.
abbrev pub carried : List ℕ → ℕ
carried b = elim (parse_to_u16 (drop (length b - 5) b)) [ none ↦ 65535 | some crc ↦ crc ]

-- What goes to the upper layer of a packet with start and end.
unfoldable pub check_packet : List ℕ → Option (List ℕ)
check_packet b =
    if leb 34 (length b) && (length b % 2 == 0)
    then (if crc16_8005 (take (length b - 5) b) 0 == carried b
        then some (take (length b - 6) (drop 1 b))
        else none)
    else none

-- `Rx`: the new state and what goes to the upper layer. After an end the other bytes are discarded.
unfoldable pub rx : Slv → List ℕ → Slv × Option (List ℕ)
rx s [] = (s, none)
rx s (c ∷ cs) = elim (take_byte s c) [
  | goes_on s' ↦ rx s' cs
  | ends b ↦ (record s { buf = [] }, check_packet b)
]

abbrev pub framed : List ℕ → List ℕ
framed bytes = stx ∷ (bytes ++ (u16_to_asc (crc16_8005 (stx ∷ bytes) 0) ++ etx ∷ []))

-- `Tx`: the new state and what goes to the lower layer. The packet is built in the buffer of the
-- received bytes, over those that were collected. The code does not test that it fits.
unfoldable pub tx : Slv → List ℕ → Slv × List ℕ
tx s bytes =
    let p = framed bytes in (record s { buf = take (length s.buf) (p ++ drop (length p) s.buf) }, p)
