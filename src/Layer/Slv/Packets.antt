-- ===== src/Layer/Slv/Packets.antt =====
-- What src/layer/LayerSlv.cpp sends, as it is received.
use gc.Common.{
  ℕ, ◌+◌, ◌-◌, ◌%◌, ◌≤◌, ◌<◌, ◌≡◌, refl, sym, ap, ◌∙◌, true, none, some, List, [], ◌∷◌, ◌++◌,
  append-nil, append_assoc, arith, leb, ◌==◌, ==_iff, length, length-append, take, drop,
}
use gc.Utils.Check.{is_xdigit, all_xdigits}
use gc.Utils.Cnvt.{parse_to_u16, u16_to_asc}
use gc.Utils.Cnvt.Hex.{parse_to_u16-u16_to_asc}
use gc.Utils.Cnvt.Digits.{all_xdigits-append, all_xdigits-u16_to_asc, length-u16_to_asc}
use gc.Utils.Crc.{crc16_8005}
use gc.Utils.Crc.Bitwise.{crc16_8005-lt}
use gc.Layer.DtLk.{stx, etx}
use gc.Layer.Slv.{Slv, goes_on, ends, take_byte, check_packet, carried, rx, framed, tx}

take-append : (xs ys : List ℕ) → take (length xs) (xs ++ ys) ≡ xs
take-append [] ys = refl
take-append (x ∷ xs) ys = ap (λ zs. x ∷ zs) (take-append xs ys)

drop-append : (xs ys : List ℕ) → drop (length xs) (xs ++ ys) ≡ ys
drop-append [] ys = refl
drop-append (x ∷ xs) ys = drop-append xs ys

-- The test of a packet accepts what was framed.
check_packet-framed :
    (bytes : List ℕ)
    → length bytes % 2 ≡ 0
    → 28 ≤ length bytes
    → check_packet (framed bytes) ≡ some bytes
unfolding check_packet
check_packet-framed bytes even long =
    rw (enough, paired, cut, front, word, (==_iff crc crc).1 refl, inner, take-append bytes _) refl
  where
    crc : ℕ
    crc = crc16_8005 (stx ∷ bytes) 0

    total : length (framed bytes) ≡ length bytes + 6
    total = omega (
      arith,
      length-append bytes (u16_to_asc crc ++ etx ∷ []),
      length-append (u16_to_asc crc) (etx ∷ []),
      length-u16_to_asc crc,
    )

    enough : leb 34 (length (framed bytes)) ≡ true
    enough = ground (arith, total)

    paired : (length (framed bytes) % 2 == 0) ≡ true
    paired = ground (arith, total)

    cut : length (framed bytes) - 5 ≡ length (stx ∷ bytes)
    cut = omega (arith, total)

    front : take (length (stx ∷ bytes)) (framed bytes) ≡ stx ∷ bytes
    front = take-append (stx ∷ bytes) (u16_to_asc crc ++ etx ∷ [])

    word : carried (framed bytes) ≡ crc
    word =
        ap (λ o. elim o [ none ↦ 65535 | some value ↦ value ])
          (ap (λ n. parse_to_u16 (drop n (framed bytes))) cut
            ∙ ap parse_to_u16 (drop-append (stx ∷ bytes) (u16_to_asc crc ++ etx ∷ []))
            ∙ parse_to_u16-u16_to_asc crc (etx ∷ []) (crc16_8005-lt (stx ∷ bytes)))

    inner : length (framed bytes) - 6 ≡ length bytes
    inner = omega (arith, total)

rx-goes_on :
    (s s' : Slv) (c : ℕ) (cs : List ℕ) → take_byte s c ≡ goes_on s' → rx s (c ∷ cs) ≡ rx s' cs
unfolding rx
rx-goes_on s s' c cs e = rw (rx, e) refl

rx-ends :
    (s : Slv) (c : ℕ) (cs b : List ℕ)
    → take_byte s c ≡ ends b
    → rx s (c ∷ cs) ≡ (record s { buf = [] }, check_packet b)
unfolding rx
rx-ends s c cs b e = rw (rx, e) refl

take_byte-stx :
    (s : Slv) → take_byte s stx ≡ goes_on (record { buf = stx ∷ []; max_pkt_size = s.max_pkt_size })
unfolding take_byte
take_byte-stx s = refl

-- A digit that has room is collected.
take_byte-digit :
    (size c : ℕ) (body : List ℕ)
    → is_xdigit c ≡ true
    → length body + 1 < size
    → take_byte (record { buf = stx ∷ body; max_pkt_size = size }) c
      ≡ goes_on (record { buf = stx ∷ (body ++ c ∷ []); max_pkt_size = size })
unfolding take_byte
take_byte-digit size c body h lt = ground arith

take_byte-etx :
    (size : ℕ) (body : List ℕ)
    → length body + 1 < size
    → take_byte (record { buf = stx ∷ body; max_pkt_size = size }) etx
      ≡ ends (stx ∷ (body ++ etx ∷ []))
unfolding take_byte
take_byte-etx size body lt = ground arith

-- The rest of a packet, of which a part is collected.
rx-rest :
    (size : ℕ) (body cs rest : List ℕ)
    → all_xdigits cs ≡ true
    → length body + length cs + 1 < size
    → rx (record { buf = stx ∷ body; max_pkt_size = size }) (cs ++ etx ∷ rest)
      ≡ (record { buf = []; max_pkt_size = size }, check_packet (stx ∷ ((body ++ cs) ++ etx ∷ [])))
unfolding all_xdigits
rx-rest size body [] rest h lt =
    rx-ends (record { buf = stx ∷ body; max_pkt_size = size }) etx rest (stx ∷ (body ++ etx ∷ []))
      (take_byte-etx size body (omega arith))
    ∙ rw (append-nil body) refl
rx-rest size body (c ∷ cs) rest h lt =
    rx-goes_on (record { buf = stx ∷ body; max_pkt_size = size })
      (record { buf = stx ∷ (body ++ c ∷ []); max_pkt_size = size }) c (cs ++ etx ∷ rest)
      (take_byte-digit size c body (ground arith) (omega arith))
    ∙ rx-rest size (body ++ c ∷ []) cs rest (ground arith)
        (omega (arith, length-append body (c ∷ [])))
    ∙ rw (append_assoc body (c ∷ []) cs) refl

-- What Tx of one end sends of an even number of hexadecimal digits, 28 at least, Rx of the other end
-- hands on, where the packet fits its buffer: exactly these digits, whatever either had collected
-- before; the bytes behind the packet are discarded.
pub rx-tx_slave :
    (sender receiver : Slv) (bytes rest : List ℕ)
    → all_xdigits bytes ≡ true
    → length bytes % 2 ≡ 0
    → 28 ≤ length bytes
    → length bytes + 6 ≤ receiver.max_pkt_size
    → rx receiver ((tx sender bytes).1 ++ rest) ≡ (record receiver { buf = [] }, some bytes)
unfolding tx
rx-tx_slave sender receiver bytes rest digits even long fits =
    ap (λ cs. rx receiver (stx ∷ cs))
      (append_assoc bytes (u16_to_asc crc ++ etx ∷ []) rest
        ∙ ap (λ cs. bytes ++ cs) (append_assoc (u16_to_asc crc) (etx ∷ []) rest)
        ∙ sym (append_assoc bytes (u16_to_asc crc) (etx ∷ rest)))
    ∙ first
    ∙ rx-rest receiver.max_pkt_size [] (bytes ++ u16_to_asc crc) rest
        (all_xdigits-append bytes (u16_to_asc crc) digits (all_xdigits-u16_to_asc crc))
        (omega (arith, length-append bytes (u16_to_asc crc), length-u16_to_asc crc))
    ∙ ap (λ cs. (record receiver { buf = [] }, check_packet (stx ∷ cs)))
        (append_assoc bytes (u16_to_asc crc) (etx ∷ []))
    ∙ ap (λ o. (record receiver { buf = [] }, o)) (check_packet-framed bytes even long)
  where
    crc : ℕ
    crc = crc16_8005 (stx ∷ bytes) 0

    first :
        rx receiver (stx ∷ ((bytes ++ u16_to_asc crc) ++ etx ∷ rest))
        ≡ rx
            (record { buf = stx ∷ []; max_pkt_size = receiver.max_pkt_size })
            ((bytes ++ u16_to_asc crc) ++ etx ∷ rest)
    first = rx-goes_on receiver _ stx _ (take_byte-stx receiver)
