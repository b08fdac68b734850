-- ===== src/Layer/DtLk/Packets.antt =====
-- The packets that src/layer/LayerDtLk.cpp cuts out of the received bytes.
use gc.Common.{
  ℕ, suc, ◌+◌, ◌≤◌, ◌<◌, ◌≡◌, ◌≢◌, ◌⊎◌, inl, inr, refl, sym, ap, subst, ◌∙◌, tests, true, false,
  Option, none, some, List, [], ◌∷◌, ◌++◌, append_assoc, append-nil, arith, ltb, ◌==◌, ==_iff,
  length, length-append, Bool-cases,
}
use gc.Layer.DtLk.{DtLk, soh, etx, nak, Taken, goes_on, packet, take_byte, rx}

-- A byte that is none of the three that the layer looks for.
abbrev pub IsPlain : ℕ → Type 0
IsPlain c = (c ≢ soh) × (c ≢ nak) × (c ≢ etx)

abbrev pub AllPlain : List ℕ → Type 0
AllPlain [] = Unit {0}
AllPlain (c ∷ cs) = IsPlain c × AllPlain cs

AllPlain-snoc : (cs : List ℕ) (c : ℕ) → AllPlain cs → IsPlain c → AllPlain (cs ++ c ∷ [])
AllPlain-snoc [] c h k = (k, tt)
AllPlain-snoc (x ∷ cs) c h k = (h.0, AllPlain-snoc cs c h.1 k)

-- Nothing collected, or a start and plain bytes, no more than fit.
pub data IsValid (s : DtLk) : Type 0 where
  idle : s.buf ≡ [] → 1 ≤ s.max_pkt_size → IsValid s
  open_packet :
      (body : List ℕ)
      → s.buf ≡ soh ∷ body
      → AllPlain body
      → length body < s.max_pkt_size
      → IsValid s

-- A packet: a start, plain bytes and an end, no longer than fits.
pub record IsPacket (size : ℕ) (p : List ℕ) : Type 0 where
  pub body : List ℕ
  pub framed : p ≡ soh ∷ (body ++ etx ∷ [])
  pub plain : AllPlain body
  pub fits : length body + 2 ≤ size

-- What may come of a byte.
abbrev IsFine : ℕ → Taken → Type 0
IsFine size (goes_on s) = IsValid s × (s.max_pkt_size ≡ size)
IsFine size (packet p) = IsPacket size p

-- A start opens a packet, whatever was collected.
take_byte-soh :
    (s : DtLk) (c : ℕ) → c ≡ soh → 1 ≤ s.max_pkt_size → IsFine s.max_pkt_size (take_byte s c)
unfolding take_byte
take_byte-soh s c e h =
    rw ((==_iff c soh).1 e) (open_packet [] (ap (λ (x : ℕ). x ∷ []) e) tt (omega arith), refl)

size-pos : (s : DtLk) → IsValid s → 1 ≤ s.max_pkt_size
size-pos s (idle e h) = h
size-pos s (open_packet body e plain fits) = omega arith

-- A byte that is no start and no NAK, when nothing is collected.
take_byte-idle :
    (size c : ℕ)
    → 1 ≤ size
    → (c == soh) ≡ false
    → (c == nak) ≡ false
    → IsFine size (take_byte (record { buf = []; max_pkt_size = size }) c)
unfolding take_byte
take_byte-idle size c h ns nn = rw (ns, nn) (idle refl h, refl)

some_collected : (n : ℕ) → ltb 0 (suc n) ≡ true
some_collected n = ground arith

-- The same byte, when a packet is open.
take_byte-open :
    (size c : ℕ) (body : List ℕ)
    → AllPlain body
    → length body < size
    → (c == soh) ≡ false
    → (c == nak) ≡ false
    → IsFine size (take_byte (record { buf = soh ∷ body; max_pkt_size = size }) c)
unfolding take_byte
take_byte-open size c body plain fits ns nn = elim (Bool-cases (ltb (suc (length body)) size)) [
  | inr full ↦ rw (ns, nn, some_collected (length body), full) (idle refl (omega arith), refl)
  | inl room ↦ elim (Bool-cases (c == etx)) [
    | inl last ↦
        rw (ns, nn, some_collected (length body), room, last)
          (record {
            body = body;
            framed = ap (λ (x : ℕ). soh ∷ (body ++ x ∷ [])) ((==_iff c etx).0 last);
            plain = plain;
            fits = omega tests;
          })
    | inr more ↦
        rw (ns, nn, some_collected (length body), room, more)
          (
            open_packet (body ++ c ∷ []) refl (AllPlain-snoc body c plain (ground arith))
                (omega (tests, length-append body (c ∷ []))),
            refl,
          )
  ]
]

take_byte-other :
    (s : DtLk) (c : ℕ)
    → IsValid s
    → (c == soh) ≡ false
    → (c == nak) ≡ false
    → IsFine s.max_pkt_size (take_byte s c)
take_byte-other s c (idle e h) ns nn =
    subst
      (λ b. IsFine s.max_pkt_size (take_byte (record { buf = b; max_pkt_size = s.max_pkt_size }) c))
      (sym e) (take_byte-idle s.max_pkt_size c h ns nn)
take_byte-other s c (open_packet body e plain fits) ns nn =
    subst
      (λ b. IsFine s.max_pkt_size (take_byte (record { buf = b; max_pkt_size = s.max_pkt_size }) c))
      (sym e) (take_byte-open s.max_pkt_size c body plain fits ns nn)

pub take_byte-IsFine : (s : DtLk) (c : ℕ) → IsValid s → IsFine s.max_pkt_size (take_byte s c)
take_byte-IsFine s c v = elim (Bool-cases (c == soh)) [
  | inl start ↦ take_byte-soh s c ((==_iff c soh).0 start) (size-pos s v)
  | inr ns ↦ elim (Bool-cases (c == nak)) [
    | inl n ↦ unfold take_byte in rw (ns, n) (v, refl)
    | inr nn ↦ take_byte-other s c v ns nn
  ]
]

abbrev IsFineOption : ℕ → Option (List ℕ) → Type 0
IsFineOption size none = Unit {0}
IsFineOption size (some p) = IsPacket size p

Taken-cases : (t : Taken) → ((s : DtLk) × (t ≡ goes_on s)) ⊎ ((p : List ℕ) × (t ≡ packet p))
Taken-cases (goes_on s) = inl (s, refl)
Taken-cases (packet p) = inr (p, refl)

rx-goes_on :
    (s s' : DtLk) (c : ℕ) (cs : List ℕ) → take_byte s c ≡ goes_on s' → rx s (c ∷ cs) ≡ rx s' cs
unfolding rx
rx-goes_on s s' c cs e = rw (rx, e) refl

rx-packet_ends :
    (s : DtLk) (c : ℕ) (cs p : List ℕ)
    → take_byte s c ≡ packet p
    → rx s (c ∷ cs) ≡ (record s { buf = [] }, some p)
unfolding rx
rx-packet_ends s c cs p e = rw (rx, e) refl

rx-IsFine :
    (s : DtLk) (cs : List ℕ) (size : ℕ)
    → IsValid s
    → s.max_pkt_size ≡ size
    → IsValid (rx s cs).0 × IsFineOption size (rx s cs).1
unfolding rx
rx-IsFine s [] size v q = (v, tt)
rx-IsFine s (c ∷ cs) size v q = elim (Taken-cases (take_byte s c)) [
  | inl (s', e) ↦
      let fine = subst (IsFine s.max_pkt_size) e (take_byte-IsFine s c v) in
      rw (rx-goes_on s s' c cs e) (rx-IsFine s' cs size fine.0 (fine.1 ∙ q))
  | inr (p, e) ↦ rw (rx-packet_ends s c cs p e) (
    idle refl (size-pos s v),
    subst (λ n. IsPacket n p) q (subst (IsFine s.max_pkt_size) e (take_byte-IsFine s c v)),
  )
]

-- Whatever bytes arrive, what is collected stays well formed if it was: nothing, or a start and
-- bytes that are no start, NAK or end, no more than fit into the buffer.
pub rx-IsValid : (s : DtLk) (cs : List ℕ) → IsValid s → IsValid (rx s cs).0
rx-IsValid s cs v = (rx-IsFine s cs s.max_pkt_size v refl).0

-- Whatever bytes arrive in a well-formed state, what the layer hands on is a packet: a start, bytes
-- that are no start, NAK or end, and an end, no longer than the buffer.
pub rx-IsPacket :
    (s : DtLk) (cs p : List ℕ) → IsValid s → (rx s cs).1 ≡ some p → IsPacket s.max_pkt_size p
rx-IsPacket s cs p v h =
    subst (IsFineOption s.max_pkt_size) h (rx-IsFine s cs s.max_pkt_size v refl).1

-- A plain byte that has room is collected.
take_byte-plain :
    (size c : ℕ) (body : List ℕ)
    → IsPlain c
    → length body + 1 < size
    → take_byte (record { buf = soh ∷ body; max_pkt_size = size }) c
      ≡ goes_on (record { buf = soh ∷ (body ++ c ∷ []); max_pkt_size = size })
unfolding take_byte
take_byte-plain size c body h lt = ground arith

take_byte-etx :
    (size : ℕ) (body : List ℕ)
    → length body + 1 < size
    → take_byte (record { buf = soh ∷ body; max_pkt_size = size }) etx
      ≡ packet (soh ∷ (body ++ etx ∷ []))
unfolding take_byte
take_byte-etx size body lt = ground arith

-- The rest of a packet, of which a part is collected.
rx-rest :
    (size : ℕ) (body cs rest : List ℕ)
    → AllPlain cs
    → length body + length cs + 1 < size
    → rx (record { buf = soh ∷ body; max_pkt_size = size }) (cs ++ etx ∷ rest)
      ≡ (record { buf = []; max_pkt_size = size }, some (soh ∷ ((body ++ cs) ++ etx ∷ [])))
rx-rest size body [] rest h lt =
    rx-packet_ends (record { buf = soh ∷ body; max_pkt_size = size }) etx rest
      (soh ∷ (body ++ etx ∷ [])) (take_byte-etx size body (omega arith))
    ∙ rw (append-nil body) refl
rx-rest size body (c ∷ cs) rest h lt =
    rx-goes_on (record { buf = soh ∷ body; max_pkt_size = size })
      (record { buf = soh ∷ (body ++ c ∷ []); max_pkt_size = size }) c (cs ++ etx ∷ rest)
      (take_byte-plain size c body h.0 (omega arith))
    ∙ rx-rest size (body ++ c ∷ []) cs rest h.1 (omega (arith, length-append body (c ∷ [])))
    ∙ rw (append_assoc body (c ∷ []) cs) refl

-- A packet whose body has no start, NAK or end, and that fits with its start and end, is handed on
-- whole, whatever was collected before its start; the bytes behind it are discarded.
pub rx-packet :
    (s : DtLk) (body rest : List ℕ)
    → AllPlain body
    → length body + 1 < s.max_pkt_size
    → rx s (soh ∷ (body ++ etx ∷ rest)) ≡ (record s { buf = [] }, some (soh ∷ (body ++ etx ∷ [])))
unfolding rx take_byte
rx-packet s body rest h lt = rx-rest s.max_pkt_size [] body rest h (omega arith)
