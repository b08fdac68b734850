-- ===== src/Tsisp003/Upgrade/Start.antt =====
-- When Start of src/tsisp003/Upgrade.cpp takes a transfer for complete.
use gc.Common.{
  ℕ, zero, suc, ◌-◌, ◌≤◌, ◌<◌, ◌≡◌, refl, true, false, Option, none, some, List, [], ◌∷◌, arith,
  ltb, ◌==◌, length, get_elem?, get_elem?-set_self, Bool-cases, inl, inr,
}
use gc.Utils.Cnvt.{get_u16}
use gc.Tsisp003.Memory.{Memory}
use gc.Tsisp003.Upgrade.{
  Upgrade, File, Calls, file_packet, write_packet, flag, flag_of, some_missing, start, needs_info,
}
use gc.Tsisp003.Upgrade.Sizes.{file_packet-cases}

get_elem?-past : (flags : List ℕ) (k : ℕ) → length flags ≤ k → get_elem? flags k ≡ none
get_elem?-past [] k h = refl
get_elem?-past (x ∷ flags) zero h = absurd (omega arith)
get_elem?-past (x ∷ flags) (suc k) h = get_elem?-past flags k (omega arith)

-- The loop, by the flag of the last packet that came.
some_missing-set :
    (u : Upgrade) (left : ℕ) → flag_of u.rcvd u.pkt_n ≡ some 1 → some_missing u left ≡ some false
unfolding some_missing
some_missing-set u zero h = refl
some_missing-set u (suc left) h = rw (h, some_missing-set u left h) refl

some_missing-past :
    (u : Upgrade) (left : ℕ) → flag_of u.rcvd u.pkt_n ≡ none → 1 ≤ left → some_missing u left ≡ none
unfolding some_missing
some_missing-past u zero h pos = absurd (omega arith)
some_missing-past u (suc left) h pos = rw h refl

start-set :
    (unpacked : Option ℕ) (u : Upgrade)
    → needs_info u ≡ false
    → flag_of u.rcvd u.pkt_n ≡ some 1
    → start unpacked u
      ≡ some
          (unpacked, record u { filelen = 0; pktsize_k = 0; total_pkt = 0; rcvd = none; pkt_n = 0 })
unfolding start
start-set unpacked u ready h = rw (ready, some_missing-set u u.total_pkt h) refl

start-past :
    (unpacked : Option ℕ) (u : Upgrade)
    → needs_info u ≡ false
    → flag_of u.rcvd u.pkt_n ≡ none
    → start unpacked u ≡ none
unfolding start
start-past unpacked u ready h = rw (ready, some_missing-past u u.total_pkt h (ground arith)) refl

-- A write that succeeds flags the packet.
start-write_packet :
    (unpacked : Option ℕ) (wrote : Option ℕ) (packet : Memory) (len : ℕ) (u : Upgrade) (file : File)
    (flags : List ℕ)
    → needs_info u ≡ false
    → u.rcvd ≡ some flags
    → u.pkt_n < length flags
    → let r = write_packet wrote packet len (u, file) in
      r.0 ≡ some 0
      → start unpacked r.1.0
        ≡ some (
          unpacked,
          record r.1.0 { filelen = 0; pktsize_k = 0; total_pkt = 0; rcvd = none; pkt_n = 0 },
        )
unfolding write_packet
start-write_packet unpacked none packet len u file flags ready e lt = λ ok. absurd (cc)
start-write_packet unpacked (some n) packet len u file flags ready e lt =
    let flagged = get_elem?-set_self flags u.pkt_n 1 lt in
    let u' : Upgrade = record u { rcvd = flag u.pkt_n u.rcvd } in
    let set_flag : flag_of u'.rcvd u'.pkt_n ≡ some 1 = rw e flagged in
    let still : needs_info u' ≡ false = rw e (rw e at ready) in
    elim (Bool-cases (n == len)) [
      | inl same ↦ rw same (λ ok. start-set unpacked u' still set_flag)
      | inr other ↦ rw other (λ ok. absurd (cc))
    ]

file_packet-past :
    (calls : Calls) (packet : Memory) (len : ℕ) (u : Upgrade) (file : File)
    → needs_info u ≡ false
    → u.total_pkt ≤ get_u16 (packet 2) (packet 3)
    → file_packet calls packet len (u, file)
      ≡ (some 2, (record u { pkt_n = get_u16 (packet 2) (packet 3) }, file))
unfolding file_packet
file_packet-past calls packet len u file ready past =
    let outside : ltb (u.total_pkt - 1) (get_u16 (packet 2) (packet 3)) ≡ true = ground arith in
    rw (ready, outside) refl

-- While a file is awaited whose flags are as many as its packets, a call of FilePacket that takes a
-- packet makes Start take the whole file for complete, whatever the other flags: Start gives the result
-- of the unpacking and forgets the file. A call with a number past the last packet is refused, and then
-- Start reads past the end of the flags.
pub start-file_packet :
    (unpacked : Option ℕ) (calls : Calls) (packet : Memory) (len : ℕ) (u : Upgrade) (file : File)
    (flags : List ℕ)
    → needs_info u ≡ false
    → u.rcvd ≡ some flags
    → length flags ≡ u.total_pkt
    → let (answer, left) = file_packet calls packet len (u, file) in
      (answer ≡ some 0
        → start unpacked left.0
          ≡ some (
            unpacked,
            record left.0 { filelen = 0; pktsize_k = 0; total_pkt = 0; rcvd = none; pkt_n = 0 },
          ))
      × (u.total_pkt ≤ get_u16 (packet 2) (packet 3)
          → (answer ≡ some 2) × (start unpacked left.0 ≡ none))
start-file_packet unpacked calls packet len u file flags ready e size =
    let k = get_u16 (packet 2) (packet 3) in
    let u1 : Upgrade = record u { pkt_n = k } in
    let last : 1 ≤ u.total_pkt = ground arith in
    (
      elim (file_packet-cases calls packet len u file) [
        | inl (r, bad, inl f) ↦ rw f (λ ok. absurd (bad ok))
        | inl (r, bad, inr f) ↦ rw f (λ ok. absurd (bad ok))
        | inr (f, le, full, rest) ↦ rw f (
            start-write_packet unpacked calls.wrote packet (len - 4) u1 file flags ready e
              (omega (arith, size, le, last)))
      ],
      λ past. rw (file_packet-past calls packet len u file ready past) (
        refl,
        start-past unpacked u1 ready (rw e (get_elem?-past flags k (omega (arith, size, past)))),
      ),
    )
