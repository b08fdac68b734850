-- ===== src/Tsisp003/Upgrade/Sizes.antt =====
-- How the packets of src/tsisp003/Upgrade.cpp lie in the file.
use gc.Common.{
  ℕ, ◌+◌, ◌-◌, ◌*◌, ◌/◌, ◌%◌, ◌≤◌, ◌<◌, ◌≡◌, ◌≢◌, ◌⊎◌, refl, Bool, false, ◌&&◌, ◌||◌, not, Option,
  none, some, List, arith, ltb, leb, ◌==◌, u16, Bool-cases, inl, inr,
}
use gc.Utils.Cnvt.{get_u16, get_u32}
use gc.Tsisp003.Memory.{Memory}
use gc.Tsisp003.Upgrade.{
  Upgrade, File, Calls, file_info, file_packet, write_packet, needs_info, file_size_min,
  file_size_max,
}

-- The lengths of packets that FileInfo takes, in KB.
abbrev pub IsPktSize : ℕ → Type 0
IsPktSize k = (k ≡ 1) ⊎ ((k ≡ 4) ⊎ ((k ≡ 16) ⊎ (k ≡ 64)))

-- What FileInfo leaves.
pub record IsReady (u : Upgrade) : Type 0 where
  pub long : file_size_min ≤ u.filelen
  pub short : u.filelen ≤ file_size_max
  pub size : IsPktSize u.pktsize_k
  pub total : u.total_pkt ≡ (u.filelen + u.pktsize_k * 1024 - 1) / (u.pktsize_k * 1024)

-- The packets cover the file: all but the last lie within it, and the last reaches its end; they are
-- 4096 at most.
pub total-IsReady :
    (u : Upgrade)
    → IsReady u
    → (1 ≤ u.total_pkt)
      × (u.total_pkt ≤ 4096)
      × ((u.total_pkt - 1) * (u.pktsize_k * 1024) < u.filelen)
      × (u.filelen ≤ u.total_pkt * (u.pktsize_k * 1024))
total-IsReady u r =
    let long = r.long in
    let short = r.short in
    let total = r.total in
    elim r.size [
      | inl e ↦ rw (total, e) (ground arith)
      | inr (inl e) ↦ rw (total, e) (ground arith)
      | inr (inr (inl e)) ↦ rw (total, e) (ground arith)
      | inr (inr (inr e)) ↦ rw (total, e) (ground arith)
    ]

size-IsPktSize :
    (k : ℕ)
    → (not (k == 1) && (not (k == 4) && (not (k == 16) && not (k == 64)))) ≡ false
    → IsPktSize k
size-IsPktSize k f = elim (Bool-cases (k == 1)) [
  | inl a ↦ inl (ground arith)
  | inr a ↦ elim (Bool-cases (k == 4)) [
    | inl b ↦ inr (inl (ground arith))
    | inr b ↦ elim (Bool-cases (k == 16)) [
      | inl c ↦ inr (inr (inl (ground arith)))
      | inr c ↦ inr (inr (inr (ground arith)))
    ]
  ]
]

-- The number of packets fits its type.
total_fits :
    (len k : ℕ)
    → len ≤ file_size_max
    → IsPktSize k
    → u16 ((len + k * 1024 - 1) / (k * 1024)) ≡ (len + k * 1024 - 1) / (k * 1024)
total_fits len k h (inl e) = rw e (ground arith)
total_fits len k h (inr (inl e)) = rw e (ground arith)
total_fits len k h (inr (inr (inl e))) = rw e (ground arith)
total_fits len k h (inr (inr (inr e))) = rw e (ground arith)

-- When FileInfo succeeds, what it leaves is ready: the length and the packets are within their bounds,
-- and there are as many packets as the length needs.
pub file_info-IsReady :
    (opened : Bool) (fresh : ℕ → List ℕ) (packet : Memory) (u : Upgrade)
    → (file_info opened fresh packet u).0 ≡ some 0
    → IsReady (file_info opened fresh packet u).1
unfolding file_info
file_info-IsReady opened fresh packet u ok =
    let len = get_u32 (packet 4) (packet 5) (packet 6) (packet 7) in
    let size_k = packet 8 in
    elim (Bool-cases (ltb len file_size_min || ltb file_size_max len)) [
      | inl e ↦ absurd (let r : some 1 ≡ some 0 = rw e at ok in ground arith)
      | inr e ↦
          elim (Bool-cases (
            not (size_k == 1)
            && (not (size_k == 4) && (not (size_k == 16) && not (size_k == 64))))) [
              | inl f ↦ absurd (let r : some 2 ≡ some 0 = rw (e, f) at ok in ground arith)
              | inr f ↦ elim (Bool-cases opened) [
                | inr o ↦ absurd (let r : none ≡ some 0 = rw (e, f, o) at ok in ground arith)
                | inl o ↦ rw (e, f, o) (ready len size_k e f)
              ]
            ]
    ]
  where
    ready :
        (len size_k : ℕ)
        → (ltb len file_size_min || ltb file_size_max len) ≡ false
        → (not (size_k == 1) && (not (size_k == 4) && (not (size_k == 16) && not (size_k == 64))))
          ≡ false
        → IsReady (record u {
          filetype = packet 2;
          config = packet 3;
          filelen = len;
          pktsize_k = size_k;
          total_pkt = u16 ((len + size_k * 1024 - 1) / (size_k * 1024));
          rcvd = some (fresh (u16 ((len + size_k * 1024 - 1) / (size_k * 1024))));
        })
    ready len size_k e f =
        let size = size-IsPktSize size_k f in
        let short : len ≤ file_size_max = ground arith in
        record {
          long = ground arith;
          short = short;
          size = size;
          total = total_fits len size_k short size;
        }

-- How a call of FilePacket ends: without a write, or with one of a length that fits the number.
pub file_packet-cases :
    (calls : Calls) (packet : Memory) (len : ℕ) (u : Upgrade) (file : File)
    → let k = get_u16 (packet 2) (packet 3) in
      let u' : Upgrade = record u { pkt_n = k } in
      ((r : Option ℕ) × (r ≢ some 0)
        × ((file_packet calls packet len (u, file) ≡ (r, (u, file)))
            ⊎ (file_packet calls packet len (u, file) ≡ (r, (u', file)))))
      ⊎ ((file_packet calls packet len (u, file)
            ≡ write_packet calls.wrote packet (len - 4) (u', file))
          × (k ≤ u.total_pkt - 1)
          × (k < u.total_pkt - 1 → len - 4 ≡ u.pktsize_k * 1024)
          × (u.total_pkt - 1 ≤ k → len - 4 ≡ u.filelen % (u.pktsize_k * 1024)))
unfolding file_packet
file_packet-cases calls packet len u file =
    let k = get_u16 (packet 2) (packet 3) in
    let wrong_full = not (leb 4 len && (len - 4 == u.pktsize_k * 1024)) in
    let wrong_last = not (leb 4 len && (len - 4 == u.filelen % (u.pktsize_k * 1024))) in
    elim (Bool-cases (needs_info u)) [
      | inl a ↦ inl (some 1, λ h. ground arith, inl (rw a refl))
      | inr a ↦ elim (Bool-cases (ltb (u.total_pkt - 1) k)) [
        | inl b ↦ inl (some 2, λ h. ground arith, inr (rw (a, b) refl))
        | inr b ↦ elim (Bool-cases (ltb k (u.total_pkt - 1) && wrong_full)) [
          | inl c ↦ inl (some 3, λ h. ground arith, inr (rw (a, b, c) refl))
          | inr c ↦ elim (Bool-cases (not (ltb k (u.total_pkt - 1)) && wrong_last)) [
            | inl d ↦ inl (some 4, λ h. ground arith, inr (rw (a, b, c, d) refl))
            | inr d ↦ elim (Bool-cases calls.opened) [
              | inr e ↦ inl (none, λ h. ground arith, inr (rw (a, b, c, d, e) refl))
              | inl e ↦ elim (Bool-cases calls.sought) [
                | inr f ↦ inl (none, λ h. ground arith, inr (rw (a, b, c, d, e, f) refl))
                | inl f ↦
                    inr (
                      rw (a, b, c, d, e, f) refl,
                      ground arith,
                      λ h. ground arith,
                      λ h. ground arith,
                    )
              ]
            ]
          ]
        ]
      ]
    ]
