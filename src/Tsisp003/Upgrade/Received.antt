-- ===== src/Tsisp003/Upgrade/Received.antt =====
-- What the file holds after packets of src/tsisp003/Upgrade.cpp.
use gc.Common.{
  ℕ, ◌+◌, ◌-◌, ◌*◌, ◌/◌, ◌%◌, ◌≤◌, ◌<◌, ◌≡◌, ◌≢◌, ◌⊎◌, refl, sym, ap, ◌∙◌, ◌&&◌, Option, none, some,
  List, arith, ltb, leb, ◌==◌, Bool-cases, inl, inr, get_or-set_ne, get_or,
}
use gc.Utils.Cnvt.{get_u16}
use gc.Tsisp003.Memory.{Memory}
use gc.Tsisp003.Upgrade.{Upgrade, File, Calls, file_packet, write_packet, flag, write_at}
use gc.Tsisp003.Upgrade.Sizes.{IsPktSize, IsReady, file_packet-cases}

-- The flag of a packet, 0 where there is none.
abbrev pub flag_at : Option (List ℕ) → ℕ → ℕ
flag_at none k = 0
flag_at (some flags) k = get_or flags k 0

-- Every byte of a packet that is flagged is that of the image.
abbrev pub Received : File → Upgrade → File → Type 0
Received image u file =
    (i : ℕ) → i < u.filelen → flag_at u.rcvd (i / (u.pktsize_k * 1024)) ≡ 1 → file i ≡ image i

-- A packet with its length and what the system calls do with it, whose bytes are those of the image at
-- its place. The call of write takes no more bytes than it was given.
pub record Packet : Type 0 where
  pub calls : Calls
  pub bytes : Memory
  pub len : ℕ

pub record Carries (image : File) (size_k : ℕ) (p : Packet) : Type 0 where
  pub same :
      (j : ℕ)
      → j < p.len - 4
      → p.bytes (4 + j) ≡ image (get_u16 (p.bytes 2) (p.bytes 3) * size_k * 1024 + j)
  pub took : (n : ℕ) → p.calls.wrote ≡ some n → n ≤ p.len - 4

write_at-image :
    (image : File) (size_k : ℕ) (p : Packet) (n : ℕ) (file : File) (i : ℕ)
    → Carries image size_k p
    → n ≤ p.len - 4
    → let offset = get_u16 (p.bytes 2) (p.bytes 3) * size_k * 1024 in
      (write_at offset p.bytes n file i ≡ image i)
      ⊎ ((write_at offset p.bytes n file i ≡ file i) × ((i < offset) ⊎ (offset + n ≤ i)))
write_at-image image size_k p n file i c le =
    let offset = get_u16 (p.bytes 2) (p.bytes 3) * size_k * 1024 in
    elim (Bool-cases (leb offset i && ltb i (offset + n))) [
      | inl inside ↦
          let back : offset + (i - offset) ≡ i = ground arith in
          let near : i - offset < p.len - 4 = ground arith in
          inl (rw inside (c.same (i - offset) near ∙ ap image back))
      | inr outside ↦ inr (rw outside refl, ground arith)
    ]

-- Where the length of the file is no multiple of that of the packets, the bytes that FilePacket wants
-- of a packet are all that belong to its number.
AllOf : ℕ → Type 0
AllOf size_k =
    (len total k n i : ℕ)
    → total ≡ (len + size_k * 1024 - 1) / (size_k * 1024)
    → len % (size_k * 1024) ≢ 0
    → i < len
    → i / (size_k * 1024) ≡ k
    → (k < total - 1 → n ≡ size_k * 1024)
    → (total - 1 ≤ k → n ≡ len % (size_k * 1024))
    → (k * size_k * 1024 ≤ i) × (i < k * size_k * 1024 + n)

all-1 : AllOf 1
unfolding AllOf
all-1 len total k n i t uneven lt here full last = ground arith

all-4 : AllOf 4
unfolding AllOf
all-4 len total k n i t uneven lt here full last = ground arith

all-16 : AllOf 16
unfolding AllOf
all-16 len total k n i t uneven lt here full last = ground arith

all-64 : AllOf 64
unfolding AllOf
all-64 len total k n i t uneven lt here full last = ground arith

all_of : (size_k : ℕ) → IsPktSize size_k → AllOf size_k
all_of k (inl e) = rw e all-1
all_of k (inr (inl e)) = rw e all-4
all_of k (inr (inr (inl e))) = rw e all-16
all_of k (inr (inr (inr e))) = rw e all-64

flag-cases :
    (k j : ℕ) (rcvd : Option (List ℕ))
    → flag_at (flag k rcvd) j ≡ 1
    → (k ≡ j) ⊎ (flag_at rcvd j ≡ 1)
flag-cases k j none h = absurd (ground arith)
flag-cases k j (some flags) h = elim (Bool-cases (k == j)) [
  | inl e ↦ inl (ground arith)
  | inr e ↦ inr (sym (get_or-set_ne flags k j 1 0 (λ same. ground arith)) ∙ h)
]

-- What a packet leaves as it was, and that the file is still right.
pub record IsKept (image : File) (u u' : Upgrade) (file' : File) : Type 0 where
  pub filelen : u'.filelen ≡ u.filelen
  pub pktsize_k : u'.pktsize_k ≡ u.pktsize_k
  pub total_pkt : u'.total_pkt ≡ u.total_pkt
  pub received : Received image u' file'

module _ (image : File) (u : Upgrade) (file : File) (p : Packet) (ready : IsReady u)
    (uneven : u.filelen % (u.pktsize_k * 1024) ≢ 0) (received : Received image u file)
    (carries : Carries image u.pktsize_k p) where
  abbrev k : ℕ
  k = get_u16 (p.bytes 2) (p.bytes 3)

  abbrev moved : Upgrade
  moved = record u { pkt_n = k }

  write_packet-IsKept :
      (wrote : Option ℕ)
      → p.calls.wrote ≡ wrote
      → (k < u.total_pkt - 1 → p.len - 4 ≡ u.pktsize_k * 1024)
      → (u.total_pkt - 1 ≤ k → p.len - 4 ≡ u.filelen % (u.pktsize_k * 1024))
      → let after = (write_packet wrote p.bytes (p.len - 4) (moved, file)).1 in
        IsKept image u after.0 after.1
  unfolding write_packet AllOf
  write_packet-IsKept none e full last = record {
    filelen = refl;
    pktsize_k = refl;
    total_pkt = refl;
    received = received;
  }
  write_packet-IsKept (some n) e full last =
      let took = carries.took n e in
      elim (Bool-cases (n == p.len - 4)) [
        | inr part ↦ rw part (record {
          filelen = refl;
          pktsize_k = refl;
          total_pkt = refl;
          received = λ i lt set. elim (write_at-image image u.pktsize_k p n file i carries took) [
            | inl right ↦ right
            | inr (same, out) ↦ same ∙ received i lt set
          ];
        })
        | inl whole ↦ rw whole (record {
          filelen = refl;
          pktsize_k = refl;
          total_pkt = refl;
          received = λ i lt set. elim (write_at-image image u.pktsize_k p n file i carries took) [
            | inl right ↦ right
            | inr (same, out) ↦ elim (flag-cases k (i / (u.pktsize_k * 1024)) u.rcvd set) [
              | inr before ↦ same ∙ received i lt before
              | inl mine ↦
                  let inside =
                    all_of u.pktsize_k ready.size u.filelen u.total_pkt k (p.len - 4) i ready.total
                      uneven lt (sym mine) full last in
                  absurd (ground (arith, inside.0, inside.1))
            ]
          ];
        })
      ]

  -- A packet that carries its part of the image, taken or not, written in whole or in part, leaves
  -- every flagged byte of the file right, where the length of the file is no multiple of that of the
  -- packets.
  pub file_packet-Received :
      let after = (file_packet p.calls p.bytes p.len (u, file)).1 in IsKept image u after.0 after.1
  file_packet-Received =
      let same : IsKept image u u file = record {
        filelen = refl;
        pktsize_k = refl;
        total_pkt = refl;
        received = received;
      } in
      let next : IsKept image u moved file = record {
        filelen = refl;
        pktsize_k = refl;
        total_pkt = refl;
        received = received;
      } in
      elim (file_packet-cases p.calls p.bytes p.len u file) [
        | inl (r, bad, inl e) ↦ rw e same
        | inl (r, bad, inr e) ↦ rw e next
        | inr (e, le, full, last) ↦ rw e (write_packet-IsKept p.calls.wrote refl full last)
      ]
