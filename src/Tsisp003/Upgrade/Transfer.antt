-- ===== src/Tsisp003/Upgrade/Transfer.antt =====
-- A whole transfer with src/tsisp003/Upgrade.cpp, and where it cannot be whole.
use gc.Common.{
  ℕ, ◌-◌, ◌*◌, ◌/◌, ◌%◌, ◌≤◌, ◌<◌, ◌≡◌, ◌≢◌, refl, sym, subst, ap, ◌∙◌, Bool, Option, some, List,
  [], ◌∷◌, arith, inl, inr,
}
use gc.Utils.Cnvt.{get_u16}
use gc.Tsisp003.Memory.{Memory}
use gc.Tsisp003.Upgrade.{Upgrade, File, Calls, file_info, file_packet}
use gc.Tsisp003.Upgrade.Sizes.{IsReady, total-IsReady, file_packet-cases, file_info-IsReady}
use gc.Tsisp003.Upgrade.Received.{flag_at, Received, Packet, Carries, IsKept, file_packet-Received}

-- FilePacket on one packet after the other.
unfoldable pub receive : List Packet → Upgrade × File → Upgrade × File
receive [] uf = uf
receive (p ∷ ps) uf = receive ps (file_packet p.calls p.bytes p.len uf).1

unfoldable pub AllCarry : File → ℕ → List Packet → Type 0
AllCarry image size_k [] = Unit {0}
AllCarry image size_k (p ∷ ps) = Carries image size_k p × AllCarry image size_k ps

kept-IsReady :
    (image : File) (u u' : Upgrade) (file' : File)
    → IsReady u
    → IsKept image u u' file'
    → IsReady u'
kept-IsReady image u u' file' r k = record {
  long = rw k.filelen r.long;
  short = rw k.filelen r.short;
  size = rw k.pktsize_k r.size;
  total = rw (k.filelen, k.pktsize_k, k.total_pkt) r.total;
}

receive-Received :
    (image : File) (ps : List Packet) (u : Upgrade) (file : File)
    → IsReady u
    → u.filelen % (u.pktsize_k * 1024) ≢ 0
    → Received image u file
    → AllCarry image u.pktsize_k ps
    → let after = receive ps (u, file) in IsKept image u after.0 after.1
unfolding receive AllCarry
receive-Received image [] u file r uneven received carry = record {
  filelen = refl;
  pktsize_k = refl;
  total_pkt = refl;
  received = received;
}
receive-Received image (p ∷ ps) u file r uneven received (here, rest) =
    let (u1, file1) = (file_packet p.calls p.bytes p.len (u, file)).1 in
    let k = file_packet-Received image u file p r uneven received here in
    let later =
      receive-Received image ps u1 file1 (kept-IsReady image u u1 file1 r k)
        (rw (k.filelen, k.pktsize_k) uneven) k.received (rw k.pktsize_k rest) in
    record {
      filelen = later.filelen ∙ k.filelen;
      pktsize_k = later.pktsize_k ∙ k.pktsize_k;
      total_pkt = later.total_pkt ∙ k.total_pkt;
      received = later.received;
    }

-- The number of each byte is that of a packet.
number-IsReady :
    (u : Upgrade) (i : ℕ) → IsReady u → i < u.filelen → i / (u.pktsize_k * 1024) < u.total_pkt
number-IsReady u i r lt =
    let all = (total-IsReady u r).3 in
    elim r.size [
      | inl e ↦ rw e (ground (arith, rw e at all))
      | inr (inl e) ↦ rw e (ground (arith, rw e at all))
      | inr (inr (inl e)) ↦ rw e (ground (arith, rw e at all))
      | inr (inr (inr e)) ↦ rw e (ground (arith, rw e at all))
    ]

-- After FileInfo, where the memory of the new array holds zeros and the length of the file is no
-- multiple of that of the packets, let packets that carry their parts of an image come in any order
-- and number, with any failures: once all are flagged, the file is the image.
pub receive-image :
    (image : File) (opened : Bool) (fresh : ℕ → List ℕ) (packet : Memory) (u u1 : Upgrade)
    (file : File) (ps : List Packet)
    → file_info opened fresh packet u ≡ (some 0, u1)
    → ((k : ℕ) → flag_at u1.rcvd k ≡ 0)
    → u1.filelen % (u1.pktsize_k * 1024) ≢ 0
    → AllCarry image u1.pktsize_k ps
    → ((k : ℕ) → k < u1.total_pkt → flag_at (receive ps (u1, file)).0.rcvd k ≡ 1)
    → (i : ℕ) → i < u1.filelen
    → (receive ps (u1, file)).1 i ≡ image i
receive-image image opened fresh packet u u1 file ps ok zeros uneven carry all i lt =
    let ready : IsReady u1 =
      subst (λ (p : Option ℕ × Upgrade). IsReady p.1) ok
        (file_info-IsReady opened fresh packet u (ap (λ (p : Option ℕ × Upgrade). p.0) ok)) in
    let kept =
      receive-Received image ps u1 file ready uneven
        (λ j l set. absurd (ground (arith, zeros (j / (u1.pktsize_k * 1024))))) carry in
    kept.received i (rw kept.filelen lt)
      (rw kept.pktsize_k (all (i / (u1.pktsize_k * 1024)) (number-IsReady u1 i ready lt)))

-- Where the length of the file is a multiple of that of the packets, FilePacket takes the last packet
-- only without a byte, so that the last bytes of the file never come.
pub file_packet-even :
    (calls : Calls) (packet : Memory) (len : ℕ) (u : Upgrade) (file : File)
    → u.filelen % (u.pktsize_k * 1024) ≡ 0
    → get_u16 (packet 2) (packet 3) ≡ u.total_pkt - 1
    → (file_packet calls packet len (u, file)).0 ≡ some 0
    → len ≤ 4
file_packet-even calls packet len u file even last ok =
    elim (file_packet-cases calls packet len u file) [
      | inl (r, bad, inl e) ↦
          absurd (bad (sym (ap (λ (x : Option ℕ × (Upgrade × File)). x.0) e) ∙ ok))
      | inl (r, bad, inr e) ↦
          absurd (bad (sym (ap (λ (x : Option ℕ × (Upgrade × File)). x.0) e) ∙ ok))
      | inr (e, le, full, rest) ↦ omega (arith, rest (omega (arith, last)), even)
    ]
