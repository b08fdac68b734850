-- ===== src/Tsisp003/Upgrade/Tests.antt =====
-- Instances for src/tsisp003/Upgrade.cpp.
use gc.Common.{
  ◌≤◌, ℕ, zero, suc, ◌+◌, ◌-◌, ◌*◌, ◌%◌, ◌<◌, ◌≡◌, ◌≢◌, refl, ap, true, none, some, List, [], ◌∷◌,
  arith, ◌==◌, if◌then◌else◌, replicate, inr,
}
use gc.Utils.Cnvt.{get_u16, get_u32, get_u32_from}
use gc.Tsisp003.Memory.{Memory}
use gc.Tsisp003.Upgrade.{Upgrade, File, Calls, file_info, file_packet, write_packet, start}
use gc.Tsisp003.Upgrade.Sizes.{IsReady, file_info-IsReady}
use gc.Tsisp003.Upgrade.Received.{flag_at, Packet, Carries}
use gc.Tsisp003.Upgrade.Transfer.{receive, AllCarry, receive-image}
use gc.Tsisp003.Upgrade.Start.{start-file_packet}

-- 65537 bytes in packets of 64 KB.
abbrev info : Memory
info i = if i == 5 then 1 else (if i == 7 then 1 else (if i == 8 then 64 else 0))

abbrev blank : Upgrade
blank = record {
  filetype = 0;
  config = 0;
  filelen = 0;
  pktsize_k = 0;
  total_pkt = 0;
  rcvd = none;
  pkt_n = 0;
}

abbrev told : Upgrade
told = record blank { filelen = 65537; pktsize_k = 64; total_pkt = 2; rcvd = some (0 ∷ 0 ∷ []) }

abbrev zeros : ℕ → List ℕ
zeros n = replicate n 0

info_ok : file_info true zeros info blank ≡ (some 0, told)
unfolding file_info get_u32 get_u32_from
info_ok = refl

-- The packet that ends the file comes first.
abbrev image : File
image i = i % 251

abbrev numbered : ℕ → Memory
numbered k i = if i == 2 then 0 else (if i == 3 then k else image (k * 65536 + (i - 4)))

abbrev sent : ℕ → ℕ → Packet
sent k n = record {
  calls = record { opened = true; sought = true; wrote = some n };
  bytes = numbered k;
  len = n + 4;
}

sent-Carries : (k n : ℕ) → k < 256 → Carries image 64 (sent k n)
unfolding get_u16
sent-Carries k n lt = record {
  same = λ j h. ground arith;
  took =
      λ m e. let same : n ≡ m = ap (λ o. elim o [ none ↦ n | some x ↦ x ]) e in omega (arith, same);
}

abbrev packets : List Packet
packets = sent 1 1 ∷ sent 0 65536 ∷ []

carried : AllCarry image 64 packets
unfolding AllCarry
carried = (sent-Carries 1 1 (omega arith), (sent-Carries 0 65536 (omega arith), tt))

all_flagged : (k : ℕ) → k < 2 → flag_at (receive packets (told, λ i. 0)).0.rcvd k ≡ 1
unfolding receive file_packet write_packet get_u16
all_flagged zero lt = refl
all_flagged (suc zero) lt = refl
all_flagged (suc (suc k)) lt = absurd (omega arith)

no_flags : (k : ℕ) → flag_at told.rcvd k ≡ 0
no_flags zero = refl
no_flags (suc zero) = refl
no_flags (suc (suc k)) = refl

abbrev uneven : 65537 % (64 * 1024) ≢ 0
uneven h = absurd (omega (arith, h))

last_byte : 65536 < told.filelen
last_byte = omega arith

receive-image_example : (receive packets (told, λ i. 0)).1 65536 ≡ image 65536
receive-image_example =
    receive-image image true zeros info blank told (λ i. 0) packets info_ok no_flags uneven carried
      all_flagged 65536 last_byte

info_status : (file_info true zeros info blank).0 ≡ some 0
unfolding file_info get_u32 get_u32_from
info_status = refl

file_info-IsReady_example : IsReady (file_info true zeros info blank).1
file_info-IsReady_example = file_info-IsReady true zeros info blank info_status

told-IsReady : IsReady told
told-IsReady = record {
  long = omega arith;
  short = omega arith;
  size = inr (inr (inr refl));
  total = refl;
}

-- 65536 bytes, in one packet.
abbrev one : Upgrade
one = record told { filelen = 65536; total_pkt = 1; rcvd = some (0 ∷ []) }

abbrev empty_call : Calls
empty_call = record { opened = true; sought = true; wrote = some 0 }

taken : (file_packet empty_call (λ i. 0) 4 (one, λ i. 0)).0 ≡ some 0
unfolding file_packet write_packet get_u16
taken = refl

first : get_u16 0 0 ≡ one.total_pkt - 1
unfolding get_u16
first = refl

-- The second packet of two comes alone, and is enough for Start.
start-file_packet_example :
    let r = file_packet (sent 1 1).calls (sent 1 1).bytes 5 (told, λ i. 0) in
    (r.0 ≡ some 0
      → start (some 0) r.1.0
        ≡ some (
          some 0,
          record r.1.0 { filelen = 0; pktsize_k = 0; total_pkt = 0; rcvd = none; pkt_n = 0 },
        ))
    × (told.total_pkt ≤ get_u16 ((sent 1 1).bytes 2) ((sent 1 1).bytes 3)
        → (r.0 ≡ some 2) × (start (some 0) r.1.0 ≡ none))
start-file_packet_example =
    start-file_packet (some 0) (sent 1 1).calls (sent 1 1).bytes 5 told (λ i. 0) (zeros 2) refl refl
      refl
