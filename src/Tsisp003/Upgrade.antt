-- ===== src/Tsisp003/Upgrade.antt =====
-- Class Upgrade of src/tsisp003/Upgrade.cpp: a file of firmware comes in packets of equal length.
pub mod Sizes
pub mod Received
pub mod Transfer
pub mod Start
mod Tests
use gc.Common.{
  ℕ, zero, suc, ◌+◌, ◌-◌, ◌*◌, ◌/◌, ◌%◌, Bool, true, false, ◌&&◌, ◌||◌, not, Option, none, some,
  List, [], ◌∷◌, ltb, leb, ◌==◌, if◌then◌else◌, get_elem?, ◌>>=◌, set, u16, length,
}
use gc.Utils.Cnvt.{get_u16, get_u32}
use gc.Tsisp003.Memory.{Memory}

abbrev pub file_size_min : ℕ
file_size_min = 64 * 1024

abbrev pub file_size_max : ℕ
file_size_max = 4 * 1024 * 1024

-- `rcvd` is `none` for the null pointer.
pub record Upgrade : Type 0 where
  pub filetype : ℕ
  pub config : ℕ
  pub filelen : ℕ
  pub pktsize_k : ℕ
  pub total_pkt : ℕ
  pub rcvd : Option (List ℕ)
  pub pkt_n : ℕ

-- The file, as the bytes at its offsets.
abbrev pub File : Type 0
File = ℕ → ℕ

-- Results; `none` stands for a negative number. `opened` says whether the file could be opened, and
-- `fresh` is what the memory of the new array holds.
unfoldable pub file_info : Bool → (ℕ → List ℕ) → Memory → Upgrade → Option ℕ × Upgrade
file_info opened fresh packet u =
    let len = get_u32 (packet 4) (packet 5) (packet 6) (packet 7) in
    let size_k = packet 8 in
    let total = u16 ((len + size_k * 1024 - 1) / (size_k * 1024)) in
    if ltb len file_size_min || ltb file_size_max len
    then (some 1, u)
    else (if not (size_k == 1) && (not (size_k == 4) && (not (size_k == 16) && not (size_k == 64)))
        then (some 2, u)
        else (if not opened then (none, u) else (
          some 0,
          record {
            filetype = packet 2;
            config = packet 3;
            filelen = len;
            pktsize_k = size_k;
            total_pkt = total;
            rcvd = some (fresh total);
            pkt_n = u.pkt_n;
          },
        )))

abbrev pub is_null : Option (List ℕ) → Bool
is_null none = true
is_null (some flags) = false

-- The test at the start of FilePacket and of Start.
abbrev pub needs_info : Upgrade → Bool
needs_info u = is_null u.rcvd || (u.total_pkt == 0 || (u.filelen == 0 || u.pktsize_k == 0))

-- What the system calls do: whether the file opens, whether lseek succeeds, and how many bytes write
-- takes; `none` for a failure.
pub record Calls : Type 0 where
  pub opened : Bool
  pub sought : Bool
  pub wrote : Option ℕ

-- So many bytes from offset 4 of the packet, at an offset of the file.
abbrev pub write_at : ℕ → Memory → ℕ → File → File
write_at offset packet n file i =
    if leb offset i && ltb i (offset + n) then packet (4 + (i - offset)) else file i

abbrev pub flag : ℕ → Option (List ℕ) → Option (List ℕ)
flag k none = none
flag k (some flags) = some (set flags k 1)

-- The call of write and what follows, for `len` bytes.
unfoldable pub write_packet : Option ℕ → Memory → ℕ → Upgrade × File → Option ℕ × (Upgrade × File)
write_packet none packet len (u, file) = (none, (u, file))
write_packet (some n) packet len (u, file) =
    let offset = u.pkt_n * u.pktsize_k * 1024 in
    if n == len
    then (some 0, (record u { rcvd = flag u.pkt_n u.rcvd }, write_at offset packet n file))
    else (none, (u, write_at offset packet n file))

-- The packet has `len` bytes, of which four are its header; a shorter one has a negative length, which
-- differs from all others.
unfoldable pub file_packet : Calls → Memory → ℕ → Upgrade × File → Option ℕ × (Upgrade × File)
file_packet calls packet len (u, file) =
    let k = get_u16 (packet 2) (packet 3) in
    let u' : Upgrade = record u { pkt_n = k } in
    if needs_info u
    then (some 1, (u, file))
    else (if ltb (u.total_pkt - 1) k
        then (some 2, (u', file))
        else (if ltb k (u.total_pkt - 1) && not (leb 4 len && (len - 4 == u.pktsize_k * 1024))
            then (some 3, (u', file))
            else (if not (ltb k (u.total_pkt - 1))
                  && not (leb 4 len && (len - 4 == u.filelen % (u.pktsize_k * 1024)))
                then (some 4, (u', file))
                else (if not calls.opened
                    then (none, (u', file))
                    else (if not calls.sought
                        then (none, (u', file))
                        else write_packet calls.wrote packet (len - 4) (u', file))))))

-- The flag of a packet; `none` stands for a read past the end of the array.
abbrev pub flag_of : Option (List ℕ) → ℕ → Option ℕ
flag_of none k = none
flag_of (some flags) k = get_elem? flags k

-- The loop of Start tests the flag of the last packet that came, in each round.
unfoldable pub some_missing : Upgrade → ℕ → Option Bool
some_missing u zero = some false
some_missing u (suc left) = do
  flag ← flag_of u.rcvd u.pkt_n
  rest ← some_missing u left
  some (if flag == 0 then true else rest)

-- What Start does after its loop. `unpacked` is the result of UnpackFirmware; the checksum text that
-- it leaves is output.
abbrev pub finish : Option ℕ → Upgrade → Bool → Option ℕ × Upgrade
finish unpacked u true = (some 2, u)
finish unpacked u false =
    (unpacked, record u { filelen = 0; pktsize_k = 0; total_pkt = 0; rcvd = none; pkt_n = 0 })

-- `none` where the loop reads past the end of the array of flags, which has no defined result.
unfoldable pub start : Option ℕ → Upgrade → Option (Option ℕ × Upgrade)
start unpacked u =
    if needs_info u
    then some (some 1, u)
    else (some_missing u u.total_pkt >>= λ missing. some (finish unpacked u missing))
