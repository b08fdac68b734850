-- ===== src/Uci/UciMsg/Persistence.antt =====
-- SaveMsg and LoadConfig of src/uci/UciMsg.cpp, one against the other.
use gc.Common.{ℕ, ◌+◌, ◌-◌, ◌/◌, ◌≤◌, ◌≡◌, ap, ap₂, ◌∙◌, Bool, true, List, arith, length}
use gc.Utils.Cnvt.{get_u16, bytes_to_asc}
use gc.Utils.Cnvt.Hex.{length-bytes_to_asc}
use gc.Utils.Crc.{crc16_1021}
use gc.Tsisp003.Memory.{
  Memory, IsBytes, slice, Agree, length-slice, get_or-slice, slice-Agree, parse_slice,
}
use gc.Tsisp003.AppError.{app_no_error}
use gc.Tsisp003.Message
use gc.Tsisp003.Message.{Message}
use gc.Tsisp003.Message.Laws.{init-Accepted, to_array-init, init-Agree}
use gc.Uci.UciMsg.{UciMsg, store, set_msg, saved_text, overwrite, load_packet, load_option}

-- The buffer of the loader after a packet was written into it agrees with the packet.
Agree-overwrite : (buf b : Memory) (n : ℕ) → Agree n buf (overwrite (slice buf 0 n) b)
unfolding overwrite
Agree-overwrite buf b n i h = ground (arith, length-slice buf 0 n, get_or-slice buf 0 n i h)

load_packet-stores :
    (is_frm_defined : ℕ → Bool) (b : Memory) (len i : ℕ) (u : UciMsg) (m : Message)
    → Message.init is_frm_defined b len Message.blank ≡ (app_no_error, m)
    → crc16_1021 (slice b 0 (len - 2)) 0 ≡ get_u16 (b (len - 2)) (b (len - 2 + 1))
    → 1 ≤ i
    → i ≤ 255
    → load_packet is_frm_defined i true len b u ≡ store m u
unfolding load_packet set_msg
load_packet-stores is_frm_defined b len i u m e crc lo hi = ground arith

-- The text that SaveMsg writes for a message that was accepted from a buffer of bytes with the
-- right checksum is read by LoadConfig as that message, which it stores, whatever the option's
-- number from 1 to 255 and whatever its buffer and table held.
pub load_option-saved_text :
    (is_frm_defined : ℕ → Bool) (buf b : Memory) (len i : ℕ) (u : UciMsg) (m : Message)
    → IsBytes buf
    → Message.init is_frm_defined buf len Message.blank ≡ (app_no_error, m)
    → crc16_1021 (slice buf 0 (len - 2)) 0 ≡ m.crc
    → 1 ≤ i
    → i ≤ 255
    → (load_option is_frm_defined i (saved_text m) (b, u)).1 ≡ store m u
unfolding load_option saved_text Message.header
load_option-saved_text is_frm_defined buf b len i u m bytes e crc lo hi =
    let a = init-Accepted is_frm_defined buf len Message.blank e in
    let agree = Agree-overwrite buf b len in
    let size : length (bytes_to_asc (slice buf 0 len)) / 2 ≡ len =
      omega (arith, length-bytes_to_asc (slice buf 0 len), length-slice buf 0 len) in
    let matches =
      ap (λ (bs : List ℕ). crc16_1021 bs 0)
        (slice-Agree buf (overwrite (slice buf 0 len) b) 0 (len - 2) len agree (omega arith))
      ∙ crc
      ∙ ap (λ (x : Message). x.crc) a.result
      ∙ ap₂ get_u16 (agree (len - 2) (omega (arith, a.enough)))
          (agree (len - 2 + 1) (omega (arith, a.enough))) in
    rw
      (
        to_array-init is_frm_defined buf len Message.blank m bytes e,
        parse_slice buf len bytes (omega (arith, a.enough)),
        size,
      )
      (load_packet-stores is_frm_defined (overwrite (slice buf 0 len) b) len i u m
        (init-Agree is_frm_defined buf _ len Message.blank m agree e) matches lo hi)
