-- ===== src/Layer/Nts.antt =====
-- Class LayerNTS of src/layer/LayerNTS.cpp, with ISession of include/layer/ISession.h: addresses,
-- sequence numbers, checksums and the session of a link.
-- What it sends and calls is recorded in order. The layer above is a parameter, since it calls back.
pub mod Frames
pub mod Sequence
pub mod Tests
use gc.Common.{
  ℕ, ◌+◌, ◌-◌, ◌*◌, ◌%◌, Bool, true, false, not, ◌&&◌, ◌||◌, Option, none, some, List, [], ◌∷◌,
  ◌++◌, length, ltb, ◌==◌, if◌then◌else◌, holds, u8, u16,
}
use gc.Tsisp003.Memory.{Memory, slice}
use gc.Utils.Cnvt.{parse_to_u8, parse_to_u16, parse_to_asc, bytes_to_asc, u16_to_asc}
use gc.Utils.Crc.{crc16_1021}
use gc.Module.BootTimer.{Timespec, clear, set_ms, is_expired}
use gc.Layer.DtLk.{soh, stx, etx, ack, nak}
use gc.Tsisp003.Mi

pub data Session : Type 0 where
  off_line start on_line : Session

abbrev pub is_online : Session → Bool
is_online on_line = true
is_online _ = false

-- The settings of UciUserCfg that the layers read.
pub record UserCfg : Type 0 where
  pub device_id : ℕ
  pub broadcast_id : ℕ
  pub session_timeout_sec : ℕ
  pub seed_offset : ℕ
  pub password_offset : ℕ

-- A packet for the lower layer, and the calls of the controller.
pub data Event : Type 0 where
  sent : List ℕ → Event
  refresh_session_time refresh_disp_time : Event
  set_online : Bool → Event
  status_led : Bool → Event

-- `others_online` tells whether another link is on line, `led` is the pin of the status LED.
pub record Nts : Type 0 where
  pub session : Session
  pub seed : ℕ
  pub timeout : Timespec
  pub addr : ℕ
  pub nr : ℕ
  pub ns : ℕ
  pub led : Bool
  pub others_online : Bool
  pub events : List Event

abbrev pub emit : Nts → Event → Nts
emit s e = record s { events = s.events ++ e ∷ [] }

unfoldable pub inc_n : ℕ → ℕ
inc_n n = if u8 (n + 1) == 0 then 1 else u8 (n + 1)

-- A block with its checksum and end.
unfoldable pub end_of_block : List ℕ → List ℕ
end_of_block p = p ++ (u16_to_asc (crc16_1021 p 0) ++ etx ∷ [])

unfoldable pub make_nondata : UserCfg → Nts → ℕ → List ℕ
make_nondata cfg s a = end_of_block (a ∷ parse_to_asc s.nr ++ parse_to_asc cfg.device_id)

unfoldable pub data_header : UserCfg → Nts → List ℕ
data_header cfg s =
    soh ∷ parse_to_asc s.ns ++ parse_to_asc s.nr ++ parse_to_asc cfg.device_id ++ stx ∷ []

unfoldable pub tx : UserCfg → Nts → List ℕ → Nts
tx cfg s bytes =
    if s.addr == cfg.broadcast_id
    then s
    else (let packet = make_nondata cfg s ack ++ end_of_block (data_header cfg s ++ bytes) in
        let s' = emit s (sent packet) in
        if is_online s.session then record s' { ns = inc_n s.ns } else s')

-- Whether this link or another is on line.
unfoldable pub is_any_online : Nts → Bool
is_any_online s = is_online s.session || s.others_online

unfoldable pub set_session : Nts → Session → Nts
set_session s v =
    let reset = record s { session = v; nr = 0; ns = 0 } in
    let lit : Nts = elim v [
      | off_line ↦
          let cleared = record reset { timeout = clear } in
          if not s.led && not (is_any_online reset)
          then emit (record cleared { led = true }) (status_led true)
          else cleared
      | start ↦ reset
      | on_line ↦ if s.led then emit (record reset { led = false }) (status_led false) else reset
    ] in
    emit lit (set_online (is_any_online reset))

unfoldable pub clr_rx : Nts → Nts
clr_rx s = set_session s off_line

unfoldable pub is_this_session_timeout : Nts → Timespec → Bool
is_this_session_timeout s now = is_online s.session && is_expired now s.timeout

abbrev pub parse_at : Memory → ℕ → Option ℕ
parse_at buf i = parse_to_u8 (buf i) (buf (i + 1))

-- The result -1, stored in a uint16_t.
abbrev pub to_u16 : Option ℕ → ℕ
to_u16 none = 65535
to_u16 (some n) = n

unfoldable pub crc_ok : Memory → ℕ → Bool
crc_ok buf len =
    crc16_1021 (slice buf 0 (len - 5)) 0 == to_u16 (parse_to_u16 (slice buf (len - 5) 4))

unfoldable pub send_nak : UserCfg → Nts → Nts
send_nak cfg s = emit s (sent (make_nondata cfg s nak))

abbrev pub broadcast_mi : List ℕ
broadcast_mi =
    Mi.system_reset ∷ Mi.update_time ∷ Mi.end_session ∷ Mi.sign_set_text_frame
    ∷ Mi.sign_set_graphics_frame ∷ Mi.sign_set_message ∷ Mi.sign_set_plan ∷ Mi.sign_display_frame
    ∷ Mi.sign_display_message ∷ Mi.enable_plan ∷ Mi.disable_plan ∷ Mi.sign_set_dimming_level
    ∷ Mi.power_on_off ∷ Mi.reset_fault_log ∷ Mi.sign_set_high_resolution_graphics_frame
    ∷ Mi.sign_display_atomic_frames ∷ []

unfoldable pub is_broadcast_mi : List ℕ → Option ℕ → Bool
is_broadcast_mi [] mi = false
is_broadcast_mi (m ∷ ms) mi = holds mi m || is_broadcast_mi ms mi

-- A session is dropped when a new one starts or when it was silent too long.
unfoldable pub drop_session : UserCfg → Timespec → Nts → Memory → ℕ → Nts
drop_session cfg now s buf len =
    if (holds (parse_at buf 8) Mi.start_session
        && len == 15
        && holds (parse_at buf 5) cfg.device_id)
      || (is_expired now s.timeout && is_online s.session)
    then record s { session = off_line; ns = 0; nr = 0 }
    else s

-- What the sequence numbers of a packet say: `ns` and `nr` are those in the packet. A text that is
-- no number counts as -1, which IncN, whose argument is a uint8_t, takes for 255.
abbrev pub inc_parsed : Option ℕ → ℕ
inc_parsed none = inc_n 255
inc_parsed (some n) = inc_n n

abbrev pub to_u8 : Option ℕ → ℕ
to_u8 none = 255
to_u8 (some n) = n

unfoldable pub sequence : Nts → Option ℕ → Option ℕ → Option Nts
sequence s ns nr =
    if holds ns s.nr
    then some (record s { nr = inc_parsed ns })
    else (if inc_parsed ns == s.nr && inc_parsed nr == s.ns
        then some (record s { ns = to_u8 nr })
        else none)

-- What comes of the header of a packet: it goes on to the upper layer, or it is over.
pub data Checked : Type 0 where
  pass : Nts → Checked
  over : Nts → Checked

unfoldable pub check_session : UserCfg → Nts → Memory → Checked
check_session cfg s buf =
    if is_online s.session
    then (if holds (parse_at buf 5) cfg.device_id
        then elim (sequence s (parse_at buf 1) (parse_at buf 3)) [
          | some s' ↦ pass s'
          | none ↦ over (send_nak cfg s)
        ]
        else (if is_broadcast_mi broadcast_mi (parse_at buf 8) then pass s else over s))
    else (if holds (parse_at buf 5) cfg.broadcast_id then over s else pass s)

-- The time of the answer starts the silence anew.
unfoldable pub restart_timeout : UserCfg → Timespec → Nts → Nts
restart_timeout cfg later s =
    if is_online s.session
    then (let s' = record s {
      timeout =
          if cfg.session_timeout_sec == 0
          then clear
          else set_ms later (cfg.session_timeout_sec * 1000);
    } in
        emit (emit s' refresh_session_time) refresh_disp_time)
    else s

-- The checks before the session: the packet that is left to handle, or it is over.
-- A packet that is too short is answered with a Reject whose second byte is read past a local array;
-- `junk` stands for that byte.
unfoldable pub check_packet : UserCfg → ℕ → Nts → Memory → ℕ → Checked
check_packet cfg junk s buf len =
    let addr = parse_at buf 5 in
    if not (holds addr cfg.device_id) || holds addr cfg.broadcast_id
    then over s
    else (if not (buf 7 == stx)
        then over s
        else (if ltb len 15 || len % 2 == 0
            then over (tx cfg s (bytes_to_asc (0 ∷ junk ∷ 3 ∷ [])))
            else (if not (crc_ok buf len)
                then over (send_nak cfg s)
                else pass (record s { addr = to_u8 addr }))))

-- `Rx`: `now` and `later` are the clock before and after the upper layer's work.
unfoldable pub rx :
    (upper : Nts → List ℕ → Nts) → UserCfg → ℕ → Timespec → Timespec → Nts → Memory → ℕ → Nts
rx upper cfg junk now later s buf len = elim (check_packet cfg junk s buf len) [
  | over s' ↦ s'
  | pass s₁ ↦ elim (check_session cfg (drop_session cfg now s₁ buf len) buf) [
    | over s' ↦ s'
    | pass s₂ ↦ restart_timeout cfg later (upper s₂ (slice buf 8 (len - 13)))
  ]
]
