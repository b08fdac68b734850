-- ===== src/Sign/Controller/Tests.antt =====
-- Instances for the controller of src/sign/Controller.cpp.
use gc.Common.{ℕ, ◌≡◌, refl, true, false, List, [], ◌∷◌, ◌==◌, arith}
use gc.Utils.Cnvt.{get_u16, put_u16}
use gc.Utils.Cnvt.Hex.{are_bytes-AreBytes}
use gc.Utils.Crc.{crc16_1021, crc16_loop, crc16_step}
use gc.Utils.Crc.Tables.{crc16_1021_table}
use gc.Tsisp003.Memory.{IsBytes, holding, holding-IsBytes}
use gc.Tsisp003.AppError.{app_no_error}
use gc.Tsisp003.Frame.Tests as FrameTests
use gc.Tsisp003.Message
use gc.Utils.Check
use gc.Tsisp003.Frame
use gc.Tsisp003.Frame.{
  char_width_ws, char_height_ws, text_columns, text_rows, check_text, check_colour, frame_check,
  all_allowed, header, parsed, verdict,
}
use gc.Tsisp003.Frame.Lines.{count_from, count_lines}
use gc.Uci.UciFrm
use gc.Uci.UciMsg
use gc.Uci.UciPln
use gc.Sign.Command.Tests as CommandTests
use gc.Sign.Schedule.Tests as ScheduleTests
use gc.Sign.Controller.{Settings, Db, Sign, Group, is_frm_active, is_msg_active, any}
use gc.Sign.Controller.Store
use gc.Sign.Controller.Store.{
  Store, store_frame, store_message, store_plan, run, attach_crc, sign_set_frame, sign_set_message,
}
use gc.Sign.Controller.References.{message_at, IsConsistent}
use gc.Sign.Controller.Protection.{run-IsConsistent, run-protects, guarded, held}
use gc.Sign.Controller.Readback.{with_crc, to_array-sign_set_message}

-- Frames and messages up to 3 are locked.
abbrev pub settings : Settings
settings = record {
  hardware = FrameTests.sign;
  is_islus = false;
  is_islus_sp_frm = λ i. false;
  locked_frm = 3;
  locked_msg = 3;
}

abbrev pub sign : Sign
sign = record { sign_id = 1; report_frm = 0; dimming_set = 0; power = 1 }

-- A group whose frame 9 is active.
abbrev pub group : Group
group = record {
  command = CommandTests.group;
  schedule = ScheduleTests.idle_group;
  active_frm = λ i. i == 9;
  active_msg = λ i. false;
  target_dimming_lvl = 0;
  device_en_dis_set = 1;
  signs = sign ∷ [];
  saved = record { dimming = 0; power = 1; device = 1 };
}

abbrev pub db : Db
db = record { frm = UciFrm.empty; msg = UciMsg.empty; pln = UciPln.empty }

pub db-IsConsistent : IsConsistent db
unfolding UciFrm.reset UciMsg.reset UciPln.reset
db-IsConsistent = record {
  frames = UciFrm.Laws.reset-IsValid UciFrm.empty;
  messages = UciMsg.Laws.empty-IsValid;
  plans = (UciPln.Laws.reset-IsValid UciPln.empty 0).0;
  of_message = λ i h.
      let (v, undefined, z) = UciMsg.Laws.reset-IsValid UciMsg.empty i UciMsg.Laws.empty-IsValid in
      absurd (cc);
  of_plan = λ i h. let (v, undefined, z) = UciPln.Laws.reset-IsValid UciPln.empty i in absurd (cc);
}

-- The tables with frame 5.
abbrev pub with_frame : Db
with_frame = (run settings (group ∷ []) store_frame (holding FrameTests.packet) 13 db).1

with_frame-IsConsistent : IsConsistent with_frame
with_frame-IsConsistent =
    run-IsConsistent settings (group ∷ []) (holding FrameTests.packet) 13 db store_frame
      FrameTests.packet-IsBytes db-IsConsistent

-- Message 4 shows frame 5 for a second; its checksum is to be attached.
abbrev pub message : List ℕ
message = 0x0c ∷ 4 ∷ 2 ∷ 10 ∷ 5 ∷ 10 ∷ 0 ∷ []

message-IsBytes : IsBytes (holding message)
message-IsBytes = holding-IsBytes message (are_bytes-AreBytes message refl)

abbrev pub with_message : Db
with_message = (run settings (group ∷ []) store_message (holding message) 7 with_frame).1

message_stored :
    sign_set_message settings (group ∷ []) (holding message) 7 with_frame
    ≡ (app_no_error, with_message)
unfolding sign_set_message sign_set_frame run attach_crc Store.with_msg Store.with_frm
    UciFrm.overwrite put_u16 is_msg_active is_frm_active any UciMsg.set_msg UciMsg.store
    UciFrm.set_frm UciFrm.store UciFrm.kind_of UciFrm.is_frm_defined Message.init
    Message.check_entries Message.scan Frame.init verdict frame_check parsed header crc16_1021
    crc16_loop crc16_step crc16_1021_table get_u16 check_colour check_text Check.text text_rows
    text_columns char_width_ws char_height_ws count_lines count_from all_allowed
message_stored = refl

guarded_frame : guarded settings (group ∷ []) store_frame 9 ≡ true
unfolding is_frm_active any
guarded_frame = refl

-- Frame 9 is active.
run-protects_example : held store_frame with_frame 9 ≡ held store_frame db 9
run-protects_example =
    run-protects settings (group ∷ []) (holding FrameTests.packet) 13 db 9 FrameTests.packet-IsBytes
      db-IsConsistent (ground arith) store_frame store_frame guarded_frame

to_array-sign_set_message_example :
    Message.to_array (message_at with_message 4) ≡ with_crc (holding message) 7
to_array-sign_set_message_example =
    to_array-sign_set_message settings (group ∷ []) (holding message) 7 with_frame with_message
      message-IsBytes with_frame-IsConsistent message_stored
