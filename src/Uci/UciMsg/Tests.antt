-- ===== src/Uci/UciMsg/Tests.antt =====
-- Runs and instances for src/uci/UciMsg.cpp.
use gc.Common.{◌-◌, ◌≡◌, refl, sym, ◌∙◌, arith}
use gc.Tsisp003.AppError.{app_no_error}
use gc.Tsisp003.Memory.{slice, holding}
use gc.Tsisp003.Message
use gc.Tsisp003.Message.Tests.{packet, packet-IsBytes, size, frames, message, accepted}
use gc.Utils.Cnvt.{get_u16}
use gc.Utils.Crc.{crc16_1021, crc16_loop, crc16_step}
use gc.Utils.Crc.Tables.{crc16_1021_table}
use gc.Uci.UciMsg.{UciMsg, empty, set_msg, load_option, saved_text, store}
use gc.Uci.UciMsg.Persistence.{load_option-saved_text}

abbrev stored : UciMsg
stored = (set_msg frames (holding packet) size empty).1

stored-accepted : set_msg frames (holding packet) size empty ≡ (app_no_error, stored)
unfolding set_msg Message.init Message.check_entries Message.scan
stored-accepted = refl

computed : crc16_1021 (slice (holding packet) 0 (size - 2)) 0 ≡ 16344
unfolding crc16_1021 crc16_loop crc16_step crc16_1021_table
computed = refl

stored_crc : message.crc ≡ 16344
unfolding Message.init Message.check_entries Message.scan get_u16
stored_crc = refl

load_option-saved_text_example :
    (load_option frames 1 (saved_text message) (holding packet, empty)).1 ≡ store message empty
load_option-saved_text_example =
    load_option-saved_text frames (holding packet) (holding packet) size 1 empty message
      packet-IsBytes accepted (computed ∙ sym stored_crc) (omega arith) (omega arith)
