-- ===== src/Uci/UciPln/Tests.antt =====
-- Runs and instances for src/uci/UciPln.cpp.
use gc.Common.{◌-◌, ◌≡◌, refl, sym, ◌∙◌, arith}
use gc.Tsisp003.AppError.{app_no_error}
use gc.Tsisp003.Memory.{slice, holding}
use gc.Tsisp003.Plan
use gc.Tsisp003.Plan.Tests.{packet, packet-IsBytes, size, frames, messages, plan, accepted}
use gc.Utils.Cnvt.{get_u16}
use gc.Utils.Crc.{crc16_1021, crc16_loop, crc16_step}
use gc.Utils.Crc.Tables.{crc16_1021_table}
use gc.Uci.UciPln.{UciPln, empty, set_pln, reset, load_option, saved_text, store}
use gc.Uci.UciPln.Laws.{IsValid, reset-IsValid}
use gc.Uci.UciPln.Persistence.{load_option-saved_text_plan}

abbrev stored : UciPln
stored = (set_pln frames messages (holding packet) size empty).1

stored-accepted : set_pln frames messages (holding packet) size empty ≡ (app_no_error, stored)
unfolding set_pln Plan.init Plan.check_entries Plan.scan Plan.overlaps Plan.overlap_any Plan.overlap
stored-accepted = refl

valid : IsValid empty
unfolding reset
valid = (reset-IsValid empty 1).0

computed : crc16_1021 (slice (holding packet) 0 (size - 2)) 0 ≡ 19108
unfolding crc16_1021 crc16_loop crc16_step crc16_1021_table
computed = refl

stored_crc : plan.crc ≡ 19108
unfolding Plan.init Plan.check_entries Plan.scan Plan.overlaps Plan.overlap_any Plan.overlap get_u16
stored_crc = refl

load_option-saved_text_plan_example :
    (load_option frames messages 1 (saved_text plan) (holding packet, empty)).1 ≡ store plan empty
load_option-saved_text_plan_example =
    load_option-saved_text_plan frames messages (holding packet) (holding packet) size 1 empty plan
      packet-IsBytes accepted (computed ∙ sym stored_crc) (omega arith) (omega arith)
