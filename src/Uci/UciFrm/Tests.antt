-- ===== src/Uci/UciFrm/Tests.antt =====
-- Instances for src/uci/UciFrm.cpp.
use gc.Common.{◌≡◌, refl, ap, some, arith}
use gc.Tsisp003.Memory.{holding}
use gc.Tsisp003.AppError.{app_no_error}
use gc.Tsisp003.Frame
use gc.Tsisp003.Frame.{txt}
use gc.Tsisp003.Frame.Tests.{sign, packet, packet-IsBytes, frame, accepted}
use gc.Uci.UciFrm.{empty, store, kind_of, set_frm, saved_text, load_file, reset}
use gc.Uci.UciFrm.Laws.{IsValid, set_frm-IsValid, reset-IsValid}
use gc.Uci.UciFrm.Persistence.{load_file-saved_text}

valid : IsValid empty
unfolding reset
valid = reset-IsValid empty

set_frm-IsValid_example : IsValid (set_frm sign (holding packet) 13 empty).1
set_frm-IsValid_example = set_frm-IsValid sign (holding packet) 13 empty packet-IsBytes valid

is_txt : kind_of 0x0a ≡ some txt
unfolding kind_of
is_txt = refl

made : Frame.init sign txt (holding packet) 13 ≡ (app_no_error, frame)
unfolding Frame.init
made = ap (λ e. (e, frame)) accepted

load_file-saved_text_example :
    (load_file sign (saved_text frame) (holding packet, empty)).1 ≡ store frame empty
load_file-saved_text_example =
    load_file-saved_text sign txt (holding packet) 13 frame (holding packet) empty packet-IsBytes
      is_txt made (omega arith)
