-- ===== src/Sign/Command.antt =====
-- The commands to display a frame or a message: DispChk, DispFrm, DispMsg, SignTestDispFrm and DispMode
-- of src/sign/Group.cpp.
pub mod Laws
pub mod Tests
use gc.Common.{
  ℕ, ◌+◌, ◌/◌, ◌%◌, Bool, true, false, ◌&&◌, ◌||◌, not, List, [], ◌∷◌, ◌==◌, if◌then◌else◌, length,
  u8,
}
use gc.Module.Debounce.{is_high}
use gc.Tsisp003.AppError.{
  AppError, app_no_error, power_is_off, facility_switch_override, mi_not_supported, syntax_error,
  frm_msg_pln_undefined,
}
use gc.Tsisp003.Mi
use gc.Sign.Display.{DispType, frm, msg, Display, FsState, is_auto, next_command}
use gc.Sign.Power.{Power, is_off}

abbrev pub chk_pwr : ℕ
chk_pwr = 0x01

abbrev pub chk_fs : ℕ
chk_fs = 0x02

abbrev pub chk_fe : ℕ
chk_fe = 0x04

-- The members of a group that the commands use; `disp` is what its GrpProc keeps of the last command,
-- with the length before it, and `reject_frms` holds for each sign the frames that it rejects.
pub record Group : Type 0 where
  pub group_id : ℕ
  pub power : Power
  pub fs : FsState
  pub display : Display
  pub disp_mode : ℕ
  pub disp : List ℕ
  pub reject_frms : List (ℕ → Bool)

-- Whether the bit is set.
abbrev pub has_bit : ℕ → ℕ → Bool
has_bit chk bit = not (chk / bit % 2 == 0)

unfoldable pub disp_chk : Group → ℕ → AppError
disp_chk g chk =
    if has_bit chk chk_pwr && (is_off g.power.main_pwr || is_off g.power.cmd_pwr)
    then power_is_off
    else (if has_bit chk chk_fs && not (is_auto g.fs)
        then facility_switch_override
        else (if has_bit chk chk_fe && is_high g.display.fatal_error
            then mi_not_supported
            else app_no_error))

-- The loop over the signs.
unfoldable pub rejected : List (ℕ → Bool) → ℕ → Bool
rejected [] id = false
rejected (bits ∷ rest) id = if bits id then true else rejected rest id

-- ProcDisp of GrpProc.
abbrev pub proc_disp : List ℕ → Group → Group
proc_disp cmd g = record g { disp = length cmd ∷ cmd }

-- DispMode; whether the frame of the sign test is defined is an argument.
abbrev pub set_disp_mode : Bool → ℕ → Group → Group
set_disp_mode test_frame m g = record g { disp_mode = if test_frame then m else 0 }

unfoldable pub sign_test_disp_frm : Bool → Group → AppError × Group
sign_test_disp_frm test_frame g =
    let g' = set_disp_mode test_frame 1 g in
    (if g'.disp_mode == 1 then app_no_error else frm_msg_pln_undefined, g')

-- A command goes on only without an error.
abbrev pub if_accepted : AppError → Group → AppError × Group → AppError × Group
if_accepted app_no_error g res = res
if_accepted r g res = (r, g)

unfoldable pub disp_frm : Bool → ℕ → Bool → Group → AppError × Group
disp_frm test_frame id log g =
    let logged = if log then proc_disp (Mi.sign_display_frame ∷ g.group_id ∷ id ∷ []) g else g in
    let ready = set_disp_mode test_frame 0 logged in
    let shown : Group = record ready { display = next_command frm id ready.display } in
    if_accepted (if id == 0 then app_no_error else disp_chk g 0xFF) g
      (if rejected g.reject_frms id then (syntax_error, g) else (app_no_error, shown))

unfoldable pub disp_msg : Bool → ℕ → Bool → Group → AppError × Group
disp_msg test_frame id log g =
    let next : Group = record g { display = next_command msg id g.display } in
    let logged =
      if log then proc_disp (Mi.sign_display_message ∷ g.group_id ∷ id ∷ []) next else next in
    if_accepted (if id == 0 then app_no_error else disp_chk g 0xFF) g
      (app_no_error, set_disp_mode test_frame 0 logged)
