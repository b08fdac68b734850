-- ===== src/Tsisp003/Commands/Sound.antt =====
-- What a message of src/tsisp003/TsiSp003AppVer21.cpp or src/tsisp003/TsiSp003AppVer50.cpp leaves of the
-- tables and the schedules of the controller.
pub mod Stores
pub mod Acts
pub mod Asks
pub mod User
pub mod Whole
use gc.Common.{
  ℕ, ◌+◌, ◌*◌, ◌≡◌, refl, sym, ap, ◌∙◌, Bool, true, false, ◌||◌, not, Option, none, some, ◌>>=◌,
  List, [], ◌∷◌, ◌==◌, ltb, Bool-cases, inl, inr, if◌then◌else◌, length,
}
use gc.Tsisp003.Memory.{Memory, IsBytes}
use gc.Tsisp003.AppError.{AppError, app_no_error, syntax_error, device_controller_offline}
use gc.Tsisp003.Session
use gc.Tsisp003.Session.{App, app_tx, reject, check_online_reject_if_false, chk_len}
use gc.Layer.Nts.{UserCfg}
use gc.Uci.UciFault
use gc.Sign.Power
use gc.Sign.Controller.{Db, Group}
use gc.Sign.Controller.Reset.{cmd_system_reset}
use gc.Sign.Controller.Plans.{cmd_en_dis_plan, cmd_request_enabled_plans}
use gc.Tsisp003.Mi
use gc.Uci.UciFault.{get_fault_log20}
use gc.Tsisp003.Commands.Handlers.{stored_bytes}
use gc.Tsisp003.Session.{send_ack}
use gc.Tsisp003.AppError.{frm_msg_pln_undefined, mi_not_supported}
use gc.Sign.Controller.Store.{sign_set_frame, sign_set_message, sign_set_plan}
use gc.Sign.Controller.Devices.{
  check_dimming, act_dimming, check_setting, set_dimming, set_power, set_device,
  cmd_set_dimming_level, cmd_power_on_off, cmd_disable_enable_device,
}
use gc.Sign.Controller.Lanes.{cmd_disp_frm, cmd_disp_msg}
use gc.Sign.Controller.Atomic.{cmd_disp_atomic_frm}
use gc.Sign.Controller.Schedules.{schedules, schedules-for_entries}
use gc.Sign.Controller.Planned.{IsSound, cmd_system_reset-IsSound}
use gc.Sign.Controller.Sound.{
  same-IsSound, sign_set_frame-IsSound, sign_set_message-IsSound, sign_set_plan-IsSound,
  schedules-cmd_disp_frm, schedules-cmd_disp_msg, schedules-cmd_disp_atomic_frm,
  cmd_en_dis_plan-IsSound,
}
use gc.Tsisp003.Commands.{Ctrl, Env, past_checks, answer, answer_status, answer_groups}
use gc.Tsisp003.Commands.Handlers.{
  sign_set_high_resolution_graphics_frame, sign_configuration_request, sign_display_atomic_frames,
  heartbeat_poll, update_time, system_reset, sign_set_frame_msg, sign_set_message_msg,
  sign_set_plan_msg, sign_display_frame, sign_display_message, en_dis_plan_msg,
  request_enabled_plans, sign_set_dimming_level, power_on_off, disable_enable_device,
  sign_request_stored_fmp, retrieve_fault_log, reset_fault_log, sign_extended_status_request,
}
use gc.Tsisp003.Commands.Rx.{Handler, handler50, rx50}
use gc.Tsisp003.Commands.Rx.Each.{OfSome, handler50-OfSome}

-- A result that is there, and sound.
abbrev pub Sound : Option (App × Ctrl) → Type 0
Sound o = (a : App) × (c : Ctrl) × (o ≡ some (a, c)) × IsSound c.db c.groups

abbrev pub KeepsSound : Handler → Type 0
KeepsSound handle =
    (a : App) (c : Ctrl) (bytes : Memory) (len : ℕ)
    → IsBytes bytes
    → IsSound c.db c.groups
    → Sound (handle a c bytes len)

pub past_checks-Sound :
    (cfg : UserCfg) (a : App) (c : Ctrl) (len expect : ℕ) (body : App → Option (App × Ctrl))
    → IsSound c.db c.groups
    → ((x : App) → Sound (body x))
    → Sound (past_checks cfg a c len expect body)
past_checks-Sound cfg a c len expect body v inside =
    let online = check_online_reject_if_false cfg a in
    let checked = chk_len cfg online.1 len expect in
    elim (Bool-cases online.0) [
      | inr e ↦ (online.1, c, rw e refl, v)
      | inl e ↦ elim (Bool-cases checked.0) [
        | inr f ↦ (checked.1, c, rw (e, f) refl, v)
        | inl f ↦ let (a', c', done, w) = inside checked.1 in (a', c', rw (e, f) done, w)
      ]
    ]

pub answer_status-Sound :
    (env : Env) (res : AppError × Db) (a : App) (c : Ctrl)
    → IsSound res.1 c.groups
    → Sound (answer_status env res a c)
answer_status-Sound env (app_no_error, db) a c v = (_, _, refl, v)
answer_status-Sound env (e, db) a c v = (_, _, refl, v)

pub answer_groups-Sound :
    (env : Env) (res : AppError × List Group) (a : App) (c : Ctrl)
    → IsSound c.db res.1
    → Sound (answer_groups env res a c)
answer_groups-Sound env (r, groups) a c v = (_, _, refl, v)
