-- ===== src/Tsisp003/Commands/Rx.antt =====
-- The choice of a handler by the code of a message: Rx of src/tsisp003/TsiSp003AppVer21.cpp,
-- src/tsisp003/TsiSp003AppVer31.cpp and src/tsisp003/TsiSp003AppVer50.cpp.
pub mod Each
pub mod Offline
use gc.Common.{
  ℕ, zero, suc, ◌+◌, ◌-◌, ◌*◌, Bool, true, false, not, ◌&&◌, ◌||◌, Option, none, some, ◌>>=◌, List,
  [], ◌∷◌, ◌==◌, ltb, if◌then◌else◌, length, get_or, take,
}
use gc.Tsisp003.Memory.{Memory}
use gc.Tsisp003.Mi
use gc.Tsisp003.AppError.{
  AppError, app_no_error, syntax_error, frm_msg_pln_undefined, mi_not_supported, unknown_mi,
}
use gc.Tsisp003.Frame.{Frame}
use gc.Tsisp003.Message
use gc.Tsisp003.Message.{Message}
use gc.Tsisp003.Plan
use gc.Tsisp003.Plan.{Plan}
use gc.Tsisp003.Session
use gc.Tsisp003.Session.{
  App, app_tx, reject, send_ack, chk_len, check_online_reject_if_false, is_in, not_supported,
}
use gc.Layer.Nts.{UserCfg}
use gc.Uci.UciFrm.{get_frm}
use gc.Uci.UciMsg.{is_msg_defined}
use gc.Uci.UciPln.{is_pln_defined}
use gc.Uci.UciFault
use gc.Uci.UciFault.{UciFault, Tm, get_fault_log20}
use gc.Sign.Controller.{Settings, Db, Sign, Group}
use gc.Sign.Controller.Store.{sign_set_frame, sign_set_message, sign_set_plan}
use gc.Sign.Controller.Devices.{cmd_set_dimming_level, cmd_power_on_off, cmd_disable_enable_device}
use gc.Sign.Controller.Lanes.{cmd_disp_frm, cmd_disp_msg}
use gc.Sign.Controller.Atomic.{cmd_disp_atomic_frm}
use gc.Sign.Controller.Plans.{cmd_en_dis_plan, cmd_request_enabled_plans}
use gc.Sign.Controller.Reset.{cmd_system_reset}
use gc.Sign.Controller.SignTest.{cmd_sign_test}
use gc.Tsisp003.Commands.{Ctrl, Env, answer}
use gc.Tsisp003.Commands.Handlers.{
  heartbeat_poll, update_time, system_reset, sign_set_frame_msg, sign_set_message_msg,
  sign_set_plan_msg, sign_display_frame, sign_display_message, en_dis_plan_msg,
  request_enabled_plans, sign_set_dimming_level, power_on_off, disable_enable_device,
  sign_request_stored_fmp, sign_extended_status_request, retrieve_fault_log, reset_fault_log,
  sign_set_high_resolution_graphics_frame, sign_configuration_request, sign_display_atomic_frames,
}

-- The codes of UserDefinedCmdFA and CmdResetLog that are used here.
abbrev pub fa_reset_logs : ℕ
fa_reset_logs = 0x0f

abbrev pub fa_sign_test : ℕ
fa_sign_test = 0x30

abbrev pub rpl_flt_logs : ℕ
rpl_flt_logs = 0x0b

abbrev pub rpl_alm_logs : ℕ
rpl_alm_logs = 0x0c

abbrev pub rpl_evt_logs : ℕ
rpl_evt_logs = 0x0d

-- A handler, which comes back with `none` where the schedule of a group ran out of fuel.
abbrev pub Handler : Type 0
Handler = App → Ctrl → Memory → ℕ → Option (App × Ctrl)

-- The choice by the cases of a switch.
unfoldable pub dispatch : List (ℕ × Handler) → ℕ → Option Handler
dispatch [] mi = none
dispatch ((code, handle) ∷ cases) mi =
    let rest = dispatch cases mi in if mi == code then some handle else rest

-- The messages that Rx of the session knows.
abbrev pub is_of_session : ℕ → Bool
is_of_session mi =
    mi == Mi.start_session
    || (mi == Mi.password || (mi == Mi.end_session || is_in not_supported mi))

-- The handlers of UserDefinedCmd that are not given here: those of a code of UserDefinedCmdFA, and
-- those of 0xFE and 0xFF.
pub record UserDefined : Type 0 where
  pub fa_cmd : ℕ → Option Handler
  pub fe_set_gui_config : Handler
  pub ff_rqst_gui_config : Handler

module _ (env : Env) where
  -- The cases of version 2.1.
  abbrev pub cases21 : List (ℕ × Handler)
  cases21 =
      (Mi.heartbeat_poll, heartbeat_poll env)
      ∷ (Mi.update_time, update_time env)
      ∷ (Mi.system_reset, system_reset env)
      ∷ (Mi.sign_set_text_frame, sign_set_frame_msg env)
      ∷ (Mi.sign_set_graphics_frame, sign_set_frame_msg env)
      ∷ (Mi.sign_set_message, sign_set_message_msg env)
      ∷ (Mi.sign_set_plan, sign_set_plan_msg env)
      ∷ (Mi.sign_display_frame, sign_display_frame env)
      ∷ (Mi.sign_display_message, sign_display_message env)
      ∷ (Mi.enable_plan, en_dis_plan_msg env)
      ∷ (Mi.disable_plan, en_dis_plan_msg env)
      ∷ (Mi.request_enabled_plans, request_enabled_plans env)
      ∷ (Mi.sign_set_dimming_level, sign_set_dimming_level env)
      ∷ (Mi.power_on_off, power_on_off env)
      ∷ (Mi.disable_enable_device, disable_enable_device env)
      ∷ (Mi.sign_request_stored_fmp, sign_request_stored_fmp env)
      ∷ (Mi.retrieve_fault_log, retrieve_fault_log env)
      ∷ (Mi.reset_fault_log, reset_fault_log env)
      ∷ (Mi.sign_extended_status_request, sign_extended_status_request env)
      ∷ []

  -- The cases that version 5.0 has besides.
  abbrev pub cases50 : List (ℕ × Handler)
  cases50 =
      (Mi.sign_set_high_resolution_graphics_frame, sign_set_high_resolution_graphics_frame env)
      ∷ (Mi.sign_configuration_request, sign_configuration_request env)
      ∷ (Mi.sign_display_atomic_frames, sign_display_atomic_frames env)
      ∷ []

  unfoldable pub handler50 : ℕ → Option Handler
  unfolding dispatch
  handler50 mi = elim (dispatch cases50 mi) [
    | none ↦ dispatch cases21 mi
    | some handle ↦ some handle
  ]

  -- FA0F_ResetLogs with CmdResetLog; the logs of alarms and events are left out.
  unfoldable pub reset_logs : Handler
  reset_logs a c bytes len =
      let checked = chk_len env.user_cfg a len 3 in
      let known = bytes 2 == rpl_flt_logs || (bytes 2 == rpl_alm_logs || bytes 2 == rpl_evt_logs) in
      let cleared : Ctrl = record c { faults = UciFault.reset c.faults } in
      some (
        if not checked.0
        then (checked.1, c)
        else (if not env.is_reset_log_allowed
            then (reject env.user_cfg checked.1 mi_not_supported, c)
            else (if not known then (reject env.user_cfg checked.1 syntax_error, c) else (
              send_ack env.user_cfg checked.1,
              if bytes 2 == rpl_flt_logs then cleared else c,
            ))))

  -- FA30_SignTest.
  unfoldable pub sign_test : Handler
  sign_test a c bytes len =
      let checked = chk_len env.user_cfg a len 4 in
      let r = cmd_sign_test env.settings bytes c.db c.groups in
      some (
        if not checked.0
        then (checked.1, c)
        else (answer env.user_cfg r.0 checked.1, record c { db = r.1; groups = r.2 }))

  -- UserDefinedCmdFA.
  unfoldable pub user_defined_cmd_fa : UserDefined → Handler
  unfolding reset_logs
  user_defined_cmd_fa user a c bytes len =
      if bytes 1 == fa_reset_logs
      then reset_logs a c bytes len
      else (if bytes 1 == fa_sign_test
          then sign_test a c bytes len
          else (elim (user.fa_cmd (bytes 1)) [
            | none ↦ some (reject env.user_cfg a unknown_mi, c)
            | some handle ↦ handle a c bytes len
          ]))

  -- UserDefinedCmd of the application: the test of the session, and the choice of the handler of the
  -- message 0xFA, 0xFE or 0xFF. The -1 for another code makes Rx of version 5.0 reject the message.
  unfoldable pub user_defined_cmd : UserDefined → Handler
  user_defined_cmd user a c bytes len =
      let online = check_online_reject_if_false env.user_cfg a in
      if not online.0
      then some (online.1, c)
      else (if bytes 0 == Mi.user_defined_cmd_fa
          then user_defined_cmd_fa user online.1 c bytes len
          else (if bytes 0 == Mi.user_defined_cmd_fe
              then user.fe_set_gui_config online.1 c bytes len
              else (if bytes 0 == Mi.user_defined_cmd_ff
                  then user.ff_rqst_gui_config online.1 c bytes len
                  else some (reject env.user_cfg online.1 unknown_mi, c))))

  -- Rx of version 5.0. The messages of a session go to the session, and the rest to the application;
  -- `rand` is that of the C library.
  unfoldable pub rx50 : UserDefined → ℕ → App → Ctrl → Memory → ℕ → Option (App × Ctrl)
  rx50 user rand a c bytes len = elim (handler50 (bytes 0)) [
    | none ↦
        if is_of_session (bytes 0)
        then some (Session.rx (λ a' bytes' len'. a') env.user_cfg rand a bytes len, c)
        else user_defined_cmd user (record a { micode = bytes 0 }) c bytes len
    | some handle ↦ handle (record a { micode = bytes 0 }) c bytes len
  ]
