-- ===== src/Tsisp003/Commands/Handlers.antt =====
-- The handlers of src/tsisp003/TsiSp003AppVer21.cpp and src/tsisp003/TsiSp003AppVer50.cpp.
use gc.Common.{
  ℕ, ◌+◌, ◌-◌, ◌*◌, not, Option, none, some, ◌>>=◌, List, ◌∷◌, ◌==◌, ltb, if◌then◌else◌, length,
  get_or, take,
}
use gc.Tsisp003.Memory.{Memory}
use gc.Tsisp003.Mi
use gc.Tsisp003.AppError.{syntax_error, frm_msg_pln_undefined, mi_not_supported}
use gc.Tsisp003.Message
use gc.Tsisp003.Message.{Message}
use gc.Tsisp003.Plan
use gc.Tsisp003.Plan.{Plan}
use gc.Tsisp003.Session.{App, app_tx, reject, send_ack, chk_len, check_online_reject_if_false}
use gc.Uci.UciFrm.{get_frm}
use gc.Uci.UciMsg.{is_msg_defined}
use gc.Uci.UciPln.{is_pln_defined}
use gc.Uci.UciFault
use gc.Uci.UciFault.{UciFault, Tm, get_fault_log20}
use gc.Sign.Controller.{Db}
use gc.Sign.Controller.Store.{sign_set_frame, sign_set_message, sign_set_plan}
use gc.Sign.Controller.Devices.{cmd_set_dimming_level, cmd_power_on_off, cmd_disable_enable_device}
use gc.Sign.Controller.Lanes.{cmd_disp_frm, cmd_disp_msg}
use gc.Sign.Controller.Atomic.{cmd_disp_atomic_frm}
use gc.Sign.Controller.Plans.{cmd_en_dis_plan, cmd_request_enabled_plans}
use gc.Sign.Controller.Reset.{cmd_system_reset, reset_faults}
use gc.Sign.Controller.Clock.{cmd_update_time}
use gc.Utils.Cnvt.{get_u16}
use gc.Uci.UciFault.{Tm}
use gc.Tsisp003.Commands.{Ctrl, Env, past_checks, answer, answer_status, answer_groups}

-- The bytes of a stored frame, message or plan, without the checksum of the last two; `none` where
-- it is not defined.
unfoldable pub stored_bytes : Db → ℕ → ℕ → Option (List ℕ)
stored_bytes db type id =
    let msg = Message.to_array (get_or db.msg.msgs (id - 1) Message.blank) in
    let pln = Plan.to_array (get_or db.pln.plns (id - 1) Plan.blank) in
    if type == 0
    then (elim (get_frm db.frm id) [ none ↦ none | some f ↦ some f.raw_data ])
    else (if type == 1
        then (if is_msg_defined db.msg id then some (take (length msg - 2) msg) else none)
        else (if is_pln_defined db.pln id then some (take (length pln - 2) pln) else none))

-- The time of an UpdateTime; `none` where the month is 0, which makes tm_mon negative. A year before
-- 1900 counts as 1900, which is as little valid.
unfoldable pub tm_of : Memory → Option Tm
tm_of bytes =
    if bytes 2 == 0
    then none
    else some (record {
      tm_mday = bytes 1;
      tm_mon = bytes 2 - 1;
      tm_year = get_u16 (bytes 3) (bytes 4) - 1900;
      tm_hour = bytes 5;
      tm_min = bytes 6;
      tm_sec = bytes 7;
    })

module _ (env : Env) where
  unfoldable pub heartbeat_poll : App → Ctrl → Memory → ℕ → Option (App × Ctrl)
  heartbeat_poll a c bytes len =
      let checked = chk_len env.user_cfg a len 1 in
      if not checked.0
      then some (checked.1, c)
      else some (app_tx env.user_cfg checked.1 (env.status checked.1 c), c)

  unfoldable pub update_time : App → Ctrl → Memory → ℕ → Option (App × Ctrl)
  update_time a c bytes len = past_checks env.user_cfg a c len 8 (λ a.
      let (r, faults) = cmd_update_time env.clock (tm_of bytes) c.faults in
      some (answer env.user_cfg r a, record c { faults = faults }))

  unfoldable pub system_reset : App → Ctrl → Memory → ℕ → Option (App × Ctrl)
  system_reset a c bytes len = past_checks env.user_cfg a c len 3 (λ a. do
    r ← cmd_system_reset env.settings bytes c.db c.groups
    some (
      answer env.user_cfg r.0 a,
      record c {
        db = r.1;
        groups = r.2;
        faults = reset_faults env.is_reset_log_allowed (bytes 2) r.0 c.faults;
      },
    ))

  unfoldable pub sign_set_frame_msg : App → Ctrl → Memory → ℕ → Option (App × Ctrl)
  sign_set_frame_msg a c bytes len =
      let online = check_online_reject_if_false env.user_cfg a in
      if not online.0
      then some (online.1, c)
      else (if bytes 1 == 0
          then some (reject env.user_cfg online.1 syntax_error, c)
          else answer_status env (sign_set_frame env.settings c.groups bytes len c.db) online.1 c)

  unfoldable pub sign_set_message_msg : App → Ctrl → Memory → ℕ → Option (App × Ctrl)
  sign_set_message_msg a c bytes len =
      let online = check_online_reject_if_false env.user_cfg a in
      if not online.0
      then some (online.1, c)
      else answer_status env (sign_set_message env.settings c.groups bytes len c.db) online.1 c

  unfoldable pub sign_set_plan_msg : App → Ctrl → Memory → ℕ → Option (App × Ctrl)
  sign_set_plan_msg a c bytes len =
      let online = check_online_reject_if_false env.user_cfg a in
      if not online.0
      then some (online.1, c)
      else answer_status env (sign_set_plan c.groups bytes len c.db) online.1 c

  unfoldable pub sign_display_frame : App → Ctrl → Memory → ℕ → Option (App × Ctrl)
  sign_display_frame a c bytes len =
      past_checks env.user_cfg a c len 3
        (λ a. answer_groups env (cmd_disp_frm env.settings env.signs c.db bytes c.groups) a c)

  unfoldable pub sign_display_message : App → Ctrl → Memory → ℕ → Option (App × Ctrl)
  sign_display_message a c bytes len =
      past_checks env.user_cfg a c len 3
        (λ a. answer_groups env (cmd_disp_msg c.db bytes c.groups) a c)

  unfoldable pub en_dis_plan_msg : App → Ctrl → Memory → ℕ → Option (App × Ctrl)
  en_dis_plan_msg a c bytes len =
      past_checks env.user_cfg a c len 3
        (λ a. do r ← cmd_en_dis_plan c.db.pln bytes c.groups; answer_groups env r a c)

  unfoldable pub request_enabled_plans : App → Ctrl → Memory → ℕ → Option (App × Ctrl)
  request_enabled_plans a c bytes len =
      past_checks env.user_cfg a c len 1
        (λ a. some (app_tx env.user_cfg a (cmd_request_enabled_plans c.groups), c))

  unfoldable pub sign_set_dimming_level : App → Ctrl → Memory → ℕ → Option (App × Ctrl)
  sign_set_dimming_level a c bytes len =
      past_checks env.user_cfg a c len (2 + bytes 1 * 3)
        (λ a. answer_groups env (cmd_set_dimming_level bytes c.groups) a c)

  unfoldable pub power_on_off : App → Ctrl → Memory → ℕ → Option (App × Ctrl)
  power_on_off a c bytes len =
      past_checks env.user_cfg a c len (2 + bytes 1 * 2)
        (λ a. answer_groups env (cmd_power_on_off bytes c.groups) a c)

  unfoldable pub disable_enable_device : App → Ctrl → Memory → ℕ → Option (App × Ctrl)
  disable_enable_device a c bytes len =
      past_checks env.user_cfg a c len (2 + bytes 1 * 2)
        (λ a. answer_groups env (cmd_disable_enable_device bytes c.groups) a c)

  -- A type or an id that is refused does not end the handler.
  unfoldable pub sign_request_stored_fmp : App → Ctrl → Memory → ℕ → Option (App × Ctrl)
  sign_request_stored_fmp a c bytes len = past_checks env.user_cfg a c len 3 (λ a.
      let typed = if ltb 3 (bytes 1) then reject env.user_cfg a syntax_error else a in
      let named = if bytes 2 == 0 then reject env.user_cfg typed syntax_error else typed in
      let sent : App = elim (stored_bytes c.db (bytes 1) (bytes 2)) [
        | none ↦ reject env.user_cfg named frm_msg_pln_undefined
        | some packet ↦ app_tx env.user_cfg named packet
      ] in
      some (if ltb 2 (bytes 1) then named else sent, c))

  unfoldable pub sign_extended_status_request : App → Ctrl → Memory → ℕ → Option (App × Ctrl)
  sign_extended_status_request a c bytes len =
      past_checks env.user_cfg a c len 1 (λ a. some (app_tx env.user_cfg a (env.ext_status a c), c))

  unfoldable pub retrieve_fault_log : App → Ctrl → Memory → ℕ → Option (App × Ctrl)
  retrieve_fault_log a c bytes len = past_checks env.user_cfg a c len 1 (λ a.
      some
        (app_tx env.user_cfg a (Mi.fault_log_reply ∷ get_fault_log20 env.localtime_r c.faults), c))

  unfoldable pub reset_fault_log : App → Ctrl → Memory → ℕ → Option (App × Ctrl)
  reset_fault_log a c bytes len = past_checks env.user_cfg a c len 1 (λ a. some (
      if env.is_reset_log_allowed
      then (send_ack env.user_cfg a, record c { faults = UciFault.reset c.faults })
      else (reject env.user_cfg a mi_not_supported, c)))

  unfoldable pub sign_set_high_resolution_graphics_frame :
      App → Ctrl → Memory → ℕ → Option (App × Ctrl)
  sign_set_high_resolution_graphics_frame a c bytes len =
      let online = check_online_reject_if_false env.user_cfg a in
      if online.0 then sign_set_frame_msg online.1 c bytes len else some (online.1, c)

  unfoldable pub sign_configuration_request : App → Ctrl → Memory → ℕ → Option (App × Ctrl)
  sign_configuration_request a c bytes len =
      past_checks env.user_cfg a c len 1
        (λ a. some (app_tx env.user_cfg a (env.configuration a c), c))

  -- A number of signs of 0 is refused and goes on.
  unfoldable pub sign_display_atomic_frames : App → Ctrl → Memory → ℕ → Option (App × Ctrl)
  sign_display_atomic_frames a c bytes len =
      past_checks env.user_cfg a c len (bytes 2 * 2 + 3) (λ a.
        let counted = if bytes 2 == 0 then reject env.user_cfg a syntax_error else a in
        answer_groups env
          (cmd_disp_atomic_frm env.settings env.is_rejected env.signs c.db bytes c.groups) counted
          c)
