-- ===== src/Tsisp003/Commands/Sound/Asks.antt =====
-- Messages of src/tsisp003/TsiSp003AppVer21.cpp and src/tsisp003/TsiSp003AppVer50.cpp
-- that ask, set the time or reset the log.
use gc.Common.{refl, none, some, ◌∷◌, ◌==◌, ltb, Bool-cases, inl, inr, if◌then◌else◌}
use gc.Tsisp003.AppError.{syntax_error}
use gc.Tsisp003.Session.{App, app_tx, reject, chk_len}
use gc.Uci.UciFault
use gc.Sign.Controller.Plans.{cmd_request_enabled_plans}
use gc.Tsisp003.Mi
use gc.Uci.UciFault.{get_fault_log20}
use gc.Sign.Controller.Clock.{cmd_update_time}
use gc.Tsisp003.Commands.Handlers.{stored_bytes}
use gc.Tsisp003.Session.{send_ack}
use gc.Tsisp003.AppError.{frm_msg_pln_undefined, mi_not_supported}
use gc.Tsisp003.Commands.{Env, answer}
use gc.Tsisp003.Commands.Handlers.{
  sign_configuration_request, tm_of, heartbeat_poll, update_time, request_enabled_plans,
  sign_request_stored_fmp, retrieve_fault_log, reset_fault_log, sign_extended_status_request,
}
use gc.Tsisp003.Commands.Sound.{KeepsSound, past_checks-Sound}

module _ (env : Env) where
  pub heartbeat_poll-KeepsSound : KeepsSound (heartbeat_poll env)
  unfolding heartbeat_poll
  heartbeat_poll-KeepsSound a c bytes len are v =
      elim (Bool-cases (chk_len env.user_cfg a len 1).0) [
        | inl e ↦
            let checked = (chk_len env.user_cfg a len 1).1 in
            (app_tx env.user_cfg checked (env.status checked c), c, rw e refl, v)
        | inr e ↦ ((chk_len env.user_cfg a len 1).1, c, rw e refl, v)
      ]

  pub update_time-KeepsSound : KeepsSound (update_time env)
  unfolding update_time
  update_time-KeepsSound a c bytes len are v =
      past_checks-Sound env.user_cfg a c len 8
        (λ x.
          let (r, faults) = cmd_update_time env.clock (tm_of bytes) c.faults in
          some (answer env.user_cfg r x, record c { faults = faults }))
        v (λ x. (_, _, refl, v))

  pub request_enabled_plans-KeepsSound : KeepsSound (request_enabled_plans env)
  unfolding request_enabled_plans
  request_enabled_plans-KeepsSound a c bytes len are v =
      past_checks-Sound env.user_cfg a c len 1
        (λ x. some (app_tx env.user_cfg x (cmd_request_enabled_plans c.groups), c)) v
        (λ x. (_, c, refl, v))

  pub sign_request_stored_fmp-KeepsSound : KeepsSound (sign_request_stored_fmp env)
  unfolding sign_request_stored_fmp
  sign_request_stored_fmp-KeepsSound a c bytes len are v =
      past_checks-Sound env.user_cfg a c len 3
        (λ x.
          let typed = if ltb 3 (bytes 1) then reject env.user_cfg x syntax_error else x in
          let named = if bytes 2 == 0 then reject env.user_cfg typed syntax_error else typed in
          let sent : App = elim (stored_bytes c.db (bytes 1) (bytes 2)) [
            | none ↦ reject env.user_cfg named frm_msg_pln_undefined
            | some packet ↦ app_tx env.user_cfg named packet
          ] in
          some (if ltb 2 (bytes 1) then named else sent, c))
        v (λ x. (_, c, refl, v))

  pub sign_extended_status_request-KeepsSound : KeepsSound (sign_extended_status_request env)
  unfolding sign_extended_status_request
  sign_extended_status_request-KeepsSound a c bytes len are v =
      past_checks-Sound env.user_cfg a c len 1
        (λ x. some (app_tx env.user_cfg x (env.ext_status x c), c)) v (λ x. (_, c, refl, v))

  pub retrieve_fault_log-KeepsSound : KeepsSound (retrieve_fault_log env)
  unfolding retrieve_fault_log
  retrieve_fault_log-KeepsSound a c bytes len are v =
      past_checks-Sound env.user_cfg a c len 1
        (λ x. some (
          app_tx env.user_cfg x (Mi.fault_log_reply ∷ get_fault_log20 env.localtime_r c.faults),
          c,
        ))
        v (λ x. (_, c, refl, v))

  pub reset_fault_log-KeepsSound : KeepsSound (reset_fault_log env)
  unfolding reset_fault_log
  reset_fault_log-KeepsSound a c bytes len are v =
      past_checks-Sound env.user_cfg a c len 1
        (λ x. some (
          if env.is_reset_log_allowed
          then (send_ack env.user_cfg x, record c { faults = UciFault.reset c.faults })
          else (reject env.user_cfg x mi_not_supported, c)))
        v
        (λ x. elim (Bool-cases env.is_reset_log_allowed) [
          | inl e ↦
              (send_ack env.user_cfg x, record c { faults = UciFault.reset c.faults }, rw e refl, v)
          | inr e ↦ (reject env.user_cfg x mi_not_supported, c, rw e refl, v)
        ])

  pub sign_configuration_request-KeepsSound : KeepsSound (sign_configuration_request env)
  unfolding sign_configuration_request
  sign_configuration_request-KeepsSound a c bytes len are v =
      past_checks-Sound env.user_cfg a c len 1
        (λ x. some (app_tx env.user_cfg x (env.configuration x c), c)) v (λ x. (_, c, refl, v))
