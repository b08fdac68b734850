-- ===== src/Tsisp003/Commands/Rx/Offline.antt =====
-- The messages of src/tsisp003/TsiSp003AppVer21.cpp and src/tsisp003/TsiSp003AppVer50.cpp while no
-- session is on line.
use gc.Common.{if◌then◌else◌, ℕ, ◌≡◌, refl, false, Option, none, some, Bool-cases, inl, inr}
use gc.Tsisp003.Memory.{Memory}
use gc.Tsisp003.Session
use gc.Tsisp003.Session.{App, app_tx, reject, is_online_app, check_online_reject_if_false, chk_len}
use gc.Tsisp003.AppError.{device_controller_offline}
use gc.Tsisp003.Commands.{Ctrl, Env}
use gc.Tsisp003.Commands.Handlers.{
  sign_set_high_resolution_graphics_frame, sign_configuration_request, sign_display_atomic_frames,
  heartbeat_poll, update_time, system_reset, sign_set_frame_msg, sign_set_message_msg,
  sign_set_plan_msg, sign_display_frame, sign_display_message, en_dis_plan_msg,
  request_enabled_plans, sign_set_dimming_level, power_on_off, disable_enable_device,
  sign_request_stored_fmp, retrieve_fault_log, reset_fault_log, sign_extended_status_request,
}
use gc.Tsisp003.Commands.Rx.{Handler, UserDefined, handler50, is_of_session, user_defined_cmd, rx50}
use gc.Tsisp003.Commands.Rx.Each.{OfSome, handler50-OfSome}

-- Off line the handler comes back, and leaves what the controller has.
abbrev pub KeepsOffline : Handler → Type 0
KeepsOffline handle =
    (a : App) (c : Ctrl) (bytes : Memory) (len : ℕ)
    → is_online_app a ≡ false
    → (a' : App) × (handle a c bytes len ≡ some (a', c))

module _ (env : Env) where
  sign_set_high_resolution_graphics_frame-KeepsOffline :
      KeepsOffline (sign_set_high_resolution_graphics_frame env)
  unfolding sign_set_high_resolution_graphics_frame check_online_reject_if_false
  sign_set_high_resolution_graphics_frame-KeepsOffline a c bytes len off =
      (reject env.user_cfg a device_controller_offline, rw off refl)

  sign_configuration_request-KeepsOffline : KeepsOffline (sign_configuration_request env)
  unfolding sign_configuration_request check_online_reject_if_false
  sign_configuration_request-KeepsOffline a c bytes len off =
      (reject env.user_cfg a device_controller_offline, rw off refl)

  sign_display_atomic_frames-KeepsOffline : KeepsOffline (sign_display_atomic_frames env)
  unfolding sign_display_atomic_frames check_online_reject_if_false
  sign_display_atomic_frames-KeepsOffline a c bytes len off =
      (reject env.user_cfg a device_controller_offline, rw off refl)

  heartbeat_poll-KeepsOffline : KeepsOffline (heartbeat_poll env)
  unfolding heartbeat_poll
  heartbeat_poll-KeepsOffline a c bytes len off =
      elim (Bool-cases (chk_len env.user_cfg a len 1).0) [
        | inl e ↦
            let checked = (chk_len env.user_cfg a len 1).1 in
            (app_tx env.user_cfg checked (env.status checked c), rw e refl)
        | inr e ↦ ((chk_len env.user_cfg a len 1).1, rw e refl)
      ]

  update_time-KeepsOffline : KeepsOffline (update_time env)
  unfolding update_time check_online_reject_if_false
  update_time-KeepsOffline a c bytes len off =
      (reject env.user_cfg a device_controller_offline, rw off refl)

  system_reset-KeepsOffline : KeepsOffline (system_reset env)
  unfolding system_reset check_online_reject_if_false
  system_reset-KeepsOffline a c bytes len off =
      (reject env.user_cfg a device_controller_offline, rw off refl)

  sign_set_frame_msg-KeepsOffline : KeepsOffline (sign_set_frame_msg env)
  unfolding sign_set_frame_msg check_online_reject_if_false
  sign_set_frame_msg-KeepsOffline a c bytes len off =
      (reject env.user_cfg a device_controller_offline, rw off refl)

  sign_set_message_msg-KeepsOffline : KeepsOffline (sign_set_message_msg env)
  unfolding sign_set_message_msg check_online_reject_if_false
  sign_set_message_msg-KeepsOffline a c bytes len off =
      (reject env.user_cfg a device_controller_offline, rw off refl)

  sign_set_plan_msg-KeepsOffline : KeepsOffline (sign_set_plan_msg env)
  unfolding sign_set_plan_msg check_online_reject_if_false
  sign_set_plan_msg-KeepsOffline a c bytes len off =
      (reject env.user_cfg a device_controller_offline, rw off refl)

  sign_display_frame-KeepsOffline : KeepsOffline (sign_display_frame env)
  unfolding sign_display_frame check_online_reject_if_false
  sign_display_frame-KeepsOffline a c bytes len off =
      (reject env.user_cfg a device_controller_offline, rw off refl)

  sign_display_message-KeepsOffline : KeepsOffline (sign_display_message env)
  unfolding sign_display_message check_online_reject_if_false
  sign_display_message-KeepsOffline a c bytes len off =
      (reject env.user_cfg a device_controller_offline, rw off refl)

  en_dis_plan_msg-KeepsOffline : KeepsOffline (en_dis_plan_msg env)
  unfolding en_dis_plan_msg check_online_reject_if_false
  en_dis_plan_msg-KeepsOffline a c bytes len off =
      (reject env.user_cfg a device_controller_offline, rw off refl)

  request_enabled_plans-KeepsOffline : KeepsOffline (request_enabled_plans env)
  unfolding request_enabled_plans check_online_reject_if_false
  request_enabled_plans-KeepsOffline a c bytes len off =
      (reject env.user_cfg a device_controller_offline, rw off refl)

  sign_set_dimming_level-KeepsOffline : KeepsOffline (sign_set_dimming_level env)
  unfolding sign_set_dimming_level check_online_reject_if_false
  sign_set_dimming_level-KeepsOffline a c bytes len off =
      (reject env.user_cfg a device_controller_offline, rw off refl)

  power_on_off-KeepsOffline : KeepsOffline (power_on_off env)
  unfolding power_on_off check_online_reject_if_false
  power_on_off-KeepsOffline a c bytes len off =
      (reject env.user_cfg a device_controller_offline, rw off refl)

  disable_enable_device-KeepsOffline : KeepsOffline (disable_enable_device env)
  unfolding disable_enable_device check_online_reject_if_false
  disable_enable_device-KeepsOffline a c bytes len off =
      (reject env.user_cfg a device_controller_offline, rw off refl)

  sign_request_stored_fmp-KeepsOffline : KeepsOffline (sign_request_stored_fmp env)
  unfolding sign_request_stored_fmp check_online_reject_if_false
  sign_request_stored_fmp-KeepsOffline a c bytes len off =
      (reject env.user_cfg a device_controller_offline, rw off refl)

  retrieve_fault_log-KeepsOffline : KeepsOffline (retrieve_fault_log env)
  unfolding retrieve_fault_log check_online_reject_if_false
  retrieve_fault_log-KeepsOffline a c bytes len off =
      (reject env.user_cfg a device_controller_offline, rw off refl)

  reset_fault_log-KeepsOffline : KeepsOffline (reset_fault_log env)
  unfolding reset_fault_log check_online_reject_if_false
  reset_fault_log-KeepsOffline a c bytes len off =
      (reject env.user_cfg a device_controller_offline, rw off refl)

  sign_extended_status_request-KeepsOffline : KeepsOffline (sign_extended_status_request env)
  unfolding sign_extended_status_request check_online_reject_if_false
  sign_extended_status_request-KeepsOffline a c bytes len off =
      (reject env.user_cfg a device_controller_offline, rw off refl)

  user_defined_cmd-KeepsOffline : (user : UserDefined) → KeepsOffline (user_defined_cmd env user)
  unfolding user_defined_cmd check_online_reject_if_false
  user_defined_cmd-KeepsOffline user a c bytes len off =
      (reject env.user_cfg a device_controller_offline, rw off refl)

  -- While the session is not on line, every message that is received comes to an answer or to none,
  -- and leaves the tables, the groups and the log of the controller as they are; so do the messages of
  -- UserDefinedCmd, whatever their handlers do on line.
  pub rx50-offline :
      (user : UserDefined) (rand : ℕ) (a : App) (c : Ctrl) (bytes : Memory) (len : ℕ)
      → is_online_app a ≡ false
      → (a' : App) × (rx50 env user rand a c bytes len ≡ some (a', c))
  unfolding rx50 is_online_app
  rx50-offline user rand a c bytes len off = go (handler50 env (bytes 0)) (
      handler50-OfSome env KeepsOffline (bytes 0)
        (
          heartbeat_poll-KeepsOffline,
          (
            update_time-KeepsOffline,
            (
              system_reset-KeepsOffline,
              (
                sign_set_frame_msg-KeepsOffline,
                (
                  sign_set_frame_msg-KeepsOffline,
                  (
                    sign_set_message_msg-KeepsOffline,
                    (
                      sign_set_plan_msg-KeepsOffline,
                      (
                        sign_display_frame-KeepsOffline,
                        (
                          sign_display_message-KeepsOffline,
                          (
                            en_dis_plan_msg-KeepsOffline,
                            (
                              en_dis_plan_msg-KeepsOffline,
                              (
                                request_enabled_plans-KeepsOffline,
                                (
                                  sign_set_dimming_level-KeepsOffline,
                                  (
                                    power_on_off-KeepsOffline,
                                    (
                                      disable_enable_device-KeepsOffline,
                                      (
                                        sign_request_stored_fmp-KeepsOffline,
                                        (
                                          retrieve_fault_log-KeepsOffline,
                                          (
                                            reset_fault_log-KeepsOffline,
                                            (sign_extended_status_request-KeepsOffline, tt),
                                          ),
                                        ),
                                      ),
                                    ),
                                  ),
                                ),
                              ),
                            ),
                          ),
                        ),
                      ),
                    ),
                  ),
                ),
              ),
            ),
          ),
        )
        (
          sign_set_high_resolution_graphics_frame-KeepsOffline,
          (sign_configuration_request-KeepsOffline, (sign_display_atomic_frames-KeepsOffline, tt)),
        ))
    where
      go :
          (o : Option Handler)
          → OfSome KeepsOffline o
          → (a' : App) × (elim o as (λ x. Option (App × Ctrl)) [
            | none ↦
                if is_of_session (bytes 0)
                then some (Session.rx (λ a' bytes' len'. a') env.user_cfg rand a bytes len, c)
                else user_defined_cmd env user (record a { micode = bytes 0 }) c bytes len
            | some handle ↦ handle (record a { micode = bytes 0 }) c bytes len
          ]
              ≡ some (a', c))
      go none h = elim (Bool-cases (is_of_session (bytes 0))) [
        | inl e ↦ rw e (_, refl)
        | inr e ↦
            rw e
              (user_defined_cmd-KeepsOffline user (record a { micode = bytes 0 }) c bytes len off)
      ]
      go (some handle) h = h (record a { micode = bytes 0 }) c bytes len off
