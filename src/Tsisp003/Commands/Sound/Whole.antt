-- ===== src/Tsisp003/Commands/Sound/Whole.antt =====
-- Rx of src/tsisp003/TsiSp003AppVer50.cpp, with all its messages.
use gc.Common.{if◌then◌else◌, Bool-cases, inl, inr, ℕ, refl, Option, none, some}
use gc.Tsisp003.Memory.{Memory, IsBytes}
use gc.Tsisp003.Session
use gc.Tsisp003.Session.{App, app_tx, reject, check_online_reject_if_false, chk_len}
use gc.Tsisp003.Session.{send_ack}
use gc.Sign.Controller.Planned.{IsSound}
use gc.Tsisp003.Commands.{Ctrl, Env}
use gc.Tsisp003.Commands.Rx.{Handler, UserDefined, handler50, is_of_session, user_defined_cmd, rx50}
use gc.Tsisp003.Commands.Rx.Each.{OfSome, handler50-OfSome}
use gc.Tsisp003.Commands.Sound.{Sound, KeepsSound}
use gc.Tsisp003.Commands.Sound.Stores.{
  sign_set_frame_msg-KeepsSound, sign_set_message_msg-KeepsSound, sign_set_plan_msg-KeepsSound,
  sign_set_high_resolution_graphics_frame-KeepsSound,
}
use gc.Tsisp003.Commands.Sound.Acts.{
  system_reset-KeepsSound, sign_display_frame-KeepsSound, sign_display_message-KeepsSound,
  sign_display_atomic_frames-KeepsSound, en_dis_plan_msg-KeepsSound,
  sign_set_dimming_level-KeepsSound, power_on_off-KeepsSound, disable_enable_device-KeepsSound,
}
use gc.Tsisp003.Commands.Sound.Asks.{
  heartbeat_poll-KeepsSound, update_time-KeepsSound, request_enabled_plans-KeepsSound,
  sign_request_stored_fmp-KeepsSound, sign_extended_status_request-KeepsSound,
  retrieve_fault_log-KeepsSound, reset_fault_log-KeepsSound, sign_configuration_request-KeepsSound,
}
use gc.Tsisp003.Commands.Sound.User.{user_defined_cmd-KeepsSound}

module _ (env : Env) where
  -- Where the tables are consistent, the plans have proper times and the table of minutes of each group
  -- says what its enabled plans say, every message that is received as a buffer of bytes, on line or
  -- not, comes to its end and leaves all of this so, provided the handlers that UserDefinedCmd calls do,
  -- other than those of the reset of the logs and of the sign test.
  pub rx50-Sound :
      (user : UserDefined) (rand : ℕ) (a : App) (c : Ctrl) (bytes : Memory) (len : ℕ)
      → ((code : ℕ) → OfSome KeepsSound (user.fa_cmd code))
      → KeepsSound user.fe_set_gui_config
      → KeepsSound user.ff_rqst_gui_config
      → IsBytes bytes
      → IsSound c.db c.groups
      → Sound (rx50 env user rand a c bytes len)
  unfolding rx50
  rx50-Sound user rand a c bytes len fa fe ff are v = go (handler50 env (bytes 0)) (
      handler50-OfSome env KeepsSound (bytes 0)
        (
          heartbeat_poll-KeepsSound env,
          (
            update_time-KeepsSound env,
            (
              system_reset-KeepsSound env,
              (
                sign_set_frame_msg-KeepsSound env,
                (
                  sign_set_frame_msg-KeepsSound env,
                  (
                    sign_set_message_msg-KeepsSound env,
                    (
                      sign_set_plan_msg-KeepsSound env,
                      (
                        sign_display_frame-KeepsSound env,
                        (
                          sign_display_message-KeepsSound env,
                          (
                            en_dis_plan_msg-KeepsSound env,
                            (
                              en_dis_plan_msg-KeepsSound env,
                              (
                                request_enabled_plans-KeepsSound env,
                                (
                                  sign_set_dimming_level-KeepsSound env,
                                  (
                                    power_on_off-KeepsSound env,
                                    (
                                      disable_enable_device-KeepsSound env,
                                      (
                                        sign_request_stored_fmp-KeepsSound env,
                                        (
                                          retrieve_fault_log-KeepsSound env,
                                          (
                                            reset_fault_log-KeepsSound env,
                                            (sign_extended_status_request-KeepsSound env, tt),
                                          ),
                                        ),
                                      ),
                                    ),
                                  ),
                                ),
                              ),
                            ),
                          ),
                        ),
                      ),
                    ),
                  ),
                ),
              ),
            ),
          ),
        )
        (
          sign_set_high_resolution_graphics_frame-KeepsSound env,
          (
            sign_configuration_request-KeepsSound env,
            (sign_display_atomic_frames-KeepsSound env, tt),
          ),
        ))
    where
      go :
          (o : Option Handler)
          → OfSome KeepsSound o
          → Sound (elim o as (λ x. Option (App × Ctrl)) [
            | none ↦
                if is_of_session (bytes 0)
                then some (Session.rx (λ a' bytes' len'. a') env.user_cfg rand a bytes len, c)
                else user_defined_cmd env user (record a { micode = bytes 0 }) c bytes len
            | some handle ↦ handle (record a { micode = bytes 0 }) c bytes len
          ])
      go none h = elim (Bool-cases (is_of_session (bytes 0))) [
        | inl e ↦ rw e (_, c, refl, v)
        | inr e ↦ rw e (
            user_defined_cmd-KeepsSound env user fa fe ff (record a { micode = bytes 0 }) c bytes
              len are v)
      ]
      go (some handle) h = h (record a { micode = bytes 0 }) c bytes len are v
