-- ===== src/Tsisp003/Commands/Sound/Stores.antt =====
-- Messages of src/tsisp003/TsiSp003AppVer21.cpp and src/tsisp003/TsiSp003AppVer50.cpp
-- that store a frame, a message or a plan.
use gc.Common.{refl, ◌==◌, Bool-cases, inl, inr}
use gc.Tsisp003.AppError.{syntax_error}
use gc.Tsisp003.Session.{reject, check_online_reject_if_false}
use gc.Sign.Controller.Store.{sign_set_frame, sign_set_message, sign_set_plan}
use gc.Sign.Controller.Sound.{
  sign_set_frame-IsSound, sign_set_message-IsSound, sign_set_plan-IsSound,
}
use gc.Tsisp003.Commands.{Env}
use gc.Tsisp003.Commands.Handlers.{
  sign_set_high_resolution_graphics_frame, sign_set_frame_msg, sign_set_message_msg,
  sign_set_plan_msg,
}
use gc.Tsisp003.Commands.Sound.{KeepsSound, answer_status-Sound}

module _ (env : Env) where
  pub sign_set_frame_msg-KeepsSound : KeepsSound (sign_set_frame_msg env)
  unfolding sign_set_frame_msg
  sign_set_frame_msg-KeepsSound a c bytes len are v =
      let online = check_online_reject_if_false env.user_cfg a in
      let sound = sign_set_frame-IsSound env.settings c.groups bytes len c.db are v in
      let (a', c', done, w) =
        answer_status-Sound env (sign_set_frame env.settings c.groups bytes len c.db) online.1 c
          sound in
      elim (Bool-cases online.0) [
        | inr e ↦ (online.1, c, rw e refl, v)
        | inl e ↦ elim (Bool-cases (bytes 1 == 0)) [
          | inl z ↦ (reject env.user_cfg online.1 syntax_error, c, rw (e, z) refl, v)
          | inr z ↦ (a', c', rw (e, z) done, w)
        ]
      ]

  pub sign_set_message_msg-KeepsSound : KeepsSound (sign_set_message_msg env)
  unfolding sign_set_message_msg
  sign_set_message_msg-KeepsSound a c bytes len are v =
      let online = check_online_reject_if_false env.user_cfg a in
      let sound = sign_set_message-IsSound env.settings c.groups bytes len c.db are v in
      let (a', c', done, w) =
        answer_status-Sound env (sign_set_message env.settings c.groups bytes len c.db) online.1 c
          sound in
      elim (Bool-cases online.0) [
        | inr e ↦ (online.1, c, rw e refl, v)
        | inl e ↦ (a', c', rw e done, w)
      ]

  pub sign_set_plan_msg-KeepsSound : KeepsSound (sign_set_plan_msg env)
  unfolding sign_set_plan_msg
  sign_set_plan_msg-KeepsSound a c bytes len are v =
      let online = check_online_reject_if_false env.user_cfg a in
      let sound = sign_set_plan-IsSound env.settings c.groups bytes len c.db are v in
      let (a', c', done, w) =
        answer_status-Sound env (sign_set_plan c.groups bytes len c.db) online.1 c sound in
      elim (Bool-cases online.0) [
        | inr e ↦ (online.1, c, rw e refl, v)
        | inl e ↦ (a', c', rw e done, w)
      ]

  pub sign_set_high_resolution_graphics_frame-KeepsSound :
      KeepsSound (sign_set_high_resolution_graphics_frame env)
  unfolding sign_set_high_resolution_graphics_frame
  sign_set_high_resolution_graphics_frame-KeepsSound a c bytes len are v =
      let online = check_online_reject_if_false env.user_cfg a in
      let (a', c', done, w) = sign_set_frame_msg-KeepsSound online.1 c bytes len are v in
      elim (Bool-cases online.0) [
        | inr e ↦ (online.1, c, rw e refl, v)
        | inl e ↦ (a', c', rw e done, w)
      ]
