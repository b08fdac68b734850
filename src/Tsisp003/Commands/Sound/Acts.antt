-- ===== src/Tsisp003/Commands/Sound/Acts.antt =====
-- Messages of src/tsisp003/TsiSp003AppVer21.cpp and src/tsisp003/TsiSp003AppVer50.cpp
-- that display, switch, dim or reset.
use gc.Common.{◌+◌, ◌*◌, refl, some, ◌>>=◌, ◌==◌, if◌then◌else◌}
use gc.Tsisp003.AppError.{syntax_error}
use gc.Tsisp003.Session.{reject}
use gc.Sign.Controller.Reset.{reset_faults, cmd_system_reset}
use gc.Sign.Controller.Plans.{cmd_en_dis_plan}
use gc.Sign.Controller.Devices.{
  check_dimming, act_dimming, check_setting, set_dimming, set_power, set_device,
  cmd_set_dimming_level, cmd_power_on_off, cmd_disable_enable_device,
}
use gc.Sign.Controller.Lanes.{cmd_disp_frm, cmd_disp_msg}
use gc.Sign.Controller.Atomic.{cmd_disp_atomic_frm}
use gc.Sign.Controller.Schedules.{schedules-for_entries}
use gc.Sign.Controller.Planned.{cmd_system_reset-IsSound}
use gc.Sign.Controller.Sound.{
  same-IsSound, schedules-cmd_disp_frm, schedules-cmd_disp_msg, schedules-cmd_disp_atomic_frm,
  cmd_en_dis_plan-IsSound,
}
use gc.Tsisp003.Commands.{Env, answer, answer_groups}
use gc.Tsisp003.Commands.Handlers.{
  sign_display_atomic_frames, system_reset, sign_display_frame, sign_display_message,
  en_dis_plan_msg, sign_set_dimming_level, power_on_off, disable_enable_device,
}
use gc.Tsisp003.Commands.Sound.{KeepsSound, past_checks-Sound, answer_groups-Sound}

module _ (env : Env) where
  pub system_reset-KeepsSound : KeepsSound (system_reset env)
  unfolding system_reset
  system_reset-KeepsSound a c bytes len are v =
      past_checks-Sound env.user_cfg a c len 3
        (λ x. do
          r ← cmd_system_reset env.settings bytes c.db c.groups
          some (
            answer env.user_cfg r.0 x,
            record c {
              db = r.1;
              groups = r.2;
              faults = reset_faults env.is_reset_log_allowed (bytes 2) r.0 c.faults;
            },
          ))
        v
        (λ x.
          let (r, db', groups', e, w) =
            cmd_system_reset-IsSound env.settings bytes c.db c.groups are v in
          (
            answer env.user_cfg r x,
            record c {
              db = db';
              groups = groups';
              faults = reset_faults env.is_reset_log_allowed (bytes 2) r c.faults;
            },
            rw e refl,
            w,
          ))

  pub sign_display_frame-KeepsSound : KeepsSound (sign_display_frame env)
  unfolding sign_display_frame
  sign_display_frame-KeepsSound a c bytes len are v =
      let same = schedules-cmd_disp_frm env.settings env.signs c.db bytes c.groups in
      past_checks-Sound env.user_cfg a c len 3
        (λ x. answer_groups env (cmd_disp_frm env.settings env.signs c.db bytes c.groups) x c) v
        (λ x.
          answer_groups-Sound env (cmd_disp_frm env.settings env.signs c.db bytes c.groups) x c
            (same-IsSound c.db c.groups _ same v))

  pub sign_display_message-KeepsSound : KeepsSound (sign_display_message env)
  unfolding sign_display_message
  sign_display_message-KeepsSound a c bytes len are v =
      let same = schedules-cmd_disp_msg c.db bytes c.groups in
      past_checks-Sound env.user_cfg a c len 3
        (λ x. answer_groups env (cmd_disp_msg c.db bytes c.groups) x c) v
        (λ x.
          answer_groups-Sound env (cmd_disp_msg c.db bytes c.groups) x c
            (same-IsSound c.db c.groups _ same v))

  pub sign_display_atomic_frames-KeepsSound : KeepsSound (sign_display_atomic_frames env)
  unfolding sign_display_atomic_frames
  sign_display_atomic_frames-KeepsSound a c bytes len are v =
      let same =
        schedules-cmd_disp_atomic_frm env.settings env.is_rejected env.signs c.db bytes c.groups in
      past_checks-Sound env.user_cfg a c len (bytes 2 * 2 + 3)
        (λ x.
          let counted = if bytes 2 == 0 then reject env.user_cfg x syntax_error else x in
          answer_groups env
            (cmd_disp_atomic_frm env.settings env.is_rejected env.signs c.db bytes c.groups) counted
            c)
        v
        (λ x.
          answer_groups-Sound env
            (cmd_disp_atomic_frm env.settings env.is_rejected env.signs c.db bytes c.groups)
            (if bytes 2 == 0 then reject env.user_cfg x syntax_error else x) c
            (same-IsSound c.db c.groups _ same v))

  pub en_dis_plan_msg-KeepsSound : KeepsSound (en_dis_plan_msg env)
  unfolding en_dis_plan_msg
  en_dis_plan_msg-KeepsSound a c bytes len are v =
      past_checks-Sound env.user_cfg a c len 3
        (λ x. do r ← cmd_en_dis_plan c.db.pln bytes c.groups; answer_groups env r x c) v
        (λ x.
          let (r, groups', e, w) = cmd_en_dis_plan-IsSound bytes c.db c.groups v in
          (answer env.user_cfg r x, record c { groups = groups' }, rw e refl, w))

  pub sign_set_dimming_level-KeepsSound : KeepsSound (sign_set_dimming_level env)
  unfolding sign_set_dimming_level cmd_set_dimming_level set_dimming
  sign_set_dimming_level-KeepsSound a c bytes len are v =
      let same = schedules-for_entries check_dimming act_dimming 3 bytes (λ p g. refl) c.groups in
      past_checks-Sound env.user_cfg a c len (2 + bytes 1 * 3)
        (λ x. answer_groups env (cmd_set_dimming_level bytes c.groups) x c) v
        (λ x.
          answer_groups-Sound env (cmd_set_dimming_level bytes c.groups) x c
            (same-IsSound c.db c.groups _ same v))

  pub power_on_off-KeepsSound : KeepsSound (power_on_off env)
  unfolding power_on_off cmd_power_on_off set_power
  power_on_off-KeepsSound a c bytes len are v =
      let same =
        schedules-for_entries check_setting (λ cmd p. set_power (cmd (p + 1))) 2 bytes (λ p g. refl)
          c.groups in
      past_checks-Sound env.user_cfg a c len (2 + bytes 1 * 2)
        (λ x. answer_groups env (cmd_power_on_off bytes c.groups) x c) v
        (λ x.
          answer_groups-Sound env (cmd_power_on_off bytes c.groups) x c
            (same-IsSound c.db c.groups _ same v))

  pub disable_enable_device-KeepsSound : KeepsSound (disable_enable_device env)
  unfolding disable_enable_device cmd_disable_enable_device set_device
  disable_enable_device-KeepsSound a c bytes len are v =
      let same =
        schedules-for_entries check_setting (λ cmd p. set_device (cmd (p + 1))) 2 bytes
          (λ p g. refl) c.groups in
      past_checks-Sound env.user_cfg a c len (2 + bytes 1 * 2)
        (λ x. answer_groups env (cmd_disable_enable_device bytes c.groups) x c) v
        (λ x.
          answer_groups-Sound env (cmd_disable_enable_device bytes c.groups) x c
            (same-IsSound c.db c.groups _ same v))
