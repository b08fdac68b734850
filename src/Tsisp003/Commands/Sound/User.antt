-- ===== src/Tsisp003/Commands/Sound/User.antt =====
-- UserDefinedCmd of src/tsisp003/UserDefinedCmd.cpp.
use gc.Common.{ℕ, refl, Option, none, some, ◌||◌, ◌==◌, Bool-cases, inl, inr}
use gc.Tsisp003.Mi
use gc.Tsisp003.AppError.{unknown_mi}
use gc.Tsisp003.Session.{App, reject, check_online_reject_if_false, chk_len}
use gc.Sign.Controller.SignTest.Laws.{cmd_sign_test-IsSound}
use gc.Tsisp003.Commands.{Ctrl, Env}
use gc.Tsisp003.Commands.Rx.{
  Handler, UserDefined, fa_reset_logs, fa_sign_test, sign_test, rpl_flt_logs, rpl_alm_logs,
  rpl_evt_logs, reset_logs, user_defined_cmd_fa, user_defined_cmd,
}
use gc.Tsisp003.Commands.Rx.Each.{OfSome}
use gc.Tsisp003.Commands.Sound.{Sound, KeepsSound}

module _ (env : Env) where
  reset_logs-KeepsSound : KeepsSound (reset_logs env)
  unfolding reset_logs
  reset_logs-KeepsSound a c bytes len are v = elim (Bool-cases (chk_len env.user_cfg a len 3).0) [
    | inr e ↦ rw e (_, c, refl, v)
    | inl e ↦ elim (Bool-cases env.is_reset_log_allowed) [
      | inr f ↦ rw (e, f) (_, c, refl, v)
      | inl f ↦
          elim (Bool-cases
            (bytes 2 == rpl_flt_logs || (bytes 2 == rpl_alm_logs || bytes 2 == rpl_evt_logs))) [
              | inr g ↦ rw (e, f, g) (_, c, refl, v)
              | inl g ↦ elim (Bool-cases (bytes 2 == rpl_flt_logs)) [
                | inl h ↦ rw (e, f, g, h) (_, _, refl, v)
                | inr h ↦ rw (e, f, g, h) (_, c, refl, v)
              ]
            ]
    ]
  ]

  sign_test-KeepsSound : KeepsSound (sign_test env)
  unfolding sign_test
  sign_test-KeepsSound a c bytes len are v = elim (Bool-cases (chk_len env.user_cfg a len 4).0) [
    | inr e ↦ rw e (_, c, refl, v)
    | inl e ↦ rw e (_, _, refl, cmd_sign_test-IsSound env.settings bytes c.db c.groups v)
  ]

  user_defined_cmd_fa-KeepsSound :
      (user : UserDefined)
      → ((code : ℕ) → OfSome KeepsSound (user.fa_cmd code))
      → KeepsSound (user_defined_cmd_fa env user)
  unfolding user_defined_cmd_fa
  user_defined_cmd_fa-KeepsSound user keeps a c bytes len are v =
      elim (Bool-cases (bytes 1 == fa_reset_logs)) [
        | inl e ↦ rw e (reset_logs-KeepsSound a c bytes len are v)
        | inr e ↦ elim (Bool-cases (bytes 1 == fa_sign_test)) [
          | inl f ↦ rw (e, f) (sign_test-KeepsSound a c bytes len are v)
          | inr f ↦ rw (e, f) (go (user.fa_cmd (bytes 1)) (keeps (bytes 1)))
        ]
      ]
    where
      go :
          (o : Option Handler)
          → OfSome KeepsSound o
          → Sound (elim o as (λ x. Option (App × Ctrl)) [
            | none ↦ some (reject env.user_cfg a unknown_mi, c)
            | some handle ↦ handle a c bytes len
          ])
      go none h = (_, c, refl, v)
      go (some handle) h = h a c bytes len are v

  pub user_defined_cmd-KeepsSound :
      (user : UserDefined)
      → ((code : ℕ) → OfSome KeepsSound (user.fa_cmd code))
      → KeepsSound user.fe_set_gui_config
      → KeepsSound user.ff_rqst_gui_config
      → KeepsSound (user_defined_cmd env user)
  unfolding user_defined_cmd
  user_defined_cmd-KeepsSound user fa fe ff a c bytes len are v =
      let online = check_online_reject_if_false env.user_cfg a in
      elim (Bool-cases online.0) [
        | inr e ↦ rw e (_, c, refl, v)
        | inl e ↦ elim (Bool-cases (bytes 0 == Mi.user_defined_cmd_fa)) [
          | inl f ↦ rw (e, f) (user_defined_cmd_fa-KeepsSound user fa online.1 c bytes len are v)
          | inr f ↦ elim (Bool-cases (bytes 0 == Mi.user_defined_cmd_fe)) [
            | inl g ↦ rw (e, f, g) (fe online.1 c bytes len are v)
            | inr g ↦ elim (Bool-cases (bytes 0 == Mi.user_defined_cmd_ff)) [
              | inl h ↦ rw (e, f, g, h) (ff online.1 c bytes len are v)
              | inr h ↦ rw (e, f, g, h) (_, c, refl, v)
            ]
          ]
        ]
      ]
