-- ===== src/Tsisp003/Session/Tests.antt =====
-- Runs and instances for the session of src/tsisp003/TsiSp003App.cpp.
use gc.Common.{ℕ, ◌≡◌, ◌⊎◌, refl, true, List, [], ◌∷◌}
use gc.Tsisp003.Memory.{Memory, holding}
use gc.Tsisp003.Mi
use gc.Layer.Nts.{Session, start, on_line, Nts, set_session}
use gc.Layer.Nts.Tests.{cfg, link}
use gc.Tsisp003.Session.{
  App, rx, password, check_password, chk_len, send_ack, make_password, password_rounds,
  password_round,
}
use gc.Tsisp003.Session.Login.{IsLogin, rx-on_line}

abbrev pub app : App
app = record {
  micode = 0;
  attached = true;
  maxlen = 64;
  nts = record link { session = start; seed = 0x10 };
}

abbrev login : List ℕ
login = 4 ∷ 58 ∷ 106 ∷ []

-- No other message does anything.
abbrev pub ignore : App → Memory → ℕ → App
ignore a bytes len = a

make_password_check : make_password cfg app.nts ≡ 14954
unfolding make_password password_rounds password_round
make_password_check = refl

logged_in : (rx ignore cfg 0 app (holding login) 3).nts.session ≡ on_line
unfolding rx password check_password chk_len send_ack make_password password_rounds password_round
    set_session gc.Tsisp003.Session.app_tx gc.Layer.Prst.tx gc.Layer.Nts.tx
logged_in = refl

rx-on_line_example :
    (app.nts.session ≡ on_line)
    ⊎ ((holding login 0 ≡ Mi.password) × IsLogin cfg app (holding login) 3)
rx-on_line_example = rx-on_line ignore cfg 0 app (holding login) 3 (λ b h. h) logged_in
