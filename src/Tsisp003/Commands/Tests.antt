-- ===== src/Tsisp003/Commands/Tests.antt =====
-- Instances for the messages of src/tsisp003/TsiSp003AppVer50.cpp.
use gc.Common.{ℕ, ◌≡◌, refl, sym, true, false, some, List, [], ◌∷◌, none, arith}
use gc.Tsisp003.Memory.{IsBytes, holding, holding-IsBytes}
use gc.Utils.Cnvt.Hex.{are_bytes-AreBytes}
use gc.Tsisp003.Session.{App, send_ack, is_online_app}
use gc.Tsisp003.Session.Tests.{app}
use gc.Layer.Nts.{on_line}
use gc.Layer.Nts.Tests.{cfg}
use gc.Uci.UciPln
use gc.Sign.Schedule.Steps.{Consistent}
use gc.Sign.Schedule.Plans.{empty-AllClocks}
use gc.Sign.Schedule.Tests.{idle_group}
use gc.Sign.Controller.Planned.{IsSound}
use gc.Sign.Controller.Tests.{settings, sign, group, db, db-IsConsistent}
use gc.Tsisp003.Commands.{Ctrl, Env}
use gc.Tsisp003.Commands.Rx.{Handler, UserDefined, rx50}
use gc.Tsisp003.Commands.Rx.Offline.{rx50-offline}
use gc.Tsisp003.Commands.Sound.{Sound, KeepsSound}
use gc.Tsisp003.Commands.Sound.Whole.{rx50-Sound}

abbrev env : Env
env = record {
  user_cfg = cfg;
  settings = settings;
  signs = sign ∷ [];
  is_rejected = λ s f. false;
  is_reset_log_allowed = false;
  status = λ a c. 0x06 ∷ [];
  ext_status = λ a c. 0x1c ∷ [];
  configuration = λ a c. 0x22 ∷ [];
  localtime_r = λ t. none;
  clock = record { mktime = λ tm. 1; set_local_time = λ tm. true; set_timet = λ t. true; now = 0 };
}

abbrev ctrl : Ctrl
ctrl = record { db = db; groups = group ∷ []; faults = record { fault_log = []; last_log = none } }

-- A message that shows frame 5, and the application on line.
abbrev message : List ℕ
message = 0x0c ∷ 4 ∷ 2 ∷ 10 ∷ 5 ∷ 10 ∷ 0 ∷ []

message-IsBytes : IsBytes (holding message)
message-IsBytes = holding-IsBytes message (are_bytes-AreBytes message refl)

abbrev online_app : App
online_app = record app { nts = record app.nts { session = on_line } }

off : is_online_app app ≡ false
unfolding is_online_app
off = refl

-- Handlers of UserDefinedCmd that answer and change nothing.
abbrev acknowledged : Handler
acknowledged a c bytes len = some (send_ack cfg a, c)

abbrev user : UserDefined
user = record {
  fa_cmd = λ code. some acknowledged;
  fe_set_gui_config = acknowledged;
  ff_rqst_gui_config = acknowledged;
}

acknowledged-KeepsSound : KeepsSound acknowledged
acknowledged-KeepsSound a c bytes len are v = (_, c, refl, v)

rx50-offline_example : (a' : App) × (rx50 env user 0 app ctrl (holding message) 7 ≡ some (a', ctrl))
rx50-offline_example = rx50-offline env user 0 app ctrl (holding message) 7 off

idle : Consistent UciPln.empty idle_group
unfolding Consistent
idle id m some_id = (λ h. absurd (some_id (sym h)), λ h. absurd (ground arith))

ctrl-IsSound : IsSound db (group ∷ [])
ctrl-IsSound = record { tables = db-IsConsistent; clocks = empty-AllClocks; planned = (idle, tt) }

rx50-Sound_example : Sound (rx50 env user 0 online_app ctrl (holding message) 7)
rx50-Sound_example =
    rx50-Sound env user 0 online_app ctrl (holding message) 7 (λ code. acknowledged-KeepsSound)
      acknowledged-KeepsSound acknowledged-KeepsSound message-IsBytes ctrl-IsSound
