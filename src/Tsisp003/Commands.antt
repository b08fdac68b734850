-- ===== src/Tsisp003/Commands.antt =====
-- The messages of classes TsiSp003AppVer21 and TsiSp003AppVer50, src/tsisp003/TsiSp003AppVer21.cpp,
-- src/tsisp003/TsiSp003AppVer31.cpp and src/tsisp003/TsiSp003AppVer50.cpp: each message that is
-- received, by the session of the application and the commands of the controller. The texts of a
-- reject and the events are left out.
pub mod Handlers
pub mod Rx
pub mod Sound
mod Tests
use gc.Common.{
  ℕ, zero, suc, ◌+◌, ◌-◌, ◌*◌, Bool, true, false, not, ◌&&◌, ◌||◌, Option, none, some, ◌>>=◌, List,
  [], ◌∷◌, ◌==◌, ltb, if◌then◌else◌, length, get_or, take,
}
use gc.Tsisp003.Memory.{Memory}
use gc.Tsisp003.Mi
use gc.Tsisp003.AppError.{
  AppError, app_no_error, syntax_error, frm_msg_pln_undefined, mi_not_supported, unknown_mi,
}
use gc.Tsisp003.Frame.{Frame}
use gc.Tsisp003.Message
use gc.Tsisp003.Message.{Message}
use gc.Tsisp003.Plan
use gc.Tsisp003.Plan.{Plan}
use gc.Tsisp003.Session
use gc.Tsisp003.Session.{
  App, app_tx, reject, send_ack, chk_len, check_online_reject_if_false, is_in, not_supported,
}
use gc.Layer.Nts.{UserCfg}
use gc.Uci.UciFrm.{get_frm}
use gc.Uci.UciMsg.{is_msg_defined}
use gc.Uci.UciPln.{is_pln_defined}
use gc.Uci.UciFault
use gc.Uci.UciFault.{UciFault, Tm, get_fault_log20}
use gc.Sign.Controller.{Settings, Db, Sign, Group}
use gc.Sign.Controller.Store.{sign_set_frame, sign_set_message, sign_set_plan}
use gc.Sign.Controller.Devices.{cmd_set_dimming_level, cmd_power_on_off, cmd_disable_enable_device}
use gc.Sign.Controller.Lanes.{cmd_disp_frm, cmd_disp_msg}
use gc.Sign.Controller.Atomic.{cmd_disp_atomic_frm}
use gc.Sign.Controller.Plans.{cmd_en_dis_plan, cmd_request_enabled_plans}
use gc.Sign.Controller.Reset.{cmd_system_reset}
use gc.Sign.Controller.Clock.{Clock}

-- What the commands change: the tables, the groups, the log of faults.
pub record Ctrl : Type 0 where
  pub db : Db
  pub groups : List Group
  pub faults : UciFault

-- What the handlers read besides: the settings, the signs of all groups, the frames that a sign
-- rejects, the bytes of the replies about the status and the configuration, what is called for the
-- clock, and localtime_r of the C library.
pub record Env : Type 0 where
  pub user_cfg : UserCfg
  pub settings : Settings
  pub signs : List Sign
  pub is_rejected : ℕ → ℕ → Bool
  pub is_reset_log_allowed : Bool
  pub status : App → Ctrl → List ℕ
  pub ext_status : App → Ctrl → List ℕ
  pub configuration : App → Ctrl → List ℕ
  pub localtime_r : ℕ → Option Tm
  pub clock : Clock

-- The tests that begin a handler, and what it does past them.
abbrev pub past_checks :
    UserCfg → App → Ctrl → ℕ → ℕ → (App → Option (App × Ctrl)) → Option (App × Ctrl)
past_checks cfg a c len expect body =
    let online = check_online_reject_if_false cfg a in
    let checked = chk_len cfg online.1 len expect in
    if not online.0
    then some (online.1, c)
    else (if not checked.0 then some (checked.1, c) else body checked.1)

abbrev pub answer : UserCfg → AppError → App → App
answer cfg app_no_error a = send_ack cfg a
answer cfg e a = reject cfg a e

-- What ends the handlers of a command on the tables, and of one on the groups.
abbrev pub answer_status : Env → AppError × Db → App → Ctrl → Option (App × Ctrl)
answer_status env (app_no_error, db) a c =
    let c' : Ctrl = record c { db = db } in some (app_tx env.user_cfg a (env.status a c'), c')
answer_status env (e, db) a c = some (reject env.user_cfg a e, record c { db = db })

abbrev pub answer_groups : Env → AppError × List Group → App → Ctrl → Option (App × Ctrl)
answer_groups env (r, groups) a c = some (answer env.user_cfg r a, record c { groups = groups })
