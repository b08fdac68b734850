-- ===== src/Sign/Controller/Reset.antt =====
-- The reset of src/sign/Controller.cpp, CmdSystemReset, with SystemReset and SystemReset0 to
-- SystemReset2 of src/sign/Group.cpp. The log of events, the errors of the controller and of the signs, the
-- settings of the user and the texts are left out.
pub mod Laws
use gc.Common.{
  ℕ, zero, suc, ◌+◌, ◌-◌, Bool, true, false, ◌&&◌, ◌||◌, not, Option, none, some, ◌>>=◌, List, [],
  ◌∷◌, map, ltb, leb, ◌==◌, if◌then◌else◌, length,
}
use gc.Tsisp003.Memory.{Memory}
use gc.Tsisp003.Mi
use gc.Tsisp003.AppError.{AppError, app_no_error, syntax_error, undefined_device_number}
use gc.Uci.UciFault
use gc.Uci.UciFault.{UciFault}
use gc.Uci.UciFrm
use gc.Uci.UciMsg
use gc.Uci.UciPln
use gc.Uci.UciPln.{UciPln}
use gc.Sign.Display.{frm, next_command}
use gc.Sign.Command
use gc.Sign.Command.{proc_disp}
use gc.Sign.Schedule
use gc.Sign.Schedule.{en_dis_plan}
use gc.Sign.Controller.{Settings, Db, Group}
use gc.Sign.Controller.Devices.{set_dimming, set_device}

abbrev pub display_blank : Command.Group → Command.Group
display_blank g =
    let logged = proc_disp (Mi.sign_display_frame ∷ g.group_id ∷ 0 ∷ []) g in
    record logged { display = record (next_command frm 0 g.display) { ready_to_load = true } }

unfoldable pub system_reset0 : Group → Group
unfolding set_dimming set_device
system_reset0 g =
    let dimmed = set_dimming 0 (record g { command = display_blank g.command }) in
    record (set_device 1 dimmed) { active_msg = λ i. false; active_frm = λ i. false }

-- The frame 1 that is put down as displayed makes the next command blank the slaves.
abbrev pub forget_display : Group → Group
forget_display g = record g {
  command = record g.command { display = record g.command.display { on_disp_frm_id = 1 } };
  schedule = record g.schedule { on_disp_pln_id = 0 };
}

unfoldable pub system_reset1 : UciPln → Group → Option Group
unfolding system_reset0
system_reset1 u g =
    let forgotten = forget_display (system_reset0 g) in
    (do rs ← en_dis_plan u 0 false forgotten.schedule; some (record forgotten { schedule = rs.1 }))

-- SystemReset of a group, which does nothing for a level that it does not know.
unfoldable pub system_reset : UciPln → ℕ → Group → Option Group
unfolding system_reset0 system_reset1
system_reset u lvl g =
    if lvl == 0
    then some (system_reset0 g)
    else (if lvl == 1 || (lvl == 2 || (lvl == 3 || lvl == 255)) then system_reset1 u g else some g)

unfoldable pub reset_all : UciPln → ℕ → List Group → Option (List Group)
reset_all u lvl [] = some []
reset_all u lvl (g ∷ groups) = do
  g' ← system_reset u lvl g
  rest ← reset_all u lvl groups
  some (g' ∷ rest)

unfoldable pub reset_at : UciPln → ℕ → ℕ → List Group → Option (List Group)
reset_at u lvl i [] = some []
reset_at u lvl zero (g ∷ groups) = do g' ← system_reset u lvl g; some (g' ∷ groups)
reset_at u lvl (suc i) (g ∷ groups) = do rest ← reset_at u lvl i groups; some (g ∷ rest)

-- The tables of an ISLUS keep their frames and messages.
unfoldable pub reset_db : Settings → ℕ → Db → Db
reset_db cfg lvl db =
    let kept : Db = record db { pln = UciPln.reset db.pln } in
    let cleared : Db = record {
      frm = UciFrm.reset db.frm;
      msg = UciMsg.reset db.msg;
      pln = UciPln.reset db.pln;
    } in
    if leb 3 lvl then (if not cfg.is_islus then cleared else kept) else db

-- `none` where the schedule of a group ran out of fuel.
unfoldable pub cmd_system_reset :
    Settings → Memory → Db → List Group → Option (AppError × Db × List Group)
cmd_system_reset cfg cmd db groups =
    let grp_id = cmd 1 in
    let lvl = cmd 2 in
    let one = reset_at db.pln lvl (grp_id - 1) groups in
    let all = reset_all db.pln lvl groups in
    if ltb 3 lvl && ltb lvl 255
    then some (syntax_error, db, groups)
    else (if ltb 1 lvl && not (grp_id == 0)
        then some (undefined_device_number, db, groups)
        else (if ltb (length groups) grp_id
            then some (undefined_device_number, db, groups)
            else (if not (grp_id == 0)
                then (do changed ← one; some (app_no_error, db, changed))
                else (do changed ← all; some (app_no_error, reset_db cfg lvl db, changed)))))

-- What an accepted CmdSystemReset does to the log of faults: from level 2 on it is for all groups and
-- clears the log, where that is allowed.
unfoldable pub reset_faults : Bool → ℕ → AppError → UciFault → UciFault
reset_faults is_reset_log_allowed lvl app_no_error faults =
    if leb 2 lvl && is_reset_log_allowed then UciFault.reset faults else faults
reset_faults is_reset_log_allowed lvl e faults = faults
