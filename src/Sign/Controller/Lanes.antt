-- ===== src/Sign/Controller/Lanes.antt =====
-- The commands of src/sign/Controller.cpp that display a frame or a message: CheckAdjacentLane,
-- CmdDispFrm and CmdDispMsg.
pub mod Merge
use gc.Common.{
  ℕ, zero, suc, ◌+◌, ◌-◌, ◌*◌, ◌/◌, ◌%◌, Bool, true, false, ◌&&◌, ◌||◌, not, Option, none, some,
  List, [], ◌∷◌, map, ltb, leb, ◌==◌, if◌then◌else◌, length, get_or, set, replicate,
}
use gc.Tsisp003.Memory.{Memory, slice}
use gc.Tsisp003.AppError.{
  AppError, app_no_error, syntax_error, overlays_not_supported, undefined_device_number,
  frm_msg_pln_undefined, mi_not_supported,
}
use gc.Uci.UciFrm.{is_frm_defined}
use gc.Uci.UciMsg.{is_msg_defined}
use gc.Sign.Display.{DispStatus, atf, clone}
use gc.Sign.Command
use gc.Sign.Command.{disp_chk, disp_frm, disp_msg, proc_disp, set_disp_mode}
use gc.Sign.Controller.{Settings, Db, Sign, Group, get_group}

abbrev pub is_left : ℕ → Bool
is_left f = f == 184 || f == 194

abbrev pub is_right : ℕ → Bool
is_right f = f == 185 || f == 195

abbrev pub is_cross : ℕ → Bool
is_cross f = f == 189 || f == 199

-- A frame that leads the traffic of a lane into the other of two neighbours that is closed or leads
-- it back.
abbrev pub conflict : ℕ → ℕ → Bool
conflict left f = (is_right left && (is_cross f || is_left f)) || (is_cross left && is_left f)

-- The frame that the sign at a place is to show: the one of the command, or what it shows now.
abbrev pub lane_frame : ℕ → Sign → ℕ
lane_frame id s = if id == 0 then s.report_frm else id

-- The loop over the places that are left, with the frame on the left of the first, if there is one.
unfoldable pub check_lanes : Option ℕ → List ℕ → List Sign → AppError
check_lanes left [] signs = app_no_error
check_lanes left (id ∷ frms) [] = app_no_error
check_lanes none (id ∷ frms) (s ∷ signs) = check_lanes (some (lane_frame id s)) frms signs
check_lanes (some left) (id ∷ frms) (s ∷ signs) =
    let rest = check_lanes (some (lane_frame id s)) frms signs in
    if conflict left (lane_frame id s) then overlays_not_supported else rest

-- `frms` has a place for each of the signs.
unfoldable pub check_adjacent_lane : List Sign → List ℕ → AppError
unfolding check_lanes
check_adjacent_lane signs frms = check_lanes none frms signs

-- The signs that are to show a frame, in the places of their ids.
unfoldable pub same_frame : ℕ → List Sign → List ℕ → List ℕ
same_frame id [] frms = frms
same_frame id (s ∷ signs) frms = same_frame id signs (set frms (s.sign_id - 1) id)

-- What a command of a group does, for the group of an id.
unfoldable pub at_command :
    (Command.Group → AppError × Command.Group) → ℕ → List Group → AppError × List Group
at_command act i [] = (undefined_device_number, [])
at_command act zero (g ∷ groups) =
    let (r, c) = act g.command in (r, record g { command = c } ∷ groups)
at_command act (suc i) (g ∷ groups) = let (r, changed) = at_command act i groups in (r, g ∷ changed)

-- The frame of the sign test.
abbrev pub sign_test_frame_id : ℕ
sign_test_frame_id = 255

-- The tests of CmdDispFrm for a group that exists.
unfoldable pub check_disp_frm : Settings → List Sign → Db → ℕ → Group → AppError
check_disp_frm cfg signs db frm_id g =
    if frm_id == 0
    then app_no_error
    else (if not (is_frm_defined db.frm frm_id)
        then frm_msg_pln_undefined
        else (if cfg.is_islus
            then check_adjacent_lane signs (same_frame frm_id g.signs (replicate (length signs) 0))
            else app_no_error))

abbrev pub if_checked : AppError → List Group → AppError × List Group → AppError × List Group
if_checked app_no_error groups res = res
if_checked e groups res = (e, groups)

-- `signs` are the signs of all groups, in the order of their ids.
unfoldable pub cmd_disp_frm :
    Settings → List Sign → Db → Memory → List Group → AppError × List Group
cmd_disp_frm cfg signs db cmd groups =
    let test_frame = is_frm_defined db.frm sign_test_frame_id in
    elim (get_group groups (cmd 1)) [
      | none ↦ (undefined_device_number, groups)
      | some g ↦
          if_checked (check_disp_frm cfg signs db (cmd 2) g) groups
            (at_command (disp_frm test_frame (cmd 2) true) (cmd 1 - 1) groups)
    ]

unfoldable pub cmd_disp_msg : Db → Memory → List Group → AppError × List Group
cmd_disp_msg db cmd groups =
    let test_frame = is_frm_defined db.frm sign_test_frame_id in
    elim (get_group groups (cmd 1)) [
      | none ↦ (undefined_device_number, groups)
      | some g ↦
          if not (cmd 2 == 0) && not (is_msg_defined db.msg (cmd 2))
          then (frm_msg_pln_undefined, groups)
          else at_command (disp_msg test_frame (cmd 2) true) (cmd 1 - 1) groups
    ]
