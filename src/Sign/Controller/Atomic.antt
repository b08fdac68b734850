-- ===== src/Sign/Controller/Atomic.antt =====
-- The command of src/sign/Controller.cpp that displays a frame on each sign: CmdDispAtomicFrm, with
-- DispAtomic of src/sign/Group.cpp and DispAtomicFrm of src/sign/GroupIslus.cpp and
-- src/sign/GroupVms.cpp.
pub mod Laws
use gc.Common.{
  ℕ, zero, suc, ◌+◌, ◌-◌, ◌*◌, ◌/◌, ◌%◌, Bool, true, false, ◌&&◌, ◌||◌, not, Option, none, some,
  List, [], ◌∷◌, ltb, leb, ◌==◌, if◌then◌else◌, length, set, replicate,
}
use gc.Tsisp003.Memory.{Memory, slice}
use gc.Tsisp003.AppError.{
  AppError, app_no_error, syntax_error, overlays_not_supported, undefined_device_number,
  frm_msg_pln_undefined, mi_not_supported,
}
use gc.Uci.UciFrm.{is_frm_defined}
use gc.Sign.Display.{DispStatus, atf, clone}
use gc.Sign.Command
use gc.Sign.Command.{disp_chk, proc_disp, set_disp_mode}
use gc.Sign.Controller.{Settings, Db, Sign, Group, get_group}
use gc.Sign.Controller.Lanes.{check_adjacent_lane, at_command, if_checked, sign_test_frame_id}

unfoldable pub is_sign_in_group : ℕ → List Sign → Bool
is_sign_in_group id [] = false
is_sign_in_group id (s ∷ signs) = if s.sign_id == id then true else is_sign_in_group id signs

unfoldable pub is_speed_frame : ℕ → Bool
is_speed_frame id =
    if leb 25 id && leb id 29
    then true
    else leb 1 (id / 10) && (leb (id / 10) 11 && leb (id % 10) 4)

-- The search for another entry of the same sign among those that are left.
unfoldable pub duplicate : Memory → ℕ → ℕ → ℕ → Bool
duplicate cmd sign_id zero p = false
duplicate cmd sign_id (suc left) p =
    let rest = duplicate cmd sign_id left (p + 2) in if sign_id == cmd p then true else rest

-- The place of the first sign with the id gets the frame.
unfoldable pub put_frame : ℕ → ℕ → List Sign → List ℕ → List ℕ
put_frame sign_id frm_id [] ids = ids
put_frame sign_id frm_id (s ∷ signs) [] = []
put_frame sign_id frm_id (s ∷ signs) (x ∷ ids) =
    let rest = put_frame sign_id frm_id signs ids in
    if sign_id == s.sign_id then frm_id ∷ ids else x ∷ rest

-- The loop of DispAtomicFrm of an ISLUS, with the speed that was found and the frames of the signs.
-- `is_rejected` says whether the configuration of a sign rejects a frame.
unfoldable pub atomic_entries :
    (ℕ → ℕ → Bool) → List Sign → Memory → ℕ → ℕ → ℕ → List ℕ → AppError × List ℕ
atomic_entries is_rejected signs cmd zero p speed ids = (app_no_error, ids)
atomic_entries is_rejected signs cmd (suc left) p speed ids =
    let sign_id = cmd p in
    let frm_id = cmd (p + 1) in
    let speed' = if is_speed_frame frm_id then frm_id else speed in
    let rest =
      atomic_entries is_rejected signs cmd left (p + 2) speed'
        (put_frame sign_id frm_id signs ids) in
    if duplicate cmd sign_id left (p + 2)
    then (syntax_error, ids)
    else (if is_speed_frame frm_id && (not (speed == 0) && not (speed == frm_id))
        then (syntax_error, ids)
        else (if is_rejected sign_id frm_id then (syntax_error, ids) else rest))

abbrev pub load_atomic : AppError × List ℕ → Command.Group → AppError × Command.Group
load_atomic (app_no_error, ids) g =
    let ds : DispStatus = record { disp_type = atf; fmpid = ids } in
    (app_no_error, record g { display = record g.display { ds_next = clone g.display.ds_next ds } })
load_atomic (e, ids) g = (e, g)

-- A group of variable message signs supports no atomic frames.
unfoldable pub disp_atomic_frm :
    Bool → (ℕ → ℕ → Bool) → List Sign → Memory → Command.Group → AppError × Command.Group
disp_atomic_frm is_islus is_rejected signs cmd g =
    let n = length signs in
    let frames = atomic_entries is_rejected signs cmd n 3 0 (replicate n 0) in
    if is_islus then load_atomic frames g else (mi_not_supported, g)

abbrev pub log_atomic : Bool → List ℕ → AppError × Command.Group → AppError × Command.Group
log_atomic test_frame cmd (app_no_error, g) =
    (app_no_error, proc_disp cmd (set_disp_mode test_frame 0 g))
log_atomic test_frame cmd (e, g) = (e, g)

abbrev pub if_displayed :
    AppError → Command.Group → AppError × Command.Group → AppError × Command.Group
if_displayed app_no_error g res = res
if_displayed e g res = (e, g)

-- DispAtomic for a command that is logged.
unfoldable pub disp_atomic :
    Bool → Bool → (ℕ → ℕ → Bool) → List Sign → Memory → Command.Group → AppError × Command.Group
disp_atomic test_frame is_islus is_rejected signs cmd g = if_displayed (disp_chk g 0xFF) g (
    log_atomic test_frame (slice cmd 0 (3 + length signs * 2))
      (disp_atomic_frm is_islus is_rejected signs cmd g))

-- The loop of CmdDispAtomicFrm of an ISLUS: the frames of all signs.
unfoldable pub atomic_lanes : Db → List Sign → Memory → ℕ → ℕ → List ℕ → AppError × List ℕ
atomic_lanes db signs cmd zero p frms = (app_no_error, frms)
atomic_lanes db signs cmd (suc left) p frms =
    let rest = atomic_lanes db signs cmd left (p + 2) (set frms (cmd p - 1) (cmd (p + 1))) in
    if not (is_sign_in_group (cmd p) signs)
    then (undefined_device_number, frms)
    else (if not (is_frm_defined db.frm (cmd (p + 1))) then (frm_msg_pln_undefined, frms) else rest)

abbrev pub lanes_of : List Sign → AppError × List ℕ → AppError
lanes_of signs (app_no_error, frms) = check_adjacent_lane signs frms
lanes_of signs (e, frms) = e

unfoldable pub cmd_disp_atomic_frm :
    Settings → (ℕ → ℕ → Bool) → List Sign → Db → Memory → List Group → AppError × List Group
cmd_disp_atomic_frm cfg is_rejected signs db cmd groups =
    let test_frame = is_frm_defined db.frm sign_test_frame_id in
    elim (get_group groups (cmd 1)) [
      | none ↦ (undefined_device_number, groups)
      | some g ↦
          let checked =
            if cfg.is_islus
            then lanes_of signs (atomic_lanes db g.signs cmd (cmd 2) 3 (replicate (length signs) 0))
            else app_no_error in
          if not (cmd 2 == length g.signs)
          then (syntax_error, groups)
          else if_checked checked groups (
              at_command (disp_atomic test_frame cfg.is_islus is_rejected g.signs cmd) (cmd 1 - 1)
                groups)
    ]
