-- ===== src/Sign/Display.antt =====
-- What a group displays: DispStatus of include/sign/DispStatus.h, and the functions of
-- src/sign/Group.cpp that choose between commands, external inputs and the facility switch.
pub mod Loading
pub mod Inputs
pub mod Keeps
pub mod Reach
pub mod Recovery
pub mod Tests
use gc.Common.{
  ℕ, zero, suc, ◌+◌, ◌-◌, ◌*◌, Bool, true, false, ◌&&◌, ◌||◌, not, List, [], ◌∷◌, ltb, leb, ◌==◌,
  if◌then◌else◌, get_or, set,
}
use gc.Module.BootTimer.{Timespec, set_ms, is_expired}
use gc.Module.BootTimer
pub use gc.Module.FacilitySwitch.{FsState, fs_na, fs_off, fs_auto, fs_msg1, fs_msg2, is_auto}
use gc.Module.Debounce.{Value, s5_na, s5_0, s5_1, s5_f, s5_r, set_value, clr_value, is_high, is_low}

pub data DispType : Type 0 where
  n_a frm msg pln atf ext fsw blk undefined_type : DispType

abbrev pub is_n_a : DispType → Bool
is_n_a n_a = true
is_n_a _ = false

abbrev pub is_frm : DispType → Bool
is_frm frm = true
is_frm _ = false

abbrev pub is_msg : DispType → Bool
is_msg msg = true
is_msg _ = false

abbrev pub is_ext : DispType → Bool
is_ext ext = true
is_ext _ = false

abbrev pub is_fsw : DispType → Bool
is_fsw fsw = true
is_fsw _ = false

abbrev pub is_blk : DispType → Bool
is_blk blk = true
is_blk _ = false

-- `fmpid` has a place for each sign of the group.
pub record DispStatus : Type 0 where
  pub disp_type : DispType
  pub fmpid : List ℕ

-- fmpid[0].
abbrev pub fmpid0 : DispStatus → ℕ
fmpid0 s = get_or s.fmpid 0 0

-- The loop of Clone.
abbrev pub copy_ids : List ℕ → List ℕ → List ℕ
copy_ids [] ids = []
copy_ids (x ∷ xs) [] = x ∷ xs
copy_ids (x ∷ xs) (y ∷ ys) = y ∷ copy_ids xs ys

abbrev pub clone : DispStatus → DispStatus → DispStatus
clone s ds = record { disp_type = ds.disp_type; fmpid = copy_ids s.fmpid ds.fmpid }

abbrev pub set_frm0 : DispStatus → DispStatus
set_frm0 s = record { disp_type = frm; fmpid = set s.fmpid 0 0 }

abbrev pub set_blk : DispStatus → DispStatus
set_blk s = record { disp_type = blk; fmpid = set s.fmpid 0 0 }

abbrev pub set_n_a : DispStatus → DispStatus
set_n_a s = record { disp_type = n_a; fmpid = set s.fmpid 0 0 }

abbrev pub set_disp : DispStatus → DispType → ℕ → DispStatus
set_disp s type id = record { disp_type = type; fmpid = set s.fmpid 0 id }

-- The members of ExtInput that are read.
pub record ExtInput : Type 0 where
  pub disp_time : ℕ
  pub emergency : ℕ
  pub flashing_ov : ℕ

-- The members of a group that say what is displayed and what waits.
pub record Display : Type 0 where
  pub ds_bak : DispStatus
  pub ds_current : DispStatus
  pub ds_next : DispStatus
  pub ds_ext : DispStatus
  pub ext_disp_tmr : Timespec
  pub on_disp_msg_id : ℕ
  pub on_disp_frm_id : ℕ
  pub ready_to_load : Bool
  pub reload_current : Bool
  pub fatal_error : Value

abbrev pub disp_backup : Display → Display
disp_backup d =
    if is_n_a d.ds_next.disp_type
    then record d { ds_next = clone d.ds_next d.ds_bak; ds_bak = set_n_a d.ds_bak }
    else d

-- DispNext for all but an external input.
abbrev pub next_command : DispType → ℕ → Display → Display
next_command type id d = record d { ds_next = set_disp d.ds_next type id }

-- The settings of the external inputs, numbered from 0, the time of the clock, and what the tables
-- of messages and frames say of flashing.
module _ (ext_input_cfg : ℕ → ExtInput) (is_msg_flashing is_frm_flashing : ℕ → Bool)
    (now : Timespec) where
  -- Whether an external input may take the place of what is displayed.
  abbrev pub may_override : ExtInput → Display → Bool
  may_override cfg d =
      is_n_a d.ds_current.disp_type
      || (is_blk d.ds_current.disp_type
          || ((d.on_disp_msg_id == 0 && d.on_disp_frm_id == 0)
              || (not (cfg.flashing_ov == 0)
                  || (cfg.flashing_ov == 0
                      && ((not (d.on_disp_msg_id == 0) && not (is_msg_flashing d.on_disp_msg_id))
                          || (d.on_disp_msg_id == 0
                              && (not (d.on_disp_frm_id == 0)
                                  && not (is_frm_flashing d.on_disp_frm_id))))))))

  -- DispNext for an external input.
  abbrev pub next_ext : ℕ → Display → Display
  next_ext id d =
      let cfg = ext_input_cfg (id - 3) in
      let time = cfg.disp_time * 100 in
      let started : Display = record d {
        ext_disp_tmr = set_ms now time;
        ds_ext = set_disp d.ds_ext ext id;
      } in
      if leb 3 id && leb id 6
      then (if not (time == 0)
          then (if is_ext d.ds_current.disp_type && (fmpid0 d.ds_current == id)
              then record d { ext_disp_tmr = set_ms now time }
              else (if may_override cfg d then started else d))
          else d)
      else d

  unfoldable pub disp_next : DispType → ℕ → Display → Display
  disp_next ext id d = next_ext id d
  disp_next type id d = next_command type id d

  unfoldable pub disp_ext : Bool → FsState → ℕ → Display → Bool × Display
  disp_ext power_on fs msg_x d =
      if power_on
        && (is_auto fs
            && ((leb 3 msg_x && leb msg_x 6)
                && not (
                    (is_ext d.ds_current.disp_type && ltb (fmpid0 d.ds_current) msg_x)
                    || (is_ext d.ds_ext.disp_type && ltb (fmpid0 d.ds_ext) msg_x))))
      then (true, disp_next ext msg_x d)
      else (false, d)

unfoldable pub is_ds_next_emergency : (ℕ → ExtInput) → Display → Bool
is_ds_next_emergency ext_input_cfg d =
    is_ext d.ds_ext.disp_type
    && ((leb 3 (fmpid0 d.ds_ext) && leb (fmpid0 d.ds_ext) 6)
        && ((ext_input_cfg (fmpid0 d.ds_ext - 3)).emergency == 0))

-- The first step of LoadDsNext: facility switch, external input, command.
unfoldable pub load_waiting : Display → Bool × Display
load_waiting d =
    if is_fsw d.ds_next.disp_type
    then (
      true,
      record d {
        ds_bak = set_frm0 d.ds_bak;
        ds_current = clone d.ds_current d.ds_next;
        ds_next = set_n_a d.ds_next;
      },
    )
    else (if is_ext d.ds_ext.disp_type
        then (
          true,
          record d {
            ds_bak = clone d.ds_bak d.ds_current;
            ds_current = clone d.ds_current d.ds_ext;
            ds_ext = set_n_a d.ds_ext;
          },
        )
        else (if not (is_n_a d.ds_next.disp_type)
            then (
              true,
              record d {
                ds_bak = clone d.ds_bak d.ds_current;
                ds_current = clone d.ds_current d.ds_next;
                ds_next = set_n_a d.ds_next;
              },
            )
            else (false, d)))

-- Where nothing is displayed, frame 0 is.
unfoldable pub load_default : Bool × Display → Bool × Display
load_default (r, d) =
    if is_n_a d.ds_current.disp_type
    then (true, record d { ds_bak = set_frm0 d.ds_bak; ds_current = set_frm0 d.ds_current })
    else (r, d)

-- Frame 0 and message 0 stand for the plan.
unfoldable pub activate_plan : Bool × Display → Bool × Display
activate_plan (r, d) =
    if (fmpid0 d.ds_current == 0)
      && (is_frm d.ds_current.disp_type || is_msg d.ds_current.disp_type)
    then (true, record d { ds_current = record d.ds_current { disp_type = pln } })
    else (r, d)

unfoldable pub load_ds_next : Display → Bool × Display
load_ds_next d = activate_plan (load_default (load_waiting d))

-- NormalMode, up to the loading of what is next: first the fatal error.
abbrev pub is_rising : Value → Bool
is_rising s5_r = true
is_rising _ = false

abbrev pub is_falling : Value → Bool
is_falling s5_f = true
is_falling _ = false

unfoldable pub normal_fatal : Bool → Display → Display
normal_fatal fatal d =
    let v = if fatal then set_value d.fatal_error else clr_value d.fatal_error in
    let waiting =
      if not (is_n_a d.ds_next.disp_type) && not (is_ext d.ds_next.disp_type)
      then d.ds_next
      else d.ds_current in
    let bak = if not (is_ext d.ds_current.disp_type) then clone d.ds_bak waiting else d.ds_bak in
    let blank : Display = record d {
      ds_bak = bak;
      ds_next = set_n_a d.ds_next;
      ds_current = set_blk d.ds_current;
      reload_current = true;
      fatal_error = s5_1;
    } in
    let back : Display = disp_backup d in
    let restored : Display = record back {
      ds_current = set_n_a back.ds_current;
      ready_to_load = true;
      fatal_error = s5_0;
    } in
    if is_rising v then blank else (if is_falling v then restored else record d { fatal_error = v })

unfoldable pub mark_loaded : Bool × Display → Display
mark_loaded (loaded, d) = if loaded then record d { reload_current = true } else d

module _ (ext_input_cfg : ℕ → ExtInput) (now : Timespec) where
  -- An external input whose time is over gives way.
  unfoldable pub end_ext : Display → Display
  end_ext d =
      if is_ext d.ds_current.disp_type && is_expired now d.ext_disp_tmr
      then disp_backup (record d { ext_disp_tmr = BootTimer.clear })
      else d

  -- A group that is ready loads; it then reloads what it displays.
  unfoldable pub load_ready : Display → Display
  load_ready d =
      mark_loaded
        (load_ds_next (end_ext (record d { ready_to_load = true; reload_current = false })))

  -- Without a fatal error; a waiting emergency makes the group ready. EnDisDevice changes none of
  -- these members.
  unfoldable pub normal_load : Display → Display
  normal_load d =
      if is_low d.fatal_error
      then (if d.ready_to_load || is_ds_next_emergency ext_input_cfg d then load_ready d else d)
      else d

  unfoldable pub normal_mode : Bool → Display → Display
  normal_mode fatal d = normal_load (normal_fatal fatal d)
