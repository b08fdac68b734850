-- ===== src/Sign/Display/Reach.antt =====
-- All that can happen to what a group displays, in src/sign/Group.cpp.
use gc.Common.{ℕ, Bool}
use gc.Module.BootTimer.{Timespec}
use gc.Sign.Display.{
  DispType, Display, FsState, ExtInput, disp_next, disp_ext, normal_fatal, normal_mode,
}
use gc.Sign.Display.Loading.{IsValid}
use gc.Sign.Display.Keeps.{
  disp_next-IsValid, disp_ext-IsValid, normal_load-IsValid, normal_fatal-IsValid,
}

-- One thing that happens: a command, an external input, a round of NormalMode, or progress of the
-- display tasks, which set what is displayed and whether the group is ready.
pub data Step (ext_input_cfg : ℕ → ExtInput) : Display → Display → Type 0 where
  command :
      (is_msg_flashing is_frm_flashing : ℕ → Bool) (now : Timespec) (type : DispType) (id : ℕ)
      (d : Display)
      → Step ext_input_cfg d (disp_next ext_input_cfg is_msg_flashing is_frm_flashing now type id d)
  external :
      (is_msg_flashing is_frm_flashing : ℕ → Bool) (now : Timespec) (power_on : Bool) (fs : FsState)
      (x : ℕ) (d : Display)
      → Step ext_input_cfg d
          (disp_ext ext_input_cfg is_msg_flashing is_frm_flashing now power_on fs x d).1
  round :
      (now : Timespec) (fatal : Bool) (d : Display)
      → Step ext_input_cfg d (normal_mode ext_input_cfg now fatal d)
  progress :
      (msg_id frm_id : ℕ) (ready : Bool) (d : Display)
      → Step ext_input_cfg d
          (record d { on_disp_msg_id = msg_id; on_disp_frm_id = frm_id; ready_to_load = ready })

pub data Reach (ext_input_cfg : ℕ → ExtInput) : Display → Display → Type 0 where
  start : (d : Display) → Reach ext_input_cfg d d
  and_then :
      (a b c : Display) → Reach ext_input_cfg a b → Step ext_input_cfg b c → Reach ext_input_cfg a c

step-IsValid :
    (ext_input_cfg : ℕ → ExtInput) (signs : ℕ) (d d' : Display)
    → Step ext_input_cfg d d'
    → IsValid signs d
    → IsValid signs d'
unfolding normal_mode
step-IsValid cfg signs d _ (command m f now type id _) v =
    disp_next-IsValid cfg m f now signs type id d v
step-IsValid cfg signs d _ (external m f now on fs x _) v =
    disp_ext-IsValid cfg m f now signs on fs x d v
step-IsValid cfg signs d _ (round now fatal _) v =
    normal_load-IsValid cfg now signs (normal_fatal fatal d) (normal_fatal-IsValid signs fatal d v)
step-IsValid cfg signs d _ (progress m f ready _) v = record {
  some_sign = v.some_sign;
  bak = v.bak;
  current = v.current;
  next = v.next;
  ext = v.ext;
  waits = v.waits;
  number = v.number;
}

-- Through any sequence of commands, external inputs and rounds of NormalMode, with whatever faults,
-- times and switch positions, what waits as an external input is one, by a number from 3 to 6, and
-- every status keeps a place for each sign.
pub reach-IsValid :
    (ext_input_cfg : ℕ → ExtInput) (signs : ℕ) (d d' : Display)
    → Reach ext_input_cfg d d'
    → IsValid signs d
    → IsValid signs d'
reach-IsValid cfg signs d _ (start _) v = v
reach-IsValid cfg signs d c (and_then _ b _ before step) v =
    step-IsValid cfg signs b c step (reach-IsValid cfg signs d b before v)
