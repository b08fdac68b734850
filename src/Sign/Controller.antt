-- ===== src/Sign/Controller.antt =====
-- Class Controller of src/sign/Controller.cpp: what it asks its groups and its tables. The children
-- hold its commands.
pub mod Store
pub mod Cases
pub mod References
pub mod Stored
pub mod Protection
pub mod Readback
pub mod Devices
pub mod Lanes
pub mod Atomic
pub mod Plans
pub mod Reset
pub mod Clock
pub mod SignTest
pub mod Schedules
pub mod Planned
pub mod Sound
pub mod Tests
mod Runs
use gc.Common.{
  ℕ, zero, suc, ◌+◌, ◌-◌, Bool, true, false, ◌&&◌, ◌||◌, not, Option, none, some, List, [], ◌∷◌,
  map, ltb, leb, ◌==◌, if◌then◌else◌, length, get_or, set, get_elem?,
}
use gc.Uci.UciFrm.{UciFrm}
use gc.Uci.UciMsg.{UciMsg}
use gc.Uci.UciPln.{UciPln}
use gc.Tsisp003.Frame.{Hardware}
use gc.Sign.Schedule
use gc.Sign.Command

-- The settings of the hardware and of the user that the commands read.
pub record Settings : Type 0 where
  pub hardware : Hardware
  pub is_islus : Bool
  pub is_islus_sp_frm : ℕ → Bool
  pub locked_frm : ℕ
  pub locked_msg : ℕ

-- The tables of DbHelper that the commands change.
pub record Db : Type 0 where
  pub frm : UciFrm
  pub msg : UciMsg
  pub pln : UciPln

-- The members of a sign that the commands use.
pub record Sign : Type 0 where
  pub sign_id : ℕ
  pub report_frm : ℕ
  pub dimming_set : ℕ
  pub power : ℕ

-- What the GrpProc of a group keeps of the settings.
pub record Saved : Type 0 where
  pub dimming : ℕ
  pub power : ℕ
  pub device : ℕ

-- A group. `command` and `schedule` are the members that its display and its plans use.
pub record Group : Type 0 where
  pub command : Command.Group
  pub schedule : Schedule.Group
  pub active_frm : ℕ → Bool
  pub active_msg : ℕ → Bool
  pub target_dimming_lvl : ℕ
  pub device_en_dis_set : ℕ
  pub signs : List Sign
  pub saved : Saved

-- `none` for the null pointer.
unfoldable pub get_group : List Group → ℕ → Option Group
get_group groups id = if id == 0 then none else get_elem? groups (id - 1)

-- A loop over the groups that returns true at the first that answers true.
unfoldable pub any : (Group → Bool) → List Group → Bool
any test [] = false
any test (g ∷ groups) = if test g then true else any test groups

unfoldable pub is_frm_active : List Group → ℕ → Bool
unfolding any
is_frm_active groups id = if ltb 0 id then any (λ g. g.active_frm id) groups else false

unfoldable pub is_msg_active : List Group → ℕ → Bool
unfolding any
is_msg_active groups id = if ltb 0 id then any (λ g. g.active_msg id) groups else false

unfoldable pub is_pln_active : List Group → ℕ → Bool
unfolding any
is_pln_active groups id = any (λ g. Schedule.is_plan_active g.schedule id) groups

unfoldable pub is_pln_enabled : List Group → ℕ → Bool
unfolding any
is_pln_enabled groups id = any (λ g. Schedule.is_plan_enabled g.schedule id) groups
