-- ===== src/Sign/Controller/Plans.antt =====
-- The commands of src/sign/Controller.cpp on plans: CmdEnDisPlan and CmdRequestEnabledPlans.
pub mod Report
use gc.Common.{
  ℕ, zero, suc, ◌+◌, ◌-◌, ◌/◌, Bool, true, false, ◌&&◌, ◌||◌, not, Option, none, some, ◌>>=◌, List,
  [], ◌∷◌, ◌++◌, ltb, leb, ◌==◌, if◌then◌else◌, length, get_or, set, u8,
}
use gc.Tsisp003.Memory.{Memory}
use gc.Tsisp003.Mi
use gc.Tsisp003.AppError.{AppError, undefined_device_number, frm_msg_pln_undefined}
use gc.Uci.UciPln.{UciPln, is_pln_defined}
use gc.Sign.Schedule
use gc.Sign.Schedule.{is_plan_enabled, en_dis_plan}
use gc.Sign.Controller.{Group}

-- EnDisPlan of the group at an index; `none` where it ran out of fuel.
unfoldable pub at_schedule :
    (Schedule.Group → Option (AppError × Schedule.Group))
    → ℕ
    → List Group
    → Option (AppError × List Group)
at_schedule act i [] = some (undefined_device_number, [])
at_schedule act zero (g ∷ groups) = do
  rs ← act g.schedule
  some (rs.0, record g { schedule = rs.1 } ∷ groups)
at_schedule act (suc i) (g ∷ groups) = do rs ← at_schedule act i groups; some (rs.0, g ∷ rs.1)

unfoldable pub cmd_en_dis_plan : UciPln → Memory → List Group → Option (AppError × List Group)
cmd_en_dis_plan u cmd groups =
    let grp_id = cmd 1 in
    let pln_id = cmd 2 in
    let endis = cmd 0 == Mi.enable_plan in
    let done = at_schedule (en_dis_plan u pln_id endis) (grp_id - 1) groups in
    if ltb (length groups) grp_id || grp_id == 0
    then some (undefined_device_number, groups)
    else (if endis && (not (pln_id == 0) && not (is_pln_defined u pln_id))
        then some (frm_msg_pln_undefined, groups)
        else done)

-- The loop over the plans that are left, of group `i`, from plan `j` on.
unfoldable pub enabled_plans : Group → ℕ → ℕ → ℕ → List ℕ
enabled_plans g i zero j = []
enabled_plans g i (suc left) j =
    let rest = enabled_plans g i left (j + 1) in
    if is_plan_enabled g.schedule j then i ∷ j ∷ rest else rest

-- The loop over the groups, from group `i` on.
unfoldable pub all_enabled_plans : List Group → ℕ → List ℕ
all_enabled_plans [] i = []
all_enabled_plans (g ∷ groups) i = enabled_plans g i 255 1 ++ all_enabled_plans groups (i + 1)

-- The report; its second byte is the number of pairs.
unfoldable pub cmd_request_enabled_plans : List Group → List ℕ
cmd_request_enabled_plans groups =
    let pairs = all_enabled_plans groups 1 in
    Mi.report_enabled_plans ∷ u8 (length pairs / 2) ∷ pairs
