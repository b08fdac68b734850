-- ===== src/Sign/Schedule.antt =====
-- The schedule of a group: the table plnMin of src/sign/Group.cpp, which says for each minute of the
-- week what the enabled plans show, and the enabled plans of src/uci/GrpProc.cpp.
pub mod Span
pub mod Week
pub mod Steps
pub mod Laws
pub mod Restore
pub mod Plans
pub mod Tests
use gc.Common.{
  ◌>>=◌, ℕ, zero, suc, ◌+◌, ◌-◌, ◌*◌, ◌/◌, ◌%◌, Bool, true, false, not, Option, none, some, List,
  [], ◌∷◌, ltb, leb, ◌==◌, if◌then◌else◌, get_or, take,
}
use gc.Tsisp003.AppError.{
  AppError, app_no_error, frm_msg_pln_active, frm_msg_pln_undefined, overlays_not_supported,
  plan_enabled, plan_not_enabled,
}
use gc.Tsisp003.Plan
use gc.Tsisp003.Plan.{Plan, PlnEntry, Hm}
use gc.Uci.UciPln.{UciPln, is_pln_defined}

abbrev pub minutes_a_day : ℕ
minutes_a_day = 1440

abbrev pub minutes_a_week : ℕ
minutes_a_week = 10080

pub record PlnMinute : Type 0 where
  pub pln_id : ℕ
  pub fm_type : ℕ
  pub fm_id : ℕ

abbrev pub empty_minute : PlnMinute
empty_minute = record { pln_id = 0; fm_type = 0; fm_id = 0 }

-- The array plnMin, of which the code uses the minutes below `minutes_a_week`.
abbrev pub Table : Type 0
Table = ℕ → PlnMinute

abbrev pub put : Table → ℕ → PlnMinute → Table
put t k x m = if m == k then x else t m

abbrev pub get_min_offset : ℕ → Hm → ℕ
get_min_offset day t = (day * 24 + t.hour) * 60 + t.minute

abbrev pub start_at : ℕ → PlnEntry → ℕ
start_at day e = get_min_offset day e.start

abbrev pub stop_at : ℕ → PlnEntry → ℕ
stop_at day e =
    let stop = get_min_offset day e.stop in
    if leb stop (start_at day e)
    then (if leb minutes_a_week (stop + minutes_a_day)
        then stop + minutes_a_day - minutes_a_week
        else stop + minutes_a_day)
    else stop

-- The increment of the loops over the minutes.
abbrev pub next_minute : ℕ → ℕ
next_minute k = if k + 1 == minutes_a_week then 0 else k + 1

-- The do-while loop that changes every minute from `k` on until `stop` comes up; `none` when the fuel
-- is used up before.
unfoldable pub sweep : (PlnMinute → PlnMinute) → ℕ → ℕ → ℕ → Table → Option Table
sweep change zero k stop t = none
sweep change (suc fuel) k stop t =
    let rest = sweep change fuel (next_minute k) stop (put t k (change (t k))) in
    if next_minute k == stop then some (put t k (change (t k))) else rest

-- The do-while loop that looks for an occupied minute.
unfoldable pub occupied : Table → ℕ → ℕ → ℕ → Option Bool
occupied t zero k stop = none
occupied t (suc fuel) k stop =
    let rest = occupied t fuel (next_minute k) stop in
    if not ((t k).pln_id == 0)
    then some true
    else (if next_minute k == stop then some false else rest)

-- The loop over the entries of one day.
unfoldable pub sweep_entries :
    (PlnEntry → PlnMinute → PlnMinute) → ℕ → List PlnEntry → Table → Option Table
sweep_entries change day [] t = some t
sweep_entries change day (e ∷ es) t = do
  t' ← sweep (change e) minutes_a_week (start_at day e) (stop_at day e) t
  sweep_entries change day es t'

-- The loop over the days that are left; `week` is the bit of the day.
unfoldable pub sweep_days :
    (PlnEntry → PlnMinute → PlnMinute) → Plan → ℕ → ℕ → ℕ → Table → Option Table
sweep_days change pln zero day week t = some t
sweep_days change pln (suc left) day week t = do
  t' ←
      if pln.weekdays / week % 2 == 1
      then sweep_entries change day (take pln.entries pln.pln_entries) t
      else some t
  sweep_days change pln left (day + 1) (week * 2) t'

unfoldable pub occupied_entries : Table → ℕ → List PlnEntry → Option Bool
occupied_entries t day [] = some false
occupied_entries t day (e ∷ es) =
    let rest = occupied_entries t day es in
    (do
      found ← occupied t minutes_a_week (start_at day e) (stop_at day e)
      if found then some true else rest)

unfoldable pub occupied_days : Table → Plan → ℕ → ℕ → ℕ → Option Bool
occupied_days t pln zero day week = some false
occupied_days t pln (suc left) day week =
    let rest = occupied_days t pln left (day + 1) (week * 2) in
    (do
      found ←
          if pln.weekdays / week % 2 == 1
          then occupied_entries t day (take pln.entries pln.pln_entries)
          else some false
      if found then some true else rest)

-- GetPln; `none` for the null pointer.
unfoldable pub get_pln : UciPln → ℕ → Option Plan
get_pln u i = if is_pln_defined u i then some (get_or u.plns (i - 1) Plan.blank) else none

-- The members of a group that the schedule uses; `enabled` are the bits of its GrpProc.
pub record Group : Type 0 where
  pub on_disp_pln_id : ℕ
  pub pln_min : Table
  pub enabled : ℕ → Bool

-- IsPlanEnabled and EnDisPlan of GrpProc.
abbrev pub proc_is_plan_enabled : Group → ℕ → Bool
proc_is_plan_enabled g id = if id == 0 then false else g.enabled id

unfoldable pub proc_en_dis_plan : ℕ → Bool → Group → Group
proc_en_dis_plan id endis g =
    if id == 0
    then record g { enabled = λ i. false }
    else record g { enabled = λ i. if i == id then endis else g.enabled i }

unfoldable pub is_plan_active : Group → ℕ → Bool
is_plan_active g id = if id == 0 then not (g.on_disp_pln_id == 0) else g.on_disp_pln_id == id

-- The loop over all plans asks for `id` in each round.
unfoldable pub any_enabled : Group → ℕ → ℕ → Bool
any_enabled g id zero = false
any_enabled g id (suc left) =
    let rest = any_enabled g id left in if proc_is_plan_enabled g id then true else rest

unfoldable pub is_plan_enabled : Group → ℕ → Bool
is_plan_enabled g id = if id == 0 then any_enabled g id 255 else proc_is_plan_enabled g id

-- A null pointer ends IsEnPlanOverlap and LoadPlanToPlnMin at once.
unfoldable pub is_en_plan_overlap : Option Plan → Table → Option Bool
is_en_plan_overlap none t = some false
is_en_plan_overlap (some pln) t = occupied_days t pln 7 0 1

abbrev pub stamp : ℕ → PlnEntry → PlnMinute → PlnMinute
stamp id e x = record { pln_id = id; fm_type = e.fm_type; fm_id = e.fm_id }

unfoldable pub load_plan_to_pln_min : ℕ → Option Plan → Table → Option Table
load_plan_to_pln_min id none t = some t
load_plan_to_pln_min id (some pln) t = sweep_days (stamp id) pln 7 0 1 t

abbrev pub vacate : PlnEntry → PlnMinute → PlnMinute
vacate e x = record x { pln_id = 0 }

-- The loops of DisablePlan. It runs them for a plan that is defined, so the pointer is not null.
unfoldable pub unload : Option Plan → Table → Option Table
unload none t = none
unload (some pln) t = sweep_days vacate pln 7 0 1 t

unfoldable pub enable_plan : UciPln → ℕ → Group → Option (AppError × Group)
enable_plan u id g = if is_plan_enabled g id then some (plan_enabled, g) else (do
  overlap ← is_en_plan_overlap (get_pln u id) g.pln_min
  if overlap then some (overlays_not_supported, g) else (do
    t ← load_plan_to_pln_min id (get_pln u id) g.pln_min
    some (app_no_error, record g { pln_min = t })))

unfoldable pub disable_plan : UciPln → ℕ → Group → Option (AppError × Group)
disable_plan u id g = if not (is_plan_enabled g id) then some (plan_not_enabled, g) else (do
  t ← unload (get_pln u id) g.pln_min
  some (app_no_error, record (proc_en_dis_plan id false g) { pln_min = t }))

-- The end of EnDisPlan, after the plan was enabled or disabled.
abbrev pub settle : ℕ → Bool → AppError × Group → AppError × Group
settle id endis (app_no_error, g) = (app_no_error, proc_en_dis_plan id endis g)
settle id endis (r, g) = (r, g)

-- An id of 0 clears the table, whichever of the two is asked for.
unfoldable pub en_dis_plan : UciPln → ℕ → Bool → Group → Option (AppError × Group)
en_dis_plan u id endis g =
    if is_plan_active g id
    then some (frm_msg_pln_active, g)
    else (if id == 0
        then some
            (app_no_error, proc_en_dis_plan id endis (record g { pln_min = λ m. empty_minute }))
        else (if not (is_pln_defined u id) then some (frm_msg_pln_undefined, g) else (do
          rg ← if endis then enable_plan u id g else disable_plan u id g
          some (settle id endis rg))))
