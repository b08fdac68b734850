-- ===== src/Sign/Schedule/Tests.antt =====
-- Instances for the schedule of src/sign/Group.cpp.
use gc.Common.{
  ℕ, zero, suc, ◌≡◌, ◌≢◌, ◌↔◌, refl, sym, ap, subst, take, true, false, none, some, [], ◌∷◌, arith,
  if◌then◌else◌,
}
use gc.Tsisp003.AppError.{AppError, app_no_error, overlays_not_supported}
use gc.Tsisp003.Plan.{Plan, PlnEntry, blank}
use gc.Tsisp003.Plan.Overlap.{AllTimed}
use gc.Uci.UciPln.{UciPln, is_pln_defined}
use gc.Sign.Schedule.{
  Group, PlnMinute, empty_minute, Table, sweep, get_pln, en_dis_plan, is_plan_active,
}
use gc.Sign.Schedule.Span.{covers, sweep-rounds}
use gc.Sign.Schedule.Week.{in_days, in_entries}
use gc.Sign.Schedule.Steps.{owns, Consistent, AllClocks}
use gc.Sign.Schedule.Laws.{en_dis_plan-Consistent, en_dis_plan-overlap}
use gc.Sign.Schedule.Restore.{en_dis_plan-restores}

-- Frame 5 from 22:30 to 0:10, on Saturdays, so through the end of the week.
abbrev entry : PlnEntry
entry = record {
  fm_type = 1;
  fm_id = 5;
  start = record { hour = 22; minute = 30 };
  stop = record { hour = 0; minute = 10 };
}

abbrev pln : Plan
pln = record blank {
  micode = 0x0d;
  pln_id = 1;
  weekdays = 0x40;
  entries = 1;
  pln_entries = entry ∷ [];
}

abbrev pub table : UciPln
table = record { plns = pln ∷ []; chksum = 0 }

abbrev pub idle_group : Group
idle_group = record { on_disp_pln_id = 0; pln_min = λ m. empty_minute; enabled = λ i. false }

abbrev busy_group : Group
busy_group = record idle_group { pln_min = λ m. record empty_minute { pln_id = 2 } }

table-AllClocks : AllClocks table
unfolding AllClocks get_pln is_pln_defined
table-AllClocks zero p h = absurd (ground arith)
table-AllClocks (suc zero) p h =
    let same : pln ≡ p = ap (λ o. elim o [ none ↦ pln | some q ↦ q ]) h in
    subst (λ (q : Plan). AllTimed (take q.entries q.pln_entries)) same (ground arith)
table-AllClocks (suc (suc id)) p h = absurd (ground arith)

idle_group-Consistent : Consistent table idle_group
unfolding Consistent
idle_group-Consistent id m some_id = (λ h. absurd (some_id (sym h)), λ h. absurd (ground arith))

en_dis_plan-Consistent_example :
    (g' : Group) × (r : AppError) × (en_dis_plan table 1 true idle_group ≡ some (r, g'))
    × Consistent table g'
en_dis_plan-Consistent_example =
    en_dis_plan-Consistent table 1 true idle_group table-AllClocks idle_group-Consistent

defined : is_pln_defined table 1 ≡ true
unfolding is_pln_defined
defined = refl

idle : is_plan_active idle_group 1 ≡ false
unfolding is_plan_active
idle = refl

busy_idle : is_plan_active busy_group 1 ≡ false
unfolding is_plan_active
busy_idle = refl

en_dis_plan-overlap_example :
    (en_dis_plan table 1 true busy_group ≡ some (overlays_not_supported, busy_group))
    ↔ ((m : ℕ) × (owns (get_pln table 1) m ≡ true) × ((busy_group.pln_min m).pln_id ≢ 0))
en_dis_plan-overlap_example =
    en_dis_plan-overlap table 1 busy_group table-AllClocks (ground arith) defined busy_idle refl

-- The last minute of the week and the first belong to the plan, the one at 0:10 does not.
ends :
    (owns (get_pln table 1) 10079 ≡ true)
    × (owns (get_pln table 1) 0 ≡ true)
    × (owns (get_pln table 1) 10 ≡ false)
unfolding get_pln is_pln_defined in_days in_entries covers
ends = (refl, refl, refl)

en_dis_plan-restores_example :
    (g1 : Group) × (g2 : Group) × (en_dis_plan table 1 true idle_group ≡ some (app_no_error, g1))
    × (en_dis_plan table 1 false g1 ≡ some (app_no_error, g2))
    × ((m : ℕ) → owns (get_pln table 1) m ≡ true → (g1.pln_min m).pln_id ≡ 1)
    × ((m : ℕ) → owns (get_pln table 1) m ≡ false → g1.pln_min m ≡ empty_minute)
    × ((m : ℕ) → (g2.pln_min m).pln_id ≡ 0)
en_dis_plan-restores_example =
    en_dis_plan-restores table 1 idle_group table-AllClocks (ground arith) defined idle refl
      (λ m h. refl)

abbrev marked : PlnMinute → PlnMinute
marked p = record p { pln_id = 3 }

-- From the last minute but one of the week to the second of the next.
sweep-rounds_example :
    (t' : Table) × (sweep marked 4 10078 2 idle_group.pln_min ≡ some t')
    × ((m : ℕ)
        → t' m ≡ (if covers 10078 2 m then marked (idle_group.pln_min m) else idle_group.pln_min m))
sweep-rounds_example =
    sweep-rounds marked 4 10078 2 idle_group.pln_min (ground arith) (ground arith) (ground arith)
