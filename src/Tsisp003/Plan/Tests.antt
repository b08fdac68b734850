-- ===== src/Tsisp003/Plan/Tests.antt =====
-- Runs and instances for src/tsisp003/Plan.cpp.
use gc.Common.{ℕ, ◌≡◌, ◌+◌, ◌*◌, ◌≤◌, ◌<◌, ◌⊎◌, refl, Bool, false, ◌↔◌, List, [], ◌∷◌, arith, ◌==◌}
use gc.Utils.Cnvt.Hex.{are_bytes-AreBytes}
use gc.Tsisp003.Memory.{IsBytes, holding, holding-IsBytes}
use gc.Tsisp003.AppError.{app_no_error}
use gc.Tsisp003.Plan.{
  Plan, PlnEntry, overlap, overlap_any, overlaps, blank, init, scan, check_entries,
}
use gc.Tsisp003.Plan.Overlap.{IsTimed, AllFree, overlaps-AllFree}
use gc.Tsisp003.Plan.Laws.{IsValid, init-IsValid_plan}

-- Id 1, revision 2: on Mondays frame 5 from 8:00 to 9:30.
abbrev pub packet : List ℕ
packet = 0x0d ∷ 1 ∷ 2 ∷ 2 ∷ 1 ∷ 5 ∷ 8 ∷ 0 ∷ 9 ∷ 30 ∷ 0 ∷ 0x4a ∷ 0xa4 ∷ []

abbrev pub size : ℕ
size = 13

abbrev pub frames : ℕ → Bool
frames i = i == 5

pub packet-IsBytes : IsBytes (holding packet)
packet-IsBytes = holding-IsBytes packet (are_bytes-AreBytes packet refl)

abbrev pub messages : ℕ → Bool
messages i = i == 1

abbrev pub plan : Plan
plan = (init frames messages (holding packet) size blank).1

pub accepted : init frames messages (holding packet) size blank ≡ (app_no_error, plan)
unfolding init check_entries scan overlaps overlap overlap_any
accepted = refl

init-IsValid_plan_example :
    IsValid frames messages plan
    × (plan.entries ≤ 6)
    × (((plan.entries ≡ 6) × (size ≡ 42)) ⊎ ((plan.entries < 6) × (size ≡ 7 + 6 * plan.entries)))
init-IsValid_plan_example =
    init-IsValid_plan frames messages (holding packet) size blank plan refl accepted

abbrev outer : PlnEntry
outer = record {
  fm_type = 1;
  fm_id = 5;
  start = record { hour = 8; minute = 0 };
  stop = record { hour = 18; minute = 0 };
}

abbrev inner : PlnEntry
inner = record {
  fm_type = 1;
  fm_id = 6;
  start = record { hour = 9; minute = 0 };
  stop = record { hour = 10; minute = 0 };
}

outer-IsTimed : IsTimed outer
outer-IsTimed = (omega arith, omega arith, omega arith, omega arith)

inner-IsTimed : IsTimed inner
inner-IsTimed = (omega arith, omega arith, omega arith, omega arith)

overlaps-AllFree_example : (overlaps (outer ∷ inner ∷ []) ≡ false) ↔ AllFree (outer ∷ inner ∷ [])
overlaps-AllFree_example =
    overlaps-AllFree (outer ∷ inner ∷ []) (outer-IsTimed, (inner-IsTimed, tt))
