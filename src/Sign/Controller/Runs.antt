-- ===== src/Sign/Controller/Runs.antt =====
-- Instances for the commands on groups of src/sign/Controller.cpp.
use gc.Common.{
  ℕ, zero, suc, ◌+◌, ◌*◌, ◌%◌, ◌<◌, ◌≤◌, ◌≡◌, ◌↔◌, refl, true, false, some, List, [], ◌∷◌, ◌==◌,
  arith, length, get_or, drop,
}
use gc.Tsisp003.Memory.{Memory, holding}
use gc.Tsisp003.AppError.{app_no_error}
use gc.Sign.Display.{atf}
use gc.Sign.Command.Tests as CommandTests
use gc.Sign.Controller.{
  Db, Sign, Group, is_frm_active, is_msg_active, is_pln_active, is_pln_enabled,
}
use gc.Sign.Controller.References.{IsConsistent}
use gc.Sign.Controller.Tests.{settings, sign, group, db, db-IsConsistent}
use gc.Sign.Controller.Devices.{cmd_set_dimming_level, cmd_power_on_off, cmd_disable_enable_device}
use gc.Sign.Power.{is_off}
use gc.Sign.Controller.Devices.Laws.{
  Obeys, IsDimming, IsSetting, level_of, switched_off, enabled, commands-Obey,
}
use gc.Sign.Controller.Lanes.{check_adjacent_lane}
use gc.Sign.Controller.Lanes.Merge.{road, lane_of, is_forbidden, check_adjacent_lane-NoConflict}
use gc.Sign.Controller.Atomic.{
  atomic_entries, duplicate, put_frame, is_speed_frame, disp_atomic_frm,
}
use gc.Sign.Controller.Atomic.Laws.{frame_for, id_at, Distinct, disp_atomic_frm-frame_for}
use gc.Sign.Controller.Plans.{cmd_request_enabled_plans}
use gc.Sign.Controller.Plans.Report.{reported, enabled_at, cmd_request_enabled_plans-reported}
use gc.Sign.Controller.Reset.{cmd_system_reset}
use gc.Sign.Controller.Reset.Laws.{cmd_system_reset-clears}

-- One entry: group 1 is set by hand to level 9.
abbrev dim : Memory
dim = holding (0x14 ∷ 1 ∷ 1 ∷ 1 ∷ 9 ∷ [])

commands-Obey_example :
    Obeys IsDimming
      (λ g. g.target_dimming_lvl)
      level_of
      3
      dim
      (group ∷ [])
      (cmd_set_dimming_level dim (group ∷ []))
    × Obeys IsSetting
        (λ g. is_off g.command.power.cmd_pwr)
        switched_off
        2
        dim
        (group ∷ [])
        (cmd_power_on_off dim (group ∷ []))
    × Obeys IsSetting
        (λ g. g.device_en_dis_set)
        enabled
        2
        dim
        (group ∷ [])
        (cmd_disable_enable_device dim (group ∷ []))
commands-Obey_example = commands-Obey dim (group ∷ [])

abbrev other_sign : Sign
other_sign = record { sign_id = 2; report_frm = 189; dimming_set = 0; power = 1 }

-- The left lane leads right, into a lane that shows a cross.
check_adjacent_lane-NoConflict_example :
    (check_adjacent_lane (sign ∷ other_sign ∷ []) (185 ∷ 0 ∷ []) ≡ app_no_error) ↔ (
      (i : ℕ)
      → i + 1 < length (road (185 ∷ 0 ∷ []) (sign ∷ other_sign ∷ []))
      → is_forbidden
          (lane_of (get_or (road (185 ∷ 0 ∷ []) (sign ∷ other_sign ∷ [])) i 0))
          (lane_of (get_or (road (185 ∷ 0 ∷ []) (sign ∷ other_sign ∷ [])) (i + 1) 0))
        ≡ false)
check_adjacent_lane-NoConflict_example =
    check_adjacent_lane-NoConflict (sign ∷ other_sign ∷ []) (185 ∷ 0 ∷ [])

-- Both signs are to show frame 30.
abbrev atomic : Memory
atomic = holding (0x2b ∷ 1 ∷ 2 ∷ 2 ∷ 30 ∷ 1 ∷ 30 ∷ [])

abbrev both : List Sign
both = sign ∷ other_sign ∷ []

distinct : Distinct both
distinct zero zero hi hj e = refl
distinct zero (suc zero) hi hj e = absurd (omega arith)
distinct zero (suc (suc j)) hi hj e = absurd (omega arith)
distinct (suc zero) zero hi hj e = absurd (omega arith)
distinct (suc zero) (suc zero) hi hj e = refl
distinct (suc zero) (suc (suc j)) hi hj e = absurd (omega arith)
distinct (suc (suc i)) j hi hj e = absurd (omega arith)

accepted : (disp_atomic_frm true (λ s f. false) both atomic CommandTests.group).0 ≡ app_no_error
unfolding disp_atomic_frm atomic_entries duplicate put_frame is_speed_frame
accepted = refl

disp_atomic_frm-frame_for_example :
    let next =
      (disp_atomic_frm true (λ s f. false) both atomic CommandTests.group).1.display.ds_next in
    (next.disp_type ≡ atf) × (get_or next.fmpid 0 0 ≡ frame_for atomic 2 3 (id_at both 0) 0)
disp_atomic_frm-frame_for_example =
    disp_atomic_frm-frame_for (λ s f. false) both atomic CommandTests.group 0 distinct refl
      (omega arith) accepted

-- A group with plan 7 enabled.
abbrev planned : Group
planned = record group { schedule = record group.schedule { enabled = λ i. i == 7 } }

cmd_request_enabled_plans-reported_example :
    let report = cmd_request_enabled_plans (group ∷ planned ∷ []) in
    (reported 2 7 (drop 2 report) ≡ enabled_at (group ∷ planned ∷ []) 1 7)
    × ((n : ℕ) × (length report ≡ 2 + 2 * n) × (get_or report 1 0 ≡ n % 256))
cmd_request_enabled_plans-reported_example =
    cmd_request_enabled_plans-reported (group ∷ planned ∷ []) 2 7 (omega arith) (omega arith)
      (omega arith)

-- A reset of all at level 3.
abbrev reset_cmd : Memory
reset_cmd = holding (0x08 ∷ 0 ∷ 3 ∷ [])

cmd_system_reset-clears_example :
    (db' : Db) × (groups' : List Group) × (cmd_system_reset settings reset_cmd db
        (group ∷ planned ∷ [])
      ≡ some (app_no_error, db', groups'))
    × IsConsistent db'
    × ((id : ℕ)
        → 1 ≤ id
        → (is_frm_active groups' id ≡ false)
          × (is_msg_active groups' id ≡ false)
          × (is_pln_active groups' id ≡ false)
          × (is_pln_enabled groups' id ≡ false))
cmd_system_reset-clears_example =
    cmd_system_reset-clears settings reset_cmd db (group ∷ planned ∷ []) db-IsConsistent refl refl
