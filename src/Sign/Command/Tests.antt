-- ===== src/Sign/Command/Tests.antt =====
-- Instances for the display commands of src/sign/Group.cpp.
use gc.Common.{ℕ, Bool, some, get_elem?, set, ◌≡◌, ◌≢◌, ◌⊎◌, true, false, [], ◌∷◌, ◌==◌}
use gc.Module.BootTimer
use gc.Tsisp003.AppError.{
  app_no_error, syntax_error, power_is_off, facility_switch_override, mi_not_supported,
}
use gc.Sign.Display.{fs_auto, frm}
use gc.Sign.Display.Tests.{shown}
use gc.Sign.Power.{pwr_on}
use gc.Sign.Command.{Group, disp_frm}
use gc.Sign.Command.Laws.{IsUnpowered, IsFatal, IsFree, disp_frm_lem}

-- A group of one sign that rejects frame 9.
abbrev pub group : Group
group = record {
  group_id = 1;
  power = record {
    cmd_pwr = pwr_on;
    fs_pwr = pwr_on;
    main_pwr = pwr_on;
    pwr_up_tmr = BootTimer.clear;
  };
  fs = fs_auto;
  display = shown;
  disp_mode = 0;
  disp = [];
  reject_frms = (λ i. i == 9) ∷ [];
}

abbrev nine : ℕ
nine = 9

abbrev two : ℕ
two = 2

disp_frm_lem_example :
    let res = disp_frm true nine true group in
    (nine ≢ 0 → IsUnpowered group → res ≡ (power_is_off, group))
    × (nine ≢ 0
        → ¬ (IsUnpowered group)
        → group.fs ≢ fs_auto
        → res ≡ (facility_switch_override, group))
    × (nine ≢ 0
        → ¬ (IsUnpowered group)
        → group.fs ≡ fs_auto
        → IsFatal group
        → res ≡ (mi_not_supported, group))
    × ((nine ≡ 0) ⊎ IsFree group
        → (i : ℕ) (bits : ℕ → Bool) → get_elem? group.reject_frms i ≡ some bits
        → bits nine ≡ true
        → res ≡ (syntax_error, group))
    × ((nine ≡ 0) ⊎ IsFree group
        → ((i : ℕ) (bits : ℕ → Bool)
            → get_elem? group.reject_frms i ≡ some bits
            → bits nine ≡ false)
        → (res.0 ≡ app_no_error)
          × (res.1.display.ds_next.disp_type ≡ frm)
          × (res.1.display.ds_next.fmpid ≡ set group.display.ds_next.fmpid 0 nine))
disp_frm_lem_example = disp_frm_lem true nine true group
