-- ===== src/Module/FacilitySwitch/Tests.antt =====
-- An instance for src/module/FacilitySwitch.cpp.
use gc.Common.{ℕ, ◌≡◌, ◌≤◌, refl, true, false, arith}
use gc.Module.FacilitySwitch.{FacilitySwitch, fs_na, Pin, key_of, state_of}
use gc.Module.FacilitySwitch.Laws.{runs, state_or, runs-fs_state}

abbrev low : Pin
low = record { valid = true; high = false }

abbrev high : Pin
high = record { valid = true; high = true }

abbrev booted : FacilitySwitch
booted = record {
  is_changed = false;
  fs_state = fs_na;
  last_state = fs_na;
  lastkey = 0;
  key_cnt = 0;
}

runs-fs_state_example :
    ((n : ℕ) → n ≤ 10 → (runs low high high n booted).fs_state ≡ fs_na)
    × ((runs low high high 11 booted).fs_state ≡ state_or (state_of (key_of low high high)) fs_na)
runs-fs_state_example = runs-fs_state low high high refl booted (ground arith)
