-- ===== src/Sign/Power.antt =====
-- The power of a group: PowerFunc, FcltSwitchFunc, SetPower and IsPowerOn of src/sign/Group.cpp and
-- include/sign/Group.h.
pub mod Laws
mod Tests
use gc.Common.{ℕ, ◌*◌, Bool, true, false, ◌&&◌, ◌||◌, not, ◌==◌, if◌then◌else◌}
use gc.Module.BootTimer
use gc.Module.BootTimer.{Timespec, set_ms, is_expired, is_clear}
use gc.Sign.Display.{
  Display, FsState, fs_na, fs_off, fs_auto, fs_msg1, fs_msg2, is_auto, frm, fsw, next_command,
}

pub data PwrState : Type 0 where
  pwr_off pwr_on pwr_rising pwr_na : PwrState

abbrev pub is_off : PwrState → Bool
is_off pwr_off = true
is_off _ = false

abbrev pub is_on : PwrState → Bool
is_on pwr_on = true
is_on _ = false

abbrev pub is_rising : PwrState → Bool
is_rising pwr_rising = true
is_rising _ = false

pub record Power : Type 0 where
  pub cmd_pwr : PwrState
  pub fs_pwr : PwrState
  pub main_pwr : PwrState
  pub pwr_up_tmr : Timespec

abbrev pub is_power_on : Power → Bool
is_power_on p = is_on p.cmd_pwr && (is_on p.fs_pwr && is_on p.main_pwr)

-- The first part of PowerFunc: the main power, as the error PowerFailure of the controller gives it.
abbrev pub main_after : Bool → PwrState → PwrState
main_after true main = pwr_off
main_after false pwr_off = pwr_rising
main_after false pwr_na = pwr_rising
main_after false main = main

-- What is displayed after the facility switch has left OFF.
abbrev pub display_switch : FsState → Display → Display
display_switch fs d =
    if is_auto fs
    then next_command frm 0 d
    else next_command fsw (elim fs [ fs_msg1 ↦ 1 | _ ↦ 2 ]) d

-- The end of the power-up.
abbrev pub powered_up : FsState → Power × Display → Power × Display
powered_up fs (p, d) =
    let shown = if is_rising p.fs_pwr || is_on p.fs_pwr then display_switch fs d else d in
    (
      record { cmd_pwr = pwr_on; fs_pwr = pwr_on; main_pwr = pwr_on; pwr_up_tmr = BootTimer.clear },
      record shown { ext_disp_tmr = BootTimer.clear; ready_to_load = true },
    )

abbrev pub any_off : Power → Bool
any_off p = is_off p.main_pwr || (is_off p.cmd_pwr || is_off p.fs_pwr)

abbrev pub any_rising : Power → Bool
any_rising p = is_rising p.main_pwr || (is_rising p.cmd_pwr || is_rising p.fs_pwr)

-- The rest of PowerFunc; `delay` is the power-up delay of the slaves in seconds. The requests to the
-- slaves and the report of what is displayed are left out.
unfoldable pub combine : Timespec → ℕ → FsState → Power × Display → Power × Display
combine now delay fs (p, d) =
    if any_off p
    then (record p { pwr_up_tmr = BootTimer.clear }, d)
    else (if any_rising p
        then (if is_clear p.pwr_up_tmr
            then (record p { pwr_up_tmr = set_ms now (delay * 1000) }, d)
            else (if is_expired now p.pwr_up_tmr then powered_up fs (p, d) else (p, d)))
        else (p, d))

unfoldable pub power_func : Timespec → ℕ → FsState → Bool → Power × Display → Power × Display
power_func now delay fs failed (p, d) =
    combine now delay fs (record p { main_pwr = main_after failed p.main_pwr }, d)

-- FcltSwitchFunc where the switch has changed to `fs`.
unfoldable pub fclt_switch_func : FsState → Power × Display → Power × Display
fclt_switch_func fs_off (p, d) = (record p { fs_pwr = pwr_off }, d)
fclt_switch_func fs (p, d) = elim p.fs_pwr [
  | pwr_off ↦ (record p { fs_pwr = pwr_rising }, d)
  | pwr_na ↦ (record p { fs_pwr = pwr_on }, d)
  | _ ↦ (p, display_switch fs d)
]

-- SetPower; the pins, the settings and the signs are left out.
unfoldable pub set_power : ℕ → Power → Power
set_power v p = if v == 0 then record p { cmd_pwr = pwr_off } else (elim p.cmd_pwr [
  | pwr_off ↦ record p { cmd_pwr = pwr_rising }
  | pwr_na ↦ record p { cmd_pwr = pwr_rising }
  | _ ↦ p
])
