-- ===== src/Sign/Controller/Devices.antt =====
-- The commands of src/sign/Controller.cpp that go through a list of groups: CmdSetDimmingLevel,
-- CmdPowerOnOff and CmdDisableEnableDevice, with SetDimming, SetPower and SetDevice of
-- src/sign/Group.cpp. The events and the texts of a reject are left out.
pub mod Entries
pub mod Laws
use gc.Common.{
  ℕ, zero, suc, ◌+◌, ◌-◌, ◌*◌, Bool, true, false, ◌&&◌, ◌||◌, not, Option, none, some, List, [],
  ◌∷◌, map, ltb, leb, ◌==◌, if◌then◌else◌, length,
}
use gc.Tsisp003.Memory.{Memory}
use gc.Tsisp003.AppError.{
  AppError, app_no_error, syntax_error, undefined_device_number, dimming_level_not_supported,
}
use gc.Sign.Power.{is_off}
use gc.Sign.Power
use gc.Sign.Controller.{Sign, Saved, Group}

unfoldable pub set_dimming : ℕ → Group → Group
set_dimming v g = record g {
  target_dimming_lvl = v;
  signs = map (λ (s : Sign). record s { dimming_set = v }) g.signs;
  saved = record g.saved { dimming = v };
}

-- What SetPower of UciProcess is called with, if it is called.
abbrev saved_power : ℕ → Group → Saved
saved_power v g =
    if v == 0
    then (if not (is_off g.command.power.cmd_pwr) then record g.saved { power = 0 } else g.saved)
    else (elim g.command.power.cmd_pwr [
      | Power.pwr_off ↦ record g.saved { power = 1 }
      | Power.pwr_na ↦ record g.saved { power = 1 }
      | _ ↦ g.saved
    ])

-- The pins and the errors of the signs are left out.
unfoldable pub set_power : ℕ → Group → Group
set_power v g = record g {
  command = record g.command { power = Power.set_power v g.command.power };
  signs = map (λ (s : Sign). record s { power = v }) g.signs;
  saved = saved_power v g;
}

unfoldable pub set_device : ℕ → Group → Group
set_device endis g =
    let v = if endis == 0 then 0 else 1 in
    record g { device_en_dis_set = v; saved = record g.saved { device = v } }

-- The change of the group at an index; past the end there is none.
unfoldable pub change : (Group → Group) → List Group → ℕ → List Group
change f [] i = []
change f (g ∷ groups) zero = f g ∷ groups
change f (g ∷ groups) (suc i) = g ∷ change f groups i

-- An id of 0 names all groups.
unfoldable pub at_group : (Group → Group) → ℕ → List Group → List Group
at_group f id groups = if id == 0 then map f groups else change f groups (id - 1)

abbrev pub first_error : AppError → AppError → AppError
first_error app_no_error rest = rest
first_error e rest = e

-- The first loop over the entries that are left; an entry has `size` bytes, and `p` is the offset of
-- the next. `check` says what is wrong with an entry of a group that exists.
unfoldable pub check_entries : (Memory → ℕ → AppError) → ℕ → List Group → Memory → ℕ → ℕ → AppError
check_entries check size groups cmd zero p = app_no_error
check_entries check size groups cmd (suc left) p =
    let rest = check_entries check size groups cmd left (p + size) in
    if ltb (length groups) (cmd p) then undefined_device_number else first_error (check cmd p) rest

-- The second loop.
unfoldable pub apply_entries :
    (Memory → ℕ → Group → Group) → ℕ → Memory → ℕ → ℕ → List Group → List Group
apply_entries act size cmd zero p groups = groups
apply_entries act size cmd (suc left) p groups =
    apply_entries act size cmd left (p + size) (at_group (act cmd p) (cmd p) groups)

abbrev pub if_no_error : AppError → List Group → List Group → AppError × List Group
if_no_error app_no_error groups changed = (app_no_error, changed)
if_no_error e groups changed = (e, groups)

unfoldable pub for_entries :
    (Memory → ℕ → AppError)
    → (Memory → ℕ → Group → Group)
    → ℕ
    → Memory
    → List Group
    → AppError × List Group
for_entries check act size cmd groups =
    let entry = cmd 1 in
    if entry == 0 || ltb (length groups) entry
    then (syntax_error, groups)
    else if_no_error (check_entries check size groups cmd entry 2) groups
        (apply_entries act size cmd entry 2 groups)

abbrev pub check_dimming : Memory → ℕ → AppError
check_dimming cmd p =
    if not (cmd (p + 1) == 0) && (cmd (p + 2) == 0 || ltb 16 (cmd (p + 2)))
    then dimming_level_not_supported
    else app_no_error

abbrev pub act_dimming : Memory → ℕ → Group → Group
act_dimming cmd p g = set_dimming (if cmd (p + 1) == 0 then 0 else cmd (p + 2)) g

unfoldable pub cmd_set_dimming_level : Memory → List Group → AppError × List Group
unfolding for_entries set_dimming
cmd_set_dimming_level = for_entries check_dimming act_dimming 3

-- A setting is 0 or 1.
abbrev pub check_setting : Memory → ℕ → AppError
check_setting cmd p = if ltb 1 (cmd (p + 1)) then syntax_error else app_no_error

unfoldable pub cmd_power_on_off : Memory → List Group → AppError × List Group
unfolding for_entries set_power
cmd_power_on_off = for_entries check_setting (λ cmd p g. set_power (cmd (p + 1)) g) 2

unfoldable pub cmd_disable_enable_device : Memory → List Group → AppError × List Group
unfolding for_entries set_device
cmd_disable_enable_device = for_entries check_setting (λ cmd p g. set_device (cmd (p + 1)) g) 2
