-- ===== src/Sign/Controller/Devices/Laws.antt =====
-- When CmdSetDimmingLevel, CmdPowerOnOff and CmdDisableEnableDevice of src/sign/Controller.cpp are
-- accepted, and what they leave of each group.
use gc.Common.{
  ℕ, zero, suc, ◌+◌, ◌≤◌, ◌≡◌, ◌≢◌, refl, ap, ◌∙◌, Bool, ◌||◌, ◌↔◌, ◌⊎◌, inl, inr, some, List,
  arith, Bool-cases, ◌==◌, if◌then◌else◌, length, get_elem?,
}
use gc.Tsisp003.Memory.{Memory}
use gc.Tsisp003.AppError.{AppError, app_no_error}
use gc.Sign.Power.{PwrState, pwr_off, pwr_on, pwr_na, pwr_rising, is_off}
use gc.Sign.Power
use gc.Sign.Controller.{Group}
use gc.Sign.Controller.Devices.{
  check_dimming, act_dimming, check_setting, set_dimming, set_power, set_device,
  cmd_set_dimming_level, cmd_power_on_off, cmd_disable_enable_device,
}
use gc.Sign.Controller.Devices.Entries.{named, all_named, AllGood, ByEntries, for_entries-ByEntries}

-- Each of `left` entries, of `size` bytes from an offset on, has a property.
abbrev pub Each : (Memory → ℕ → Type 0) → ℕ → Memory → ℕ → ℕ → Type 0
Each P size cmd zero p = Unit {0}
Each P size cmd (suc left) p = P cmd p × Each P size cmd left (p + size)

-- An entry sets a level from 1 to 16, or none.
abbrev pub IsDimming : Memory → ℕ → Type 0
IsDimming cmd p = (cmd (p + 1) ≡ 0) ⊎ ((1 ≤ cmd (p + 2)) × (cmd (p + 2) ≤ 16))

-- An entry sets 0 or 1.
abbrev pub IsSetting : Memory → ℕ → Type 0
IsSetting cmd p = cmd (p + 1) ≤ 1

-- The setting that the entries give the group with an id, which is that of the last of them that names
-- it or, with id 0, all groups; and `old` where there is none.
abbrev pub last_setting : {A : Type 0} → (Memory → ℕ → A) → ℕ → Memory → ℕ → ℕ → ℕ → A → A
last_setting setting size cmd zero p id old = old
last_setting setting size cmd (suc left) p id old =
    last_setting setting size cmd left (p + size) id
      (if cmd p == 0 || cmd p == id then setting cmd p else old)

-- The level 0 stands for automatic dimming.
abbrev pub level_of : Memory → ℕ → ℕ
level_of cmd p = if cmd (p + 1) == 0 then 0 else cmd (p + 2)

abbrev pub switched_off : Memory → ℕ → Bool
switched_off cmd p = cmd (p + 1) == 0

abbrev pub enabled : Memory → ℕ → ℕ
enabled cmd p = if cmd (p + 1) == 0 then 0 else 1

-- A command is accepted exactly if it has from one to as many entries as there are groups, each of
-- which names a group that exists or all of them and has the property. Then what the view shows of each
-- group is the last setting that the entries give it; a command that is refused changes no group.
abbrev pub Obeys :
    {A : Type 0}
    → (Memory → ℕ → Type 0)
    → (Group → A)
    → (Memory → ℕ → A)
    → ℕ
    → Memory
    → List Group
    → AppError × List Group
    → Type 0
Obeys P view setting size cmd groups r =
    ((r.0 ≡ app_no_error) ↔ (
      (1 ≤ cmd 1)
      × (cmd 1 ≤ length groups)
      × Each (λ cmd p. (cmd p ≤ length groups) × P cmd p) size cmd (cmd 1) 2))
    × (((r.0 ≢ app_no_error) × (r.1 ≡ groups))
        ⊎ ((r.0 ≡ app_no_error)
            × ((i : ℕ) (g : Group)
                → get_elem? groups i ≡ some g
                → (g' : Group) × (get_elem? r.1 i ≡ some g')
                  × (view g' ≡ last_setting setting size cmd (cmd 1) 2 (i + 1) (view g)))))

module _ {A : Type 0} (P : Memory → ℕ → Type 0) (view : Group → A) (setting : Memory → ℕ → A)
    (check : Memory → ℕ → AppError) (act : Memory → ℕ → Group → Group) (size : ℕ) (cmd : Memory)
    (groups : List Group) (same : (p : ℕ) → (check cmd p ≡ app_no_error) ↔ P cmd p)
    (shows : (p : ℕ) (g : Group) → view (act cmd p g) ≡ setting cmd p) where
  all_good :
      (left p : ℕ)
      → AllGood check size groups cmd left p
        ↔ Each (λ cmd p. (cmd p ≤ length groups) × P cmd p) size cmd left p
  all_good zero p = (λ h. tt, λ h. tt)
  all_good (suc left) p =
      let ih = all_good left (p + size) in
      (λ h. ((h.0.0, (same p).0 h.0.1), ih.0 h.1), λ h. ((h.0.0, (same p).1 h.0.1), ih.1 h.1))

  view-named :
      (p i : ℕ) (g : Group)
      → view (named act cmd p i g)
        ≡ (if cmd p == 0 || cmd p == i + 1 then setting cmd p else view g)
  view-named p i g = elim (Bool-cases (cmd p == 0 || cmd p == i + 1)) [
    | inl e ↦ rw e (shows p g)
    | inr e ↦ rw e refl
  ]

  view-all_named :
      (left p i : ℕ) (g : Group)
      → view (all_named act size cmd left p i g)
        ≡ last_setting setting size cmd left p (i + 1) (view g)
  view-all_named zero p i g = refl
  view-all_named (suc left) p i g =
      view-all_named left (p + size) i (named act cmd p i g)
      ∙ ap (last_setting setting size cmd left (p + size) (i + 1)) (view-named p i g)

  ByEntries-Obeys :
      (r : AppError × List Group)
      → ByEntries check act size cmd groups r
      → Obeys P view setting size cmd groups r
  ByEntries-Obeys r (accepts, cases) =
      let good = all_good (cmd 1) 2 in
      (
        (
          λ ok. let (some_entry, few, all) = accepts.0 ok in (some_entry, few, good.0 all),
          λ (some_entry, few, all). accepts.1 (some_entry, few, good.1 all),
        ),
        elim cases [
          | inl (bad, kept) ↦ inl (bad, kept)
          | inr (ok, each) ↦ inr (
            ok,
            λ i g at. (
              all_named act size cmd (cmd 1) 2 i g,
              each i ∙ rw at refl,
              view-all_named (cmd 1) 2 i g,
            ),
          )
        ],
      )

check_dimming-IsDimming :
    (cmd : Memory) (p : ℕ) → (check_dimming cmd p ≡ app_no_error) ↔ IsDimming cmd p
check_dimming-IsDimming cmd p = (λ h. ground arith, λ h. ground arith)

check_setting-IsSetting :
    (cmd : Memory) (p : ℕ) → (check_setting cmd p ≡ app_no_error) ↔ IsSetting cmd p
check_setting-IsSetting cmd p = (λ h. ground arith, λ h. ground arith)

power_off : (v : ℕ) (p : Power.Power) → is_off (Power.set_power v p).cmd_pwr ≡ (v == 0)
unfolding Power.set_power
power_off v p = elim (Bool-cases (v == 0)) [ inl e ↦ rw e refl | inr e ↦ ground arith ]

set_power-off : (v : ℕ) (g : Group) → is_off (set_power v g).command.power.cmd_pwr ≡ (v == 0)
unfolding set_power
set_power-off v g = power_off v g.command.power

-- Each of the three commands is accepted exactly if it has from one to as many entries as there are
-- groups and every entry names a group that exists or, by 0, all of them, and sets a level from 1 to 16
-- or none, or a setting of 0 or 1. Then the dimming of each group, whether its power is commanded off,
-- or whether its devices are enabled, is what the last entry for it says, and as before where there is
-- none. A command that is refused changes no group.
pub commands-Obey :
    (cmd : Memory) (groups : List Group)
    → Obeys IsDimming
        (λ g. g.target_dimming_lvl)
        level_of
        3
        cmd
        groups
        (cmd_set_dimming_level cmd groups)
      × Obeys IsSetting
          (λ g. is_off g.command.power.cmd_pwr)
          switched_off
          2
          cmd
          groups
          (cmd_power_on_off cmd groups)
      × Obeys IsSetting
          (λ g. g.device_en_dis_set)
          enabled
          2
          cmd
          groups
          (cmd_disable_enable_device cmd groups)
unfolding cmd_set_dimming_level cmd_power_on_off cmd_disable_enable_device set_dimming set_device
commands-Obey cmd groups = (
  ByEntries-Obeys IsDimming (λ g. g.target_dimming_lvl) level_of check_dimming act_dimming 3 cmd
      groups (check_dimming-IsDimming cmd) (λ p g. refl) _
      (for_entries-ByEntries check_dimming act_dimming 3 cmd groups),
  ByEntries-Obeys IsSetting (λ g. is_off g.command.power.cmd_pwr) switched_off check_setting
      (λ cmd p. set_power (cmd (p + 1))) 2 cmd groups (check_setting-IsSetting cmd)
      (λ p g. set_power-off (cmd (p + 1)) g) _
      (for_entries-ByEntries check_setting (λ cmd p. set_power (cmd (p + 1))) 2 cmd groups),
  ByEntries-Obeys IsSetting (λ g. g.device_en_dis_set) enabled check_setting
      (λ cmd p. set_device (cmd (p + 1))) 2 cmd groups (check_setting-IsSetting cmd) (λ p g. refl) _
      (for_entries-ByEntries check_setting (λ cmd p. set_device (cmd (p + 1))) 2 cmd groups),
)
