-- ===== src/Sign/Controller/Schedules.antt =====
-- The schedules of the groups of src/sign/Controller.cpp under its commands.
use gc.Common.{
  ℕ, zero, suc, ◌+◌, ◌-◌, ◌≡◌, refl, ap, ap₂, ◌∙◌, Bool, ◌||◌, some, List, [], ◌∷◌, map, Bool-cases,
  inl, inr, ◌==◌, ltb, length,
}
use gc.Tsisp003.Memory.{Memory}
use gc.Tsisp003.AppError.{AppError, app_no_error}
use gc.Uci.UciPln.{UciPln}
use gc.Sign.Command
use gc.Sign.Schedule
use gc.Sign.Schedule.{get_pln, en_dis_plan, is_plan_enabled}
use gc.Sign.Schedule.Steps.{Consistent, AllClocks}
use gc.Sign.Schedule.Laws.{en_dis_plan-Consistent}
use gc.Sign.Controller.{Group}
use gc.Sign.Controller.Plans.{at_schedule}
use gc.Sign.Controller.Devices.{change, at_group, apply_entries, if_no_error, for_entries}
use gc.Sign.Controller.Lanes.{at_command}

abbrev pub schedules : List Group → List Schedule.Group
schedules [] = []
schedules (g ∷ groups) = g.schedule ∷ schedules groups

-- The table of minutes of each group says exactly what its enabled plans say.
abbrev pub AllConsistent : UciPln → List Schedule.Group → Type 0
AllConsistent u [] = Unit {0}
AllConsistent u (g ∷ groups) = Consistent u g × AllConsistent u groups

module _ (f : Group → Group) (keeps : (g : Group) → (f g).schedule ≡ g.schedule) where
  pub schedules-map : (groups : List Group) → schedules (map f groups) ≡ schedules groups
  schedules-map [] = refl
  schedules-map (g ∷ groups) = ap₂ ◌∷◌ (keeps g) (schedules-map groups)

  schedules-change :
      (groups : List Group) (i : ℕ) → schedules (change f groups i) ≡ schedules groups
  unfolding change
  schedules-change [] i = refl
  schedules-change (g ∷ groups) zero = ap₂ ◌∷◌ (keeps g) refl
  schedules-change (g ∷ groups) (suc i) = ap (λ t. g.schedule ∷ t) (schedules-change groups i)

  schedules-at_group :
      (id : ℕ) (groups : List Group) → schedules (at_group f id groups) ≡ schedules groups
  unfolding at_group
  schedules-at_group id groups = elim (Bool-cases (id == 0)) [
    | inl e ↦ rw e (schedules-map groups)
    | inr e ↦ rw e (schedules-change groups (id - 1))
  ]

module _ (check : Memory → ℕ → AppError) (act : Memory → ℕ → Group → Group) (size : ℕ)
    (cmd : Memory) (keeps : (p : ℕ) (g : Group) → (act cmd p g).schedule ≡ g.schedule) where
  schedules-apply_entries :
      (left p : ℕ) (groups : List Group)
      → schedules (apply_entries act size cmd left p groups) ≡ schedules groups
  unfolding apply_entries
  schedules-apply_entries zero p groups = refl
  schedules-apply_entries (suc left) p groups =
      schedules-apply_entries left (p + size) _
      ∙ schedules-at_group (act cmd p) (keeps p) (cmd p) groups

  schedules-if_no_error :
      (e : AppError) (groups changed : List Group)
      → schedules changed ≡ schedules groups
      → schedules (if_no_error e groups changed).1 ≡ schedules groups
  schedules-if_no_error app_no_error groups changed h = h
  schedules-if_no_error e groups changed h = refl

  pub schedules-for_entries :
      (groups : List Group) → schedules (for_entries check act size cmd groups).1 ≡ schedules groups
  unfolding for_entries
  schedules-for_entries groups =
      let done = schedules-apply_entries (cmd 1) 2 groups in
      elim (Bool-cases (cmd 1 == 0 || ltb (length groups) (cmd 1))) [
        | inl e ↦ rw e refl
        | inr e ↦ rw e (schedules-if_no_error _ groups _ done)
      ]

pub schedules-at_command :
    (act : Command.Group → AppError × Command.Group) (i : ℕ) (groups : List Group)
    → schedules (at_command act i groups).1 ≡ schedules groups
unfolding at_command
schedules-at_command act i [] = refl
schedules-at_command act zero (g ∷ groups) = refl
schedules-at_command act (suc i) (g ∷ groups) =
    ap (λ t. g.schedule ∷ t) (schedules-at_command act i groups)

-- EnDisPlan of one group.
pub at_schedule-AllConsistent :
    (u : UciPln) (id : ℕ) (endis : Bool) (i : ℕ) (groups : List Group)
    → AllClocks u
    → AllConsistent u (schedules groups)
    → (r : AppError) × (groups' : List Group) × (at_schedule (en_dis_plan u id endis) i groups
        ≡ some (r, groups'))
      × AllConsistent u (schedules groups')
unfolding at_schedule
at_schedule-AllConsistent u id endis i [] clocks h = (_, [], refl, tt)
at_schedule-AllConsistent u id endis zero (g ∷ groups) clocks h =
    let (s, r, e, v) = en_dis_plan-Consistent u id endis g.schedule clocks h.0 in
    (r, record g { schedule = s } ∷ groups, rw e refl, (v, h.1))
at_schedule-AllConsistent u id endis (suc i) (g ∷ groups) clocks h =
    let (r, groups', e, v) = at_schedule-AllConsistent u id endis i groups clocks h.1 in
    (r, g ∷ groups', rw e refl, (h.0, v))
