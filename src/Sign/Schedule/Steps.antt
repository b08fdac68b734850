-- ===== src/Sign/Schedule/Steps.antt =====
-- Enabling and disabling plans in src/sign/Group.cpp, against the times that the plans name.
use gc.Common.{
  ℕ, ◌≡◌, ◌≢◌, ◌⊎◌, ◌↔◌, refl, ap, Bool, true, false, Option, none, some, arith, ◌==◌,
  if◌then◌else◌, Bool-cases, inl, inr, take,
}
use gc.Tsisp003.AppError.{app_no_error, overlays_not_supported, plan_enabled, plan_not_enabled}
use gc.Tsisp003.Plan.{Plan}
use gc.Tsisp003.Plan.Overlap.{AllTimed}
use gc.Uci.UciPln.{UciPln}
use gc.Sign.Schedule.{
  Group, Table, PlnMinute, get_pln, stamp, vacate, proc_en_dis_plan, is_plan_enabled,
  is_en_plan_overlap, load_plan_to_pln_min, unload, enable_plan, disable_plan,
}
use gc.Sign.Schedule.Week.{in_days, Painted, sweep_days-Painted, occupied_days-Search}

-- Whether minute `m` of the week lies in an entry of the plan, on one of its weekdays.
abbrev pub in_plan : Plan → ℕ → Bool
in_plan pln m = in_days pln 7 0 1 m

abbrev pub owns : Option Plan → ℕ → Bool
owns none m = false
owns (some pln) m = in_plan pln m

-- The table says exactly what the enabled plans say.
unfoldable pub Consistent : UciPln → Group → Type 0
Consistent u g =
    (id m : ℕ)
    → id ≢ 0
    → ((g.pln_min m).pln_id ≡ id) ↔ ((g.enabled id ≡ true) × (owns (get_pln u id) m ≡ true))

-- Every plan of the table has the times that `Plan::Init` accepts.
unfoldable pub AllClocks : UciPln → Type 0
AllClocks u =
    (id : ℕ) (pln : Plan) → get_pln u id ≡ some pln → AllTimed (take pln.entries pln.pln_entries)

pub enabled-enable :
    (id i : ℕ) (g : Group)
    → id ≢ 0
    → (proc_en_dis_plan id true g).enabled i ≡ (if i == id then true else g.enabled i)
unfolding proc_en_dis_plan
enabled-enable id i g some_id = ground arith

enabled-disable :
    (id i : ℕ) (g : Group)
    → id ≢ 0
    → (proc_en_dis_plan id false g).enabled i ≡ (if i == id then false else g.enabled i)
unfolding proc_en_dis_plan
enabled-disable id i g some_id = ground arith

pub pln_min-proc : (id : ℕ) (b : Bool) (g : Group) → (proc_en_dis_plan id b g).pln_min ≡ g.pln_min
unfolding proc_en_dis_plan
pln_min-proc id b g = elim (Bool-cases (id == 0)) [ inl e ↦ rw e refl | inr e ↦ rw e refl ]

-- One minute, when a plan is enabled and when it is disabled: `x` and `y` are the plan before and after.
enable-minute :
    (id i x y : ℕ) (own mine on : Bool)
    → id ≢ 0
    → i ≢ 0
    → (mine ≡ true → (x ≡ 0) × (y ≡ id))
    → (mine ≡ false → y ≡ x)
    → ((i == id) ≡ true → (own ≡ mine) × (on ≡ false))
    → (x ≡ i) ↔ ((on ≡ true) × (own ≡ true))
    → (y ≡ i) ↔ (((if i == id then true else on) ≡ true) × (own ≡ true))
enable-minute id i x y own mine on some_id some_i inside outside same before =
    elim (Bool-cases (i == id)) [
      | inl e ↦
          let s = same e in
          elim (Bool-cases mine) [
            | inl h ↦ ground (arith, inside h, s.0, s.1, before.0, before.1)
            | inr h ↦ ground (arith, outside h, s.0, s.1, before.0, before.1)
          ]
      | inr e ↦ elim (Bool-cases mine) [
        | inl h ↦ ground (arith, inside h, before.0, before.1)
        | inr h ↦ ground (arith, outside h, before.0, before.1)
      ]
    ]

disable-minute :
    (id i x y : ℕ) (own mine on : Bool)
    → id ≢ 0
    → i ≢ 0
    → (mine ≡ true → (x ≡ id) × (y ≡ 0))
    → (mine ≡ false → y ≡ x)
    → ((i == id) ≡ true → (own ≡ mine) × (on ≡ true))
    → (x ≡ i) ↔ ((on ≡ true) × (own ≡ true))
    → (y ≡ i) ↔ (((if i == id then false else on) ≡ true) × (own ≡ true))
disable-minute id i x y own mine on some_id some_i inside outside same before =
    elim (Bool-cases (i == id)) [
      | inl e ↦
          let s = same e in
          elim (Bool-cases mine) [
            | inl h ↦ ground (arith, inside h, s.0, s.1, before.0, before.1)
            | inr h ↦ ground (arith, outside h, s.0, s.1, before.0, before.1)
          ]
      | inr e ↦ elim (Bool-cases mine) [
        | inl h ↦ ground (arith, inside h, before.0, before.1)
        | inr h ↦ ground (arith, outside h, before.0, before.1)
      ]
    ]

module _ (u : UciPln) (clocks : AllClocks u) (id : ℕ) (some_id : id ≢ 0) where
  pub is_plan_enabled_lem : (g : Group) → is_plan_enabled g id ≡ g.enabled id
  unfolding is_plan_enabled
  is_plan_enabled_lem g = ground arith

  pub enabled-Consistent :
      (g : Group) (t' : Table)
      → g.enabled id ≡ false
      → ((m : ℕ) → owns (get_pln u id) m ≡ true → (g.pln_min m).pln_id ≡ 0)
      → Painted id (owns (get_pln u id)) g.pln_min t'
      → Consistent u g
      → Consistent u (proc_en_dis_plan id true (record g { pln_min = t' }))
  unfolding Consistent Painted
  enabled-Consistent g t' off free painted before i m some_i =
      rw (pln_min-proc id true (record g { pln_min = t' })) (
        rw (enabled-enable id i (record g { pln_min = t' }) some_id) (
          enable-minute id i (g.pln_min m).pln_id (t' m).pln_id _ (owns (get_pln u id) m)
            (g.enabled i) some_id some_i (λ h. (free m h, (painted m).0 h))
            (λ h. ap (λ (x : PlnMinute). x.pln_id) ((painted m).1 h))
            (λ e. let same : i ≡ id = ground arith in rw same (refl, off)) (before i m some_i)))

  pub disabled-Consistent :
      (g : Group) (t' : Table)
      → g.enabled id ≡ true
      → Painted 0 (owns (get_pln u id)) g.pln_min t'
      → Consistent u g
      → Consistent u (record (proc_en_dis_plan id false g) { pln_min = t' })
  unfolding Consistent Painted
  disabled-Consistent g t' on painted before i m some_i = rw (enabled-disable id i g some_id) (
      disable-minute id i (g.pln_min m).pln_id (t' m).pln_id _ (owns (get_pln u id) m) (g.enabled i)
        some_id some_i (λ h. ((before id m some_id).1 (on, h), (painted m).0 h))
        (λ h. ap (λ (x : PlnMinute). x.pln_id) ((painted m).1 h))
        (λ e. let same : i ≡ id = ground arith in rw same (refl, on)) (before i m some_i))

  -- The ways that EnablePlan ends, for a plan that is defined.
  pub enable-cases :
      (g : Group) (pln : Plan)
      → get_pln u id ≡ some pln
      → ((enable_plan u id g ≡ some (plan_enabled, g)) × (g.enabled id ≡ true))
        ⊎ (((m : ℕ) × (enable_plan u id g ≡ some (overlays_not_supported, g))
              × (g.enabled id ≡ false)
              × (owns (get_pln u id) m ≡ true)
              × ((g.pln_min m).pln_id ≢ 0))
            ⊎ ((t' : Table) × (enable_plan u id g ≡ some (app_no_error, record g { pln_min = t' }))
                × (g.enabled id ≡ false)
                × ((m : ℕ) → owns (get_pln u id) m ≡ true → (g.pln_min m).pln_id ≡ 0)
                × Painted id (owns (get_pln u id)) g.pln_min t'))
  unfolding enable_plan is_en_plan_overlap load_plan_to_pln_min AllClocks
  enable-cases g pln found =
      let timed = clocks id pln found in
      let (t', run, painted) =
        sweep_days-Painted id (stamp id) (λ e x. refl) pln 7 0 1 g.pln_min (omega arith) timed in
      rw found (elim (Bool-cases (g.enabled id)) [
        | inl on ↦ inl (rw (is_plan_enabled_lem g, on) refl, on)
        | inr off ↦ inr (elim (occupied_days-Search g.pln_min pln 7 0 1 (omega arith) timed) [
          | inl (m, busy, inside, full) ↦
              inl (m, rw (is_plan_enabled_lem g, off, busy) refl, off, inside, full)
          | inr (quiet, free) ↦
              inr (t', rw (is_plan_enabled_lem g, off, quiet, run) refl, off, free, painted)
        ])
      ])

  pub disable-cases :
      (g : Group) (pln : Plan)
      → get_pln u id ≡ some pln
      → ((disable_plan u id g ≡ some (plan_not_enabled, g)) × (g.enabled id ≡ false))
        ⊎ ((t' : Table) × (disable_plan u id g
              ≡ some (app_no_error, record (proc_en_dis_plan id false g) { pln_min = t' }))
            × (g.enabled id ≡ true)
            × Painted 0 (owns (get_pln u id)) g.pln_min t')
  unfolding disable_plan unload AllClocks
  disable-cases g pln found =
      let (t', run, painted) =
        sweep_days-Painted 0 vacate (λ e x. refl) pln 7 0 1 g.pln_min (omega arith)
          (clocks id pln found) in
      rw found (elim (Bool-cases (g.enabled id)) [
        | inl on ↦ inr (t', rw (is_plan_enabled_lem g, on, run) refl, on, painted)
        | inr off ↦ inl (rw (is_plan_enabled_lem g, off) refl, off)
      ])
