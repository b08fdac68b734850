-- ===== src/Sign/Schedule/Laws.antt =====
-- EnDisPlan of src/sign/Group.cpp.
use gc.Common.{
  ℕ, ◌≡◌, ◌≢◌, ◌↔◌, refl, sym, ap, Bool, true, false, Option, none, some, arith, ◌>>=◌, get_or, ◌-◌,
  ◌==◌, if◌then◌else◌, Bool-cases, inl, inr,
}
use gc.Tsisp003.AppError
use gc.Tsisp003.AppError.{
  AppError, app_no_error, frm_msg_pln_active, frm_msg_pln_undefined, overlays_not_supported,
  plan_enabled, plan_not_enabled,
}
use gc.Tsisp003.Plan
use gc.Tsisp003.Plan.{Plan}
use gc.Uci.UciPln.{UciPln, is_pln_defined}
use gc.Sign.Schedule.{
  Group, Table, empty_minute, get_pln, proc_en_dis_plan, is_plan_active, enable_plan, disable_plan,
  en_dis_plan, settle,
}
use gc.Sign.Schedule.Steps.{
  owns, Consistent, AllClocks, enabled-Consistent, disabled-Consistent, enable-cases, disable-cases,
}

pub get_pln-defined :
    (u : UciPln) (id : ℕ) → is_pln_defined u id ≡ true → (pln : Plan) × (get_pln u id ≡ some pln)
unfolding get_pln
get_pln-defined u id defined = (get_or u.plns (id - 1) Plan.blank, rw defined refl)

pub cleared-Consistent :
    (u : UciPln) (endis : Bool) (g : Group)
    → Consistent u (proc_en_dis_plan 0 endis (record g { pln_min = λ m. empty_minute }))
unfolding Consistent proc_en_dis_plan
cleared-Consistent u endis g id m some_id =
    (λ h. absurd (some_id (sym h)), λ h. absurd (ground arith))

-- EnDisPlan where it goes on to EnablePlan or DisablePlan.
pub en_dis_plan-defined :
    (u : UciPln) (id : ℕ) (endis : Bool) (g : Group)
    → is_plan_active g id ≡ false
    → id ≢ 0
    → is_pln_defined u id ≡ true
    → en_dis_plan u id endis g ≡ (
        (if endis then enable_plan u id g else disable_plan u id g)
        >>= (λ rg. some (settle id endis rg)))
unfolding en_dis_plan
en_dis_plan-defined u id endis g idle some_id defined =
    let nonzero : (id == 0) ≡ false = ground arith in rw (idle, nonzero, defined) refl

cleared_twice :
    (b x : Bool) → (if b then false else (if b then false else x)) ≡ (if b then false else x)
cleared_twice true x = refl
cleared_twice false x = refl

-- A group after DisablePlan, whose bit EnDisPlan then clears once more.
pub proc_en_dis_plan_twice :
    (id : ℕ) (g : Group) (t : Table)
    → proc_en_dis_plan id false (record (proc_en_dis_plan id false g) { pln_min = t })
      ≡ record (proc_en_dis_plan id false g) { pln_min = t }
unfolding proc_en_dis_plan
proc_en_dis_plan_twice id g t = elim (Bool-cases (id == 0)) [
  | inl zero_id ↦ rw zero_id refl
  | inr nonzero ↦
      rw nonzero
        (λ j. record g { pln_min = t; enabled = λ i. cleared_twice (i == id) (g.enabled i) j })
]

module _ (u : UciPln) (clocks : AllClocks u) (id : ℕ) (some_id : id ≢ 0)
    (defined : is_pln_defined u id ≡ true) (g : Group) (idle : is_plan_active g id ≡ false)
    (before : Consistent u g) where
  enable-Consistent :
      (g' : Group) × (r : AppError) × (en_dis_plan u id true g ≡ some (r, g')) × Consistent u g'
  enable-Consistent =
      let (pln, found) = get_pln-defined u id defined in
      rw (en_dis_plan-defined u id true g idle some_id defined)
        (elim (enable-cases u clocks id some_id g pln found) [
          | inl (run, on) ↦ (g, plan_enabled, rw run refl, before)
          | inr (inl (m, run, off, inside, full)) ↦ (g, overlays_not_supported, rw run refl, before)
          | inr (inr (t', run, off, free, painted)) ↦ (
            proc_en_dis_plan id true (record g { pln_min = t' }),
            app_no_error,
            rw run refl,
            enabled-Consistent u clocks id some_id g t' off free painted before,
          )
        ])

  disable-Consistent :
      (g' : Group) × (r : AppError) × (en_dis_plan u id false g ≡ some (r, g')) × Consistent u g'
  disable-Consistent =
      let (pln, found) = get_pln-defined u id defined in
      rw (en_dis_plan-defined u id false g idle some_id defined)
        (elim (disable-cases u clocks id some_id g pln found) [
          | inl (run, off) ↦ (g, plan_not_enabled, rw run refl, before)
          | inr (t', run, on, painted) ↦ (
            record (proc_en_dis_plan id false g) { pln_min = t' },
            app_no_error,
            rw run (ap (λ x. some (app_no_error, x)) (proc_en_dis_plan_twice id g t')),
            disabled-Consistent u clocks id some_id g t' on painted before,
          )
        ])

  en_dis_plan-either :
      (endis : Bool)
      → (g' : Group) × (r : AppError) × (en_dis_plan u id endis g ≡ some (r, g')) × Consistent u g'
  en_dis_plan-either true = enable-Consistent
  en_dis_plan-either false = disable-Consistent

-- In a table of plans with proper times, EnDisPlan always returns, whatever the plan and the group;
-- and where the table of minutes said exactly what the enabled plans say, it does so afterwards.
pub en_dis_plan-Consistent :
    (u : UciPln) (id : ℕ) (endis : Bool) (g : Group)
    → AllClocks u
    → Consistent u g
    → (g' : Group) × (r : AppError) × (en_dis_plan u id endis g ≡ some (r, g')) × Consistent u g'
unfolding en_dis_plan
en_dis_plan-Consistent u id endis g clocks before = elim (Bool-cases (is_plan_active g id)) [
  | inl active ↦ (g, frm_msg_pln_active, rw active refl, before)
  | inr idle ↦ elim (Bool-cases (id == 0)) [
    | inl zero_id ↦ (
      proc_en_dis_plan id endis (record g { pln_min = λ m. empty_minute }),
      app_no_error,
      rw (idle, zero_id) refl,
      let same : id ≡ 0 = ground arith in rw same (cleared-Consistent u endis g),
    )
    | inr nonzero ↦ elim (Bool-cases (is_pln_defined u id)) [
      | inr undefined ↦ (g, frm_msg_pln_undefined, rw (idle, nonzero, undefined) refl, before)
      | inl defined ↦ en_dis_plan-either u clocks id (ground arith) defined g idle before endis
    ]
  ]
]

code_of : Option (AppError × Group) → ℕ
code_of none = 256
code_of (some (r, g)) = AppError.code r

accepted-overlap :
    (g g' : Group)
    → ¬ (
        ◌≡◌ {A = Option (AppError × Group)}
          (some (app_no_error, g))
          (some (overlays_not_supported, g')))
unfolding code_of AppError.code
accepted-overlap g g' h = let codes = ap code_of h in absurd (ground arith)

-- EnDisPlan refuses to enable a plan that is defined, not enabled and not on display with
-- OverlaysNotSupported exactly if one of its minutes is taken.
pub en_dis_plan-overlap :
    (u : UciPln) (id : ℕ) (g : Group)
    → AllClocks u
    → id ≢ 0
    → is_pln_defined u id ≡ true
    → is_plan_active g id ≡ false
    → g.enabled id ≡ false
    → (en_dis_plan u id true g ≡ some (overlays_not_supported, g))
      ↔ ((m : ℕ) × (owns (get_pln u id) m ≡ true) × ((g.pln_min m).pln_id ≢ 0))
en_dis_plan-overlap u id g clocks some_id defined idle off =
    let (pln, found) = get_pln-defined u id defined in
    rw (en_dis_plan-defined u id true g idle some_id defined)
      (elim (enable-cases u clocks id some_id g pln found) [
        | inl (run, on) ↦ absurd (ground arith)
        | inr (inl (m, run, o, inside, full)) ↦ (λ h. (m, inside, full), λ h. rw run refl)
        | inr (inr (t', run, o, free, painted)) ↦ (
          λ h. absurd (accepted-overlap _ _ (rw run at h)),
          λ (m, inside, full). absurd (full (free m inside)),
        )
      ])
