-- ===== src/Sign/Schedule/Restore.antt =====
-- A plan that is enabled and disabled again, in src/sign/Group.cpp.
use gc.Common.{
  ℕ, ◌≡◌, ◌≢◌, refl, sym, ap, ◌∙◌, Bool, true, false, some, arith, Bool-cases, inl, inr, ◌==◌,
}
use gc.Tsisp003.AppError.{app_no_error}
use gc.Uci.UciPln.{UciPln, is_pln_defined}
use gc.Sign.Schedule.{Group, PlnMinute, get_pln, proc_en_dis_plan, is_plan_active, en_dis_plan}
use gc.Sign.Schedule.Span.{same_test}
use gc.Sign.Schedule.Week.{Painted}
use gc.Sign.Schedule.Steps.{
  owns, AllClocks, enable-cases, disable-cases, enabled-enable, pln_min-proc, Consistent,
}
use gc.Sign.Schedule.Laws.{get_pln-defined, en_dis_plan-defined, proc_en_dis_plan_twice}

is_plan_active-proc :
    (id i : ℕ) (b : Bool) (g : Group)
    → is_plan_active (proc_en_dis_plan id b g) i ≡ is_plan_active g i
unfolding is_plan_active proc_en_dis_plan
is_plan_active-proc id i b g = elim (Bool-cases (id == 0)) [ inl e ↦ rw e refl | inr e ↦ rw e refl ]

-- A plan that is defined, not enabled and not on display, and whose minutes are free, can be enabled
-- and then disabled. In between its minutes hold its id and all others are as before; at the end
-- each minute belongs to the plan that it belonged to at first.
pub en_dis_plan-restores :
    (u : UciPln) (id : ℕ) (g : Group)
    → AllClocks u
    → id ≢ 0
    → is_pln_defined u id ≡ true
    → is_plan_active g id ≡ false
    → g.enabled id ≡ false
    → ((m : ℕ) → owns (get_pln u id) m ≡ true → (g.pln_min m).pln_id ≡ 0)
    → (g1 : Group) × (g2 : Group) × (en_dis_plan u id true g ≡ some (app_no_error, g1))
      × (en_dis_plan u id false g1 ≡ some (app_no_error, g2))
      × ((m : ℕ) → owns (get_pln u id) m ≡ true → (g1.pln_min m).pln_id ≡ id)
      × ((m : ℕ) → owns (get_pln u id) m ≡ false → g1.pln_min m ≡ g.pln_min m)
      × ((m : ℕ) → (g2.pln_min m).pln_id ≡ (g.pln_min m).pln_id)
unfolding Painted is_plan_active
en_dis_plan-restores u id g clocks some_id defined idle off free =
    let (pln, found) = get_pln-defined u id defined in
    elim (enable-cases u clocks id some_id g pln found) [
      | inl (run, on) ↦ absurd (ground arith)
      | inr (inl (m, run, o, inside, full)) ↦ absurd (full (free m inside))
      | inr (inr (t1, run1, o, f, painted1)) ↦
          let g1 : Group = proc_en_dis_plan id true (record g { pln_min = t1 }) in
          elim (disable-cases u clocks id some_id g1 pln found) [
            | inl (run2, off2) ↦
                let now_on : g1.enabled id ≡ true =
                  rw (enabled-enable id id (record g { pln_min = t1 }) some_id, same_test id)
                    refl in
                absurd (ground arith)
            | inr (t2, run2, on, painted2) ↦ (
              g1,
              record (proc_en_dis_plan id false g1) { pln_min = t2 },
              rw (en_dis_plan-defined u id true g idle some_id defined, run1) refl,
              rw
                  (
                    en_dis_plan-defined u id false g1
                        (is_plan_active-proc id id true (record g { pln_min = t1 }) ∙ idle) some_id
                        defined,
                    run2,
                  )
                  (ap (λ x. some (app_no_error, x)) (proc_en_dis_plan_twice id g1 t2)),
              λ m h. rw (pln_min-proc id true (record g { pln_min = t1 })) ((painted1 m).0 h),
              λ m h. rw (pln_min-proc id true (record g { pln_min = t1 })) ((painted1 m).1 h),
              λ m. elim (Bool-cases (owns (get_pln u id) m)) [
                | inl h ↦ (painted2 m).0 h ∙ sym (free m h)
                | inr h ↦
                    ap (λ (x : PlnMinute). x.pln_id)
                      (rw (pln_min-proc id true (record g { pln_min = t1 })) at ((painted2 m).1 h)
                        ∙ (painted1 m).1 h)
              ],
            )
          ]
    ]

-- While the table of minutes says what the enabled plans say, no two enabled plans share a minute.
pub owns-enabled :
    (u : UciPln) (g : Group) (a b m : ℕ)
    → a ≢ 0
    → b ≢ 0
    → Consistent u g
    → g.enabled a ≡ true
    → g.enabled b ≡ true
    → owns (get_pln u a) m ≡ true
    → owns (get_pln u b) m ≡ true
    → a ≡ b
unfolding Consistent
owns-enabled u g a b m some_a some_b consistent on_a on_b in_a in_b =
    sym ((consistent a m some_a).1 (on_a, in_a)) ∙ (consistent b m some_b).1 (on_b, in_b)
