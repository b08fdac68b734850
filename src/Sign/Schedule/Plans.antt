-- ===== src/Sign/Schedule/Plans.antt =====
-- The table of plans of src/uci/UciPln.cpp, as the schedule of src/sign/Group.cpp reads it.
use gc.Common.{
  ℕ, zero, suc, ◌-◌, ◌≡◌, ◌⊎◌, inl, inr, refl, sym, ap, subst, ◌∙◌, Bool, true, none, some, List,
  [], ◌∷◌, arith, get_or, set, take, Bool-cases, replicate,
}
use gc.Tsisp003.Memory.{Memory}
use gc.Tsisp003.AppError.{AppError, app_no_error}
use gc.Tsisp003.Plan
use gc.Tsisp003.Plan.{Plan}
use gc.Tsisp003.Plan.Overlap.{AllTimed}
use gc.Tsisp003.Plan.Slots.{AllTimed-take}
use gc.Tsisp003.Plan.Laws.{init-IsValid_plan}
use gc.Uci.UciPln.{UciPln, is_pln_defined, store, keep_if_accepted, set_pln, empty}
use gc.Sign.Schedule.{get_pln}
use gc.Sign.Schedule.Steps.{AllClocks}

get_or-set_cases :
    (ms : List Plan) (i j : ℕ) (m d : Plan)
    → (get_or (set ms i m) j d ≡ m) ⊎ (get_or (set ms i m) j d ≡ get_or ms j d)
get_or-set_cases [] i j m d = inr refl
get_or-set_cases (x ∷ ms) zero zero m d = inl refl
get_or-set_cases (x ∷ ms) zero (suc j) m d = inr refl
get_or-set_cases (x ∷ ms) (suc i) zero m d = inr refl
get_or-set_cases (x ∷ ms) (suc i) (suc j) m d = get_or-set_cases ms i j m d

-- Whatever plan the table gives, it is the one at its place, which is defined.
get_pln-found :
    (u : UciPln) (id : ℕ) (pln : Plan)
    → get_pln u id ≡ some pln
    → (get_or u.plns (id - 1) Plan.blank ≡ pln) × (is_pln_defined u id ≡ true)
unfolding get_pln
get_pln-found u id pln h = elim (Bool-cases (is_pln_defined u id)) [
  | inl e ↦ (
    let found : some (get_or u.plns (id - 1) Plan.blank) ≡ some pln = rw e at h in
        ap (λ o. elim o [ none ↦ pln | some q ↦ q ]) found,
    e,
  )
  | inr e ↦ absurd (let lost : none ≡ some pln = rw e at h in ground arith)
]

store-AllClocks :
    (m : Plan) (u : UciPln)
    → AllTimed (take m.entries m.pln_entries)
    → AllClocks u
    → AllClocks (store m u)
unfolding AllClocks store get_pln is_pln_defined
store-AllClocks m u timed clocks id pln h =
    let (same, defined) = get_pln-found (store m u) id pln h in
    elim (get_or-set_cases u.plns (m.pln_id - 1) (id - 1) m Plan.blank) [
      | inl e ↦ subst (λ (p : Plan). AllTimed (take p.entries p.pln_entries)) (sym e ∙ same) timed
      | inr e ↦
          let before : is_pln_defined u id ≡ true = rw e at defined in
          clocks id pln (rw before (ap some (sym e ∙ same)))
    ]

get_or-replicate : (n j : ℕ) (d : Plan) → get_or (replicate n d) j d ≡ d
get_or-replicate zero j d = refl
get_or-replicate (suc n) zero d = refl
get_or-replicate (suc n) (suc j) d = get_or-replicate n j d

-- With the table as the constructor leaves it and after each SetPln, accepted or not, every plan that
-- the table gives has the times of day that the schedule relies on.
pub empty-AllClocks : AllClocks empty
unfolding AllClocks is_pln_defined
empty-AllClocks id pln h =
    let (same, defined) = get_pln-found empty id pln h in
    let blank : get_or empty.plns (id - 1) Plan.blank ≡ Plan.blank =
      get_or-replicate 255 (id - 1) Plan.blank in
    absurd (ground (arith, ap (λ (p : Plan). p.micode) blank))

kept-AllClocks :
    (is_frm_defined is_msg_defined : ℕ → Bool) (buf : Memory) (len : ℕ) (u : UciPln) (r : AppError)
    (m : Plan)
    → Plan.init is_frm_defined is_msg_defined buf len Plan.blank ≡ (r, m)
    → AllClocks u
    → AllClocks (keep_if_accepted u r m)
kept-AllClocks frms msgs buf len u app_no_error m e clocks =
    let (valid, few, sized) = init-IsValid_plan frms msgs buf len Plan.blank m refl e in
    store-AllClocks m u (AllTimed-take m.entries m.pln_entries valid.ended) clocks
kept-AllClocks frms msgs buf len u _ m e clocks = clocks

pub set_pln-AllClocks :
    (is_frm_defined is_msg_defined : ℕ → Bool) (buf : Memory) (len : ℕ) (u : UciPln)
    → AllClocks u
    → AllClocks (set_pln is_frm_defined is_msg_defined buf len u).1
unfolding set_pln
set_pln-AllClocks frms msgs buf len u clocks = kept-AllClocks frms msgs buf len u _ _ refl clocks
