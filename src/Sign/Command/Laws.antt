-- ===== src/Sign/Command/Laws.antt =====
-- When DispFrm and DispMsg of src/sign/Group.cpp accept a command.
use gc.Common.{
  ℕ, ◌≡◌, ◌≢◌, ◌⊎◌, refl, ap, ◌∙◌, Bool, true, false, ◌||◌, not, List, [], ◌∷◌, ◌==◌, if◌then◌else◌,
  arith, Bool-cases, inl, inr, sym, some, get_elem?, set, zero, suc,
}
use gc.Module.Debounce.{Value, s5_1, s5_r, is_high}
use gc.Tsisp003.Mi
use gc.Tsisp003.AppError.{
  AppError, app_no_error, power_is_off, facility_switch_override, mi_not_supported, syntax_error,
}
use gc.Sign.Display.{
  FsState, fs_auto, DispStatus, frm, msg, Display, is_auto, set_disp, next_command,
}
use gc.Sign.Power.{PwrState, pwr_off, is_off}
use gc.Sign.Command.{
  Group, disp_chk, rejected, disp_frm, disp_msg, if_accepted, proc_disp, set_disp_mode,
}

-- The first thing that forbids a display: power off, facility switch not on AUTO, fatal error, in this order.
pub verdict : Group → AppError
verdict g =
    if is_off g.power.main_pwr || is_off g.power.cmd_pwr
    then power_is_off
    else (if not (is_auto g.fs)
        then facility_switch_override
        else (if is_high g.display.fatal_error then mi_not_supported else app_no_error))

disp_chk-verdict : (g : Group) → disp_chk g 0xFF ≡ verdict g
unfolding disp_chk verdict
disp_chk-verdict g = refl

refused :
    (r : AppError) (g : Group) (res : AppError × Group)
    → r ≢ app_no_error
    → if_accepted r g res ≡ (r, g)
refused app_no_error g res h = absurd (h refl)
refused _ g res h = refl

-- The first test of a command.
checked : Group → ℕ → AppError
checked g id = if id == 0 then app_no_error else disp_chk g 0xFF

checked-refused : (g : Group) (id : ℕ) → id ≢ 0 → checked g id ≡ verdict g
unfolding checked
checked-refused g id h =
    let nonzero : (id == 0) ≡ false = ground arith in rw nonzero (disp_chk-verdict g)

checked-passed :
    (g : Group) (id : ℕ) → (id ≡ 0) ⊎ (verdict g ≡ app_no_error) → checked g id ≡ app_no_error
unfolding checked
checked-passed g id (inl h) = rw h refl
checked-passed g id (inr h) = elim (Bool-cases (id == 0)) [
  | inl e ↦ rw e refl
  | inr e ↦ rw e (disp_chk-verdict g ∙ h)
]

display-logged :
    (test_frame log : Bool) (cmd : List ℕ) (g : Group)
    → (set_disp_mode test_frame 0 (if log then proc_disp cmd g else g)).display ≡ g.display
display-logged test_frame true cmd g = refl
display-logged test_frame false cmd g = refl

-- The ways that DispFrm ends.
disp_frm_cases :
    (test_frame : Bool) (id : ℕ) (log : Bool) (g : Group)
    → let res = disp_frm test_frame id log g in
      (id ≢ 0 → verdict g ≢ app_no_error → res ≡ (verdict g, g))
      × ((id ≡ 0) ⊎ (verdict g ≡ app_no_error)
          → rejected g.reject_frms id ≡ true
          → res ≡ (syntax_error, g))
      × ((id ≡ 0) ⊎ (verdict g ≡ app_no_error)
          → rejected g.reject_frms id ≡ false
          → (res.0 ≡ app_no_error) × (res.1.display.ds_next ≡ set_disp g.display.ds_next frm id))
unfolding disp_frm checked
disp_frm_cases test_frame id log g = (
  λ some_id bad. rw (checked-refused g id some_id) (refused (verdict g) g _ bad),
  λ ok rej. rw (checked-passed g id ok, rej) refl,
  λ ok fine.
      rw (checked-passed g id ok, fine)
        (
          refl,
          ap (λ (d : Display). set_disp d.ds_next frm id)
              (display-logged test_frame log (Mi.sign_display_frame ∷ g.group_id ∷ id ∷ []) g),
        ),
)

-- The power that the controller or a command has cut.
abbrev pub IsUnpowered : Group → Type 0
IsUnpowered g = (g.power.main_pwr ≡ pwr_off) ⊎ (g.power.cmd_pwr ≡ pwr_off)

abbrev pub IsFatal : Group → Type 0
IsFatal g = (g.display.fatal_error ≡ s5_1) ⊎ (g.display.fatal_error ≡ s5_r)

-- Nothing stands against a display.
abbrev pub IsFree : Group → Type 0
IsFree g = ¬ (IsUnpowered g) × (g.fs ≡ fs_auto) × ¬ (IsFatal g)

verdict-unpowered : (g : Group) → IsUnpowered g → verdict g ≡ power_is_off
unfolding verdict
verdict-unpowered g (inl h) = rw h refl
verdict-unpowered g (inr h) = elim (Bool-cases (is_off g.power.main_pwr)) [
  | inl e ↦ rw e refl
  | inr e ↦ rw (e, h) refl
]

is_off-false : (p : PwrState) → p ≢ pwr_off → is_off p ≡ false
is_off-false pwr_off h = absurd (h refl)
is_off-false _ h = refl

is_auto-false : (fs : FsState) → fs ≢ fs_auto → is_auto fs ≡ false
is_auto-false fs_auto h = absurd (h refl)
is_auto-false _ h = refl

is_high-false : (v : Value) → ¬ ((v ≡ s5_1) ⊎ (v ≡ s5_r)) → is_high v ≡ false
unfolding is_high
is_high-false s5_1 h = absurd (h (inl refl))
is_high-false s5_r h = absurd (h (inr refl))
is_high-false _ h = refl

powered :
    (g : Group) → ¬ (IsUnpowered g) → (is_off g.power.main_pwr || is_off g.power.cmd_pwr) ≡ false
powered g h =
    let main = is_off-false g.power.main_pwr (λ e. h (inl e)) in
    let cmd = is_off-false g.power.cmd_pwr (λ e. h (inr e)) in rw (main, cmd) refl

verdict-switched :
    (g : Group) → ¬ (IsUnpowered g) → g.fs ≢ fs_auto → verdict g ≡ facility_switch_override
unfolding verdict
verdict-switched g on h = rw (powered g on, is_auto-false g.fs h) refl

verdict-fatal :
    (g : Group) → ¬ (IsUnpowered g) → g.fs ≡ fs_auto → IsFatal g → verdict g ≡ mi_not_supported
unfolding is_high verdict
verdict-fatal g on auto (inl h) = rw (powered g on, auto, h) refl
verdict-fatal g on auto (inr h) = rw (powered g on, auto, h) refl

verdict-free : (g : Group) → IsFree g → verdict g ≡ app_no_error
unfolding verdict
verdict-free g (on, auto, fine) =
    rw (powered g on, auto, is_high-false g.display.fatal_error fine) refl

rejected-some :
    (signs : List (ℕ → Bool)) (id i : ℕ) (bits : ℕ → Bool)
    → get_elem? signs i ≡ some bits
    → bits id ≡ true
    → rejected signs id ≡ true
unfolding rejected
rejected-some [] id i bits at h = absurd (cc)
rejected-some (s ∷ signs) id zero bits at h = ground (arith, at, h)
rejected-some (s ∷ signs) id (suc i) bits at h = ground (arith, rejected-some signs id i bits at h)

rejected-none :
    (signs : List (ℕ → Bool)) (id : ℕ)
    → ((i : ℕ) (bits : ℕ → Bool) → get_elem? signs i ≡ some bits → bits id ≡ false)
    → rejected signs id ≡ false
unfolding rejected
rejected-none [] id h = refl
rejected-none (s ∷ signs) id h =
    rw (h 0 s refl) (rejected-none signs id (λ i bits at. h (suc i) bits at))

passes : (g : Group) (id : ℕ) → (id ≡ 0) ⊎ IsFree g → (id ≡ 0) ⊎ (verdict g ≡ app_no_error)
passes g id (inl z) = inl z
passes g id (inr f) = inr (verdict-free g f)

-- A frame other than frame 0 is refused with power off, else with the facility switch not on AUTO, else
-- at a fatal error, each with an error of its own. Where none of these holds, and for frame 0 always,
-- it is refused if a sign of the group rejects it, and otherwise it waits to be displayed next. A frame
-- that is refused changes nothing.
pub disp_frm_lem :
    (test_frame : Bool) (id : ℕ) (log : Bool) (g : Group)
    → let res = disp_frm test_frame id log g in
      (id ≢ 0 → IsUnpowered g → res ≡ (power_is_off, g))
      × (id ≢ 0 → ¬ (IsUnpowered g) → g.fs ≢ fs_auto → res ≡ (facility_switch_override, g))
      × (id ≢ 0 → ¬ (IsUnpowered g) → g.fs ≡ fs_auto → IsFatal g → res ≡ (mi_not_supported, g))
      × ((id ≡ 0) ⊎ IsFree g
          → (i : ℕ) (bits : ℕ → Bool) → get_elem? g.reject_frms i ≡ some bits
          → bits id ≡ true
          → res ≡ (syntax_error, g))
      × ((id ≡ 0) ⊎ IsFree g
          → ((i : ℕ) (bits : ℕ → Bool) → get_elem? g.reject_frms i ≡ some bits → bits id ≡ false)
          → (res.0 ≡ app_no_error)
            × (res.1.display.ds_next.disp_type ≡ frm)
            × (res.1.display.ds_next.fmpid ≡ set g.display.ds_next.fmpid 0 id))
disp_frm_lem test_frame id log g =
    let (refuse, by_sign, waits) = disp_frm_cases test_frame id log g in
    let refused_with : (e : AppError)
        → id ≢ 0
        → verdict g ≡ e
        → e ≢ app_no_error
        → disp_frm test_frame id log g ≡ (e, g) =
      λ e some_id v bad. rw (sym v) (refuse some_id (λ h. bad (sym v ∙ h))) in
    (
      λ some_id off.
          refused_with power_is_off some_id (verdict-unpowered g off) (λ h. ground arith),
      λ some_id on fs.
          refused_with facility_switch_override some_id (verdict-switched g on fs)
            (λ h. ground arith),
      λ some_id on fs fatal.
          refused_with mi_not_supported some_id (verdict-fatal g on fs fatal) (λ h. ground arith),
      λ free i bits at h. by_sign (passes g id free) (rejected-some g.reject_frms id i bits at h),
      λ free none_rejects.
          let (answer, next) =
            waits (passes g id free) (rejected-none g.reject_frms id none_rejects) in
          (
            answer,
            ap (λ (s : DispStatus). s.disp_type) next,
            ap (λ (s : DispStatus). s.fmpid) next,
          ),
    )

-- A message other than message 0 is refused with the first of power off, facility switch, fatal error
-- that holds, and changes nothing then; else, and for message 0 always, it waits to be displayed next.
pub disp_msg_lem :
    (test_frame : Bool) (id : ℕ) (log : Bool) (g : Group)
    → let res = disp_msg test_frame id log g in
      (id ≢ 0 → verdict g ≢ app_no_error → res ≡ (verdict g, g))
      × ((id ≡ 0) ⊎ (verdict g ≡ app_no_error)
          → (res.0 ≡ app_no_error) × (res.1.display.ds_next ≡ set_disp g.display.ds_next msg id))
unfolding disp_msg checked
disp_msg_lem test_frame id log g = (
  λ some_id bad. rw (checked-refused g id some_id) (refused (verdict g) g _ bad),
  λ ok. rw (checked-passed g id ok) (
    refl,
    ap (λ (d : Display). d.ds_next)
        (display-logged test_frame log (Mi.sign_display_message ∷ g.group_id ∷ id ∷ [])
          (record g { display = next_command msg id g.display })),
  ),
)
