-- ===== src/Sign/Display/Keeps.antt =====
-- The invariant of what a group displays, through the functions of src/sign/Group.cpp.
use gc.Common.{
  ℕ, ◌≡◌, ◌∙◌, refl, Bool, true, false, ◌&&◌, ◌||◌, arith, ◌==◌, if◌then◌else◌, length, length-set,
  Bool-cases, inl, inr,
}
use gc.Module.BootTimer.{Timespec, is_expired}
use gc.Module.BootTimer
use gc.Module.Debounce.{is_low, set_value, clr_value}
use gc.Sign.Display.{
  DispType, ext, DispStatus, Display, FsState, ExtInput, is_n_a, is_frm, is_msg, is_ext, is_fsw,
  fmpid0, clone, disp_next, disp_ext, disp_backup, load_ds_next, mark_loaded, load_ready,
  load_waiting, load_default, activate_plan, normal_fatal, normal_load, end_ext,
  is_ds_next_emergency, is_rising, is_falling,
}
use gc.Sign.Display.Loading.{IsValid, fmpid0-set, length-copy_ids}
use gc.Sign.Display.Inputs.{next_ext-cases}

-- The invariant needs only the lengths of what is stored, where nothing comes to wait at `ds_ext`.
pub restored :
    (signs : ℕ) (d d' : Display)
    → IsValid signs d
    → length d'.ds_bak.fmpid ≡ signs
    → length d'.ds_current.fmpid ≡ signs
    → length d'.ds_next.fmpid ≡ signs
    → d'.ds_ext ≡ d.ds_ext
    → IsValid signs d'
restored signs d d' v bak current next same = record {
  some_sign = v.some_sign;
  bak = bak;
  current = current;
  next = next;
  ext = rw same v.ext;
  waits = rw same v.waits;
  number = rw same v.number;
}

disp_backup-IsValid : (signs : ℕ) (d : Display) → IsValid signs d → IsValid signs (disp_backup d)
disp_backup-IsValid signs d v = elim (Bool-cases (is_n_a d.ds_next.disp_type)) [
  | inl e ↦ rw e (
      restored signs d _ v (length-set _ _ _ ∙ v.bak) v.current (length-copy_ids _ _ ∙ v.next) refl)
  | inr e ↦ rw e v
]

load_waiting-IsValid :
    (signs : ℕ) (d : Display) → IsValid signs d → IsValid signs (load_waiting d).1
unfolding load_waiting
load_waiting-IsValid signs d v = elim (Bool-cases (is_fsw d.ds_next.disp_type)) [
  | inl f ↦ rw f (
      restored signs d _ v (length-set _ _ _ ∙ v.bak) (length-copy_ids _ _ ∙ v.current)
        (length-set _ _ _ ∙ v.next) refl)
  | inr f ↦ elim (Bool-cases (is_ext d.ds_ext.disp_type)) [
    | inl e ↦
        rw (f, e)
          (record {
            some_sign = v.some_sign;
            bak = length-copy_ids _ _ ∙ v.bak;
            current = length-copy_ids _ _ ∙ v.current;
            next = v.next;
            ext = length-set _ _ _ ∙ v.ext;
            waits = refl;
            number = λ h. absurd (ground arith);
          })
    | inr e ↦ elim (Bool-cases (is_n_a d.ds_next.disp_type)) [
      | inl n ↦ rw (f, e, n) v
      | inr n ↦
          rw (f, e, n)
            (restored signs d _ v (length-copy_ids _ _ ∙ v.bak) (length-copy_ids _ _ ∙ v.current)
              (length-set _ _ _ ∙ v.next) refl)
    ]
  ]
]

load_default-IsValid :
    (signs : ℕ) (rd : Bool × Display) → IsValid signs rd.1 → IsValid signs (load_default rd).1
unfolding load_default
load_default-IsValid signs (r, d) v = elim (Bool-cases (is_n_a d.ds_current.disp_type)) [
  | inl e ↦
      rw e
        (restored signs d _ v (length-set _ _ _ ∙ v.bak) (length-set _ _ _ ∙ v.current) v.next refl)
  | inr e ↦ rw e v
]

activate_plan-IsValid :
    (signs : ℕ) (rd : Bool × Display) → IsValid signs rd.1 → IsValid signs (activate_plan rd).1
unfolding activate_plan
activate_plan-IsValid signs (r, d) v =
    elim (Bool-cases (
      (fmpid0 d.ds_current == 0)
      && (is_frm d.ds_current.disp_type || is_msg d.ds_current.disp_type))) [
        | inl e ↦ rw e (restored signs d _ v v.bak v.current v.next refl)
        | inr e ↦ rw e v
      ]

load_ds_next-IsValid :
    (signs : ℕ) (d : Display) → IsValid signs d → IsValid signs (load_ds_next d).1
unfolding load_ds_next
load_ds_next-IsValid signs d v =
    activate_plan-IsValid signs (load_default (load_waiting d))
      (load_default-IsValid signs (load_waiting d) (load_waiting-IsValid signs d v))

-- The members that are no status do not matter.
pub flagged :
    (signs : ℕ) (d d' : Display)
    → IsValid signs d
    → d'.ds_bak ≡ d.ds_bak
    → d'.ds_current ≡ d.ds_current
    → d'.ds_next ≡ d.ds_next
    → d'.ds_ext ≡ d.ds_ext
    → IsValid signs d'
flagged signs d d' v b c n e = restored signs d d' v (rw b v.bak) (rw c v.current) (rw n v.next) e

bak-length :
    (signs : ℕ) (d : Display) (b : Bool) (s : DispStatus)
    → IsValid signs d
    → length (if b then clone d.ds_bak s else d.ds_bak).fmpid ≡ signs
bak-length signs d true s v = length-copy_ids _ _ ∙ v.bak
bak-length signs d false s v = v.bak

pub normal_fatal-IsValid :
    (signs : ℕ) (fatal : Bool) (d : Display)
    → IsValid signs d
    → IsValid signs (normal_fatal fatal d)
unfolding normal_fatal
normal_fatal-IsValid signs fatal d v =
    let value = if fatal then set_value d.fatal_error else clr_value d.fatal_error in
    elim (Bool-cases (is_rising value)) [
      | inl up ↦ rw up (
          restored signs d _ v (bak-length signs d _ _ v) (length-set _ _ _ ∙ v.current)
            (length-set _ _ _ ∙ v.next) refl)
      | inr up ↦ elim (Bool-cases (is_falling value)) [
        | inl down ↦
            let back = disp_backup-IsValid signs d v in
            rw (up, down)
              (restored signs (disp_backup d) _ back back.bak (length-set _ _ _ ∙ back.current)
                back.next refl)
        | inr down ↦ rw (up, down) (flagged signs d _ v refl refl refl refl)
      ]
    ]

mark_loaded-IsValid :
    (signs : ℕ) (rd : Bool × Display) → IsValid signs rd.1 → IsValid signs (mark_loaded rd)
unfolding mark_loaded
mark_loaded-IsValid signs (true, d) v = flagged signs d _ v refl refl refl refl
mark_loaded-IsValid signs (false, d) v = v

module _ (ext_input_cfg : ℕ → ExtInput) (now : Timespec) where
  end_ext-IsValid :
      (signs : ℕ) (d : Display) → IsValid signs d → IsValid signs (end_ext ext_input_cfg now d)
  unfolding end_ext
  end_ext-IsValid signs d v =
      elim (Bool-cases (is_ext d.ds_current.disp_type && is_expired now d.ext_disp_tmr)) [
        | inl e ↦ rw e (
            disp_backup-IsValid signs (record d { ext_disp_tmr = BootTimer.clear })
              (flagged signs d _ v refl refl refl refl))
        | inr e ↦ rw e v
      ]

  load_ready-IsValid :
      (signs : ℕ) (d : Display) → IsValid signs d → IsValid signs (load_ready ext_input_cfg now d)
  unfolding load_ready
  load_ready-IsValid signs d v =
      let start : Display = record d { ready_to_load = true; reload_current = false } in
      let ended = end_ext ext_input_cfg now start in
      mark_loaded-IsValid signs (load_ds_next ended) (
        load_ds_next-IsValid signs ended
          (end_ext-IsValid signs start (flagged signs d start v refl refl refl refl)))

  pub normal_load-IsValid :
      (signs : ℕ) (d : Display) → IsValid signs d → IsValid signs (normal_load ext_input_cfg now d)
  unfolding normal_load
  normal_load-IsValid signs d v = elim (Bool-cases (is_low d.fatal_error)) [
    | inr high ↦ rw high v
    | inl low ↦ elim (Bool-cases (d.ready_to_load || is_ds_next_emergency ext_input_cfg d)) [
      | inr wait ↦ rw (low, wait) v
      | inl go ↦ rw (low, go) (load_ready-IsValid signs d v)
    ]
  ]

either :
    (signs : ℕ) (b : Bool) {x y : Display}
    → IsValid signs x
    → IsValid signs y
    → IsValid signs (let pair : Bool × Display = if b then (true, x) else (false, y) in pair.1)
either signs true v w = v
either signs false v w = w

module _ (ext_input_cfg : ℕ → ExtInput) (is_msg_flashing is_frm_flashing : ℕ → Bool)
    (now : Timespec) where
  pub disp_next-IsValid :
      (signs : ℕ) (type : DispType) (id : ℕ) (d : Display)
      → IsValid signs d
      → IsValid signs (disp_next ext_input_cfg is_msg_flashing is_frm_flashing now type id d)
  unfolding disp_next
  disp_next-IsValid signs ext id d v =
      elim (next_ext-cases ext_input_cfg is_msg_flashing is_frm_flashing now id d) [
        | inl same ↦ rw same v
        | inr (inl (t, same)) ↦ rw same (flagged signs d _ v refl refl refl refl)
        | inr (inr (t, low, high, put)) ↦ rw put (record {
          some_sign = v.some_sign;
          bak = v.bak;
          current = v.current;
          next = v.next;
          ext = length-set _ _ _ ∙ v.ext;
          waits = refl;
          number = λ h.
              rw (fmpid0-set d.ds_ext.fmpid id (omega (arith, v.some_sign, v.ext))) (low, high);
        })
      ]
  disp_next-IsValid signs _ id d v =
      restored signs d _ v v.bak v.current (length-set _ _ _ ∙ v.next) refl

  pub disp_ext-IsValid :
      (signs : ℕ) (power_on : Bool) (fs : FsState) (x : ℕ) (d : Display)
      → IsValid signs d
      → IsValid signs (disp_ext ext_input_cfg is_msg_flashing is_frm_flashing now power_on fs x d).1
  unfolding disp_ext
  disp_ext-IsValid signs power_on fs x d v = either signs _ (disp_next-IsValid signs ext x d v) v
