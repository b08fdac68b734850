-- ===== src/Sign/Display/Inputs.antt =====
-- DispExt and DispNext of src/sign/Group.cpp, and all that can happen to what is displayed.
use gc.Common.{
  ℕ, ◌≤◌, ◌≡◌, ◌⊎◌, refl, Bool, true, ◌&&◌, ◌||◌, not, arith, ◌==◌, Bool-cases, inl, inr, ltb, leb,
  ◌*◌, ◌-◌,
}
use gc.Module.BootTimer.{Timespec, set_ms}
use gc.Sign.Display.{
  is_auto, ext, Display, FsState, ExtInput, is_ext, fmpid0, set_disp, disp_next, next_ext, disp_ext,
  may_override,
}
use gc.Sign.Display.Loading.{IsValid, fmpid0-set}

module _ (ext_input_cfg : ℕ → ExtInput) (is_msg_flashing is_frm_flashing : ℕ → Bool)
    (now : Timespec) where
  -- An external input leaves all as it is, restarts the time of the one displayed, or waits.
  pub next_ext-cases :
      (id : ℕ) (d : Display)
      → (next_ext ext_input_cfg is_msg_flashing is_frm_flashing now id d ≡ d)
        ⊎ (((t : Timespec) × (next_ext ext_input_cfg is_msg_flashing is_frm_flashing now id d
                ≡ record d { ext_disp_tmr = t }))
            ⊎ ((t : Timespec) × (3 ≤ id)
                × (id ≤ 6)
                × (next_ext ext_input_cfg is_msg_flashing is_frm_flashing now id d
                    ≡ record d { ext_disp_tmr = t; ds_ext = set_disp d.ds_ext ext id })))
  next_ext-cases id d =
      let time = (ext_input_cfg (id - 3)).disp_time * 100 in
      elim (Bool-cases (leb 3 id && leb id 6)) [
        | inr out ↦ inl (rw out refl)
        | inl within ↦ elim (Bool-cases (time == 0)) [
          | inl off ↦ inl (rw (within, off) refl)
          | inr timed ↦
              elim (Bool-cases (is_ext d.ds_current.disp_type && (fmpid0 d.ds_current == id))) [
                | inl same ↦ inr (inl (set_ms now time, rw (within, timed, same) refl))
                | inr other ↦
                    elim (Bool-cases (
                      may_override ext_input_cfg is_msg_flashing is_frm_flashing now
                        (ext_input_cfg (id - 3)) d)) [
                          | inr stopped ↦ inl (rw (within, timed, other, stopped) refl)
                          | inl passed ↦ inr (
                              inr (
                                set_ms now time,
                                ground arith,
                                ground arith,
                                rw (within, timed, other, passed) refl,
                              ))
                        ]
              ]
        ]
      ]

  -- An external input that waits is still there after DispExt, or one of a lower or the same number.
  pub disp_ext-waits :
      (signs : ℕ) (power_on : Bool) (fs : FsState) (x : ℕ) (d : Display)
      → IsValid signs d
      → is_ext d.ds_ext.disp_type ≡ true
      → let d' = (disp_ext ext_input_cfg is_msg_flashing is_frm_flashing now power_on fs x d).1 in
        (is_ext d'.ds_ext.disp_type ≡ true) × (fmpid0 d'.ds_ext ≤ fmpid0 d.ds_ext)
  unfolding disp_ext disp_next
  disp_ext-waits signs power_on fs x d v e =
      let allowed =
        power_on
        && (is_auto fs
            && ((leb 3 x && leb x 6)
                && not (
                    (is_ext d.ds_current.disp_type && ltb (fmpid0 d.ds_current) x)
                    || (is_ext d.ds_ext.disp_type && ltb (fmpid0 d.ds_ext) x)))) in
      elim (Bool-cases allowed) [
        | inr stopped ↦ rw stopped (e, omega arith)
        | inl passed ↦
            let lower : x ≤ fmpid0 d.ds_ext = ground arith in
            rw passed (elim (next_ext-cases x d) [
              | inl same ↦ rw same (e, omega arith)
              | inr (inl (t, same)) ↦ rw same (e, omega arith)
              | inr (inr (t, low, high, put)) ↦
                  rw put (
                    refl,
                    rw (fmpid0-set d.ds_ext.fmpid x (omega (arith, v.some_sign, v.ext))) lower,
                  )
            ])
      ]
