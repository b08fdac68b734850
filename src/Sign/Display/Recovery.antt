-- ===== src/Sign/Display/Recovery.antt =====
-- What a group displays after a fatal error, and after an external input, in src/sign/Group.cpp.
use gc.Common.{
  ℕ, ◌≡◌, ◌∙◌, refl, ap, Bool, true, false, arith, length, length-set, Bool-cases, inl, inr,
}
use gc.Module.BootTimer.{Timespec, is_expired}
use gc.Module.BootTimer
use gc.Module.Debounce.{is_low, s5_0, s5_1}
use gc.Sign.Display.{
  Display, ExtInput, is_n_a, is_ext, is_fsw, is_blk, set_n_a, set_blk, load_ds_next, normal_fatal,
  normal_load, end_ext, load_ready, mark_loaded,
}
use gc.Sign.Display.Keeps.{restored, flagged}
use gc.Sign.Display.Loading.{IsValid, Settled, clone_all, kinds, planned-other, load_ds_next_cases}

-- LoadDsNext where only a command or the facility switch waits.
load_next :
    (signs : ℕ) (d : Display)
    → IsValid signs d
    → is_ext d.ds_ext.disp_type ≡ false
    → Settled d.ds_next
    → (load_ds_next d).1.ds_current ≡ d.ds_next
load_next signs d v e (some_type, kept) =
    let order = load_ds_next_cases signs d v in
    elim (Bool-cases (is_fsw d.ds_next.disp_type)) [
      | inl f ↦ ap (λ (rd : Bool × Display). rd.1.ds_current) (order.0 f)
      | inr f ↦ ap (λ (rd : Bool × Display). rd.1.ds_current) (order.2 f e some_type) ∙ rw kept refl
    ]

current-mark_loaded : (rd : Bool × Display) → (mark_loaded rd).ds_current ≡ rd.1.ds_current
unfolding mark_loaded
current-mark_loaded (true, d) = refl
current-mark_loaded (false, d) = refl

-- A group without an external input goes blank.
abbrev gone_blank : Display → Display
gone_blank d = record d {
  ds_bak = d.ds_current;
  ds_next = set_n_a d.ds_next;
  ds_current = set_blk d.ds_current;
  reload_current = true;
  fatal_error = s5_1;
}

normal_fatal-rises :
    (signs : ℕ) (d : Display)
    → IsValid signs d
    → d.fatal_error ≡ s5_0
    → is_ext d.ds_current.disp_type ≡ false
    → is_n_a d.ds_next.disp_type ≡ true
    → normal_fatal true d ≡ gone_blank d
unfolding normal_fatal
normal_fatal-rises signs d v fine c n =
    rw (fine, c, n, clone_all d.ds_bak d.ds_current (omega (arith, v.current, v.bak))) refl

-- And it takes back what it kept.
abbrev given_back : Display → Display
given_back d = record d {
  ds_next = d.ds_bak;
  ds_bak = set_n_a d.ds_bak;
  ds_current = set_n_a d.ds_current;
  ready_to_load = true;
  fatal_error = s5_0;
}

normal_fatal-falls :
    (signs : ℕ) (d : Display)
    → length d.ds_bak.fmpid ≡ signs
    → length d.ds_next.fmpid ≡ signs
    → d.fatal_error ≡ s5_1
    → is_n_a d.ds_next.disp_type ≡ true
    → normal_fatal false d ≡ given_back d
unfolding normal_fatal
normal_fatal-falls signs d bak next high n =
    rw (high, n, clone_all d.ds_next d.ds_bak (omega (arith, bak, next))) refl

module _ (ext_input_cfg : ℕ → ExtInput) (now : Timespec) (signs : ℕ) where
  normal_load-ready :
      (d : Display)
      → is_low d.fatal_error ≡ true
      → d.ready_to_load ≡ true
      → normal_load ext_input_cfg now d ≡ load_ready ext_input_cfg now d
  unfolding normal_load
  normal_load-ready d low ready = rw (low, ready) refl

  load_ready-next :
      (d : Display)
      → IsValid signs d
      → is_n_a d.ds_current.disp_type ≡ true
      → is_ext d.ds_ext.disp_type ≡ false
      → Settled d.ds_next
      → (load_ready ext_input_cfg now d).ds_current ≡ d.ds_next
  unfolding load_ready end_ext
  load_ready-next d v c e settled =
      let k = (kinds d.ds_current.disp_type).2 c in
      let start : Display = record d { ready_to_load = true; reload_current = false } in
      rw k.1 (
        current-mark_loaded (load_ds_next start)
        ∙ load_next signs start (flagged signs d start v refl refl refl refl) e settled)

  -- At a fatal error the group goes blank and loads nothing; when the error is gone it displays again
  -- what it displayed before, where that was no external input and nothing waited.
  pub normal_fatal-recovers :
      (d : Display)
      → IsValid signs d
      → d.fatal_error ≡ s5_0
      → is_ext d.ds_current.disp_type ≡ false
      → is_ext d.ds_ext.disp_type ≡ false
      → is_n_a d.ds_next.disp_type ≡ true
      → Settled d.ds_current
      → let blank = normal_fatal true d in
        let again = normal_load ext_input_cfg now (normal_fatal false blank) in
        (is_blk blank.ds_current.disp_type ≡ true)
        × (normal_load ext_input_cfg now blank ≡ blank)
        × (again.ds_current ≡ d.ds_current)
  unfolding normal_load is_low
  normal_fatal-recovers d v fine c e n settled =
      let length_next : length (set_n_a d.ds_next).fmpid ≡ signs = length-set _ _ _ ∙ v.next in
      let back : IsValid signs (given_back (gone_blank d)) =
        restored signs d _ v (length-set _ _ _ ∙ v.current)
          (length-set _ _ _ ∙ (length-set _ _ _ ∙ v.current)) v.current refl in
      rw
        (
          normal_fatal-rises signs d v fine c n,
          normal_fatal-falls signs (gone_blank d) v.current length_next refl refl,
        )
        (refl, refl, load_ready-next (given_back (gone_blank d)) back refl e settled)

  -- At the end of an external input, where nothing waits.
  abbrev ext_over : Display → Display
  ext_over d = record d {
    ds_next = d.ds_bak;
    ds_bak = set_n_a d.ds_bak;
    ext_disp_tmr = BootTimer.clear;
    ready_to_load = true;
    reload_current = false;
  }

  load_ready-over :
      (d : Display)
      → IsValid signs d
      → is_ext d.ds_current.disp_type ≡ true
      → is_n_a d.ds_next.disp_type ≡ true
      → is_expired now d.ext_disp_tmr ≡ true
      → load_ready ext_input_cfg now d ≡ mark_loaded (load_ds_next (ext_over d))
  unfolding load_ready end_ext
  load_ready-over d v c n over =
      rw (c, over, n, clone_all d.ds_next d.ds_bak (omega (arith, v.next, v.bak))) refl

  -- An external input that displaced another gives way to it when its time is over, where nothing
  -- waits; the timer is clear then, so the other never ends by its time.
  pub normal_load-ext_again :
      (d : Display)
      → IsValid signs d
      → is_low d.fatal_error ≡ true
      → d.ready_to_load ≡ true
      → is_ext d.ds_current.disp_type ≡ true
      → is_ext d.ds_bak.disp_type ≡ true
      → is_ext d.ds_ext.disp_type ≡ false
      → is_n_a d.ds_next.disp_type ≡ true
      → is_expired now d.ext_disp_tmr ≡ true
      → let d' = normal_load ext_input_cfg now d in
        (d'.ds_current ≡ d.ds_bak) × ((later : Timespec) → is_expired later d'.ext_disp_tmr ≡ false)
  unfolding mark_loaded is_expired
  normal_load-ext_again d v low ready c b e n over =
      let freed : Display = ext_over d in
      let kind = (kinds d.ds_bak.disp_type).1 b in
      let valid : IsValid signs freed =
        restored signs d freed v (length-set _ _ _ ∙ v.bak) v.current v.bak refl in
      let loaded = (load_ds_next_cases signs freed valid).2 kind.2 e kind.0 in
      rw
        (
          normal_load-ready d low ready,
          load_ready-over d v c n over,
          loaded,
          planned-other d.ds_bak kind.1,
        )
        (refl, λ later. refl)
