-- ===== src/Sign/Display/Tests.antt =====
-- Instances for what a group of src/sign/Group.cpp displays.
use gc.Common.{ℕ, ◌≡◌, ◌≢◌, some, get_elem?, ◌≤◌, refl, true, false, [], ◌∷◌, arith}
use gc.Module.BootTimer
use gc.Module.BootTimer.{Timespec, is_expired}
use gc.Module.Debounce.{s5_0, is_low}
use gc.Sign.Display.{
  DispType, n_a, frm, msg, ext, fsw, DispStatus, Display, fs_auto, ExtInput, fmpid0, is_ext, is_blk,
  disp_next, disp_ext, load_ds_next, normal_fatal, normal_load,
}
use gc.Sign.Display.Loading.{IsValid, IsShown, load_ds_next-order}
use gc.Sign.Display.Inputs.{disp_ext-waits}
use gc.Sign.Display.Reach.{reach-IsValid, start, and_then, external}
use gc.Sign.Display.Recovery.{normal_fatal-recovers, normal_load-ext_again}

abbrev status : DispType → ℕ → DispStatus
status type id = record { disp_type = type; fmpid = id ∷ 0 ∷ [] }

abbrev cfg : ℕ → ExtInput
cfg i = record { disp_time = 50; emergency = 1; flashing_ov = 1 }

abbrev noon : Timespec
noon = record { sec = 1000; nsec = 0 }

-- Message 4 is displayed.
abbrev pub shown : Display
shown = record {
  ds_bak = status n_a 0;
  ds_current = status msg 4;
  ds_next = status n_a 0;
  ds_ext = status n_a 0;
  ext_disp_tmr = BootTimer.clear;
  on_disp_msg_id = 4;
  on_disp_frm_id = 1;
  ready_to_load = true;
  reload_current = false;
  fatal_error = s5_0;
}

shown-IsValid : IsValid 2 shown
shown-IsValid = record {
  some_sign = omega arith;
  bak = refl;
  current = refl;
  next = refl;
  ext = refl;
  waits = refl;
  number = λ h. absurd (ground arith);
}

-- External input 5 waits.
abbrev waiting : Display
waiting = record shown { ds_ext = status ext 5 }

waiting-IsValid : IsValid 2 waiting
waiting-IsValid = record {
  some_sign = omega arith;
  bak = refl;
  current = refl;
  next = refl;
  ext = refl;
  waits = refl;
  number = λ h. (omega arith, omega arith);
}

-- External input 3 is displayed and over, after it displaced input 5.
abbrev displaced : Display
displaced = record shown {
  ds_bak = status ext 5;
  ds_current = status ext 3;
  ext_disp_tmr = record { sec = 900; nsec = 0 };
}

displaced-IsValid : IsValid 2 displaced
displaced-IsValid = record {
  some_sign = omega arith;
  bak = refl;
  current = refl;
  next = refl;
  ext = refl;
  waits = refl;
  number = λ h. absurd (ground arith);
}

over : is_expired noon displaced.ext_disp_tmr ≡ true
unfolding is_expired
over = refl

-- External input 5 waits.
load_ds_next-order_example :
    let (taken, d') = load_ds_next waiting in
    (waiting.ds_next.disp_type ≡ fsw
      → (taken ≡ true)
        × (d'.ds_current ≡ waiting.ds_next)
        × (d'.ds_bak.disp_type ≡ frm)
        × (get_elem? d'.ds_bak.fmpid 0 ≡ some 0)
        × (d'.ds_next.disp_type ≡ n_a)
        × (d'.ds_ext ≡ waiting.ds_ext))
    × (waiting.ds_next.disp_type ≢ fsw
        → waiting.ds_ext.disp_type ≡ ext
        → (taken ≡ true)
          × (d'.ds_current ≡ waiting.ds_ext)
          × (d'.ds_bak ≡ waiting.ds_current)
          × (d'.ds_next ≡ waiting.ds_next)
          × (d'.ds_ext.disp_type ≡ n_a))
    × (waiting.ds_next.disp_type ≢ fsw
        → waiting.ds_ext.disp_type ≢ ext
        → waiting.ds_next.disp_type ≢ n_a
        → (taken ≡ true)
          × IsShown waiting.ds_next d'.ds_current
          × (d'.ds_bak ≡ waiting.ds_current)
          × (d'.ds_next.disp_type ≡ n_a)
          × (d'.ds_ext ≡ waiting.ds_ext))
    × (waiting.ds_ext.disp_type ≢ ext
        → waiting.ds_next.disp_type ≡ n_a
        → (taken ≡ false) × (d' ≡ waiting))
load_ds_next-order_example = load_ds_next-order 2 waiting waiting-IsValid (refl, refl)

abbrev after_three : Display
after_three = (disp_ext cfg (λ i. false) (λ i. false) noon true fs_auto 3 waiting).1

disp_ext-waits_example :
    (is_ext after_three.ds_ext.disp_type ≡ true)
    × (fmpid0 after_three.ds_ext ≤ fmpid0 waiting.ds_ext)
disp_ext-waits_example =
    disp_ext-waits cfg (λ i. false) (λ i. false) noon 2 true fs_auto 3 waiting waiting-IsValid refl

-- It was input 5 that waited; it is input 3 now.
three_waits : fmpid0 after_three.ds_ext ≡ 3
unfolding disp_ext disp_next
three_waits = refl

reach-IsValid_example : IsValid 2 after_three
reach-IsValid_example =
    reach-IsValid cfg 2 waiting after_three
      (and_then waiting waiting after_three (start waiting)
        (external (λ i. false) (λ i. false) noon true fs_auto 3 waiting))
      waiting-IsValid

normal_fatal-recovers_example :
    let blank = normal_fatal true shown in
    let again = normal_load cfg noon (normal_fatal false blank) in
    (is_blk blank.ds_current.disp_type ≡ true)
    × (normal_load cfg noon blank ≡ blank)
    × (again.ds_current ≡ shown.ds_current)
normal_fatal-recovers_example =
    normal_fatal-recovers cfg noon 2 shown shown-IsValid refl refl refl refl (refl, refl)

low : is_low displaced.fatal_error ≡ true
unfolding is_low
low = refl

normal_load-ext_again_example :
    let d' = normal_load cfg noon displaced in
    (d'.ds_current ≡ displaced.ds_bak)
    × ((later : Timespec) → is_expired later d'.ext_disp_tmr ≡ false)
normal_load-ext_again_example =
    normal_load-ext_again cfg noon 2 displaced displaced-IsValid low refl refl refl refl refl over
