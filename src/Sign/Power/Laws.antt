-- ===== src/Sign/Power/Laws.antt =====
-- When a group of src/sign/Group.cpp is powered, and that it comes to be.
use gc.Common.{
  ℕ, ◌*◌, ◌≡◌, ◌≤◌, ◌<◌, ◌+◌, ◌/◌, refl, Bool, true, false, ◌||◌, arith, Bool-cases, inl, inr,
}
use gc.Module.BootTimer.{Timespec, set_ms, is_expired, is_clear, long_max}
use gc.Module.BootTimer.Deadline.{nanoseconds, set_ms-is_expired}
use gc.Sign.Display.{Display, FsState}
use gc.Sign.Power.{
  PwrState, pwr_off, pwr_on, pwr_rising, pwr_na, Power, is_power_on, is_off, is_on, is_rising,
  any_off, any_rising, main_after, combine, power_func, powered_up,
}

main_after-on :
    (failed : Bool) (s : PwrState)
    → is_on (main_after failed s) ≡ true
    → (failed ≡ false) × (is_on s ≡ true)
main_after-on true s h = absurd (ground arith)
main_after-on false pwr_on h = (refl, refl)
main_after-on false pwr_off h = absurd (ground arith)
main_after-on false pwr_na h = absurd (ground arith)
main_after-on false pwr_rising h = absurd (ground arith)

main_after-off :
    (failed : Bool) (s : PwrState) → is_off (main_after failed s) ≡ false → failed ≡ false
main_after-off true s h = absurd (ground arith)
main_after-off false s h = refl

off_on : (s : PwrState) → is_off s ≡ true → is_on s ≡ false
off_on pwr_off h = refl
off_on pwr_on h = absurd (ground arith)
off_on pwr_rising h = refl
off_on pwr_na h = refl

any_off-is_power_on : (p : Power) → any_off p ≡ true → is_power_on p ≡ false
any_off-is_power_on p h = ground (arith, off_on p.main_pwr, off_on p.cmd_pwr, off_on p.fs_pwr)

expired-is_clear : (now t : Timespec) → is_expired now t ≡ true → is_clear t ≡ false
unfolding is_expired is_clear
expired-is_clear now t h = ground arith

-- One call of `combine` by which a group comes on.
combine-is_power_on :
    (now : Timespec) (delay : ℕ) (fs : FsState) (p : Power) (d : Display)
    → is_power_on p ≡ false
    → is_power_on (combine now delay fs (p, d)).0 ≡ true
    → (any_off p ≡ false) × (is_expired now p.pwr_up_tmr ≡ true)
unfolding combine
combine-is_power_on now delay fs p d before after = elim (Bool-cases (any_off p)) [
  | inl off ↦ let still : is_power_on p ≡ true = rw off at after in absurd (ground arith)
  | inr off ↦ elim (Bool-cases (any_rising p)) [
    | inr calm ↦ let still : is_power_on p ≡ true = rw (off, calm) at after in absurd (ground arith)
    | inl up ↦ elim (Bool-cases (is_clear p.pwr_up_tmr)) [
      | inl c ↦ let still : is_power_on p ≡ true = rw (off, up, c) at after in absurd (ground arith)
      | inr c ↦ elim (Bool-cases (is_expired now p.pwr_up_tmr)) [
        | inl over ↦ (off, over)
        | inr wait ↦
            let still : is_power_on p ≡ true = rw (off, up, c, wait) at after in
            absurd (ground arith)
      ]
    ]
  ]
]

-- A call of PowerFunc by which a group that is not on comes on is one with main power, with neither
-- command nor facility switch on OFF, and with the time of the power-up over.
pub power_func-is_power_on :
    (now : Timespec) (delay : ℕ) (fs : FsState) (failed : Bool) (p : Power) (d : Display)
    → is_power_on p ≡ false
    → is_power_on (power_func now delay fs failed (p, d)).0 ≡ true
    → (failed ≡ false)
      × (is_off p.cmd_pwr ≡ false)
      × (is_off p.fs_pwr ≡ false)
      × (is_expired now p.pwr_up_tmr ≡ true)
unfolding power_func
power_func-is_power_on now delay fs failed p d before after =
    let q : Power = record p { main_pwr = main_after failed p.main_pwr } in
    elim (Bool-cases (is_power_on q)) [
      | inl already ↦
          let main = main_after-on failed p.main_pwr (ground arith) in absurd (ground arith)
      | inr not_yet ↦
          let (off, over) = combine-is_power_on now delay fs q d not_yet after in
          (main_after-off failed p.main_pwr (ground arith), ground arith, ground arith, over)
    ]

on_only : (s : PwrState) → is_on s ≡ true → s ≡ pwr_on
on_only pwr_on h = refl
on_only pwr_off h = absurd (ground arith)
on_only pwr_rising h = absurd (ground arith)
on_only pwr_na h = absurd (ground arith)

-- When the main power fails the group is off at once; while it is on and nothing fails it stays as it
-- is.
pub power_func-failed :
    (now : Timespec) (delay : ℕ) (fs : FsState) (p : Power) (d : Display)
    → (is_power_on (power_func now delay fs true (p, d)).0 ≡ false)
      × (is_power_on p ≡ true → power_func now delay fs false (p, d) ≡ (p, d))
unfolding power_func combine
power_func-failed now delay fs p d = (
  any_off-is_power_on (record p { main_pwr = pwr_off }) refl,
  λ on.
      let c = on_only p.cmd_pwr (ground arith) in
      let f = on_only p.fs_pwr (ground arith) in
      let m = on_only p.main_pwr (ground arith) in rw (c, f, m) refl,
)

main_after-twice :
    (s : PwrState)
    → (main_after false (main_after false s) ≡ main_after false s)
      × (is_off (main_after false s) ≡ false)
main_after-twice pwr_on = (refl, refl)
main_after-twice pwr_off = (refl, refl)
main_after-twice pwr_rising = (refl, refl)
main_after-twice pwr_na = (refl, refl)

combine-starts :
    (now : Timespec) (delay : ℕ) (fs : FsState) (p : Power) (d : Display)
    → any_off p ≡ false
    → any_rising p ≡ true
    → is_clear p.pwr_up_tmr ≡ true
    → combine now delay fs (p, d) ≡ (record p { pwr_up_tmr = set_ms now (delay * 1000) }, d)
unfolding combine
combine-starts now delay fs p d off up clear = rw (off, up, clear) refl

combine-ends :
    (now : Timespec) (delay : ℕ) (fs : FsState) (p : Power) (d : Display)
    → any_off p ≡ false
    → any_rising p ≡ true
    → is_expired now p.pwr_up_tmr ≡ true
    → combine now delay fs (p, d) ≡ powered_up fs (p, d)
unfolding combine
combine-ends now delay fs p d off up over =
    rw (off, up, expired-is_clear now p.pwr_up_tmr over, over) refl

-- A group that is neither commanded nor switched OFF, that has main power and something of which rises,
-- is on after two calls of PowerFunc, of which the first starts the power-up and the second comes when
-- the delay is over, if the clock is far from its end.
pub power_func-rises :
    (now later : Timespec) (delay : ℕ) (fs fs' : FsState) (p : Power) (d : Display)
    → is_off p.cmd_pwr ≡ false
    → is_off p.fs_pwr ≡ false
    → (is_rising (main_after false p.main_pwr) || (is_rising p.cmd_pwr || is_rising p.fs_pwr))
      ≡ true
    → is_clear p.pwr_up_tmr ≡ true
    → now.nsec < 1000000000
    → later.nsec < 1000000000
    → delay * 1000 < long_max
    → delay * 1000 / 1000 + now.sec + 1 < long_max
    → nanoseconds now + delay * 1000 * 1000000 ≤ nanoseconds later
    → is_power_on (power_func later delay fs' false (power_func now delay fs false (p, d))).0 ≡ true
unfolding power_func
power_func-rises now later delay fs fs' p d c f up clear hn hl small far passed =
    let (twice, on) = main_after-twice p.main_pwr in
    let over : is_expired later (set_ms now (delay * 1000)) ≡ true =
      (set_ms-is_expired now later (delay * 1000) hn hl small far).1 passed in
    let q : Power = record p { main_pwr = main_after false p.main_pwr } in
    let set_up : Power = record q { pwr_up_tmr = set_ms now (delay * 1000) } in
    let off : any_off q ≡ false = rw (on, c, f) refl in
    rw (combine-starts now delay fs q d off up clear, twice)
      (rw (combine-ends later delay fs' set_up d off up over) refl)
