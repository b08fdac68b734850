-- ===== src/Module/FacilitySwitch/Laws.antt =====
-- How long the switch of src/module/FacilitySwitch.cpp must stay in a position.
use gc.Common.{
  ℕ, zero, suc, ◌+◌, ◌≤◌, ◌<◌, ◌≡◌, ◌≢◌, refl, ◌&&◌, ap, ◌∙◌, true, false, Option, none, some,
  arith, ◌==◌, Bool-cases, inl, inr, u8,
}
use gc.Module.FacilitySwitch.{
  FsState, FacilitySwitch, Pin, code, key_of, state_of, take_state, take_key, periodic_run,
}

-- So many rounds with one reading of the pins.
unfoldable pub runs : Pin → Pin → Pin → ℕ → FacilitySwitch → FacilitySwitch
runs a b c zero s = s
runs a b c (suc n) s = periodic_run a b c (runs a b c n s)

-- The state that a key stands for, or the one that there is.
abbrev pub state_or : Option FsState → FsState → FsState
state_or none state = state
state_or (some new) state = new

fs_state-take_state :
    (o : Option FsState) (s : FacilitySwitch) → (take_state o s).fs_state ≡ state_or o s.fs_state
fs_state-take_state none s = refl
fs_state-take_state (some new) s = elim (Bool-cases (code s.last_state == code new)) [
  | inl e ↦ rw e refl
  | inr e ↦ rw e refl
]

module _ (a b c : Pin) (ok : (a.valid && (b.valid && c.valid)) ≡ true) where
  counted-step :
      (n : ℕ) (s : FacilitySwitch)
      → n < 9
      → periodic_run a b c (record s { key_cnt = n; lastkey = key_of a b c })
        ≡ record s { key_cnt = suc n; lastkey = key_of a b c }
  unfolding periodic_run take_key
  counted-step n s lt =
      let self : (key_of a b c == key_of a b c) ≡ true = ground arith in
      let early : (u8 (n + 1) == 10) ≡ false = ground arith in
      let next : u8 (n + 1) ≡ suc n = ground arith in rw (ok, self, early, next) refl

  -- While the switch stays in a new position, the rounds are counted and nothing else happens.
  runs-counted :
      (n : ℕ) (s : FacilitySwitch)
      → s.lastkey ≢ key_of a b c
      → n < 10
      → runs a b c (suc n) s ≡ record s { key_cnt = n; lastkey = key_of a b c }
  unfolding runs periodic_run take_key
  runs-counted zero s new lt =
      let other : (s.lastkey == key_of a b c) ≡ false = ground arith in rw (ok, other) refl
  runs-counted (suc n) s new lt =
      ap (periodic_run a b c) (runs-counted n s new (omega arith)) ∙ counted-step n s (omega arith)

  taken-step :
      (s : FacilitySwitch)
      → (periodic_run a b c (record s { key_cnt = 9; lastkey = key_of a b c })).fs_state
        ≡ state_or (state_of (key_of a b c)) s.fs_state
  unfolding periodic_run take_key
  taken-step s =
      let self : (key_of a b c == key_of a b c) ≡ true = ground arith in
      rw (ok, self)
        (fs_state-take_state (state_of (key_of a b c))
          (record s { key_cnt = 0; lastkey = key_of a b c }))

  -- A reading of the pins that differs from the last must come eleven times: up to the tenth round the
  -- state stays as it was, and at the eleventh it is the one that the reading stands for, if any.
  pub runs-fs_state :
      (s : FacilitySwitch)
      → s.lastkey ≢ key_of a b c
      → ((n : ℕ) → n ≤ 10 → (runs a b c n s).fs_state ≡ s.fs_state)
        × ((runs a b c 11 s).fs_state ≡ state_or (state_of (key_of a b c)) s.fs_state)
  unfolding runs
  runs-fs_state s new = (
    λ n le. early n le,
    ap (λ (t : FacilitySwitch). (periodic_run a b c t).fs_state)
          (runs-counted 9 s new (omega arith))
        ∙ taken-step s,
  )
    where
      early : (n : ℕ) → n ≤ 10 → (runs a b c n s).fs_state ≡ s.fs_state
      early zero le = refl
      early (suc n) le =
          ap (λ (t : FacilitySwitch). t.fs_state) (runs-counted n s new (omega arith))
