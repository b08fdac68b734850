-- ===== src/Module/FacilitySwitch.antt =====
-- Class FacilitySwitch of src/module/FacilitySwitch.cpp: a rotary switch on three pins.
pub mod Laws
mod Tests
use gc.Common.{ℕ, ◌+◌, Bool, true, false, ◌&&◌, not, Option, none, some, ◌==◌, if◌then◌else◌, u8}

pub data FsState : Type 0 where
  fs_na fs_off fs_auto fs_msg1 fs_msg2 : FsState

abbrev pub is_auto : FsState → Bool
is_auto fs_auto = true
is_auto _ = false

-- The number of a state.
abbrev pub code : FsState → ℕ
code fs_na = 0
code fs_off = 1
code fs_auto = 2
code fs_msg1 = 3
code fs_msg2 = 4

-- The text for the log is left out.
pub record FacilitySwitch : Type 0 where
  pub is_changed : Bool
  pub fs_state : FsState
  pub last_state : FsState
  pub lastkey : ℕ
  pub key_cnt : ℕ

-- A pin after its own round: whether it is valid, and whether it is high.
pub record Pin : Type 0 where
  pub valid : Bool
  pub high : Bool

abbrev pub key_of : Pin → Pin → Pin → ℕ
key_of fs_auto_pin m1 m2 =
    (if fs_auto_pin.high then 1 else 0) + (if m1.high then 2 else 0) + (if m2.high then 4 else 0)

-- The cases of the switch statement.
abbrev pub state_of : ℕ → Option FsState
state_of key =
    if key == 3
    then some fs_msg2
    else (if key == 5
        then some fs_msg1
        else (if key == 6 then some fs_auto else (if key == 7 then some fs_off else none)))

abbrev pub take_state : Option FsState → FacilitySwitch → FacilitySwitch
take_state none s = s
take_state (some state) s =
    if code s.last_state == code state
    then record s { fs_state = state }
    else record s { fs_state = state; is_changed = true; last_state = state }

-- The rest of PeriodicRun, for a key on valid pins.
unfoldable pub take_key : ℕ → FacilitySwitch → FacilitySwitch
take_key key s =
    if not (s.lastkey == key)
    then record s { key_cnt = 0; lastkey = key }
    else (if u8 (s.key_cnt + 1) == 10
        then take_state (state_of key) (record s { key_cnt = 0 })
        else record s { key_cnt = u8 (s.key_cnt + 1) })

unfoldable pub periodic_run : Pin → Pin → Pin → FacilitySwitch → FacilitySwitch
periodic_run fs_auto_pin m1 m2 s =
    if fs_auto_pin.valid && (m1.valid && m2.valid) then take_key (key_of fs_auto_pin m1 m2) s else s

abbrev pub clear_changed : FacilitySwitch → FacilitySwitch
clear_changed s = record s { is_changed = false }
