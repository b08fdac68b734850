-- ===== src/Sign/DeviceError.antt =====
-- Classes DeviceError, SignError and CtrllerError of src/sign/DeviceError.cpp: which errors of a device
-- are set, and that each change goes to the log of faults.
pub mod Codes
pub mod Laws
mod Tests
use gc.Common.{
  ◌>>=◌, ℕ, zero, suc, ◌+◌, Bool, true, false, not, Option, none, some, List, [], ◌∷◌, ◌==◌,
  if◌then◌else◌, get_or, length,
}
use gc.Utils.Bits.{Bits, set_bit, clr_bit, get_bit, clr_all}
use gc.Uci.UciFault.{UciFault}
use gc.Uci.UciFault
use Codes

-- The codes that the device can have, by their priority, and which of them are set.
pub record DeviceError : Type 0 where
  pub dev_err : List ℕ
  pub err_bit : Bits

-- The place of a code; where there is none the exception invalid_argument is `none`.
unfoldable pub place : List ℕ → ℕ → Option ℕ
place [] code = none
place (c ∷ cs) code =
    let rest = place cs code in
    if c == code then some 0 else elim rest [ none ↦ none | some i ↦ some (i + 1) ]

abbrev pub differ : Bool → Bool → Bool
differ true b = not b
differ false b = b

-- DevError: whether the state has changed, and the state.
unfoldable pub dev_error : ℕ → Bool → DeviceError → Option (Bool × DeviceError)
dev_error code v d = do
  i ← place d.dev_err code
  old ← get_bit i d.err_bit
  if differ v old
      then (do
        bits ← if v then set_bit i d.err_bit else clr_bit i d.err_bit
        some (true, record d { err_bit = bits }))
      else some (false, d)

-- The loop of GetErrorCode.
unfoldable pub last_set : Bits → ℕ → ℕ → ℕ → Option ℕ
last_set bits zero i k = some k
last_set bits (suc left) i k = do
  set ← get_bit i bits
  last_set bits left (i + 1) (if set then i else k)

unfoldable pub get_error_code : DeviceError → Option ℕ
get_error_code d = do
  k ← last_set d.err_bit (length d.dev_err) 0 (length d.dev_err)
  some (if k == length d.dev_err then Codes.dev_no_error else get_or d.dev_err k 0)

unfoldable pub is_set : ℕ → DeviceError → Option Bool
is_set code d = do i ← place d.dev_err code; get_bit i d.err_bit

abbrev pub clear : DeviceError → DeviceError
clear d = record d { err_bit = clr_all d.err_bit }

-- Push, of a sign with its number and of the controller with number 0; what it writes to the settings
-- is left out. `now` is the time of the clock.
unfoldable pub push :
    ℕ → ℕ → ℕ → Bool → DeviceError × UciFault → Option (Bool × (DeviceError × UciFault))
push now id code v (d, log) = do
  (changed, d') ← dev_error code v d
  some (
    changed,
    (d', if changed then UciFault.push now id code (if v then 1 else 0) (some 0) log else log),
  )
