-- ===== src/Uci/UciPln.antt =====
-- Class UciPln of src/uci/UciPln.cpp and include/uci/UciPln.h: the table of plans, with its
-- checksum, and its configuration file.
pub mod Laws
pub mod Persistence
mod Tests
use gc.Common.{
  ℕ, zero, suc, ◌+◌, ◌-◌, ◌/◌, Bool, true, false, ◌&&◌, ◌||◌, not, List, [], ◌∷◌, map, ltb, leb,
  ◌==◌, if◌then◌else◌, length, get_or, set, replicate, u16, sub_u16, take,
}
use gc.Utils.Cnvt.{parse_bytes, bytes_to_asc, get_u16}
use gc.Utils.Crc.{crc16_1021}
use gc.Tsisp003.Memory.{Memory, slice}
use gc.Tsisp003.AppError.{AppError, app_no_error}
use gc.Tsisp003.Plan
use gc.Tsisp003.Plan.{Plan}

-- The array of 255 plans; plan i stands at index i - 1.
pub record UciPln : Type 0 where
  pub plns : List Plan
  pub chksum : ℕ

-- What the constructors of the plans leave, and `LoadConfig` sets first.
abbrev pub empty : UciPln
empty = record { plns = replicate 255 Plan.blank; chksum = 0 }

unfoldable pub is_pln_defined : UciPln → ℕ → Bool
is_pln_defined u i = not (i == 0) && not ((get_or u.plns (i - 1) Plan.blank).micode == 0)

unfoldable pub get_pln_rev : UciPln → ℕ → ℕ
unfolding is_pln_defined
get_pln_rev u i = if is_pln_defined u i then (get_or u.plns (i - 1) Plan.blank).pln_rev else 0

-- What `SetPln` does with a plan that `Init` accepted, whose id is not 0.
unfoldable pub store : Plan → UciPln → UciPln
store pln u = record { plns = set u.plns i pln; chksum = u16 (without + pln.crc) }
  where
    i : ℕ
    i = pln.pln_id - 1

    old : Plan
    old = get_or u.plns i Plan.blank

    without : ℕ
    without = if not (old.micode == 0) then sub_u16 u.chksum old.crc else u.chksum

abbrev pub keep_if_accepted : UciPln → AppError → Plan → UciPln
keep_if_accepted u app_no_error pln = store pln u
keep_if_accepted u _ pln = u

unfoldable pub set_pln : (ℕ → Bool) → (ℕ → Bool) → Memory → ℕ → UciPln → AppError × UciPln
set_pln is_frm_defined is_msg_defined buf len u =
    let (r, pln) = Plan.init is_frm_defined is_msg_defined buf len Plan.blank in
    (r, keep_if_accepted u r pln)

unfoldable pub reset : UciPln → UciPln
reset u = empty

-- What `SavePln` writes into the configuration file: the text of the packet.
unfoldable pub saved_text : Plan → List ℕ
saved_text m = bytes_to_asc (Plan.to_array m)

-- The local buffer of `LoadConfig` after bytes were written into it; what stood behind them stays.
unfoldable pub overwrite : List ℕ → Memory → Memory
overwrite bs b i = if ltb i (length bs) then get_or bs i 0 else b i

-- The rest of the round, with the buffer, whether the whole text was parsed, and the bytes that it
-- stands for.
unfoldable pub load_packet : (ℕ → Bool) → (ℕ → Bool) → ℕ → Bool → ℕ → Memory → UciPln → UciPln
load_packet is_frm_defined is_msg_defined i parsed len b u =
    if (leb 1 i && leb i 255)
      && (parsed && (crc16_1021 (slice b 0 (len - 2)) 0 == get_u16 (b (len - 2)) (b (len - 2 + 1))))
    then (set_pln is_frm_defined is_msg_defined b len u).1
    else u

-- One round of the loop of `LoadConfig`, for an option that names plan i and holds a text.
unfoldable pub load_option :
    (ℕ → Bool) → (ℕ → Bool) → ℕ → List ℕ → Memory × UciPln → Memory × UciPln
load_option is_frm_defined is_msg_defined i text (b, u) =
    let (bytes, parsed) = parse_bytes text in
    let b' = overwrite bytes b in
    (b', load_packet is_frm_defined is_msg_defined i parsed (length text / 2) b' u)

-- The loop of `LoadConfig`, over the options that have a number and a text.
unfoldable pub load_options :
    (ℕ → Bool) → (ℕ → Bool) → List (ℕ × List ℕ) → Memory × UciPln → Memory × UciPln
load_options is_frm_defined is_msg_defined [] bu = bu
load_options is_frm_defined is_msg_defined ((i, text) ∷ options) bu =
    load_options is_frm_defined is_msg_defined options
      (load_option is_frm_defined is_msg_defined i text bu)

-- `LoadConfig`, with what its local buffer holds at first. The table is not emptied.
unfoldable pub load_config : (ℕ → Bool) → (ℕ → Bool) → Memory → List (ℕ × List ℕ) → UciPln → UciPln
load_config is_frm_defined is_msg_defined b options u =
    (load_options is_frm_defined is_msg_defined options (b, record u { chksum = 0 })).1
