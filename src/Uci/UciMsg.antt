-- ===== src/Uci/UciMsg.antt =====
-- Class UciMsg of src/uci/UciMsg.cpp and include/uci/UciMsg.h: the table of messages, with its
-- checksum, and its configuration file.
pub mod Laws
pub mod Persistence
mod Tests
use gc.Common.{
  ℕ, zero, suc, ◌+◌, ◌-◌, ◌/◌, Bool, true, false, ◌&&◌, ◌||◌, not, List, [], ◌∷◌, map, ltb, leb,
  ◌==◌, if◌then◌else◌, length, get_or, set, replicate, u16, sub_u16, take,
}
use gc.Utils.Cnvt.{parse_bytes, bytes_to_asc, get_u16}
use gc.Utils.Crc.{crc16_1021}
use gc.Tsisp003.Memory.{Memory, slice}
use gc.Tsisp003.AppError.{AppError, app_no_error}
use gc.Tsisp003.Message
use gc.Tsisp003.Message.{Message, MsgEntry}

-- The array of 255 messages; message i stands at index i - 1.
pub record UciMsg : Type 0 where
  pub msgs : List Message
  pub chksum : ℕ

-- What the constructors of the messages leave, and `LoadConfig` sets first.
abbrev pub empty : UciMsg
empty = record { msgs = replicate 255 Message.blank; chksum = 0 }

unfoldable pub is_msg_defined : UciMsg → ℕ → Bool
is_msg_defined u i = not (i == 0) && not ((get_or u.msgs (i - 1) Message.blank).micode == 0)

unfoldable pub get_msg_rev : UciMsg → ℕ → ℕ
unfolding is_msg_defined
get_msg_rev u i = if is_msg_defined u i then (get_or u.msgs (i - 1) Message.blank).msg_rev else 0

-- What `SetMsg` does with a message that `Init` accepted, whose id is not 0.
unfoldable pub store : Message → UciMsg → UciMsg
store msg u = record { msgs = set u.msgs i msg; chksum = u16 (without + msg.crc) }
  where
    i : ℕ
    i = msg.msg_id - 1

    old : Message
    old = get_or u.msgs i Message.blank

    without : ℕ
    without = if not (old.micode == 0) then sub_u16 u.chksum old.crc else u.chksum

abbrev pub keep_if_accepted : UciMsg → AppError → Message → UciMsg
keep_if_accepted u app_no_error msg = store msg u
keep_if_accepted u _ msg = u

unfoldable pub set_msg : (ℕ → Bool) → Memory → ℕ → UciMsg → AppError × UciMsg
set_msg is_frm_defined buf len u =
    let (r, msg) = Message.init is_frm_defined buf len Message.blank in
    (r, keep_if_accepted u r msg)

abbrev pub undefine : Message → Message
undefine m = record m { micode = 0 }

unfoldable pub reset : UciMsg → UciMsg
reset u = record { msgs = map undefine u.msgs; chksum = 0 }

-- The loop of `IsMsgFlashing` over the entries that count; `is_frm_flashing` is the answer of
-- UciFrm::IsFrmFlashing.
unfoldable pub any_flashing : (ℕ → Bool) → List MsgEntry → Bool
any_flashing is_frm_flashing [] = false
any_flashing is_frm_flashing (e ∷ es) =
    if is_frm_flashing e.frm_id then true else any_flashing is_frm_flashing es

unfoldable pub is_msg_flashing : (ℕ → Bool) → UciMsg → ℕ → Bool
unfolding any_flashing is_msg_defined
is_msg_flashing is_frm_flashing u i =
    let msg = get_or u.msgs (i - 1) Message.blank in
    if is_msg_defined u i
    then any_flashing is_frm_flashing (take msg.entries msg.msg_entries)
    else false

-- What `SaveMsg` writes into the configuration file: the text of the packet.
unfoldable pub saved_text : Message → List ℕ
saved_text m = bytes_to_asc (Message.to_array m)

-- The local buffer of `LoadConfig` after bytes were written into it; what stood behind them stays.
unfoldable pub overwrite : List ℕ → Memory → Memory
overwrite bs b i = if ltb i (length bs) then get_or bs i 0 else b i

-- The rest of the round, with the buffer, whether the whole text was parsed, and the bytes that it
-- stands for.
unfoldable pub load_packet : (ℕ → Bool) → ℕ → Bool → ℕ → Memory → UciMsg → UciMsg
load_packet is_frm_defined i parsed len b u =
    if (leb 1 i && leb i 255)
      && (parsed && (crc16_1021 (slice b 0 (len - 2)) 0 == get_u16 (b (len - 2)) (b (len - 2 + 1))))
    then (set_msg is_frm_defined b len u).1
    else u

-- One round of the loop of `LoadConfig`, for an option that names message i and holds a text.
unfoldable pub load_option : (ℕ → Bool) → ℕ → List ℕ → Memory × UciMsg → Memory × UciMsg
load_option is_frm_defined i text (b, u) =
    let (bytes, parsed) = parse_bytes text in
    let b' = overwrite bytes b in (b', load_packet is_frm_defined i parsed (length text / 2) b' u)

-- The loop of `LoadConfig`, over the options that have a number and a text.
unfoldable pub load_options : (ℕ → Bool) → List (ℕ × List ℕ) → Memory × UciMsg → Memory × UciMsg
load_options is_frm_defined [] bu = bu
load_options is_frm_defined ((i, text) ∷ options) bu =
    load_options is_frm_defined options (load_option is_frm_defined i text bu)

-- `LoadConfig`, with what its local buffer holds at first. The table is not emptied.
unfoldable pub load_config : (ℕ → Bool) → Memory → List (ℕ × List ℕ) → UciMsg → UciMsg
load_config is_frm_defined b options u =
    (load_options is_frm_defined options (b, record u { chksum = 0 })).1
