-- ===== src/Tsisp003/Message.antt =====
-- Class Message of src/tsisp003/Message.cpp and include/tsisp003/Message.h: a list of frames with
-- the time that each is shown.
pub mod Slots
pub mod Laws
pub mod Tests
use gc.Common.{
  ℕ, zero, suc, ◌+◌, ◌-◌, Bool, true, false, ◌||◌, not, List, [], ◌∷◌, ◌++◌, ltb, ◌==◌,
  if◌then◌else◌, replicate,
}
use gc.Utils.Cnvt.{get_u16, put_u16}
use gc.Tsisp003.Memory.{Memory}
use gc.Tsisp003.AppError.{
  AppError, app_no_error, unknown_mi, length_error, syntax_error, frm_msg_pln_undefined,
}
use gc.Tsisp003.Mi

pub record MsgEntry : Type 0 where
  pub frm_id : ℕ
  pub on_time : ℕ

-- `msg_entries` is the array of six slots.
pub record Message : Type 0 where
  pub micode : ℕ
  pub msg_id : ℕ
  pub msg_rev : ℕ
  pub trans_time : ℕ
  pub entries : ℕ
  pub msg_entries : List MsgEntry
  pub crc : ℕ

abbrev pub msg_len_max : ℕ
msg_len_max = 16

abbrev pub msg_len_min : ℕ
msg_len_min = 7

abbrev pub msg_tail : ℕ
msg_tail = 2

-- A message as it is declared; the fields that the class leaves unset are 0 here.
abbrev pub blank : Message
blank = record {
  micode = 0;
  msg_id = 0;
  msg_rev = 0;
  trans_time = 0;
  entries = 0;
  msg_entries = replicate 6 (record { frm_id = 0; on_time = 0 });
  crc = 0;
}

-- What the loop of `Init` leaves: the slots, the pointer, and how many entries it counted.
pub record Scan : Type 0 where
  pub slots : List MsgEntry
  pub p : ℕ
  pub count : ℕ

-- The loop over the slots that are left, from offset `p` on. A frame id of 0 is stored and ends it.
unfoldable pub scan : Memory → List MsgEntry → ℕ → Scan
scan mem [] p = record { slots = []; p = p; count = 0 }
scan mem (e ∷ es) p =
    let rest = scan mem es (p + 2) in
    let entry : MsgEntry = record { frm_id = mem p; on_time = mem (p + 1) } in
    let more : Scan = record { slots = entry ∷ rest.slots; p = rest.p; count = rest.count + 1 } in
    let stop : Scan = record { slots = record e { frm_id = mem p } ∷ es; p = p + 1; count = 0 } in
    if mem p == 0 then stop else more

-- `CheckEntries` returns 0: the frame of each counted entry is defined. `is_frm_defined` is the
-- answer of UciFrm::IsFrmDefined.
unfoldable pub check_entries : (ℕ → Bool) → ℕ → List MsgEntry → Bool
check_entries is_frm_defined zero slots = true
check_entries is_frm_defined (suc n) [] = true
check_entries is_frm_defined (suc n) (e ∷ es) =
    if not (is_frm_defined e.frm_id) then false else check_entries is_frm_defined n es

-- What `Init` stores before its first test. The two bytes of the checksum end the buffer.
unfoldable pub header : Memory → ℕ → Message → Message
header mem xlen self = record self {
  micode = 0;
  msg_id = mem 1;
  msg_rev = mem 2;
  trans_time = mem 3;
  crc = get_u16 (mem (xlen - msg_tail)) (mem (xlen - msg_tail + 1));
}

-- After the loop. Of its first six rounds only the first can leave a count of 0, by the id 0 that
-- is a length error there. `CheckOverlay` always returns 0.
unfoldable pub finish : (ℕ → Bool) → ℕ → Message → Scan → AppError × Message
finish is_frm_defined xlen m s =
    if s.count == 0
    then (length_error, scanned)
    else (if not (s.p == xlen - msg_tail)
        then (length_error, scanned)
        else (if not (check_entries is_frm_defined s.count s.slots)
            then (frm_msg_pln_undefined, scanned)
            else (app_no_error, record scanned { micode = Mi.sign_set_message })))
  where
    scanned : Message
    scanned = record m { entries = s.count; msg_entries = s.slots }

unfoldable pub init : (ℕ → Bool) → Memory → ℕ → Message → AppError × Message
unfolding header finish
init is_frm_defined mem xlen self =
    if not (mem 0 == Mi.sign_set_message)
    then (unknown_mi, header mem xlen self)
    else (if ltb xlen (msg_len_min + msg_tail) || ltb (msg_len_max + msg_tail) xlen
        then (length_error, header mem xlen self)
        else (if mem 1 == 0
            then (syntax_error, header mem xlen self)
            else finish is_frm_defined xlen (header mem xlen self) (scan mem self.msg_entries 4)))

-- The loop of `ToArray`.
unfoldable pub emit : List MsgEntry → List ℕ
emit [] = []
emit (e ∷ es) =
    let rest = emit es in if e.frm_id == 0 then e.frm_id ∷ [] else e.frm_id ∷ e.on_time ∷ rest

unfoldable pub to_array : Message → List ℕ
unfolding emit
to_array m = m.micode ∷ m.msg_id ∷ m.msg_rev ∷ m.trans_time ∷ (emit m.msg_entries ++ put_u16 m.crc)
