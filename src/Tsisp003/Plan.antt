-- ===== src/Tsisp003/Plan.antt =====
-- Class Plan of src/tsisp003/Plan.cpp and include/tsisp003/Plan.h: what a sign shows at which times of
-- which weekdays.
pub mod Slots
pub mod Laws
pub mod Overlap
pub mod Tests
use gc.Common.{
  ℕ, zero, suc, ◌+◌, ◌-◌, ◌*◌, ◌/◌, ◌%◌, Bool, true, false, ◌&&◌, ◌||◌, not, List, [], ◌∷◌, ◌++◌,
  ltb, leb, ◌==◌, if◌then◌else◌, replicate, take,
}
use gc.Utils.Cnvt.{get_u16, put_u16}
use gc.Tsisp003.Memory.{Memory}
use gc.Tsisp003.AppError.{
  AppError, app_no_error, unknown_mi, length_error, syntax_error, overlays_not_supported,
  frm_msg_pln_undefined,
}
use gc.Tsisp003.Mi

pub record Hm : Type 0 where
  pub hour : ℕ
  pub minute : ℕ

abbrev pub pln_entry_na : ℕ
pln_entry_na = 0

abbrev pub pln_entry_frm : ℕ
pln_entry_frm = 1

abbrev pub pln_entry_msg : ℕ
pln_entry_msg = 2

pub record PlnEntry : Type 0 where
  pub fm_type : ℕ
  pub fm_id : ℕ
  pub start : Hm
  pub stop : Hm

-- `pln_entries` is the array of six slots.
pub record Plan : Type 0 where
  pub micode : ℕ
  pub pln_id : ℕ
  pub pln_rev : ℕ
  pub weekdays : ℕ
  pub entries : ℕ
  pub pln_entries : List PlnEntry
  pub crc : ℕ

abbrev pub pln_len_max : ℕ
pln_len_max = 40

abbrev pub pln_len_min : ℕ
pln_len_min = 11

abbrev pub pln_tail : ℕ
pln_tail = 2

abbrev midnight : Hm
midnight = record { hour = 0; minute = 0 }

-- A plan as it is declared; the fields that the class leaves unset are 0 here.
abbrev pub blank : Plan
blank = record {
  micode = 0;
  pln_id = 0;
  pln_rev = 0;
  weekdays = 0;
  entries = 0;
  pln_entries = replicate 6 (record { fm_type = 0; fm_id = 0; start = midnight; stop = midnight });
  crc = 0;
}

-- What the loop of `Init` leaves: the slots, the pointer, the entries that it counted, and whether
-- it came to its end. Where it did not, `Init` has returned SyntaxError.
pub record Scan : Type 0 where
  pub slots : List PlnEntry
  pub p : ℕ
  pub count : ℕ
  pub ended : Bool

-- The entry at offset `p`.
abbrev pub read_entry : Memory → ℕ → PlnEntry
read_entry mem p = record {
  fm_type = mem p;
  fm_id = mem (p + 1);
  start = record { hour = mem (p + 2); minute = mem (p + 3) };
  stop = record { hour = mem (p + 4); minute = mem (p + 5) };
}

-- The test of the four numbers of an entry.
abbrev pub bad_times : PlnEntry → Bool
bad_times e =
    ltb 23 e.start.hour || (ltb 59 e.start.minute || (ltb 23 e.stop.hour || ltb 59 e.stop.minute))

-- The loop over the slots that are left, from offset `p` on. A type of 0 is stored and ends it.
unfoldable pub scan : Memory → List PlnEntry → ℕ → Scan
scan mem [] p = record { slots = []; p = p; count = 0; ended = true }
scan mem (e ∷ es) p =
    let rest = scan mem es (p + 6) in
    let typed : List PlnEntry = record e { fm_type = mem p } ∷ es in
    let entry = read_entry mem p in
    let stop : Scan = record { slots = typed; p = p + 1; count = 0; ended = true } in
    let bad_type : Scan = record { slots = typed; p = p + 1; count = 0; ended = false } in
    let bad_time : Scan = record { slots = entry ∷ es; p = p + 6; count = 0; ended = false } in
    let more : Scan = record {
      slots = entry ∷ rest.slots;
      p = rest.p;
      count = rest.count + 1;
      ended = rest.ended;
    } in
    if mem p == pln_entry_na
    then stop
    else (if ltb pln_entry_msg (mem p)
        then bad_type
        else (if bad_times entry then bad_time else more))

-- The minutes of a day at which an entry starts and stops. One that stops no later than it starts
-- stops on the next day.
abbrev pub start_of : PlnEntry → ℕ
start_of e = e.start.hour * 60 + e.start.minute

abbrev pub stop_of : PlnEntry → ℕ
stop_of e =
    let stop = e.stop.hour * 60 + e.stop.minute in
    if leb stop (start_of e) then stop + 24 * 60 else stop

-- The test of the inner loop, on an entry and a later one.
unfoldable pub overlap : PlnEntry → PlnEntry → Bool
overlap i j =
    (leb (start_of j) (start_of i) && ltb (start_of i) (stop_of j))
    || (ltb (start_of j) (stop_of i) && leb (stop_of i) (stop_of j))

unfoldable pub overlap_any : PlnEntry → List PlnEntry → Bool
overlap_any i [] = false
overlap_any i (j ∷ js) = overlap i j || overlap_any i js

unfoldable pub overlaps : List PlnEntry → Bool
overlaps [] = false
overlaps (i ∷ is) = overlap_any i is || overlaps is

-- `CheckEntries` returns 0. The two functions are UciFrm::IsFrmDefined and UciMsg::IsMsgDefined.
unfoldable pub check_entries : (ℕ → Bool) → (ℕ → Bool) → List PlnEntry → Bool
check_entries is_frm_defined is_msg_defined [] = true
check_entries is_frm_defined is_msg_defined (e ∷ es) =
    if (e.fm_type == pln_entry_frm && not (is_frm_defined e.fm_id))
      || (e.fm_type == pln_entry_msg && not (is_msg_defined e.fm_id))
    then false
    else check_entries is_frm_defined is_msg_defined es

-- What `Init` stores before its first test.
unfoldable pub header : Memory → ℕ → Plan → Plan
header mem xlen self = record self {
  micode = 0;
  pln_id = mem 1;
  pln_rev = mem 2;
  weekdays = mem 3;
  crc = get_u16 (mem (xlen - pln_tail)) (mem (xlen - pln_tail + 1));
}

-- After the loop. One that came to its end with a count of 0 met the type 0 in its first round.
unfoldable pub finish : (ℕ → Bool) → (ℕ → Bool) → ℕ → Plan → Scan → AppError × Plan
finish is_frm_defined is_msg_defined xlen m s =
    if not s.ended
    then (syntax_error, scanned)
    else (if s.count == 0
        then (length_error, scanned)
        else (if not (s.p == xlen - pln_tail)
            then (length_error, scanned)
            else (if overlaps (take s.count s.slots)
                then (overlays_not_supported, scanned)
                else (if not (check_entries is_frm_defined is_msg_defined (take s.count s.slots))
                    then (frm_msg_pln_undefined, scanned)
                    else (app_no_error, record scanned { micode = Mi.sign_set_plan })))))
  where
    scanned : Plan
    scanned = record m { entries = s.count; pln_entries = s.slots }

-- `weekdays & 0x80` is the top bit of the byte, `weekdays & 0x7F` the other seven.
unfoldable pub init : (ℕ → Bool) → (ℕ → Bool) → Memory → ℕ → Plan → AppError × Plan
unfolding header finish
init is_frm_defined is_msg_defined mem xlen self =
    if not (mem 0 == Mi.sign_set_plan)
    then (unknown_mi, header mem xlen self)
    else (if ltb xlen (pln_len_min + pln_tail) || ltb (pln_len_max + pln_tail) xlen
        then (length_error, header mem xlen self)
        else (if mem 1 == 0
            then (syntax_error, header mem xlen self)
            else (if not (mem 3 / 128 % 2 == 0) || mem 3 % 128 == 0
                then (syntax_error, header mem xlen self)
                else finish is_frm_defined is_msg_defined xlen (header mem xlen self)
                    (scan mem self.pln_entries 4))))

-- The loop of `ToArray`.
unfoldable pub emit : List PlnEntry → List ℕ
emit [] = []
emit (e ∷ es) =
    let rest = emit es in
    if e.fm_type == pln_entry_na
    then e.fm_type ∷ []
    else e.fm_type ∷ e.fm_id ∷ e.start.hour ∷ e.start.minute ∷ e.stop.hour ∷ e.stop.minute ∷ rest

unfoldable pub to_array : Plan → List ℕ
unfolding emit
to_array m = m.micode ∷ m.pln_id ∷ m.pln_rev ∷ m.weekdays ∷ (emit m.pln_entries ++ put_u16 m.crc)
