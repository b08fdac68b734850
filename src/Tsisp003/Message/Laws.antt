-- ===== src/Tsisp003/Message/Laws.antt =====
-- Message::Init and Message::ToArray of src/tsisp003/Message.cpp.
use gc.Common.{
  ℕ, ◌+◌, ◌-◌, ◌*◌, ◌≤◌, ◌<◌, ◌≡◌, refl, sym, ap, ◌∙◌, Bool, true, arith, length, List, [], ◌∷◌,
  zero, suc, ◌⊎◌, ◌≢◌,
}
use gc.Tsisp003.Memory.{
  Memory, IsBytes, slice, slice-packet, Agree, Agree-slice, holding, length-slice,
}
use gc.Tsisp003.AppError.{app_no_error}
use gc.Tsisp003.Mi
use gc.Tsisp003.Message.{Message, MsgEntry, scan, check_entries, header, init, to_array}
use gc.Tsisp003.Message.Slots.{emit-scan, scan-Agree, scan-Ended, p-scan, length-scan, Ended}

-- What acceptance by Init says, test by test.
pub record Accepted (is_frm_defined : ℕ → Bool) (mem : Memory) (xlen : ℕ) (self m : Message)
    : Type 0 where
  pub code : mem 0 ≡ Mi.sign_set_message
  pub enough : 9 ≤ xlen
  pub not_more : xlen ≤ 18
  pub id : mem 1 ≢ 0
  pub some_entry : 1 ≤ (scan mem self.msg_entries 4).count
  pub whole : (scan mem self.msg_entries 4).p + 2 ≡ xlen
  pub defined :
      let s = scan mem self.msg_entries 4 in check_entries is_frm_defined s.count s.slots ≡ true
  pub result :
      let s = scan mem self.msg_entries 4 in
      m ≡ record (header mem xlen self) {
        entries = s.count;
        msg_entries = s.slots;
        micode = Mi.sign_set_message;
      }

pub init-Accepted :
    (is_frm_defined : ℕ → Bool) (mem : Memory) (xlen : ℕ) (self : Message) {m : Message}
    → init is_frm_defined mem xlen self ≡ (app_no_error, m)
    → Accepted is_frm_defined mem xlen self m
unfolding init
init-Accepted is_frm_defined mem xlen self e = ground arith

pub Accepted-init :
    (is_frm_defined : ℕ → Bool) (mem : Memory) (xlen : ℕ) (self m : Message)
    → Accepted is_frm_defined mem xlen self m
    → init is_frm_defined mem xlen self ≡ (app_no_error, m)
unfolding init
Accepted-init is_frm_defined mem xlen self m a = ground arith

-- A message that Init accepted from a buffer of bytes is written back by ToArray as exactly the
-- xlen bytes it was read from.
pub to_array-init :
    (is_frm_defined : ℕ → Bool) (mem : Memory) (xlen : ℕ) (self m : Message)
    → IsBytes mem
    → init is_frm_defined mem xlen self ≡ (app_no_error, m)
    → to_array m ≡ slice mem 0 xlen
unfolding to_array header
to_array-init is_frm_defined mem xlen self m bytes e =
    let a = init-Accepted is_frm_defined mem xlen self e in
    let (n, q, w) = emit-scan mem self.msg_entries 4 in
    let size : xlen ≡ 4 + (n + 2) = omega (arith, a.whole) in
    let crc_at : xlen - 2 ≡ 4 + n = omega arith in
    rw (a.result, w, crc_at)
      (slice-packet mem Mi.sign_set_message n bytes a.code ∙ ap (slice mem 0) (sym size))

-- Whether a buffer is accepted, and what is stored, depends on its first xlen bytes alone.
pub init-Agree :
    (is_frm_defined : ℕ → Bool) (mem other : Memory) (xlen : ℕ) (self m : Message)
    → Agree xlen mem other
    → init is_frm_defined mem xlen self ≡ (app_no_error, m)
    → init is_frm_defined other xlen self ≡ (app_no_error, m)
unfolding header
init-Agree is_frm_defined mem other xlen self m agree e =
    let a = init-Accepted is_frm_defined mem xlen self e in
    let s : scan other self.msg_entries 4 ≡ scan mem self.msg_entries 4 =
      scan-Agree xlen mem other self.msg_entries 4 agree (omega (arith, a.whole)) in
    Accepted-init is_frm_defined other xlen self m (
      ground
        (arith, a, s, agree 0, agree 1, agree 2, agree 3, agree (xlen - 2), agree (xlen - 2 + 1)))

-- What ToArray writes of a message that was accepted from a buffer of bytes is accepted by Init,
-- which stores the same message.
pub init-to_array :
    (is_frm_defined : ℕ → Bool) (mem : Memory) (xlen : ℕ) (self m : Message)
    → IsBytes mem
    → init is_frm_defined mem xlen self ≡ (app_no_error, m)
    → init is_frm_defined (holding (to_array m)) (length (to_array m)) self ≡ (app_no_error, m)
init-to_array is_frm_defined mem xlen self m bytes e =
    rw (to_array-init is_frm_defined mem xlen self m bytes e, length-slice)
      (init-Agree is_frm_defined mem (holding (slice mem 0 xlen)) xlen self m (Agree-slice mem xlen)
        e)

-- The frames of the first `n` entries are defined.
abbrev pub AllDefined : (ℕ → Bool) → ℕ → List MsgEntry → Type 0
AllDefined is_frm_defined zero es = Unit {0}
AllDefined is_frm_defined (suc n) [] = Unit {0}
AllDefined is_frm_defined (suc n) (e ∷ es) =
    (is_frm_defined e.frm_id ≡ true) × AllDefined is_frm_defined n es

check_entries-AllDefined :
    (is_frm_defined : ℕ → Bool) (n : ℕ) (es : List MsgEntry)
    → check_entries is_frm_defined n es ≡ true
    → AllDefined is_frm_defined n es
unfolding check_entries
check_entries-AllDefined is_frm_defined zero es h = tt
check_entries-AllDefined is_frm_defined (suc n) [] h = tt
check_entries-AllDefined is_frm_defined (suc n) (e ∷ es) h =
    (ground arith, check_entries-AllDefined is_frm_defined n es (ground arith))

-- The entries that count are frames with an id and a definition, and end the list.
pub record IsValid (is_frm_defined : ℕ → Bool) (m : Message) : Type 0 where
  pub code : m.micode ≡ Mi.sign_set_message
  pub id : m.msg_id ≢ 0
  pub some_entry : 1 ≤ m.entries
  pub at_most : m.entries ≤ length m.msg_entries
  pub ended : Ended m.entries m.msg_entries
  pub defined : AllDefined is_frm_defined m.entries m.msg_entries

-- A message that Init accepts, in an array of six slots, has an id, from one to six entries that
-- all have an id and a defined frame, and no entry past them; its length is that of the header, the
-- entries, the ending 0 if there are fewer than six, and the checksum.
pub init-IsValid :
    (is_frm_defined : ℕ → Bool) (mem : Memory) (xlen : ℕ) (self m : Message)
    → length self.msg_entries ≡ 6
    → init is_frm_defined mem xlen self ≡ (app_no_error, m)
    → IsValid is_frm_defined m
      × (m.entries ≤ 6)
      × (((m.entries ≡ 6) × (xlen ≡ 18)) ⊎ ((m.entries < 6) × (xlen ≡ 7 + 2 * m.entries)))
unfolding header
init-IsValid is_frm_defined mem xlen self m six e =
    let a = init-Accepted is_frm_defined mem xlen self e in
    let far = p-scan mem self.msg_entries 4 in
    rw a.result (
      record {
        code = refl;
        id = a.id;
        some_entry = a.some_entry;
        at_most = omega (arith, far, length-scan mem self.msg_entries 4);
        ended = scan-Ended mem self.msg_entries 4;
        defined = check_entries-AllDefined is_frm_defined _ _ a.defined;
      },
      omega (arith, far),
      omega (arith, far, a.whole),
    )
