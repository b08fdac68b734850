-- ===== src/Uci/UciMsg/Laws.antt =====
-- The table of messages of src/uci/UciMsg.cpp: its checksum and its lookups.
use gc.Common.{
  ℕ, zero, suc, ◌-◌, ◌≤◌, ◌<◌, ◌≡◌, ◌≢◌, refl, sym, ap, ◌∙◌, Bool, true, false, List, [], ◌∷◌, map,
  arith, Bool-cases, inl, inr, ◌||◌, ◌==◌, ==_iff, if◌then◌else◌, length, get_or, set,
  get_or-set_self, get_or-set_ne, length-set, length-map, length-replicate, replicate, u16,
}
use gc.Utils.Cnvt.{get_u16}
use gc.Uci.Checksum.{total, total-set}
use gc.Tsisp003.Memory.{Memory, IsBytes}
use gc.Tsisp003.AppError.{AppError, app_no_error}
use gc.Tsisp003.Message
use gc.Tsisp003.Message.{Message, MsgEntry}
use gc.Tsisp003.Message.Laws.{Accepted, init-Accepted}
use gc.Uci.UciMsg.{
  UciMsg, empty, is_msg_defined, get_msg_rev, store, keep_if_accepted, set_msg, undefine, reset,
}

-- What a message adds to the checksum of the table.
abbrev pub weight : Message → ℕ
weight m = if m.micode == 0 then 0 else m.crc

abbrev AllSmall : List Message → Type 0
AllSmall [] = Unit {0}
AllSmall (m ∷ ms) = (m.crc < 65536) × AllSmall ms

-- The table has 255 places, its checksums are 16-bit numbers, and the running checksum is their sum
-- over the messages that are defined.
pub record IsValid (u : UciMsg) : Type 0 where
  pub places : length u.msgs ≡ 255
  pub small : AllSmall u.msgs
  pub checksum : u.chksum ≡ u16 (total weight u.msgs)

AllSmall-get : (ms : List Message) (i : ℕ) → AllSmall ms → (get_or ms i Message.blank).crc < 65536
AllSmall-get [] i h = omega arith
AllSmall-get (m ∷ ms) zero h = h.0
AllSmall-get (m ∷ ms) (suc i) h = AllSmall-get ms i h.1

AllSmall-set :
    (ms : List Message) (i : ℕ) (m : Message) → AllSmall ms → m.crc < 65536 → AllSmall (set ms i m)
AllSmall-set [] i v h lt = tt
AllSmall-set (m ∷ ms) zero v h lt = (lt, h.1)
AllSmall-set (m ∷ ms) (suc i) v h lt = (h.0, AllSmall-set ms i v h.1 lt)

-- Storing a defined message at a place of the table keeps the invariant.
pub store-IsValid :
    (msg : Message) (u : UciMsg)
    → IsValid u
    → msg.micode ≢ 0
    → msg.crc < 65536
    → msg.msg_id ≤ 255
    → 1 ≤ msg.msg_id
    → IsValid (store msg u)
unfolding store
store-IsValid msg u v defined small id pos =
    let swapped =
      total-set weight u.msgs (msg.msg_id - 1) msg Message.blank (omega (arith, v.places)) in
    record {
      places = length-set u.msgs (msg.msg_id - 1) msg ∙ v.places;
      small = AllSmall-set u.msgs (msg.msg_id - 1) msg v.small small;
      checksum = ground (arith, v.checksum, swapped, AllSmall-get u.msgs (msg.msg_id - 1) v.small);
    }

header-small :
    (mem : Memory) (xlen : ℕ) (self : Message) → (Message.header mem xlen self).crc < 65536
unfolding Message.header get_u16
header-small mem xlen self = omega arith

module _ (is_frm_defined : ℕ → Bool) (buf : Memory) (len : ℕ) (u : UciMsg) where
  kept-IsValid :
      (e : AppError) (msg : Message)
      → IsBytes buf
      → IsValid u
      → Message.init is_frm_defined buf len Message.blank ≡ (e, msg)
      → IsValid (keep_if_accepted u e msg)
  unfolding Message.header
  kept-IsValid app_no_error msg bytes v e =
      let a = init-Accepted is_frm_defined buf len Message.blank e in
      rw a.result (
        store-IsValid _ u v (λ z. omega arith) (header-small buf len Message.blank)
          (omega (arith, bytes 1)) (omega (arith, a.id)))
  kept-IsValid _ msg bytes v e = v

  -- SetMsg keeps the invariant of the table on a buffer of bytes, whether it accepts the buffer
  -- or not.
  pub set_msg-IsValid : IsBytes buf → IsValid u → IsValid (set_msg is_frm_defined buf len u).1
  unfolding set_msg
  set_msg-IsValid bytes v = kept-IsValid _ _ bytes v refl

  -- What an accepted buffer stores.
  pub set_msg-Accepted :
      (v : UciMsg)
      → set_msg is_frm_defined buf len u ≡ (app_no_error, v)
      → (m : Message) × Accepted is_frm_defined buf len Message.blank m × (v ≡ store m u)
  unfolding set_msg
  set_msg-Accepted v e =
      let (r, m) = Message.init is_frm_defined buf len Message.blank in
      let ok : r ≡ app_no_error = ap (λ (p : AppError × UciMsg). p.0) e in
      (
        m,
        init-Accepted is_frm_defined buf len Message.blank (λ i. (ok i, m)),
        sym (rw ok at (ap (λ (p : AppError × UciMsg). p.1) e)),
      )

store-other :
    (m : Message) (u : UciMsg) (j : ℕ)
    → 1 ≤ m.msg_id
    → j ≢ m.msg_id
    → is_msg_defined (store m u) j ≡ is_msg_defined u j
unfolding is_msg_defined store
store-other m u zero pos ne = refl
store-other m u (suc j) pos ne =
    ground (arith, get_or-set_ne u.msgs (m.msg_id - 1) (suc j - 1) m Message.blank)

store_self :
    (m : Message) (u : UciMsg)
    → length u.msgs ≡ 255
    → 1 ≤ m.msg_id
    → m.msg_id ≤ 255
    → m.micode ≢ 0
    → (is_msg_defined (store m u) m.msg_id ≡ true) × (get_msg_rev (store m u) m.msg_id ≡ m.msg_rev)
unfolding get_msg_rev store
store_self m u places pos small defined =
    ground (arith, get_or-set_self u.msgs (m.msg_id - 1) m Message.blank)

pub set_msg_lem :
    (is_frm_defined : ℕ → Bool) (buf : Memory) (len : ℕ) (u v : UciMsg)
    → IsBytes buf
    → length u.msgs ≡ 255
    → set_msg is_frm_defined buf len u ≡ (app_no_error, v)
    → (is_msg_defined v (buf 1) ≡ true)
      × (get_msg_rev v (buf 1) ≡ buf 2)
      × ((j : ℕ) → j ≢ buf 1 → is_msg_defined v j ≡ is_msg_defined u j)
unfolding Message.header
set_msg_lem is_frm_defined buf len u v bytes places e =
    let (m, a, q) = set_msg-Accepted is_frm_defined buf len u v e in
    let id : m.msg_id ≡ buf 1 = ap (λ (x : Message). x.msg_id) a.result in
    let rev : m.msg_rev ≡ buf 2 = ap (λ (x : Message). x.msg_rev) a.result in
    let defined : m.micode ≢ 0 = rw a.result (λ z. omega arith) in
    let self =
      store_self m u places (omega (arith, id, a.id)) (omega (arith, id, bytes 1)) defined in
    rw (q, ← id, ← rev) (self.0, self.1, λ j ne. store-other m u j (omega (arith, id, a.id)) ne)

total-undefine : (ms : List Message) → total weight (map undefine ms) ≡ 0
total-undefine [] = refl
total-undefine (m ∷ ms) = omega (arith, total-undefine ms)

AllSmall-undefine : (ms : List Message) → AllSmall ms → AllSmall (map undefine ms)
AllSmall-undefine [] h = tt
AllSmall-undefine (m ∷ ms) h = (h.0, AllSmall-undefine ms h.1)

get-undefine : (ms : List Message) (i : ℕ) → (get_or (map undefine ms) i Message.blank).micode ≡ 0
get-undefine [] i = refl
get-undefine (m ∷ ms) zero = refl
get-undefine (m ∷ ms) (suc i) = get-undefine ms i

-- Reset leaves no message defined, a checksum of 0, and a valid table.
pub reset-IsValid :
    (u : UciMsg) (i : ℕ)
    → IsValid u
    → IsValid (reset u) × (is_msg_defined (reset u) i ≡ false) × ((reset u).chksum ≡ 0)
unfolding reset is_msg_defined
reset-IsValid u i v = (
  record {
    places = length-map u.msgs undefine ∙ v.places;
    small = AllSmall-undefine u.msgs v.small;
    checksum = omega (arith, total-undefine u.msgs);
  },
  ground (arith, get-undefine u.msgs (i - 1)),
  refl,
)

-- After SetMsg accepted a buffer of bytes into a table of 255 places, a message is defined exactly
-- if it is the one of the buffer's id or was defined before, and the one of that id has the
-- revision of the buffer.
pub set_msg-is_msg_defined :
    (is_frm_defined : ℕ → Bool) (buf : Memory) (len j : ℕ) (u v : UciMsg)
    → IsBytes buf
    → length u.msgs ≡ 255
    → set_msg is_frm_defined buf len u ≡ (app_no_error, v)
    → (is_msg_defined v j ≡ (j == buf 1 || is_msg_defined u j)) × (get_msg_rev v (buf 1) ≡ buf 2)
set_msg-is_msg_defined is_frm_defined buf len j u v bytes places e =
    let (here, rev, others) = set_msg_lem is_frm_defined buf len u v bytes places e in
    (
      elim (Bool-cases (j == buf 1)) [
        | inl f ↦ rw (f, (==_iff j (buf 1)).0 f) here
        | inr f ↦ rw f (others j (ground arith))
      ],
      rev,
    )

AllSmall-blank : (n : ℕ) → AllSmall (replicate n Message.blank)
AllSmall-blank zero = tt
AllSmall-blank (suc n) = (omega arith, AllSmall-blank n)

total-blank : (n : ℕ) → total weight (replicate n Message.blank) ≡ 0
total-blank zero = refl
total-blank (suc n) = omega (arith, total-blank n)

-- The table of the start is valid.
pub empty-IsValid : IsValid empty
empty-IsValid = record {
  places = length-replicate 255 Message.blank;
  small = AllSmall-blank 255;
  checksum = omega (arith, total-blank 255);
}
