-- ===== src/Tsisp003/Plan/Laws.antt =====
-- Init and ToArray of src/tsisp003/Plan.cpp.
use gc.Common.{
  ℕ, ◌+◌, ◌-◌, ◌*◌, ◌/◌, ◌%◌, ◌≤◌, ◌<◌, ◌≡◌, refl, sym, ap, ◌∙◌, Bool, true, false, arith, length,
  List, [], ◌∷◌, ◌⊎◌, ◌≢◌, take,
}
use gc.Tsisp003.Memory.{
  Memory, IsBytes, slice, slice-packet, Agree, Agree-slice, holding, length-slice,
}
use gc.Tsisp003.AppError.{app_no_error}
use gc.Tsisp003.Mi
use gc.Tsisp003.Plan.{Plan, PlnEntry, scan, check_entries, overlaps, header, init, to_array}
use gc.Tsisp003.Plan.Overlap.{AllFree, overlaps-AllFree}
use gc.Tsisp003.Plan.Slots.{
  emit-scan, scan-Agree, scan-Ended, p-scan, length-scan, Ended, AllTimed-take,
}

-- An entry of type 1 has a defined frame, one of type 2 a defined message.
abbrev pub AllDefined : (ℕ → Bool) → (ℕ → Bool) → List PlnEntry → Type 0
AllDefined is_frm_defined is_msg_defined [] = Unit {0}
AllDefined is_frm_defined is_msg_defined (e ∷ es) =
    ((e.fm_type ≡ 1 → is_frm_defined e.fm_id ≡ true)
      × (e.fm_type ≡ 2 → is_msg_defined e.fm_id ≡ true))
    × AllDefined is_frm_defined is_msg_defined es

check_entries-AllDefined :
    (is_frm_defined is_msg_defined : ℕ → Bool) (es : List PlnEntry)
    → check_entries is_frm_defined is_msg_defined es ≡ true
    → AllDefined is_frm_defined is_msg_defined es
unfolding check_entries
check_entries-AllDefined p q [] h = tt
check_entries-AllDefined p q (e ∷ es) h =
    (((λ t. ground arith), (λ t. ground arith)), check_entries-AllDefined p q es (ground arith))

module _ (is_frm_defined is_msg_defined : ℕ → Bool) where
  -- What acceptance by Init says, test by test.
  pub record Accepted (mem : Memory) (xlen : ℕ) (self m : Plan) : Type 0 where
    pub code : mem 0 ≡ Mi.sign_set_plan
    pub enough : 13 ≤ xlen
    pub not_more : xlen ≤ 42
    pub id : mem 1 ≢ 0
    pub top_day : mem 3 / 128 % 2 ≡ 0
    pub some_day : mem 3 % 128 ≢ 0
    pub complete : (scan mem self.pln_entries 4).ended ≡ true
    pub some_entry : (scan mem self.pln_entries 4).count ≢ 0
    pub whole : (scan mem self.pln_entries 4).p + 2 ≡ xlen
    pub free : let s = scan mem self.pln_entries 4 in overlaps (take s.count s.slots) ≡ false
    pub defined :
        let s = scan mem self.pln_entries 4 in
        check_entries is_frm_defined is_msg_defined (take s.count s.slots) ≡ true
    pub result :
        let s = scan mem self.pln_entries 4 in
        m ≡ record (header mem xlen self) {
          entries = s.count;
          pln_entries = s.slots;
          micode = Mi.sign_set_plan;
        }

  pub init-Accepted :
      (mem : Memory) (xlen : ℕ) (self : Plan) {m : Plan}
      → init is_frm_defined is_msg_defined mem xlen self ≡ (app_no_error, m)
      → Accepted mem xlen self m
  unfolding init
  init-Accepted mem xlen self e = ground arith

  pub Accepted-init :
      (mem : Memory) (xlen : ℕ) (self m : Plan)
      → Accepted mem xlen self m
      → init is_frm_defined is_msg_defined mem xlen self ≡ (app_no_error, m)
  unfolding init
  Accepted-init mem xlen self m a = ground arith

  -- A plan that Init accepted from a buffer of bytes is written back by ToArray as exactly the
  -- xlen bytes it was read from.
  pub to_array-init_plan :
      (mem : Memory) (xlen : ℕ) (self m : Plan)
      → IsBytes mem
      → init is_frm_defined is_msg_defined mem xlen self ≡ (app_no_error, m)
      → to_array m ≡ slice mem 0 xlen
  unfolding to_array header
  to_array-init_plan mem xlen self m bytes e =
      let a = init-Accepted mem xlen self e in
      let (n, q, w) = emit-scan mem self.pln_entries 4 a.complete in
      let size : xlen ≡ 4 + (n + 2) = omega (arith, a.whole) in
      let crc_at : xlen - 2 ≡ 4 + n = omega arith in
      rw (a.result, w, crc_at)
        (slice-packet mem Mi.sign_set_plan n bytes a.code ∙ ap (slice mem 0) (sym size))

  -- Whether a buffer is accepted, and what is stored, depends on its first xlen bytes alone.
  pub init-Agree :
      (mem other : Memory) (xlen : ℕ) (self m : Plan)
      → Agree xlen mem other
      → init is_frm_defined is_msg_defined mem xlen self ≡ (app_no_error, m)
      → init is_frm_defined is_msg_defined other xlen self ≡ (app_no_error, m)
  unfolding header
  init-Agree mem other xlen self m agree e =
      let a = init-Accepted mem xlen self e in
      let s : scan other self.pln_entries 4 ≡ scan mem self.pln_entries 4 =
        scan-Agree xlen mem other self.pln_entries 4 agree a.complete (omega (arith, a.whole)) in
      Accepted-init other xlen self m (
        ground
          (arith, a, s, agree 0, agree 1, agree 2, agree 3, agree (xlen - 2), agree (xlen - 2 + 1)))

  -- What ToArray writes of a plan that was accepted from a buffer of bytes is accepted by Init,
  -- which stores the same plan.
  pub init-to_array_plan :
      (mem : Memory) (xlen : ℕ) (self m : Plan)
      → IsBytes mem
      → init is_frm_defined is_msg_defined mem xlen self ≡ (app_no_error, m)
      → init is_frm_defined is_msg_defined (holding (to_array m)) (length (to_array m)) self
        ≡ (app_no_error, m)
  init-to_array_plan mem xlen self m bytes e =
      rw (to_array-init_plan mem xlen self m bytes e, length-slice)
        (init-Agree mem (holding (slice mem 0 xlen)) xlen self m (Agree-slice mem xlen) e)

  pub record IsValid (m : Plan) : Type 0 where
    pub code : m.micode ≡ Mi.sign_set_plan
    pub id : m.pln_id ≢ 0
    pub some_day : m.weekdays % 128 ≢ 0
    pub some_entry : 1 ≤ m.entries
    pub at_most : m.entries ≤ length m.pln_entries
    pub ended : Ended m.entries m.pln_entries
    pub free : AllFree (take m.entries m.pln_entries)
    pub defined : AllDefined is_frm_defined is_msg_defined (take m.entries m.pln_entries)

  -- A plan that Init accepts, in an array of six slots, has an id, a weekday, and from one to six
  -- entries of type 1 or 2, with times of a day and a defined frame or message; each two entries
  -- are disjoint in time or the earlier surrounds the later, and no entry follows them. Its
  -- length is that of the header, the entries, the ending 0 if there are fewer than six, and the
  -- checksum.
  pub init-IsValid_plan :
      (mem : Memory) (xlen : ℕ) (self m : Plan)
      → length self.pln_entries ≡ 6
      → init is_frm_defined is_msg_defined mem xlen self ≡ (app_no_error, m)
      → IsValid m
        × (m.entries ≤ 6)
        × (((m.entries ≡ 6) × (xlen ≡ 42)) ⊎ ((m.entries < 6) × (xlen ≡ 7 + 6 * m.entries)))
  unfolding header
  init-IsValid_plan mem xlen self m six e =
      let a = init-Accepted mem xlen self e in
      let far = p-scan mem self.pln_entries 4 a.complete in
      let ended = scan-Ended mem self.pln_entries 4 a.complete in
      rw a.result (
        record {
          code = refl;
          id = a.id;
          some_day = a.some_day;
          some_entry = omega (arith, a.some_entry);
          at_most = omega (arith, far, length-scan mem self.pln_entries 4);
          ended = ended;
          free = (overlaps-AllFree _ (AllTimed-take _ _ ended)).0 a.free;
          defined = check_entries-AllDefined is_frm_defined is_msg_defined _ a.defined;
        },
        omega (arith, far),
        omega (arith, far, a.whole),
      )
