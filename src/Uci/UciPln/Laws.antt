-- ===== src/Uci/UciPln/Laws.antt =====
-- The table of plans of src/uci/UciPln.cpp: its checksum and its lookups.
use gc.Common.{
  ℕ, zero, suc, ◌-◌, ◌≤◌, ◌<◌, ◌≡◌, ◌≢◌, refl, sym, ap, ◌∙◌, Bool, true, false, List, [], ◌∷◌,
  arith, Bool-cases, inl, inr, ◌||◌, ◌==◌, ==_iff, if◌then◌else◌, length, get_or, set,
  get_or-set_self, get_or-set_ne, length-set, length-replicate, replicate, u16,
}
use gc.Utils.Cnvt.{get_u16}
use gc.Uci.Checksum.{total, total-set}
use gc.Tsisp003.Memory.{Memory, IsBytes}
use gc.Tsisp003.AppError.{AppError, app_no_error}
use gc.Tsisp003.Plan
use gc.Tsisp003.Plan.{Plan}
use gc.Tsisp003.Plan.Laws.{Accepted, init-Accepted}
use gc.Uci.UciPln.{UciPln, is_pln_defined, get_pln_rev, store, keep_if_accepted, set_pln, reset}

-- What a plan adds to the checksum of the table.
abbrev pub weight : Plan → ℕ
weight m = if m.micode == 0 then 0 else m.crc

abbrev AllSmall : List Plan → Type 0
AllSmall [] = Unit {0}
AllSmall (m ∷ ms) = (m.crc < 65536) × AllSmall ms

-- The table has 255 places, its checksums are 16-bit numbers, and the running checksum is their sum
-- over the plans that are defined.
pub record IsValid (u : UciPln) : Type 0 where
  pub places : length u.plns ≡ 255
  pub small : AllSmall u.plns
  pub checksum : u.chksum ≡ u16 (total weight u.plns)

AllSmall-get : (ms : List Plan) (i : ℕ) → AllSmall ms → (get_or ms i Plan.blank).crc < 65536
AllSmall-get [] i h = omega arith
AllSmall-get (m ∷ ms) zero h = h.0
AllSmall-get (m ∷ ms) (suc i) h = AllSmall-get ms i h.1

AllSmall-set :
    (ms : List Plan) (i : ℕ) (m : Plan) → AllSmall ms → m.crc < 65536 → AllSmall (set ms i m)
AllSmall-set [] i v h lt = tt
AllSmall-set (m ∷ ms) zero v h lt = (lt, h.1)
AllSmall-set (m ∷ ms) (suc i) v h lt = (h.0, AllSmall-set ms i v h.1 lt)

-- Storing a defined plan at a place of the table keeps the invariant.
pub store-IsValid :
    (pln : Plan) (u : UciPln)
    → IsValid u
    → pln.micode ≢ 0
    → pln.crc < 65536
    → pln.pln_id ≤ 255
    → 1 ≤ pln.pln_id
    → IsValid (store pln u)
unfolding store
store-IsValid pln u v defined small id pos =
    let swapped =
      total-set weight u.plns (pln.pln_id - 1) pln Plan.blank (omega (arith, v.places)) in
    record {
      places = length-set u.plns (pln.pln_id - 1) pln ∙ v.places;
      small = AllSmall-set u.plns (pln.pln_id - 1) pln v.small small;
      checksum = ground (arith, v.checksum, swapped, AllSmall-get u.plns (pln.pln_id - 1) v.small);
    }

header-small : (mem : Memory) (xlen : ℕ) (self : Plan) → (Plan.header mem xlen self).crc < 65536
unfolding Plan.header get_u16
header-small mem xlen self = omega arith

module _ (is_frm_defined is_msg_defined : ℕ → Bool) (buf : Memory) (len : ℕ) (u : UciPln) where
  kept-IsValid :
      (e : AppError) (pln : Plan)
      → IsBytes buf
      → IsValid u
      → Plan.init is_frm_defined is_msg_defined buf len Plan.blank ≡ (e, pln)
      → IsValid (keep_if_accepted u e pln)
  unfolding Plan.header
  kept-IsValid app_no_error pln bytes v e =
      let a = init-Accepted is_frm_defined is_msg_defined buf len Plan.blank e in
      rw a.result (
        store-IsValid _ u v (λ z. omega arith) (header-small buf len Plan.blank)
          (omega (arith, bytes 1)) (omega (arith, a.id)))
  kept-IsValid _ pln bytes v e = v

  -- SetPln keeps the invariant of the table on a buffer of bytes, whether it accepts the buffer
  -- or not.
  pub set_pln-IsValid :
      IsBytes buf → IsValid u → IsValid (set_pln is_frm_defined is_msg_defined buf len u).1
  unfolding set_pln
  set_pln-IsValid bytes v = kept-IsValid _ _ bytes v refl

  -- What an accepted buffer stores.
  pub set_pln-Accepted :
      (v : UciPln)
      → set_pln is_frm_defined is_msg_defined buf len u ≡ (app_no_error, v)
      → (m : Plan) × Accepted is_frm_defined is_msg_defined buf len Plan.blank m × (v ≡ store m u)
  unfolding set_pln
  set_pln-Accepted v e =
      let (r, m) = Plan.init is_frm_defined is_msg_defined buf len Plan.blank in
      let ok : r ≡ app_no_error = ap (λ (p : AppError × UciPln). p.0) e in
      (
        m,
        init-Accepted is_frm_defined is_msg_defined buf len Plan.blank (λ i. (ok i, m)),
        sym (rw ok at (ap (λ (p : AppError × UciPln). p.1) e)),
      )

store-other :
    (m : Plan) (u : UciPln) (j : ℕ)
    → 1 ≤ m.pln_id
    → j ≢ m.pln_id
    → is_pln_defined (store m u) j ≡ is_pln_defined u j
unfolding is_pln_defined store
store-other m u zero pos ne = refl
store-other m u (suc j) pos ne =
    ground (arith, get_or-set_ne u.plns (m.pln_id - 1) (suc j - 1) m Plan.blank)

store_self :
    (m : Plan) (u : UciPln)
    → length u.plns ≡ 255
    → 1 ≤ m.pln_id
    → m.pln_id ≤ 255
    → m.micode ≢ 0
    → (is_pln_defined (store m u) m.pln_id ≡ true) × (get_pln_rev (store m u) m.pln_id ≡ m.pln_rev)
unfolding get_pln_rev store
store_self m u places pos small defined =
    ground (arith, get_or-set_self u.plns (m.pln_id - 1) m Plan.blank)

pub set_pln_lem :
    (is_frm_defined is_msg_defined : ℕ → Bool) (buf : Memory) (len : ℕ) (u v : UciPln)
    → IsBytes buf
    → length u.plns ≡ 255
    → set_pln is_frm_defined is_msg_defined buf len u ≡ (app_no_error, v)
    → (is_pln_defined v (buf 1) ≡ true)
      × (get_pln_rev v (buf 1) ≡ buf 2)
      × ((j : ℕ) → j ≢ buf 1 → is_pln_defined v j ≡ is_pln_defined u j)
unfolding Plan.header
set_pln_lem is_frm_defined is_msg_defined buf len u v bytes places e =
    let (m, a, q) = set_pln-Accepted is_frm_defined is_msg_defined buf len u v e in
    let id : m.pln_id ≡ buf 1 = ap (λ (x : Plan). x.pln_id) a.result in
    let rev : m.pln_rev ≡ buf 2 = ap (λ (x : Plan). x.pln_rev) a.result in
    let defined : m.micode ≢ 0 = rw a.result (λ z. omega arith) in
    let self =
      store_self m u places (omega (arith, id, a.id)) (omega (arith, id, bytes 1)) defined in
    rw (q, ← id, ← rev) (self.0, self.1, λ j ne. store-other m u j (omega (arith, id, a.id)) ne)

get-blank : (n i : ℕ) → (get_or (replicate n Plan.blank) i Plan.blank).micode ≡ 0
get-blank zero i = refl
get-blank (suc n) zero = refl
get-blank (suc n) (suc i) = get-blank n i

total-blank : (n : ℕ) → total weight (replicate n Plan.blank) ≡ 0
total-blank zero = refl
total-blank (suc n) = omega (arith, total-blank n)

AllSmall-blank : (n : ℕ) → AllSmall (replicate n Plan.blank)
AllSmall-blank zero = tt
AllSmall-blank (suc n) = (omega arith, AllSmall-blank n)

-- Reset leaves no plan defined, a checksum of 0, and a valid table.
pub reset-IsValid :
    (u : UciPln) (i : ℕ)
    → IsValid (reset u) × (is_pln_defined (reset u) i ≡ false) × ((reset u).chksum ≡ 0)
unfolding reset is_pln_defined
reset-IsValid u i = (
  record {
    places = length-replicate 255 Plan.blank;
    small = AllSmall-blank 255;
    checksum = omega (arith, total-blank 255);
  },
  ground (arith, get-blank 255 (i - 1)),
  refl,
)

-- After SetPln accepted a buffer of bytes into a table of 255 places, a plan is defined exactly if
-- it is the one of the buffer's id or was defined before, and the one of that id has the revision
-- of the buffer.
pub set_pln-is_pln_defined :
    (is_frm_defined is_msg_defined : ℕ → Bool) (buf : Memory) (len j : ℕ) (u v : UciPln)
    → IsBytes buf
    → length u.plns ≡ 255
    → set_pln is_frm_defined is_msg_defined buf len u ≡ (app_no_error, v)
    → (is_pln_defined v j ≡ (j == buf 1 || is_pln_defined u j)) × (get_pln_rev v (buf 1) ≡ buf 2)
set_pln-is_pln_defined is_frm_defined is_msg_defined buf len j u v bytes places e =
    let (here, rev, others) =
      set_pln_lem is_frm_defined is_msg_defined buf len u v bytes places e in
    (
      elim (Bool-cases (j == buf 1)) [
        | inl f ↦ rw (f, (==_iff j (buf 1)).0 f) here
        | inr f ↦ rw f (others j (ground arith))
      ],
      rev,
    )
