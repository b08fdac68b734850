-- ===== src/Sign/Display/Loading.antt =====
-- LoadDsNext of src/sign/Group.cpp: what comes to be displayed.
use gc.Common.{
  ℕ, suc, ◌≤◌, ◌≡◌, refl, ap, Bool, true, false, ◌&&◌, ◌||◌, List, [], ◌∷◌, arith, ◌==◌,
  if◌then◌else◌, get_or, set, length, Bool-cases, inl, inr, ◌⊎◌, ◌≢◌, some, get_elem?,
}
use gc.Sign.Display.{
  DispType, n_a, frm, msg, pln, ext, fsw, DispStatus, Display, is_n_a, is_frm, is_msg, is_ext,
  is_fsw, fmpid0, copy_ids, clone, set_frm0, set_n_a, load_waiting, load_default, activate_plan,
  load_ds_next,
}

-- All four have a place for each sign, of which there is one at least, and only an external input waits
-- at `ds_ext`, by one of the numbers 3 to 6.
pub record IsValid (signs : ℕ) (d : Display) : Type 0 where
  pub some_sign : 1 ≤ signs
  pub bak : length d.ds_bak.fmpid ≡ signs
  pub current : length d.ds_current.fmpid ≡ signs
  pub next : length d.ds_next.fmpid ≡ signs
  pub ext : length d.ds_ext.fmpid ≡ signs
  pub waits : (is_n_a d.ds_ext.disp_type || is_ext d.ds_ext.disp_type) ≡ true
  pub number : is_ext d.ds_ext.disp_type ≡ true → (3 ≤ fmpid0 d.ds_ext) × (fmpid0 d.ds_ext ≤ 6)

pub length-copy_ids : (xs ys : List ℕ) → length (copy_ids xs ys) ≡ length xs
length-copy_ids [] ys = refl
length-copy_ids (x ∷ xs) [] = refl
length-copy_ids (x ∷ xs) (y ∷ ys) = ap suc (length-copy_ids xs ys)

copy_ids_all : (xs ys : List ℕ) → length xs ≡ length ys → copy_ids xs ys ≡ ys
copy_ids_all [] [] h = refl
copy_ids_all [] (y ∷ ys) h = absurd (omega arith)
copy_ids_all (x ∷ xs) [] h = absurd (omega arith)
copy_ids_all (x ∷ xs) (y ∷ ys) h = ap (λ zs. y ∷ zs) (copy_ids_all xs ys (omega arith))

-- Within one group a clone is a copy.
pub clone_all : (s ds : DispStatus) → length s.fmpid ≡ length ds.fmpid → clone s ds ≡ ds
clone_all s ds h = ap (λ ids. record ds { fmpid = ids }) (copy_ids_all s.fmpid ds.fmpid h)

pub fmpid0-set : (ids : List ℕ) (id : ℕ) → 1 ≤ length ids → get_or (set ids 0 id) 0 0 ≡ id
fmpid0-set [] id h = absurd (omega arith)
fmpid0-set (x ∷ ids) id h = refl

-- What is displayed is something, and neither frame 0 nor message 0, which stand for the plan.
abbrev pub Settled : DispStatus → Type 0
Settled s =
    (is_n_a s.disp_type ≡ false)
    × (((fmpid0 s == 0) && (is_frm s.disp_type || is_msg s.disp_type)) ≡ false)

load_default-current :
    (rd : Bool × Display) → is_n_a (load_default rd).1.ds_current.disp_type ≡ false
unfolding load_default
load_default-current (r, d) = elim (Bool-cases (is_n_a d.ds_current.disp_type)) [
  | inl e ↦ rw e refl
  | inr e ↦ rw e e
]

activate_plan-Settled :
    (rd : Bool × Display)
    → is_n_a rd.1.ds_current.disp_type ≡ false
    → Settled (activate_plan rd).1.ds_current
unfolding activate_plan
activate_plan-Settled (r, d) some_type =
    elim (Bool-cases (
      (fmpid0 d.ds_current == 0)
      && (is_frm d.ds_current.disp_type || is_msg d.ds_current.disp_type))) [
        | inl e ↦ rw e (refl, ground arith)
        | inr e ↦ rw e (some_type, e)
      ]

-- Whatever waits, after LoadDsNext something is displayed that is neither frame 0 nor message 0.
pub load_ds_next-Settled : (d : Display) → Settled (load_ds_next d).1.ds_current
unfolding load_ds_next
load_ds_next-Settled d =
    activate_plan-Settled (load_default (load_waiting d)) (load_default-current (load_waiting d))

-- The plan in place of frame 0 and message 0.
abbrev pub planned : DispStatus → DispStatus
planned s =
    if (fmpid0 s == 0) && (is_frm s.disp_type || is_msg s.disp_type)
    then record s { disp_type = pln }
    else s

-- The two steps after the first, where something is to be displayed.
load_rest :
    (d : Display)
    → is_n_a d.ds_current.disp_type ≡ false
    → activate_plan (load_default (true, d))
      ≡ (true, record d { ds_current = planned d.ds_current })
unfolding activate_plan load_default
load_rest d some_type =
    elim (Bool-cases (
      (fmpid0 d.ds_current == 0)
      && (is_frm d.ds_current.disp_type || is_msg d.ds_current.disp_type))) [
        | inl e ↦ rw (some_type, e) refl
        | inr e ↦ rw (some_type, e) refl
      ]

load-Settled :
    (d : Display) → Settled d.ds_current → activate_plan (load_default (false, d)) ≡ (false, d)
unfolding activate_plan load_default
load-Settled d (some_type, kept) = rw (some_type, kept) refl

-- The kinds exclude each other.
pub kinds :
    (t : DispType)
    → (is_fsw t ≡ true → (is_n_a t ≡ false) × ((is_frm t || is_msg t) ≡ false))
      × (is_ext t ≡ true
          → (is_n_a t ≡ false) × ((is_frm t || is_msg t) ≡ false) × (is_fsw t ≡ false))
      × (is_n_a t ≡ true → (is_fsw t ≡ false) × (is_ext t ≡ false))
kinds ext = ground arith
kinds fsw = ground arith
kinds n_a = ground arith
kinds _ = ground arith

pub planned-other :
    (s : DispStatus) → (is_frm s.disp_type || is_msg s.disp_type) ≡ false → planned s ≡ s
planned-other s h = elim (Bool-cases (fmpid0 s == 0)) [ inl e ↦ rw (e, h) refl | inr e ↦ rw e refl ]

-- The four cases of what waits.
pub load_ds_next_cases :
    (signs : ℕ) (d : Display)
    → IsValid signs d
    → (is_fsw d.ds_next.disp_type ≡ true
        → load_ds_next d ≡ (
          true,
          record d {
            ds_bak = set_frm0 d.ds_bak;
            ds_current = d.ds_next;
            ds_next = set_n_a d.ds_next;
          },
        ))
      × (is_fsw d.ds_next.disp_type ≡ false
          → is_ext d.ds_ext.disp_type ≡ true
          → load_ds_next d ≡ (
            true,
            record d { ds_bak = d.ds_current; ds_current = d.ds_ext; ds_ext = set_n_a d.ds_ext },
          ))
      × (is_fsw d.ds_next.disp_type ≡ false
          → is_ext d.ds_ext.disp_type ≡ false
          → is_n_a d.ds_next.disp_type ≡ false
          → load_ds_next d ≡ (
            true,
            record d {
              ds_bak = d.ds_current;
              ds_current = planned d.ds_next;
              ds_next = set_n_a d.ds_next;
            },
          ))
      × (is_ext d.ds_ext.disp_type ≡ false
          → is_n_a d.ds_next.disp_type ≡ true
          → Settled d.ds_current
          → load_ds_next d ≡ (false, d))
unfolding load_ds_next load_waiting
load_ds_next_cases signs d v =
    let to_current : (s : DispStatus) → length s.fmpid ≡ signs → clone d.ds_current s ≡ s =
      λ s h. clone_all d.ds_current s (omega (arith, v.current)) in
    let to_bak = clone_all d.ds_bak d.ds_current (omega (arith, v.current, v.bak)) in
    (
      λ f.
          let p = (kinds d.ds_next.disp_type).0 f in
          rw (f, to_current d.ds_next v.next)
            (rw
              (
                load_rest
                    (record d {
                      ds_bak = set_frm0 d.ds_bak;
                      ds_current = d.ds_next;
                      ds_next = set_n_a d.ds_next;
                    })
                    p.0,
                planned-other d.ds_next p.1,
              )
              refl),
      λ f e.
          let p = (kinds d.ds_ext.disp_type).1 e in
          rw (f, e, to_current d.ds_ext v.ext, to_bak)
            (rw
              (
                load_rest
                    (record d {
                      ds_bak = d.ds_current;
                      ds_current = d.ds_ext;
                      ds_ext = set_n_a d.ds_ext;
                    })
                    p.0,
                planned-other d.ds_ext p.1,
              )
              refl),
      λ f e n.
          rw (f, e, n, to_current d.ds_next v.next, to_bak)
            (load_rest
              (record d {
                ds_bak = d.ds_current;
                ds_current = d.ds_next;
                ds_next = set_n_a d.ds_next;
              })
              n),
      λ e n settled.
          let k = (kinds d.ds_next.disp_type).2 n in rw (k.0, e, n) (load-Settled d settled),
    )

-- A frame 0 or message 0 is displayed as the plan, all else as it is.
abbrev pub IsShown : DispStatus → DispStatus → Type 0
IsShown s current =
    (current.fmpid ≡ s.fmpid)
    × (fmpid0 s ≡ 0 → (s.disp_type ≡ frm) ⊎ (s.disp_type ≡ msg) → current.disp_type ≡ pln)
    × (fmpid0 s ≢ 0 → current ≡ s)
    × (s.disp_type ≢ frm → s.disp_type ≢ msg → current ≡ s)

other_type : (t : DispType) → t ≢ frm → t ≢ msg → (is_frm t || is_msg t) ≡ false
other_type frm f m = absurd (f refl)
other_type msg f m = absurd (m refl)
other_type _ f m = refl

planned-fmpid : (s : DispStatus) → (planned s).fmpid ≡ s.fmpid
planned-fmpid s =
    elim (Bool-cases ((fmpid0 s == 0) && (is_frm s.disp_type || is_msg s.disp_type))) [
      | inl e ↦ rw e refl
      | inr e ↦ rw e refl
    ]

planned-IsShown : (s : DispStatus) → IsShown s (planned s)
planned-IsShown s = (
  planned-fmpid s,
  λ z kind.
      let zeroth : (fmpid0 s == 0) ≡ true = ground arith in
      elim kind [ inl f ↦ rw (zeroth, f) refl | inr m ↦ rw (zeroth, m) refl ],
  λ nz. let some_id : (fmpid0 s == 0) ≡ false = ground arith in rw some_id refl,
  λ f m. planned-other s (other_type s.disp_type f m),
)

-- The tests of the types.
is_fsw-false : (t : DispType) → t ≢ fsw → is_fsw t ≡ false
is_fsw-false fsw h = absurd (h refl)
is_fsw-false _ h = refl

is_ext-false : (t : DispType) → t ≢ ext → is_ext t ≡ false
is_ext-false ext h = absurd (h refl)
is_ext-false _ h = refl

is_n_a-false : (t : DispType) → t ≢ n_a → is_n_a t ≡ false
is_n_a-false n_a h = absurd (h refl)
is_n_a-false _ h = refl

set-first : (ids : List ℕ) (n : ℕ) → 1 ≤ n → length ids ≡ n → get_elem? (set ids 0 0) 0 ≡ some 0
set-first [] n h e = absurd (omega (arith, e))
set-first (x ∷ ids) n h e = refl

-- Where what is displayed is settled, LoadDsNext takes one of what waits, and says so, in the order
-- facility switch, external input, command. With the facility switch the backup becomes frame 0 and an
-- external input goes on waiting; else what was displayed becomes the backup. With an external input
-- the command goes on waiting. A command of frame 0 or message 0 displays the plan. What was taken
-- waits no longer, and where nothing waits nothing changes.
pub load_ds_next-order :
    (signs : ℕ) (d : Display)
    → IsValid signs d
    → Settled d.ds_current
    → let (taken, d') = load_ds_next d in
      (d.ds_next.disp_type ≡ fsw
        → (taken ≡ true)
          × (d'.ds_current ≡ d.ds_next)
          × (d'.ds_bak.disp_type ≡ frm)
          × (get_elem? d'.ds_bak.fmpid 0 ≡ some 0)
          × (d'.ds_next.disp_type ≡ n_a)
          × (d'.ds_ext ≡ d.ds_ext))
      × (d.ds_next.disp_type ≢ fsw
          → d.ds_ext.disp_type ≡ ext
          → (taken ≡ true)
            × (d'.ds_current ≡ d.ds_ext)
            × (d'.ds_bak ≡ d.ds_current)
            × (d'.ds_next ≡ d.ds_next)
            × (d'.ds_ext.disp_type ≡ n_a))
      × (d.ds_next.disp_type ≢ fsw
          → d.ds_ext.disp_type ≢ ext
          → d.ds_next.disp_type ≢ n_a
          → (taken ≡ true)
            × IsShown d.ds_next d'.ds_current
            × (d'.ds_bak ≡ d.ds_current)
            × (d'.ds_next.disp_type ≡ n_a)
            × (d'.ds_ext ≡ d.ds_ext))
      × (d.ds_ext.disp_type ≢ ext → d.ds_next.disp_type ≡ n_a → (taken ≡ false) × (d' ≡ d))
load_ds_next-order signs d v settled =
    let (switch, input, command, nothing) = load_ds_next_cases signs d v in
    (
      λ f.
          rw (switch (ap is_fsw f))
            (refl, refl, refl, set-first d.ds_bak.fmpid signs v.some_sign v.bak, refl, refl),
      λ f e.
          rw (input (is_fsw-false d.ds_next.disp_type f) (ap is_ext e))
            (refl, refl, refl, refl, refl),
      λ f e n.
          rw
            (command (is_fsw-false d.ds_next.disp_type f) (is_ext-false d.ds_ext.disp_type e)
              (is_n_a-false d.ds_next.disp_type n))
            (refl, planned-IsShown d.ds_next, refl, refl, refl),
      λ e n. rw (nothing (is_ext-false d.ds_ext.disp_type e) (ap is_n_a n) settled) (refl, refl),
    )
