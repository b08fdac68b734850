-- ===== src/Sign/Controller/Atomic/Laws.antt =====
-- DispAtomicFrm of src/sign/GroupIslus.cpp.
use gc.Common.{
  ℕ, zero, suc, ◌+◌, ◌<◌, ◌≡◌, ◌≢◌, refl, sym, ap, ◌∙◌, Bool, true, false, ◌&&◌, not, List, [], ◌∷◌,
  arith, Bool-cases, inl, inr, ◌==◌, ==_iff, if◌then◌else◌, length, get_or, replicate,
  length-replicate,
}
use gc.Tsisp003.Memory.{Memory}
use gc.Tsisp003.AppError.{AppError, app_no_error, syntax_error}
use gc.Sign.Controller.{Sign}
use gc.Sign.Display.{atf, copy_ids}
use gc.Sign.Command
use gc.Sign.Controller.Atomic.{
  is_speed_frame, duplicate, put_frame, atomic_entries, load_atomic, disp_atomic_frm,
}

-- The frame of the first of the entries that are left that names a sign; `d` where none does.
abbrev pub frame_for : Memory → ℕ → ℕ → ℕ → ℕ → ℕ
frame_for cmd zero p sign_id d = d
frame_for cmd (suc left) p sign_id d =
    if sign_id == cmd p then cmd (p + 1) else frame_for cmd left (p + 2) sign_id d

frame_for-duplicate :
    (cmd : Memory) (left p sign_id d : ℕ)
    → duplicate cmd sign_id left p ≡ false
    → frame_for cmd left p sign_id d ≡ d
unfolding duplicate
frame_for-duplicate cmd zero p sign_id d h = refl
frame_for-duplicate cmd (suc left) p sign_id d h =
    ground (arith, frame_for-duplicate cmd left (p + 2) sign_id d)

-- The id of the sign at a place of the group.
abbrev pub id_at : List Sign → ℕ → ℕ
id_at [] j = 0
id_at (s ∷ signs) zero = s.sign_id
id_at (s ∷ signs) (suc j) = id_at signs j

-- Each sign of the group has its own id.
abbrev pub Distinct : List Sign → Type 0
Distinct signs =
    (i j : ℕ) → i < length signs → j < length signs → id_at signs i ≡ id_at signs j → i ≡ j

length-put_frame :
    (sign_id frm_id : ℕ) (signs : List Sign) (ids : List ℕ)
    → length signs ≡ length ids
    → length signs ≡ length (put_frame sign_id frm_id signs ids)
unfolding put_frame
length-put_frame sign_id frm_id [] ids h = h
length-put_frame sign_id frm_id (s ∷ signs) [] h = h
length-put_frame sign_id frm_id (s ∷ signs) (x ∷ ids) h =
    let rest = length-put_frame sign_id frm_id signs ids (omega arith) in
    elim (Bool-cases (sign_id == s.sign_id)) [ inl e ↦ rw e h | inr e ↦ rw e (omega arith) ]

Distinct-tail : (s : Sign) (signs : List Sign) → Distinct (s ∷ signs) → Distinct signs
Distinct-tail s signs h i j hi hj e =
    let same = h (suc i) (suc j) (omega arith) (omega arith) e in omega arith

get-put_frame :
    (sign_id frm_id : ℕ) (signs : List Sign) (ids : List ℕ) (j : ℕ)
    → length signs ≡ length ids
    → Distinct signs
    → j < length signs
    → get_or (put_frame sign_id frm_id signs ids) j 0
      ≡ (if id_at signs j == sign_id then frm_id else get_or ids j 0)
unfolding put_frame
get-put_frame sign_id frm_id [] ids j h d lt = absurd (omega arith)
get-put_frame sign_id frm_id (s ∷ signs) [] j h d lt = absurd (omega arith)
get-put_frame sign_id frm_id (s ∷ signs) (x ∷ ids) zero h d lt = ground arith
get-put_frame sign_id frm_id (s ∷ signs) (x ∷ ids) (suc j) h d lt =
    elim (Bool-cases (sign_id == s.sign_id)) [
      | inl e ↦
          let other : id_at signs j ≢ s.sign_id =
            λ z. let same = d (suc j) 0 lt (omega arith) z in omega arith in
          let off : (id_at signs j == sign_id) ≡ false = ground arith in rw (e, off) refl
      | inr e ↦ rw e (
          get-put_frame sign_id frm_id signs ids j (omega arith) (Distinct-tail s signs d)
            (omega arith))
    ]

-- What is left of three tests that each end the loop with an error.
past_tests :
    (a b c : Bool) (ids : List ℕ) (r : AppError × List ℕ)
    → let whole =
        if a
        then (syntax_error, ids)
        else (if b then (syntax_error, ids) else (if c then (syntax_error, ids) else r)) in
      whole.0 ≡ app_no_error → (a ≡ false) × (b ≡ false) × (c ≡ false) × (whole ≡ r)
past_tests true b c ids r ok = absurd (cc)
past_tests false true c ids r ok = absurd (cc)
past_tests false false true ids r ok = absurd (cc)
past_tests false false false ids r ok = (refl, refl, refl, refl)

-- The loop, where it comes to its end, gives each sign of the group the frame of the entry that names
-- it, and leaves a sign that none names as it was.
pub atomic_entries-frame_for :
    (is_rejected : ℕ → ℕ → Bool) (signs : List Sign) (cmd : Memory) (left p speed j : ℕ)
    (ids : List ℕ)
    → Distinct signs
    → length signs ≡ length ids
    → j < length signs
    → (atomic_entries is_rejected signs cmd left p speed ids).0 ≡ app_no_error
    → get_or (atomic_entries is_rejected signs cmd left p speed ids).1 j 0
      ≡ frame_for cmd left p (id_at signs j) (get_or ids j 0)
unfolding atomic_entries
atomic_entries-frame_for is_rejected signs cmd zero p speed j ids d len lt ok = refl
atomic_entries-frame_for is_rejected signs cmd (suc left) p speed j ids d len lt ok =
    let placed = get-put_frame (cmd p) (cmd (p + 1)) signs ids j len d lt in
    let put = put_frame (cmd p) (cmd (p + 1)) signs ids in
    let speed' = if is_speed_frame (cmd (p + 1)) then cmd (p + 1) else speed in
    let ih =
      atomic_entries-frame_for is_rejected signs cmd left (p + 2) speed' j put d
        (length-put_frame (cmd p) (cmd (p + 1)) signs ids len) lt in
    let none = frame_for-duplicate cmd left (p + 2) (cmd p) in
    let rest = atomic_entries is_rejected signs cmd left (p + 2) speed' put in
    let other_speed =
      is_speed_frame (cmd (p + 1)) && (not (speed == 0) && not (speed == cmd (p + 1))) in
    let (single, steady, allowed, whole) =
      past_tests (duplicate cmd (cmd p) left (p + 2)) other_speed
        (is_rejected (cmd p) (cmd (p + 1))) ids rest ok in
    let reached = ap (λ (r : AppError × List ℕ). r.0) (sym whole) ∙ ok in
    rw whole (
      ih reached
      ∙ rw placed (elim (Bool-cases (id_at signs j == cmd p)) [
        | inl e ↦
            let same : id_at signs j ≡ cmd p = (==_iff _ _).0 e in rw (e, same) (none _ single)
        | inr e ↦ rw e refl
      ]))

length-atomic_entries :
    (is_rejected : ℕ → ℕ → Bool) (signs : List Sign) (cmd : Memory) (left p speed : ℕ)
    (ids : List ℕ)
    → length signs ≡ length ids
    → length signs ≡ length (atomic_entries is_rejected signs cmd left p speed ids).1
unfolding atomic_entries
length-atomic_entries is_rejected signs cmd zero p speed ids len = len
length-atomic_entries is_rejected signs cmd (suc left) p speed ids len =
    let put = put_frame (cmd p) (cmd (p + 1)) signs ids in
    let speed' = if is_speed_frame (cmd (p + 1)) then cmd (p + 1) else speed in
    let ih =
      length-atomic_entries is_rejected signs cmd left (p + 2) speed' put
        (length-put_frame (cmd p) (cmd (p + 1)) signs ids len) in
    ground arith

copy_ids-all : (xs ids : List ℕ) → length xs ≡ length ids → copy_ids xs ids ≡ ids
copy_ids-all [] [] h = refl
copy_ids-all [] (y ∷ ys) h = absurd (omega arith)
copy_ids-all (x ∷ xs) [] h = absurd (omega arith)
copy_ids-all (x ∷ xs) (y ∷ ys) h = ap (λ t. y ∷ t) (copy_ids-all xs ys (omega arith))

get-blank : (n j : ℕ) → get_or (replicate {A = ℕ} n 0) j 0 ≡ 0
get-blank zero j = refl
get-blank (suc n) zero = refl
get-blank (suc n) (suc j) = get-blank n j

loaded :
    (r : AppError × List ℕ) (g : Command.Group)
    → (load_atomic r g).0 ≡ app_no_error
    → (r.0 ≡ app_no_error)
      × ((load_atomic r g).1.display.ds_next.disp_type ≡ atf)
      × ((load_atomic r g).1.display.ds_next.fmpid ≡ copy_ids g.display.ds_next.fmpid r.1)
loaded (app_no_error, ids) g ok = (refl, refl, refl)
loaded (e, ids) g ok = absurd (cc)

-- Where a group of an ISLUS whose signs have ids of their own, and whose status has a place for each of
-- them, accepts atomic frames, what it displays next is a set of atomic frames in which each sign has
-- the frame of the entry that names it, or 0 if no entry names it.
pub disp_atomic_frm-frame_for :
    (is_rejected : ℕ → ℕ → Bool) (signs : List Sign) (cmd : Memory) (g : Command.Group) (j : ℕ)
    → Distinct signs
    → length g.display.ds_next.fmpid ≡ length signs
    → j < length signs
    → (disp_atomic_frm true is_rejected signs cmd g).0 ≡ app_no_error
    → let next = (disp_atomic_frm true is_rejected signs cmd g).1.display.ds_next in
      (next.disp_type ≡ atf)
      × (get_or next.fmpid j 0 ≡ frame_for cmd (length signs) 3 (id_at signs j) 0)
unfolding disp_atomic_frm
disp_atomic_frm-frame_for is_rejected signs cmd g j d places lt ok =
    let n = length signs in
    let blank = replicate {A = ℕ} n 0 in
    let sized : length signs ≡ length blank = sym (length-replicate {A = ℕ} n 0) in
    let r = atomic_entries is_rejected signs cmd n 3 0 blank in
    let (good, type, ids) = loaded r g ok in
    let room = length-atomic_entries is_rejected signs cmd n 3 0 blank sized in
    let found = atomic_entries-frame_for is_rejected signs cmd n 3 0 j blank d sized lt good in
    (
      type,
      rw (ids, copy_ids-all g.display.ds_next.fmpid r.1 (places ∙ room))
          (found ∙ rw (get-blank n j) refl),
    )
