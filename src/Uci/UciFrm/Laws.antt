-- ===== src/Uci/UciFrm/Laws.antt =====
-- The table of frames of src/uci/UciFrm.cpp: its checksum and its lookups.
use gc.Common.{
  ℕ, zero, suc, ◌+◌, ◌-◌, ◌<◌, ◌≡◌, refl, sym, ap, ◌∙◌, Option, none, some, List, [], ◌∷◌, arith,
  Bool-cases, inl, inr, ltb, ◌==◌, ==_iff, if◌then◌else◌, length, get_or, set, drop, replicate,
  get_or-set_self, get_or-set_ne, length-set, length-replicate, u16,
}
use gc.Uci.Checksum.{total, total-set}
use gc.Utils.Crc.Bitwise.{crc16_1021-lt}
use gc.Tsisp003.Memory.{Memory, IsBytes, slice}
use gc.Tsisp003.AppError.{AppError, app_no_error}
use gc.Tsisp003.Frame
use gc.Tsisp003.Frame.{Hardware, Kind, txt, gfx, hrg, Frame}
use gc.Uci.UciFrm.{
  UciFrm, without, get_frm, weight, store, keep_if_accepted, kind_of, set_kind, set_frm, reset,
}

-- The table has 256 places, a frame stands at the place of its id, and the running checksum is the
-- 16-bit sum of the checksums of the frames, less frame 0.
pub record IsValid (u : UciFrm) : Type 0 where
  pub places : length u.frms ≡ 256
  pub small : (i : ℕ) → weight (get_or u.frms i none) < 65536
  pub own : (i : ℕ) (f : Frame) → get_or u.frms i none ≡ some f → f.frm_id ≡ i
  pub checksum : u.chksum ≡ u16 (total weight (drop 1 u.frms))

-- The place of a frame after another was written.
pub get_or-set {ℓ} :
    {A : Type ℓ} (xs : List A) (i j : ℕ) (v d : A)
    → i < length xs
    → get_or (set xs i v) j d ≡ (if j == i then v else get_or xs j d)
get_or-set xs i j v d h = elim (Bool-cases (j == i)) [
  | inl e ↦ let same : j ≡ i = (==_iff j i).0 e in rw (e, same) (get_or-set_self xs i v d h)
  | inr e ↦ rw e (get_or-set_ne xs i j v d (ground arith))
]

total-set_tail :
    (xs : List (Option Frame)) (i : ℕ) (v : Option Frame)
    → i < length xs
    → (i ≡ 0 → total weight (drop 1 (set xs i v)) ≡ total weight (drop 1 xs))
      × (0 < i
          → total weight (drop 1 (set xs i v)) + weight (get_or xs i none)
            ≡ total weight (drop 1 xs) + weight v)
total-set_tail [] i v h = absurd (omega arith)
total-set_tail (x ∷ xs) zero v h = (λ e. refl, λ pos. absurd (omega arith))
total-set_tail (x ∷ xs) (suc i) v h =
    (λ e. absurd (omega arith), λ pos. total-set weight xs i v none (omega arith))

store_checksum :
    (chksum sum after crc : ℕ) (old : Option Frame)
    → chksum ≡ u16 sum
    → weight old < 65536
    → after + weight old ≡ sum + crc
    → u16 (without chksum old + crc) ≡ u16 after
store_checksum chksum sum after crc none e small swap = omega arith
store_checksum chksum sum after crc (some f) e small swap = omega arith

pub store-IsValid :
    (f : Frame) (u : UciFrm) → IsValid u → f.crc < 65536 → f.frm_id < 256 → IsValid (store f u)
unfolding store
store-IsValid f u v small inside =
    let room : f.frm_id < length u.frms = omega (arith, v.places) in
    let (kept, swapped) = total-set_tail u.frms f.frm_id (some f) room in
    record {
      places = length-set u.frms f.frm_id (some f) ∙ v.places;
      small = λ i.
          rw (get_or-set u.frms f.frm_id i (some f) none room)
            (elim (Bool-cases (i == f.frm_id)) [ inl e ↦ rw e small | inr e ↦ rw e (v.small i) ]);
      own = λ i g found.
          let placed = sym (get_or-set u.frms f.frm_id i (some f) none room) ∙ found in
          elim (Bool-cases (i == f.frm_id)) [
            | inl e ↦ let same = rw e at placed in let here : i ≡ f.frm_id = (==_iff _ _).0 e in cc
            | inr e ↦ v.own i g (rw e at placed)
          ];
      checksum = elim (Bool-cases (ltb 0 f.frm_id)) [
        | inl pos ↦ rw pos (
            store_checksum u.chksum _ _ f.crc (get_or u.frms f.frm_id none) v.checksum
              (v.small f.frm_id) (swapped (ground arith)))
        | inr zeroth ↦ rw zeroth (v.checksum ∙ ap u16 (sym (kept (ground arith))))
      ];
    }

-- What a constructor puts into every frame.
pub init-frm_id :
    (hw : Hardware) (kind : Kind) (buf : Memory) (len : ℕ)
    → let f = (Frame.init hw kind buf len).1 in
      (f.frm_id ≡ buf 1) × (f.frm_rev ≡ buf 2) × (f.crc < 65536)
unfolding Frame.init Frame.parsed Frame.header
init-frm_id hw txt buf len = (refl, refl, crc16_1021-lt (slice buf 0 (len - 2)))
init-frm_id hw gfx buf len = (refl, refl, crc16_1021-lt (slice buf 0 (len - 2)))
init-frm_id hw hrg buf len = (refl, refl, crc16_1021-lt (slice buf 0 (len - 2)))

kept-IsValid :
    (u : UciFrm) (r : AppError × Frame)
    → IsValid u
    → r.1.crc < 65536
    → r.1.frm_id < 256
    → IsValid (keep_if_accepted u r).1
kept-IsValid u (app_no_error, f) v small inside = store-IsValid f u v small inside
kept-IsValid u (_, f) v small inside = v

-- SetFrm keeps the table valid on a buffer of bytes, whether it accepts the buffer or not.
pub set_frm-IsValid :
    (hw : Hardware) (buf : Memory) (len : ℕ) (u : UciFrm)
    → IsBytes buf
    → IsValid u
    → IsValid (set_frm hw buf len u).1
unfolding set_frm
set_frm-IsValid hw buf len u bytes v = go (kind_of (buf 0))
  where
    go : (kind : Option Kind) → IsValid (set_kind hw kind buf len u).1
    go none = v
    go (some kind) =
        let (id, rev, small) = init-frm_id hw kind buf len in
        kept-IsValid u (Frame.init hw kind buf len) v small (omega (arith, id, bytes 1))

total-blank : (n : ℕ) → total weight (replicate n none) ≡ 0
total-blank zero = refl
total-blank (suc n) = omega (arith, total-blank n)

get-blank : (n i : ℕ) → get_or {A = Option Frame} (replicate n none) i none ≡ none
get-blank zero i = refl
get-blank (suc n) zero = refl
get-blank (suc n) (suc i) = get-blank n i

-- Reset leaves no frame defined and a valid table.
pub reset-IsValid : (u : UciFrm) → IsValid (reset u)
unfolding reset
reset-IsValid u = record {
  places = length-replicate {A = Option Frame} 256 none;
  small = λ i. rw (get-blank 256 i) (omega arith);
  own = λ i f found. let blank = sym (get-blank 256 i) ∙ found in absurd (cc);
  checksum = omega (arith, total-blank 255);
}

-- What is stored is found by its id, and nothing else is changed.
pub get_frm-store :
    (f : Frame) (u : UciFrm) (j : ℕ)
    → IsValid u
    → f.frm_id < 256
    → get_frm (store f u) j ≡ (if j == f.frm_id then some f else get_frm u j)
unfolding get_frm store
get_frm-store f u j v inside = get_or-set u.frms f.frm_id j (some f) none (omega (arith, v.places))
