-- ===== src/Tsisp003/Frame/Accepted.antt =====
-- What a frame of src/tsisp003/Frame.cpp is whose constructor reports no error.
use gc.Common.{
  ℕ, ◌+◌, ◌-◌, ◌≤◌, ◌≡◌, refl, ap, ◌∙◌, true, false, some, List, [], ◌∷◌, arith, ◌==◌, ==_iff,
  length, take, drop, Bool-cases, inl, inr,
}
use gc.Utils.Check
use gc.Utils.Cnvt.{get_u16}
use gc.Tsisp003.Memory.{Memory, slice, take-slice, drop-slice}
use gc.Tsisp003.AppError.{AppError, app_no_error}
use gc.Tsisp003.Frame.{
  Hardware, txt, Frame, frm_offset, header, and_then, text_columns, text_rows, check_text,
  check_colour, check_sub, bad_conspicuity, frame_check, parsed, verdict, init, text_of, text_lines,
}
use gc.Tsisp003.Frame.Lines.{count_lines}
use gc.Tsisp003.Frame.Lines.Layout.{NoZero, concat, visible, AllWithin}
use gc.Tsisp003.Frame.Lines.Filled.{to_string_vector-visible}

pub and_then-app_no_error :
    (a b : AppError) → and_then a b ≡ app_no_error → (a ≡ app_no_error) × (b ≡ app_no_error)
and_then-app_no_error app_no_error b h = (refl, h)
and_then-app_no_error _ b h = cc

-- What FrameCheck has tested, less the tests of the kind.
pub record Checked (hw : Hardware) (f : Frame) (frm : Memory) (len : ℕ) : Type 0 where
  pub crc : f.crc ≡ get_u16 (frm (len - 2)) (frm (len - 2 + 1))
  pub size : len ≡ frm_offset f.kind + 2 + f.frm_bytes
  pub colour : check_colour hw f ≡ true
  pub sub : check_sub hw f.kind f frm len ≡ app_no_error
  pub conspicuity : bad_conspicuity hw f.conspicuity ≡ false

pub frame_check-Checked :
    (hw : Hardware) (f : Frame) (frm : Memory) (len : ℕ)
    → frame_check hw f frm len ≡ app_no_error
    → Checked hw f frm len
unfolding frame_check
frame_check-Checked hw f frm len h =
    elim (Bool-cases (f.crc == get_u16 (frm (len - 2)) (frm (len - 2 + 1)))) [
      | inr e ↦ absurd (let r = rw e at h in cc)
      | inl crc ↦ elim (Bool-cases (len == frm_offset f.kind + 2 + f.frm_bytes)) [
        | inr e ↦ absurd (let r = rw (crc, e) at h in cc)
        | inl size ↦ elim (Bool-cases (check_colour hw f)) [
          | inr e ↦ absurd (let r = rw (crc, size, e) at h in cc)
          | inl colour ↦
              let (sub, cons) = and_then-app_no_error _ _ (rw (crc, size, colour) at h) in
              record {
                crc = (==_iff _ _).0 crc;
                size = (==_iff _ _).0 size;
                colour = colour;
                sub = sub;
                conspicuity = elim (Bool-cases (bad_conspicuity hw f.conspicuity)) [
                  | inl bad ↦ absurd (let r = rw bad at cons in cc)
                  | inr fine ↦ fine
                ];
              }
        ]
      ]
    ]

NoZero-text : (cs : List ℕ) → Check.text cs ≡ true → NoZero cs
unfolding Check.text
NoZero-text [] h = tt
NoZero-text (c ∷ cs) h = (ground arith, NoZero-text cs (ground arith))

check_text-fits :
    (hw : Hardware) (f : Frame) (frm : Memory) (len : ℕ)
    → check_text hw f frm len ≡ app_no_error
    → (Check.text (slice frm (frm_offset txt) f.frm_bytes) ≡ true)
      × (count_lines (text_columns hw f.font) (slice frm (frm_offset txt) f.frm_bytes)
          ≤ text_rows hw f.font)
unfolding check_text
check_text-fits hw f frm len h = ground arith

-- A text frame that its constructor accepts, whose font has room for a character in a line and for a
-- line in the sign, is displayed whole: ToStringVector breaks its text into as many lines as fit, none
-- too long, which hold its characters in order, less the spaces.
pub text_lines-init :
    (hw : Hardware) (frm : Memory) (len : ℕ)
    → let f = (init hw txt frm len).1 in
      (init hw txt frm len).0 ≡ app_no_error
      → 1 ≤ text_columns hw f.font
      → 1 ≤ text_rows hw f.font
      → (lines : List (List ℕ)) × (text_lines hw f ≡ some lines)
        × (concat lines ≡ visible (slice frm 7 (frm 6)))
        × (length lines ≤ text_rows hw f.font)
        × AllWithin (text_columns hw f.font) lines
unfolding init verdict parsed header text_lines
text_lines-init hw frm len ok wide tall =
    let f = parsed hw txt frm len in
    let c = frame_check-Checked hw f frm len (and_then-app_no_error _ _ ok).0 in
    let (plain, fits) = check_text-fits hw f frm len c.sub in
    let total : len ≡ 7 + (frm 6 + 2) = omega (arith, c.size) in
    let text : text_of (init hw txt frm len).1 ≡ slice frm 7 (frm 6) =
      ap (λ n. take (frm 6) (drop 7 (slice frm 0 n))) total
      ∙ ap (take (frm 6)) (drop-slice frm 7 0 (frm 6 + 2))
      ∙ take-slice frm 7 (frm 6) 2 in
    let (lines, made, whole, count, within) =
      to_string_vector-visible (text_rows hw (frm 3)) (text_columns hw (frm 3))
        (slice frm 7 (frm 6)) wide tall (NoZero-text _ plain) fits in
    (lines, rw text made, whole, omega (arith, count, fits), within)
