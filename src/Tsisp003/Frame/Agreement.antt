-- ===== src/Tsisp003/Frame/Agreement.antt =====
-- The constructors of src/tsisp003/Frame.cpp on two buffers that hold the same packet.
use gc.Common.{ℕ, ◌+◌, ◌-◌, ◌≤◌, ◌≡◌, refl, sym, ap, ap₂, ◌∙◌, arith}
use gc.Utils.Crc.{crc16_1021}
use gc.Tsisp003.Memory.{Memory, Agree, slice-Agree}
use gc.Tsisp003.AppError.{app_no_error}
use gc.Tsisp003.Frame.{
  Hardware, Kind, txt, gfx, hrg, Frame, frm_offset, header, check_multi_colour, check_text,
  check_pixels, check_sub, frame_check, parsed, verdict, init,
}
use gc.Tsisp003.Frame.Accepted.{Checked, frame_check-Checked, and_then-app_no_error}

module _ (hw : Hardware) (frm other : Memory) (len : ℕ) (agree : Agree len frm other) where
  header-Agree : (kind : Kind) → frm_offset kind ≤ len → header kind other ≡ header kind frm
  unfolding header
  header-Agree txt h =
      rw
        (
          agree 0 (omega arith),
          agree 1 (omega arith),
          agree 2 (omega arith),
          agree 3 (omega arith),
          agree 4 (omega arith),
          agree 5 (omega arith),
          agree 6 (omega arith),
        )
        refl
  header-Agree gfx h =
      rw
        (
          agree 0 (omega arith),
          agree 1 (omega arith),
          agree 2 (omega arith),
          agree 3 (omega arith),
          agree 4 (omega arith),
          agree 5 (omega arith),
          agree 6 (omega arith),
          agree 7 (omega arith),
          agree 8 (omega arith),
        )
        refl
  header-Agree hrg h =
      rw
        (
          agree 0 (omega arith),
          agree 1 (omega arith),
          agree 2 (omega arith),
          agree 3 (omega arith),
          agree 4 (omega arith),
          agree 5 (omega arith),
          agree 6 (omega arith),
          agree 7 (omega arith),
          agree 8 (omega arith),
          agree 9 (omega arith),
          agree 10 (omega arith),
          agree 11 (omega arith),
          agree 12 (omega arith),
        )
        refl

  check_multi_colour-Agree :
      (f : Frame)
      → frm_offset f.kind + f.frm_bytes ≤ len
      → check_multi_colour hw f other ≡ check_multi_colour hw f frm
  unfolding check_multi_colour
  check_multi_colour-Agree f h =
      rw (slice-Agree frm other (frm_offset f.kind) f.frm_bytes len agree h) refl

  check_sub-Agree :
      (kind : Kind) (f : Frame)
      → f.kind ≡ kind
      → frm_offset f.kind + f.frm_bytes ≤ len
      → check_sub hw kind f other len ≡ check_sub hw kind f frm len
  unfolding check_text check_pixels
  check_sub-Agree txt f e h = rw (slice-Agree frm other 7 f.frm_bytes len agree (rw e at h)) refl
  check_sub-Agree gfx f e h = rw (check_multi_colour-Agree f h) refl
  check_sub-Agree hrg f e h = rw (check_multi_colour-Agree f h) refl

  frame_check-Agree :
      (f : Frame)
      → len ≡ frm_offset f.kind + 2 + f.frm_bytes
      → frame_check hw f other len ≡ frame_check hw f frm len
  unfolding frame_check
  frame_check-Agree f size =
      rw
        (
          sym (agree (len - 2) (omega (arith, size))),
          sym (agree (len - 2 + 1) (omega (arith, size))),
          check_sub-Agree f.kind f refl (omega (arith, size)),
        )
        refl

  parsed-Agree :
      (kind : Kind) → frm_offset kind ≤ len → parsed hw kind other len ≡ parsed hw kind frm len
  unfolding parsed
  parsed-Agree kind h =
      ap₂ (λ (f : Frame) (c : ℕ). record f { crc = c }) (header-Agree kind h)
        (ap (λ bs. crc16_1021 bs 0) (slice-Agree frm other 0 (len - 2) len agree (omega arith)))

  parsed-kind : (kind : Kind) → (parsed hw kind frm len).kind ≡ kind
  unfolding parsed header
  parsed-kind txt = refl
  parsed-kind gfx = refl
  parsed-kind hrg = refl

  -- The frame that an accepted buffer gives has the length of the buffer.
  pub verdict-Checked :
      (kind : Kind)
      → verdict hw kind frm len ≡ app_no_error
      → Checked hw (parsed hw kind frm len) frm len
        × (len ≡ frm_offset kind + 2 + (parsed hw kind frm len).frm_bytes)
  unfolding verdict
  verdict-Checked txt h =
      let c = frame_check-Checked hw _ frm len (and_then-app_no_error _ _ h).0 in
      (c, c.size ∙ ap (λ k. frm_offset k + 2 + (parsed hw txt frm len).frm_bytes) (parsed-kind txt))
  verdict-Checked gfx h =
      let c = frame_check-Checked hw _ frm len h in
      (c, c.size ∙ ap (λ k. frm_offset k + 2 + (parsed hw gfx frm len).frm_bytes) (parsed-kind gfx))
  verdict-Checked hrg h =
      let c = frame_check-Checked hw _ frm len h in
      (c, c.size ∙ ap (λ k. frm_offset k + 2 + (parsed hw hrg frm len).frm_bytes) (parsed-kind hrg))

  verdict-Agree :
      (kind : Kind)
      → verdict hw kind frm len ≡ app_no_error
      → verdict hw kind other len ≡ verdict hw kind frm len
  unfolding verdict
  verdict-Agree txt h =
      let (c, size) = verdict-Checked txt h in
      let room : 7 ≤ len = omega (arith, size) in
      rw
        (
          parsed-Agree txt room,
          frame_check-Agree (parsed hw txt frm len) c.size,
          slice-Agree frm other 7 (parsed hw txt frm len).frm_bytes len agree (omega (arith, size)),
        )
        refl
  verdict-Agree gfx h =
      let (c, size) = verdict-Checked gfx h in
      let room : 9 ≤ len = omega (arith, size) in
      rw (parsed-Agree gfx room, frame_check-Agree (parsed hw gfx frm len) c.size) refl
  verdict-Agree hrg h =
      let (c, size) = verdict-Checked hrg h in
      let room : 13 ≤ len = omega (arith, size) in
      rw (parsed-Agree hrg room, frame_check-Agree (parsed hw hrg frm len) c.size) refl

  -- A buffer that a constructor accepts gives the same frame as any that holds the same packet.
  pub init-Agree :
      (kind : Kind)
      → (init hw kind frm len).0 ≡ app_no_error
      → init hw kind other len ≡ init hw kind frm len
  unfolding init
  init-Agree kind h =
      let (c, size) = verdict-Checked kind h in
      rw
        (
          verdict-Agree kind h,
          parsed-Agree kind (omega (arith, size)),
          slice-Agree frm other 0 len len agree (omega arith),
        )
        refl
