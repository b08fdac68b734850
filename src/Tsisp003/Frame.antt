-- ===== src/Tsisp003/Frame.antt =====
-- The frames of src/tsisp003/Frame.cpp and include/tsisp003/Frame.h: text, graphics and
-- high-resolution graphics, and the tests by which their constructors accept a buffer.
-- A buffer of fewer than two bytes is read before its start by the code; the callers pass none.
pub mod Lines
pub mod Accepted
pub mod Agreement
pub mod Tests
use gc.Common.{
  ℕ, zero, suc, ◌+◌, ◌-◌, ◌*◌, ◌/◌, ◌%◌, Bool, true, false, ◌&&◌, ◌||◌, not, List, [], ◌∷◌, ltb,
  leb, ◌==◌, if◌then◌else◌, u8, take, drop, Option,
}
use gc.Utils.Check
use gc.Utils.Cnvt.{get_u16, get_u32}
use gc.Utils.Crc.{crc16_1021}
use gc.Tsisp003.Memory.{Memory, slice}
use gc.Tsisp003.Mi
use gc.Tsisp003.Frame.Lines.{count_lines, to_string_vector}
use gc.Tsisp003.AppError.{
  AppError, app_no_error, data_chksum_error, length_error, colour_not_supported,
  conspicuity_not_supported, frame_too_small, frame_too_large, size_mismatch, unknown_mi,
  text_non_asc, font_not_supported,
}

pub record Font : Type 0 where
  pub columns_per_cell : ℕ
  pub rows_per_cell : ℕ
  pub char_spacing : ℕ
  pub line_spacing : ℕ

unfoldable pub char_width_ws : Font → ℕ
char_width_ws f = u8 (f.columns_per_cell + f.char_spacing)

unfoldable pub char_height_ws : Font → ℕ
char_height_ws f = u8 (f.rows_per_cell + f.line_spacing)

-- The members of UciHardware that frames use; the functions are the bits of its sets.
pub record Hardware : Type 0 where
  pub gfx1_core_len : ℕ
  pub gfx4_core_len : ℕ
  pub gfx24_core_len : ℕ
  pub max_core_len : ℕ
  pub rows : ℕ
  pub columns : ℕ
  pub is_conspicuity : ℕ → Bool
  pub is_annulus : ℕ → Bool
  pub is_txt_frm_colour_valid : ℕ → Bool
  pub is_gfx_frm_colour_valid : ℕ → Bool
  pub is_hrg_frm_colour_valid : ℕ → Bool
  pub is_font : ℕ → Bool
  pub fonts : ℕ → Font
  pub is_ascii_allowed : ℕ → Bool

pub data Kind : Type 0 where
  txt gfx hrg : Kind

-- `frmOffset`.
abbrev pub frm_offset : Kind → ℕ
frm_offset txt = 7
frm_offset gfx = 9
frm_offset hrg = 13

abbrev pub mono_finished : ℕ
mono_finished = 10

abbrev pub multi_4bit : ℕ
multi_4bit = 0x0d

abbrev pub rgb_24bit : ℕ
rgb_24bit = 0x0e

-- A text frame has a font and no rows and columns, which stay without a value here.
pub record Frame : Type 0 where
  pub kind : Kind
  pub micode : ℕ
  pub frm_id : ℕ
  pub frm_rev : ℕ
  pub font : ℕ
  pub pixel_rows : ℕ
  pub pixel_columns : ℕ
  pub colour : ℕ
  pub conspicuity : ℕ
  pub frm_bytes : ℕ
  pub crc : ℕ
  pub raw_data : List ℕ

-- What the constructors read before they test anything. A byte count of four bytes is an int in the
-- code; one from 2 ^ 31 on fails the test of the length either way.
unfoldable pub header : Kind → Memory → Frame
header txt frm = record {
  kind = txt;
  micode = frm 0;
  frm_id = frm 1;
  frm_rev = frm 2;
  font = frm 3;
  pixel_rows = 0;
  pixel_columns = 0;
  colour = frm 4;
  conspicuity = frm 5;
  frm_bytes = frm 6;
  crc = 0;
  raw_data = [];
}
header gfx frm = record {
  kind = gfx;
  micode = frm 0;
  frm_id = frm 1;
  frm_rev = frm 2;
  font = 0;
  pixel_rows = frm 3;
  pixel_columns = frm 4;
  colour = frm 5;
  conspicuity = frm 6;
  frm_bytes = get_u16 (frm 7) (frm 8);
  crc = 0;
  raw_data = [];
}
header hrg frm = record {
  kind = hrg;
  micode = frm 0;
  frm_id = frm 1;
  frm_rev = frm 2;
  font = 0;
  pixel_rows = get_u16 (frm 3) (frm 4);
  pixel_columns = get_u16 (frm 5) (frm 6);
  colour = frm 7;
  conspicuity = frm 8;
  frm_bytes = get_u32 (frm 9) (frm 10) (frm 11) (frm 12);
  crc = 0;
  raw_data = [];
}

-- The first error of two tests.
abbrev pub and_then : AppError → AppError → AppError
and_then app_no_error e = e
and_then e _ = e

abbrev pub unless : Bool → AppError → AppError
unless ok e = if ok then app_no_error else e

-- The text of a text frame, as `ToStringVector` reads it from the raw bytes.
abbrev pub text_of : Frame → List ℕ
text_of f = take f.frm_bytes (drop (frm_offset txt) f.raw_data)

module _ (hw : Hardware) where
  -- The length of the pixels of a colour; 0 stands for a colour that is none.
  abbrev pub core_len : ℕ → ℕ
  core_len colour =
      if ltb colour mono_finished
      then hw.gfx1_core_len
      else if colour == multi_4bit
      then hw.gfx4_core_len
      else if colour == rgb_24bit
      then hw.gfx24_core_len
      else 0

  -- `Frame::CheckLength`.
  unfoldable pub check_length : Frame → ℕ → AppError
  check_length f len =
      let x = core_len f.colour in
      if ltb len (frm_offset f.kind + 2 + hw.gfx1_core_len)
      then frame_too_small
      else if ltb (frm_offset f.kind + 2 + hw.max_core_len) len
      then frame_too_large
      else if not (f.pixel_rows == hw.rows) || not (f.pixel_columns == hw.columns)
      then size_mismatch
      else if x == 0
      then colour_not_supported
      else if f.frm_bytes == x
      then app_no_error
      else if ltb x f.frm_bytes
      then frame_too_large
      else frame_too_small

  abbrev pub nibble_ok : ℕ → Bool
  nibble_ok d = d == 0 || (ltb d mono_finished && hw.is_gfx_frm_colour_valid d)

  -- The loop of `CheckMultiColour` over the bytes of the pixels.
  unfoldable pub all_nibbles_ok : List ℕ → Bool
  all_nibbles_ok [] = true
  all_nibbles_ok (d ∷ ds) = (nibble_ok (d % 16) && nibble_ok (d / 16 % 16)) && all_nibbles_ok ds

  unfoldable pub check_multi_colour : Frame → Memory → AppError
  check_multi_colour f frm =
      if f.colour == multi_4bit
      then unless (all_nibbles_ok (slice frm (frm_offset f.kind) f.frm_bytes)) colour_not_supported
      else app_no_error

  -- How many characters stand in a line, and how many lines there are.
  unfoldable pub text_columns : ℕ → ℕ
  text_columns font = let f = hw.fonts font in (hw.columns + f.char_spacing) / char_width_ws f

  unfoldable pub text_rows : ℕ → ℕ
  text_rows font = let f = hw.fonts font in (hw.rows + f.line_spacing) / char_height_ws f

  -- `FrmTxt::CheckSub`.
  unfoldable pub check_text : Frame → Memory → ℕ → AppError
  check_text f frm len =
      let text = slice frm (frm_offset txt) f.frm_bytes in
      if ltb (255 + frm_offset txt + 2) len
      then frame_too_large
      else if ltb len (frm_offset txt + 2 + 1)
      then frame_too_small
      else if not (f.micode == Mi.sign_set_text_frame)
      then unknown_mi
      else if not (Check.text text)
      then text_non_asc
      else if not (hw.is_font f.font)
      then font_not_supported
      else if ltb (text_rows f.font) (count_lines (text_columns f.font) text)
      then frame_too_large
      else app_no_error

  unfoldable pub check_colour : Frame → Bool
  check_colour f = elim f.kind [
    | txt ↦ hw.is_txt_frm_colour_valid f.colour
    | gfx ↦ hw.is_gfx_frm_colour_valid f.colour
    | hrg ↦ hw.is_hrg_frm_colour_valid f.colour
  ]

  -- `CheckSub` of a frame of pixels, with its MI code.
  unfoldable pub check_pixels : ℕ → Frame → Memory → ℕ → AppError
  check_pixels mi f frm len =
      if not (f.micode == mi)
      then unknown_mi
      else and_then (check_length f len) (check_multi_colour f frm)

  abbrev pub check_sub : Kind → Frame → Memory → ℕ → AppError
  check_sub txt f frm len = check_text f frm len
  check_sub gfx f frm len = check_pixels Mi.sign_set_graphics_frame f frm len
  check_sub hrg f frm len = check_pixels Mi.sign_set_high_resolution_graphics_frame f frm len

  abbrev pub get_conspicuity : ℕ → ℕ
  get_conspicuity b = b % 8

  abbrev pub get_annulus : ℕ → ℕ
  get_annulus b = b / 8 % 4

  abbrev pub bad_conspicuity : ℕ → Bool
  bad_conspicuity b =
      (ltb 5 (get_conspicuity b) || ltb 2 (get_annulus b))
      || (not (hw.is_conspicuity (get_conspicuity b)) || not (hw.is_annulus (get_annulus b)))

  -- `FrameCheck`, of a frame whose `crc` was computed from the buffer.
  unfoldable pub frame_check : Frame → Memory → ℕ → AppError
  frame_check f frm len =
      if not (f.crc == get_u16 (frm (len - 2)) (frm (len - 2 + 1)))
      then data_chksum_error
      else if not (len == frm_offset f.kind + 2 + f.frm_bytes)
      then length_error
      else if not (check_colour f)
      then colour_not_supported
      else and_then (check_sub f.kind f frm len)
          (unless (not (bad_conspicuity f.conspicuity)) conspicuity_not_supported)

  unfoldable pub all_allowed : List ℕ → Bool
  all_allowed [] = true
  all_allowed (c ∷ cs) = hw.is_ascii_allowed c && all_allowed cs

  -- The fields that a constructor has set when it tests the buffer.
  unfoldable pub parsed : Kind → Memory → ℕ → Frame
  parsed kind frm len = record (header kind frm) { crc = crc16_1021 (slice frm 0 (len - 2)) 0 }

  -- The tests of the constructors.
  unfoldable pub verdict : Kind → Memory → ℕ → AppError
  verdict txt frm len =
      let f = parsed txt frm len in
      and_then (frame_check f frm len)
        (unless (all_allowed (slice frm (frm_offset txt) f.frm_bytes)) text_non_asc)
  verdict kind frm len = frame_check (parsed kind frm len) frm len

  -- The constructors: the error, and the frame where there is none. What a constructor leaves behind
  -- an error is deleted by the caller, who looks at the error alone.
  unfoldable pub init : Kind → Memory → ℕ → AppError × Frame
  init kind frm len =
      (verdict kind frm len, record (parsed kind frm len) { raw_data = slice frm 0 len })

  -- `ToStringVector`.
  unfoldable pub text_lines : Frame → Option (List (List ℕ))
  text_lines f = to_string_vector (text_rows f.font) (text_columns f.font) (text_of f)
