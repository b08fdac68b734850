-- ===== src/Tsisp003/Frame/Tests.antt =====
-- Runs and instances for src/tsisp003/Frame.cpp.
use gc.Common.{ℕ, ◌≡◌, ◌≤◌, refl, true, some, List, [], ◌∷◌, ◌==◌, leb, arith, length}
use gc.Utils.Check
use gc.Utils.Cnvt.{get_u16}
use gc.Utils.Cnvt.Hex.{are_bytes-AreBytes}
use gc.Utils.Crc.{crc16_1021, crc16_loop, crc16_step}
use gc.Utils.Crc.Tables.{crc16_1021_table}
use gc.Tsisp003.Memory.{IsBytes, slice, holding, holding-IsBytes}
use gc.Tsisp003.AppError.{app_no_error}
use gc.Tsisp003.Frame.{
  Font, Hardware, txt, Frame, char_width_ws, char_height_ws, text_columns, text_rows, text_lines,
  check_text, check_colour, frame_check, all_allowed, header, parsed, verdict, init,
}
use gc.Tsisp003.Frame.Lines.{
  count_from, count_lines, write_at, round, fill, blank_grid, to_string_vector, used_rows, c_string,
}
use gc.Tsisp003.Frame.Lines.Layout.{concat, visible, AllWithin}
use gc.Tsisp003.Frame.Accepted.{text_lines-init}

abbrev font : Font
font = record { columns_per_cell = 5; rows_per_cell = 7; char_spacing = 1; line_spacing = 2 }

-- A sign of 18 rows and 20 columns, with room for two lines of three characters.
abbrev pub sign : Hardware
sign = record {
  gfx1_core_len = 45;
  gfx4_core_len = 180;
  gfx24_core_len = 0;
  max_core_len = 180;
  rows = 18;
  columns = 20;
  is_conspicuity = λ i. i == 0;
  is_annulus = λ i. i == 0;
  is_txt_frm_colour_valid = λ i. leb i 9;
  is_gfx_frm_colour_valid = λ i. leb i 9;
  is_hrg_frm_colour_valid = λ i. leb i 9;
  is_font = λ i. i == 1;
  fonts = λ i. font;
  is_ascii_allowed = λ c. true;
}

-- Text frame 5 in red: A BC.
abbrev pub packet : List ℕ
packet = 0x0a ∷ 5 ∷ 1 ∷ 1 ∷ 1 ∷ 0 ∷ 4 ∷ b'A' ∷ b' ' ∷ b'B' ∷ b'C' ∷ 0xd0 ∷ 0x3d ∷ []

pub packet-IsBytes : IsBytes (holding packet)
packet-IsBytes = holding-IsBytes packet (are_bytes-AreBytes packet refl)

abbrev pub frame : Frame
frame = (init sign txt (holding packet) 13).1

pub accepted : verdict sign txt (holding packet) 13 ≡ app_no_error
unfolding verdict frame_check parsed header crc16_1021 crc16_loop crc16_step crc16_1021_table
    get_u16 check_colour check_text Check.text text_rows text_columns char_width_ws char_height_ws
    count_lines count_from all_allowed
accepted = refl

init-accepted : (init sign txt (holding packet) 13).0 ≡ app_no_error
unfolding init
init-accepted = accepted

wide : 1 ≤ text_columns sign frame.font
unfolding text_columns char_width_ws init parsed header
wide = omega arith

tall : 1 ≤ text_rows sign frame.font
unfolding text_rows char_height_ws init parsed header
tall = omega arith

text_lines-init_example :
    (lines : List (List ℕ)) × (text_lines sign frame ≡ some lines)
    × (concat lines ≡ visible (slice (holding packet) 7 4))
    × (length lines ≤ text_rows sign frame.font)
    × AllWithin (text_columns sign frame.font) lines
text_lines-init_example = text_lines-init sign (holding packet) 13 init-accepted wide tall

two_lines : text_lines sign frame ≡ some ((b'A' ∷ []) ∷ (b'B' ∷ b'C' ∷ []) ∷ [])
unfolding text_lines init parsed header text_rows text_columns char_width_ws char_height_ws
    to_string_vector fill round write_at blank_grid used_rows c_string
two_lines = refl
