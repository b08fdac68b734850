-- ===== src/Uci/UciFrm.antt =====
-- Class UciFrm of src/uci/UciFrm.cpp and include/uci/UciFrm.h: the table of frames, with its checksum,
-- and the files that keep them.
pub mod Laws
pub mod Persistence
mod Tests
use gc.Common.{
  ℕ, zero, suc, ◌+◌, ◌-◌, ◌*◌, ◌/◌, Bool, true, false, ◌&&◌, ◌||◌, not, Option, none, some, List,
  [], ◌∷◌, ◌++◌, ltb, leb, ◌==◌, if◌then◌else◌, length, get_or, set, replicate, u16, sub_u16, take,
  min,
}
use gc.Utils.Cnvt.{parse_bytes, bytes_to_asc, put_u16}
use gc.Utils.Crc.{crc16_1021}
use gc.Tsisp003.Memory.{Memory, slice}
use gc.Tsisp003.Mi
use gc.Tsisp003.AppError.{AppError, app_no_error, unknown_mi}
use gc.Tsisp003.Frame
use gc.Tsisp003.Frame.{Hardware, Kind, txt, gfx, hrg, Frame}

-- The array of 256 pointers; frame i stands at index i.
pub record UciFrm : Type 0 where
  pub frms : List (Option Frame)
  pub chksum : ℕ

-- What the constructor leaves.
abbrev pub empty : UciFrm
empty = record { frms = replicate 256 none; chksum = 0 }

unfoldable pub get_frm : UciFrm → ℕ → Option Frame
get_frm u i = get_or u.frms i none

abbrev pub is_some : Option Frame → Bool
is_some none = false
is_some (some f) = true

unfoldable pub is_frm_defined : UciFrm → ℕ → Bool
is_frm_defined u i = is_some (get_or u.frms i none)

unfoldable pub get_frm_rev : UciFrm → ℕ → ℕ
get_frm_rev u i = elim (get_or u.frms i none) [ none ↦ 0 | some f ↦ f.frm_rev ]

unfoldable pub is_frm_flashing : UciFrm → ℕ → Bool
is_frm_flashing u i = elim (get_or u.frms i none) [
  | none ↦ false
  | some f ↦ not (f.conspicuity == 0)
]

-- What a place of the table adds to the checksum.
abbrev pub weight : Option Frame → ℕ
weight none = 0
weight (some f) = f.crc

abbrev pub without : ℕ → Option Frame → ℕ
without chksum none = chksum
without chksum (some f) = sub_u16 chksum f.crc

-- What `SetFrm` does with a frame that has no error.
unfoldable pub store : Frame → UciFrm → UciFrm
store f u = record {
  frms = set u.frms f.frm_id (some f);
  chksum =
      if ltb 0 f.frm_id
      then u16 (without u.chksum (get_or u.frms f.frm_id none) + f.crc)
      else u.chksum;
}

abbrev pub keep_if_accepted : UciFrm → AppError × Frame → AppError × UciFrm
keep_if_accepted u (app_no_error, f) = (app_no_error, store f u)
keep_if_accepted u (e, f) = (e, u)

-- The kind of frame of an MI code.
unfoldable pub kind_of : ℕ → Option Kind
kind_of mi =
    if mi == Mi.sign_set_text_frame
    then some txt
    else if mi == Mi.sign_set_graphics_frame
    then some gfx
    else if mi == Mi.sign_set_high_resolution_graphics_frame
    then some hrg
    else none

abbrev pub set_kind : Hardware → Option Kind → Memory → ℕ → UciFrm → AppError × UciFrm
set_kind hw none buf len u = (unknown_mi, u)
set_kind hw (some kind) buf len u = keep_if_accepted u (Frame.init hw kind buf len)

unfoldable pub set_frm : Hardware → Memory → ℕ → UciFrm → AppError × UciFrm
unfolding kind_of
set_frm hw buf len u = set_kind hw (kind_of (buf 0)) buf len u

unfoldable pub reset : UciFrm → UciFrm
reset u = empty

unfoldable pub delete_frm0 : UciFrm → UciFrm
delete_frm0 u = record u { frms = set u.frms 0 none }

-- The text that `SaveFrm` writes into the file of a frame: its bytes and the end of a line.
unfoldable pub saved_text : Frame → List ℕ
saved_text f = bytes_to_asc f.raw_data ++ b'\n' ∷ []

-- A buffer after bytes were written into it from an offset on; the rest stays.
unfoldable pub overwrite : ℕ → List ℕ → Memory → Memory
overwrite p bs b i = if leb p i && ltb i (p + length bs) then get_or bs (i - p) 0 else b i

-- The largest frame, by the hardware.
abbrev pub max_frm_size : Hardware → ℕ
max_frm_size hw = hw.max_core_len + 13 + 2

-- The end of a line is not part of the text.
unfoldable pub strip_newline : List ℕ → List ℕ
strip_newline [] = []
strip_newline (c ∷ []) = if c == b'\n' then [] else c ∷ []
strip_newline (c ∷ d ∷ cs) = c ∷ strip_newline (d ∷ cs)

-- A checksum of zeros stands for one that is to be made.
unfoldable pub make_crc : ℕ → Memory → Memory
make_crc len b =
    if b (len - 2) == 0 && b (len - 1) == 0
    then overwrite (len - 2) (put_u16 (crc16_1021 (slice b 0 (len - 2)) 0)) b
    else b

-- The rest of a round, with the buffer, whether the text was parsed whole, and the bytes it stands for.
unfoldable pub load_packet : Hardware → Bool → ℕ → Memory × UciFrm → Memory × UciFrm
load_packet hw parsed len (b, u) =
    if parsed then (let b' = make_crc len b in (b', (set_frm hw b' len u).1)) else (b, u)

-- One round of the loop of `LoadFrms`, for a file with a content; the buffer is used again.
unfoldable pub load_file : Hardware → List ℕ → Memory × UciFrm → Memory × UciFrm
load_file hw content (b, u) =
    let read = take (max_frm_size hw * 2 + 1) content in
    let text = strip_newline read in
    let (bytes, parsed) = parse_bytes text in
    if ltb (length read) (9 * 2)
    then (b, u)
    else load_packet hw parsed (length text / 2) (overwrite 0 bytes b, u)

-- `LoadFrms`, over the files that can be opened, from frame 1 on.
unfoldable pub load_frms : Hardware → List (List ℕ) → Memory × UciFrm → Memory × UciFrm
load_frms hw [] bu = bu
load_frms hw (content ∷ files) bu = load_frms hw files (load_file hw content bu)

-- `LoadConfig`. The buffer holds zeros at first; the table is not emptied.
unfoldable pub load_config : Hardware → List (List ℕ) → UciFrm → UciFrm
load_config hw files u = (load_frms hw files ((λ i. 0), record u { chksum = 0 })).1
