-- ===== src/Sign/Controller/SignTest.antt =====
-- The test of the signs: CmdSignTest of src/sign/Controller.cpp. The events are left out.
pub mod Laws
use gc.Common.{
  ℕ, zero, suc, ◌+◌, ◌-◌, ◌/◌, Bool, true, false, ◌&&◌, ◌||◌, not, List, [], ◌∷◌, ◌++◌, ltb, ◌==◌,
  if◌then◌else◌, length, replicate,
}
use gc.Utils.Cnvt.{put_u16, put_u32}
use gc.Utils.Crc.{crc16_1021}
use gc.Utils.Bits.{set_70_bit}
use gc.Tsisp003.Memory.{Memory, holding, slice}
use gc.Tsisp003.Mi
use gc.Tsisp003.AppError.{AppError, app_no_error, frm_msg_pln_undefined, colour_not_supported}
use gc.Tsisp003.Frame.{Hardware}
use gc.Uci.UciFrm.{UciFrm, set_frm, is_frm_defined}
use gc.Sign.Command
use gc.Sign.Command.{disp_frm}
use gc.Sign.Controller.{Settings, Db, Group}
use gc.Sign.Controller.Lanes.{sign_test_frame_id}
use gc.Sign.Controller.Store.{with_frm}

-- The bits of one row, from an offset on.
unfoldable pub set_bits : ℕ → ℕ → List ℕ → List ℕ
set_bits zero offset core = core
set_bits (suc n) offset core = set_bits n (offset + 1) (set_70_bit core offset)

-- Every second row, of `left` rows; the core has a bit for each pixel.
unfoldable pub set_rows : ℕ → ℕ → ℕ → List ℕ → List ℕ
unfolding set_bits
set_rows columns zero offset core = core
set_rows columns (suc left) offset core =
    set_rows columns left (offset + columns + columns) (set_bits columns offset core)

-- The pixels: all, the odd rows, the even rows, or one of the two halves of the pixels.
unfoldable pub test_core : Hardware → ℕ → List ℕ
test_core hw pixels =
    if pixels == 1 || pixels == 2
    then set_rows hw.columns (hw.rows / 2) (if pixels == 1 then 0 else hw.columns)
        (replicate hw.gfx1_core_len 0)
    else replicate hw.gfx1_core_len
        (if pixels == 0 then 0xFF else (if pixels == 3 then 0x55 else 0xAA))

-- The frame without its checksum.
unfoldable pub test_body : Hardware → ℕ → ℕ → List ℕ
test_body hw colour pixels =
    if ltb hw.rows 255 && ltb hw.columns 255
    then (Mi.sign_set_graphics_frame ∷ sign_test_frame_id ∷ 0 ∷ hw.rows ∷ hw.columns ∷ colour ∷ 0
        ∷ [])
      ++ (put_u16 hw.gfx1_core_len ++ test_core hw pixels)
    else (Mi.sign_set_high_resolution_graphics_frame ∷ sign_test_frame_id ∷ 0 ∷ [])
      ++ (put_u16 hw.rows
          ++ (put_u16 hw.columns
              ++ ((colour ∷ 0 ∷ []) ++ (put_u32 hw.gfx1_core_len ++ test_core hw pixels))))

unfoldable pub test_frame : Hardware → ℕ → ℕ → List ℕ
test_frame hw colour pixels =
    let body = test_body hw colour pixels in
    body ++ put_u16 (crc16_1021 (slice (holding body) 0 (length body)) 0)

-- A group that refuses ends the loop over the groups.
abbrev pub next_group :
    AppError → Group → List Group → AppError × List Group → AppError × List Group
next_group app_no_error shown groups rest = (rest.0, shown ∷ rest.1)
next_group e shown groups rest = (e, shown ∷ groups)

-- `tested` says whether the frame of the test is defined.
unfoldable pub test_groups : Bool → List Group → AppError × List Group
test_groups tested [] = (app_no_error, [])
test_groups tested (g ∷ groups) =
    let r = disp_frm tested sign_test_frame_id false g.command in
    let shown : Group = record g { command = r.1 } in
    let rest = test_groups tested groups in next_group r.0 shown groups rest

-- What follows the store of the frame.
abbrev pub after_frame : List Group → AppError × Db → AppError × Db × List Group
after_frame groups (app_no_error, db) =
    let r = test_groups (is_frm_defined db.frm sign_test_frame_id) groups in (r.0, db, r.1)
after_frame groups (e, db) = (e, db, groups)

unfoldable pub cmd_sign_test : Settings → Memory → Db → List Group → AppError × Db × List Group
cmd_sign_test cfg cmd db groups =
    let frm = test_frame cfg.hardware (cmd 2) (cmd 3) in
    if ltb 5 (cmd 3)
    then (frm_msg_pln_undefined, db, groups)
    else (if ltb 9 (cmd 2)
        then (colour_not_supported, db, groups)
        else after_frame groups
            (with_frm db (set_frm cfg.hardware (holding frm) (length frm) db.frm)))
