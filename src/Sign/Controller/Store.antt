-- ===== src/Sign/Controller/Store.antt =====
-- The commands that store a frame, a message or a plan: SignSetFrame, SignSetMessage and SignSetPlan
-- of src/sign/Controller.cpp. The events and the texts of a reject are left out.
use gc.Common.{ℕ, ◌+◌, ◌&&◌, ltb, leb, ◌==◌, if◌then◌else◌, List}
use gc.Utils.Cnvt.{put_u16}
use gc.Utils.Crc.{crc16_1021}
use gc.Tsisp003.Memory.{Memory, slice}
use gc.Tsisp003.AppError.{
  AppError, syntax_error, length_error, frm_msg_pln_active, overlays_not_supported, plan_enabled,
}
use gc.Tsisp003.Message.{msg_len_max}
use gc.Tsisp003.Plan.{pln_len_max, pln_tail}
use gc.Uci.UciFrm.{UciFrm, set_frm, is_frm_defined, overwrite}
use gc.Uci.UciMsg.{UciMsg, set_msg, is_msg_defined}
use gc.Uci.UciPln.{UciPln, set_pln}
use gc.Sign.Controller.{
  Settings, Db, Group, is_frm_active, is_msg_active, is_pln_active, is_pln_enabled,
}

unfoldable pub with_frm : Db → AppError × UciFrm → AppError × Db
with_frm db (r, u) = (r, record db { frm = u })

unfoldable pub with_msg : Db → AppError × UciMsg → AppError × Db
with_msg db (r, u) = (r, record db { msg = u })

unfoldable pub with_pln : Db → AppError × UciPln → AppError × Db
with_pln db (r, u) = (r, record db { pln = u })

unfoldable pub sign_set_frame : Settings → List Group → Memory → ℕ → Db → AppError × Db
sign_set_frame cfg groups buf len db =
    let id = buf 1 in
    if id == 0
    then (syntax_error, db)
    else (if is_frm_active groups id
        then (frm_msg_pln_active, db)
        else (if leb id cfg.locked_frm
            then (overlays_not_supported, db)
            else (if cfg.is_islus && cfg.is_islus_sp_frm id
                then (overlays_not_supported, db)
                else with_frm db (set_frm cfg.hardware buf len db.frm))))

-- The CRC is written behind the packet.
unfoldable pub attach_crc : ℕ → Memory → Memory
attach_crc len buf = overwrite len (put_u16 (crc16_1021 (slice buf 0 len) 0)) buf

unfoldable pub sign_set_message : Settings → List Group → Memory → ℕ → Db → AppError × Db
sign_set_message cfg groups buf len db =
    let id = buf 1 in
    if id == 0
    then (syntax_error, db)
    else (if ltb msg_len_max len
        then (length_error, db)
        else (if is_msg_active groups id
            then (frm_msg_pln_active, db)
            else (if leb id cfg.locked_msg
                then (overlays_not_supported, db)
                else with_msg db
                    (set_msg (is_frm_defined db.frm) (attach_crc len buf) (len + 2) db.msg))))

unfoldable pub sign_set_plan : List Group → Memory → ℕ → Db → AppError × Db
sign_set_plan groups buf len db =
    let id = buf 1 in
    if id == 0
    then (syntax_error, db)
    else (if ltb pln_len_max len
        then (length_error, db)
        else (if is_pln_active groups id
            then (frm_msg_pln_active, db)
            else (if is_pln_enabled groups id
                then (plan_enabled, db)
                else with_pln db (
                    set_pln (is_frm_defined db.frm) (is_msg_defined db.msg) (attach_crc len buf)
                      (len + pln_tail) db.pln))))

-- The three commands.
pub data Store : Type 0 where
  store_frame store_message store_plan : Store

unfoldable pub run : Settings → List Group → Store → Memory → ℕ → Db → AppError × Db
unfolding sign_set_frame sign_set_message sign_set_plan
run cfg groups store_frame buf len db = sign_set_frame cfg groups buf len db
run cfg groups store_message buf len db = sign_set_message cfg groups buf len db
run cfg groups store_plan buf len db = sign_set_plan groups buf len db
