-- ===== src/Sign/Controller/Readback.antt =====
-- What SignSetMessage and SignSetPlan of src/sign/Controller.cpp store, as ToArray writes it.
use gc.Common.{ℕ, ◌+◌, ◌-◌, ◌<◌, ◌≡◌, ◌≢◌, sym, ap, ap₂, ◌∙◌, true, List, ◌++◌, arith, ◌==◌, ==_iff}
use gc.Utils.Cnvt.{put_u16}
use gc.Utils.Crc.{crc16_1021}
use gc.Tsisp003.Memory.{Memory, IsBytes, slice, slice-add, slice-Agree}
use gc.Tsisp003.AppError.{app_no_error}
use gc.Tsisp003.Message
use gc.Tsisp003.Message.{Message}
use gc.Tsisp003.Plan
use gc.Tsisp003.Plan.{Plan}
use gc.Uci.UciFrm.{overwrite, is_frm_defined}
use gc.Uci.UciMsg
use gc.Uci.UciMsg.{set_msg, is_msg_defined}
use gc.Uci.UciPln
use gc.Uci.UciPln.{set_pln}
use gc.Sign.Controller.{Settings, Db, Group}
use gc.Sign.Controller.Cases.{message-store, plan-store}
use gc.Sign.Controller.References.{message_at, plan_at, IsConsistent}
use gc.Sign.Controller.Protection.{attach_crc-IsBytes, attach_crc_id}
use gc.Sign.Controller.Store.{with_msg, with_pln, attach_crc, sign_set_message, sign_set_plan}

-- The packet with its checksum behind it.
abbrev pub with_crc : Memory → ℕ → List ℕ
with_crc buf len = slice buf 0 len ++ put_u16 (crc16_1021 (slice buf 0 len) 0)

attach_crc-below : (len : ℕ) (buf : Memory) (i : ℕ) → i < len → buf i ≡ attach_crc len buf i
unfolding attach_crc overwrite
attach_crc-below len buf i h = ground arith

attach_crc-above :
    (len : ℕ) (buf : Memory)
    → slice (attach_crc len buf) len 2 ≡ put_u16 (crc16_1021 (slice buf 0 len) 0)
unfolding attach_crc overwrite put_u16
attach_crc-above len buf =
    let here : len + 1 - len ≡ 1 = omega arith in
    let zeroth : len - len ≡ 0 = omega arith in ground arith

pub slice-attach_crc :
    (len : ℕ) (buf : Memory) → slice (attach_crc len buf) 0 (len + 2) ≡ with_crc buf len
slice-attach_crc len buf =
    let mem = attach_crc len buf in
    let body = slice-Agree buf mem 0 len len (attach_crc-below len buf) (omega arith) in
    let start : 0 + len ≡ len = omega arith in
    slice-add mem 0 len 2 ∙ rw start (ap₂ ◌++◌ body (attach_crc-above len buf))

module _ (cfg : Settings) (groups : List Group) (buf : Memory) (len : ℕ) (db db' : Db) where
  accepted-sign_set_message :
      sign_set_message cfg groups buf len db ≡ (app_no_error, db')
      → let r = set_msg (is_frm_defined db.frm) (attach_crc len buf) (len + 2) db.msg in
        (buf 1 ≢ 0) × (r.0 ≡ app_no_error) × (db' ≡ record db { msg = r.1 })
  unfolding sign_set_message with_msg
  accepted-sign_set_message e = ground arith

  accepted-sign_set_plan :
      sign_set_plan groups buf len db ≡ (app_no_error, db')
      → let p = is_frm_defined db.frm in
        let q = is_msg_defined db.msg in
        let r = set_pln p q (attach_crc len buf) (len + 2) db.pln in
        (buf 1 ≢ 0) × (r.0 ≡ app_no_error) × (db' ≡ record db { pln = r.1 })
  unfolding sign_set_plan with_pln
  accepted-sign_set_plan e = ground arith

  -- A message that SignSetMessage accepts from a buffer of bytes, into consistent tables, stands
  -- under its id, and ToArray writes of it the packet that came in and its checksum.
  pub to_array-sign_set_message :
      IsBytes buf
      → IsConsistent db
      → sign_set_message cfg groups buf len db ≡ (app_no_error, db')
      → Message.to_array (message_at db' (buf 1)) ≡ with_crc buf len
  unfolding Message.header
  to_array-sign_set_message bytes v e =
      let p = is_frm_defined db.frm in
      let mem = attach_crc len buf in
      let (pos, ok, result) = accepted-sign_set_message e in
      let (m, a, q) =
        UciMsg.Laws.set_msg-Accepted p mem (len + 2) db.msg (set_msg p mem (len + 2) db.msg).1
          (λ i. (ok i, (set_msg p mem (len + 2) db.msg).1)) in
      let init = Message.Laws.Accepted-init p mem (len + 2) Message.blank m a in
      let named : m.msg_id ≡ buf 1 =
        ap (λ (x : Message). x.msg_id) a.result ∙ attach_crc_id len buf (omega (arith, a.enough)) in
      let written =
        Message.Laws.to_array-init p mem (len + 2) Message.blank m
          (attach_crc-IsBytes len buf bytes) init in
      let small = bytes 1 in
      let placed =
        message-store m db.msg (buf 1) v.messages (omega arith) (omega arith) (omega arith) in
      let self : (buf 1 == m.msg_id) ≡ true = (==_iff _ _).1 (sym named) in
      rw (result, q, placed, self) (written ∙ slice-attach_crc len buf)

  -- The same holds of a plan and SignSetPlan.
  pub to_array-sign_set_plan :
      IsBytes buf
      → IsConsistent db
      → sign_set_plan groups buf len db ≡ (app_no_error, db')
      → Plan.to_array (plan_at db' (buf 1)) ≡ with_crc buf len
  unfolding Plan.header
  to_array-sign_set_plan bytes v e =
      let p = is_frm_defined db.frm in
      let q = is_msg_defined db.msg in
      let mem = attach_crc len buf in
      let (pos, ok, result) = accepted-sign_set_plan e in
      let (m, a, stored) =
        UciPln.Laws.set_pln-Accepted p q mem (len + 2) db.pln (set_pln p q mem (len + 2) db.pln).1
          (λ i. (ok i, (set_pln p q mem (len + 2) db.pln).1)) in
      let init = Plan.Laws.Accepted-init p q mem (len + 2) Plan.blank m a in
      let named : m.pln_id ≡ buf 1 =
        ap (λ (x : Plan). x.pln_id) a.result ∙ attach_crc_id len buf (omega (arith, a.enough)) in
      let written =
        Plan.Laws.to_array-init_plan p q mem (len + 2) Plan.blank m
          (attach_crc-IsBytes len buf bytes) init in
      let small = bytes 1 in
      let placed = plan-store m db.pln (buf 1) v.plans (omega arith) (omega arith) (omega arith) in
      let self : (buf 1 == m.pln_id) ≡ true = (==_iff _ _).1 (sym named) in
      rw (result, stored, placed, self) (written ∙ slice-attach_crc len buf)
