-- ===== src/Sign/Controller/Protection.antt =====
-- The commands of src/sign/Controller.cpp that store a frame, a message or a plan: what they keep.
use gc.Common.{
  ℕ, zero, suc, ◌+◌, ◌-◌, ◌≤◌, ◌<◌, ◌≡◌, ◌≢◌, refl, ap, ◌∙◌, Bool, true, false, ◌&&◌, ◌||◌, Option,
  List, arith, Bool-cases, inl, inr, ◌⊎◌, ◌==◌, ==_iff, leb, get_or,
}
use gc.Utils.Cnvt.{put_u16}
use gc.Utils.Crc.{crc16_1021}
use gc.Utils.Crc.Bitwise.{crc16_1021-lt}
use gc.Tsisp003.Memory.{Memory, IsBytes, slice}
use gc.Tsisp003.Frame.{Frame}
use gc.Tsisp003.Message
use gc.Tsisp003.Message.{Message}
use gc.Tsisp003.Plan
use gc.Tsisp003.Plan.{Plan}
use gc.Uci.UciFrm
use gc.Uci.UciFrm.{UciFrm, overwrite, is_frm_defined}
use gc.Uci.UciMsg
use gc.Uci.UciMsg.{is_msg_defined}
use gc.Uci.UciPln
use gc.Sign.Controller.{
  Settings, Db, Group, is_frm_active, is_msg_active, is_pln_active, is_pln_enabled,
}
use gc.Sign.Controller.Cases.{set_msg-cases, set_pln-cases, message-store, plan-store}
use gc.Sign.Controller.References.{
  message_at, plan_at, IsConsistent, set_frm-other, frame-IsConsistent,
}
use gc.Sign.Controller.Stored.{message-IsConsistent, plan-IsConsistent}
use gc.Sign.Controller.Store.{
  Store, store_frame, store_message, store_plan, run, with_frm, with_msg, with_pln, attach_crc,
  sign_set_frame, sign_set_message, sign_set_plan,
}

put_u16-bytes : (x i : ℕ) → x < 65536 → get_or (put_u16 x) i 0 < 256
unfolding put_u16
put_u16-bytes x zero h = omega arith
put_u16-bytes x (suc zero) h = omega arith
put_u16-bytes x (suc (suc i)) h = omega arith

pub attach_crc-IsBytes : (len : ℕ) (buf : Memory) → IsBytes buf → IsBytes (attach_crc len buf)
unfolding attach_crc overwrite
attach_crc-IsBytes len buf bytes i =
    let crc = crc16_1021 (slice buf 0 len) 0 in
    let made = put_u16-bytes crc (i - len) (crc16_1021-lt (slice buf 0 len)) in
    ground (arith, bytes i)

module _ (cfg : Settings) (groups : List Group) (buf : Memory) (len : ℕ) (db : Db) where
  -- Each of the three commands keeps the tables consistent on a buffer of bytes, whatever it answers.
  pub run-IsConsistent :
      (c : Store) → IsBytes buf → IsConsistent db → IsConsistent (run cfg groups c buf len db).1
  unfolding run sign_set_frame sign_set_message sign_set_plan with_frm with_msg with_pln
  run-IsConsistent store_frame bytes v =
      let kept = frame-IsConsistent cfg.hardware buf len db bytes v in ground arith
  run-IsConsistent store_message bytes v =
      let made = attach_crc-IsBytes len buf bytes in
      let kept = message-IsConsistent (attach_crc len buf) (len + 2) db made v in ground arith
  run-IsConsistent store_plan bytes v =
      let made = attach_crc-IsBytes len buf bytes in
      let kept = plan-IsConsistent (attach_crc len buf) (len + 2) db made v in ground arith

-- Whether a frame, a message or a plan may not be changed now.
abbrev pub guarded : Settings → List Group → Store → ℕ → Bool
guarded cfg groups store_frame j =
    is_frm_active groups j || (leb j cfg.locked_frm || (cfg.is_islus && cfg.is_islus_sp_frm j))
guarded cfg groups store_message j = is_msg_active groups j || leb j cfg.locked_msg
guarded cfg groups store_plan j = is_pln_active groups j || is_pln_enabled groups j

-- What the tables hold under an id.
abbrev pub held : Store → Db → ℕ → Option Frame ⊎ (Message ⊎ Plan)
held store_frame db j = inl (UciFrm.get_frm db.frm j)
held store_message db j = inr (inl (message_at db j))
held store_plan db j = inr (inr (plan_at db j))

pub attach_crc_id : (len : ℕ) (buf : Memory) → 2 ≤ len → attach_crc len buf 1 ≡ buf 1
unfolding attach_crc overwrite
attach_crc_id len buf long = ground arith

set_msg-other :
    (p : ℕ → Bool) (buf : Memory) (len j : ℕ) (u : UciMsg.UciMsg)
    → IsBytes buf
    → UciMsg.Laws.IsValid u
    → buf 1 ≢ 0
    → 1 ≤ j
    → j ≢ buf 1
    → get_or (UciMsg.set_msg p (attach_crc len buf) (len + 2) u).1.msgs (j - 1) Message.blank
      ≡ get_or u.msgs (j - 1) Message.blank
set_msg-other p buf len j u bytes v pos from ne =
    elim (set_msg-cases p (attach_crc len buf) (len + 2) u) [
      | inl e ↦ rw e refl
      | inr (m, w, id, long, e) ↦
          let named : m.msg_id ≡ buf 1 = id ∙ attach_crc_id len buf (omega arith) in
          let other : (j == m.msg_id) ≡ false = ground arith in
          let placed = message-store m u j v (omega arith) (omega (arith, bytes 1)) from in
          rw e (placed ∙ rw other refl)
    ]

set_pln-other :
    (p q : ℕ → Bool) (buf : Memory) (len j : ℕ) (u : UciPln.UciPln)
    → IsBytes buf
    → UciPln.Laws.IsValid u
    → buf 1 ≢ 0
    → 1 ≤ j
    → j ≢ buf 1
    → get_or (UciPln.set_pln p q (attach_crc len buf) (len + 2) u).1.plns (j - 1) Plan.blank
      ≡ get_or u.plns (j - 1) Plan.blank
set_pln-other p q buf len j u bytes v pos from ne =
    elim (set_pln-cases p q (attach_crc len buf) (len + 2) u) [
      | inl e ↦ rw e refl
      | inr (m, w, id, long, e) ↦
          let named : m.pln_id ≡ buf 1 = id ∙ attach_crc_id len buf (omega arith) in
          let other : (j == m.pln_id) ≡ false = ground arith in
          let placed = plan-store m u j v (omega arith) (omega (arith, bytes 1)) from in
          rw e (placed ∙ rw other refl)
    ]

module _ (cfg : Settings) (groups : List Group) (buf : Memory) (len : ℕ) (db : Db) (j : ℕ)
    (bytes : IsBytes buf) (v : IsConsistent db) (from : 1 ≤ j) where
  pub keeps_frame :
      guarded cfg groups store_frame j ≡ true
      → UciFrm.get_frm (sign_set_frame cfg groups buf len db).1.frm j ≡ UciFrm.get_frm db.frm j
  unfolding sign_set_frame with_frm
  keeps_frame h = elim (Bool-cases (j == buf 1)) [
    | inl e ↦
        let same : j ≡ buf 1 = (==_iff _ _).0 e in
        let h' : guarded cfg groups store_frame (buf 1) ≡ true = rw same at h in ground arith
    | inr e ↦
        let kept = set_frm-other cfg.hardware buf len db.frm j bytes v.frames (ground arith) in
        ground arith
  ]

  pub keeps_message :
      guarded cfg groups store_message j ≡ true
      → message_at (sign_set_message cfg groups buf len db).1 j ≡ message_at db j
  unfolding sign_set_message with_msg
  keeps_message h = elim (Bool-cases (buf 1 == 0)) [
    | inl z ↦ rw z refl
    | inr z ↦ elim (Bool-cases (j == buf 1)) [
      | inl e ↦
          let same : j ≡ buf 1 = (==_iff _ _).0 e in
          let h' : guarded cfg groups store_message (buf 1) ≡ true = rw same at h in ground arith
      | inr e ↦
          let p = is_frm_defined db.frm in
          let kept =
            set_msg-other p buf len j db.msg bytes v.messages (ground arith) from (ground arith) in
          ground arith
    ]
  ]

  pub keeps_plan :
      guarded cfg groups store_plan j ≡ true
      → plan_at (sign_set_plan groups buf len db).1 j ≡ plan_at db j
  unfolding sign_set_plan with_pln
  keeps_plan h = elim (Bool-cases (buf 1 == 0)) [
    | inl z ↦ rw z refl
    | inr z ↦ elim (Bool-cases (j == buf 1)) [
      | inl e ↦
          let same : j ≡ buf 1 = (==_iff _ _).0 e in
          let h' : guarded cfg groups store_plan (buf 1) ≡ true = rw same at h in ground arith
      | inr e ↦
          let p = is_frm_defined db.frm in
          let q = is_msg_defined db.msg in
          let kept =
            set_pln-other p q buf len j db.pln bytes v.plans (ground arith) from (ground arith) in
          ground arith
    ]
  ]

  -- None of the three commands, on a buffer of bytes and consistent tables, changes a frame or a
  -- message that is active or locked, a special frame of an ISLUS, or a plan that is active or enabled.
  pub run-protects :
      (c w : Store)
      → guarded cfg groups w j ≡ true
      → held w (run cfg groups c buf len db).1 j ≡ held w db j
  unfolding run sign_set_frame sign_set_message sign_set_plan with_frm with_msg with_pln
  run-protects store_frame store_frame h = ap inl (keeps_frame h)
  run-protects store_frame store_message h = ground arith
  run-protects store_frame store_plan h = ground arith
  run-protects store_message store_frame h = ground arith
  run-protects store_message store_message h = ap (λ m. inr (inl m)) (keeps_message h)
  run-protects store_message store_plan h = ground arith
  run-protects store_plan store_frame h = ground arith
  run-protects store_plan store_message h = ground arith
  run-protects store_plan store_plan h = ap (λ m. inr (inr m)) (keeps_plan h)
