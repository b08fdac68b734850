-- ===== src/Sign/Controller/Stored.antt =====
-- The tables of messages and plans of DbHelper that src/sign/Controller.cpp changes.
use gc.Common.{ℕ, ◌≤◌, ◌≡◌, ◌≢◌, refl, sym, ◌∙◌, true, ◌||◌, arith, Bool-cases, inl, inr, ◌==◌}
use gc.Tsisp003.Memory.{Memory, IsBytes}
use gc.Tsisp003.Message
use gc.Tsisp003.Message.{Message, MsgEntry}
use gc.Tsisp003.Plan
use gc.Tsisp003.Plan.{Plan, PlnEntry}
use gc.Uci.UciFrm.{is_frm_defined}
use gc.Uci.UciMsg
use gc.Uci.UciMsg.{UciMsg, is_msg_defined}
use gc.Uci.UciPln
use gc.Uci.UciPln.{UciPln, is_pln_defined}
use gc.Sign.Controller.{Db}
use gc.Sign.Controller.References.{Grows, plan-Grows, IsConsistent}
use gc.Sign.Controller.Cases.{set_msg-cases, set_pln-cases, message-store, plan-store}

defined-pos_msg : (u : UciMsg) (j : ℕ) → is_msg_defined u j ≡ true → 1 ≤ j
unfolding is_msg_defined
defined-pos_msg u j h = ground arith

is_msg_defined-store :
    (m : Message) (u : UciMsg) (j : ℕ)
    → UciMsg.Laws.IsValid u
    → m.micode ≢ 0
    → 1 ≤ m.msg_id
    → m.msg_id ≤ 255
    → 1 ≤ j
    → is_msg_defined (UciMsg.store m u) j ≡ (j == m.msg_id || is_msg_defined u j)
unfolding is_msg_defined
is_msg_defined-store m u j v defined pos small from =
    rw (message-store m u j v pos small from)
      (elim (Bool-cases (j == m.msg_id)) [ inl h ↦ rw h (ground arith) | inr h ↦ rw h refl ])

-- The messages that are defined stay so.
is_msg_defined-Grows :
    (m : Message) (u : UciMsg)
    → UciMsg.Laws.IsValid u
    → m.micode ≢ 0
    → 1 ≤ m.msg_id
    → m.msg_id ≤ 255
    → Grows (is_msg_defined u) (is_msg_defined (UciMsg.store m u))
is_msg_defined-Grows m u v code pos small j h =
    rw (is_msg_defined-store m u j v code pos small (defined-pos_msg u j h), h) (ground arith)

store_message-IsConsistent :
    (m : Message) (db : Db)
    → IsConsistent db
    → Message.Laws.IsValid (is_frm_defined db.frm) m
    → m.msg_id ≤ 255
    → UciMsg.Laws.IsValid (UciMsg.store m db.msg)
    → IsConsistent (record db { msg = UciMsg.store m db.msg })
store_message-IsConsistent m db c v small valid =
    let code : m.micode ≢ 0 = λ z. omega (arith, v.code, z) in
    let pos : 1 ≤ m.msg_id = omega (arith, v.id) in
    let grows = is_msg_defined-Grows m db.msg c.messages code pos small in
    record {
      frames = c.frames;
      messages = valid;
      plans = c.plans;
      of_message = λ i defined.
          let from = defined-pos_msg _ i defined in
          let was =
            sym (is_msg_defined-store m db.msg i c.messages code pos small from) ∙ defined in
          rw (message-store m db.msg i c.messages pos small from)
            (elim (Bool-cases (i == m.msg_id)) [
              | inl h ↦ rw h v
              | inr h ↦ rw h (c.of_message i (rw h at was))
            ]);
      of_plan = λ i defined. plan-Grows _ _ (λ j h. h) _ _ grows _ (c.of_plan i defined);
    }

-- A message that SetMsg is given leaves the references whole.
pub message-IsConsistent :
    (buf : Memory) (len : ℕ) (db : Db)
    → IsBytes buf
    → IsConsistent db
    → IsConsistent (record db { msg = (UciMsg.set_msg (is_frm_defined db.frm) buf len db.msg).1 })
message-IsConsistent buf len db bytes c =
    let p = is_frm_defined db.frm in
    let valid = UciMsg.Laws.set_msg-IsValid p buf len db.msg bytes c.messages in
    elim (set_msg-cases p buf len db.msg) [
      | inl e ↦ rw e c
      | inr (m, v, id, long, e) ↦
          rw e (store_message-IsConsistent m db c v (omega (arith, id, bytes 1)) (rw e at valid))
    ]

defined-pos_pln : (u : UciPln) (j : ℕ) → is_pln_defined u j ≡ true → 1 ≤ j
unfolding is_pln_defined
defined-pos_pln u j h = ground arith

pub is_pln_defined-store :
    (m : Plan) (u : UciPln) (j : ℕ)
    → UciPln.Laws.IsValid u
    → m.micode ≢ 0
    → 1 ≤ m.pln_id
    → m.pln_id ≤ 255
    → 1 ≤ j
    → is_pln_defined (UciPln.store m u) j ≡ (j == m.pln_id || is_pln_defined u j)
unfolding is_pln_defined
is_pln_defined-store m u j v defined pos small from =
    rw (plan-store m u j v pos small from)
      (elim (Bool-cases (j == m.pln_id)) [ inl h ↦ rw h (ground arith) | inr h ↦ rw h refl ])

store_plan-IsConsistent :
    (m : Plan) (db : Db)
    → IsConsistent db
    → Plan.Laws.IsValid (is_frm_defined db.frm) (is_msg_defined db.msg) m
    → m.pln_id ≤ 255
    → UciPln.Laws.IsValid (UciPln.store m db.pln)
    → IsConsistent (record db { pln = UciPln.store m db.pln })
store_plan-IsConsistent m db c v small valid =
    let code : m.micode ≢ 0 = λ z. omega (arith, v.code, z) in
    let pos : 1 ≤ m.pln_id = omega (arith, v.id) in
    record {
      frames = c.frames;
      messages = c.messages;
      plans = valid;
      of_message = c.of_message;
      of_plan = λ i defined.
          let from = defined-pos_pln _ i defined in
          let was = sym (is_pln_defined-store m db.pln i c.plans code pos small from) ∙ defined in
          rw (plan-store m db.pln i c.plans pos small from) (elim (Bool-cases (i == m.pln_id)) [
            | inl h ↦ rw h v
            | inr h ↦ rw h (c.of_plan i (rw h at was))
          ]);
    }

-- A plan that SetPln is given leaves the references whole.
pub plan-IsConsistent :
    (buf : Memory) (len : ℕ) (db : Db)
    → IsBytes buf
    → IsConsistent db
    → let p = is_frm_defined db.frm in
      let q = is_msg_defined db.msg in
      IsConsistent (record db { pln = (UciPln.set_pln p q buf len db.pln).1 })
plan-IsConsistent buf len db bytes c =
    let p = is_frm_defined db.frm in
    let q = is_msg_defined db.msg in
    let valid = UciPln.Laws.set_pln-IsValid p q buf len db.pln bytes c.plans in
    elim (set_pln-cases p q buf len db.pln) [
      | inl e ↦ rw e c
      | inr (m, v, id, long, e) ↦
          rw e (store_plan-IsConsistent m db c v (omega (arith, id, bytes 1)) (rw e at valid))
    ]
