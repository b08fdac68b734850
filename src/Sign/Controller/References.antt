-- ===== src/Sign/Controller/References.antt =====
-- The tables of DbHelper that src/sign/Controller.cpp changes: what a stored message or plan refers to.
use gc.Common.{
  ℕ, zero, suc, ◌-◌, ◌≡◌, ◌≢◌, refl, ◌∙◌, Bool, true, false, List, [], ◌∷◌, arith, Bool-cases, inl,
  inr, ◌==◌, get_or, take,
}
use gc.Tsisp003.Memory.{Memory, IsBytes}
use gc.Tsisp003.Message
use gc.Tsisp003.Message.{Message, MsgEntry}
use gc.Tsisp003.Frame
use gc.Tsisp003.Frame.{Frame}
use gc.Tsisp003.Plan
use gc.Tsisp003.Plan.{Plan, PlnEntry}
use gc.Uci.UciFrm
use gc.Uci.UciFrm.{UciFrm, is_frm_defined}
use gc.Uci.UciMsg
use gc.Uci.UciMsg.{UciMsg, is_msg_defined}
use gc.Uci.UciPln
use gc.Uci.UciPln.{UciPln, is_pln_defined}
use gc.Sign.Controller.{Db}
use gc.Sign.Controller.Cases.{set_frm-cases}

-- One answer whether an id is defined says yes wherever the other does.
abbrev pub Grows : (ℕ → Bool) → (ℕ → Bool) → Type 0
Grows p q = (i : ℕ) → p i ≡ true → q i ≡ true

module _ (p q : ℕ → Bool) (grows : Grows p q) where
  message_entries :
      (n : ℕ) (es : List MsgEntry) → Message.Laws.AllDefined p n es → Message.Laws.AllDefined q n es
  message_entries zero es h = tt
  message_entries (suc n) [] h = tt
  message_entries (suc n) (e ∷ es) h = (grows e.frm_id h.0, message_entries n es h.1)

  pub message-Grows : (m : Message) → Message.Laws.IsValid p m → Message.Laws.IsValid q m
  message-Grows m v = record {
    code = v.code;
    id = v.id;
    some_entry = v.some_entry;
    at_most = v.at_most;
    ended = v.ended;
    defined = message_entries m.entries m.msg_entries v.defined;
  }

  module _ (p' q' : ℕ → Bool) (grows' : Grows p' q') where
    plan_entries :
        (es : List PlnEntry) → Plan.Laws.AllDefined p p' es → Plan.Laws.AllDefined q q' es
    plan_entries [] h = tt
    plan_entries (e ∷ es) h =
        (((λ t. grows e.fm_id (h.0.0 t)), (λ t. grows' e.fm_id (h.0.1 t))), plan_entries es h.1)

    pub plan-Grows : (m : Plan) → Plan.Laws.IsValid p p' m → Plan.Laws.IsValid q q' m
    plan-Grows m v = record {
      code = v.code;
      id = v.id;
      some_day = v.some_day;
      some_entry = v.some_entry;
      at_most = v.at_most;
      ended = v.ended;
      free = v.free;
      defined = plan_entries (take m.entries m.pln_entries) v.defined;
    }

-- The message or the plan at the place of an id.
abbrev pub message_at : Db → ℕ → Message
message_at db i = get_or db.msg.msgs (i - 1) Message.blank

abbrev pub plan_at : Db → ℕ → Plan
plan_at db i = get_or db.pln.plns (i - 1) Plan.blank

-- The tables are valid, every defined message is well formed and shows frames that are defined
-- only, and every defined plan is well formed and uses frames and messages that are defined only.
pub record IsConsistent (db : Db) : Type 0 where
  pub frames : UciFrm.Laws.IsValid db.frm
  pub messages : UciMsg.Laws.IsValid db.msg
  pub plans : UciPln.Laws.IsValid db.pln
  pub of_message :
      (i : ℕ)
      → is_msg_defined db.msg i ≡ true
      → Message.Laws.IsValid (is_frm_defined db.frm) (message_at db i)
  pub of_plan :
      (i : ℕ)
      → is_pln_defined db.pln i ≡ true
      → Plan.Laws.IsValid (is_frm_defined db.frm) (is_msg_defined db.msg) (plan_at db i)

pub set_frm-other :
    (hw : Frame.Hardware) (buf : Memory) (len : ℕ) (u : UciFrm) (j : ℕ)
    → IsBytes buf
    → UciFrm.Laws.IsValid u
    → j ≢ buf 1
    → UciFrm.get_frm (UciFrm.set_frm hw buf len u).1 j ≡ UciFrm.get_frm u j
set_frm-other hw buf len u j bytes v ne = elim (set_frm-cases hw buf len u) [
  | inl e ↦ rw e refl
  | inr (f, id, e) ↦
      let found = UciFrm.Laws.get_frm-store f u j v (omega (arith, id, bytes 1)) in
      let other : (j == f.frm_id) ≡ false = ground (arith, id) in rw e (found ∙ rw other refl)
]

pub set_frm-Grows :
    (hw : Frame.Hardware) (buf : Memory) (len : ℕ) (u : UciFrm)
    → IsBytes buf
    → UciFrm.Laws.IsValid u
    → Grows (is_frm_defined u) (is_frm_defined (UciFrm.set_frm hw buf len u).1)
unfolding is_frm_defined UciFrm.get_frm
set_frm-Grows hw buf len u bytes v j defined = elim (set_frm-cases hw buf len u) [
  | inl e ↦ rw e defined
  | inr (f, id, e) ↦
      let found = UciFrm.Laws.get_frm-store f u j v (omega (arith, id, bytes 1)) in
      rw (e, found) (elim (Bool-cases (j == f.frm_id)) [ inl h ↦ rw h refl | inr h ↦ rw h defined ])
]

-- A stored frame leaves the references as they are.
pub frame-IsConsistent :
    (hw : Frame.Hardware) (buf : Memory) (len : ℕ) (db : Db)
    → IsBytes buf
    → IsConsistent db
    → IsConsistent (record db { frm = (UciFrm.set_frm hw buf len db.frm).1 })
frame-IsConsistent hw buf len db bytes c =
    let grows = set_frm-Grows hw buf len db.frm bytes c.frames in
    record {
      frames = UciFrm.Laws.set_frm-IsValid hw buf len db.frm bytes c.frames;
      messages = c.messages;
      plans = c.plans;
      of_message = λ i defined. message-Grows _ _ grows _ (c.of_message i defined);
      of_plan = λ i defined. plan-Grows _ _ grows _ _ (λ j h. h) _ (c.of_plan i defined);
    }
