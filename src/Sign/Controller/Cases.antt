-- ===== src/Sign/Controller/Cases.antt =====
-- What the set operations of src/uci/UciFrm.cpp, src/uci/UciMsg.cpp and src/uci/UciPln.cpp leave.
use gc.Common.{
  ℕ, ◌-◌, ◌≤◌, ◌≡◌, refl, ap, ◌∙◌, Bool, Option, none, some, arith, inl, inr, ◌==◌, if◌then◌else◌,
  ◌⊎◌, get_or,
}
use gc.Tsisp003.Memory.{Memory}
use gc.Tsisp003.AppError.{AppError, app_no_error}
use gc.Tsisp003.Message
use gc.Tsisp003.Message.{Message, MsgEntry}
use gc.Tsisp003.Frame
use gc.Tsisp003.Frame.{Frame}
use gc.Tsisp003.Plan
use gc.Tsisp003.Plan.{Plan, PlnEntry}
use gc.Uci.UciFrm
use gc.Uci.UciFrm.{UciFrm}
use gc.Uci.UciMsg
use gc.Uci.UciMsg.{UciMsg}
use gc.Uci.UciPln
use gc.Uci.UciPln.{UciPln}

-- What SetFrm leaves: the table as it was, or with a frame of the id of the buffer.
pub set_frm-cases :
    (hw : Frame.Hardware) (buf : Memory) (len : ℕ) (u : UciFrm)
    → ((UciFrm.set_frm hw buf len u).1 ≡ u)
      ⊎ ((f : Frame) × (f.frm_id ≡ buf 1) × ((UciFrm.set_frm hw buf len u).1 ≡ UciFrm.store f u))
unfolding UciFrm.set_frm
set_frm-cases hw buf len u = go (UciFrm.kind_of (buf 0))
  where
    kept :
        (r : AppError × Frame)
        → r.1.frm_id ≡ buf 1
        → ((UciFrm.keep_if_accepted u r).1 ≡ u)
          ⊎ ((f : Frame) × (f.frm_id ≡ buf 1)
              × ((UciFrm.keep_if_accepted u r).1 ≡ UciFrm.store f u))
    kept (app_no_error, f) id = inr (f, id, refl)
    kept (_, f) id = inl refl

    go :
        (kind : Option Frame.Kind)
        → ((UciFrm.set_kind hw kind buf len u).1 ≡ u)
          ⊎ ((f : Frame) × (f.frm_id ≡ buf 1)
              × ((UciFrm.set_kind hw kind buf len u).1 ≡ UciFrm.store f u))
    go none = inl refl
    go (some kind) = kept (Frame.init hw kind buf len) (UciFrm.Laws.init-frm_id hw kind buf len).0

-- What SetMsg leaves: the table as it was, or with a well-formed message of the id of the buffer.
pub set_msg-cases :
    (p : ℕ → Bool) (buf : Memory) (len : ℕ) (u : UciMsg)
    → ((UciMsg.set_msg p buf len u).1 ≡ u)
      ⊎ ((m : Message) × Message.Laws.IsValid p m
          × (m.msg_id ≡ buf 1)
          × (9 ≤ len)
          × ((UciMsg.set_msg p buf len u).1 ≡ UciMsg.store m u))
unfolding UciMsg.set_msg Message.header
set_msg-cases p buf len u = go _ _ refl
  where
    go :
        (e : AppError) (m : Message)
        → Message.init p buf len Message.blank ≡ (e, m)
        → ((UciMsg.keep_if_accepted u e m) ≡ u)
          ⊎ ((m' : Message) × Message.Laws.IsValid p m'
              × (m'.msg_id ≡ buf 1)
              × (9 ≤ len)
              × (UciMsg.keep_if_accepted u e m ≡ UciMsg.store m' u))
    go app_no_error m e =
        let a = Message.Laws.init-Accepted p buf len Message.blank e in
        let v = Message.Laws.init-IsValid p buf len Message.blank m refl e in
        inr (m, v.0, ap (λ (x : Message). x.msg_id) a.result, a.enough, refl)
    go _ m e = inl refl

pub set_pln-cases :
    (p q : ℕ → Bool) (buf : Memory) (len : ℕ) (u : UciPln)
    → ((UciPln.set_pln p q buf len u).1 ≡ u)
      ⊎ ((m : Plan) × Plan.Laws.IsValid p q m
          × (m.pln_id ≡ buf 1)
          × (13 ≤ len)
          × ((UciPln.set_pln p q buf len u).1 ≡ UciPln.store m u))
unfolding UciPln.set_pln Plan.header
set_pln-cases p q buf len u = go _ _ refl
  where
    go :
        (e : AppError) (m : Plan)
        → Plan.init p q buf len Plan.blank ≡ (e, m)
        → ((UciPln.keep_if_accepted u e m) ≡ u)
          ⊎ ((m' : Plan) × Plan.Laws.IsValid p q m'
              × (m'.pln_id ≡ buf 1)
              × (13 ≤ len)
              × (UciPln.keep_if_accepted u e m ≡ UciPln.store m' u))
    go app_no_error m e =
        let a = Plan.Laws.init-Accepted p q buf len Plan.blank e in
        let v = Plan.Laws.init-IsValid_plan p q buf len Plan.blank m refl e in
        inr (m, v.0, ap (λ (x : Plan). x.pln_id) a.result, a.enough, refl)
    go _ m e = inl refl

-- The place of an id after a message was stored at another, or at its own.
pub message-store :
    (m : Message) (u : UciMsg) (j : ℕ)
    → UciMsg.Laws.IsValid u
    → 1 ≤ m.msg_id
    → m.msg_id ≤ 255
    → 1 ≤ j
    → get_or (UciMsg.store m u).msgs (j - 1) Message.blank
      ≡ (if j == m.msg_id then m else get_or u.msgs (j - 1) Message.blank)
unfolding UciMsg.store
message-store m u j v pos small from =
    let places = v.places in
    let placed =
      UciFrm.Laws.get_or-set u.msgs (m.msg_id - 1) (j - 1) m Message.blank (omega arith) in
    let same : (j - 1 == m.msg_id - 1) ≡ (j == m.msg_id) = ground arith in placed ∙ rw same refl

pub plan-store :
    (m : Plan) (u : UciPln) (j : ℕ)
    → UciPln.Laws.IsValid u
    → 1 ≤ m.pln_id
    → m.pln_id ≤ 255
    → 1 ≤ j
    → get_or (UciPln.store m u).plns (j - 1) Plan.blank
      ≡ (if j == m.pln_id then m else get_or u.plns (j - 1) Plan.blank)
unfolding UciPln.store
plan-store m u j v pos small from =
    let places = v.places in
    let placed = UciFrm.Laws.get_or-set u.plns (m.pln_id - 1) (j - 1) m Plan.blank (omega arith) in
    let same : (j - 1 == m.pln_id - 1) ≡ (j == m.pln_id) = ground arith in placed ∙ rw same refl
