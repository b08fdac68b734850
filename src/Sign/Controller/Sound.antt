-- ===== src/Sign/Controller/Sound.antt =====
-- The commands of src/sign/Controller.cpp keep the tables and the schedules sound.
use gc.Common.{
  ℕ, ◌+◌, ◌-◌, ◌≡◌, refl, Bool, ◌&&◌, ◌||◌, not, some, List, arith, Bool-cases, inl, inr, ◌==◌, ltb,
  length, Option-cases,
}
use gc.Tsisp003.Memory.{Memory, IsBytes}
use gc.Tsisp003.Mi
use gc.Tsisp003.AppError.{AppError, app_no_error, undefined_device_number, frm_msg_pln_undefined}
use gc.Uci.UciFrm.{is_frm_defined}
use gc.Uci.UciMsg.{is_msg_defined}
use gc.Uci.UciPln.{is_pln_defined}
use gc.Sign.Schedule.Plans.{set_pln-AllClocks}
use gc.Sign.Controller.{Settings, Db, Sign, Group, get_group}
use gc.Sign.Controller.Store.{
  store_frame, store_message, store_plan, run, with_frm, with_msg, attach_crc, sign_set_frame,
  sign_set_message, sign_set_plan,
}
use gc.Sign.Controller.Protection.{run-IsConsistent}
use gc.Sign.Controller.Lanes.{if_checked, cmd_disp_frm, cmd_disp_msg}
use gc.Sign.Controller.Atomic.{cmd_disp_atomic_frm}
use gc.Sign.Controller.Plans.{cmd_en_dis_plan}
use gc.Sign.Controller.Schedules.{schedules, schedules-at_command, at_schedule-AllConsistent}
use gc.Sign.Controller.Planned.{IsSound, sign_set_plan-cases, sign_set_plan-AllConsistent}

-- A change of the groups that leaves their schedules.
pub same-IsSound :
    (db : Db) (groups groups' : List Group)
    → schedules groups' ≡ schedules groups
    → IsSound db groups
    → IsSound db groups'
same-IsSound db groups groups' e v = record {
  tables = v.tables;
  clocks = v.clocks;
  planned = rw e v.planned;
}

pln-sign_set_frame :
    (cfg : Settings) (groups : List Group) (buf : Memory) (len : ℕ) (db : Db)
    → (sign_set_frame cfg groups buf len db).1.pln ≡ db.pln
unfolding sign_set_frame with_frm
pln-sign_set_frame cfg groups buf len db = ground arith

pln-sign_set_message :
    (cfg : Settings) (groups : List Group) (buf : Memory) (len : ℕ) (db : Db)
    → (sign_set_message cfg groups buf len db).1.pln ≡ db.pln
unfolding sign_set_message with_msg
pln-sign_set_message cfg groups buf len db = ground arith

module _ (cfg : Settings) (groups : List Group) (buf : Memory) (len : ℕ) (db : Db)
    (bytes : IsBytes buf) (v : IsSound db groups) where
  pub sign_set_frame-IsSound : IsSound (sign_set_frame cfg groups buf len db).1 groups
  unfolding run
  sign_set_frame-IsSound =
      let same = pln-sign_set_frame cfg groups buf len db in
      record {
        tables = run-IsConsistent cfg groups buf len db store_frame bytes v.tables;
        clocks = rw same v.clocks;
        planned = rw same v.planned;
      }

  pub sign_set_message-IsSound : IsSound (sign_set_message cfg groups buf len db).1 groups
  unfolding run
  sign_set_message-IsSound =
      let same = pln-sign_set_message cfg groups buf len db in
      record {
        tables = run-IsConsistent cfg groups buf len db store_message bytes v.tables;
        clocks = rw same v.clocks;
        planned = rw same v.planned;
      }

  pub sign_set_plan-IsSound : IsSound (sign_set_plan groups buf len db).1 groups
  unfolding run
  sign_set_plan-IsSound =
      let p = is_frm_defined db.frm in
      let q = is_msg_defined db.msg in
      record {
        tables = run-IsConsistent cfg groups buf len db store_plan bytes v.tables;
        clocks = elim (sign_set_plan-cases groups buf len db) [
          | inl e ↦ rw e v.clocks
          | inr (off, e) ↦
              rw e (set_pln-AllClocks p q (attach_crc len buf) (len + 2) db.pln v.clocks)
        ];
        planned =
            sign_set_plan-AllConsistent groups buf len db bytes v.tables.plans v.clocks v.planned;
      }

schedules-if_checked :
    (e : AppError) (groups : List Group) (res : AppError × List Group)
    → schedules res.1 ≡ schedules groups
    → schedules (if_checked e groups res).1 ≡ schedules groups
schedules-if_checked app_no_error groups res h = h
schedules-if_checked e groups res h = refl

pub schedules-cmd_disp_frm :
    (cfg : Settings) (signs : List Sign) (db : Db) (cmd : Memory) (groups : List Group)
    → schedules (cmd_disp_frm cfg signs db cmd groups).1 ≡ schedules groups
unfolding cmd_disp_frm
schedules-cmd_disp_frm cfg signs db cmd groups = elim (Option-cases (get_group groups (cmd 1))) [
  | inl e ↦ rw (e, schedules) refl
  | inr (g, e) ↦
      rw (e, schedules)
        (schedules-if_checked _ groups _ (schedules-at_command _ (cmd 1 - 1) groups))
]

pub schedules-cmd_disp_msg :
    (db : Db) (cmd : Memory) (groups : List Group)
    → schedules (cmd_disp_msg db cmd groups).1 ≡ schedules groups
unfolding cmd_disp_msg
schedules-cmd_disp_msg db cmd groups = elim (Option-cases (get_group groups (cmd 1))) [
  | inl e ↦ rw (e, schedules) refl
  | inr (g, e) ↦
      rw (e, schedules)
        (elim (Bool-cases (not (cmd 2 == 0) && not (is_msg_defined db.msg (cmd 2)))) [
          | inl u ↦ rw (u, schedules) refl
          | inr d ↦ rw (d, schedules) (schedules-at_command _ (cmd 1 - 1) groups)
        ])
]

pub schedules-cmd_disp_atomic_frm :
    (cfg : Settings) (is_rejected : ℕ → ℕ → Bool) (signs : List Sign) (db : Db) (cmd : Memory)
    (groups : List Group)
    → schedules (cmd_disp_atomic_frm cfg is_rejected signs db cmd groups).1 ≡ schedules groups
unfolding cmd_disp_atomic_frm
schedules-cmd_disp_atomic_frm cfg is_rejected signs db cmd groups =
    elim (Option-cases (get_group groups (cmd 1))) [
      | inl e ↦ rw (e, schedules) refl
      | inr (g, e) ↦
          rw (e, schedules)
            (elim (Bool-cases (cmd 2 == length g.signs)) [
              | inr n ↦ rw (n, schedules) refl
              | inl n ↦
                  rw (n, schedules)
                    (schedules-if_checked _ groups _ (schedules-at_command _ (cmd 1 - 1) groups))
            ])
    ]

-- CmdEnDisPlan always returns.
pub cmd_en_dis_plan-IsSound :
    (cmd : Memory) (db : Db) (groups : List Group)
    → IsSound db groups
    → (r : AppError) × (groups' : List Group) × (cmd_en_dis_plan db.pln cmd groups
        ≡ some (r, groups'))
      × IsSound db groups'
unfolding cmd_en_dis_plan
cmd_en_dis_plan-IsSound cmd db groups v =
    let endis = cmd 0 == Mi.enable_plan in
    let (r, groups', e, planned) =
      at_schedule-AllConsistent db.pln (cmd 2) endis (cmd 1 - 1) groups v.clocks v.planned in
    elim (Bool-cases (ltb (length groups) (cmd 1) || cmd 1 == 0)) [
      | inl a ↦ (undefined_device_number, groups, rw a refl, v)
      | inr a ↦
          elim (Bool-cases (endis && (not (cmd 2 == 0) && not (is_pln_defined db.pln (cmd 2))))) [
            | inl b ↦ (frm_msg_pln_undefined, groups, rw (a, b) refl, v)
            | inr b ↦ (
              r,
              groups',
              rw (a, b) e,
              record { tables = v.tables; clocks = v.clocks; planned = planned },
            )
          ]
    ]
