-- ===== src/Sign/Controller/Planned.antt =====
-- The schedules of the groups of src/sign/Controller.cpp where the table of plans changes: SignSetPlan
-- and CmdSystemReset.
use gc.Common.{
  ℕ, zero, suc, ◌+◌, ◌-◌, ◌≤◌, ◌≡◌, ◌≢◌, refl, sym, ap, ◌∙◌, Bool, true, false, ◌&&◌, ◌||◌, not,
  some, List, [], ◌∷◌, arith, Bool-cases, inl, inr, ◌⊎◌, ◌==◌, ==_iff, ltb, leb, if◌then◌else◌,
  length,
}
use gc.Tsisp003.Memory.{Memory, IsBytes}
use gc.Tsisp003.AppError.{AppError, app_no_error}
use gc.Tsisp003.Plan.{Plan}
use gc.Uci.UciFrm.{is_frm_defined}
use gc.Uci.UciMsg.{is_msg_defined}
use gc.Uci.UciPln
use gc.Uci.UciPln.{UciPln, is_pln_defined, set_pln}
use gc.Sign.Schedule
use gc.Sign.Schedule.{get_pln, en_dis_plan, proc_en_dis_plan, is_plan_enabled, is_plan_active}
use gc.Sign.Schedule.Steps.{Consistent, AllClocks, is_plan_enabled_lem}
use gc.Sign.Schedule.Laws.{cleared-Consistent}
use gc.Sign.Controller.{Settings, Db, Group, any, is_pln_enabled}
use gc.Sign.Controller.Cases.{set_pln-cases, plan-store}
use gc.Sign.Controller.Stored.{is_pln_defined-store}
use gc.Sign.Controller.Store.{attach_crc, sign_set_plan, with_pln}
use gc.Sign.Controller.Protection.{attach_crc_id}
use gc.Sign.Controller.Reset.{
  system_reset0, system_reset1, system_reset, reset_all, reset_at, reset_db,
}
use gc.Sign.Controller.Schedules.{schedules, AllConsistent}
use gc.Sign.Controller.References.{IsConsistent}
use gc.Sign.Controller.Reset.{cmd_system_reset}
use gc.Sign.Controller.Reset.Laws.{reset_db-IsConsistent}
use gc.Sign.Schedule.Plans.{empty-AllClocks}
use gc.Tsisp003.AppError.{syntax_error, undefined_device_number}

-- The plan under another id than that of the one that is stored.
get_pln-store :
    (m : Plan) (u : UciPln) (id : ℕ)
    → UciPln.Laws.IsValid u
    → m.micode ≢ 0
    → 1 ≤ m.pln_id
    → m.pln_id ≤ 255
    → 1 ≤ id
    → id ≢ m.pln_id
    → get_pln (UciPln.store m u) id ≡ get_pln u id
unfolding get_pln
get_pln-store m u id v code pos small from ne =
    let other : (id == m.pln_id) ≡ false = ground arith in
    let defined = is_pln_defined-store m u id v code pos small from in
    let placed = plan-store m u id v pos small from in rw (defined, placed, other) refl

store-Consistent :
    (m : Plan) (u : UciPln) (g : Schedule.Group)
    → UciPln.Laws.IsValid u
    → m.micode ≢ 0
    → 1 ≤ m.pln_id
    → m.pln_id ≤ 255
    → g.enabled m.pln_id ≡ false
    → Consistent u g
    → Consistent (UciPln.store m u) g
unfolding Consistent
store-Consistent m u g v code pos small off before id k some_id =
    elim (Bool-cases (id == m.pln_id)) [
      | inl e ↦
          let same : id ≡ m.pln_id = (==_iff _ _).0 e in
          let off' : g.enabled id ≡ false = ap g.enabled same ∙ off in
          let was = before id k some_id in
          (λ h. let on = (was.0 h).0 in absurd (ground arith), λ h. absurd (ground arith))
      | inr e ↦
          rw (get_pln-store m u id v code pos small (omega arith) (ground arith))
            (before id k some_id)
    ]

store-AllConsistent :
    (m : Plan) (u : UciPln) (groups : List Group)
    → UciPln.Laws.IsValid u
    → m.micode ≢ 0
    → 1 ≤ m.pln_id
    → m.pln_id ≤ 255
    → is_pln_enabled groups m.pln_id ≡ false
    → AllClocks u
    → AllConsistent u (schedules groups)
    → AllConsistent (UciPln.store m u) (schedules groups)
unfolding is_pln_enabled any
store-AllConsistent m u [] v code pos small off clocks h = tt
store-AllConsistent m u (g ∷ groups) v code pos small off clocks h =
    let enabled = is_plan_enabled_lem u clocks m.pln_id (omega arith) g.schedule in
    elim (Bool-cases (is_plan_enabled g.schedule m.pln_id)) [
      | inl e ↦ absurd (ground arith)
      | inr e ↦ (
        store-Consistent m u g.schedule v code pos small (sym enabled ∙ e) h.0,
        store-AllConsistent m u groups v code pos small (rw e at off) clocks h.1,
      )
    ]

pub sign_set_plan-cases :
    (groups : List Group) (buf : Memory) (len : ℕ) (db : Db)
    → let u =
        (set_pln
          (is_frm_defined db.frm)
          (is_msg_defined db.msg)
          (attach_crc len buf)
          (len + 2)
          db.pln).1 in
      let u' = (sign_set_plan groups buf len db).1.pln in
      (u' ≡ db.pln) ⊎ ((is_pln_enabled groups (buf 1) ≡ false) × (u' ≡ u))
unfolding sign_set_plan with_pln
sign_set_plan-cases groups buf len db = ground arith

-- SignSetPlan leaves the schedules in agreement with the table of plans.
pub sign_set_plan-AllConsistent :
    (groups : List Group) (buf : Memory) (len : ℕ) (db : Db)
    → IsBytes buf
    → UciPln.Laws.IsValid db.pln
    → AllClocks db.pln
    → AllConsistent db.pln (schedules groups)
    → AllConsistent (sign_set_plan groups buf len db).1.pln (schedules groups)
sign_set_plan-AllConsistent groups buf len db bytes v clocks h =
    let p = is_frm_defined db.frm in
    let q = is_msg_defined db.msg in
    elim (sign_set_plan-cases groups buf len db) [
      | inl e ↦ rw e h
      | inr (off, e) ↦ elim (set_pln-cases p q (attach_crc len buf) (len + 2) db.pln) [
        | inl same ↦ rw (e, same) h
        | inr (m, w, id, long, stored) ↦
            let named : m.pln_id ≡ buf 1 = id ∙ attach_crc_id len buf (omega arith) in
            let done =
              store-AllConsistent m db.pln groups v (λ z. omega (arith, w.code, z))
                (omega (arith, w.id)) (omega (arith, bytes 1))
                (ap (is_pln_enabled groups) named ∙ off) clocks h in
            rw (e, stored) done
      ]
    ]

-- A group that is reset has no schedule left, so it agrees with every table of plans.
system_reset1-Consistent :
    (u : UciPln) (g : Group)
    → (g' : Group) × (system_reset1 u g ≡ some g') × ((w : UciPln) → Consistent w g'.schedule)
unfolding system_reset1 system_reset0 en_dis_plan is_plan_active
system_reset1-Consistent u g =
    (_, refl, λ w. cleared-Consistent w false (record g.schedule { on_disp_pln_id = 0 }))

-- The levels at which the groups are cleared.
abbrev clearing : ℕ → Bool
clearing lvl = lvl == 1 || (lvl == 2 || (lvl == 3 || lvl == 255))

system_reset-Consistent :
    (u : UciPln) (lvl : ℕ) (g : Group)
    → Consistent u g.schedule
    → (g' : Group) × (system_reset u lvl g ≡ some g')
      × Consistent u g'.schedule
      × ((w : UciPln) → clearing lvl ≡ true → Consistent w g'.schedule)
unfolding system_reset system_reset0
system_reset-Consistent u lvl g h = elim (Bool-cases (lvl == 0)) [
  | inl e ↦ (system_reset0 g, rw e refl, h, λ w c. absurd (ground arith))
  | inr e ↦ elim (Bool-cases (clearing lvl)) [
    | inl c ↦
        let (g', done, any_table) = system_reset1-Consistent u g in
        (g', rw (e, c) done, any_table u, λ w c. any_table w)
    | inr c ↦ (g, rw (e, c) refl, h, λ w c'. absurd (cc))
  ]
]

reset_all-AllConsistent :
    (u : UciPln) (lvl : ℕ) (groups : List Group)
    → AllConsistent u (schedules groups)
    → (groups' : List Group) × (reset_all u lvl groups ≡ some groups')
      × AllConsistent u (schedules groups')
      × ((w : UciPln) → clearing lvl ≡ true → AllConsistent w (schedules groups'))
unfolding reset_all
reset_all-AllConsistent u lvl [] h = ([], refl, tt, λ w c. tt)
reset_all-AllConsistent u lvl (g ∷ groups) h =
    let (g', e, v, any_table) = system_reset-Consistent u lvl g h.0 in
    let (groups', es, vs, any_tables) = reset_all-AllConsistent u lvl groups h.1 in
    (g' ∷ groups', rw (e, es) refl, (v, vs), λ w c. (any_table w c, any_tables w c))

reset_at-AllConsistent :
    (u : UciPln) (lvl i : ℕ) (groups : List Group)
    → AllConsistent u (schedules groups)
    → (groups' : List Group) × (reset_at u lvl i groups ≡ some groups')
      × AllConsistent u (schedules groups')
unfolding reset_at
reset_at-AllConsistent u lvl i [] h = ([], refl, tt)
reset_at-AllConsistent u lvl zero (g ∷ groups) h =
    let (g', e, v, any_table) = system_reset-Consistent u lvl g h.0 in
    (g' ∷ groups, rw e refl, (v, h.1))
reset_at-AllConsistent u lvl (suc i) (g ∷ groups) h =
    let (groups', e, vs) = reset_at-AllConsistent u lvl i groups h.1 in
    (g ∷ groups', rw e refl, (h.0, vs))

-- The tables are consistent, the plans have proper times, and the schedules say what the enabled plans
-- say.
pub record IsSound (db : Db) (groups : List Group) : Type 0 where
  pub tables : IsConsistent db
  pub clocks : AllClocks db.pln
  pub planned : AllConsistent db.pln (schedules groups)

pln-reset_db :
    (cfg : Settings) (lvl : ℕ) (db : Db)
    → (reset_db cfg lvl db).pln ≡ (if leb 3 lvl then UciPln.reset db.pln else db.pln)
unfolding reset_db
pln-reset_db cfg lvl db = elim (Bool-cases (leb 3 lvl)) [
  | inr e ↦ rw e refl
  | inl e ↦ elim (Bool-cases cfg.is_islus) [ inl i ↦ rw (e, i) refl | inr i ↦ rw (e, i) refl ]
]

reset-AllClocks : (u : UciPln) → AllClocks (UciPln.reset u)
unfolding UciPln.reset
reset-AllClocks u = empty-AllClocks

reset_db-IsSound :
    (cfg : Settings) (lvl : ℕ) (db : Db) (groups groups' : List Group)
    → (ltb 3 lvl && ltb lvl 255) ≡ false
    → IsSound db groups
    → AllConsistent db.pln (schedules groups')
    → ((w : UciPln) → clearing lvl ≡ true → AllConsistent w (schedules groups'))
    → lvl ≤ 255
    → IsSound (reset_db cfg lvl db) groups'
reset_db-IsSound cfg lvl db groups groups' known v same any_tables byte =
    let u = pln-reset_db cfg lvl db in
    record {
      tables = reset_db-IsConsistent cfg lvl db v.tables;
      clocks = rw u (elim (Bool-cases (leb 3 lvl)) [
        | inr e ↦ rw e v.clocks
        | inl e ↦ rw e (reset-AllClocks db.pln)
      ]);
      planned = rw u (elim (Bool-cases (leb 3 lvl)) [
        | inr e ↦ rw e same
        | inl e ↦ rw e (any_tables (UciPln.reset db.pln) (ground arith))
      ]);
    }

-- CmdSystemReset on a packet of bytes always returns, and leaves the tables and the schedules sound.
pub cmd_system_reset-IsSound :
    (cfg : Settings) (cmd : Memory) (db : Db) (groups : List Group)
    → IsBytes cmd
    → IsSound db groups
    → (r : AppError) × (db' : Db) × (groups' : List Group) × (cmd_system_reset cfg cmd db groups
        ≡ some (r, db', groups'))
      × IsSound db' groups'
unfolding cmd_system_reset
cmd_system_reset-IsSound cfg cmd db groups bytes v =
    let (ones, e1, v1) = reset_at-AllConsistent db.pln (cmd 2) (cmd 1 - 1) groups v.planned in
    let (all, e2, v2, any_tables) = reset_all-AllConsistent db.pln (cmd 2) groups v.planned in
    elim (Bool-cases (ltb 3 (cmd 2) && ltb (cmd 2) 255)) [
      | inl a ↦ (syntax_error, db, groups, rw a refl, v)
      | inr a ↦ elim (Bool-cases (ltb 1 (cmd 2) && not (cmd 1 == 0))) [
        | inl b ↦ (undefined_device_number, db, groups, rw (a, b) refl, v)
        | inr b ↦ elim (Bool-cases (ltb (length groups) (cmd 1))) [
          | inl d ↦ (undefined_device_number, db, groups, rw (a, b, d) refl, v)
          | inr d ↦ elim (Bool-cases (cmd 1 == 0)) [
            | inr z ↦ (
              app_no_error,
              db,
              ones,
              rw (a, b, d, z, e1) refl,
              record { tables = v.tables; clocks = v.clocks; planned = v1 },
            )
            | inl z ↦ (
              app_no_error,
              reset_db cfg (cmd 2) db,
              all,
              rw (a, b, d, z, e2) refl,
              reset_db-IsSound cfg (cmd 2) db groups all a v v2 any_tables (omega (arith, bytes 2)),
            )
          ]
        ]
      ]
    ]
