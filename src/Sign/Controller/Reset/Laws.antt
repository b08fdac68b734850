-- ===== src/Sign/Controller/Reset/Laws.antt =====
-- CmdSystemReset of src/sign/Controller.cpp.
use gc.Common.{
  ℕ, ◌≤◌, ◌≡◌, refl, Bool, true, false, ◌&&◌, ◌||◌, not, some, List, [], ◌∷◌, arith, Bool-cases,
  inl, inr, ◌==◌, ltb, leb, length,
}
use gc.Tsisp003.Memory.{Memory}
use gc.Tsisp003.AppError.{app_no_error}
use gc.Uci.UciFrm
use gc.Uci.UciMsg
use gc.Uci.UciPln
use gc.Uci.UciPln.{UciPln}
use gc.Sign.Schedule.{is_plan_active, is_plan_enabled, proc_en_dis_plan, en_dis_plan}
use gc.Sign.Controller.{
  Settings, Db, Group, any, is_frm_active, is_msg_active, is_pln_active, is_pln_enabled,
}
use gc.Sign.Controller.References.{IsConsistent}
use gc.Sign.Controller.Reset.{
  system_reset0, system_reset1, system_reset, reset_all, reset_db, cmd_system_reset,
}

-- Nothing of the group is active or enabled.
pub record IsIdle (g : Group) : Type 0 where
  pub no_frm : (id : ℕ) → g.active_frm id ≡ false
  pub no_msg : (id : ℕ) → g.active_msg id ≡ false
  pub no_pln : (id : ℕ) → 1 ≤ id → is_plan_active g.schedule id ≡ false
  pub none_enabled : (id : ℕ) → 1 ≤ id → is_plan_enabled g.schedule id ≡ false

system_reset1-IsIdle :
    (u : UciPln) (g : Group) → (g' : Group) × (system_reset1 u g ≡ some g') × IsIdle g'
unfolding system_reset1 system_reset0 en_dis_plan proc_en_dis_plan is_plan_active is_plan_enabled
system_reset1-IsIdle u g = (
  _,
  refl,
  record {
    no_frm = λ id. refl;
    no_msg = λ id. refl;
    no_pln = λ id pos. ground arith;
    none_enabled = λ id pos. ground arith;
  },
)

abbrev pub AllIdle : List Group → Type 0
AllIdle [] = Unit {0}
AllIdle (g ∷ groups) = IsIdle g × AllIdle groups

-- The levels that clear the display and the plans.
abbrev pub clears : ℕ → Bool
clears lvl = lvl == 1 || (lvl == 2 || (lvl == 3 || lvl == 255))

system_reset-IsIdle :
    (u : UciPln) (lvl : ℕ) (g : Group)
    → clears lvl ≡ true
    → (g' : Group) × (system_reset u lvl g ≡ some g') × IsIdle g'
unfolding system_reset
system_reset-IsIdle u lvl g c =
    let some_level : (lvl == 0) ≡ false = ground arith in
    rw (some_level, c) (system_reset1-IsIdle u g)

reset_all-AllIdle :
    (u : UciPln) (lvl : ℕ) (groups : List Group)
    → clears lvl ≡ true
    → (groups' : List Group) × (reset_all u lvl groups ≡ some groups') × AllIdle groups'
unfolding reset_all
reset_all-AllIdle u lvl [] c = ([], refl, tt)
reset_all-AllIdle u lvl (g ∷ groups) c =
    let (g', e, idle) = system_reset-IsIdle u lvl g c in
    let (groups', es, rest) = reset_all-AllIdle u lvl groups c in
    (g' ∷ groups', rw (e, es) refl, (idle, rest))

any-none :
    (test : Group → Bool) (groups : List Group)
    → AllIdle groups
    → ((g : Group) → IsIdle g → test g ≡ false)
    → any test groups ≡ false
unfolding any
any-none test [] h none_holds = refl
any-none test (g ∷ groups) h none_holds =
    rw (none_holds g h.0) (any-none test groups h.1 none_holds)

pub reset_db-IsConsistent :
    (cfg : Settings) (lvl : ℕ) (db : Db) → IsConsistent db → IsConsistent (reset_db cfg lvl db)
unfolding reset_db
reset_db-IsConsistent cfg lvl db c = elim (Bool-cases (leb 3 lvl)) [
  | inr e ↦ rw e c
  | inl e ↦ elim (Bool-cases cfg.is_islus) [
    | inl islus ↦
        rw (e, islus)
          (record {
            frames = c.frames;
            messages = c.messages;
            of_message = c.of_message;
            plans = (UciPln.Laws.reset-IsValid db.pln 0).0;
            of_plan =
                λ i h. let (v, undefined, z) = UciPln.Laws.reset-IsValid db.pln i in absurd (cc);
          })
    | inr vms ↦
        rw (e, vms)
          (record {
            frames = UciFrm.Laws.reset-IsValid db.frm;
            messages = (UciMsg.Laws.reset-IsValid db.msg 0 c.messages).0;
            plans = (UciPln.Laws.reset-IsValid db.pln 0).0;
            of_message = λ i h.
                let (v, undefined, z) = UciMsg.Laws.reset-IsValid db.msg i c.messages in
                absurd (cc);
            of_plan =
                λ i h. let (v, undefined, z) = UciPln.Laws.reset-IsValid db.pln i in absurd (cc);
          })
  ]
]

-- A reset of all groups at level 1, 2, 3 or 255, with consistent tables, is accepted; it leaves no
-- frame, message or plan active and no plan enabled, and it keeps the tables consistent.
pub cmd_system_reset-clears :
    (cfg : Settings) (cmd : Memory) (db : Db) (groups : List Group)
    → IsConsistent db
    → cmd 1 ≡ 0
    → clears (cmd 2) ≡ true
    → (db' : Db) × (groups' : List Group) × (cmd_system_reset cfg cmd db groups
        ≡ some (app_no_error, db', groups'))
      × IsConsistent db'
      × ((id : ℕ)
          → 1 ≤ id
          → (is_frm_active groups' id ≡ false)
            × (is_msg_active groups' id ≡ false)
            × (is_pln_active groups' id ≡ false)
            × (is_pln_enabled groups' id ≡ false))
unfolding cmd_system_reset is_frm_active is_msg_active is_pln_active is_pln_enabled
cmd_system_reset-clears cfg cmd db groups c zeroth level =
    let lvl = cmd 2 in
    let (groups', e, idle) = reset_all-AllIdle db.pln lvl groups level in
    let known : (ltb 3 lvl && ltb lvl 255) ≡ false = ground arith in
    let grp : (cmd 1 == 0) ≡ true = ground arith in
    let allowed : (ltb 1 lvl && not (cmd 1 == 0)) ≡ false = ground arith in
    let few : ltb (length groups) (cmd 1) ≡ false = ground arith in
    let accepted : cmd_system_reset cfg cmd db groups
        ≡ some (app_no_error, reset_db cfg lvl db, groups') =
      rw (known, allowed, few, grp, e) refl in
    (
      reset_db cfg lvl db,
      groups',
      accepted,
      reset_db-IsConsistent cfg lvl db c,
      λ id pos.
          let some_id : ltb 0 id ≡ true = ground arith in
          rw some_id (
            any-none _ groups' idle (λ g v. v.no_frm id),
            any-none _ groups' idle (λ g v. v.no_msg id),
            any-none _ groups' idle (λ g v. v.no_pln id pos),
            any-none _ groups' idle (λ g v. v.none_enabled id pos),
          ),
    )
