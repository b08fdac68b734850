-- ===== src/Sign/Controller/SignTest/Laws.antt =====
-- The test of the signs keeps the tables and the schedules of src/sign/Controller.cpp sound.
use gc.Common.{
  ℕ, zero, suc, ◌+◌, ◌/◌, ◌%◌, ◌<◌, ◌≤◌, ◌≡◌, refl, ap, Bool, ◌&&◌, ◌||◌, List, [], ◌∷◌, ◌++◌,
  arith, Bool-cases, inl, inr, ltb, ◌==◌, length, replicate, set,
}
use gc.Utils.Cnvt.{put_u16, put_u32}
use gc.Utils.Cnvt.Hex.{AreBytes, put_u32-AreBytes}
use gc.Utils.Bits.{set_70_bit}
use gc.Utils.Bits.Bytes.{byte_get-byte_set}
use gc.Tsisp003.Memory.{Memory, IsBytes, holding, holding-IsBytes}
use gc.Tsisp003.AppError.{AppError, app_no_error}
use gc.Tsisp003.Frame.{Hardware}
use gc.Uci.UciFrm.{set_frm}
use gc.Sign.Controller.{Settings, Db, Group}
use gc.Sign.Controller.Store.{with_frm}
use gc.Sign.Controller.References.{frame-IsConsistent}
use gc.Sign.Controller.Schedules.{schedules}
use gc.Sign.Controller.Planned.{IsSound}
use gc.Sign.Controller.Sound.{same-IsSound}
use gc.Sign.Controller.SignTest.{
  set_bits, set_rows, test_core, test_body, test_frame, next_group, test_groups, after_frame,
  cmd_sign_test,
}

AreBytes-append : (xs ys : List ℕ) → AreBytes xs → AreBytes ys → AreBytes (xs ++ ys)
AreBytes-append [] ys h k = k
AreBytes-append (x ∷ xs) ys h k = (h.0, AreBytes-append xs ys h.1 k)

AreBytes-set : (bs : List ℕ) (k v : ℕ) → AreBytes bs → v < 256 → AreBytes (set bs k v)
AreBytes-set [] k v h lt = tt
AreBytes-set (b ∷ bs) zero v h lt = (lt, h.1)
AreBytes-set (b ∷ bs) (suc k) v h lt = (h.0, AreBytes-set bs k v h.1 lt)

AreBytes-replicate : (n v : ℕ) → v < 256 → AreBytes (replicate n v)
AreBytes-replicate zero v lt = tt
AreBytes-replicate (suc n) v lt = (lt, AreBytes-replicate n v lt)

put_u16-AreBytes : (v : ℕ) → AreBytes (put_u16 v)
unfolding put_u16
put_u16-AreBytes v = (omega arith, (omega arith, tt))

set_bits-AreBytes :
    (n offset : ℕ) (core : List ℕ) → AreBytes core → AreBytes (set_bits n offset core)
unfolding set_bits set_70_bit
set_bits-AreBytes zero offset core h = h
set_bits-AreBytes (suc n) offset core h =
    let small = holding-IsBytes core h (offset / 8) in
    let k : offset % 8 < 8 = omega arith in
    let (_, _, lt, _) = byte_get-byte_set _ (offset % 8) 0 small k (omega arith) in
    set_bits-AreBytes n (offset + 1) _ (AreBytes-set core (offset / 8) _ h lt)

set_rows-AreBytes :
    (columns left offset : ℕ) (core : List ℕ)
    → AreBytes core
    → AreBytes (set_rows columns left offset core)
unfolding set_rows
set_rows-AreBytes columns zero offset core h = h
set_rows-AreBytes columns (suc left) offset core h =
    set_rows-AreBytes columns left (offset + columns + columns) _
      (set_bits-AreBytes columns offset core h)

test_core-AreBytes : (hw : Hardware) (pixels : ℕ) → AreBytes (test_core hw pixels)
unfolding test_core
test_core-AreBytes hw pixels = elim (Bool-cases (pixels == 1 || pixels == 2)) [
  | inl e ↦ rw e (
      set_rows-AreBytes hw.columns (hw.rows / 2) _ _
        (AreBytes-replicate hw.gfx1_core_len 0 (omega arith)))
  | inr e ↦ rw e (AreBytes-replicate hw.gfx1_core_len _ (ground arith))
]

test_body-AreBytes :
    (hw : Hardware) (colour pixels : ℕ) → colour ≤ 9 → AreBytes (test_body hw colour pixels)
unfolding test_body
test_body-AreBytes hw colour pixels le =
    let core = test_core-AreBytes hw pixels in
    let small : colour < 256 = omega (arith, le) in
    elim (Bool-cases (ltb hw.rows 255 && ltb hw.columns 255)) [
      | inl e ↦
          let rows : hw.rows < 256 = ground arith in
          let columns : hw.columns < 256 = ground arith in
          let rest = AreBytes-append (put_u16 hw.gfx1_core_len) _ (put_u16-AreBytes _) core in
          rw e (
            omega arith,
            (omega arith, (omega arith, (rows, (columns, (small, (omega arith, rest)))))),
          )
      | inr e ↦
          let rest = AreBytes-append (put_u32 hw.gfx1_core_len) _ (put_u32-AreBytes _) core in
          let sized =
            AreBytes-append (put_u16 hw.columns)
              ((colour ∷ 0 ∷ []) ++ (put_u32 hw.gfx1_core_len ++ test_core hw pixels))
              (put_u16-AreBytes _) (small, (omega arith, rest)) in
          rw e (
            omega arith,
            (
              omega arith,
              (omega arith, AreBytes-append (put_u16 hw.rows) _ (put_u16-AreBytes _) sized),
            ),
          )
    ]

test_frame-IsBytes :
    (hw : Hardware) (colour pixels : ℕ)
    → colour ≤ 9
    → IsBytes (holding (test_frame hw colour pixels))
unfolding test_frame
test_frame-IsBytes hw colour pixels le = holding-IsBytes _ (
    AreBytes-append (test_body hw colour pixels) _ (test_body-AreBytes hw colour pixels le)
      (put_u16-AreBytes _))

schedules-next_group :
    (e : AppError) (g : Group) (groups : List Group) (rest : AppError × List Group)
    → schedules rest.1 ≡ schedules groups
    → schedules (next_group e g groups rest).1 ≡ schedules (g ∷ groups)
schedules-next_group app_no_error g groups rest h = ap (λ t. g.schedule ∷ t) h
schedules-next_group e g groups rest h = refl

schedules-test_groups :
    (tested : Bool) (groups : List Group)
    → schedules (test_groups tested groups).1 ≡ schedules groups
unfolding test_groups
schedules-test_groups tested [] = refl
schedules-test_groups tested (g ∷ groups) =
    schedules-next_group _ _ groups (test_groups tested groups)
      (schedules-test_groups tested groups)

after_frame-IsSound :
    (groups : List Group) (res : AppError × Db)
    → IsSound res.1 groups
    → IsSound (after_frame groups res).1 (after_frame groups res).2
after_frame-IsSound groups (app_no_error, db) v =
    same-IsSound db groups _ (schedules-test_groups _ groups) v
after_frame-IsSound groups (e, db) v = v

pub cmd_sign_test-IsSound :
    (cfg : Settings) (cmd : Memory) (db : Db) (groups : List Group)
    → IsSound db groups
    → let r = cmd_sign_test cfg cmd db groups in IsSound r.1 r.2
unfolding cmd_sign_test with_frm
cmd_sign_test-IsSound cfg cmd db groups v = elim (Bool-cases (ltb 5 (cmd 3))) [
  | inl e ↦ rw e v
  | inr e ↦ elim (Bool-cases (ltb 9 (cmd 2))) [
    | inl f ↦ rw (e, f) v
    | inr f ↦
        let frm = test_frame cfg.hardware (cmd 2) (cmd 3) in
        let bytes = test_frame-IsBytes cfg.hardware (cmd 2) (cmd 3) (ground arith) in
        rw (e, f)
          (after_frame-IsSound groups
            (with_frm db (set_frm cfg.hardware (holding frm) (length frm) db.frm))
            (record {
              tables = frame-IsConsistent cfg.hardware (holding frm) (length frm) db bytes v.tables;
              clocks = v.clocks;
              planned = v.planned;
            }))
  ]
]
