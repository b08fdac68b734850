-- ===== src/Uci/UciFault.antt =====
-- Class UciFault of src/uci/UciFault.cpp and FaultLog of include/uci/FaultLog.h: a ring of the last
-- faults. The configuration file that Push and Reset also write is left out.
pub mod Ring
pub mod History
mod Tests
use gc.Common.{
  ℕ, zero, suc, ◌+◌, ◌-◌, ◌*◌, ◌/◌, ◌%◌, Bool, true, false, Option, none, some, List, [], ◌∷◌, ◌++◌,
  map, leb, ltb, ◌==◌, if◌then◌else◌, get_or, set, length, u8, u16,
}
use gc.Utils.Cnvt.{put_u16, put_u32}
use gc.Utils.Crc.{crc16_1021}

-- The time is `none` for -1, which marks a log that is not valid.
pub record FaultLog : Type 0 where
  pub log_time : Option ℕ
  pub id : ℕ
  pub entry_no : ℕ
  pub error_code : ℕ
  pub onset : ℕ
  pub crc : ℕ

abbrev pub blank : FaultLog
blank = record { log_time = none; id = 0; entry_no = 0; error_code = 0; onset = 0; crc = 0 }

abbrev pub is_valid : FaultLog → Bool
is_valid log = elim log.log_time [ none ↦ false | some t ↦ true ]

-- The checksum of a log at a time.
unfoldable pub make_crc : ℕ → FaultLog → ℕ
make_crc time log =
    crc16_1021 (log.id ∷ u8 log.entry_no ∷ (put_u32 time ++ (log.error_code ∷ log.onset ∷ []))) 0

-- The array of 500 logs, and the place of the last one, `none` for -1.
pub record UciFault : Type 0 where
  pub fault_log : List FaultLog
  pub last_log : Option ℕ

abbrev pub next_place : UciFault → Option ℕ → ℕ
next_place u none = 0
next_place u (some i) = if leb (length u.fault_log) (i + 1) then 0 else i + 1

abbrev pub next_no : UciFault → Option ℕ → ℕ
next_no u none = 0
next_no u (some i) = u16 ((get_or u.fault_log i blank).entry_no + 1)

unfoldable pub make_log : ℕ → ℕ → ℕ → ℕ → ℕ → FaultLog
make_log id entry_no error_code onset time =
    let log : FaultLog = record {
      log_time = some time;
      id = id;
      entry_no = entry_no;
      error_code = error_code;
      onset = onset;
      crc = 0;
    } in
    record log { crc = make_crc time log }

-- `now` is what GetTime returns. A negative `t` is `none`.
unfoldable pub push : ℕ → ℕ → ℕ → ℕ → Option ℕ → UciFault → UciFault
push now id error_code onset none u = u
push now id error_code onset (some t) u =
    let time = if t == 0 then now else t in
    let place = next_place u u.last_log in
    record {
      fault_log = set u.fault_log place (make_log id (next_no u u.last_log) error_code onset time);
      last_log = some place;
    }

unfoldable pub reset : UciFault → UciFault
reset u = record {
  fault_log = map (λ (log : FaultLog). record log { log_time = none }) u.fault_log;
  last_log = none;
}

abbrev pub before : ℕ → ℕ → ℕ
before size i = if i == 0 then size - 1 else i - 1

-- The loop of GetLog, with the rounds that are left: the valid logs from place `i` backwards.
unfoldable pub collect : List FaultLog → ℕ → ℕ → List FaultLog
collect logs zero i = []
collect logs (suc left) i =
    let rest = collect logs left (before (length logs) i) in
    let log = get_or logs i blank in if is_valid log then log ∷ rest else rest

-- The loop of GetFaultLog20, which has room for so many.
unfoldable pub collect_some : List FaultLog → ℕ → ℕ → ℕ → List FaultLog
collect_some logs zero room i = []
collect_some logs (suc left) zero i = []
collect_some logs (suc left) (suc room) i =
    let kept = collect_some logs left room (before (length logs) i) in
    let skipped = collect_some logs left (suc room) (before (length logs) i) in
    let log = get_or logs i blank in if is_valid log then log ∷ kept else skipped

unfoldable pub logs_of : UciFault → List FaultLog
logs_of u = elim u.last_log [ none ↦ [] | some i ↦ collect u.fault_log (length u.fault_log) i ]

unfoldable pub logs20_of : UciFault → List FaultLog
logs20_of u = elim u.last_log [
  | none ↦ []
  | some i ↦ collect_some u.fault_log (length u.fault_log) 20 i
]

-- The members of a struct tm that are read.
pub record Tm : Type 0 where
  pub tm_mday : ℕ
  pub tm_mon : ℕ
  pub tm_year : ℕ
  pub tm_hour : ℕ
  pub tm_min : ℕ
  pub tm_sec : ℕ

-- PutLocalTime, with what localtime_r gives; `none` where it fails.
unfoldable pub put_local_time : Option Tm → List ℕ
put_local_time none = 0 ∷ 0 ∷ 0 ∷ 0 ∷ 0 ∷ 0 ∷ 0 ∷ []
put_local_time (some tp) =
    let year = tp.tm_year + 1900 in
    u8 tp.tm_mday
    ∷ u8 (tp.tm_mon + 1)
    ∷ u8 (year / 0x100)
    ∷ year % 256
    ∷ u8 tp.tm_hour
    ∷ u8 tp.tm_min
    ∷ u8 tp.tm_sec
    ∷ []

-- The bytes of the two replies; `localtime_r` is that of the C library.
module _ (localtime_r : ℕ → Option Tm) where
  abbrev pub time_bytes : FaultLog → List ℕ
  time_bytes log = elim log.log_time [ none ↦ [] | some t ↦ put_local_time (localtime_r t) ]

  unfoldable pub reply20 : List FaultLog → List ℕ
  reply20 [] = []
  reply20 (log ∷ logs) =
      log.id ∷ u8 log.entry_no ∷ (time_bytes log ++ (log.error_code ∷ log.onset ∷ reply20 logs))

  unfoldable pub get_fault_log20 : UciFault → List ℕ
  get_fault_log20 u = u8 (length (logs20_of u)) ∷ reply20 (logs20_of u)

  unfoldable pub reply : List FaultLog → List ℕ
  reply [] = []
  reply (log ∷ logs) =
      log.id
      ∷ (put_u16 log.entry_no ++ (time_bytes log ++ (log.error_code ∷ log.onset ∷ reply logs)))

  unfoldable pub get_log : UciFault → List ℕ
  get_log u = put_u16 (length (logs_of u)) ++ reply (logs_of u)
