-- ===== src/Sign/Controller/Clock.antt =====
-- CmdUpdateTime of src/sign/Controller.cpp, with IsTmValid of src/module/Utils.cpp. The logs of events
-- and alarms are left out.
use gc.Common.{
  ℕ, ◌+◌, ◌%◌, Bool, ◌&&◌, not, Option, none, some, List, [], ◌∷◌, leb, ◌==◌, if◌then◌else◌, get_or,
}
use gc.Tsisp003.AppError.{AppError, app_no_error, syntax_error, time_expired}
use gc.Uci.UciFault
use gc.Uci.UciFault.{UciFault, Tm}
use gc.Sign.DeviceError.Codes

-- The days of the months, from January on.
abbrev pub monthday : List ℕ
monthday = 31 ∷ 28 ∷ 31 ∷ 30 ∷ 31 ∷ 30 ∷ 31 ∷ 31 ∷ 30 ∷ 31 ∷ 30 ∷ 31 ∷ []

-- The members that are negative in the code are excluded where a Tm is read.
unfoldable pub is_tm_valid : Tm → Bool
is_tm_valid tm =
    let days = get_or monthday tm.tm_mon 0 in
    let leap = tm.tm_mon == 1 && ((tm.tm_year + 1900) % 4 == 0) in
    leb 1 tm.tm_mday
    && (leb tm.tm_mon 11
        && ((leb 101 tm.tm_year && leb tm.tm_year 200)
            && (leb tm.tm_hour 23
                && (leb tm.tm_min 59
                    && (leb tm.tm_sec 59 && leb tm.tm_mday (if leap then days + 1 else days))))))

-- What is called for the clock: mktime of the C library, where 0 stands for what is not positive; whether
-- the system takes a time, and whether the DS3231 does; and the time at which a fault is logged.
pub record Clock : Type 0 where
  pub mktime : Tm → ℕ
  pub set_local_time : Tm → Bool
  pub set_timet : ℕ → Bool
  pub now : ℕ

-- `none` for a time with a negative month.
unfoldable pub cmd_update_time : Clock → Option Tm → UciFault → AppError × UciFault
cmd_update_time clock none faults = (syntax_error, faults)
cmd_update_time clock (some tm) faults =
    let failed = UciFault.push clock.now 0 Codes.memory_error 1 (some 0) faults in
    if is_tm_valid tm && not (clock.mktime tm == 0)
    then (if not (clock.set_local_time tm)
        then (time_expired, failed)
        else (if not (clock.set_timet (clock.mktime tm))
            then (time_expired, failed)
            else (app_no_error, faults)))
    else (syntax_error, faults)
