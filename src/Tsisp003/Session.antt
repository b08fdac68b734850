-- ===== src/Tsisp003/Session.antt =====
-- The session of class TsiSp003App, src/tsisp003/TsiSp003App.cpp: the start, the password and the
-- end, and the answers Reject and Ack.
-- The answers go through LayerPrst and LayerNTS; `rand` is an argument.
pub mod Login
pub mod Tests
use gc.Common.{
  ℕ, ◌+◌, ◌*◌, ◌/◌, ◌%◌, Bool, true, false, not, ◌&&◌, ◌||◌, Option, none, some, List, [], ◌∷◌,
  ◌==◌, if◌then◌else◌, u8, u16, bit_xor, zero, suc,
}
use gc.Tsisp003.AppError.{
  AppError, code, device_controller_offline, syntax_error, length_error, incorrect_password,
  mi_not_supported,
}
use gc.Tsisp003.Memory.{Memory}
use gc.Tsisp003.Mi
use gc.Layer.Nts.{
  Session, off_line, start, on_line, is_online, Nts, UserCfg, emit, set_session, tx,
  refresh_session_time, refresh_disp_time,
}
use gc.Layer.Prst

-- `attached` tells whether the pointer `session` is set, `nts` is the layer below, which the session
-- stands in, `maxlen` the limit of the layer between.
pub record App : Type 0 where
  pub micode : ℕ
  pub attached : Bool
  pub maxlen : ℕ
  pub nts : Nts

abbrev set_nts : App → Nts → App
set_nts a s = record a { nts = s }

-- `Tx`, through `LayerPrst::Tx`.
unfoldable pub app_tx : UserCfg → App → List ℕ → App
app_tx cfg a bytes = elim (Prst.tx a.maxlen bytes) [
  | none ↦ a
  | some text ↦ set_nts a (tx cfg a.nts text)
]

unfoldable pub reject : UserCfg → App → AppError → App
reject cfg a error = app_tx cfg a (Mi.reject ∷ a.micode ∷ code error ∷ [])

unfoldable pub send_ack : UserCfg → App → App
send_ack cfg a = app_tx cfg a (Mi.ack ∷ a.micode ∷ [])

unfoldable pub is_online_app : App → Bool
is_online_app a = if a.attached then is_online a.nts.session else true

-- The test's result is false where a state with the Reject sent comes back.
unfoldable pub chk_len : UserCfg → App → ℕ → ℕ → Bool × App
chk_len cfg a rcvd expect = if rcvd == expect then (true, a) else (false, reject cfg a length_error)

unfoldable pub check_online_reject_if_false : UserCfg → App → Bool × App
check_online_reject_if_false cfg a =
    if not (is_online_app a) then (false, reject cfg a device_controller_offline) else (true, a)

-- The bit of a mask.
abbrev bit_of : ℕ → ℕ → ℕ
bit_of n mask = n / mask % 2

-- One round of the loop of `MakePassword`.
unfoldable pub password_round : ℕ → ℕ
password_round passwd = u16 (
    u16 (passwd * 2)
    + bit_xor (bit_xor (bit_of passwd 0x20) (bit_of passwd 0x80)) (bit_of passwd 0x100))

unfoldable pub password_rounds : ℕ → ℕ → ℕ
password_rounds zero passwd = passwd
password_rounds (suc n) passwd = password_rounds n (password_round passwd)

unfoldable pub make_password : UserCfg → Nts → ℕ
make_password cfg s =
    u16 (password_rounds 16 (u16 (s.seed + cfg.seed_offset) % 256) + cfg.password_offset)

unfoldable pub start_session : UserCfg → ℕ → App → ℕ → App
start_session cfg rand a len =
    let checked = chk_len cfg a len 1 in
    if not checked.0 || not a.attached
    then checked.1
    else (let s = set_session a.nts start in
        app_tx cfg (set_nts a (record s { seed = u8 rand })) (Mi.password_seed ∷ u8 rand ∷ []))

-- What `Password` does with a password, by the state of the session.
unfoldable pub check_password : UserCfg → App → ℕ → Session → App
check_password cfg a pass start =
    if pass == make_password cfg a.nts
    then (let acked = send_ack cfg a in set_nts acked (set_session acked.nts on_line))
    else reject cfg (set_nts a (set_session a.nts off_line)) incorrect_password
check_password cfg a pass _ = reject cfg a syntax_error

unfoldable pub password : UserCfg → App → Memory → ℕ → App
password cfg a bytes len =
    let checked = chk_len cfg a len 3 in
    if not checked.0 || not a.attached
    then checked.1
    else check_password cfg a (u16 (bytes 1 * 0x100 + bytes 2)) a.nts.session

-- The controller's timers are refreshed before the answer.
unfoldable pub end_session : UserCfg → App → ℕ → App
end_session cfg a len =
    let online = check_online_reject_if_false cfg a in
    let checked = chk_len cfg online.1 len 1 in
    if not online.0
    then online.1
    else (if not checked.0 || not a.attached
        then checked.1
        else (let refreshed = emit (emit a.nts refresh_session_time) refresh_disp_time in
            let acked = send_ack cfg (set_nts a refreshed) in
            set_nts acked (set_session acked.nts off_line)))

-- The messages of HAR and of weather stations, which are not supported.
abbrev pub not_supported : List ℕ
not_supported =
    Mi.har_status_reply ∷ Mi.har_set_voice_data_incomplete ∷ Mi.har_set_voice_data_complete
    ∷ Mi.har_set_strategy ∷ Mi.har_activate_strategy ∷ Mi.har_set_plan ∷ Mi.har_request_stored_vsp
    ∷ Mi.har_set_voice_data_ack ∷ Mi.har_set_voice_data_nak ∷ Mi.environmental_weather_status_reply
    ∷ Mi.request_environmental_weather_values ∷ Mi.environmental_weather_values
    ∷ Mi.environmental_weather_threshold_definition ∷ Mi.request_threshold_definition
    ∷ Mi.request_environmental_weather_event_log ∷ Mi.environmental_weather_event_log_reply
    ∷ Mi.reset_environmental_weather_event_log ∷ []

abbrev pub is_in : List ℕ → ℕ → Bool
is_in [] mi = false
is_in (m ∷ ms) mi = mi == m || is_in ms mi

-- `Rx`. `user_defined_cmd` stands for the handler of all other messages.
unfoldable pub rx : (App → Memory → ℕ → App) → UserCfg → ℕ → App → Memory → ℕ → App
rx user_defined_cmd cfg rand a bytes len =
    let a' = record a { micode = bytes 0 } in
    if bytes 0 == Mi.start_session
    then start_session cfg rand a' len
    else (if bytes 0 == Mi.password
        then password cfg a' bytes len
        else (if bytes 0 == Mi.end_session
            then end_session cfg a' len
            else (if is_in not_supported (bytes 0)
                then reject cfg a' mi_not_supported
                else user_defined_cmd a' bytes len)))
