-- ===== src/Tsisp003/Session/Login.antt =====
-- Who gets on line by src/tsisp003/TsiSp003App.cpp.
use gc.Common.{
  ℕ, ◌+◌, ◌*◌, ◌≡◌, ◌⊎◌, inl, inr, refl, sym, ◌∙◌, true, not, ◌&&◌, ◌||◌, List, arith, ◌==◌, ==_iff,
  Bool-cases, Option-cases, if◌then◌else◌, u16,
}
use gc.Tsisp003.AppError.{AppError, mi_not_supported}
use gc.Tsisp003.Memory.{Memory}
use gc.Tsisp003.Mi
use gc.Layer.Nts.{Session, off_line, start, on_line, Nts, UserCfg, set_session, tx}
use gc.Layer.Prst
use gc.Tsisp003.Session.{
  App, app_tx, reject, send_ack, chk_len, check_online_reject_if_false, make_password,
  start_session, check_password, password, end_session, rx, is_online_app, is_in, not_supported,
}

set_session-session : (s : Nts) (v : Session) → (set_session s v).session ≡ v
unfolding set_session
set_session-session s off_line = ground arith
set_session-session s start = refl
set_session-session s on_line = ground arith

set_session-numbers :
    (s : Nts) (v : Session) → ((set_session s v).nr ≡ 0) × ((set_session s v).ns ≡ 0)
unfolding set_session
set_session-numbers s off_line = ground arith
set_session-numbers s start = (refl, refl)
set_session-numbers s on_line = ground arith

tx-session : (cfg : UserCfg) (s : Nts) (bs : List ℕ) → (tx cfg s bs).session ≡ s.session
unfolding tx
tx-session cfg s bs = ground arith

app_tx-session :
    (cfg : UserCfg) (a : App) (bs : List ℕ) → (app_tx cfg a bs).nts.session ≡ a.nts.session
unfolding app_tx
app_tx-session cfg a bs = elim (Option-cases (Prst.tx a.maxlen bs)) [
  | inl e ↦ rw (app_tx, e) refl
  | inr (text, e) ↦ rw (app_tx, e) (tx-session cfg a.nts text)
]

reject-session :
    (cfg : UserCfg) (a : App) (e : AppError) → (reject cfg a e).nts.session ≡ a.nts.session
unfolding reject
reject-session cfg a e = app_tx-session cfg a _

-- What a password message has to be to be accepted.
pub record IsLogin (cfg : UserCfg) (a : App) (bytes : Memory) (len : ℕ) : Type 0 where
  pub whole : len ≡ 3
  pub attached : a.attached ≡ true
  pub started : a.nts.session ≡ start
  pub right : u16 (bytes 1 * 0x100 + bytes 2) ≡ make_password cfg a.nts

-- The session after a password.
abbrev pub after_password : UserCfg → App → ℕ → Session → Session
after_password cfg a pass start = if pass == make_password cfg a.nts then on_line else off_line
after_password cfg a pass s = s

check_password-session :
    (cfg : UserCfg) (a : App) (pass : ℕ) (s : Session)
    → a.nts.session ≡ s
    → (check_password cfg a pass s).nts.session ≡ after_password cfg a pass s
unfolding check_password send_ack
check_password-session cfg a pass off_line e = reject-session cfg a _ ∙ e
check_password-session cfg a pass on_line e = reject-session cfg a _ ∙ e
check_password-session cfg a pass start e = elim (Bool-cases (pass == make_password cfg a.nts)) [
  | inl right ↦ rw right (set_session-session _ on_line)
  | inr wrong ↦ rw wrong (reject-session cfg _ _ ∙ set_session-session _ off_line)
]

-- A password message leaves the session as it is unless it has three bytes and a session is
-- attached; a session that was started is on line after the right password and off line after any
-- other, and any other session stays as it is.
pub password-session :
    (cfg : UserCfg) (a : App) (bytes : Memory) (len : ℕ)
    → (password cfg a bytes len).nts.session ≡ (
        if not (len == 3) || not a.attached
        then a.nts.session
        else after_password cfg a (u16 (bytes 1 * 0x100 + bytes 2)) a.nts.session)
unfolding password chk_len
password-session cfg a bytes len = elim (Bool-cases (len == 3)) [
  | inr e ↦ rw e (reject-session cfg a _)
  | inl e ↦ elim (Bool-cases a.attached) [
    | inr f ↦ rw (e, f) refl
    | inl f ↦ simp (e, f) (check_password-session cfg a _ a.nts.session refl)
  ]
]

start_session-session :
    (cfg : UserCfg) (rand : ℕ) (a : App) (len : ℕ)
    → (start_session cfg rand a len).nts.session
      ≡ (if not (len == 1) || not a.attached then a.nts.session else start)
unfolding start_session chk_len
start_session-session cfg rand a len = elim (Bool-cases (len == 1)) [
  | inr e ↦ rw e (reject-session cfg a _)
  | inl e ↦ elim (Bool-cases a.attached) [
    | inr f ↦ rw (e, f) refl
    | inl f ↦ rw (e, f) (app_tx-session cfg _ _ ∙ set_session-session a.nts start)
  ]
]

end_session-session :
    (cfg : UserCfg) (a : App) (len : ℕ)
    → (end_session cfg a len).nts.session
      ≡ (if is_online_app a && (len == 1) && a.attached then off_line else a.nts.session)
unfolding end_session chk_len check_online_reject_if_false
end_session-session cfg a len = elim (Bool-cases (is_online_app a)) [
  | inr e ↦ rw e (reject-session cfg a _)
  | inl e ↦ elim (Bool-cases (len == 1)) [
    | inr f ↦ rw (e, f) (reject-session cfg a _)
    | inl f ↦ elim (Bool-cases a.attached) [
      | inr g ↦ rw (e, f, g) refl
      | inl g ↦ rw (e, f, g) (set_session-session _ off_line)
    ]
  ]
]

after_password-on_line :
    (cfg : UserCfg) (a : App) (pass : ℕ) (s : Session)
    → after_password cfg a pass s ≡ on_line
    → (s ≡ on_line) ⊎ ((s ≡ start) × (pass ≡ make_password cfg a.nts))
after_password-on_line cfg a pass off_line h = inl h
after_password-on_line cfg a pass on_line h = inl h
after_password-on_line cfg a pass start h = inr (refl, ground arith)

password-on_line :
    (cfg : UserCfg) (a : App) (bytes : Memory) (len : ℕ)
    → (password cfg a bytes len).nts.session ≡ on_line
    → (a.nts.session ≡ on_line) ⊎ IsLogin cfg a bytes len
password-on_line cfg a bytes len h =
    let e = sym (password-session cfg a bytes len) ∙ h in
    let last = after_password-on_line cfg a (u16 (bytes 1 * 0x100 + bytes 2)) a.nts.session in
    elim (Bool-cases (len == 3)) [
      | inr f ↦ inl (simp f at e)
      | inl f ↦ elim (Bool-cases a.attached) [
        | inr g ↦ inl (simp (f, g) at e)
        | inl g ↦ elim (last (simp (f, g) at e)) [
          | inl on ↦ inl on
          | inr (st, right) ↦
              inr (record { whole = (==_iff len 3).0 f; attached = g; started = st; right = right })
        ]
      ]
    ]

start_session-on_line :
    (cfg : UserCfg) (rand : ℕ) (a : App) (len : ℕ)
    → (start_session cfg rand a len).nts.session ≡ on_line
    → a.nts.session ≡ on_line
start_session-on_line cfg rand a len h =
    ground (arith, sym (start_session-session cfg rand a len) ∙ h)

end_session-on_line :
    (cfg : UserCfg) (a : App) (len : ℕ)
    → (end_session cfg a len).nts.session ≡ on_line
    → a.nts.session ≡ on_line
end_session-on_line cfg a len h = ground (arith, sym (end_session-session cfg a len) ∙ h)

-- Whatever message arrives, the session is on line after it only if it was so before, or the message
-- is a password of three bytes that is the right one, in a session that was started; provided the
-- handler of the other messages brings no session on line.
pub rx-on_line :
    (user_defined_cmd : App → Memory → ℕ → App) (cfg : UserCfg) (rand : ℕ) (a : App)
    (bytes : Memory) (len : ℕ)
    → ((b : App) → (user_defined_cmd b bytes len).nts.session ≡ on_line → b.nts.session ≡ on_line)
    → (rx user_defined_cmd cfg rand a bytes len).nts.session ≡ on_line
    → (a.nts.session ≡ on_line) ⊎ ((bytes 0 ≡ Mi.password) × IsLogin cfg a bytes len)
unfolding rx
rx-on_line user_defined_cmd cfg rand a bytes len others h =
    elim (Bool-cases (bytes 0 == Mi.start_session)) [
      | inl e ↦ inl (start_session-on_line cfg rand a' len (simp e at h))
      | inr e ↦ elim (Bool-cases (bytes 0 == Mi.password)) [
        | inl f ↦ elim (password-on_line cfg a' bytes len (simp (e, f) at h)) [
          | inl on ↦ inl on
          | inr login ↦ inr (
            (==_iff _ _).0 f,
            record {
              whole = login.whole;
              attached = login.attached;
              started = login.started;
              right = login.right;
            },
          )
        ]
        | inr f ↦ elim (Bool-cases (bytes 0 == Mi.end_session)) [
          | inl g ↦ inl (end_session-on_line cfg a' len (simp (e, f, g) at h))
          | inr g ↦ elim (Bool-cases (is_in not_supported (bytes 0))) [
            | inl k ↦ inl (sym (reject-session cfg a' mi_not_supported) ∙ (simp (e, f, g, k) at h))
            | inr k ↦ inl (others a' (simp (e, f, g, k) at h))
          ]
        ]
      ]
    ]
  where
    a' : App
    a' = record a { micode = bytes 0 }
