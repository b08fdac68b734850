-- ===== src/Tsisp003/Commands/Rx/Each.antt =====
-- What holds of each handler, for the choice in src/tsisp003/TsiSp003AppVer21.cpp and
-- src/tsisp003/TsiSp003AppVer50.cpp.
use gc.Common.{ℕ, Option, none, some, List, [], ◌∷◌, ◌==◌, Bool-cases, inl, inr}
use gc.Tsisp003.Commands.{Env}
use gc.Tsisp003.Commands.Rx.{Handler, dispatch, cases21, cases50, handler50}

abbrev pub OfSome : (Handler → Type 0) → Option Handler → Type 0
OfSome P none = Unit {0}
OfSome P (some h) = P h

abbrev pub AllOf : (Handler → Type 0) → List (ℕ × Handler) → Type 0
AllOf P [] = Unit {0}
AllOf P ((code, h) ∷ cases) = P h × AllOf P cases

dispatch-OfSome :
    (P : Handler → Type 0) (cases : List (ℕ × Handler)) (mi : ℕ)
    → AllOf P cases
    → OfSome P (dispatch cases mi)
unfolding dispatch
dispatch-OfSome P [] mi h = tt
dispatch-OfSome P ((code, x) ∷ cases) mi h = elim (Bool-cases (mi == code)) [
  | inl e ↦ rw e h.0
  | inr e ↦ rw e (dispatch-OfSome P cases mi h.1)
]

pub handler50-OfSome :
    (env : Env) (P : Handler → Type 0) (mi : ℕ)
    → AllOf P (cases21 env)
    → AllOf P (cases50 env)
    → OfSome P (handler50 env mi)
unfolding handler50
handler50-OfSome env P mi of21 of50 =
    go (dispatch (cases50 env) mi) (dispatch-OfSome P (cases50 env) mi of50)
  where
    go :
        (o : Option Handler)
        → OfSome P o
        → OfSome P (elim o [ none ↦ dispatch (cases21 env) mi | some handle ↦ some handle ])
    go none h = dispatch-OfSome P (cases21 env) mi of21
    go (some handle) h = h
