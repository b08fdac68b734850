-- ===== src/Uci/UciFault/Ring.antt =====
-- The ring of src/uci/UciFault.cpp against the history of what was pushed.
use gc.Common.{
  ℕ, zero, suc, ◌+◌, ◌-◌, ◌≤◌, ◌<◌, ◌≡◌, ◌⊎◌, refl, sym, ap, ◌∙◌, true, false, Option, none, some,
  List, [], ◌∷◌, leb, if◌then◌else◌, get_or, get_elem?, length, take, arith, Bool-cases, inl, inr,
}
use gc.Uci.UciFault.{FaultLog, blank, is_valid, before, collect, collect_some}

-- The valid log at a place.
abbrev pub slot : List FaultLog → ℕ → Option FaultLog
slot logs i = let log = get_or logs i blank in if is_valid log then some log else none

-- The place `j` steps before place `i`.
abbrev pub back : ℕ → ℕ → ℕ → ℕ
back size i j = if leb j i then i - j else i + size - j

back-before :
    (size i j : ℕ) → i < size → j < size → back size (before size i) j ≡ back size i (suc j)
back-before size i j lt l = ground arith

pub slot-cases :
    (logs : List FaultLog) (i : ℕ) (o : Option FaultLog)
    → slot logs i ≡ o
    → ((o ≡ none) × (is_valid (get_or logs i blank) ≡ false))
      ⊎ ((o ≡ some (get_or logs i blank)) × (is_valid (get_or logs i blank) ≡ true))
slot-cases logs i o h = elim (Bool-cases (is_valid (get_or logs i blank))) [
  | inl e ↦ inr (sym (rw e at h), e)
  | inr e ↦ inl (sym (rw e at h), e)
]

pub slot-get :
    (logs : List FaultLog) (i : ℕ) (x : FaultLog) → slot logs i ≡ some x → get_or logs i blank ≡ x
slot-get logs i x h = elim (slot-cases logs i (some x) h) [
  | inl (e, off) ↦ absurd (ground arith)
  | inr (e, on) ↦ sym (ap (λ o. elim o [ none ↦ x | some y ↦ y ]) e)
]

-- A list of logs, newest first, that lies in the ring from place `i` backwards.
abbrev pub Lies : List FaultLog → ℕ → ℕ → List FaultLog → Type 0
Lies logs i left xs = (j : ℕ) → j < left → slot logs (back (length logs) i j) ≡ get_elem? xs j

Lies-tail :
    (logs : List FaultLog) (i left : ℕ) (x : FaultLog) (xs : List FaultLog)
    → i < length logs
    → suc left ≤ length logs
    → Lies logs i (suc left) (x ∷ xs)
    → Lies logs (before (length logs) i) left xs
Lies-tail logs i left x xs lt le h j l =
    ap (slot logs) (back-before (length logs) i j lt (omega arith)) ∙ h (suc j) (omega arith)

Lies-nil :
    (logs : List FaultLog) (i left : ℕ)
    → i < length logs
    → suc left ≤ length logs
    → Lies logs i (suc left) []
    → Lies logs (before (length logs) i) left []
Lies-nil logs i left lt le h j l =
    ap (slot logs) (back-before (length logs) i j lt (omega arith)) ∙ h (suc j) (omega arith)

pub take-nil : (n : ℕ) → [] ≡ take {A = FaultLog} n []
take-nil zero = refl
take-nil (suc n) = refl

pub slot-first :
    (logs : List FaultLog) (i left : ℕ) (xs : List FaultLog)
    → i < length logs
    → Lies logs i (suc left) xs
    → slot logs i ≡ get_elem? xs 0
slot-first logs i left xs lt h =
    let here : i ≡ back (length logs) i 0 = ground arith in ap (slot logs) here ∙ h 0 (omega arith)

pub collect-Lies :
    (logs : List FaultLog) (left i : ℕ) (xs : List FaultLog)
    → i < length logs
    → left ≤ length logs
    → Lies logs i left xs
    → collect logs left i ≡ take left xs
unfolding collect
collect-Lies logs zero i xs lt le h = refl
collect-Lies logs (suc left) i [] lt le h =
    let rest =
      collect-Lies logs left (before (length logs) i) [] (ground arith) (omega arith)
        (Lies-nil logs i left lt le h) in
    elim (slot-cases logs i none (slot-first logs i left [] lt h)) [
      | inl (e, off) ↦ rw (off, rest) (sym (take-nil left))
      | inr (e, on) ↦ absurd (ground arith)
    ]
collect-Lies logs (suc left) i (x ∷ xs) lt le h =
    let rest =
      collect-Lies logs left (before (length logs) i) xs (ground arith) (omega arith)
        (Lies-tail logs i left x xs lt le h) in
    elim (slot-cases logs i (some x) (slot-first logs i left (x ∷ xs) lt h)) [
      | inl (e, off) ↦ absurd (ground arith)
      | inr (e, on) ↦
          rw (on, rest)
            (ap (λ (log : FaultLog). log ∷ take left xs)
              (ap (λ o. elim o [ none ↦ x | some y ↦ y ]) (sym e)))
    ]

-- The loop with room for so many stops at the first ones of the others.
pub collect_some-take :
    (logs : List FaultLog) (left room i : ℕ)
    → collect_some logs left room i ≡ take room (collect logs left i)
unfolding collect_some collect
collect_some-take logs zero room i = take-nil room
collect_some-take logs (suc left) zero i = refl
collect_some-take logs (suc left) (suc room) i =
    elim (Bool-cases (is_valid (get_or logs i blank))) [
      | inl e ↦ rw e (
          ap (λ (xs : List FaultLog). get_or logs i blank ∷ xs)
            (collect_some-take logs left room (before (length logs) i)))
      | inr e ↦ rw e (collect_some-take logs left (suc room) (before (length logs) i))
    ]
