-- ===== src/Uci/UciFault/History.antt =====
-- The ring of src/uci/UciFault.cpp as a list of what was pushed since it was reset.
use gc.Common.{
  ℕ, zero, suc, ◌+◌, ◌≤◌, ◌<◌, ◌≡◌, ◌≢◌, ◌⊎◌, refl, sym, subst, ap, ◌∙◌, true, Option, none, some,
  List, [], ◌∷◌, map, leb, ◌==◌, if◌then◌else◌, set, length, length-set, length-map, take, u16,
  arith, inl, inr, get_or-set_self, get_or-set_ne,
}
use gc.Uci.UciFault.{
  FaultLog, UciFault, blank, is_valid, next_place, next_no, make_log, push, reset, logs_of,
  logs20_of,
}
use gc.Uci.UciFault.Ring.{slot, slot-get, back, Lies, collect-Lies, collect_some-take, take-nil}

-- The number of the next log, after those of the list.
abbrev pub number : List FaultLog → ℕ
number [] = 0
number (x ∷ xs) = u16 (x.entry_no + 1)

-- All that was pushed since a reset of a ring, newest first: numbered from 0 on, modulo 65536, with the
-- time that was given, or that of the clock.
pub data History (size : ℕ) : UciFault → List FaultLog → Type 0 where
  fresh : (u : UciFault) → length u.fault_log ≡ size → History size (reset u) []
  pushed :
      (now id error_code onset t : ℕ) (u : UciFault) (xs : List FaultLog)
      → History size u xs
      → History size
          (push now id error_code onset (some t) u)
          (make_log id (number xs) error_code onset (if t == 0 then now else t) ∷ xs)

-- How the ring holds such a list.
Holds : ℕ → UciFault → List FaultLog → Type 0
Holds size u xs =
    (length u.fault_log ≡ size)
    × (((u.last_log ≡ none) × (xs ≡ []) × ((i : ℕ) → slot u.fault_log i ≡ none))
        ⊎ ((p : ℕ) × (u.last_log ≡ some p)
            × (p < length u.fault_log)
            × (xs ≢ [])
            × Lies u.fault_log p (length u.fault_log) xs))

slot-reset :
    (logs : List FaultLog) (i : ℕ)
    → slot (map (λ (log : FaultLog). record log { log_time = none }) logs) i ≡ none
slot-reset [] i = refl
slot-reset (x ∷ logs) zero = refl
slot-reset (x ∷ logs) (suc i) = slot-reset logs i

slot-set :
    (logs : List FaultLog) (place i : ℕ) (x : FaultLog)
    → place ≢ i
    → slot (set logs place x) i ≡ slot logs i
slot-set logs place i x ne =
    ap (λ (log : FaultLog). if is_valid log then some log else none)
      (get_or-set_ne logs place i x blank ne)

slot-set_self :
    (logs : List FaultLog) (place : ℕ) (x : FaultLog)
    → place < length logs
    → is_valid x ≡ true
    → slot (set logs place x) place ≡ some x
slot-set_self logs place x lt valid = rw (get_or-set_self logs place x blank lt, valid) refl

-- A log that is put at the next place comes before all the others.
Lies-first :
    (logs : List FaultLog) (p next : ℕ) (x : FaultLog) (xs : List FaultLog)
    → p < length logs
    → next ≡ (if leb (length logs) (p + 1) then 0 else p + 1)
    → is_valid x ≡ true
    → Lies logs p (length logs) xs
    → Lies (set logs next x) next (length (set logs next x)) (x ∷ xs)
Lies-first logs p next x xs lt e valid h zero l =
    let here : back (length (set logs next x)) next 0 ≡ next = ground arith in
    ap (slot (set logs next x)) here ∙ slot-set_self logs next x (ground arith) valid
Lies-first logs p next x xs lt e valid h (suc j) l =
    let there : back (length (set logs next x)) next (suc j) ≡ back (length logs) p j =
      ground (arith, length-set logs next x) in
    ap (slot (set logs next x)) there
    ∙ (slot-set logs next (back (length logs) p j) x (λ same. ground arith)
        ∙ h j (omega (arith, length-set logs next x)))

Lies-only :
    (logs : List FaultLog) (x : FaultLog)
    → 1 ≤ length logs
    → is_valid x ≡ true
    → ((i : ℕ) → slot logs i ≡ none)
    → Lies (set logs 0 x) 0 (length (set logs 0 x)) (x ∷ [])
Lies-only logs x lt valid none_there zero l = slot-set_self logs 0 x lt valid
Lies-only logs x lt valid none_there (suc j) l =
    let i = back (length (set logs 0 x)) 0 (suc j) in
    let later : 0 ≢ i = λ same. ground (arith, length-set logs 0 x) in
    slot-set logs 0 i x later ∙ none_there i

-- The number that Push gives is the one that follows in the history.
next_no-number :
    (size : ℕ) (u : UciFault) (xs : List FaultLog)
    → 1 ≤ size
    → Holds size u xs
    → next_no u u.last_log ≡ number xs
unfolding Holds
next_no-number size u xs some_place (long, inl (last, empty, clear)) = rw (last, empty) refl
next_no-number size u [] some_place (long, inr (p, last, lt, some_log, lies)) =
    absurd (some_log refl)
next_no-number size u (x ∷ xs) some_place (long, inr (p, last, lt, some_log, lies)) =
    let here : p ≡ back (length u.fault_log) p 0 = ground arith in
    let log = slot-get u.fault_log p x (ap (slot u.fault_log) here ∙ lies 0 (omega arith)) in
    rw last (ap (λ (y : FaultLog). u16 (y.entry_no + 1)) log)

abbrev made : ℕ → ℕ → ℕ → ℕ → ℕ → ℕ → FaultLog
made id num error_code onset now t = make_log id num error_code onset (if t == 0 then now else t)

valid-made :
    (id num error_code onset now t : ℕ) → is_valid (made id num error_code onset now t) ≡ true
unfolding make_log
valid-made id num error_code onset now t = refl

made-not_nil : (x : FaultLog) (xs : List FaultLog) → x ∷ xs ≢ []
made-not_nil x xs h = absurd (let counts = ap length h in omega (arith, counts))

abbrev stored : UciFault → ℕ → FaultLog → UciFault
stored u place log = record { fault_log = set u.fault_log place log; last_log = some place }

push-stored :
    (now id error_code onset t num : ℕ) (u : UciFault)
    → next_no u u.last_log ≡ num
    → push now id error_code onset (some t) u
      ≡ stored u (next_place u u.last_log) (made id num error_code onset now t)
unfolding push
push-stored now id error_code onset t num u e = rw e refl

stored-first :
    (size : ℕ) (u : UciFault) (log : FaultLog)
    → 1 ≤ size
    → is_valid log ≡ true
    → length u.fault_log ≡ size
    → ((i : ℕ) → slot u.fault_log i ≡ none)
    → Holds size (stored u 0 log) (log ∷ [])
unfolding Holds
stored-first size u log some_place valid long clear = (
  length-set _ _ _ ∙ long,
  inr (
    0,
    refl,
    omega (arith, length-set u.fault_log 0 log, long),
    made-not_nil log [],
    Lies-only u.fault_log log (omega (arith, long)) valid clear,
  ),
)

stored-next :
    (size p : ℕ) (u : UciFault) (log : FaultLog) (xs : List FaultLog)
    → is_valid log ≡ true
    → length u.fault_log ≡ size
    → p < length u.fault_log
    → Lies u.fault_log p (length u.fault_log) xs
    → Holds size (stored u (next_place u (some p)) log) (log ∷ xs)
unfolding Holds
stored-next size p u log xs valid long lt lies =
    let next = if leb (length u.fault_log) (p + 1) then 0 else p + 1 in
    (
      length-set _ _ _ ∙ long,
      inr (
        next,
        refl,
        ground (arith, length-set u.fault_log next log),
        made-not_nil log xs,
        Lies-first u.fault_log p next log xs lt refl valid lies,
      ),
    )

push-Holds :
    (size now id error_code onset t : ℕ) (u : UciFault) (xs : List FaultLog)
    → 1 ≤ size
    → Holds size u xs
    → Holds size
        (push now id error_code onset (some t) u)
        (make_log id (number xs) error_code onset (if t == 0 then now else t) ∷ xs)
unfolding Holds
push-Holds size now id error_code onset t u xs some_place (long, held) =
    let valid = valid-made id (number xs) error_code onset now t in
    let log = made id (number xs) error_code onset now t in
    let run =
      push-stored now id error_code onset t (number xs) u
        (next_no-number size u xs some_place (long, held)) in
    rw run (elim held [
      | inl (last, empty, clear) ↦
          subst (λ (l : Option ℕ). Holds size (stored u (next_place u l) log) (log ∷ xs)) (sym last)
            (subst (λ (l : List FaultLog). Holds size (stored u 0 log) (log ∷ l)) (sym empty)
              (stored-first size u log some_place valid long clear))
      | inr (p, last, lt, some_log, lies) ↦
          subst (λ (l : Option ℕ). Holds size (stored u (next_place u l) log) (log ∷ xs)) (sym last)
            (stored-next size p u log xs valid long lt lies)
    ])

history-Holds :
    (size : ℕ) (u : UciFault) (xs : List FaultLog) → 1 ≤ size → History size u xs → Holds size u xs
unfolding Holds reset
history-Holds size _ _ some_place (fresh u long) =
    (length-map u.fault_log _ ∙ long, inl (refl, refl, slot-reset u.fault_log))
history-Holds size _ _ some_place (pushed now id error_code onset t u xs before_it) =
    push-Holds size now id error_code onset t u xs some_place
      (history-Holds size u xs some_place before_it)

take-nil20 : (n : ℕ) → [] ≡ take 20 (take {A = FaultLog} n [])
take-nil20 zero = refl
take-nil20 (suc n) = refl

-- Since the last reset of a ring of so many places, GetLog gives the latest of what was pushed, newest
-- first, as many as the ring has places; GetFaultLog20 gives the first 20 of these.
pub logs_of-History :
    (size : ℕ) (u : UciFault) (xs : List FaultLog)
    → 1 ≤ size
    → History size u xs
    → (logs_of u ≡ take size xs) × (logs20_of u ≡ take 20 (take size xs))
unfolding logs_of logs20_of Holds
logs_of-History size u xs some_place h =
    let (long, held) = history-Holds size u xs some_place h in
    elim held [
      | inl (last, empty, clear) ↦ rw (last, empty) (take-nil size, take-nil20 size)
      | inr (p, last, lt, some_log, lies) ↦
          let all = collect-Lies u.fault_log (length u.fault_log) p xs lt (omega arith) lies in
          rw (last, collect_some-take u.fault_log (length u.fault_log) 20 p, all, long) (refl, refl)
    ]
