-- ===== src/Sign/Controller/Plans/Report.antt =====
-- CmdRequestEnabledPlans of src/sign/Controller.cpp.
use gc.Common.{
  ℕ, zero, suc, ◌+◌, ◌-◌, ◌*◌, ◌%◌, ◌≤◌, ◌≡◌, refl, sym, ap, ◌∙◌, Bool, true, false, ◌&&◌, ◌||◌,
  List, [], ◌∷◌, ◌++◌, none, some, arith, Bool-cases, inl, inr, ◌==◌, ==_iff, ltb, leb, length,
  get_elem?, get_or, drop,
}
use gc.Sign.Schedule.{is_plan_enabled}
use gc.Sign.Controller.{Group}
use gc.Sign.Controller.Plans.{enabled_plans, all_enabled_plans, cmd_request_enabled_plans}

-- Whether a list of pairs holds a pair.
abbrev pub reported : ℕ → ℕ → List ℕ → Bool
reported i j [] = false
reported i j (x ∷ []) = false
reported i j (x ∷ y ∷ rest) = (x == i && y == j) || reported i j rest

abbrev IsPairs : List ℕ → Type 0
IsPairs [] = Unit {0}
IsPairs (x ∷ []) = ⊥
IsPairs (x ∷ y ∷ rest) = IsPairs rest

reported-append :
    (i j : ℕ) (xs ys : List ℕ)
    → IsPairs xs
    → reported i j (xs ++ ys) ≡ (reported i j xs || reported i j ys)
reported-append i j [] ys h = refl
reported-append i j (x ∷ []) ys h = absurd h
reported-append i j (x ∷ y ∷ rest) ys h = rw (reported-append i j rest ys h) (ground arith)

enabled_plans-IsPairs : (g : Group) (i left j : ℕ) → IsPairs (enabled_plans g i left j)
unfolding enabled_plans
enabled_plans-IsPairs g i zero j = tt
enabled_plans-IsPairs g i (suc left) j = elim (Bool-cases (is_plan_enabled g.schedule j)) [
  | inl e ↦ rw e (enabled_plans-IsPairs g i left (j + 1))
  | inr e ↦ rw e (enabled_plans-IsPairs g i left (j + 1))
]

and_false : (b : Bool) → (b && false) ≡ false
and_false true = refl
and_false false = refl

or_false : (b : Bool) → (b || false) ≡ b
or_false true = refl
or_false false = refl

settled : (b : Bool) → ((b && true) || false) ≡ (b && true)
settled true = refl
settled false = refl

reported-enabled_plans :
    (g : Group) (i left j k m : ℕ)
    → reported k m (enabled_plans g i left j)
      ≡ (i == k && ((leb j m && ltb m (j + left)) && is_plan_enabled g.schedule m))
unfolding enabled_plans
reported-enabled_plans g i zero j k m = ground arith
reported-enabled_plans g i (suc left) j k m =
    let ih = reported-enabled_plans g i left (j + 1) k m in
    let far : ltb m (j + suc left) ≡ ltb m (j + 1 + left) = ground arith in
    elim (Bool-cases (j == m)) [
      | inl e ↦
          let here : j ≡ m = (==_iff j m).0 e in
          let first : leb j m ≡ true = ground arith in
          let past : leb (j + 1) m ≡ false = ground arith in
          let within : ltb m (j + 1 + left) ≡ true = ground arith in
          let nothing : reported k m (enabled_plans g i left (j + 1)) ≡ false =
            ih ∙ rw past (and_false (i == k)) in
          let same : is_plan_enabled g.schedule m ≡ is_plan_enabled g.schedule j =
            ap (is_plan_enabled g.schedule) (sym here) in
          rw (far, first, within, same)
            (elim (Bool-cases (is_plan_enabled g.schedule j)) [
              | inl on ↦ rw (on, e, nothing) (settled (i == k))
              | inr off ↦ rw (off, nothing) (sym (and_false (i == k)))
            ])
      | inr e ↦
          let later : leb j m ≡ leb (j + 1) m = ground arith in
          rw (far, later)
            (elim (Bool-cases (is_plan_enabled g.schedule j)) [
              | inl on ↦ rw (on, e, and_false (i == k)) ih
              | inr off ↦ rw off ih
            ])
    ]

-- Whether a plan is enabled in the group at an index, if there is one.
abbrev pub enabled_at : List Group → ℕ → ℕ → Bool
enabled_at groups n m = elim (get_elem? groups n) [
  | none ↦ false
  | some g ↦ is_plan_enabled g.schedule m
]

reported-all_enabled_plans :
    (groups : List Group) (i k m : ℕ)
    → 1 ≤ m
    → m ≤ 255
    → reported k m (all_enabled_plans groups i) ≡ (leb i k && enabled_at groups (k - i) m)
unfolding all_enabled_plans
reported-all_enabled_plans [] i k m low high = sym (and_false (leb i k))
reported-all_enabled_plans (g ∷ groups) i k m low high =
    let ih = reported-all_enabled_plans groups (i + 1) k m low high in
    let own = reported-enabled_plans g i 255 1 k m in
    let within : (leb 1 m && ltb m (1 + 255)) ≡ true = ground arith in
    let parts =
      reported-append k m (enabled_plans g i 255 1) (all_enabled_plans groups (i + 1))
        (enabled_plans-IsPairs g i 255 1) in
    rw (parts, own, ih, within)
      (elim (Bool-cases (leb (i + 1) k)) [
        | inl later ↦
            let other : (i == k) ≡ false = ground arith in
            let reached : leb i k ≡ true = ground arith in
            let next : k - i ≡ suc (k - (i + 1)) = ground arith in
            rw (later, other, reached, next) refl
        | inr last ↦ elim (Bool-cases (i == k)) [
          | inl here ↦
              let reached : leb i k ≡ true = ground arith in
              let first : k - i ≡ 0 = ground arith in
              rw (last, here, reached, first) (or_false (is_plan_enabled g.schedule m))
          | inr past ↦ let before : leb i k ≡ false = ground arith in rw (last, past, before) refl
        ]
      ])

all_enabled_plans-IsPairs : (groups : List Group) (i : ℕ) → IsPairs (all_enabled_plans groups i)
unfolding all_enabled_plans
all_enabled_plans-IsPairs [] i = tt
all_enabled_plans-IsPairs (g ∷ groups) i =
    append-IsPairs (enabled_plans g i 255 1) _ (enabled_plans-IsPairs g i 255 1)
      (all_enabled_plans-IsPairs groups (i + 1))
  where
    append-IsPairs : (xs ys : List ℕ) → IsPairs xs → IsPairs ys → IsPairs (xs ++ ys)
    append-IsPairs [] ys h k = k
    append-IsPairs (x ∷ []) ys h k = absurd h
    append-IsPairs (x ∷ y ∷ rest) ys h k = append-IsPairs rest ys h k

length-IsPairs : (xs : List ℕ) → IsPairs xs → (n : ℕ) × (length xs ≡ 2 * n)
length-IsPairs [] h = (0, refl)
length-IsPairs (x ∷ []) h = absurd h
length-IsPairs (x ∷ y ∷ rest) h = let (n, e) = length-IsPairs rest h in (n + 1, omega (arith, e))

-- The report of the enabled plans holds the pair of a group's number and a plan's id, from 1 to 255,
-- exactly if that group exists and has the plan enabled; it has two bytes before the pairs, and the
-- second of them is their number, modulo 256.
pub cmd_request_enabled_plans-reported :
    (groups : List Group) (k m : ℕ)
    → 1 ≤ k
    → 1 ≤ m
    → m ≤ 255
    → let report = cmd_request_enabled_plans groups in
      (reported k m (drop 2 report) ≡ enabled_at groups (k - 1) m)
      × ((n : ℕ) × (length report ≡ 2 + 2 * n) × (get_or report 1 0 ≡ n % 256))
unfolding cmd_request_enabled_plans
cmd_request_enabled_plans-reported groups k m pos low high =
    let found = reported-all_enabled_plans groups 1 k m low high in
    let one : leb 1 k ≡ true = ground arith in
    let (n, e) = length-IsPairs (all_enabled_plans groups 1) (all_enabled_plans-IsPairs groups 1) in
    (found ∙ rw one refl, (n, omega (arith, e), omega (arith, e)))
