-- ===== src/Sign/DeviceError/Laws.antt =====
-- The errors of a device, by their codes, in src/sign/DeviceError.cpp.
use gc.Common.{
  ℕ, zero, suc, ◌+◌, ◌<◌, ◌≤◌, ◌≡◌, ◌⊎◌, refl, sym, ap, ◌∙◌, Bool, true, false, not, Option, none,
  some, List, [], ◌∷◌, arith, leb, ◌==◌, if◌then◌else◌, Bool-cases, Option-cases, inl, inr, get_or,
  length,
}
use gc.Utils.Bits.{Bits, set_bit, clr_bit, get_bit, get_07_bit, max_from}
use gc.Utils.Bits.Laws.{IsValid, get_bit-set_bit, get_bit-clr_bit, max_from-cases}
use gc.Sign.DeviceError.{DeviceError, place, differ, dev_error, last_set, get_error_code, is_set}
use gc.Sign.DeviceError.Codes

-- There is a bit for each code.
pub record IsReady (d : DeviceError) : Type 0 where
  pub bits : IsValid d.err_bit
  pub room : length d.dev_err ≤ d.err_bit.size

-- A code stands at its place.
place-get :
    (cs : List ℕ) (code i : ℕ) → place cs code ≡ some i → (i < length cs) × (get_or cs i 0 ≡ code)
unfolding place
place-get [] code i h = absurd (ground arith)
place-get (c ∷ cs) code i h = elim (Bool-cases (c == code)) [
  | inl e ↦
      let at : some 0 ≡ some i = rw e at h in
      let same : 0 ≡ i = ap (λ o. elim o [ none ↦ 0 | some k ↦ k ]) at in
      rw (← same) (omega arith, ground arith)
  | inr e ↦ elim (Option-cases (place cs code)) [
    | inl lost ↦ absurd (let gone : none ≡ some i = rw (e, lost) at h in ground arith)
    | inr (j, found) ↦
        let at : some (j + 1) ≡ some i = rw (e, found) at h in
        let same : j + 1 ≡ i = ap (λ o. elim o [ none ↦ 0 | some k ↦ k ]) at in
        let next : suc j ≡ i = omega (arith, same) in
        let (lt, here) = place-get cs code j found in rw (← next) (omega arith, here)
  ]
]

get_bit-size : (s : Bits) (i : ℕ) → i < s.size → get_bit i s ≡ some (get_07_bit s.bytes i)
unfolding get_bit
get_bit-size s i lt = let inside : leb s.size i ≡ false = ground arith in rw inside refl

-- Two codes stand at one place only if they are the same.
place-eq :
    (cs : List ℕ) (code other i j : ℕ)
    → place cs code ≡ some i
    → place cs other ≡ some j
    → (j == i) ≡ (other == code)
place-eq cs code other i j at_i at_j =
    let (lt, here) = place-get cs code i at_i in
    let (lt', there) = place-get cs other j at_j in
    elim (Bool-cases (j == i)) [
      | inl e ↦
          let same : j ≡ i = ground arith in
          let codes : other ≡ code = sym there ∙ ap (λ k. get_or cs k 0) same ∙ here in
          rw e (ground arith)
      | inr e ↦ elim (Bool-cases (other == code)) [
        | inr f ↦ rw (e, f) refl
        | inl f ↦
            let same : other ≡ code = ground arith in
            let places : some j ≡ some i = sym at_j ∙ ap (place cs) same ∙ at_i in
            absurd
              (let k : j ≡ i = ap (λ o. elim o [ none ↦ 0 | some k ↦ k ]) places in ground arith)
      ]
    ]

-- SetBit or ClrBit, by the value.
put-bit :
    (s : Bits) (i : ℕ) (v : Bool)
    → IsValid s
    → i < s.size
    → (s' : Bits) × ((if v then set_bit i s else clr_bit i s) ≡ some s')
      × IsValid s'
      × (s'.size ≡ s.size)
      × ((j : ℕ) → get_07_bit s'.bytes j ≡ (if j == i then v else get_07_bit s.bytes j))
put-bit s i true valid lt = get_bit-set_bit s i valid lt
put-bit s i false valid lt = get_bit-clr_bit s i valid lt

differ-cases :
    (v old : Bool) → ((differ v old ≡ true) × (old ≡ not v)) ⊎ ((differ v old ≡ false) × (old ≡ v))
differ-cases true true = inr (refl, refl)
differ-cases true false = inl (refl, refl)
differ-cases false true = inl (refl, refl)
differ-cases false false = inr (refl, refl)

-- DevError on a code of the device sets or clears that error and leaves the others; it says whether
-- the error was another before.
pub is_set-dev_error :
    (code other i j : ℕ) (v : Bool) (d : DeviceError)
    → IsReady d
    → place d.dev_err code ≡ some i
    → place d.dev_err other ≡ some j
    → (changed : Bool) × (d' : DeviceError) × (dev_error code v d ≡ some (changed, d'))
      × IsReady d'
      × (is_set code d ≡ some (if changed then not v else v))
      × (is_set other d' ≡ (if other == code then some v else is_set other d))
unfolding dev_error is_set
is_set-dev_error code other i j v d r at_i at_j =
    let lt : i < d.err_bit.size = omega (arith, (place-get d.dev_err code i at_i).0, r.room) in
    let lt' : j < d.err_bit.size = omega (arith, (place-get d.dev_err other j at_j).0, r.room) in
    let here = get_bit-size d.err_bit i lt in
    let there = get_bit-size d.err_bit j lt' in
    let codes = place-eq d.dev_err code other i j at_i at_j in
    let (bits, run, valid, size, got) = put-bit d.err_bit i v r.bits lt in
    elim (differ-cases v (get_07_bit d.err_bit.bytes i)) [
      | inl (e, old) ↦ (
        true,
        record d { err_bit = bits },
        rw (at_i, here, e, run) refl,
        record { bits = valid; room = rw size r.room },
        rw (at_i, here) (ap some old),
        rw (at_j, there)
            (get_bit-size bits j (rw size lt') ∙ ap some (got j) ∙ put_cases v _ codes),
      )
      | inr (e, old) ↦ (
        false,
        d,
        rw (at_i, here, e) refl,
        r,
        rw (at_i, here) (ap some old),
        rw (at_j, there)
            (elim (Bool-cases (other == code)) [
              | inl f ↦
                  let same : j ≡ i = ground arith in
                  rw f (ap some (ap (get_07_bit d.err_bit.bytes) same ∙ old))
              | inr f ↦ rw f refl
            ]),
      )
    ]
  where
    put_cases :
        (w old : Bool)
        → (j == i) ≡ (other == code)
        → some (if j == i then w else old) ≡ (if other == code then some w else some old)
    put_cases w old e =
        rw e (elim (Bool-cases (other == code)) [ inl f ↦ rw f refl | inr f ↦ rw f refl ])

-- What the loop of GetErrorCode makes of a set bit.
abbrev or_else : Option ℕ → ℕ → ℕ
or_else none k = k
or_else (some m) k = m

last_set-max_from :
    (s : Bits) (left i k : ℕ) (max : Option ℕ)
    → i + left ≤ s.size
    → last_set s left i (or_else max k) ≡ some (or_else (max_from s left i max) k)
unfolding last_set max_from
last_set-max_from s zero i k max room = refl
last_set-max_from s (suc left) i k max room =
    let here = get_bit-size s i (omega arith) in
    elim (Bool-cases (get_07_bit s.bytes i)) [
      | inl e ↦ rw (here, e) (last_set-max_from s left (i + 1) k (some i) (omega arith))
      | inr e ↦ rw (here, e) (last_set-max_from s left (i + 1) k max (omega arith))
    ]

-- GetErrorCode gives the code of the highest priority that is set, or that of no error.
pub get_error_code_lem :
    (d : DeviceError)
    → IsReady d
    → ((get_error_code d ≡ some Codes.dev_no_error)
        × ((k : ℕ) → k < length d.dev_err → get_bit k d.err_bit ≡ some false))
      ⊎ ((m : ℕ) × (get_error_code d ≡ some (get_or d.dev_err m 0))
          × (m < length d.dev_err)
          × (get_bit m d.err_bit ≡ some true)
          × ((k : ℕ) → m < k → k < length d.dev_err → get_bit k d.err_bit ≡ some false))
unfolding get_error_code
get_error_code_lem d r =
    let size = length d.dev_err in
    let run = last_set-max_from d.err_bit size 0 size none (omega (arith, r.room)) in
    let bit : (k : ℕ) → k < size → get_bit k d.err_bit ≡ some (get_07_bit d.err_bit.bytes k) =
      λ k lt. get_bit-size d.err_bit k (omega (arith, r.room)) in
    elim (max_from-cases d.err_bit size 0 none) [
      | inl (e, clear_bits) ↦
          let self : (size == size) ≡ true = ground arith in
          inl (
            rw (run, e, self) refl,
            λ k lt. bit k lt ∙ ap some (clear_bits k (omega arith) (omega arith)),
          )
      | inr (m, e, low, high, on, rest) ↦
          let inside : (m == size) ≡ false = ground arith in
          inr (
            m,
            rw (run, e, inside) refl,
            omega arith,
            bit m (omega arith) ∙ ap some on,
            λ k l h. bit k h ∙ ap some (rest k l (omega arith)),
          )
    ]
