-- ===== src/Utils/Crc/Xor.antt =====
-- The laws of exclusive or that the checksums of src/module/Utils.cpp rest on.
use Prim.Native.Nat.{differ, digits, bit_xor-bitwise}
use native.Mathlib.Nat.{pow-suc}
use gc.Common.{
  ℕ, zero, suc, ◌+◌, ◌*◌, ◌/◌, ◌%◌, ◌^◌, ◌≤◌, ◌<◌, ◌≡◌, refl, sym, ap, ap₂, ◌∙◌, arith, bit_xor,
}

abbrev xor_digits : ℕ → ℕ → ℕ → ℕ
xor_digits n x y = digits (λ y. y) differ n x y

xor_digits_fuel : (n m x y : ℕ) → x ≤ n → x ≤ m → xor_digits n x y ≡ xor_digits m x y
xor_digits_fuel zero zero x y p q = refl
xor_digits_fuel zero (suc m) zero y p q = refl
xor_digits_fuel zero (suc m) (suc x) y p q = absurd (omega arith)
xor_digits_fuel (suc n) zero zero y p q = refl
xor_digits_fuel (suc n) zero (suc x) y p q = absurd (omega arith)
xor_digits_fuel (suc n) (suc m) zero y p q = refl
xor_digits_fuel (suc n) (suc m) (suc x) y p q =
    rw (xor_digits_fuel n m (suc x / 2) (y / 2) (omega arith) (omega arith))

differ-bits : (x y : ℕ) → x < 2 → y < 2 → differ x y ≡ (x + y) % 2
differ-bits zero y p q = omega arith
differ-bits (suc zero) zero p q = refl
differ-bits (suc zero) (suc zero) p q = refl
differ-bits (suc zero) (suc (suc y)) p q = absurd (omega arith)
differ-bits (suc (suc x)) y p q = absurd (omega arith)

-- One equation for the lowest digit.
pub bit_xor_step : (x y : ℕ) → bit_xor x y ≡ bit_xor (x / 2) (y / 2) * 2 + (x + y) % 2
bit_xor_step zero y = omega (arith, bit_xor-bitwise zero y, bit_xor-bitwise (zero / 2) (y / 2))
bit_xor_step (suc x) y = omega (
  arith,
  bit_xor-bitwise (suc x) y,
  bit_xor-bitwise (suc x / 2) (y / 2),
  xor_digits_fuel x (suc x / 2) (suc x / 2) (y / 2) (omega arith) (omega arith),
  differ-bits (suc x % 2) (y % 2) (omega arith) (omega arith),
)

pub zero-bit_xor : (y : ℕ) → bit_xor 0 y ≡ y
zero-bit_xor y = bit_xor-bitwise zero y

comm_fuel : (n x y : ℕ) → x ≤ n → y ≤ n → bit_xor x y ≡ bit_xor y x
comm_fuel zero x y p q = ap₂ bit_xor (omega arith) (omega arith)
comm_fuel (suc n) x y p q = omega (
  arith,
  bit_xor_step x y,
  bit_xor_step y x,
  comm_fuel n (x / 2) (y / 2) (omega arith) (omega arith),
)

pub bit_xor_comm : (x y : ℕ) → bit_xor x y ≡ bit_xor y x
bit_xor_comm x y = comm_fuel (x + y) x y (omega arith) (omega arith)

pub bit_xor-zero : (x : ℕ) → bit_xor x 0 ≡ x
bit_xor-zero x = bit_xor_comm x 0 ∙ zero-bit_xor x

pub bit_xor-half : (x y : ℕ) → bit_xor x y / 2 ≡ bit_xor (x / 2) (y / 2)
bit_xor-half x y = omega (arith, bit_xor_step x y)

bit_xor-parity : (x y : ℕ) → bit_xor x y % 2 ≡ (x + y) % 2
bit_xor-parity x y = omega (arith, bit_xor_step x y)

assoc_fuel :
    (n x y c : ℕ) → x ≤ n → y ≤ n → c ≤ n → bit_xor (bit_xor x y) c ≡ bit_xor x (bit_xor y c)
assoc_fuel zero x y c p q r =
    let a0 : x ≡ 0 = omega arith in
    let c0 : c ≡ 0 = omega arith in
    rw (a0, c0, zero-bit_xor (bit_xor y 0)) (ap (λ (t : ℕ). bit_xor t 0) (zero-bit_xor y))
assoc_fuel (suc n) x y c p q r = omega (
  arith,
  bit_xor_step (bit_xor x y) c,
  bit_xor_step x (bit_xor y c),
  ap (λ (t : ℕ). bit_xor t (c / 2)) (bit_xor-half x y),
  ap (bit_xor (x / 2)) (bit_xor-half y c),
  bit_xor-parity x y,
  bit_xor-parity y c,
  assoc_fuel n (x / 2) (y / 2) (c / 2) (omega arith) (omega arith) (omega arith),
)

pub bit_xor_assoc : (x y c : ℕ) → bit_xor (bit_xor x y) c ≡ bit_xor x (bit_xor y c)
bit_xor_assoc x y c = assoc_fuel (x + y + c) x y c (omega arith) (omega arith) (omega arith)

-- The middle terms of a sum of three may change places.
pub bit_xor_right_comm : (x y c : ℕ) → bit_xor (bit_xor x y) c ≡ bit_xor (bit_xor x c) y
bit_xor_right_comm x y c =
    bit_xor_assoc x y c ∙ ap (bit_xor x) (bit_xor_comm y c) ∙ sym (bit_xor_assoc x c y)

pub mul-pow-suc : (q k : ℕ) → q * 2 ^ suc k ≡ 2 * (q * 2 ^ k)
mul-pow-suc q k = omega (arith, ap (λ (t : ℕ). q * t) (pow-suc 2 k))

bit_xor-none : (x y : ℕ) → x < 1 → y < 1 → bit_xor x y ≡ 0
bit_xor-none zero y p q = omega (arith, zero-bit_xor y)
bit_xor-none (suc x) y p q = absurd (omega arith)

-- Numbers are added digit by digit, so fields of k bits are added apart.
pub bit_xor_fields :
    (k p q r s : ℕ)
    → r < 2 ^ k
    → s < 2 ^ k
    → bit_xor (p * 2 ^ k + r) (q * 2 ^ k + s) ≡ bit_xor p q * 2 ^ k + bit_xor r s
bit_xor_fields zero p q r s hr hs =
    let e : bit_xor (p * 1 + r) (q * 1 + s) ≡ bit_xor p q =
      ap₂ bit_xor (omega arith) (omega arith) in
    omega (arith, e, bit_xor-none r s hr hs)
bit_xor_fields (suc k) p q r s hr hs = omega (
  arith,
  bit_xor_step (p * 2 ^ suc k + r) (q * 2 ^ suc k + s),
  halves,
  bit_xor_step r s,
  mul-pow-suc p k,
  mul-pow-suc q k,
  mul-pow-suc (bit_xor p q) k,
  bit_xor_fields k p q (r / 2) (s / 2) (omega (arith, pow-suc 2 k)) (omega (arith, pow-suc 2 k)),
)
  where
    halves :
        bit_xor ((p * 2 ^ suc k + r) / 2) ((q * 2 ^ suc k + s) / 2)
        ≡ bit_xor (p * 2 ^ k + r / 2) (q * 2 ^ k + s / 2)
    halves = ap₂ bit_xor (omega (arith, mul-pow-suc p k)) (omega (arith, mul-pow-suc q k))

-- The sum of two numbers of k bits has k bits.
pub bit_xor-lt : (k x y : ℕ) → x < 2 ^ k → y < 2 ^ k → bit_xor x y < 2 ^ k
bit_xor-lt zero x y ha hb = omega (arith, bit_xor-none x y ha hb)
bit_xor-lt (suc k) x y ha hb = omega (
  arith,
  bit_xor_step x y,
  pow-suc 2 k,
  bit_xor-lt k (x / 2) (y / 2) (omega (arith, pow-suc 2 k)) (omega (arith, pow-suc 2 k)),
)
