-- ===== src/Utils/Crc/Division.antt =====
-- Division of a message by a polynomial over one bit, bit by bit: the reference that the checksums
-- of src/module/Utils.cpp are compared with.
use gc.Common.{
  ℕ, zero, suc, ◌+◌, ◌-◌, ◌*◌, ◌/◌, ◌%◌, ◌^◌, ◌≤◌, ◌<◌, ◌≡◌, sym, ap, ap₂, ◌∙◌, arith, bit_xor,
  List, [], ◌∷◌, if◌then◌else◌, leb, Bool-cases, inl, inr,
}
use native.Mathlib.Nat.{pow-suc, one-le-pow, mul-add-mod_self_right, mod-eq_of_lt}
use gc.Utils.Crc.Xor.{
  bit_xor-zero, zero-bit_xor, bit_xor_step, bit_xor_right_comm, bit_xor_fields, bit_xor-lt,
  mul-pow-suc,
}

-- One step of the division in a register whose top bit is worth `top`: shift left, and subtract the
-- polynomial if a one falls out.
unfoldable pub divide_bit : ℕ → ℕ → ℕ → ℕ
divide_bit top poly r = if leb top r then bit_xor ((r - top) * 2) poly else r * 2

unfoldable pub divide_bits : ℕ → ℕ → ℕ → ℕ → ℕ
divide_bits top poly zero r = r
divide_bits top poly (suc n) r = divide_bits top poly n (divide_bit top poly r)

-- The division of a message: each byte is added at the top of the register, then eight steps.
unfoldable pub divide : ℕ → ℕ → List ℕ → ℕ → ℕ
divide top poly [] r = r
divide top poly (b ∷ bs) r =
    divide top poly bs (divide_bits top poly 8 (bit_xor r (b * (top / 128))))

double : (a c : ℕ) → bit_xor (a * 2) (c * 2) ≡ bit_xor a c * 2
double a c =
    let e : bit_xor (a * 2 / 2) (c * 2 / 2) ≡ bit_xor a c =
      ap₂ bit_xor (omega arith) (omega arith) in
    omega (arith, bit_xor_step (a * 2) (c * 2), e)

-- Adding a number below the top bit leaves the top bit.
add_high :
    (k a c : ℕ)
    → 2 ^ k ≤ a
    → c < 2 ^ k
    → a < 2 ^ suc k
    → bit_xor a c ≡ 2 ^ k + bit_xor (a - 2 ^ k) c
add_high k a c h hc ha =
    let e : bit_xor a c ≡ bit_xor (1 * 2 ^ k + (a - 2 ^ k)) (0 * 2 ^ k + c) =
      ap₂ bit_xor (omega arith) (omega arith) in
    omega (arith, e, bit_xor_fields k 1 0 (a - 2 ^ k) c (omega (arith, pow-suc 2 k)) hc)

-- A number below the top bit passes through a step unchanged, shifted.
divide_bit-add :
    (k poly a c : ℕ)
    → a < 2 ^ suc k
    → c < 2 ^ k
    → divide_bit (2 ^ k) poly (bit_xor a c) ≡ bit_xor (divide_bit (2 ^ k) poly a) (c * 2)
unfolding divide_bit
divide_bit-add k poly a c ha hc = elim (Bool-cases (leb (2 ^ k) a)) [
  | inr low ↦ ground (arith, double a c, bit_xor-lt k a c)
  | inl high ↦ ground (
    arith,
    add_high k a c,
    double (a - 2 ^ k) c,
    bit_xor_right_comm ((a - 2 ^ k) * 2) poly (c * 2),
  )
]

pub divide_bit-lt :
    (k poly a : ℕ) → a < 2 ^ suc k → poly < 2 ^ suc k → divide_bit (2 ^ k) poly a < 2 ^ suc k
unfolding divide_bit
divide_bit-lt k poly a ha hp =
    ground (arith, pow-suc 2 k, bit_xor-lt (suc k) ((a - 2 ^ k) * 2) poly)

pub divide_bits-lt :
    (n k poly a : ℕ) → a < 2 ^ suc k → poly < 2 ^ suc k → divide_bits (2 ^ k) poly n a < 2 ^ suc k
unfolding divide_bits
divide_bits-lt zero k poly a ha hp = ha
divide_bits-lt (suc n) k poly a ha hp =
    divide_bits-lt n k poly (divide_bit (2 ^ k) poly a) (divide_bit-lt k poly a ha hp) hp

le-mul_pow : (c n : ℕ) → c ≤ c * 2 ^ n
le-mul_pow c zero = omega arith
le-mul_pow c (suc n) = omega (arith, mul-pow-suc c n, le-mul_pow c n)

shift_more : (c n : ℕ) → c * 2 * 2 ^ n ≡ c * 2 ^ suc n
shift_more c n = omega (arith, mul-pow-suc c n)

below_top : (c n k : ℕ) → c * 2 ^ suc n < 2 ^ suc k → c < 2 ^ k
below_top c n k h = omega (arith, mul-pow-suc c n, le-mul_pow c n, pow-suc 2 k)

-- So does it through n steps, if it is never shifted to the top.
pub divide_bits-add :
    (n k poly a c : ℕ)
    → a < 2 ^ suc k
    → poly < 2 ^ suc k
    → c * 2 ^ n < 2 ^ suc k
    → divide_bits (2 ^ k) poly n (bit_xor a c) ≡ bit_xor (divide_bits (2 ^ k) poly n a) (c * 2 ^ n)
unfolding divide_bits
divide_bits-add zero k poly a c ha hp hc = ap (bit_xor a) (omega arith)
divide_bits-add (suc n) k poly a c ha hp hc =
    rw (divide_bit-add k poly a c ha (below_top c n k hc)) (
      divide_bits-add n k poly (divide_bit (2 ^ k) poly a) (c * 2) (divide_bit-lt k poly a ha hp) hp
        (rw (shift_more c n) hc)
      ∙ ap (bit_xor (divide_bits (2 ^ k) poly n (divide_bit (2 ^ k) poly a))) (shift_more c n))

zero_fields : (m p r : ℕ) → r < 2 ^ m → bit_xor (p * 2 ^ m) r ≡ p * 2 ^ m + r
zero_fields m p r h =
    let e : bit_xor (p * 2 ^ m) r ≡ bit_xor (p * 2 ^ m + 0) (0 * 2 ^ m + r) =
      ap₂ bit_xor (omega arith) (omega arith) in
    e
    ∙ bit_xor_fields m p 0 0 r (one-le-pow m 2 (omega arith)) h
    ∙ ap₂ (λ (x y : ℕ). x * 2 ^ m + y) (bit_xor-zero p) (zero-bit_xor r)

-- A byte added at the top of a register whose high byte is h and whose rest is l.
pub add_byte :
    (m h l b : ℕ)
    → l < 2 ^ m
    → bit_xor (h * 2 ^ m + l) (b * 2 ^ m) ≡ bit_xor (bit_xor h b * 2 ^ m) l
add_byte m h l b hl =
    let e : bit_xor (h * 2 ^ m + l) (b * 2 ^ m) ≡ bit_xor (h * 2 ^ m + l) (b * 2 ^ m + 0) =
      ap (bit_xor (h * 2 ^ m + l)) (omega arith) in
    e
    ∙ bit_xor_fields m h b l 0 hl (one-le-pow m 2 (omega arith))
    ∙ ap (λ (t : ℕ). bit_xor h b * 2 ^ m + t) (bit_xor-zero l)
    ∙ sym (zero_fields m (bit_xor h b) l hl)

-- What lies above a register of w bits is cut off.
pub cut : (w h a t : ℕ) → a < 2 ^ w → t < 2 ^ w → bit_xor (h * 2 ^ w + a) t % 2 ^ w ≡ bit_xor a t
cut w h a t ha ht =
    let e : bit_xor (h * 2 ^ w + a) t ≡ bit_xor h 0 * 2 ^ w + bit_xor a t =
      ap (bit_xor (h * 2 ^ w + a)) (omega arith) ∙ bit_xor_fields w h 0 a t ha ht in
    rw (e, mul-add-mod_self_right) (mod-eq_of_lt (bit_xor-lt w a t ha ht))
