-- ===== src/Utils/Cnvt/Words.antt =====
-- Big-endian words of src/module/Utils.cpp: reading and writing them, swapping and mirroring.
use gc.Common.{
  ℕ, ◌+◌, ◌-◌, ◌*◌, ◌/◌, ◌%◌, ◌^◌, ◌<◌, ◌≡◌, refl, ap₂, Bool, true, [], ◌∷◌, arith, ◌==◌, ==_iff,
  holds_below, holds_below-at,
}
use gc.Utils.Cnvt.{get_u16, put_u16, get_u32, put_u32, swap_u16, reverse_bits}

-- GetU16 and PutU16 are inverse to one another, on 16-bit values and on pairs of bytes.
pub get_u16-put_u16 :
    (v a b : ℕ)
    → v < 65536
    → a < 256
    → b < 256
    → (put_u16 (get_u16 a b) ≡ a ∷ b ∷ []) × ((put_u16 v ≡ a ∷ b ∷ []) → get_u16 a b ≡ v)
unfolding get_u16 put_u16
get_u16-put_u16 v a b hv ha hb =
    (ap₂ (λ x y. x ∷ y ∷ []) (omega arith) (omega arith), λ e. ground arith)

get_u32-value :
    (a b c d : ℕ)
    → a < 256
    → b < 256
    → c < 256
    → d < 256
    → get_u32 a b c d ≡ ((a * 256 + b) * 256 + c) * 256 + d
unfolding get_u32
get_u32-value a b c d ha hb hc hd = omega arith

put_u32-value :
    (a b c d : ℕ)
    → a < 256
    → b < 256
    → c < 256
    → d < 256
    → put_u32 (((a * 256 + b) * 256 + c) * 256 + d) ≡ a ∷ b ∷ c ∷ d ∷ []
unfolding put_u32
put_u32-value a b c d ha hb hc hd =
    ap₂ ◌∷◌ (omega arith)
      (ap₂ ◌∷◌ (omega arith) (ap₂ ◌∷◌ (omega arith) (ap₂ ◌∷◌ (omega arith) refl)))

value-put_u32 :
    (v a b c d : ℕ)
    → v < 4294967296
    → put_u32 v ≡ a ∷ b ∷ c ∷ d ∷ []
    → ((a * 256 + b) * 256 + c) * 256 + d ≡ v
unfolding put_u32
value-put_u32 v a b c d h e = ground arith

-- GetU32 and PutU32 are inverse to one another, on 32-bit values and on four bytes.
pub get_u32-put_u32 :
    (v a b c d : ℕ)
    → v < 4294967296
    → a < 256
    → b < 256
    → c < 256
    → d < 256
    → (put_u32 (get_u32 a b c d) ≡ a ∷ b ∷ c ∷ d ∷ [])
      × ((put_u32 v ≡ a ∷ b ∷ c ∷ d ∷ []) → get_u32 a b c d ≡ v)
get_u32-put_u32 v a b c d hv ha hb hc hd =
    rw (get_u32-value a b c d ha hb hc hd)
      (put_u32-value a b c d ha hb hc hd, value-put_u32 v a b c d hv)

-- SwapU16 exchanges the two bytes of a word, and twice it gives the word back.
pub swap_u16_lem :
    (v a b : ℕ)
    → v < 65536
    → a < 256
    → b < 256
    → (swap_u16 (swap_u16 v) ≡ v) × (swap_u16 (get_u16 a b) ≡ get_u16 b a)
unfolding swap_u16 get_u16
swap_u16_lem v a b hv ha hb = omega arith

bit : ℕ → ℕ → ℕ
bit n k = n / 2 ^ k % 2

mirrors : ℕ → Bool
mirrors n = holds_below 8 (λ k. bit (reverse_bits n) k == bit n (7 - k))

mirrors_table : holds_below 256 mirrors ≡ true
unfolding holds_below mirrors bit reverse_bits
mirrors_table = refl

-- Reverse mirrors a byte: its bit k is bit 7 - k of the byte that it was given.
pub reverse_bits-bit :
    (n k : ℕ) → n < 256 → k < 8 → reverse_bits n / 2 ^ k % 2 ≡ n / 2 ^ (7 - k) % 2
unfolding mirrors bit
reverse_bits-bit n k hn hk = (==_iff _ _).0 (
    holds_below-at 8 (λ k. bit (reverse_bits n) k == bit n (7 - k)) k
      (holds_below-at 256 mirrors n mirrors_table hn) hk)
