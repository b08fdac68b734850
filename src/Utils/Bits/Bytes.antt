-- ===== src/Utils/Bits/Bytes.antt =====
-- The bits of one byte, in src/module/Utils.cpp.
use gc.Common.{
  ℕ, ◌<◌, ◌≡◌, refl, Bool, true, false, ◌&&◌, not, arith, ltb, ◌==◌, if◌then◌else◌, holds_below,
  holds_below-at,
}
use gc.Utils.Bits.{byte_get, byte_set, byte_clr}

same : Bool → Bool → Bool
same true b = b
same false b = not b

same-eq : (a b : Bool) → same a b ≡ true → a ≡ b
unfolding same
same-eq true true h = refl
same-eq true false h = absurd (ground arith)
same-eq false true h = absurd (ground arith)
same-eq false false h = refl

-- What setting and clearing a bit does to a byte.
byte_test : ℕ → ℕ → ℕ → Bool
byte_test b k l =
    same (byte_get (byte_set b k) l) (if l == k then true else byte_get b l)
    && (same (byte_get (byte_clr b k) l) (if l == k then false else byte_get b l)
        && (ltb (byte_set b k) 256 && ltb (byte_clr b k) 256))

all_bytes : holds_below 256 (λ b. holds_below 8 (λ k. holds_below 8 (byte_test b k))) ≡ true
unfolding holds_below byte_test same byte_get byte_set byte_clr
all_bytes = refl

byte_test-at : (b k l : ℕ) → b < 256 → k < 8 → l < 8 → byte_test b k l ≡ true
byte_test-at b k l hb hk hl =
    holds_below-at 8 (byte_test b k) l
      (holds_below-at 8 (λ k. holds_below 8 (byte_test b k)) k
        (holds_below-at 256 (λ b. holds_below 8 (λ k. holds_below 8 (byte_test b k))) b all_bytes
          hb)
        hk)
      hl

pub byte_get-byte_set :
    (b k l : ℕ)
    → b < 256
    → k < 8
    → l < 8
    → (byte_get (byte_set b k) l ≡ (if l == k then true else byte_get b l))
      × (byte_get (byte_clr b k) l ≡ (if l == k then false else byte_get b l))
      × (byte_set b k < 256)
      × (byte_clr b k < 256)
unfolding byte_test
byte_get-byte_set b k l hb hk hl =
    let t = byte_test-at b k l hb hk hl in
    (same-eq _ _ (ground arith), same-eq _ _ (ground arith), ground arith, ground arith)
