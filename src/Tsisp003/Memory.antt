-- ===== src/Tsisp003/Memory.antt =====
-- A buffer that is read through a pointer: the byte at each offset. Code that reads past the length
-- it was given reads on in the caller's buffer, so the function is total.
use gc.Common.{
  ℕ, zero, suc, ◌+◌, ◌≤◌, ◌<◌, ◌≡◌, refl, sym, ap, ap₂, ◌∙◌, List, [], ◌∷◌, ◌++◌, arith, true,
  length, get_or, take, drop,
}
use gc.Utils.Cnvt.{get_u16, put_u16, parse_bytes, bytes_to_asc}
use gc.Utils.Cnvt.Hex.{AreBytes, parse_bytes-bytes_to_asc}
use gc.Utils.Cnvt.Words.{get_u16-put_u16}

abbrev pub Memory : Type 0
Memory = ℕ → ℕ

-- Every element is a uint8_t.
abbrev pub IsBytes : Memory → Type 0
IsBytes mem = (i : ℕ) → mem i < 256

-- The `n` bytes from offset `p` on.
abbrev pub slice : Memory → ℕ → ℕ → List ℕ
slice mem p zero = []
slice mem p (suc n) = mem p ∷ slice mem (p + 1) n

-- A buffer that holds a list, and zeros behind it.
abbrev pub holding : List ℕ → Memory
holding bs i = get_or bs i 0

-- Two buffers that agree on the first `n` bytes.
abbrev pub Agree : ℕ → Memory → Memory → Type 0
Agree n mem other = (i : ℕ) → i < n → mem i ≡ other i

pub slice-add :
    (mem : Memory) (p n m : ℕ) → slice mem p (n + m) ≡ slice mem p n ++ slice mem (p + n) m
slice-add mem p zero m = ap₂ (slice mem) (omega arith) (omega arith)
slice-add mem p (suc n) m =
    let more : suc n + m ≡ suc (n + m) = omega arith in
    let start : p + 1 + n ≡ p + suc n = omega arith in rw (more, slice-add mem (p + 1) n m, start)

pub length-slice : (mem : Memory) (p n : ℕ) → length (slice mem p n) ≡ n
length-slice mem p zero = refl
length-slice mem p (suc n) = ap suc (length-slice mem (p + 1) n)

pub get_or-slice : (mem : Memory) (p n i : ℕ) → i < n → get_or (slice mem p n) i 0 ≡ mem (p + i)
get_or-slice mem p zero i h = absurd (omega arith)
get_or-slice mem p (suc n) zero h = ap mem (omega arith)
get_or-slice mem p (suc n) (suc i) h =
    get_or-slice mem (p + 1) n i (omega arith) ∙ ap mem (omega arith)

-- The list of the first bytes, put into a buffer, agrees with them.
pub Agree-slice : (mem : Memory) (n : ℕ) → Agree n mem (holding (slice mem 0 n))
Agree-slice mem n i h = sym (get_or-slice mem 0 n i h ∙ ap mem (omega arith))

tail_bytes : (a b : ℕ) → a < 256 → b < 256 → put_u16 (get_u16 a b) ≡ a ∷ b ∷ []
tail_bytes a b ha hb = (get_u16-put_u16 0 a b (omega arith) ha hb).0

-- A packet of a code, three bytes, a body of n bytes and a 16-bit word is the slice that it was read
-- from.
pub slice-packet :
    (mem : Memory) (mi n : ℕ)
    → IsBytes mem
    → mem 0 ≡ mi
    → mi
        ∷ mem 1
        ∷ mem 2
        ∷ mem 3
        ∷ (slice mem 4 n ++ put_u16 (get_u16 (mem (4 + n)) (mem (4 + n + 1))))
      ≡ slice mem 0 (4 + (n + 2))
slice-packet mem mi n bytes e =
    let four : 4 + (n + 2) ≡ suc (suc (suc (suc (n + 2)))) = omega arith in
    rw (four, ← e, tail_bytes (mem (4 + n)) (mem (4 + n + 1)) (bytes _) (bytes _))
      (ap (λ t. mem 0 ∷ mem 1 ∷ mem 2 ∷ mem 3 ∷ t) (sym (slice-add mem 4 n 2)))

pub slice_six :
    (mem : Memory) (p n : ℕ)
    → slice mem p (suc (suc (suc (suc (suc (suc n))))))
      ≡ mem p
        ∷ mem (p + 1)
        ∷ mem (p + 2)
        ∷ mem (p + 3)
        ∷ mem (p + 4)
        ∷ mem (p + 5)
        ∷ slice mem (p + 6) n
slice_six mem p n =
    let two : p + 1 + 1 ≡ p + 2 = omega arith in
    let three : p + 2 + 1 ≡ p + 3 = omega arith in
    let four : p + 3 + 1 ≡ p + 4 = omega arith in
    let five : p + 4 + 1 ≡ p + 5 = omega arith in
    let six : p + 5 + 1 ≡ p + 6 = omega arith in rw (two, three, four, five, six)

pub slice-Agree :
    (mem other : Memory) (p n k : ℕ)
    → Agree k mem other
    → p + n ≤ k
    → slice other p n ≡ slice mem p n
slice-Agree mem other p zero k a h = refl
slice-Agree mem other p (suc n) k a h =
    ap₂ ◌∷◌ (sym (a p (omega arith))) (slice-Agree mem other (p + 1) n k a (omega arith))

pub AreBytes-slice : (mem : Memory) (p n : ℕ) → IsBytes mem → AreBytes (slice mem p n)
AreBytes-slice mem p zero h = tt
AreBytes-slice mem p (suc n) h = (h p, AreBytes-slice mem (p + 1) n h)

-- A list of bytes, as the content of a buffer.
pub holding-IsBytes : (bs : List ℕ) → AreBytes bs → IsBytes (holding bs)
holding-IsBytes [] h i = omega arith
holding-IsBytes (b ∷ bs) h zero = h.0
holding-IsBytes (b ∷ bs) h (suc i) = holding-IsBytes bs h.1 i

pub drop-slice : (mem : Memory) (p q n : ℕ) → drop p (slice mem q (p + n)) ≡ slice mem (q + p) n
drop-slice mem zero q n = ap₂ (slice mem) (omega arith) (omega arith)
drop-slice mem (suc p) q n =
    let more : suc p + n ≡ suc (p + n) = omega arith in
    let start : q + suc p ≡ q + 1 + p = omega arith in rw (more, start) (drop-slice mem p (q + 1) n)

pub take-slice : (mem : Memory) (p n m : ℕ) → take n (slice mem p (n + m)) ≡ slice mem p n
take-slice mem p zero m = refl
take-slice mem p (suc n) m =
    let more : suc n + m ≡ suc (n + m) = omega arith in
    rw more (ap (λ t. mem p ∷ t) (take-slice mem (p + 1) n m))

-- Parsing the text of a packet.
pub parse_slice :
    (buf : Memory) (len : ℕ)
    → IsBytes buf
    → 0 < len
    → parse_bytes (bytes_to_asc (slice buf 0 len)) ≡ (slice buf 0 len, true)
parse_slice buf zero bytes h = absurd (omega arith)
parse_slice buf (suc len) bytes h =
    parse_bytes-bytes_to_asc (buf 0) (slice buf 1 len) (AreBytes-slice buf 0 (suc len) bytes)
