-- ===== src/Uci/Checksum.antt =====
-- The running 16-bit checksum of a table, as UciMsg and UciPln of src/uci keep it.
use gc.Common.{ℕ, zero, suc, ◌+◌, ◌<◌, ◌≡◌, List, [], ◌∷◌, arith, length, get_or, set, u16, sub_u16}

-- The sum over a table of what each entry adds.
abbrev pub total {ℓ} : {A : Type ℓ} → (A → ℕ) → List A → ℕ
total f [] = 0
total f (x ∷ xs) = f x + total f xs

-- Writing an entry exchanges what the old one added for what the new one adds.
pub total-set {ℓ} :
    {A : Type ℓ} (f : A → ℕ) (xs : List A) (i : ℕ) (v d : A)
    → i < length xs
    → total f (set xs i v) + f (get_or xs i d) ≡ total f xs + f v
total-set f [] i v d h = absurd (omega arith)
total-set f (x ∷ xs) zero v d h = omega arith
total-set f (x ∷ xs) (suc i) v d h = omega (arith, total-set f xs i v d (omega arith))

-- The running checksum follows.
pub u16-exchange :
    (sum old new after : ℕ)
    → old < 65536
    → after + old ≡ sum + new
    → u16 (sub_u16 (u16 sum) old + new) ≡ u16 after
u16-exchange sum old new after h e = omega arith
