-- ===== src/Module/Debounce/Laws.antt =====
-- How long a level has to last for the Debounce of include/module/Debounce.h.
use gc.Common.{ℕ, zero, suc, ◌+◌, ◌≤◌, ◌≡◌, refl, ◌∙◌, true, arith, leb, min, Bool-cases, inl, inr}
use gc.Module.Debounce.{Debounce, is_high, reset, check, checks, set}

-- After n calls with a high level.
record IsAt (limit n : ℕ) (d : Debounce) : Type 0 where
  kept : d.limit1 ≡ limit
  counted : d.cnt1 ≡ min n limit
  high : is_high d.value ≡ leb limit n

set-is_high : (d : Debounce) → is_high (set d).value ≡ true
unfolding set is_high
set-is_high d = ground arith

check-IsAt : (limit n : ℕ) (d : Debounce) → IsAt limit n d → IsAt limit (suc n) (check d true 1)
unfolding check
check-IsAt limit n d v = elim (Bool-cases (leb d.limit1 (d.cnt1 + 1))) [
  | inl e ↦ rw e (record {
    kept = unfold set in v.kept;
    counted = unfold set in ground (arith, v.kept, v.counted);
    high = set-is_high _ ∙ ground (arith, v.kept, v.counted);
  })
  | inr e ↦ rw e (record {
    kept = v.kept;
    counted = ground (arith, v.kept, v.counted);
    high = v.high ∙ ground (arith, v.kept, v.counted);
  })
]

checks-IsAt : (d : Debounce) (n : ℕ) → 1 ≤ d.limit1 → IsAt d.limit1 n (checks (reset d) true n)
unfolding checks reset is_high
checks-IsAt d zero h = record { kept = refl; counted = omega arith; high = ground arith }
checks-IsAt d (suc n) h = check-IsAt d.limit1 n _ (checks-IsAt d n h)

-- After a reset and n calls with a high level, and no other, the value is high exactly if n has
-- reached the limit, which is at least 1.
pub checks-is_high :
    (d : Debounce) (n : ℕ) → 1 ≤ d.limit1 → is_high (checks (reset d) true n).value ≡ leb d.limit1 n
checks-is_high d n h = (checks-IsAt d n h).high
