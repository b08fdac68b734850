-- ===== src/Common/Range.antt =====
-- Proof by evaluation over a small range of numbers.
use Prim.Native.Nat.{ℕ, zero, suc, ◌<◌}
use mathlib.Core.Path.{◌≡◌}
use mathlib.Core.Bool.{Bool, true, false}
use mathlib.Core.Option.{Option, none, some}
use native.Mathlib.Omega.{arith}
use gc.Common.Tests.{◌==◌, if◌then◌else◌}

unfoldable pub holds_below : ℕ → (ℕ → Bool) → Bool
holds_below zero test = true
holds_below (suc top) test = if test top then holds_below top test else false

pub holds_below-at :
    (top : ℕ) (test : ℕ → Bool) (i : ℕ) → holds_below top test ≡ true → i < top → test i ≡ true
unfolding holds_below
holds_below-at zero test i found lt = absurd (omega arith)
holds_below-at (suc top) test i found lt = ground (arith, holds_below-at top test i)

-- Whether an optional number is the one given.
abbrev pub holds : Option ℕ → ℕ → Bool
holds none n = false
holds (some m) n = m == n

pub holds-eq : (o : Option ℕ) (n : ℕ) → holds o n ≡ true → o ≡ some n
holds-eq none n h = ground arith
holds-eq (some m) n h = ground arith
