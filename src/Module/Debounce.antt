-- ===== src/Module/Debounce.antt =====
-- Class State5 of include/module/Utils.h, a Boolean with its edges, and class Debounce of
-- include/module/Debounce.h, which needs a level to last before it takes it.
-- The counters are not negative.
pub mod Laws
use gc.Common.{ℕ, zero, suc, ◌+◌, Bool, true, false, leb, if◌then◌else◌}

pub data Value : Type 0 where
  s5_na s5_0 s5_1 s5_f s5_r : Value

abbrev pub set_value : Value → Value
set_value s5_1 = s5_1
set_value _ = s5_r

abbrev pub clr_value : Value → Value
clr_value s5_0 = s5_0
clr_value _ = s5_f

unfoldable pub clear_edge_value : Value → Value
clear_edge_value s5_r = s5_1
clear_edge_value s5_f = s5_0
clear_edge_value v = v

unfoldable pub is_high : Value → Bool
is_high s5_r = true
is_high s5_1 = true
is_high _ = false

unfoldable pub is_low : Value → Bool
is_low s5_f = true
is_low s5_0 = true
is_low _ = false

-- `limit1` and `limit0` are CNT1 and CNT0.
pub record Debounce : Type 0 where
  pub value : Value
  pub pre_v : Value
  pub limit1 : ℕ
  pub limit0 : ℕ
  pub cnt1 : ℕ
  pub cnt0 : ℕ

unfoldable pub reset : Debounce → Debounce
reset d = record d { cnt0 = 0; cnt1 = 0; value = s5_na }

unfoldable pub set_state : Debounce → Bool → Debounce
set_state d true = record d { cnt0 = 0; cnt1 = d.limit1; value = s5_1 }
set_state d false = record d { cnt0 = d.limit0; cnt1 = 0; value = s5_0 }

unfoldable pub set_cnt : Debounce → ℕ → ℕ → Debounce
set_cnt d true_cnt false_cnt = record d { limit1 = true_cnt; limit0 = false_cnt }

unfoldable pub reset_cnt : Debounce → Debounce
reset_cnt d = record d { cnt0 = 0; cnt1 = 0 }

unfoldable pub clr : Debounce → Debounce
clr d = record d { cnt1 = 0; cnt0 = d.limit0; pre_v = d.value; value = clr_value d.value }

unfoldable pub set : Debounce → Debounce
set d = record d { cnt0 = 0; cnt1 = d.limit1; pre_v = d.value; value = set_value d.value }

unfoldable pub clear_edge : Debounce → Debounce
clear_edge d = record d { value = clear_edge_value d.value }

unfoldable pub check : Debounce → Bool → ℕ → Debounce
check d true cnt =
    let d' = record d { cnt1 = d.cnt1 + cnt } in if leb d.limit1 (d.cnt1 + cnt) then set d' else d'
check d false cnt =
    let d' = record d { cnt0 = d.cnt0 + cnt } in if leb d.limit0 (d.cnt0 + cnt) then clr d' else d'

-- So many calls with one level.
unfoldable pub checks : Debounce → Bool → ℕ → Debounce
checks d v zero = d
checks d v (suc n) = check (checks d v n) v 1
