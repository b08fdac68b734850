-- ===== src/Tsisp003/Plan/Overlap.antt =====
-- The test of src/tsisp003/Plan.cpp that the times of two entries of a plan do not overlap.
use gc.Common.{◌≤◌, ◌<◌, ◌≡◌, refl, ◌⊎◌, ◌↔◌, true, false, List, [], ◌∷◌, arith}
use gc.Tsisp003.Plan.{PlnEntry, start_of, stop_of, overlap, overlap_any, overlaps}

-- Two entries whose spans of time, from start to stop, have no minute in common.
abbrev pub Disjoint : PlnEntry → PlnEntry → Type 0
Disjoint i j = (stop_of i ≤ start_of j) ⊎ (stop_of j ≤ start_of i)

-- One entry starts before another and stops after it.
abbrev pub Surrounds : PlnEntry → PlnEntry → Type 0
Surrounds i j = (start_of i < start_of j) × (stop_of j < stop_of i)

-- Times of a day.
abbrev pub IsTimed : PlnEntry → Type 0
IsTimed e = (e.start.hour < 24) × (e.start.minute < 60) × (e.stop.hour < 24) × (e.stop.minute < 60)

-- The test on an entry and a later one passes exactly if their spans are disjoint or the earlier
-- entry surrounds the later one.
pub overlap-Disjoint :
    (i j : PlnEntry)
    → IsTimed i
    → IsTimed j
    → (overlap i j ≡ false) ↔ (Disjoint i j ⊎ Surrounds i j)
unfolding overlap
overlap-Disjoint i j hi hj = ground arith

-- Of two entries with times of a day, one starts before the other and stops after it: they pass the
-- test if the outer one comes first, and fail it if it comes second, though both are on when the
-- inner one starts.
pub overlap_order :
    (i j : PlnEntry)
    → IsTimed i
    → IsTimed j
    → Surrounds i j
    → (overlap i j ≡ false)
      × (overlap j i ≡ true)
      × (start_of i ≤ start_of j)
      × (start_of j < stop_of i)
      × (start_of j < stop_of j)
unfolding overlap
overlap_order i j hi hj h = ground arith

abbrev pub AllTimed : List PlnEntry → Type 0
AllTimed [] = Unit {0}
AllTimed (e ∷ es) = IsTimed e × AllTimed es

-- An entry against each later one, and all entries so.
abbrev pub FreeOf : PlnEntry → List PlnEntry → Type 0
FreeOf i [] = Unit {0}
FreeOf i (j ∷ js) = (Disjoint i j ⊎ Surrounds i j) × FreeOf i js

abbrev pub AllFree : List PlnEntry → Type 0
AllFree [] = Unit {0}
AllFree (i ∷ is) = FreeOf i is × AllFree is

overlap_any-FreeOf :
    (i : PlnEntry) (js : List PlnEntry)
    → IsTimed i
    → AllTimed js
    → (overlap_any i js ≡ false) ↔ FreeOf i js
unfolding overlap_any
overlap_any-FreeOf i [] hi hs = (λ _. tt, λ _. refl)
overlap_any-FreeOf i (j ∷ js) hi hs =
    let here = overlap-Disjoint i j hi hs.0 in
    let rest = overlap_any-FreeOf i js hi hs.1 in
    (
      λ e. (here.0 (ground arith), rest.0 (ground arith)),
      λ f. ground (arith, here.1 f.0, rest.1 f.1),
    )

-- The test of a whole plan, of entries with times of a day, passes exactly if each two of its
-- entries are disjoint in time or the earlier of the two surrounds the later.
pub overlaps-AllFree : (es : List PlnEntry) → AllTimed es → (overlaps es ≡ false) ↔ AllFree es
unfolding overlaps
overlaps-AllFree [] hs = (λ _. tt, λ _. refl)
overlaps-AllFree (i ∷ is) hs =
    let here = overlap_any-FreeOf i is hs.0 hs.1 in
    let rest = overlaps-AllFree is hs.1 in
    (
      λ e. (here.0 (ground arith), rest.0 (ground arith)),
      λ f. ground (arith, here.1 f.0, rest.1 f.1),
    )
