-- ===== src/Tsisp003/Frame/Lines/Grids.antt =====
-- The array that ToStringVector of src/tsisp003/Frame.cpp fills.
use gc.Common.{
  ℕ, zero, suc, ◌+◌, ◌-◌, ◌<◌, ◌≡◌, refl, sym, ap, ap₂, ◌∙◌, true, false, ◌&&◌, some, List, [], ◌∷◌,
  ◌++◌, append-nil, append_assoc, ltb, ◌==◌, length, length-append, get_or, set, replicate, arith,
  Bool-cases, inl, inr,
}
use gc.Tsisp003.Frame.Lines.{Grid, write_at, c_string, used_rows}
use gc.Tsisp003.Frame.Lines.Layout.{NoZero}

-- A row of the array that holds a line.
abbrev pub pad : ℕ → List ℕ → List ℕ
pad columns line = line ++ replicate (columns + 1 - length line) 0

unfoldable pub blank_row : ℕ → List ℕ
blank_row columns = replicate (columns + 1) 0

-- The array with rows that are done, the row of the last line, and rows that are still blank.
abbrev pub filled : ℕ → List (List ℕ) → List ℕ → ℕ → Grid
filled columns past line k = record {
  texts = past ++ (pad columns line ∷ replicate k (blank_row columns));
  rx = length past;
  cx = length line;
}

get_or-past :
    (past : List (List ℕ)) (t : List ℕ) (ts : List (List ℕ))
    → get_or (past ++ (t ∷ ts)) (length past) [] ≡ t
get_or-past [] t ts = refl
get_or-past (p ∷ past) t ts = get_or-past past t ts

pub set-past :
    (past : List (List ℕ)) (t u : List ℕ) (ts : List (List ℕ))
    → set (past ++ (t ∷ ts)) (length past) u ≡ past ++ (u ∷ ts)
set-past [] t u ts = refl
set-past (p ∷ past) t u ts = ap (λ rest. p ∷ rest) (set-past past t u ts)

set-zeros :
    (line : List ℕ) (n v : ℕ)
    → set (line ++ replicate (suc n) 0) (length line) v ≡ (line ++ v ∷ []) ++ replicate n 0
set-zeros [] n v = refl
set-zeros (c ∷ line) n v = ap (λ rest. c ∷ rest) (set-zeros line n v)

set-pad :
    (columns v : ℕ) (line : List ℕ)
    → length line < columns
    → set (pad columns line) (length line) v ≡ pad columns (line ++ v ∷ [])
set-pad columns v line h =
    let room : columns + 1 - length line ≡ suc (columns - length line) = omega arith in
    let less : columns - length line ≡ columns + 1 - length (line ++ v ∷ []) =
      omega (arith, length-append line (v ∷ [])) in
    rw (room, ← less) (set-zeros line (columns - length line) v)

pub write_at-filled :
    (columns v k : ℕ) (past : List (List ℕ)) (line : List ℕ)
    → length line < columns
    → write_at (length past + suc k) columns (filled columns past line k) v
      ≡ some (record (filled columns past (line ++ v ∷ []) k) { cx = length line })
unfolding write_at
write_at-filled columns v k past line h =
    let rows = replicate k (blank_row columns) in
    let inside : (ltb (length past) (length past + suc k) && ltb (length line) (columns + 1))
        ≡ true =
      ground arith in
    rw
      (
        inside,
        get_or-past past (pad columns line) rows,
        set-pad columns v line h,
        set-past past (pad columns line) (pad columns (line ++ v ∷ [])) rows,
      )
      refl

used_rows-append : (xs ys : List (List ℕ)) → used_rows (xs ++ ys) ≡ used_rows xs ++ used_rows ys
unfolding used_rows
used_rows-append [] ys = refl
used_rows-append (x ∷ xs) ys = elim (Bool-cases (get_or x 0 0 == 0)) [
  | inl e ↦ rw e (used_rows-append xs ys)
  | inr e ↦ rw e (ap (λ rest. c_string x ∷ rest) (used_rows-append xs ys))
]

zeros_first : (n : ℕ) → get_or {A = ℕ} (replicate n 0) 0 0 ≡ 0
zeros_first zero = refl
zeros_first (suc n) = refl

used_rows-blank : (columns k : ℕ) → used_rows (replicate k (blank_row columns)) ≡ []
unfolding used_rows blank_row
used_rows-blank columns zero = refl
used_rows-blank columns (suc k) = rw (zeros_first (columns + 1)) (used_rows-blank columns k)

c_string-zeros : (line : List ℕ) (n : ℕ) → NoZero line → c_string (line ++ replicate n 0) ≡ line
unfolding c_string
c_string-zeros [] zero h = refl
c_string-zeros [] (suc n) h = refl
c_string-zeros (c ∷ line) n h =
    let some_char : (c == 0) ≡ false = ground (arith, h.0) in
    rw (some_char, c_string-zeros line n h.1) refl

-- The row of a line of some characters is used, and gives the line.
used_rows-pad :
    (columns : ℕ) (line : List ℕ)
    → NoZero line
    → 0 < length line
    → used_rows (pad columns line ∷ []) ≡ line ∷ []
unfolding used_rows
used_rows-pad columns [] h some_char = absurd (omega arith)
used_rows-pad columns (c ∷ line) h some_char =
    let shown : (c == 0) ≡ false = ground (arith, h.0) in
    rw (shown, c_string-zeros (c ∷ line) (columns + 1 - suc (length line)) h) refl

pub used_rows-past :
    (columns : ℕ) (past : List (List ℕ)) (line : List ℕ)
    → NoZero line
    → 0 < length line
    → used_rows (past ++ pad columns line ∷ []) ≡ used_rows past ++ line ∷ []
used_rows-past columns past line h some_char =
    used_rows-append past (pad columns line ∷ [])
    ∙ ap (λ rest. used_rows past ++ rest) (used_rows-pad columns line h some_char)

pub used_rows-filled :
    (columns k : ℕ) (past : List (List ℕ)) (line : List ℕ)
    → NoZero line
    → 0 < length line
    → used_rows (filled columns past line k).texts ≡ used_rows past ++ line ∷ []
used_rows-filled columns k past line h some_char =
    ap used_rows (sym (append_assoc past (pad columns line ∷ []) (replicate k (blank_row columns))))
    ∙ used_rows-append (past ++ pad columns line ∷ []) (replicate k (blank_row columns))
    ∙ ap₂ ◌++◌ (used_rows-past columns past line h some_char) (used_rows-blank columns k)
    ∙ append-nil (used_rows past ++ line ∷ [])

pub used_rows-filled_blank :
    (columns k : ℕ) (past : List (List ℕ))
    → used_rows (filled columns past [] k).texts ≡ used_rows past
unfolding used_rows
used_rows-filled_blank columns k past =
    used_rows-append past (pad columns [] ∷ replicate k (blank_row columns))
    ∙ rw (zeros_first (columns + 1 - 0), used_rows-blank columns k) (append-nil (used_rows past))
