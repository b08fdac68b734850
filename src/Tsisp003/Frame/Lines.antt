-- ===== src/Tsisp003/Frame/Lines.antt =====
-- The lines of a text frame of src/tsisp003/Frame.cpp: how FrmTxt::CheckSub counts them, and how
-- FrmTxt::ToStringVector fills them.
pub mod Layout
pub mod Grids
pub mod Filled
use gc.Common.{
  ℕ, zero, suc, ◌+◌, Bool, true, false, ◌&&◌, not, Option, none, some, List, [], ◌∷◌, ltb, ◌==◌,
  if◌then◌else◌, get_or, set, replicate,
}

abbrev pub space : ℕ
space = b' '

-- The rest of the loop of `CheckSub`, with the lines and the characters of the last one so far.
unfoldable pub count_from : ℕ → List ℕ → ℕ → ℕ → ℕ
count_from columns [] lines chars = if ltb 0 chars then lines + 1 else lines
count_from columns (c ∷ cs) lines chars =
    let full = not (c == space) && (chars + 1 == columns) in
    let ended = c == space && ltb 0 chars in
    count_from columns cs (if full then lines + 1 else if ended then lines + 1 else lines)
      (if full then 0 else if c == space then 0 else chars + 1)

unfoldable pub count_lines : ℕ → List ℕ → ℕ
count_lines columns text = count_from columns text 0 0

-- The array of characters, and the place of the next one.
pub record Grid : Type 0 where
  pub texts : List (List ℕ)
  pub rx : ℕ
  pub cx : ℕ

-- How a round ends: the loop goes on, or breaks, or `at` throws.
pub data Round : Type 0 where
  goes_on : Grid → Round
  breaks : Grid → Round
  throws : Round

-- `texts.at(rx).at(cx) = v`.
unfoldable pub write_at : ℕ → ℕ → Grid → ℕ → Option Grid
write_at rows columns g v =
    if ltb g.rx rows && ltb g.cx (columns + 1)
    then some (record g { texts = set g.texts g.rx (set (get_or g.texts g.rx []) g.cx v) })
    else none

-- The next line, where there is one.
abbrev pub next_line : ℕ → Grid → Round
next_line rows g =
    if g.rx + 1 == rows
    then breaks (record g { rx = g.rx + 1 })
    else goes_on (record g { rx = g.rx + 1; cx = 0 })

abbrev pub after_write : ℕ → ℕ → Option Grid → Round
after_write rows columns none = throws
after_write rows columns (some g) =
    if g.cx + 1 == columns
    then next_line rows (record g { cx = g.cx + 1 })
    else goes_on (record g { cx = g.cx + 1 })

unfoldable pub round : ℕ → ℕ → Grid → ℕ → Round
round rows columns g v =
    if not (v == space)
    then after_write rows columns (write_at rows columns g v)
    else if ltb 0 g.cx
    then next_line rows g
    else goes_on g

-- The loop over the text; `none` stands for the exception.
unfoldable pub fill : ℕ → ℕ → List ℕ → Grid → Option Grid
fill rows columns [] g = some g
fill rows columns (v ∷ vs) g = elim (round rows columns g v) [
  | goes_on g' ↦ fill rows columns vs g'
  | breaks g' ↦ some g'
  | throws ↦ none
]

-- A row as a text that ends before the first 0.
unfoldable pub c_string : List ℕ → List ℕ
c_string [] = []
c_string (c ∷ cs) = if c == 0 then [] else c ∷ c_string cs

-- The rows that hold a character.
unfoldable pub used_rows : List (List ℕ) → List (List ℕ)
used_rows [] = []
used_rows (t ∷ ts) = if get_or t 0 0 == 0 then used_rows ts else c_string t ∷ used_rows ts

unfoldable pub blank_grid : ℕ → ℕ → Grid
blank_grid rows columns = record {
  texts = replicate rows (replicate (columns + 1) 0);
  rx = 0;
  cx = 0;
}

abbrev pub shown : Option Grid → Option (List (List ℕ))
shown none = none
shown (some g) = some (used_rows g.texts)

-- `ToStringVector`.
unfoldable pub to_string_vector : ℕ → ℕ → List ℕ → Option (List (List ℕ))
to_string_vector rows columns text = shown (fill rows columns text (blank_grid rows columns))
