-- ===== src/Tsisp003/Frame/Lines/Layout.antt =====
-- The lines that a text frame of src/tsisp003/Frame.cpp is broken into.
use gc.Common.{
  ℕ, ◌+◌, ◌≤◌, ◌<◌, ◌≡◌, ◌≢◌, refl, ap, false, List, [], ◌∷◌, ◌++◌, append_assoc, ltb, ◌==◌,
  if◌then◌else◌, length, length-append, arith, Bool-cases, inl, inr,
}
use gc.Tsisp003.Frame.Lines.{space, count_from}

-- The lines that a text is broken into: at spaces, and where a line is full.
unfoldable pub lay_out : ℕ → List ℕ → List ℕ → List (List ℕ)
lay_out columns [] [] = []
lay_out columns [] (d ∷ line) = (d ∷ line) ∷ []
lay_out columns (c ∷ cs) line =
    let longer = line ++ c ∷ [] in
    if c == space
    then (if ltb 0 (length line) then line ∷ lay_out columns cs [] else lay_out columns cs [])
    else if length line + 1 == columns
    then longer ∷ lay_out columns cs []
    else lay_out columns cs longer

abbrev pub concat : List (List ℕ) → List ℕ
concat [] = []
concat (line ∷ lines) = line ++ concat lines

-- A text without its spaces.
abbrev pub visible : List ℕ → List ℕ
visible [] = []
visible (c ∷ cs) = if c == space then visible cs else c ∷ visible cs

abbrev pub NoZero : List ℕ → Type 0
NoZero [] = Unit {0}
NoZero (c ∷ cs) = (c ≢ 0) × NoZero cs

abbrev pub AllWithin : ℕ → List (List ℕ) → Type 0
AllWithin columns [] = Unit {0}
AllWithin columns (line ∷ lines) = (length line ≤ columns) × AllWithin columns lines

pub concat-lay_out :
    (columns : ℕ) (text line : List ℕ) → concat (lay_out columns text line) ≡ line ++ visible text
unfolding lay_out
concat-lay_out columns [] [] = refl
concat-lay_out columns [] (d ∷ line) = refl
concat-lay_out columns (c ∷ cs) line = elim (Bool-cases (c == space)) [
  | inl e ↦ elim (Bool-cases (ltb 0 (length line))) [
    | inl some_line ↦ rw (e, some_line) (ap (λ t. line ++ t) (concat-lay_out columns cs []))
    | inr no_line ↦ rw (e, no_line, concat-lay_out columns cs []) (empty_append line _ no_line)
  ]
  | inr e ↦ elim (Bool-cases (length line + 1 == columns)) [
    | inl full ↦
        rw (e, full, concat-lay_out columns cs []) (append_assoc line (c ∷ []) (visible cs))
    | inr room ↦
        rw (e, room, concat-lay_out columns cs (line ++ c ∷ []))
          (append_assoc line (c ∷ []) (visible cs))
  ]
]
  where
    empty_append : (xs ys : List ℕ) → ltb 0 (length xs) ≡ false → ys ≡ xs ++ ys
    empty_append [] ys h = refl
    empty_append (x ∷ xs) ys h = absurd (ground arith)

pub count_from-lay_out :
    (columns : ℕ) (text line : List ℕ) (lines : ℕ)
    → count_from columns text lines (length line) ≡ lines + length (lay_out columns text line)
unfolding count_from lay_out
count_from-lay_out columns [] [] lines = omega arith
count_from-lay_out columns [] (d ∷ line) lines = ground arith
count_from-lay_out columns (c ∷ cs) line lines = elim (Bool-cases (c == space)) [
  | inl e ↦ elim (Bool-cases (ltb 0 (length line))) [
    | inl some_line ↦ rw (e, some_line, count_from-lay_out columns cs [] (lines + 1)) (omega arith)
    | inr no_line ↦ rw (e, no_line) (count_from-lay_out columns cs [] lines)
  ]
  | inr e ↦ elim (Bool-cases (length line + 1 == columns)) [
    | inl full ↦ rw (e, full, count_from-lay_out columns cs [] (lines + 1)) (omega arith)
    | inr room ↦
        rw (e, room, ← length-append line (c ∷ []))
          (count_from-lay_out columns cs (line ++ c ∷ []) lines)
  ]
]

pub lay_out-AllWithin :
    (columns : ℕ) (text line : List ℕ)
    → length line < columns
    → AllWithin columns (lay_out columns text line)
unfolding lay_out
lay_out-AllWithin columns [] [] h = tt
lay_out-AllWithin columns [] (d ∷ line) h = (omega arith, tt)
lay_out-AllWithin columns (c ∷ cs) line h = elim (Bool-cases (c == space)) [
  | inl e ↦ elim (Bool-cases (ltb 0 (length line))) [
    | inl some_line ↦ rw (e, some_line) (omega arith, lay_out-AllWithin columns cs [] (omega arith))
    | inr no_line ↦ rw (e, no_line) (lay_out-AllWithin columns cs [] (omega arith))
  ]
  | inr e ↦ elim (Bool-cases (length line + 1 == columns)) [
    | inl full ↦
        rw (e, full)
          (
            ground (arith, length-append line (c ∷ [])),
            lay_out-AllWithin columns cs [] (omega arith),
          )
    | inr room ↦
        rw (e, room)
          (lay_out-AllWithin columns cs (line ++ c ∷ [])
            (ground (arith, length-append line (c ∷ []))))
  ]
]
