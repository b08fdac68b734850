-- ===== src/Tsisp003/Frame/Lines/Filled.antt =====
-- ToStringVector of src/tsisp003/Frame.cpp, beside the lines that CheckSub counts.
use gc.Common.{
  ℕ, zero, suc, ◌+◌, ◌-◌, ◌≤◌, ◌<◌, ◌≡◌, ◌≢◌, refl, sym, ap, ap₂, ◌∙◌, true, false, some, List, [],
  ◌∷◌, ◌++◌, append-nil, append_assoc, ltb, ◌==◌, if◌then◌else◌, length, length-append, arith,
  Bool-cases, inl, inr,
}
use gc.Tsisp003.Frame.Lines.{
  space, count_lines, Grid, goes_on, breaks, next_line, round, fill, shown, used_rows, blank_grid,
  to_string_vector,
}
use gc.Tsisp003.Frame.Lines.Layout.{
  lay_out, concat, visible, NoZero, AllWithin, concat-lay_out, count_from-lay_out,
  lay_out-AllWithin,
}
use gc.Tsisp003.Frame.Lines.Grids.{
  pad, filled, blank_row, write_at-filled, used_rows-filled, used_rows-filled_blank, used_rows-past,
}

fill-goes_on :
    (rows columns v : ℕ) (vs : List ℕ) (g g' : Grid)
    → round rows columns g v ≡ goes_on g'
    → fill rows columns (v ∷ vs) g ≡ fill rows columns vs g'
unfolding fill
fill-goes_on rows columns v vs g g' e = rw (fill, e) refl

fill-breaks :
    (rows columns v : ℕ) (vs : List ℕ) (g g' : Grid)
    → round rows columns g v ≡ breaks g'
    → fill rows columns (v ∷ vs) g ≡ some g'
unfolding fill
fill-breaks rows columns v vs g g' e = rw (fill, e) refl

-- From here on the text is written, and nothing of it is lost.
abbrev Whole : ℕ → ℕ → List ℕ → Grid → List (List ℕ) → Type 0
Whole rows columns text g lines =
    (g' : Grid) × (fill rows columns text g ≡ some g') × (used_rows g'.texts ≡ lines)

empty_list {ℓ} : {A : Type ℓ} (xs : List A) → length xs ≤ 0 → xs ≡ []
empty_list [] h = refl
empty_list (x ∷ xs) h = absurd (omega arith)

-- A row is full or its line is over: the next row follows, or there is none and no text either.
Whole-next :
    (columns v k m : ℕ) (cs : List ℕ) (past : List (List ℕ)) (line : List ℕ) (g : Grid)
    → NoZero line
    → 0 < length line
    → length (lay_out columns cs []) ≤ k
    → round (length past + suc k) columns g v
      ≡ next_line (length past + suc k) (record (filled columns past line k) { cx = m })
    → ((past' : List (List ℕ)) (k' : ℕ)
        → length (lay_out columns cs []) ≤ suc k'
        → Whole
            (length past' + suc k')
            columns
            cs
            (filled columns past' [] k')
            (used_rows past' ++ lay_out columns cs []))
    → Whole
        (length past + suc k)
        columns
        (v ∷ cs)
        g
        (used_rows past ++ line ∷ lay_out columns cs [])
unfolding blank_row
Whole-next columns v zero m cs past line g h some_char fits e rest =
    let last : (length past + 1 == length past + suc zero) ≡ true = ground arith in
    let broken = e ∙ rw last refl in
    (
      record (filled columns past line zero) { rx = length past + 1; cx = m },
      fill-breaks _ columns v cs g _ broken,
      rw (empty_list (lay_out columns cs []) fits)
          (used_rows-filled columns zero past line h some_char),
    )
Whole-next columns v (suc k) m cs past line g h some_char fits e rest =
    let more : (length past + 1 == length past + suc (suc k)) ≡ false = ground arith in
    let past' = past ++ pad columns line ∷ [] in
    let count : length past' ≡ length past + 1 =
      omega (arith, length-append past (pad columns line ∷ [])) in
    let rows : length past' + suc k ≡ length past + suc (suc k) = omega (arith, count) in
    let (g', run, shown) = rest past' k fits in
    let width : columns + 1 - 0 ≡ columns + 1 = omega arith in
    let joined : filled columns past' [] k
        ≡ record (filled columns past line (suc k)) { rx = length past + 1; cx = 0 } =
      rw (count, width, append_assoc past (pad columns line ∷ [])) refl in
    (
      g',
      fill-goes_on _ columns v cs g _ (e ∙ rw more refl)
          ∙ ap₂ (λ r state. fill r columns cs state) (sym rows) (sym joined)
          ∙ run,
      shown
          ∙ ap (λ t. t ++ lay_out columns cs []) (used_rows-past columns past line h some_char)
          ∙ append_assoc (used_rows past) (line ∷ []) (lay_out columns cs []),
    )

NoZero-snoc : (line : List ℕ) (c : ℕ) → NoZero line → c ≢ 0 → NoZero (line ++ c ∷ [])
NoZero-snoc [] c h some_char = (some_char, tt)
NoZero-snoc (d ∷ line) c h some_char = (h.0, NoZero-snoc line c h.1 some_char)

round-space :
    (rows columns c : ℕ) (g : Grid)
    → (c == space) ≡ true
    → round rows columns g c ≡ (if ltb 0 g.cx then next_line rows g else goes_on g)
unfolding round
round-space rows columns c g e = rw e refl

round-written :
    (columns c k : ℕ) (past : List (List ℕ)) (line : List ℕ)
    → (c == space) ≡ false
    → length line < columns
    → round (length past + suc k) columns (filled columns past line k) c ≡ (
        if length line + 1 == columns
        then next_line
            (length past + suc k)
            (record (filled columns past (line ++ c ∷ []) k) { cx = length line + 1 })
        else goes_on (filled columns past (line ++ c ∷ []) k))
unfolding round
round-written columns c k past line e room =
    let count : length (line ++ c ∷ []) ≡ length line + 1 =
      omega (arith, length-append line (c ∷ [])) in
    rw (e, write_at-filled columns c k past line room, count) refl

fill-Whole :
    (columns : ℕ) (text line : List ℕ) (past : List (List ℕ)) (k : ℕ)
    → length line < columns
    → NoZero line
    → NoZero text
    → length (lay_out columns text line) ≤ suc k
    → Whole
        (length past + suc k)
        columns
        text
        (filled columns past line k)
        (used_rows past ++ lay_out columns text line)
unfolding fill lay_out
fill-Whole columns [] [] past k room h t fits = (
  filled columns past [] k,
  refl,
  used_rows-filled_blank columns k past ∙ sym (append-nil (used_rows past)),
)
fill-Whole columns [] (d ∷ line) past k room h t fits = (
  filled columns past (d ∷ line) k,
  refl,
  used_rows-filled columns k past (d ∷ line) h (omega arith),
)
fill-Whole columns (c ∷ cs) line past k room h t fits =
    let rest =
      λ (past' : List (List ℕ)) (k' : ℕ). fill-Whole columns cs [] past' k' (omega arith) tt t.1 in
    elim (Bool-cases (c == space)) [
      | inl e ↦ elim (Bool-cases (ltb 0 (length line))) [
        | inl some_line ↦
            rw (e, some_line)
              (Whole-next columns c k (length line) cs past line (filled columns past line k) h
                (ground arith) (ground arith)
                (round-space _ columns c (filled columns past line k) e ∙ rw some_line refl) rest)
        | inr no_line ↦
            let (g', run, shown) = rest past k (ground arith) in
            let blank : line ≡ [] = empty_list line (ground arith) in
            rw (e, no_line)
              (
                g',
                fill-goes_on _ columns c cs (filled columns past line k) _
                      (round-space _ columns c (filled columns past line k) e ∙ rw no_line refl)
                    ∙ ap (λ l. fill (length past + suc k) columns cs (filled columns past l k))
                        blank
                    ∙ run,
                shown,
              )
      ]
      | inr e ↦ elim (Bool-cases (length line + 1 == columns)) [
        | inl full ↦
            rw (e, full)
              (Whole-next columns c k (length line + 1) cs past (line ++ c ∷ [])
                (filled columns past line k) (NoZero-snoc line c h t.0)
                (omega (arith, length-append line (c ∷ []))) (ground arith)
                (round-written columns c k past line e room ∙ rw full refl) rest)
        | inr wide ↦
            let (g', run, shown) =
              fill-Whole columns cs (line ++ c ∷ []) past k
                (ground (arith, length-append line (c ∷ []))) (NoZero-snoc line c h t.0) t.1
                (ground arith) in
            rw (e, wide)
              (
                g',
                fill-goes_on _ columns c cs (filled columns past line k) _
                      (round-written columns c k past line e room ∙ rw wide refl)
                    ∙ run,
                shown,
              )
      ]
    ]

-- A text without zeros of as many lines as there are rows at most, by the count of CheckSub, is laid
-- out whole by ToStringVector, where a row holds a character and there is a row: as many lines as
-- counted, none longer than a row, which hold the characters of the text in order, less its spaces.
pub to_string_vector-visible :
    (rows columns : ℕ) (text : List ℕ)
    → 1 ≤ columns
    → 1 ≤ rows
    → NoZero text
    → count_lines columns text ≤ rows
    → (lines : List (List ℕ)) × (to_string_vector rows columns text ≡ some lines)
      × (concat lines ≡ visible text)
      × (length lines ≡ count_lines columns text)
      × AllWithin columns lines
unfolding to_string_vector count_lines blank_grid blank_row used_rows
to_string_vector-visible zero columns text wide tall h fits = absurd (omega arith)
to_string_vector-visible (suc k) columns text wide tall h fits =
    let count = count_from-lay_out columns text [] 0 in
    let (g, run, whole) =
      fill-Whole columns text [] [] k (omega arith) tt h (omega (arith, fits, count)) in
    let width : columns + 1 - 0 ≡ columns + 1 = omega arith in
    let none_past : length {A = List ℕ} [] + suc k ≡ suc k = omega arith in
    let done = rw (none_past, width) at run in
    (
      lay_out columns text [],
      ap shown done ∙ ap some whole,
      concat-lay_out columns text [],
      omega (arith, count),
      lay_out-AllWithin columns text [] (omega arith),
    )
