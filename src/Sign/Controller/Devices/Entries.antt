-- ===== src/Sign/Controller/Devices/Entries.antt =====
-- The loops over the entries of CmdSetDimmingLevel, CmdPowerOnOff and CmdDisableEnableDevice of
-- src/sign/Controller.cpp.
use gc.Common.{
  ℕ, zero, suc, ◌+◌, ◌-◌, ◌≤◌, ◌≡◌, ◌≢◌, refl, sym, ◌∙◌, false, ◌||◌, ◌↔◌, ◌⊎◌, inl, inr, Option,
  none, some, List, [], ◌∷◌, map, arith, Bool-cases, ◌==◌, ltb, if◌then◌else◌, length, get_elem?,
}
use gc.Tsisp003.Memory.{Memory}
use gc.Tsisp003.AppError.{AppError, app_no_error}
use gc.Sign.Controller.{Group}
use gc.Sign.Controller.Devices.{
  change, first_error, at_group, check_entries, apply_entries, if_no_error, for_entries,
}

abbrev pub on_option : (Group → Group) → Option Group → Option Group
on_option f none = none
on_option f (some g) = some (f g)

get-map :
    (f : Group → Group) (groups : List Group) (i : ℕ)
    → get_elem? (map f groups) i ≡ on_option f (get_elem? groups i)
get-map f [] i = refl
get-map f (g ∷ groups) zero = refl
get-map f (g ∷ groups) (suc i) = get-map f groups i

on_option-id : (o : Option Group) → on_option (λ g. g) o ≡ o
on_option-id none = refl
on_option-id (some g) = refl

on_option-comp :
    (f f' : Group → Group) (o : Option Group)
    → on_option f (on_option f' o) ≡ on_option (λ g. f (f' g)) o
on_option-comp f f' none = refl
on_option-comp f f' (some g) = refl

get-change :
    (f : Group → Group) (groups : List Group) (k i : ℕ)
    → get_elem? (change f groups k) i
      ≡ on_option (if i == k then f else (λ g. g)) (get_elem? groups i)
unfolding change
get-change f [] k i = refl
get-change f (g ∷ groups) zero zero = refl
get-change f (g ∷ groups) zero (suc i) =
    let off : (suc i == 0) ≡ false = ground arith in
    rw off (sym (on_option-id (get_elem? groups i)))
get-change f (g ∷ groups) (suc k) zero =
    let off : (0 == suc k) ≡ false = ground arith in rw off refl
get-change f (g ∷ groups) (suc k) (suc i) =
    let same : (suc i == suc k) ≡ (i == k) = ground arith in rw same (get-change f groups k i)

-- What one entry means for the group at an index.
abbrev pub named : (Memory → ℕ → Group → Group) → Memory → ℕ → ℕ → Group → Group
named act cmd p i = if cmd p == 0 || cmd p == i + 1 then act cmd p else (λ g. g)

-- What the entries that are left mean for the group at an index: those that name it or all groups,
-- one after the other.
abbrev pub all_named : (Memory → ℕ → Group → Group) → ℕ → Memory → ℕ → ℕ → ℕ → Group → Group
all_named act size cmd zero p i g = g
all_named act size cmd (suc left) p i g =
    all_named act size cmd left (p + size) i (named act cmd p i g)

get-at_group :
    (act : Memory → ℕ → Group → Group) (cmd : Memory) (p i : ℕ) (groups : List Group)
    → get_elem? (at_group (act cmd p) (cmd p) groups) i
      ≡ on_option (named act cmd p i) (get_elem? groups i)
unfolding at_group
get-at_group act cmd p i groups = elim (Bool-cases (cmd p == 0)) [
  | inl e ↦ rw e (get-map (act cmd p) groups i)
  | inr e ↦
      let same : (i == cmd p - 1) ≡ (cmd p == i + 1) = ground arith in
      rw e (get-change (act cmd p) groups (cmd p - 1) i ∙ rw same refl)
]

get-apply_entries :
    (act : Memory → ℕ → Group → Group) (size : ℕ) (cmd : Memory) (left p i : ℕ)
    (groups : List Group)
    → get_elem? (apply_entries act size cmd left p groups) i
      ≡ on_option (all_named act size cmd left p i) (get_elem? groups i)
unfolding apply_entries
get-apply_entries act size cmd zero p i groups = sym (on_option-id (get_elem? groups i))
get-apply_entries act size cmd (suc left) p i groups =
    get-apply_entries act size cmd left (p + size) i _
    ∙ rw (get-at_group act cmd p i groups) (
        on_option-comp (all_named act size cmd left (p + size) i) (named act cmd p i)
          (get_elem? groups i))

-- An entry that the first loop finds nothing wrong with.
abbrev pub IsGood : (Memory → ℕ → AppError) → List Group → Memory → ℕ → Type 0
IsGood check groups cmd p = (cmd p ≤ length groups) × (check cmd p ≡ app_no_error)

abbrev pub AllGood : (Memory → ℕ → AppError) → ℕ → List Group → Memory → ℕ → ℕ → Type 0
AllGood check size groups cmd zero p = Unit {0}
AllGood check size groups cmd (suc left) p =
    IsGood check groups cmd p × AllGood check size groups cmd left (p + size)

first_error-ok :
    (e rest : AppError)
    → (first_error e rest ≡ app_no_error) ↔ ((e ≡ app_no_error) × (rest ≡ app_no_error))
first_error-ok app_no_error rest = (λ h. (refl, h), λ h. h.1)
first_error-ok e rest = (λ h. ground arith, λ h. h.0)

check_entries-AllGood :
    (check : Memory → ℕ → AppError) (size : ℕ) (groups : List Group) (cmd : Memory) (left p : ℕ)
    → (check_entries check size groups cmd left p ≡ app_no_error)
      ↔ AllGood check size groups cmd left p
unfolding check_entries
check_entries-AllGood check size groups cmd zero p = (λ e. tt, λ e. refl)
check_entries-AllGood check size groups cmd (suc left) p =
    let ih = check_entries-AllGood check size groups cmd left (p + size) in
    let both = first_error-ok (check cmd p) (check_entries check size groups cmd left (p + size)) in
    elim (Bool-cases (ltb (length groups) (cmd p))) [
      | inl e ↦ rw e (λ h. ground arith, λ h. ground arith)
      | inr e ↦
          rw e
            (λ h. ((ground arith, (both.0 h).0), ih.0 (both.0 h).1), λ h. both.1 (h.0.1, ih.1 h.1))
    ]

-- What a command answers and does, by its entries: it is accepted exactly if there are from one to as
-- many entries as groups and all are good; then each group gets what the entries say that name it or
-- all groups, in their order, and otherwise nothing is changed.
abbrev pub ByEntries :
    (Memory → ℕ → AppError)
    → (Memory → ℕ → Group → Group)
    → ℕ
    → Memory
    → List Group
    → AppError × List Group
    → Type 0
ByEntries check act size cmd groups r =
    ((r.0 ≡ app_no_error)
      ↔ ((1 ≤ cmd 1) × (cmd 1 ≤ length groups) × AllGood check size groups cmd (cmd 1) 2))
    × (((r.0 ≢ app_no_error) × (r.1 ≡ groups))
        ⊎ ((r.0 ≡ app_no_error)
            × ((i : ℕ)
                → get_elem? r.1 i
                  ≡ on_option (all_named act size cmd (cmd 1) 2 i) (get_elem? groups i))))

if_no_error-cases :
    (e : AppError) (groups changed : List Group)
    → let r = if_no_error e groups changed in
      (r.0 ≡ e) × (((e ≢ app_no_error) × (r.1 ≡ groups)) ⊎ ((e ≡ app_no_error) × (r.1 ≡ changed)))
if_no_error-cases app_no_error groups changed = (refl, inr (refl, refl))
if_no_error-cases e groups changed = (refl, inl ((λ h. ground arith), refl))

pub for_entries-ByEntries :
    (check : Memory → ℕ → AppError) (act : Memory → ℕ → Group → Group) (size : ℕ) (cmd : Memory)
    (groups : List Group)
    → ByEntries check act size cmd groups (for_entries check act size cmd groups)
unfolding for_entries
for_entries-ByEntries check act size cmd groups =
    let e = check_entries check size groups cmd (cmd 1) 2 in
    let changed = apply_entries act size cmd (cmd 1) 2 groups in
    let good = check_entries-AllGood check size groups cmd (cmd 1) 2 in
    let (answer, cases) = if_no_error-cases e groups changed in
    elim (Bool-cases (cmd 1 == 0 || ltb (length groups) (cmd 1))) [
      | inl bad ↦ rw bad (
        ((λ h. absurd (ground arith)), (λ h. absurd (ground arith))),
        inl ((λ h. ground arith), refl),
      )
      | inr fine ↦
          rw (fine, answer)
            (
              ((λ h. (ground arith, ground arith, good.0 h)), (λ h. good.1 h.2)),
              elim cases [
                | inl (bad, same) ↦ inl (bad, same)
                | inr (ok, same) ↦
                    inr (ok, λ i. rw same (get-apply_entries act size cmd (cmd 1) 2 i groups))
              ],
            )
    ]
