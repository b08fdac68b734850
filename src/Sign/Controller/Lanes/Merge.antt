-- ===== src/Sign/Controller/Lanes/Merge.antt =====
-- CheckAdjacentLane of src/sign/Controller.cpp.
use gc.Common.{
  ℕ, zero, suc, ◌+◌, ◌<◌, ◌≡◌, refl, ◌↔◌, false, List, [], ◌∷◌, arith, Bool-cases, inl, inr, some,
  length, get_or, Bool, true, ◌==◌, ◌||◌, if◌then◌else◌, sym, ◌∙◌,
}
use gc.Tsisp003.AppError.{app_no_error}
use gc.Sign.Controller.{Sign}
use gc.Sign.Controller.Lanes.{conflict, lane_frame, check_lanes, check_adjacent_lane}

-- What a frame tells the traffic of a lane: to merge to the left, to the right, that the lane is
-- closed, or nothing of these.
pub data Lane : Type 0 where
  to_left to_right closed open_lane : Lane

-- By the numbers of the frames of an ISLUS.
abbrev pub lane_of : ℕ → Lane
lane_of f =
    if f == 184 || f == 194
    then to_left
    else (if f == 185 || f == 195
        then to_right
        else (if f == 189 || f == 199 then closed else open_lane))

-- The neighbours, left and right, that send traffic against each other or into a closed lane.
abbrev pub is_forbidden : Lane → Lane → Bool
is_forbidden to_right to_left = true
is_forbidden to_right closed = true
is_forbidden closed to_left = true
is_forbidden _ _ = false

conflict-is_forbidden : (l r : ℕ) → conflict l r ≡ is_forbidden (lane_of l) (lane_of r)
conflict-is_forbidden l r = ground arith

-- What a sign is to show: the frame of the command, or where that is 0 what it shows now.
abbrev pub shown : ℕ → Sign → ℕ
shown zero s = s.report_frm
shown (suc id) s = suc id

lane_frame-shown : (id : ℕ) (s : Sign) → lane_frame id s ≡ shown id s
lane_frame-shown zero s = refl
lane_frame-shown (suc id) s = let some_id : (suc id == 0) ≡ false = ground arith in rw some_id refl

-- What the signs are to show, in the order of the lanes.
abbrev pub road : List ℕ → List Sign → List ℕ
road [] signs = []
road (id ∷ frms) [] = []
road (id ∷ frms) (s ∷ signs) = shown id s ∷ road frms signs

NoConflict : ℕ → List ℕ → Type 0
NoConflict left lanes =
    (i : ℕ) → i < length lanes → conflict (get_or (left ∷ lanes) i 0) (get_or lanes i 0) ≡ false

NoConflict-cons :
    (left x : ℕ) (xs : List ℕ)
    → conflict left x ≡ false
    → NoConflict x xs
    → NoConflict left (x ∷ xs)
unfolding NoConflict
NoConflict-cons left x xs here rest zero lt = here
NoConflict-cons left x xs here rest (suc i) lt = rest i (omega arith)

check_lanes-NoConflict :
    (left : ℕ) (frms : List ℕ) (signs : List Sign)
    → (check_lanes (some left) frms signs ≡ app_no_error) ↔ NoConflict left (road frms signs)
unfolding check_lanes NoConflict
check_lanes-NoConflict left [] signs = (λ e i h. absurd (omega arith), λ h. refl)
check_lanes-NoConflict left (id ∷ frms) [] = (λ e i h. absurd (omega arith), λ h. refl)
check_lanes-NoConflict left (id ∷ frms) (s ∷ signs) =
    let ih = check_lanes-NoConflict (shown id s) frms signs in
    rw (lane_frame-shown id s) (elim (Bool-cases (conflict left (shown id s))) [
      | inl e ↦
          rw e (λ h. absurd (ground arith), λ h. let no_error = h 0 (omega arith) in absurd (cc))
      | inr e ↦ rw e (
        λ h. NoConflict-cons left (shown id s) (road frms signs) e (ih.0 h),
        λ h. ih.1 (λ i lt. h (suc i) (omega arith)),
      )
    ])

-- CheckAdjacentLane finds nothing wrong exactly if no two neighbouring lanes are in conflict: a lane
-- that merges to the right, by frame 185 or 195, beside a closed one, by frame 189 or 199, or one that
-- merges to the left, by frame 184 or 194; or a closed one beside one that merges to the left. A sign
-- with frame 0 in the command counts with the frame that it shows.
pub check_adjacent_lane-NoConflict :
    (signs : List Sign) (frms : List ℕ)
    → (check_adjacent_lane signs frms ≡ app_no_error) ↔ (
        (i : ℕ)
        → i + 1 < length (road frms signs)
        → is_forbidden
            (lane_of (get_or (road frms signs) i 0))
            (lane_of (get_or (road frms signs) (i + 1) 0))
          ≡ false)
unfolding check_adjacent_lane check_lanes NoConflict
check_adjacent_lane-NoConflict signs [] = (λ e i h. absurd (omega arith), λ h. refl)
check_adjacent_lane-NoConflict [] (id ∷ frms) = (λ e i h. absurd (omega arith), λ h. refl)
check_adjacent_lane-NoConflict (s ∷ signs) (id ∷ frms) =
    let same = check_lanes-NoConflict (shown id s) frms signs in
    let next : (i : ℕ) → i + 1 ≡ suc i = λ i. omega arith in
    let lanes = shown id s ∷ road frms signs in
    let meaning = λ (i : ℕ). conflict-is_forbidden (get_or lanes i 0) (get_or lanes (i + 1) 0) in
    rw (lane_frame-shown id s) (
      λ e i lt. sym (meaning i) ∙ rw (next i) (same.0 e i (omega arith)),
      λ h. same.1 (λ i lt. rw (next i) at (meaning i ∙ h i (omega arith))),
    )
