-- ===== src/Module/RingBuf/Fifo.antt =====
-- The circular buffer of include/module/RingBuf.h beside a queue of limited length.
use gc.Common.{
  ℕ, zero, suc, ◌+◌, ◌-◌, ◌<◌, ◌≡◌, refl, ap, ap₂, ◌∙◌, sym, List, [], ◌∷◌, ◌++◌, arith, ltb, min,
  length, length-append, length-take, get_or, take, drop, length-drop, Bool-cases, inl, inr,
}
use gc.Tsisp003.Memory.{slice, length-slice, get_or-slice}
use gc.Module.RingBuf.{RingBuf, vacancy, push_len, push, pop_len, pop}
use gc.Module.RingBuf.Queue.{
  element, IsValid, push-IsValid, pop-IsValid, push-old, push-new, pop-first, pop-rest, get_or-drop,
  get_or-append,
}

pub data Operation : Type 0 where
  put : List ℕ → Operation
  get : ℕ → Operation

pub data Answer : Type 0 where
  taken : ℕ → Answer
  given : List ℕ → Answer

-- What the buffer answers to operations one after the other.
unfoldable pub answers : List Operation → RingBuf → List Answer
answers [] s = []
answers (put xs ∷ ops) s = taken (push s xs).1 ∷ answers ops (push s xs).0
answers (get n ∷ ops) s = given (pop s n).1 ∷ answers ops (pop s n).0

-- What a queue of limited length answers: it takes what there is room for, and gives the oldest.
unfoldable pub queue_answers : ℕ → List Operation → List ℕ → List Answer
queue_answers size [] q = []
queue_answers size (put xs ∷ ops) q =
    let n = min (length xs) (size - length q) in taken n ∷ queue_answers size ops (q ++ take n xs)
queue_answers size (get n ∷ ops) q =
    let k = min n (length q) in given (take k q) ∷ queue_answers size ops (drop k q)

-- The bytes that wait.
abbrev pub queue : RingBuf → List ℕ
queue s = slice (element s) 0 s.cnt

same_elements :
    (xs ys : List ℕ)
    → length xs ≡ length ys
    → ((i : ℕ) → i < length xs → get_or xs i 0 ≡ get_or ys i 0)
    → xs ≡ ys
same_elements [] [] h same = refl
same_elements [] (y ∷ ys) h same = absurd (omega arith)
same_elements (x ∷ xs) [] h same = absurd (omega arith)
same_elements (x ∷ xs) (y ∷ ys) h same =
    ap₂ (λ z zs. z ∷ zs) (same 0 (omega arith))
      (same_elements xs ys (omega arith) (λ i lt. same (suc i) (omega arith)))

get_or-take : (n i : ℕ) (xs : List ℕ) → i < n → get_or (take n xs) i 0 ≡ get_or xs i 0
get_or-take zero i xs lt = absurd (omega arith)
get_or-take (suc n) i [] lt = refl
get_or-take (suc n) zero (x ∷ xs) lt = refl
get_or-take (suc n) (suc i) (x ∷ xs) lt = get_or-take n i xs (omega arith)

get_or-queue : (s : RingBuf) (i : ℕ) → i < s.cnt → get_or (queue s) i 0 ≡ element s i
get_or-queue s i h = get_or-slice (element s) 0 s.cnt i h ∙ ap (element s) (omega arith)

push_count :
    (s : RingBuf) (xs : List ℕ)
    → ((push s xs).1 ≡ min (length xs) (s.size - s.cnt))
      × ((push s xs).0.cnt ≡ s.cnt + (push s xs).1)
      × ((push s xs).0.size ≡ s.size)
unfolding push push_len vacancy
push_count s xs = ground arith

pop_count :
    (s : RingBuf) (n : ℕ)
    → (length (pop s n).1 ≡ min n s.cnt)
      × ((pop s n).0.cnt + length (pop s n).1 ≡ s.cnt)
      × ((pop s n).0.size ≡ s.size)
unfolding pop pop_len
pop_count s n = ground (
  arith,
  length-append (slice s.buf s.pop_at (s.size - s.pop_at))
      (slice s.buf 0 (pop_len s n - (s.size - s.pop_at))),
  length-slice s.buf s.pop_at (s.size - s.pop_at),
  length-slice s.buf 0 (pop_len s n - (s.size - s.pop_at)),
  length-slice s.buf s.pop_at (pop_len s n),
)

queue-push :
    (s : RingBuf) (xs : List ℕ) → IsValid s → queue (push s xs).0 ≡ queue s ++ take (push s xs).1 xs
queue-push s xs v =
    let s' = (push s xs).0 in
    let n = (push s xs).1 in
    let (some_n, some_cnt, _) = push_count s xs in
    let old = length-slice (element s) 0 s.cnt in
    let new = length-slice (element s') 0 s'.cnt in
    same_elements (queue s') (queue s ++ take n xs)
      (omega
        (arith, new, length-append (queue s) (take n xs), old, length-take n xs, some_n, some_cnt))
      (λ i lt.
        let inside : i < s'.cnt = omega (arith, new, lt) in
        get_or-queue s' i inside ∙ (elim (Bool-cases (ltb i s.cnt)) [
          | inl e ↦
              let here : i < s.cnt = ground arith in
              push-old s xs i v here
              ∙ sym (get_or-append (queue s) (take n xs) i ∙ rw (old, e) (get_or-queue s i here))
          | inr e ↦
              let there : i - s.cnt < n = ground (arith, inside, some_cnt) in
              let place : s.cnt + (i - s.cnt) ≡ i = ground arith in
              ap (element s') (sym place)
              ∙ push-new s xs (i - s.cnt) v there
              ∙ sym (
                  get_or-append (queue s) (take n xs) i
                  ∙ rw (old, e) (get_or-take n (i - s.cnt) xs there))
        ]))

pop-take :
    (s : RingBuf) (n : ℕ) → IsValid s → (pop s n).1 ≡ take (min n (length (queue s))) (queue s)
pop-take s n v =
    let old = length-slice (element s) 0 s.cnt in
    let (count, _, _) = pop_count s n in
    rw old (
      same_elements (pop s n).1 (take (min n s.cnt) (queue s))
        (omega (arith, count, old, length-take (min n s.cnt) (queue s)))
        (λ i lt.
          pop-first s n i v lt
          ∙ sym (
              get_or-take (min n s.cnt) i (queue s) (omega (arith, count, lt))
              ∙ get_or-queue s i (omega (arith, count, lt)))))

pop-drop :
    (s : RingBuf) (n : ℕ)
    → IsValid s
    → queue (pop s n).0 ≡ drop (min n (length (queue s))) (queue s)
pop-drop s n v =
    let old = length-slice (element s) 0 s.cnt in
    let s' = (pop s n).0 in
    let new = length-slice (element s') 0 s'.cnt in
    let (count, left, _) = pop_count s n in
    rw old (
      same_elements (queue s') (drop (min n s.cnt) (queue s))
        (omega (arith, count, left, old, new, length-drop (min n s.cnt) (queue s)))
        (λ i lt.
          let inside : i < s'.cnt = omega (arith, new, lt) in
          get_or-queue s' i inside
          ∙ pop-rest s n i v inside
          ∙ sym (
              get_or-drop (min n s.cnt) i (queue s)
              ∙ get_or-queue s (min n s.cnt + i) (omega (arith, count, left, inside))
              ∙ ap (λ k. element s (k + i)) (sym count))))

-- Whatever bytes are put in and asked for, in whatever order, the circular buffer in a valid state
-- answers as a queue of its size does: Push takes as many bytes as there is room for, and Pop gives
-- the oldest ones, in their order.
pub answers-queue :
    (ops : List Operation) (s : RingBuf)
    → IsValid s
    → answers ops s ≡ queue_answers s.size ops (queue s)
unfolding answers queue_answers
answers-queue [] s v = refl
answers-queue (put xs ∷ ops) s v =
    let (count, _, size) = push_count s xs in
    let rest = answers-queue ops (push s xs).0 (push-IsValid s xs v) in
    let room =
      count ∙ ap (λ k. min (length xs) (s.size - k)) (sym (length-slice (element s) 0 s.cnt)) in
    ap₂ (λ a as'. a ∷ as') (ap taken room)
      (rest
        ∙ ap₂ (λ k q. queue_answers k ops q) size
            (queue-push s xs v ∙ ap (λ k. queue s ++ take k xs) room))
answers-queue (get n ∷ ops) s v =
    let (_, _, size) = pop_count s n in
    ap₂ (λ a as'. a ∷ as') (ap given (pop-take s n v))
      (answers-queue ops (pop s n).0 (pop-IsValid s n v)
        ∙ ap₂ (λ k q. queue_answers k ops q) size (pop-drop s n v))
