-- ===== src/Module/RingBuf/Queue.antt =====
-- The bytes that wait in the circular buffer of include/module/RingBuf.h, as a queue.
use gc.Common.{
  ℕ, zero, suc, ◌+◌, ◌-◌, ◌≤◌, ◌<◌, ◌≡◌, refl, ap, ◌∙◌, List, [], ◌∷◌, ◌++◌, arith, ltb, leb,
  if◌then◌else◌, length, length-append, get_or, drop, Bool-cases, inl, inr,
}
use gc.Tsisp003.Memory.{slice, length-slice, get_or-slice}
use gc.Module.RingBuf.{RingBuf, copy, vacancy, push_len, push, pop_len, pop}

-- Where the element at a place of the queue stands.
abbrev index : RingBuf → ℕ → ℕ
index s i = if ltb (s.pop_at + i) s.size then s.pop_at + i else s.pop_at + i - s.size

-- The element at a place of the queue.
abbrev pub element : RingBuf → ℕ → ℕ
element s i = s.buf (index s i)

-- Where the next byte goes. A read pointer may stand behind the buffer, with a whole round waiting.
abbrev end_of_queue : RingBuf → ℕ
end_of_queue s = if ltb (s.pop_at + s.cnt) (s.size + s.size) then index s s.cnt else 0

pub record IsValid (s : RingBuf) : Type 0 where
  pub pop_bound : s.pop_at ≤ s.size
  pub cnt_bound : s.cnt ≤ s.size
  pub push_bound : s.push_at < s.size
  pub push_place : s.push_at ≡ end_of_queue s

push_len-bounds :
    (s : RingBuf) (inbuf : List ℕ)
    → (push_len s inbuf ≤ s.size - s.cnt) × (push_len s inbuf ≤ length inbuf)
unfolding push_len vacancy
push_len-bounds s inbuf = ground arith

push-place :
    (s : RingBuf) (inbuf : List ℕ)
    → IsValid s
    → (push s inbuf).0.push_at ≡ end_of_queue (push s inbuf).0
unfolding push
push-place s inbuf v = elim (Bool-cases (leb (length inbuf) 0)) [
  | inl e ↦ rw e v.push_place
  | inr e ↦ elim (Bool-cases (ltb (push_len s inbuf) (s.size - s.push_at))) [
    | inl f ↦
        rw (e, f)
          (ground
            (arith, v.pop_bound, v.cnt_bound, v.push_bound, v.push_place, push_len-bounds s inbuf))
    | inr f ↦
        rw (e, f)
          (ground
            (arith, v.pop_bound, v.cnt_bound, v.push_bound, v.push_place, push_len-bounds s inbuf))
  ]
]

-- Push keeps the state valid: the pointers stay inside the buffer and the write pointer stands
-- where the queue ends.
pub push-IsValid : (s : RingBuf) (inbuf : List ℕ) → IsValid s → IsValid (push s inbuf).0
unfolding push push_len vacancy
push-IsValid s inbuf v = record {
  pop_bound = ground (arith, v.pop_bound);
  cnt_bound = ground (arith, v.cnt_bound);
  push_bound = ground (arith, v.pop_bound, v.cnt_bound, v.push_bound, v.push_place);
  push_place = push-place s inbuf v;
}

-- Pop keeps the pointers inside the buffer and the write pointer where the queue ends.
pub pop-IsValid : (s : RingBuf) (n : ℕ) → IsValid s → IsValid (pop s n).0
unfolding pop pop_len
pop-IsValid s n v = record {
  pop_bound = ground (arith, v.pop_bound, v.cnt_bound);
  cnt_bound = ground (arith, v.cnt_bound);
  push_bound = ground (arith, v.push_bound);
  push_place = ground (arith, v.pop_bound, v.cnt_bound, v.push_bound, v.push_place);
}

-- In a valid state, bytes that wait stay where they are in the queue when others are pushed.
pub push-old :
    (s : RingBuf) (inbuf : List ℕ) (i : ℕ)
    → IsValid s
    → i < s.cnt
    → element (push s inbuf).0 i ≡ element s i
unfolding push push_len vacancy copy
push-old s inbuf i v h = ground (arith, v.pop_bound, v.cnt_bound, v.push_bound, v.push_place)

pub get_or-drop : (n i : ℕ) (xs : List ℕ) → get_or (drop n xs) i 0 ≡ get_or xs (n + i) 0
get_or-drop zero i xs = ap (λ k. get_or xs k 0) (omega arith)
get_or-drop (suc n) i [] = refl
get_or-drop (suc n) i (x ∷ xs) =
    let next : suc n + i ≡ suc (n + i) = omega arith in rw next (get_or-drop n i xs)

-- In a valid state, of the bytes that are pushed, the ones that Push says it took stand behind
-- those that waited, in their order.
pub push-new :
    (s : RingBuf) (inbuf : List ℕ) (i : ℕ)
    → IsValid s
    → i < (push s inbuf).1
    → element (push s inbuf).0 (s.cnt + i) ≡ get_or inbuf i 0
unfolding push push_len vacancy copy
push-new s inbuf i v h = ground (
  arith,
  v.pop_bound,
  v.cnt_bound,
  v.push_bound,
  v.push_place,
  get_or-drop (s.size - s.push_at) (i - (s.size - s.push_at)) inbuf,
)

-- In a valid state, the bytes behind those that are popped move up to the front of the queue.
pub pop-rest :
    (s : RingBuf) (n i : ℕ)
    → IsValid s
    → i < (pop s n).0.cnt
    → element (pop s n).0 i ≡ element s (length (pop s n).1 + i)
unfolding pop pop_len
pop-rest s n i v h = ground (
  arith,
  v.pop_bound,
  v.cnt_bound,
  v.push_bound,
  length-append (slice s.buf s.pop_at (s.size - s.pop_at))
      (slice s.buf 0 (pop_len s n - (s.size - s.pop_at))),
  length-slice s.buf s.pop_at (s.size - s.pop_at),
  length-slice s.buf 0 (pop_len s n - (s.size - s.pop_at)),
  length-slice s.buf s.pop_at (pop_len s n),
)

pub get_or-append :
    (xs ys : List ℕ) (i : ℕ)
    → get_or (xs ++ ys) i 0
      ≡ (if ltb i (length xs) then get_or xs i 0 else get_or ys (i - length xs) 0)
get_or-append [] ys i = ground arith
get_or-append (x ∷ xs) ys zero = ground arith
get_or-append (x ∷ xs) ys (suc i) = get_or-append xs ys i ∙ ground arith

-- In a valid state, the bytes that are popped are the first of the queue, in order.
pub pop-first :
    (s : RingBuf) (n i : ℕ)
    → IsValid s
    → i < length (pop s n).1
    → get_or (pop s n).1 i 0 ≡ element s i
unfolding pop pop_len
pop-first s n i v h = ground (
  arith,
  v.pop_bound,
  v.cnt_bound,
  length-append (slice s.buf s.pop_at (s.size - s.pop_at))
      (slice s.buf 0 (pop_len s n - (s.size - s.pop_at))),
  length-slice s.buf s.pop_at (s.size - s.pop_at),
  length-slice s.buf 0 (pop_len s n - (s.size - s.pop_at)),
  length-slice s.buf s.pop_at (pop_len s n),
  get_or-append (slice s.buf s.pop_at (s.size - s.pop_at))
      (slice s.buf 0 (pop_len s n - (s.size - s.pop_at))) i,
  get_or-slice s.buf s.pop_at (s.size - s.pop_at) i,
  get_or-slice s.buf 0 (pop_len s n - (s.size - s.pop_at)) (i - (s.size - s.pop_at)),
  get_or-slice s.buf s.pop_at (pop_len s n) i,
)
