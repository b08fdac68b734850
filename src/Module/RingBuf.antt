-- ===== src/Module/RingBuf.antt =====
-- Class RingBuf of include/module/RingBuf.h: a queue of bytes in a circular buffer.
-- The pointers are offsets from `buf`; a length is that of a list, or a number that is not negative.
pub mod Queue
pub mod Fifo
mod Tests
use gc.Common.{
  ℕ, ◌+◌, ◌-◌, Bool, true, false, ◌&&◌, ◌||◌, List, [], ltb, leb, ◌==◌, if◌then◌else◌, length,
  get_or, take, drop, ◌++◌,
}
use gc.Tsisp003.Memory.{Memory, slice}

pub record RingBuf : Type 0 where
  pub buf : Memory
  pub size : ℕ
  pub push_at : ℕ
  pub pop_at : ℕ
  pub cnt : ℕ

-- memcpy of the first n elements of a list.
unfoldable pub copy : Memory → ℕ → List ℕ → ℕ → Memory
copy mem p xs n i = if leb p i && ltb i (p + n) then get_or xs (i - p) 0 else mem i

unfoldable pub vacancy : RingBuf → ℕ
vacancy s = s.size - s.cnt

unfoldable pub reset : RingBuf → RingBuf
reset s = record s { cnt = 0; push_at = 0; pop_at = 0 }

-- How much of the bytes is taken.
unfoldable pub push_len : RingBuf → List ℕ → ℕ
push_len s inbuf = if ltb (vacancy s) (length inbuf) then vacancy s else length inbuf

-- The result is the new state and the number of bytes taken.
unfoldable pub push : RingBuf → List ℕ → RingBuf × ℕ
push s inbuf =
    let len = push_len s inbuf in
    let size1 = s.size - s.push_at in
    if leb (length inbuf) 0
    then (s, 0)
    else (if ltb len size1
        then (
          record s {
            buf = copy s.buf s.push_at inbuf len;
            push_at = s.push_at + len;
            cnt = s.cnt + len;
          },
          len,
        )
        else (
          record s {
            buf = copy (copy s.buf s.push_at inbuf size1) 0 (drop size1 inbuf) (len - size1);
            push_at = len - size1;
            cnt = s.cnt + len;
          },
          len,
        ))

unfoldable pub pop_len : RingBuf → ℕ → ℕ
pop_len s len = if ltb s.cnt len then s.cnt else len

-- The result is the new state and the bytes.
unfoldable pub pop : RingBuf → ℕ → RingBuf × List ℕ
pop s n =
    let len = pop_len s n in
    let size1 = s.size - s.pop_at in
    if s.cnt == 0 || n == 0
    then (s, [])
    else (if ltb size1 len
        then (
          record s { pop_at = len - size1; cnt = s.cnt - len },
          slice s.buf s.pop_at size1 ++ slice s.buf 0 (len - size1),
        )
        else (record s { pop_at = s.pop_at + len; cnt = s.cnt - len }, slice s.buf s.pop_at len))
