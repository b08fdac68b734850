-- ===== src/Module/RingBuf/Tests.antt =====
-- An instance for include/module/RingBuf.h.
use gc.Common.{◌≡◌, refl, List, [], ◌∷◌, arith}
use gc.Tsisp003.Memory.{holding}
use gc.Module.RingBuf.{RingBuf, push, push_len, vacancy, copy, pop, pop_len}
use gc.Module.RingBuf.Queue.{IsValid}
use gc.Module.RingBuf.Fifo.{
  Operation, put, get, taken, given, answers, queue_answers, queue, answers-queue,
}

-- Two bytes wait, of which the second stands at the start of the buffer.
abbrev wrapped : RingBuf
wrapped = record { buf = holding (7 ∷ 0 ∷ 0 ∷ 6 ∷ []); size = 4; push_at = 1; pop_at = 3; cnt = 2 }

wrapped-IsValid : IsValid wrapped
wrapped-IsValid = record {
  pop_bound = omega arith;
  cnt_bound = omega arith;
  push_bound = omega arith;
  push_place = refl;
}

abbrev some_calls : List Operation
some_calls = put (8 ∷ 9 ∷ 10 ∷ []) ∷ get 3 ∷ put (11 ∷ 12 ∷ 13 ∷ []) ∷ get 9 ∷ []

answers-queue_example : answers some_calls wrapped ≡ queue_answers 4 some_calls (queue wrapped)
answers-queue_example = answers-queue some_calls wrapped wrapped-IsValid

-- The first call takes two bytes, since two already wait.
answered :
    answers some_calls wrapped
    ≡ taken 2 ∷ given (6 ∷ 7 ∷ 8 ∷ []) ∷ taken 3 ∷ given (9 ∷ 11 ∷ 12 ∷ 13 ∷ []) ∷ []
unfolding answers push push_len vacancy pop pop_len copy
answered = refl
