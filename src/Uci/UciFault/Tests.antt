-- ===== src/Uci/UciFault/Tests.antt =====
-- An instance for src/uci/UciFault.cpp.
use gc.Common.{◌≡◌, refl, none, some, List, [], ◌∷◌, take, arith}
use gc.Uci.UciFault.{UciFault, FaultLog, blank, push, reset, make_log, logs_of, logs20_of}
use gc.Uci.UciFault.History.{History, fresh, pushed, logs_of-History, number}

-- A ring of two places into which three faults are pushed.
abbrev ring : UciFault
ring = record { fault_log = blank ∷ blank ∷ []; last_log = none }

abbrev one : UciFault
one = push 100 0 9 1 (some 0) (reset ring)

abbrev two : UciFault
two = push 200 1 7 1 (some 0) one

abbrev three : UciFault
three = push 300 1 7 0 (some 250) two

abbrev logs : List FaultLog
logs =
    make_log 1 (number (make_log 1 (number (make_log 0 0 9 1 100 ∷ [])) 7 1 200 ∷ [])) 7 0 250
    ∷ make_log 1 (number (make_log 0 0 9 1 100 ∷ [])) 7 1 200
    ∷ make_log 0 0 9 1 100
    ∷ []

history : History 2 three logs
history =
    pushed 300 1 7 0 250 two _
      (pushed 200 1 7 1 0 one _ (pushed 100 0 9 1 0 (reset ring) [] (fresh ring refl)))

logs_of-History_example : (logs_of three ≡ take 2 logs) × (logs20_of three ≡ take 20 (take 2 logs))
logs_of-History_example = logs_of-History 2 three logs (omega arith) history
