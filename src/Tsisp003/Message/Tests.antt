-- ===== src/Tsisp003/Message/Tests.antt =====
-- Runs and instances for src/tsisp003/Message.cpp.
use gc.Common.{ℕ, ◌≡◌, ◌+◌, ◌*◌, ◌≤◌, ◌<◌, ◌⊎◌, refl, Bool, List, [], ◌∷◌, ◌==◌}
use gc.Utils.Cnvt.Hex.{are_bytes-AreBytes}
use gc.Tsisp003.Memory.{IsBytes, holding, holding-IsBytes}
use gc.Tsisp003.AppError.{app_no_error}
use gc.Tsisp003.Message.{Message, blank, init, scan, check_entries}
use gc.Tsisp003.Message.Laws.{IsValid, init-IsValid}

-- Message 1, revision 2: frame 5 for a second.
abbrev pub packet : List ℕ
packet = 0x0c ∷ 1 ∷ 2 ∷ 10 ∷ 5 ∷ 10 ∷ 0 ∷ 0x3f ∷ 0xd8 ∷ []

abbrev pub size : ℕ
size = 9

abbrev pub frames : ℕ → Bool
frames i = i == 5

pub packet-IsBytes : IsBytes (holding packet)
packet-IsBytes = holding-IsBytes packet (are_bytes-AreBytes packet refl)

abbrev pub message : Message
message = (init frames (holding packet) size blank).1

pub accepted : init frames (holding packet) size blank ≡ (app_no_error, message)
unfolding init check_entries scan
accepted = refl

init-IsValid_example :
    IsValid frames message
    × (message.entries ≤ 6)
    × (((message.entries ≡ 6) × (size ≡ 18))
        ⊎ ((message.entries < 6) × (size ≡ 7 + 2 * message.entries)))
init-IsValid_example = init-IsValid frames (holding packet) size blank message refl accepted
