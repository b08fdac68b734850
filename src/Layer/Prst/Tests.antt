-- ===== src/Layer/Prst/Tests.antt =====
-- An instance for src/layer/LayerPrst.cpp.
use gc.Common.{ℕ, ◌≡◌, refl, some, List, [], ◌∷◌}
use gc.Utils.Cnvt.{bytes_to_asc}
use gc.Layer.Prst.{tx}

abbrev bytes : List ℕ
bytes = 1 ∷ 0xab ∷ []

sent : tx 8 bytes ≡ some (bytes_to_asc bytes)
unfolding tx
sent = refl
