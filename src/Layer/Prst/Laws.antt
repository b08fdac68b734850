-- ===== src/Layer/Prst/Laws.antt =====
-- Rx and Tx of src/layer/LayerPrst.cpp, one against the other.
use gc.Common.{ℕ, ◌≤◌, ◌≡◌, some, List, [], ◌∷◌, arith, length}
use gc.Utils.Cnvt.{bytes_to_asc}
use gc.Utils.Cnvt.Hex.{AreBytes, length-bytes_to_asc, parse_bytes-bytes_to_asc}
use gc.Layer.Prst.{rx, tx}

some-tx :
    (maxlen : ℕ) (bs text : List ℕ)
    → tx maxlen bs ≡ some text
    → (1 ≤ length bs) × (length bs ≤ maxlen) × (text ≡ bytes_to_asc bs)
unfolding tx
some-tx maxlen bs text h = ground arith

-- A message of bytes that Tx hands down as text is what Rx hands up when it gets that text.
pub rx-tx :
    (maxlen : ℕ) (bs text : List ℕ)
    → AreBytes bs
    → tx maxlen bs ≡ some text
    → rx maxlen text ≡ some bs
unfolding rx
rx-tx maxlen [] text h e = absurd (omega (arith, (some-tx maxlen [] text e).0))
rx-tx maxlen (b ∷ bs) text h e = ground (
  arith,
  some-tx maxlen (b ∷ bs) text e,
  length-bytes_to_asc (b ∷ bs),
  parse_bytes-bytes_to_asc b bs h,
)
