-- ===== src/Layer/Prst.antt =====
-- Class LayerPrst of src/layer/LayerPrst.cpp: a message of bytes travels as hexadecimal text.
pub mod Laws
mod Tests
use gc.Common.{
  ℕ, ◌*◌, ◌||◌, Bool, true, false, Option, none, some, List, ltb, leb, if◌then◌else◌, length,
}
use gc.Utils.Cnvt.{parse_bytes, bytes_to_asc}

-- What goes to the upper layer; `none` stands for the result -1, with which nothing goes on.
unfoldable pub rx : ℕ → List ℕ → Option (List ℕ)
rx maxlen bytes =
    let parsed = parse_bytes bytes in
    if ltb (maxlen * 2) (length bytes) then none else (if parsed.1 then some parsed.0 else none)

-- What goes to the lower layer.
unfoldable pub tx : ℕ → List ℕ → Option (List ℕ)
tx maxlen bytes =
    if leb (length bytes) 0 || ltb maxlen (length bytes) then none else some (bytes_to_asc bytes)
