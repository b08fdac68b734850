-- ===== src/Layer/Nts/Sequence.antt =====
-- The sequence numbers of src/layer/LayerNTS.cpp.
use gc.Common.{ℕ, ◌≤◌, ◌<◌, ◌≡◌, ◌≢◌, refl, ap, ◌∙◌, true, false, some, List, arith, ◌==◌, ==_iff}
use gc.Layer.Nts.{on_line, Nts, UserCfg, Event, inc_n, tx, sequence}

-- The number behind a number is a byte, not 0, and another number.
pub inc_n-bounds : (n : ℕ) → n < 256 → (1 ≤ inc_n n) × (inc_n n < 256) × (inc_n n ≢ n)
unfolding inc_n
inc_n-bounds n h = ground arith

tx_online :
    (cfg : UserCfg) (s : Nts) (bytes : List ℕ)
    → s.session ≡ on_line
    → (s.addr == cfg.broadcast_id) ≡ false
    → tx cfg s bytes ≡ record s { events = (tx cfg s bytes).events; ns = inc_n s.ns }
unfolding tx
tx_online cfg s bytes on other = rw (on, other) refl

step_back :
    (s : Nts) (evs : List Event)
    → s.nr < 256
    → s.ns < 256
    → sequence (record s { nr = inc_n s.nr; events = evs; ns = inc_n s.ns }) (some s.nr) (some s.ns)
      ≡ some (record s { nr = inc_n s.nr; events = evs })
unfolding sequence
step_back s evs hr hs =
    let other : (s.nr == inc_n s.nr) ≡ false = ground (arith, inc_n-bounds s.nr hr) in
    let nr_back : (inc_n s.nr == inc_n s.nr) ≡ true = (==_iff _ _).1 refl in
    let ns_back : (inc_n s.ns == inc_n s.ns) ≡ true = (==_iff _ _).1 refl in
    rw (other, nr_back, ns_back) refl

-- On a link that is on line, whose last packet was for the device and not for the broadcast
-- address, the master repeats a command with the same numbers since it lost the answer: then the
-- numbers, which are bytes, step back to where they were before the answer, and nothing else
-- changes but the packet that was sent.
pub sequence-repeated :
    (cfg : UserCfg) (s : Nts) (bytes : List ℕ)
    → s.session ≡ on_line
    → s.nr < 256
    → s.ns < 256
    → (s.addr == cfg.broadcast_id) ≡ false
    → sequence (tx cfg (record s { nr = inc_n s.nr }) bytes) (some s.nr) (some s.ns)
      ≡ some (record s {
        nr = inc_n s.nr;
        events = (tx cfg (record s { nr = inc_n s.nr }) bytes).events;
      })
sequence-repeated cfg s bytes on hr hs other =
    ap (λ t. sequence t (some s.nr) (some s.ns))
      (tx_online cfg (record s { nr = inc_n s.nr }) bytes on other)
    ∙ step_back s _ hr hs
