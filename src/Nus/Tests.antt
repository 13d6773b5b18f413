-- ===== src/Nus/Tests.antt =====
-- The theorem on the RNode interface at a concrete input: two packets, whose bytes arrive in pieces
-- that cut through a frame.
use lxmf_react_native_rust.Prelude.{◌≡◌, refl, some, List, [], ◌∷◌, arith, Bytes}
use lxmf_react_native_rust.Framing.Kiss.{new, kiss_encode, stuff, stuff_byte}
use lxmf_react_native_rust.Nus.{poll_tx, tx_packet, poll_rx}
use lxmf_react_native_rust.Nus.Delivery.{nus_packets_arrive}

abbrev first : Bytes
first = 1 ∷ 0xc0 ∷ []

abbrev second : Bytes
second = 0xdb ∷ 5 ∷ []

abbrev pieces : List Bytes
pieces =
    (0xc0 ∷ 0 ∷ 1 ∷ 0xdb ∷ []) ∷ (0xdc ∷ 0xc0 ∷ 0xc0 ∷ []) ∷ (0 ∷ 0xdb ∷ 0xdd ∷ 5 ∷ 0xc0 ∷ []) ∷ []

nus_packets_arrive_example :
    (poll_rx some some (record { rx_queue = pieces; tx_queue = [] }) new).2 ≡ first ∷ second ∷ []
unfolding poll_tx tx_packet kiss_encode stuff stuff_byte
nus_packets_arrive_example =
    nus_packets_arrive some some (record { rx_queue = []; tx_queue = [] })
      (record { rx_queue = pieces; tx_queue = [] }) (first ∷ second ∷ []) (first ∷ second ∷ [])
      pieces (refl, refl, omega arith, omega arith, (refl, refl, omega arith, omega arith, tt)) refl
      refl refl
