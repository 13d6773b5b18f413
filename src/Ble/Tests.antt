-- ===== src/Ble/Tests.antt =====
-- The theorems on the BLE interface at concrete inputs: two peers, the first with a write limit of
-- seven bytes.
use lxmf_react_native_rust.Prelude.{
  ◌≤◌, ◌≡◌, refl, none, some, List, [], ◌∷◌, ◌++◌, arith, Bytes, replicate,
}
use lxmf_react_native_rust.Prelude.Map.{bytes_Eq, lookup}
use lxmf_react_native_rust.Framing.Hdlc.{hdlc_encode, new}
use lxmf_react_native_rust.Framing.Hdlc.RoundTrip.{collecting, flushed}
use lxmf_react_native_rust.Ble.Segment
use lxmf_react_native_rust.Ble.Segment.{
  ble_mtu, seg_header, PeerAssembly, segment, segment_with_payload, segs_of,
}
use lxmf_react_native_rust.Ble.Queues.{peer_mtu, Addr, Ble, rx_pps_limit, contains}
use lxmf_react_native_rust.Ble.Queues.Limits.{accepted, accepted-le-limit}
use lxmf_react_native_rust.Ble.Worker.{current, rx_frames, seg_size_for, poll_rx, tx_packet}
use lxmf_react_native_rust.Ble.Worker.Assembly.{second_half}
use lxmf_react_native_rust.Ble.Worker.Delivery.{arrivals, worker, deliver_packet}
use lxmf_react_native_rust.Ble.Worker.Sending.{written_to, tx_packet_lem, packet_arrives}

abbrev anna : Addr
anna = 0xaa ∷ 1 ∷ []

abbrev bert : Addr
bert = 0xbb ∷ 2 ∷ []

abbrev ble : Ble
ble = record {
  rx_queue = [];
  tx_queue = [];
  peers = anna ∷ bert ∷ [];
  rate = [];
  mtu = (anna, 7) ∷ [];
}

abbrev packet : Bytes
packet = 1 ∷ 0x7e ∷ 2 ∷ 0x7d ∷ 3 ∷ 4 ∷ []

abbrev there : Ble
there = record {
  rx_queue = arrivals bert (written_to anna (tx_packet some some ble packet).tx_queue);
  tx_queue = [];
  peers = [];
  rate = [];
  mtu = [];
}

packet_arrives_example :
    ((poll_rx some some there (worker [] new)).2 ≡ packet ∷ [])
    × ((poll_rx some some there (worker [] new)).0.rx_queue ≡ [])
unfolding contains written_to peer_mtu lookup Segment.new current
packet_arrives_example =
    packet_arrives some some ble there packet packet anna bert [] new refl refl (omega arith)
      (omega arith) (refl, (refl, tt)) refl refl (omega arith) refl refl refl

tx_packet_lem_example :
    written_to anna (tx_packet some some ble packet).tx_queue
    ≡ written_to anna [] ++ segment_with_payload (hdlc_encode packet) (seg_size_for ble anna)
unfolding contains
tx_packet_lem_example = tx_packet_lem some some ble packet anna (refl, (refl, tt))

deliver_packet_example :
    (table' : List (Addr × PeerAssembly)) × (rx_frames
        (worker [] new)
        (arrivals anna (segment_with_payload (hdlc_encode packet) 4))
      ≡ (worker table' (collecting []), flushed new ++ flushed (collecting packet)))
    × (lookup anna table' ≡ none)
unfolding Segment.new current lookup
deliver_packet_example = deliver_packet [] anna new packet 4 (omega arith) (omega arith) refl

abbrev long : Bytes
long = replicate 243 7

accepted-le-limit_example : accepted ble anna (5 ∷ 6 ∷ 900 ∷ []) ≤ rx_pps_limit
unfolding lookup
accepted-le-limit_example =
    accepted-le-limit ble anna 5 (6 ∷ 900 ∷ []) refl
      (omega arith, omega arith, (omega arith, omega arith, (omega arith, omega arith, tt)))

abbrev carl : Addr
carl = 0xcc ∷ []

abbrev half_done : List (Addr × PeerAssembly)
half_done = (anna, second_half (9 ∷ [])) ∷ []
