-- ===== src/Ble/Worker.antt =====
-- rust-core/src/ble_iface.rs: the two halves of one round of `BleInterface::spawn`, which runs every
-- 10 ms. `Packet::deserialize` and `Packet::serialize` belong to rns-transport and are parameters:
-- `none` is their error. The packets sent to `rx_channel` are the result of the receiving half; the
-- packets that `tx_channel` holds are the argument of the sending half.
pub mod Assembly
pub mod Delivery
pub mod Sending
use lxmf_react_native_rust.Prelude.{
  ℕ, zero, suc, ◌+◌, ◌-◌, ◌*◌, ◌/◌, ◌%◌, ◌^◌, ◌≤◌, ◌<◌, min, max, ◌≡◌, refl, sym, ap, ap₂, ◌∙◌, ◌≢◌,
  ◌↔◌, ◌⊎◌, inl, inr, Bool, true, false, not, ◌&&◌, ◌||◌, Option, none, some, List, [], ◌∷◌, ◌++◌,
  map, append-nil, append_assoc, arith, Bytes, IsByte, ltb, leb, ◌==◌, if◌then◌else◌, ltb→lt,
  lt→ltb, leb→le, le→leb, ==_iff, Bool-cases, Option-cases, bytes_eq, bytes_eq→eq, bytes_eq_refl,
  starts_with, starts_with-append, length, get_elem?, set, get_or, take, drop, replicate,
  length-append, length-take, length-drop, length-replicate, length-map, length-set,
  take-append-drop, get_elem?-set_self, get_elem?-set_ne,
}
use lxmf_react_native_rust.Prelude.Map.{Eq, bytes_Eq, lookup, insert, remove}
use lxmf_react_native_rust.Framing.Hdlc.{HdlcDeframer, feed, hdlc_encode}
use lxmf_react_native_rust.Ble.Segment.{PeerAssembly, new, push, segment_with_payload, seg_header}
use lxmf_react_native_rust.Ble.Queues.{Addr, Ble, BleRxFrame, BleTxFrame, peer_mtu}

abbrev pub ble_max_packet : ℕ
ble_max_packet = 500

-- The worker's own state.
pub record Worker : Type 0 where
  pub assembly : List (Addr × PeerAssembly)
  pub deframer : HdlcDeframer

-- `entry(..).or_insert_with(..)`, and the reset on another count: the state that `push` runs on,
-- from the entry of the peer.
unfoldable pub current : Option PeerAssembly → ℕ → PeerAssembly
current none total = new total
current (some state) total = if state.total_segs == total then state else new total

-- The entry is written back, and removed if `push` completed the payload.
unfoldable pub settle :
    List (Addr × PeerAssembly)
    → Addr
    → PeerAssembly × Option Bytes
    → List (Addr × PeerAssembly) × Option Bytes
settle table peer (state, none) = (insert peer state table, none)
settle table peer (state, some p) = (remove peer (insert peer state table), some p)

-- A further segment of several: the table, and the payload if it is complete.
unfoldable pub add_segment :
    List (Addr × PeerAssembly) → Addr → ℕ → ℕ → Bytes → List (Addr × PeerAssembly) × Option Bytes
add_segment table peer idx total payload =
    settle table peer (push (current (lookup peer table) total) idx payload)

-- `full_hdlc` of one frame: the new table, and the payload if the frame completes one. A frame
-- shorter than its header is dropped.
unfoldable pub reassemble :
    List (Addr × PeerAssembly) → Addr → Bytes → List (Addr × PeerAssembly) × Option Bytes
unfolding add_segment settle
reassemble table peer [] = (table, none)
reassemble table peer (seg_idx ∷ []) = (table, none)
reassemble table peer (seg_idx ∷ total_seg ∷ payload) =
    if total_seg == 1
    then (remove peer table, some payload)
    else add_segment table peer seg_idx total_seg payload

-- What the deframer makes of a payload that is complete.
unfoldable pub deframe : Worker → Option Bytes → Worker × List Bytes
deframe w none = (w, [])
deframe w (some hdlc) = let (d, raws) = feed w.deframer hdlc in (record w { deframer = d }, raws)

-- One frame: the worker after it, and the raw packets that it completes.
unfoldable pub rx_frame : Worker → BleRxFrame → Worker × List Bytes
unfolding deframe
rx_frame w frame =
    let (table, full) = reassemble w.assembly frame.peer_addr frame.contents in
    deframe (record w { assembly = table }) full

unfoldable pub rx_frames : Worker → List BleRxFrame → Worker × List Bytes
rx_frames w [] = (w, [])
rx_frames w (frame ∷ rest) =
    let (w', raws) = rx_frame w frame in let (w'', more) = rx_frames w' rest in (w'', raws ++ more)

-- The frames of the segments for one peer.
unfoldable pub frames_for : Addr → List Bytes → List BleTxFrame
frames_for peer [] = []
frames_for peer (seg ∷ segs) = record { peer_addr = peer; contents = seg } ∷ frames_for peer segs

-- `write_limit.saturating_sub(SEG_HEADER).max(1)`
abbrev pub seg_size_for : Ble → Addr → ℕ
seg_size_for b peer = max (peer_mtu b peer - seg_header) 1

unfoldable pub frames_for_peers : Ble → List Addr → Bytes → List BleTxFrame
frames_for_peers b [] hdlc = []
frames_for_peers b (peer ∷ peers) hdlc =
    frames_for peer (segment_with_payload hdlc (seg_size_for b peer))
    ++ frames_for_peers b peers hdlc

module _ {Packet : Type 0} (deserialize : Bytes → Option Packet)
    (serialize : Packet → Option Bytes) where
  unfoldable pub parse_all : List Bytes → List Packet
  parse_all [] = []
  parse_all (raw ∷ raws) =
      let rest = parse_all raws in elim (deserialize raw) [ none ↦ rest | some p ↦ p ∷ rest ]

  -- The receiving half of a round: it drains the queue.
  unfoldable pub poll_rx : Ble → Worker → Ble × Worker × List Packet
  poll_rx b w =
      let (w', raws) = rx_frames w b.rx_queue in (record b { rx_queue = [] }, w', parse_all raws)

  unfoldable pub tx_packet : Ble → Packet → Ble
  tx_packet b packet = elim (serialize packet) [
    | none ↦ b
    | some serialized ↦ if ltb ble_max_packet (length serialized) then b else record b {
      tx_queue = b.tx_queue ++ frames_for_peers b b.peers (hdlc_encode serialized);
    }
  ]

  -- The sending half of a round.
  unfoldable pub poll_tx : Ble → List Packet → Ble
  poll_tx b [] = b
  poll_tx b (packet ∷ rest) = poll_tx (tx_packet b packet) rest
