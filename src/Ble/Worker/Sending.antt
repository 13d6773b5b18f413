-- ===== src/Ble/Worker/Sending.antt =====
-- The sending half: what it puts on the queue for each peer, and the whole way of a packet from one
-- node's transport to another's.
use lxmf_react_native_rust.Prelude.{
  ◌≤◌, ◌≡◌, refl, sym, ap, ◌∙◌, inl, inr, true, false, ◌&&◌, Option, none, some, List, [], ◌∷◌,
  ◌++◌, append-nil, arith, Bytes, leb, if◌then◌else◌, le→leb, Option-cases, bytes_eq, length,
}
use lxmf_react_native_rust.Framing.Hdlc.{HdlcDeframer, hdlc_encode}
use lxmf_react_native_rust.Framing.Hdlc.RoundTrip.{collecting, flushed}
use lxmf_react_native_rust.Ble.Segment.{PeerAssembly, segs_of, segment_with_payload}
use lxmf_react_native_rust.Prelude.Map.{bytes_eq_iff}
use lxmf_react_native_rust.Ble.Queues.{Addr, Ble, BleRxFrame, BleTxFrame, peer_mtu, contains}
use lxmf_react_native_rust.Ble.Queues.Peers.{NoDuplicates}
use lxmf_react_native_rust.Ble.Worker.{
  Worker, ble_max_packet, frames_for, frames_for_peers, seg_size_for, rx_frames, parse_all, poll_rx,
  tx_packet,
}
use lxmf_react_native_rust.Ble.Worker.Delivery.{arrivals, worker, IsFresh, deliver_packet}

-- What Kotlin writes to one peer, in order.
unfoldable pub written_to : Addr → List BleTxFrame → List Bytes
written_to peer [] = []
written_to peer (f ∷ fs) =
    let rest = written_to peer fs in if bytes_eq f.peer_addr peer then f.contents ∷ rest else rest

written_to-append :
    (peer : Addr) (xs ys : List BleTxFrame)
    → written_to peer (xs ++ ys) ≡ written_to peer xs ++ written_to peer ys
unfolding written_to
written_to-append peer [] ys = refl
written_to-append peer (f ∷ fs) ys = ground (arith, written_to-append peer fs ys)

written_to-frames_for :
    (peer other : Addr) (segs : List Bytes)
    → written_to peer (frames_for other segs) ≡ (if bytes_eq other peer then segs else [])
unfolding written_to frames_for
written_to-frames_for peer other [] = ground arith
written_to-frames_for peer other (s ∷ segs) = ground (arith, written_to-frames_for peer other segs)

written_to-peers_absent :
    (b : Ble) (peer : Addr) (peers : List Addr) (hdlc : Bytes)
    → contains peers peer ≡ false
    → written_to peer (frames_for_peers b peers hdlc) ≡ []
unfolding frames_for_peers contains
written_to-peers_absent b peer [] hdlc h = unfold written_to in refl
written_to-peers_absent b peer (q ∷ peers) hdlc h = ground (
  arith,
  written_to-append peer (frames_for q (segment_with_payload hdlc (seg_size_for b q)))
      (frames_for_peers b peers hdlc),
  written_to-frames_for peer q (segment_with_payload hdlc (seg_size_for b q)),
  written_to-peers_absent b peer peers hdlc,
)

written_to-peers :
    (b : Ble) (peer : Addr) (peers : List Addr) (hdlc : Bytes)
    → NoDuplicates peers
    → contains peers peer ≡ true
    → written_to peer (frames_for_peers b peers hdlc)
      ≡ segment_with_payload hdlc (seg_size_for b peer)
unfolding frames_for_peers contains
written_to-peers b peer [] hdlc n h = cc
written_to-peers b peer (q ∷ peers) hdlc n h = ground (
  arith,
  bytes_eq_iff q peer,
  append-nil (segment_with_payload hdlc (seg_size_for b peer)),
  written_to-append peer (frames_for q (segment_with_payload hdlc (seg_size_for b q)))
      (frames_for_peers b peers hdlc),
  written_to-frames_for peer q (segment_with_payload hdlc (seg_size_for b q)),
  written_to-peers_absent b peer peers hdlc,
  written_to-peers b peer peers hdlc n.1,
)

module _ {Packet : Type 0} (deserialize : Bytes → Option Packet)
    (serialize : Packet → Option Bytes) where
  -- With no peer listed twice, sending a packet that serializes to at most `BLE_MAX_PACKET` bytes adds,
  -- for each connected peer,
  -- the segments of its HDLC frame at that peer's write limit, and nothing for anybody else; a packet
  -- that is longer, or does not serialize, adds nothing at all.
  pub tx_packet_lem :
      (b : Ble) (packet : Packet) (peer : Addr)
      → NoDuplicates b.peers
      → written_to peer (tx_packet deserialize serialize b packet).tx_queue
        ≡ written_to peer b.tx_queue ++ (elim (serialize packet) [
          | none ↦ []
          | some p ↦
              if leb (length p) ble_max_packet && contains b.peers peer
              then segment_with_payload (hdlc_encode p) (seg_size_for b peer)
              else []
        ])
  unfolding tx_packet
  tx_packet_lem b packet peer n = elim (Option-cases (serialize packet)) [
    | inl e ↦ rw (e, tx_packet) (sym (append-nil (written_to peer b.tx_queue)))
    | inr (p, e) ↦
        rw (e, tx_packet)
          (ground (
            arith,
            append-nil (written_to peer b.tx_queue),
            written_to-append peer b.tx_queue (frames_for_peers b b.peers (hdlc_encode p)),
            written_to-peers b peer b.peers (hdlc_encode p) n,
            written_to-peers_absent b peer b.peers (hdlc_encode p),
          ))
  ]

  parse_one :
      (p : Bytes) (packet : Packet)
      → deserialize p ≡ some packet
      → 1 ≤ length p
      → parse_all deserialize serialize (flushed (collecting p)) ≡ packet ∷ []
  unfolding parse_all
  parse_one [] packet h l = absurd (omega arith)
  parse_one (x ∷ p) packet h l = ground arith

  poll_rx_of_frames :
      (b : Ble) (w w' : Worker) (frames : List BleRxFrame) (raws : List Bytes)
      → b.rx_queue ≡ frames
      → rx_frames w frames ≡ (w', raws)
      → poll_rx deserialize serialize b w
        ≡ (record b { rx_queue = [] }, w', parse_all deserialize serialize raws)
  unfolding poll_rx
  poll_rx_of_frames b w w' frames raws hq h =
      ap (λ r. (record b { rx_queue = [] }, r.0, parse_all deserialize serialize r.1))
        (ap (rx_frames w) hq ∙ h)

  -- A packet of 1 to `BLE_MAX_PACKET` bytes that one node's transport sends to a connected peer with a
  -- write limit of at least 6 bytes comes out of the peer's receiving half as exactly that packet,
  -- and the peer's queue is empty then. The peer's deframer has no unfinished frame and its table no
  -- half assembled message of that count; it has received all frames, from the address `me`;
  -- `deserialize` reads back what `serialize` wrote.
  pub packet_arrives :
      (b there : Ble) (packet : Packet) (p : Bytes) (peer me : Addr)
      (table : List (Addr × PeerAssembly)) (d : HdlcDeframer)
      → serialize packet ≡ some p
      → deserialize p ≡ some packet
      → 1 ≤ length p
      → length p ≤ ble_max_packet
      → NoDuplicates b.peers
      → contains b.peers peer ≡ true
      → written_to peer b.tx_queue ≡ []
      → 6 ≤ peer_mtu b peer
      → flushed d ≡ []
      → IsFresh table me (segs_of (length (hdlc_encode p)) (seg_size_for b peer))
      → there.rx_queue
        ≡ arrivals me (written_to peer (tx_packet deserialize serialize b packet).tx_queue)
      → ((poll_rx deserialize serialize there (worker table d)).2 ≡ packet ∷ [])
        × ((poll_rx deserialize serialize there (worker table d)).0.rx_queue ≡ [])
  packet_arrives b there packet p peer me table d hs hd lo hi n hc hq hm hf fresh arrived =
      let (table', e, _) =
        deliver_packet table me d p (seg_size_for b peer) hi (omega arith) fresh in
      let polled =
        poll_rx_of_frames there (worker table d) (worker table' (collecting [])) _
          (flushed d ++ flushed (collecting p)) (arrived ∙ ap (arrivals me) sent) e in
      (
        ap (λ r. r.2) polled
            ∙ ap (λ f. parse_all deserialize serialize (f ++ flushed (collecting p))) hf
            ∙ parse_one p packet hd lo,
        ap (λ r. r.0.rx_queue) polled,
      )
    where
      sent :
          written_to peer (tx_packet deserialize serialize b packet).tx_queue
          ≡ segment_with_payload (hdlc_encode p) (seg_size_for b peer)
      sent =
          tx_packet_lem b packet peer n ∙ rw (hq, hs, le→leb (length p) ble_max_packet hi, hc) refl
