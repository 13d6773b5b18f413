-- ===== src/Nus/Delivery.antt =====
-- The frames that the sending half queues, given to a receiving half in any pieces.
use lxmf_react_native_rust.Prelude.{
  ◌≤◌, ◌<◌, ◌≡◌, refl, sym, ap, ◌∙◌, ◌⊎◌, Option, some, List, [], ◌∷◌, ◌++◌, append-nil,
  append_assoc, arith, Bytes, lt→ltb, length, length-append,
}
use lxmf_react_native_rust.Framing.Kiss.{KissDeframer, new, feed, kiss_encode}
use lxmf_react_native_rust.Framing.Kiss.Stream.{feed-append}
use lxmf_react_native_rust.Framing.Kiss.RoundTrip.{encode_all, full, feed-encode_all_kiss}
use lxmf_react_native_rust.Nus.{
  Nus, nus_max_packet, nus_rx_queue_max, on_nus_rx, feed_all, payloads, parse_all, poll_rx,
  tx_packet, poll_tx,
}

-- A notification is queued at the end, or dropped if 64 are waiting; nothing queued is lost.
pub on_nus_rx_lem :
    (q : Nus) (contents : Bytes)
    → length q.rx_queue ≤ nus_rx_queue_max
    → let q' = on_nus_rx q contents in
      (length q'.rx_queue ≤ nus_rx_queue_max)
      × ((q'.rx_queue ≡ q.rx_queue) ⊎ (q'.rx_queue ≡ q.rx_queue ++ (contents ∷ [])))
      × (length q.rx_queue < nus_rx_queue_max → q'.rx_queue ≡ q.rx_queue ++ (contents ∷ []))
      × (q'.tx_queue ≡ q.tx_queue)
unfolding on_nus_rx
on_nus_rx_lem q contents h = (
  ground (arith, length-append q.rx_queue (contents ∷ [])),
  ground arith,
  (λ lt. rw (lt→ltb _ _ lt) refl),
  ground arith,
)

abbrev pub concat : List Bytes → Bytes
concat [] = []
concat (x ∷ xs) = x ++ concat xs

-- How the notifications cut the stream does not matter.
pub feed_all-concat :
    (d : KissDeframer) (raws : List Bytes) → feed_all d raws ≡ feed d (concat raws)
unfolding feed_all
feed_all-concat d [] = unfold feed in refl
feed_all-concat d (raw ∷ raws) =
    rw (feed_all-concat (feed d raw).0 raws, feed-append d raw (concat raws)) refl

module _ {Packet : Type 0} (deserialize : Bytes → Option Packet)
    (serialize : Packet → Option Bytes) where
  -- The packets that serialize to 1 to `NUS_MAX_PACKET` bytes which parse back to them.
  abbrev pub AllSendable : List Packet → List Bytes → Type 0
  AllSendable [] [] = Unit {0}
  AllSendable [] (p ∷ ps) = ⊥
  AllSendable (k ∷ ks) [] = ⊥
  AllSendable (k ∷ ks) (p ∷ ps) =
      (serialize k ≡ some p)
      × (deserialize p ≡ some k)
      × (1 ≤ length p)
      × (length p ≤ nus_max_packet)
      × AllSendable ks ps

  concat-append_one : (xs : List Bytes) (x : Bytes) → concat (xs ++ (x ∷ [])) ≡ concat xs ++ x
  concat-append_one [] x = append-nil x
  concat-append_one (y ∷ xs) x = rw (concat-append_one xs x) (sym (append_assoc y (concat xs) x))

  tx_packet_sendable :
      (q : Nus) (k : Packet) (p : Bytes)
      → serialize k ≡ some p
      → length p ≤ nus_max_packet
      → tx_packet deserialize serialize q k
        ≡ record q { tx_queue = q.tx_queue ++ (kiss_encode p ∷ []) }
  unfolding tx_packet
  tx_packet_sendable q k p h l = rw (h, tx_packet) (ground arith)

  poll_tx_stream :
      (q : Nus) (ks : List Packet) (ps : List Bytes)
      → AllSendable ks ps
      → concat (poll_tx deserialize serialize q ks).tx_queue ≡ concat q.tx_queue ++ encode_all ps
  unfolding poll_tx encode_all
  poll_tx_stream q [] [] s = sym (append-nil (concat q.tx_queue))
  poll_tx_stream q [] (p ∷ ps) s = absurd s
  poll_tx_stream q (k ∷ ks) [] s = absurd s
  poll_tx_stream q (k ∷ ks) (p ∷ ps) s =
      poll_tx_stream (tx_packet deserialize serialize q k) ks ps s.4
      ∙ ap (λ r. concat r.tx_queue ++ encode_all ps) (tx_packet_sendable q k p s.0 s.3)
      ∙ ap (λ c. c ++ encode_all ps) (concat-append_one q.tx_queue (kiss_encode p))
      ∙ append_assoc (concat q.tx_queue) (kiss_encode p) (encode_all ps)

  parse-payloads-full :
      (ks : List Packet) (ps : List Bytes)
      → AllSendable ks ps
      → parse_all deserialize serialize (payloads (full ps)) ≡ ks
  unfolding parse_all payloads
  parse-payloads-full [] [] s = refl
  parse-payloads-full [] (p ∷ ps) s = absurd s
  parse-payloads-full (k ∷ ks) [] s = absurd s
  parse-payloads-full (k ∷ ks) ([] ∷ ps) s = absurd (omega arith)
  parse-payloads-full (k ∷ ks) ((x ∷ p) ∷ ps) s = ground (arith, parse-payloads-full ks ps s.4)

  -- A list of packets that a round of the sending half takes from the transport comes out of a new
  -- receiving half as the same list, in whatever pieces `raws` the bytes of the sender's queue
  -- arrive. Each packet serializes to 1 to `NUS_MAX_PACKET` bytes, from which `deserialize` reads it
  -- back; the sender's queue is empty before.
  pub nus_packets_arrive :
      (q there : Nus) (ks : List Packet) (ps raws : List Bytes)
      → AllSendable ks ps
      → q.tx_queue ≡ []
      → there.rx_queue ≡ raws
      → concat raws ≡ concat (poll_tx deserialize serialize q ks).tx_queue
      → (poll_rx deserialize serialize there new).2 ≡ ks
  unfolding poll_rx
  nus_packets_arrive q there ks ps raws s hq hr hc =
      ap (λ fs. parse_all deserialize serialize (payloads fs))
        (ap (λ r. r.1) (ap (feed_all new) hr ∙ feed_all-concat new raws)
          ∙ ap (λ c. (feed new c).1)
              (hc ∙ poll_tx_stream q ks ps s ∙ ap (λ t. concat t ++ encode_all ps) hq)
          ∙ feed-encode_all_kiss ps)
      ∙ parse-payloads-full ks ps s
