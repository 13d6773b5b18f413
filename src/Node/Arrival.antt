-- ===== src/Node/Arrival.antt =====
-- A message that was queued is delivered with the next announce of its peer.
use lxmf_react_native_rust.Prelude.{
  subst, ℕ, ◌≤◌, ◌<◌, ◌≡◌, refl, sym, ap, ◌∙◌, inl, inr, Bool, true, false, ◌&&◌, some, List, [],
  ◌∷◌, ◌++◌, append-nil, append_assoc, Bytes, lt→ltb, Bool-cases, bytes_eq, bytes_eq_refl, length,
  take,
}
use lxmf_react_native_rust.Prelude.Map.{bytes_Eq, insert}
use lxmf_react_native_rust.Node.{LxmfEvent, PendingSend, Network, LxmfNode, attempt}
use lxmf_react_native_rust.Node.Pending.{
  sends_to, others, flush_result, flush, on_announce_ble, announced,
}
use lxmf_react_native_rust.Node.Flush.{
  AllTo, sends_to-AllTo, delivered_events, AllWhole, long_enough,
}
use lxmf_react_native_rust.Node.Send.{pending_cap, enqueue_in, queue_send}

sends_to-append :
    (dh : Bytes) (xs ys : List PendingSend)
    → sends_to dh (xs ++ ys) ≡ sends_to dh xs ++ sends_to dh ys
unfolding sends_to
sends_to-append dh [] ys = refl
sends_to-append dh (x ∷ xs) ys = elim (Bool-cases (bytes_eq x.dest dh)) [
  | inl h ↦ rw (h, sends_to-append dh xs ys) refl
  | inr h ↦ rw (h, sends_to-append dh xs ys) refl
]

others-append :
    (dh : Bytes) (xs ys : List PendingSend) → others dh (xs ++ ys) ≡ others dh xs ++ others dh ys
unfolding others
others-append dh [] ys = refl
others-append dh (x ∷ xs) ys = elim (Bool-cases (bytes_eq x.dest dh)) [
  | inl h ↦ rw (h, others-append dh xs ys) refl
  | inr h ↦ rw (h, others-append dh xs ys) refl
]

sends_to-own : (p : PendingSend) → sends_to p.dest (p ∷ []) ≡ p ∷ []
unfolding sends_to
sends_to-own p = rw (bytes_eq_refl p.dest) refl

others-own : (p : PendingSend) → others p.dest (p ∷ []) ≡ []
unfolding others
others-own p = rw (bytes_eq_refl p.dest) refl

AllWhole-snoc :
    (ps : List PendingSend) (p : PendingSend)
    → AllWhole ps
    → 16 ≤ length p.lxmf_payload
    → AllWhole (ps ++ (p ∷ []))
AllWhole-snoc [] p w l = (l, tt)
AllWhole-snoc (q ∷ qs) p (x, w) l = (x, AllWhole-snoc qs p w l)

module _ (net : Network) where
  open net use {Transport, DestinationDesc, hex_encode}

  -- In the states of `Up` every attempt to a known peer delivers, and the next state is one of them.
  abbrev pub StaysUp : (Transport → Type 0) → Type 0
  StaysUp Up =
      (t : Transport) (dest : Bytes) (desc : DestinationDesc) (payload : Bytes)
      → Up t
      → ((attempt net t dest (some desc) payload).1 ≡ true)
        × Up (attempt net t dest (some desc) payload).0

  abbrev Cleared :
      Bytes → List PendingSend → List LxmfEvent → List PendingSend → LxmfNode net → Type 0
  Cleared dh queue events ps m =
      (m.pending_sends ≡ queue) × (m.events ≡ events ++ delivered_events net ps)

  flush_up :
      (Up : Transport → Type 0) (n : LxmfNode net) (dh : Bytes) (desc : DestinationDesc)
      (ps : List PendingSend)
      → StaysUp Up
      → AllTo dh ps
      → AllWhole ps
      → Up n.transport
      → Cleared dh n.pending_sends n.events ps (flush net n dh desc ps).0
        × ((flush net n dh desc ps).1 ≡ true)
  unfolding flush flush_result
  flush_up Up n dh desc [] stays a w up = ((refl, sym (append-nil n.events)), refl)
  flush_up Up n dh desc (p ∷ ps) stays a w up =
      let at = stays n.transport (take 16 p.lxmf_payload) desc p.lxmf_payload up in
      let m =
        flush_result net
          (record n {
            transport =
                (attempt net n.transport (take 16 p.lxmf_payload) (some desc) p.lxmf_payload).0;
          })
          dh p true in
      let ((same, more), on) = flush_up Up m dh desc ps stays a.1 w.1 at.1 in
      rw (flush, at.0, long_enough p w.0)
        (
          (
            same,
            more
                ∙ append_assoc n.events (LxmfEvent.message_delivered p.seq (hex_encode dh) ∷ [])
                    (delivered_events net ps)
                ∙ ap
                    (λ d.
                      n.events
                      ++ (LxmfEvent.message_delivered p.seq (hex_encode d)
                          ∷ delivered_events net ps))
                    (sym (a.0)),
          ),
          on,
        )

  delivered_events-append :
      (xs ys : List PendingSend)
      → delivered_events net (xs ++ ys) ≡ delivered_events net xs ++ delivered_events net ys
  delivered_events-append [] ys = refl
  delivered_events-append (x ∷ xs) ys =
      ap (λ es. LxmfEvent.message_delivered x.seq (hex_encode x.dest) ∷ es)
        (delivered_events-append xs ys)

  Cleared-announced :
      (dh app_data : Bytes) (hops : ℕ) (queue : List PendingSend) (events more : List LxmfEvent)
      (r : LxmfNode net × Bool)
      → r.0.pending_sends ≡ queue
      → r.0.events ≡ events ++ more
      → r.1 ≡ true
      → let (m, on) = announced net dh app_data hops r in
        (m.pending_sends ≡ queue)
        × (m.events ≡ (events ++ more) ++ (LxmfEvent.announce_received dh app_data hops ∷ []))
        × (on ≡ true)
  unfolding announced
  Cleared-announced dh app_data hops queue events more (m, true) q e on =
      (q, ap (λ es. es ++ (LxmfEvent.announce_received dh app_data hops ∷ [])) e, refl)
  Cleared-announced dh app_data hops queue events more (m, false) q e on = cc

  -- A message of at least 16 bytes is queued that could not be sent, the queue has room for it, and the
  -- sends to the peer in the queue are of at least 16 bytes. The peer announces itself while the
  -- transport is up and stays so: then no send to the peer is left in the queue, those to others are
  -- as they were, and the deliveries of the earlier sends to the peer and of this message are reported,
  -- in this order, between the queuing and the announce; and the announce receiver goes on.
  pub queue_send-arrives :
      (Up : Transport → Type 0) (n : LxmfNode net) (capped : Bool) (seq : ℕ)
      (dest dest_hex payload : Bytes) (now : ℕ) (desc : DestinationDesc) (app_data : Bytes)
      (hops : ℕ)
      → StaysUp Up
      → Up n.transport
      → length n.pending_sends < pending_cap
      → 16 ≤ length payload
      → AllWhole (sends_to dest n.pending_sends)
      → let (m, on) =
          on_announce_ble net
            (queue_send net n capped seq dest dest_hex payload now)
            dest
            desc
            app_data
            hops in
        (m.pending_sends ≡ others dest n.pending_sends)
        × (m.events
            ≡ ((n.events ++ (LxmfEvent.message_queued seq dest_hex ∷ []))
                ++ (delivered_events net (sends_to dest n.pending_sends)
                    ++ (LxmfEvent.message_delivered seq (hex_encode dest) ∷ [])))
              ++ (LxmfEvent.announce_received dest app_data hops ∷ []))
        × (on ≡ true)
  unfolding on_announce_ble queue_send
  queue_send-arrives Up n capped seq dest dest_hex payload now desc app_data hops stays up small
        long whole =
      let entry : PendingSend = record {
        seq = seq;
        dest = dest;
        lxmf_payload = payload;
        store_id = (enqueue_in n.store seq dest payload now).1;
      } in
      let q = n.pending_sends ++ (entry ∷ []) in
      let to_peer =
        sends_to-append dest n.pending_sends (entry ∷ [])
        ∙ ap (λ ps. sends_to dest n.pending_sends ++ ps) (sends_to-own entry) in
      let room = lt→ltb (length n.pending_sends) pending_cap small in
      rw (room, roomy capped)
        (let ((queue, events), on) =
            flush_up Up
              (record (queue_send net n false seq dest dest_hex payload now) {
                peer_identities = insert dest desc n.peer_identities;
                pending_sends = others dest q;
              })
              dest desc (sends_to dest q) stays (sends_to-AllTo dest q)
              (subst AllWhole (sym to_peer) (AllWhole-snoc _ entry whole long)) up in
          Cleared-announced dest app_data hops (others dest n.pending_sends)
            (n.events ++ (LxmfEvent.message_queued seq dest_hex ∷ []))
            (delivered_events net (sends_to dest n.pending_sends)
              ++ (LxmfEvent.message_delivered seq (hex_encode dest) ∷ []))
            _
            (queue
              ∙ others-append dest n.pending_sends (entry ∷ [])
              ∙ ap (λ ps. others dest n.pending_sends ++ ps) (others-own entry)
              ∙ append-nil (others dest n.pending_sends))
            (events
              ∙ ap
                  (λ ps.
                    (n.events ++ (LxmfEvent.message_queued seq dest_hex ∷ []))
                    ++ delivered_events net ps)
                  to_peer
              ∙ ap (λ es. (n.events ++ (LxmfEvent.message_queued seq dest_hex ∷ [])) ++ es)
                  (delivered_events-append (sends_to dest n.pending_sends) (entry ∷ [])))
            on)
    where
      roomy : (c : Bool) → (c && false) ≡ false
      roomy true = refl
      roomy false = refl
