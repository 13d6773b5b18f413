-- ===== src/Node/Dispatched.antt =====
-- rust-core/src/node.rs, lines 1484-1588: what the outcome of a first attempt leaves behind.
use lxmf_react_native_rust.Prelude.{
  ℕ, ◌≤◌, ◌<◌, ◌≡◌, refl, ◌⊎◌, inl, inr, Bool, true, false, not, ◌&&◌, Option, none, some, [], ◌∷◌,
  ◌++◌, arith, Bytes, ltb, if◌then◌else◌, length,
}
use lxmf_react_native_rust.Prelude.Map.{bytes_Eq, lookup}
use lxmf_react_native_rust.Node.{
  LxmfEvent, PendingSend, Network, LxmfNode, SendPacketOutcome, after_outcome,
}
use lxmf_react_native_rust.Node.Send.{
  SendError, pending_cap, enqueue_in, queue_send, link_sent, send_large, dispatch,
}

-- The queue of a message that is too large for a packet has no bound.
abbrev pub has_cap : SendPacketOutcome → Bool
has_cap SendPacketOutcome.dropped_ciphertext_too_large = false
has_cap _ = true

abbrev pub not_encrypted : SendPacketOutcome → Bool
not_encrypted SendPacketOutcome.dropped_encrypt_failed = true
not_encrypted _ = false

module _ (net : Network) where
  open net use {DestinationDesc, PrivateIdentity}

  -- The queue, the events and the store are as they were.
  pub record Untouched (n m : LxmfNode net) : Type 0 where
    pub same_queue : m.pending_sends ≡ n.pending_sends
    pub same_events : m.events ≡ n.events
    pub same_store : m.store ≡ n.store

  -- The message is in the store, if there is one, and announced as queued; and it is behind the others
  -- in the queue, unless there is a cap and the queue holds 1000 or more.
  pub record Queued (n m : LxmfNode net) (capped : Bool) (seq : ℕ) (dest dest_hex payload : Bytes)
      (now : ℕ) : Type 0 where
    pub events_after : m.events ≡ n.events ++ (LxmfEvent.message_queued seq dest_hex ∷ [])
    pub store_after : m.store ≡ (enqueue_in n.store seq dest payload now).0
    pub queue_after :
        (((capped ≡ false) ⊎ (length n.pending_sends < pending_cap))
          × (m.pending_sends
              ≡ n.pending_sends
                ++ (record {
                  seq = seq;
                  dest = dest;
                  lxmf_payload = payload;
                  store_id = (enqueue_in n.store seq dest payload now).1;
                }
                    ∷ [])))
        ⊎ ((capped ≡ true)
            × (pending_cap ≤ length n.pending_sends)
            × (m.pending_sends ≡ n.pending_sends))

  -- What became of an attempt with the outcome, which did or did not deliver.
  abbrev pub Tried :
      LxmfNode net
      → LxmfNode net
      → SendPacketOutcome
      → Bool
      → ℕ
      → Bytes
      → Bytes
      → Bytes
      → ℕ
      → SendError ⊎ ℕ
      → Type 0
  Tried n m outcome delivered seq dest dest_hex payload now r =
      ((delivered ≡ true) × (r ≡ inr seq) × Untouched n m)
      ⊎ ((delivered ≡ false)
          × (not_encrypted outcome ≡ false)
          × (r ≡ inr seq)
          × Queued n m (has_cap outcome) seq dest dest_hex payload now)
      ⊎ ((not_encrypted outcome ≡ true) × (r ≡ inl SendError.encrypt_failed) × Untouched n m)

  queue_send-Queued :
      (n : LxmfNode net) (capped : Bool) (seq : ℕ) (dest dest_hex payload : Bytes) (now : ℕ)
      → Queued n
          (queue_send net n capped seq dest dest_hex payload now)
          capped
          seq
          dest
          dest_hex
          payload
          now
  unfolding queue_send
  queue_send-Queued n capped seq dest dest_hex payload now = record {
    events_after = refl;
    store_after = refl;
    queue_after = of_cap capped _ refl;
  }
    where
      of_cap :
          (c room : Bool)
          → ltb (length n.pending_sends) pending_cap ≡ room
          → let entry : PendingSend = record {
            seq = seq;
            dest = dest;
            lxmf_payload = payload;
            store_id = (enqueue_in n.store seq dest payload now).1;
          } in
            let after =
              if c && not room then n.pending_sends else n.pending_sends ++ (entry ∷ []) in
            (((c ≡ false) ⊎ (length n.pending_sends < pending_cap))
              × (after ≡ n.pending_sends ++ (entry ∷ [])))
            ⊎ ((c ≡ true) × (pending_cap ≤ length n.pending_sends) × (after ≡ n.pending_sends))
      of_cap false room h = inl (inl refl, refl)
      of_cap true true h = inl (inr (ground arith), refl)
      of_cap true false h = inr (refl, ground arith, refl)

  -- The transport and the number of attempts do not matter.
  abbrev moved : LxmfNode net → net.Transport → ℕ → LxmfNode net
  moved n t k = record n { transport = t; outbound_sent = k }

  pub moved-Untouched :
      (n m : LxmfNode net) (t : net.Transport) (k : ℕ) → Untouched (moved n t k) m → Untouched n m
  moved-Untouched n m t k u = record {
    same_queue = u.same_queue;
    same_events = u.same_events;
    same_store = u.same_store;
  }

  moved-Queued :
      (n m : LxmfNode net) (t : net.Transport) (k : ℕ) (c : Bool) (seq : ℕ)
      (dest dest_hex payload : Bytes) (now : ℕ)
      → Queued (moved n t k) m c seq dest dest_hex payload now
      → Queued n m c seq dest dest_hex payload now
  moved-Queued n m t k c seq dest dest_hex payload now q = record {
    events_after = q.events_after;
    store_after = q.store_after;
    queue_after = q.queue_after;
  }

  pub moved-Tried :
      (n m : LxmfNode net) (t : net.Transport) (k : ℕ) (outcome : SendPacketOutcome) (sent : Bool)
      (seq : ℕ) (dest dest_hex payload : Bytes) (now : ℕ) (r : SendError ⊎ ℕ)
      → Tried (moved n t k) m outcome sent seq dest dest_hex payload now r
      → Tried n m outcome sent seq dest dest_hex payload now r
  moved-Tried n m t k outcome sent seq dest dest_hex payload now r (inl (d, e, u)) =
      inl (d, e, moved-Untouched n m t k u)
  moved-Tried n m t k outcome sent seq dest dest_hex payload now r (inr (inl (d, x, e, q))) =
      inr (inl (d, x, e, moved-Queued n m t k (has_cap outcome) seq dest dest_hex payload now q))
  moved-Tried n m t k outcome sent seq dest dest_hex payload now r (inr (inr (x, e, u))) =
      inr (inr (x, e, moved-Untouched n m t k u))

  pub untouched : (n : LxmfNode net) → Untouched n n
  untouched n = record { same_queue = refl; same_events = refl; same_store = refl }

  -- The count of attempts stays, and the rest is as tried.
  abbrev pub Dispatched :
      LxmfNode net
      → SendPacketOutcome
      → ℕ
      → Bytes
      → Bytes
      → Bytes
      → ℕ
      → LxmfNode net × (SendError ⊎ ℕ)
      → Type 0
  Dispatched n outcome seq dest dest_hex payload now (m, r) =
      (m.outbound_sent ≡ n.outbound_sent)
      × Tried n m outcome
          (after_outcome net n.transport outcome (lookup dest n.peer_identities) payload).1 seq dest
          dest_hex payload now r

  -- Not delivered, but encrypted: queued.
  unsent :
      (n : LxmfNode net) (outcome : SendPacketOutcome) (seq : ℕ) (dest dest_hex payload : Bytes)
      (now : ℕ)
      → (after_outcome net n.transport outcome (lookup dest n.peer_identities) payload).1 ≡ false
      → not_encrypted outcome ≡ false
      → Dispatched n outcome seq dest dest_hex payload now
          (queue_send net n (has_cap outcome) seq dest dest_hex payload now, inr seq)
  unsent n outcome seq dest dest_hex payload now d x = (
    unfold queue_send in refl,
    inr (inl (d, x, refl, queue_send-Queued n (has_cap outcome) seq dest dest_hex payload now)),
  )

  send_large-Tried :
      (n : LxmfNode net) (seq : ℕ) (dest dest_hex payload : Bytes) (now : ℕ)
      (desc : Option DestinationDesc)
      → let (m, r) = send_large net n seq dest dest_hex payload now desc in
        (m.outbound_sent ≡ n.outbound_sent)
        × Tried n m SendPacketOutcome.dropped_ciphertext_too_large
            (after_outcome net n.transport SendPacketOutcome.dropped_ciphertext_too_large desc
              payload).1
            seq
            dest
            dest_hex
            payload
            now
            r
  unfolding send_large after_outcome
  send_large-Tried n seq dest dest_hex payload now none = (
    unfold queue_send in refl,
    inr (inl (refl, refl, refl, queue_send-Queued n false seq dest dest_hex payload now)),
  )
  send_large-Tried n seq dest dest_hex payload now (some desc) =
      let (t, ok) = net.send_via_link n.transport desc payload in of_link t ok
    where
      of_link :
          (t : net.Transport) (ok : Bool)
          → let (m, r) =
              link_sent net (record n { transport = t }) seq dest dest_hex payload now ok in
            (m.outbound_sent ≡ n.outbound_sent)
            × Tried n m SendPacketOutcome.dropped_ciphertext_too_large ok seq dest dest_hex payload
                now r
      of_link t true =
          unfold link_sent in (refl, inl (refl, refl, moved-Untouched n _ t _ (untouched _)))
      of_link t false =
          unfold link_sent in
          (
            unfold queue_send in refl,
            inr (
                inl (
                  refl,
                  refl,
                  refl,
                  moved-Queued n _ t n.outbound_sent false seq dest dest_hex payload now (
                      queue_send-Queued (record n { transport = t }) false seq dest dest_hex payload
                        now),
                )),
          )

  pub dispatch-Dispatched :
      (n : LxmfNode net) (seq : ℕ) (dest dest_hex payload : Bytes) (now : ℕ)
      (outcome : SendPacketOutcome)
      → Dispatched n outcome seq dest dest_hex payload now
          (dispatch net n seq dest dest_hex payload now outcome)
  unfolding dispatch after_outcome
  dispatch-Dispatched n seq dest dest_hex payload now SendPacketOutcome.sent_direct =
      (refl, inl (refl, refl, untouched n))
  dispatch-Dispatched n seq dest dest_hex payload now SendPacketOutcome.sent_broadcast =
      (refl, inl (refl, refl, untouched n))
  dispatch-Dispatched n seq dest dest_hex payload now
        SendPacketOutcome.dropped_missing_destination_identity =
      let q = queue_send-Queued n true seq dest dest_hex payload now in
      (
        unfold queue_send in refl,
        inr (
            inl (
              refl,
              refl,
              refl,
              record {
                events_after = q.events_after;
                store_after = q.store_after;
                queue_after = q.queue_after;
              },
            )),
      )
  dispatch-Dispatched n seq dest dest_hex payload now SendPacketOutcome.dropped_no_route =
      unsent n SendPacketOutcome.dropped_no_route seq dest dest_hex payload now refl refl
  dispatch-Dispatched n seq dest dest_hex payload now
        SendPacketOutcome.dropped_ciphertext_too_large =
      send_large-Tried n seq dest dest_hex payload now (lookup dest n.peer_identities)
  dispatch-Dispatched n seq dest dest_hex payload now SendPacketOutcome.dropped_encrypt_failed =
      (refl, inr (inr (refl, refl, untouched n)))
