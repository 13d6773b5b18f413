-- ===== src/Node/Flush.antt =====
-- The flush of the queue on an announce: nothing is lost, and only what was sent is reported.
use lxmf_react_native_rust.Prelude.{
  ℕ, ◌≤◌, ◌≡◌, refl, sym, ap, ◌∙◌, inl, inr, Bool, true, false, Option, some, List, [], ◌∷◌, ◌++◌,
  append-nil, append_assoc, arith, Bytes, ltb, Bool-cases, bytes_eq, bytes_eq→eq, length, take,
}
use lxmf_react_native_rust.Prelude.Map.{bytes_Eq, insert}
use lxmf_react_native_rust.Store.{MessageStore}
use lxmf_react_native_rust.Beacon.Manager.{BeaconManager, on_announce_received}
use lxmf_react_native_rust.Node.{LxmfEvent, PendingSend, Network, LxmfNode, attempt}
use lxmf_react_native_rust.Node.Pending.{
  sends_to, others, forget, flush_result, flush, on_announce_ble, on_announce, announced,
}

-- The first list is the two others, each in its order.
pub data Interleaves {ℓ} {A : Type ℓ} : List A → List A → List A → Type ℓ where
  done : Interleaves [] [] []
  left : {x : A} {xs ls rs : List A} → Interleaves xs ls rs → Interleaves (x ∷ xs) (x ∷ ls) rs
  right : {x : A} {xs ls rs : List A} → Interleaves xs ls rs → Interleaves (x ∷ xs) ls (x ∷ rs)

-- Every send of the list goes to `dh`.
abbrev pub AllTo : Bytes → List PendingSend → Type 0
AllTo dh [] = Unit
AllTo dh (p ∷ ps) = (p.dest ≡ dh) × AllTo dh ps

pub sends_to-AllTo : (dh : Bytes) (ps : List PendingSend) → AllTo dh (sends_to dh ps)
unfolding sends_to
sends_to-AllTo dh [] = tt
sends_to-AllTo dh (p ∷ ps) = elim (Bool-cases (bytes_eq p.dest dh)) [
  | inl h ↦ rw h (bytes_eq→eq p.dest dh h, sends_to-AllTo dh ps)
  | inr h ↦ rw h (sends_to-AllTo dh ps)
]

-- No payload is shorter than the 16 bytes of a destination.
abbrev pub AllWhole : List PendingSend → Type 0
AllWhole [] = Unit
AllWhole (p ∷ ps) = (16 ≤ length p.lxmf_payload) × AllWhole ps

pub long_enough :
    (p : PendingSend) → 16 ≤ length p.lxmf_payload → ltb (length p.lxmf_payload) 16 ≡ false
long_enough p h = ground arith

-- The rows of the sends are removed from the store.
abbrev pub forget_all : Option MessageStore → List PendingSend → Option MessageStore
forget_all store [] = store
forget_all store (p ∷ ps) = forget_all (forget store p.store_id) ps

module _ (net : Network) where
  open net use {DestinationDesc, Transport, hex_encode}

  abbrev pub delivered_events : List PendingSend → List LxmfEvent
  delivered_events [] = []
  delivered_events (p ∷ ps) =
      LxmfEvent.message_delivered p.seq (hex_encode p.dest) ∷ delivered_events ps

  -- What the attempts on a list of sends make of a queue, events and a store.
  pub record Settled (queue : List PendingSend) (events : List LxmfEvent)
      (store : Option MessageStore) (ps : List PendingSend) (n : LxmfNode net) : Type 0 where
    pub delivered : List PendingSend
    pub failed : List PendingSend
    pub split : Interleaves ps delivered failed
    pub queue_after : n.pending_sends ≡ queue ++ failed
    pub events_after : n.events ≡ events ++ delivered_events delivered
    pub store_after : n.store ≡ forget_all store delivered

  settle_more :
      (n m : LxmfNode net) (dh : Bytes) (p : PendingSend) (ps : List PendingSend) (sent : Bool)
      → p.dest ≡ dh
      → (let n' = flush_result net n dh p sent in Settled n'.pending_sends n'.events n'.store ps m)
      → Settled n.pending_sends n.events n.store (p ∷ ps) m
  unfolding flush_result
  settle_more n m dh p ps true e s = record {
    delivered = p ∷ s.delivered;
    failed = s.failed;
    split = left s.split;
    queue_after = s.queue_after;
    events_after =
        s.events_after
        ∙ append_assoc n.events (LxmfEvent.message_delivered p.seq (hex_encode dh) ∷ [])
            (delivered_events s.delivered)
        ∙ ap
            (λ d.
              n.events
              ++ (LxmfEvent.message_delivered p.seq (hex_encode d) ∷ delivered_events s.delivered))
            (sym e);
    store_after = s.store_after;
  }
  settle_more n m dh p ps false e s = record {
    delivered = s.delivered;
    failed = p ∷ s.failed;
    split = right s.split;
    queue_after =
        s.queue_after
        ∙ append_assoc n.pending_sends (record p { dest = dh } ∷ []) s.failed
        ∙ ap (λ d. n.pending_sends ++ (record p { dest = d } ∷ s.failed)) (sym e);
    events_after = s.events_after;
    store_after = s.store_after;
  }

  pub flush-Settled :
      (n : LxmfNode net) (dh : Bytes) (desc : DestinationDesc) (ps : List PendingSend)
      → AllTo dh ps
      → AllWhole ps
      → Settled n.pending_sends n.events n.store ps (flush net n dh desc ps).0
        × ((flush net n dh desc ps).1 ≡ true)
  unfolding flush
  flush-Settled n dh desc [] a w = (
    record {
      delivered = [];
      failed = [];
      split = done;
      queue_after = sym (append-nil n.pending_sends);
      events_after = sym (append-nil n.events);
      store_after = refl;
    },
    refl,
  )
  flush-Settled n dh desc (p ∷ ps) (e, a) (l, w) =
      let (t, sent) = attempt net n.transport (take 16 p.lxmf_payload) (some desc) p.lxmf_payload in
      let (s, on) =
        flush-Settled (flush_result net (record n { transport = t }) dh p sent) dh desc ps a w in
      rw (long_enough p l) (settle_more (record n { transport = t }) _ dh p ps sent e s, on)

  pub flush_one :
      (n : LxmfNode net) (dh : Bytes) (desc : DestinationDesc) (p : PendingSend)
      → 16 ≤ length p.lxmf_payload
      → (attempt net n.transport (take 16 p.lxmf_payload) (some desc) p.lxmf_payload).1 ≡ true
      → flush net n dh desc (p ∷ []) ≡ (
        flush_result net
            (record n {
              transport =
                  (attempt net n.transport (take 16 p.lxmf_payload) (some desc) p.lxmf_payload).0;
            })
            dh
            p
            true,
        true,
      )
  unfolding flush
  flush_one n dh desc p long sends = rw (long_enough p long, sends) refl

  pub record Announced (n : LxmfNode net) (dh app_data : Bytes) (hops : ℕ) (n' : LxmfNode net)
      : Type 0 where
    pub delivered : List PendingSend
    pub failed : List PendingSend
    pub split : Interleaves (sends_to dh n.pending_sends) delivered failed
    pub queue_after : n'.pending_sends ≡ others dh n.pending_sends ++ failed
    pub events_after :
        n'.events
        ≡ (n.events ++ delivered_events delivered)
          ++ (LxmfEvent.announce_received dh app_data hops ∷ [])
    pub store_after : n'.store ≡ forget_all n.store delivered

  -- On an announce, in every mode and whatever the transport makes of the packets, if no payload that
  -- is queued for the peer is shorter than 16 bytes: the queued sends to the peer are split in two, the
  -- delivered and the failed, each in its order. The failed ones are queued again behind the sends to
  -- others, which stay as they are; of the delivered ones, and of no other, the row in the store is
  -- removed and the delivery is reported, before the announce itself; and the task goes on.
  pub on_announce-Announced :
      (n : LxmfNode net) (dh : Bytes) (desc : DestinationDesc) (app_data : Bytes) (hops now : ℕ)
      → AllWhole (sends_to dh n.pending_sends)
      → (let (m, on) = on_announce_ble net n dh desc app_data hops in
          Announced n dh app_data hops m × (on ≡ true))
        × (let (m, on) = on_announce net n dh desc app_data hops now in
            Announced n dh app_data hops m × (on ≡ true))
  unfolding on_announce on_announce_ble announced
  on_announce-Announced n dh desc app_data hops now w =
      (of_settled n.beacon_mgr, of_settled (on_announce_received n.beacon_mgr dh app_data now))
    where
      of_flush :
          (r : LxmfNode net × Bool)
          → Settled (others dh n.pending_sends) n.events n.store (sends_to dh n.pending_sends) r.0
          → r.1 ≡ true
          → let (m, on) = announced net dh app_data hops r in
            Announced n dh app_data hops m × (on ≡ true)
      of_flush (m, true) s on = (
        record {
          delivered = s.delivered;
          failed = s.failed;
          split = s.split;
          queue_after = s.queue_after;
          events_after =
              ap (λ e. e ++ (LxmfEvent.announce_received dh app_data hops ∷ [])) s.events_after;
          store_after = s.store_after;
        },
        refl,
      )
      of_flush (m, false) s on = cc

      of_settled :
          (b : BeaconManager)
          → let (m, on) = on_announce_ble net (record n { beacon_mgr = b }) dh desc app_data hops in
            Announced n dh app_data hops m × (on ≡ true)
      of_settled b =
          let (s, on) =
            flush-Settled
              (record n {
                beacon_mgr = b;
                peer_identities = insert dh desc n.peer_identities;
                pending_sends = others dh n.pending_sends;
              })
              dh desc (sends_to dh n.pending_sends) (sends_to-AllTo dh n.pending_sends) w in
          of_flush _ s on
