-- ===== src/Node/Pending.antt =====
-- rust-core/src/node.rs, in `start_reticulum` and `start_ble`: the queue of pending sends, how it is
-- loaded from the store at a start, flushed when the peer announces itself, and retried every 60 s.
-- One announce and one round of the retry are one step each. A statement of the store that fails is
-- ignored there, and not modelled.
use lxmf_react_native_rust.Prelude.{
  ℕ, Bool, true, false, not, ◌||◌, Option, none, some, List, [], ◌∷◌, ◌++◌, Bytes, ltb, ◌==◌,
  if◌then◌else◌, bytes_eq, length, take,
}
use lxmf_react_native_rust.Prelude.Map.{bytes_Eq, lookup, insert}
use lxmf_react_native_rust.Beacon.Manager.{on_announce_received}
use lxmf_react_native_rust.Store.{
  MessageStore, QueuedSend, Expired, max_attempts, all_outbound_queue, remove_outbound,
  bump_outbound_attempts, drain_expired_outbound,
}
use lxmf_react_native_rust.Node.{
  LxmfEvent, PendingSend, Network, LxmfNode, attempt, max_attempts_reached,
}

unfoldable pub has_seq : ℕ → List PendingSend → Bool
has_seq seq [] = false
has_seq seq (p ∷ ps) = p.seq == seq || has_seq seq ps

unfoldable pub of_row : QueuedSend → PendingSend
of_row r = record { seq = r.seq; dest = r.dest; lxmf_payload = r.payload; store_id = some r.id }

-- `existing` is the queue before the loop.
unfoldable pub new_rows : List PendingSend → List QueuedSend → List PendingSend
unfolding has_seq of_row
new_rows existing [] = []
new_rows existing (r ∷ rs) =
    let rest = new_rows existing rs in
    if not (has_seq r.seq existing) then of_row r ∷ rest else rest

unfoldable pub reload : List PendingSend → Option MessageStore → List PendingSend
unfolding new_rows
reload q none = q
reload q (some s) = q ++ new_rows q (all_outbound_queue s)

-- `partition(|s| s.dest == dh)`
unfoldable pub sends_to : Bytes → List PendingSend → List PendingSend
sends_to dh [] = []
sends_to dh (p ∷ ps) = let rest = sends_to dh ps in if bytes_eq p.dest dh then p ∷ rest else rest

unfoldable pub others : Bytes → List PendingSend → List PendingSend
others dh [] = []
others dh (p ∷ ps) = let rest = others dh ps in if bytes_eq p.dest dh then rest else p ∷ rest

unfoldable pub retain_ne : ℕ → List PendingSend → List PendingSend
retain_ne seq [] = []
retain_ne seq (p ∷ ps) = let rest = retain_ne seq ps in if p.seq == seq then rest else p ∷ rest

-- A store statement on the row of a send, if it has one.
unfoldable pub forget : Option MessageStore → Option ℕ → Option MessageStore
forget (some s) (some id) = some (remove_outbound s id)
forget store _ = store

unfoldable pub bump : Option MessageStore → Option ℕ → Option MessageStore
bump (some s) (some id) = some (bump_outbound_attempts s id)
bump store _ = store

module _ (net : Network) where
  open net use {Transport, DestinationDesc, hex_encode}

  unfoldable pub flush_result : LxmfNode net → Bytes → PendingSend → Bool → LxmfNode net
  unfolding forget
  flush_result n dh p true = record n {
    store = forget n.store p.store_id;
    events = n.events ++ (LxmfEvent.message_delivered p.seq (hex_encode dh) ∷ []);
  }
  flush_result n dh p false = record n {
    pending_sends = n.pending_sends ++ (record p { dest = dh } ∷ []);
  }

  -- The packet goes to the first 16 bytes of the payload, `payload[..16]`: on a shorter payload the
  -- task panics. Then the Boolean is false, and the sends that are left are in no queue any more.
  unfoldable pub flush :
      LxmfNode net → Bytes → DestinationDesc → List PendingSend → LxmfNode net × Bool
  unfolding flush_result
  flush n dh desc [] = (n, true)
  flush n dh desc (p ∷ ps) =
      let (t, delivered) =
        attempt net n.transport (take 16 p.lxmf_payload) (some desc) p.lxmf_payload in
      let rest = flush (flush_result (record n { transport = t }) dh p delivered) dh desc ps in
      if ltb (length p.lxmf_payload) 16 then (n, false) else rest

  unfoldable pub announced : Bytes → Bytes → ℕ → LxmfNode net × Bool → LxmfNode net × Bool
  announced dh app_data hops (n, true) =
      (record n { events = n.events ++ (LxmfEvent.announce_received dh app_data hops ∷ []) }, true)
  announced dh app_data hops (n, false) = (n, false)

  -- The announce receiver of mode 0. Its identity is cached first. The Boolean says whether the task
  -- goes on, or has panicked.
  unfoldable pub on_announce_ble :
      LxmfNode net → Bytes → DestinationDesc → Bytes → ℕ → LxmfNode net × Bool
  unfolding flush sends_to others announced
  on_announce_ble n dh desc app_data hops = announced dh app_data hops (
      flush
        (record n {
          peer_identities = insert dh desc n.peer_identities;
          pending_sends = others dh n.pending_sends;
        })
        dh desc (sends_to dh n.pending_sends))

  -- The announce receiver of the modes with TCP, which also tracks beacons; `now` is the instant.
  unfoldable pub on_announce :
      LxmfNode net → Bytes → DestinationDesc → Bytes → ℕ → ℕ → LxmfNode net × Bool
  unfolding on_announce_ble
  on_announce n dh desc app_data hops now =
      on_announce_ble (record n { beacon_mgr = on_announce_received n.beacon_mgr dh app_data now })
        dh desc app_data hops

  unfoldable pub failed_events : List Expired → List LxmfEvent
  failed_events [] = []
  failed_events (e ∷ es) =
      LxmfEvent.message_failed e.seq (hex_encode e.dest) max_attempts_reached ∷ failed_events es

  unfoldable pub expire_in : LxmfNode net → Option MessageStore → LxmfNode net
  unfolding failed_events
  expire_in n none = n
  expire_in n (some s) =
      let (s', expired) = drain_expired_outbound s max_attempts in
      record n { store = some s'; events = n.events ++ failed_events expired }

  unfoldable pub retry_result : LxmfNode net → PendingSend → Bool → LxmfNode net
  unfolding forget bump retain_ne
  retry_result n p true = record n {
    pending_sends = retain_ne p.seq n.pending_sends;
    store = forget n.store p.store_id;
    events = n.events ++ (LxmfEvent.message_delivered p.seq (hex_encode p.dest) ∷ []);
  }
  retry_result n p false = record n { store = bump n.store p.store_id }

  unfoldable pub retry_all : LxmfNode net → List PendingSend → LxmfNode net
  unfolding retry_result
  retry_all n [] = n
  retry_all n (p ∷ ps) =
      let (t, delivered) =
        attempt net n.transport p.dest (lookup p.dest n.peer_identities) p.lxmf_payload in
      retry_all (retry_result (record n { transport = t }) p delivered) ps

  -- A round: what has used up its attempts is reported, then all that is pending is tried.
  unfoldable pub retry_round : LxmfNode net → LxmfNode net
  unfolding expire_in retry_all
  retry_round n = let n' = expire_in n n.store in retry_all n' n'.pending_sends
