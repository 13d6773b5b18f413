-- ===== src/Node/GivenUp.antt =====
-- A send that never gets through, over the rounds of the retry, in the queue and in the store.
use lxmf_react_native_rust.Prelude.{
  subst, ℕ, zero, suc, ◌≤◌, ◌<◌, ◌≡◌, refl, sym, ap, ap₂, ◌∙◌, Bool, true, false, Option, some,
  List, [], ◌∷◌, ◌++◌, append-nil, arith, Bytes, bytes_eq_refl, length, take,
}
use lxmf_react_native_rust.Node.Flush.{flush_one}
use lxmf_react_native_rust.Prelude.Map.{bytes_Eq, lookup, insert}
use lxmf_react_native_rust.Store.{
  MessageStore, Expired, max_attempts, enqueue_outbound, expired_rows, bump_outbound_attempts,
  drain_found, drain_expired_outbound,
}
use lxmf_react_native_rust.Store.Reach.{IsValid}
use lxmf_react_native_rust.Store.Expiry.{bump_times, given_up}
use lxmf_react_native_rust.Node.{
  LxmfEvent, PendingSend, Network, LxmfNode, attempt, max_attempts_reached,
}
use lxmf_react_native_rust.Node.Pending.{
  bump, expire_in, failed_events, retry_result, retry_all, retry_round, sends_to, others,
  flush_result, flush, on_announce_ble, announced,
}

drain_found-none :
    (s : MessageStore) (limit : ℕ) (found : List Expired)
    → (drain_found s limit found).1 ≡ []
    → drain_found s limit found ≡ (s, [])
unfolding drain_found
drain_found-none s limit [] h = refl
drain_found-none s limit (e ∷ es) h = cc

none_expired :
    (t : MessageStore) → t.outbound_queue ≡ [] → (drain_expired_outbound t max_attempts).1 ≡ []
unfolding drain_expired_outbound expired_rows drain_found
none_expired t e = rw e refl

module _ (net : Network) where
  open net use {Transport, DestinationDesc, hex_encode}

  unfoldable pub rounds : ℕ → LxmfNode net → LxmfNode net
  rounds zero n = n
  rounds (suc k) n = retry_round net (rounds k n)

  -- In the states of `Down` no attempt delivers, and the next state is one of them again.
  abbrev pub StaysDown : (Transport → Type 0) → Type 0
  StaysDown Down =
      (t : Transport) (dest : Bytes) (desc : Option DestinationDesc) (payload : Bytes)
      → Down t
      → ((attempt net t dest desc payload).1 ≡ false) × Down (attempt net t dest desc payload).0

  -- The one send of the queue, whose row has the id.
  record Lone (Down : Transport → Type 0) (p : PendingSend) (events : List LxmfEvent)
      (s : MessageStore) (n : LxmfNode net) : Type 0 where
    alone : n.pending_sends ≡ p ∷ []
    stored : n.store ≡ some s
    reported : n.events ≡ events
    down : Down n.transport

  fail_one :
      (Down : Transport → Type 0) (p : PendingSend) (id : ℕ) (events : List LxmfEvent)
      (s : MessageStore) (n : LxmfNode net)
      → p.store_id ≡ some id
      → StaysDown Down
      → Lone Down p events s n
      → Lone Down p events (bump_outbound_attempts s id) (retry_all net n n.pending_sends)
  unfolding retry_all retry_result bump
  fail_one Down p id events s n has_row stays lone =
      let at =
        stays n.transport p.dest (lookup p.dest n.peer_identities) p.lxmf_payload lone.down in
      subst (λ ps. Lone Down p events (bump_outbound_attempts s id) (retry_all net n ps))
        (sym lone.alone)
        (record {
          alone = rw (at.0) lone.alone;
          stored = rw (at.0, lone.stored, has_row) refl;
          reported = rw (at.0) lone.reported;
          down = rw (at.0) (at.1);
        })

  expire_in-Lone :
      (Down : Transport → Type 0) (p : PendingSend) (events : List LxmfEvent) (s : MessageStore)
      (n : LxmfNode net)
      → Lone Down p events s n
      → let (s', expired) = drain_expired_outbound s max_attempts in
        Lone Down p (events ++ failed_events net expired) s' (expire_in net n n.store)
  unfolding expire_in
  expire_in-Lone Down p events s n lone =
      let (s', expired) = drain_expired_outbound s max_attempts in
      subst (λ store. Lone Down p (events ++ failed_events net expired) s' (expire_in net n store))
        (sym lone.stored)
        (record {
          alone = lone.alone;
          stored = refl;
          reported = ap (λ e. e ++ failed_events net expired) lone.reported;
          down = lone.down;
        })

  retry_round-Lone :
      (Down : Transport → Type 0) (p : PendingSend) (id : ℕ) (events : List LxmfEvent)
      (s : MessageStore) (n : LxmfNode net)
      → p.store_id ≡ some id
      → StaysDown Down
      → Lone Down p events s n
      → let (s', expired) = drain_expired_outbound s max_attempts in
        Lone Down p
          (events ++ failed_events net expired)
          (bump_outbound_attempts s' id)
          (retry_round net n)
  unfolding retry_round
  retry_round-Lone Down p id events s n has_row stays lone =
      fail_one Down p id _ _ (expire_in net n n.store) has_row stays
        (expire_in-Lone Down p events s n lone)

  module _ (Down : Transport → Type 0) (stays : StaysDown Down) (n : LxmfNode net)
      (s : MessageStore) (seq : ℕ) (dest payload : Bytes) (now : ℕ) where
    abbrev sent : PendingSend
    sent = record {
      seq = seq;
      dest = dest;
      lxmf_payload = payload;
      store_id = some s.next_outbound;
    }

    abbrev kept : ℕ → MessageStore
    kept k = bump_times k (enqueue_outbound s seq dest payload now).0 s.next_outbound

    still_kept :
        (k : ℕ)
        → IsValid s
        → length dest ≡ 16
        → s.outbound_queue ≡ []
        → k < max_attempts
        → drain_expired_outbound (kept k) max_attempts ≡ (kept k, [])
    unfolding drain_expired_outbound enqueue_outbound
    still_kept k v h empty low = drain_found-none (kept k) max_attempts _ (
        (given_up s seq dest payload now k v h).1
        ∙ ap₂ ◌++◌ (none_expired s empty) (unfold drain_expired_outbound in ground (arith, low)))

    after_rounds :
        (k : ℕ)
        → IsValid s
        → length dest ≡ 16
        → s.outbound_queue ≡ []
        → Lone Down sent n.events (kept zero) n
        → k ≤ max_attempts
        → Lone Down sent n.events (kept k) (rounds k n)
    unfolding rounds bump_times failed_events
    after_rounds zero v h empty lone low = lone
    after_rounds (suc k) v h empty lone low =
        let before = after_rounds k v h empty lone (omega (arith, low)) in
        let d = still_kept k v h empty (omega (arith, low)) in
        subst (λ events. Lone Down sent events (kept (suc k)) (rounds (suc k) n))
          (append-nil n.events)
          (subst
            (λ (r : MessageStore × List Expired).
              Lone Down sent (n.events ++ failed_events net r.1)
                (bump_outbound_attempts r.0 s.next_outbound) (rounds (suc k) n))
            d
            (retry_round-Lone Down sent s.next_outbound n.events (kept k) (rounds k n) refl stays
              before))

    reported_failed : List LxmfEvent
    reported_failed = LxmfEvent.message_failed seq (hex_encode dest) max_attempts_reached ∷ []

    failed-expired :
        IsValid s
        → length dest ≡ 16
        → s.outbound_queue ≡ []
        → failed_events net (drain_expired_outbound (kept 50) max_attempts).1 ≡ reported_failed
    unfolding enqueue_outbound failed_events reported_failed
    failed-expired v h empty = ap (failed_events net) (
        (given_up s seq dest payload now 50 v h).1
        ∙ ap (λ found. found ++ (record { id = s.next_outbound; seq = seq; dest = dest } ∷ []))
            (none_expired s empty))

    -- A 16-byte send is alone in the queue and, just enqueued, alone in a store whose ids grow; and the
    -- transport is down and stays so. Then 50 rounds of the retry report nothing, and the 51st reports
    -- that the send failed: and still keeps it in the queue.
    pub lone_send_given_up :
        IsValid s
        → length dest ≡ 16
        → s.outbound_queue ≡ []
        → n.pending_sends ≡ sent ∷ []
        → n.store ≡ some (enqueue_outbound s seq dest payload now).0
        → Down n.transport
        → ((rounds 50 n).events ≡ n.events)
          × ((rounds 51 n).events
              ≡ n.events
                ++ (LxmfEvent.message_failed seq (hex_encode dest) max_attempts_reached ∷ []))
          × ((rounds 51 n).pending_sends ≡ sent ∷ [])
    unfolding rounds reported_failed bump_times
    lone_send_given_up v h empty alone stored down =
        let lone : Lone Down sent n.events (kept zero) n = record {
          alone = alone;
          stored = stored;
          reported = refl;
          down = down;
        } in
        let fifty = after_rounds 50 v h empty lone (omega arith) in
        let last =
          retry_round-Lone Down sent s.next_outbound n.events (kept 50) (rounds 50 n) refl stays
            fifty in
        (
          fifty.reported,
          last.reported ∙ ap (λ e. n.events ++ e) (failed-expired v h empty),
          last.alone,
        )

    sends_to_self : sends_to dest (sent ∷ []) ≡ sent ∷ []
    unfolding sends_to
    sends_to_self = rw (bytes_eq_refl dest) refl

    others_self : others dest (sent ∷ []) ≡ []
    unfolding others
    others_self = rw (bytes_eq_refl dest) refl

    -- The same send, of at least 16 bytes, which was reported as failed: when the transport comes up, and delivers on the
    -- next announce of the peer, the send is reported as delivered too.
    pub failed_send_delivered :
        (up : Transport) (desc : DestinationDesc) (app_data : Bytes) (hops : ℕ)
        → IsValid s
        → length dest ≡ 16
        → s.outbound_queue ≡ []
        → n.pending_sends ≡ sent ∷ []
        → n.store ≡ some (enqueue_outbound s seq dest payload now).0
        → Down n.transport
        → 16 ≤ length payload
        → (attempt net up (take 16 payload) (some desc) payload).1 ≡ true
        → (on_announce_ble net
            (record (rounds 51 n) { transport = up })
            dest
            desc
            app_data
            hops).0.events
          ≡ ((n.events
                ++ (LxmfEvent.message_failed seq (hex_encode dest) max_attempts_reached ∷ []))
              ++ (LxmfEvent.message_delivered seq (hex_encode dest) ∷ []))
            ++ (LxmfEvent.announce_received dest app_data hops ∷ [])
    unfolding on_announce_ble flush_result announced
    failed_send_delivered up desc app_data hops v h empty one stored down long sends =
        let (quiet, failed, alone) = lone_send_given_up v h empty one stored down in
        let base : List PendingSend → LxmfNode net = λ queue. record (rounds 51 n) {
          transport = up;
          peer_identities = insert dest desc (rounds 51 n).peer_identities;
          pending_sends = others dest queue;
        } in
        let told : LxmfNode net × Bool → List LxmfEvent =
          λ r. (announced net dest app_data hops r).0.events in
        ap (λ q. told (flush net (base q) dest desc (sends_to dest q))) alone
        ∙ ap (λ ps. told (flush net (base (sent ∷ [])) dest desc ps)) sends_to_self
        ∙ ap told (flush_one net (base (sent ∷ [])) dest desc sent long sends)
        ∙ ap
            (λ e.
              (e ++ (LxmfEvent.message_delivered seq (hex_encode dest) ∷ []))
              ++ (LxmfEvent.announce_received dest app_data hops ∷ []))
            failed
