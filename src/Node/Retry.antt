-- ===== src/Node/Retry.antt =====
-- A round of the retry: what it keeps, reports and writes to the store, and when a send gets lost.
use lxmf_react_native_rust.Prelude.{
  subst, ℕ, ◌≡◌, refl, sym, ap, ap₂, ◌∙◌, inl, inr, Bool, true, false, Option, none, some, List, [],
  ◌∷◌, ◌++◌, append-nil, append_assoc, arith, ◌==◌, Bool-cases,
}
use lxmf_react_native_rust.Prelude.Map.{bytes_Eq, lookup}
use lxmf_react_native_rust.Store.{MessageStore}
use lxmf_react_native_rust.Node.{LxmfEvent, PendingSend, Network, LxmfNode, attempt}
use lxmf_react_native_rust.Node.Pending.{
  has_seq, retain_ne, forget, bump, expire_in, retry_result, retry_all, retry_round,
}
use lxmf_react_native_rust.Node.Flush.{Interleaves, done, left, right, delivered_events}

-- No two sends of the queue have the same number.
abbrev pub Distinct : List PendingSend → Type 0
Distinct [] = Unit
Distinct (p ∷ ps) = (has_seq p.seq ps ≡ false) × Distinct ps

retain_ne-append :
    (seq : ℕ) (xs ys : List PendingSend)
    → retain_ne seq (xs ++ ys) ≡ retain_ne seq xs ++ retain_ne seq ys
unfolding retain_ne
retain_ne-append seq [] ys = refl
retain_ne-append seq (x ∷ xs) ys = elim (Bool-cases (x.seq == seq)) [
  | inl h ↦ rw (h, retain_ne-append seq xs ys) refl
  | inr h ↦ rw (h, retain_ne-append seq xs ys) refl
]

retain_ne-absent :
    (seq : ℕ) (xs : List PendingSend) → has_seq seq xs ≡ false → retain_ne seq xs ≡ xs
unfolding retain_ne has_seq
retain_ne-absent seq [] h = refl
retain_ne-absent seq (x ∷ xs) h = ground (arith, retain_ne-absent seq xs)

-- What stands in a queue of distinct numbers before and behind a send has other numbers.
apart :
    (xs ys : List PendingSend) (p : PendingSend)
    → Distinct (xs ++ (p ∷ ys))
    → (has_seq p.seq xs ≡ false) × (has_seq p.seq ys ≡ false) × Distinct (xs ++ ys)
unfolding has_seq
apart [] ys p d = (refl, d.0, d.1)
apart (x ∷ xs) ys p d =
    let (before, behind, rest) = apart xs ys p d.1 in
    let (new, gone) = split_absent xs d.0 in (ground arith, behind, (gone, rest))
  where
    split_absent :
        (zs : List PendingSend)
        → has_seq x.seq (zs ++ (p ∷ ys)) ≡ false
        → ((p.seq == x.seq) ≡ false) × (has_seq x.seq (zs ++ ys) ≡ false)
    split_absent [] h = ground arith
    split_absent (z ∷ zs) h = ground (arith, split_absent zs)

retain_ne-middle :
    (xs ys : List PendingSend) (p : PendingSend)
    → Distinct (xs ++ (p ∷ ys))
    → retain_ne p.seq (xs ++ (p ∷ ys)) ≡ xs ++ ys
retain_ne-middle xs ys p d =
    let (before, behind, rest) = apart xs ys p d in
    retain_ne-append p.seq xs (p ∷ ys)
    ∙ ap₂ ◌++◌ (retain_ne-absent p.seq xs before) (self ∙ retain_ne-absent p.seq ys behind)
  where
    self : retain_ne p.seq (p ∷ ys) ≡ retain_ne p.seq ys
    self = unfold retain_ne in ground arith

-- The row of a delivered send is removed, and that of a failed one has one attempt more.
abbrev pub account :
    {ps ls rs : List PendingSend} → Interleaves ps ls rs → Option MessageStore → Option MessageStore
account done store = store
account (left {x = p} i) store = account i (forget store p.store_id)
account (right {x = p} i) store = account i (bump store p.store_id)

module _ (net : Network) where
  open net use {Transport, DestinationDesc, hex_encode}

  pub record Retried (queue : List PendingSend) (events : List LxmfEvent)
      (store : Option MessageStore) (ps : List PendingSend) (n : LxmfNode net) : Type 0 where
    pub delivered : List PendingSend
    pub failed : List PendingSend
    pub split : Interleaves ps delivered failed
    pub queue_after : n.pending_sends ≡ queue ++ failed
    pub events_after : n.events ≡ events ++ delivered_events net delivered
    pub store_after : n.store ≡ account split store

  -- The results of one send, and those of the others after it.
  retry_more :
      (n m : LxmfNode net) (queue ps : List PendingSend) (p : PendingSend) (sent : Bool)
      → n.pending_sends ≡ queue ++ (p ∷ ps)
      → Distinct (queue ++ (p ∷ ps))
      → ((rest : List PendingSend)
          → (retry_result net n p sent).pending_sends ≡ rest ++ ps
          → Distinct (rest ++ ps)
          → Retried rest (retry_result net n p sent).events (retry_result net n p sent).store ps m)
      → Retried queue n.events n.store (p ∷ ps) m
  unfolding retry_result
  retry_more n m queue ps p true q d rec =
      let r =
        rec queue (ap (retain_ne p.seq) q ∙ retain_ne-middle queue ps p d) (apart queue ps p d).2 in
      record {
        delivered = p ∷ r.delivered;
        failed = r.failed;
        split = left r.split;
        queue_after = r.queue_after;
        events_after =
            r.events_after
            ∙ append_assoc n.events (LxmfEvent.message_delivered p.seq (hex_encode p.dest) ∷ [])
                (delivered_events net r.delivered);
        store_after = r.store_after;
      }
  retry_more n m queue ps p false q d rec =
      let r =
        rec (queue ++ (p ∷ [])) (q ∙ sym (append_assoc queue (p ∷ []) ps))
          (subst Distinct (sym (append_assoc queue (p ∷ []) ps)) d) in
      record {
        delivered = r.delivered;
        failed = p ∷ r.failed;
        split = right r.split;
        queue_after = r.queue_after ∙ append_assoc queue (p ∷ []) r.failed;
        events_after = r.events_after;
        store_after = r.store_after;
      }

  retry_all-Retried :
      (n : LxmfNode net) (queue ps : List PendingSend)
      → n.pending_sends ≡ queue ++ ps
      → Distinct (queue ++ ps)
      → Retried queue n.events n.store ps (retry_all net n ps)
  unfolding retry_all
  retry_all-Retried n queue [] q d = record {
    delivered = [];
    failed = [];
    split = done;
    queue_after = q;
    events_after = sym (append-nil n.events);
    store_after = refl;
  }
  retry_all-Retried n queue (p ∷ ps) q d =
      let (t, sent) =
        attempt net n.transport p.dest (lookup p.dest n.peer_identities) p.lxmf_payload in
      retry_more (record n { transport = t }) _ queue ps p sent q d
        (λ rest. retry_all-Retried (retry_result net (record n { transport = t }) p sent) rest ps)

  expire_in-same :
      (n : LxmfNode net) (store : Option MessageStore)
      → (expire_in net n store).pending_sends ≡ n.pending_sends
  unfolding expire_in
  expire_in-same n none = refl
  expire_in-same n (some s) = refl

  -- A round of the retry on a queue with distinct numbers splits it in two, the delivered and the
  -- failed sends, each in its order. The failed ones are the queue afterwards; the delivered ones are
  -- reported, behind the sends that were given up; and in the store the row of each delivered send is
  -- removed and the attempts of each failed one are counted.
  pub retry_round-Retried :
      (n : LxmfNode net)
      → Distinct n.pending_sends
      → let n' = expire_in net n n.store in
        Retried [] n'.events n'.store n.pending_sends (retry_round net n)
  unfolding retry_round
  retry_round-Retried n d =
      let n' = expire_in net n n.store in
      let same = expire_in-same n n.store in
      subst (λ ps. Retried [] n'.events n'.store ps (retry_all net n' n'.pending_sends)) same
        (retry_all-Retried n' [] n'.pending_sends refl (subst Distinct (sym same) d))

  retain_ne-pair : (p q : PendingSend) → p.seq ≡ q.seq → retain_ne p.seq (p ∷ q ∷ []) ≡ []
  unfolding retain_ne
  retain_ne-pair p q same = ground arith

  retry_all-pair :
      (n : LxmfNode net) (p q : PendingSend)
      → n.pending_sends ≡ p ∷ q ∷ []
      → p.seq ≡ q.seq
      → (let (t, sent) =
            attempt net n.transport p.dest (lookup p.dest n.peer_identities) p.lxmf_payload in
          (sent ≡ true)
          × ((attempt net t q.dest (lookup q.dest n.peer_identities) q.lxmf_payload).1 ≡ false))
      → ((retry_all net n (p ∷ q ∷ [])).pending_sends ≡ [])
        × ((retry_all net n (p ∷ q ∷ [])).events
            ≡ n.events ++ (LxmfEvent.message_delivered p.seq (hex_encode p.dest) ∷ []))
  unfolding retry_all retry_result
  retry_all-pair n p q two same h =
      rw (h.0, h.1) (ap (retain_ne p.seq) two ∙ retain_ne-pair p q same, refl)

  -- Two pending sends have the same number, and in a round of the retry the transport delivers the
  -- first and not the second. Then both are gone from the queue, and only the first is reported.
  pub retry_round-same_seq :
      (n : LxmfNode net) (p q : PendingSend)
      → n.pending_sends ≡ p ∷ q ∷ []
      → p.seq ≡ q.seq
      → (let n' = expire_in net n n.store in
          let (t, sent) =
            attempt net n'.transport p.dest (lookup p.dest n'.peer_identities) p.lxmf_payload in
          (sent ≡ true)
          × ((attempt net t q.dest (lookup q.dest n'.peer_identities) q.lxmf_payload).1 ≡ false))
      → ((retry_round net n).pending_sends ≡ [])
        × ((retry_round net n).events
            ≡ (expire_in net n n.store).events
              ++ (LxmfEvent.message_delivered p.seq (hex_encode p.dest) ∷ []))
  unfolding retry_round
  retry_round-same_seq n p q two same h =
      let n' = expire_in net n n.store in
      let both = expire_in-same n n.store ∙ two in
      subst
        (λ ps.
          ((retry_all net n' ps).pending_sends ≡ [])
          × ((retry_all net n' ps).events
              ≡ n'.events ++ (LxmfEvent.message_delivered p.seq (hex_encode p.dest) ∷ [])))
        (sym both) (retry_all-pair n' p q both same h)
