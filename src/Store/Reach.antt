-- ===== src/Store/Reach.antt =====
-- Every state that the store reaches: ids grow, and none is given twice.
use lxmf_react_native_rust.Prelude.{
  ℕ, suc, ◌≤◌, ◌≡◌, refl, ap, inl, inr, Bool, not, Option, List, [], ◌∷◌, ◌++◌, arith, Bytes, leb,
  ◌==◌, if◌then◌else◌, Bool-cases,
}
use lxmf_react_native_rust.Lxmf.Fields.{Named}
use lxmf_react_native_rust.Store.{
  MessageRow, TxRow, OutboundRow, MessageStore, open_new, insert_inbound_message, insert_message,
  insert_solana_tx, update_tx_status, set_status, enqueue_outbound, remove_outbound, delete_id,
  bump_outbound_attempts, bump_id, drain_expired_outbound, drain_found, delete_expired, Expired,
  expired_rows,
}

-- The ids grow strictly, from `lo` on and below `hi`.
unfoldable pub Increasing : ℕ → List ℕ → ℕ → Type 0
Increasing lo [] hi = lo ≤ hi
Increasing lo (i ∷ ids) hi = (lo ≤ i) × Increasing (suc i) ids hi

abbrev pub message_ids : List MessageRow → List ℕ
message_ids [] = []
message_ids (r ∷ rs) = r.id ∷ message_ids rs

abbrev pub tx_ids : List TxRow → List ℕ
tx_ids [] = []
tx_ids (r ∷ rs) = r.id ∷ tx_ids rs

abbrev pub outbound_ids : List OutboundRow → List ℕ
outbound_ids [] = []
outbound_ids (r ∷ rs) = r.id ∷ outbound_ids rs

pub record IsValid (s : MessageStore) : Type 0 where
  pub messages_grow : Increasing 1 (message_ids s.messages) s.next_message
  pub txs_grow : Increasing 1 (tx_ids s.solana_txs) s.next_tx
  pub outbound_grow : Increasing 1 (outbound_ids s.outbound_queue) s.next_outbound

Increasing-weaken :
    (lo lo' hi : ℕ) (ids : List ℕ) → lo' ≤ lo → Increasing lo ids hi → Increasing lo' ids hi
unfolding Increasing
Increasing-weaken lo lo' hi [] h g = omega arith
Increasing-weaken lo lo' hi (i ∷ ids) h g = (omega (arith, g.0), g.1)

Increasing-snoc :
    (lo hi : ℕ) (ids : List ℕ) → Increasing lo ids hi → Increasing lo (ids ++ (hi ∷ [])) (suc hi)
unfolding Increasing
Increasing-snoc lo hi [] g = (g, omega arith)
Increasing-snoc lo hi (i ∷ ids) g = (g.0, Increasing-snoc (suc i) hi ids g.1)

message_ids-append :
    (xs ys : List MessageRow) → message_ids (xs ++ ys) ≡ message_ids xs ++ message_ids ys
message_ids-append [] ys = refl
message_ids-append (x ∷ xs) ys = ap (λ k. x.id ∷ k) (message_ids-append xs ys)

tx_ids-append : (xs ys : List TxRow) → tx_ids (xs ++ ys) ≡ tx_ids xs ++ tx_ids ys
tx_ids-append [] ys = refl
tx_ids-append (x ∷ xs) ys = ap (λ k. x.id ∷ k) (tx_ids-append xs ys)

outbound_ids-append :
    (xs ys : List OutboundRow) → outbound_ids (xs ++ ys) ≡ outbound_ids xs ++ outbound_ids ys
outbound_ids-append [] ys = refl
outbound_ids-append (x ∷ xs) ys = ap (λ k. x.id ∷ k) (outbound_ids-append xs ys)

tx_ids-set_status :
    (rs : List TxRow) (id : ℕ) (status : Bytes) (signature : Option Bytes)
    → tx_ids (set_status rs id status signature) ≡ tx_ids rs
unfolding set_status
tx_ids-set_status [] id status signature = refl
tx_ids-set_status (r ∷ rs) id status signature =
    ground (arith, tx_ids-set_status rs id status signature)

outbound_ids-bump_id :
    (rs : List OutboundRow) (id : ℕ) → outbound_ids (bump_id rs id) ≡ outbound_ids rs
unfolding bump_id
outbound_ids-bump_id [] id = refl
outbound_ids-bump_id (r ∷ rs) id = ground (arith, outbound_ids-bump_id rs id)

-- A subsequence: what any deletion by a test on the row leaves.
module _ (keep : OutboundRow → Bool) where
  abbrev kept : List OutboundRow → List OutboundRow
  kept [] = []
  kept (r ∷ rs) = let rest = kept rs in if keep r then r ∷ rest else rest

  kept-Increasing :
      (lo hi : ℕ) (rs : List OutboundRow)
      → Increasing lo (outbound_ids rs) hi
      → Increasing lo (outbound_ids (kept rs)) hi
  unfolding Increasing
  kept-Increasing lo hi [] g = g
  kept-Increasing lo hi (r ∷ rs) g = elim (Bool-cases (keep r)) [
    | inl h ↦ rw h (g.0, kept-Increasing (suc r.id) hi rs g.1)
    | inr h ↦ rw h (
        Increasing-weaken (suc r.id) lo hi _ (omega (arith, g.0))
          (kept-Increasing (suc r.id) hi rs g.1))
  ]

delete_id-kept :
    (rs : List OutboundRow) (id : ℕ) → delete_id rs id ≡ kept (λ r. not (r.id == id)) rs
unfolding delete_id
delete_id-kept [] id = refl
delete_id-kept (r ∷ rs) id = elim (Bool-cases (r.id == id)) [
  | inl h ↦ rw (h, delete_id-kept rs id) refl
  | inr h ↦ rw (h, delete_id-kept rs id) refl
]

delete_expired-kept :
    (rs : List OutboundRow) (limit : ℕ)
    → delete_expired rs limit ≡ kept (λ r. not (leb limit r.attempts)) rs
unfolding delete_expired
delete_expired-kept [] limit = refl
delete_expired-kept (r ∷ rs) limit = elim (Bool-cases (leb limit r.attempts)) [
  | inl h ↦ rw (h, delete_expired-kept rs limit) refl
  | inr h ↦ rw (h, delete_expired-kept rs limit) refl
]

pub data Reachable : MessageStore → Type 1 where
  opened : Reachable open_new
  inbound_inserted :
      (s : MessageStore) (to_json : List Named → Bytes) (source dest title body : Bytes)
      (image : Option Named) (files : List Named) (timestamp : ℕ)
      → Reachable s
      → Reachable (insert_inbound_message to_json s source dest title body image files timestamp).0
  message_inserted :
      (s : MessageStore) (dest body : Bytes) (outbound : Bool) (now : ℕ)
      → Reachable s
      → Reachable (insert_message s dest body outbound now).0
  tx_inserted :
      (s : MessageStore) (raw_tx : Bytes) (relayed_via : Option Bytes) (now : ℕ)
      → Reachable s
      → Reachable (insert_solana_tx s raw_tx relayed_via now).0
  tx_updated :
      (s : MessageStore) (id : ℕ) (status : Bytes) (signature : Option Bytes)
      → Reachable s
      → Reachable (update_tx_status s id status signature)
  enqueued :
      (s : MessageStore) (seq : ℕ) (dest payload : Bytes) (now : ℕ)
      → Reachable s
      → Reachable (enqueue_outbound s seq dest payload now).0
  removed : (s : MessageStore) (id : ℕ) → Reachable s → Reachable (remove_outbound s id)
  bumped : (s : MessageStore) (id : ℕ) → Reachable s → Reachable (bump_outbound_attempts s id)
  drained :
      (s : MessageStore) (limit : ℕ) → Reachable s → Reachable (drain_expired_outbound s limit).0

pub drain_found-IsValid :
    (s : MessageStore) (limit : ℕ) (found : List Expired)
    → IsValid s
    → IsValid (drain_found s limit found).0
unfolding drain_found
drain_found-IsValid s limit [] v = v
drain_found-IsValid s limit (e ∷ es) v = record {
  messages_grow = v.messages_grow;
  txs_grow = v.txs_grow;
  outbound_grow =
      rw (delete_expired-kept s.outbound_queue limit)
        (kept-Increasing _ 1 s.next_outbound s.outbound_queue v.outbound_grow);
}

pub enqueue_outbound-IsValid :
    (s : MessageStore) (seq : ℕ) (dest payload : Bytes) (now : ℕ)
    → IsValid s
    → IsValid (enqueue_outbound s seq dest payload now).0
unfolding enqueue_outbound
enqueue_outbound-IsValid s seq dest payload now v = record {
  messages_grow = v.messages_grow;
  txs_grow = v.txs_grow;
  outbound_grow =
      rw (outbound_ids-append s.outbound_queue)
        (Increasing-snoc 1 s.next_outbound _ v.outbound_grow);
}

-- In every state that the store's operations reach from a new database, the ids of messages, of
-- transactions and of queued sends grow strictly in the order of their insertion, from 1 on, and
-- the next id of each table is above all of them.
pub Reachable-Grows : (s : MessageStore) → Reachable s → IsValid s
unfolding insert_inbound_message insert_message insert_solana_tx update_tx_status remove_outbound
    bump_outbound_attempts drain_expired_outbound Increasing
Reachable-Grows s opened = record {
  messages_grow = omega arith;
  txs_grow = omega arith;
  outbound_grow = omega arith;
}
Reachable-Grows _ (inbound_inserted s to_json source dest title body image files timestamp r) =
    let v = Reachable-Grows s r in
    record {
      messages_grow =
          rw (message_ids-append s.messages) (Increasing-snoc 1 s.next_message _ v.messages_grow);
      txs_grow = v.txs_grow;
      outbound_grow = v.outbound_grow;
    }
Reachable-Grows _ (message_inserted s dest body outbound now r) =
    let v = Reachable-Grows s r in
    record {
      messages_grow =
          rw (message_ids-append s.messages) (Increasing-snoc 1 s.next_message _ v.messages_grow);
      txs_grow = v.txs_grow;
      outbound_grow = v.outbound_grow;
    }
Reachable-Grows _ (tx_inserted s raw_tx relayed_via now r) =
    let v = Reachable-Grows s r in
    record {
      messages_grow = v.messages_grow;
      txs_grow = rw (tx_ids-append s.solana_txs) (Increasing-snoc 1 s.next_tx _ v.txs_grow);
      outbound_grow = v.outbound_grow;
    }
Reachable-Grows _ (tx_updated s id status signature r) =
    let v = Reachable-Grows s r in
    record {
      messages_grow = v.messages_grow;
      txs_grow = rw (tx_ids-set_status s.solana_txs id status signature) v.txs_grow;
      outbound_grow = v.outbound_grow;
    }
Reachable-Grows _ (enqueued s seq dest payload now r) =
    enqueue_outbound-IsValid s seq dest payload now (Reachable-Grows s r)
Reachable-Grows _ (removed s id r) =
    let v = Reachable-Grows s r in
    record {
      messages_grow = v.messages_grow;
      txs_grow = v.txs_grow;
      outbound_grow =
          rw (delete_id-kept s.outbound_queue id)
            (kept-Increasing _ 1 s.next_outbound s.outbound_queue v.outbound_grow);
    }
Reachable-Grows _ (bumped s id r) =
    let v = Reachable-Grows s r in
    record {
      messages_grow = v.messages_grow;
      txs_grow = v.txs_grow;
      outbound_grow = rw (outbound_ids-bump_id s.outbound_queue id) v.outbound_grow;
    }
Reachable-Grows _ (drained s limit r) =
    drain_found-IsValid s limit (expired_rows s.outbound_queue limit) (Reachable-Grows s r)
