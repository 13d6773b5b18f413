-- ===== src/Node/Restart.antt =====
-- A start on what the store has kept: what is loaded, and what a new start does not know.
use lxmf_react_native_rust.Prelude.{
  ℕ, ◌<◌, ◌≡◌, refl, sym, ap, ◌∙◌, inl, inr, Bool, true, false, ◌||◌, some, List, [], ◌∷◌, ◌++◌,
  append-nil, arith, Bytes, lt→ltb, Bool-cases, length, take,
}
use lxmf_react_native_rust.Store.{MessageStore, QueuedSend, all_outbound_queue}
use lxmf_react_native_rust.Node.{PendingSend, SendPacketOutcome, Network}
use lxmf_react_native_rust.Node.Pending.{has_seq, of_row, new_rows, reload}
use lxmf_react_native_rust.Node.Retry.{Distinct}
use lxmf_react_native_rust.Node.Send.{pending_cap, dispatch, queue_send}
use lxmf_react_native_rust.Node.Lifecycle.{init, Setup, spawn_tasks, set_started, start_mode}

has_seq-append :
    (seq : ℕ) (xs ys : List PendingSend)
    → has_seq seq (xs ++ ys) ≡ (has_seq seq xs || has_seq seq ys)
unfolding has_seq
has_seq-append seq [] ys = refl
has_seq-append seq (x ∷ xs) ys = ground (arith, has_seq-append seq xs ys)

-- Every row's number is in the queue.
abbrev pub AllPresent : List QueuedSend → List PendingSend → Type 0
AllPresent [] q = Unit
AllPresent (r ∷ rs) q = (has_seq r.seq q ≡ true) × AllPresent rs q

new_rows-AllPresent :
    (rs : List QueuedSend) (q : List PendingSend) → AllPresent rs q → new_rows q rs ≡ []
unfolding new_rows
new_rows-AllPresent [] q a = refl
new_rows-AllPresent (r ∷ rs) q a = rw (a.0) (new_rows-AllPresent rs q a.1)

AllPresent-more :
    (rs : List QueuedSend) (q ys : List PendingSend) (y : PendingSend)
    → AllPresent rs (q ++ ys)
    → AllPresent rs (q ++ (y ∷ ys))
AllPresent-more [] q ys y a = tt
AllPresent-more (r ∷ rs) q ys y a = (
  more (has_seq-append r.seq q ys) (has_seq-append r.seq q (y ∷ ys)),
  AllPresent-more rs q ys y a.1,
)
  where
    more :
        has_seq r.seq (q ++ ys) ≡ (has_seq r.seq q || has_seq r.seq ys)
        → has_seq r.seq (q ++ (y ∷ ys)) ≡ (has_seq r.seq q || has_seq r.seq (y ∷ ys))
        → has_seq r.seq (q ++ (y ∷ ys)) ≡ true
    more e f = unfold has_seq in ground (arith, a.0)

loaded-AllPresent :
    (rs : List QueuedSend) (q : List PendingSend) → AllPresent rs (q ++ new_rows q rs)
unfolding new_rows
loaded-AllPresent [] q = tt
loaded-AllPresent (r ∷ rs) q = elim (Bool-cases (has_seq r.seq q)) [
  | inl h ↦ rw h (has_seq-append r.seq q (new_rows q rs) ∙ rw h refl, loaded-AllPresent rs q)
  | inr h ↦ rw h (
    has_seq-append r.seq q (of_row r ∷ new_rows q rs) ∙ (unfold has_seq of_row in ground arith),
    AllPresent-more rs q (new_rows q rs) (of_row r) (loaded-AllPresent rs q),
  )
]

-- After the queue is loaded from a store, the number of every send that the store has for a retry is
-- in the queue, behind the entries that were there; and to load it once more changes nothing.
pub reload-AllPresent :
    (q : List PendingSend) (s : MessageStore)
    → AllPresent (all_outbound_queue s) (reload q (some s))
      × (take (length q) (reload q (some s)) ≡ q)
      × (reload (reload q (some s)) (some s) ≡ reload q (some s))
unfolding reload
reload-AllPresent q s =
    let rows = all_outbound_queue s in
    let loaded = q ++ new_rows q rows in
    (
      loaded-AllPresent rows q,
      take_front q (new_rows q rows),
      ap (λ more. loaded ++ more) (new_rows-AllPresent rows loaded (loaded-AllPresent rows q))
          ∙ append-nil loaded,
    )
  where
    take_front : (xs ys : List PendingSend) → take (length xs) (xs ++ ys) ≡ xs
    take_front [] ys = refl
    take_front (x ∷ xs) ys = ap (λ zs. x ∷ zs) (take_front xs ys)

Distinct-front :
    (x y : PendingSend) (xs : List PendingSend)
    → x.seq ≡ y.seq
    → ¬ (Distinct (x ∷ (xs ++ (y ∷ []))))
Distinct-front x y xs e d =
    let clash : false ≡ true = sym (d.0) ∙ has_seq-append x.seq xs (y ∷ []) ∙ or_true in cc
  where
    or_true : (has_seq x.seq xs || has_seq x.seq (y ∷ [])) ≡ true
    or_true = unfold has_seq in ground arith

module _ (net : Network) where
  -- The first row that the store keeps for a retry has the number 0, as the first message of an earlier
  -- run has. A new node that is started on this store, with fewer than 1000 rows to retry, gives the
  -- first message that finds no route the same number: the numbers in its queue are not distinct.
  pub start_mode-reused_seq :
      (idle : net.Transport) (s : MessageStore) (r : QueuedSend) (rs : List QueuedSend) (mode : ℕ)
      (is_beacon : Bool) (setup : Setup net) (dest dest_hex payload : Bytes) (now : ℕ)
      → all_outbound_queue s ≡ r ∷ rs
      → r.seq ≡ 0
      → length (reload [] (some s)) < pending_cap
      → let n = (start_mode net (init net idle (some s)) mode is_beacon setup).0 in
        ¬ (
          Distinct
            (dispatch net n n.outbound_sent dest dest_hex payload now
              SendPacketOutcome.dropped_no_route).0.pending_sends)
  unfolding start_mode spawn_tasks set_started init dispatch queue_send reload new_rows has_seq
      of_row
  start_mode-reused_seq idle s r rs mode is_beacon setup dest dest_hex payload now rows zero_seq
        small =
      let room = lt→ltb (length (new_rows [] (all_outbound_queue s))) pending_cap small in
      rw (room, rows) (Distinct-front (of_row r) _ (new_rows [] rs) zero_seq)
