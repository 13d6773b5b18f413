-- ===== src/Store/Outbound.antt =====
-- The queue of sends in the store: what is enqueued is read back, until it is removed.
use lxmf_react_native_rust.Prelude.{
  ℕ, suc, ◌≤◌, ◌≡◌, refl, sym, ap, ap₂, ◌∙◌, inl, inr, List, [], ◌∷◌, ◌++◌, append-nil, arith,
  Bytes, ltb, Bool-cases, length, take, drop, replicate,
}
use lxmf_react_native_rust.Store.{
  OutboundRow, MessageStore, max_attempts, dest_array, enqueue_outbound, retryable,
  all_outbound_queue, delete_id, remove_outbound,
}
use lxmf_react_native_rust.Store.Reach.{Increasing, outbound_ids, IsValid}

pub retryable-append :
    (xs ys : List OutboundRow) → retryable (xs ++ ys) ≡ retryable xs ++ retryable ys
unfolding retryable
retryable-append [] ys = refl
retryable-append (x ∷ xs) ys = elim (Bool-cases (ltb x.attempts max_attempts)) [
  | inl h ↦ rw (h, retryable-append xs ys) refl
  | inr h ↦ rw (h, retryable-append xs ys) refl
]

-- Ids below `hi` leave the row of `hi` alone at the end.
pub delete_id-last :
    (lo : ℕ) (rs : List OutboundRow) (r : OutboundRow)
    → Increasing lo (outbound_ids rs) r.id
    → delete_id (rs ++ (r ∷ [])) r.id ≡ rs
unfolding delete_id Increasing
delete_id-last lo [] r g = ground arith
delete_id-last lo (x ∷ rs) r g =
    let below = Increasing-below (suc x.id) (outbound_ids rs) r.id g.1 in
    let rest = delete_id-last (suc x.id) rs r g.1 in ground arith
  where
    Increasing-below : (low : ℕ) (ids : List ℕ) (hi : ℕ) → Increasing low ids hi → low ≤ hi
    Increasing-below low [] hi k = k
    Increasing-below low (i ∷ ids) hi k = omega (arith, k.0, Increasing-below (suc i) ids hi k.1)

pub dest_array_whole : (dest : Bytes) → length dest ≡ 16 → dest_array dest ≡ dest
unfolding dest_array
dest_array_whole dest h =
    ap₂ ◌++◌ (ap (λ k. take k dest) (sym h) ∙ take_all dest) (ap (λ k. drop k (replicate 16 0)) h)
    ∙ append-nil dest
  where
    take_all : (xs : Bytes) → take (length xs) xs ≡ xs
    take_all [] = refl
    take_all (x ∷ xs) = ap (λ k. x ∷ k) (take_all xs)

-- A send to a 16-byte destination that is enqueued in a store whose ids grow is read back last, with
-- its id, number, destination and payload, behind all that was there; removing it by the id that
-- was returned gives back the queue that was there.
pub enqueue_outbound_lem :
    (s : MessageStore) (seq : ℕ) (dest payload : Bytes) (now : ℕ)
    → IsValid s
    → length dest ≡ 16
    → let (s', id) = enqueue_outbound s seq dest payload now in
      (all_outbound_queue s'
        ≡ all_outbound_queue s
          ++ (record { id = id; seq = seq; dest = dest; payload = payload } ∷ []))
      × (all_outbound_queue (remove_outbound s' id) ≡ all_outbound_queue s)
unfolding enqueue_outbound all_outbound_queue remove_outbound
enqueue_outbound_lem s seq dest payload now v h = (
  retryable-append s.outbound_queue _
      ∙ ap
          (λ d.
            retryable s.outbound_queue
            ++ (record { id = s.next_outbound; seq = seq; dest = d; payload = payload } ∷ []))
          (dest_array_whole dest h),
  ap retryable (delete_id-last 1 s.outbound_queue _ v.outbound_grow),
)
