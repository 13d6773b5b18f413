-- ===== src/Store/Expiry.antt =====
-- Attempts are counted, and a send that has used up its attempts is given up.
use lxmf_react_native_rust.Prelude.{
  ℕ, zero, suc, ◌+◌, ◌≤◌, ◌≡◌, refl, sym, ap, ap₂, ◌∙◌, inl, inr, List, [], ◌∷◌, ◌++◌, arith, Bytes,
  ltb, leb, if◌then◌else◌, Bool-cases, length,
}
use lxmf_react_native_rust.Store.{
  queued_send, OutboundRow, MessageStore, Expired, max_attempts, enqueue_outbound, retryable,
  all_outbound_queue, bump_id, bump_outbound_attempts, expired_rows, delete_expired, drain_found,
  drain_expired_outbound,
}
use lxmf_react_native_rust.Store.Reach.{Increasing, outbound_ids, IsValid}
use lxmf_react_native_rust.Store.Outbound.{retryable-append, dest_array_whole}

retryable-delete_expired :
    (rs : List OutboundRow) → retryable (delete_expired rs max_attempts) ≡ retryable rs
unfolding retryable delete_expired
retryable-delete_expired [] = refl
retryable-delete_expired (r ∷ rs) = ground (arith, retryable-delete_expired rs)

expired-delete_expired :
    (rs : List OutboundRow) (limit : ℕ) → expired_rows (delete_expired rs limit) limit ≡ []
unfolding expired_rows delete_expired
expired-delete_expired [] limit = refl
expired-delete_expired (r ∷ rs) limit = ground (arith, expired-delete_expired rs limit)

counted :
    (rs : List OutboundRow)
    → length (retryable rs) + length (expired_rows rs max_attempts) ≡ length rs
unfolding retryable expired_rows
counted [] = refl
counted (r ∷ rs) = ground (arith, counted rs)

drain_found_lem :
    (s : MessageStore) (found : List Expired)
    → expired_rows s.outbound_queue max_attempts ≡ found
    → let (s', out) = drain_found s max_attempts found in
      (out ≡ found)
      × (all_outbound_queue s' ≡ all_outbound_queue s)
      × (expired_rows s'.outbound_queue max_attempts ≡ [])
unfolding drain_found all_outbound_queue
drain_found_lem s [] h = (refl, refl, h)
drain_found_lem s (e ∷ es) h = (
  refl,
  retryable-delete_expired s.outbound_queue,
  expired-delete_expired s.outbound_queue max_attempts,
)

-- Draining what has had 50 attempts takes no send away that is still retried; every queued send was
-- either to be retried or is drained, never both; and what was drained is not drained again.
pub drain_expired_outbound_lem :
    (s : MessageStore)
    → let (s', out) = drain_expired_outbound s max_attempts in
      (all_outbound_queue s' ≡ all_outbound_queue s)
      × (length (all_outbound_queue s) + length out ≡ length s.outbound_queue)
      × ((drain_expired_outbound s' max_attempts).1 ≡ [])
unfolding drain_expired_outbound
drain_expired_outbound_lem s =
    let (same, kept, gone) = drain_found_lem s (expired_rows s.outbound_queue max_attempts) refl in
    (
      kept,
      ap (λ out. length (all_outbound_queue s) + length out) same
          ∙ (unfold all_outbound_queue in counted s.outbound_queue),
      rw gone (unfold drain_found in refl),
    )

-- The count of attempts is raised `k` times.
unfoldable pub bump_times : ℕ → MessageStore → ℕ → MessageStore
bump_times zero s id = s
bump_times (suc k) s id = bump_outbound_attempts (bump_times k s id) id

pub Increasing-below : (lo : ℕ) (ids : List ℕ) (hi : ℕ) → Increasing lo ids hi → lo ≤ hi
unfolding Increasing
Increasing-below lo [] hi g = g
Increasing-below lo (i ∷ ids) hi g = omega (arith, g.0, Increasing-below (suc i) ids hi g.1)

bump_id-last :
    (lo : ℕ) (rs : List OutboundRow) (r : OutboundRow)
    → Increasing lo (outbound_ids rs) r.id
    → bump_id (rs ++ (r ∷ [])) r.id ≡ rs ++ (record r { attempts = suc r.attempts } ∷ [])
unfolding bump_id Increasing
bump_id-last lo [] r g = ground arith
bump_id-last lo (x ∷ rs) r g =
    let below = Increasing-below (suc x.id) (outbound_ids rs) r.id g.1 in
    let rest = bump_id-last (suc x.id) rs r g.1 in ground arith

expired_rows-append :
    (xs ys : List OutboundRow) (limit : ℕ)
    → expired_rows (xs ++ ys) limit ≡ expired_rows xs limit ++ expired_rows ys limit
unfolding expired_rows
expired_rows-append [] ys limit = refl
expired_rows-append (x ∷ xs) ys limit = elim (Bool-cases (leb limit x.attempts)) [
  | inl h ↦ rw (h, expired_rows-append xs ys limit) refl
  | inr h ↦ rw (h, expired_rows-append xs ys limit) refl
]

module _ (s : MessageStore) (seq : ℕ) (dest payload : Bytes) (now : ℕ) where
  abbrev row_after : ℕ → OutboundRow
  row_after k = record {
    id = s.next_outbound;
    seq = seq;
    dest_hash = dest;
    lxmf_payload = payload;
    queued_at = now;
    attempts = k;
  }

  bumped_queue :
      (k : ℕ)
      → IsValid s
      → (bump_times k (enqueue_outbound s seq dest payload now).0 s.next_outbound).outbound_queue
        ≡ s.outbound_queue ++ (row_after k ∷ [])
  unfolding bump_times enqueue_outbound bump_outbound_attempts
  bumped_queue zero v = refl
  bumped_queue (suc k) v =
      ap (λ q. bump_id q s.next_outbound) (bumped_queue k v)
      ∙ bump_id-last 1 s.outbound_queue (row_after k) v.outbound_grow

  retryable_row :
      (k : ℕ)
      → length dest ≡ 16
      → retryable (row_after k ∷ []) ≡ (
          if ltb k max_attempts
          then record { id = s.next_outbound; seq = seq; dest = dest; payload = payload } ∷ []
          else [])
  unfolding retryable queued_send
  retryable_row k h = rw (dest_array_whole dest h) refl

  expired_row :
      (k : ℕ)
      → length dest ≡ 16
      → expired_rows (row_after k ∷ []) max_attempts ≡ (
          if leb max_attempts k
          then record { id = s.next_outbound; seq = seq; dest = dest } ∷ []
          else [])
  unfolding expired_rows
  expired_row k h = rw (dest_array_whole dest h) refl

  -- A send to a 16-byte destination that is enqueued in a store whose ids grow, and then fails `k`
  -- times, is read back for a retry, behind the others, exactly if `k` is below 50; and the next
  -- drain returns it, behind the others that it returns, exactly if `k` is 50 or more.
  pub given_up :
      (k : ℕ)
      → IsValid s
      → length dest ≡ 16
      → let (s', id) = enqueue_outbound s seq dest payload now in
        let t = bump_times k s' id in
        (all_outbound_queue t
          ≡ all_outbound_queue s
            ++ (if ltb k max_attempts
                then record { id = id; seq = seq; dest = dest; payload = payload } ∷ []
                else []))
        × ((drain_expired_outbound t max_attempts).1
            ≡ (drain_expired_outbound s max_attempts).1
              ++ (if leb max_attempts k
                  then record { id = id; seq = seq; dest = dest } ∷ []
                  else []))
  unfolding all_outbound_queue drain_expired_outbound enqueue_outbound
  given_up k v h =
      let t = bump_times k (enqueue_outbound s seq dest payload now).0 s.next_outbound in
      (
        ap retryable (bumped_queue k v)
            ∙ retryable-append s.outbound_queue (row_after k ∷ [])
            ∙ ap (λ q. retryable s.outbound_queue ++ q) (retryable_row k h),
        (drain_found_lem t (expired_rows t.outbound_queue max_attempts) refl).0
            ∙ ap (λ q. expired_rows q max_attempts) (bumped_queue k v)
            ∙ expired_rows-append s.outbound_queue (row_after k ∷ []) max_attempts
            ∙ ap₂ ◌++◌ (sym (drain_found_lem s (expired_rows s.outbound_queue max_attempts) refl).0)
                (expired_row k h),
      )
