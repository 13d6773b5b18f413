-- ===== src/Store/Refine.antt =====
-- rust-core/src/store.rs: the table of queued sends as a map from ids to rows.
use lxmf_react_native_rust.Prelude.{
  ℕ, suc, ◌<◌, ◌≡◌, refl, sym, ap, ◌∙◌, inl, inr, Option, none, some, List, [], ◌∷◌, ◌++◌, arith,
  Bytes, ltb, leb, ◌==◌, if◌then◌else◌, ==_iff, Bool-cases,
}
use lxmf_react_native_rust.Store.Expiry.{Increasing-below}
use lxmf_react_native_rust.Store.{
  OutboundRow, MessageStore, Expired, enqueue_outbound, delete_id, remove_outbound, bump_id,
  bump_outbound_attempts, expired_rows, delete_expired, drain_found, drain_expired_outbound,
}
use lxmf_react_native_rust.Store.Reach.{Increasing, outbound_ids, IsValid}

abbrev pub find_id : List OutboundRow → ℕ → Option OutboundRow
find_id [] id = none
find_id (r ∷ rs) id = if r.id == id then some r else find_id rs id

-- One more attempt.
abbrev pub raised : Option OutboundRow → Option OutboundRow
raised none = none
raised (some r) = some (record r { attempts = suc r.attempts })

-- The row, if it has had fewer attempts than the limit.
abbrev pub fresh : ℕ → Option OutboundRow → Option OutboundRow
fresh limit none = none
fresh limit (some r) = if ltb r.attempts limit then some r else none

-- What the queue has under an id.
abbrev pub sends : MessageStore → ℕ → Option OutboundRow
sends s id = find_id s.outbound_queue id

find-delete_id :
    (rs : List OutboundRow) (id j : ℕ)
    → find_id (delete_id rs id) j ≡ (if j == id then none else find_id rs j)
unfolding delete_id
find-delete_id [] id j = ground arith
find-delete_id (r ∷ rs) id j = ground (arith, find-delete_id rs id j)

find-bump_id :
    (rs : List OutboundRow) (id j : ℕ)
    → find_id (bump_id rs id) j ≡ (if j == id then raised (find_id rs j) else find_id rs j)
unfolding bump_id
find-bump_id [] id j = ground arith
find-bump_id (r ∷ rs) id j = ground (arith, find-bump_id rs id j)

find_below :
    (lo : ℕ) (rs : List OutboundRow) (hi j : ℕ)
    → Increasing lo (outbound_ids rs) hi
    → j < lo
    → find_id rs j ≡ none
unfolding Increasing
find_below lo [] hi j g h = refl
find_below lo (r ∷ rs) hi j g h =
    let rest = find_below (suc r.id) rs hi j g.1 (omega (arith, g.0, h)) in ground (arith, g.0)

find-snoc :
    (lo : ℕ) (rs : List OutboundRow) (r : OutboundRow) (j : ℕ)
    → Increasing lo (outbound_ids rs) r.id
    → find_id (rs ++ (r ∷ [])) j ≡ (if j == r.id then some r else find_id rs j)
unfolding Increasing
find-snoc lo [] r j g = ground arith
find-snoc lo (x ∷ rs) r j g =
    let rest = find-snoc (suc x.id) rs r j g.1 in
    let below = Increasing-below (suc x.id) (outbound_ids rs) r.id g.1 in ground arith

find-delete_expired :
    (lo : ℕ) (rs : List OutboundRow) (hi limit j : ℕ)
    → Increasing lo (outbound_ids rs) hi
    → find_id (delete_expired rs limit) j ≡ fresh limit (find_id rs j)
unfolding Increasing delete_expired
find-delete_expired lo [] hi limit j g = refl
find-delete_expired lo (r ∷ rs) hi limit j g =
    let rest = find-delete_expired (suc r.id) rs hi limit j g.1 in
    let gone : r.id ≡ j → find_id rs j ≡ none =
      λ e. find_below (suc r.id) rs hi j g.1 (omega (arith, e)) in
    elim (Bool-cases (r.id == j)) [
      | inl same ↦ elim (Bool-cases (leb limit r.attempts)) [
        | inl old ↦ rw (old, same, rest, gone ((==_iff r.id j).0 same)) (ground arith)
        | inr young ↦ rw (young, same) (ground arith)
      ]
      | inr other ↦ elim (Bool-cases (leb limit r.attempts)) [
        | inl old ↦ rw (old, other) rest
        | inr young ↦ rw (young, other) rest
      ]
    ]

expired_rows-none :
    (rs : List OutboundRow) (limit : ℕ) → expired_rows rs limit ≡ [] → delete_expired rs limit ≡ rs
unfolding expired_rows delete_expired
expired_rows-none [] limit h = refl
expired_rows-none (r ∷ rs) limit h = ground (arith, expired_rows-none rs limit)

drained_as :
    (s : MessageStore) (limit : ℕ) (found : List Expired) (id : ℕ)
    → IsValid s
    → expired_rows s.outbound_queue limit ≡ found
    → sends (drain_found s limit found).0 id ≡ fresh limit (sends s id)
unfolding drain_found
drained_as s limit [] id v h =
    ap (λ rs. find_id rs id) (sym (expired_rows-none s.outbound_queue limit h))
    ∙ find-delete_expired 1 s.outbound_queue s.next_outbound limit id v.outbound_grow
drained_as s limit (e ∷ es) id v h =
    find-delete_expired 1 s.outbound_queue s.next_outbound limit id v.outbound_grow

find_above :
    (lo : ℕ) (rs : List OutboundRow) (hi : ℕ)
    → Increasing lo (outbound_ids rs) hi
    → find_id rs hi ≡ none
unfolding Increasing
find_above lo [] hi g = refl
find_above lo (r ∷ rs) hi g =
    let below = Increasing-below (suc r.id) (outbound_ids rs) hi g.1 in
    let rest = find_above (suc r.id) rs hi g.1 in ground arith

-- In a store whose ids grow, the queued sends are a map from ids to rows, and each operation on them
-- changes the map just so: enqueuing puts a row without attempts under the id that it returns, under
-- which there was none; removing an id and counting an attempt of an id change what is under this id
-- alone; and draining leaves under each id what has had fewer attempts than the limit.
pub sends_lem :
    (s : MessageStore) (seq : ℕ) (dest payload : Bytes) (now id limit j : ℕ)
    → IsValid s
    → (let (s', new_id) = enqueue_outbound s seq dest payload now in
        (sends s new_id ≡ none)
        × (sends s' j ≡ (
            if j == new_id
            then some (record {
              id = new_id;
              seq = seq;
              dest_hash = dest;
              lxmf_payload = payload;
              queued_at = now;
              attempts = 0;
            })
            else sends s j)))
      × (sends (remove_outbound s id) j ≡ (if j == id then none else sends s j))
      × (sends (bump_outbound_attempts s id) j
          ≡ (if j == id then raised (sends s j) else sends s j))
      × (sends (drain_expired_outbound s limit).0 j ≡ fresh limit (sends s j))
unfolding enqueue_outbound remove_outbound bump_outbound_attempts drain_expired_outbound
sends_lem s seq dest payload now id limit j v = (
  (
    find_above 1 s.outbound_queue s.next_outbound v.outbound_grow,
    find-snoc 1 s.outbound_queue _ j v.outbound_grow,
  ),
  find-delete_id s.outbound_queue id j,
  find-bump_id s.outbound_queue id j,
  drained_as s limit (expired_rows s.outbound_queue limit) j v refl,
)
