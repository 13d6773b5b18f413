-- ===== src/Ble/Worker/Assembly.antt =====
-- Reassembly of the segments of one message, and what a lost segment does to it.
use lxmf_react_native_rust.Prelude.{
  ℕ, suc, ◌+◌, ◌≡◌, refl, ap, ◌∙◌, inl, inr, false, Option, none, some, List, [], ◌∷◌, ◌++◌, arith,
  Bytes, ◌==◌, Bool-cases, bytes_eq, length, set, replicate, length-replicate,
}
use lxmf_react_native_rust.Prelude.Map.{
  bytes_Eq, lookup, insert, remove, lookup-insert, lookup-remove,
}
use lxmf_react_native_rust.Ble.Segment.{PeerAssembly, new, push, joined}
use lxmf_react_native_rust.Ble.Segment.Split.{flat}
use lxmf_react_native_rust.Ble.Queues.{Addr}
use lxmf_react_native_rust.Ble.Worker.{current, settle, add_segment, reassemble}

-- The slots after the segments of `done`, with `k` still to come.
abbrev pub partial : List Bytes → ℕ → List (Option Bytes)
partial [] k = replicate k none
partial (c ∷ done) k = some c ∷ partial done k

length-partial : (done : List Bytes) (k : ℕ) → length (partial done k) ≡ length done + k
length-partial [] k = length-replicate k none ∙ omega arith
length-partial (c ∷ done) k = omega (arith, length-partial done k)

set-partial :
    (done : List Bytes) (k : ℕ) (c : Bytes)
    → set (partial done (suc k)) (length done) (some c) ≡ partial (done ++ (c ∷ [])) k
set-partial [] k c = refl
set-partial (d ∷ done) k c = ap (◌∷◌ (some d)) (set-partial done k c)

joined-partial : (done : List Bytes) → joined (partial done 0) ≡ some (flat done)
joined-partial [] = refl
joined-partial (c ∷ done) = rw (joined-partial done, joined) refl

joined-partial_more : (done : List Bytes) (k : ℕ) → joined (partial done (suc k)) ≡ none
joined-partial_more [] k = refl
joined-partial_more (c ∷ done) k = rw (joined-partial_more done k, joined) refl

-- The assembly of a message of `total` segments that has got those of `done`.
abbrev pub halfway : ℕ → List Bytes → ℕ → PeerAssembly
halfway total done k = record { total_segs = total; slots = partial done k }

pub push-halfway :
    (total : ℕ) (done : List Bytes) (k : ℕ) (c : Bytes)
    → push (halfway total done (suc k)) (length done) c
      ≡ (halfway total (done ++ (c ∷ [])) k, joined (partial (done ++ (c ∷ [])) k))
unfolding push
push-halfway total done k c = ground (arith, length-partial done (suc k), set-partial done k c)

pub new-halfway : (total : ℕ) → new total ≡ halfway total [] total
unfolding new
new-halfway total = refl

module _ (table : List (Addr × PeerAssembly)) (peer : Addr) (total : ℕ) where
  pub add_segment-more :
      (done : List Bytes) (k : ℕ) (c : Bytes)
      → current (lookup peer table) total ≡ halfway total done (suc (suc k))
      → add_segment table peer (length done) total c
        ≡ (insert peer (halfway total (done ++ (c ∷ [])) (suc k)) table, none)
  unfolding add_segment settle
  add_segment-more done k c h =
      ap (λ s. settle table peer (push s (length done) c)) h
      ∙ ap (settle table peer) (push-halfway total done (suc k) c)
      ∙ ap (λ o. settle table peer (halfway total (done ++ (c ∷ [])) (suc k), o))
          (joined-partial_more (done ++ (c ∷ [])) k)

  pub add_segment-last :
      (done : List Bytes) (c : Bytes)
      → current (lookup peer table) total ≡ halfway total done 1
      → add_segment table peer (length done) total c ≡ (
        remove peer (insert peer (halfway total (done ++ (c ∷ [])) 0) table),
        some (flat (done ++ (c ∷ []))),
      )
  unfolding add_segment settle
  add_segment-last done c h =
      ap (λ s. settle table peer (push s (length done) c)) h
      ∙ ap (settle table peer) (push-halfway total done 0 c)
      ∙ ap (λ o. settle table peer (halfway total (done ++ (c ∷ [])) 0, o))
          (joined-partial (done ++ (c ∷ [])))

pub current_same :
    (state : PeerAssembly) (total : ℕ)
    → state.total_segs ≡ total
    → current (some state) total ≡ state
unfolding current
current_same state total h = ground arith

-- Writing the entry of one peer leaves the other peers' as they are.
settle-other :
    (table : List (Addr × PeerAssembly)) (peer other : Addr) (r : PeerAssembly × Option Bytes)
    → bytes_eq peer other ≡ false
    → lookup other (settle table peer r).0 ≡ lookup other table
unfolding settle
settle-other table peer other (state, none) h = rw (lookup-insert peer other state table, h) refl
settle-other table peer other (state, some p) h =
    rw
      (
        lookup-remove peer other (insert peer state table),
        h,
        lookup-insert peer other state table,
        h,
      )
      refl

-- A frame from one peer leaves what is assembled for every other peer as it is.
pub reassemble-other :
    (table : List (Addr × PeerAssembly)) (peer other : Addr) (frame : Bytes)
    → bytes_eq peer other ≡ false
    → lookup other (reassemble table peer frame).0 ≡ lookup other table
unfolding reassemble
reassemble-other table peer other [] h = refl
reassemble-other table peer other (i ∷ []) h = refl
reassemble-other table peer other (i ∷ total ∷ p) h = elim (Bool-cases (total == 1)) [
  | inl one ↦ rw one (rw (lookup-remove peer other table, h) refl)
  | inr more ↦
      rw more (settle-other table peer other (push (current (lookup peer table) total) i p) h)
]

-- Two slots, of which the first is missing.
abbrev pub second_half : Bytes → PeerAssembly
second_half p = record { total_segs = 2; slots = none ∷ some p ∷ [] }
