-- ===== src/Ble/Queues/Peers.antt =====
-- The table of connected peers as a set.
use lxmf_react_native_rust.Prelude.{
  ◌+◌, ◌≤◌, ◌≡◌, refl, inl, inr, false, not, ◌&&◌, ◌||◌, List, [], ◌∷◌, ◌++◌, arith, if◌then◌else◌,
  Bool-cases, bytes_eq, length, length-append,
}
use lxmf_react_native_rust.Prelude.Map.{bytes_eq_iff}
use lxmf_react_native_rust.Ble.Queues.{
  Addr, Ble, contains, retain_ne, on_ble_connected, on_ble_disconnected, ble_peer_count,
}

-- No address is listed twice.
abbrev pub NoDuplicates : List Addr → Type 0
NoDuplicates [] = Unit {0}
NoDuplicates (p ∷ ps) = (contains ps p ≡ false) × NoDuplicates ps

contains-append_one :
    (ps : List Addr) (a x : Addr) → contains (ps ++ (a ∷ [])) x ≡ (contains ps x || bytes_eq a x)
unfolding contains
contains-append_one [] a x = ground arith
contains-append_one (p ∷ ps) a x = ground (arith, contains-append_one ps a x)

contains-retain_ne :
    (ps : List Addr) (a x : Addr)
    → contains (retain_ne ps a) x ≡ (not (bytes_eq a x) && contains ps x)
unfolding contains retain_ne
contains-retain_ne [] a x = ground arith
contains-retain_ne (p ∷ ps) a x =
    ground (arith, contains-retain_ne ps a x, bytes_eq_iff p a, bytes_eq_iff p x, bytes_eq_iff a x)

NoDuplicates-append_one :
    (ps : List Addr) (a : Addr)
    → contains ps a ≡ false
    → NoDuplicates ps
    → NoDuplicates (ps ++ (a ∷ []))
unfolding contains
NoDuplicates-append_one [] a h n = (refl, tt)
NoDuplicates-append_one (p ∷ ps) a h n = (
  ground (arith, n.0, contains-append_one ps a p, bytes_eq_iff p a, bytes_eq_iff a p),
  NoDuplicates-append_one ps a (ground arith) n.1,
)

NoDuplicates-retain_ne :
    (ps : List Addr) (a : Addr) → NoDuplicates ps → NoDuplicates (retain_ne ps a)
unfolding retain_ne
NoDuplicates-retain_ne [] a n = tt
NoDuplicates-retain_ne (p ∷ ps) a n =
    ground (arith, contains-retain_ne ps a p, NoDuplicates-retain_ne ps a n.1)

length-retain_ne-le : (ps : List Addr) (a : Addr) → length (retain_ne ps a) ≤ length ps
unfolding retain_ne
length-retain_ne-le [] a = omega arith
length-retain_ne-le (p ∷ ps) a = ground (arith, length-retain_ne-le ps a)

-- With no peer listed twice, a connect adds exactly its peer to the set and keeps the list free of
-- duplicates; it notifies, and counts one more peer, exactly when the peer was not listed.
pub on_ble_connected_lem :
    (b : Ble) (peer : Addr)
    → NoDuplicates b.peers
    → let (b', notified) = on_ble_connected b peer in
      NoDuplicates b'.peers
      × ((x : Addr) → contains b'.peers x ≡ (contains b.peers x || bytes_eq peer x))
      × (notified ≡ not (contains b.peers peer))
      × (ble_peer_count b' ≡ ble_peer_count b + (if notified then 1 else 0))
unfolding on_ble_connected ble_peer_count
on_ble_connected_lem b peer n = elim (Bool-cases (contains b.peers peer)) [
  | inl old ↦ rw old (n, (λ x. ground (arith, old, bytes_eq_iff peer x)), refl, omega arith)
  | inr new ↦ rw new (
    NoDuplicates-append_one b.peers peer new n,
    contains-append_one b.peers peer,
    refl,
    length-append b.peers (peer ∷ []),
  )
]

-- With no peer listed twice, a disconnect takes exactly its peer out of the set, keeps the list free
-- of duplicates, and does not raise the count of peers.
pub on_ble_disconnected_lem :
    (b : Ble) (peer : Addr)
    → NoDuplicates b.peers
    → NoDuplicates (on_ble_disconnected b peer).peers
      × ((x : Addr)
          → contains (on_ble_disconnected b peer).peers x
            ≡ (not (bytes_eq peer x) && contains b.peers x))
      × (ble_peer_count (on_ble_disconnected b peer) ≤ ble_peer_count b)
unfolding on_ble_disconnected ble_peer_count
on_ble_disconnected_lem b peer n = (
  NoDuplicates-retain_ne b.peers peer n,
  contains-retain_ne b.peers peer,
  length-retain_ne-le b.peers peer,
)
