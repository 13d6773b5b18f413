-- ===== src/Ble/Queues.antt =====
-- rust-core/src/ble_iface.rs: the queues and tables that Kotlin and the worker share, and the entry
-- points that Kotlin calls. The process-wide statics are the fields of one record. An instant is a
-- number of milliseconds; the locks are never poisoned.
pub mod Limits
pub mod Peers
use lxmf_react_native_rust.Prelude.{
  ℕ, zero, suc, ◌+◌, ◌-◌, ◌*◌, ◌/◌, ◌%◌, ◌^◌, ◌≤◌, ◌<◌, min, max, ◌≡◌, refl, sym, ap, ap₂, ◌∙◌, ◌≢◌,
  ◌↔◌, ◌⊎◌, inl, inr, Bool, true, false, not, ◌&&◌, ◌||◌, Option, none, some, List, [], ◌∷◌, ◌++◌,
  map, append-nil, append_assoc, arith, Bytes, IsByte, ltb, leb, ◌==◌, if◌then◌else◌, ltb→lt,
  lt→ltb, leb→le, le→leb, ==_iff, Bool-cases, Option-cases, bytes_eq, bytes_eq→eq, bytes_eq_refl,
  starts_with, starts_with-append, length, get_elem?, set, get_or, take, drop, replicate,
  length-append, length-take, length-drop, length-replicate, length-map, length-set,
  take-append-drop, get_elem?-set_self, get_elem?-set_ne,
}
use lxmf_react_native_rust.Prelude.Map.{Eq, bytes_Eq, lookup, insert}

-- A Bluetooth address: six bytes.
abbrev pub Addr : Type 0
Addr = Bytes

pub record BleRxFrame : Type 0 where
  pub peer_addr : Addr
  pub contents : Bytes

pub record BleTxFrame : Type 0 where
  pub peer_addr : Addr
  pub contents : Bytes

pub record Ble : Type 0 where
  pub rx_queue : List BleRxFrame
  pub tx_queue : List BleTxFrame
  pub peers : List Addr
  pub rate : List (Addr × (ℕ × ℕ))
  pub mtu : List (Addr × ℕ)

abbrev pub rx_queue_max : ℕ
rx_queue_max = 64

abbrev pub rx_pps_limit : ℕ
rx_pps_limit = 50

-- `map.entry(peer_addr).or_insert((now, 0))`
abbrev pub rate_entry : Ble → Addr → ℕ → ℕ × ℕ
rate_entry b peer now = elim (lookup peer b.rate) [ none ↦ (now, 0) | some e ↦ e ]

-- What an entry becomes when a frame arrives, and whether the frame is accepted.
unfoldable pub rate_step : ℕ × ℕ → ℕ → (ℕ × ℕ) × Bool
rate_step (start, count) now =
    if leb 1 ((now - start) / 1000)
    then ((now, 1), true)
    else ((start, count + 1), leb (count + 1) rx_pps_limit)

unfoldable pub check_ble_rx_rate : Ble → Addr → ℕ → Ble × Bool
unfolding rate_step
check_ble_rx_rate b peer now =
    let (entry, accept) = rate_step (rate_entry b peer now) now in
    (record b { rate = insert peer entry b.rate }, accept)

unfoldable pub on_ble_rx : Ble → Addr → Bytes → ℕ → Ble
on_ble_rx b peer contents now =
    let (b', accept) = check_ble_rx_rate b peer now in
    if not accept
    then b'
    else (if leb rx_queue_max (length b'.rx_queue) then b' else record b' {
      rx_queue = b'.rx_queue ++ (record { peer_addr = peer; contents = contents } ∷ []);
    })

unfoldable pub next_ble_tx : Ble → Ble × Option BleTxFrame
next_ble_tx b = elim b.tx_queue [
  | [] ↦ (b, none)
  | f ∷ rest ↦ (record b { tx_queue = rest }, some f)
]

unfoldable pub contains : List Addr → Addr → Bool
contains [] a = false
contains (p ∷ ps) a = bytes_eq p a || contains ps a

-- `peers.retain(|p| p != &peer_addr)`
unfoldable pub retain_ne : List Addr → Addr → List Addr
retain_ne [] a = []
retain_ne (p ∷ ps) a = let rest = retain_ne ps a in if bytes_eq p a then rest else p ∷ rest

-- The flag says that the peer is new, and so that the node's waiters are notified.
unfoldable pub on_ble_connected : Ble → Addr → Ble × Bool
on_ble_connected b peer =
    if contains b.peers peer
    then (b, false)
    else (record b { peers = b.peers ++ (peer ∷ []) }, true)

unfoldable pub on_ble_disconnected : Ble → Addr → Ble
on_ble_disconnected b peer = record b { peers = retain_ne b.peers peer }

unfoldable pub ble_peer_count : Ble → ℕ
ble_peer_count b = length b.peers

unfoldable pub clear_ble_peers : Ble → Ble
clear_ble_peers b = record b { peers = [] }

unfoldable pub on_mtu_negotiated : Ble → Addr → ℕ → Ble
on_mtu_negotiated b peer char_write_limit = record b { mtu = insert peer char_write_limit b.mtu }

unfoldable pub peer_mtu : Ble → Addr → ℕ
peer_mtu b peer = elim (lookup peer b.mtu) [ none ↦ 247 | some m ↦ m ]
