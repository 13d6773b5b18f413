-- ===== src/Nus.antt =====
-- rust-core/src/nus_iface.rs: the interface to an RNode over the Nordic UART service. `none` of
-- `deserialize` and `serialize`, which belong to rns-transport, is their error; the packets sent to
-- `rx_channel` are the result of the receiving half, those that `tx_channel` holds the argument of
-- the sending half.
pub mod Delivery
mod Tests
use lxmf_react_native_rust.Prelude.{
  subst, ℕ, zero, suc, ◌+◌, ◌-◌, ◌*◌, ◌/◌, ◌%◌, ◌^◌, ◌≤◌, ◌<◌, min, max, ◌≡◌, refl, sym, ap, ap₂,
  ◌∙◌, ◌≢◌, ◌↔◌, ◌⊎◌, inl, inr, Bool, true, false, not, ◌&&◌, ◌||◌, Option, none, some, List, [],
  ◌∷◌, ◌++◌, map, append-nil, append_assoc, arith, Bytes, IsByte, ltb, leb, ◌==◌, if◌then◌else◌,
  ltb→lt, lt→ltb, leb→le, le→leb, ==_iff, Bool-cases, Option-cases, bytes_eq, bytes_eq→eq,
  bytes_eq_refl, starts_with, starts_with-append, length, get_elem?, set, get_or, take, drop,
  replicate, length-append, length-take, length-drop, length-replicate, length-map, length-set,
  take-append-drop, get_elem?-set_self, get_elem?-set_ne,
}
use lxmf_react_native_rust.Framing.Kiss.{KissDeframer, feed, kiss_encode}

pub record Nus : Type 0 where
  pub rx_queue : List Bytes
  pub tx_queue : List Bytes

abbrev pub nus_max_packet : ℕ
nus_max_packet = 500

abbrev pub nus_rx_queue_max : ℕ
nus_rx_queue_max = 64

unfoldable pub on_nus_rx : Nus → Bytes → Nus
on_nus_rx q contents =
    if ltb (length q.rx_queue) nus_rx_queue_max
    then record q { rx_queue = q.rx_queue ++ (contents ∷ []) }
    else q

unfoldable pub next_nus_tx : Nus → Nus × Option Bytes
next_nus_tx q = elim q.tx_queue [
  | [] ↦ (q, none)
  | f ∷ rest ↦ (record q { tx_queue = rest }, some f)
]

-- The deframer over all notifications of a round.
unfoldable pub feed_all : KissDeframer → List Bytes → KissDeframer × List (ℕ × Bytes)
feed_all d [] = (d, [])
feed_all d (raw ∷ rest) =
    let (d', frames) = feed d raw in let (d'', more) = feed_all d' rest in (d'', frames ++ more)

-- The payloads that are tried as packets: data frames of at most `NUS_MAX_PACKET` bytes.
unfoldable pub payloads : List (ℕ × Bytes) → List Bytes
payloads [] = []
payloads ((cmd, payload) ∷ frames) =
    let rest = payloads frames in
    if not (cmd == 0)
    then rest
    else (if ltb nus_max_packet (length payload) then rest else payload ∷ rest)

module _ {Packet : Type 0} (deserialize : Bytes → Option Packet)
    (serialize : Packet → Option Bytes) where
  unfoldable pub parse_all : List Bytes → List Packet
  parse_all [] = []
  parse_all (raw ∷ raws) =
      let rest = parse_all raws in elim (deserialize raw) [ none ↦ rest | some p ↦ p ∷ rest ]

  unfoldable pub poll_rx : Nus → KissDeframer → Nus × KissDeframer × List Packet
  poll_rx q d =
      let (d', frames) = feed_all d q.rx_queue in
      (record q { rx_queue = [] }, d', parse_all (payloads frames))

  unfoldable pub tx_packet : Nus → Packet → Nus
  tx_packet q packet = elim (serialize packet) [
    | none ↦ q
    | some serialized ↦
        if ltb nus_max_packet (length serialized)
        then q
        else record q { tx_queue = q.tx_queue ++ (kiss_encode serialized ∷ []) }
  ]

  unfoldable pub poll_tx : Nus → List Packet → Nus
  poll_tx q [] = q
  poll_tx q (packet ∷ rest) = poll_tx (tx_packet q packet) rest
