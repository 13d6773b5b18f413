-- ===== src/Node.antt =====
-- rust-core/src/node.rs: `LxmfNode`, its state and its events. The fields behind an `Arc` are plain
-- fields of the one state that the calls and the tasks change in turn; a poisoned lock is not
-- modelled. rns-transport, `hex` and the identities are parameters, the fields of `Network`.
pub mod Pending
pub mod Flush
pub mod Retry
pub mod Send
pub mod Dispatched
pub mod Queued
pub mod Groups
pub mod Receive
pub mod Inbox
pub mod Reception
pub mod GroupTalk
pub mod Config
pub mod AppData
pub mod Lifecycle
pub mod Drain
pub mod Restart
pub mod BeaconStart
pub mod Forged
pub mod GivenUp
pub mod Arrival
mod Tests
use lxmf_react_native_rust.Prelude.{
  subst, ℕ, zero, suc, ◌+◌, ◌-◌, ◌*◌, ◌/◌, ◌%◌, ◌^◌, ◌≤◌, ◌<◌, min, max, ◌≡◌, refl, sym, ap, ap₂,
  ◌∙◌, ◌≢◌, ◌↔◌, ◌⊎◌, inl, inr, Bool, true, false, not, ◌&&◌, ◌||◌, Option, none, some, List, [],
  ◌∷◌, ◌++◌, map, append-nil, append_assoc, arith, Bytes, IsByte, ltb, leb, ◌==◌, if◌then◌else◌,
  ltb→lt, lt→ltb, leb→le, le→leb, ==_iff, Bool-cases, Option-cases, bytes_eq, bytes_eq→eq,
  bytes_eq_refl, starts_with, starts_with-append, length, get_elem?, set, get_or, take, drop,
  replicate, length-append, length-take, length-drop, length-replicate, length-map, length-set,
  take-append-drop, get_elem?-set_self, get_elem?-set_ne,
}
use lxmf_react_native_rust.Lxmf.Payload.{Message}
use lxmf_react_native_rust.Beacon.Manager.{BeaconManager}
use lxmf_react_native_rust.Store.{MessageStore}

pub data LxmfEvent : Type 0 where
  status_changed : (running : Bool) (lifecycle : ℕ) → LxmfEvent
  packet_received : (source contents : Bytes) → LxmfEvent
  tx_received : (contents : Bytes) → LxmfEvent
  beacon_discovered : (dest_hash app_data : Bytes) → LxmfEvent
  message_received : Message → LxmfEvent
  announce_received : (dest_hash app_data : Bytes) (hops : ℕ) → LxmfEvent
  message_queued : (seq : ℕ) (dest_hex : Bytes) → LxmfEvent
  message_delivered : (seq : ℕ) (dest_hex : Bytes) → LxmfEvent
  message_failed : (seq : ℕ) (dest_hex reason : Bytes) → LxmfEvent
  log_line : (level : ℕ) (message : Bytes) → LxmfEvent
  error : (code : ℕ) (message : Bytes) → LxmfEvent
  rpc_response : (id : ℕ) (method result_json : Bytes) (is_error : Bool) → LxmfEvent

-- "max attempts reached"
abbrev pub max_attempts_reached : Bytes
max_attempts_reached =
    b'm' ∷ b'a' ∷ b'x' ∷ b' ' ∷ b'a' ∷ b't' ∷ b't' ∷ b'e' ∷ b'm' ∷ b'p' ∷ b't' ∷ b's' ∷ b' ' ∷ b'r'
    ∷ b'e' ∷ b'a' ∷ b'c' ∷ b'h' ∷ b'e' ∷ b'd' ∷ []

pub record PendingSend : Type 0 where
  pub seq : ℕ
  pub dest : Bytes
  pub lxmf_payload : Bytes
  pub store_id : Option ℕ

pub data SendPacketOutcome : Type 0 where
  sent_direct : SendPacketOutcome
  sent_broadcast : SendPacketOutcome
  dropped_missing_destination_identity : SendPacketOutcome
  dropped_ciphertext_too_large : SendPacketOutcome
  dropped_encrypt_failed : SendPacketOutcome
  dropped_no_route : SendPacketOutcome

-- The transport is a state; its calls give the next one. A `DestinationDesc` carries the identity
-- that signatures are checked with.
pub record Network : Type 1 where
  pub Transport : Type 0
  pub DestinationDesc : Type 0
  pub PrivateIdentity : Type 0
  pub send_packet_with_outcome : Transport → Bytes → Bytes → Transport × SendPacketOutcome
  -- true for `Ok`
  pub send_via_link : Transport → DestinationDesc → Bytes → Transport × Bool
  pub request_path : Transport → Bytes → Transport
  -- an answer on the link that a packet came by, if that is still there
  pub reply_on_link : Transport → Bytes → Bytes → Transport
  -- a packet of destination type Group, sent without an outcome
  pub send_group_packet : Transport → Bytes → Bytes → Transport
  pub from_private_key_bytes : Bytes → Option PrivateIdentity
  pub sign : PrivateIdentity → Bytes → Bytes
  pub verify : DestinationDesc → Bytes → Bytes → Bool
  pub group_encrypt : Bytes → Bytes → Option Bytes
  pub group_decrypt : Bytes → Bytes → Option Bytes
  pub group_address_hash : Bytes → Bytes
  pub hex_encode : Bytes → Bytes
  pub hex_decode : Bytes → Option Bytes

module _ (net : Network) where
  open net use {Transport, DestinationDesc}

  -- `transport` is the state behind the handle, and `started` says whether the node has a handle.
  pub record LxmfNode : Type 0 where
    pub events : List LxmfEvent
    pub beacon_mgr : BeaconManager
    pub store : Option MessageStore
    pub running : Bool
    pub identity_hex : Bytes
    pub address_hex : Bytes
    pub mode : ℕ
    pub identity_bytes : Option Bytes
    pub transport : Transport
    pub started : Bool
    pub outbound_sent : ℕ
    pub announces_received : ℕ
    pub messages_received : ℕ
    pub pending_sends : List PendingSend
    pub peer_identities : List (Bytes × DestinationDesc)
    pub is_beacon : Bool

  -- Does the attempt count as delivered? A payload that is too large for a packet goes by a link, to
  -- a peer whose identity is known.
  unfoldable pub by_link : Transport → Option DestinationDesc → Bytes → Transport × Bool
  by_link t none payload = (t, false)
  by_link t (some desc) payload = net.send_via_link t desc payload

  unfoldable pub after_outcome :
      Transport → SendPacketOutcome → Option DestinationDesc → Bytes → Transport × Bool
  unfolding by_link
  after_outcome t sent_direct desc payload = (t, true)
  after_outcome t sent_broadcast desc payload = (t, true)
  after_outcome t dropped_ciphertext_too_large desc payload = by_link t desc payload
  after_outcome t dropped_missing_destination_identity desc payload = (t, false)
  after_outcome t dropped_encrypt_failed desc payload = (t, false)
  after_outcome t dropped_no_route desc payload = (t, false)

  unfoldable pub attempt : Transport → Bytes → Option DestinationDesc → Bytes → Transport × Bool
  unfolding after_outcome
  attempt t dest desc payload =
      let (t', outcome) = net.send_packet_with_outcome t dest payload in
      after_outcome t' outcome desc payload
