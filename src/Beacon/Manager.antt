-- ===== src/Beacon/Manager.antt =====
-- rust-core/src/beacon.rs: `BeaconManager`. An instant is a number of milliseconds; a u32 counter
-- wraps around, as in a release build; the order of the list of beacons stands for that of the map.
pub mod Schedule
pub mod States
use lxmf_react_native_rust.Prelude.{
  subst, ℕ, zero, suc, ◌+◌, ◌-◌, ◌*◌, ◌/◌, ◌%◌, ◌^◌, ◌≤◌, ◌<◌, min, max, ◌≡◌, refl, sym, ap, ap₂,
  ◌∙◌, ◌≢◌, ◌↔◌, ◌⊎◌, inl, inr, Bool, true, false, not, ◌&&◌, ◌||◌, Option, none, some, List, [],
  ◌∷◌, ◌++◌, map, append-nil, append_assoc, arith, Bytes, IsByte, ltb, leb, ◌==◌, if◌then◌else◌,
  ltb→lt, lt→ltb, leb→le, le→leb, ==_iff, Bool-cases, Option-cases, bytes_eq, bytes_eq→eq,
  bytes_eq_refl, starts_with, starts_with-append, length, get_elem?, set, get_or, take, drop,
  replicate, length-append, length-take, length-drop, length-replicate, length-map, length-set,
  take-append-drop, get_elem?-set_self, get_elem?-set_ne,
}
use lxmf_react_native_rust.Prelude.Map.{bytes_Eq, nat_Eq, lookup, insert, remove}
use lxmf_react_native_rust.Beacon.Wire.{
  Codec, RpcError, RpcResponse, is_beacon_announce, extract_display_name, compress_payload,
  new_request, to_bytes, into_result, parse_rpc_response,
}

abbrev pub DestHash : Type 0
DestHash = Bytes

pub data BeaconState : Type 0 where
  discovered : BeaconState
  connecting : BeaconState
  connected : BeaconState
  disconnected : BeaconState
  failed : BeaconState

pub record Beacon : Type 0 where
  pub dest_hash : DestHash
  pub state : BeaconState
  pub display_name : Option Bytes
  pub last_announce : ℕ
  pub last_connected : Option ℕ
  pub reconnect_attempts : ℕ
  pub latency_ms : Option ℕ

pub data DispatchStrategy : Type 0 where
  race : DispatchStrategy
  fallback : DispatchStrategy

pub record PendingRpc : Type 0 where
  pub id : ℕ
  pub dest : DestHash
  pub method : Bytes
  pub payload : Bytes

pub record BeaconManager : Type 0 where
  pub beacons : List (DestHash × Beacon)
  pub strategy : DispatchStrategy
  pub announce_active : Bool
  pub announce_start : Option ℕ
  pub last_announce : Option ℕ
  pub announce_count : ℕ
  -- `BeaconDiscovered`, the only event that the manager raises
  pub pending_events : List (DestHash × Bytes)
  pub next_rpc_id : ℕ
  pub pending_rpcs : List PendingRpc
  pub in_flight : List (ℕ × Bytes)

abbrev pub new : BeaconManager
new = record {
  beacons = [];
  strategy = race;
  announce_active = false;
  announce_start = none;
  last_announce = none;
  announce_count = 0;
  pending_events = [];
  next_rpc_id = 1;
  pending_rpcs = [];
  in_flight = [];
}

abbrev pub burst_interval : ℕ
burst_interval = 15000

abbrev pub burst_duration : ℕ
burst_duration = 120000

abbrev pub steady_interval : ℕ
steady_interval = 300000

unfoldable pub start_announce_schedule : BeaconManager → ℕ → BeaconManager
start_announce_schedule m now = record m {
  announce_active = true;
  announce_start = some now;
  last_announce = some now;
  announce_count = 0;
}

unfoldable pub stop : BeaconManager → BeaconManager
stop m = record m { announce_active = false }

-- Is the announce due, by the time of the last one and of the start? `elapsed` stops at zero.
unfoldable pub is_due : Option ℕ → Option ℕ → ℕ → Bool
is_due none start now = true
is_due (some last) none now = true
is_due (some last) (some start) now =
    if ltb (now - start) burst_duration
    then leb burst_interval (now - last)
    else leb steady_interval (now - last)

unfoldable pub should_announce : BeaconManager → ℕ → Bool
unfolding is_due
should_announce m now = m.announce_active && is_due m.last_announce m.announce_start now

unfoldable pub did_announce : BeaconManager → ℕ → BeaconManager
did_announce m now = record m {
  last_announce = some now;
  announce_count = (m.announce_count + 1) % 2 ^ 32;
}

-- `matches!(state, Disconnected | Failed)` goes to `Connecting`.
unfoldable pub revived : BeaconState → BeaconState
revived disconnected = connecting
revived failed = connecting
revived s = s

unfoldable pub new_name : Option Bytes → Option Bytes → Option Bytes
new_name old none = old
new_name old (some name) = some name

unfoldable pub note_announce : BeaconManager → DestHash → Bytes → ℕ → Option Beacon → BeaconManager
unfolding revived new_name
note_announce m dest app_data now (some b) = record m {
  beacons =
      insert dest
        (record b {
          last_announce = now;
          reconnect_attempts = 0;
          display_name = new_name b.display_name (extract_display_name app_data);
          state = revived b.state;
        })
        m.beacons;
}
note_announce m dest app_data now none = record m {
  beacons =
      insert dest
        (record {
          dest_hash = dest;
          state = discovered;
          display_name = extract_display_name app_data;
          last_announce = now;
          last_connected = none;
          reconnect_attempts = 0;
          latency_ms = none;
        })
        m.beacons;
  pending_events = m.pending_events ++ ((dest, app_data) ∷ []);
}

unfoldable pub on_announce_received : BeaconManager → DestHash → Bytes → ℕ → BeaconManager
unfolding note_announce
on_announce_received m dest app_data now =
    if not (is_beacon_announce app_data)
    then m
    else note_announce m dest app_data now (lookup dest m.beacons)

-- `if let Some(b) = self.beacons.get_mut(dest) { .. }`
unfoldable pub update : DestHash → (Beacon → Beacon) → Option Beacon → BeaconManager → BeaconManager
update dest f none m = m
update dest f (some b) m = record m { beacons = insert dest (f b) m.beacons }

unfoldable pub on_beacon_connected : BeaconManager → DestHash → ℕ → BeaconManager
unfolding update
on_beacon_connected m dest now =
    update dest
      (λ b. record b { state = connected; last_connected = some now; reconnect_attempts = 0 })
      (lookup dest m.beacons) m

unfoldable pub on_beacon_disconnected : BeaconManager → DestHash → BeaconManager
unfolding update
on_beacon_disconnected m dest =
    update dest (λ b. record b { state = disconnected }) (lookup dest m.beacons) m

unfoldable pub on_reconnect_attempt : BeaconManager → DestHash → BeaconManager
unfolding update
on_reconnect_attempt m dest =
    update dest
      (λ b. record b {
        reconnect_attempts = (b.reconnect_attempts + 1) % 2 ^ 32;
        state = connecting;
      })
      (lookup dest m.beacons) m

-- In seconds.
abbrev pub backoff_schedule : List ℕ
backoff_schedule = 5 ∷ 10 ∷ 20 ∷ 40 ∷ 60 ∷ 120 ∷ 300 ∷ []

unfoldable pub attempts_of : Option Beacon → ℕ
attempts_of none = 0
attempts_of (some b) = b.reconnect_attempts

-- `none` is the panic of an index out of bounds.
unfoldable pub reconnect_delay : BeaconManager → DestHash → Option ℕ
unfolding attempts_of
reconnect_delay m dest =
    get_elem? backoff_schedule
      (min (attempts_of (lookup dest m.beacons)) (length backoff_schedule - 1))

unfoldable pub is_connected : BeaconState → Bool
is_connected connected = true
is_connected s = false

unfoldable pub connected_of : List (DestHash × Beacon) → List DestHash
unfolding is_connected
connected_of [] = []
connected_of ((k, b) ∷ bs) =
    let rest = connected_of bs in if is_connected b.state then b.dest_hash ∷ rest else rest

unfoldable pub connected_beacons : BeaconManager → List DestHash
connected_beacons m = connected_of m.beacons

unfoldable pub remove_beacon : BeaconManager → DestHash → BeaconManager
remove_beacon m dest = record m { beacons = remove dest m.beacons }

unfoldable pub drain_events : BeaconManager → BeaconManager × List (DestHash × Bytes)
drain_events m = (record m { pending_events = [] }, m.pending_events)

unfoldable pub drain_pending_rpcs : BeaconManager → BeaconManager × List PendingRpc
drain_pending_rpcs m = (record m { pending_rpcs = [] }, m.pending_rpcs)

unfoldable pub set_strategy : BeaconManager → DispatchStrategy → BeaconManager
set_strategy m s = record m { strategy = s }
