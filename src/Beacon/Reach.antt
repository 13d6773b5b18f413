-- ===== src/Beacon/Reach.antt =====
-- The states that a new manager reaches by its operations.
use lxmf_react_native_rust.Prelude.{
  ℕ, ◌+◌, ◌^◌, ◌≤◌, ◌<◌, ◌≡◌, refl, ◌⊎◌, inl, inr, Bool, true, false, Option, none, some, arith,
  Bytes,
}
use lxmf_react_native_rust.Prelude.Map.{bytes_Eq, nat_Eq, lookup}
use lxmf_react_native_rust.Beacon.Wire.{Codec, RpcResponse, parse_rpc_response}
use lxmf_react_native_rust.Beacon.Manager.{
  DestHash, DispatchStrategy, BeaconManager, new, burst_interval, start_announce_schedule, stop,
  should_announce, did_announce, on_announce_received, on_beacon_connected, on_beacon_disconnected,
  on_reconnect_attempt, remove_beacon, drain_events, drain_pending_rpcs, set_strategy,
}
use lxmf_react_native_rust.Beacon.Manager.Schedule.{should_announce-did_announce}
use lxmf_react_native_rust.Beacon.Manager.States.{
  IsStarted, IsValid, remove-AllKeyed, update-IsValid, on_announce_received-IsValid,
}
use lxmf_react_native_rust.Beacon.Rpc.{
  respond, next_id, queue_rpc, on_rpc_bytes, on_response, correlate,
}

next_id_bounds : (id : ℕ) → (1 ≤ next_id id) × (next_id id < 2 ^ 32)
unfolding next_id
next_id_bounds id = omega arith

new-IsValid : IsValid new
new-IsValid = record { keyed = tt; started = tt; positive = omega arith; small = omega arith }

module _ (codec : Codec) where
  open codec use {Value}

  -- One call of an operation that changes the manager.
  pub data Step : BeaconManager → BeaconManager → Type 0 where
    starts : (m : BeaconManager) (now : ℕ) → Step m (start_announce_schedule m now)
    stops : (m : BeaconManager) → Step m (stop m)
    announces : (m : BeaconManager) (now : ℕ) → Step m (did_announce m now)
    hears :
        (m : BeaconManager) (dest : DestHash) (app_data : Bytes) (now : ℕ)
        → Step m (on_announce_received m dest app_data now)
    connects :
        (m : BeaconManager) (dest : DestHash) (now : ℕ) → Step m (on_beacon_connected m dest now)
    disconnects : (m : BeaconManager) (dest : DestHash) → Step m (on_beacon_disconnected m dest)
    reconnects : (m : BeaconManager) (dest : DestHash) → Step m (on_reconnect_attempt m dest)
    removes : (m : BeaconManager) (dest : DestHash) → Step m (remove_beacon m dest)
    chooses : (m : BeaconManager) (s : DispatchStrategy) → Step m (set_strategy m s)
    drains : (m : BeaconManager) → Step m (drain_events m).0
    sends : (m : BeaconManager) → Step m (drain_pending_rpcs m).0
    calls :
        (m : BeaconManager) (dest : DestHash) (method : Bytes) (params : Value)
        → Step m (queue_rpc codec m dest method params).0
    answers : (m : BeaconManager) (raw : Bytes) → Step m (on_rpc_bytes codec m raw).0

  pub data Reachable : BeaconManager → Type 0 where
    here : Reachable new
    next : {m m' : BeaconManager} → Reachable m → Step m m' → Reachable m'

  correlate-IsValid :
      (m : BeaconManager) (resp : RpcResponse Value) (id : ℕ) (o : Option Bytes)
      → IsValid m
      → IsValid (correlate codec m resp id o).0
  unfolding correlate
  correlate-IsValid m resp id none v = v
  correlate-IsValid m resp id (some method) v = record {
    keyed = v.keyed;
    started = v.started;
    positive = v.positive;
    small = v.small;
  }

  respond-IsValid :
      (m : BeaconManager) (resp : RpcResponse Value) (o : Option ℕ)
      → IsValid m
      → IsValid (respond codec m resp o).0
  unfolding respond
  respond-IsValid m resp none v = v
  respond-IsValid m resp (some id) v = correlate-IsValid m resp id (lookup id m.in_flight) v

  on_response-IsValid :
      (m : BeaconManager) (o : Option (RpcResponse Value))
      → IsValid m
      → IsValid (on_response codec m o).0
  unfolding on_response
  on_response-IsValid m none v = v
  on_response-IsValid m (some resp) v = respond-IsValid m resp resp.id v

  Step-IsValid : {m m' : BeaconManager} → Step m m' → IsValid m → IsValid m'
  unfolding start_announce_schedule stop did_announce on_beacon_connected on_beacon_disconnected
      on_reconnect_attempt remove_beacon drain_events drain_pending_rpcs set_strategy queue_rpc
      on_rpc_bytes
  Step-IsValid (starts m now) v = record {
    keyed = v.keyed;
    started = tt;
    positive = v.positive;
    small = v.small;
  }
  Step-IsValid (stops m) v = record {
    keyed = v.keyed;
    started = tt;
    positive = v.positive;
    small = v.small;
  }
  Step-IsValid (announces m now) v = record {
    keyed = v.keyed;
    started = v.started;
    positive = v.positive;
    small = v.small;
  }
  Step-IsValid (hears m dest app_data now) v = on_announce_received-IsValid m dest app_data now v
  Step-IsValid (connects m dest now) v =
      update-IsValid m dest _ (lookup dest m.beacons) (λ b. refl) refl v
  Step-IsValid (disconnects m dest) v =
      update-IsValid m dest _ (lookup dest m.beacons) (λ b. refl) refl v
  Step-IsValid (reconnects m dest) v =
      update-IsValid m dest _ (lookup dest m.beacons) (λ b. refl) refl v
  Step-IsValid (removes m dest) v = record {
    keyed = remove-AllKeyed dest m.beacons v.keyed;
    started = v.started;
    positive = v.positive;
    small = v.small;
  }
  Step-IsValid (chooses m s) v = record {
    keyed = v.keyed;
    started = v.started;
    positive = v.positive;
    small = v.small;
  }
  Step-IsValid (drains m) v = record {
    keyed = v.keyed;
    started = v.started;
    positive = v.positive;
    small = v.small;
  }
  Step-IsValid (sends m) v = record {
    keyed = v.keyed;
    started = v.started;
    positive = v.positive;
    small = v.small;
  }
  Step-IsValid (calls m dest method params) v = record {
    keyed = v.keyed;
    started = v.started;
    positive = (next_id_bounds m.next_rpc_id).0;
    small = (next_id_bounds m.next_rpc_id).1;
  }
  Step-IsValid (answers m raw) v = on_response-IsValid m (parse_rpc_response codec raw) v

  -- In every state that a new manager reaches by any sequence of its operations, each beacon is stored
  -- under its own destination, an active schedule has the time of its start, and the next id of a call
  -- is a u32 other than 0.
  pub Reachable-IsValid : {m : BeaconManager} → Reachable m → IsValid m
  Reachable-IsValid here = new-IsValid
  Reachable-IsValid (next r s) = Step-IsValid s (Reachable-IsValid r)

  started_of :
      (active : Bool) (o : Option ℕ)
      → IsStarted active o
      → (active ≡ false) ⊎ ((start : ℕ) × (o ≡ some start))
  started_of true none h = absurd h
  started_of true (some start) h = inr (start, refl)
  started_of false o h = inl refl

  -- In every reachable state an announce is followed by at least 15 seconds in which none is due.
  pub should_announce-Reachable :
      (m : BeaconManager) (now later : ℕ)
      → Reachable m
      → later < now + burst_interval
      → should_announce (did_announce m now) later ≡ false
  unfolding should_announce did_announce
  should_announce-Reachable m now later r h =
      elim (started_of m.announce_active m.announce_start (Reachable-IsValid r).started) [
        | inl off ↦ rw off refl
        | inr (start, e) ↦ should_announce-did_announce m start now later e h
      ]
