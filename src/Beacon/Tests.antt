-- ===== src/Beacon/Tests.antt =====
-- The theorems on beacons at concrete inputs: a codec of one-byte calls and a manager with one
-- connected beacon.
use lxmf_react_native_rust.Prelude.{◌≡◌, refl, false, none, some, [], ◌∷◌, arith, Bytes, replicate}
use lxmf_react_native_rust.Prelude.Map.{bytes_Eq}
use lxmf_react_native_rust.Beacon.Wire.{Codec, RpcResponse, into_result, parse_rpc_response}
use lxmf_react_native_rust.Beacon.Manager
use lxmf_react_native_rust.Beacon.Manager.{
  DestHash, Beacon, BeaconManager, start_announce_schedule, should_announce, did_announce,
  connected_beacons, reconnect_delay, on_reconnect_attempt,
}
use lxmf_react_native_rust.Beacon.Manager.States.{IsValid}
use lxmf_react_native_rust.Beacon.Rpc.{queue_rpc, on_rpc_bytes}
use lxmf_react_native_rust.Beacon.Rpc.Correlation.{on_rpc_bytes-queue_rpc}
use lxmf_react_native_rust.Beacon.Reach
use lxmf_react_native_rust.Beacon.Reach.{Reachable, Reachable-IsValid, should_announce-Reachable}

-- Every response is number 1, and holds the bytes that came; eight fives are what is compressed.
abbrev codec : Codec
codec = record {
  Value = Bytes;
  null = [];
  to_vec = λ request. some request.params;
  from_slice = λ raw. some (record { id = some 1; result = some raw; error = none });
  deflate = λ raw. some (5 ∷ []);
  inflate = λ raw. some (replicate 8 5);
}

abbrev home : DestHash
home = replicate 16 3

abbrev beacon : Beacon
beacon = record {
  dest_hash = home;
  state = Manager.connected;
  display_name = none;
  last_announce = 0;
  last_connected = some 10;
  reconnect_attempts = 2;
  latency_ms = none;
}

abbrev manager : BeaconManager
manager = record Manager.new { beacons = (home, beacon) ∷ [] }

abbrev answer : RpcResponse Bytes
answer = record { id = some 1; result = some (7 ∷ []); error = none }

on_rpc_bytes-queue_rpc_example :
    let (m', id) = queue_rpc codec manager home (b'g' ∷ []) (4 ∷ []) in
    ((on_rpc_bytes codec m' (7 ∷ [])).1
      ≡ some (record { id = id; method = b'g' ∷ []; result = into_result codec answer }))
    × ((on_rpc_bytes codec (on_rpc_bytes codec m' (7 ∷ [])).0 (7 ∷ [])).1 ≡ none)
unfolding parse_rpc_response queue_rpc
on_rpc_bytes-queue_rpc_example =
    on_rpc_bytes-queue_rpc codec manager home (b'g' ∷ []) (4 ∷ []) (7 ∷ []) answer refl refl

abbrev scheduled : BeaconManager
scheduled = start_announce_schedule Manager.new 1000

scheduled-Reachable : Reachable codec scheduled
scheduled-Reachable = Reach.next Reach.here (Reach.starts Manager.new 1000)

Reachable-IsValid_example : IsValid scheduled
Reachable-IsValid_example = Reachable-IsValid codec scheduled-Reachable

should_announce-Reachable_example : should_announce (did_announce scheduled 16000) 30999 ≡ false
should_announce-Reachable_example =
    should_announce-Reachable codec scheduled 16000 30999 scheduled-Reachable (omega arith)
