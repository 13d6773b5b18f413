-- ===== src/Beacon/Rpc.antt =====
-- rust-core/src/beacon.rs: the JSON-RPC calls of `BeaconManager`, and the responses to them.
pub mod Correlation
use lxmf_react_native_rust.Prelude.{
  subst, ℕ, zero, suc, ◌+◌, ◌-◌, ◌*◌, ◌/◌, ◌%◌, ◌^◌, ◌≤◌, ◌<◌, min, max, ◌≡◌, refl, sym, ap, ap₂,
  ◌∙◌, ◌≢◌, ◌↔◌, ◌⊎◌, inl, inr, Bool, true, false, not, ◌&&◌, ◌||◌, Option, none, some, List, [],
  ◌∷◌, ◌++◌, map, append-nil, append_assoc, arith, Bytes, IsByte, ltb, leb, ◌==◌, if◌then◌else◌,
  ltb→lt, lt→ltb, leb→le, le→leb, ==_iff, Bool-cases, Option-cases, bytes_eq, bytes_eq→eq,
  bytes_eq_refl, starts_with, starts_with-append, length, get_elem?, set, get_or, take, drop,
  replicate, length-append, length-take, length-drop, length-replicate, length-map, length-set,
  take-append-drop, get_elem?-set_self, get_elem?-set_ne,
}
use lxmf_react_native_rust.Prelude.Map.{nat_Eq, lookup, insert, remove}
use lxmf_react_native_rust.Beacon.Wire.{
  Codec, RpcError, RpcResponse, compress_payload, new_request, to_bytes, into_result,
  parse_rpc_response,
}
use lxmf_react_native_rust.Beacon.Manager.{DestHash, PendingRpc, BeaconManager, connected_beacons}

-- `wrapping_add(1).max(1)` on a u32
unfoldable pub next_id : ℕ → ℕ
next_id id = max ((id + 1) % 2 ^ 32) 1

module _ (codec : Codec) where
  open codec use {Value}

  pub record RpcResult : Type 0 where
    pub id : ℕ
    pub method : Bytes
    pub result : RpcError ⊎ Value

  unfoldable pub queue_rpc : BeaconManager → DestHash → Bytes → Value → BeaconManager × ℕ
  queue_rpc m dest method params =
      let id = m.next_rpc_id in
      (
        record m {
          next_rpc_id = next_id id;
          in_flight = insert id method m.in_flight;
          pending_rpcs =
              m.pending_rpcs
              ++ (record {
                id = id;
                dest = dest;
                method = method;
                payload =
                    compress_payload codec (to_bytes codec (new_request codec id method params));
              }
                  ∷ []);
        },
        id,
      )

  unfoldable pub queue_all :
      BeaconManager → List DestHash → Bytes → Value → BeaconManager × List (DestHash × ℕ)
  queue_all m [] method params = (m, [])
  queue_all m (dest ∷ dests) method params =
      let (m', id) = queue_rpc m dest method params in
      let (m'', more) = queue_all m' dests method params in (m'', (dest, id) ∷ more)

  unfoldable pub queue_rpc_broadcast :
      BeaconManager → Bytes → Value → BeaconManager × List (DestHash × ℕ)
  unfolding queue_all
  queue_rpc_broadcast m method params = queue_all m (connected_beacons m) method params

  unfoldable pub correlate :
      BeaconManager → RpcResponse Value → ℕ → Option Bytes → BeaconManager × Option RpcResult
  correlate m resp id none = (m, none)
  correlate m resp id (some method) = (
    record m { in_flight = remove id m.in_flight },
    some (record { id = id; method = method; result = into_result codec resp }),
  )

  unfoldable pub respond :
      BeaconManager → RpcResponse Value → Option ℕ → BeaconManager × Option RpcResult
  unfolding correlate
  respond m resp none = (m, none)
  respond m resp (some id) = correlate m resp id (lookup id m.in_flight)

  unfoldable pub on_response :
      BeaconManager → Option (RpcResponse Value) → BeaconManager × Option RpcResult
  unfolding respond
  on_response m none = (m, none)
  on_response m (some resp) = respond m resp resp.id

  unfoldable pub on_rpc_bytes : BeaconManager → Bytes → BeaconManager × Option RpcResult
  unfolding on_response
  on_rpc_bytes m raw = on_response m (parse_rpc_response codec raw)
