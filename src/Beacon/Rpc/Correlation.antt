-- ===== src/Beacon/Rpc/Correlation.antt =====
-- Calls and their responses.
use lxmf_react_native_rust.Prelude.{
  ℕ, ◌+◌, ◌^◌, ◌<◌, ◌≡◌, refl, ap, ◌∙◌, none, some, List, [], ◌∷◌, arith, Bytes, length,
}
use lxmf_react_native_rust.Prelude.Map.{nat_Eq, lookup, lookup-insert_self, lookup-remove_self}
use lxmf_react_native_rust.Beacon.Wire.{Codec, RpcResponse, into_result, parse_rpc_response}
use lxmf_react_native_rust.Beacon.Manager.{DestHash, BeaconManager, connected_beacons}
use lxmf_react_native_rust.Beacon.Rpc.{
  respond, next_id, queue_rpc, queue_all, queue_rpc_broadcast, correlate, on_response, on_rpc_bytes,
}

-- The destinations, each with its own id, from `id` on.
unfoldable pub numbered : ℕ → List DestHash → List (DestHash × ℕ)
numbered id [] = []
numbered id (dest ∷ dests) = (dest, id) ∷ numbered (id + 1) dests

next_id_small : (id : ℕ) → id + 1 < 2 ^ 32 → next_id id ≡ id + 1
unfolding next_id
next_id_small id h = omega (arith, h)

module _ (codec : Codec) where
  open codec use {Value}

  correlate_twice :
      (m : BeaconManager) (resp : RpcResponse Value) (id : ℕ) (method : Bytes)
      → lookup id m.in_flight ≡ some method
      → resp.id ≡ some id
      → ((on_response codec m (some resp)).1
          ≡ some (record { id = id; method = method; result = into_result codec resp }))
        × ((on_response codec (on_response codec m (some resp)).0 (some resp)).1 ≡ none)
  unfolding on_response respond correlate
  correlate_twice m resp id method h e =
      (rw (e, h) refl, rw (e, h, lookup-remove_self id m.in_flight) refl)

  -- The response to a call that was queued is given back under the call's id with its method, once: the
  -- same bytes received again give nothing.
  pub on_rpc_bytes-queue_rpc :
      (m : BeaconManager) (dest : DestHash) (method : Bytes) (params : Value) (raw : Bytes)
      (resp : RpcResponse Value)
      → parse_rpc_response codec raw ≡ some resp
      → resp.id ≡ some (queue_rpc codec m dest method params).1
      → let (m', id) = queue_rpc codec m dest method params in
        ((on_rpc_bytes codec m' raw).1
          ≡ some (record { id = id; method = method; result = into_result codec resp }))
        × ((on_rpc_bytes codec (on_rpc_bytes codec m' raw).0 raw).1 ≡ none)
  unfolding on_rpc_bytes queue_rpc
  on_rpc_bytes-queue_rpc m dest method params raw resp parsed e = rw parsed (
      correlate_twice (queue_rpc codec m dest method params).0 resp m.next_rpc_id method
        (lookup-insert_self m.next_rpc_id method m.in_flight) e)

  queue_all-numbered :
      (m : BeaconManager) (dests : List DestHash) (method : Bytes) (params : Value)
      → m.next_rpc_id + length dests < 2 ^ 32
      → (queue_all codec m dests method params).1 ≡ numbered m.next_rpc_id dests
  unfolding queue_all queue_rpc numbered
  queue_all-numbered m [] method params h = refl
  queue_all-numbered m (dest ∷ dests) method params h =
      let next : next_id m.next_rpc_id ≡ m.next_rpc_id + 1 =
        next_id_small m.next_rpc_id (omega (arith, h)) in
      ap (◌∷◌ (dest, m.next_rpc_id)) (
        queue_all-numbered (queue_rpc codec m dest method params).0 dests method params
          (omega (arith, next, h))
        ∙ ap (λ k. numbered k dests) next)

  -- A broadcast calls every connected beacon once, under ids that follow one another and so all differ,
  -- as long as the ids do not reach the end of the 32 bits.
  pub queue_rpc_broadcast-numbered :
      (m : BeaconManager) (method : Bytes) (params : Value)
      → m.next_rpc_id + length (connected_beacons m) < 2 ^ 32
      → (queue_rpc_broadcast codec m method params).1 ≡ numbered m.next_rpc_id (connected_beacons m)
  unfolding queue_rpc_broadcast
  queue_rpc_broadcast-numbered m method params h =
      queue_all-numbered m (connected_beacons m) method params h
