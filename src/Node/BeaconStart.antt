-- ===== src/Node/BeaconStart.antt =====
-- rust-core/src/node.rs, lines 463, 482-531 and 807: a start as a beacon, and the requests that come
-- in after it.
use lxmf_react_native_rust.Prelude.{ℕ, ◌≡◌, refl, ◌⊎◌, Bool, true, false, Option, some, List, Bytes}
use lxmf_react_native_rust.Lxmf.Fields.{Named}
use lxmf_react_native_rust.Lxmf.Payload.{looks_like_rpc_response}
use lxmf_react_native_rust.Beacon.Wire.{RpcError}
use lxmf_react_native_rust.Store.{MessageStore}
use lxmf_react_native_rust.Server.{Services, is_rpc_request}
use lxmf_react_native_rust.Server.Prepare.{handle_rpc_request}
use lxmf_react_native_rust.Node.{Network, LxmfNode}
use lxmf_react_native_rust.Node.Receive.{BeaconConfig, on_data, on_rpc, serve}
use lxmf_react_native_rust.Node.Lifecycle.{init, Setup, spawn_tasks, set_started, start_mode, stop}

module _ (net : Network) (to_json : List Named → Bytes) (sv : Services)
    (result_text : RpcError ⊎ sv.codec.Value → Bytes) (w : sv.World) (config : BeaconConfig)
    (link_id request url : Bytes) (now : ℕ) where
  -- What the data receiver makes of the request, with the beacon mode that it keeps.
  abbrev pub received : LxmfNode net → Bool → LxmfNode net × sv.World
  received n beacon_mode =
      on_data net to_json sv result_text n w beacon_mode config link_id request now

  -- The answer of the beacon's server, sent back on the link that the request came by.
  abbrev pub answered : LxmfNode net → LxmfNode net × sv.World
  answered n =
      let (w', response) = handle_rpc_request sv w request config.keypair url config.program_id in
      (record n { transport = net.reply_on_link n.transport link_id response }, w')

  unserved :
      (n : LxmfNode net)
      → looks_like_rpc_response request ≡ true
      → is_rpc_request sv request ≡ true
      → received n false ≡ (n, w)
  unfolding on_data on_rpc
  unserved n rpc asked = rw (rpc, asked) refl

  served :
      (n : LxmfNode net)
      → looks_like_rpc_response request ≡ true
      → is_rpc_request sv request ≡ true
      → config.solana_rpc_url ≡ some url
      → received n true ≡ answered n
  unfolding on_data on_rpc serve
  served n rpc asked at = rw (rpc, asked, at) refl

  -- A new node is started as a beacon, in mode 3 or 4, with the URL of an RPC server, and a request
  -- comes in: the node counts as a beacon, but does nothing with the request. After a stop and a second
  -- start the same request is answered by the server, on the link that it came by.
  pub start_mode-beacon_late :
      (idle : net.Transport) (store : Option MessageStore) (mode : ℕ) (setup : Setup net)
      → looks_like_rpc_response request ≡ true
      → is_rpc_request sv request ≡ true
      → config.solana_rpc_url ≡ some url
      → let (n, serves) = start_mode net (init net idle store) mode true setup in
        let (n', serves') = start_mode net (stop net n) mode true setup in
        ((n.is_beacon ≡ true) × (received n serves ≡ (n, w)))
        × ((n'.is_beacon ≡ true) × (received n' serves' ≡ answered n'))
  unfolding start_mode spawn_tasks set_started init stop
  start_mode-beacon_late idle store mode setup rpc asked at =
      let n = (start_mode net (init net idle store) mode true setup).0 in
      let n' = (start_mode net (stop net n) mode true setup).0 in
      ((refl, unserved n rpc asked), (refl, served n' rpc asked at))
