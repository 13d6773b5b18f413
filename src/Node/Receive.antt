-- ===== src/Node/Receive.antt =====
-- rust-core/src/node.rs: the receiving tasks of `start_reticulum`, `start_full` and `start_ble`: the
-- data, resource and group receivers, `persist_inbound_message`, and the dispatch of queued RPCs.
-- What a task does with one packet is one step. `ts` is the clock's second count; `to_json` writes the
-- files of a message for the store. A path request is spawned there, and made at once here.
use lxmf_react_native_rust.Prelude.{
  ℕ, ◌⊎◌, inl, inr, Bool, true, false, not, ◌&&◌, Option, none, some, List, [], ◌∷◌, ◌++◌, Bytes,
  ltb, leb, if◌then◌else◌, bytes_eq, length, take, drop, replicate,
}
use lxmf_react_native_rust.Prelude.Map.{bytes_Eq, lookup}
use lxmf_react_native_rust.Lxmf.Fields.{Named}
use lxmf_react_native_rust.Lxmf.Payload.{
  Message, looks_like_rpc_response, lxmf_event_from_bytes, verify_lxmf_signature,
}
use lxmf_react_native_rust.Beacon.Wire.{RpcError}
use lxmf_react_native_rust.Beacon.Manager.{PendingRpc, drain_pending_rpcs}
use lxmf_react_native_rust.Beacon.Rpc.{RpcResult, on_rpc_bytes}
use lxmf_react_native_rust.Store.{MessageStore, insert_inbound_message}
use lxmf_react_native_rust.Server.{Keypair, Services, is_rpc_request}
use lxmf_react_native_rust.Server.Prepare.{handle_rpc_request}
use lxmf_react_native_rust.Node.{LxmfEvent, Network, LxmfNode}
use lxmf_react_native_rust.Node.Groups.{Registry, lookup_key}

abbrev pub zero_hash : Bytes
zero_hash = replicate 16 0

abbrev pub message_cap : ℕ
message_cap = 4096

-- Of group messages and of RPC responses.
abbrev pub small_cap : ℕ
small_cap = 1024

-- Bytes 16 to 31, or zeros.
unfoldable pub source_of : Bytes → Bytes
source_of payload = if leb 32 (length payload) then take 16 (drop 16 payload) else zero_hash

unfoldable pub unwrap_or_zero : Option Bytes → Bytes
unwrap_or_zero none = zero_hash
unwrap_or_zero (some dest) = dest

unfoldable pub persist_inbound_message :
    (List Named → Bytes) → Option MessageStore → Message → Option MessageStore
unfolding unwrap_or_zero
persist_inbound_message to_json none m = none
persist_inbound_message to_json (some s) m =
    some
      (insert_inbound_message to_json s m.source (unwrap_or_zero m.group_dest) m.title m.body
        m.image m.files m.timestamp).0

unfoldable pub push_capped : ℕ → List LxmfEvent → LxmfEvent → List LxmfEvent
push_capped cap events e = if ltb (length events) cap then events ++ (e ∷ []) else events

pub record BeaconConfig : Type 0 where
  pub keypair : Option Keypair
  pub solana_rpc_url : Option Bytes
  pub program_id : Option Bytes

module _ (net : Network) (to_json : List Named → Bytes) where
  open net use {Transport, DestinationDesc}

  -- The message is stored, and reported while the queue of events has room.
  unfoldable pub accept : LxmfNode net → ℕ → Message → LxmfNode net
  unfolding persist_inbound_message push_capped
  accept n cap m = record n {
    store = persist_inbound_message to_json n.store m;
    events = push_capped cap n.events (LxmfEvent.message_received m);
  }

  -- Only a signature that is known to be wrong drops the message.
  unfoldable pub on_verdict : LxmfNode net → Bytes → Bytes → ℕ → Option Bool → LxmfNode net
  unfolding accept
  on_verdict n src payload ts (some false) = n
  on_verdict n src payload ts (some true) =
      accept n message_cap (lxmf_event_from_bytes src payload none ts)
  on_verdict n src payload ts none =
      accept n message_cap (lxmf_event_from_bytes src payload none ts)

  unfoldable pub request_sender : LxmfNode net → Bytes → LxmfNode net
  request_sender n src = record n { transport = net.request_path n.transport src }

  -- The data receiver of mode 0; RPC payloads are discarded.
  unfoldable pub on_data_ble : LxmfNode net → Bytes → ℕ → LxmfNode net
  unfolding on_verdict source_of request_sender accept
  on_data_ble n payload ts =
      let src = source_of payload in
      if looks_like_rpc_response payload
      then n
      else (if leb 32 (length payload)
          then on_verdict (request_sender n src) src payload ts
              (verify_lxmf_signature (net.verify) payload n.peer_identities)
          else accept n message_cap (lxmf_event_from_bytes src payload none ts))

  -- What the receiver of the modes with TCP does with a payload that is no RPC.
  unfoldable pub on_lxmf_data : LxmfNode net → Bytes → ℕ → LxmfNode net
  unfolding on_verdict source_of request_sender
  on_lxmf_data n payload ts =
      let src = source_of payload in
      on_verdict (if bytes_eq src zero_hash then n else request_sender n src) src payload ts
        (verify_lxmf_signature (net.verify) payload n.peer_identities)

  -- A completed resource: neither the signature nor the queue of events is checked.
  unfoldable pub on_resource : LxmfNode net → Bytes → ℕ → LxmfNode net
  unfolding source_of persist_inbound_message
  on_resource n payload ts =
      let m = lxmf_event_from_bytes (source_of payload) payload none ts in
      record n {
        store = persist_inbound_message to_json n.store m;
        events = n.events ++ (LxmfEvent.message_received m ∷ []);
      }

  unfoldable pub on_group_payload : LxmfNode net → Bytes → ℕ → Option Bytes → LxmfNode net
  unfolding accept
  on_group_payload n dest ts none = n
  on_group_payload n dest ts (some dec) =
      if leb 97 (length dec)
      then accept n small_cap (lxmf_event_from_bytes (take 16 (drop 16 dec)) dec (some dest) ts)
      else n

  unfoldable pub on_group_key : LxmfNode net → Bytes → Bytes → ℕ → Option Bytes → LxmfNode net
  unfolding on_group_payload
  on_group_key n dest raw ts none = n
  on_group_key n dest raw ts (some key) = on_group_payload n dest ts (net.group_decrypt key raw)

  -- The group receiver, on a packet to `dest`.
  unfoldable pub on_group_packet : LxmfNode net → Registry → Bytes → Bytes → ℕ → LxmfNode net
  unfolding on_group_key lookup_key
  on_group_packet n groups dest raw ts = on_group_key n dest raw ts (lookup_key groups dest)

  -- `no_route` and `send_failed` are the JSON texts of the two errors.
  module _ (no_route send_failed : Bytes) where
    unfoldable pub rpc_failed : LxmfNode net → PendingRpc → Bytes → LxmfNode net
    unfolding push_capped
    rpc_failed n rpc text = record n {
      events = push_capped small_cap n.events (LxmfEvent.rpc_response rpc.id rpc.method text true);
    }

    unfoldable pub rpc_sent : LxmfNode net → PendingRpc → Bool → LxmfNode net
    unfolding rpc_failed
    rpc_sent n rpc true = n
    rpc_sent n rpc false = rpc_failed n rpc send_failed

    unfoldable pub dispatch_to : LxmfNode net → PendingRpc → Option DestinationDesc → LxmfNode net
    unfolding rpc_sent rpc_failed
    dispatch_to n rpc none = rpc_failed n rpc no_route
    dispatch_to n rpc (some desc) =
        let (t, ok) = net.send_via_link n.transport desc rpc.payload in
        rpc_sent (record n { transport = t }) rpc ok

    unfoldable pub dispatch_all : LxmfNode net → List PendingRpc → LxmfNode net
    unfolding dispatch_to
    dispatch_all n [] = n
    dispatch_all n (rpc ∷ rpcs) =
        dispatch_all (dispatch_to n rpc (lookup rpc.dest n.peer_identities)) rpcs

    -- A round of the dispatch task.
    unfoldable pub dispatch_rpcs : LxmfNode net → LxmfNode net
    unfolding dispatch_all
    dispatch_rpcs n =
        let (m, rpcs) = drain_pending_rpcs n.beacon_mgr in
        dispatch_all (record n { beacon_mgr = m }) rpcs

  -- `result_text` writes a result or an error as JSON.
  module _ (sv : Services) (result_text : RpcError ⊎ sv.codec.Value → Bytes) where
    open sv use {World, codec}

    unfoldable pub is_err : RpcError ⊎ codec.Value → Bool
    is_err (inl e) = true
    is_err (inr v) = false

    unfoldable pub on_matched : LxmfNode net → Option (RpcResult codec) → LxmfNode net
    unfolding is_err push_capped
    on_matched n none = n
    on_matched n (some r) = record n {
      events =
          push_capped small_cap n.events
            (LxmfEvent.rpc_response r.id r.method (result_text r.result) (is_err r.result));
    }

    unfoldable pub serve :
        LxmfNode net → World → BeaconConfig → Bytes → Bytes → Option Bytes → LxmfNode net × World
    serve n w config link_id payload none = (n, w)
    serve n w config link_id payload (some url) =
        let (w', response) = handle_rpc_request sv w payload config.keypair url config.program_id in
        (record n { transport = net.reply_on_link n.transport link_id response }, w')

    -- Of an RPC payload: a request is served in beacon mode, and left alone otherwise; the rest is
    -- taken for a response.
    unfoldable pub on_rpc :
        LxmfNode net → World → Bool → BeaconConfig → Bytes → Bytes → LxmfNode net × World
    unfolding serve on_matched
    on_rpc n w beacon_mode config link_id payload =
        if beacon_mode && is_rpc_request sv payload
        then serve n w config link_id payload config.solana_rpc_url
        else (if not (is_rpc_request sv payload)
            then (let (m, result) = on_rpc_bytes codec n.beacon_mgr payload in
                (on_matched (record n { beacon_mgr = m }) result, w))
            else (n, w))

    -- The data receiver of the modes with TCP.
    unfoldable pub on_data :
        LxmfNode net → World → Bool → BeaconConfig → Bytes → Bytes → ℕ → LxmfNode net × World
    unfolding on_rpc on_lxmf_data
    on_data n w beacon_mode config link_id payload ts =
        if looks_like_rpc_response payload
        then on_rpc n w beacon_mode config link_id payload
        else (on_lxmf_data n payload ts, w)
