-- ===== src/Node/Forged.antt =====
-- rust-core/src/node.rs: a message with a false source, at the data receivers and at the resource
-- receiver (lines 595-608).
use lxmf_react_native_rust.Prelude.{
  ℕ, ◌≡◌, refl, ap, ◌∙◌, ◌⊎◌, Bool, true, false, Option, none, some, List, [], ◌∷◌, ◌++◌, arith,
  Bytes, leb, if◌then◌else◌, le→leb, bytes_eq, starts_with, length,
}
use lxmf_react_native_rust.Server.{Services}
use lxmf_react_native_rust.Beacon.Wire.{RpcError}
use lxmf_react_native_rust.Prelude.Map.{bytes_Eq, lookup}
use lxmf_react_native_rust.Lxmf.Fields.{Json, Named}
use lxmf_react_native_rust.Lxmf.Payload.{
  looks_like_rpc_response, lxmf_event_from_bytes, verify_lxmf_signature,
}
use lxmf_react_native_rust.Lxmf.Payload.Signed.{verify_lxmf_signature_lem}
use lxmf_react_native_rust.Node.{LxmfEvent, Network, LxmfNode}
use lxmf_react_native_rust.Node.Send.{payload_of}
use lxmf_react_native_rust.Node.Receive.{
  zero_hash, source_of, persist_inbound_message, on_verdict, request_sender, on_data_ble,
  on_lxmf_data, on_resource, BeaconConfig, on_data,
}
use lxmf_react_native_rust.Node.Inbox
use lxmf_react_native_rust.Node.Inbox.{arrived, Fits}
use lxmf_react_native_rust.Node.Reception.{Received}

module _ (net : Network) (json : Json) (to_json : List Named → Bytes) where
  open net use {DestinationDesc, PrivateIdentity, sign, verify}

  -- Nothing is reported or stored.
  abbrev pub Dropped : LxmfNode net → LxmfNode net → Type 0
  Dropped n m = (m.events ≡ n.events) × (m.store ≡ n.store)

  module _ (n : LxmfNode net) (payload src : Bytes) (now : ℕ) where
    lxmf_data-Dropped :
        source_of payload ≡ src
        → verify_lxmf_signature verify payload n.peer_identities ≡ some false
        → Dropped n (on_lxmf_data net to_json n payload now)
    unfolding on_lxmf_data on_verdict request_sender
    lxmf_data-Dropped from wrong = rw (from, wrong) (either (bytes_eq src zero_hash))
      where
        either :
            (z : Bool)
            → Dropped n (if z then n else record n { transport = net.request_path n.transport src })
        either true = (refl, refl)
        either false = (refl, refl)

    data_ble-Dropped :
        looks_like_rpc_response payload ≡ false
        → source_of payload ≡ src
        → leb 32 (length payload) ≡ true
        → verify_lxmf_signature verify payload n.peer_identities ≡ some false
        → Dropped n (on_data_ble net to_json n payload now)
    unfolding on_data_ble on_verdict request_sender
    data_ble-Dropped lxmf from long wrong = rw (lxmf, from, long, wrong) (refl, refl)

    data-Dropped :
        (sv : Services) (result_text : RpcError ⊎ sv.codec.Value → Bytes) (w : sv.World)
        (beacon_mode : Bool) (config : BeaconConfig) (link_id : Bytes)
        → looks_like_rpc_response payload ≡ false
        → Dropped n (on_lxmf_data net to_json n payload now)
        → Dropped n
            (on_data net to_json sv result_text n w beacon_mode config link_id payload now).0
    unfolding on_data
    data-Dropped sv result_text w beacon_mode config link_id lxmf d = rw lxmf d

  -- A message that `identity` signs under the source `src`, which is not its own: the node knows the
  -- identity of `src`, and that accepts none of the signatures of `identity`. The rest is as for a
  -- message that arrives. As data, in every mode, it is neither reported nor stored; as a completed
  -- resource it is reported, and stored, as a message of `src`, just as it was written.
  pub forged_message :
      (n : LxmfNode net) (identity : PrivateIdentity) (dest src content : Bytes)
      (media_json : Option Bytes) (ts now : ℕ) (sv : Services)
      (result_text : RpcError ⊎ sv.codec.Value → Bytes) (w : sv.World) (beacon_mode : Bool)
      (config : BeaconConfig) (link_id : Bytes) (desc : DestinationDesc)
      → ((m : Bytes) → length (sign identity m) ≡ 64)
      → length dest ≡ 16
      → length src ≡ 16
      → starts_with dest (b'{' ∷ []) ≡ false
      → starts_with dest (0 ∷ b'z' ∷ b'l' ∷ []) ≡ false
      → Fits json content media_json
      → lookup src n.peer_identities ≡ some desc
      → ((m : Bytes) → verify desc m (sign identity m) ≡ false)
      → let payload = payload_of net json identity dest src content media_json ts in
        Dropped n (on_data_ble net to_json n payload now)
        × Dropped n
            (on_data net to_json sv result_text n w beacon_mode config link_id payload now).0
        × Received net json to_json n
            (on_resource net to_json n payload now)
            (arrived json src content media_json now none)
  unfolding on_resource
  forged_message n identity dest src content media_json ts now sv result_text w beacon_mode config
        link_id desc hl hd hs no_brace no_magic fits known foreign =
      let payload = payload_of net json identity dest src content media_json ts in
      let mp = Inbox.msgpack net json identity dest src content media_json ts hl hd hs in
      let sg = Inbox.sig net json identity dest src content media_json ts hl hd hs in
      let full = Inbox.not_empty net json identity dest src content media_json ts hl hd hs in
      let parts = Inbox.sent-whole net json identity dest src content media_json ts hl hd hs in
      let lxmf : looks_like_rpc_response payload ≡ false =
        ap looks_like_rpc_response parts
        ∙ Inbox.is_lxmf dest src sg mp hd hs (hl _) full no_brace no_magic in
      let from : source_of payload ≡ src =
        ap source_of parts ∙ Inbox.source_of-whole dest src sg mp hd hs (hl _) full in
      let long : leb 32 (length payload) ≡ true =
        ap (λ z. leb 32 (length z)) parts
        ∙ le→leb 32 _ (omega (arith, Inbox.length-whole dest src sg mp hd hs (hl _) full)) in
      let wrong : verify_lxmf_signature verify payload n.peer_identities ≡ some false =
        ap (λ z. verify_lxmf_signature verify z n.peer_identities) parts
        ∙ verify_lxmf_signature_lem verify dest src sg mp n.peer_identities hd hs (hl _) full
        ∙ rw known (ap some (foreign (dest ++ (src ++ mp)))) in
      let event : lxmf_event_from_bytes (source_of payload) payload none now
          ≡ arrived json src content media_json now none =
        ap (λ s. lxmf_event_from_bytes s payload none now) from
        ∙ Inbox.event-arrived net json identity dest src content media_json ts hl hd hs now none
            fits in
      (
        data_ble-Dropped n payload src now lxmf from long wrong,
        data-Dropped n payload src now sv result_text w beacon_mode config link_id lxmf
            (lxmf_data-Dropped n payload src now from wrong),
        (
          ap (λ e. n.events ++ (LxmfEvent.message_received e ∷ [])) event,
          ap (persist_inbound_message to_json n.store) event,
        ),
      )
