-- ===== src/Node/Send.antt =====
-- rust-core/src/node.rs: `send_to`. The text of an error is not modelled, its kind is; "Node not
-- initialized" cannot arise, since the node is given. The path request is spawned there, and made at
-- once here. `ts` is the bits of the timestamp, `now` the store's clock.
use lxmf_react_native_rust.Prelude.{
  ℕ, ◌+◌, ◌%◌, ◌^◌, ◌⊎◌, inl, inr, Bool, true, false, not, ◌&&◌, Option, none, some, [], ◌∷◌, ◌++◌,
  Bytes, ltb, ◌==◌, if◌then◌else◌, length,
}
use lxmf_react_native_rust.Prelude.Map.{bytes_Eq, lookup}
use lxmf_react_native_rust.Lxmf.Fields.{Json, build_fields_msgpack}
use lxmf_react_native_rust.Lxmf.Payload.{encode_lxmf_msgpack, signed_payload}
use lxmf_react_native_rust.Store.{MessageStore, enqueue_outbound}
use lxmf_react_native_rust.Node.{LxmfEvent, SendPacketOutcome, Network, LxmfNode}

pub data SendError : Type 0 where
  transport_not_started : SendError
  no_identity : SendError
  bad_address_hex : SendError
  invalid_hex : SendError
  bad_length : (got : ℕ) → SendError
  bad_source_length : (got : ℕ) → SendError
  bad_private_identity : SendError
  encrypt_failed : SendError
  not_joined : SendError

abbrev pub pending_cap : ℕ
pending_cap = 1000

-- `enqueue_outbound(..).ok()`, if there is a store.
unfoldable pub enqueue_in :
    Option MessageStore → ℕ → Bytes → Bytes → ℕ → Option MessageStore × Option ℕ
enqueue_in none seq dest payload now = (none, none)
enqueue_in (some s) seq dest payload now =
    let (s', id) = enqueue_outbound s seq dest payload now in (some s', some id)

module _ (net : Network) where
  open net use {
    Transport, DestinationDesc, PrivateIdentity, hex_decode, from_private_key_bytes, sign,
  }

  unfoldable pub with_source : Bytes → Option Bytes → SendError ⊎ (Bytes × Bytes)
  with_source id none = inl bad_address_hex
  with_source id (some src) = inr (id, src)

  unfoldable pub with_identity : Option Bytes → Bytes → SendError ⊎ (Bytes × Bytes)
  unfolding with_source
  with_identity none address_hex = inl no_identity
  with_identity (some id) address_hex = with_source id (hex_decode address_hex)

  -- What is read under the node's lock: the identity's bytes and the source hash.
  unfoldable pub begin_send : LxmfNode net → SendError ⊎ (Bytes × Bytes)
  unfolding with_identity
  begin_send n =
      if not n.started
      then inl transport_not_started
      else with_identity n.identity_bytes n.address_hex

  -- The attempt takes a number, a u64, before anything else can fail.
  unfoldable pub take_seq : LxmfNode net → LxmfNode net
  take_seq n = record n { outbound_sent = (n.outbound_sent + 1) % 2 ^ 64 }

  unfoldable pub with_private :
      Bytes → Option PrivateIdentity → SendError ⊎ (Bytes × PrivateIdentity)
  with_private dest none = inl bad_private_identity
  with_private dest (some identity) = inr (dest, identity)

  unfoldable pub check_source : Bytes → Bytes → Bytes → SendError ⊎ (Bytes × PrivateIdentity)
  unfolding with_private
  check_source id src dest =
      if not (length src == 16)
      then inl (bad_source_length (length src))
      else with_private dest (from_private_key_bytes id)

  unfoldable pub check_dest : Bytes → Bytes → Option Bytes → SendError ⊎ (Bytes × PrivateIdentity)
  unfolding check_source
  check_dest id src none = inl invalid_hex
  check_dest id src (some dest) =
      if not (length dest == 16) then inl (bad_length (length dest)) else check_source id src dest

  -- Store, queue and event of a message that could not be sent; `capped` is the test on the queue,
  -- which the branches for large payloads do not make.
  unfoldable pub queue_send : LxmfNode net → Bool → ℕ → Bytes → Bytes → Bytes → ℕ → LxmfNode net
  unfolding enqueue_in
  queue_send n capped seq dest dest_hex payload now =
      let (store, store_id) = enqueue_in n.store seq dest payload now in
      record n {
        store = store;
        pending_sends =
            if capped && not (ltb (length n.pending_sends) pending_cap)
            then n.pending_sends
            else n.pending_sends
              ++ (record { seq = seq; dest = dest; lxmf_payload = payload; store_id = store_id }
                  ∷ []);
        events = n.events ++ (LxmfEvent.message_queued seq dest_hex ∷ []);
      }

  unfoldable pub link_sent :
      LxmfNode net → ℕ → Bytes → Bytes → Bytes → ℕ → Bool → LxmfNode net × (SendError ⊎ ℕ)
  unfolding queue_send
  link_sent n seq dest dest_hex payload now true = (n, inr seq)
  link_sent n seq dest dest_hex payload now false =
      (queue_send n false seq dest dest_hex payload now, inr seq)

  unfoldable pub send_large :
      LxmfNode net
      → ℕ
      → Bytes
      → Bytes
      → Bytes
      → ℕ
      → Option DestinationDesc
      → LxmfNode net × (SendError ⊎ ℕ)
  unfolding link_sent queue_send
  send_large n seq dest dest_hex payload now none =
      (queue_send n false seq dest dest_hex payload now, inr seq)
  send_large n seq dest dest_hex payload now (some desc) =
      let (t, ok) = net.send_via_link n.transport desc payload in
      link_sent (record n { transport = t }) seq dest dest_hex payload now ok

  unfoldable pub dispatch :
      LxmfNode net
      → ℕ
      → Bytes
      → Bytes
      → Bytes
      → ℕ
      → SendPacketOutcome
      → LxmfNode net × (SendError ⊎ ℕ)
  unfolding queue_send send_large
  dispatch n seq dest dest_hex payload now SendPacketOutcome.sent_direct = (n, inr seq)
  dispatch n seq dest dest_hex payload now SendPacketOutcome.sent_broadcast = (n, inr seq)
  dispatch n seq dest dest_hex payload now SendPacketOutcome.dropped_missing_destination_identity =
      let n' = queue_send n true seq dest dest_hex payload now in
      (record n' { transport = net.request_path n'.transport dest }, inr seq)
  dispatch n seq dest dest_hex payload now SendPacketOutcome.dropped_no_route =
      (queue_send n true seq dest dest_hex payload now, inr seq)
  dispatch n seq dest dest_hex payload now SendPacketOutcome.dropped_ciphertext_too_large =
      send_large n seq dest dest_hex payload now (lookup dest n.peer_identities)
  dispatch n seq dest dest_hex payload now SendPacketOutcome.dropped_encrypt_failed =
      (n, inl encrypt_failed)

  module _ (json : Json) where
    -- The signed payload of a message without a title.
    unfoldable pub payload_of : PrivateIdentity → Bytes → Bytes → Bytes → Option Bytes → ℕ → Bytes
    payload_of identity dest src content media_json ts =
        signed_payload (sign identity) dest src
          (encode_lxmf_msgpack ts [] content (build_fields_msgpack json media_json))

    unfoldable pub send_checked :
        LxmfNode net
        → ℕ
        → Bytes
        → Bytes
        → Bytes
        → Option Bytes
        → ℕ
        → ℕ
        → SendError ⊎ (Bytes × PrivateIdentity)
        → LxmfNode net × (SendError ⊎ ℕ)
    unfolding dispatch payload_of
    send_checked n seq src dest_hex content media_json ts now (inl e) = (n, inl e)
    send_checked n seq src dest_hex content media_json ts now (inr (dest, identity)) =
        let payload = payload_of identity dest src content media_json ts in
        let (t, outcome) = net.send_packet_with_outcome n.transport dest payload in
        dispatch (record n { transport = t }) seq dest dest_hex payload now outcome

    unfoldable pub send_begun :
        LxmfNode net
        → Bytes
        → Bytes
        → Option Bytes
        → ℕ
        → ℕ
        → SendError ⊎ (Bytes × Bytes)
        → LxmfNode net × (SendError ⊎ ℕ)
    unfolding send_checked take_seq check_dest
    send_begun n dest_hex content media_json ts now (inl e) = (n, inl e)
    send_begun n dest_hex content media_json ts now (inr (id, src)) =
        send_checked (take_seq n) n.outbound_sent src dest_hex content media_json ts now
          (check_dest id src (hex_decode dest_hex))

    unfoldable pub send_to :
        LxmfNode net → Bytes → Bytes → Option Bytes → ℕ → ℕ → LxmfNode net × (SendError ⊎ ℕ)
    unfolding send_begun begin_send
    send_to n dest_hex content media_json ts now =
        send_begun n dest_hex content media_json ts now (begin_send n)
