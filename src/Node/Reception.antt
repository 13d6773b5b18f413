-- ===== src/Node/Reception.antt =====
-- Messages at the node that receives them: what arrives, and what does not.
use lxmf_react_native_rust.Prelude.{
  subst, ℕ, ◌<◌, ◌≡◌, refl, sym, ap, ◌∙◌, ◌⊎◌, inl, inr, Bool, true, false, ◌&&◌, ◌||◌, Option,
  none, some, List, [], ◌∷◌, ◌++◌, arith, Bytes, ltb, leb, if◌then◌else◌, lt→ltb, le→leb, bytes_eq,
  starts_with, length,
}
use lxmf_react_native_rust.Server.{Services, is_rpc_request, method_in}
use lxmf_react_native_rust.Beacon.Rpc.{on_rpc_bytes, on_response}
use lxmf_react_native_rust.Beacon.Manager.{BeaconManager}
use lxmf_react_native_rust.Beacon.Wire.{
  Codec, RpcError, decompress_payload, parse_raw, parse_rpc_response,
}
use lxmf_react_native_rust.Prelude.Map.{bytes_Eq, lookup}
use lxmf_react_native_rust.Lxmf.Fields.{Json, Named}
use lxmf_react_native_rust.Lxmf.Payload.{
  Message, looks_like_rpc_response, lxmf_event_from_bytes, verify_lxmf_signature, signed_payload,
}
use lxmf_react_native_rust.Node.{LxmfEvent, Network, LxmfNode}
use lxmf_react_native_rust.Node.Send.{payload_of}
use lxmf_react_native_rust.Node.Receive.{
  zero_hash, message_cap, source_of, persist_inbound_message, push_capped, accept, on_verdict,
  request_sender, on_data_ble, on_lxmf_data, BeaconConfig, on_data, on_rpc, on_matched,
}
use lxmf_react_native_rust.Node.Inbox
use lxmf_react_native_rust.Node.Inbox.{arrived, Fits, starts_with-front}

brace_is_rpc : (xs : Bytes) → looks_like_rpc_response (b'{' ∷ xs) ≡ true
unfolding looks_like_rpc_response
brace_is_rpc xs = either_true (ltb (length (b'{' ∷ xs)) 97) _
  where
    either_true : (b c : Bool) → ((b || true) || c) ≡ true
    either_true true c = refl
    either_true false c = refl

brace_is_plain :
    (codec : Codec) (xs : Bytes) → decompress_payload codec (b'{' ∷ xs) ≡ some (b'{' ∷ xs)
unfolding decompress_payload
brace_is_plain codec xs = refl

-- Plain bytes that are no JSON are no request, and no response.
no_request :
    (sv : Services) (payload : Bytes)
    → decompress_payload (sv.codec) payload ≡ some payload
    → sv.has_method payload ≡ none
    → is_rpc_request sv payload ≡ false
unfolding is_rpc_request method_in
no_request sv payload plain junk = rw (plain, method_in, junk) refl

no_response :
    (codec : Codec) (m : BeaconManager) (payload : Bytes)
    → decompress_payload codec payload ≡ some payload
    → codec.from_slice payload ≡ none
    → on_rpc_bytes codec m payload ≡ (m, none)
unfolding on_rpc_bytes on_response parse_rpc_response parse_raw
no_response codec m payload plain junk = rw (plain, junk) refl

module _ (net : Network) (json : Json) (to_json : List Named → Bytes) where
  open net use {DestinationDesc, PrivateIdentity, sign, verify}

  -- The message is reported, and stored if there is a store.
  abbrev pub Received : LxmfNode net → LxmfNode net → Message → Type 0
  Received n m msg =
      (m.events ≡ n.events ++ (LxmfEvent.message_received msg ∷ []))
      × (m.store ≡ persist_inbound_message to_json n.store msg)

  pub accept-Received :
      (n : LxmfNode net) (cap : ℕ) (msg : Message)
      → length n.events < cap
      → Received n (accept net to_json n cap msg) msg
  unfolding accept push_capped
  accept-Received n cap msg room = (rw (lt→ltb (length n.events) cap room) refl, refl)

  module _ (n : LxmfNode net) (identity : PrivateIdentity) (dest src content : Bytes)
      (media_json : Option Bytes) (ts now : ℕ) where
    abbrev payload : Bytes
    payload = payload_of net json identity dest src content media_json ts

    abbrev verdict : Option Bool
    verdict = verify_lxmf_signature verify payload n.peer_identities

    abbrev Checked : net.Transport → Type 0
    Checked t =
        Received n (on_verdict net to_json (record n { transport = t }) src payload now verdict)
          (arrived json src content media_json now none)

    by_ble :
        looks_like_rpc_response payload ≡ false
        → source_of payload ≡ src
        → leb 32 (length payload) ≡ true
        → Checked (net.request_path n.transport src)
        → Received n
            (on_data_ble net to_json n payload now)
            (arrived json src content media_json now none)
    unfolding on_data_ble request_sender
    by_ble a b c r = rw (a, b, c) r

    either :
        ((t : net.Transport) → Checked t)
        → (z : Bool)
        → Received n
            (on_verdict net to_json
              (if z then n else record n { transport = net.request_path n.transport src })
              src
              payload
              now
              verdict)
            (arrived json src content media_json now none)
    either r true = r n.transport
    either r false = r (net.request_path n.transport src)

    by_tcp :
        source_of payload ≡ src
        → ((t : net.Transport) → Checked t)
        → Received n
            (on_lxmf_data net to_json n payload now)
            (arrived json src content media_json now none)
    unfolding on_lxmf_data request_sender
    by_tcp b r = rw b (either r (bytes_eq src zero_hash))

    settled :
        (t : net.Transport)
        → lxmf_event_from_bytes src payload none now ≡ arrived json src content media_json now none
        → length n.events < message_cap
        → (v : Option Bool) → (v ≡ none) ⊎ (v ≡ some true)
        → Received n
            (on_verdict net to_json (record n { transport = t }) src payload now v)
            (arrived json src content media_json now none)
    unfolding on_verdict
    settled t e room none c =
        subst
          (Received n (
            accept net to_json (record n { transport = t }) message_cap
              (lxmf_event_from_bytes src payload none now)))
          e (accept-Received (record n { transport = t }) message_cap _ room)
    settled t e room (some true) c =
        subst
          (Received n (
            accept net to_json (record n { transport = t }) message_cap
              (lxmf_event_from_bytes src payload none now)))
          e (accept-Received (record n { transport = t }) message_cap _ room)
    settled t e room (some false) (inl c) = cc
    settled t e room (some false) (inr c) = cc

    module _ (sv : Services) (result_text : RpcError ⊎ sv.codec.Value → Bytes) (w : sv.World)
        (beacon_mode : Bool) (config : BeaconConfig) (link_id : Bytes) where
      by_data :
          looks_like_rpc_response payload ≡ false
          → Received n
              (on_lxmf_data net to_json n payload now)
              (arrived json src content media_json now none)
          → Received n
              (on_data net to_json sv result_text n w beacon_mode config link_id payload now).0
              (arrived json src content media_json now none)
      unfolding on_data
      by_data a r = rw a r

      -- A message to a 16-byte destination that starts neither with `{` nor with the mark of compressed
      -- data, from a 16-byte source, with contents and media within the limits of their formats and a
      -- signature of 64 bytes. It arrives at a node with room for events, in every mode, that has no
      -- identity for the source, or one that accepts what the sender signs: the message is reported with
      -- source, content, image and files as they were sent, and stored if the node has a store.
      pub message_received_lem :
          ((m : Bytes) → length (sign identity m) ≡ 64)
          → length dest ≡ 16
          → length src ≡ 16
          → starts_with dest (b'{' ∷ []) ≡ false
          → starts_with dest (0 ∷ b'z' ∷ b'l' ∷ []) ≡ false
          → Fits json content media_json
          → ((desc : DestinationDesc)
              → lookup src n.peer_identities ≡ some desc
              → (m : Bytes) → verify desc m (sign identity m) ≡ true)
          → length n.events < message_cap
          → Received n
              (on_data_ble net to_json n payload now)
              (arrived json src content media_json now none)
            × Received n
                (on_data net to_json sv result_text n w beacon_mode config link_id payload now).0
                (arrived json src content media_json now none)
      message_received_lem hl hd hs no_brace no_magic fits known room =
          let mp = Inbox.msgpack net json identity dest src content media_json ts hl hd hs in
          let sg = Inbox.sig net json identity dest src content media_json ts hl hd hs in
          let full = Inbox.not_empty net json identity dest src content media_json ts hl hd hs in
          let parts = Inbox.sent-whole net json identity dest src content media_json ts hl hd hs in
          let lxmf : looks_like_rpc_response payload ≡ false =
            ap looks_like_rpc_response parts
            ∙ Inbox.is_lxmf dest src sg mp hd hs (hl _) full no_brace no_magic in
          let from : source_of payload ≡ src =
            ap source_of parts ∙ Inbox.source_of-whole dest src sg mp hd hs (hl _) full in
          let long : leb 32 (length payload) ≡ true =
            ap (λ z. leb 32 (length z)) parts
            ∙ le→leb 32 _ (omega (arith, Inbox.length-whole dest src sg mp hd hs (hl _) full)) in
          let event =
            Inbox.event-arrived net json identity dest src content media_json ts hl hd hs now none
              fits in
          let ok =
            Inbox.verdict_not_false net json identity dest src content media_json ts hl hd hs
              n.peer_identities known verdict refl in
          let checked : (t : net.Transport) → Checked t = λ t. settled t event room verdict ok in
          (
            by_ble lxmf from long (checked (net.request_path n.transport src)),
            by_data lxmf (by_tcp from checked),
          )

      -- Whatever message is signed for a destination that starts with `{`, and whose bytes are no JSON
      -- text: the data receiver of every mode takes it for an RPC payload and does nothing with it.
      pub message_to_brace :
          (rest : Bytes)
          → dest ≡ b'{' ∷ rest
          → sv.has_method payload ≡ none
          → sv.codec.from_slice payload ≡ none
          → (on_data_ble net to_json n payload now ≡ n)
            × (on_data net to_json sv result_text n w beacon_mode config link_id payload now
                ≡ (n, w))
      unfolding on_data_ble on_data on_rpc on_matched
      message_to_brace rest brace no_json no_answer =
          let at : (d : Bytes) → Bytes =
            λ d. payload_of net json identity d src content media_json ts in
          let rpc : looks_like_rpc_response payload ≡ true =
            ap (λ d. looks_like_rpc_response (at d)) brace
            ∙ (unfold payload_of in unfold signed_payload in brace_is_rpc _) in
          let plain : decompress_payload (sv.codec) payload ≡ some payload =
            subst (λ d. decompress_payload (sv.codec) (at d) ≡ some (at d)) (sym brace)
              (unfold payload_of in unfold signed_payload in brace_is_plain (sv.codec) _) in
          let request = no_request sv payload plain no_json in
          let response = no_response (sv.codec) n.beacon_mgr payload plain no_answer in
          (rw rpc refl, rw (rpc, request, response, and_false beacon_mode) refl)
        where
          and_false : (b : Bool) → (b && false) ≡ false
          and_false true = refl
          and_false false = refl
