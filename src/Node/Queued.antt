-- ===== src/Node/Queued.antt =====
-- rust-core/src/node.rs: what each call of `send_to` comes to.
use lxmf_react_native_rust.Prelude.{ℕ, ◌+◌, ◌%◌, ◌^◌, ◌≡◌, refl, ◌⊎◌, inl, inr, Option, Bytes}
use lxmf_react_native_rust.Lxmf.Fields.{Json}
use lxmf_react_native_rust.Prelude.Map.{bytes_Eq, lookup}
use lxmf_react_native_rust.Node.{Network, LxmfNode, attempt}
use lxmf_react_native_rust.Node.Dispatched.{Tried, moved-Tried, dispatch-Dispatched}
use lxmf_react_native_rust.Node.Send.{
  SendError, begin_send, take_seq, check_dest, payload_of, send_checked, send_begun, send_to,
}

module _ (net : Network) (json : Json) where
  open net use {DestinationDesc, PrivateIdentity}

  -- A call of `send_to` on `n` and its result. Either it does not begin, and changes nothing; or the
  -- count of attempts goes up, and it fails on an address or the identity, or the signed payload is
  -- tried: sent, queued, or refused by the encryption.
  pub data Sent (n : LxmfNode net) (dest_hex content : Bytes) (media_json : Option Bytes)
      (ts now : ℕ) (m : LxmfNode net) (r : SendError ⊎ ℕ) : Type 0 where
    not_begun :
        (e : SendError)
        → begin_send net n ≡ inl e
        → m ≡ n
        → r ≡ inl e
        → Sent n dest_hex content media_json ts now m r
    not_checked :
        (id src : Bytes) (e : SendError)
        → begin_send net n ≡ inr (id, src)
        → check_dest net id src (net.hex_decode dest_hex) ≡ inl e
        → m ≡ take_seq net n
        → r ≡ inl e
        → Sent n dest_hex content media_json ts now m r
    tried :
        (id src dest : Bytes) (identity : PrivateIdentity)
        → begin_send net n ≡ inr (id, src)
        → check_dest net id src (net.hex_decode dest_hex) ≡ inr (dest, identity)
        → m.outbound_sent ≡ (n.outbound_sent + 1) % 2 ^ 64
        → (let payload = payload_of net json identity dest src content media_json ts in
            Tried net n m
              (net.send_packet_with_outcome n.transport dest payload).1
              (attempt net n.transport dest (lookup dest n.peer_identities) payload).1
              n.outbound_sent
              dest
              dest_hex
              payload
              now
              r)
        → Sent n dest_hex content media_json ts now m r

  module _ (n : LxmfNode net) (dest_hex content : Bytes) (media_json : Option Bytes)
      (ts now : ℕ) where
    abbrev SentAs : LxmfNode net × (SendError ⊎ ℕ) → Type 0
    SentAs (m, r) = Sent n dest_hex content media_json ts now m r

    checked-Sent :
        (id src : Bytes) (c : SendError ⊎ (Bytes × PrivateIdentity))
        → begin_send net n ≡ inr (id, src)
        → check_dest net id src (net.hex_decode dest_hex) ≡ c
        → SentAs (
            send_checked net json
              (take_seq net n)
              n.outbound_sent
              src
              dest_hex
              content
              media_json
              ts
              now
              c)
    unfolding send_checked take_seq attempt
    checked-Sent id src (inl e) b c = not_checked id src e b c refl refl
    checked-Sent id src (inr (dest, identity)) b c =
        let payload = payload_of net json identity dest src content media_json ts in
        let (t, outcome) = net.send_packet_with_outcome n.transport dest payload in
        let base : LxmfNode net = record (take_seq net n) { transport = t } in
        let (count, after) =
          dispatch-Dispatched net base n.outbound_sent dest dest_hex payload now outcome in
        tried id src dest identity b c count (
          moved-Tried net n _ t ((n.outbound_sent + 1) % 2 ^ 64) outcome _ n.outbound_sent dest
            dest_hex payload now _ after)

    begun-Sent :
        (b : SendError ⊎ (Bytes × Bytes))
        → begin_send net n ≡ b
        → SentAs (send_begun net json n dest_hex content media_json ts now b)
    unfolding send_begun
    begun-Sent (inl e) b = not_begun e b refl refl
    begun-Sent (inr (id, src)) b = checked-Sent id src _ b refl

    -- Any call of `send_to` ends in one of three ways. It does not begin, for want of a transport, an
    -- identity or an address: the node stays as it is. Or the destination, the address or the identity
    -- is bad: the call takes a number, and changes nothing else. Or the signed payload is tried, and
    -- the call takes a number: if the attempt delivers, by packet or by link, the queue, the events and
    -- the store stay, and the number is returned; if the encryption fails, they stay, and this error is
    -- returned; in every other case the number is returned and exactly this payload is queued, reported
    -- as queued, and stored if there is a store, though without an entry in the queue if that holds
    -- 1000 or more and the payload was not too large for a packet.
    pub send_to-Sent :
        let (m, r) = send_to net json n dest_hex content media_json ts now in
        Sent n dest_hex content media_json ts now m r
    unfolding send_to
    send_to-Sent = begun-Sent (begin_send net n) refl
