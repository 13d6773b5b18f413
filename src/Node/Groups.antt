-- ===== src/Node/Groups.antt =====
-- rust-core/src/group.rs and the group calls of rust-core/src/node.rs: `create_group`, `join_group`,
-- `leave_group`, `send_group`. The registry maps the address of a joined group to its key.
use lxmf_react_native_rust.Prelude.{
  ℕ, ◌⊎◌, inl, inr, not, Option, none, some, List, [], ◌∷◌, ◌++◌, Bytes, ◌==◌, if◌then◌else◌,
  length,
}
use lxmf_react_native_rust.Prelude.Map.{bytes_Eq, lookup, insert, remove}
use lxmf_react_native_rust.Lxmf.Fields.{Json}
use lxmf_react_native_rust.Node.{LxmfEvent, Network, LxmfNode}
use lxmf_react_native_rust.Node.Send.{
  SendError, invalid_hex, bad_length, not_joined, encrypt_failed, begin_send, take_seq,
  check_source, payload_of,
}

abbrev pub Registry : Type 0
Registry = List (Bytes × Bytes)

unfoldable pub register : Registry → Bytes → Bytes → Registry
register m addr key = insert addr key m

unfoldable pub unregister : Registry → Bytes → Registry
unregister m addr = remove addr m

unfoldable pub lookup_key : Registry → Bytes → Option Bytes
lookup_key m addr = lookup addr m

-- The decoded text, if it is 16 bytes long.
unfoldable pub sixteen : Option Bytes → SendError ⊎ Bytes
sixteen none = inl invalid_hex
sixteen (some bytes) =
    if not (length bytes == 16) then inl (bad_length (length bytes)) else inr bytes

module _ (net : Network) where
  open net use {PrivateIdentity, hex_decode, hex_encode, group_address_hash, group_encrypt}

  unfoldable pub create_with : Registry → Bytes → SendError ⊎ Bytes → Registry × (SendError ⊎ Bytes)
  unfolding register
  create_with m addr (inl e) = (m, inl e)
  create_with m addr (inr key) = (register m addr key, inr (hex_encode addr))

  unfoldable pub create_group : Registry → Bytes → Bytes → Registry × (SendError ⊎ Bytes)
  unfolding create_with sixteen
  create_group m name key_hex =
      create_with m (group_address_hash name) (sixteen (hex_decode key_hex))

  unfoldable pub join_key : Registry → Bytes → SendError ⊎ Bytes → Registry × Option SendError
  unfolding register
  join_key m addr (inl e) = (m, some e)
  join_key m addr (inr key) = (register m addr key, none)

  unfoldable pub join_with : Registry → Bytes → SendError ⊎ Bytes → Registry × Option SendError
  unfolding join_key sixteen
  join_with m key_hex (inl e) = (m, some e)
  join_with m key_hex (inr addr) = join_key m addr (sixteen (hex_decode key_hex))

  unfoldable pub join_group : Registry → Bytes → Bytes → Registry × Option SendError
  unfolding join_with sixteen
  join_group m group_addr_hex key_hex = join_with m key_hex (sixteen (hex_decode group_addr_hex))

  unfoldable pub leave_with : Registry → SendError ⊎ Bytes → Registry × Option SendError
  unfolding unregister
  leave_with m (inl e) = (m, some e)
  leave_with m (inr addr) = (unregister m addr, none)

  unfoldable pub leave_group : Registry → Bytes → Registry × Option SendError
  unfolding leave_with sixteen
  leave_group m group_addr_hex = leave_with m (sixteen (hex_decode group_addr_hex))

  -- The packet goes out, whatever becomes of it, and counts as queued.
  unfoldable pub send_encrypted :
      LxmfNode net → ℕ → Bytes → Bytes → Option Bytes → LxmfNode net × (SendError ⊎ ℕ)
  send_encrypted n seq addr addr_hex none = (n, inl encrypt_failed)
  send_encrypted n seq addr addr_hex (some encrypted) = (
    record n {
      transport = net.send_group_packet n.transport addr encrypted;
      events = n.events ++ (LxmfEvent.message_queued seq addr_hex ∷ []);
    },
    inr seq,
  )

  module _ (json : Json) where
    unfoldable pub group_checked :
        LxmfNode net
        → ℕ
        → Bytes
        → Bytes
        → Bytes
        → Bytes
        → Option Bytes
        → ℕ
        → SendError ⊎ (Bytes × PrivateIdentity)
        → LxmfNode net × (SendError ⊎ ℕ)
    unfolding send_encrypted
    group_checked n seq key src addr_hex content media_json ts (inl e) = (n, inl e)
    group_checked n seq key src addr_hex content media_json ts (inr (addr, identity)) =
        send_encrypted n seq addr addr_hex
          (group_encrypt key (payload_of net json identity addr src content media_json ts))

    unfoldable pub group_begun :
        LxmfNode net
        → Bytes
        → Bytes
        → Bytes
        → Bytes
        → Option Bytes
        → ℕ
        → SendError ⊎ (Bytes × Bytes)
        → LxmfNode net × (SendError ⊎ ℕ)
    unfolding group_checked
    group_begun n addr key addr_hex content media_json ts (inl e) = (n, inl e)
    group_begun n addr key addr_hex content media_json ts (inr (id, src)) =
        group_checked (take_seq net n) n.outbound_sent key src addr_hex content media_json ts
          (check_source net id src addr)

    unfoldable pub group_joined :
        LxmfNode net
        → Bytes
        → Bytes
        → Bytes
        → Option Bytes
        → ℕ
        → Option Bytes
        → LxmfNode net × (SendError ⊎ ℕ)
    unfolding group_begun
    group_joined n addr addr_hex content media_json ts none = (n, inl not_joined)
    group_joined n addr addr_hex content media_json ts (some key) =
        group_begun n addr key addr_hex content media_json ts (begin_send net n)

    unfoldable pub group_addressed :
        LxmfNode net
        → Registry
        → Bytes
        → Bytes
        → Option Bytes
        → ℕ
        → SendError ⊎ Bytes
        → LxmfNode net × (SendError ⊎ ℕ)
    unfolding group_joined lookup_key
    group_addressed n groups addr_hex content media_json ts (inl e) = (n, inl e)
    group_addressed n groups addr_hex content media_json ts (inr addr) =
        group_joined n addr addr_hex content media_json ts (lookup_key groups addr)

    unfoldable pub send_group :
        LxmfNode net → Registry → Bytes → Bytes → Option Bytes → ℕ → LxmfNode net × (SendError ⊎ ℕ)
    unfolding group_addressed sixteen
    send_group n groups addr_hex content media_json ts =
        group_addressed n groups addr_hex content media_json ts (sixteen (hex_decode addr_hex))
