-- ===== src/Server.antt =====
-- rust-core/src/beacon_server.rs: the JSON-RPC server of a beacon. serde_json, zlib, base64, bs58,
-- hex, ed25519 and the HTTP client are parameters; the calls of the client change the state `World`
-- behind it. The text of an error reply is not modelled, its code and its reason are.
pub mod Cosign
pub mod Prepare
pub mod Approved
mod Tests
use lxmf_react_native_rust.Prelude.{
  subst, ℕ, zero, suc, ◌+◌, ◌-◌, ◌*◌, ◌/◌, ◌%◌, ◌^◌, ◌≤◌, ◌<◌, min, max, ◌≡◌, refl, sym, ap, ap₂,
  ◌∙◌, ◌≢◌, ◌↔◌, ◌⊎◌, inl, inr, Bool, true, false, not, ◌&&◌, ◌||◌, Option, none, some, List, [],
  ◌∷◌, ◌++◌, map, append-nil, append_assoc, arith, Bytes, IsByte, ltb, leb, ◌==◌, if◌then◌else◌,
  ltb→lt, lt→ltb, leb→le, le→leb, ==_iff, Bool-cases, Option-cases, bytes_eq, bytes_eq→eq,
  bytes_eq_refl, starts_with, starts_with-append, length, get_elem?, set, get_or, take, drop,
  replicate, length-append, length-take, length-drop, length-replicate, length-map, length-set,
  take-append-drop, get_elem?-set_self, get_elem?-set_ne,
}
use lxmf_react_native_rust.Beacon.Wire.{Codec, RpcRequest, compress_payload, decompress_payload}
use lxmf_react_native_rust.Solana.Compact.{read_compact_u16}
use lxmf_react_native_rust.Solana.Slots.{verify_slot_signature}
use lxmf_react_native_rust.Solana.Inspect.{verify_execute_payment_instruction, extract_account_key}

pub data Reason : Type 0 where
  decompress_failed : Reason
  parse_failed : Reason
  needs_keypair_and_program : Reason
  missing_param : Reason
  bad_base64 : Reason
  bad_signature_count : Reason
  too_few_signers : Reason
  too_short : Reason
  no_payer : Reason
  bad_payer_signature : Reason
  not_execute_payment : Reason
  no_http_client : Reason
  call_failed : Reason
  invalid_request_json : Reason
  no_blockhash : Reason
  bad_field : Reason

-- The code of the error, with the sign left out: -32700 is 32700.
unfoldable pub code_of : Reason → ℕ
code_of decompress_failed = 32700
code_of parse_failed = 32700
code_of needs_keypair_and_program = 32002
code_of bad_payer_signature = 32600
code_of no_http_client = 32000
code_of call_failed = 32000
code_of no_blockhash = 32603
code_of missing_param = 32602
code_of bad_base64 = 32602
code_of bad_signature_count = 32602
code_of too_few_signers = 32602
code_of too_short = 32602
code_of no_payer = 32602
code_of not_execute_payment = 32602
code_of invalid_request_json = 32602
code_of bad_field = 32602

-- The calls that the beacon makes of the Solana node.
pub data Call (Value : Type 0) : Type 0 where
  send_raw_transaction : (full_tx_b64 : Bytes) → Call Value
  get_latest_blockhash : Call Value
  forward : (id : ℕ) (method : Bytes) (params : Value) → Call Value

-- What goes back: an error, Solana's answer under the id of the request, or an unsigned transaction.
pub data Reply (Value : Type 0) : Type 0 where
  refused : Reason → Reply Value
  relayed : Value → Reply Value
  unsigned_tx : (tx_b64 : Bytes) → Reply Value

-- The fields of a `prepareTransaction` request, as text.
pub record PrepareRequest : Type 0 where
  pub payer : Bytes
  pub payer_ata : Bytes
  pub recipient : Bytes
  pub recipient_ata : Bytes
  pub broadcaster_ata : Bytes
  pub mint : Bytes
  pub comp_offset : ℕ
  pub amount : ℕ
  pub encrypted_amount : Bytes
  pub nonce : Bytes
  pub encryption_pub_key : Bytes

pub record Keypair : Type 0 where
  pub public_key : Bytes
  pub sign : Bytes → Bytes

pub record Services : Type 1 where
  pub codec : Codec
  -- is there a key "method"? none for text that is no JSON
  pub has_method : Bytes → Option Bool
  pub request_of : Bytes → Option (RpcRequest (codec.Value))
  -- `params.get(0).and_then(as_str)`
  pub first_text : codec.Value → Option Bytes
  pub prepare_request_of : Bytes → Option PrepareRequest
  -- `["result"]["value"]["blockhash"].as_str()`
  pub blockhash_text : codec.Value → Option Bytes
  -- the text of a reply to the request of the id
  pub write_reply : ℕ → Reply (codec.Value) → Bytes
  pub b64_decode : Bytes → Option Bytes
  pub b64_encode : Bytes → Bytes
  pub bs58_decode : Bytes → Option Bytes
  pub hex_decode : Bytes → Option Bytes
  pub sha256 : Bytes → Bytes
  pub VerifyingKey : Type 0
  pub key_of : Bytes → Option VerifyingKey
  pub verify : VerifyingKey → Bytes → Bytes → Bool
  pub World : Type 0
  -- can the client be built?
  pub has_http_client : Bool
  pub post_json : World → Bytes → Call (codec.Value) → World × Option (codec.Value)

module _ (sv : Services) where
  open sv use {World, codec, sha256, key_of, verify}

  abbrev pub Answer : Type 0
  Answer = Reply (codec.Value)

  unfoldable pub method_in : Option Bytes → Bool
  method_in none = false
  method_in (some raw) = elim (sv.has_method raw) [ none ↦ false | some there ↦ there ]

  unfoldable pub is_rpc_request : Bytes → Bool
  unfolding method_in
  is_rpc_request payload = method_in (decompress_payload codec payload)

  unfoldable pub relay : World × Option (codec.Value) → World × Answer
  relay (w, none) = (w, Reply.refused call_failed)
  relay (w, some resp) = (w, Reply.relayed resp)

  -- A call by a new client.
  unfoldable pub call : World → Bytes → Call (codec.Value) → World × Answer
  unfolding relay
  call w url body =
      if not sv.has_http_client
      then (w, Reply.refused no_http_client)
      else relay (sv.post_json w url body)

  -- The checked transaction, signed in slot 1, is submitted.
  unfoldable pub submit : World → Keypair → Bytes → Bytes → ℕ → Bytes → World × Answer
  unfolding call
  submit w keypair url tx_bytes consumed message_bytes =
      let sig1_start = consumed + 64 in
      let signed =
        take sig1_start tx_bytes
        ++ (keypair.sign message_bytes ++ drop (sig1_start + 64) tx_bytes) in
      call w url (Call.send_raw_transaction (sv.b64_encode signed))

  unfoldable pub cosign_payer :
      World → Keypair → Bytes → Bytes → Bytes → ℕ → Bytes → Option Bytes → World × Answer
  unfolding submit
  cosign_payer w keypair url program_id tx_bytes consumed message_bytes none =
      (w, Reply.refused no_payer)
  cosign_payer w keypair url program_id tx_bytes consumed message_bytes (some payer_pubkey) =
      if not (verify_slot_signature key_of verify tx_bytes payer_pubkey 0)
      then (w, Reply.refused bad_payer_signature)
      else (if not (verify_execute_payment_instruction sha256 program_id message_bytes)
          then (w, Reply.refused not_execute_payment)
          else submit w keypair url tx_bytes consumed message_bytes)

  unfoldable pub cosign_counted :
      World → Keypair → Bytes → Bytes → Bytes → Option (ℕ × ℕ) → World × Answer
  unfolding cosign_payer
  cosign_counted w keypair url program_id tx_bytes none = (w, Reply.refused bad_signature_count)
  cosign_counted w keypair url program_id tx_bytes (some (num_sigs, consumed)) =
      let msg_start = consumed + num_sigs * 64 in
      let message_bytes = drop msg_start tx_bytes in
      if ltb num_sigs 2
      then (w, Reply.refused too_few_signers)
      else (if ltb (length tx_bytes) msg_start
          then (w, Reply.refused too_short)
          else cosign_payer w keypair url program_id tx_bytes consumed message_bytes
              (extract_account_key message_bytes 0))

  unfoldable pub cosign_decoded : World → Keypair → Bytes → Bytes → Option Bytes → World × Answer
  unfolding cosign_counted
  cosign_decoded w keypair url program_id none = (w, Reply.refused bad_base64)
  cosign_decoded w keypair url program_id (some tx_bytes) =
      cosign_counted w keypair url program_id tx_bytes (read_compact_u16 tx_bytes)

  unfoldable pub cosign_text : World → Keypair → Bytes → Bytes → Option Bytes → World × Answer
  unfolding cosign_decoded
  cosign_text w keypair url program_id none = (w, Reply.refused missing_param)
  cosign_text w keypair url program_id (some partial_tx_b64) =
      cosign_decoded w keypair url program_id (sv.b64_decode partial_tx_b64)

  unfoldable pub cosign_and_submit :
      World → (codec.Value) → Keypair → Bytes → Bytes → World × Answer
  unfolding cosign_text
  cosign_and_submit w params keypair url program_id =
      cosign_text w keypair url program_id (sv.first_text params)
