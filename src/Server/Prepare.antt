-- ===== src/Server/Prepare.antt =====
-- rust-core/src/beacon_server.rs: `prepare_transaction`, `fetch_latest_blockhash`, `proxy_solana`,
-- and `handle_rpc_request`, which chooses between the methods.
use lxmf_react_native_rust.Prelude.{
  ℕ, ◌+◌, ◌-◌, ◌*◌, ◌^◌, not, ◌&&◌, Option, none, some, [], ◌∷◌, Bytes, ltb, leb, ◌==◌,
  if◌then◌else◌, bytes_eq, length,
}
use lxmf_react_native_rust.Beacon.Wire.{RpcRequest, compress_payload, decompress_payload}
use lxmf_react_native_rust.Solana.Message.{Key}
use lxmf_react_native_rust.Solana.Build.{
  ◌>>=◌, PlainExecutePaymentAccounts, ExecutePaymentParams, build_unsigned_execute_payment,
}
use lxmf_react_native_rust.Server.{
  Reason, Call, Reply, PrepareRequest, Keypair, Services, Answer, call, cosign_and_submit,
}

-- `"...".parse::<u128>()`: digits, after a plus sign or not, below 2 ^ 128.
unfoldable pub parse_digits : ℕ → Bytes → Option ℕ
parse_digits n [] = some n
parse_digits n (d ∷ ds) =
    let m = n * 10 + (d - 48) in
    let rest = parse_digits m ds in if leb 48 d && leb d 57 && ltb m (2 ^ 128) then rest else none

unfoldable pub parse_u128 : Bytes → Option ℕ
unfolding parse_digits
parse_u128 [] = none
parse_u128 (c ∷ []) = parse_digits 0 (c ∷ [])
parse_u128 (c ∷ d ∷ ds) = if c == b'+' then parse_digits 0 (d ∷ ds) else parse_digits 0 (c ∷ d ∷ ds)

-- "cosignTransaction"
abbrev pub cosign_method : Bytes
cosign_method =
    b'c' ∷ b'o' ∷ b's' ∷ b'i' ∷ b'g' ∷ b'n' ∷ b'T' ∷ b'r' ∷ b'a' ∷ b'n' ∷ b's' ∷ b'a' ∷ b'c' ∷ b't'
    ∷ b'i' ∷ b'o' ∷ b'n' ∷ []

-- "prepareTransaction"
abbrev pub prepare_method : Bytes
prepare_method =
    b'p' ∷ b'r' ∷ b'e' ∷ b'p' ∷ b'a' ∷ b'r' ∷ b'e' ∷ b'T' ∷ b'r' ∷ b'a' ∷ b'n' ∷ b's' ∷ b'a' ∷ b'c'
    ∷ b't' ∷ b'i' ∷ b'o' ∷ b'n' ∷ []

module _ (sv : Services) where
  open sv use {World, codec, sha256}

  -- Of 32 bytes, or none.
  unfoldable pub thirty_two : Option Bytes → Option Key
  thirty_two none = none
  thirty_two (some bytes) = if length bytes == 32 then some bytes else none

  unfoldable pub hex32 : Bytes → Option Key
  unfolding thirty_two
  hex32 text = thirty_two (sv.hex_decode text)

  unfoldable pub accounts_of : PrepareRequest → Key → Option PlainExecutePaymentAccounts
  unfolding hex32
  accounts_of req program_id = do
    payer ← hex32 req.payer
    payer_ata ← hex32 req.payer_ata
    recipient ← hex32 req.recipient
    recipient_ata ← hex32 req.recipient_ata
    broadcaster_ata ← hex32 req.broadcaster_ata
    mint ← hex32 req.mint
    some (record {
      payer = payer;
      payer_ata = payer_ata;
      recipient = recipient;
      recipient_ata = recipient_ata;
      broadcaster_ata = broadcaster_ata;
      mint = mint;
      program_id = program_id;
    })

  unfoldable pub params_of : PrepareRequest → Option ExecutePaymentParams
  unfolding hex32 parse_u128
  params_of req = do
    encrypted_amount ← hex32 req.encrypted_amount
    nonce ← parse_u128 req.nonce
    encryption_pub_key ← hex32 req.encryption_pub_key
    some (record {
      comp_offset = req.comp_offset;
      amount = req.amount;
      encrypted_amount = encrypted_amount;
      nonce = nonce;
      encryption_pub_key = encryption_pub_key;
    })

  -- A field that is bad refuses the request, under the same code whichever it is. From good fields
  -- the transaction is always built: see `plain_message_built` in Solana/Build/Table.antt.
  unfoldable pub built_tx : PrepareRequest → Keypair → Key → Bytes → Option Bytes
  unfolding accounts_of params_of
  built_tx req keypair program_id blockhash = do
    accounts ← accounts_of req program_id
    params ← params_of req
    build_unsigned_execute_payment sha256 accounts.payer keypair.public_key blockhash accounts
        params

  unfoldable pub unsigned_or_bad : Option Bytes → Answer sv
  unsigned_or_bad none = Reply.refused Reason.bad_field
  unsigned_or_bad (some tx_bytes) = Reply.unsigned_tx (sv.b64_encode tx_bytes)

  unfoldable pub decoded_blockhash : Option Bytes → Option Key
  unfolding thirty_two
  decoded_blockhash none = none
  decoded_blockhash (some b58) = thirty_two (sv.bs58_decode b58)

  unfoldable pub blockhash_in : Option (codec.Value) → Option Key
  unfolding decoded_blockhash
  blockhash_in none = none
  blockhash_in (some resp) = decoded_blockhash (sv.blockhash_text resp)

  unfoldable pub fetch_latest_blockhash : World → Bytes → World × Option Key
  unfolding blockhash_in
  fetch_latest_blockhash w url =
      if not sv.has_http_client
      then (w, none)
      else (let (w', resp) = sv.post_json w url Call.get_latest_blockhash in
          (w', blockhash_in resp))

  unfoldable pub with_blockhash :
      PrepareRequest → Keypair → Key → World × Option Key → World × Answer sv
  unfolding built_tx unsigned_or_bad
  with_blockhash req keypair program_id (w, none) = (w, Reply.refused Reason.no_blockhash)
  with_blockhash req keypair program_id (w, some blockhash) =
      (w, unsigned_or_bad (built_tx req keypair program_id blockhash))

  unfoldable pub prepare_parsed :
      World → Keypair → Bytes → Key → Option PrepareRequest → World × Answer sv
  unfolding with_blockhash fetch_latest_blockhash
  prepare_parsed w keypair url program_id none = (w, Reply.refused Reason.invalid_request_json)
  prepare_parsed w keypair url program_id (some req) =
      with_blockhash req keypair program_id (fetch_latest_blockhash w url)

  unfoldable pub prepare_text : World → Keypair → Bytes → Key → Option Bytes → World × Answer sv
  unfolding prepare_parsed
  prepare_text w keypair url program_id none = (w, Reply.refused Reason.missing_param)
  prepare_text w keypair url program_id (some arg) =
      prepare_parsed w keypair url program_id (sv.prepare_request_of arg)

  unfoldable pub prepare_transaction :
      World → (codec.Value) → Keypair → Bytes → Key → World × Answer sv
  unfolding prepare_text
  prepare_transaction w params keypair url program_id =
      prepare_text w keypair url program_id (sv.first_text params)

  unfoldable pub proxy_solana : World → ℕ → Bytes → (codec.Value) → Bytes → World × Answer sv
  unfolding call
  proxy_solana w request_id method params url =
      call sv w url (Call.forward request_id method params)

  -- A method that needs both the keypair and the program.
  unfoldable pub configured :
      (Keypair → Key → World × Answer sv) → World → Option Keypair → Option Key → World × Answer sv
  configured run w (some keypair) (some program_id) = run keypair program_id
  configured run w _ _ = (w, Reply.refused Reason.needs_keypair_and_program)

  unfoldable pub answer_request :
      World → RpcRequest (codec.Value) → Option Keypair → Bytes → Option Key → World × Answer sv
  unfolding configured prepare_transaction proxy_solana cosign_and_submit
  answer_request w req keypair url program_id =
      if bytes_eq req.method cosign_method
      then configured (λ kp pid. cosign_and_submit sv w req.params kp url pid) w keypair program_id
      else (if bytes_eq req.method prepare_method
          then configured (λ kp pid. prepare_transaction w req.params kp url pid) w keypair
              program_id
          else proxy_solana w req.id req.method req.params url)

  -- The reply, compressed.
  unfoldable pub reply_bytes : ℕ → World × Answer sv → World × Bytes
  reply_bytes id (w, answer) = (w, compress_payload codec (sv.write_reply id answer))

  unfoldable pub handle_parsed :
      World
      → Option Keypair
      → Bytes
      → Option Key
      → Option (RpcRequest (codec.Value))
      → World × Bytes
  unfolding reply_bytes answer_request
  handle_parsed w keypair url program_id none = reply_bytes 0 (w, Reply.refused Reason.parse_failed)
  handle_parsed w keypair url program_id (some req) =
      reply_bytes req.id (answer_request w req keypair url program_id)

  unfoldable pub handle_raw :
      World → Option Keypair → Bytes → Option Key → Option Bytes → World × Bytes
  unfolding handle_parsed
  handle_raw w keypair url program_id none =
      reply_bytes 0 (w, Reply.refused Reason.decompress_failed)
  handle_raw w keypair url program_id (some raw) =
      handle_parsed w keypair url program_id (sv.request_of raw)

  unfoldable pub handle_rpc_request :
      World → Bytes → Option Keypair → Bytes → Option Key → World × Bytes
  unfolding handle_raw
  handle_rpc_request w payload keypair url program_id =
      handle_raw w keypair url program_id (decompress_payload codec payload)
