-- ===== src/Beacon/Requests.antt =====
-- rust-core/src/beacon.rs: the single calls that `BeaconManager` builds. The JSON values of `json!`
-- are parameters.
use lxmf_react_native_rust.Prelude.{ℕ, ◌≡◌, Bool, true, none, some, List, [], ◌∷◌, ◌++◌, Bytes}
use lxmf_react_native_rust.Beacon.Wire.{Codec, RpcResponse, into_result, parse_rpc_response}
use lxmf_react_native_rust.Beacon.Manager.{DestHash, BeaconManager}
use lxmf_react_native_rust.Beacon.Rpc.{queue_rpc, queue_rpc_broadcast, on_rpc_bytes}
use lxmf_react_native_rust.Beacon.Rpc.Correlation.{on_rpc_bytes-queue_rpc}

abbrev commitment : Bytes
commitment = b'c' ∷ b'o' ∷ b'm' ∷ b'm' ∷ b'i' ∷ b't' ∷ b'm' ∷ b'e' ∷ b'n' ∷ b't' ∷ []

abbrev confirmed : Bytes
confirmed = b'c' ∷ b'o' ∷ b'n' ∷ b'f' ∷ b'i' ∷ b'r' ∷ b'm' ∷ b'e' ∷ b'd' ∷ []

abbrev encoding : Bytes
encoding = b'e' ∷ b'n' ∷ b'c' ∷ b'o' ∷ b'd' ∷ b'i' ∷ b'n' ∷ b'g' ∷ []

abbrev base64 : Bytes
base64 = b'b' ∷ b'a' ∷ b's' ∷ b'e' ∷ b'6' ∷ b'4' ∷ []

abbrev skip_preflight : Bytes
skip_preflight =
    b's' ∷ b'k' ∷ b'i' ∷ b'p' ∷ b'P' ∷ b'r' ∷ b'e' ∷ b'f' ∷ b'l' ∷ b'i' ∷ b'g' ∷ b'h' ∷ b't' ∷ []

abbrev preflight_commitment : Bytes
preflight_commitment =
    b'p' ∷ b'r' ∷ b'e' ∷ b'f' ∷ b'l' ∷ b'i' ∷ b'g' ∷ b'h' ∷ b't' ∷ b'C' ∷ b'o' ∷ b'm' ∷ b'm' ∷ b'i'
    ∷ b't' ∷ b'm' ∷ b'e' ∷ b'n' ∷ b't' ∷ []

abbrev get_latest_blockhash : Bytes
get_latest_blockhash =
    b'g' ∷ b'e' ∷ b't' ∷ b'L' ∷ b'a' ∷ b't' ∷ b'e' ∷ b's' ∷ b't' ∷ b'B' ∷ b'l' ∷ b'o' ∷ b'c' ∷ b'k'
    ∷ b'h' ∷ b'a' ∷ b's' ∷ b'h' ∷ []

abbrev get_account_info : Bytes
get_account_info =
    b'g' ∷ b'e' ∷ b't' ∷ b'A' ∷ b'c' ∷ b'c' ∷ b'o' ∷ b'u' ∷ b'n' ∷ b't' ∷ b'I' ∷ b'n' ∷ b'f' ∷ b'o'
    ∷ []

abbrev send_transaction : Bytes
send_transaction =
    b's' ∷ b'e' ∷ b'n' ∷ b'd' ∷ b'T' ∷ b'r' ∷ b'a' ∷ b'n' ∷ b's' ∷ b'a' ∷ b'c' ∷ b't' ∷ b'i' ∷ b'o'
    ∷ b'n' ∷ []

abbrev cosign_transaction : Bytes
cosign_transaction =
    b'c' ∷ b'o' ∷ b's' ∷ b'i' ∷ b'g' ∷ b'n' ∷ b'T' ∷ b'r' ∷ b'a' ∷ b'n' ∷ b's' ∷ b'a' ∷ b'c' ∷ b't'
    ∷ b'i' ∷ b'o' ∷ b'n' ∷ []

abbrev get_balance : Bytes
get_balance = b'g' ∷ b'e' ∷ b't' ∷ b'B' ∷ b'a' ∷ b'l' ∷ b'a' ∷ b'n' ∷ b'c' ∷ b'e' ∷ []

-- The constructors of `serde_json::Value` that the calls use.
record JsonValues (codec : Codec) : Type 0 where
  pub string : Bytes → codec.Value
  pub bool : Bool → codec.Value
  pub array : List codec.Value → codec.Value
  pub object : List (Bytes × codec.Value) → codec.Value

module _ (codec : Codec) (json : JsonValues codec) where
  open codec use {Value}

  unfoldable at_confirmed : List (Bytes × Value) → Value
  at_confirmed more = json.object (more ++ ((commitment, json.string confirmed) ∷ []))

  unfoldable request_latest_blockhash : BeaconManager → BeaconManager × List (DestHash × ℕ)
  unfolding at_confirmed
  request_latest_blockhash m =
      queue_rpc_broadcast codec m get_latest_blockhash (json.array (at_confirmed [] ∷ []))

  unfoldable request_account_info : BeaconManager → DestHash → Bytes → BeaconManager × ℕ
  unfolding at_confirmed
  request_account_info m dest pubkey_b58 = queue_rpc codec m dest get_account_info (
      json.array (json.string pubkey_b58 ∷ at_confirmed ((encoding, json.string base64) ∷ []) ∷ []))

  unfoldable request_send_transaction : BeaconManager → DestHash → Bytes → BeaconManager × ℕ
  request_send_transaction m dest tx_b64 = queue_rpc codec m dest send_transaction (
      json.array (
        json.string tx_b64
        ∷ json.object (
            (encoding, json.string base64)
            ∷ (skip_preflight, json.bool true)
            ∷ (preflight_commitment, json.string confirmed)
            ∷ [])
        ∷ []))

  unfoldable request_cosign_transaction : BeaconManager → DestHash → Bytes → BeaconManager × ℕ
  request_cosign_transaction m dest partial_tx_b64 =
      queue_rpc codec m dest cosign_transaction (json.array (json.string partial_tx_b64 ∷ []))

  unfoldable request_get_balance : BeaconManager → DestHash → Bytes → BeaconManager × ℕ
  unfolding at_confirmed
  request_get_balance m dest pubkey_b58 =
      queue_rpc codec m dest get_balance
        (json.array (json.string pubkey_b58 ∷ at_confirmed [] ∷ []))

  -- The answer to a request to co-sign is given back as one, under the id of the request, once.
  request_cosign_transaction-answered :
      (m : BeaconManager) (dest : DestHash) (tx raw : Bytes) (resp : RpcResponse Value)
      → parse_rpc_response codec raw ≡ some resp
      → resp.id ≡ some (request_cosign_transaction m dest tx).1
      → let (m', id) = request_cosign_transaction m dest tx in
        ((on_rpc_bytes codec m' raw).1
          ≡ some (record { id = id; method = cosign_transaction; result = into_result codec resp }))
        × ((on_rpc_bytes codec (on_rpc_bytes codec m' raw).0 raw).1 ≡ none)
  unfolding request_cosign_transaction
  request_cosign_transaction-answered m dest tx raw resp parsed e =
      on_rpc_bytes-queue_rpc codec m dest cosign_transaction (json.array (json.string tx ∷ [])) raw
        resp parsed e
