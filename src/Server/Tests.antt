-- ===== src/Server/Tests.antt =====
-- The theorems on the beacon's server at concrete inputs: base64 is not written, every signature is
-- 64 sevens, and the calls of the Solana node are a list.
use lxmf_react_native_rust.Prelude.{
  ℕ, ◌≡◌, refl, ◌⊎◌, true, Option, none, some, List, [], ◌∷◌, Bytes, bytes_eq, replicate,
}
use lxmf_react_native_rust.Beacon.Wire.{Codec}
use lxmf_react_native_rust.Solana.Message.{Key}
use lxmf_react_native_rust.Solana.Build.{
  PlainExecutePaymentAccounts, ExecutePaymentParams, build_unsigned_execute_payment, position,
}
use lxmf_react_native_rust.Solana.Slots.{sign_tx_at_slot}
use lxmf_react_native_rust.Server.{Call, Keypair, Services, call, cosign_and_submit}
use lxmf_react_native_rust.Server.Cosign.{Refused, Submitted, cosign_and_submit-checked}
use lxmf_react_native_rust.Server.Approved.{prepared_payment_submitted}

abbrev key : ℕ → Key
key n = replicate 32 n

abbrev codec : Codec
codec = record {
  Value = Bytes;
  null = [];
  to_vec = λ request. some request.params;
  from_slice = λ raw. some (record { id = some 1; result = some raw; error = none });
  deflate = λ raw. none;
  inflate = λ raw. none;
}

abbrev sevens : Bytes
sevens = replicate 64 7

abbrev services : Services
services = record {
  codec = codec;
  has_method = λ raw. some true;
  request_of = λ raw. none;
  first_text = some;
  prepare_request_of = λ raw. none;
  blockhash_text = some;
  write_reply = λ id answer. [];
  b64_decode = some;
  b64_encode = λ b. b;
  bs58_decode = some;
  hex_decode = some;
  sha256 = λ m. replicate 32 1;
  VerifyingKey = Key;
  key_of = some;
  verify = λ vk m sig. bytes_eq sig sevens;
  World = List (Call Bytes);
  has_http_client = true;
  post_json = λ w url c. (c ∷ w, some url);
}

abbrev beacon : Keypair
beacon = record { public_key = key 7; sign = λ m. sevens }

abbrev accounts : PlainExecutePaymentAccounts
accounts = record {
  payer = key 1;
  payer_ata = key 2;
  recipient = key 1;
  recipient_ata = key 2;
  broadcaster_ata = key 4;
  mint = key 5;
  program_id = key 6;
}

abbrev params : ExecutePaymentParams
params = record {
  comp_offset = 5;
  amount = 1000;
  encrypted_amount = key 2;
  nonce = 9;
  encryption_pub_key = key 3;
}

abbrev or_empty : Option Bytes → Bytes
or_empty none = []
or_empty (some b) = b

unsigned : Bytes
unsigned =
    or_empty
      (build_unsigned_execute_payment (λ m. replicate 32 1) (key 1) (key 7) (key 9) accounts params)

built :
    build_unsigned_execute_payment (λ m. replicate 32 1) (key 1) (key 7) (key 9) accounts params
    ≡ some unsigned
unfolding position unsigned build_unsigned_execute_payment
built = refl

signed : Bytes
signed = sign_tx_at_slot (λ m. sevens) unsigned 0

signed_lem : some signed ≡ some (sign_tx_at_slot (λ m. sevens) unsigned 0)
signed_lem = unfold signed in refl

prepared_payment_submitted_example :
    cosign_and_submit services [] signed beacon (b'u' ∷ []) (key 6)
    ≡ call services [] (b'u' ∷ []) (
        Call.send_raw_transaction
          (sign_tx_at_slot (λ m. sevens) (sign_tx_at_slot (λ m. sevens) unsigned 0) 1))
prepared_payment_submitted_example =
    prepared_payment_submitted services [] signed beacon (b'u' ∷ []) signed (key 9) unsigned
      accounts params (λ m. sevens) (key 1) built
      (
        refl,
        (refl, (refl, (refl, (refl, (refl, (refl, (refl, (refl, (refl, (refl, (refl, tt))))))))))),
      )
      refl refl refl (λ m. refl) refl (λ m. refl) (λ m. refl) refl signed_lem

cosign_and_submit-checked_example :
    Refused services [] (cosign_and_submit services [] signed beacon (b'u' ∷ []) (key 6))
    ⊎ Submitted services [] signed beacon
        (b'u' ∷ [])
        (key 6)
        (cosign_and_submit services [] signed beacon (b'u' ∷ []) (key 6))
cosign_and_submit-checked_example =
    cosign_and_submit-checked services [] signed beacon (b'u' ∷ []) (key 6)
