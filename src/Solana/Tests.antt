-- ===== src/Solana/Tests.antt =====
-- The theorems on Solana transactions at concrete inputs: the accounts of one payment, in which the
-- payer is also the recipient, and a message with two signature slots.
use lxmf_react_native_rust.Prelude.{
  ℕ, ◌≡◌, refl, Bool, some, [], ◌∷◌, arith, Bytes, bytes_eq, replicate,
}
use lxmf_react_native_rust.Solana.Message.{
  Key, CompiledInstruction, SolanaTransaction, serialize_tx, sign_at,
}
use lxmf_react_native_rust.Solana.Build.{
  ExecutePaymentParams, ExecutePaymentAccounts, PlainExecutePaymentAccounts, nonce_table,
  nonce_accounts, header_of, nonce_message, build_execute_payment_ix_data, system_program,
  sysvar_recent_blockhashes,
}
use lxmf_react_native_rust.Solana.Build.Table.{Compiled, nonce_message_built}
use lxmf_react_native_rust.Solana.Slots.{sign_tx_at_slot}
use lxmf_react_native_rust.Solana.Slots.Signed.{sign_tx_at_slot-serialize}

abbrev key : ℕ → Key
key n = replicate 32 n

abbrev same_hash : Bytes → Bytes
same_hash m = replicate 32 1

abbrev params : ExecutePaymentParams
params = record {
  comp_offset = 5;
  amount = 1000;
  encrypted_amount = replicate 32 2;
  nonce = 9;
  encryption_pub_key = replicate 32 3;
}

abbrev plain : PlainExecutePaymentAccounts
plain = record {
  payer = key 1;
  payer_ata = key 2;
  recipient = key 1;
  recipient_ata = key 2;
  broadcaster_ata = key 4;
  mint = key 5;
  program_id = key 6;
}

abbrev durable : ExecutePaymentAccounts
durable = record {
  payer = key 1;
  broadcaster = key 7;
  nonce_account = key 8;
  payer_ata = key 2;
  recipient = key 1;
  recipient_ata = key 2;
  broadcaster_ata = key 4;
  mint = key 5;
  program_id = key 6;
}

nonce_message_built_example :
    (advance pay : CompiledInstruction) × (nonce_message same_hash (key 9) durable params
      ≡ some (record {
        header = header_of 7;
        account_keys = nonce_table durable;
        recent_blockhash = key 9;
        instructions = advance ∷ pay ∷ [];
      }))
    × Compiled
        (nonce_table durable)
        system_program
        (key 8 ∷ sysvar_recent_blockhashes ∷ key 1 ∷ [])
        (4 ∷ 0 ∷ 0 ∷ 0 ∷ [])
        advance
    × Compiled
        (nonce_table durable)
        (key 6)
        (nonce_accounts durable)
        (build_execute_payment_ix_data same_hash params)
        pay
nonce_message_built_example = nonce_message_built same_hash (key 9) durable params

abbrev tx : SolanaTransaction
tx = record {
  message = record {
    header = header_of 0;
    account_keys = key 1 ∷ key 7 ∷ [];
    recent_blockhash = key 9;
    instructions = [];
  };
  signatures = replicate 64 0 ∷ replicate 64 0 ∷ [];
}

-- A scheme that signs every message with 64 sevens, and accepts exactly that.
abbrev sevens : Bytes
sevens = replicate 64 7

abbrev accepts : Key → Bytes → Bytes → Bool
accepts vk message sig = bytes_eq sig sevens

sign_tx_at_slot-serialize_example :
    sign_tx_at_slot (λ m. sevens) (serialize_tx tx) 1 ≡ serialize_tx (sign_at (λ m. sevens) tx 1)
sign_tx_at_slot-serialize_example =
    sign_tx_at_slot-serialize tx (omega arith) (refl, (refl, tt)) (λ m. sevens) (λ m. refl) 1
      (omega arith)
