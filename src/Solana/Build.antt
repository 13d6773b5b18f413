-- ===== src/Solana/Build.antt =====
-- rust-core/src/solana_tx.rs: `partial_sign_execute_payment` and `build_unsigned_execute_payment`.
-- SHA-256 (sha2), base64 and signing (ed25519_dalek) are parameters. `copy_from_slice` into the
-- 104-byte array puts fields of fixed sizes one behind the other. `none` is the panic of
-- `expect("key in table")`.
pub mod Table
use lxmf_react_native_rust.Prelude.{
  subst, ℕ, zero, suc, ◌+◌, ◌-◌, ◌*◌, ◌/◌, ◌%◌, ◌^◌, ◌≤◌, ◌<◌, min, max, ◌≡◌, refl, sym, ap, ap₂,
  ◌∙◌, ◌≢◌, ◌↔◌, ◌⊎◌, inl, inr, Bool, true, false, not, ◌&&◌, ◌||◌, Option, none, some, List, [],
  ◌∷◌, ◌++◌, map, append-nil, append_assoc, arith, Bytes, IsByte, ltb, leb, ◌==◌, if◌then◌else◌,
  ltb→lt, lt→ltb, leb→le, le→leb, ==_iff, Bool-cases, Option-cases, bytes_eq, bytes_eq→eq,
  bytes_eq_refl, starts_with, starts_with-append, length, get_elem?, set, get_or, take, drop,
  replicate, length-append, length-take, length-drop, length-replicate, length-map, length-set,
  take-append-drop, get_elem?-set_self, get_elem?-set_ne,
}
use lxmf_react_native_rust.Solana.Message.{
  Key, MessageHeader, CompiledInstruction, SolanaMessage, SolanaTransaction, new_unsigned, sign_at,
  serialize_tx,
}

abbrev pub system_program : Key
system_program = replicate 32 0

abbrev pub token_program : Key
token_program =
    6 ∷ 221 ∷ 246 ∷ 225 ∷ 215 ∷ 101 ∷ 161 ∷ 147 ∷ 217 ∷ 203 ∷ 225 ∷ 70 ∷ 206 ∷ 235 ∷ 121 ∷ 172 ∷ 28
    ∷ 180 ∷ 133 ∷ 237 ∷ 95 ∷ 91 ∷ 55 ∷ 145 ∷ 58 ∷ 140 ∷ 245 ∷ 133 ∷ 126 ∷ 255 ∷ 0 ∷ 169 ∷ []

abbrev pub associated_token_program : Key
associated_token_program =
    140 ∷ 151 ∷ 37 ∷ 143 ∷ 78 ∷ 36 ∷ 137 ∷ 241 ∷ 187 ∷ 61 ∷ 16 ∷ 41 ∷ 20 ∷ 142 ∷ 13 ∷ 131 ∷ 11 ∷ 90
    ∷ 19 ∷ 153 ∷ 218 ∷ 255 ∷ 16 ∷ 132 ∷ 4 ∷ 142 ∷ 123 ∷ 216 ∷ 219 ∷ 233 ∷ 248 ∷ 89 ∷ []

abbrev pub sysvar_rent : Key
sysvar_rent =
    6 ∷ 167 ∷ 213 ∷ 23 ∷ 24 ∷ 199 ∷ 116 ∷ 201 ∷ 40 ∷ 86 ∷ 99 ∷ 152 ∷ 105 ∷ 29 ∷ 94 ∷ 182 ∷ 139 ∷ 94
    ∷ 184 ∷ 163 ∷ 155 ∷ 75 ∷ 109 ∷ 92 ∷ 115 ∷ 85 ∷ 91 ∷ 33 ∷ 0 ∷ 0 ∷ 0 ∷ 0 ∷ []

abbrev pub sysvar_recent_blockhashes : Key
sysvar_recent_blockhashes =
    6 ∷ 167 ∷ 213 ∷ 23 ∷ 19 ∷ 172 ∷ 202 ∷ 82 ∷ 33 ∷ 140 ∷ 201 ∷ 76 ∷ 61 ∷ 74 ∷ 241 ∷ 127 ∷ 88 ∷ 218
    ∷ 238 ∷ 8 ∷ 155 ∷ 161 ∷ 253 ∷ 68 ∷ 227 ∷ 219 ∷ 217 ∷ 138 ∷ 0 ∷ 0 ∷ 0 ∷ 0 ∷ []

pub record ExecutePaymentParams : Type 0 where
  pub comp_offset : ℕ
  pub amount : ℕ
  pub encrypted_amount : Bytes
  pub nonce : ℕ
  pub encryption_pub_key : Bytes

-- `to_le_bytes`, for an integer of `n` bytes
unfoldable pub le_bytes : ℕ → ℕ → Bytes
le_bytes zero v = []
le_bytes (suc n) v = v % 256 ∷ le_bytes n (v / 256)

-- "global:"
abbrev pub global_prefix : Bytes
global_prefix = b'g' ∷ b'l' ∷ b'o' ∷ b'b' ∷ b'a' ∷ b'l' ∷ b':' ∷ []

-- "execute_payment"
abbrev pub execute_payment : Bytes
execute_payment =
    b'e' ∷ b'x' ∷ b'e' ∷ b'c' ∷ b'u' ∷ b't' ∷ b'e' ∷ b'_' ∷ b'p' ∷ b'a' ∷ b'y' ∷ b'm' ∷ b'e' ∷ b'n'
    ∷ b't' ∷ []

unfoldable pub anchor_discriminator : (Bytes → Bytes) → Bytes → Bytes
anchor_discriminator sha256 method = take 8 (sha256 (global_prefix ++ method))

unfoldable pub build_execute_payment_ix_data : (Bytes → Bytes) → ExecutePaymentParams → Bytes
build_execute_payment_ix_data sha256 p =
    anchor_discriminator sha256 execute_payment
    ++ (le_bytes 8 p.comp_offset
        ++ (le_bytes 8 p.amount
            ++ (p.encrypted_amount ++ (le_bytes 16 p.nonce ++ p.encryption_pub_key))))

pub record ExecutePaymentAccounts : Type 0 where
  pub payer : Key
  pub broadcaster : Key
  pub nonce_account : Key
  pub payer_ata : Key
  pub recipient : Key
  pub recipient_ata : Key
  pub broadcaster_ata : Key
  pub mint : Key
  pub program_id : Key

pub record PlainExecutePaymentAccounts : Type 0 where
  pub payer : Key
  pub payer_ata : Key
  pub recipient : Key
  pub recipient_ata : Key
  pub broadcaster_ata : Key
  pub mint : Key
  pub program_id : Key

unfoldable bump : Option ℕ → Option ℕ
bump none = none
bump (some i) = some (suc i)

-- `account_keys.iter().position(|k| k == key)`
unfoldable pub position : List Key → Key → Option ℕ
unfolding bump
position [] key = none
position (k ∷ ks) key =
    let later = bump (position ks key) in if bytes_eq k key then some 0 else later

infixl 5 ◌>>=◌
abbrev pub ◌>>=◌ {ℓ κ} : {A : Type ℓ} {B : Type κ} → Option A → (A → Option B) → Option B
none >>= f = none
some a >>= f = f a

-- `idx`
unfoldable pub idx : List Key → Key → Option ℕ
idx table key = do i ← position table key; some (i % 256)

-- `vec![idx(..), ..]`
unfoldable pub indices : List Key → List Key → Option Bytes
unfolding idx
indices table [] = some []
indices table (key ∷ keys) = do i ← idx table key; is ← indices table keys; some (i ∷ is)

unfoldable pub compile : List Key → Key → List Key → Bytes → Option CompiledInstruction
unfolding indices
compile table program keys ix_data = do
  p ← idx table program
  is ← indices table keys
  some (record { program_id_index = p; account_indices = is; ix_data = ix_data })

-- The account table of the transaction without a durable nonce.
abbrev pub plain_table : Key → Key → PlainExecutePaymentAccounts → List Key
plain_table payer broadcaster a =
    payer ∷ broadcaster ∷ a.payer_ata ∷ a.recipient ∷ a.recipient_ata ∷ a.broadcaster_ata ∷ a.mint
    ∷ token_program ∷ system_program ∷ associated_token_program ∷ sysvar_rent ∷ a.program_id ∷ []

-- The accounts of its instruction.
abbrev pub plain_accounts : Key → Key → PlainExecutePaymentAccounts → List Key
plain_accounts payer broadcaster a =
    payer ∷ broadcaster ∷ a.payer_ata ∷ a.recipient ∷ a.recipient_ata ∷ a.broadcaster_ata ∷ a.mint
    ∷ token_program ∷ system_program ∷ associated_token_program ∷ sysvar_rent ∷ []

-- The account table of the durable-nonce transaction.
abbrev pub nonce_table : ExecutePaymentAccounts → List Key
nonce_table a =
    a.payer ∷ a.broadcaster ∷ a.nonce_account ∷ a.payer_ata ∷ a.recipient ∷ a.recipient_ata
    ∷ a.broadcaster_ata ∷ a.mint ∷ token_program ∷ system_program ∷ associated_token_program
    ∷ sysvar_rent ∷ sysvar_recent_blockhashes ∷ a.program_id ∷ []

-- The accounts of its second instruction.
abbrev pub nonce_accounts : ExecutePaymentAccounts → List Key
nonce_accounts a =
    a.payer ∷ a.broadcaster ∷ a.payer_ata ∷ a.recipient ∷ a.recipient_ata ∷ a.broadcaster_ata
    ∷ a.mint ∷ token_program ∷ system_program ∷ associated_token_program ∷ sysvar_rent ∷ []

abbrev pub header_of : ℕ → MessageHeader
header_of unsigned = record {
  num_required_signatures = 2;
  num_readonly_signed_accounts = 0;
  num_readonly_unsigned_accounts = unsigned;
}

module _ (sha256 : Bytes → Bytes) where
  unfoldable pub plain_message :
      Key → Key → Bytes → PlainExecutePaymentAccounts → ExecutePaymentParams → Option SolanaMessage
  unfolding compile
  plain_message payer broadcaster recent_blockhash accounts params = do
    let table = plain_table payer broadcaster accounts
    ep_ix ←
        compile table accounts.program_id (plain_accounts payer broadcaster accounts)
          (build_execute_payment_ix_data sha256 params)
    some (record {
      header = header_of 6;
      account_keys = table;
      recent_blockhash = recent_blockhash;
      instructions = ep_ix ∷ [];
    })

  unfoldable pub build_unsigned_execute_payment :
      Key → Key → Bytes → PlainExecutePaymentAccounts → ExecutePaymentParams → Option Bytes
  unfolding plain_message
  build_unsigned_execute_payment payer broadcaster recent_blockhash accounts params = do
    message ← plain_message payer broadcaster recent_blockhash accounts params
    some (serialize_tx (new_unsigned message))

  unfoldable pub nonce_message :
      Bytes → ExecutePaymentAccounts → ExecutePaymentParams → Option SolanaMessage
  unfolding compile
  nonce_message nonce_blockhash accounts params = do
    let table = nonce_table accounts
    advance_ix ←
        compile table system_program
          (accounts.nonce_account ∷ sysvar_recent_blockhashes ∷ accounts.payer ∷ [])
          (4 ∷ 0 ∷ 0 ∷ 0 ∷ [])
    ep_ix ←
        compile table accounts.program_id (nonce_accounts accounts)
          (build_execute_payment_ix_data sha256 params)
    some (record {
      header = header_of 7;
      account_keys = table;
      recent_blockhash = nonce_blockhash;
      instructions = advance_ix ∷ ep_ix ∷ [];
    })

  unfoldable pub partial_sign_execute_payment :
      (Bytes → Bytes)
      → (Bytes → Bytes)
      → Bytes
      → ExecutePaymentAccounts
      → ExecutePaymentParams
      → Option Bytes
  unfolding nonce_message
  partial_sign_execute_payment b64_encode sign nonce_blockhash accounts params = do
    message ← nonce_message nonce_blockhash accounts params
    some (b64_encode (serialize_tx (sign_at sign (new_unsigned message) 0)))
