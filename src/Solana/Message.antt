-- ===== src/Solana/Message.antt =====
-- rust-core/src/solana_tx.rs: `SolanaMessage`, `SolanaTransaction` and their wire format. A key is a
-- list of 32 bytes, a signature of 64. ed25519_dalek's `sign` is a parameter.
pub mod Layout
use lxmf_react_native_rust.Prelude.{
  subst, ℕ, zero, suc, ◌+◌, ◌-◌, ◌*◌, ◌/◌, ◌%◌, ◌^◌, ◌≤◌, ◌<◌, min, max, ◌≡◌, refl, sym, ap, ap₂,
  ◌∙◌, ◌≢◌, ◌↔◌, ◌⊎◌, inl, inr, Bool, true, false, not, ◌&&◌, ◌||◌, Option, none, some, List, [],
  ◌∷◌, ◌++◌, map, append-nil, append_assoc, arith, Bytes, IsByte, ltb, leb, ◌==◌, if◌then◌else◌,
  ltb→lt, lt→ltb, leb→le, le→leb, ==_iff, Bool-cases, Option-cases, bytes_eq, bytes_eq→eq,
  bytes_eq_refl, starts_with, starts_with-append, length, get_elem?, set, get_or, take, drop,
  replicate, length-append, length-take, length-drop, length-replicate, length-map, length-set,
  take-append-drop, get_elem?-set_self, get_elem?-set_ne,
}
use lxmf_react_native_rust.Solana.Compact.{encode_compact_u16}

abbrev pub Key : Type 0
Key = Bytes

pub record MessageHeader : Type 0 where
  pub num_required_signatures : ℕ
  pub num_readonly_signed_accounts : ℕ
  pub num_readonly_unsigned_accounts : ℕ

pub record CompiledInstruction : Type 0 where
  pub program_id_index : ℕ
  pub account_indices : Bytes
  pub ix_data : Bytes

pub record SolanaMessage : Type 0 where
  pub header : MessageHeader
  pub account_keys : List Key
  pub recent_blockhash : Bytes
  pub instructions : List CompiledInstruction

-- `for k in ks { out.extend_from_slice(k) }`
unfoldable pub concat : List Bytes → Bytes
concat [] = []
concat (k ∷ ks) = k ++ concat ks

unfoldable pub serialize_ix : CompiledInstruction → Bytes
serialize_ix ix =
    ix.program_id_index
    ∷ (encode_compact_u16 (length ix.account_indices % 2 ^ 16)
        ++ (ix.account_indices ++ (encode_compact_u16 (length ix.ix_data % 2 ^ 16) ++ ix.ix_data)))

unfoldable pub serialize_ixs : List CompiledInstruction → Bytes
serialize_ixs [] = []
serialize_ixs (ix ∷ ixs) = serialize_ix ix ++ serialize_ixs ixs

unfoldable pub serialize_message : SolanaMessage → Bytes
unfolding concat serialize_ixs serialize_ix
serialize_message m =
    m.header.num_required_signatures
    ∷ m.header.num_readonly_signed_accounts
    ∷ m.header.num_readonly_unsigned_accounts
    ∷ (encode_compact_u16 (length m.account_keys % 2 ^ 16)
        ++ (concat m.account_keys
            ++ (m.recent_blockhash
                ++ (encode_compact_u16 (length m.instructions % 2 ^ 16)
                    ++ serialize_ixs m.instructions))))

pub record SolanaTransaction : Type 0 where
  pub message : SolanaMessage
  pub signatures : List Bytes

-- A slot with no signature: 64 zeros.
abbrev pub zero_sig : Bytes
zero_sig = replicate 64 0

unfoldable pub new_unsigned : SolanaMessage → SolanaTransaction
new_unsigned message = record {
  message = message;
  signatures = replicate message.header.num_required_signatures zero_sig;
}

-- A slot that is not there is left alone.
unfoldable pub sign_at : (Bytes → Bytes) → SolanaTransaction → ℕ → SolanaTransaction
sign_at sign tx signer_index = record tx {
  signatures = set tx.signatures signer_index (sign (serialize_message tx.message));
}

unfoldable pub serialize_tx : SolanaTransaction → Bytes
serialize_tx tx =
    encode_compact_u16 (length tx.signatures % 2 ^ 16)
    ++ (concat tx.signatures ++ serialize_message tx.message)
