-- ===== src/Solana/Nonce.antt =====
-- rust-core/src/solana_tx.rs: `extract_nonce_blockhash`. The base64 decoder is a parameter.
use lxmf_react_native_rust.Prelude.{
  ◌≡◌, sym, ap, ◌∙◌, false, Option, none, some, ◌++◌, append_assoc, arith, Bytes, ltb,
  if◌then◌else◌, length, take, drop, length-append,
}
use lxmf_react_native_rust.Lxmf.Msgpack.Blobs.{take-length_append, drop-length_append}
use lxmf_react_native_rust.Solana.Message.{Key}

unfoldable nonce_of : Option Bytes → Option Key
nonce_of none = none
nonce_of (some bytes) = if ltb (length bytes) 72 then none else some (take 32 (drop 40 bytes))

unfoldable extract_nonce_blockhash : (Bytes → Option Bytes) → Bytes → Option Key
unfolding nonce_of
extract_nonce_blockhash decode account_data_b64 = nonce_of (decode account_data_b64)

-- A nonce account's data: version and state, four bytes each, the authority, the nonce, the fees.
record NonceAccount : Type 0 where
  pub version_and_state : Bytes
  pub authority : Key
  pub nonce : Key
  pub fee_calculator : Bytes
  pub version_and_state_length : length version_and_state ≡ 8
  pub authority_length : length authority ≡ 32
  pub nonce_length : length nonce ≡ 32

layout : NonceAccount → Bytes
layout a = a.version_and_state ++ (a.authority ++ (a.nonce ++ a.fee_calculator))

-- The nonce of an account that was laid out so is found, whatever follows it.
extract_nonce_blockhash-layout :
    (decode : Bytes → Option Bytes) (text : Bytes) (a : NonceAccount)
    → decode text ≡ some (layout a)
    → extract_nonce_blockhash decode text ≡ some a.nonce
unfolding extract_nonce_blockhash nonce_of layout
extract_nonce_blockhash-layout decode text a read = rw read (rw enough (ap some found))
  where
    front : Bytes
    front = a.version_and_state ++ a.authority

    back : Bytes
    back = a.nonce ++ a.fee_calculator

    same : layout a ≡ front ++ back
    same = sym (append_assoc a.version_and_state a.authority back)

    front_length : length front ≡ 40
    front_length = omega (
      arith,
      length-append a.version_and_state a.authority,
      a.version_and_state_length,
      a.authority_length,
    )

    enough : ltb (length (layout a)) 72 ≡ false
    enough = ground (
      arith,
      front_length,
      a.nonce_length,
      ap length same,
      length-append front back,
      length-append a.nonce a.fee_calculator,
    )

    found : take 32 (drop 40 (layout a)) ≡ a.nonce
    found =
        ap (take 32) (
          ap (drop 40) same
          ∙ ap (λ n. drop n (front ++ back)) (sym front_length)
          ∙ drop-length_append front back)
        ∙ ap (λ n. take n back) (sym a.nonce_length)
        ∙ take-length_append a.nonce a.fee_calculator
