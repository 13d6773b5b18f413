-- ===== src/Solana/Inspect/Payment.antt =====
-- The transaction that `build_unsigned_execute_payment` builds passes the beacon's check.
use lxmf_react_native_rust.Prelude.{
  ℕ, zero, suc, ◌/◌, ◌≡◌, refl, ap, ◌∙◌, true, some, List, [], ◌∷◌, ◌++◌, arith, Bytes, length,
  take, length-append, length-take,
}
use lxmf_react_native_rust.Solana.Message.{Key, SolanaMessage, serialize_message}
use lxmf_react_native_rust.Solana.Message.Layout.{AllLength, take_append}
use lxmf_react_native_rust.Solana.Build.{
  ExecutePaymentParams, PlainExecutePaymentAccounts, plain_table, plain_accounts, header_of,
  plain_message, build_execute_payment_ix_data, anchor_discriminator, le_bytes, execute_payment,
}
use lxmf_react_native_rust.Solana.Build.Table.{Points, plain_message_built}
use lxmf_react_native_rust.Solana.Inspect.{verify_execute_payment_instruction}
use lxmf_react_native_rust.Solana.Inspect.Accepts.{verify-serialize_message}

Points-length :
    (table : List Key) (is : Bytes) (keys : List Key)
    → Points table is keys
    → length is ≡ length keys
Points-length table [] [] h = refl
Points-length table [] (k ∷ keys) h = absurd h
Points-length table (i ∷ is) [] h = absurd h
Points-length table (i ∷ is) (k ∷ keys) h = ap suc (Points-length table is keys h.1)

length-le_bytes : (n v : ℕ) → length (le_bytes n v) ≡ n
unfolding le_bytes
length-le_bytes zero v = refl
length-le_bytes (suc n) v = ap suc (length-le_bytes n (v / 256))

module _ (sha256 : Bytes → Bytes) (h : (m : Bytes) → length (sha256 m) ≡ 32) where
  length-discriminator : (method : Bytes) → length (anchor_discriminator sha256 method) ≡ 8
  unfolding anchor_discriminator
  length-discriminator method = length-take 8 (sha256 _) ∙ omega (arith, h _)

  length-ix_data :
      (p : ExecutePaymentParams)
      → length p.encrypted_amount ≡ 32
      → length p.encryption_pub_key ≡ 32
      → length (build_execute_payment_ix_data sha256 p) ≡ 104
  unfolding build_execute_payment_ix_data
  length-ix_data p he hk = omega (
    arith,
    length-append (anchor_discriminator sha256 execute_payment) (
        le_bytes 8 p.comp_offset
        ++ (le_bytes 8 p.amount
            ++ (p.encrypted_amount ++ (le_bytes 16 p.nonce ++ p.encryption_pub_key)))),
    length-discriminator execute_payment,
    length-append (le_bytes 8 p.comp_offset) (
        le_bytes 8 p.amount
        ++ (p.encrypted_amount ++ (le_bytes 16 p.nonce ++ p.encryption_pub_key))),
    length-le_bytes 8 p.comp_offset,
    length-append (le_bytes 8 p.amount)
        (p.encrypted_amount ++ (le_bytes 16 p.nonce ++ p.encryption_pub_key)),
    length-le_bytes 8 p.amount,
    length-append p.encrypted_amount (le_bytes 16 p.nonce ++ p.encryption_pub_key),
    length-append (le_bytes 16 p.nonce) p.encryption_pub_key,
    length-le_bytes 16 p.nonce,
    he,
    hk,
  )

  -- The message built for a payment without a durable nonce passes the check that the beacon makes
  -- before it co-signs, for the program that the payment names: for keys, a blockhash, a hash and
  -- encrypted parts of 32 bytes.
  pub plain_message_accepted :
      (payer broadcaster : Key) (recent_blockhash : Bytes) (a : PlainExecutePaymentAccounts)
      (params : ExecutePaymentParams)
      → AllLength 32 (plain_table payer broadcaster a)
      → length recent_blockhash ≡ 32
      → length params.encrypted_amount ≡ 32
      → length params.encryption_pub_key ≡ 32
      → (m : SolanaMessage) × (plain_message sha256 payer broadcaster recent_blockhash a params
          ≡ some m)
        × (verify_execute_payment_instruction sha256 a.program_id (serialize_message m) ≡ true)
  plain_message_accepted payer broadcaster recent_blockhash a params hk hb he hp =
      let (ix, built, (target, points, carried)) =
        plain_message_built sha256 payer broadcaster recent_blockhash a params in
      let long : length ix.ix_data ≡ 104 = ap length carried ∙ length-ix_data params he hp in
      (
        record {
          header = header_of 6;
          account_keys = plain_table payer broadcaster a;
          recent_blockhash = recent_blockhash;
          instructions = ix ∷ [];
        },
        built,
        verify-serialize_message sha256 a.program_id _ ix [] refl (omega arith) hk (omega arith) hb
            target
            (omega (
              arith,
              Points-length (plain_table payer broadcaster a) ix.account_indices
                  (plain_accounts payer broadcaster a) points,
            ))
            (omega (arith, long)) (omega (arith, long)) (ap (take 8) carried ∙ starts params),
      )
    where
      starts :
          (p : ExecutePaymentParams)
          → take 8 (build_execute_payment_ix_data sha256 p)
            ≡ anchor_discriminator sha256 execute_payment
      starts p =
          unfold build_execute_payment_ix_data in
          take_append 8 (anchor_discriminator sha256 execute_payment) _
            (length-discriminator execute_payment)
