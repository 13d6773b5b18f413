-- ===== src/Solana/Inspect/Accepts.antt =====
-- The beacon's check accepts a payment, and finds its program.
use lxmf_react_native_rust.Prelude.{
  ℕ, zero, suc, ◌+◌, ◌*◌, ◌%◌, ◌^◌, ◌≤◌, ◌<◌, ◌≡◌, refl, sym, ap, ◌∙◌, Bool, true, false, some,
  List, [], ◌∷◌, ◌++◌, append-nil, append_assoc, arith, Bytes, ltb, ◌==◌, bytes_eq, length,
  get_elem?, take, drop, length-append,
}
use lxmf_react_native_rust.Prelude.Map.{bytes_eq_iff}
use lxmf_react_native_rust.Solana.Compact.{encode_compact_u16}
use lxmf_react_native_rust.Solana.Compact.RoundTrip.{read-encode_compact_u16}
use lxmf_react_native_rust.Solana.Message.{
  Key, CompiledInstruction, SolanaMessage, concat, serialize_ix, serialize_ixs, serialize_message,
}
use lxmf_react_native_rust.Solana.Message.Layout.{
  AllLength, length-concat, take_append, drop_append, block_at, get_elem?-lt,
}
use lxmf_react_native_rust.Solana.Slots.Blocks.{drop_past}
use lxmf_react_native_rust.Solana.Build.{anchor_discriminator, execute_payment}
use lxmf_react_native_rust.Solana.Inspect.{
  go_on, with_count, check_data, check_indices, check_program, check_count, check_accounts,
  verify_execute_payment_instruction,
}

with_count-encode :
    (k : ℕ → Bytes → Bool) (n : ℕ) (rest : Bytes)
    → n < 65536
    → with_count k (encode_compact_u16 (n % 2 ^ 16) ++ rest) ≡ k n rest
unfolding with_count go_on
with_count-encode k n rest h =
    ap (λ j. with_count k (encode_compact_u16 j ++ rest)) {x = n % 2 ^ 16} {y = n}
      (omega (arith, h))
    ∙ rw (read-encode_compact_u16 n rest h)
        (ap (k n) (drop_append (length (encode_compact_u16 n)) (encode_compact_u16 n) rest refl))

take_within {ℓ} :
    {A : Type ℓ} (n : ℕ) (xs ys : List A) → n ≤ length xs → take n (xs ++ ys) ≡ take n xs
take_within zero xs ys h = refl
take_within (suc n) [] ys h = absurd (omega (arith, h))
take_within (suc n) (x ∷ xs) ys h = ap (◌∷◌ x) (take_within n xs ys (omega (arith, h)))

module _ (sha256 : Bytes → Bytes) (program_id : Key) where
  data_accepted :
      (ix_data rest : Bytes)
      → 8 ≤ length ix_data
      → take 8 (ix_data ++ rest) ≡ anchor_discriminator sha256 execute_payment
      → check_data sha256 program_id (length ix_data) (ix_data ++ rest) ≡ true
  unfolding check_data
  data_accepted ix_data rest h e = rw (short, short_all) ((bytes_eq_iff _ _).1 e)
    where
      short : ltb (length ix_data) 8 ≡ false
      short = ground (arith, h)

      short_all : ltb (length (ix_data ++ rest)) 8 ≡ false
      short_all = ground (arith, h, length-append ix_data rest)

  indices_accepted :
      (is ix_data rest : Bytes)
      → 8 ≤ length ix_data
      → length ix_data < 65536
      → take 8 (ix_data ++ rest) ≡ anchor_discriminator sha256 execute_payment
      → check_indices sha256 program_id
          (length is)
          (is ++ (encode_compact_u16 (length ix_data % 2 ^ 16) ++ (ix_data ++ rest)))
        ≡ true
  unfolding check_indices
  indices_accepted is ix_data rest h small e =
      rw
        (
          enough,
          drop_append (length is) is
              (encode_compact_u16 (length ix_data % 2 ^ 16) ++ (ix_data ++ rest)) refl,
        )
        (with_count-encode (check_data sha256 program_id) (length ix_data) (ix_data ++ rest) small
          ∙ data_accepted ix_data rest h e)
    where
      enough :
          ltb
            (length (is ++ (encode_compact_u16 (length ix_data % 2 ^ 16) ++ (ix_data ++ rest))))
            (length is)
          ≡ false
      enough = ground (
        arith,
        length-append is (encode_compact_u16 (length ix_data % 2 ^ 16) ++ (ix_data ++ rest)),
      )

  program_accepted :
      (keys : List Key) (ix : CompiledInstruction) (rest : Bytes)
      → AllLength 32 keys
      → get_elem? keys ix.program_id_index ≡ some program_id
      → length ix.account_indices < 65536
      → 8 ≤ length ix.ix_data
      → length ix.ix_data < 65536
      → take 8 (ix.ix_data ++ rest) ≡ anchor_discriminator sha256 execute_payment
      → check_program sha256 program_id (concat keys) (serialize_ix ix ++ rest) ≡ true
  unfolding check_program serialize_ix
  program_accepted keys ix rest hk hp hi h small e =
      rw (inside, found, regroup)
        (with_count-encode (check_indices sha256 program_id) (length ix.account_indices) _ hi
          ∙ indices_accepted ix.account_indices ix.ix_data rest h small e)
    where
      inside : ltb (length (concat keys)) (ix.program_id_index * 32 + 32) ≡ false
      inside =
          ground
            (arith, length-concat 32 keys hk, get_elem?-lt keys ix.program_id_index program_id hp)

      found : bytes_eq (take 32 (drop (ix.program_id_index * 32) (concat keys))) program_id ≡ true
      found = (bytes_eq_iff _ _).1 (
          ap (λ z. take 32 (drop (ix.program_id_index * 32) z)) (sym (append-nil (concat keys)))
          ∙ block_at 32 keys ix.program_id_index program_id [] hk hp)

      regroup :
          (encode_compact_u16 (length ix.account_indices % 2 ^ 16)
              ++ (ix.account_indices
                  ++ (encode_compact_u16 (length ix.ix_data % 2 ^ 16) ++ ix.ix_data)))
            ++ rest
          ≡ encode_compact_u16 (length ix.account_indices % 2 ^ 16)
            ++ (ix.account_indices
                ++ (encode_compact_u16 (length ix.ix_data % 2 ^ 16) ++ (ix.ix_data ++ rest)))
      regroup =
          append_assoc (encode_compact_u16 (length ix.account_indices % 2 ^ 16)) _ rest
          ∙ ap (encode_compact_u16 (length ix.account_indices % 2 ^ 16) ++◌) (
              append_assoc ix.account_indices _ rest
              ∙ ap (ix.account_indices ++◌)
                  (append_assoc (encode_compact_u16 (length ix.ix_data % 2 ^ 16)) ix.ix_data rest))

  count_accepted :
      (keys : List Key) (ix : CompiledInstruction) (ixs : List CompiledInstruction)
      → AllLength 32 keys
      → get_elem? keys ix.program_id_index ≡ some program_id
      → length ix.account_indices < 65536
      → 8 ≤ length ix.ix_data
      → length ix.ix_data < 65536
      → take 8 ix.ix_data ≡ anchor_discriminator sha256 execute_payment
      → check_count sha256 program_id (concat keys) (length (ix ∷ ixs)) (serialize_ixs (ix ∷ ixs))
        ≡ true
  unfolding check_count serialize_ixs
  count_accepted keys ix ixs hk hp hi h small e = rw several (
      program_accepted keys ix (serialize_ixs ixs) hk hp hi h small
        (take_within 8 ix.ix_data (serialize_ixs ixs) h ∙ e))
    where
      several : (length (ix ∷ ixs) == 0) ≡ false
      several = ground arith

  accounts_accepted :
      (keys : List Key) (blockhash : Bytes) (ix : CompiledInstruction)
      (ixs : List CompiledInstruction)
      → length (ix ∷ ixs) < 65536
      → AllLength 32 keys
      → length blockhash ≡ 32
      → get_elem? keys ix.program_id_index ≡ some program_id
      → length ix.account_indices < 65536
      → 8 ≤ length ix.ix_data
      → length ix.ix_data < 65536
      → take 8 ix.ix_data ≡ anchor_discriminator sha256 execute_payment
      → check_accounts sha256 program_id (length keys) (
          concat keys
          ++ (blockhash
              ++ (encode_compact_u16 (length (ix ∷ ixs) % 2 ^ 16) ++ serialize_ixs (ix ∷ ixs))))
        ≡ true
  unfolding check_accounts
  accounts_accepted keys blockhash ix ixs few hk hb hp hi h short e =
      rw (room, keys_part, rest_part)
        (with_count-encode (check_count sha256 program_id (concat keys)) (length (ix ∷ ixs))
            (serialize_ixs (ix ∷ ixs)) few
          ∙ count_accepted keys ix ixs hk hp hi h short e)
    where
      room :
          ltb
            (length (
              concat keys
              ++ (blockhash
                  ++ (encode_compact_u16 (length (ix ∷ ixs) % 2 ^ 16)
                      ++ serialize_ixs (ix ∷ ixs)))))
            (length keys * 32 + 32)
          ≡ false
      room = ground (
        arith,
        length-concat 32 keys hk,
        hb,
        length-append (concat keys) (
            blockhash
            ++ (encode_compact_u16 (length (ix ∷ ixs) % 2 ^ 16) ++ serialize_ixs (ix ∷ ixs))),
        length-append blockhash
            (encode_compact_u16 (length (ix ∷ ixs) % 2 ^ 16) ++ serialize_ixs (ix ∷ ixs)),
      )

      keys_part :
          take (length keys * 32) (
            concat keys
            ++ (blockhash
                ++ (encode_compact_u16 (length (ix ∷ ixs) % 2 ^ 16) ++ serialize_ixs (ix ∷ ixs))))
          ≡ concat keys
      keys_part = take_append (length keys * 32) (concat keys) _ (length-concat 32 keys hk)

      rest_part :
          drop (length keys * 32 + 32) (
            concat keys
            ++ (blockhash
                ++ (encode_compact_u16 (length (ix ∷ ixs) % 2 ^ 16) ++ serialize_ixs (ix ∷ ixs))))
          ≡ encode_compact_u16 (length (ix ∷ ixs) % 2 ^ 16) ++ serialize_ixs (ix ∷ ixs)
      rest_part =
          drop_past (concat keys) _ 32 (length keys * 32 + 32)
            (omega (arith, length-concat 32 keys hk))
          ∙ drop_append 32 blockhash _ hb

  skip_header :
      (a b c : ℕ) (rest : Bytes)
      → verify_execute_payment_instruction sha256 program_id (a ∷ b ∷ c ∷ rest)
        ≡ with_count (check_accounts sha256 program_id) rest
  unfolding verify_execute_payment_instruction
  skip_header a b c rest = rw long refl
    where
      long : ltb (length (a ∷ b ∷ c ∷ rest)) 3 ≡ false
      long = ground arith

  -- A message of 32-byte keys and blockhash passes the beacon's check, if its first instruction points at
  -- the key of the beacon's program and carries data of at least 8 bytes that start with the discriminator of
  -- `execute_payment`, and all its lists have fewer than 65536 entries.
  pub verify-serialize_message :
      (m : SolanaMessage) (ix : CompiledInstruction) (ixs : List CompiledInstruction)
      → m.instructions ≡ ix ∷ ixs
      → length (ix ∷ ixs) < 65536
      → AllLength 32 m.account_keys
      → length m.account_keys < 65536
      → length m.recent_blockhash ≡ 32
      → get_elem? m.account_keys ix.program_id_index ≡ some program_id
      → length ix.account_indices < 65536
      → 8 ≤ length ix.ix_data
      → length ix.ix_data < 65536
      → take 8 ix.ix_data ≡ anchor_discriminator sha256 execute_payment
      → verify_execute_payment_instruction sha256 program_id (serialize_message m) ≡ true
  unfolding serialize_message
  verify-serialize_message m ix ixs hx few hk small hb hp hi h short e = rw hx (
      skip_header _ _ _ _
      ∙ with_count-encode (check_accounts sha256 program_id) (length m.account_keys) _ small
      ∙ accounts_accepted m.account_keys m.recent_blockhash ix ixs few hk hb hp hi h short e)
