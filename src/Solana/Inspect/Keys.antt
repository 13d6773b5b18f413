-- ===== src/Solana/Inspect/Keys.antt =====
-- The beacon finds the accounts of a serialized message.
use lxmf_react_native_rust.Prelude.{
  ℕ, ◌+◌, ◌*◌, ◌%◌, ◌^◌, ◌<◌, ◌≡◌, refl, ap, ◌∙◌, false, some, List, ◌∷◌, ◌++◌, arith, Bytes, ltb,
  leb, length, get_elem?, take, length-append,
}
use lxmf_react_native_rust.Solana.Compact.{encode_compact_u16}
use lxmf_react_native_rust.Solana.Compact.RoundTrip.{read-encode_compact_u16}
use lxmf_react_native_rust.Solana.Message.{Key, SolanaMessage, concat, serialize_message}
use lxmf_react_native_rust.Solana.Message.Layout.{AllLength, length-concat, block_at, get_elem?-lt}
use lxmf_react_native_rust.Solana.Slots.Blocks.{drop_past}
use lxmf_react_native_rust.Solana.Inspect.{key_at, extract_account_key}

key_at-concat :
    (a b c : ℕ) (cu : Bytes) (keys : List Key) (t : Bytes) (index : ℕ) (key : Key)
    → AllLength 32 keys
    → get_elem? keys index ≡ some key
    → key_at (a ∷ b ∷ c ∷ (cu ++ (concat keys ++ t))) index (some (length keys, length cu))
      ≡ some key
unfolding key_at
key_at-concat a b c cu keys t index key hk e =
    rw (inside, enough)
      (ap some (
        ap (take 32) (
          drop_past (a ∷ b ∷ c ∷ cu) (concat keys ++ t) (index * 32) (3 + length cu + index * 32)
            (omega arith))
        ∙ block_at 32 keys index key t hk e))
  where
    listed : index < length keys
    listed = get_elem?-lt keys index key e

    inside : leb (length keys) index ≡ false
    inside = ground (arith, listed)

    enough :
        ltb (length (a ∷ b ∷ c ∷ (cu ++ (concat keys ++ t)))) (3 + length cu + index * 32 + 32)
        ≡ false
    enough = ground (
      arith,
      listed,
      length-append cu (concat keys ++ t),
      length-append (concat keys) t,
      length-concat 32 keys hk,
    )

not_short : (a b c : ℕ) (xs : Bytes) → ltb (length (a ∷ b ∷ c ∷ xs)) 3 ≡ false
not_short a b c xs = ground arith

extract_small :
    (a b c n : ℕ) (rest : Bytes) (index : ℕ)
    → n < 65536
    → extract_account_key (a ∷ b ∷ c ∷ (encode_compact_u16 n ++ rest)) index
      ≡ key_at
          (a ∷ b ∷ c ∷ (encode_compact_u16 n ++ rest))
          index
          (some (n, length (encode_compact_u16 n)))
unfolding extract_account_key
extract_small a b c n rest index h =
    rw (not_short a b c (encode_compact_u16 n ++ rest), read-encode_compact_u16 n rest h) refl

extract_header :
    (a b c n : ℕ) (rest : Bytes) (index : ℕ)
    → n < 65536
    → extract_account_key (a ∷ b ∷ c ∷ (encode_compact_u16 (n % 2 ^ 16) ++ rest)) index
      ≡ key_at
          (a ∷ b ∷ c ∷ (encode_compact_u16 n ++ rest))
          index
          (some (n, length (encode_compact_u16 n)))
extract_header a b c n rest index h =
    ap (λ j. extract_account_key (a ∷ b ∷ c ∷ (encode_compact_u16 j ++ rest)) index)
      {x = n % 2 ^ 16} {y = n} (omega (arith, h))
    ∙ extract_small a b c n rest index h

-- `extract_account_key` finds in a serialized message of fewer than 65536 keys, of 32 bytes each, the key
-- at every index that the list of accounts has.
pub extract_account_key-serialize :
    (m : SolanaMessage) (index : ℕ) (key : Key)
    → AllLength 32 m.account_keys
    → length m.account_keys < 65536
    → get_elem? m.account_keys index ≡ some key
    → extract_account_key (serialize_message m) index ≡ some key
unfolding serialize_message
extract_account_key-serialize m index key hk small e =
    extract_header _ _ _ (length m.account_keys) _ index small
    ∙ key_at-concat _ _ _ (encode_compact_u16 (length m.account_keys)) m.account_keys _ index key hk
        e
