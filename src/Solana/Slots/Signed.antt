-- ===== src/Solana/Slots/Signed.antt =====
-- Signing and verifying a slot of serialized bytes, against the transaction that they stand for.
use lxmf_react_native_rust.Prelude.{
  ℕ, ◌+◌, ◌*◌, ◌≤◌, ◌<◌, ◌≡◌, refl, ap, ap₂, ◌∙◌, Bool, true, false, Option, some, ◌++◌,
  append_assoc, arith, Bytes, ltb, leb, le→leb, length, get_elem?, set, take, drop, length-append,
  length-set, get_elem?-set_self,
}
use lxmf_react_native_rust.Solana.Compact.{encode_compact_u16, read_compact_u16}
use lxmf_react_native_rust.Solana.Compact.RoundTrip.{read-encode_compact_u16}
use lxmf_react_native_rust.Solana.Message.{
  SolanaTransaction, concat, serialize_message, serialize_tx, sign_at,
}
use lxmf_react_native_rust.Solana.Message.Layout.{AllLength, length-concat, block_at, get_elem?-lt}
use lxmf_react_native_rust.Solana.Slots.{
  write_sig, sign_tx_at_slot, verify_parsed, verify_slot_signature, check_with,
}
use lxmf_react_native_rust.Solana.Slots.Blocks.{set-AllLength, take_past, drop_past, concat-set}

le→not_ltb : (a b : ℕ) → b ≤ a → ltb a b ≡ false
le→not_ltb a b h = ground arith

module _ (tx : SolanaTransaction) (few : length tx.signatures < 65536)
    (h : AllLength 64 tx.signatures) where
  unfoldable pub cu : Bytes
  cu = encode_compact_u16 (length tx.signatures)

  unfoldable pub message : Bytes
  message = serialize_message tx.message

  wire : serialize_tx tx ≡ cu ++ (concat tx.signatures ++ message)
  unfolding serialize_tx cu message
  wire =
      ap (λ k. encode_compact_u16 k ++ (concat tx.signatures ++ serialize_message tx.message))
        {y = length tx.signatures} (omega (arith, few))

  pub read_wire : read_compact_u16 (serialize_tx tx) ≡ some (length tx.signatures, length cu)
  unfolding cu
  read_wire =
      ap read_compact_u16 wire
      ∙ read-encode_compact_u16 (length tx.signatures) (concat tx.signatures ++ message) few

  pub length_wire :
      length (serialize_tx tx) ≡ length cu + length tx.signatures * 64 + length message
  length_wire =
      ap length wire
      ∙ omega (
        arith,
        length-append cu (concat tx.signatures ++ message),
        length-append (concat tx.signatures) message,
        length-concat 64 tx.signatures h,
      )

  pub message_part : drop (length cu + length tx.signatures * 64) (serialize_tx tx) ≡ message
  message_part =
      ap (drop (length cu + length tx.signatures * 64)) wire
      ∙ drop_past cu (concat tx.signatures ++ message) (length tx.signatures * 64) _ refl
      ∙ drop_past (concat tx.signatures) message 0 (length tx.signatures * 64)
          (omega (arith, length-concat 64 tx.signatures h))

  room :
      (slot : ℕ)
      → slot < length tx.signatures
      → length cu + slot * 64 + 64 ≤ length (serialize_tx tx)
  room slot lt = omega (arith, length_wire)

  -- For a transaction of fewer than 65536 signatures of 64 bytes each: signing a slot of its bytes
  -- with a 64-byte signature gives the bytes of the transaction signed by `sign_at` in that slot, so
  -- that the message and the other slots stay as they are.
  pub sign_tx_at_slot-serialize :
      (sign : Bytes → Bytes)
      → ((m : Bytes) → length (sign m) ≡ 64)
      → (slot : ℕ) → slot < length tx.signatures
      → sign_tx_at_slot sign (serialize_tx tx) slot ≡ serialize_tx (sign_at sign tx slot)
  unfolding sign_tx_at_slot write_sig sign_at
  sign_tx_at_slot-serialize sign hl slot lt = rw (read_wire, enough, fits) placed
    where
      enough : ltb (length (serialize_tx tx)) (length cu + length tx.signatures * 64) ≡ false
      enough = le→not_ltb _ _ (omega (arith, length_wire))

      fits : leb (length cu + slot * 64 + 64) (length (serialize_tx tx)) ≡ true
      fits = le→leb _ _ (room slot lt)

      signed_wire :
          cu ++ (concat (set tx.signatures slot (sign message)) ++ message)
          ≡ serialize_tx (sign_at sign tx slot)
      signed_wire =
          unfold cu in
          unfold message in
          unfold sign_at in
          unfold serialize_tx in
          ap
            (λ k.
              encode_compact_u16 k
              ++ (concat (set tx.signatures slot (sign (serialize_message tx.message)))
                  ++ serialize_message tx.message))
            (omega
              (arith, few, length-set tx.signatures slot (sign (serialize_message tx.message))))

      placed :
          take (length cu + slot * 64) (serialize_tx tx)
            ++ (sign (drop (length cu + length tx.signatures * 64) (serialize_tx tx))
                ++ drop (length cu + slot * 64 + 64) (serialize_tx tx))
          ≡ serialize_tx (sign_at sign tx slot)
      placed =
          ap
            (λ m.
              take (length cu + slot * 64) (serialize_tx tx)
              ++ (sign m ++ drop (length cu + slot * 64 + 64) (serialize_tx tx)))
            message_part
          ∙ ap
              (λ z.
                take (length cu + slot * 64) z
                ++ (sign message ++ drop (length cu + slot * 64 + 64) z))
              wire
          ∙ ap₂ (λ x y. x ++ (sign message ++ y))
              (take_past cu (concat tx.signatures ++ message) (slot * 64) _ refl)
              (drop_past cu (concat tx.signatures ++ message) (slot * 64 + 64) _ (omega arith))
          ∙ append_assoc cu (take (slot * 64) (concat tx.signatures ++ message))
              (sign message ++ drop (slot * 64 + 64) (concat tx.signatures ++ message))
          ∙ ap (cu ++◌) (concat-set 64 tx.signatures slot (sign message) message h lt)
          ∙ signed_wire

  -- For a transaction of fewer than 65536 signatures of 64 bytes each the verdict on a slot is the check of exactly that slot's signature over
  -- the message: false for bytes that are no key, otherwise what the key says.
  pub verify_slot_signature-serialize :
      {VerifyingKey : Type 0} (key_of : Bytes → Option VerifyingKey)
      (verify : VerifyingKey → Bytes → Bytes → Bool) (pubkey : Bytes) (slot : ℕ) (sig : Bytes)
      → get_elem? tx.signatures slot ≡ some sig
      → verify_slot_signature key_of verify (serialize_tx tx) pubkey slot
        ≡ check_with key_of verify (key_of pubkey) (serialize_message tx.message) sig
  unfolding verify_slot_signature verify_parsed message
  verify_slot_signature-serialize key_of verify pubkey slot sig e =
      rw (read_wire, inside, enough, here)
        (ap₂ (check_with key_of verify (key_of pubkey)) message_part sig_part)
    where
      inside : leb (length tx.signatures) slot ≡ false
      inside = ground (arith, get_elem?-lt tx.signatures slot sig e)

      enough : ltb (length (serialize_tx tx)) (length cu + slot * 64 + 64) ≡ false
      enough =
          le→not_ltb (length (serialize_tx tx)) (length cu + slot * 64 + 64)
            (room slot (get_elem?-lt tx.signatures slot sig e))

      here : ltb (length (serialize_tx tx)) (length cu + length tx.signatures * 64) ≡ false
      here = le→not_ltb _ _ (omega (arith, length_wire))

      sig_part : take 64 (drop (length cu + slot * 64) (serialize_tx tx)) ≡ sig
      sig_part =
          ap (λ z. take 64 (drop (length cu + slot * 64) z)) wire
          ∙ ap (take 64) (drop_past cu (concat tx.signatures ++ message) (slot * 64) _ refl)
          ∙ block_at 64 tx.signatures slot sig message h e

-- A slot of a serialized transaction that `sign_tx_at_slot` signed is accepted by
-- `verify_slot_signature` for the signer's key, if the key accepts what the signer signs, and the
-- transaction has fewer than 65536 signatures, all of 64 bytes as the new one, among them this slot.
pub signed_slot_verifies :
    {VerifyingKey : Type 0} (key_of : Bytes → Option VerifyingKey)
    (verify : VerifyingKey → Bytes → Bytes → Bool) (sign : Bytes → Bytes) (pubkey : Bytes)
    (vk : VerifyingKey) (tx : SolanaTransaction) (slot : ℕ)
    → key_of pubkey ≡ some vk
    → ((m : Bytes) → verify vk m (sign m) ≡ true)
    → ((m : Bytes) → length (sign m) ≡ 64)
    → length tx.signatures < 65536
    → AllLength 64 tx.signatures
    → slot < length tx.signatures
    → verify_slot_signature key_of verify (sign_tx_at_slot sign (serialize_tx tx) slot) pubkey slot
      ≡ true
unfolding check_with sign_at
signed_slot_verifies key_of verify sign pubkey vk tx slot known hv hl few h lt =
    ap (λ z. verify_slot_signature key_of verify z pubkey slot)
      (sign_tx_at_slot-serialize tx few h sign hl slot lt)
    ∙ verify_slot_signature-serialize (sign_at sign tx slot)
        (omega (arith, few, length-set tx.signatures slot (sign (serialize_message tx.message))))
        (set-AllLength 64 tx.signatures slot (sign (serialize_message tx.message)) h
          (hl (serialize_message tx.message)))
        key_of verify pubkey slot (sign (serialize_message tx.message))
        (get_elem?-set_self tx.signatures slot (sign (serialize_message tx.message)) lt)
    ∙ rw known (hv (serialize_message tx.message))
