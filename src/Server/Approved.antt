-- ===== src/Server/Approved.antt =====
-- The transaction that the beacon prepares, signed by the payer, is co-signed and submitted.
use lxmf_react_native_rust.Prelude.{
  subst, ℕ, ◌+◌, ◌*◌, ◌≤◌, ◌<◌, ◌≡◌, refl, sym, ap, ◌∙◌, true, false, Option, none, some, List, [],
  ◌∷◌, arith, Bytes, ltb, length, get_elem?, drop, replicate,
}
use lxmf_react_native_rust.Solana.Inspect.Payment.{plain_message_accepted}
use lxmf_react_native_rust.Solana.Inspect.Keys.{extract_account_key-serialize}
use lxmf_react_native_rust.Solana.Build.{
  PlainExecutePaymentAccounts, ExecutePaymentParams, compile, plain_table, plain_accounts,
  header_of, plain_message, build_execute_payment_ix_data, build_unsigned_execute_payment, ◌>>=◌,
}
use lxmf_react_native_rust.Prelude.Map.{bytes_Eq}
use lxmf_react_native_rust.Solana.Compact.{read_compact_u16}
use lxmf_react_native_rust.Solana.Message.{
  Key, SolanaTransaction, serialize_message, serialize_tx, SolanaMessage, CompiledInstruction,
  zero_sig, new_unsigned, sign_at, MessageHeader,
}
use lxmf_react_native_rust.Solana.Message.Layout.{AllLength}
use lxmf_react_native_rust.Solana.Slots.{sign_tx_at_slot, verify_slot_signature}
use lxmf_react_native_rust.Solana.Slots.Signed
use lxmf_react_native_rust.Solana.Slots.Signed.{sign_tx_at_slot-serialize, signed_slot_verifies}
use lxmf_react_native_rust.Solana.Inspect.{verify_execute_payment_instruction, extract_account_key}
use lxmf_react_native_rust.Server.{
  Call, Keypair, Services, call, submit, cosign_payer, cosign_counted, cosign_decoded, cosign_text,
  cosign_and_submit,
}
use lxmf_react_native_rust.Server.Cosign.{submit-sign_tx_at_slot}

module _ (sv : Services) where
  open sv use {World, codec, sha256, key_of, verify}

  counted :
      (w : World) (params : codec.Value) (keypair : Keypair) (url program_id text tx : Bytes)
      (num_sigs consumed : ℕ)
      → sv.first_text params ≡ some text
      → sv.b64_decode text ≡ some tx
      → read_compact_u16 tx ≡ some (num_sigs, consumed)
      → ltb num_sigs 2 ≡ false
      → ltb (length tx) (consumed + num_sigs * 64) ≡ false
      → cosign_and_submit sv w params keypair url program_id
        ≡ cosign_payer sv w keypair url program_id tx consumed
            (drop (consumed + num_sigs * 64) tx)
            (extract_account_key (drop (consumed + num_sigs * 64) tx) 0)
  unfolding cosign_and_submit cosign_text cosign_decoded cosign_counted
  counted w params keypair url program_id text tx num_sigs consumed e d c two long =
      ap (cosign_text sv w keypair url program_id) e
      ∙ ap (cosign_decoded sv w keypair url program_id) d
      ∙ ap (cosign_counted sv w keypair url program_id tx) c
      ∙ rw (two, long) refl

  agreed :
      (w : World) (keypair : Keypair) (url program_id tx : Bytes) (consumed : ℕ)
      (message payer : Bytes)
      → verify_slot_signature key_of verify tx payer 0 ≡ true
      → verify_execute_payment_instruction sha256 program_id message ≡ true
      → cosign_payer sv w keypair url program_id tx consumed message (some payer)
        ≡ submit sv w keypair url tx consumed message
  unfolding cosign_payer
  agreed w keypair url program_id tx consumed message payer good pays = rw (good, pays) refl

  -- A transaction that passes the checks is submitted.
  tx_submitted :
      (w : World) (params : codec.Value) (keypair : Keypair) (url program_id text : Bytes)
      (tx : SolanaTransaction) (payer : Key)
      → length tx.signatures < 65536
      → AllLength 64 tx.signatures
      → 2 ≤ length tx.signatures
      → sv.first_text params ≡ some text
      → sv.b64_decode text ≡ some (serialize_tx tx)
      → extract_account_key (serialize_message tx.message) 0 ≡ some payer
      → verify_slot_signature key_of verify (serialize_tx tx) payer 0 ≡ true
      → verify_execute_payment_instruction sha256 program_id (serialize_message tx.message) ≡ true
      → cosign_and_submit sv w params keypair url program_id
        ≡ call sv w url (
            Call.send_raw_transaction
              (sv.b64_encode (sign_tx_at_slot (keypair.sign) (serialize_tx tx) 1)))
  unfolding Signed.message
  tx_submitted w params keypair url program_id text tx payer few h two e d key good pays =
      let n = length tx.signatures in
      let c = length (Signed.cu tx few h) in
      let read = Signed.read_wire tx few h in
      let enough : ltb n 2 ≡ false = ground arith in
      let long : ltb (length (serialize_tx tx)) (c + n * 64) ≡ false =
        ground (arith, Signed.length_wire tx few h) in
      let body = Signed.message_part tx few h in
      counted w params keypair url program_id text (serialize_tx tx) n c e d read enough long
      ∙ ap
          (cosign_payer sv w keypair url program_id (serialize_tx tx) c
            (drop (c + n * 64) (serialize_tx tx)))
          (ap (λ m. extract_account_key m 0) body ∙ key)
      ∙ agreed w keypair url program_id (serialize_tx tx) c (drop (c + n * 64) (serialize_tx tx))
          payer good (ap (verify_execute_payment_instruction sha256 program_id) body ∙ pays)
      ∙ submit-sign_tx_at_slot sv w keypair url (serialize_tx tx) n c read enough long

  abbrev Shaped : List Key → Option SolanaMessage → Type 0
  Shaped keys none = Unit
  Shaped keys (some m) = (m.header ≡ header_of 6) × (m.account_keys ≡ keys)

  plain_message-Shaped :
      (payer broadcaster : Key) (blockhash : Bytes) (a : PlainExecutePaymentAccounts)
      (p : ExecutePaymentParams)
      → Shaped
          (plain_table payer broadcaster a)
          (plain_message sha256 payer broadcaster blockhash a p)
  unfolding plain_message
  plain_message-Shaped payer broadcaster blockhash a p = of_ix (
      compile (plain_table payer broadcaster a) a.program_id (plain_accounts payer broadcaster a)
        (build_execute_payment_ix_data sha256 p))
    where
      of_ix :
          (o : Option CompiledInstruction)
          → Shaped (plain_table payer broadcaster a) (
              o >>= λ ix. some (record {
                header = header_of 6;
                account_keys = plain_table payer broadcaster a;
                recent_blockhash = blockhash;
                instructions = ix ∷ [];
              }))
      of_ix none = tt
      of_ix (some ix) = (refl, refl)

  -- A message for two signers, before anyone has signed it.
  two_slots : SolanaMessage → SolanaTransaction
  two_slots m = record { message = m; signatures = zero_sig ∷ zero_sig ∷ [] }

  new_unsigned-two : (m : SolanaMessage) → m.header ≡ header_of 6 → new_unsigned m ≡ two_slots m
  unfolding new_unsigned two_slots
  new_unsigned-two m h =
      ap (λ (k : ℕ). the_tx m (replicate k zero_sig)) {x = m.header.num_required_signatures} {y = 2}
        (ap (λ (g : MessageHeader). g.num_required_signatures) h)
    where
      the_tx : SolanaMessage → List Bytes → SolanaTransaction
      the_tx msg sigs = record { message = msg; signatures = sigs }

  message_submitted :
      (w : World) (params : codec.Value) (keypair : Keypair) (url program_id text : Bytes)
      (m : SolanaMessage) (payer : Key) (keys : List Key) (sign : Bytes → Bytes)
      (vk : sv.VerifyingKey)
      → m.account_keys ≡ payer ∷ keys
      → AllLength 32 m.account_keys
      → length m.account_keys < 65536
      → verify_execute_payment_instruction sha256 program_id (serialize_message m) ≡ true
      → key_of payer ≡ some vk
      → ((msg : Bytes) → verify vk msg (sign msg) ≡ true)
      → ((msg : Bytes) → length (sign msg) ≡ 64)
      → sv.first_text params ≡ some text
      → sv.b64_decode text ≡ some (sign_tx_at_slot sign (serialize_tx (two_slots m)) 0)
      → cosign_and_submit sv w params keypair url program_id
        ≡ call sv w url (
            Call.send_raw_transaction (
              sv.b64_encode (
                sign_tx_at_slot
                  (keypair.sign)
                  (sign_tx_at_slot sign (serialize_tx (two_slots m)) 0)
                  1)))
  unfolding two_slots sign_at
  message_submitted w params keypair url program_id text m payer keys sign vk table hk small pays
        known hv hl e d =
      let tx = two_slots m in
      let few : length tx.signatures < 65536 = omega arith in
      let h : AllLength 64 tx.signatures = (refl, (refl, tt)) in
      let signed = sign_tx_at_slot-serialize tx few h sign hl 0 (omega arith) in
      tx_submitted w params keypair url program_id text (sign_at sign tx 0) payer (omega arith)
        (hl _, (refl, tt)) (omega arith) e (d ∙ ap some signed)
        (extract_account_key-serialize m 0 payer hk small (ap (λ ks. get_elem? ks 0) table))
        (ap (λ z. verify_slot_signature key_of verify z payer 0) (sym signed)
          ∙ signed_slot_verifies key_of verify sign payer vk tx 0 known hv hl few h (omega arith))
        pays
      ∙ ap
          (λ z.
            call sv w url
              (Call.send_raw_transaction (sv.b64_encode (sign_tx_at_slot (keypair.sign) z 1))))
          (sym signed)

  -- For keys, a blockhash and encrypted parts of 32 bytes: the unsigned transaction that is built for
  -- a payment with the beacon as broadcaster, signed by the payer in slot 0 with 64-byte signatures that
  -- the payer's key accepts, and sent in base64 in a co-sign request to the beacon of the payment's
  -- program, is submitted, signed by the beacon in slot 1.
  pub prepared_payment_submitted :
      (w : World) (params : codec.Value) (keypair : Keypair) (url text blockhash unsigned : Bytes)
      (a : PlainExecutePaymentAccounts) (p : ExecutePaymentParams) (sign : Bytes → Bytes)
      (vk : sv.VerifyingKey)
      → build_unsigned_execute_payment sha256 a.payer (keypair.public_key) blockhash a p
        ≡ some unsigned
      → AllLength 32 (plain_table a.payer (keypair.public_key) a)
      → length blockhash ≡ 32
      → length p.encrypted_amount ≡ 32
      → length p.encryption_pub_key ≡ 32
      → ((m : Bytes) → length (sha256 m) ≡ 32)
      → key_of a.payer ≡ some vk
      → ((m : Bytes) → verify vk m (sign m) ≡ true)
      → ((m : Bytes) → length (sign m) ≡ 64)
      → sv.first_text params ≡ some text
      → sv.b64_decode text ≡ some (sign_tx_at_slot sign unsigned 0)
      → cosign_and_submit sv w params keypair url a.program_id
        ≡ call sv w url (
            Call.send_raw_transaction
              (sv.b64_encode (sign_tx_at_slot (keypair.sign) (sign_tx_at_slot sign unsigned 0) 1)))
  prepared_payment_submitted w params keypair url text blockhash unsigned a p sign vk built_tx hk hb
        he hp hs known hv hl e d =
      let (m, built, pays) =
        plain_message_accepted sha256 hs a.payer (keypair.public_key) blockhash a p hk hb he hp in
      let (header, table) =
        subst (Shaped (plain_table a.payer (keypair.public_key) a)) built
          (plain_message-Shaped a.payer (keypair.public_key) blockhash a p) in
      let wire : serialize_tx (two_slots m) ≡ unsigned =
        unsigned_of m unsigned (new_unsigned-two m header) (sym (of_message built) ∙ built_tx) in
      subst
        (λ z.
          sv.b64_decode text ≡ some (sign_tx_at_slot sign z 0)
          → cosign_and_submit sv w params keypair url a.program_id
            ≡ call sv w url (
                Call.send_raw_transaction
                  (sv.b64_encode (sign_tx_at_slot (keypair.sign) (sign_tx_at_slot sign z 0) 1))))
        wire
        (message_submitted w params keypair url a.program_id text m a.payer _ sign vk table
          (subst (AllLength 32) (sym table) hk)
          (subst (λ ks. length ks < 65536) (sym table) (omega arith)) pays known hv hl e)
        d
    where
      of_message :
          {m : SolanaMessage}
          → plain_message sha256 a.payer (keypair.public_key) blockhash a p ≡ some m
          → build_unsigned_execute_payment sha256 a.payer (keypair.public_key) blockhash a p
            ≡ some (serialize_tx (new_unsigned m))
      of_message built = unfold build_unsigned_execute_payment in rw built refl

      some_inj : (x y : Bytes) → some x ≡ some y → x ≡ y
      some_inj x y h = cc

      unsigned_of :
          (m : SolanaMessage) (z : Bytes)
          → new_unsigned m ≡ two_slots m
          → some (serialize_tx (new_unsigned m)) ≡ some z
          → serialize_tx (two_slots m) ≡ z
      unsigned_of m z h k = ap serialize_tx (sym h) ∙ some_inj _ _ k
