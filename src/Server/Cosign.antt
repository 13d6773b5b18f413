-- ===== src/Server/Cosign.antt =====
-- What the beacon submits, and when.
use lxmf_react_native_rust.Prelude.{
  ℕ, ◌+◌, ◌*◌, ◌≡◌, refl, ap, ◌⊎◌, inl, inr, Bool, true, false, not, Option, none, some, ◌++◌,
  arith, Bytes, ltb, leb, if◌then◌else◌, length, take, drop,
}
use lxmf_react_native_rust.Solana.Compact.{read_compact_u16}
use lxmf_react_native_rust.Solana.Slots.{
  write_sig, sign_parsed, sign_tx_at_slot, verify_slot_signature,
}
use lxmf_react_native_rust.Solana.Inspect.{verify_execute_payment_instruction, extract_account_key}
use lxmf_react_native_rust.Server.{
  Reason, Call, Reply, Keypair, Services, Answer, call, submit, cosign_payer, cosign_counted,
  cosign_decoded, cosign_text, cosign_and_submit,
}

module _ (sv : Services) where
  open sv use {World, codec, sha256, key_of, verify}

  -- Nothing was called, and the reply is an error.
  abbrev pub Refused : World → World × Answer sv → Type 0
  Refused w out = (why : Reason) × (out ≡ (w, Reply.refused why))

  -- The transaction `tx` of the request has a payer, whose signature in slot 0 is good, and its message
  -- is an execute_payment of the program; and what was called is the submission of `tx`, signed by the
  -- beacon in slot 1.
  pub record Submitted (w : World) (params : codec.Value) (keypair : Keypair)
      (url program_id : Bytes) (out : World × Answer sv) : Type 0 where
    pub text : Bytes
    pub tx : Bytes
    pub num_sigs : ℕ
    pub consumed : ℕ
    pub payer : Bytes
    pub from_params : sv.first_text params ≡ some text
    pub decoded : sv.b64_decode text ≡ some tx
    pub counted : read_compact_u16 tx ≡ some (num_sigs, consumed)
    pub has_payer : extract_account_key (drop (consumed + num_sigs * 64) tx) 0 ≡ some payer
    pub payer_signed : verify_slot_signature key_of verify tx payer 0 ≡ true
    pub pays :
        verify_execute_payment_instruction sha256 program_id (drop (consumed + num_sigs * 64) tx)
        ≡ true
    pub called :
        out
        ≡ call sv w url
            (Call.send_raw_transaction (sv.b64_encode (sign_tx_at_slot (keypair.sign) tx 1)))

  -- Writing slot 1 in place is signing it.
  pub submit-sign_tx_at_slot :
      (w : World) (keypair : Keypair) (url tx : Bytes) (num_sigs consumed : ℕ)
      → read_compact_u16 tx ≡ some (num_sigs, consumed)
      → ltb num_sigs 2 ≡ false
      → ltb (length tx) (consumed + num_sigs * 64) ≡ false
      → submit sv w keypair url tx consumed (drop (consumed + num_sigs * 64) tx)
        ≡ call sv w url
            (Call.send_raw_transaction (sv.b64_encode (sign_tx_at_slot (keypair.sign) tx 1)))
  unfolding submit sign_tx_at_slot sign_parsed write_sig
  submit-sign_tx_at_slot w keypair url tx num_sigs consumed e two long =
      rw (e, long, fits)
        (ap
          (λ k. call sv w url (
            Call.send_raw_transaction (
              sv.b64_encode (
                take k tx
                ++ (keypair.sign (drop (consumed + num_sigs * 64) tx) ++ drop (k + 64) tx)))))
          {x = consumed + 64} {y = consumed + 1 * 64} (omega arith))
    where
      fits : leb (consumed + 1 * 64 + 64) (length tx) ≡ true
      fits = ground arith

  module _ (w : World) (params : codec.Value) (keypair : Keypair) (url program_id : Bytes) where
    abbrev Checked : World × Answer sv → Type 0
    Checked out = Refused w out ⊎ Submitted w params keypair url program_id out

    if_refused :
        (b : Bool) (why : Reason) (out : World × Answer sv)
        → (b ≡ false → Checked out)
        → Checked (if b then (w, Reply.refused why) else out)
    if_refused true why out k = inl (why, refl)
    if_refused false why out k = k refl

    not-false : (b : Bool) → not b ≡ false → b ≡ true
    not-false true h = refl
    not-false false h = cc

    cosign_payer-Checked :
        (text tx : Bytes) (num_sigs consumed : ℕ) (payer : Option Bytes)
        → sv.first_text params ≡ some text
        → sv.b64_decode text ≡ some tx
        → read_compact_u16 tx ≡ some (num_sigs, consumed)
        → ltb num_sigs 2 ≡ false
        → ltb (length tx) (consumed + num_sigs * 64) ≡ false
        → extract_account_key (drop (consumed + num_sigs * 64) tx) 0 ≡ payer
        → Checked (
            cosign_payer sv w keypair url program_id tx consumed
              (drop (consumed + num_sigs * 64) tx)
              payer)
    unfolding cosign_payer
    cosign_payer-Checked text tx num_sigs consumed none e d c two long p =
        inl (Reason.no_payer, refl)
    cosign_payer-Checked text tx num_sigs consumed (some payer) e d c two long p =
        let message = drop (consumed + num_sigs * 64) tx in
        if_refused _ Reason.bad_payer_signature _ (λ good.
          if_refused _ Reason.not_execute_payment _ (λ pays. inr (record {
            text = text;
            tx = tx;
            num_sigs = num_sigs;
            consumed = consumed;
            payer = payer;
            from_params = e;
            decoded = d;
            counted = c;
            has_payer = p;
            payer_signed = not-false _ good;
            pays = not-false _ pays;
            called = submit-sign_tx_at_slot w keypair url tx num_sigs consumed c two long;
          })))

    cosign_counted-Checked :
        (text tx : Bytes) (count : Option (ℕ × ℕ))
        → sv.first_text params ≡ some text
        → sv.b64_decode text ≡ some tx
        → read_compact_u16 tx ≡ count
        → Checked (cosign_counted sv w keypair url program_id tx count)
    unfolding cosign_counted
    cosign_counted-Checked text tx none e d c = inl (Reason.bad_signature_count, refl)
    cosign_counted-Checked text tx (some (num_sigs, consumed)) e d c =
        if_refused _ Reason.too_few_signers _ (λ two.
          if_refused _ Reason.too_short _
            (λ long. cosign_payer-Checked text tx num_sigs consumed _ e d c two long refl))

    cosign_decoded-Checked :
        (text : Bytes) (tx : Option Bytes)
        → sv.first_text params ≡ some text
        → sv.b64_decode text ≡ tx
        → Checked (cosign_decoded sv w keypair url program_id tx)
    unfolding cosign_decoded
    cosign_decoded-Checked text none e d = inl (Reason.bad_base64, refl)
    cosign_decoded-Checked text (some tx) e d = cosign_counted-Checked text tx _ e d refl

    cosign_text-Checked :
        (text : Option Bytes)
        → sv.first_text params ≡ text
        → Checked (cosign_text sv w keypair url program_id text)
    unfolding cosign_text
    cosign_text-Checked none e = inl (Reason.missing_param, refl)
    cosign_text-Checked (some text) e = cosign_decoded-Checked text _ e refl

    -- A co-sign request either calls nothing and is answered by an error; or the transaction that it
    -- holds in base64 has a payer, the first account of its message, whose signature in slot 0 is good,
    -- and the message is an execute_payment of the beacon's program. Then exactly one call is made: the
    -- transaction, signed by the beacon in slot 1 and otherwise as it came, is submitted.
    pub cosign_and_submit-checked :
        Refused w (cosign_and_submit sv w params keypair url program_id)
        ⊎ Submitted w params keypair url program_id
            (cosign_and_submit sv w params keypair url program_id)
    unfolding cosign_and_submit
    cosign_and_submit-checked = cosign_text-Checked _ refl
