-- ===== src/Lxmf/Payload/Signed.antt =====
-- The signed payload on both ends: what the receiver checks, and when it says what.
use lxmf_react_native_rust.Prelude.{
  ℕ, ◌≤◌, ◌≡◌, refl, sym, ap, ap₂, ◌∙◌, Bool, true, false, Option, none, some, List, ◌++◌,
  append_assoc, arith, Bytes, ltb, length, take, drop, length-append,
}
use lxmf_react_native_rust.Prelude.Map.{bytes_Eq, lookup}
use lxmf_react_native_rust.Lxmf.Msgpack.Blobs.{take-length_append}
use lxmf_react_native_rust.Lxmf.Payload.{verdict, verify_lxmf_signature, signed_payload}
use lxmf_react_native_rust.Lxmf.Payload.RoundTrip.{drop_append}

pub take_append {ℓ} : {A : Type ℓ} (n : ℕ) (xs ys : List A) → length xs ≡ n → take n (xs ++ ys) ≡ xs
take_append n xs ys h = ap (λ k. take k (xs ++ ys)) (sym h) ∙ take-length_append xs ys

module _ {Identity : Type 0} (verify : Identity → Bytes → Bytes → Bool) where
  -- A payload of any four parts of the right lengths is checked by the identity that the table has for
  -- its source: the signature against destination, source and msgpack, in this order. Without an
  -- identity there is no verdict.
  pub verify_lxmf_signature_lem :
      (dest source sig msgpack : Bytes) (peers : List (Bytes × Identity))
      → length dest ≡ 16
      → length source ≡ 16
      → length sig ≡ 64
      → 1 ≤ length msgpack
      → verify_lxmf_signature verify (dest ++ (source ++ (sig ++ msgpack))) peers
        ≡ (elim (lookup source peers) [
          | none ↦ none
          | some identity ↦ some (verify identity (dest ++ (source ++ msgpack)) sig)
        ])
  unfolding verify_lxmf_signature
  verify_lxmf_signature_lem dest source sig msgpack peers hd hs hg hm =
      rw (long, source_part) (of_entry (lookup source peers))
    where
      payload : Bytes
      payload = dest ++ (source ++ (sig ++ msgpack))

      head_length : length (dest ++ source) ≡ 32
      head_length = omega (arith, length-append dest source)

      regroup : dest ++ (source ++ (sig ++ msgpack)) ≡ (dest ++ source) ++ (sig ++ msgpack)
      regroup = sym (append_assoc dest source (sig ++ msgpack))

      long : ltb (length (dest ++ (source ++ (sig ++ msgpack)))) 97 ≡ false
      long = ground (
        arith,
        length-append dest (source ++ (sig ++ msgpack)),
        length-append source (sig ++ msgpack),
        length-append sig msgpack,
      )

      source_part : take 16 (drop 16 (dest ++ (source ++ (sig ++ msgpack)))) ≡ source
      source_part =
          ap (take 16) (drop_append 16 dest (source ++ (sig ++ msgpack)) hd)
          ∙ take_append 16 source (sig ++ msgpack) hs

      signed_part :
          take 32 (dest ++ (source ++ (sig ++ msgpack)))
            ++ drop 96 (dest ++ (source ++ (sig ++ msgpack)))
          ≡ dest ++ (source ++ msgpack)
      signed_part =
          ap₂ ◌++◌
            (ap (take 32) regroup ∙ take_append 32 (dest ++ source) (sig ++ msgpack) head_length)
            (ap (drop 96) (regroup ∙ sym (append_assoc (dest ++ source) sig msgpack))
              ∙ drop_append 96 ((dest ++ source) ++ sig) msgpack
                  (omega (arith, head_length, length-append (dest ++ source) sig)))
          ∙ append_assoc dest source msgpack

      sig_part : take 64 (drop 32 (dest ++ (source ++ (sig ++ msgpack)))) ≡ sig
      sig_part =
          ap (take 64)
            (ap (drop 32) regroup ∙ drop_append 32 (dest ++ source) (sig ++ msgpack) head_length)
          ∙ take_append 64 sig msgpack hg

      of_entry :
          (o : Option Identity)
          → verdict verify o (dest ++ (source ++ (sig ++ msgpack))) ≡ (elim o [
            | none ↦ none
            | some identity ↦ some (verify identity (dest ++ (source ++ msgpack)) sig)
          ])
      of_entry none = unfold verdict in refl
      of_entry (some identity) =
          unfold verdict in ap₂ (λ m s. some (verify identity m s)) signed_part sig_part

  -- A payload that a node signs, with hashes of 16 bytes, a signature of 64 and a msgpack of at least
  -- one, is accepted by a receiver that has for its source an identity which accepts what it signs.
  pub signed_payload_accepted :
      (sign : Bytes → Bytes) (identity : Identity) (dest source msgpack : Bytes)
      (peers : List (Bytes × Identity))
      → ((m : Bytes) → verify identity m (sign m) ≡ true)
      → ((m : Bytes) → length (sign m) ≡ 64)
      → length dest ≡ 16
      → length source ≡ 16
      → 1 ≤ length msgpack
      → lookup source peers ≡ some identity
      → verify_lxmf_signature verify (signed_payload sign dest source msgpack) peers ≡ some true
  unfolding signed_payload
  signed_payload_accepted sign identity dest source msgpack peers hv hl hd hs hm known =
      verify_lxmf_signature_lem dest source (sign (dest ++ (source ++ msgpack))) msgpack peers hd hs
        (hl _) hm
      ∙ rw (known, hv (dest ++ (source ++ msgpack))) refl
