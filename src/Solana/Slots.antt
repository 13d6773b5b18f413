-- ===== src/Solana/Slots.antt =====
-- rust-core/src/solana_tx.rs: `sign_tx_at_slot` and `verify_slot_signature`, on the bytes of a
-- serialized transaction. Signing and the checks of ed25519_dalek are parameters: `sign` gives the
-- 64 bytes of a signature, `key_of` is `VerifyingKey::from_bytes`.
pub mod Blocks
pub mod Signed
use lxmf_react_native_rust.Prelude.{
  subst, ℕ, zero, suc, ◌+◌, ◌-◌, ◌*◌, ◌/◌, ◌%◌, ◌^◌, ◌≤◌, ◌<◌, min, max, ◌≡◌, refl, sym, ap, ap₂,
  ◌∙◌, ◌≢◌, ◌↔◌, ◌⊎◌, inl, inr, Bool, true, false, not, ◌&&◌, ◌||◌, Option, none, some, List, [],
  ◌∷◌, ◌++◌, map, append-nil, append_assoc, arith, Bytes, IsByte, ltb, leb, ◌==◌, if◌then◌else◌,
  ltb→lt, lt→ltb, leb→le, le→leb, ==_iff, Bool-cases, Option-cases, bytes_eq, bytes_eq→eq,
  bytes_eq_refl, starts_with, starts_with-append, length, get_elem?, set, get_or, take, drop,
  replicate, length-append, length-take, length-drop, length-replicate, length-map, length-set,
  take-append-drop, get_elem?-set_self, get_elem?-set_ne,
}
use lxmf_react_native_rust.Solana.Compact.{read_compact_u16}

-- `if off + 64 <= out.len() { out[off..off + 64].copy_from_slice(sig) }`
unfoldable pub write_sig : Bytes → ℕ → Bytes → Bytes
write_sig out off sig =
    if leb (off + 64) (length out) then take off out ++ (sig ++ drop (off + 64) out) else out

unfoldable pub sign_parsed : (Bytes → Bytes) → Bytes → ℕ → Option (ℕ × ℕ) → Bytes
unfolding write_sig
sign_parsed sign tx_bytes slot none = tx_bytes
sign_parsed sign tx_bytes slot (some (n, cu16_len)) =
    let msg_start = cu16_len + n * 64 in
    if ltb (length tx_bytes) msg_start
    then tx_bytes
    else write_sig tx_bytes (cu16_len + slot * 64) (sign (drop msg_start tx_bytes))

unfoldable pub sign_tx_at_slot : (Bytes → Bytes) → Bytes → ℕ → Bytes
unfolding sign_parsed
sign_tx_at_slot sign tx_bytes slot = sign_parsed sign tx_bytes slot (read_compact_u16 tx_bytes)

module _ {VerifyingKey : Type 0} (key_of : Bytes → Option VerifyingKey)
    (verify : VerifyingKey → Bytes → Bytes → Bool) where
  unfoldable pub check_with : Option VerifyingKey → Bytes → Bytes → Bool
  check_with none message sig = false
  check_with (some vk) message sig = verify vk message sig

  -- A slice of 64 bytes always is a `Signature`, so that error path is not taken.
  unfoldable pub verify_parsed : Bytes → Bytes → ℕ → Option (ℕ × ℕ) → Bool
  unfolding check_with
  verify_parsed tx_bytes pubkey slot none = false
  verify_parsed tx_bytes pubkey slot (some (n, cu16_len)) =
      let sig_off = cu16_len + slot * 64 in
      let msg_start = cu16_len + n * 64 in
      if leb n slot
      then false
      else if ltb (length tx_bytes) (sig_off + 64) || ltb (length tx_bytes) msg_start
      then false
      else check_with (key_of pubkey) (drop msg_start tx_bytes) (take 64 (drop sig_off tx_bytes))

  unfoldable pub verify_slot_signature : Bytes → Bytes → ℕ → Bool
  unfolding verify_parsed
  verify_slot_signature tx_bytes pubkey slot =
      verify_parsed tx_bytes pubkey slot (read_compact_u16 tx_bytes)
