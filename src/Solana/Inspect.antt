-- ===== src/Solana/Inspect.antt =====
-- rust-core/src/beacon_server.rs: what the beacon checks in the message of a transaction before it
-- co-signs. The cursor is the rest of the message; `false` and `none` are its early returns.
pub mod Accepts
pub mod Payment
pub mod Keys
use lxmf_react_native_rust.Prelude.{
  subst, ℕ, zero, suc, ◌+◌, ◌-◌, ◌*◌, ◌/◌, ◌%◌, ◌^◌, ◌≤◌, ◌<◌, min, max, ◌≡◌, refl, sym, ap, ap₂,
  ◌∙◌, ◌≢◌, ◌↔◌, ◌⊎◌, inl, inr, Bool, true, false, not, ◌&&◌, ◌||◌, Option, none, some, List, [],
  ◌∷◌, ◌++◌, map, append-nil, append_assoc, arith, Bytes, IsByte, ltb, leb, ◌==◌, if◌then◌else◌,
  ltb→lt, lt→ltb, leb→le, le→leb, ==_iff, Bool-cases, Option-cases, bytes_eq, bytes_eq→eq,
  bytes_eq_refl, starts_with, starts_with-append, length, get_elem?, set, get_or, take, drop,
  replicate, length-append, length-take, length-drop, length-replicate, length-map, length-set,
  take-append-drop, get_elem?-set_self, get_elem?-set_ne,
}
use lxmf_react_native_rust.Solana.Compact.{read_compact_u16}
use lxmf_react_native_rust.Solana.Message.{Key}
use lxmf_react_native_rust.Solana.Build.{anchor_discriminator, execute_payment}

-- `match read_compact_u16(&message_bytes[cur..])`, and `cur += n`
unfoldable pub go_on : (ℕ → Bytes → Bool) → Bytes → Option (ℕ × ℕ) → Bool
go_on k rest none = false
go_on k rest (some (count, n)) = k count (drop n rest)

unfoldable pub with_count : (ℕ → Bytes → Bool) → Bytes → Bool
unfolding go_on
with_count k rest = go_on k rest (read_compact_u16 rest)

module _ (sha256 : Bytes → Bytes) (program_id : Key) where
  unfoldable pub check_data : ℕ → Bytes → Bool
  check_data data_len rest =
      if ltb data_len 8 || ltb (length rest) 8
      then false
      else bytes_eq (take 8 rest) (anchor_discriminator sha256 execute_payment)

  unfoldable pub check_indices : ℕ → Bytes → Bool
  check_indices acct_idx_count rest =
      if ltb (length rest) acct_idx_count
      then false
      else with_count check_data (drop acct_idx_count rest)

  unfoldable pub check_program : Bytes → Bytes → Bool
  check_program account_keys [] = false
  check_program account_keys (pid_idx ∷ rest) =
      if ltb (length account_keys) (pid_idx * 32 + 32)
      then false
      else (if not (bytes_eq (take 32 (drop (pid_idx * 32) account_keys)) program_id)
          then false
          else with_count check_indices rest)

  unfoldable pub check_count : Bytes → ℕ → Bytes → Bool
  check_count account_keys ix_count rest =
      if ix_count == 0 then false else check_program account_keys rest

  unfoldable pub check_accounts : ℕ → Bytes → Bool
  check_accounts account_count rest =
      if ltb (length rest) (account_count * 32 + 32)
      then false
      else with_count (check_count (take (account_count * 32) rest))
          (drop (account_count * 32 + 32) rest)

  unfoldable pub verify_execute_payment_instruction : Bytes → Bool
  verify_execute_payment_instruction message_bytes =
      if ltb (length message_bytes) 3
      then false
      else with_count check_accounts (drop 3 message_bytes)

unfoldable pub key_at : Bytes → ℕ → Option (ℕ × ℕ) → Option Key
key_at message_bytes index none = none
key_at message_bytes index (some (count, n)) =
    let key_start = 3 + n + index * 32 in
    if leb count index
    then none
    else (if ltb (length message_bytes) (key_start + 32)
        then none
        else some (take 32 (drop key_start message_bytes)))

unfoldable pub extract_account_key : Bytes → ℕ → Option Key
unfolding key_at
extract_account_key message_bytes index =
    if ltb (length message_bytes) 3
    then none
    else key_at message_bytes index (read_compact_u16 (drop 3 message_bytes))
