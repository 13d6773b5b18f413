-- ===== src/Solana/Compact.antt =====
-- The compact-u16 numbers of Solana's wire format: `encode_compact_u16` and `parse_tx_compact_u16`
-- of rust-core/src/solana_tx.rs; `read_compact_u16` of rust-core/src/beacon_server.rs is the same
-- function as the latter.
pub mod RoundTrip
use Prim.Native.Nat.{bit_and, bit_or}
use lxmf_react_native_rust.Prelude.{
  subst, ℕ, zero, suc, ◌+◌, ◌-◌, ◌*◌, ◌/◌, ◌%◌, ◌^◌, ◌≤◌, ◌<◌, min, max, ◌≡◌, refl, sym, ap, ap₂,
  ◌∙◌, ◌≢◌, ◌↔◌, ◌⊎◌, inl, inr, Bool, true, false, not, ◌&&◌, ◌||◌, Option, none, some, List, [],
  ◌∷◌, ◌++◌, map, append-nil, append_assoc, arith, Bytes, IsByte, ltb, leb, ◌==◌, if◌then◌else◌,
  ltb→lt, lt→ltb, leb→le, le→leb, ==_iff, Bool-cases, Option-cases, bytes_eq, bytes_eq→eq,
  bytes_eq_refl, starts_with, starts_with-append, length, get_elem?, set, get_or, take, drop,
  replicate, length-append, length-take, length-drop, length-replicate, length-map, length-set,
  take-append-drop, get_elem?-set_self, get_elem?-set_ne,
}

-- The loop of `encode_compact_u16`; `v & 0x7f` is `v % 2 ^ 7`. Three rounds are enough for a u16.
unfoldable pub encode_loop : ℕ → ℕ → Bytes
encode_loop zero v = []
encode_loop (suc rounds) v =
    let low = v % 2 ^ 7 in
    let rest = encode_loop rounds (v / 2 ^ 7) in
    if v / 2 ^ 7 == 0 then low ∷ [] else bit_or low 0x80 ∷ rest

unfoldable pub encode_compact_u16 : ℕ → Bytes
unfolding encode_loop
encode_compact_u16 n = encode_loop 3 n

-- `val |= ((b & 0x7f) as u16) << shift`: the bits are free, and those past the 16th are lost.
unfoldable pub add_group : ℕ → ℕ → ℕ → ℕ
add_group val b shift = val + bit_and b 0x7f * 2 ^ shift % 2 ^ 16

-- The loop over `.enumerate().take(3)`, with `rounds` rounds left.
unfoldable pub parse_loop : ℕ → ℕ → ℕ → ℕ → Bytes → Option (ℕ × ℕ)
parse_loop zero i val shift bytes = none
parse_loop (suc rounds) i val shift [] = none
parse_loop (suc rounds) i val shift (b ∷ bytes) =
    let more = parse_loop rounds (i + 1) (add_group val b shift) (shift + 7) bytes in
    if bit_and b 0x80 == 0 then some (add_group val b shift, i + 1) else more

unfoldable pub read_compact_u16 : Bytes → Option (ℕ × ℕ)
unfolding parse_loop add_group
read_compact_u16 bytes = parse_loop 3 0 0 0 bytes
