-- ===== src/Solana/Compact/RoundTrip.antt =====
-- `read_compact_u16` on what `encode_compact_u16` wrote, and on everything else.
use lxmf_react_native_rust.Prelude.Bits.{and_0x7f, and_0x80, or_0x80}
use lxmf_react_native_rust.Solana.Compact.{
  encode_compact_u16, add_group, parse_loop, read_compact_u16,
}
use lxmf_react_native_rust.Prelude.{
  ℕ, zero, suc, ◌+◌, ◌*◌, ◌/◌, ◌%◌, ◌^◌, ◌≤◌, ◌<◌, ◌≡◌, ap, ◌∙◌, ◌⊎◌, inl, inr, true, false, some,
  [], ◌∷◌, ◌++◌, arith, Bytes, ltb, if◌then◌else◌, ltb→lt, Bool-cases, length,
}

-- The groups of a u16, in plain arithmetic.
unfoldable pub groups : ℕ → Bytes
groups n =
    if ltb n 128
    then n ∷ []
    else (if ltb n 16384
        then (n % 128 + 128) ∷ n / 128 ∷ []
        else (n % 128 + 128) ∷ (n / 128 % 128 + 128) ∷ n / 16384 ∷ [])

-- `encode_compact_u16` writes one to three bytes, seven bits in each, lowest first.
pub encode-groups : (n : ℕ) → n < 65536 → encode_compact_u16 n ≡ groups n
unfolding encode_compact_u16 groups
encode-groups n h = ground (arith, or_0x80 (n % 128), or_0x80 (n / 128 % 128))

-- A last byte, and a byte with the top bit set.
parse_last :
    (rounds i val shift b : ℕ) (rest : Bytes)
    → b < 128
    → parse_loop (suc rounds) i val shift (b ∷ rest) ≡ some (val + b * 2 ^ shift % 2 ^ 16, i + 1)
unfolding parse_loop add_group
parse_last rounds i val shift b rest h = ground (arith, and_0x7f b, and_0x80 b)

parse_inner :
    (rounds i val shift g : ℕ) (rest : Bytes)
    → g < 128
    → parse_loop (suc rounds) i val shift ((g + 128) ∷ rest)
      ≡ parse_loop rounds (i + 1) (val + g * 2 ^ shift % 2 ^ 16) (shift + 7) rest
unfolding parse_loop add_group
parse_inner rounds i val shift g rest h = ground (arith, and_0x7f (g + 128), and_0x80 (g + 128))

read_one : (n : ℕ) (rest : Bytes) → n < 128 → read_compact_u16 (n ∷ rest) ≡ some (n, 1)
unfolding read_compact_u16
read_one n rest h = parse_last 2 0 0 0 n rest h ∙ ap (λ v. some (v, 1)) (omega arith)

read_two :
    (n : ℕ) (rest : Bytes)
    → n < 16384
    → read_compact_u16 ((n % 128 + 128) ∷ n / 128 ∷ rest) ≡ some (n, 2)
unfolding read_compact_u16
read_two n rest h =
    parse_inner 2 0 0 0 (n % 128) (n / 128 ∷ rest) (omega arith)
    ∙ parse_last 1 1 _ 7 (n / 128) rest (omega arith)
    ∙ ap (λ v. some (v, 2)) (omega arith)

read_three :
    (n : ℕ) (rest : Bytes)
    → n < 65536
    → read_compact_u16 ((n % 128 + 128) ∷ (n / 128 % 128 + 128) ∷ n / 16384 ∷ rest) ≡ some (n, 3)
unfolding read_compact_u16
read_three n rest h =
    parse_inner 2 0 0 0 (n % 128) ((n / 128 % 128 + 128) ∷ n / 16384 ∷ rest) (omega arith)
    ∙ parse_inner 1 1 (0 + n % 128 * 2 ^ 0 % 2 ^ 16) 7 (n / 128 % 128) (n / 16384 ∷ rest)
        (omega arith)
    ∙ parse_last 0 2 (0 + n % 128 * 2 ^ 0 % 2 ^ 16 + n / 128 % 128 * 2 ^ 7 % 2 ^ 16) 14 (n / 16384)
        rest (omega arith)
    ∙ ap (λ v. some (v, 3)) (omega arith)

-- A u16 is read back from its encoding, with the number of bytes that it takes, whatever follows.
pub read-encode_compact_u16 :
    (n : ℕ) (rest : Bytes)
    → n < 65536
    → read_compact_u16 (encode_compact_u16 n ++ rest) ≡ some (n, length (encode_compact_u16 n))
unfolding groups
read-encode_compact_u16 n rest h =
    rw (encode-groups n h) (of_groups (Bool-cases (ltb n 128)) (Bool-cases (ltb n 16384)))
  where
    of_groups :
        ((ltb n 128 ≡ true) ⊎ (ltb n 128 ≡ false))
        → ((ltb n 16384 ≡ true) ⊎ (ltb n 16384 ≡ false))
        → read_compact_u16 (groups n ++ rest) ≡ some (n, length (groups n))
    of_groups (inl one) _ = rw one (read_one n rest (ltb→lt _ _ one))
    of_groups (inr long) (inl two) = rw (long, two) (read_two n rest (ltb→lt _ _ two))
    of_groups (inr long) (inr three) = rw (long, three) (read_three n rest h)

parse_loop_takes :
    (rounds i val shift : ℕ) (bytes : Bytes) (n used : ℕ)
    → parse_loop rounds i val shift bytes ≡ some (n, used)
    → (i + 1 ≤ used) × (used ≤ i + rounds) × (used ≤ i + length bytes)
unfolding parse_loop
parse_loop_takes zero i val shift bytes n used e = cc
parse_loop_takes (suc rounds) i val shift [] n used e = cc
parse_loop_takes (suc rounds) i val shift (b ∷ bytes) n used e =
    ground (arith, parse_loop_takes rounds (i + 1) (add_group val b shift) (shift + 7) bytes n used)

-- On any input a successful read takes one to three bytes, and no more than there are: the slices
-- that start behind it are in bounds.
pub read_compact_u16_takes :
    (bytes : Bytes) (n used : ℕ)
    → read_compact_u16 bytes ≡ some (n, used)
    → (1 ≤ used) × (used ≤ 3) × (used ≤ length bytes)
unfolding read_compact_u16
read_compact_u16_takes bytes n used e = ground (arith, parse_loop_takes 3 0 0 0 bytes n used)

-- Behind two bytes 0x80, a third byte below 128 is always taken, also one of 4 and more, which
-- announces more than 16 bits: the number returned is without its high bits.
pub read_compact_u16_overlong :
    (b : ℕ) (rest : Bytes)
    → b < 128
    → read_compact_u16 (0x80 ∷ 0x80 ∷ b ∷ rest) ≡ some (b % 4 * 16384, 3)
unfolding read_compact_u16
read_compact_u16_overlong b rest h =
    parse_inner 2 0 0 0 0 (128 ∷ b ∷ rest) (omega arith)
    ∙ parse_inner 1 1 (0 + 0 * 2 ^ 0 % 2 ^ 16) 7 0 (b ∷ rest) (omega arith)
    ∙ parse_last 0 2 (0 + 0 * 2 ^ 0 % 2 ^ 16 + 0 * 2 ^ 7 % 2 ^ 16) 14 b rest h
    ∙ ap (λ v. some (v, 3)) (omega arith)
