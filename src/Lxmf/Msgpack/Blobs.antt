-- ===== src/Lxmf/Msgpack/Blobs.antt =====
-- What the readers make of the blobs, strings and array heads that the writers write.
use Prim.Native.Nat.{bit_and, bit_or}
use lxmf_react_native_rust.Prelude.Bits.{and_0x1f, and_0x0f, and_0xe0, and_0xf0, or_0xa0, or_0x90}
use lxmf_react_native_rust.Lxmf.Msgpack.{
  mp_u8, mp_u16, mp_u32, max_len, read_len, read_exact, mp_read_bytes, mp_read_array_len, mp_bin,
  mp_str, mp_array, concat,
}
use lxmf_react_native_rust.Prelude.{
  ℕ, ◌+◌, ◌*◌, ◌/◌, ◌%◌, ◌^◌, ◌≤◌, ◌≡◌, refl, ap, ◌∙◌, inl, inr, true, false, some, List, [], ◌∷◌,
  ◌++◌, arith, Bytes, leb, leb→le, le→leb, Bool-cases, length, take, drop, length-append,
}

pub take-length_append {ℓ} : {A : Type ℓ} (xs ys : List A) → take (length xs) (xs ++ ys) ≡ xs
take-length_append [] ys = refl
take-length_append (x ∷ xs) ys = ap (◌∷◌ x) (take-length_append xs ys)

pub drop-length_append {ℓ} : {A : Type ℓ} (xs ys : List A) → drop (length xs) (xs ++ ys) ≡ ys
drop-length_append [] ys = refl
drop-length_append (x ∷ xs) ys = drop-length_append xs ys

pub read_exact-append :
    (n : ℕ) (xs rest : Bytes) → n ≡ length xs → read_exact (some n, xs ++ rest) ≡ (some xs, rest)
unfolding read_exact
read_exact-append n xs rest h =
    rw
      (
        h,
        le→leb (length xs) (length (xs ++ rest)) (omega (arith, length-append xs rest)),
        take-length_append xs rest,
        drop-length_append xs rest,
      )
      refl

pub mp_u32_be :
    (n : ℕ) (rest : Bytes)
    → n ≤ max_len
    → mp_u32 (n / 2 ^ 24 % 256 ∷ n / 2 ^ 16 % 256 ∷ n / 2 ^ 8 % 256 ∷ n % 256 ∷ rest)
      ≡ (some n, rest)
unfolding mp_u32
mp_u32_be n rest h =
    let same : n / 2 ^ 24 % 256 * 2 ^ 24
          + n / 2 ^ 16 % 256 * 2 ^ 16
          + n / 2 ^ 8 % 256 * 2 ^ 8
          + n % 256
        ≡ n =
      omega arith in
    rw same (ground arith)

pub mp_u16_be :
    (n : ℕ) (rest : Bytes)
    → n ≤ 65535
    → mp_u16 (n / 2 ^ 8 % 256 ∷ n % 2 ^ 8 ∷ rest) ≡ (some n, rest)
unfolding mp_u16
mp_u16_be n rest h = ground arith

-- The reader of a blob reads back what `mp_bin` wrote, up to 16 MiB, and leaves what follows.
pub mp_read_bytes-mp_bin :
    (xs rest : Bytes) → length xs ≤ max_len → mp_read_bytes (mp_bin xs ++ rest) ≡ (some xs, rest)
unfolding mp_read_bytes mp_bin mp_u8
mp_read_bytes-mp_bin xs rest h = elim (Bool-cases (leb (length xs) 255)) [
  | inl short ↦ rw short (read_exact-append (length xs % 256) xs rest (ground arith))
  | inr long ↦ elim (Bool-cases (leb (length xs) 65535)) [
    | inl mid ↦
        rw (long, mid)
          (ap read_exact (mp_u16_be (length xs) (xs ++ rest) (ground arith))
            ∙ read_exact-append _ xs rest refl)
    | inr large ↦
        rw (long, large)
          (ap read_exact (mp_u32_be (length xs) (xs ++ rest) h) ∙ read_exact-append _ xs rest refl)
  ]
]

fixstr_tag : (n : ℕ) → n ≤ 31 → (bit_and (0xa0 + n) 0xe0 ≡ 0xa0) × (bit_and (0xa0 + n) 0x1f ≡ n)
fixstr_tag n h = (
  and_0xe0 (0xa0 + n) (omega arith) ∙ omega arith,
  and_0x1f (0xa0 + n) (omega arith) ∙ omega arith,
)

read_len-fixstr :
    (n : ℕ) (rest : Bytes) → n ≤ 31 → read_len (bit_or 0xa0 (n % 256)) rest ≡ (some n, rest)
unfolding read_len
read_len-fixstr n rest h =
    let tag : bit_or 0xa0 (n % 256) ≡ 0xa0 + n = omega (arith, or_0xa0 (n % 256)) in
    ap (λ b. read_len b rest) tag ∙ ground (arith, fixstr_tag n h)

-- The reader reads back what `mp_str` wrote, up to 65535 bytes, and leaves what follows.
pub mp_read_bytes-mp_str :
    (xs rest : Bytes) → length xs ≤ 65535 → mp_read_bytes (mp_str xs ++ rest) ≡ (some xs, rest)
unfolding mp_read_bytes mp_str mp_u8
mp_read_bytes-mp_str xs rest h = elim (Bool-cases (leb (length xs) 31)) [
  | inl fix ↦ rw fix (
      ap read_exact (read_len-fixstr (length xs) (xs ++ rest) (leb→le _ _ fix))
      ∙ read_exact-append _ xs rest refl)
  | inr long ↦ elim (Bool-cases (leb (length xs) 255)) [
    | inl mid ↦ rw (long, mid) (read_exact-append (length xs % 256) xs rest (ground arith))
    | inr large ↦
        rw (long, large)
          (ap read_exact (mp_u16_be (length xs) (xs ++ rest) h) ∙ read_exact-append _ xs rest refl)
  ]
]

-- A string of 65536 bytes or more is written under its length modulo 65536: the reader returns that
-- many of its bytes, and the other bytes are left in front of what follows.
pub mp_str_too_long :
    (xs rest : Bytes)
    → 65536 ≤ length xs
    → mp_read_bytes (mp_str xs ++ rest)
      ≡ (some (take (length xs % 65536) (xs ++ rest)), drop (length xs % 65536) (xs ++ rest))
unfolding mp_read_bytes mp_str read_exact
mp_str_too_long xs rest h =
    let no_fix : leb (length xs) 31 ≡ false = ground arith in
    let no_mid : leb (length xs) 255 ≡ false = ground arith in
    let fits : leb (length xs % 65536) (length (xs ++ rest)) ≡ true =
      ground (arith, length-append xs rest) in
    rw (no_fix, no_mid) (ap read_exact (u16_wrapped (length xs) (xs ++ rest)) ∙ rw fits refl)
  where
    u16_wrapped :
        (n : ℕ) (t : Bytes) → mp_u16 (n / 2 ^ 8 % 256 ∷ n % 2 ^ 8 ∷ t) ≡ (some (n % 65536), t)
    u16_wrapped n t = unfold mp_u16 in ap (λ k. (some k, t)) (omega arith)

fixarray_tag : (n : ℕ) → n ≤ 15 → (bit_and (0x90 + n) 0xf0 ≡ 0x90) × (bit_and (0x90 + n) 0x0f ≡ n)
fixarray_tag n h = (
  and_0xf0 (0x90 + n) (omega arith) ∙ omega arith,
  and_0x0f (0x90 + n) (omega arith) ∙ omega arith,
)

-- The head of an array of at most 65535 entries is read back as their number, and leaves the entries.
pub mp_read_array_len-mp_array :
    (es : List Bytes) (rest : Bytes)
    → length es ≤ 65535
    → mp_read_array_len (mp_array es ++ rest) ≡ (some (length es), concat es ++ rest)
unfolding mp_read_array_len mp_array
mp_read_array_len-mp_array es rest h = elim (Bool-cases (leb (length es) 15)) [
  | inl few ↦ rw few (
      ap (λ b. mp_read_array_len (b ∷ (concat es ++ rest))) (tag (length es) (leb→le _ _ few))
      ∙ ground (arith, fixarray_tag (length es)))
  | inr many ↦ rw many (mp_u16_be (length es) (concat es ++ rest) h)
]
  where
    tag : (n : ℕ) → n ≤ 15 → bit_or 0x90 (n % 256) ≡ 0x90 + n
    tag n h = omega (arith, or_0x90 (n % 256))
