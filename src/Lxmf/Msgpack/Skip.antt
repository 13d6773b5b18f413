-- ===== src/Lxmf/Msgpack/Skip.antt =====
-- What `mp_skip` skips. `Item` describes msgpack values independently of the code.
use Prim.Native.Nat.{bit_or}
use lxmf_react_native_rust.Prelude.Bits.{and_0x1f, and_0x0f, and_0xe0, and_0xf0, or_0xa0}
use lxmf_react_native_rust.Lxmf.Msgpack.{
  mp_u8, mp_u16, max_len, repeat, skip_len, skip_body, mp_skip_inner, mp_skip, mp_bin, mp_str,
  mp_array, concat,
}
use lxmf_react_native_rust.Lxmf.Msgpack.Blobs.{mp_u16_be, mp_u32_be, drop-length_append}
use lxmf_react_native_rust.Prelude.{
  ℕ, zero, suc, ◌+◌, ◌/◌, ◌%◌, ◌^◌, ◌≤◌, ◌<◌, ◌≡◌, refl, ap, ◌∙◌, inl, inr, false, some, List, [],
  ◌∷◌, ◌++◌, append_assoc, arith, Bytes, leb, leb→le, Bool-cases, length, drop,
}

mutual
  pub data Item : Type 0 where
    nil : Item
    fixint : ℕ → Item
    bin : Bytes → Item
    str : Bytes → Item
    array : Items → Item
    dict : Entries → Item

  pub data Items : Type 0 where
    no_item : Items
    item : Item → Items → Items

  pub data Entries : Type 0 where
    no_entry : Entries
    entry : Item → Item → Entries → Entries

abbrev pub count : Items → ℕ
count no_item = 0
count (item x xs) = suc (count xs)

abbrev pub count_entries : Entries → ℕ
count_entries no_entry = 0
count_entries (entry k v es) = suc (count_entries es)

-- The bytes of a value in msgpack's shortest array and map form.
unfoldable mutual
  pub encode : Item → Bytes
  encode nil = 0xc0 ∷ []
  encode (fixint n) = n ∷ []
  encode (bin xs) = mp_bin xs
  encode (str xs) = mp_str xs
  encode (array xs) = (0x90 + count xs) ∷ encode_items xs
  encode (dict es) = (0x80 + count_entries es) ∷ encode_entries es

  pub encode_items : Items → Bytes
  encode_items no_item = []
  encode_items (item x xs) = encode x ++ encode_items xs

  pub encode_entries : Entries → Bytes
  encode_entries no_entry = []
  encode_entries (entry k v es) = encode k ++ (encode v ++ encode_entries es)

-- The value fits the encoding, and nests at most `levels` deep.
unfoldable mutual
  pub Encodable : ℕ → Item → Type 0
  Encodable zero x = ⊥
  Encodable (suc levels) nil = Unit {0}
  Encodable (suc levels) (fixint n) = n < 128
  Encodable (suc levels) (bin xs) = length xs ≤ max_len
  Encodable (suc levels) (str xs) = length xs ≤ 65535
  Encodable (suc levels) (array xs) = (count xs ≤ 15) × EncodableItems levels xs
  Encodable (suc levels) (dict es) = (count_entries es ≤ 15) × EncodableEntries levels es

  pub EncodableItems : ℕ → Items → Type 0
  EncodableItems levels no_item = Unit {0}
  EncodableItems levels (item x xs) = Encodable levels x × EncodableItems levels xs

  pub EncodableEntries : ℕ → Entries → Type 0
  EncodableEntries levels no_entry = Unit {0}
  EncodableEntries levels (entry k v es) =
      Encodable levels k × Encodable levels v × EncodableEntries levels es

skip_step :
    (levels b : ℕ) (rest : Bytes)
    → mp_skip_inner (suc levels) (b ∷ rest) ≡ skip_body (mp_skip_inner levels) b rest
unfolding mp_skip_inner
skip_step levels b rest = refl

body_nil : (f : Bytes → Bytes) (rest : Bytes) → skip_body f 0xc0 rest ≡ rest
unfolding skip_body
body_nil f rest = refl

body_fixint : (f : Bytes → Bytes) (n : ℕ) (rest : Bytes) → n < 128 → skip_body f n rest ≡ rest
unfolding skip_body
body_fixint f n rest h = ground arith

skip_len-u8 :
    (n : ℕ) (xs rest : Bytes)
    → n ≡ length xs
    → skip_len (mp_u8 (n ∷ (xs ++ rest))) (n ∷ (xs ++ rest)) ≡ rest
unfolding skip_len mp_u8
skip_len-u8 n xs rest h = rw h (drop-length_append xs rest)

skip_len-u16 :
    (n : ℕ) (t : Bytes)
    → n ≤ 65535
    → let l = n / 2 ^ 8 % 256 ∷ n % 2 ^ 8 ∷ t in skip_len (mp_u16 l) l ≡ drop n t
unfolding skip_len
skip_len-u16 n t h = ap (λ r. skip_len r (n / 2 ^ 8 % 256 ∷ n % 2 ^ 8 ∷ t)) (mp_u16_be n t h)

skip_len-some : (xs rest failed : Bytes) → skip_len (some (length xs), xs ++ rest) failed ≡ rest
unfolding skip_len
skip_len-some xs rest failed = drop-length_append xs rest

skip_bin :
    (levels : ℕ) (xs rest : Bytes)
    → length xs ≤ max_len
    → mp_skip_inner (suc levels) (mp_bin xs ++ rest) ≡ rest
unfolding mp_skip_inner mp_bin skip_body
skip_bin levels xs rest h = elim (Bool-cases (leb (length xs) 255)) [
  | inl short ↦ rw short (skip_len-u8 (length xs % 256) xs rest (ground arith))
  | inr long ↦ elim (Bool-cases (leb (length xs) 65535)) [
    | inl mid ↦
        rw (long, mid)
          (skip_len-u16 (length xs) (xs ++ rest) (leb→le _ _ mid) ∙ drop-length_append xs rest)
    | inr large ↦
        rw (long, large)
          (ap (λ r. skip_len r []) (mp_u32_be (length xs) (xs ++ rest) h)
            ∙ skip_len-some xs rest [])
  ]
]

fixstr_body :
    (f : Bytes → Bytes) (n : ℕ) (rest : Bytes)
    → n ≤ 31
    → skip_body f (bit_or 0xa0 (n % 256)) rest ≡ drop n rest
unfolding skip_body
fixstr_body f n rest h =
    let tag : bit_or 0xa0 (n % 256) ≡ 0xa0 + n = omega (arith, or_0xa0 (n % 256)) in
    ap (λ b. skip_body f b rest) tag ∙ ground (arith, and_0xe0 (0xa0 + n), and_0x1f (0xa0 + n))

skip_str :
    (levels : ℕ) (xs rest : Bytes)
    → length xs ≤ 65535
    → mp_skip_inner (suc levels) (mp_str xs ++ rest) ≡ rest
unfolding mp_skip_inner mp_str
skip_str levels xs rest h = elim (Bool-cases (leb (length xs) 31)) [
  | inl fix ↦
      rw fix (fixstr_body _ (length xs) (xs ++ rest) (leb→le _ _ fix) ∙ drop-length_append xs rest)
  | inr long ↦ elim (Bool-cases (leb (length xs) 255)) [
    | inl mid ↦
        rw (long, mid) (unfold skip_body in skip_len-u8 (length xs % 256) xs rest (ground arith))
    | inr large ↦
        rw (long, large)
          (unfold skip_body in
            (skip_len-u16 (length xs) (xs ++ rest) h ∙ drop-length_append xs rest))
  ]
]

body_array :
    (f : Bytes → Bytes) (n : ℕ) (rest : Bytes)
    → n ≤ 15
    → skip_body f (0x90 + n) rest ≡ repeat n f rest
unfolding skip_body
body_array f n rest h =
    ground (arith, and_0xe0 (0x90 + n), and_0xf0 (0x90 + n), and_0x0f (0x90 + n))

body_dict :
    (f : Bytes → Bytes) (n : ℕ) (rest : Bytes)
    → n ≤ 15
    → skip_body f (0x80 + n) rest ≡ repeat n (λ i. f (f i)) rest
unfolding skip_body
body_dict f n rest h = ground (arith, and_0xe0 (0x80 + n), and_0xf0 (0x80 + n), and_0x0f (0x80 + n))

mutual
  unfolding encode Encodable repeat

  skip_item :
      (x : Item) (levels : ℕ) (rest : Bytes)
      → Encodable levels x
      → mp_skip_inner levels (encode x ++ rest) ≡ rest
  skip_item nil zero rest h = absurd h
  skip_item nil (suc levels) rest h = skip_step levels 0xc0 rest ∙ body_nil _ rest
  skip_item (fixint n) zero rest h = absurd h
  skip_item (fixint n) (suc levels) rest h = skip_step levels n rest ∙ body_fixint _ n rest h
  skip_item (bin xs) zero rest h = absurd h
  skip_item (bin xs) (suc levels) rest h = skip_bin levels xs rest h
  skip_item (str xs) zero rest h = absurd h
  skip_item (str xs) (suc levels) rest h = skip_str levels xs rest h
  skip_item (array xs) zero rest h = absurd h
  skip_item (array xs) (suc levels) rest h =
      skip_step levels (0x90 + count xs) (encode_items xs ++ rest)
      ∙ body_array (mp_skip_inner levels) (count xs) (encode_items xs ++ rest) h.0
      ∙ skip_items xs levels rest h.1
  skip_item (dict es) zero rest h = absurd h
  skip_item (dict es) (suc levels) rest h =
      skip_step levels (0x80 + count_entries es) (encode_entries es ++ rest)
      ∙ body_dict (mp_skip_inner levels) (count_entries es) (encode_entries es ++ rest) h.0
      ∙ skip_entries es levels rest h.1

  skip_items :
      (xs : Items) (levels : ℕ) (rest : Bytes)
      → EncodableItems levels xs
      → repeat (count xs) (mp_skip_inner levels) (encode_items xs ++ rest) ≡ rest
  skip_items no_item levels rest h = refl
  skip_items (item x xs) levels rest h =
      ap (repeat (count xs) (mp_skip_inner levels)) (
        ap (mp_skip_inner levels) (append_assoc (encode x) (encode_items xs) rest)
        ∙ skip_item x levels (encode_items xs ++ rest) h.0)
      ∙ skip_items xs levels rest h.1

  skip_entries :
      (es : Entries) (levels : ℕ) (rest : Bytes)
      → EncodableEntries levels es
      → repeat
          (count_entries es)
          (λ i. mp_skip_inner levels (mp_skip_inner levels i))
          (encode_entries es ++ rest)
        ≡ rest
  skip_entries no_entry levels rest h = refl
  skip_entries (entry k v es) levels rest h =
      ap
        (λ t.
          repeat (count_entries es) (λ i. mp_skip_inner levels (mp_skip_inner levels i))
            (mp_skip_inner levels t))
        (ap (mp_skip_inner levels) (append_assoc (encode k) (encode v ++ encode_entries es) rest)
          ∙ skip_item k levels ((encode v ++ encode_entries es) ++ rest) h.0
          ∙ append_assoc (encode v) (encode_entries es) rest)
      ∙ ap (repeat (count_entries es) (λ i. mp_skip_inner levels (mp_skip_inner levels i)))
          (skip_item v levels (encode_entries es ++ rest) h.1)
      ∙ skip_entries es levels rest h.2

-- `mp_skip` takes exactly one value off the input: nil, a small integer, a blob, a string, or a
-- short array or map of such, nested at most 17 deep, whatever follows it.
pub mp_skip-encode : (x : Item) (rest : Bytes) → Encodable 17 x → mp_skip (encode x ++ rest) ≡ rest
unfolding mp_skip
mp_skip-encode x rest h = skip_item x 17 rest h

-- An array of 16 to 65535 entries, as `mp_array` writes it, is not skipped element by element: its count is taken for a
-- number of bytes.
pub mp_skip-long_array :
    (es : List Bytes) (rest : Bytes)
    → 16 ≤ length es
    → length es ≤ 65535
    → mp_skip (mp_array es ++ rest) ≡ drop (length es) (concat es ++ rest)
unfolding mp_skip mp_skip_inner mp_array skip_body skip_len
mp_skip-long_array es rest lo hi =
    let many : leb (length es) 15 ≡ false = ground arith in
    rw many (skip_len-u16 (length es) (concat es ++ rest) hi)
