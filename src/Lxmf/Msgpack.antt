-- ===== src/Lxmf/Msgpack.antt =====
-- rust-core/src/node.rs: the msgpack readers `mp_read_bytes`, `mp_u16`, `mp_u32`,
-- `mp_read_array_len`, `mp_skip` and writers `mp_bin`, `mp_str`, `mp_array`.
-- A reader of `(data, &mut pos)` takes the bytes from `pos` on and returns what is left of them: it
-- never looks back, and `pos` only passes the end by the fixed skip of the timestamp, after which
-- every access fails. `|` of shifted bytes is their sum.
pub mod Blobs
pub mod Skip
use Prim.Native.Nat.{bit_and, bit_or}
use lxmf_react_native_rust.Prelude.{
  subst, ℕ, zero, suc, ◌+◌, ◌-◌, ◌*◌, ◌/◌, ◌%◌, ◌^◌, ◌≤◌, ◌<◌, min, max, ◌≡◌, refl, sym, ap, ap₂,
  ◌∙◌, ◌≢◌, ◌↔◌, ◌⊎◌, inl, inr, Bool, true, false, not, ◌&&◌, ◌||◌, Option, none, some, List, [],
  ◌∷◌, ◌++◌, map, append-nil, append_assoc, arith, Bytes, IsByte, ltb, leb, ◌==◌, if◌then◌else◌,
  ltb→lt, lt→ltb, leb→le, le→leb, ==_iff, Bool-cases, Option-cases, bytes_eq, bytes_eq→eq,
  bytes_eq_refl, starts_with, starts_with-append, length, get_elem?, set, get_or, take, drop,
  replicate, length-append, length-take, length-drop, length-replicate, length-map, length-set,
  take-append-drop, get_elem?-set_self, get_elem?-set_ne,
}

abbrev pub Read : Type 0 → Type 0
Read A = Option A × Bytes

unfoldable pub mp_u16 : Bytes → Read ℕ
mp_u16 [] = (none, [])
mp_u16 (a ∷ []) = (none, a ∷ [])
mp_u16 (a ∷ b ∷ rest) = (some (a * 2 ^ 8 + b), rest)

abbrev pub max_len : ℕ
max_len = 16 * 1024 * 1024

unfoldable pub mp_u32 : Bytes → Read ℕ
mp_u32 (a ∷ b ∷ c ∷ d ∷ rest) =
    let v = a * 2 ^ 24 + b * 2 ^ 16 + c * 2 ^ 8 + d in
    if ltb max_len v then (none, rest) else (some v, rest)
mp_u32 short = (none, short)

unfoldable pub mp_u8 : Bytes → Read ℕ
mp_u8 [] = (none, [])
mp_u8 (l ∷ rest) = (some l, rest)

-- The length that the type byte `b` announces.
unfoldable pub read_len : ℕ → Bytes → Read ℕ
read_len b rest =
    if b == 0xc4
    then mp_u8 rest
    else (if b == 0xc5
        then mp_u16 rest
        else (if b == 0xc6
            then mp_u32 rest
            else (if bit_and b 0xe0 == 0xa0
                then (some (bit_and b 0x1f), rest)
                else (if b == 0xd9
                    then mp_u8 rest
                    else (if b == 0xda then mp_u16 rest else (none, rest))))))

-- `data.get(pos..pos + len)?`
unfoldable pub read_exact : Read ℕ → Read Bytes
read_exact (none, rest) = (none, rest)
read_exact (some len, rest) =
    if leb len (length rest) then (some (take len rest), drop len rest) else (none, rest)

unfoldable pub mp_read_bytes : Bytes → Read Bytes
unfolding read_len read_exact
mp_read_bytes [] = (none, [])
mp_read_bytes (b ∷ rest) = read_exact (read_len b rest)

unfoldable pub mp_read_array_len : Bytes → Read ℕ
mp_read_array_len [] = (none, [])
mp_read_array_len (b ∷ rest) =
    if bit_and b 0xf0 == 0x90
    then (some (bit_and b 0x0f), rest)
    else (if b == 0xdc then mp_u16 rest else (if b == 0xdd then mp_u32 rest else (none, rest)))

-- `for _ in 0..n`
unfoldable pub repeat : ℕ → (Bytes → Bytes) → Bytes → Bytes
repeat zero f i = i
repeat (suc n) f i = repeat n f (f i)

-- Skip as many bytes as a length says; where there is no length, do what `failed` says.
unfoldable pub skip_len : Read ℕ → Bytes → Bytes
skip_len (none, rest) failed = failed
skip_len (some n, rest) failed = drop n rest

-- Skip the elements of a map whose length was read.
unfoldable pub skip_pairs : Read ℕ → (Bytes → Bytes) → Bytes
skip_pairs (none, rest) f = rest
skip_pairs (some n, rest) f = repeat n (λ i. f (f i)) rest

-- The `match` of `mp_skip_inner` on the type byte; `f` is the call at the next depth.
unfoldable pub skip_body : (Bytes → Bytes) → ℕ → Bytes → Bytes
skip_body f b rest =
    if leb b 0x7f || leb 0xe0 b || b == 0xc0 || b == 0xc2 || b == 0xc3
    then rest
    else (if b == 0xca || b == 0xce || b == 0xd2
        then drop 4 rest
        else (if b == 0xcb || b == 0xcf || b == 0xd3
            then drop 8 rest
            else (if b == 0xcc || b == 0xd0
                then drop 1 rest
                else (if b == 0xcd || b == 0xd1
                    then drop 2 rest
                    else (if bit_and b 0xe0 == 0xa0
                        then drop (bit_and b 0x1f) rest
                        else (if b == 0xd9 || b == 0xc4
                            then skip_len (mp_u8 rest) rest
                            else (if b == 0xda || b == 0xc5 || b == 0xdc
                                then skip_len (mp_u16 rest) rest
                                else (if b == 0xdb || b == 0xc6 || b == 0xdd
                                    then skip_len (mp_u32 rest) []
                                    else (if bit_and b 0xf0 == 0x90
                                        then repeat (bit_and b 0x0f) f rest
                                        else (if bit_and b 0xf0 == 0x80
                                            then repeat (bit_and b 0x0f) (λ i. f (f i)) rest
                                            else (if b == 0xde
                                                then skip_pairs (mp_u16 rest) f
                                                else rest)))))))))))

-- `mp_skip_inner` with `levels` depths left: at depth 17 it returns at once.
unfoldable pub mp_skip_inner : ℕ → Bytes → Bytes
mp_skip_inner zero i = i
mp_skip_inner (suc levels) [] = []
mp_skip_inner (suc levels) (b ∷ rest) = skip_body (mp_skip_inner levels) b rest

unfoldable pub mp_skip : Bytes → Bytes
mp_skip i = mp_skip_inner 17 i

unfoldable pub mp_bin : Bytes → Bytes
mp_bin payload =
    (if leb (length payload) 255
      then 0xc4 ∷ length payload % 256 ∷ []
      else (if leb (length payload) 65535
          then 0xc5 ∷ length payload / 2 ^ 8 % 256 ∷ length payload % 2 ^ 8 ∷ []
          else 0xc6
            ∷ length payload / 2 ^ 24 % 256
            ∷ length payload / 2 ^ 16 % 256
            ∷ length payload / 2 ^ 8 % 256
            ∷ length payload % 256
            ∷ []))
    ++ payload

unfoldable pub mp_str : Bytes → Bytes
mp_str s =
    (if leb (length s) 31
      then bit_or 0xa0 (length s % 256) ∷ []
      else (if leb (length s) 255
          then 0xd9 ∷ length s % 256 ∷ []
          else 0xda ∷ length s / 2 ^ 8 % 256 ∷ length s % 2 ^ 8 ∷ []))
    ++ s

unfoldable pub concat : List Bytes → Bytes
concat [] = []
concat (e ∷ es) = e ++ concat es

unfoldable pub mp_array : List Bytes → Bytes
unfolding concat
mp_array entries =
    (if leb (length entries) 15
      then bit_or 0x90 (length entries % 256) ∷ []
      else 0xdc ∷ length entries / 2 ^ 8 % 256 ∷ length entries % 2 ^ 8 ∷ [])
    ++ concat entries
