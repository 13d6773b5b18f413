-- ===== src/Lxmf/Fields.antt =====
-- rust-core/src/node.rs: `build_fields_msgpack` and `mp_read_lxmf_fields`, the image and the files of
-- a message. A Rust `String` is its UTF-8 bytes. `serde_json` and `base64` are not part of the
-- repository: their calls are the fields of the record `Json`.
pub mod Image
pub mod Files
pub mod RoundTrip
use Prim.Native.Nat.{bit_and, bit_or}
use lxmf_react_native_rust.Prelude.{
  subst, ℕ, zero, suc, ◌+◌, ◌-◌, ◌*◌, ◌/◌, ◌%◌, ◌^◌, ◌≤◌, ◌<◌, min, max, ◌≡◌, refl, sym, ap, ap₂,
  ◌∙◌, ◌≢◌, ◌↔◌, ◌⊎◌, inl, inr, Bool, true, false, not, ◌&&◌, ◌||◌, Option, none, some, List, [],
  ◌∷◌, ◌++◌, map, append-nil, append_assoc, arith, Bytes, IsByte, ltb, leb, ◌==◌, if◌then◌else◌,
  ltb→lt, lt→ltb, leb→le, le→leb, ==_iff, Bool-cases, Option-cases, bytes_eq, bytes_eq→eq,
  bytes_eq_refl, starts_with, starts_with-append, length, get_elem?, set, get_or, take, drop,
  replicate, length-append, length-take, length-drop, length-replicate, length-map, length-set,
  take-append-drop, get_elem?-set_self, get_elem?-set_ne,
}
use lxmf_react_native_rust.Lxmf.Utf8.{is_utf8}
use lxmf_react_native_rust.Lxmf.Msgpack.{
  Read, mp_u16, mp_read_bytes, mp_read_array_len, mp_skip, mp_bin, mp_str, mp_array, concat,
}

pub record Json : Type 1 where
  pub Value : Type 0
  pub from_str : Bytes → Option Value
  -- `as_object`, given only for an object that is not empty
  pub as_full_object : Value → Option Value
  -- `get(key).and_then(as_object)`, and the same with `as_array` and `as_str`
  pub get_object : Value → Bytes → Option Value
  pub get_array : Value → Bytes → Option (List Value)
  pub get_str : Value → Bytes → Option Bytes
  pub b64_decode : Bytes → Option Bytes

-- A name or MIME type, and data.
abbrev pub Named : Type 0
Named = Bytes × Bytes

abbrev pub image_key : Bytes
image_key = b'i' ∷ b'm' ∷ b'a' ∷ b'g' ∷ b'e' ∷ []

abbrev pub files_key : Bytes
files_key = b'f' ∷ b'i' ∷ b'l' ∷ b'e' ∷ b's' ∷ []

abbrev pub mime_key : Bytes
mime_key = b'm' ∷ b'i' ∷ b'm' ∷ b'e' ∷ b'T' ∷ b'y' ∷ b'p' ∷ b'e' ∷ []

abbrev pub data_key : Bytes
data_key = b'd' ∷ b'a' ∷ b't' ∷ b'a' ∷ []

abbrev pub name_key : Bytes
name_key = b'n' ∷ b'a' ∷ b'm' ∷ b'e' ∷ []

-- "image/jpeg"
abbrev pub jpeg : Bytes
jpeg = b'i' ∷ b'm' ∷ b'a' ∷ b'g' ∷ b'e' ∷ b'/' ∷ b'j' ∷ b'p' ∷ b'e' ∷ b'g' ∷ []

-- "file"
abbrev pub file_name : Bytes
file_name = b'f' ∷ b'i' ∷ b'l' ∷ b'e' ∷ []

-- fixarray(2) of a string and a blob
unfoldable pub pair_mp : Named → Bytes
pair_mp (name, contents) = 0x92 ∷ (mp_str name ++ mp_bin contents)

unfoldable pub write_fields : List (ℕ × Bytes) → Bytes
write_fields [] = []
write_fields ((id, val) ∷ rest) = id ∷ (val ++ write_fields rest)

unfoldable pub finish_fields : List (ℕ × Bytes) → Bytes
finish_fields [] = 0x80 ∷ []
finish_fields (f ∷ fs) = bit_or 0x80 (length (f ∷ fs) % 256) ∷ write_fields (f ∷ fs)

-- FIELD_IMAGE, if there is an image.
unfoldable pub image_fields : Option Named → List (ℕ × Bytes)
image_fields none = []
image_fields (some image) = (0x06, pair_mp image) ∷ []

-- FIELD_FILE_ATTACHMENTS, if there are files.
unfoldable pub files_fields : List Named → List (ℕ × Bytes)
files_fields [] = []
files_fields (f ∷ fs) = (0x05, mp_array (map pair_mp (f ∷ fs))) ∷ []

module _ (json : Json) where
  open json use {Value, from_str, as_full_object, get_object, get_array, get_str, b64_decode}

  or_bytes : Option Bytes → Bytes → Bytes
  or_bytes none d = d
  or_bytes (some s) d = s

  -- `.filter(|s| !s.is_empty())`
  not_empty : Option Bytes → Option Bytes
  not_empty (some (c ∷ s)) = some (c ∷ s)
  not_empty _ = none

  decode_opt : Option Bytes → Option Bytes
  decode_opt none = none
  decode_opt (some s) = b64_decode s

  named : Bytes → Option Bytes → Option Named
  named name none = none
  named name (some contents) = some (name, contents)

  image_of_object : Option Value → Option Named
  unfolding or_bytes not_empty decode_opt named
  image_of_object none = none
  image_of_object (some img) =
      named (or_bytes (get_str img mime_key) jpeg) (decode_opt (not_empty (get_str img data_key)))

  -- The image that the JSON object describes.
  unfoldable pub image_of : Value → Option Named
  unfolding image_of_object
  image_of obj = image_of_object (get_object obj image_key)

  file_of_name : Value → Option Bytes → Option Named
  unfolding or_bytes named
  file_of_name f none = none
  file_of_name f (some name) = named name (b64_decode (or_bytes (get_str f data_key) []))

  filter_files : List Value → List Named
  unfolding file_of_name
  filter_files [] = []
  filter_files (f ∷ fs) =
      let rest = filter_files fs in
      elim (file_of_name f (get_str f name_key)) [ none ↦ rest | some n ↦ n ∷ rest ]

  files_of_array : Option (List Value) → List Named
  unfolding filter_files
  files_of_array none = []
  files_of_array (some fs) = filter_files fs

  -- The files that the JSON object describes.
  unfoldable pub files_of : Value → List Named
  unfolding files_of_array
  files_of obj = files_of_array (get_array obj files_key)

  -- Only spaces and NULs.
  is_blank : Bytes → Bool
  is_blank [] = true
  is_blank (c ∷ s) = (c == 0x20 || c == 0) && is_blank s

  abbrev null_text : Bytes
  null_text = b'n' ∷ b'u' ∷ b'l' ∷ b'l' ∷ []

  abbrev empty_object : Bytes
  empty_object = b'{' ∷ b'}' ∷ []

  object_of : Option Value → Option Value
  object_of none = none
  object_of (some v) = as_full_object v

  -- The object that the media JSON gives, if it is to be looked at.
  unfoldable pub media_object : Option Bytes → Option Value
  unfolding object_of is_blank
  media_object none = none
  media_object (some s) =
      if is_blank s || bytes_eq s null_text || bytes_eq s empty_object
      then none
      else object_of (from_str s)

  fields_of_object : Option Value → Bytes
  unfolding image_of files_of
  fields_of_object none = 0x80 ∷ []
  fields_of_object (some obj) =
      finish_fields (image_fields (image_of obj) ++ files_fields (files_of obj))

  unfoldable pub build_fields_msgpack : Option Bytes → Bytes
  unfolding fields_of_object media_object
  build_fields_msgpack media_json = fields_of_object (media_object media_json)

-- What `mp_read_lxmf_fields` has collected, and the input that is left.
pub record Media : Type 0 where
  pub image : Option Named
  pub files : List Named
  pub rest : Bytes

unfoldable pub or_default : Bytes → Bytes → Bytes
or_default s d = if is_utf8 s then s else d

unfoldable pub join_reads : Option Bytes → Read Bytes → Read Named
join_reads none (second, i) = (none, i)
join_reads (some m) (none, i) = (none, i)
join_reads (some m) (some d, i) = (some (m, d), i)

unfoldable pub read_second : Read Bytes → Read Named
read_second (first, i) = join_reads first (mp_read_bytes i)

-- Both reads of a pair are made, also when the first fails.
unfoldable pub read_pair : Bytes → Read Named
unfolding join_reads read_second
read_pair i = read_second (mp_read_bytes i)

-- `data.get(pos) == Some(0x92)`, past that byte
unfoldable pub after_pair_tag : Bytes → Option Bytes
after_pair_tag [] = none
after_pair_tag (b ∷ rest) = if b == 0x92 then some rest else none

unfoldable pub set_image : Media → Read Named → Media
set_image m (none, i) = record m { rest = i }
set_image m (some (mime, d), i) = record m { image = some (or_default mime jpeg, d); rest = i }

unfoldable pub push_file : Media → Read Named → Media
push_file m (none, i) = record m { rest = i }
push_file m (some (name, d), i) = record m {
  files = m.files ++ ((or_default name file_name, d) ∷ []);
  rest = i;
}

unfoldable pub read_image : Media → Media
read_image m = elim (after_pair_tag m.rest) [
  | none ↦ record m { rest = mp_skip m.rest }
  | some i ↦ set_image m (read_pair i)
]

unfoldable pub read_file : Media → Media
read_file m = elim (after_pair_tag m.rest) [
  | none ↦ record m { rest = mp_skip m.rest }
  | some i ↦ push_file m (read_pair i)
]

unfoldable pub read_files : ℕ → Media → Media
read_files zero m = m
read_files (suc n) m = read_files n (read_file m)

unfoldable pub read_file_array : Media → Read ℕ → Media
read_file_array m (none, i) = record m { rest = i }
read_file_array m (some n, i) = read_files n (record m { rest = i })

-- The `match` on a key.
unfoldable pub read_field : ℕ → Media → Media
read_field key m =
    if key == 0x06
    then read_image m
    else (if key == 0x05
        then read_file_array m (mp_read_array_len m.rest)
        else record m { rest = mp_skip m.rest })

-- The loop over the map: it stops at a key that is no small integer.
unfoldable pub loop_fields : ℕ → Media → Bytes → Media
loop_fields zero m i = record m { rest = i }
loop_fields (suc n) m [] = record m { rest = [] }
loop_fields (suc n) m (key ∷ i) =
    let m' = read_field key (record m { rest = i }) in
    let more = loop_fields n m' m'.rest in
    if ltb key 0x80 then more else record m { rest = key ∷ i }

unfoldable pub map_len : Bytes → Read ℕ
map_len [] = (none, [])
map_len (b ∷ rest) =
    if bit_and b 0xf0 == 0x80
    then (some (bit_and b 0x0f), rest)
    else (if b == 0xde then mp_u16 rest else (none, rest))

unfoldable pub loop_from : Read ℕ → Media
loop_from (none, i) = record { image = none; files = []; rest = i }
loop_from (some n, i) = loop_fields n (record { image = none; files = []; rest = i }) i

unfoldable pub mp_read_lxmf_fields : Bytes → Media
unfolding map_len loop_from
mp_read_lxmf_fields i = loop_from (map_len i)
