-- ===== src/Lxmf/Tests.antt =====
-- The theorems on the LXMF codec at concrete inputs: a message with an image and a file, a signed
-- payload, and values of msgpack.
use lxmf_react_native_rust.Prelude.{
  ℕ, ◌≡◌, refl, Bool, true, Option, some, List, [], ◌∷◌, ◌++◌, arith, Bytes, bytes_eq, replicate,
}
use lxmf_react_native_rust.Prelude.Map.{bytes_Eq, lookup}
use lxmf_react_native_rust.Lxmf.Msgpack.Skip
use lxmf_react_native_rust.Lxmf.Msgpack.Skip.{
  Item, Items, Entries, Encodable, encode, mp_skip-encode, mp_skip-long_array,
}
use lxmf_react_native_rust.Lxmf.Utf8.{is_utf8}
use lxmf_react_native_rust.Lxmf.Fields.{
  image_of, files_of, Json, media_object, build_fields_msgpack,
}
use lxmf_react_native_rust.Lxmf.Fields.RoundTrip.{wanted}
use lxmf_react_native_rust.Lxmf.Payload.{
  encode_lxmf_msgpack, decode_lxmf_payload, verify_lxmf_signature,
}
use lxmf_react_native_rust.Lxmf.Payload.RoundTrip.{decode_lxmf_payload-encode}
use lxmf_react_native_rust.Lxmf.Payload.Signed.{verify_lxmf_signature_lem}

-- A parser that finds in every text one image and one file, both named "a" and holding "a".
abbrev json : Json
json = record {
  Value = Bytes;
  from_str = some;
  as_full_object = some;
  get_object = λ v key. some v;
  get_array = λ v key. some (v ∷ []);
  get_str = λ v key. some (b'a' ∷ []);
  b64_decode = some;
}

abbrev text : Option Bytes
text = some (b'{' ∷ b'1' ∷ b'}' ∷ [])

decode_lxmf_payload-encode_example :
    decode_lxmf_payload (
      replicate 96 0
      ++ encode_lxmf_msgpack 1700000000
          (b'h' ∷ [])
          (b'y' ∷ b'o' ∷ [])
          (build_fields_msgpack json text))
    ≡ some (record {
      title = b'h' ∷ [];
      body = b'y' ∷ b'o' ∷ [];
      image = (wanted json (media_object json text)).0;
      files = (wanted json (media_object json text)).1;
    })
unfolding media_object image_of is_utf8 files_of
decode_lxmf_payload-encode_example =
    decode_lxmf_payload-encode json (replicate 96 0) 1700000000 (b'h' ∷ []) (b'y' ∷ b'o' ∷ []) text
      refl (omega arith) (omega arith) (omega arith, refl, omega arith)
      ((omega arith, refl, omega arith), tt) (omega arith)

-- A signature scheme that signs every message with 64 sevens, and accepts exactly that.
abbrev sevens : Bytes
sevens = replicate 64 7

abbrev accepts : ℕ → Bytes → Bytes → Bool
accepts identity message sig = bytes_eq sig sevens

abbrev there : Bytes
there = replicate 16 1

abbrev here : Bytes
here = replicate 16 2

verify_lxmf_signature_lem_example :
    verify_lxmf_signature accepts (there ++ (here ++ (sevens ++ (0x94 ∷ [])))) ((here, 5) ∷ [])
    ≡ some true
unfolding lookup
verify_lxmf_signature_lem_example =
    verify_lxmf_signature_lem accepts there here sevens (0x94 ∷ []) ((here, 5) ∷ []) refl refl refl
      (omega arith)

abbrev pair : Item
pair = Skip.array (Skip.item (Skip.fixint 5) (Skip.item (Skip.str (b'a' ∷ [])) Skip.no_item))

abbrev big : Bytes
big = replicate 65536 1

abbrev nils : List Bytes
nils = replicate 16 (0xc0 ∷ [])
