-- ===== src/Lxmf/Payload/RoundTrip.antt =====
-- `decode_lxmf_payload` reads back what `encode_lxmf_msgpack` wrote behind a 96-byte header.
use lxmf_react_native_rust.Prelude.{
  ℕ, ◌≤◌, ◌≡◌, refl, sym, ap, ◌∙◌, false, Option, some, List, [], ◌++◌, append-nil, arith, Bytes,
  ltb, length, drop, length-append,
}
use lxmf_react_native_rust.Lxmf.Msgpack.{max_len, mp_bin, mp_read_bytes}
use lxmf_react_native_rust.Lxmf.Msgpack.Blobs.{mp_read_bytes-mp_bin, drop-length_append}
use lxmf_react_native_rust.Lxmf.Fields.{
  Json, Named, Media, mp_read_lxmf_fields, build_fields_msgpack, media_object,
}
use lxmf_react_native_rust.Lxmf.Fields.Files.{AllFit}
use lxmf_react_native_rust.Lxmf.Fields.RoundTrip.{OptionFits, wanted, read_fields-build}
use lxmf_react_native_rust.Lxmf.Payload.{
  be_u64, encode_lxmf_msgpack, DecodedLxmf, decode_rest, decode_title, decode_msgpack,
  decode_lxmf_payload, unwrap_or_default,
}

pub drop_append {ℓ} : {A : Type ℓ} (n : ℕ) (xs ys : List A) → length xs ≡ n → drop n (xs ++ ys) ≡ ys
drop_append n xs ys h = ap (λ k. drop k (xs ++ ys)) (sym h) ∙ drop-length_append xs ys

drop_timestamp : (ts : ℕ) (t : Bytes) → drop 8 (be_u64 ts ++ t) ≡ t
unfolding be_u64
drop_timestamp ts t = refl

-- The message whose parts are given.
abbrev pub decoded : Bytes → Bytes → Option Named → List Named → DecodedLxmf
decoded title body image files = record { title = title; body = body; image = image; files = files }

decode_parts :
    (title body fields : Bytes) (image : Option Named) (files : List Named) (t : Bytes)
    → length title ≤ max_len
    → length body ≤ max_len
    → mp_read_lxmf_fields fields ≡ record { image = image; files = files; rest = t }
    → decode_title (mp_read_bytes (mp_bin title ++ (mp_bin body ++ fields)))
      ≡ decoded title body image files
unfolding decode_title decode_rest unwrap_or_default
decode_parts title body fields image files t ht hb hf =
    ap decode_title (mp_read_bytes-mp_bin title (mp_bin body ++ fields) ht)
    ∙ ap (decode_rest title) (mp_read_bytes-mp_bin body fields hb)
    ∙ ap (λ (m : Media). decoded title body m.image m.files) hf

decode_msgpack-encode :
    (ts : ℕ) (title body fields : Bytes)
    → decode_msgpack (encode_lxmf_msgpack ts title body fields)
      ≡ some (decode_title (mp_read_bytes (mp_bin title ++ (mp_bin body ++ fields))))
unfolding decode_msgpack encode_lxmf_msgpack
decode_msgpack-encode ts title body fields = refl

long_enough :
    (head msgpack : Bytes)
    → length head ≡ 96
    → 1 ≤ length msgpack
    → ltb (length (head ++ msgpack)) 97 ≡ false
long_enough head msgpack h l = ground (arith, length-append head msgpack)

pub encode_not_empty :
    (ts : ℕ) (title body fields : Bytes) → 1 ≤ length (encode_lxmf_msgpack ts title body fields)
unfolding encode_lxmf_msgpack
encode_not_empty ts title body fields = omega arith

module _ (json : Json) where
  -- A message is decoded to what was encoded: its title and body (at most 16 MiB each), and the image
  -- and files that the media JSON describes, within the limits of their formats. The 96 bytes in front
  -- can be any.
  pub decode_lxmf_payload-encode :
      (head : Bytes) (ts : ℕ) (title body : Bytes) (media_json : Option Bytes)
      → length head ≡ 96
      → length title ≤ max_len
      → length body ≤ max_len
      → OptionFits (wanted json (media_object json media_json)).0
      → AllFit (wanted json (media_object json media_json)).1
      → length (wanted json (media_object json media_json)).1 ≤ 65535
      → decode_lxmf_payload
          (head ++ encode_lxmf_msgpack ts title body (build_fields_msgpack json media_json))
        ≡ some (record {
          title = title;
          body = body;
          image = (wanted json (media_object json media_json)).0;
          files = (wanted json (media_object json media_json)).1;
        })
  unfolding decode_lxmf_payload
  decode_lxmf_payload-encode head ts title body media_json hh ht hb hi hf small =
      let fields = build_fields_msgpack json media_json in
      let msgpack = encode_lxmf_msgpack ts title body fields in
      let read =
        ap mp_read_lxmf_fields (sym (append-nil fields))
        ∙ read_fields-build json media_json [] hi hf small in
      rw (long_enough head msgpack hh (encode_not_empty ts title body fields)) (
        ap decode_msgpack (drop_append 96 head msgpack hh)
        ∙ decode_msgpack-encode ts title body fields
        ∙ ap some (decode_parts title body fields _ _ [] ht hb read))
