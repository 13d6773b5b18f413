-- ===== src/Beacon/Wire/RoundTrip.antt =====
-- Compressed payloads are read back.
use lxmf_react_native_rust.Prelude.{
  ◌+◌, ◌≡◌, refl, inl, inr, false, Option, none, some, Bytes, ltb, Bool-cases, starts_with, length,
}
use lxmf_react_native_rust.Beacon.Wire.{
  Codec, compress_magic, compress_with, compress_payload, decompress_payload,
}

module _ (codec : Codec) where
  decompress-compress_with :
      (raw : Bytes) (o : Option Bytes)
      → ((z : Bytes) → o ≡ some z → codec.inflate z ≡ some raw)
      → starts_with raw compress_magic ≡ false
      → decompress_payload codec (compress_with codec raw o) ≡ some raw
  unfolding compress_with decompress_payload
  decompress-compress_with raw none h plain = rw plain refl
  decompress-compress_with raw (some z) h plain =
      elim (Bool-cases (ltb (length z + length compress_magic) (length raw))) [
        | inl shorter ↦ rw shorter (h z refl)
        | inr longer ↦ rw (longer, plain) refl
      ]

  -- What `compress_payload` gives, compressed or not, is decompressed to the payload, if inflating
  -- undoes deflating, for a payload that does not start with the magic of the compressed form.
  pub decompress_payload-compress :
      (raw : Bytes)
      → ((z : Bytes) → codec.deflate raw ≡ some z → codec.inflate z ≡ some raw)
      → starts_with raw compress_magic ≡ false
      → decompress_payload codec (compress_payload codec raw) ≡ some raw
  unfolding compress_payload
  decompress_payload-compress raw h plain = decompress-compress_with raw (codec.deflate raw) h plain
