-- ===== src/Beacon/Wire.antt =====
-- rust-core/src/beacon.rs: announces, compression and the JSON-RPC messages. serde_json and flate2
-- are the fields of the record `Codec`: `none` of `to_vec`, `from_slice`, `deflate` and `inflate` is
-- their error.
pub mod RoundTrip
use lxmf_react_native_rust.Prelude.{
  subst, ℕ, zero, suc, ◌+◌, ◌-◌, ◌*◌, ◌/◌, ◌%◌, ◌^◌, ◌≤◌, ◌<◌, min, max, ◌≡◌, refl, sym, ap, ap₂,
  ◌∙◌, ◌≢◌, ◌↔◌, ◌⊎◌, inl, inr, Bool, true, false, not, ◌&&◌, ◌||◌, Option, none, some, List, [],
  ◌∷◌, ◌++◌, map, append-nil, append_assoc, arith, Bytes, IsByte, ltb, leb, ◌==◌, if◌then◌else◌,
  ltb→lt, lt→ltb, leb→le, le→leb, ==_iff, Bool-cases, Option-cases, bytes_eq, bytes_eq→eq,
  bytes_eq_refl, starts_with, starts_with-append, length, get_elem?, set, get_or, take, drop,
  replicate, length-append, length-take, length-drop, length-replicate, length-map, length-set,
  take-append-drop, get_elem?-set_self, get_elem?-set_ne,
}
use lxmf_react_native_rust.Lxmf.Utf8.{is_utf8}

-- "anonmesh::beacon::v1"
abbrev pub announce_data : Bytes
announce_data =
    b'a' ∷ b'n' ∷ b'o' ∷ b'n' ∷ b'm' ∷ b'e' ∷ b's' ∷ b'h' ∷ b':' ∷ b':' ∷ b'b' ∷ b'e' ∷ b'a' ∷ b'c'
    ∷ b'o' ∷ b'n' ∷ b':' ∷ b':' ∷ b'v' ∷ b'1' ∷ []

abbrev pub announce_prefix_full : Bytes
announce_prefix_full = announce_data ++ (0 ∷ [])

abbrev pub compress_magic : Bytes
compress_magic = 0 ∷ b'z' ∷ b'l' ∷ []

unfoldable pub is_beacon_announce : Bytes → Bool
is_beacon_announce app_data = starts_with app_data announce_data

unfoldable pub extract_display_name : Bytes → Option Bytes
extract_display_name app_data =
    if ltb (length announce_prefix_full) (length app_data)
      && starts_with app_data announce_prefix_full
    then (if is_utf8 (drop (length announce_prefix_full) app_data)
        then some (drop (length announce_prefix_full) app_data)
        else none)
    else none

pub record RpcRequest (Value : Type 0) : Type 0 where
  pub jsonrpc : Bytes
  pub id : ℕ
  pub method : Bytes
  pub params : Value

-- `code` is the 32 bits of an i32; the core only passes it on.
pub record RpcError : Type 0 where
  pub code : ℕ
  pub message : Bytes

pub record RpcResponse (Value : Type 0) : Type 0 where
  pub id : Option ℕ
  pub result : Option Value
  pub error : Option RpcError

pub record Codec : Type 1 where
  pub Value : Type 0
  pub null : Value
  pub to_vec : RpcRequest Value → Option Bytes
  pub from_slice : Bytes → Option (RpcResponse Value)
  pub deflate : Bytes → Option Bytes
  pub inflate : Bytes → Option Bytes

module _ (codec : Codec) where
  open codec use {Value, null, to_vec, from_slice, deflate, inflate}

  unfoldable pub compress_with : Bytes → Option Bytes → Bytes
  compress_with raw none = raw
  compress_with raw (some compressed) =
      if ltb (length compressed + length compress_magic) (length raw)
      then compress_magic ++ compressed
      else raw

  unfoldable pub compress_payload : Bytes → Bytes
  unfolding compress_with
  compress_payload raw = compress_with raw (deflate raw)

  unfoldable pub decompress_payload : Bytes → Option Bytes
  decompress_payload raw =
      if starts_with raw compress_magic
      then inflate (drop (length compress_magic) raw)
      else some raw

  unfoldable pub new_request : ℕ → Bytes → Value → RpcRequest Value
  new_request id method params = record {
    jsonrpc = b'2' ∷ b'.' ∷ b'0' ∷ [];
    id = id;
    method = method;
    params = params;
  }

  unfoldable pub to_bytes : RpcRequest Value → Bytes
  to_bytes request = elim (to_vec request) [ none ↦ [] | some bytes ↦ bytes ]

  -- `Err` on the left
  unfoldable pub into_result : RpcResponse Value → RpcError ⊎ Value
  into_result resp = elim resp.error [
    | some e ↦ inl e
    | none ↦ elim resp.result [ none ↦ inr null | some v ↦ inr v ]
  ]

  unfoldable pub parse_raw : Option Bytes → Option (RpcResponse Value)
  parse_raw none = none
  parse_raw (some raw) = from_slice raw

  unfoldable pub parse_rpc_response : Bytes → Option (RpcResponse Value)
  unfolding parse_raw decompress_payload
  parse_rpc_response raw = parse_raw (decompress_payload raw)
