-- ===== src/Lxmf/Payload.antt =====
-- rust-core/src/node.rs: `encode_lxmf_msgpack`, `decode_lxmf_payload`, `verify_lxmf_signature`,
-- `looks_like_rpc_response`, `lxmf_event_from_bytes`, and the signed payload that `send_to` and
-- `send_group` build. The bits of the f64 timestamp are a number below 2 ^ 64. Signatures belong to
-- ed25519_dalek and rns-transport: `sign` and `verify` are parameters.
pub mod RoundTrip
pub mod Signed
use lxmf_react_native_rust.Prelude.{
  subst, ℕ, zero, suc, ◌+◌, ◌-◌, ◌*◌, ◌/◌, ◌%◌, ◌^◌, ◌≤◌, ◌<◌, min, max, ◌≡◌, refl, sym, ap, ap₂,
  ◌∙◌, ◌≢◌, ◌↔◌, ◌⊎◌, inl, inr, Bool, true, false, not, ◌&&◌, ◌||◌, Option, none, some, List, [],
  ◌∷◌, ◌++◌, map, append-nil, append_assoc, arith, Bytes, IsByte, ltb, leb, ◌==◌, if◌then◌else◌,
  ltb→lt, lt→ltb, leb→le, le→leb, ==_iff, Bool-cases, Option-cases, bytes_eq, bytes_eq→eq,
  bytes_eq_refl, starts_with, starts_with-append, length, get_elem?, set, get_or, take, drop,
  replicate, length-append, length-take, length-drop, length-replicate, length-map, length-set,
  take-append-drop, get_elem?-set_self, get_elem?-set_ne,
}
use lxmf_react_native_rust.Prelude.Map.{Eq, bytes_Eq, lookup}
use lxmf_react_native_rust.Lxmf.Msgpack.{Read, mp_read_bytes, mp_bin}
use lxmf_react_native_rust.Lxmf.Fields.{Named, Media, mp_read_lxmf_fields}

-- `to_be_bytes` of a u64
unfoldable pub be_u64 : ℕ → Bytes
be_u64 n =
    n / 2 ^ 56 % 256
    ∷ n / 2 ^ 48 % 256
    ∷ n / 2 ^ 40 % 256
    ∷ n / 2 ^ 32 % 256
    ∷ n / 2 ^ 24 % 256
    ∷ n / 2 ^ 16 % 256
    ∷ n / 2 ^ 8 % 256
    ∷ n % 256
    ∷ []

unfoldable pub encode_lxmf_msgpack : ℕ → Bytes → Bytes → Bytes → Bytes
unfolding be_u64
encode_lxmf_msgpack timestamp title content fields_mp =
    0x94 ∷ 0xcb ∷ (be_u64 timestamp ++ (mp_bin title ++ (mp_bin content ++ fields_mp)))

pub record DecodedLxmf : Type 0 where
  pub title : Bytes
  pub body : Bytes
  pub image : Option Named
  pub files : List Named

unfoldable pub unwrap_or_default : Option Bytes → Bytes
unwrap_or_default none = []
unwrap_or_default (some b) = b

unfoldable pub decode_rest : Bytes → Read Bytes → DecodedLxmf
decode_rest title (body, i) =
    let m = mp_read_lxmf_fields i in
    record { title = title; body = unwrap_or_default body; image = m.image; files = m.files }

unfoldable pub decode_title : Read Bytes → DecodedLxmf
unfolding decode_rest
decode_title (title, i) = decode_rest (unwrap_or_default title) (mp_read_bytes i)

-- The msgpack part: an array of four, of which the first is a float64.
unfoldable pub decode_msgpack : Bytes → Option DecodedLxmf
unfolding decode_title unwrap_or_default
decode_msgpack (a ∷ b ∷ rest) =
    if a == 0x94 && b == 0xcb then some (decode_title (mp_read_bytes (drop 8 rest))) else none
decode_msgpack short = none

unfoldable pub decode_lxmf_payload : Bytes → Option DecodedLxmf
unfolding decode_msgpack
decode_lxmf_payload payload =
    if ltb (length payload) 97 then none else decode_msgpack (drop 96 payload)

-- JSON starts with `{`, a compressed payload with NUL, `z`, `l`.
unfoldable pub looks_like_rpc_response : Bytes → Bool
looks_like_rpc_response payload =
    ltb (length payload) 97
    || starts_with payload (b'{' ∷ [])
    || starts_with payload (0 ∷ b'z' ∷ b'l' ∷ [])

-- `LxmfEvent::MessageReceived`
pub record Message : Type 0 where
  pub source : Bytes
  pub title : Bytes
  pub body : Bytes
  pub image : Option Named
  pub files : List Named
  pub timestamp : ℕ
  pub group_dest : Option Bytes

unfoldable pub event_of : Bytes → Bytes → ℕ → Option Bytes → Option DecodedLxmf → Message
event_of src raw ts group_dest none = record {
  source = src;
  title = [];
  body = raw;
  image = none;
  files = [];
  timestamp = ts;
  group_dest = group_dest;
}
event_of src raw ts group_dest (some dec) = record {
  source = src;
  title = dec.title;
  body = dec.body;
  image = dec.image;
  files = dec.files;
  timestamp = ts;
  group_dest = group_dest;
}

-- `ts` is the clock's second count.
unfoldable pub lxmf_event_from_bytes : Bytes → Bytes → Option Bytes → ℕ → Message
unfolding event_of
lxmf_event_from_bytes src raw group_dest ts =
    event_of src raw ts group_dest (decode_lxmf_payload raw)

module _ {Identity : Type 0} (verify : Identity → Bytes → Bytes → Bool) where
  unfoldable pub verdict : Option Identity → Bytes → Option Bool
  verdict none payload = none
  verdict (some identity) payload =
      some (verify identity (take 32 payload ++ drop 96 payload) (take 64 (drop 32 payload)))

  -- A slice of 64 bytes always is a `Signature`, so that error path is not taken.
  unfoldable pub verify_lxmf_signature : Bytes → List (Bytes × Identity) → Option Bool
  unfolding verdict
  verify_lxmf_signature payload peer_identities =
      if ltb (length payload) 97
      then some false
      else verdict (lookup (take 16 (drop 16 payload)) peer_identities) payload

-- The payload that `send_to` and `send_group` put together; `sign` gives 64 bytes.
unfoldable pub signed_payload : (Bytes → Bytes) → Bytes → Bytes → Bytes → Bytes
signed_payload sign dest source msgpack =
    dest ++ (source ++ (sign (dest ++ (source ++ msgpack)) ++ msgpack))
