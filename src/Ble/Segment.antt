-- ===== src/Ble/Segment.antt =====
-- rust-core/src/ble_iface.rs: `segment`, `segment_with_payload` and the reassembly of a peer's
-- segments. `as u8` is `% 256`.
pub mod Split
use lxmf_react_native_rust.Prelude.{
  ℕ, zero, suc, ◌+◌, ◌-◌, ◌*◌, ◌/◌, ◌%◌, ◌^◌, ◌≤◌, ◌<◌, min, max, ◌≡◌, refl, sym, ap, ap₂, ◌∙◌, ◌≢◌,
  ◌↔◌, ◌⊎◌, inl, inr, Bool, true, false, not, ◌&&◌, ◌||◌, Option, none, some, List, [], ◌∷◌, ◌++◌,
  map, append-nil, append_assoc, arith, Bytes, IsByte, ltb, leb, ◌==◌, if◌then◌else◌, ltb→lt,
  lt→ltb, leb→le, le→leb, ==_iff, Bool-cases, Option-cases, bytes_eq, bytes_eq→eq, bytes_eq_refl,
  starts_with, starts_with-append, length, get_elem?, set, get_or, take, drop, replicate,
  length-append, length-take, length-drop, length-replicate, length-map, length-set,
  take-append-drop, get_elem?-set_self, get_elem?-set_ne,
}

abbrev pub ble_mtu : ℕ
ble_mtu = 244

abbrev pub seg_header : ℕ
seg_header = 2

abbrev pub seg_payload : ℕ
seg_payload = ble_mtu - seg_header

-- `xs.chunks(n)` for n ≥ 1; each round takes a byte at least, so `length xs` rounds are enough.
unfoldable pub chunks_loop : ℕ → ℕ → Bytes → List Bytes
chunks_loop fuel n [] = []
chunks_loop zero n (x ∷ xs) = []
chunks_loop (suc fuel) n (x ∷ xs) = take n (x ∷ xs) ∷ chunks_loop fuel n (drop n (x ∷ xs))

unfoldable pub chunks : ℕ → Bytes → List Bytes
unfolding chunks_loop
chunks n xs = chunks_loop (length xs) n xs

-- `.enumerate().map(..)`: the frames from index `idx` on.
unfoldable pub number : ℕ → ℕ → List Bytes → List Bytes
number idx total_segs [] = []
number idx total_segs (chunk ∷ rest) =
    (idx % 256 ∷ total_segs % 256 ∷ chunk) ∷ number (idx + 1) total_segs rest

abbrev pub segs_of : ℕ → ℕ → ℕ
segs_of len n = (len + n - 1) / n

unfoldable pub segment_with_payload : Bytes → ℕ → List Bytes
unfolding chunks number
segment_with_payload payload seg_size =
    if leb (length payload) seg_size
    then (0 ∷ 1 ∷ payload) ∷ []
    else number 0 (segs_of (length payload) seg_size) (chunks seg_size payload)

unfoldable pub segment : Bytes → List Bytes
unfolding chunks number
segment payload =
    if leb (length payload) ble_mtu
    then (0 ∷ 1 ∷ payload) ∷ []
    else number 0 (segs_of (length payload) seg_payload) (chunks seg_payload payload)

pub record PeerAssembly : Type 0 where
  pub total_segs : ℕ
  pub slots : List (Option Bytes)

unfoldable pub new : ℕ → PeerAssembly
new total = record { total_segs = total; slots = replicate total none }

-- The payload, when every slot is filled.
abbrev pub joined : List (Option Bytes) → Option Bytes
joined [] = some []
joined (none ∷ rest) = none
joined (some p ∷ rest) = elim (joined rest) [ none ↦ none | some q ↦ some (p ++ q) ]

unfoldable pub push : PeerAssembly → ℕ → Bytes → PeerAssembly × Option Bytes
push a idx payload =
    if leb (length a.slots) idx
    then (a, none)
    else (let filled = set a.slots idx (some payload) in
        (record a { slots = filled }, joined filled))
