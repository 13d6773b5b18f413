-- ===== src/Node/AppData.antt =====
-- rust-core/src/node.rs: `build_app_data`, the name in an announce. A name is its UTF-8 bytes.
pub mod Cut
use lxmf_react_native_rust.Prelude.{
  ℕ, suc, ◌+◌, ◌≤◌, ◌<◌, min, Bool, true, false, ◌&&◌, [], ◌∷◌, ◌++◌, arith, Bytes, ltb, leb,
  if◌then◌else◌, length, take, length-append, length-take,
}
use lxmf_react_native_rust.Beacon.Wire.{announce_prefix_full}

-- "lxmf-mobile"
abbrev pub default_name : Bytes
default_name = b'l' ∷ b'x' ∷ b'm' ∷ b'f' ∷ b'-' ∷ b'm' ∷ b'o' ∷ b'b' ∷ b'i' ∷ b'l' ∷ b'e' ∷ []

-- The length of the character that starts with the byte.
unfoldable pub len_utf8 : ℕ → ℕ
len_utf8 b = if ltb b 0x80 then 1 else (if ltb b 0xe0 then 2 else (if ltb b 0xf0 then 3 else 4))

-- A byte inside a character.
unfoldable pub is_continuation : ℕ → Bool
is_continuation b = leb 0x80 b && ltb b 0xc0

-- The end of the last character that starts before byte 32; `i` is the position, `last` the end so
-- far.
unfoldable pub last_end : ℕ → ℕ → Bytes → ℕ
unfolding len_utf8 is_continuation
last_end i last [] = last
last_end i last (b ∷ bs) =
    let inside = last_end (suc i) last bs in
    let next = last_end (suc i) (i + len_utf8 b) bs in
    if is_continuation b then inside else (if ltb i 32 then next else last)

unfoldable pub name_or_default : Bytes → Bytes
name_or_default [] = default_name
name_or_default (b ∷ bs) = b ∷ bs

unfoldable pub build_app_data : Bytes → Bool → Bytes
unfolding last_end name_or_default
build_app_data display_name is_beacon =
    let name = name_or_default display_name in
    let name_bytes = take (min (last_end 0 0 name) (length name)) name in
    if is_beacon then announce_prefix_full ++ name_bytes else name_bytes
