-- ===== src/Node/AppData/Cut.antt =====
-- Where `build_app_data` cuts a name: between two characters.
use lxmf_react_native_rust.Prelude.{
  ℕ, suc, ◌+◌, ◌≤◌, min, ◌≡◌, refl, sym, ap, ◌∙◌, inl, inr, Bool, true, false, List, [], ◌∷◌, ◌++◌,
  append_assoc, arith, Bytes, ltb, if◌then◌else◌, Bool-cases, length, take, length-append,
}
use lxmf_react_native_rust.Lxmf.Msgpack.Blobs.{take-length_append}
use lxmf_react_native_rust.Beacon.Wire.{announce_prefix_full}
use lxmf_react_native_rust.Node.AppData.{
  len_utf8, is_continuation, last_end, name_or_default, build_app_data,
}

abbrev AllContinuation : Bytes → Type 0
AllContinuation [] = Unit
AllContinuation (b ∷ bs) = (is_continuation b ≡ true) × AllContinuation bs

-- The bytes of one character: one that starts a character and says how many follow.
pub record Character : Type 0 where
  pub lead : ℕ
  pub tail : Bytes
  pub lead_starts : is_continuation lead ≡ false
  pub tail_continues : AllContinuation tail
  pub tail_length : suc (length tail) ≡ len_utf8 lead

abbrev pub bytes_of : Character → Bytes
bytes_of c = c.lead ∷ c.tail

abbrev pub text_of : List Character → Bytes
text_of [] = []
text_of (c ∷ cs) = bytes_of c ++ text_of cs

-- The characters that start before byte 32, the first of them at byte `i`.
abbrev pub early : ℕ → List Character → List Character
early i [] = []
early i (c ∷ cs) = if ltb i 32 then c ∷ early (i + len_utf8 c.lead) cs else []

last_end-late : (i last : ℕ) (bs : Bytes) → 32 ≤ i → last_end i last bs ≡ last
unfolding last_end
last_end-late i last [] h = refl
last_end-late i last (b ∷ bs) h = elim (Bool-cases (is_continuation b)) [
  | inl inside ↦ rw inside (last_end-late (suc i) last bs (omega (arith, h)))
  | inr start ↦ rw (start, late_byte) refl
]
  where
    late_byte : ltb i 32 ≡ false
    late_byte = ground (arith, h)

last_end-tail :
    (i last : ℕ) (tail rest : Bytes)
    → AllContinuation tail
    → last_end i last (tail ++ rest) ≡ last_end (i + length tail) last rest
unfolding last_end
last_end-tail i last [] rest a = ap (λ k. last_end k last rest) (omega arith)
last_end-tail i last (b ∷ bs) rest (h, a) = rw h (
    last_end-tail (suc i) last bs rest a
    ∙ ap (λ k. last_end k last rest) {x = suc i + length bs} {y = i + suc (length bs)}
        (omega arith))

length-bytes_of :
    (c : Character) (rest : Bytes) → length (bytes_of c ++ rest) ≡ len_utf8 c.lead + length rest
length-bytes_of c rest = omega (arith, length-append c.tail rest, c.tail_length)

last_end-early :
    (i : ℕ) (cs : List Character) → last_end i i (text_of cs) ≡ i + length (text_of (early i cs))
unfolding last_end
last_end-early i [] = omega arith
last_end-early i (c ∷ cs) = elim (Bool-cases (ltb i 32)) [
  | inl low ↦
      rw (c.lead_starts, low)
        (last_end-tail (suc i) (i + len_utf8 c.lead) c.tail (text_of cs) c.tail_continues
          ∙ ap (λ k. last_end k (i + len_utf8 c.lead) (text_of cs)) {x = suc i + length c.tail}
              {y = i + len_utf8 c.lead} (omega (arith, c.tail_length))
          ∙ last_end-early (i + len_utf8 c.lead) cs
          ∙ omega (arith, length-bytes_of c (text_of (early (i + len_utf8 c.lead) cs))))
  | inr high ↦ rw (c.lead_starts, high) (omega arith)
]

-- The characters behind those.
abbrev pub late : ℕ → List Character → List Character
late i [] = []
late i (c ∷ cs) = if ltb i 32 then late (i + len_utf8 c.lead) cs else c ∷ cs

early-late :
    (i : ℕ) (cs : List Character) → text_of cs ≡ text_of (early i cs) ++ text_of (late i cs)
early-late i [] = refl
early-late i (c ∷ cs) = elim (Bool-cases (ltb i 32)) [
  | inl low ↦ rw low (
      ap (λ t. bytes_of c ++ t) (early-late (i + len_utf8 c.lead) cs)
      ∙ sym (
          append_assoc (bytes_of c) (text_of (early (i + len_utf8 c.lead) cs))
            (text_of (late (i + len_utf8 c.lead) cs))))
  | inr high ↦ rw high refl
]

len_utf8-le : (b : ℕ) → len_utf8 b ≤ 4
unfolding len_utf8
len_utf8-le b = ground arith

length-early : (i : ℕ) (cs : List Character) → i ≤ 35 → i + length (text_of (early i cs)) ≤ 35
length-early i [] h = omega (arith, h)
length-early i (c ∷ cs) h = elim (Bool-cases (ltb i 32)) [
  | inl low ↦ rw low (
      omega (
        arith,
        length-bytes_of c (text_of (early (i + len_utf8 c.lead) cs)),
        length-early (i + len_utf8 c.lead) cs (ground (arith, len_utf8-le c.lead)),
      ))
  | inr high ↦ rw high (omega (arith, h))
]

-- The display name, or the default one for an empty name, is the text of some characters. Then the
-- announce has exactly those of them that start before byte 32, none of them cut, of 35 bytes at most
-- together; in front of them it has the 21-byte mark if it is a beacon's, and nothing else.
pub build_app_data-early :
    (display_name : Bytes) (is_beacon : Bool) (cs : List Character)
    → name_or_default display_name ≡ text_of cs
    → (build_app_data display_name is_beacon
        ≡ (if is_beacon then announce_prefix_full else []) ++ text_of (early 0 cs))
      × (length (text_of (early 0 cs)) ≤ 35)
      × (text_of cs ≡ text_of (early 0 cs) ++ text_of (late 0 cs))
unfolding build_app_data
build_app_data-early display_name is_beacon cs named =
    (marked is_beacon, omega (arith, length-early 0 cs (omega arith)), early-late 0 cs)
  where
    cut :
        let name = name_or_default display_name in
        take (min (last_end 0 0 name) (length name)) name ≡ text_of (early 0 cs)
    cut =
        ap (λ name. take (min (last_end 0 0 name) (length name)) name) named
        ∙ ap (λ k. take k (text_of cs)) {y = length (text_of (early 0 cs))}
            (omega (
              arith,
              last_end-early 0 cs,
              ap length (early-late 0 cs),
              length-append (text_of (early 0 cs)) (text_of (late 0 cs)),
            ))
        ∙ ap (take (length (text_of (early 0 cs)))) (early-late 0 cs)
        ∙ take-length_append (text_of (early 0 cs)) (text_of (late 0 cs))

    marked :
        (b : Bool)
        → build_app_data display_name b
          ≡ (if b then announce_prefix_full else []) ++ text_of (early 0 cs)
    marked true = ap (λ t. announce_prefix_full ++ t) cut
    marked false = cut
