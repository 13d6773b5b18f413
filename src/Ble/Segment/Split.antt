-- ===== src/Ble/Segment/Split.antt =====
-- What `segment_with_payload` and `segment` put on the air: which bytes, how many frames, how long.
use lxmf_react_native_rust.Prelude.{
  ℕ, zero, suc, ◌+◌, ◌-◌, ◌/◌, ◌≤◌, ◌<◌, ◌≡◌, refl, sym, ap, ◌∙◌, inl, inr, List, [], ◌∷◌, ◌++◌,
  append-nil, arith, Bytes, leb, leb→le, le→leb, Bool-cases, length, drop, length-take, length-drop,
  take-append-drop,
}
use native.Mathlib.Nat.{div-eq_of_lt, add-div_right}
use lxmf_react_native_rust.Ble.Segment.{
  ble_mtu, seg_header, chunks_loop, chunks, number, segs_of, segment_with_payload, segment,
}

-- The chunks one after the other.
abbrev pub flat : List Bytes → Bytes
flat [] = []
flat (c ∷ cs) = c ++ flat cs

chunks_loop-flat :
    (fuel n : ℕ) (xs : Bytes) → 0 < n → length xs ≤ fuel → flat (chunks_loop fuel n xs) ≡ xs
unfolding chunks_loop
chunks_loop-flat fuel n [] hn h = refl
chunks_loop-flat zero n (x ∷ xs) hn h = absurd (omega arith)
chunks_loop-flat (suc fuel) n (x ∷ xs) hn h =
    rw (chunks_loop-flat fuel n (drop n (x ∷ xs)) hn (omega (arith, length-drop n (x ∷ xs))))
      (take-append-drop n (x ∷ xs))

pub chunks-flat : (n : ℕ) (xs : Bytes) → 0 < n → flat (chunks n xs) ≡ xs
unfolding chunks
chunks-flat n xs hn = chunks_loop-flat (length xs) n xs hn (omega arith)

-- Every frame holds at most `k` bytes.
abbrev pub AllAtMost : ℕ → List Bytes → Type 0
AllAtMost k [] = Unit {0}
AllAtMost k (c ∷ cs) = (length c ≤ k) × AllAtMost k cs

chunks_loop-AllAtMost : (fuel n : ℕ) (xs : Bytes) → AllAtMost n (chunks_loop fuel n xs)
unfolding chunks_loop
chunks_loop-AllAtMost fuel n [] = tt
chunks_loop-AllAtMost zero n (x ∷ xs) = tt
chunks_loop-AllAtMost (suc fuel) n (x ∷ xs) =
    (omega (arith, length-take n (x ∷ xs)), chunks_loop-AllAtMost fuel n (drop n (x ∷ xs)))

segs_pred : (len n : ℕ) → 0 < n → 0 < len → (len - 1) / n ≡ (len - n + n - 1) / n
segs_pred len n hn hl = elim (Bool-cases (leb n len)) [
  | inl le ↦ ap (λ k. k / n) (ground arith)
  | inr gt ↦ div-eq_of_lt (ground arith) ∙ sym (div-eq_of_lt (ground arith))
]

segs_step : (len n : ℕ) → 0 < n → 0 < len → segs_of len n ≡ suc (segs_of (len - n) n)
segs_step len n hn hl =
    ap (λ k. k / n) (omega arith)
    ∙ add-div_right (len - 1) hn
    ∙ omega (arith, segs_pred len n hn hl)

chunks_loop-length :
    (fuel n : ℕ) (xs : Bytes)
    → 0 < n
    → length xs ≤ fuel
    → length (chunks_loop fuel n xs) ≡ segs_of (length xs) n
unfolding chunks_loop
chunks_loop-length fuel n [] hn h = sym (div-eq_of_lt (omega arith))
chunks_loop-length zero n (x ∷ xs) hn h = absurd (omega arith)
chunks_loop-length (suc fuel) n (x ∷ xs) hn h =
    ap suc (
      chunks_loop-length fuel n (drop n (x ∷ xs)) hn (omega (arith, length-drop n (x ∷ xs)))
      ∙ ap (λ k. segs_of k n) (length-drop n (x ∷ xs)))
    ∙ sym (segs_step (suc (length xs)) n hn (omega arith))

pub chunks-length : (n : ℕ) (xs : Bytes) → 0 < n → length (chunks n xs) ≡ segs_of (length xs) n
unfolding chunks
chunks-length n xs hn = chunks_loop-length (length xs) n xs hn (omega arith)

-- The payloads of the frames: each less its two header bytes.
abbrev pub payloads : List Bytes → List Bytes
payloads [] = []
payloads (f ∷ fs) = drop 2 f ∷ payloads fs

payloads-number : (idx total : ℕ) (cs : List Bytes) → payloads (number idx total cs) ≡ cs
unfolding number
payloads-number idx total [] = refl
payloads-number idx total (c ∷ cs) = ap (◌∷◌ c) (payloads-number (idx + 1) total cs)

number-AllAtMost :
    (idx total k : ℕ) (cs : List Bytes) → AllAtMost k cs → AllAtMost (k + 2) (number idx total cs)
unfolding number
number-AllAtMost idx total k [] h = tt
number-AllAtMost idx total k (c ∷ cs) h =
    (omega (arith, h.0), number-AllAtMost (idx + 1) total k cs h.1)

-- `segment_with_payload` loses nothing: the frames carry, after their headers, the bytes of the
-- payload in order, and no frame is longer than `n` plus the header.
pub segment_with_payload_lem :
    (xs : Bytes) (n : ℕ)
    → 0 < n
    → (flat (payloads (segment_with_payload xs n)) ≡ xs)
      × AllAtMost (n + seg_header) (segment_with_payload xs n)
unfolding segment_with_payload
segment_with_payload_lem xs n hn = elim (Bool-cases (leb (length xs) n)) [
  | inl short ↦ rw short (append-nil xs, (omega (arith, leb→le _ _ short), tt))
  | inr long ↦ rw long (
    ap flat (payloads-number 0 (segs_of (length xs) n) (chunks n xs)) ∙ chunks-flat n xs hn,
    number-AllAtMost 0 (segs_of (length xs) n) n (chunks n xs)
        (unfold chunks in chunks_loop-AllAtMost (length xs) n xs),
  )
]

-- `segment` is not held to the MTU it names: a payload of 243 or 244 bytes goes out as one frame of
-- more than `BLE_MTU` bytes.
pub segment_over_mtu :
    (xs : Bytes)
    → ble_mtu - seg_header < length xs
    → length xs ≤ ble_mtu
    → (f : Bytes) × (segment xs ≡ f ∷ []) × (ble_mtu < length f)
unfolding segment
segment_over_mtu xs lo hi = (0 ∷ 1 ∷ xs, rw (le→leb (length xs) ble_mtu hi) refl, omega arith)
