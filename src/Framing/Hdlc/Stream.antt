-- ===== src/Framing/Hdlc/Stream.antt =====
-- The HDLC deframer on any stream: how the stream is split does not matter, no frame is empty,
-- and no byte is made up.
use Prim.Native.Nat.{bit_xor}
use lxmf_react_native_rust.Prelude.{
  List, [], ◌∷◌, ◌++◌, Bytes, ℕ, ◌+◌, ◌≤◌, ◌≡◌, refl, sym, ap, false, arith, append_assoc, length,
  length-append,
}
use lxmf_react_native_rust.Framing.Hdlc.{HdlcDeframer, feed_byte, feed, is_empty}

-- Feeding a stream in two chunks leaves the same deframer, and yields the same frames, as feeding
-- it whole.
pub feed-append :
    (d : HdlcDeframer) (xs ys : Bytes)
    → feed d (xs ++ ys) ≡ ((feed (feed d xs).0 ys).0, (feed d xs).1 ++ (feed (feed d xs).0 ys).1)
unfolding feed
feed-append d [] ys = refl
feed-append d (x ∷ xs) ys = rw (feed-append (feed_byte d x).0 xs ys) (
    ap (λ l. ((feed (feed (feed_byte d x).0 xs).0 ys).0, l))
      (sym (append_assoc (feed_byte d x).1 _ _)))

-- Bytes held in completed frames.
abbrev pub total : List Bytes → ℕ
total [] = 0
total (f ∷ fs) = length f + total fs

total-append : (xs ys : List Bytes) → total (xs ++ ys) ≡ total xs + total ys
total-append [] ys = omega arith
total-append (x ∷ xs) ys = omega (arith, total-append xs ys)

feed_byte-total :
    (d : HdlcDeframer) (b : ℕ)
    → length (feed_byte d b).0.buf + total (feed_byte d b).1 ≤ length d.buf + 1
unfolding feed_byte
feed_byte-total d b =
    ground (arith, length-append d.buf (b ∷ []), length-append d.buf (bit_xor b 0x20 ∷ []))

-- The deframer never holds or returns more bytes than it was fed.
pub feed-total-le :
    (d : HdlcDeframer) (xs : Bytes)
    → length (feed d xs).0.buf + total (feed d xs).1 ≤ length d.buf + length xs
unfolding feed
feed-total-le d [] = omega arith
feed-total-le d (x ∷ xs) = omega (
  arith,
  feed-total-le (feed_byte d x).0 xs,
  feed_byte-total d x,
  total-append (feed_byte d x).1 (feed (feed_byte d x).0 xs).1,
)

abbrev pub AllFull : List Bytes → Type 0
AllFull [] = Unit {0}
AllFull (f ∷ fs) = (1 ≤ length f) × AllFull fs

AllFull-append : (xs ys : List Bytes) → AllFull xs → AllFull ys → AllFull (xs ++ ys)
AllFull-append [] ys h k = k
AllFull-append (x ∷ xs) ys h k = (h.0, AllFull-append xs ys h.1 k)

full_of_not_empty : (b : Bytes) → is_empty b ≡ false → 1 ≤ length b
full_of_not_empty [] h = cc
full_of_not_empty (x ∷ b) h = omega arith

feed_byte-AllFull : (d : HdlcDeframer) (b : ℕ) → AllFull (feed_byte d b).1
unfolding feed_byte
feed_byte-AllFull d b = ground (arith, full_of_not_empty d.buf)

-- No frame that the deframer returns is empty.
pub feed-AllFull : (d : HdlcDeframer) (xs : Bytes) → AllFull (feed d xs).1
unfolding feed
feed-AllFull d [] = tt
feed-AllFull d (x ∷ xs) =
    AllFull-append _ _ (feed_byte-AllFull d x) (feed-AllFull (feed_byte d x).0 xs)
