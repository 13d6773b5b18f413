-- ===== src/Framing/Hdlc/RoundTrip.antt =====
-- `HdlcDeframer::feed` reads back what `hdlc_encode` wrote.
use lxmf_react_native_rust.Prelude.{
  ℕ, ◌+◌, ◌*◌, ◌≤◌, ◌≡◌, refl, ◌≢◌, true, false, not, ◌&&◌, List, [], ◌∷◌, ◌++◌, append-nil,
  append_assoc, arith, Bytes, if◌then◌else◌, length, length-append,
}
use lxmf_react_native_rust.Framing.Hdlc.{
  HdlcDeframer, new, flag, stuff_byte, stuff, hdlc_encode, feed_byte, feed, is_empty,
}
use lxmf_react_native_rust.Framing.Hdlc.Stream.{feed-append}

-- A deframer inside a frame with `b` collected.
abbrev pub collecting : Bytes → HdlcDeframer
collecting b = record { buf = b; in_frame = true; escape_next = false }

-- What an opening flag flushes: the unfinished frame that the deframer held.
abbrev pub flushed : HdlcDeframer → List Bytes
flushed d = if d.in_frame && not (is_empty d.buf) then d.buf ∷ [] else []

feed-stuff_byte :
    (b : Bytes) (x : ℕ) → feed (collecting b) (stuff_byte x) ≡ (collecting (b ++ (x ∷ [])), [])
unfolding feed feed_byte stuff_byte
feed-stuff_byte b x = ground arith

feed-stuff : (b p : Bytes) → feed (collecting b) (stuff p) ≡ (collecting (b ++ p), [])
unfolding stuff
feed-stuff b [] = rw append-nil (unfold feed in refl)
feed-stuff b (x ∷ p) =
    rw (feed-append (collecting b) (stuff_byte x) (stuff p), feed-stuff_byte b x)
      (rw (feed-stuff (b ++ (x ∷ [])) p, append_assoc b (x ∷ []) p) refl)

feed-flag : (d : HdlcDeframer) → feed d (flag ∷ []) ≡ (collecting [], flushed d)
unfolding feed feed_byte
feed-flag d = ground (arith, append-nil (flushed d))

-- Whatever the deframer held, a frame gives: what the opening flag flushes, then the payload if it
-- is not empty; and the deframer is ready for the next frame.
pub feed-hdlc_encode :
    (d : HdlcDeframer) (p : Bytes)
    → feed d (hdlc_encode p) ≡ (collecting [], flushed d ++ flushed (collecting p))
unfolding hdlc_encode
feed-hdlc_encode d p =
    rw
      (
        feed-append d (flag ∷ []) (stuff p ++ (flag ∷ [])),
        feed-flag d,
        feed-append (collecting []) (stuff p) (flag ∷ []),
        feed-stuff [] p,
        feed-flag (collecting p),
      )
      refl

-- The frames of a list of payloads, one after the other.
unfoldable pub encode_all : List Bytes → Bytes
encode_all [] = []
encode_all (p ∷ ps) = hdlc_encode p ++ encode_all ps

-- The payloads that are not empty.
abbrev pub full : List Bytes → List Bytes
full [] = []
full (p ∷ ps) = flushed (collecting p) ++ full ps

feed-encode_all_from :
    (ps : List Bytes) → feed (collecting []) (encode_all ps) ≡ (collecting [], full ps)
unfolding encode_all
feed-encode_all_from [] = unfold feed in refl
feed-encode_all_from (p ∷ ps) =
    rw
      (
        feed-append (collecting []) (hdlc_encode p) (encode_all ps),
        feed-hdlc_encode (collecting []) p,
        feed-encode_all_from ps,
      )
      refl

-- A new deframer reads from a stream of frames exactly their payloads in order, less the empty ones.
pub feed-encode_all : (ps : List Bytes) → (feed new (encode_all ps)).1 ≡ full ps
unfolding encode_all
feed-encode_all [] = unfold feed in refl
feed-encode_all (p ∷ ps) =
    rw
      (
        feed-append new (hdlc_encode p) (encode_all ps),
        feed-hdlc_encode new p,
        feed-encode_all_from ps,
      )
      refl

-- After any bytes, whatever the deframer held, the frames that follow are not lost: their payloads
-- come out in order, less the empty ones, behind what the bytes in front gave and the unfinished
-- frame that they left, if any; and the deframer is ready for the next frame.
pub feed-resync :
    (d : HdlcDeframer) (noise p : Bytes) (ps : List Bytes)
    → let before = feed d noise in
      feed d (noise ++ encode_all (p ∷ ps))
      ≡ (collecting [], before.1 ++ (flushed before.0 ++ full (p ∷ ps)))
unfolding encode_all
feed-resync d noise p ps =
    let before = feed d noise in
    rw
      (
        feed-append d noise (hdlc_encode p ++ encode_all ps),
        feed-append before.0 (hdlc_encode p) (encode_all ps),
        feed-hdlc_encode before.0 p,
        feed-encode_all_from ps,
        append_assoc (flushed before.0) (flushed (collecting p)) (full ps),
      )
      refl

-- No flag byte.
abbrev pub Unflagged : Bytes → Type 0
Unflagged [] = Unit {0}
Unflagged (x ∷ xs) = (x ≢ flag) × Unflagged xs

Unflagged-append : (xs ys : Bytes) → Unflagged xs → Unflagged ys → Unflagged (xs ++ ys)
Unflagged-append [] ys h k = k
Unflagged-append (x ∷ xs) ys h k = (h.0, Unflagged-append xs ys h.1 k)

stuff_byte_shape :
    (x : ℕ) → Unflagged (stuff_byte x) × (1 ≤ length (stuff_byte x)) × (length (stuff_byte x) ≤ 2)
unfolding stuff_byte
stuff_byte_shape x = ground arith

-- Between its two flags an encoded frame has no flag byte, and is at most twice the payload long.
pub stuff_shape :
    (p : Bytes)
    → (hdlc_encode p ≡ flag ∷ (stuff p ++ (flag ∷ [])))
      × Unflagged (stuff p)
      × (length p + 2 ≤ length (hdlc_encode p))
      × (length (hdlc_encode p) ≤ 2 * length p + 2)
unfolding stuff hdlc_encode
stuff_shape [] = (refl, tt, omega arith, omega arith)
stuff_shape (x ∷ p) =
    let (e, u, lo, hi) = stuff_shape p in
    let (v, one, two) = stuff_byte_shape x in
    (
      refl,
      Unflagged-append (stuff_byte x) (stuff p) v u,
      omega (
        arith,
        length-append (stuff_byte x ++ stuff p) (flag ∷ []),
        length-append (stuff p) (flag ∷ []),
        length-append (stuff_byte x) (stuff p),
      ),
      omega (
        arith,
        length-append (stuff_byte x ++ stuff p) (flag ∷ []),
        length-append (stuff p) (flag ∷ []),
        length-append (stuff_byte x) (stuff p),
      ),
    )
