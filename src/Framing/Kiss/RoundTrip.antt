-- ===== src/Framing/Kiss/RoundTrip.antt =====
-- `KissDeframer::feed` reads back what `kiss_encode` wrote.
use lxmf_react_native_rust.Prelude.{
  ℕ, ◌*◌, ◌≤◌, ◌≡◌, refl, true, false, not, ◌&&◌, List, [], ◌∷◌, ◌++◌, append-nil, append_assoc,
  arith, Bytes, if◌then◌else◌, length, length-append,
}
use lxmf_react_native_rust.Framing.Kiss.{
  KissDeframer, new, fend, cmd_data, sentinel, stuff_byte, stuff, kiss_encode, feed_byte, feed,
  is_empty,
}
use lxmf_react_native_rust.Framing.Kiss.Stream.{feed-append}

-- A deframer inside a frame of command `c` with `b` collected.
abbrev pub collecting : ℕ → Bytes → KissDeframer
collecting c b = record { buf = b; in_frame = true; escape_next = false; command = c }

-- What an opening FEND flushes: the unfinished frame that the deframer held.
abbrev pub flushed : KissDeframer → List (ℕ × Bytes)
flushed d = if d.in_frame && not (is_empty d.buf) then (d.command, d.buf) ∷ [] else []

feed-stuff_byte :
    (b : Bytes) (x : ℕ)
    → feed (collecting cmd_data b) (stuff_byte x) ≡ (collecting cmd_data (b ++ (x ∷ [])), [])
unfolding feed feed_byte stuff_byte
feed-stuff_byte b x = ground arith

feed-stuff :
    (b p : Bytes) → feed (collecting cmd_data b) (stuff p) ≡ (collecting cmd_data (b ++ p), [])
unfolding stuff
feed-stuff b [] = rw append-nil (unfold feed in refl)
feed-stuff b (x ∷ p) =
    rw (feed-append (collecting cmd_data b) (stuff_byte x) (stuff p), feed-stuff_byte b x)
      (rw (feed-stuff (b ++ (x ∷ [])) p, append_assoc b (x ∷ []) p) refl)

feed_open : (d : KissDeframer) → feed d (fend ∷ cmd_data ∷ []) ≡ (collecting cmd_data [], flushed d)
unfolding feed feed_byte
feed_open d = ground (arith, append-nil (flushed d))

feed_close :
    (c : ℕ) (b : Bytes)
    → feed (collecting c b) (fend ∷ []) ≡ (collecting sentinel [], flushed (collecting c b))
unfolding feed feed_byte
feed_close c b = ground (arith, append-nil (flushed (collecting c b)))

-- Whatever the deframer held, a frame gives: what its opening FEND flushes, then command 0 with the
-- payload if that is not empty; and the deframer waits for the command of the next frame.
pub feed-kiss_encode :
    (d : KissDeframer) (p : Bytes)
    → feed d (kiss_encode p)
      ≡ (collecting sentinel [], flushed d ++ flushed (collecting cmd_data p))
unfolding kiss_encode
feed-kiss_encode d p =
    rw
      (
        feed-append d (fend ∷ cmd_data ∷ []) (stuff p ++ (fend ∷ [])),
        feed_open d,
        feed-append (collecting cmd_data []) (stuff p) (fend ∷ []),
        feed-stuff [] p,
        feed_close cmd_data p,
      )
      refl

-- The frames of a list of payloads, one after the other.
unfoldable pub encode_all : List Bytes → Bytes
encode_all [] = []
encode_all (p ∷ ps) = kiss_encode p ++ encode_all ps

-- The payloads that are not empty, each with the data command.
abbrev pub full : List Bytes → List (ℕ × Bytes)
full [] = []
full (p ∷ ps) = flushed (collecting cmd_data p) ++ full ps

feed-encode_all_from :
    (ps : List Bytes)
    → feed (collecting sentinel []) (encode_all ps) ≡ (collecting sentinel [], full ps)
unfolding encode_all
feed-encode_all_from [] = unfold feed in refl
feed-encode_all_from (p ∷ ps) =
    rw
      (
        feed-append (collecting sentinel []) (kiss_encode p) (encode_all ps),
        feed-kiss_encode (collecting sentinel []) p,
        feed-encode_all_from ps,
      )
      refl

-- A new deframer reads from a stream of KISS frames exactly their payloads in order, less the empty
-- ones, each under the data command.
pub feed-encode_all_kiss : (ps : List Bytes) → (feed new (encode_all ps)).1 ≡ full ps
unfolding encode_all
feed-encode_all_kiss [] = unfold feed in refl
feed-encode_all_kiss (p ∷ ps) =
    rw
      (
        feed-append new (kiss_encode p) (encode_all ps),
        feed-kiss_encode new p,
        feed-encode_all_from ps,
      )
      refl

stuff_byte_shape : (x : ℕ) → (1 ≤ length (stuff_byte x)) × (length (stuff_byte x) ≤ 2)
unfolding stuff_byte
stuff_byte_shape x = ground arith

pub length-stuff : (p : Bytes) → (length p ≤ length (stuff p)) × (length (stuff p) ≤ 2 * length p)
unfolding stuff
length-stuff [] = omega arith
length-stuff (x ∷ p) =
    omega (arith, length-stuff p, stuff_byte_shape x, length-append (stuff_byte x) (stuff p))
