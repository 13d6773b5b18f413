-- ===== src/Framing/Kiss/Stream.antt =====
-- The KISS deframer on any stream: chunks, and what a frame's command can be.
use lxmf_react_native_rust.Prelude.{
  ℕ, ◌≤◌, ◌≡◌, refl, sym, ap, ◌≢◌, true, false, List, [], ◌∷◌, ◌++◌, append-nil, append_assoc,
  arith, Bytes, length,
}
use lxmf_react_native_rust.Framing.Kiss.{KissDeframer, fend, sentinel, feed_byte, feed, is_empty}

-- Feeding a stream in two chunks leaves the same deframer, and yields the same frames, as feeding
-- it whole.
pub feed-append :
    (d : KissDeframer) (xs ys : Bytes)
    → feed d (xs ++ ys) ≡ ((feed (feed d xs).0 ys).0, (feed d xs).1 ++ (feed (feed d xs).0 ys).1)
unfolding feed
feed-append d [] ys = refl
feed-append d (x ∷ xs) ys = rw (feed-append (feed_byte d x).0 xs ys) (
    ap (λ l. ((feed (feed (feed_byte d x).0 xs).0 ys).0, l))
      (sym (append_assoc (feed_byte d x).1 _ _)))

-- While no command has been read, nothing has been collected.
pub record IsValid (d : KissDeframer) : Type 0 where
  pub nothing_before_command : d.in_frame ≡ true → d.command ≡ sentinel → d.buf ≡ []
  pub escape_in_frame : d.escape_next ≡ true → (d.in_frame ≡ true) × (d.command ≢ sentinel)

-- A frame has a command other than the sentinel, and at least one payload byte.
abbrev pub IsFrame : ℕ × Bytes → Type 0
IsFrame f = (f.0 ≢ sentinel) × (1 ≤ length f.1)

abbrev pub AllFrames : List (ℕ × Bytes) → Type 0
AllFrames [] = Unit {0}
AllFrames (f ∷ fs) = IsFrame f × AllFrames fs

AllFrames-append : (xs ys : List (ℕ × Bytes)) → AllFrames xs → AllFrames ys → AllFrames (xs ++ ys)
AllFrames-append [] ys h k = k
AllFrames-append (x ∷ xs) ys h k = (h.0, AllFrames-append xs ys h.1 k)

full_of_not_empty : (b : Bytes) → is_empty b ≡ false → 1 ≤ length b
full_of_not_empty [] h = cc
full_of_not_empty (x ∷ b) h = omega arith

empty_of_nil : (b : Bytes) → b ≡ [] → is_empty b ≡ true
empty_of_nil b h = ap is_empty h

feed_byte-IsValid : (d : KissDeframer) (b : ℕ) → IsValid d → IsValid (feed_byte d b).0
unfolding feed_byte
feed_byte-IsValid d b v = ground arith

feed_byte-AllFrames : (d : KissDeframer) (b : ℕ) → IsValid d → AllFrames (feed_byte d b).1
unfolding feed_byte
feed_byte-AllFrames d b v = ground (arith, full_of_not_empty d.buf, empty_of_nil d.buf)

-- From a valid deframer any stream leads to a valid one, and gives only frames whose command is not
-- the sentinel and whose payload is not empty.
pub feed-IsValid :
    (d : KissDeframer) (xs : Bytes) → IsValid d → IsValid (feed d xs).0 × AllFrames (feed d xs).1
unfolding feed
feed-IsValid d [] v = (v, tt)
feed-IsValid d (x ∷ xs) v =
    let (w, fs) = feed-IsValid (feed_byte d x).0 xs (feed_byte-IsValid d x v) in
    (w, AllFrames-append _ _ (feed_byte-AllFrames d x v) fs)

-- The command value 0xFF cannot be carried: a frame that starts with it is read as a frame whose
-- command is the byte behind it, here for a first byte `c` and a payload without special bytes.
abbrev pub Plain : Bytes → Type 0
Plain [] = Unit {0}
Plain (x ∷ xs) = (x ≢ fend) × (x ≢ 0xDB) × Plain xs

abbrev inside : ℕ → Bytes → KissDeframer
inside c b = record { buf = b; in_frame = true; escape_next = false; command = c }

feed_plain_byte :
    (c : ℕ) (b : Bytes) (x : ℕ)
    → c ≢ sentinel
    → x ≢ fend
    → x ≢ 0xDB
    → feed_byte (inside c b) x ≡ (inside c (b ++ (x ∷ [])), [])
unfolding feed_byte
feed_plain_byte c b x hc hx hy = ground arith

feed-Plain :
    (c : ℕ) (b p : Bytes) → c ≢ sentinel → Plain p → feed (inside c b) p ≡ (inside c (b ++ p), [])
unfolding feed
feed-Plain c b [] hc hp = rw append-nil refl
feed-Plain c b (x ∷ p) hc hp =
    rw
      (
        feed_plain_byte c b x hc hp.0 hp.1,
        feed-Plain c (b ++ (x ∷ [])) p hc hp.2,
        append_assoc b (x ∷ []) p,
      )
      refl

feed_open :
    (d : KissDeframer) (c : ℕ) (p : Bytes)
    → (d.in_frame ≡ false)
    → c ≢ fend
    → c ≢ sentinel
    → feed d (fend ∷ sentinel ∷ c ∷ p) ≡ feed (inside c []) p
unfolding feed feed_byte
feed_open d c p h hc hs = ground arith

feed_close :
    (c : ℕ) (x : ℕ) (p : Bytes)
    → feed (inside c (x ∷ p)) (fend ∷ []) ≡ (inside sentinel [], (c, x ∷ p) ∷ [])
unfolding feed feed_byte
feed_close c x p = refl

-- A new deframer returns a frame that carries the command byte 0xFF under the command `c`, which was
-- the first byte of its payload, and without that byte: for `c` other than FEND and 0xFF, and a
-- payload that goes on with at least one byte and has no FEND or FESC.
pub feed-sentinel_command :
    (c x : ℕ) (p : Bytes)
    → c ≢ fend
    → c ≢ sentinel
    → Plain (x ∷ p)
    → (feed
        (record { buf = []; in_frame = false; escape_next = false; command = 0 })
        (fend ∷ sentinel ∷ c ∷ (x ∷ p ++ (fend ∷ [])))).1
      ≡ (c, x ∷ p) ∷ []
feed-sentinel_command c x p hc hs hp =
    rw
      (
        feed_open (record { buf = []; in_frame = false; escape_next = false; command = 0 }) c
            (x ∷ p ++ (fend ∷ [])) refl hc hs,
        feed-append (inside c []) (x ∷ p) (fend ∷ []),
        feed-Plain c [] (x ∷ p) hs hp,
        feed_close c x p,
      )
      refl
