-- ===== src/Framing/Kiss.antt =====
-- rust-core/src/framing.rs, the KISS half: `kiss_encode`, `KissDeframer`.
-- A call of `feed` returns the new deframer and the (command, payload) pairs that it pushed.
pub mod Stream
pub mod RoundTrip
use lxmf_react_native_rust.Prelude.{
  ℕ, zero, suc, ◌+◌, ◌-◌, ◌*◌, ◌/◌, ◌%◌, ◌^◌, ◌≤◌, ◌<◌, min, max, ◌≡◌, refl, sym, ap, ap₂, ◌∙◌, ◌≢◌,
  ◌↔◌, ◌⊎◌, inl, inr, Bool, true, false, not, ◌&&◌, ◌||◌, Option, none, some, List, [], ◌∷◌, ◌++◌,
  map, append-nil, append_assoc, arith, Bytes, IsByte, ltb, leb, ◌==◌, if◌then◌else◌, ltb→lt,
  lt→ltb, leb→le, le→leb, ==_iff, Bool-cases, Option-cases, bytes_eq, bytes_eq→eq, bytes_eq_refl,
  starts_with, starts_with-append, length, get_elem?, set, get_or, take, drop, replicate,
  length-append, length-take, length-drop, length-replicate, length-map, length-set,
  take-append-drop, get_elem?-set_self, get_elem?-set_ne,
}

abbrev pub fend : ℕ
fend = 0xC0

abbrev pub fesc : ℕ
fesc = 0xDB

abbrev pub tfend : ℕ
tfend = 0xDC

abbrev pub tfesc : ℕ
tfesc = 0xDD

abbrev pub cmd_data : ℕ
cmd_data = 0x00

-- The command value that stands for "no command byte read yet".
abbrev pub sentinel : ℕ
sentinel = 0xFF

-- What one payload byte becomes inside a frame.
unfoldable pub stuff_byte : ℕ → Bytes
stuff_byte byte =
    if byte == fend
    then fesc ∷ tfend ∷ []
    else (if byte == fesc then fesc ∷ tfesc ∷ [] else byte ∷ [])

-- The loop of `kiss_encode` over the payload.
unfoldable pub stuff : Bytes → Bytes
stuff [] = []
stuff (byte ∷ rest) = stuff_byte byte ++ stuff rest

unfoldable pub kiss_encode : Bytes → Bytes
kiss_encode payload = fend ∷ cmd_data ∷ (stuff payload ++ (fend ∷ []))

pub record KissDeframer : Type 0 where
  pub buf : Bytes
  pub in_frame : Bool
  pub escape_next : Bool
  pub command : ℕ

abbrev pub new : KissDeframer
new = record { buf = []; in_frame = false; escape_next = false; command = 0 }

abbrev pub is_empty : Bytes → Bool
is_empty [] = true
is_empty (_ ∷ _) = false

-- The byte that an escaped `byte` stands for; one that is not an escape code is kept.
abbrev pub unescape : ℕ → ℕ
unescape byte = if byte == tfend then fend else (if byte == tfesc then fesc else byte)

-- One round of the loop of `feed`: the deframer after `byte`, and the frame pushed, if any.
unfoldable pub feed_byte : KissDeframer → ℕ → KissDeframer × List (ℕ × Bytes)
feed_byte d byte =
    if byte == fend
    then (
      record { buf = []; in_frame = true; escape_next = false; command = sentinel },
      (if d.in_frame && not (is_empty d.buf) then (d.command, d.buf) ∷ [] else []),
    )
    else (if not d.in_frame
        then (d, [])
        else (if d.command == sentinel
            then (record d { command = byte }, [])
            else (if d.escape_next
                then (record d { buf = d.buf ++ (unescape byte ∷ []); escape_next = false }, [])
                else (if byte == fesc
                    then (record d { escape_next = true }, [])
                    else (record d { buf = d.buf ++ (byte ∷ []) }, [])))))

unfoldable pub feed : KissDeframer → Bytes → KissDeframer × List (ℕ × Bytes)
feed d [] = (d, [])
feed d (byte ∷ rest) =
    let (d', pushed) = feed_byte d byte in let (d'', more) = feed d' rest in (d'', pushed ++ more)

-- The command byte stays: only the next frame's start overwrites it.
unfoldable pub reset : KissDeframer → KissDeframer
reset d = record d { buf = []; in_frame = false; escape_next = false }
