-- ===== src/Framing/Hdlc.antt =====
-- rust-core/src/framing.rs, the HDLC half: `hdlc_encode`, `HdlcDeframer`.
-- A call of `feed` returns the new deframer and the frames that it pushed, in order.
pub mod Stream
pub mod RoundTrip
use Prim.Native.Nat.{bit_xor}
use lxmf_react_native_rust.Prelude.{
  List, [], ◌∷◌, ◌++◌, Bytes, ℕ, Bool, true, false, ◌&&◌, not, ◌==◌, if◌then◌else◌,
}

abbrev pub flag : ℕ
flag = 0x7E

abbrev pub esc : ℕ
esc = 0x7D

abbrev pub esc_flag : ℕ
esc_flag = 0x5E

abbrev pub esc_esc : ℕ
esc_esc = 0x5D

-- What one payload byte becomes inside a frame.
unfoldable pub stuff_byte : ℕ → Bytes
stuff_byte byte =
    if byte == flag
    then esc ∷ esc_flag ∷ []
    else (if byte == esc then esc ∷ esc_esc ∷ [] else byte ∷ [])

-- The loop of `hdlc_encode` over the payload.
unfoldable pub stuff : Bytes → Bytes
stuff [] = []
stuff (byte ∷ rest) = stuff_byte byte ++ stuff rest

unfoldable pub hdlc_encode : Bytes → Bytes
hdlc_encode payload = flag ∷ (stuff payload ++ (flag ∷ []))

pub record HdlcDeframer : Type 0 where
  pub buf : Bytes
  pub in_frame : Bool
  pub escape_next : Bool

abbrev pub new : HdlcDeframer
new = record { buf = []; in_frame = false; escape_next = false }

abbrev pub is_empty : Bytes → Bool
is_empty [] = true
is_empty (_ ∷ _) = false

-- One round of the loop of `feed`: the deframer after `byte`, and the frame pushed, if any.
unfoldable pub feed_byte : HdlcDeframer → ℕ → HdlcDeframer × List Bytes
feed_byte d byte =
    if byte == flag
    then (
      record { buf = []; in_frame = true; escape_next = false },
      (if d.in_frame && not (is_empty d.buf) then d.buf ∷ [] else []),
    )
    else (if not d.in_frame
        then (d, [])
        else (if d.escape_next
            then (record d { buf = d.buf ++ (bit_xor byte 0x20 ∷ []); escape_next = false }, [])
            else (if byte == esc
                then (record d { escape_next = true }, [])
                else (record d { buf = d.buf ++ (byte ∷ []) }, []))))

unfoldable pub feed : HdlcDeframer → Bytes → HdlcDeframer × List Bytes
feed d [] = (d, [])
feed d (byte ∷ rest) =
    let (d', pushed) = feed_byte d byte in let (d'', more) = feed d' rest in (d'', pushed ++ more)

unfoldable pub reset : HdlcDeframer → HdlcDeframer
reset d = record { buf = []; in_frame = false; escape_next = false }
