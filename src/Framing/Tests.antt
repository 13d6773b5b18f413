-- ===== src/Framing/Tests.antt =====
-- The theorems on the framing codecs at concrete inputs.
use lxmf_react_native_rust.Prelude.{◌≡◌, List, [], ◌∷◌, ◌++◌, arith, Bytes}
use lxmf_react_native_rust.Framing.Hdlc
use lxmf_react_native_rust.Framing.Hdlc.RoundTrip.{
  feed-encode_all, encode_all, full, collecting, flushed, feed-resync,
}
use lxmf_react_native_rust.Framing.Kiss
use lxmf_react_native_rust.Framing.Kiss.Stream.{IsValid}
use lxmf_react_native_rust.Framing.Kiss.RoundTrip
use lxmf_react_native_rust.Framing.Kiss.RoundTrip.{feed-encode_all_kiss}

-- Bytes that need escapes, and none.
abbrev escaped : Bytes
escaped = 1 ∷ 0x7e ∷ []

abbrev packets : List Bytes
packets = (1 ∷ 0x7e ∷ 0x7d ∷ []) ∷ [] ∷ (0xc0 ∷ 0xdb ∷ 7 ∷ []) ∷ []

feed-encode_all_example : (Hdlc.feed Hdlc.new (encode_all packets)).1 ≡ full packets
feed-encode_all_example = feed-encode_all packets

feed-encode_all_kiss_example :
    (Kiss.feed Kiss.new (Kiss.RoundTrip.encode_all packets)).1 ≡ Kiss.RoundTrip.full packets
feed-encode_all_kiss_example = feed-encode_all_kiss packets

-- A frame that was cut off after an escape.
abbrev cut_off : Bytes
cut_off = 9 ∷ 0x7e ∷ 1 ∷ 0x7d ∷ []

feed-resync_example :
    let before = Hdlc.feed Hdlc.new cut_off in
    Hdlc.feed Hdlc.new (cut_off ++ encode_all packets)
    ≡ (collecting [], before.1 ++ (flushed before.0 ++ full packets))
feed-resync_example =
    feed-resync Hdlc.new cut_off (1 ∷ 0x7e ∷ 0x7d ∷ []) ([] ∷ (0xc0 ∷ 0xdb ∷ 7 ∷ []) ∷ [])

new-IsValid : IsValid Kiss.new
new-IsValid = ground arith
