-- ===== src/Ble/Worker/Delivery.antt =====
-- The frames that the sending half makes of a packet, fed to the receiving half of another node.
use lxmf_react_native_rust.Prelude.{
  subst, ℕ, ◌+◌, ◌%◌, ◌≤◌, ◌<◌, ◌≡◌, refl, sym, ap, ◌∙◌, ◌≢◌, inl, inr, Option, none, some, List,
  [], ◌∷◌, ◌++◌, append-nil, append_assoc, arith, Bytes, leb, Bool-cases, length, length-append,
}
use native.Mathlib.Nat.{mod-eq_of_lt, div-lt_iff_lt-mul, le-div_iff_mul-le}
use lxmf_react_native_rust.Prelude.Map.{
  bytes_Eq, lookup, insert, remove, lookup-insert_self, lookup-remove_self,
}
use lxmf_react_native_rust.Framing.Hdlc.{HdlcDeframer, feed, hdlc_encode}
use lxmf_react_native_rust.Framing.Hdlc.RoundTrip.{
  collecting, flushed, feed-hdlc_encode, stuff_shape,
}
use lxmf_react_native_rust.Ble.Segment.{
  PeerAssembly, new, chunks, number, segs_of, segment_with_payload,
}
use lxmf_react_native_rust.Ble.Segment.Split.{flat, chunks-flat, chunks-length}
use lxmf_react_native_rust.Ble.Queues.{Addr, BleRxFrame}
use lxmf_react_native_rust.Ble.Worker.{
  Worker, current, add_segment, reassemble, deframe, rx_frame, rx_frames, ble_max_packet,
}
use lxmf_react_native_rust.Ble.Worker.Assembly.{
  halfway, new-halfway, add_segment-more, add_segment-last, current_same,
}

-- Segments as the other node gets them, from the address `peer`.
unfoldable pub arrivals : Addr → List Bytes → List BleRxFrame
arrivals peer [] = []
arrivals peer (seg ∷ segs) = record { peer_addr = peer; contents = seg } ∷ arrivals peer segs

abbrev pub worker : List (Addr × PeerAssembly) → HdlcDeframer → Worker
worker table d = record { assembly = table; deframer = d }

-- The outcome of a payload that arrives whole: it is fed to the deframer, and nothing of it is left
-- in the table.
abbrev pub Delivers : Addr → HdlcDeframer → Bytes → Worker × List Bytes → Type 0
Delivers peer d xs out =
    (table' : List (Addr × PeerAssembly)) × (out ≡ (worker table' (feed d xs).0, (feed d xs).1))
    × (lookup peer table' ≡ none)

rx_frame_of_reassemble :
    (table table' : List (Addr × PeerAssembly)) (d : HdlcDeframer) (peer : Addr) (frame : Bytes)
    (full : Option Bytes)
    → reassemble table peer frame ≡ (table', full)
    → rx_frame (worker table d) (record { peer_addr = peer; contents = frame })
      ≡ deframe (worker table' d) full
unfolding rx_frame
rx_frame_of_reassemble table table' d peer frame full h =
    ap (λ r. deframe (record { assembly = r.0; deframer = d }) r.1) h

reassemble_several :
    (table : List (Addr × PeerAssembly)) (peer : Addr) (idx total : ℕ) (c : Bytes)
    → idx < 256
    → total < 256
    → total ≢ 1
    → reassemble table peer (idx % 256 ∷ total % 256 ∷ c) ≡ add_segment table peer idx total c
unfolding reassemble
reassemble_several table peer idx total c hi ht h1 =
    rw (mod-eq_of_lt hi, mod-eq_of_lt ht) (ground arith)

length-append_one : (done : List Bytes) (c : Bytes) → length (done ++ (c ∷ [])) ≡ length done + 1
length-append_one done c = length-append done (c ∷ [])

module _ (peer : Addr) (d : HdlcDeframer) (total : ℕ) (small : total < 256)
    (several : total ≢ 1) where
  -- The segments `c ∷ cs` complete a message whose segments `done` are there.
  deliver_rest :
      (cs : List Bytes) (done : List Bytes) (c : Bytes) (idx : ℕ)
      (table : List (Addr × PeerAssembly))
      → idx ≡ length done
      → length done + length (c ∷ cs) ≡ total
      → current (lookup peer table) total ≡ halfway total done (length (c ∷ cs))
      → Delivers peer d
          (flat (done ++ (c ∷ cs)))
          (rx_frames (worker table d) (arrivals peer (number idx total (c ∷ cs))))
  unfolding rx_frames arrivals number deframe
  deliver_rest [] done c idx table hi ht hc =
      let table1 : List (Addr × PeerAssembly) =
        remove peer (insert peer (halfway total (done ++ (c ∷ [])) 0) table) in
      let last =
        reassemble_several table peer idx total c (omega arith) small several
        ∙ ap (λ i. add_segment table peer i total c) hi
        ∙ add_segment-last table peer total done c hc in
      (
        table1,
        rw
            (rx_frame_of_reassemble table table1 d peer (idx % 256 ∷ total % 256 ∷ c)
              (some (flat (done ++ (c ∷ [])))) last)
            (ap (λ l. (worker table1 (feed d (flat (done ++ (c ∷ [])))).0, l))
              (append-nil (feed d (flat (done ++ (c ∷ [])))).1)),
        lookup-remove_self peer (insert peer (halfway total (done ++ (c ∷ [])) 0) table),
      )
  deliver_rest (c' ∷ cs) done c idx table hi ht hc =
      let table1 = insert peer (halfway total (done ++ (c ∷ [])) (length (c' ∷ cs))) table in
      let more =
        reassemble_several table peer idx total c (omega arith) small several
        ∙ ap (λ i. add_segment table peer i total c) hi
        ∙ add_segment-more table peer total done (length cs) c hc in
      let (table', e, gone) =
        deliver_rest cs (done ++ (c ∷ [])) c' (idx + 1) table1
          (omega (arith, length-append_one done c)) (omega (arith, length-append_one done c))
          (ap (λ o. current o total)
              (lookup-insert_self peer (halfway total (done ++ (c ∷ [])) (length (c' ∷ cs))) table)
            ∙ current_same (halfway total (done ++ (c ∷ [])) (length (c' ∷ cs))) total refl) in
      (
        table',
        rw (rx_frame_of_reassemble table table1 d peer (idx % 256 ∷ total % 256 ∷ c) none more) (
            e
            ∙ ap (λ p. (worker table' (feed d (flat p)).0, (feed d (flat p)).1))
                (append_assoc done (c ∷ []) (c' ∷ cs))),
        gone,
      )

-- No message of `total` segments from `peer` is half assembled.
abbrev pub IsFresh : List (Addr × PeerAssembly) → Addr → ℕ → Type 0
IsFresh table peer total = current (lookup peer table) total ≡ new total

deliver_chunks :
    (table : List (Addr × PeerAssembly)) (peer : Addr) (d : HdlcDeframer) (total : ℕ)
    (cs : List Bytes)
    → total < 256
    → total ≢ 1
    → total ≢ 0
    → length cs ≡ total
    → IsFresh table peer total
    → Delivers peer d (flat cs) (rx_frames (worker table d) (arrivals peer (number 0 total cs)))
deliver_chunks table peer d total [] small several some_ h fresh = absurd (some_ (omega arith))
deliver_chunks table peer d total (c ∷ cs) small several some_ h fresh =
    deliver_rest peer d total small several cs [] c 0 table refl (omega arith)
      (fresh ∙ new-halfway total ∙ ap (λ k. halfway total [] k) (sym h))

segs_many : (len n : ℕ) → 0 < n → n < len → 1 < segs_of len n
segs_many len n hn h = (le-div_iff_mul-le hn).1 (omega arith)

deliver_single :
    (table : List (Addr × PeerAssembly)) (peer : Addr) (d : HdlcDeframer) (xs : Bytes)
    → Delivers peer d xs (rx_frames (worker table d) (arrivals peer ((0 ∷ 1 ∷ xs) ∷ [])))
unfolding rx_frames arrivals rx_frame reassemble deframe
deliver_single table peer d xs = (
  remove peer table,
  ap (λ l. (worker (remove peer table) (feed d xs).0, l)) (append-nil (feed d xs).1),
  lookup-remove_self peer table,
)

-- The frames of `segment_with_payload`, received in order, feed exactly the payload to the deframer:
-- for a segment size of at least one byte that needs fewer than 256 segments, and a peer with no
-- half assembled message of that count.
pub deliver-segment_with_payload :
    (table : List (Addr × PeerAssembly)) (peer : Addr) (d : HdlcDeframer) (xs : Bytes) (n : ℕ)
    → 0 < n
    → segs_of (length xs) n < 256
    → IsFresh table peer (segs_of (length xs) n)
    → Delivers peer d xs (rx_frames (worker table d) (arrivals peer (segment_with_payload xs n)))
unfolding segment_with_payload
deliver-segment_with_payload table peer d xs n hn small fresh =
    elim (Bool-cases (leb (length xs) n)) [
      | inl short ↦ rw short (deliver_single table peer d xs)
      | inr long ↦
          let several = segs_many (length xs) n hn (ground arith) in
          rw long (
            subst
              (λ p. Delivers peer d p (
                rx_frames (worker table d)
                  (arrivals peer (number 0 (segs_of (length xs) n) (chunks n xs)))))
              (chunks-flat n xs hn)
              (deliver_chunks table peer d (segs_of (length xs) n) (chunks n xs) small (omega arith)
                (omega arith) (chunks-length n xs hn) fresh))
    ]

-- A size of four bytes is enough for every packet that the sending half lets through.
few_segments :
    (p : Bytes) (n : ℕ)
    → length p ≤ ble_max_packet
    → 4 ≤ n
    → segs_of (length (hdlc_encode p)) n < 256
few_segments p n hp hn =
    let (_, _, _, hi) = stuff_shape p in (div-lt_iff_lt-mul (omega arith)).1 (omega arith)

-- A packet of at most `BLE_MAX_PACKET` bytes, framed and cut into segments of at least four bytes,
-- comes out of the receiver as it went in, behind what its first flag flushes; the deframer is then
-- ready for the next frame, and nothing of the packet stays in the table. The receiver's deframer may
-- be in any state, if no message of the same number of segments is half assembled for the sender.
pub deliver_packet :
    (table : List (Addr × PeerAssembly)) (peer : Addr) (d : HdlcDeframer) (p : Bytes) (n : ℕ)
    → length p ≤ ble_max_packet
    → 4 ≤ n
    → IsFresh table peer (segs_of (length (hdlc_encode p)) n)
    → (table' : List (Addr × PeerAssembly)) × (rx_frames
          (worker table d)
          (arrivals peer (segment_with_payload (hdlc_encode p) n))
        ≡ (worker table' (collecting []), flushed d ++ flushed (collecting p)))
      × (lookup peer table' ≡ none)
deliver_packet table peer d p n hp hn fresh =
    let (table', e, gone) =
      deliver-segment_with_payload table peer d (hdlc_encode p) n (omega arith)
        (few_segments p n hp hn) fresh in
    (table', e ∙ ap (λ r. (worker table' r.0, r.1)) (feed-hdlc_encode d p), gone)
