-- ===== src/Ble/Queues/Limits.antt =====
-- The receive queue stays within its bound, and a peer within its rate.
use lxmf_react_native_rust.Prelude.{
  ℕ, suc, ◌+◌, ◌-◌, ◌≤◌, ◌<◌, ◌≡◌, refl, ap, ◌∙◌, ◌⊎◌, true, none, List, [], ◌∷◌, ◌++◌, arith,
  Bytes, leb, if◌then◌else◌, length, length-append,
}
use lxmf_react_native_rust.Prelude.Map.{bytes_Eq, lookup, lookup-insert_self}
use lxmf_react_native_rust.Ble.Queues.{
  Addr, Ble, rx_queue_max, rx_pps_limit, rate_entry, rate_step, check_ble_rx_rate, on_ble_rx,
}

-- From a queue of at most `BLE_RX_QUEUE_MAX` frames, a frame from Kotlin is queued at the end or
-- dropped; nothing queued before is lost, the queue does not outgrow that bound, and nothing but the
-- queue and the rate table changes.
on_ble_rx_lem :
    (b : Ble) (peer : Addr) (contents : Bytes) (now : ℕ)
    → length b.rx_queue ≤ rx_queue_max
    → let b' = on_ble_rx b peer contents now in
      ((b'.rx_queue ≡ b.rx_queue)
        ⊎ (b'.rx_queue ≡ b.rx_queue ++ (record { peer_addr = peer; contents = contents } ∷ [])))
      × (length b'.rx_queue ≤ rx_queue_max)
      × (b'.tx_queue ≡ b.tx_queue)
      × (b'.peers ≡ b.peers)
      × (b'.mtu ≡ b.mtu)
unfolding on_ble_rx check_ble_rx_rate
on_ble_rx_lem b peer contents now h =
    ground (arith, length-append b.rx_queue (record { peer_addr = peer; contents = contents } ∷ []))

-- How many of the frames that arrive from `peer` at the given times are accepted.
unfoldable pub accepted : Ble → Addr → List ℕ → ℕ
accepted b peer [] = 0
accepted b peer (now ∷ times) =
    let (b', accept) = check_ble_rx_rate b peer now in
    let rest = accepted b' peer times in if accept then suc rest else rest

-- All times lie less than a second after `start`.
abbrev pub Within : ℕ → List ℕ → Type 0
Within start [] = Unit {0}
Within start (t ∷ ts) = (start ≤ t) × (t < start + 1000) × Within start ts

rate_step_within :
    (start count now : ℕ)
    → start ≤ now
    → now < start + 1000
    → rate_step (start, count) now ≡ ((start, count + 1), leb (count + 1) rx_pps_limit)
unfolding rate_step
rate_step_within start count now lo hi = ground arith

entry_of_check :
    (b : Ble) (peer : Addr) (now t : ℕ)
    → rate_entry (check_ble_rx_rate b peer now).0 peer t ≡ (rate_step (rate_entry b peer now) now).0
unfolding check_ble_rx_rate
entry_of_check b peer now t =
    rw (lookup-insert_self peer (rate_step (rate_entry b peer now) now).0 b.rate, rate_entry) refl

check_accepts :
    (b : Ble) (peer : Addr) (now : ℕ)
    → (check_ble_rx_rate b peer now).1 ≡ (rate_step (rate_entry b peer now) now).1
unfolding check_ble_rx_rate
check_accepts b peer now = refl

-- The entry of a peer's running window: its start and its count, at every later time.
abbrev Window : Ble → Addr → ℕ → ℕ → Type 0
Window b peer start count = (t : ℕ) → rate_entry b peer t ≡ (start, count)

Window-check :
    (b : Ble) (peer : Addr) (start count now : ℕ)
    → Window b peer start count
    → start ≤ now
    → now < start + 1000
    → Window (check_ble_rx_rate b peer now).0 peer start (count + 1)
Window-check b peer start count now w lo hi t =
    entry_of_check b peer now t
    ∙ ap (λ e. (rate_step e now).0) (w now)
    ∙ ap (λ r. r.0) (rate_step_within start count now lo hi)

accepted_of_Window :
    (b : Ble) (peer : Addr) (start count : ℕ) (times : List ℕ)
    → Window b peer start count
    → Within start times
    → accepted b peer times ≤ rx_pps_limit - count
unfolding accepted
accepted_of_Window b peer start count [] w h = omega arith
accepted_of_Window b peer start count (now ∷ times) w h =
    let ih =
      accepted_of_Window (check_ble_rx_rate b peer now).0 peer start (count + 1) times
        (Window-check b peer start count now w h.0 h.1) h.2 in
    ground (arith, ih, verdict)
  where
    verdict : (check_ble_rx_rate b peer now).1 ≡ leb (count + 1) rx_pps_limit
    verdict =
        check_accepts b peer now
        ∙ ap (λ e. (rate_step e now).1) (w now)
        ∙ ap (λ r. r.1) (rate_step_within start count now h.0 h.1)

-- Of the frames that arrive from a new peer within one second, at most `BLE_RX_PPS_LIMIT` are
-- accepted, however many there are.
pub accepted-le-limit :
    (b : Ble) (peer : Addr) (start : ℕ) (times : List ℕ)
    → lookup peer b.rate ≡ none
    → Within start (start ∷ times)
    → accepted b peer (start ∷ times) ≤ rx_pps_limit
unfolding accepted
accepted-le-limit b peer start times new h = ground (arith, rest, verdict)
  where
    first : rate_entry b peer start ≡ (start, 0)
    first = rw (new, rate_entry) refl

    window : Window (check_ble_rx_rate b peer start).0 peer start 1
    window t =
        entry_of_check b peer start t
        ∙ ap (λ e. (rate_step e start).0) first
        ∙ ap (λ r. r.0) (rate_step_within start 0 start h.0 h.1)

    rest : accepted (check_ble_rx_rate b peer start).0 peer times ≤ rx_pps_limit - 1
    rest = accepted_of_Window (check_ble_rx_rate b peer start).0 peer start 1 times window h.2

    verdict : (check_ble_rx_rate b peer start).1 ≡ true
    verdict =
        check_accepts b peer start
        ∙ ap (λ e. (rate_step e start).1) first
        ∙ ap (λ r. r.1) (rate_step_within start 0 start h.0 h.1)
