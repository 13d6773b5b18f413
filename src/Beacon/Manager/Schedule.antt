-- ===== src/Beacon/Manager/Schedule.antt =====
-- When a beacon is announced, and when a connection is tried again.
use lxmf_react_native_rust.Prelude.{
  ℕ, zero, suc, ◌+◌, ◌%◌, ◌^◌, ◌≤◌, ◌<◌, min, ◌≡◌, refl, ap, ◌∙◌, inl, inr, true, false, Option,
  none, some, arith, ltb, ltb→lt, Bool-cases, get_elem?,
}
use lxmf_react_native_rust.Prelude.Map.{bytes_Eq, lookup, lookup-insert_self}
use lxmf_react_native_rust.Beacon.Manager.{
  connecting, DestHash, Beacon, BeaconManager, burst_interval, steady_interval, should_announce,
  did_announce, is_due, backoff_schedule, attempts_of, reconnect_delay, on_reconnect_attempt,
}

-- After an announce the next one is not due before 15 seconds have passed, for a schedule that was
-- started.
pub should_announce-did_announce :
    (m : BeaconManager) (start now later : ℕ)
    → m.announce_start ≡ some start
    → later < now + burst_interval
    → should_announce (did_announce m now) later ≡ false
unfolding should_announce did_announce is_due
should_announce-did_announce m start now later e h = rw e (ground (arith, h))

late_is_due :
    (start : Option ℕ) (last now : ℕ)
    → last + steady_interval ≤ now
    → is_due (some last) start now ≡ true
unfolding is_due
late_is_due none last now h = refl
late_is_due (some start) last now h = ground (arith, h)

-- An active schedule is never silent for long: 300 seconds after the last announce, or the start, the
-- next one is due.
pub should_announce_late :
    (m : BeaconManager) (last now : ℕ)
    → m.announce_active ≡ true
    → m.last_announce ≡ some last
    → last + steady_interval ≤ now
    → should_announce m now ≡ true
unfolding should_announce is_due
should_announce_late m last now active e h =
    rw (active, e) (late_is_due m.announce_start last now h)

-- The entry at an index, and the next one.
delay_step :
    (i : ℕ)
    → i < 6
    → (d e : ℕ) × (get_elem? backoff_schedule i ≡ some d)
      × (get_elem? backoff_schedule (suc i) ≡ some e)
      × (5 ≤ d)
      × (d ≤ e)
      × (e ≤ 300)
delay_step zero h = (5, 10, refl, refl, omega arith, omega arith, omega arith)
delay_step (suc zero) h = (10, 20, refl, refl, omega arith, omega arith, omega arith)
delay_step (suc (suc zero)) h = (20, 40, refl, refl, omega arith, omega arith, omega arith)
delay_step (suc (suc (suc zero))) h = (40, 60, refl, refl, omega arith, omega arith, omega arith)
delay_step (suc (suc (suc (suc zero)))) h =
    (60, 120, refl, refl, omega arith, omega arith, omega arith)
delay_step (suc (suc (suc (suc (suc zero))))) h =
    (120, 300, refl, refl, omega arith, omega arith, omega arith)
delay_step (suc (suc (suc (suc (suc (suc n)))))) h = absurd (omega (arith, h))

-- The back-off after `a` attempts and after one more.
delays :
    (a : ℕ)
    → (d e : ℕ) × (get_elem? backoff_schedule (min a 6) ≡ some d)
      × (get_elem? backoff_schedule (min (suc a) 6) ≡ some e)
      × (5 ≤ d)
      × (d ≤ e)
      × (e ≤ 300)
delays a = elim (Bool-cases (ltb a 6)) [
  | inl few ↦
      let (d, e, p, q, lo, mono, hi) = delay_step a (ltb→lt a 6 few) in
      (
        d,
        e,
        ap (get_elem? backoff_schedule) {x = min a 6} {y = a} (omega (arith, ltb→lt a 6 few)) ∙ p,
        ap (get_elem? backoff_schedule) {x = min (suc a) 6} {y = suc a}
              (omega (arith, ltb→lt a 6 few))
            ∙ q,
        lo,
        mono,
        hi,
      )
  | inr many ↦ (
    300,
    300,
    ap (get_elem? backoff_schedule) {x = min a 6} {y = 6} (ground (arith, many)),
    ap (get_elem? backoff_schedule) {x = min (suc a) 6} {y = 6} (ground (arith, many)),
    omega arith,
    omega arith,
    omega arith,
  )
]

-- The delay is always defined, the index in bounds: at least 5 and at most 300 seconds.
pub reconnect_delay_bounds :
    (m : BeaconManager) (dest : DestHash)
    → (d : ℕ) × (reconnect_delay m dest ≡ some d) × (5 ≤ d) × (d ≤ 300)
unfolding reconnect_delay
reconnect_delay_bounds m dest =
    let (d, e, p, q, lo, mono, hi) = delays (attempts_of (lookup dest m.beacons)) in
    (d, p, lo, omega (arith, mono, hi))

-- A further attempt to reach a known beacon never shortens the delay, as long as the count of attempts
-- does not reach the end of its 32 bits.
pub reconnect_delay-on_reconnect_attempt :
    (m : BeaconManager) (dest : DestHash) (b : Beacon)
    → lookup dest m.beacons ≡ some b
    → b.reconnect_attempts + 1 < 2 ^ 32
    → (d e : ℕ) × (reconnect_delay m dest ≡ some d)
      × (reconnect_delay (on_reconnect_attempt m dest) dest ≡ some e)
      × (d ≤ e)
unfolding reconnect_delay attempts_of on_reconnect_attempt
reconnect_delay-on_reconnect_attempt m dest b known few =
    let (d, e, p, q, lo, mono, hi) = delays b.reconnect_attempts in
    (
      d,
      e,
      rw known p,
      rw
          (
            known,
            lookup-insert_self dest
                (record b {
                  reconnect_attempts = (b.reconnect_attempts + 1) % 2 ^ 32;
                  state = connecting;
                })
                m.beacons,
          )
          (ap (λ k. get_elem? backoff_schedule (min k 6)) {y = suc b.reconnect_attempts}
              (omega (arith, few))
            ∙ q),
      mono,
    )
