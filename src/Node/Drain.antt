-- ===== src/Node/Drain.antt =====
-- rust-core/src/node.rs, lines 2200-2237: `drain_events`, between the tasks that put events into the
-- queue and the log lines that come in. An event that a full queue refuses is none of these.
use lxmf_react_native_rust.Prelude.{
  subst, ℕ, ◌+◌, ◌%◌, ◌^◌, ◌<◌, ◌≡◌, refl, sym, ap, ap₂, ◌∙◌, inl, inr, Bool, false, List, [], ◌∷◌,
  ◌++◌, append-nil, append_assoc, arith, Bytes, if◌then◌else◌, Bool-cases, length, length-append,
}
use lxmf_react_native_rust.LogBridge.{LogBridge, QueuedLog, Record, log, drain_logs}
use lxmf_react_native_rust.Beacon.Manager
use lxmf_react_native_rust.Node.{LxmfEvent, Network, LxmfNode}
use lxmf_react_native_rust.Node.Lifecycle.{
  log_events, beacon_events, is_announce, is_message, add_events, drain_events,
}

abbrev pub select : (LxmfEvent → Bool) → List LxmfEvent → List LxmfEvent
select kind [] = []
select kind (e ∷ es) = if kind e then e ∷ select kind es else select kind es

select-append :
    (kind : LxmfEvent → Bool) (xs ys : List LxmfEvent)
    → select kind (xs ++ ys) ≡ select kind xs ++ select kind ys
select-append kind [] ys = refl
select-append kind (x ∷ xs) ys = elim (Bool-cases (kind x)) [
  | inl hit ↦ rw hit (ap (λ es. x ∷ es) (select-append kind xs ys))
  | inr miss ↦ rw miss (select-append kind xs ys)
]

-- A counter goes up by the number of events of its kind.
add_events-count :
    (kind : LxmfEvent → Bool) (n : ℕ) (es : List LxmfEvent)
    → n < 2 ^ 64
    → add_events kind n es ≡ (n + length (select kind es)) % 2 ^ 64
unfolding add_events
add_events-count kind n [] h = omega (arith, h)
add_events-count kind n (e ∷ es) h = elim (Bool-cases (kind e)) [
  | inl hit ↦ rw hit (add_events-count kind ((n + 1) % 2 ^ 64) es (omega arith) ∙ omega arith)
  | inr miss ↦ rw miss (add_events-count kind n es h)
]

-- A kind that neither the log nor the beacon manager reports.
pub record OwnKind (kind : LxmfEvent → Bool) : Type 0 where
  pub no_log : (level : ℕ) (message : Bytes) → kind (LxmfEvent.log_line level message) ≡ false
  pub no_beacon : (hash app : Bytes) → kind (LxmfEvent.beacon_discovered hash app) ≡ false

module _ (kind : LxmfEvent → Bool) (own : OwnKind kind) where
  select-log_events : (ls : List QueuedLog) → select kind (log_events ls) ≡ []
  unfolding log_events
  select-log_events [] = refl
  select-log_events (l ∷ ls) = rw (own.no_log l.level l.message) (select-log_events ls)

  select-beacon_events : (es : List (Bytes × Bytes)) → select kind (beacon_events es) ≡ []
  unfolding beacon_events
  select-beacon_events [] = refl
  select-beacon_events ((hash, app) ∷ es) = rw (own.no_beacon hash app) (select-beacon_events es)

  select-drained :
      (es : List LxmfEvent) (ls : List QueuedLog) (bs : List (Bytes × Bytes))
      → select kind (es ++ (log_events ls ++ beacon_events bs)) ≡ select kind es
  select-drained es ls bs =
      select-append kind es (log_events ls ++ beacon_events bs)
      ∙ ap (λ r. select kind es ++ r)
          (select-append kind (log_events ls) (beacon_events bs)
            ∙ ap₂ (λ a c. a ++ c) (select-log_events ls) (select-beacon_events bs))
      ∙ append-nil (select kind es)

-- What happens between two calls: a task puts events into the queue, a line is logged, the native
-- layer drains.
pub data Step : Type 0 where
  report : List LxmfEvent → Step
  logged : Record → Step
  drain : Step

-- What the tasks put into the queue in these steps.
abbrev pub reported : List Step → List LxmfEvent
reported [] = []
reported (report es ∷ ss) = es ++ reported ss
reported (logged r ∷ ss) = reported ss
reported (drain ∷ ss) = reported ss

module _ (net : Network) where
  -- The node and the log after the steps, and all that was handed out.
  abbrev pub run : LxmfNode net → LogBridge → List Step → LxmfNode net × LogBridge × List LxmfEvent
  run n b [] = (n, b, [])
  run n b (report es ∷ ss) = run (record n { events = n.events ++ es }) b ss
  run n b (logged r ∷ ss) = run n (log b r) ss
  run n b (drain ∷ ss) =
      let (m, c, out) = drain_events net n b in
      let (m', c', more) = run m c ss in (m', c', out ++ more)

  module _ (kind : LxmfEvent → Bool) (own : OwnKind kind) where
    drained :
        (n : LxmfNode net) (b : LogBridge)
        → select kind (drain_events net n b).2 ≡ select kind n.events
    unfolding drain_events drain_logs Manager.drain_events
    drained n b = select-drained kind own n.events b.queue n.beacon_mgr.pending_events

    emptied : (n : LxmfNode net) (b : LogBridge) → (drain_events net n b).0.events ≡ []
    unfolding drain_events
    emptied n b = refl

    -- Handed out, and then still in the queue, is what was in the queue and what came in.
    select-run :
        (n : LxmfNode net) (b : LogBridge) (ss : List Step)
        → let (m, c, out) = run n b ss in
          select kind (out ++ m.events) ≡ select kind (n.events ++ reported ss)
    select-run n b [] = ap (select kind) (sym (append-nil n.events))
    select-run n b (report es ∷ ss) =
        select-run (record n { events = n.events ++ es }) b ss
        ∙ ap (select kind) (append_assoc n.events es (reported ss))
    select-run n b (logged r ∷ ss) = select-run n (log b r) ss
    select-run n b (drain ∷ ss) =
        let d = drain_events net n b in
        let later = run d.0 d.1 ss in
        ap (select kind) (append_assoc d.2 later.2 later.0.events)
        ∙ select-append kind d.2 (later.2 ++ later.0.events)
        ∙ ap₂ (λ xs ys. xs ++ ys) (drained n b)
            (select-run d.0 d.1 ss ∙ ap (λ es. select kind (es ++ reported ss)) (emptied n b))
        ∙ sym (select-append kind n.events (reported ss))

  count-run :
      (kind : LxmfEvent → Bool) (counter : LxmfNode net → ℕ)
      → ((n : LxmfNode net) (b : LogBridge)
          → counter (drain_events net n b).0 ≡ add_events kind (counter n) (drain_events net n b).2)
      → ((n : LxmfNode net) (es : List LxmfEvent) → counter (record n { events = es }) ≡ counter n)
      → (n : LxmfNode net) (b : LogBridge) (ss : List Step) → counter n < 2 ^ 64
      → let (m, c, out) = run n b ss in counter m ≡ (counter n + length (select kind out)) % 2 ^ 64
  count-run kind counter raised same n b [] h = omega (arith, h)
  count-run kind counter raised same n b (report es ∷ ss) h =
      let n' : LxmfNode net = record n { events = n.events ++ es } in
      count-run kind counter raised same n' b ss
        (subst (λ k. k < 2 ^ 64) (sym (same n (n.events ++ es))) h)
      ∙ ap (λ k. (k + length (select kind (run n' b ss).2)) % 2 ^ 64) (same n (n.events ++ es))
  count-run kind counter raised same n b (logged r ∷ ss) h =
      count-run kind counter raised same n (log b r) ss h
  count-run kind counter raised same n b (drain ∷ ss) h =
      let d = drain_events net n b in
      let later = run d.0 d.1 ss in
      let now : counter d.0 ≡ (counter n + length (select kind d.2)) % 2 ^ 64 =
        raised n b ∙ add_events-count kind (counter n) d.2 h in
      count-run kind counter raised same d.0 d.1 ss (omega (arith, now))
      ∙ omega (
        arith,
        now,
        ap length (select-append kind d.2 later.2),
        length-append (select kind d.2) (select kind later.2),
      )

  -- The events of one kind over some steps, and the counter of the kind.
  pub record HandedOut (kind : LxmfEvent → Bool) (counter : LxmfNode net → ℕ) (n m : LxmfNode net)
      (out : List LxmfEvent) (ss : List Step) : Type 0 where
    pub once : select kind (out ++ m.events) ≡ select kind (n.events ++ reported ss)
    pub counted : counter m ≡ (counter n + length (select kind out)) % 2 ^ 64

  -- However events, log lines and drains follow on each other, from counters below 2^64: the message
  -- events and the announce events that the drains hand out, followed by those still in the queue,
  -- are those that were in the queue followed by those put into it, each once and in order; and the
  -- counter of each of the two kinds has gone up, modulo 2^64, by the number handed out.
  pub run-HandedOut :
      (n : LxmfNode net) (b : LogBridge) (ss : List Step)
      → n.messages_received < 2 ^ 64
      → n.announces_received < 2 ^ 64
      → let (m, c, out) = run n b ss in
        HandedOut is_message (λ k. k.messages_received) n m out ss
        × HandedOut is_announce (λ k. k.announces_received) n m out ss
  unfolding drain_events
  run-HandedOut n b ss h k = (
    record {
      once =
          select-run is_message (record { no_log = λ l m. refl; no_beacon = λ x y. refl }) n b ss;
      counted =
          count-run is_message (λ k. k.messages_received) (λ m c. refl) (λ m es. refl) n b ss h;
    },
    record {
      once =
          select-run is_announce (record { no_log = λ l m. refl; no_beacon = λ x y. refl }) n b ss;
      counted =
          count-run is_announce (λ k. k.announces_received) (λ m c. refl) (λ m es. refl) n b ss k;
    },
  )
