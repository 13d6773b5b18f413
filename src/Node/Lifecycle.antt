-- ===== src/Node/Lifecycle.antt =====
-- rust-core/src/node.rs: `init`, what the three `start_*` do to the node, `stop`, `is_running`, and
-- `drain_events`. The setup of the transport and the spawning of the tasks are not modelled; of a
-- task's setup the beacon mode is, which the data receiver keeps from the time when it was spawned.
use lxmf_react_native_rust.Prelude.{
  ℕ, ◌+◌, ◌%◌, ◌^◌, Bool, true, false, not, Option, none, some, List, [], ◌∷◌, ◌++◌, Bytes,
  if◌then◌else◌,
}
use lxmf_react_native_rust.Beacon.Manager
use lxmf_react_native_rust.LogBridge
use lxmf_react_native_rust.LogBridge.{LogBridge, QueuedLog}
use lxmf_react_native_rust.Store.{MessageStore}
use lxmf_react_native_rust.Node.{LxmfEvent, Network, LxmfNode}
use lxmf_react_native_rust.Node.Pending.{reload}

unfoldable pub log_events : List QueuedLog → List LxmfEvent
log_events [] = []
log_events (l ∷ ls) = LxmfEvent.log_line l.level l.message ∷ log_events ls

unfoldable pub beacon_events : List (Bytes × Bytes) → List LxmfEvent
beacon_events [] = []
beacon_events ((dest_hash, app_data) ∷ es) =
    LxmfEvent.beacon_discovered dest_hash app_data ∷ beacon_events es

abbrev pub is_announce : LxmfEvent → Bool
is_announce (LxmfEvent.announce_received _ _ _) = true
is_announce _ = false

abbrev pub is_message : LxmfEvent → Bool
is_message (LxmfEvent.message_received _) = true
is_message _ = false

-- A u64 that is raised by one for each event of the kind.
unfoldable pub add_events : (LxmfEvent → Bool) → ℕ → List LxmfEvent → ℕ
add_events kind n [] = n
add_events kind n (e ∷ es) = add_events kind (if kind e then (n + 1) % 2 ^ 64 else n) es

module _ (net : Network) where
  open net use {Transport}

  -- A new node; `idle` stands for the transport that it does not have yet.
  unfoldable pub init : Transport → Option MessageStore → LxmfNode net
  init idle store = record {
    events = [];
    beacon_mgr = Manager.new;
    store = store;
    running = false;
    identity_hex = [];
    address_hex = [];
    mode = 0;
    identity_bytes = none;
    transport = idle;
    started = false;
    outbound_sent = 0;
    announces_received = 0;
    messages_received = 0;
    pending_sends = [];
    peer_identities = [];
    is_beacon = false;
  }

  -- What a start has made before it spawns its tasks.
  pub record Setup : Type 0 where
    pub transport : Transport
    pub id_hex : Bytes
    pub id_bytes : Bytes
    pub addr_hex : Bytes

  -- The node that the tasks of a start find, and the beacon mode that its data receiver keeps.
  unfoldable pub spawn_tasks : LxmfNode net → ℕ → LxmfNode net × Bool
  spawn_tasks n lifecycle = (
    record n {
      events = n.events ++ (LxmfEvent.status_changed true lifecycle ∷ []);
      pending_sends = reload n.pending_sends n.store;
    },
    n.is_beacon,
  )

  -- The end of a start.
  unfoldable pub set_started : LxmfNode net → ℕ → Bool → Setup → LxmfNode net
  set_started n mode is_beacon setup = record n {
    running = true;
    mode = mode;
    is_beacon = is_beacon;
    identity_hex = setup.id_hex;
    address_hex = setup.addr_hex;
    identity_bytes = some setup.id_bytes;
    transport = setup.transport;
    started = true;
  }

  -- `start_reticulum` (3) and `start_full` (4) after their setup.
  unfoldable pub start_mode : LxmfNode net → ℕ → Bool → Setup → LxmfNode net × Bool
  unfolding spawn_tasks set_started
  start_mode n mode is_beacon setup =
      let (n', beacon_mode) = spawn_tasks n mode in
      (set_started n' mode is_beacon setup, beacon_mode)

  -- `start_ble` refuses on a running node; its data receiver has no beacon mode.
  unfoldable pub start_ble : LxmfNode net → Bool → Setup → Option (LxmfNode net)
  unfolding start_mode
  start_ble n is_beacon setup = if n.running then none else some (start_mode n 0 is_beacon setup).0

  unfoldable pub stop : LxmfNode net → LxmfNode net
  stop n =
      if not n.running
      then n
      else record n { running = false; beacon_mgr = Manager.stop n.beacon_mgr }

  -- What `drain_events` hands out: the node's events, the log lines, the beacon manager's events.
  unfoldable pub drain_events : LxmfNode net → LogBridge → LxmfNode net × LogBridge × List LxmfEvent
  unfolding log_events beacon_events add_events
  drain_events n b =
      let (b', logs) = LogBridge.drain_logs b in
      let (m', found) = Manager.drain_events n.beacon_mgr in
      let out = n.events ++ (log_events logs ++ beacon_events found) in
      (
        record n {
          events = [];
          beacon_mgr = m';
          announces_received = add_events is_announce n.announces_received out;
          messages_received = add_events is_message n.messages_received out;
        },
        b',
        out,
      )
