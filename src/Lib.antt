-- ===== src/Lib.antt =====
-- Verification of the Rust core of lxmf_react_native_rust: the code that carries LXMF messages of a
-- phone over a Reticulum mesh, and pays for relays with Solana transactions.
--
-- The parts and how they interact. A message is written by `LxmfNode::send_to` as an LXMF payload
-- (destination, source, signature, msgpack). The transport (rns-transport) puts it in packets, and
-- hands these to an interface: to BLE, which frames a packet by HDLC, cuts the frame into segments of
-- the peer's write limit and queues them for Kotlin; or to an RNode, which takes KISS frames. A message
-- that the transport does not take is queued in the node and in the SQLite store; the queue is flushed
-- when the peer announces itself, and retried every minute. Frames that arrive are queued by Kotlin,
-- and on the interface's next round reassembled, deframed and handed to the transport, which gives the
-- payload to the node; the node checks its signature, decodes it, stores it and reports it as an
-- event. Payments are Solana transactions, which the payer and then a beacon sign; the manager of
-- beacons announces, keeps track of the beacons heard, and sends them JSON-RPC calls, and the server of
-- a beacon answers them: it prepares a transaction, co-signs and submits it, or forwards the call.
--
-- Which file models which part (paths from the repository's root):
--   * Framing/Hdlc, Framing/Kiss: rust-core/src/framing.rs. A deframer is a record; `feed` returns the
--     new deframer and the frames. `stuff` is the loop of the encoder.
--   * Ble/Segment: `segment`, `segment_with_payload` and `PeerAssembly` of rust-core/src/ble_iface.rs.
--   * Ble/Queues: its statics as one record `Ble`, and the functions that Kotlin calls on them. The
--     instant is an argument, in milliseconds.
--   * Ble/Worker: `BleInterface::spawn`; `poll_rx` and `poll_tx` are the two halves of a round of its
--     loop. What is sent to the transport is the result, what comes from it is an argument.
--   * Nus: rust-core/src/nus_iface.rs, in the same way.
--   * Lxmf/Msgpack, Lxmf/Fields, Lxmf/Payload: the codecs at the end of rust-core/src/node.rs. The
--     mutable position is the rest of the input. Lxmf/Utf8 is the standard library's UTF-8 check.
--   * Solana/Compact, Message, Build, Slots and Nonce: rust-core/src/solana_tx.rs.
--   * Solana/Inspect: the checks of rust-core/src/beacon_server.rs on a message that it is to co-sign.
--   * Beacon/Wire: the announces, the compression and the JSON-RPC messages of
--     rust-core/src/beacon.rs; Beacon/Manager its `BeaconManager`, Beacon/Rpc and Beacon/Requests
--     the calls. Each operation is a function from manager to manager; Beacon/Reach has the relation
--     of their steps.
--   * Store: rust-core/src/store.rs. A table is the list of its rows; Store/Messages is
--     `fetch_messages`. Store/Reach has the relation of the store's steps; Store/Outbound, Store/Expiry
--     and Store/Refine are about the queue of sends.
--   * LogBridge: rust-core/src/log_bridge.rs.
--   * Node: `LxmfNode` of rust-core/src/node.rs as one record. Node/Lifecycle: `init`, the starts,
--     `stop`, `drain_events`; Node/Config and Node/AppData: what `start` is given; Node/Send: `send_to`;
--     Node/Pending: the queue of pending sends with the announce receiver and the retry task;
--     Node/Receive: the data, resource and group receivers and the dispatch of RPCs; Node/Groups:
--     rust-core/src/group.rs and the group calls. Node/Flush, Retry, Dispatched, Queued,
--     Arrival, GivenUp, Restart, BeaconStart, Drain, Inbox, Reception, Forged and GroupTalk are about
--     these, and Node/AppData/Cut about the name in an announce. The flush of an announce returns
--     whether its task goes on: it panics on a payload of less than 16 bytes.
--   * Server, Server/Prepare: the requests that rust-core/src/beacon_server.rs answers; Server/Cosign
--     and Server/Approved are about the co-signing.
--   * Prelude: numbers, lists, association lists and bit masks that the parts share. Prelude/Tests
--     has the Boolean tests on numbers and bytes; the other modules named Tests apply the theorems to
--     concrete inputs. Prelude/Int has the i64 as which the store keeps the time of a message.
--
-- Bytes are natural numbers; where a shift or a cast cuts bits off, the remainder is written out.
-- Maps are association lists. A lock is never poisoned. Loops are by recursion on their list; the
-- loops with a bound of their own (three rounds of a compact-u16, 17 levels of `mp_skip`) count it
-- down, and `chunks` has the length of its input as fuel, which is enough since every round takes at
-- least one byte.
--
-- Parameters, for code of other libraries: `deserialize` and `serialize` of rns-transport's packets,
-- serde_json and base64 (the record `Json`; with zlib, the record `Codec`), SHA-256, and the
-- signatures of ed25519.
--
-- The transport of the node is the record `Network`: the state of rns-transport, which every call of
-- it may change, with identities, group encryption and hexadecimal writing. The services of a beacon
-- are the record `Services`: JSON, base64, bs58, keys, and the HTTP client with the state behind it.
--
-- The tasks of a node share its fields behind locks. What a task does with one announce, packet or
-- round is one step of the model; a step is not interrupted by another.
--
-- Not modelled: the tokio tasks and their channels, timers and cancellation, the setup of the
-- transport, the periodic announces, the status JSON, errors of SQLite and the migration of its old
-- tables, the FFI and JNI layers (which convert pointers and strings around these calls),
-- rns-transport itself (rust-core/patches), and the Expo module.
pub mod Prelude
pub mod Framing
pub mod Ble
pub mod Nus
pub mod Lxmf
pub mod Solana
pub mod Beacon
pub mod Store
pub mod Node
pub mod Server
pub mod LogBridge
