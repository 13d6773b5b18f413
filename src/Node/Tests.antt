-- ===== src/Node/Tests.antt =====
-- The theorems on the node at concrete inputs: a transport that is up (true) or down, and signatures
-- of 64 sevens.
use lxmf_react_native_rust.Prelude.{
  ℕ, ◌≤◌, ◌<◌, ◌≡◌, refl, ◌⊎◌, Bool, true, false, Option, none, some, List, [], ◌∷◌, ◌++◌, arith,
  Bytes, bytes_eq, length, take, replicate,
}
use lxmf_react_native_rust.Node.Drain.{Step, report, logged, drain, HandedOut, run, run-HandedOut}
use lxmf_react_native_rust.LogBridge.{Level, LogBridge}
use lxmf_react_native_rust.Server.{Services, is_rpc_request}
use lxmf_react_native_rust.Beacon.Wire.{Codec, RpcError, announce_prefix_full, decompress_payload}
use lxmf_react_native_rust.Prelude.Map.{bytes_Eq, lookup}
use lxmf_react_native_rust.Lxmf.Utf8.{is_utf8}
use lxmf_react_native_rust.Lxmf.Fields.{Json, Named, media_object, image_of, files_of}
use lxmf_react_native_rust.Lxmf.Payload.{looks_like_rpc_response}
use lxmf_react_native_rust.Store.{MessageStore, open_new, enqueue_outbound, all_outbound_queue}
use lxmf_react_native_rust.Store.Reach.{IsValid, opened, Reachable-Grows}
use lxmf_react_native_rust.Node.{
  LxmfEvent, PendingSend, SendPacketOutcome, sent_direct, dropped_no_route, Network, LxmfNode,
  attempt, after_outcome, max_attempts_reached,
}
use lxmf_react_native_rust.Node.Pending.{
  sends_to, others, on_announce_ble, on_announce, retry_round, expire_in, reload, has_seq, new_rows,
  of_row,
}
use lxmf_react_native_rust.Node.Flush.{Announced, delivered_events, on_announce-Announced}
use lxmf_react_native_rust.Node.Retry.{Distinct, Retried, retry_round-Retried, retry_round-same_seq}
use lxmf_react_native_rust.Node.Send.{queue_send, send_to, payload_of, dispatch}
use lxmf_react_native_rust.Node.Queued.{Sent, send_to-Sent}
use lxmf_react_native_rust.Node.Receive.{on_data_ble, on_resource, BeaconConfig, on_data}
use lxmf_react_native_rust.Node.Inbox.{arrived, Fits}
use lxmf_react_native_rust.Node.Reception.{Received, message_received_lem, message_to_brace}
use lxmf_react_native_rust.Node.Lifecycle.{init, Setup, start_mode, stop, is_announce, is_message}
use lxmf_react_native_rust.Node.Restart.{AllPresent, reload-AllPresent, start_mode-reused_seq}
use lxmf_react_native_rust.Node.GivenUp.{rounds, lone_send_given_up, failed_send_delivered}
use lxmf_react_native_rust.Node.Arrival.{queue_send-arrives}
use lxmf_react_native_rust.Node.AppData.{build_app_data, len_utf8, is_continuation, name_or_default}
use lxmf_react_native_rust.Node.AppData.Cut.{Character, text_of, early, late, build_app_data-early}
use lxmf_react_native_rust.Node.Forged.{Dropped, forged_message}
use lxmf_react_native_rust.Node.BeaconStart.{received, answered, start_mode-beacon_late}
use lxmf_react_native_rust.Node.Config.{Interfaces, GoodPlan, start, start-GoodPlan}

abbrev sevens : Bytes
sevens = replicate 64 7

abbrev network : (Bool → Bytes → SendPacketOutcome) → Network
network outcome = record {
  Transport = Bool;
  DestinationDesc = Bool;
  PrivateIdentity = Bool;
  send_packet_with_outcome = λ t dest payload. (t, outcome t payload);
  send_via_link = λ t desc payload. (t, t);
  request_path = λ t dest. t;
  reply_on_link = λ t link payload. t;
  send_group_packet = λ t dest payload. t;
  from_private_key_bytes = λ bytes. some true;
  sign = λ identity m. sevens;
  verify = λ desc m sig. bytes_eq sig sevens;
  group_encrypt = λ key m. some m;
  group_decrypt = λ key m. some m;
  group_address_hash = λ name. replicate 16 9;
  hex_encode = λ b. b;
  hex_decode = some;
}

abbrev by_state : Bool → Bytes → SendPacketOutcome
by_state true payload = sent_direct
by_state false payload = dropped_no_route

abbrev net : Network
net = network by_state

-- A transport that does not deliver empty payloads.
abbrev by_payload : Bool → Bytes → SendPacketOutcome
by_payload t [] = dropped_no_route
by_payload t (b ∷ bs) = sent_direct

abbrev picky : Network
picky = network by_payload

abbrev dest : Bytes
dest = replicate 16 1

abbrev src : Bytes
src = replicate 16 2

abbrev pending_of : ℕ → Bytes → PendingSend
pending_of seq payload = record { seq = seq; dest = dest; lxmf_payload = payload; store_id = none }

abbrev node : (m : Network) → m.Transport → List PendingSend → LxmfNode m
node m t ps = record (init m t none) { pending_sends = ps }

abbrev one : List PendingSend
one = pending_of 4 (1 ∷ 2 ∷ []) ∷ []

-- A send of 16 bytes.
abbrev whole : List PendingSend
whole = pending_of 5 dest ∷ []

on_announce-Announced_example :
    (let (m, on) = on_announce_ble net (node net true whole) dest true (8 ∷ []) 2 in
      Announced net (node net true whole) dest (8 ∷ []) 2 m × (on ≡ true))
    × (let (m, on) = on_announce net (node net true whole) dest true (8 ∷ []) 2 1000 in
        Announced net (node net true whole) dest (8 ∷ []) 2 m × (on ≡ true))
unfolding sends_to
on_announce-Announced_example =
    on_announce-Announced net (node net true whole) dest true (8 ∷ []) 2 1000 (omega arith, tt)

retry_round-Retried_example :
    Retried net []
      (expire_in net (node net true one) none).events
      (expire_in net (node net true one) none).store
      one
      (retry_round net (node net true one))
unfolding init has_seq
retry_round-Retried_example = retry_round-Retried net (node net true one) (refl, tt)

abbrev twins : List PendingSend
twins = pending_of 0 (1 ∷ []) ∷ pending_of 0 [] ∷ []

retry_round-same_seq_example :
    ((retry_round picky (node picky true twins)).pending_sends ≡ [])
    × ((retry_round picky (node picky true twins)).events
        ≡ (expire_in picky (node picky true twins) none).events
          ++ (LxmfEvent.message_delivered 0 dest ∷ []))
unfolding init expire_in attempt after_outcome
retry_round-same_seq_example =
    retry_round-same_seq picky (node picky true twins) (pending_of 0 (1 ∷ [])) (pending_of 0 [])
      refl refl (refl, refl)

-- A parser that finds in every text one image and one file, both named "a" and holding "a".
abbrev json : Json
json = record {
  Value = Bytes;
  from_str = some;
  as_full_object = some;
  get_object = λ v k. some v;
  get_array = λ v k. some (v ∷ []);
  get_str = λ v k. some (b'a' ∷ []);
  b64_decode = some;
}

abbrev text : Option Bytes
text = some (b'{' ∷ b'1' ∷ b'}' ∷ [])

abbrev content : Bytes
content = b'y' ∷ b'o' ∷ []

-- A started node, without an address.
abbrev sender : LxmfNode net
sender = record (init net false none) {
  started = true;
  identity_bytes = some (replicate 64 3);
  address_hex = src;
}

send_to-Sent_example :
    let (m, r) = send_to net json sender dest content text 1700 1701 in
    Sent net json sender dest content text 1700 1701 m r
send_to-Sent_example = send_to-Sent net json sender dest content text 1700 1701

abbrev to_json : List Named → Bytes
to_json files = b'[' ∷ b']' ∷ []

fits : Fits json content text
unfolding media_object image_of is_utf8 files_of
fits = record {
  content_fits = omega arith;
  image_fits = (omega arith, refl, omega arith);
  files_fit = ((omega arith, refl, omega arith), tt);
  few_files = omega arith;
}

-- A node that knows the sender.
abbrev receiver : LxmfNode net
receiver = record (init net true none) { peer_identities = (src, true) ∷ [] }

room : length receiver.events < 1024
room = unfold init in omega arith

abbrev codec : Codec
codec = record {
  Value = Bytes;
  null = [];
  to_vec = λ request. some request.params;
  from_slice = λ raw. none;
  deflate = λ raw. none;
  inflate = λ raw. none;
}

-- Services that read no JSON.
abbrev services : Services
services = record {
  codec = codec;
  has_method = λ raw. none;
  request_of = λ raw. none;
  first_text = some;
  prepare_request_of = λ raw. none;
  blockhash_text = some;
  write_reply = λ id answer. [];
  b64_decode = some;
  b64_encode = λ b. b;
  bs58_decode = some;
  hex_decode = some;
  sha256 = λ m. replicate 32 1;
  VerifyingKey = Bool;
  key_of = λ k. none;
  verify = λ vk m sig. false;
  World = Bool;
  has_http_client = false;
  post_json = λ w url c. (w, none);
}

abbrev result_text : RpcError ⊎ Bytes → Bytes
result_text r = []

abbrev config : BeaconConfig
config = record { keypair = none; solana_rpc_url = none; program_id = none }

abbrev brace_dest : Bytes
brace_dest = b'{' ∷ replicate 15 1

message_received_lem_example :
    Received net json to_json receiver
      (on_data_ble net to_json receiver (payload_of net json true dest src content text 1700) 1701)
      (arrived json src content text 1701 none)
    × Received net json to_json receiver
        (on_data net to_json services result_text receiver true true config dest
          (payload_of net json true dest src content text 1700)
          1701).0
        (arrived json src content text 1701 none)
message_received_lem_example =
    message_received_lem net json to_json receiver true dest src content text 1700 1701 services
      result_text true true config dest (λ m. refl) refl refl refl refl fits (λ desc e m. refl)
      (omega (arith, room))

message_to_brace_example :
    (on_data_ble net to_json receiver
        (payload_of net json true brace_dest src content text 1700)
        1701
      ≡ receiver)
    × (on_data net to_json services result_text receiver true false config dest
          (payload_of net json true brace_dest src content text 1700)
          1701
        ≡ (receiver, true))
message_to_brace_example =
    message_to_brace net json to_json receiver true brace_dest src content text 1700 1701 services
      result_text true false config dest (replicate 15 1) refl refl refl

-- Peers sign with 64 eights there, and the sender with sevens.
abbrev wary : Network
wary = record net { verify = λ desc m sig. bytes_eq sig (replicate 64 8) }

abbrev guarded : LxmfNode wary
guarded = record (init wary true none) { peer_identities = (src, true) ∷ [] }

forged_message_example :
    let payload = payload_of wary json true dest src content text 1700 in
    Dropped wary json to_json guarded (on_data_ble wary to_json guarded payload 1701)
    × Dropped wary json to_json guarded
        (on_data wary to_json services result_text guarded true true config dest payload 1701).0
    × Received wary json to_json guarded
        (on_resource wary to_json guarded payload 1701)
        (arrived json src content text 1701 none)
unfolding lookup
forged_message_example =
    forged_message wary json to_json guarded true dest src content text 1700 1701 services
      result_text true true config dest true (λ m. refl) refl refl refl refl fits refl (λ m. refl)

abbrev Down : Bool → Type 0
Down up = up ≡ false

abbrev Up : Bool → Type 0
Up up = up ≡ true

net-StaysDown :
    (t : Bool) (to : Bytes) (desc : Option Bool) (payload : Bytes)
    → Down t
    → ((attempt net t to desc payload).1 ≡ false) × Down (attempt net t to desc payload).0
unfolding attempt after_outcome
net-StaysDown true to desc payload h = cc
net-StaysDown false to desc payload h = (refl, refl)

net-StaysUp :
    (t : Bool) (to : Bytes) (desc : Bool) (payload : Bytes)
    → Up t
    → ((attempt net t to (some desc) payload).1 ≡ true)
      × Up (attempt net t to (some desc) payload).0
unfolding attempt after_outcome
net-StaysUp true to desc payload h = (refl, refl)
net-StaysUp false to desc payload h = cc

queue_send-arrives_example :
    let (m, on) =
      on_announce_ble net
        (queue_send net (node net true whole) true 9 dest dest src 1701)
        dest
        true
        (8 ∷ [])
        2 in
    (m.pending_sends ≡ others dest whole)
    × (m.events
        ≡ (((init net true none).events ++ (LxmfEvent.message_queued 9 dest ∷ []))
            ++ (delivered_events net (sends_to dest whole)
                ++ (LxmfEvent.message_delivered 9 dest ∷ [])))
          ++ (LxmfEvent.announce_received dest (8 ∷ []) 2 ∷ []))
    × (on ≡ true)
unfolding sends_to
queue_send-arrives_example =
    queue_send-arrives net Up (node net true whole) true 9 dest dest src 1701 true (8 ∷ []) 2
      net-StaysUp up (omega arith) (omega arith) (omega arith, tt)
  where
    up : Up (node net true whole).transport
    up = unfold init in refl

abbrev lone : PendingSend
lone = record { seq = 0; dest = dest; lxmf_payload = dest; store_id = some 1 }

abbrev offline : LxmfNode net
offline = record (init net false (some (enqueue_outbound open_new 0 dest dest 1701).0)) {
  pending_sends = lone ∷ [];
}

offline-Down : Down offline.transport
offline-Down = unfold init in refl

offline_store : offline.store ≡ some (enqueue_outbound open_new 0 dest dest 1701).0
offline_store = unfold init in refl

new_store : IsValid open_new
new_store = Reachable-Grows open_new opened

lone_send_given_up_example :
    ((rounds net 50 offline).events ≡ offline.events)
    × ((rounds net 51 offline).events
        ≡ offline.events ++ (LxmfEvent.message_failed 0 dest max_attempts_reached ∷ []))
    × ((rounds net 51 offline).pending_sends ≡ lone ∷ [])
lone_send_given_up_example =
    lone_send_given_up net Down net-StaysDown offline open_new 0 dest dest 1701 new_store refl refl
      refl offline_store offline-Down

failed_send_delivered_example :
    (on_announce_ble net
      (record (rounds net 51 offline) { transport = true })
      dest
      true
      (8 ∷ [])
      2).0.events
    ≡ ((offline.events ++ (LxmfEvent.message_failed 0 dest max_attempts_reached ∷ []))
        ++ (LxmfEvent.message_delivered 0 dest ∷ []))
      ++ (LxmfEvent.announce_received dest (8 ∷ []) 2 ∷ [])
failed_send_delivered_example =
    failed_send_delivered net Down net-StaysDown offline open_new 0 dest dest 1701 true true
      (8 ∷ []) 2 new_store refl refl refl offline_store offline-Down (omega arith)
      (net-StaysUp true (take 16 dest) true dest refl).0

-- A store with the first message of an earlier run.
abbrev old_store : MessageStore
old_store = (enqueue_outbound open_new 0 dest dest 1701).0

reload-AllPresent_example :
    AllPresent (all_outbound_queue old_store) (reload one (some old_store))
    × (take 1 (reload one (some old_store)) ≡ one)
    × (reload (reload one (some old_store)) (some old_store) ≡ reload one (some old_store))
reload-AllPresent_example = reload-AllPresent one old_store

abbrev setup : Setup net
setup = record { transport = true; id_hex = []; id_bytes = []; addr_hex = [] }

start_mode-reused_seq_example :
    let n = (start_mode net (init net true (some old_store)) 3 false setup).0 in
    ¬ (
      Distinct
        (dispatch net n n.outbound_sent dest dest dest 1800
          SendPacketOutcome.dropped_no_route).0.pending_sends)
unfolding enqueue_outbound all_outbound_queue reload new_rows has_seq of_row
start_mode-reused_seq_example =
    start_mode-reused_seq net true old_store
      (record { id = 1; seq = 0; dest = dest; payload = dest }) [] 3 false setup dest dest dest 1800
      refl refl (omega arith)

-- Every payload is a request, and a server is configured.
abbrev asked : Services
asked = record services { has_method = λ raw. some true }

abbrev with_server : BeaconConfig
with_server = record { keypair = none; solana_rpc_url = some (b'u' ∷ []); program_id = none }

abbrev request : Bytes
request = b'{' ∷ b'}' ∷ []

start_mode-beacon_late_example :
    let (n, serves) = start_mode net (init net true none) 3 true setup in
    let (n', serves') = start_mode net (stop net n) 3 true setup in
    ((n.is_beacon ≡ true)
      × (received net to_json asked result_text true with_server dest request
            (b'u' ∷ [])
            1701
            n
            serves
          ≡ (n, true)))
    × ((n'.is_beacon ≡ true)
        × (received net to_json asked result_text true with_server dest request
              (b'u' ∷ [])
              1701
              n'
              serves'
            ≡ answered net to_json asked result_text true with_server dest request
                (b'u' ∷ [])
                1701
                n'))
unfolding looks_like_rpc_response is_rpc_request decompress_payload
start_mode-beacon_late_example =
    start_mode-beacon_late net to_json asked result_text true with_server dest request (b'u' ∷ [])
      1701 true none 3 setup refl refl refl

-- 31 ASCII letters and a character of four bytes make a name of 35 bytes; one more is left out.
unfoldable letter : Character
unfolding is_continuation len_utf8
letter = record {
  lead = b'a';
  tail = [];
  lead_starts = refl;
  tail_continues = tt;
  tail_length = refl;
}

unfoldable wide : Character
unfolding is_continuation len_utf8
wide = record {
  lead = 0xf0;
  tail = 0x9f ∷ 0x92 ∷ 0xac ∷ [];
  lead_starts = refl;
  tail_continues = (refl, (refl, (refl, tt)));
  tail_length = refl;
}

abbrev long_name : List Character
long_name = replicate 31 letter ++ (wide ∷ letter ∷ [])

whole_at_35 : length (text_of (early 0 long_name)) ≡ 35
unfolding len_utf8 letter wide
whole_at_35 = refl

build_app_data-early_example :
    (build_app_data (text_of long_name) true ≡ announce_prefix_full ++ text_of (early 0 long_name))
    × (length (text_of (early 0 long_name)) ≤ 35)
    × (text_of long_name ≡ text_of (early 0 long_name) ++ text_of (late 0 long_name))
unfolding letter wide name_or_default
build_app_data-early_example = build_app_data-early (text_of long_name) true long_name refl

abbrev interfaces : Interfaces
interfaces = record {
  Value = Bytes;
  from_str = λ t. some (t ∷ []);
  host_of = some;
  port_of = λ v. some 4242;
}

start-GoodPlan_example : GoodPlan interfaces 4 (start interfaces 4 5000 (b'h' ∷ []))
start-GoodPlan_example = start-GoodPlan interfaces 4 5000 (b'h' ∷ [])

abbrev announced : LxmfEvent
announced = LxmfEvent.announce_received dest content 2

abbrev greeting : LxmfEvent
greeting = LxmfEvent.message_received (arrived json src content text 1701 none)

abbrev quiet : LogBridge
quiet = record { queue = []; max_level = some Level.info }

-- Two events and a line in front of a drain, one event behind it.
abbrev drain_steps : List Step
drain_steps =
    report (announced ∷ greeting ∷ [])
    ∷ logged (record { level = Level.warn; target = []; args = content })
    ∷ drain
    ∷ report (announced ∷ [])
    ∷ []

run-HandedOut_example :
    let (m, c, out) = run net receiver quiet drain_steps in
    HandedOut net is_message (λ k. k.messages_received) receiver m out drain_steps
    × HandedOut net is_announce (λ k. k.announces_received) receiver m out drain_steps
unfolding init
run-HandedOut_example = run-HandedOut net receiver quiet drain_steps (omega arith) (omega arith)
