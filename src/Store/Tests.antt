-- ===== src/Store/Tests.antt =====
-- The theorems on the store at concrete inputs.
use lxmf_react_native_rust.Prelude.{
  ◌+◌, ◌≡◌, refl, false, none, some, List, [], ◌∷◌, ◌++◌, arith, Bytes, ltb, leb, ◌==◌,
  if◌then◌else◌, length, replicate,
}
use lxmf_react_native_rust.Store.Refine.{sends, raised, fresh, sends_lem}
use lxmf_react_native_rust.Prelude.Int.{pos}
use lxmf_react_native_rust.Lxmf.Fields.{Named}
use lxmf_react_native_rust.Store.{
  MessageStore, open_new, max_attempts, insert_inbound_message, enqueue_outbound,
  bump_outbound_attempts, all_outbound_queue, drain_expired_outbound, remove_outbound,
}
use lxmf_react_native_rust.Store.Reach.{Reachable, opened, enqueued, bumped, Reachable-Grows}
use lxmf_react_native_rust.Store.Expiry.{bump_times, given_up, drain_expired_outbound_lem}
use lxmf_react_native_rust.Store.Messages.{Text, fetch_messages, fetch_messages-insert}

abbrev dest : Bytes
dest = replicate 16 7

-- One send, which has failed once.
abbrev one_send : MessageStore
one_send = bump_outbound_attempts (enqueue_outbound open_new 0 dest (1 ∷ 2 ∷ []) 5).0 1

one_send-Reachable : Reachable one_send
one_send-Reachable = bumped _ 1 (enqueued _ 0 dest (1 ∷ 2 ∷ []) 5 opened)

given_up_example :
    let (s', id) = enqueue_outbound one_send 1 dest (3 ∷ []) 6 in
    let t = bump_times 50 s' id in
    (all_outbound_queue t
      ≡ all_outbound_queue one_send
        ++ (if ltb 50 max_attempts
            then record { id = id; seq = 1; dest = dest; payload = 3 ∷ [] } ∷ []
            else []))
    × ((drain_expired_outbound t max_attempts).1
        ≡ (drain_expired_outbound one_send max_attempts).1
          ++ (if leb max_attempts 50 then record { id = id; seq = 1; dest = dest } ∷ [] else []))
given_up_example =
    given_up one_send 1 dest (3 ∷ []) 6 50 (Reachable-Grows one_send one_send-Reachable) refl

drain_expired_outbound_lem_example :
    let (s', out) = drain_expired_outbound one_send max_attempts in
    (all_outbound_queue s' ≡ all_outbound_queue one_send)
    × (length (all_outbound_queue one_send) + length out ≡ length one_send.outbound_queue)
    × ((drain_expired_outbound s' max_attempts).1 ≡ [])
drain_expired_outbound_lem_example = drain_expired_outbound_lem one_send

-- Text that is kept as it is.
abbrev text : Text
text = record { Value = Bytes; from_str = some; encode = λ b. b; hex = λ b. b }

abbrev to_json : List Named → Bytes
to_json files = b'[' ∷ b']' ∷ []

fetch_messages-insert_example :
    let (s', id) =
      insert_inbound_message to_json one_send (replicate 16 1) dest [] (b'y' ∷ []) none [] 1700 in
    fetch_messages text s' 5
    ≡ record {
      id = id;
      source = replicate 16 1;
      dest = dest;
      title = [];
      body = b'y' ∷ [];
      outbound = false;
      timestamp = pos 1700;
      acked = false;
      image = none;
      files = none;
    }
      ∷ fetch_messages text one_send 4
fetch_messages-insert_example =
    fetch_messages-insert text to_json (λ files. b'[' ∷ b']' ∷ []) one_send (replicate 16 1) dest []
      (b'y' ∷ []) none [] 1700 4 (λ fs. refl) (omega arith)

sends_lem_example :
    (let (s', new_id) = enqueue_outbound one_send 1 dest (3 ∷ []) 6 in
      (sends one_send new_id ≡ none)
      × (sends s' 1 ≡ (
          if 1 == new_id
          then some (record {
            id = new_id;
            seq = 1;
            dest_hash = dest;
            lxmf_payload = 3 ∷ [];
            queued_at = 6;
            attempts = 0;
          })
          else sends one_send 1)))
    × (sends (remove_outbound one_send 1) 1 ≡ (if 1 == 1 then none else sends one_send 1))
    × (sends (bump_outbound_attempts one_send 1) 1
        ≡ (if 1 == 1 then raised (sends one_send 1) else sends one_send 1))
    × (sends (drain_expired_outbound one_send 1).0 1 ≡ fresh 1 (sends one_send 1))
sends_lem_example =
    sends_lem one_send 1 dest (3 ∷ []) 6 1 1 1 (Reachable-Grows one_send one_send-Reachable)
