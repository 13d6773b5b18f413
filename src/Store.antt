-- ===== src/Store.antt =====
-- rust-core/src/store.rs: `MessageStore`, the SQLite tables of messages, transactions and queued
-- sends. A table is the list of its rows in the order of their ids, and a statement the change of
-- the list that it writes out; AUTOINCREMENT never gives an id twice, so the next id is kept. Every
-- statement succeeds. `now` is the clock's second count; a `seq` written as i64 is read back as the
-- same u64, so both are its 64 bits; a message's time is read back as the i64.
pub mod Outbound
pub mod Expiry
pub mod Reach
pub mod Messages
pub mod Refine
mod Tests
use lxmf_react_native_rust.Prelude.{
  subst, ℕ, zero, suc, ◌+◌, ◌-◌, ◌*◌, ◌/◌, ◌%◌, ◌^◌, ◌≤◌, ◌<◌, min, max, ◌≡◌, refl, sym, ap, ap₂,
  ◌∙◌, ◌≢◌, ◌↔◌, ◌⊎◌, inl, inr, Bool, true, false, not, ◌&&◌, ◌||◌, Option, none, some, List, [],
  ◌∷◌, ◌++◌, map, append-nil, append_assoc, arith, Bytes, IsByte, ltb, leb, ◌==◌, if◌then◌else◌,
  ltb→lt, lt→ltb, leb→le, le→leb, ==_iff, Bool-cases, Option-cases, bytes_eq, bytes_eq→eq,
  bytes_eq_refl, starts_with, starts_with-append, length, get_elem?, set, get_or, take, drop,
  replicate, length-append, length-take, length-drop, length-replicate, length-map, length-set,
  take-append-drop, get_elem?-set_self, get_elem?-set_ne,
}
use lxmf_react_native_rust.Prelude.Int.{ℤ, pos, as_i64}
use lxmf_react_native_rust.Lxmf.Fields.{Named}

pub record MessageRow : Type 0 where
  pub id : ℕ
  pub source_hash : Bytes
  pub dest_hash : Bytes
  pub title : Option Bytes
  pub body : Bytes
  pub image_mime : Option Bytes
  pub image_data : Option Bytes
  pub files_json : Option Bytes
  pub outbound : Bool
  pub timestamp : ℤ
  pub acked : Bool

pub record TxRow : Type 0 where
  pub id : ℕ
  pub signature : Option Bytes
  pub raw_tx : Bytes
  pub status : Bytes
  pub timestamp : ℕ
  pub relayed_via : Option Bytes

pub record OutboundRow : Type 0 where
  pub id : ℕ
  pub seq : ℕ
  pub dest_hash : Bytes
  pub lxmf_payload : Bytes
  pub queued_at : ℕ
  pub attempts : ℕ

pub record MessageStore : Type 0 where
  pub messages : List MessageRow
  pub solana_txs : List TxRow
  pub outbound_queue : List OutboundRow
  pub next_message : ℕ
  pub next_tx : ℕ
  pub next_outbound : ℕ

-- A new database.
abbrev pub open_new : MessageStore
open_new = record {
  messages = [];
  solana_txs = [];
  outbound_queue = [];
  next_message = 1;
  next_tx = 1;
  next_outbound = 1;
}

-- "pending"
abbrev pub pending : Bytes
pending = b'p' ∷ b'e' ∷ b'n' ∷ b'd' ∷ b'i' ∷ b'n' ∷ b'g' ∷ []

abbrev pub max_attempts : ℕ
max_attempts = 50

unfoldable pub fst_of : Option Named → Option Bytes
fst_of none = none
fst_of (some (mime, contents)) = some mime

unfoldable pub snd_of : Option Named → Option Bytes
snd_of none = none
snd_of (some (mime, contents)) = some contents

-- No files and an empty title are NULL.
unfoldable pub files_text : (List Named → Bytes) → List Named → Option Bytes
files_text to_json [] = none
files_text to_json (f ∷ fs) = some (to_json (f ∷ fs))

unfoldable pub title_text : Bytes → Option Bytes
title_text [] = none
title_text (b ∷ bs) = some (b ∷ bs)

-- `to_json` writes the array of names and base64 contents.
unfoldable pub insert_inbound_message :
    (List Named → Bytes)
    → MessageStore
    → Bytes
    → Bytes
    → Bytes
    → Bytes
    → Option Named
    → List Named
    → ℕ
    → MessageStore × ℕ
unfolding files_text title_text fst_of snd_of as_i64
insert_inbound_message to_json s source_hash dest_hash title body image files timestamp = (
  record s {
    messages =
        s.messages
        ++ (record {
          id = s.next_message;
          source_hash = source_hash;
          dest_hash = dest_hash;
          title = title_text title;
          body = body;
          image_mime = fst_of image;
          image_data = snd_of image;
          files_json = files_text to_json files;
          outbound = false;
          timestamp = as_i64 timestamp;
          acked = false;
        }
            ∷ []);
    next_message = suc s.next_message;
  },
  s.next_message,
)

unfoldable pub insert_message : MessageStore → Bytes → Bytes → Bool → ℕ → MessageStore × ℕ
insert_message s dest_hash body outbound now = (
  record s {
    messages =
        s.messages
        ++ (record {
          id = s.next_message;
          source_hash = replicate 16 0;
          dest_hash = dest_hash;
          title = none;
          body = body;
          image_mime = none;
          image_data = none;
          files_json = none;
          outbound = outbound;
          timestamp = pos now;
          acked = false;
        }
            ∷ []);
    next_message = suc s.next_message;
  },
  s.next_message,
)

unfoldable pub insert_solana_tx : MessageStore → Bytes → Option Bytes → ℕ → MessageStore × ℕ
insert_solana_tx s raw_tx relayed_via now = (
  record s {
    solana_txs =
        s.solana_txs
        ++ (record {
          id = s.next_tx;
          signature = none;
          raw_tx = raw_tx;
          status = pending;
          timestamp = now;
          relayed_via = relayed_via;
        }
            ∷ []);
    next_tx = suc s.next_tx;
  },
  s.next_tx,
)

unfoldable pub set_status : List TxRow → ℕ → Bytes → Option Bytes → List TxRow
set_status [] id status signature = []
set_status (r ∷ rs) id status signature =
    let rest = set_status rs id status signature in
    if r.id == id then record r { status = status; signature = signature } ∷ rest else r ∷ rest

unfoldable pub update_tx_status : MessageStore → ℕ → Bytes → Option Bytes → MessageStore
unfolding set_status
update_tx_status s id status signature = record s {
  solana_txs = set_status s.solana_txs id status signature;
}

unfoldable pub pending_rows : List TxRow → List TxRow
pending_rows [] = []
pending_rows (r ∷ rs) =
    let rest = pending_rows rs in if bytes_eq r.status pending then r ∷ rest else rest

-- The rows; their id, hex, status and timestamp go into the JSON text.
unfoldable pub fetch_pending_txs : MessageStore → List TxRow
unfolding pending_rows
fetch_pending_txs s = pending_rows s.solana_txs

-- What `all_outbound_queue` returns of a row.
pub record QueuedSend : Type 0 where
  pub id : ℕ
  pub seq : ℕ
  pub dest : Bytes
  pub payload : Bytes

-- The blob in an array of 16 bytes: cut off, or filled up with zeros.
unfoldable pub dest_array : Bytes → Bytes
dest_array blob = take 16 blob ++ drop (length blob) (replicate 16 0)

unfoldable pub enqueue_outbound : MessageStore → ℕ → Bytes → Bytes → ℕ → MessageStore × ℕ
enqueue_outbound s seq dest payload now = (
  record s {
    outbound_queue =
        s.outbound_queue
        ++ (record {
          id = s.next_outbound;
          seq = seq;
          dest_hash = dest;
          lxmf_payload = payload;
          queued_at = now;
          attempts = 0;
        }
            ∷ []);
    next_outbound = suc s.next_outbound;
  },
  s.next_outbound,
)

unfoldable pub queued_send : OutboundRow → QueuedSend
unfolding dest_array
queued_send r = record {
  id = r.id;
  seq = r.seq;
  dest = dest_array r.dest_hash;
  payload = r.lxmf_payload;
}

unfoldable pub retryable : List OutboundRow → List QueuedSend
unfolding queued_send
retryable [] = []
retryable (r ∷ rs) =
    let rest = retryable rs in if ltb r.attempts max_attempts then queued_send r ∷ rest else rest

unfoldable pub all_outbound_queue : MessageStore → List QueuedSend
unfolding retryable
all_outbound_queue s = retryable s.outbound_queue

unfoldable pub delete_id : List OutboundRow → ℕ → List OutboundRow
delete_id [] id = []
delete_id (r ∷ rs) id = let rest = delete_id rs id in if r.id == id then rest else r ∷ rest

unfoldable pub remove_outbound : MessageStore → ℕ → MessageStore
unfolding delete_id
remove_outbound s id = record s { outbound_queue = delete_id s.outbound_queue id }

unfoldable pub bump_id : List OutboundRow → ℕ → List OutboundRow
bump_id [] id = []
bump_id (r ∷ rs) id =
    let rest = bump_id rs id in
    if r.id == id then record r { attempts = suc r.attempts } ∷ rest else r ∷ rest

unfoldable pub bump_outbound_attempts : MessageStore → ℕ → MessageStore
unfolding bump_id
bump_outbound_attempts s id = record s { outbound_queue = bump_id s.outbound_queue id }

-- What `drain_expired_outbound` returns of a row.
pub record Expired : Type 0 where
  pub id : ℕ
  pub seq : ℕ
  pub dest : Bytes

unfoldable pub expired_rows : List OutboundRow → ℕ → List Expired
unfolding dest_array
expired_rows [] limit = []
expired_rows (r ∷ rs) limit =
    let rest = expired_rows rs limit in
    if leb limit r.attempts
    then record { id = r.id; seq = r.seq; dest = dest_array r.dest_hash } ∷ rest
    else rest

unfoldable pub delete_expired : List OutboundRow → ℕ → List OutboundRow
delete_expired [] limit = []
delete_expired (r ∷ rs) limit =
    let rest = delete_expired rs limit in if leb limit r.attempts then rest else r ∷ rest

-- The rows are deleted only if one was found.
unfoldable pub drain_found : MessageStore → ℕ → List Expired → MessageStore × List Expired
unfolding delete_expired
drain_found s limit [] = (s, [])
drain_found s limit (e ∷ es) =
    (record s { outbound_queue = delete_expired s.outbound_queue limit }, e ∷ es)

unfoldable pub drain_expired_outbound : MessageStore → ℕ → MessageStore × List Expired
unfolding drain_found expired_rows
drain_expired_outbound s limit = drain_found s limit (expired_rows s.outbound_queue limit)
