-- ===== src/LogBridge.antt =====
-- rust-core/src/log_bridge.rs: the buffer of log lines that `drain_events` hands to the native layer.
-- A level and a maximum level are compared by their ranks, as in the `log` crate; writing the line to
-- logcat or to stderr is not modelled. A message is its UTF-8 bytes.
pub mod Buffer
mod Tests
use lxmf_react_native_rust.Prelude.{
  subst, ℕ, zero, suc, ◌+◌, ◌-◌, ◌*◌, ◌/◌, ◌%◌, ◌^◌, ◌≤◌, ◌<◌, min, max, ◌≡◌, refl, sym, ap, ap₂,
  ◌∙◌, ◌≢◌, ◌↔◌, ◌⊎◌, inl, inr, Bool, true, false, not, ◌&&◌, ◌||◌, Option, none, some, List, [],
  ◌∷◌, ◌++◌, map, append-nil, append_assoc, arith, Bytes, IsByte, ltb, leb, ◌==◌, if◌then◌else◌,
  ltb→lt, lt→ltb, leb→le, le→leb, ==_iff, Bool-cases, Option-cases, bytes_eq, bytes_eq→eq,
  bytes_eq_refl, starts_with, starts_with-append, length, get_elem?, set, get_or, take, drop,
  replicate, length-append, length-take, length-drop, length-replicate, length-map, length-set,
  take-append-drop, get_elem?-set_self, get_elem?-set_ne,
}

pub data Level : Type 0 where
  error : Level
  warn : Level
  info : Level
  debug : Level
  trace : Level

abbrev pub log_buffer_capacity : ℕ
log_buffer_capacity = 400

pub record QueuedLog : Type 0 where
  pub level : ℕ
  pub message : Bytes

-- A maximum level of none is `LevelFilter::Off`.
pub record LogBridge : Type 0 where
  pub queue : List QueuedLog
  pub max_level : Option Level

unfoldable pub level_to_u32 : Level → ℕ
level_to_u32 error = 0
level_to_u32 warn = 1
level_to_u32 info = 2
level_to_u32 debug = 3
level_to_u32 trace = 4

unfoldable pub level_of : ℕ → Level
level_of level =
    if level == 0
    then error
    else (if level == 1
        then warn
        else (if level == 2 then info else (if level == 3 then debug else trace)))

unfoldable pub set_max_level_from_u32 : LogBridge → ℕ → LogBridge
unfolding level_of
set_max_level_from_u32 b level = record b { max_level = some (level_of level) }

unfoldable pub enabled : Option Level → Level → Bool
unfolding level_to_u32
enabled none level = false
enabled (some most) level = leb (level_to_u32 level) (level_to_u32 most)

-- "{target}: {args}", or the arguments alone.
unfoldable pub render : Bytes → Bytes → Bytes
render [] args = args
render (t ∷ ts) args = (t ∷ ts) ++ (b':' ∷ b' ' ∷ args)

-- The oldest line goes when the buffer is full.
unfoldable pub push_log : List QueuedLog → QueuedLog → List QueuedLog
push_log q entry =
    if leb log_buffer_capacity (length q) then drop 1 q ++ (entry ∷ []) else q ++ (entry ∷ [])

pub record Record : Type 0 where
  pub level : Level
  pub target : Bytes
  pub args : Bytes

unfoldable pub log : LogBridge → Record → LogBridge
unfolding enabled push_log render level_to_u32
log b r = if not (enabled b.max_level r.level) then b else record b {
  queue =
      push_log b.queue (record { level = level_to_u32 r.level; message = render r.target r.args });
}

unfoldable pub drain_logs : LogBridge → LogBridge × List QueuedLog
drain_logs b = (record b { queue = [] }, b.queue)
