-- ===== src/LogBridge/Tests.antt =====
-- The theorem on the buffer of log lines at a concrete input.
use lxmf_react_native_rust.Prelude.{◌≤◌, ◌≡◌, none, List, [], ◌∷◌, ◌++◌, arith, length}
use lxmf_react_native_rust.LogBridge.{
  LogBridge, Record, error, warn, debug, log_buffer_capacity, set_max_level_from_u32,
}
use lxmf_react_native_rust.LogBridge.Buffer.{newest, lines_of, log_all, log_all-newest}

abbrev at_warn : LogBridge
at_warn = set_max_level_from_u32 (record { queue = []; max_level = none }) 1

abbrev records : List Record
records =
    record { level = error; target = b'n' ∷ []; args = b'a' ∷ [] }
    ∷ record { level = debug; target = []; args = b'b' ∷ [] }
    ∷ record { level = warn; target = []; args = b'c' ∷ [] }
    ∷ []

log_all-newest_example :
    ((log_all at_warn records).queue
      ≡ newest log_buffer_capacity (at_warn.queue ++ lines_of at_warn records))
    × (length (log_all at_warn records).queue ≤ log_buffer_capacity)
log_all-newest_example = log_all-newest records at_warn room
  where
    room : length at_warn.queue ≤ log_buffer_capacity
    room = unfold set_max_level_from_u32 in omega arith
