-- ===== src/Scheduler.antt =====
-- src/tcp_sim/engine/scheduler.py: the scheduler that turns the records of a file into messages.
-- A rate is given in thousandths of a record a second. Line numbers are natural numbers, so the
-- negative ones, which the code rejects as it rejects 0, have no counterpart.
pub mod Active
pub mod Lines
pub mod Calls
pub mod Pass
pub mod Jump
pub mod Auto
mod Tests
use tcp_server_simulator.Prelude.{
  Bool, Bytes, List, Option, Result, [], false, get_elem?, if◌then◌else◌, index_error, leb, length,
  ltb, max, none, not, ok, raise, raise_if, some, true, value_error, ℕ, ◌+◌, ◌-◌, ◌>>◌, ◌||◌, ◌∷◌,
}
use Active.{active, check_line_controls}

pub record ScheduledMessage : Type 0 where
  pub payload : Bytes
  pub generation : ℕ
  pub is_header : Bool
  pub line_number : ℕ

pub record SendScheduler : Type 0 where
  pub source_records : List Bytes
  pub records : List Bytes
  pub rate : ℕ
  pub loop : Bool
  pub start_line : Option ℕ
  pub end_line : Option ℕ
  pub first_n : Option ℕ
  pub running : Bool
  pub paused : Bool
  pub cursor : ℕ
  pub generation : ℕ
  pub pending_header : Option Bytes
  pub pending_swap : Option (List Bytes × Option Bytes)

-- `max(rate, 0.1)`
unfoldable pub clamp_rate : ℕ → ℕ
clamp_rate rate = max rate 100

-- `__init__`
unfoldable pub init : List Bytes → ℕ → Bool → SendScheduler
unfolding clamp_rate
init records rate loop = record {
  source_records = records;
  records = records;
  rate = clamp_rate rate;
  loop = loop;
  start_line = none;
  end_line = none;
  first_n = none;
  running = false;
  paused = false;
  cursor = 0;
  generation = 0;
  pending_header = none;
  pending_swap = none;
}

-- the properties `current_line` and `total_lines`
unfoldable pub current_line : SendScheduler → ℕ
current_line s = elim s.records [ [] ↦ 0 | r ∷ rs ↦ s.cursor + 1 ]

unfoldable pub total_lines : SendScheduler → ℕ
total_lines s = length s.records

-- `_rebuild_active_records`
unfoldable pub rebuild_active_records : SendScheduler → SendScheduler
rebuild_active_records s = record s {
  records = active s.start_line s.end_line s.first_n s.source_records;
  cursor = 0;
}

unfoldable pub start : SendScheduler → SendScheduler
start s = record s { running = true }

unfoldable pub stop : SendScheduler → SendScheduler
stop s = record s { running = false }

unfoldable pub pause : SendScheduler → SendScheduler
pause s = record s { paused = true }

unfoldable pub resume : SendScheduler → SendScheduler
resume s = record s { paused = false }

unfoldable pub set_rate : ℕ → SendScheduler → SendScheduler
unfolding clamp_rate
set_rate rate s = record s { rate = clamp_rate rate }

unfoldable pub set_records : List Bytes → SendScheduler → SendScheduler
unfolding rebuild_active_records
set_records records s = rebuild_active_records (record s { source_records = records })

unfoldable pub request_file_swap : List Bytes → Option Bytes → SendScheduler → SendScheduler
request_file_swap records header_payload s = record s {
  pending_swap = some (records, header_payload);
}

-- `set_line_controls`
unfoldable pub set_line_controls :
    Option ℕ → Option ℕ → Option ℕ → SendScheduler → Result SendScheduler
unfolding rebuild_active_records
set_line_controls start_line end_line first_n s = do
  check_line_controls start_line end_line first_n
  ok (
      rebuild_active_records
        (record s { start_line = start_line; end_line = end_line; first_n = first_n }))

unfoldable pub jump_to : ℕ → SendScheduler → Result SendScheduler
jump_to line_number s = do
  raise_if (ltb line_number 1 || ltb (length s.records) line_number) value_error
  ok (record s { cursor = line_number - 1 })

unfoldable pub apply_swap : SendScheduler → Option (List Bytes × Option Bytes) → SendScheduler
unfolding rebuild_active_records
apply_swap s none = s
apply_swap s (some (records, header_payload)) =
    let s' = rebuild_active_records (record s { pending_swap = none; source_records = records }) in
    record s' { generation = s'.generation + 1; pending_header = header_payload }

-- `_apply_pending_swap_if_any`
unfoldable pub apply_pending_swap_if_any : SendScheduler → SendScheduler
unfolding apply_swap
apply_pending_swap_if_any s = apply_swap s s.pending_swap

abbrev pub Step : Type 0
Step = Result (SendScheduler × Option ScheduledMessage)

abbrev pub header_message : ℕ → Bytes → ScheduledMessage
header_message generation header = record {
  payload = header;
  generation = generation;
  is_header = true;
  line_number = 0;
}

abbrev pub record_message : ℕ → ℕ → Bytes → ScheduledMessage
record_message generation line payload = record {
  payload = payload;
  generation = generation;
  is_header = false;
  line_number = line;
}

-- The end of `step`, on `records[cursor]`.
unfoldable pub emit_record : SendScheduler → Option Bytes → Step
emit_record s none = raise index_error
emit_record s (some payload) =
    ok (
      record s { cursor = s.cursor + 1 },
      some (record_message s.generation (s.cursor + 1) payload),
    )

-- `step` behind the test for a pending header, on the list of records.
unfoldable pub step_record : SendScheduler → List Bytes → Step
unfolding emit_record
step_record s [] = ok (s, none)
step_record s (r ∷ rs) =
    if leb (length s.records) s.cursor
    then if not s.loop
      then ok (s, none)
      else emit_record (record s { cursor = 0 }) (get_elem? s.records 0)
    else emit_record s (get_elem? s.records s.cursor)

-- `step` behind the swap, on the pending header.
unfoldable pub step_swapped : SendScheduler → Option Bytes → Step
unfolding step_record
step_swapped s (some header) =
    ok (record s { pending_header = none }, some (header_message s.generation header))
step_swapped s none = step_record s s.records

-- `step`
unfoldable pub step : SendScheduler → Step
unfolding apply_pending_swap_if_any step_swapped
step s = let s' = apply_pending_swap_if_any s in step_swapped s' s'.pending_header
