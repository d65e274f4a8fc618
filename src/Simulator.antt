-- ===== src/Simulator.antt =====
-- src/tcp_sim/engine/simulator.py: the engine that runs the scheduler and counts what it sends.
use tcp_server_simulator.Prelude.{
  Bool, Bytes, List, Option, Result, false, if◌then◌else◌, length, not, ok, raise, runtime_error,
  true, ℕ, ◌+◌,
}
use tcp_server_simulator.Scheduler.{
  ScheduledMessage, SendScheduler, Step, request_file_swap, set_rate, init as scheduler_init,
  start as scheduler_start, stop as scheduler_stop, pause as scheduler_pause,
  resume as scheduler_resume, step as scheduler_step, jump_to as scheduler_jump_to,
  set_line_controls as scheduler_set_line_controls,
}

-- `_run_task`: none, one that runs, or one that has ended.
pub data RunTask : Type 0 where
  no_task live done : RunTask

-- With the fields of `EngineStats`, and `send_callback` for whether there is one.
pub record SimulatorEngine : Type 0 where
  pub scheduler : SendScheduler
  pub send_callback : Bool
  pub run_task : RunTask
  pub features_sent : ℕ
  pub bytes_sent : ℕ

-- `__init__`
unfoldable pub init : List Bytes → Bool → ℕ → Bool → SimulatorEngine
unfolding scheduler_init
init initial_records send_callback rate loop = record {
  scheduler = scheduler_init initial_records rate loop;
  send_callback = send_callback;
  run_task = no_task;
  features_sent = 0;
  bytes_sent = 0;
}

abbrev pub is_live : RunTask → Bool
is_live live = true
is_live _ = false

-- `is_running`
unfoldable pub is_running : SimulatorEngine → Bool
is_running e = is_live e.run_task

-- `start`, up to its `asyncio.sleep(0)`: the task starts the scheduler. Its first round, which is made within that
-- sleep, is that of Controller/Starting.
unfoldable pub start : SimulatorEngine → SimulatorEngine × Result (Unit {0})
unfolding is_running scheduler_start
start e =
    if is_running e
    then (e, ok tt)
    else if not e.send_callback
    then (e, raise runtime_error)
    else (record e { run_task = live; scheduler = scheduler_start e.scheduler }, ok tt)

-- `stop`
unfoldable pub stop : SimulatorEngine → SimulatorEngine
unfolding scheduler_stop
stop e = record e { run_task = no_task; scheduler = scheduler_stop e.scheduler }

-- `pause`
unfoldable pub pause : SimulatorEngine → SimulatorEngine
unfolding scheduler_pause
pause e = record e { scheduler = scheduler_pause e.scheduler }

-- `resume`
unfoldable pub resume : SimulatorEngine → SimulatorEngine
unfolding scheduler_resume
resume e = record e { scheduler = scheduler_resume e.scheduler }

abbrev pub with_step : Step → SimulatorEngine → Result (SimulatorEngine × Option ScheduledMessage)
with_step (ok (s, m)) e = ok (record e { scheduler = s }, m)
with_step (raise err) e = raise err

-- `step`
unfoldable pub step : SimulatorEngine → Result (SimulatorEngine × Option ScheduledMessage)
unfolding scheduler_step
step e = with_step (scheduler_step e.scheduler) e

abbrev pub with_scheduler : Result SendScheduler → SimulatorEngine → Result SimulatorEngine
with_scheduler (ok s) e = ok (record e { scheduler = s })
with_scheduler (raise err) e = raise err

-- `jump_to`
unfoldable pub jump_to : ℕ → SimulatorEngine → Result SimulatorEngine
unfolding scheduler_jump_to
jump_to line_number e = with_scheduler (scheduler_jump_to line_number e.scheduler) e

-- `update_rate`
unfoldable pub update_rate : ℕ → SimulatorEngine → SimulatorEngine
unfolding set_rate
update_rate rate e = record e { scheduler = set_rate rate e.scheduler }

-- `set_line_controls`
unfoldable pub set_line_controls :
    Option ℕ → Option ℕ → Option ℕ → SimulatorEngine → Result SimulatorEngine
unfolding scheduler_set_line_controls
set_line_controls start_line end_line first_n e =
    with_scheduler (scheduler_set_line_controls start_line end_line first_n e.scheduler) e

-- `swap_records`
unfoldable pub swap_records : List Bytes → Option Bytes → SimulatorEngine → SimulatorEngine
unfolding request_file_swap
swap_records new_records header_payload e = record e {
  scheduler = request_file_swap new_records header_payload e.scheduler;
}

-- The counters of `_on_scheduled_message`, behind its callback.
unfoldable pub count_message : ScheduledMessage → SimulatorEngine → SimulatorEngine
count_message m e = record e {
  features_sent = e.features_sent + 1;
  bytes_sent = e.bytes_sent + length m.payload;
}
