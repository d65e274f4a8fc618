-- ===== src/Controller/Rounds.antt =====
-- The task of the engine under src/tcp_sim/gui/controller.py: the rounds of `run_auto`, whose messages go to
-- `_send_scheduled_message` and are then counted.
use tcp_server_simulator.Prelude.{Option, if◌then◌else◌, none, ok, raise, some, ℕ}
use tcp_server_simulator.Scheduler.{ScheduledMessage, stop as scheduler_stop}
use tcp_server_simulator.Scheduler.Auto.{Round, leaves, round, waits as loop_waits}
use tcp_server_simulator.Simulator.{SimulatorEngine, count_message, done, is_live}
use tcp_server_simulator.Controller.Commands.{Sending, send_scheduled_message, sends, waits}
use tcp_server_simulator.Controller.{Controller, Outcome}

-- `_on_scheduled_message` behind its callback; an exception ends the task, which stops the scheduler.
unfoldable pub count_sent : ScheduledMessage → SimulatorEngine → Outcome → Controller
unfolding count_message scheduler_stop
count_sent m e (c, ok u) = record c { engine = some (count_message m e); engine_message = none }
count_sent m e (c, raise err) = record c {
  engine = some (record e { run_task = done; scheduler = scheduler_stop e.scheduler });
  engine_message = none;
}

abbrev pub round_sent : ScheduledMessage → SimulatorEngine → Sending → Controller → Controller
unfolding count_sent
round_sent m e waits c = record c { engine_message = some m }
round_sent m e (sends out) c = count_sent m e out

unfoldable pub round_of : Round → ℕ → SimulatorEngine → Controller → Controller
unfolding send_scheduled_message round_sent
round_of (leaves s) now e c = record c {
  engine = some (record e { scheduler = s; run_task = done });
}
round_of (loop_waits s none) now e c = record c { engine = some (record e { scheduler = s }) }
round_of (loop_waits s (some m)) now e c =
    let e' = record e { scheduler = s } in
    let c' = record c { engine = some e' } in round_sent m e' (send_scheduled_message now m c') c'

-- The next part of the task: the message that waits for a client, or else a round.
unfoldable pub wake_engine_of :
    Option SimulatorEngine → Option ScheduledMessage → ℕ → Controller → Controller
unfolding send_scheduled_message round_sent round_of round
wake_engine_of none o now c = c
wake_engine_of (some e) (some m) now c = round_sent m e (send_scheduled_message now m c) c
wake_engine_of (some e) none now c =
    if is_live e.run_task then round_of (round e.scheduler) now e c else c

unfoldable pub wake_engine : ℕ → Controller → Controller
unfolding wake_engine_of
wake_engine now c = wake_engine_of c.engine c.engine_message now c
