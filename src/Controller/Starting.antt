-- ===== src/Controller/Starting.antt =====
-- The start of a transmission under src/tcp_sim/gui/controller.py. `await asyncio.sleep(0)` in the start of the engine
-- lets its task make its first round, at the time `now`, before the start goes on.
use tcp_server_simulator.Prelude.{
  Bytes, List, Option, Result, [], attribute_error, if◌then◌else◌, length, none, ok, raise, some,
  true, ℕ, ◌&&◌, ◌∷◌,
}
use tcp_server_simulator.Scheduler.{current_line, total_lines}
use tcp_server_simulator.Simulator.{SimulatorEngine}
use tcp_server_simulator.Controller.Transports.{RuntimeSettings, build_transport}
use tcp_server_simulator.Controller.Loading.{Source, StreamSettings, load_records, velocity_preset}
use tcp_server_simulator.Controller.Rounds.{wake_engine}
use tcp_server_simulator.Controller.{
  Controller, Outcome, caught, emit_all, is_blank, is_nil, no_records, note_velocity, progress,
  rate_zero, rebind, sent, start_failed, stop_transport_async, then_do, transmission_started,
  transmit,
}

-- The messages of a transmission, with the progress of its engine.
abbrev pub announced : Option SimulatorEngine → List Bytes → Option Bytes → Controller → Outcome
announced none records header c = (c, raise attribute_error)
announced (some e) records header c = (
  emit_all
      (progress (current_line e.scheduler) (total_lines e.scheduler)
        ∷ rate_zero
        ∷ sent 0 0
        ∷ transmission_started (length records)
        ∷ (if is_nil records && is_blank header then no_records ∷ [] else []))
      (record c { stats_task = true }),
  ok tt,
)

-- The first round of the engine, and what the start does behind it.
abbrev pub first_round : ℕ → List Bytes → Option Bytes → Controller → Outcome
unfolding wake_engine
first_round now records header c =
    let c' = wake_engine now c in announced c'.engine records header c'

-- The body of the `try` behind the velocity preset.
unfoldable pub transmit_loaded :
    Result ℕ
    → ℕ
    → RuntimeSettings
    → StreamSettings
    → Result (List Bytes × Option Bytes)
    → Controller
    → Outcome
unfolding transmit rebind build_transport first_round
transmit_loaded answer now settings stream (raise err) c = (c, raise err)
transmit_loaded answer now settings stream (ok (records, header)) c =
    then_do
      (transmit answer settings stream records (build_transport settings stream.send_header header)
        (rebind c.active_transport c))
      (first_round now records header)

-- `_start_transmission_async`
unfoldable pub start_transmission :
    Result ℕ → ℕ → Source → RuntimeSettings → StreamSettings → Controller → Controller
unfolding transmit_loaded stop_transport_async velocity_preset load_records
start_transmission answer now source settings stream c =
    let v = velocity_preset stream in
    caught start_failed stop_transport_async (
      transmit_loaded answer now settings v.adjusted (load_records v.adjusted source)
        (note_velocity v c))
