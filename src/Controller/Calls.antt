-- ===== src/Controller/Calls.antt =====
-- The commands of the controller.
use tcp_server_simulator.Prelude.{Bool, List, Option, Result, [], ℕ, ◌∷◌}
use tcp_server_simulator.Sink.Config.{SinkConfig}
use tcp_server_simulator.Sink.Files.{Disk}
use tcp_server_simulator.Sink.{Codec}
use tcp_server_simulator.Controller.Transports.{RuntimeSettings}
use tcp_server_simulator.Controller.Receivers.{ReceiverSettings}
use tcp_server_simulator.Controller.Loading.{Source, StreamSettings}
use tcp_server_simulator.Controller.Commands.{
  jump_to_line, set_line_controls, step_once, swap_file, toggle_pause, update_rate, wake_step,
}
use tcp_server_simulator.Controller.Rounds.{wake_engine}
use tcp_server_simulator.Controller.Starting.{start_transmission}
use tcp_server_simulator.Controller.Reception.{
  configure_sink, start_reception, stop_everything, stop_reception,
}
use tcp_server_simulator.Controller.{Controller, apply_settings, stop_transport_async}

-- A command of the window, with what the system answers; or the end of a wait, of a step or of the
-- task of the engine.
pub data Command : Type 0 where
  starts_transmission : Result ℕ → ℕ → Source → RuntimeSettings → StreamSettings → Command
  applies_settings : Result ℕ → RuntimeSettings → Command
  stops_transport toggles_pause : Command
  steps_once wakes_step jumps updates_rate wakes_engine : ℕ → Command
  swaps_file : Source → StreamSettings → Command
  sets_line_controls : Option ℕ → Option ℕ → Option ℕ → Command
  starts_reception :
      Codec → Disk → Bool → Result ℕ → RuntimeSettings → ReceiverSettings → SinkConfig → Command
  stops_reception shuts_down : Bool → Command
  configures_sink : Codec → ℕ → SinkConfig → Command

unfoldable pub perform : Command → Controller → Controller
unfolding start_transmission apply_settings stop_transport_async toggle_pause step_once wake_step
    jump_to_line update_rate swap_file set_line_controls start_reception stop_reception
    stop_everything configure_sink
perform (starts_transmission answer now source settings stream) c =
    start_transmission answer now source settings stream c
perform (applies_settings answer settings) c = (apply_settings answer settings c).0
perform stops_transport c = stop_transport_async c
perform toggles_pause c = toggle_pause c
perform (steps_once now) c = (step_once now c).0
perform (wakes_step now) c = (wake_step now c).0
perform (wakes_engine now) c = wake_engine now c
perform (jumps line_number) c = jump_to_line line_number c
perform (updates_rate rate) c = update_rate rate c
perform (swaps_file source stream) c = swap_file source stream c
perform (sets_line_controls start_line end_line first_n) c =
    set_line_controls start_line end_line first_n c
perform (starts_reception codec disk in_time answer settings r sink_settings) c =
    start_reception codec disk in_time answer settings r sink_settings c
perform (stops_reception in_time) c = stop_reception in_time c
perform (shuts_down in_time) c = stop_everything in_time c
perform (configures_sink codec waiter sink_settings) c =
    (configure_sink codec waiter sink_settings c).0

unfoldable pub perform_all : List Command → Controller → Controller
unfolding perform
perform_all [] c = c
perform_all (command ∷ commands) c = perform_all commands (perform command c)
