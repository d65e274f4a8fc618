-- ===== src/Controller/Roles.antt =====
-- The sender's and the receiver's side of the controller, under every command.
use tcp_server_simulator.Prelude.{List, [], refl, ◌∷◌}
use tcp_server_simulator.Controller.Reception.{leave_sender, stop_everything, stop_reception}
use tcp_server_simulator.Controller.Sides.{AtRest-IsSending, IsValid, stop_transport-AtRest}
use tcp_server_simulator.Controller.{Controller, init}
use tcp_server_simulator.Controller.Rounds.{wake_engine}
use tcp_server_simulator.Controller.Calls.{
  Command, applies_settings, configures_sink, jumps, perform, perform_all, sets_line_controls,
  shuts_down, starts_reception, starts_transmission, steps_once, stops_reception, stops_transport,
  swaps_file, toggles_pause, updates_rate, wakes_engine, wakes_step,
}
use tcp_server_simulator.Controller.Beginning.{start_transmission-lem}
use tcp_server_simulator.Controller.Kept.{
  Keeps, Keeps-IsSending, jump-Keeps, set_line_controls-Keeps, step_once_of-Keeps,
  swap_settled-Keeps, toggle_pause-Keeps, update_rate-Keeps, wake_engine_of-Keeps,
  wake_step_of-Keeps,
}
use tcp_server_simulator.Controller.Rebinding.{SameReceiver-IsReceiving, apply_settings-lem}
use tcp_server_simulator.Controller.Receiving.{
  SameSender-IsSending, configure_sink-lem, leave_sender-IsSending, start_reception-lem,
  stop_reception-IsReceiving, stop_reception-SameSender,
}

kept : (c c' : Controller) → Keeps c c' → IsValid c → IsValid c'
kept c c' k h = (Keeps-IsSending c c' k h.0, SameReceiver-IsReceiving c c' k.same h.1)

perform-IsValid : (command : Command) (c : Controller) → IsValid c → IsValid (perform command c)
unfolding perform stop_everything wake_engine
perform-IsValid (starts_transmission answer now source settings stream) c h =
    let k = start_transmission-lem answer now source settings stream c in
    (k.1, SameReceiver-IsReceiving c _ k.0 h.1)
perform-IsValid (applies_settings answer settings) c h =
    let k = apply_settings-lem answer settings c h.0 in (k.1, SameReceiver-IsReceiving c _ k.0 h.1)
perform-IsValid stops_transport c h =
    let k = stop_transport-AtRest c in
    (AtRest-IsSending c _ k, SameReceiver-IsReceiving c _ k.same h.1)
perform-IsValid toggles_pause c h = kept c _ (toggle_pause-Keeps c) h
perform-IsValid (steps_once now) c h = kept c _ (step_once_of-Keeps c.engine now c refl) h
perform-IsValid (wakes_step now) c h = kept c _ (wake_step_of-Keeps c.waiting_steps now c) h
perform-IsValid (wakes_engine now) c h =
    kept c _ (wake_engine_of-Keeps c.engine c.engine_message now c refl) h
perform-IsValid (jumps n) c h = kept c _ (jump-Keeps n c) h
perform-IsValid (updates_rate rate) c h = kept c _ (update_rate-Keeps rate c) h
perform-IsValid (swaps_file source stream) c h =
    kept c _ (swap_settled-Keeps c.stream_settings source stream c) h
perform-IsValid (sets_line_controls start_line end_line first_n) c h =
    kept c _ (set_line_controls-Keeps start_line end_line first_n c) h
perform-IsValid (starts_reception codec disk in_time answer settings r sink_settings) c h =
    let k = start_reception-lem codec disk in_time answer settings r sink_settings c in
    (SameSender-IsSending (leave_sender c) _ k.0 (leave_sender-IsSending c h.0), k.1)
perform-IsValid (stops_reception in_time) c h = (
  SameSender-IsSending c _ (stop_reception-SameSender in_time c) h.0,
  stop_reception-IsReceiving in_time c,
)
perform-IsValid (shuts_down in_time) c h =
    let d = stop_reception in_time c in
    let k = stop_transport-AtRest d in
    (
      AtRest-IsSending d _ k,
      SameReceiver-IsReceiving d _ k.same (stop_reception-IsReceiving in_time c),
    )
perform-IsValid (configures_sink codec waiter sink_settings) c h =
    let k = configure_sink-lem codec waiter sink_settings c h.1 in
    (SameSender-IsSending c _ k.0 h.0, k.1)

-- Any commands, whatever the system answers and whether they fail, keep that an engine has a transport, that
-- the role is the receiver's exactly while there is a receiver engine, and that the tasks of the counters
-- live only as long as their engines.
pub perform_all-IsValid :
    (commands : List Command) (c : Controller) → IsValid c → IsValid (perform_all commands c)
unfolding perform_all
perform_all-IsValid [] c h = h
perform_all-IsValid (command ∷ commands) c h =
    perform_all-IsValid commands (perform command c) (perform-IsValid command c h)

pub init-IsValid : IsValid init
unfolding init
init-IsValid = (
  record { engine_bound = λ p. p; stats_live = λ p. p },
  record { role_eq = refl; stats_live = λ p. p },
)
