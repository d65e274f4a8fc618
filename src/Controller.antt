-- ===== src/Controller.antt =====
-- src/tcp_sim/gui/controller.py: class SimulatorController, which starts and stops the sender and the
-- receiver. Each coroutine runs to its end before the next command; what it raises and does not catch is
-- in its result. The source that a file gives, and what the system answers, are arguments.
pub mod Transports
pub mod Receivers
pub mod Loading
pub mod Commands
pub mod Rounds
pub mod Starting
pub mod Reception
pub mod Calls
pub mod Sides
pub mod Kept
pub mod Beginning
pub mod Rebinding
pub mod Receiving
pub mod Drops
pub mod Roles
pub mod Transmission
pub mod Opening
pub mod Delivery
pub mod Sharing
mod Tests
use tcp_server_simulator.Prelude.{
  Bool, Bytes, Error, List, Option, Result, [], false, if◌then◌else◌, length, none, ok, raise, some,
  true, ℕ, ◌&&◌, ◌++◌, ◌||◌, ◌∷◌,
}
use tcp_server_simulator.Scheduler.{ScheduledMessage, current_line, total_lines}
use tcp_server_simulator.Simulator.{
  SimulatorEngine, init as engine_init, start as engine_start, stop as engine_stop,
  pause as engine_pause, resume as engine_resume, step as engine_step, jump_to as engine_jump_to,
  update_rate as engine_update_rate, set_line_controls as engine_set_line_controls,
}
use tcp_server_simulator.Sink.{init as sink_init}
use tcp_server_simulator.Receiver.{ReceiverEngine, configure_sink as engine_configure_sink}
use tcp_server_simulator.Controller.Transports.{
  RuntimeSettings, Transport, build_transport, start_transport, stop_transport, tcp_server,
}
use tcp_server_simulator.Controller.Receivers.{ReceiverTransport}
use tcp_server_simulator.Controller.Loading.{
  Source, StreamSettings, Velocity, load_records, velocity_preset,
}

-- The messages of `_emit`; progress, counters and names are its arguments.
pub data Status : Type 0 where
  applying_rebind transport_started transmission_stopped transport_stopped : Status
  no_records rate_zero step_unavailable step_header resumed paused : Status
  no_active_transmission swap_before_start controls_updated switching_to_receiver : Status
  reception_started reception_stopped stop_timed_out no_active_receiver sink_settings_taken : Status
  start_failed jump_failed swap_failed controls_rejected reception_failed : Error → Status
  connections transmission_started step_line jumped rate_updated swap_queued : ℕ → Status
  progress sent : ℕ → ℕ → Status
  velocity_applied : Bool → Bool → Status
  receiver_counters_zero sink_disabled : Status

pub data Role : Type 0 where
  sender receiver : Role

abbrev pub Receiving : Type 0
Receiving = ReceiverEngine ReceiverTransport (Unit {0})

-- `stats_task` and `receiver_stats_task` are whether there are such tasks. `stopped` is the transports that
-- the controller has stopped and dropped; its receiver transport is the one of its receiver engine. The
-- messages of the steps that wait for a client, and the one of the engine that does, are here too.
pub record Controller : Type 0 where
  pub status : List Status
  pub active_transport : Option Transport
  pub active_settings : Option RuntimeSettings
  pub stream_settings : Option StreamSettings
  pub engine : Option SimulatorEngine
  pub stats_task : Bool
  pub start_line : Option ℕ
  pub end_line : Option ℕ
  pub first_n : Option ℕ
  pub receiver_engine : Option Receiving
  pub receiver_stats_task : Bool
  pub active_role : Role
  pub stopped : List Transport
  pub engine_message : Option ScheduledMessage
  pub waiting_steps : List ScheduledMessage

-- `__init__`
unfoldable pub init : Controller
init = record {
  status = [];
  active_transport = none;
  active_settings = none;
  stream_settings = none;
  engine = none;
  stats_task = false;
  start_line = none;
  end_line = none;
  first_n = none;
  receiver_engine = none;
  receiver_stats_task = false;
  active_role = sender;
  stopped = [];
  engine_message = none;
  waiting_steps = [];
}

-- `_emit`
abbrev pub emit : Status → Controller → Controller
emit s c = record c { status = c.status ++ s ∷ [] }

abbrev pub emit_all : List Status → Controller → Controller
emit_all ss c = record c { status = c.status ++ ss }

-- `_stop_transport_async`: the engine, then the transport.
unfoldable pub stop_engine : Option SimulatorEngine → Controller → Controller
stop_engine none c = c
stop_engine (some e) c =
    emit transmission_stopped (record c { engine = none; engine_message = none })

unfoldable pub drop_transport : Option Transport → Controller → Controller
drop_transport none c = c
drop_transport (some t) c =
    emit_all (transport_stopped ∷ connections 0 ∷ progress 0 0 ∷ rate_zero ∷ sent 0 0 ∷ [])
      (record c {
        active_transport = none;
        active_settings = none;
        stopped = c.stopped ++ stop_transport t ∷ [];
      })

unfoldable pub stop_transport_async : Controller → Controller
unfolding stop_engine drop_transport
stop_transport_async c =
    let c' = stop_engine c.engine (record c { stats_task = false }) in
    drop_transport c'.active_transport c'

-- The controlled stop before a transport is bound again.
unfoldable pub rebind : Option Transport → Controller → Controller
unfolding stop_transport_async
rebind none c = c
rebind (some t) c = stop_transport_async (emit applying_rebind c)

-- `__connections__`, for a TCP server.
abbrev pub connections_of : Transport → List Status
connections_of (tcp_server t) = connections (length t.manager.clients) ∷ []
connections_of _ = []

abbrev pub Outcome : Type 0
Outcome = Controller × Result (Unit {0})

-- `await self._active_transport.start()`, and the messages behind it.
abbrev pub started : Transport × Result (Unit {0}) → Controller → Outcome
started (t, ok u) c = (
  emit_all (transport_started ∷ connections_of t) (record c { active_transport = some t }),
  ok tt,
)
started (t, raise err) c = (record c { active_transport = some t }, raise err)

abbrev pub then_do : Outcome → (Controller → Outcome) → Outcome
then_do (c, ok u) next = next c
then_do (c, raise err) next = (c, raise err)

abbrev pub is_nil {ℓ} : {A : Type ℓ} → List A → Bool
is_nil [] = true
is_nil (a ∷ as_) = false

-- `not header_payload`
abbrev pub is_blank : Option Bytes → Bool
is_blank none = true
is_blank (some header) = is_nil header

-- The line controls, if any is set.
abbrev pub is_set : Option ℕ → Bool
is_set none = false
is_set (some n) = true

unfoldable pub apply_controls : Controller → SimulatorEngine → Result SimulatorEngine
unfolding engine_set_line_controls
apply_controls c e =
    if is_set c.start_line || is_set c.end_line || is_set c.first_n
    then engine_set_line_controls c.start_line c.end_line c.first_n e
    else ok e

-- `await self._engine.start()`, up to the first round of its task.
abbrev pub controlled : Result SimulatorEngine → Controller → Outcome
unfolding engine_start
controlled (raise err) c = (c, raise err)
controlled (ok e) c = let (e', r) = engine_start e in (record c { engine = some e' }, r)

unfoldable pub start_engine : StreamSettings → List Bytes → Controller → Outcome
unfolding engine_init apply_controls controlled
start_engine stream records c =
    let e = engine_init records true stream.rate stream.loop in
    controlled (apply_controls c e) (record c { engine = some e; engine_message = none })

-- From the transport that is built to the start of the engine.
unfoldable pub transmit :
    Result ℕ
    → RuntimeSettings
    → StreamSettings
    → List Bytes
    → Result Transport
    → Controller
    → Outcome
unfolding start_engine start_transport
transmit answer settings stream records (raise err) c = (c, raise err)
transmit answer settings stream records (ok t) c =
    let c' = record c {
      active_transport = some t;
      active_settings = some settings;
      stream_settings = some stream;
    } in
    then_do (started (start_transport answer t) c') (start_engine stream records)

-- The `except` of a start: what its body raises stands for an error that the source names there.
abbrev pub caught : (Error → Status) → (Controller → Controller) → Outcome → Controller
caught message clean (c, ok u) = c
caught message clean (c, raise err) = clean (emit (message err) c)

-- `_apply_velocity_compatibility_preset`
abbrev pub note_velocity : Velocity → Controller → Controller
note_velocity v c = if v.noted then emit (velocity_applied v.dropped_header v.kept_lf) c else c

-- `_apply_settings_async`, which catches nothing.
unfoldable pub bind : Result ℕ → RuntimeSettings → Result Transport → Controller → Outcome
unfolding start_transport
bind answer settings (raise err) c = (c, raise err)
bind answer settings (ok t) c = started (start_transport answer t) (record c {
  active_transport = some t;
  active_settings = some settings;
  stream_settings = none;
})

unfoldable pub apply_settings : Result ℕ → RuntimeSettings → Controller → Outcome
unfolding rebind build_transport bind
apply_settings answer settings c =
    bind answer settings (build_transport settings false none) (rebind c.active_transport c)
