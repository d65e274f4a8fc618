-- ===== src/Controller/Commands.antt =====
-- The commands of src/tcp_sim/gui/controller.py for a transmission that goes on.
use tcp_server_simulator.Prelude.{
  Bool, Bytes, List, Option, Result, [], attribute_error, false, if◌then◌else◌, length, none, ok,
  raise, some, ℕ, ◌++◌, ◌∷◌,
}
use tcp_server_simulator.Scheduler.{ScheduledMessage}
use tcp_server_simulator.Simulator.{
  SimulatorEngine, count_message, is_live, swap_records, pause as engine_pause,
  resume as engine_resume, step as engine_step, jump_to as engine_jump_to,
  update_rate as engine_update_rate, set_line_controls as engine_set_line_controls,
}
use tcp_server_simulator.Controller.Transports.{Transport, has_no_reader, send_to, update_header}
use tcp_server_simulator.Controller.Loading.{Source, StreamSettings, load_records, velocity_preset}
use tcp_server_simulator.Controller.{
  Controller, Outcome, controls_rejected, controls_updated, emit, jump_failed, jumped,
  no_active_transmission, note_velocity, paused, rate_updated, resumed, step_header, step_line,
  step_unavailable, swap_before_start, swap_failed, swap_queued,
}

-- `_toggle_pause`
unfoldable pub toggle_pause_of : Option SimulatorEngine → Controller → Controller
unfolding engine_pause engine_resume
toggle_pause_of none c = emit no_active_transmission c
toggle_pause_of (some e) c =
    if e.scheduler.paused
    then emit resumed (record c { engine = some (engine_resume e) })
    else emit paused (record c { engine = some (engine_pause e) })

unfoldable pub toggle_pause : Controller → Controller
unfolding toggle_pause_of
toggle_pause c = toggle_pause_of c.engine c

abbrev pub runs : Option SimulatorEngine → Bool
runs none = false
runs (some e) = is_live e.run_task

-- What becomes of a message: it is sent, or not; or the task waits for a client.
pub data Sending : Type 0 where
  sends : Outcome → Sending
  waits : Sending

abbrev pub sent_to : Transport × Result (Unit {0}) → Controller → Outcome
sent_to (t, r) c = (record c { active_transport = some t }, r)

-- `_send_scheduled_message`
unfoldable pub send_by : Option Transport → ℕ → ScheduledMessage → Controller → Sending
unfolding has_no_reader send_to
send_by none now m c = sends (c, ok tt)
send_by (some t) now m c =
    if has_no_reader t
    then (if runs c.engine then waits else sends (c, ok tt))
    else sends (sent_to (send_to now m.payload t) c)

unfoldable pub send_scheduled_message : ℕ → ScheduledMessage → Controller → Sending
unfolding send_by
send_scheduled_message now m c = send_by c.active_transport now m c

-- `_step_once_async`, behind the sending: with no engine, its counters are an attribute of None.
unfoldable pub count_step : Option SimulatorEngine → ScheduledMessage → Controller → Outcome
unfolding count_message
count_step none m c = (c, raise attribute_error)
count_step (some e) m c =
    let c' = record c { engine = some (count_message m e) } in
    (emit (if m.is_header then step_header else step_line m.line_number) c', ok tt)

abbrev pub counted_step : ScheduledMessage → Outcome → Outcome
unfolding count_step
counted_step m (c, raise err) = (c, raise err)
counted_step m (c, ok u) = count_step c.engine m c

abbrev pub step_sent : ScheduledMessage → Sending → Controller → Outcome
unfolding counted_step
step_sent m waits c = (record c { waiting_steps = c.waiting_steps ++ m ∷ [] }, ok tt)
step_sent m (sends out) c = counted_step m out

unfoldable pub stepped :
    ℕ → Result (SimulatorEngine × Option ScheduledMessage) → Controller → Outcome
unfolding send_scheduled_message step_sent
stepped now (raise err) c = (c, raise err)
stepped now (ok (e, none)) c = (emit step_unavailable (record c { engine = some e }), ok tt)
stepped now (ok (e, some m)) c =
    let c' = record c { engine = some e } in step_sent m (send_scheduled_message now m c') c'

unfoldable pub step_once_of : Option SimulatorEngine → ℕ → Controller → Outcome
unfolding stepped engine_step
step_once_of none now c = (emit no_active_transmission c, ok tt)
step_once_of (some e) now c = stepped now (engine_step e) c

unfoldable pub step_once : ℕ → Controller → Outcome
unfolding step_once_of
step_once now c = step_once_of c.engine now c

-- The wait of a step ends.
abbrev pub woken : ScheduledMessage → Sending → Controller → Outcome
unfolding counted_step
woken m waits c = (c, ok tt)
woken m (sends out) c = counted_step m out

unfoldable pub wake_step_of : List ScheduledMessage → ℕ → Controller → Outcome
unfolding send_scheduled_message woken
wake_step_of [] now c = (c, ok tt)
wake_step_of (m ∷ ms) now c =
    woken m (send_scheduled_message now m (record c { waiting_steps = ms })) c

unfoldable pub wake_step : ℕ → Controller → Outcome
unfolding wake_step_of
wake_step now c = wake_step_of c.waiting_steps now c

-- `_jump_to_line`
abbrev pub jumped_to : ℕ → Result SimulatorEngine → Controller → Controller
jumped_to line_number (raise err) c = emit (jump_failed err) c
jumped_to line_number (ok e) c = emit (jumped line_number) (record c { engine = some e })

unfoldable pub jump_of : Option SimulatorEngine → ℕ → Controller → Controller
unfolding engine_jump_to
jump_of none line_number c = emit no_active_transmission c
jump_of (some e) line_number c = jumped_to line_number (engine_jump_to line_number e) c

unfoldable pub jump_to_line : ℕ → Controller → Controller
unfolding jump_of
jump_to_line line_number c = jump_of c.engine line_number c

-- `_update_rate`
abbrev pub with_rate : ℕ → Option StreamSettings → Option StreamSettings
with_rate rate none = none
with_rate rate (some stream) = some (record stream { rate = rate })

unfoldable pub update_rate_of : Option SimulatorEngine → ℕ → Controller → Controller
unfolding engine_update_rate
update_rate_of none rate c = emit no_active_transmission c
update_rate_of (some e) rate c = emit (rate_updated rate) (record c {
  engine = some (engine_update_rate rate e);
  stream_settings = with_rate rate c.stream_settings;
})

unfoldable pub update_rate : ℕ → Controller → Controller
unfolding update_rate_of
update_rate rate c = update_rate_of c.engine rate c

-- `_set_line_controls`
abbrev pub controls_set : Result SimulatorEngine → Controller → Controller
controls_set (raise err) c = emit (controls_rejected err) c
controls_set (ok e) c = emit controls_updated (record c { engine = some e })

unfoldable pub set_line_controls_of :
    Option SimulatorEngine → Option ℕ → Option ℕ → Option ℕ → Controller → Controller
unfolding engine_set_line_controls
set_line_controls_of none start_line end_line first_n c = emit controls_updated c
set_line_controls_of (some e) start_line end_line first_n c =
    controls_set (engine_set_line_controls start_line end_line first_n e) c

unfoldable pub set_line_controls : Option ℕ → Option ℕ → Option ℕ → Controller → Controller
unfolding set_line_controls_of
set_line_controls start_line end_line first_n c =
    set_line_controls_of c.engine start_line end_line first_n
      (record c { start_line = start_line; end_line = end_line; first_n = first_n })

-- `_swap_file`
abbrev pub update_header_of : Bool → Option Bytes → Option Transport → Option Transport
unfolding update_header
update_header_of send_header header none = none
update_header_of send_header header (some t) = some (update_header send_header header t)

unfoldable pub swap_loaded :
    SimulatorEngine → StreamSettings → Result (List Bytes × Option Bytes) → Controller → Controller
unfolding swap_records update_header_of
swap_loaded e stream (raise err) c = emit (swap_failed err) c
swap_loaded e stream (ok (records, header)) c = emit (swap_queued (length records)) (record c {
  engine = some (swap_records records (if stream.send_header then header else none) e);
  stream_settings = some stream;
  active_transport = update_header_of stream.send_header header c.active_transport;
})

unfoldable pub swap_file_of :
    Option SimulatorEngine → Source → StreamSettings → Controller → Controller
unfolding velocity_preset load_records swap_loaded
swap_file_of none source stream c = emit no_active_transmission c
swap_file_of (some e) source stream c =
    let v = velocity_preset stream in
    swap_loaded e v.adjusted (load_records v.adjusted source) (note_velocity v c)

-- `swap_file`: the rate and the loop are those of the transmission that goes on.
unfoldable pub swap_settled :
    Option StreamSettings → Source → StreamSettings → Controller → Controller
unfolding swap_file_of
swap_settled none source stream c = emit swap_before_start c
swap_settled (some current) source stream c =
    swap_file_of c.engine source (record stream { rate = current.rate; loop = current.loop }) c

unfoldable pub swap_file : Source → StreamSettings → Controller → Controller
unfolding swap_settled
swap_file source stream c = swap_settled c.stream_settings source stream c
