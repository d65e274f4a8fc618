-- ===== src/Controller/Kept.antt =====
-- The commands that neither make nor drop an engine or a transport.
use tcp_server_simulator.Prelude.{
  Bool, Bytes, List, Option, Result, [], ap, arith, false, if◌then◌else◌, is_some, none, ok, raise,
  refl, some, sym, true, ℕ, ◌∙◌, ◌∷◌, ◌≡◌,
}
use tcp_server_simulator.Scheduler.{ScheduledMessage}
use tcp_server_simulator.Controller.Transports.{Transport, has_no_reader, send_to, update_header}
use tcp_server_simulator.Controller.Loading.{
  Source, StreamSettings, Velocity, load_records, velocity_preset,
}
use tcp_server_simulator.Controller.Commands.{
  Sending, count_step, counted_step, jump_of, jump_to_line, runs, send_by, send_scheduled_message,
  sends, sent_to, set_line_controls, set_line_controls_of, step_once_of, step_sent, stepped,
  swap_file_of, swap_loaded, swap_settled, toggle_pause, toggle_pause_of, update_header_of,
  update_rate, update_rate_of, waits, wake_step_of, woken,
}
use tcp_server_simulator.Simulator.{SimulatorEngine, is_live, step as engine_step}
use tcp_server_simulator.Scheduler.Auto.{Round, leaves, round, waits as loop_waits}
use tcp_server_simulator.Controller.Rounds.{count_sent, round_of, round_sent, wake_engine_of}
use tcp_server_simulator.Controller.{Controller, Outcome, note_velocity}
use tcp_server_simulator.Controller.Sides.{IsSending, SameReceiver, same_refl, same_trans}

-- A command that changes an engine or a transport, and neither makes nor drops one.
pub record Keeps (c c' : Controller) : Type 0 where
  pub same : SameReceiver c c'
  pub engine_same : is_some c'.engine ≡ is_some c.engine
  pub transport_same : is_some c'.active_transport ≡ is_some c.active_transport
  pub stats_same : c'.stats_task ≡ c.stats_task

pub Keeps-IsSending : (c c' : Controller) → Keeps c c' → IsSending c → IsSending c'
Keeps-IsSending c c' k h = ground (arith, k, h)

pub toggle_pause-Keeps : (c : Controller) → Keeps c (toggle_pause c)
unfolding toggle_pause toggle_pause_of
toggle_pause-Keeps c = ground arith

pub jump-Keeps : (n : ℕ) (c : Controller) → Keeps c (jump_to_line n c)
unfolding jump_to_line jump_of
jump-Keeps n c = ground arith

pub update_rate-Keeps : (rate : ℕ) (c : Controller) → Keeps c (update_rate rate c)
unfolding update_rate update_rate_of
update_rate-Keeps rate c = ground arith

pub set_line_controls-Keeps :
    (start_line end_line first_n : Option ℕ) (c : Controller)
    → Keeps c (set_line_controls start_line end_line first_n c)
unfolding set_line_controls set_line_controls_of
set_line_controls-Keeps start_line end_line first_n c = ground arith

Keeps-refl : (c : Controller) → Keeps c c
Keeps-refl c = record {
  same = same_refl c;
  engine_same = refl;
  transport_same = refl;
  stats_same = refl;
}

Keeps-trans : (a b c : Controller) → Keeps a b → Keeps b c → Keeps a c
Keeps-trans a b c h k = record {
  same = same_trans a b c h.same k.same;
  engine_same = k.engine_same ∙ h.engine_same;
  transport_same = k.transport_same ∙ h.transport_same;
  stats_same = k.stats_same ∙ h.stats_same;
}

update_header-is_some :
    (send_header : Bool) (header : Option Bytes) (o : Option Transport)
    → is_some (update_header_of send_header header o) ≡ is_some o
unfolding update_header
update_header-is_some send_header header none = refl
update_header-is_some send_header header (some t) = refl

swap_loaded-Keeps :
    (e : SimulatorEngine) (stream : StreamSettings) (loaded : Result (List Bytes × Option Bytes))
    (c : Controller)
    → c.engine ≡ some e
    → Keeps c (swap_loaded e stream loaded c)
unfolding swap_loaded
swap_loaded-Keeps e stream (raise err) c h = ground (arith, h)
swap_loaded-Keeps e stream (ok (records, header)) c h = record {
  same = record { engine_same = refl; stats_same = refl; role_same = refl };
  engine_same = ap is_some (sym h);
  transport_same = update_header-is_some stream.send_header header c.active_transport;
  stats_same = refl;
}

note_velocity-Keeps : (v : Velocity) (c : Controller) → Keeps c (note_velocity v c)
note_velocity-Keeps v c = ground arith

note_velocity-engine : (v : Velocity) (c : Controller) → (note_velocity v c).engine ≡ c.engine
note_velocity-engine v c = ground arith

swap_file_of-Keeps :
    (o : Option SimulatorEngine) (source : Source) (stream : StreamSettings) (c : Controller)
    → c.engine ≡ o
    → Keeps c (swap_file_of o source stream c)
unfolding swap_file_of
swap_file_of-Keeps none source stream c h = ground arith
swap_file_of-Keeps (some e) source stream c h =
    let v = velocity_preset stream in
    let c' = note_velocity v c in
    Keeps-trans c c' (swap_loaded e v.adjusted (load_records v.adjusted source) c')
      (note_velocity-Keeps v c)
      (swap_loaded-Keeps e v.adjusted (load_records v.adjusted source) c'
        (note_velocity-engine v c ∙ h))

pub swap_settled-Keeps :
    (current : Option StreamSettings) (source : Source) (stream : StreamSettings) (c : Controller)
    → Keeps c (swap_settled current source stream c)
unfolding swap_settled
swap_settled-Keeps none source stream c = ground arith
swap_settled-Keeps (some current) source stream c =
    swap_file_of-Keeps c.engine source (record stream { rate = current.rate; loop = current.loop })
      c refl

-- A message that is sent, or not, keeps what there is.
abbrev pub KeepsSending : Controller → Sending → Type 0
KeepsSending c (sends out) = Keeps c out.0
KeepsSending c waits = Unit

KeepsSending-if :
    (b : Bool) (c : Controller) (r s : Sending)
    → KeepsSending c r
    → KeepsSending c s
    → KeepsSending c (if b then r else s)
KeepsSending-if true c r s h k = h
KeepsSending-if false c r s h k = k

send_by-Keeps :
    (o : Option Transport) (now : ℕ) (m : ScheduledMessage) (c : Controller)
    → c.active_transport ≡ o
    → KeepsSending c (send_by o now m c)
unfolding send_by
send_by-Keeps none now m c h = Keeps-refl c
send_by-Keeps (some t) now m c h =
    KeepsSending-if (has_no_reader t) c (if runs c.engine then waits else sends (c, ok tt))
      (sends (sent_to (send_to now m.payload t) c))
      (KeepsSending-if (runs c.engine) c waits (sends (c, ok tt)) tt (Keeps-refl c))
      (record {
        same = record { engine_same = refl; stats_same = refl; role_same = refl };
        engine_same = refl;
        transport_same = ap is_some (sym h);
        stats_same = refl;
      })

counted_step-Keeps :
    (c : Controller) (m : ScheduledMessage) (out : Outcome)
    → Keeps c out.0
    → Keeps c (counted_step m out).0
unfolding count_step
counted_step-Keeps c m (d, raise err) h = h
counted_step-Keeps c m (d, ok u) h = ground (arith, h)

step_sent-Keeps :
    (m : ScheduledMessage) (s : Sending) (c : Controller)
    → KeepsSending c s
    → Keeps c (step_sent m s c).0
unfolding count_step
step_sent-Keeps m waits c h = ground arith
step_sent-Keeps m (sends out) c h = counted_step-Keeps c m out h

stepped-Keeps :
    (now : ℕ) (r : Result (SimulatorEngine × Option ScheduledMessage)) (c : Controller)
    → is_some c.engine ≡ true
    → Keeps c (stepped now r c).0
unfolding stepped send_scheduled_message count_step
stepped-Keeps now (raise err) c h = Keeps-refl c
stepped-Keeps now (ok (e, none)) c h = ground (arith, h)
stepped-Keeps now (ok (e, some m)) c h =
    let c' = record c { engine = some e } in
    Keeps-trans c c' (step_sent m (send_by c.active_transport now m c') c').0
      (record {
        same = record { engine_same = refl; stats_same = refl; role_same = refl };
        engine_same = sym h;
        transport_same = refl;
        stats_same = refl;
      })
      (step_sent-Keeps m (send_by c.active_transport now m c') c'
        (send_by-Keeps c.active_transport now m c' refl))

pub step_once_of-Keeps :
    (o : Option SimulatorEngine) (now : ℕ) (c : Controller)
    → c.engine ≡ o
    → Keeps c (step_once_of o now c).0
unfolding step_once_of
step_once_of-Keeps none now c h = ground arith
step_once_of-Keeps (some e) now c h = stepped-Keeps now (engine_step e) c (ap is_some h)

-- A step that waited, by what its sending gives behind the wait.
woken-Keeps :
    (c : Controller) (m : ScheduledMessage) (ms : List ScheduledMessage) (s : Sending)
    → KeepsSending (record c { waiting_steps = ms }) s
    → Keeps c (woken m s c).0
unfolding count_step
woken-Keeps c m ms waits h = Keeps-refl c
woken-Keeps c m ms (sends out) h =
    let c' = record c { waiting_steps = ms } in
    Keeps-trans c c' (counted_step m out).0
      (record {
        same = record { engine_same = refl; stats_same = refl; role_same = refl };
        engine_same = refl;
        transport_same = refl;
        stats_same = refl;
      })
      (counted_step-Keeps c' m out h)

pub wake_step_of-Keeps :
    (ms : List ScheduledMessage) (now : ℕ) (c : Controller) → Keeps c (wake_step_of ms now c).0
unfolding wake_step_of send_scheduled_message
wake_step_of-Keeps [] now c = Keeps-refl c
wake_step_of-Keeps (m ∷ ms) now c =
    let c' = record c { waiting_steps = ms } in
    woken-Keeps c m ms (send_by c.active_transport now m c')
      (send_by-Keeps c.active_transport now m c' refl)

count_sent-Keeps :
    (c : Controller) (m : ScheduledMessage) (e : SimulatorEngine) (out : Outcome)
    → is_some c.engine ≡ true
    → Keeps c out.0
    → Keeps c (count_sent m e out)
unfolding count_sent
count_sent-Keeps c m e (d, ok u) p h = ground (arith, h, p)
count_sent-Keeps c m e (d, raise err) p h = ground (arith, h, p)

round_sent-Keeps :
    (m : ScheduledMessage) (e : SimulatorEngine) (s : Sending) (c : Controller)
    → is_some c.engine ≡ true
    → KeepsSending c s
    → Keeps c (round_sent m e s c)
unfolding count_sent
round_sent-Keeps m e waits c p h = ground arith
round_sent-Keeps m e (sends out) c p h = count_sent-Keeps c m e out p h

round_of-Keeps :
    (r : Round) (now : ℕ) (e : SimulatorEngine) (c : Controller)
    → is_some c.engine ≡ true
    → Keeps c (round_of r now e c)
unfolding round_of send_scheduled_message
round_of-Keeps (leaves s) now e c p = ground (arith, p)
round_of-Keeps (loop_waits s none) now e c p = ground (arith, p)
round_of-Keeps (loop_waits s (some m)) now e c p =
    let e' = record e { scheduler = s } in
    let c' = record c { engine = some e' } in
    Keeps-trans c c' (round_sent m e' (send_by c.active_transport now m c') c')
      (record {
        same = record { engine_same = refl; stats_same = refl; role_same = refl };
        engine_same = sym p;
        transport_same = refl;
        stats_same = refl;
      })
      (round_sent-Keeps m e' (send_by c.active_transport now m c') c' refl
        (send_by-Keeps c.active_transport now m c' refl))

Keeps-if : (b : Bool) (c d : Controller) → Keeps c d → Keeps c (if b then d else c)
Keeps-if true c d h = h
Keeps-if false c d h = Keeps-refl c

pub wake_engine_of-Keeps :
    (o : Option SimulatorEngine) (m : Option ScheduledMessage) (now : ℕ) (c : Controller)
    → c.engine ≡ o
    → Keeps c (wake_engine_of o m now c)
unfolding wake_engine_of send_scheduled_message
wake_engine_of-Keeps none o now c p = Keeps-refl c
wake_engine_of-Keeps (some e) (some m) now c p =
    round_sent-Keeps m e (send_by c.active_transport now m c) c (ap is_some p)
      (send_by-Keeps c.active_transport now m c refl)
wake_engine_of-Keeps (some e) none now c p =
    Keeps-if (is_live e.run_task) c (round_of (round e.scheduler) now e c)
      (round_of-Keeps (round e.scheduler) now e c (ap is_some p))
