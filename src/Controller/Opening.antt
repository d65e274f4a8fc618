-- ===== src/Controller/Opening.antt =====
-- The engine that a transmission starts, on a client that takes its payloads.
use tcp_server_simulator.Prelude.{
  Bool, Bytes, List, Option, Result, [], ap, arith, drop, false, if◌then◌else◌, none, ok, raise,
  refl, some, subst, sym, true, ℕ, ◌>>=◌, ◌||◌, ◌∙◌, ◌≡◌,
}
use tcp_server_simulator.Scheduler.{
  rebuild_active_records, set_line_controls as scheduler_set_line_controls, init as scheduler_init,
  start as scheduler_start,
}
use tcp_server_simulator.Scheduler.Active.{active, check_line_controls}
use tcp_server_simulator.Scheduler.Calls.{active_all}
use tcp_server_simulator.Scheduler.Pass.{IsSettled}
use tcp_server_simulator.Simulator.{
  SimulatorEngine, is_running, live, no_task, with_scheduler, init as engine_init,
  start as engine_start, set_line_controls as engine_set_line_controls,
}
use tcp_server_simulator.Controller.Transmission.{
  Going, bytes_of, features_of, is_taking, taken, taken_of,
}
use tcp_server_simulator.Controller.{
  Controller, Outcome, apply_controls, controlled, is_set, start_engine,
}
use tcp_server_simulator.Controller.Transports.{Transport}
use tcp_server_simulator.Controller.Loading.{StreamSettings}

-- An engine that has not started, with these records to send.
record Ready (rs : List Bytes) (e : SimulatorEngine) : Type 0 where
  idle : e.run_task ≡ no_task
  callback : e.send_callback ≡ true
  not_paused : e.scheduler.paused ≡ false
  settled : IsSettled e.scheduler
  left : drop e.scheduler.cursor e.scheduler.records ≡ rs
  features_zero : e.features_sent ≡ 0
  bytes_zero : e.bytes_sent ≡ 0

abbrev ReadyResult : List Bytes → Result SimulatorEngine → Type 0
ReadyResult rs (ok e) = Ready rs e
ReadyResult rs (raise err) = ⊥

set_line_controls-Ready :
    (st en fn : Option ℕ) (records : List Bytes) (rate : ℕ) (loop : Bool)
    → check_line_controls st en fn ≡ ok tt
    → let r = engine_set_line_controls st en fn (engine_init records true rate loop) in
      ReadyResult (active st en fn records) r
unfolding engine_set_line_controls scheduler_set_line_controls engine_init rebuild_active_records
    scheduler_init
set_line_controls-Ready st en fn records rate loop h =
    let e = engine_init records true rate loop in
    let set : Result (Unit {0}) → Type 0 = λ checked. ReadyResult (active st en fn records) (
      with_scheduler
        (checked >>= λ u. ok (
          rebuild_active_records
            (record e.scheduler { start_line = st; end_line = en; first_n = fn })))
        e) in
    subst set (sym h) (record {
      idle = refl;
      callback = refl;
      not_paused = refl;
      settled = record { no_swap = refl; no_header = refl };
      left = refl;
      features_zero = refl;
      bytes_zero = refl;
    })

apply-Ready :
    (st en fn : Option ℕ) (records : List Bytes) (rate : ℕ) (loop : Bool)
    → check_line_controls st en fn ≡ ok tt
    → ReadyResult (active st en fn records) (
        if is_set st || is_set en || is_set fn
        then engine_set_line_controls st en fn (engine_init records true rate loop)
        else ok (engine_init records true rate loop))
unfolding engine_init scheduler_init
apply-Ready none none none records rate loop h = record {
  idle = refl;
  callback = refl;
  not_paused = refl;
  settled = record { no_swap = refl; no_header = refl };
  left = sym (active_all records);
  features_zero = refl;
  bytes_zero = refl;
}
apply-Ready (some st) en fn records rate loop h =
    set_line_controls-Ready (some st) en fn records rate loop h
apply-Ready none (some en) fn records rate loop h =
    set_line_controls-Ready none (some en) fn records rate loop h
apply-Ready none none (some fn) records rate loop h =
    set_line_controls-Ready none none (some fn) records rate loop h

engine_start-idle :
    (e : SimulatorEngine)
    → e.run_task ≡ no_task
    → e.send_callback ≡ true
    → engine_start e
      ≡ (record e { run_task = live; scheduler = scheduler_start e.scheduler }, ok tt)
unfolding engine_start is_running
engine_start-idle e h k = ground (arith, h, k)

-- The engine has started, and has not made its first round.
pub record Begun (rs : List Bytes) (out : Outcome) : Type 0 where
  pub returns : out.1 ≡ ok tt
  pub going : Going rs out.0
  pub taken_nil : taken_of out.0.active_transport ≡ []
  pub features_zero : features_of out.0.engine ≡ 0
  pub bytes_zero : bytes_of out.0.engine ≡ 0

controlled-Begun :
    (rs : List Bytes) (o : Result SimulatorEngine) (t : Transport) (c : Controller)
    → c.active_transport ≡ some t
    → is_taking t ≡ true
    → taken t ≡ []
    → c.engine_message ≡ none
    → ReadyResult rs o
    → Begun rs (controlled o c)
unfolding engine_start
controlled-Begun rs (raise err) t c p h z n r = absurd r
controlled-Begun rs (ok e) t c p h z n r =
    let e' = record e { run_task = live; scheduler = scheduler_start e.scheduler } in
    subst
      (λ (started : SimulatorEngine × Result (Unit {0})).
        Begun rs (record c { engine = some started.0 }, started.1))
      (sym (engine_start-idle e r.idle r.callback))
      (record {
        returns = refl;
        going = record {
          engine = e';
          transport = t;
          engine_eq = refl;
          transport_eq = p;
          taking = h;
          no_message = n;
          task_live = refl;
          running = unfold scheduler_start in refl;
          not_paused = unfold scheduler_start in r.not_paused;
          settled =
              unfold scheduler_start in
              record { no_swap = r.settled.no_swap; no_header = r.settled.no_header };
          left = unfold scheduler_start in r.left;
        };
        taken_nil = ap taken_of p ∙ z;
        features_zero = r.features_zero;
        bytes_zero = r.bytes_zero;
      })

-- The records that the controls of a controller select.
abbrev pub selected : Controller → List Bytes → List Bytes
selected c records = active c.start_line c.end_line c.first_n records

abbrev pub AreAccepted : Controller → Type 0
AreAccepted c = check_line_controls c.start_line c.end_line c.first_n ≡ ok tt

pub start_engine-Begun :
    (stream : StreamSettings) (records : List Bytes) (t : Transport) (c : Controller)
    → c.active_transport ≡ some t
    → is_taking t ≡ true
    → taken t ≡ []
    → AreAccepted c
    → Begun (selected c records) (start_engine stream records c)
unfolding start_engine apply_controls
start_engine-Begun stream records t c p h z a =
    let e = engine_init records true stream.rate stream.loop in
    controlled-Begun (selected c records) (apply_controls c e) t
      (record c { engine = some e; engine_message = none }) p h z refl
      (apply-Ready c.start_line c.end_line c.first_n records stream.rate stream.loop a)
