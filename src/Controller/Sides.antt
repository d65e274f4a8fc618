-- ===== src/Controller/Sides.antt =====
-- The sender's and the receiver's side of the controller, and the start and the stop of a transmission.
use tcp_server_simulator.Prelude.{
  Bool, Bytes, List, Option, Result, arith, false, is_some, none, ok, raise, refl, some, true, ℕ,
  ◌∙◌, ◌∷◌, ◌≡◌,
}
use tcp_server_simulator.Simulator.{SimulatorEngine, init as engine_init, start as engine_start}
use tcp_server_simulator.Controller.Transports.{RuntimeSettings, Transport, start_transport}
use tcp_server_simulator.Controller.Loading.{StreamSettings}
use tcp_server_simulator.Controller.{
  Controller, Outcome, Role, apply_controls, applying_rebind, connections_of, controlled,
  drop_transport, emit, emit_all, rebind, receiver, sender, start_engine, started, stop_engine,
  stop_transport_async, then_do, transmit, transport_started,
}

abbrev pub is_receiver : Role → Bool
is_receiver receiver = true
is_receiver sender = false

-- The receiver's side stays as it is.
pub record SameReceiver (c c' : Controller) : Type 0 where
  pub engine_same : c'.receiver_engine ≡ c.receiver_engine
  pub stats_same : c'.receiver_stats_task ≡ c.receiver_stats_task
  pub role_same : c'.active_role ≡ c.active_role

-- An engine has a transport, and the task of its counters an engine.
pub record IsSending (c : Controller) : Type 0 where
  pub engine_bound : is_some c.engine ≡ true → is_some c.active_transport ≡ true
  pub stats_live : c.stats_task ≡ true → is_some c.engine ≡ true

-- The role is the receiver's exactly while there is a receiver engine, and the task of its counters has one.
pub record IsReceiving (c : Controller) : Type 0 where
  pub role_eq : is_receiver c.active_role ≡ is_some c.receiver_engine
  pub stats_live : c.receiver_stats_task ≡ true → is_some c.receiver_engine ≡ true

abbrev pub IsValid : Controller → Type 0
IsValid c = IsSending c × IsReceiving c

-- The sender is at rest, and the receiver's side is as before.
pub record AtRest (c c' : Controller) : Type 0 where
  pub same : SameReceiver c c'
  pub engine_none : c'.engine ≡ none
  pub transport_none : c'.active_transport ≡ none
  pub stats_none : c'.stats_task ≡ false

drop_transport-AtRest :
    (o : Option Transport) (c : Controller)
    → c.active_transport ≡ o
    → c.engine ≡ none
    → c.stats_task ≡ false
    → AtRest c (drop_transport o c)
unfolding drop_transport
drop_transport-AtRest none c e n s = record {
  same = record { engine_same = refl; stats_same = refl; role_same = refl };
  engine_none = n;
  transport_none = e;
  stats_none = s;
}
drop_transport-AtRest (some t) c e n s = record {
  same = record { engine_same = refl; stats_same = refl; role_same = refl };
  engine_none = n;
  transport_none = refl;
  stats_none = s;
}

stop_engine-none :
    (o : Option SimulatorEngine) (c : Controller) → c.engine ≡ o → (stop_engine o c).engine ≡ none
unfolding stop_engine
stop_engine-none none c e = e
stop_engine-none (some engine) c e = refl

stop_engine-rest :
    (o : Option SimulatorEngine) (c : Controller)
    → SameReceiver c (stop_engine o c) × ((stop_engine o c).stats_task ≡ c.stats_task)
unfolding stop_engine
stop_engine-rest none c = (record { engine_same = refl; stats_same = refl; role_same = refl }, refl)
stop_engine-rest (some e) c =
    (record { engine_same = refl; stats_same = refl; role_same = refl }, refl)

pub stop_transport-AtRest : (c : Controller) → AtRest c (stop_transport_async c)
unfolding stop_transport_async
stop_transport-AtRest c =
    let c' = record c { stats_task = false } in
    let stopped = stop_engine c.engine c' in
    let rest = stop_engine-rest c.engine c' in
    let dropped =
      drop_transport-AtRest stopped.active_transport stopped refl
        (stop_engine-none c.engine c' refl) rest.1 in
    record {
      same = record {
        engine_same = dropped.same.engine_same ∙ rest.0.engine_same;
        stats_same = dropped.same.stats_same ∙ rest.0.stats_same;
        role_same = dropped.same.role_same ∙ rest.0.role_same;
      };
      engine_none = dropped.engine_none;
      transport_none = dropped.transport_none;
      stats_none = dropped.stats_none;
    }

pub AtRest-IsSending : (c c' : Controller) → AtRest c c' → IsSending c'
AtRest-IsSending c c' h = ground (arith, h)

-- What a part of a start leaves behind: the receiver's side as it was, and a valid sender if it raised
-- nothing.
abbrev pub Ends : Controller → Outcome → Type 0
Ends c (c', ok u) = SameReceiver c c' × IsSending c'
Ends c (c', raise err) = SameReceiver c c'

pub same_refl : (c : Controller) → SameReceiver c c
same_refl c = record { engine_same = refl; stats_same = refl; role_same = refl }

pub same_trans : (a b c : Controller) → SameReceiver a b → SameReceiver b c → SameReceiver a c
same_trans a b c h k = record {
  engine_same = k.engine_same ∙ h.engine_same;
  stats_same = k.stats_same ∙ h.stats_same;
  role_same = k.role_same ∙ h.role_same;
}

pub Ends-trans : (a b : Controller) (out : Outcome) → SameReceiver a b → Ends b out → Ends a out
Ends-trans a b (c, ok u) h k = (same_trans a b c h k.0, k.1)
Ends-trans a b (c, raise err) h k = same_trans a b c h k

started_engine-Ends :
    (r : SimulatorEngine × Result (Unit {0})) (c : Controller)
    → is_some c.active_transport ≡ true
    → Ends c (record c { engine = some r.0 }, r.1)
started_engine-Ends (e, ok u) c h = (
  record { engine_same = refl; stats_same = refl; role_same = refl },
  record { engine_bound = λ p. h; stats_live = λ p. refl },
)
started_engine-Ends (e, raise err) c h = record {
  engine_same = refl;
  stats_same = refl;
  role_same = refl;
}

controlled-Ends :
    (r : Result SimulatorEngine) (c : Controller)
    → is_some c.active_transport ≡ true
    → Ends c (controlled r c)
unfolding engine_start
controlled-Ends (raise err) c h = same_refl c
controlled-Ends (ok e) c h = started_engine-Ends (engine_start e) c h

start_engine-Ends :
    (stream : StreamSettings) (records : List Bytes) (c : Controller)
    → is_some c.active_transport ≡ true
    → Ends c (start_engine stream records c)
unfolding start_engine
start_engine-Ends stream records c h =
    let e = engine_init records true stream.rate stream.loop in
    let c' = record c { engine = some e; engine_message = none } in
    Ends-trans c c' (start_engine stream records c)
      (record { engine_same = refl; stats_same = refl; role_same = refl })
      (controlled-Ends (apply_controls c e) c' h)

then_start-Ends :
    (r : Transport × Result (Unit {0})) (stream : StreamSettings) (records : List Bytes)
    (c : Controller)
    → Ends c (then_do (started r c) (start_engine stream records))
then_start-Ends (t, ok u) stream records c =
    let c' =
      emit_all (transport_started ∷ connections_of t) (record c { active_transport = some t }) in
    Ends-trans c c' (start_engine stream records c')
      (record { engine_same = refl; stats_same = refl; role_same = refl })
      (start_engine-Ends stream records c' refl)
then_start-Ends (t, raise err) stream records c = record {
  engine_same = refl;
  stats_same = refl;
  role_same = refl;
}

pub transmit-Ends :
    (answer : Result ℕ) (settings : RuntimeSettings) (stream : StreamSettings)
    (records : List Bytes) (built : Result Transport) (c : Controller)
    → Ends c (transmit answer settings stream records built c)
unfolding transmit
transmit-Ends answer settings stream records (raise err) c = same_refl c
transmit-Ends answer settings stream records (ok t) c =
    let c' = record c {
      active_transport = some t;
      active_settings = some settings;
      stream_settings = some stream;
    } in
    Ends-trans c c' (then_do (started (start_transport answer t) c') (start_engine stream records))
      (record { engine_same = refl; stats_same = refl; role_same = refl })
      (then_start-Ends (start_transport answer t) stream records c')

pub rebind-SameReceiver : (o : Option Transport) (c : Controller) → SameReceiver c (rebind o c)
unfolding rebind
rebind-SameReceiver none c = same_refl c
rebind-SameReceiver (some t) c =
    let h = (stop_transport-AtRest (emit applying_rebind c)).same in
    record { engine_same = h.engine_same; stats_same = h.stats_same; role_same = h.role_same }
