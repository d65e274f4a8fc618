-- ===== src/Controller/Drops.antt =====
-- The counter of drops of the controller's receiver transports.
use tcp_server_simulator.Prelude.{
  Bool, List, Option, Result, [], arith, none, ok, raise, refl, some, subst, sym, ℕ, ◌>>=◌, ◌∷◌,
  ◌≡◌,
}
use tcp_server_simulator.Framer.{FramingMode}
use tcp_server_simulator.Sink.Config.{SinkConfig, post_init}
use tcp_server_simulator.Sink.Files.{Disk}
use tcp_server_simulator.Sink.{Codec, init as sink_init}
use tcp_server_simulator.Receiver.{transport_acts, EngineCall, begin, begins, engine_call}
use tcp_server_simulator.Receiver.Drops.{
  CountsDrops, IsCounting, LeavesDrops, StandsAt, engine_call-CountsDrops,
}
use tcp_server_simulator.UdpServerReceiver.{
  init as udp_server_init, start as udp_server_start, stop as udp_server_stop,
  set_paused as udp_server_set_paused,
}
use tcp_server_simulator.UdpClientReceiver.{
  start_hello, init as udp_client_init, start as udp_client_start, stop as udp_client_stop,
  set_paused as udp_client_set_paused,
}
use tcp_server_simulator.Controller.Transports.{
  Kind, RuntimeSettings, kind_of, tcp_client_kind, tcp_server_kind, udp_client_kind,
  udp_server_kind,
}
use tcp_server_simulator.Controller.Receivers.{
  ReceiverSettings, ReceiverTransport, build_receiver_kind, build_receiver_transport, drops_of,
  framing_of, pause_receiver, receiver_ops, set_drops, start_receiver, stop_receiver,
  tcp_client_receiver, tcp_server_receiver, udp_client_receiver, udp_server_receiver,
}
use tcp_server_simulator.Controller.Reception.{
  begun, build_engine, leave_receiver, leave_sender, new_engine, receive, start_reception,
  stop_reception,
}
use tcp_server_simulator.Controller.{
  Controller, Receiving, receiver, caught, emit, reception_failed,
}
use tcp_server_simulator.Sink.Drops.{dropped}
use tcp_server_simulator.Controller.Receiving.{stop_reception-none}

set-drops :
    (n m : ℕ) (t : ReceiverTransport) → drops_of t ≡ some m → drops_of (set_drops n t) ≡ some n
unfolding drops_of set_drops
set-drops n m (tcp_server_receiver t) h = absurd (cc h)
set-drops n m (tcp_client_receiver t) h = absurd (cc h)
set-drops n m (udp_server_receiver t) h = refl
set-drops n m (udp_client_receiver t) h = refl

pause-drops : (b : Bool) (t : ReceiverTransport) → drops_of (pause_receiver b t) ≡ drops_of t
unfolding drops_of pause_receiver udp_server_set_paused udp_client_set_paused
pause-drops b (tcp_server_receiver t) = refl
pause-drops b (tcp_client_receiver t) = refl
pause-drops b (udp_server_receiver t) = refl
pause-drops b (udp_client_receiver t) = refl

start-drops :
    (answer : Result ℕ) (t : ReceiverTransport) → drops_of (start_receiver answer t).0 ≡ drops_of t
unfolding drops_of start_receiver udp_server_start udp_client_start start_hello
start-drops answer (tcp_server_receiver t) = ground arith
start-drops answer (tcp_client_receiver t) = refl
start-drops answer (udp_server_receiver t) = ground arith
start-drops answer (udp_client_receiver t) = ground arith

stop-drops : (t : ReceiverTransport) → drops_of (stop_receiver t) ≡ drops_of t
unfolding drops_of stop_receiver udp_server_stop udp_client_stop
stop-drops (tcp_server_receiver t) = refl
stop-drops (tcp_client_receiver t) = refl
stop-drops (udp_server_receiver t) = ground arith
stop-drops (udp_client_receiver t) = ground arith

receiver_ops-IsCounting : (answer : Result ℕ) → IsCounting (receiver_ops answer)
receiver_ops-IsCounting answer = record {
  set_eq = set-drops;
  pause_eq = pause-drops;
  begin_eq = start-drops answer;
  stop_eq = stop-drops;
}

abbrev InCount : Result ℕ → Receiving → Type 0
InCount answer e = CountsDrops (receiver_ops answer) (receiver_ops-IsCounting answer) e

-- What is built counts from zero.
abbrev IsFresh : Result ReceiverTransport → Type 0
IsFresh (ok t) = StandsAt 0 (drops_of t)
IsFresh (raise err) = Unit

build_receiver_kind-IsFresh :
    (o : Option Kind) (framing : FramingMode) (settings : RuntimeSettings) (r : ReceiverSettings)
    → IsFresh (build_receiver_kind o framing settings r)
unfolding build_receiver_kind drops_of udp_server_init udp_client_init
build_receiver_kind-IsFresh none framing settings r = tt
build_receiver_kind-IsFresh (some tcp_server_kind) framing settings r = tt
build_receiver_kind-IsFresh (some tcp_client_kind) framing settings r = tt
build_receiver_kind-IsFresh (some udp_server_kind) framing settings r = refl
build_receiver_kind-IsFresh (some udp_client_kind) framing settings r = refl

framed-IsFresh :
    (o : Option Kind) (framing : Result FramingMode) (settings : RuntimeSettings)
    (r : ReceiverSettings)
    → IsFresh (framing >>= λ f. build_receiver_kind o f settings r)
framed-IsFresh o (ok f) settings r = build_receiver_kind-IsFresh o f settings r
framed-IsFresh o (raise err) settings r = tt

abbrev AreBuilt : Result ℕ → Result Receiving → Type 0
AreBuilt answer (ok e) = InCount answer e
AreBuilt answer (raise err) = Unit

new_engine-InCount :
    (answer : Result ℕ) (disk : Disk) (t : Result ReceiverTransport) (cfg : Result SinkConfig)
    → IsFresh t
    → AreBuilt answer (t >>= λ t'. cfg >>= λ cfg'. ok (new_engine disk t' cfg'))
unfolding new_engine sink_init
new_engine-InCount answer disk (ok t) (ok cfg) h = h
new_engine-InCount answer disk (ok t) (raise err) h = tt
new_engine-InCount answer disk (raise err) cfg h = tt

build_engine-InCount :
    (answer : Result ℕ) (disk : Disk) (settings : RuntimeSettings) (r : ReceiverSettings)
    (sink_settings : SinkConfig)
    → AreBuilt answer (build_engine disk settings r sink_settings)
unfolding build_engine build_receiver_transport
build_engine-InCount answer disk settings r sink_settings =
    new_engine-InCount answer disk (build_receiver_transport settings r) (post_init sink_settings) (
      framed-IsFresh (kind_of settings.protocol settings.mode) (framing_of r.framing_mode) settings
        r)

-- A receiver engine, if there is one.
abbrev IsInCount : Result ℕ → Option Receiving → Type 0
IsInCount answer none = Unit
IsInCount answer (some e) = InCount answer e

begun-InCount :
    (answer : Result ℕ) (in_time : Bool) (r : Receiving × Result (Unit {0})) (c : Controller)
    → InCount answer r.0
    → IsInCount answer
        (caught reception_failed (stop_reception in_time) (begun r c)).receiver_engine
begun-InCount answer in_time (e, ok u) c h = h
begun-InCount answer in_time (e, raise err) c h =
    let d = emit (reception_failed err) (record c { receiver_engine = some e }) in
    subst (IsInCount answer) (sym (stop_reception-none in_time d).0) tt

receive-InCount :
    (codec : Codec) (answer : Result ℕ) (in_time : Bool) (settings : RuntimeSettings)
    (built : Result Receiving) (c : Controller)
    → AreBuilt answer built
    → IsInCount answer
        (caught reception_failed
          (stop_reception in_time)
          (receive codec answer settings built c)).receiver_engine
unfolding receive engine_call
receive-InCount codec answer in_time settings (raise err) c h =
    subst (IsInCount answer) (sym (stop_reception-none in_time (emit (reception_failed err) c)).0)
      tt
receive-InCount codec answer in_time settings (ok e) c h =
    begun-InCount answer in_time (begin (receiver_ops answer) codec e)
      (record c {
        receiver_engine = some e;
        active_settings = some settings;
        active_role = receiver;
      })
      (engine_call-CountsDrops (receiver_ops answer) (receiver_ops-IsCounting answer) codec begins e
        tt h)

-- One call of the engine after the other.
abbrev pub engine_calls :
    Result ℕ → Codec → List (EngineCall ReceiverTransport (Unit {0})) → Receiving → Receiving
engine_calls answer codec [] e = e
engine_calls answer codec (c ∷ cs) e =
    engine_calls answer codec cs (engine_call (receiver_ops answer) codec c e)

start_reception-InCount :
    (codec : Codec) (disk : Disk) (in_time : Bool) (answer : Result ℕ) (settings : RuntimeSettings)
    (r : ReceiverSettings) (sink_settings : SinkConfig) (c : Controller)
    → IsInCount answer
        (start_reception codec disk in_time answer settings r sink_settings c).receiver_engine
unfolding start_reception
start_reception-InCount codec disk in_time answer settings r sink_settings c =
    receive-InCount codec answer in_time settings (build_engine disk settings r sink_settings)
      (leave_receiver in_time (leave_sender c))
      (build_engine-InCount answer disk settings r sink_settings)

-- The calls that leave the counter to the engine: all but acts of the transport that touch it.
abbrev pub Leaves : EngineCall ReceiverTransport (Unit {0}) → Type 0
Leaves (transport_acts f) = (t : ReceiverTransport) → drops_of (f t) ≡ drops_of t
Leaves c = Unit

abbrev pub LeaveDrops : List (EngineCall ReceiverTransport (Unit {0})) → Type 0
LeaveDrops [] = Unit
LeaveDrops (c ∷ cs) = Leaves c × LeaveDrops cs

Leaves-LeavesDrops :
    (answer : Result ℕ) (c : EngineCall ReceiverTransport (Unit {0}))
    → Leaves c
    → LeavesDrops (receiver_ops answer) (receiver_ops-IsCounting answer) c
Leaves-LeavesDrops answer (transport_acts f) l = l
Leaves-LeavesDrops answer _ l = tt

engine_calls-InCount :
    (answer : Result ℕ) (codec : Codec) (cs : List (EngineCall ReceiverTransport (Unit {0})))
    (e : Receiving)
    → LeaveDrops cs
    → InCount answer e
    → InCount answer (engine_calls answer codec cs e)
engine_calls-InCount answer codec [] e l h = h
engine_calls-InCount answer codec (c ∷ cs) e l h =
    engine_calls-InCount answer codec cs (engine_call (receiver_ops answer) codec c e) l.1 (
      engine_call-CountsDrops (receiver_ops answer) (receiver_ops-IsCounting answer) codec c e
        (Leaves-LeavesDrops answer c l.0) h)

-- When a start of the receiver leaves an engine, then behind any calls of it, any runs of its sink, and
-- whatever its transport does that leaves the counter alone, the counter of drops of the transport, which
-- the UDP transports have, is the number of records that the sink has dropped.
pub start_reception-drops :
    (codec : Codec) (disk : Disk) (in_time : Bool) (answer : Result ℕ) (settings : RuntimeSettings)
    (r : ReceiverSettings) (sink_settings : SinkConfig) (c : Controller) (e : Receiving)
    (cs : List (EngineCall ReceiverTransport (Unit {0})))
    → (start_reception codec disk in_time answer settings r sink_settings c).receiver_engine
      ≡ some e
    → LeaveDrops cs
    → let e' = engine_calls answer codec cs e in StandsAt (dropped e'.sink) (drops_of e'.transport)
start_reception-drops codec disk in_time answer settings r sink_settings c e cs p l =
    engine_calls-InCount answer codec cs e l (
      subst (IsInCount answer) p
        (start_reception-InCount codec disk in_time answer settings r sink_settings c))
