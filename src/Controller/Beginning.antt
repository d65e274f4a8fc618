-- ===== src/Controller/Beginning.antt =====
-- The start of a transmission, whether it fails or not.
use tcp_server_simulator.Prelude.{
  Bytes, List, Option, Result, ap, arith, is_some, none, ok, raise, refl, some, ℕ, ◌∙◌, ◌≡◌,
}
use tcp_server_simulator.Simulator.{SimulatorEngine}
use tcp_server_simulator.Controller.Transports.{RuntimeSettings, build_transport}
use tcp_server_simulator.Controller.Loading.{
  Source, StreamSettings, Velocity, load_records, velocity_preset,
}
use tcp_server_simulator.Controller.Rounds.{wake_engine}
use tcp_server_simulator.Controller.{
  Controller, Outcome, caught, emit, note_velocity, rebind, start_failed, stop_transport_async,
  then_do, transmit,
}
use tcp_server_simulator.Controller.Starting.{
  announced, first_round, start_transmission, transmit_loaded,
}
use tcp_server_simulator.Controller.Sides.{
  AtRest-IsSending, Ends, Ends-trans, IsSending, SameReceiver, rebind-SameReceiver, same_refl,
  same_trans, stop_transport-AtRest, transmit-Ends,
}
use tcp_server_simulator.Controller.Kept.{Keeps-IsSending, wake_engine_of-Keeps}

announced-Ends :
    (o : Option SimulatorEngine) (records : List Bytes) (header : Option Bytes) (c : Controller)
    → c.engine ≡ o
    → IsSending c
    → Ends c (announced o records header c)
announced-Ends none records header c p h = same_refl c
announced-Ends (some e) records header c p h = (
  record { engine_same = refl; stats_same = refl; role_same = refl },
  record { engine_bound = h.engine_bound; stats_live = λ q. ap is_some p },
)

then_round-Ends :
    (c : Controller) (now : ℕ) (records : List Bytes) (header : Option Bytes) (out : Outcome)
    → Ends c out
    → Ends c (then_do out (first_round now records header))
unfolding wake_engine
then_round-Ends c now records header (d, ok u) h =
    let d' = wake_engine now d in
    let k = wake_engine_of-Keeps d.engine d.engine_message now d refl in
    Ends-trans c d' (announced d'.engine records header d') (same_trans c d d' h.0 k.same)
      (announced-Ends d'.engine records header d' refl (Keeps-IsSending d d' k h.1))
then_round-Ends c now records header (d, raise err) h = h

transmit_loaded-Ends :
    (answer : Result ℕ) (now : ℕ) (settings : RuntimeSettings) (stream : StreamSettings)
    (loaded : Result (List Bytes × Option Bytes)) (c : Controller)
    → Ends c (transmit_loaded answer now settings stream loaded c)
unfolding transmit_loaded
transmit_loaded-Ends answer now settings stream (raise err) c = same_refl c
transmit_loaded-Ends answer now settings stream (ok (records, header)) c =
    let c' = rebind c.active_transport c in
    let built = build_transport settings stream.send_header header in
    then_round-Ends c now records header (transmit answer settings stream records built c') (
      Ends-trans c c' (transmit answer settings stream records built c')
        (rebind-SameReceiver c.active_transport c)
        (transmit-Ends answer settings stream records built c'))

caught-lem :
    (c : Controller) (out : Outcome)
    → Ends c out
    → SameReceiver c (caught start_failed stop_transport_async out)
      × IsSending (caught start_failed stop_transport_async out)
caught-lem c (d, ok u) h = h
caught-lem c (d, raise err) h =
    let rest = stop_transport-AtRest (emit (start_failed err) d) in
    (
      record {
        engine_same = rest.same.engine_same ∙ h.engine_same;
        stats_same = rest.same.stats_same ∙ h.stats_same;
        role_same = rest.same.role_same ∙ h.role_same;
      },
      AtRest-IsSending (emit (start_failed err) d) _ rest,
    )

note_velocity-SameReceiver : (v : Velocity) (c : Controller) → SameReceiver c (note_velocity v c)
note_velocity-SameReceiver v c = ground arith

-- A start of a transmission, whether it fails or not, ends with a sender whose parts fit, and leaves a
-- receiver, and the role, as they are.
pub start_transmission-lem :
    (answer : Result ℕ) (now : ℕ) (source : Source) (settings : RuntimeSettings)
    (stream : StreamSettings) (c : Controller)
    → SameReceiver c (start_transmission answer now source settings stream c)
      × IsSending (start_transmission answer now source settings stream c)
unfolding start_transmission
start_transmission-lem answer now source settings stream c =
    let v = velocity_preset stream in
    let c' = note_velocity v c in
    let loaded = load_records v.adjusted source in
    caught-lem c (transmit_loaded answer now settings v.adjusted loaded c') (
      Ends-trans c c' (transmit_loaded answer now settings v.adjusted loaded c')
        (note_velocity-SameReceiver v c)
        (transmit_loaded-Ends answer now settings v.adjusted loaded c'))
