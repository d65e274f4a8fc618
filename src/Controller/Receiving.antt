-- ===== src/Controller/Receiving.antt =====
-- The start and the stop of the receiver, and the sender that they leave.
use tcp_server_simulator.Prelude.{
  Bool, Option, Result, ap, arith, false, is_some, none, ok, raise, refl, some, ℕ, ◌∙◌, ◌≡◌,
}
use tcp_server_simulator.Controller.Transports.{RuntimeSettings}
use tcp_server_simulator.Controller.Reception.{
  begun, build_engine, configure_sink, configure_sink_of, detach, leave_receiver, leave_role,
  leave_sender, receive, reconfigured, start_reception, stop_reception,
}
use tcp_server_simulator.Controller.Sides.{
  AtRest-IsSending, IsReceiving, IsSending, is_receiver, stop_transport-AtRest,
}
use tcp_server_simulator.Controller.{
  Controller, Outcome, Receiving, caught, emit, receiver, reception_failed, sender,
  switching_to_receiver,
}
use tcp_server_simulator.Sink.Config.{SinkConfig, post_init}
use tcp_server_simulator.Sink.Files.{Disk}
use tcp_server_simulator.Sink.{Codec}
use tcp_server_simulator.Receiver.{begin, configure_sink as engine_configure_sink}
use tcp_server_simulator.Controller.Receivers.{ReceiverSettings, receiver_ops}

-- The sender's side stays as it is.
pub record SameSender (c c' : Controller) : Type 0 where
  pub engine_same : c'.engine ≡ c.engine
  pub transport_same : c'.active_transport ≡ c.active_transport
  pub stats_same : c'.stats_task ≡ c.stats_task

pub SameSender-IsSending : (c c' : Controller) → SameSender c c' → IsSending c → IsSending c'
SameSender-IsSending c c' h k = ground (arith, h, k)

pub stop_reception-SameSender :
    (in_time : Bool) (c : Controller) → SameSender c (stop_reception in_time c)
unfolding stop_reception detach leave_role
stop_reception-SameSender in_time c = ground arith

pub stop_reception-none :
    (in_time : Bool) (c : Controller)
    → let c' = stop_reception in_time c in
      (c'.receiver_engine ≡ none) × (c'.active_role ≡ sender) × (c'.receiver_stats_task ≡ false)
unfolding stop_reception detach leave_role
stop_reception-none in_time c = ground arith

pub stop_reception-IsReceiving :
    (in_time : Bool) (c : Controller) → IsReceiving (stop_reception in_time c)
stop_reception-IsReceiving in_time c = let h = stop_reception-none in_time c in ground (arith, h)

same_sender : (c : Controller) → SameSender c c
same_sender c = record { engine_same = refl; transport_same = refl; stats_same = refl }

SameSender-trans : (a b c : Controller) → SameSender a b → SameSender b c → SameSender a c
SameSender-trans a b c h k = record {
  engine_same = k.engine_same ∙ h.engine_same;
  transport_same = k.transport_same ∙ h.transport_same;
  stats_same = k.stats_same ∙ h.stats_same;
}

-- What a part of a start of the receiver leaves behind.
abbrev Receives : Controller → Outcome → Type 0
Receives c (c', ok u) = SameSender c c' × IsReceiving c'
Receives c (c', raise err) = SameSender c c'

Receives-from :
    (c c' : Controller) (out : Outcome) → SameSender c c' → Receives c' out → Receives c out
Receives-from c c' (d, ok u) h k = (SameSender-trans c c' d h k.0, k.1)
Receives-from c c' (d, raise err) h k = SameSender-trans c c' d h k

begun-Receives :
    (r : Receiving × Result (Unit {0})) (c : Controller)
    → c.active_role ≡ receiver
    → Receives c (begun r c)
begun-Receives (e, raise err) c h = record {
  engine_same = refl;
  transport_same = refl;
  stats_same = refl;
}
begun-Receives (e, ok u) c h = (
  record { engine_same = refl; transport_same = refl; stats_same = refl },
  record { role_eq = ap is_receiver h; stats_live = λ p. refl },
)

receive-Receives :
    (codec : Codec) (answer : Result ℕ) (settings : RuntimeSettings) (built : Result Receiving)
    (c : Controller)
    → Receives c (receive codec answer settings built c)
unfolding receive
receive-Receives codec answer settings (raise err) c = same_sender c
receive-Receives codec answer settings (ok e) c =
    let c' = record c {
      receiver_engine = some e;
      active_settings = some settings;
      active_role = receiver;
    } in
    Receives-from c c' (begun (begin (receiver_ops answer) codec e) c')
      (record { engine_same = refl; transport_same = refl; stats_same = refl })
      (begun-Receives (begin (receiver_ops answer) codec e) c' refl)

caught_reception-lem :
    (in_time : Bool) (c : Controller) (out : Outcome)
    → Receives c out
    → SameSender c (caught reception_failed (stop_reception in_time) out)
      × IsReceiving (caught reception_failed (stop_reception in_time) out)
caught_reception-lem in_time c (d, ok u) h = h
caught_reception-lem in_time c (d, raise err) h =
    let d' = emit (reception_failed err) d in
    (
      SameSender-trans c d' (stop_reception in_time d')
          (record {
            engine_same = h.engine_same;
            transport_same = h.transport_same;
            stats_same = h.stats_same;
          })
          (stop_reception-SameSender in_time d'),
      stop_reception-IsReceiving in_time d',
    )

leave_receiver-SameSender :
    (in_time : Bool) (c : Controller) → SameSender c (leave_receiver in_time c)
unfolding leave_receiver
leave_receiver-SameSender in_time c = ground (arith, stop_reception-SameSender in_time c)

leave_sender-none :
    (c : Controller) → ((leave_sender c).engine ≡ none) × ((leave_sender c).active_transport ≡ none)
unfolding leave_sender
leave_sender-none c =
    let rest = stop_transport-AtRest (emit switching_to_receiver c) in
    ground (arith, rest.engine_none, rest.transport_none)

pub leave_sender-IsSending : (c : Controller) → IsSending c → IsSending (leave_sender c)
unfolding leave_sender
leave_sender-IsSending c h =
    let rest = stop_transport-AtRest (emit switching_to_receiver c) in
    let idle = AtRest-IsSending (emit switching_to_receiver c) _ rest in ground (arith, h, idle)

-- The sender's side of a start of the receiver is that of leaving the sender.
pub start_reception-lem :
    (codec : Codec) (disk : Disk) (in_time : Bool) (answer : Result ℕ) (settings : RuntimeSettings)
    (r : ReceiverSettings) (sink_settings : SinkConfig) (c : Controller)
    → let c' = start_reception codec disk in_time answer settings r sink_settings c in
      SameSender (leave_sender c) c' × IsReceiving c'
unfolding start_reception
start_reception-lem codec disk in_time answer settings r sink_settings c =
    let left = leave_receiver in_time (leave_sender c) in
    let built = build_engine disk settings r sink_settings in
    let h =
      caught_reception-lem in_time left (receive codec answer settings built left)
        (receive-Receives codec answer settings built left) in
    (
      SameSender-trans (leave_sender c) left _ (leave_receiver-SameSender in_time (leave_sender c))
          h.0,
      h.1,
    )

-- A start of the receiver, whether it fails or not, leaves no engine and no transport of the sender, and
-- a receiver whose parts fit.
pub start_reception-exclusive :
    (codec : Codec) (disk : Disk) (in_time : Bool) (answer : Result ℕ) (settings : RuntimeSettings)
    (r : ReceiverSettings) (sink_settings : SinkConfig) (c : Controller)
    → let c' = start_reception codec disk in_time answer settings r sink_settings c in
      (c'.engine ≡ none) × (c'.active_transport ≡ none) × IsReceiving c'
start_reception-exclusive codec disk in_time answer settings r sink_settings c =
    let h = start_reception-lem codec disk in_time answer settings r sink_settings c in
    let left = leave_sender-none c in (h.0.engine_same ∙ left.0, h.0.transport_same ∙ left.1, h.1)

reconfigured-lem :
    (codec : Codec) (waiter : ℕ) (e : Receiving) (cfg : Result SinkConfig) (c : Controller)
    → c.receiver_engine ≡ some e
    → IsReceiving c
    → let c' = (reconfigured codec waiter e cfg c).0 in SameSender c c' × IsReceiving c'
unfolding engine_configure_sink
reconfigured-lem codec waiter e (raise err) c p h = (same_sender c, h)
reconfigured-lem codec waiter e (ok cfg) c p h = (
  record { engine_same = refl; transport_same = refl; stats_same = refl },
  record { role_eq = h.role_eq ∙ ap is_some p; stats_live = λ q. refl },
)

configured-lem :
    (o : Option Receiving) (codec : Codec) (waiter : ℕ) (sink_settings : SinkConfig)
    (c : Controller)
    → c.receiver_engine ≡ o
    → IsReceiving c
    → let c' = (configure_sink_of o codec waiter sink_settings c).0 in
      SameSender c c' × IsReceiving c'
unfolding configure_sink_of
configured-lem none codec waiter sink_settings c p h = (
  record { engine_same = refl; transport_same = refl; stats_same = refl },
  record { role_eq = h.role_eq; stats_live = h.stats_live },
)
configured-lem (some e) codec waiter sink_settings c p h =
    reconfigured-lem codec waiter e (post_init sink_settings) c p h

pub configure_sink-lem :
    (codec : Codec) (waiter : ℕ) (sink_settings : SinkConfig) (c : Controller)
    → IsReceiving c
    → let c' = (configure_sink codec waiter sink_settings c).0 in SameSender c c' × IsReceiving c'
unfolding configure_sink
configure_sink-lem codec waiter sink_settings c h =
    configured-lem c.receiver_engine codec waiter sink_settings c refl h
