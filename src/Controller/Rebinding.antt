-- ===== src/Controller/Rebinding.antt =====
-- The settings applied to a transport that is bound again.
use tcp_server_simulator.Prelude.{Option, Result, arith, false, none, ok, raise, refl, some, ℕ, ◌≡◌}
use tcp_server_simulator.Controller.Transports.{
  RuntimeSettings, Transport, build_transport, start_transport,
}
use tcp_server_simulator.Controller.Sides.{
  IsReceiving, IsSending, SameReceiver, rebind-SameReceiver, same_refl, same_trans,
  stop_transport-AtRest,
}
use tcp_server_simulator.Controller.{
  Controller, apply_settings, applying_rebind, bind, emit, rebind, started,
}

pub SameReceiver-IsReceiving :
    (c c' : Controller) → SameReceiver c c' → IsReceiving c → IsReceiving c'
SameReceiver-IsReceiving c c' h k = ground (arith, h, k)

-- A rebinding leaves no engine.
rebind-lem :
    (o : Option Transport) (c : Controller)
    → c.active_transport ≡ o
    → IsSending c
    → ((rebind o c).engine ≡ none) × ((rebind o c).stats_task ≡ false)
unfolding rebind
rebind-lem none c e h = ground (arith, h)
rebind-lem (some t) c e h =
    let rest = stop_transport-AtRest (emit applying_rebind c) in (rest.engine_none, rest.stats_none)

IsSending-idle : (c : Controller) → c.engine ≡ none → c.stats_task ≡ false → IsSending c
IsSending-idle c e s = ground (arith, e, s)

started-lem :
    (r : Transport × Result (Unit {0})) (c : Controller)
    → c.engine ≡ none
    → c.stats_task ≡ false
    → SameReceiver c (started r c).0 × IsSending (started r c).0
started-lem (t, ok u) c e s = (
  record { engine_same = refl; stats_same = refl; role_same = refl },
  IsSending-idle (started (t, ok u) c).0 e s,
)
started-lem (t, raise err) c e s = (
  record { engine_same = refl; stats_same = refl; role_same = refl },
  IsSending-idle (started (t, raise err) c).0 e s,
)

bind-lem :
    (answer : Result ℕ) (settings : RuntimeSettings) (built : Result Transport) (c : Controller)
    → c.engine ≡ none
    → c.stats_task ≡ false
    → SameReceiver c (bind answer settings built c).0 × IsSending (bind answer settings built c).0
unfolding bind
bind-lem answer settings (raise err) c e s = (same_refl c, IsSending-idle c e s)
bind-lem answer settings (ok t) c e s =
    let c' = record c {
      active_transport = some t;
      active_settings = some settings;
      stream_settings = none;
    } in
    let h = started-lem (start_transport answer t) c' e s in
    (
      same_trans c c' _ (record { engine_same = refl; stats_same = refl; role_same = refl }) h.0,
      h.1,
    )

pub apply_settings-lem :
    (answer : Result ℕ) (settings : RuntimeSettings) (c : Controller)
    → IsSending c
    → SameReceiver c (apply_settings answer settings c).0
      × IsSending (apply_settings answer settings c).0
unfolding apply_settings
apply_settings-lem answer settings c h =
    let c' = rebind c.active_transport c in
    let idle = rebind-lem c.active_transport c refl h in
    let b = bind-lem answer settings (build_transport settings false none) c' idle.0 idle.1 in
    (same_trans c c' _ (rebind-SameReceiver c.active_transport c) b.0, b.1)
