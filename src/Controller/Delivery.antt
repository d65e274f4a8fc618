-- ===== src/Controller/Delivery.antt =====
-- What a transmission by a client delivers.
use tcp_server_simulator.Prelude.{
  Bool, Bytes, List, Option, Result, [], ap, arith, false, length, none, ok, raise, refl, some,
  subst, suc, sym, take, true, ℕ, ◌++◌, ◌+◌, ◌∙◌, ◌∷◌, ◌≡◌, ◌≤◌,
}
use tcp_server_simulator.Simulator.{SimulatorEngine}
use tcp_server_simulator.TcpClientSender.{
  TcpClientConfig, init as tcp_client_init, start as tcp_client_start,
}
use tcp_server_simulator.UdpClientSender.{init as udp_client_init, start as udp_client_start}
use tcp_server_simulator.Controller.Transmission.{
  Going, bytes_of, features_of, taken_of, total_bytes, wake_all, wake_all-Sent, wake_engine-next,
}
use tcp_server_simulator.Controller.{
  Controller, Outcome, applying_rebind, caught, drop_transport, emit, emit_all, note_velocity,
  rebind, start_failed, stop_engine, stop_transport_async, then_do, transmit, transport_started,
}
use tcp_server_simulator.Controller.Rounds.{wake_engine}
use tcp_server_simulator.Controller.Starting.{
  announced, first_round, start_transmission, transmit_loaded,
}
use tcp_server_simulator.Controller.Transports.{
  Kind, RuntimeSettings, Transport, build_kind, build_transport, kind_of, start_transport,
  tcp_client, tcp_client_kind, udp_client, udp_client_kind,
}
use tcp_server_simulator.Controller.Loading.{
  Source, StreamSettings, Velocity, load_records, velocity_preset,
}
use tcp_server_simulator.TcpClientSender.Outbound.{start-accepted}
use tcp_server_simulator.Controller.Opening.{AreAccepted, Begun, selected, start_engine-Begun}

-- TCP and UDP clients.
abbrev pub is_client : Kind → Bool
is_client tcp_client_kind = true
is_client udp_client_kind = true
is_client _ = false

transmit-Begun :
    (k : Kind) (port : ℕ) (settings : RuntimeSettings) (stream : StreamSettings)
    (records : List Bytes) (header : Option Bytes) (send_header : Bool) (c : Controller)
    → is_client k ≡ true
    → AreAccepted c
    → Begun (selected c records) (
        transmit
          (ok port)
          settings
          stream
          records
          (build_kind (some k) settings send_header header)
          c)
unfolding transmit build_kind start_transport tcp_client_init udp_client_init udp_client_start
transmit-Begun tcp_client_kind port settings stream records header send_header c h a =
    let config : TcpClientConfig = record {
      reconnect_max_backoff = settings.reconnect_max_backoff;
      use_tls = settings.use_tls;
      tls_verify = settings.tls_verify;
    } in
    let t = tcp_client (tcp_client_start (tcp_client_init config)) in
    start_engine-Begun stream records t
      (emit_all (transport_started ∷ []) (record c {
        active_transport = some t;
        active_settings = some settings;
        stream_settings = some stream;
      }))
      refl refl (start-accepted (tcp_client_init config)) a
transmit-Begun udp_client_kind port settings stream records header send_header c h a =
    let t = udp_client (record { transport = true; sent = [] }) in
    start_engine-Begun stream records t
      (emit_all (transport_started ∷ []) (record c {
        active_transport = some t;
        active_settings = some settings;
        stream_settings = some stream;
      }))
      refl refl refl a
transmit-Begun _ port settings stream records header send_header c h a = absurd (cc h)

-- The controls stay as they are.
record SameControls (c c' : Controller) : Type 0 where
  start_same : c'.start_line ≡ c.start_line
  end_same : c'.end_line ≡ c.end_line
  first_same : c'.first_n ≡ c.first_n

stop_engine-controls :
    (o : Option SimulatorEngine) (c : Controller) → SameControls c (stop_engine o c)
unfolding stop_engine
stop_engine-controls o c = ground arith

drop_transport-controls :
    (o : Option Transport) (c : Controller) → SameControls c (drop_transport o c)
unfolding drop_transport
drop_transport-controls o c = ground arith

rebind-controls : (o : Option Transport) (c : Controller) → SameControls c (rebind o c)
unfolding rebind stop_transport_async
rebind-controls none c = record { start_same = refl; end_same = refl; first_same = refl }
rebind-controls (some t) c =
    let c' = record (emit applying_rebind c) { stats_task = false } in
    let d = stop_engine c'.engine c' in
    let h = stop_engine-controls c'.engine c' in
    let k = drop_transport-controls d.active_transport d in
    record {
      start_same = k.start_same ∙ h.start_same;
      end_same = k.end_same ∙ h.end_same;
      first_same = k.first_same ∙ h.first_same;
    }

note_velocity-controls : (v : Velocity) (c : Controller) → SameControls c (note_velocity v c)
note_velocity-controls v c = ground arith

-- The start has returned, and the client has taken the first record.
pub record Opened (r : Bytes) (rs : List Bytes) (out : Outcome) : Type 0 where
  pub returns : out.1 ≡ ok tt
  pub going : Going rs out.0
  pub taken_eq : taken_of out.0.active_transport ≡ r ∷ []
  pub features_eq : features_of out.0.engine ≡ 1
  pub bytes_eq : bytes_of out.0.engine ≡ length r

announced-Opened :
    (r : Bytes) (rs records : List Bytes) (header : Option Bytes) (c : Controller)
    → Going rs c
    → taken_of c.active_transport ≡ r ∷ []
    → features_of c.engine ≡ 1
    → bytes_of c.engine ≡ length r
    → Opened r rs (announced c.engine records header c)
announced-Opened r rs records header c g t f b =
    subst (λ o. Opened r rs (announced o records header c)) (sym g.engine_eq)
      (record {
        returns = refl;
        going = record {
          engine = g.engine;
          transport = g.transport;
          engine_eq = g.engine_eq;
          transport_eq = g.transport_eq;
          taking = g.taking;
          no_message = g.no_message;
          task_live = g.task_live;
          running = g.running;
          not_paused = g.not_paused;
          settled = g.settled;
          left = g.left;
        };
        taken_eq = t;
        features_eq = f;
        bytes_eq = b;
      })

then_round-Opened :
    (r : Bytes) (rs : List Bytes) (now : ℕ) (records : List Bytes) (header : Option Bytes)
    (out : Outcome)
    → Begun (r ∷ rs) out
    → Opened r rs (then_do out (first_round now records header))
unfolding wake_engine
then_round-Opened r rs now records header (d, ok u) b =
    let (going, next) = wake_engine-next now r rs d b.going in
    announced-Opened r rs records header (wake_engine now d) going
      (next.taken_eq ∙ ap (λ xs. xs ++ r ∷ []) b.taken_nil)
      (next.features_eq ∙ ap (λ m. m + 1) b.features_zero)
      (next.bytes_eq ∙ ap (λ m. m + (length r + 0)) b.bytes_zero ∙ omega arith)
then_round-Opened r rs now records header (d, raise err) b = absurd (cc b.returns)

caught-returns :
    (r : Bytes) (rs : List Bytes) (out : Outcome)
    → Opened r rs out
    → caught start_failed stop_transport_async out ≡ out.0
caught-returns r rs (c, ok u) h = refl
caught-returns r rs (c, raise err) h = absurd (cc h.returns)

SameControls-selected :
    (c c' : Controller) (records : List Bytes)
    → SameControls c c'
    → AreAccepted c
    → AreAccepted c' × (selected c' records ≡ selected c records)
SameControls-selected c c' records h a =
    let p = h.start_same in let q = h.end_same in let r = h.first_same in (cc, cc)

transmit_loaded-Opened :
    (k : Kind) (port now : ℕ) (settings : RuntimeSettings) (stream : StreamSettings)
    (records : List Bytes) (header : Option Bytes) (c : Controller) {r : Bytes} {rs : List Bytes}
    → is_client k ≡ true
    → kind_of settings.protocol settings.mode ≡ some k
    → AreAccepted c
    → selected c records ≡ r ∷ rs
    → Opened r rs (transmit_loaded (ok port) now settings stream (ok (records, header)) c)
unfolding transmit_loaded build_transport
transmit_loaded-Opened k port now settings stream records header c {r} {rs} h e a eq =
    let c' = rebind c.active_transport c in
    let same = SameControls-selected c c' records (rebind-controls c.active_transport c) a in
    let out : Option Kind → Outcome = λ o.
      transmit (ok port) settings stream records (build_kind o settings stream.send_header header)
        c' in
    let ready : Begun (r ∷ rs) (out (some k)) =
      subst (λ xs. Begun xs (out (some k))) (same.1 ∙ eq)
        (transmit-Begun k port settings stream records header stream.send_header c' h same.0) in
    then_round-Opened r rs now records header
      (transmit (ok port) settings stream records
        (build_transport settings stream.send_header header) c')
      (subst (λ o. Begun (r ∷ rs) (out o)) (sym e) ready)

pub opened :
    (k : Kind) (port now : ℕ) (source : Source) (settings : RuntimeSettings)
    (stream : StreamSettings) (c : Controller) {records : List Bytes} {header : Option Bytes}
    {r : Bytes} {rs : List Bytes}
    → is_client k ≡ true
    → kind_of settings.protocol settings.mode ≡ some k
    → load_records (velocity_preset stream).adjusted source ≡ ok (records, header)
    → AreAccepted c
    → selected c records ≡ r ∷ rs
    → Opened r rs (start_transmission (ok port) now source settings stream c, ok tt)
unfolding start_transmission
opened k port now source settings stream c {records} {header} {r} {rs} h e l a eq =
    let v = velocity_preset stream in
    let c' = note_velocity v c in
    let same = SameControls-selected c c' records (note_velocity-controls v c) a in
    let out : Result (List Bytes × Option Bytes) → Outcome =
      λ loaded. transmit_loaded (ok port) now settings v.adjusted loaded c' in
    let first : Opened r rs (out (load_records v.adjusted source)) =
      subst (λ loaded. Opened r rs (out loaded)) (sym l)
        (transmit_loaded-Opened k port now settings v.adjusted records header c' h e same.0
          (same.1 ∙ eq)) in
    let returned = caught-returns r rs (out (load_records v.adjusted source)) first in
    subst (λ d. Opened r rs (d, ok tt)) (sym returned)
      (record {
        returns = refl;
        going = first.going;
        taken_eq = first.taken_eq;
        features_eq = first.features_eq;
        bytes_eq = first.bytes_eq;
      })

-- What the client has taken and the engine has counted.
pub record Delivered (rs : List Bytes) (c : Controller) : Type 0 where
  pub taken_eq : taken_of c.active_transport ≡ rs
  pub features_eq : features_of c.engine ≡ length rs
  pub bytes_eq : bytes_of c.engine ≡ total_bytes rs

Opened-Delivered :
    (nows : List ℕ) (r : Bytes) (rs : List Bytes) (c : Controller)
    → Opened r rs (c, ok tt)
    → length nows ≤ length rs
    → Delivered (r ∷ take (length nows) rs) (wake_all nows c)
Opened-Delivered nows r rs c o n =
    let s = wake_all-Sent nows rs c o.going n in
    let xs = take (length nows) rs in
    record {
      taken_eq = s.taken_eq ∙ ap (λ ys. ys ++ xs) o.taken_eq;
      features_eq = s.features_eq ∙ ap (λ m. m + length xs) o.features_eq ∙ omega arith;
      bytes_eq = s.bytes_eq ∙ ap (λ m. m + total_bytes xs) o.bytes_eq;
    }

selection-Delivered :
    (nows : List ℕ) (selection : List Bytes) (c : Controller)
    → ((r : Bytes) (rs : List Bytes) → selection ≡ r ∷ rs → Opened r rs (c, ok tt))
    → length nows + 1 ≤ length selection
    → Delivered (take (length nows + 1) selection) (wake_all nows c)
selection-Delivered nows [] c o n = absurd (omega arith)
selection-Delivered nows (r ∷ rs) c o n =
    let e : length nows + 1 ≡ suc (length nows) = omega arith in
    subst (λ m. Delivered (take m (r ∷ rs)) (wake_all nows c)) (sym e)
      (Opened-Delivered nows r rs c (o r rs refl) (omega arith))

-- When a controller of accepted line controls starts a transmission by a TCP or UDP client, of a source
-- whose records can be loaded, then the client takes one of the selected records within the start, and one
-- more with each wait of the engine that ends behind it, in order and from the first on, as long as there
-- are that many; and the engine counts these records and their bytes.
pub transmission-Sent :
    (k : Kind) (port now : ℕ) (source : Source) (settings : RuntimeSettings)
    (stream : StreamSettings) (c : Controller) (nows : List ℕ) {records : List Bytes}
    {header : Option Bytes}
    → is_client k ≡ true
    → kind_of settings.protocol settings.mode ≡ some k
    → load_records (velocity_preset stream).adjusted source ≡ ok (records, header)
    → AreAccepted c
    → length nows + 1 ≤ length (selected c records)
    → Delivered
        (take (length nows + 1) (selected c records))
        (wake_all nows (start_transmission (ok port) now source settings stream c))
transmission-Sent k port now source settings stream c nows {records} h e l a n =
    selection-Delivered nows (selected c records)
      (start_transmission (ok port) now source settings stream c)
      (λ r rs eq. opened k port now source settings stream c h e l a eq) n
