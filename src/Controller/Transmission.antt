-- ===== src/Controller/Transmission.antt =====
-- What a transmission by a client sends: the records of its file, in order, one with each wait of the engine.
use tcp_server_simulator.Prelude.{
  Bool, Bytes, List, Option, Result, [], ap, append-nil, append_assoc, ap₂, arith, drop, drop-cons,
  false, get_elem?, if◌then◌else◌, length, none, not, ok, raise, refl, some, subst, suc, sym, take,
  true, ℕ, ◌++◌, ◌+◌, ◌∙◌, ◌∷◌, ◌≡◌, ◌≤◌,
}
use tcp_server_simulator.Scheduler.{ScheduledMessage, SendScheduler, record_message, step, stop}
use tcp_server_simulator.Scheduler.Auto.{Round, leaves, round, round_step, waits as loop_waits}
use tcp_server_simulator.Scheduler.Pass.{IsSettled, step-next}
use tcp_server_simulator.Simulator.{SimulatorEngine, count_message, is_live, live}
use tcp_server_simulator.TcpClientSender.Outbound.{accepted}
use tcp_server_simulator.TcpClientSender.{send as tcp_client_send}
use tcp_server_simulator.UdpClientSender.{send as udp_client_send}
use tcp_server_simulator.Controller.Transports.{
  Transport, has_no_reader, send_to, tcp_client, udp_client,
}
use tcp_server_simulator.Controller.Commands.{send_by, send_scheduled_message, sends, sent_to}
use tcp_server_simulator.Controller.Rounds.{
  count_sent, round_of, round_sent, wake_engine, wake_engine_of,
}
use tcp_server_simulator.Controller.{Controller}

-- The payloads that a client has taken: sent as datagrams; or written to its connections, or queued for one.
abbrev pub taken : Transport → List Bytes
taken (tcp_client t) = accepted t
taken (udp_client u) = u.sent
taken _ = []

abbrev pub is_taking : Transport → Bool
is_taking (tcp_client t) = true
is_taking (udp_client u) = u.transport
is_taking _ = false

record Takes (t : Transport) (payload : Bytes) (r : Transport × Result (Unit {0})) : Type 0 where
  returns : r.1 ≡ ok tt
  taken_eq : taken r.0 ≡ taken t ++ payload ∷ []
  taking : is_taking r.0 ≡ true
  no_wait : has_no_reader t ≡ false

send_to-Takes :
    (now : ℕ) (payload : Bytes) (t : Transport)
    → is_taking t ≡ true
    → Takes t payload (send_to now payload t)
unfolding send_to tcp_client_send udp_client_send has_no_reader
send_to-Takes now payload (tcp_client t) h = record {
  returns = refl;
  taken_eq = sym (append_assoc t.written t.outbound (payload ∷ []));
  taking = refl;
  no_wait = refl;
}
send_to-Takes now payload (udp_client u) h = record {
  returns = rw (h, udp_client_send) refl;
  taken_eq = rw (h, udp_client_send) refl;
  taking = rw (h, udp_client_send) refl;
  no_wait = refl;
}
send_to-Takes now payload _ h = absurd (cc h)

-- The transmission goes on, with these records left to send in this pass.
pub record Going (rs : List Bytes) (c : Controller) : Type 0 where
  pub engine : SimulatorEngine
  pub transport : Transport
  pub engine_eq : c.engine ≡ some engine
  pub transport_eq : c.active_transport ≡ some transport
  pub taking : is_taking transport ≡ true
  pub no_message : c.engine_message ≡ none
  pub task_live : engine.run_task ≡ live
  pub running : engine.scheduler.running ≡ true
  pub not_paused : engine.scheduler.paused ≡ false
  pub settled : IsSettled engine.scheduler
  pub left : drop engine.scheduler.cursor engine.scheduler.records ≡ rs

abbrev pub taken_of : Option Transport → List Bytes
taken_of none = []
taken_of (some t) = taken t

-- The records that the engine has counted.
abbrev pub features_of : Option SimulatorEngine → ℕ
features_of none = 0
features_of (some e) = e.features_sent

abbrev pub bytes_of : Option SimulatorEngine → ℕ
bytes_of none = 0
bytes_of (some e) = e.bytes_sent

abbrev pub total_bytes : List Bytes → ℕ
total_bytes [] = 0
total_bytes (r ∷ rs) = length r + total_bytes rs

pub record Sent (rs : List Bytes) (c c' : Controller) : Type 0 where
  pub taken_eq : taken_of c'.active_transport ≡ taken_of c.active_transport ++ rs
  pub features_eq : features_of c'.engine ≡ features_of c.engine + length rs
  pub bytes_eq : bytes_of c'.engine ≡ bytes_of c.engine + total_bytes rs

branch :
    (b p : Bool) (x y z : Round)
    → b ≡ true
    → p ≡ false
    → (if not b then x else if p then y else z) ≡ z
branch b p x y z h k = ground (arith, h, k)

-- A round of a scheduler that runs, with a record at its cursor.
round-next :
    (s : SendScheduler) {r : Bytes}
    → s.running ≡ true
    → s.paused ≡ false
    → IsSettled s
    → get_elem? s.records s.cursor ≡ some r
    → round s
      ≡ loop_waits
          (record s { cursor = s.cursor + 1 })
          (some (record_message s.generation (s.cursor + 1) r))
unfolding round round_step
round-next s p q h e =
    branch s.running s.paused (leaves (stop s)) (loop_waits s none) (round_step s (step s)) p q
    ∙ ap (round_step s) (step-next s h e)

sends-eq :
    (m : ScheduledMessage) (e : SimulatorEngine) (r : Transport × Result (Unit {0}))
    (c : Controller)
    → r.1 ≡ ok tt
    → round_sent m e (sends (sent_to r c)) c ≡ record c {
      active_transport = some r.0;
      engine = some (count_message m e);
      engine_message = none;
    }
unfolding count_sent
sends-eq m e (t, ok u) c h = refl
sends-eq m e (t, raise err) c h = absurd (cc h)

-- A message for a client that takes it.
round_sent-eq :
    (now : ℕ) (m : ScheduledMessage) (e : SimulatorEngine) (t : Transport) (c : Controller)
    → c.active_transport ≡ some t
    → is_taking t ≡ true
    → round_sent m e (send_scheduled_message now m c) c ≡ record c {
      active_transport = some (send_to now m.payload t).0;
      engine = some (count_message m e);
      engine_message = none;
    }
unfolding send_scheduled_message send_by count_sent
round_sent-eq now m e t c p h =
    let k = send_to-Takes now m.payload t h in
    ap (λ o. round_sent m e (send_by o now m c) c) p
    ∙ rw (k.no_wait) (sends-eq m e (send_to now m.payload t) c k.returns)

-- A wait of the engine ends: the next record goes to the client, and is counted.
pub wake_engine-next :
    (now : ℕ) (r : Bytes) (rs : List Bytes) (c : Controller)
    → Going (r ∷ rs) c
    → Going rs (wake_engine now c) × Sent (r ∷ []) c (wake_engine now c)
unfolding wake_engine wake_engine_of round_of
wake_engine-next now r rs c g =
    let e = g.engine in
    let s = e.scheduler in
    let (here, behind) = drop-cons s.cursor s.records g.left in
    let s' = record s { cursor = s.cursor + 1 } in
    let e' = record e { scheduler = s' } in
    let m = record_message s.generation (s.cursor + 1) r in
    let k = send_to-Takes now r g.transport g.taking in
    let woken : wake_engine now c ≡ record c {
      active_transport = some (send_to now r g.transport).0;
      engine = some (count_message m e');
      engine_message = none;
    } =
      ap₂ (λ o x. wake_engine_of o x now c) g.engine_eq g.no_message
      ∙ ap (λ t. if is_live t then round_of (round s) now e c else c) g.task_live
      ∙ ap (λ x. round_of x now e c) (round-next s g.running g.not_paused g.settled here)
      ∙ round_sent-eq now m e' g.transport (record c { engine = some e' }) g.transport_eq
          g.taking in
    subst (λ d. Going rs d × Sent (r ∷ []) c d) (sym woken)
      (
        record {
          engine = count_message m e';
          transport = (send_to now r g.transport).0;
          engine_eq = refl;
          transport_eq = refl;
          taking = k.taking;
          no_message = refl;
          task_live = g.task_live;
          running = g.running;
          not_paused = g.not_paused;
          settled = record { no_swap = g.settled.no_swap; no_header = g.settled.no_header };
          left = ap (λ n. drop n s.records) {y = suc s.cursor} (omega arith) ∙ behind;
        },
        record {
          taken_eq = k.taken_eq ∙ ap (λ o. taken_of o ++ r ∷ []) (sym g.transport_eq);
          features_eq = ap (λ o. features_of o + 1) (sym g.engine_eq);
          bytes_eq = ap (λ o. bytes_of o + length r) (sym g.engine_eq) ∙ omega arith;
        },
      )

-- One wait of the engine after the other ends.
abbrev pub wake_all : List ℕ → Controller → Controller
wake_all [] c = c
wake_all (now ∷ nows) c = wake_all nows (wake_engine now c)

Sent-refl : (c : Controller) → Sent [] c c
Sent-refl c = record {
  taken_eq = sym (append-nil (taken_of c.active_transport));
  features_eq = omega arith;
  bytes_eq = omega arith;
}

Sent-cons :
    (r : Bytes) (rs : List Bytes) (c d d' : Controller)
    → Sent (r ∷ []) c d
    → Sent rs d d'
    → Sent (r ∷ rs) c d'
Sent-cons r rs c d d' h k = record {
  taken_eq =
      k.taken_eq
      ∙ ap (λ xs. xs ++ rs) h.taken_eq
      ∙ append_assoc (taken_of c.active_transport) (r ∷ []) rs;
  features_eq = omega (arith, h.features_eq, k.features_eq);
  bytes_eq = omega (arith, h.bytes_eq, k.bytes_eq);
}

pub wake_all-Sent :
    (nows : List ℕ) (rs : List Bytes) (c : Controller)
    → Going rs c
    → length nows ≤ length rs
    → Sent (take (length nows) rs) c (wake_all nows c)
wake_all-Sent [] rs c g h = Sent-refl c
wake_all-Sent (now ∷ nows) [] c g h = absurd (omega arith)
wake_all-Sent (now ∷ nows) (r ∷ rs) c g h =
    let next = wake_engine-next now r rs c g in
    let d = wake_engine now c in
    Sent-cons r (take (length nows) rs) c d (wake_all nows d) next.1
      (wake_all-Sent nows rs d next.0 (omega arith))
