-- ===== src/TcpClientReceiver/Calls.antt =====
-- The calls of the TCP client receiver, the turns of its run task among them.
use tcp_server_simulator.Prelude.{
  Bool, List, [], arith, false, length, length-append, refl, subst, true, ◌++◌, ◌+◌, ◌<◌, ◌∙◌, ◌∷◌,
  ◌≡◌,
}
use tcp_server_simulator.Framer.{FramedRecord, Framer, feed, flush, init as framer_init}
use tcp_server_simulator.Backoff.{ReconnectBackoff, reset as backoff_reset}
use tcp_server_simulator.UdpServerReceiver.Datagrams.{truncated_of}
use tcp_server_simulator.TcpClientReceiver.{
  Phase, Read, Reason, TcpClientReceiver, TcpClientReceiverConfig, Turn, after_connection, back_off,
  backing_off, cancel, chunk, close_connection, connecting, connects, deliver, deliver_all, elapses,
  emit_event, end_read, ended, eof, error, failed, fails, finish, init, next_attempt, next_read,
  no_task, open_connection, read_with, reading, reads, receiver_connected, refused, set_paused,
  start, stop, stop_with, turn, turn_in, waiting, wake, woken,
}
use tcp_server_simulator.Framer.Stream.{of_option}

-- A call of a method, or a wait of the task that ends.
pub data ClientCall : Type 0 where
  start_call stop_call : ClientCall
  set_paused_call : Bool → ClientCall
  turn_call : Turn → ClientCall

unfoldable pub client_call : ClientCall → TcpClientReceiver → TcpClientReceiver
unfolding start stop set_paused turn
client_call start_call t = start t
client_call stop_call t = (stop t).0
client_call (set_paused_call paused) t = set_paused paused t
client_call (turn_call u) t = turn u t

unfoldable pub client_calls : List ClientCall → TcpClientReceiver → TcpClientReceiver
unfolding client_call
client_calls [] t = t
client_calls (c ∷ cs) t = client_calls cs (client_call c t)

-- What goes with the place where the task waits: whether the client runs, is connected, and is paused.
abbrev pub Fits : Phase → Bool → Bool → Bool → Type 0
Fits no_task running connected paused = (running ≡ false) × (connected ≡ false)
Fits ended running connected paused = ⊥
Fits (connecting b) running connected paused = (running ≡ true) × (connected ≡ false)
Fits (backing_off b) running connected paused = (running ≡ true) × (connected ≡ false)
Fits (waiting b f) running connected paused =
    (running ≡ true) × ((connected ≡ true) × (paused ≡ true))
Fits (woken b f) running connected paused = (running ≡ true) × (connected ≡ true)
Fits (reading b f) running connected paused = (running ≡ true) × (connected ≡ true)
Fits (failed err) running connected paused = connected ≡ false

abbrev FitsIn : TcpClientReceiver → Type 0
FitsIn t = Fits t.task t.running t.connected t.paused

-- The task waits where the client's flags say; there is a connection exactly when it is announced; each
-- record that was delivered is counted, and so is each that was cut.
pub record IsValid (t : TcpClientReceiver) : Type 0 where
  pub fits : Fits t.task t.running t.connected t.paused
  pub writer_eq : t.writer ≡ t.connected
  pub records_eq : t.records_received ≡ length t.delivered
  pub truncated_eq : t.truncations ≡ truncated_of t.delivered
  pub positive : 0 < t.config.max_record_bytes

truncated_of-append :
    (rs ss : List FramedRecord) → truncated_of (rs ++ ss) ≡ truncated_of rs + truncated_of ss
truncated_of-append [] ss = omega arith
truncated_of-append (r ∷ rs) ss = ground (arith, truncated_of-append rs ss)

-- The part of validity that the delivery of records keeps wherever the task is.
record IsCounted (t : TcpClientReceiver) : Type 0 where
  records_eq : t.records_received ≡ length t.delivered
  truncated_eq : t.truncations ≡ truncated_of t.delivered
  positive : 0 < t.config.max_record_bytes
  running_eq : t.running ≡ true

deliver-IsCounted :
    (r : FramedRecord) (t : TcpClientReceiver) → IsCounted t → IsCounted (deliver r t)
unfolding deliver
deliver-IsCounted r t h =
    let n = length-append t.delivered (r ∷ []) in
    let m = truncated_of-append t.delivered (r ∷ []) in ground (arith, n, m)

deliver_all-IsCounted :
    (rs : List FramedRecord) (t : TcpClientReceiver) → IsCounted t → IsCounted (deliver_all rs t)
unfolding deliver_all
deliver_all-IsCounted [] t h = h
deliver_all-IsCounted (r ∷ rs) t h =
    deliver_all-IsCounted rs (deliver r t) (deliver-IsCounted r t h)

deliver_all-same :
    (rs : List FramedRecord) (t : TcpClientReceiver)
    → let t' = deliver_all rs t in
      (t'.writer ≡ t.writer) × ((t'.connected ≡ t.connected) × (t'.paused ≡ t.paused))
unfolding deliver_all deliver
deliver_all-same [] t = (refl, (refl, refl))
deliver_all-same (r ∷ rs) t = ground (arith, deliver_all-same rs (deliver r t))

after_connection-IsValid :
    (reason : Reason) (b : ReconnectBackoff) (t : TcpClientReceiver)
    → IsCounted t
    → t.writer ≡ false
    → t.connected ≡ false
    → IsValid (after_connection reason b t)
unfolding after_connection back_off
after_connection-IsValid reason b t h w c = ground arith

finish-IsValid :
    (reason : Reason) (b : ReconnectBackoff) (f : Framer) (t : TcpClientReceiver)
    → IsCounted t
    → IsValid (finish reason b f t)
unfolding finish
finish-IsValid reason b f t h =
    let rs = of_option (flush f).1 in
    let n = deliver_all-IsCounted rs t h in
    after_connection-IsValid reason b (close_connection reason (deliver_all rs t))
      (record {
        records_eq = n.records_eq;
        truncated_eq = n.truncated_eq;
        positive = n.positive;
        running_eq = n.running_eq;
      })
      refl refl

next_read-IsValid :
    (b : ReconnectBackoff) (f : Framer) (t : TcpClientReceiver)
    → IsCounted t
    → t.writer ≡ true
    → t.connected ≡ true
    → IsValid (next_read b f t)
unfolding next_read
next_read-IsValid b f t h w c = ground (arith, finish-IsValid eof b f t h)

open_connection-IsValid :
    (b : ReconnectBackoff) (t : TcpClientReceiver) → IsCounted t → IsValid (open_connection b t)
unfolding open_connection read_with framer_init
open_connection-IsValid b t h =
    let opened = emit_event receiver_connected (record t { writer = true; connected = true }) in
    let f : Framer = record {
      mode = t.config.framing_mode;
      max = t.config.max_record_bytes;
      buf = [];
      overflow = false;
    } in
    let next =
      next_read-IsValid (backoff_reset b) f opened
        (record {
          records_eq = h.records_eq;
          truncated_eq = h.truncated_eq;
          positive = h.positive;
          running_eq = h.running_eq;
        })
        refl refl in
    ground (arith, next, h.positive)

end_read-IsValid :
    (r : Read) (b : ReconnectBackoff) (f : Framer) (t : TcpClientReceiver)
    → IsCounted t
    → t.writer ≡ true
    → t.connected ≡ true
    → IsValid (end_read r b f t)
unfolding end_read
end_read-IsValid (fails name) b f t h w c = finish-IsValid (error name) b f t h
end_read-IsValid (chunk []) b f t h w c = finish-IsValid eof b f t h
end_read-IsValid (chunk (x ∷ xs)) b f t h w c =
    let fed = feed f (x ∷ xs) in
    let t' = record t { bytes_received = t.bytes_received + length (x ∷ xs) } in
    let same = deliver_all-same fed.1 t' in
    next_read-IsValid b fed.0 (deliver_all fed.1 t')
      (deliver_all-IsCounted fed.1 t' (record {
        records_eq = h.records_eq;
        truncated_eq = h.truncated_eq;
        positive = h.positive;
        running_eq = h.running_eq;
      }))
      (same.0 ∙ w) (same.1.0 ∙ c)

counted : (t : TcpClientReceiver) → IsValid t → t.running ≡ true → IsCounted t
counted t h r = record {
  records_eq = h.records_eq;
  truncated_eq = h.truncated_eq;
  positive = h.positive;
  running_eq = r;
}

turn_in-IsValid :
    (phase : Phase) (u : Turn) (t : TcpClientReceiver)
    → t.task ≡ phase
    → IsValid t
    → Fits phase t.running t.connected t.paused
    → IsValid (turn_in phase u t)
unfolding turn_in back_off next_attempt
turn_in-IsValid (connecting b) connects t e h k = open_connection-IsValid b t (counted t h k.0)
turn_in-IsValid (connecting b) (refused name) t e h k = ground (arith, h, k)
turn_in-IsValid (backing_off b) elapses t e h k = ground (arith, h, k)
turn_in-IsValid (woken b f) elapses t e h k = ground (arith, h, k)
turn_in-IsValid (reading b f) (reads r) t e h k =
    end_read-IsValid r b f t (counted t h k.0) (h.writer_eq ∙ k.1) k.1
turn_in-IsValid _ _ t e h k = h

Fits-stopped :
    (phase : Phase) (connected paused : Bool)
    → Fits phase false connected paused
    → connected ≡ false
Fits-stopped no_task connected paused h = h.1
Fits-stopped (connecting b) connected paused h = h.1
Fits-stopped (backing_off b) connected paused h = h.1
Fits-stopped (failed err) connected paused h = h
Fits-stopped (waiting b f) connected paused h = cc
Fits-stopped (woken b f) connected paused h = cc
Fits-stopped (reading b f) connected paused h = cc
Fits-stopped ended connected paused h = elim h [ ]

Fits-paused :
    (phase : Phase) (running connected paused : Bool)
    → Fits phase running connected paused
    → Fits phase running connected true
Fits-paused (waiting b f) running connected paused h = (h.0, (h.1.0, refl))
Fits-paused no_task running connected paused h = h
Fits-paused (connecting b) running connected paused h = h
Fits-paused (backing_off b) running connected paused h = h
Fits-paused (woken b f) running connected paused h = h
Fits-paused (reading b f) running connected paused h = h
Fits-paused (failed err) running connected paused h = h
Fits-paused ended running connected paused h = h

Fits-wake :
    (phase : Phase) (running connected paused : Bool)
    → Fits phase running connected paused
    → Fits (wake phase) running connected false
Fits-wake (waiting b f) running connected paused h = (h.0, h.1.0)
Fits-wake no_task running connected paused h = h
Fits-wake (connecting b) running connected paused h = h
Fits-wake (backing_off b) running connected paused h = h
Fits-wake (woken b f) running connected paused h = h
Fits-wake (reading b f) running connected paused h = h
Fits-wake (failed err) running connected paused h = h
Fits-wake ended running connected paused h = h

start-IsValid : (t : TcpClientReceiver) → IsValid t → IsValid (start t)
unfolding start next_attempt
start-IsValid t h =
    let stopped = λ (r : t.running ≡ false).
      Fits-stopped t.task t.connected t.paused
        (subst (λ b. Fits t.task b t.connected t.paused) r h.fits) in
    ground (arith, h, stopped)

cancel-IsValid :
    (phase : Phase) (t : TcpClientReceiver)
    → IsValid t
    → Fits phase true t.connected t.paused
    → IsValid (stop_with (cancel phase (record t { running = false }))).0
unfolding cancel
cancel-IsValid no_task t h k = cc
cancel-IsValid ended t h k = elim k [ ]
cancel-IsValid _ t h k = ground (arith, h, k)

stop-IsValid : (t : TcpClientReceiver) → IsValid t → IsValid (stop t).0
unfolding stop
stop-IsValid t h =
    let cancelled = λ (r : t.running ≡ true).
      cancel-IsValid t.task t h (subst (λ b. Fits t.task b t.connected t.paused) r h.fits) in
    ground (arith, h, cancelled)

set_paused-IsValid :
    (paused : Bool) (t : TcpClientReceiver) → IsValid t → IsValid (set_paused paused t)
unfolding set_paused
set_paused-IsValid true t h =
    let k = Fits-paused t.task t.running t.connected t.paused h.fits in ground (arith, h, k)
set_paused-IsValid false t h =
    let k = Fits-wake t.task t.running t.connected t.paused h.fits in ground (arith, h, k)

client_call-IsValid :
    (c : ClientCall) (t : TcpClientReceiver) → IsValid t → IsValid (client_call c t)
unfolding client_call turn
client_call-IsValid start_call t h = start-IsValid t h
client_call-IsValid stop_call t h = stop-IsValid t h
client_call-IsValid (set_paused_call paused) t h = set_paused-IsValid paused t h
client_call-IsValid (turn_call u) t h = turn_in-IsValid t.task u t refl h h.fits

-- Any calls and turns of a client of which this holds keep it: its task waits where its flags say, and
-- for the end of a pause only while it is paused; it has a connection exactly when it is announced as
-- connected; and every delivered record is counted, and so is every cut one.
pub client_calls-IsValid :
    (cs : List ClientCall) (t : TcpClientReceiver) → IsValid t → IsValid (client_calls cs t)
unfolding client_calls
client_calls-IsValid [] t h = h
client_calls-IsValid (c ∷ cs) t h =
    client_calls-IsValid cs (client_call c t) (client_call-IsValid c t h)

pub init-IsValid :
    (config : TcpClientReceiverConfig) → 0 < config.max_record_bytes → IsValid (init config)
unfolding init
init-IsValid config h = record {
  fits = (refl, refl);
  writer_eq = refl;
  records_eq = refl;
  truncated_eq = refl;
  positive = h;
}
