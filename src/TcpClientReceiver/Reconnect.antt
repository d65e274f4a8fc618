-- ===== src/TcpClientReceiver/Reconnect.antt =====
-- A life of the TCP client receiver: attempts that fail, one that succeeds, and a connection to its end.
use tcp_server_simulator.Prelude.{
  Bytes, List, String, [], ap, append-nil, append_assoc, ap₂, arith, false, flatten, length, map,
  min, ok, refl, subst, suc, sym, true, zero, ℕ, ◌*◌, ◌++◌, ◌+◌, ◌<◌, ◌∙◌, ◌∷◌, ◌≡◌,
}
use tcp_server_simulator.Framer.{FramedRecord, Framer, clamp, feed, flush, lf, init as framer_init}
use tcp_server_simulator.Backoff.{
  ReconnectBackoff, advance, fail, fail-doubles, power, reset as backoff_reset,
  init as backoff_init,
}
use tcp_server_simulator.TcpClientReceiver.{
  ClientEvent, Phase, Read, Reason, TcpClientReceiver, TcpClientReceiverConfig, Turn,
  after_connection, back_off, backing_off, chunk, close_connection, connect_error, connecting,
  connects, deliver, deliver_all, elapses, end_read, eof, finish, init, next_attempt, next_read,
  open_connection, prepare, read_with, reading, reads, receiver_connected, reconnect_pending,
  refused, run_from, second, start, turn, turn_in,
}
use tcp_server_simulator.Framer.Lines.{lines}
use tcp_server_simulator.Framer.Stream.{
  feed_all, of_option, records_of, records_of-cons, records_of-lines,
}

unfoldable pub turns : List Turn → TcpClientReceiver → TcpClientReceiver
unfolding turn
turns [] t = t
turns (u ∷ us) t = turns us (turn u t)

turns-append :
    (us vs : List Turn) (t : TcpClientReceiver) → turns (us ++ vs) t ≡ turns vs (turns us t)
unfolding turns
turns-append [] vs t = refl
turns-append (u ∷ us) vs t = turns-append us vs (turn u t)

-- Attempts that fail under the given names, each with the wait behind it.
abbrev pub failures : List String → List Turn
failures [] = []
failures (name ∷ names) = refused name ∷ elapses ∷ failures names

-- The reports of failed attempts, from the backoff before the first on.
abbrev pub pendings : ReconnectBackoff → List String → List ClientEvent
unfolding advance
pendings b [] = []
pendings b (name ∷ names) =
    reconnect_pending (connect_error name) (advance b).1 ∷ pendings (advance b).0 names

-- Chunks, none of them empty, and the end of the stream.
abbrev pub chunk_of : ℕ × Bytes → Bytes
chunk_of c = c.0 ∷ c.1

abbrev pub stream : List (ℕ × Bytes) → List Turn
stream [] = reads (chunk []) ∷ []
stream (c ∷ cs) = reads (chunk (chunk_of c)) ∷ stream cs

-- A running client at a place of its loop, with a log.
abbrev running_in : Phase → List ClientEvent → TcpClientReceiver → TcpClientReceiver
running_in phase events t = record t { task = phase; running = true; events = events }

failures-turns :
    (names : List String) (b : ReconnectBackoff) (events : List ClientEvent) (t : TcpClientReceiver)
    → turns (failures names) (running_in (connecting b) events t)
      ≡ running_in (connecting (fail (length names) b)) (events ++ pendings b names) t
unfolding turns turn turn_in back_off next_attempt fail advance
failures-turns [] b events t = ap (λ es. running_in (connecting b) es t) (sym (append-nil events))
failures-turns (name ∷ names) b events t =
    let pending = reconnect_pending (connect_error name) (advance b).1 in
    failures-turns names (advance b).0 (events ++ pending ∷ []) t
    ∙ ap (λ es. running_in (connecting (fail (length names) (advance b).0)) es t)
        (append_assoc events (pending ∷ []) (pendings (advance b).0 names))

deliver-delivered :
    (r : FramedRecord) (t : TcpClientReceiver) → (deliver r t).delivered ≡ t.delivered ++ r ∷ []
unfolding deliver
deliver-delivered r t = ground arith

deliver_all-delivered :
    (rs : List FramedRecord) (t : TcpClientReceiver)
    → (deliver_all rs t).delivered ≡ t.delivered ++ rs
unfolding deliver_all deliver
deliver_all-delivered [] t = sym (append-nil t.delivered)
deliver_all-delivered (r ∷ rs) t =
    deliver_all-delivered rs (deliver r t)
    ∙ ap (λ d. d ++ rs) (deliver-delivered r t)
    ∙ append_assoc t.delivered (r ∷ []) rs

-- What delivery leaves alone.
deliver_all-fixed :
    (rs : List FramedRecord) (t : TcpClientReceiver)
    → let t' = deliver_all rs t in
      (t'.running ≡ t.running) × ((t'.paused ≡ t.paused) × (t'.task ≡ t.task))
unfolding deliver_all deliver
deliver_all-fixed [] t = (refl, (refl, refl))
deliver_all-fixed (r ∷ rs) t = ground (arith, deliver_all-fixed rs (deliver r t))

after_connection-lem :
    (reason : Reason) (b : ReconnectBackoff) (t : TcpClientReceiver)
    → t.running ≡ true
    → let t' = after_connection reason b t in
      (t'.task ≡ backing_off (advance b).0) × (t'.delivered ≡ t.delivered)
unfolding after_connection back_off advance
after_connection-lem reason b t r = ground arith

finish-lem :
    (reason : Reason) (b : ReconnectBackoff) (f : Framer) (t : TcpClientReceiver)
    → t.running ≡ true
    → let t' = finish reason b f t in
      (t'.task ≡ backing_off (advance b).0) × (t'.delivered ≡ t.delivered ++ of_option (flush f).1)
unfolding finish
finish-lem reason b f t r =
    let rs = of_option (flush f).1 in
    let closed = close_connection reason (deliver_all rs t) in
    let after = after_connection-lem reason b closed ((deliver_all-fixed rs t).0 ∙ r) in
    (after.0, after.1 ∙ deliver_all-delivered rs t)

next_read-reading :
    (b : ReconnectBackoff) (f : Framer) (t : TcpClientReceiver)
    → t.running ≡ true
    → t.paused ≡ false
    → next_read b f t ≡ record t { task = reading b f }
unfolding next_read
next_read-reading b f t r p = ground arith

turn-reading :
    (r : Read) (b : ReconnectBackoff) (f : Framer) (t : TcpClientReceiver)
    → t.task ≡ reading b f
    → turn (reads r) t ≡ end_read r b f t
unfolding turn turn_in
turn-reading r b f t e = ap (λ phase. turn_in phase (reads r) t) e

-- The client behind a stream that it has read to its end: the records, and the wait that follows.
record HasRead (b : ReconnectBackoff) (before out : List FramedRecord) (t : TcpClientReceiver)
    : Type 0 where
  task_eq : t.task ≡ backing_off (advance b).0
  delivered_eq : t.delivered ≡ before ++ out

stream-HasRead :
    (cs : List (ℕ × Bytes)) (b : ReconnectBackoff) (f : Framer) (t : TcpClientReceiver)
    → t.task ≡ reading b f
    → t.running ≡ true
    → t.paused ≡ false
    → HasRead b t.delivered (records_of f (map chunk_of cs)) (turns (stream cs) t)
unfolding turns end_read records_of feed_all
stream-HasRead [] b f t e r p =
    let last = finish-lem eof b f t r in
    subst (HasRead b t.delivered (of_option (flush f).1)) (sym (turn-reading (chunk []) b f t e))
      (record { task_eq = last.0; delivered_eq = last.1 })
stream-HasRead (c ∷ cs) b f t e r p =
    let fed = feed f (chunk_of c) in
    let t' = record t { bytes_received = t.bytes_received + length (chunk_of c) } in
    let d = deliver_all fed.1 t' in
    let fixed = deliver_all-fixed fed.1 t' in
    let now = record d { task = reading b fed.0 } in
    let later = stream-HasRead cs b fed.0 now refl (fixed.0 ∙ r) (fixed.1.0 ∙ p) in
    let out = records_of fed.0 (map chunk_of cs) in
    let reached : turn (reads (chunk (chunk_of c))) t ≡ now =
      turn-reading (chunk (chunk_of c)) b f t e
      ∙ next_read-reading b fed.0 d (fixed.0 ∙ r) (fixed.1.0 ∙ p) in
    subst (λ u. HasRead b t.delivered (records_of f (map chunk_of (c ∷ cs))) (turns (stream cs) u))
      (sym reached)
      (record {
        task_eq = later.task_eq;
        delivered_eq =
            later.delivered_eq
            ∙ ap (λ l. l ++ out) (deliver_all-delivered fed.1 t')
            ∙ append_assoc t.delivered fed.1 out
            ∙ ap (λ l. t.delivered ++ l) (sym (records_of-cons f (chunk_of c) (map chunk_of cs)));
      })

fail-advance : (n : ℕ) (b : ReconnectBackoff) → (advance (fail n b)).0 ≡ fail (suc n) b
unfolding fail
fail-advance zero b = refl
fail-advance (suc n) b = fail-advance n (advance b).0

-- The reports of attempts that fail one after the other, the k-th with the initial delay doubled k times
-- and cut to the maximum.
abbrev pub delays : ℕ → ℕ → List String → List ClientEvent
delays max_seconds k [] = []
delays max_seconds k (name ∷ names) =
    reconnect_pending (connect_error name) (min (second * power k) max_seconds)
    ∷ delays max_seconds (suc k) names

pendings-delays :
    (max_seconds k : ℕ) (names : List String) (b : ReconnectBackoff)
    → backoff_init second max_seconds ≡ ok b
    → pendings (fail k b) names ≡ delays max_seconds k names
unfolding advance
pendings-delays max_seconds k [] b e = refl
pendings-delays max_seconds k (name ∷ names) b e =
    ap₂ (λ delay es. reconnect_pending (connect_error name) delay ∷ es)
      (fail-doubles second max_seconds k b e).0
      (ap (λ d. pendings d names) (fail-advance k b)
        ∙ pendings-delays max_seconds (suc k) names b e)

prepare-init :
    (config : TcpClientReceiverConfig) (b : ReconnectBackoff)
    → prepare config ≡ ok b
    → backoff_init second config.reconnect_max_backoff ≡ ok b
unfolding prepare
prepare-init config b e = ground arith

abbrev new_framer : TcpClientReceiverConfig → Framer
new_framer config = record {
  mode = config.framing_mode;
  max = config.max_record_bytes;
  buf = [];
  overflow = false;
}

framer-new :
    (config : TcpClientReceiverConfig)
    → 0 < config.max_record_bytes
    → framer_init config.framing_mode config.max_record_bytes ≡ ok (new_framer config)
unfolding framer_init
framer-new config h = ground arith

start-connecting :
    (config : TcpClientReceiverConfig) (b : ReconnectBackoff)
    → prepare config ≡ ok b
    → start (init config) ≡ running_in (connecting b) [] (init config)
unfolding start init next_attempt
start-connecting config b e = ap (λ r. run_from r (record (init config) { running = true })) e

connects-reading :
    (config : TcpClientReceiverConfig) (b : ReconnectBackoff) (es : List ClientEvent)
    → 0 < config.max_record_bytes
    → turn connects (running_in (connecting b) es (init config))
      ≡ record (running_in
          (reading (backoff_reset b) (new_framer config))
          (es ++ receiver_connected ∷ [])
          (init config)) { writer = true; connected = true }
unfolding turn turn_in open_connection init next_read
connects-reading config b es h =
    let opened = record (running_in (connecting b) (es ++ receiver_connected ∷ []) (init config)) {
      writer = true;
      connected = true;
    } in
    ap (λ r. read_with r (backoff_reset b) opened) (framer-new config h)
    ∙ next_read-reading (backoff_reset b) (new_framer config) opened refl refl

-- A client that can be started waits behind each attempt that fails as long as the number of failures
-- says, the initial delay doubled and cut to the maximum; the first attempt that succeeds connects it,
-- however many have failed; in LF mode it then delivers exactly the lines of the stream, each clamped to
-- the cap, whatever its chunks, and behind the end of the stream its delays begin anew.
pub turns-lines :
    (config : TcpClientReceiverConfig) (b : ReconnectBackoff) (names : List String)
    (cs : List (ℕ × Bytes))
    → prepare config ≡ ok b
    → 0 < config.max_record_bytes
    → config.framing_mode ≡ lf
    → let tried = turns (failures names) (start (init config)) in
      let t = turns (stream cs) (turn connects tried) in
      (tried.events ≡ delays config.reconnect_max_backoff 0 names)
      × (((turn connects tried).connected ≡ true)
          × ((t.delivered
                ≡ map (clamp config.max_record_bytes) (lines [] (flatten (map chunk_of cs))))
              × (t.task ≡ backing_off (advance b).0)))
unfolding init fail
turns-lines config b names cs e h m =
    let n = length names in
    let max_seconds = config.reconnect_max_backoff in
    let made = prepare-init config b e in
    let again : backoff_reset (fail n b) ≡ b = (fail-doubles second max_seconds n b made).1.1 in
    let es = pendings b names in
    let reached = connects-reading config (fail n b) es h in
    let f = new_framer config in
    let opened =
      record (running_in (reading (backoff_reset (fail n b)) f) (es ++ receiver_connected ∷ [])
        (init config)) { writer = true; connected = true } in
    let read = stream-HasRead cs (backoff_reset (fail n b)) f opened refl refl refl in
    let framed =
      ap (λ mode. framer_init mode config.max_record_bytes) (sym m) ∙ framer-new config h in
    let out = records_of-lines config.max_record_bytes (map chunk_of cs) framed in
    let tried : turns (failures names) (start (init config))
        ≡ running_in (connecting (fail n b)) es (init config) =
      ap (turns (failures names)) (start-connecting config b e)
      ∙ failures-turns names b [] (init config) in
    (
      ap (λ t. t.events) tried ∙ pendings-delays max_seconds 0 names b made,
      (
        ap (λ t. (turn connects t).connected) tried ∙ ap (λ t. t.connected) reached,
        (
          ap (λ t. (turns (stream cs) (turn connects t)).delivered) tried
              ∙ ap (λ t. (turns (stream cs) t).delivered) reached
              ∙ read.delivered_eq
              ∙ out,
          ap (λ t. (turns (stream cs) (turn connects t)).task) tried
              ∙ ap (λ t. (turns (stream cs) t).task) reached
              ∙ read.task_eq
              ∙ ap (λ c. backing_off (advance c).0) again,
        ),
      ),
    )
