-- ===== src/Sink/Same.antt =====
-- What the operations on the files leave as it is.
use tcp_server_simulator.Prelude.{
  Bool, Option, String, String-discrete, arith, false, if◌then◌else◌, ite, none, not, refl, some,
  true, ℕ, ◌∙◌, ◌≡◌,
}
use tcp_server_simulator.Sink.{
  Codec, QueueItem, SinkWriter, close_file, open_file, open_file_if_enabled, open_path,
  update_backpressure,
}
use tcp_server_simulator.Sink.Drain.{
  announce, encode, must_rotate, reopen_if, rotate_file, write_open, write_record,
}

-- Two states with the same queue, the same count, the same callers of `configure`,
-- the same configuration and the same signal.
pub record SameQueue (v w : SinkWriter) : Type 0 where
  pub queue_eq : v.queue ≡ w.queue
  pub bytes_eq : v.queued_bytes ≡ w.queued_bytes
  pub pending_eq : v.pending_config ≡ w.pending_config
  pub done_eq : v.done ≡ w.done
  pub cfg_eq : v.cfg ≡ w.cfg
  pub signal_eq : v.backpressured ≡ w.backpressured

pub SameQueue-refl : (w : SinkWriter) → SameQueue w w
SameQueue-refl w = record {
  queue_eq = refl;
  bytes_eq = refl;
  pending_eq = refl;
  done_eq = refl;
  cfg_eq = refl;
  signal_eq = refl;
}

pub SameQueue-trans : (u v w : SinkWriter) → SameQueue u v → SameQueue v w → SameQueue u w
SameQueue-trans u v w h k = record {
  queue_eq = h.queue_eq ∙ k.queue_eq;
  bytes_eq = h.bytes_eq ∙ k.bytes_eq;
  pending_eq = h.pending_eq ∙ k.pending_eq;
  done_eq = h.done_eq ∙ k.done_eq;
  cfg_eq = h.cfg_eq ∙ k.cfg_eq;
  signal_eq = h.signal_eq ∙ k.signal_eq;
}

-- The watermarks leave all of these as they are, except the signal.
pub record SameButSignal (v w : SinkWriter) : Type 0 where
  pub queue_eq : v.queue ≡ w.queue
  pub bytes_eq : v.queued_bytes ≡ w.queued_bytes
  pub pending_eq : v.pending_config ≡ w.pending_config
  pub done_eq : v.done ≡ w.done
  pub cfg_eq : v.cfg ≡ w.cfg

pub update_backpressure-SameButSignal : (w : SinkWriter) → SameButSignal (update_backpressure w) w
unfolding update_backpressure
update_backpressure-SameButSignal w = ground arith

pub SameQueue-if :
    (b : Bool) (u v w : SinkWriter)
    → SameQueue u w
    → SameQueue v w
    → SameQueue (if b then u else v) w
SameQueue-if true u v w h k = h
SameQueue-if false u v w h k = k

pub open_path-SameQueue : (path : Option String) (w : SinkWriter) → SameQueue (open_path path w) w
open_path-SameQueue none w = SameQueue-refl w
open_path-SameQueue (some path) w =
    elim (String-discrete path "") as (λ d. SameQueue (ite d w (open_file path w)) w) [
      | yes p ↦ SameQueue-refl w
      | no p ↦
          unfold open_file in
          (record {
            queue_eq = refl;
            bytes_eq = refl;
            pending_eq = refl;
            done_eq = refl;
            cfg_eq = refl;
            signal_eq = refl;
          })
    ]

pub open-SameQueue : (w : SinkWriter) → SameQueue (open_file_if_enabled w) w
unfolding open_file_if_enabled
open-SameQueue w =
    SameQueue-if (not w.cfg.enabled) w _ w (SameQueue-refl w) (open_path-SameQueue w.cfg.path w)

pub reopen-SameQueue : (b : Bool) (w : SinkWriter) → SameQueue (reopen_if b w) w
reopen-SameQueue true w =
    let h = open-SameQueue (close_file w) in
    record {
      queue_eq = h.queue_eq;
      bytes_eq = h.bytes_eq;
      pending_eq = h.pending_eq;
      done_eq = h.done_eq;
      cfg_eq = h.cfg_eq;
      signal_eq = h.signal_eq;
    }
reopen-SameQueue false w = SameQueue-refl w

pub rotate-SameQueue : (path : String) (w : SinkWriter) → SameQueue (rotate_file path w) w
unfolding rotate_file
rotate-SameQueue path w = record {
  queue_eq = refl;
  bytes_eq = refl;
  pending_eq = refl;
  done_eq = refl;
  cfg_eq = refl;
  signal_eq = refl;
}

pub write_record-SameQueue :
    (codec : Codec) (now : ℕ) (path : String) (item : QueueItem) (w : SinkWriter)
    → SameQueue (write_record codec now path item w) w
unfolding write_record
write_record-SameQueue codec now path item w =
    let h =
      SameQueue-if (must_rotate w (encode codec now w.cfg item)) (rotate_file path w) w w
        (rotate-SameQueue path w) (SameQueue-refl w) in
    record {
      queue_eq = h.queue_eq;
      bytes_eq = h.bytes_eq;
      pending_eq = h.pending_eq;
      done_eq = h.done_eq;
      cfg_eq = h.cfg_eq;
      signal_eq = h.signal_eq;
    }

pub write_open-SameQueue :
    (codec : Codec) (now : ℕ) (fh : Option String) (item : QueueItem) (w : SinkWriter)
    → SameQueue (write_open codec now fh item w) w
write_open-SameQueue codec now none item w = SameQueue-refl w
write_open-SameQueue codec now (some path) item w =
    SameQueue-if w.cfg.enabled _ w w (write_record-SameQueue codec now path item w)
      (SameQueue-refl w)

pub announce-SameQueue : (o : Option String) (w : SinkWriter) → SameQueue (announce o w) w
announce-SameQueue none w = SameQueue-refl w
announce-SameQueue (some path) w =
    SameQueue-if w.cfg.enabled _ w w
      (record {
        queue_eq = refl;
        bytes_eq = refl;
        pending_eq = refl;
        done_eq = refl;
        cfg_eq = refl;
        signal_eq = refl;
      })
      (SameQueue-refl w)
