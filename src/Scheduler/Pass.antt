-- ===== src/Scheduler/Pass.antt =====
-- The order in which the records of a file are sent.
use mathlib.Core.Path.{ap₂}
use tcp_server_simulator.Prelude.{
  Bytes, List, Result, [], ap, append-nil, arith, drop, drop-cons, false, get_elem?, inl, inr, leb,
  length, lt_of_get_elem?, none, ok, refl, some, suc, sym, true, zero, ℕ, ◌++◌, ◌+◌, ◌>>=◌, ◌∙◌,
  ◌∷◌, ◌≡◌, ◌≢◌, ◌⊎◌,
}
use tcp_server_simulator.Scheduler.Active.{active}
use tcp_server_simulator.Scheduler.{
  ScheduledMessage, SendScheduler, apply_swap, emit_record, header_message, record_message,
  request_file_swap, step, step_record, step_swapped, total_lines,
}

-- The messages of `n` calls of `step`, until one of them has none.
unfoldable pub steps_of : ℕ → SendScheduler → Result (SendScheduler × List ScheduledMessage)
unfolding step
steps_of zero s = ok (s, [])
steps_of (suc n) s = do
  (s', m) ← step s
  elim m [
    | none ↦ ok (s', [])
    | some message ↦ do (s'', later) ← steps_of n s'; ok (s'', message ∷ later)
  ]

-- The messages for consecutive lines.
unfoldable pub messages_from : ℕ → ℕ → List Bytes → List ScheduledMessage
messages_from generation line [] = []
messages_from generation line (r ∷ rs) =
    record_message generation line r ∷ messages_from generation (suc line) rs

-- Nothing waits to be swapped in or sent first.
pub record IsSettled (s : SendScheduler) : Type 0 where
  pub no_swap : s.pending_swap ≡ none
  pub no_header : s.pending_header ≡ none

step-settled : (s : SendScheduler) → IsSettled s → step s ≡ step_record s s.records
unfolding step
step-settled s h =
    ap (λ o. step_swapped (apply_swap s o) (apply_swap s o).pending_header) h.no_swap
    ∙ ap (step_swapped s) h.no_header

step_record-emit :
    (s : SendScheduler) (rs : List Bytes) {r : Bytes}
    → s.records ≡ rs
    → get_elem? s.records s.cursor ≡ some r
    → step_record s rs ≡ emit_record s (some r)
unfolding step_record
step_record-emit s [] p e = cc (ap (λ rs. get_elem? rs s.cursor) p)
step_record-emit s (r ∷ rs) p e =
    let within : leb (length s.records) s.cursor ≡ false =
      ground (arith, lt_of_get_elem? s.records s.cursor e) in
    rw (within, step_record) (ap (emit_record s) e)

-- The next message holds the record at the cursor.
pub step-next :
    (s : SendScheduler) {r : Bytes}
    → IsSettled s
    → get_elem? s.records s.cursor ≡ some r
    → step s
      ≡ ok (record s { cursor = s.cursor + 1 }, some (record_message s.generation (s.cursor + 1) r))
step-next s {r} h e =
    step-settled s h ∙ step_record-emit s s.records refl e ∙ unfold emit_record in refl

abbrev cons_message :
    ScheduledMessage
    → Result (SendScheduler × List ScheduledMessage)
    → Result (SendScheduler × List ScheduledMessage)
cons_message m r = r >>= λ p. ok (p.0, m ∷ p.1)

steps_of-suc :
    (n : ℕ) (s : SendScheduler) {s' : SendScheduler} {m : ScheduledMessage}
    → step s ≡ ok (s', some m)
    → steps_of (suc n) s ≡ cons_message m (steps_of n s')
unfolding steps_of
steps_of-suc n s e = rw (e, steps_of)

-- What is left to send, in order, with the line numbers of the cursor.
pub steps_of-messages :
    (rs rest : List Bytes) (s : SendScheduler)
    → IsSettled s
    → drop s.cursor s.records ≡ rs ++ rest
    → steps_of (length rs) s
      ≡ ok
          (record s { cursor = s.cursor + length rs }, messages_from s.generation (s.cursor + 1) rs)
unfolding messages_from
steps_of-messages [] rest s h e =
    unfold steps_of in ap (λ c. ok (record s { cursor = c }, [])) (omega arith)
steps_of-messages (r ∷ rs) rest s h e =
    let (here, behind) = drop-cons s.cursor s.records e in
    let s' = record s { cursor = s.cursor + 1 } in
    let m = record_message s.generation (s.cursor + 1) r in
    steps_of-suc (length rs) s (step-next s h here)
    ∙ ap (cons_message m) (
        steps_of-messages rs rest s' (record { no_swap = h.no_swap; no_header = h.no_header })
          (ap (λ c. drop c s.records) {y = suc s.cursor} (omega arith) ∙ behind))
    ∙ ap₂ (λ c l. ok (record s { cursor = c }, m ∷ messages_from s.generation l rs)) (omega arith)
        (omega arith)

-- A pass can begin: at the first record, or behind the last one if the scheduler loops.
abbrev pub AtStart : SendScheduler → Type 0
AtStart s = (s.cursor ≡ 0) ⊎ ((s.cursor ≡ length s.records) × (s.loop ≡ true))

abbrev rewind : SendScheduler → SendScheduler
rewind s = record s { cursor = 0 }

step_record-rewind :
    (s : SendScheduler) (rs : List Bytes)
    → s.records ≡ rs
    → s.cursor ≡ length s.records
    → s.loop ≡ true
    → rs ≢ []
    → step_record s rs ≡ step_record (rewind s) rs
unfolding step_record
step_record-rewind s [] p c l n = absurd (n refl)
step_record-rewind s (r ∷ rs) p c l n = ground (arith, ap length p)

from_zero :
    (s : SendScheduler)
    → IsSettled s
    → s.cursor ≡ 0
    → steps_of (length s.records) s
      ≡ ok (record s { cursor = length s.records }, messages_from s.generation 1 s.records)
from_zero s h z =
    let e : s.cursor + length s.records ≡ length s.records = omega arith in
    let e' : s.cursor + 1 ≡ 1 = omega arith in
    steps_of-messages s.records [] s h (ap (λ c. drop c s.records) z ∙ sym (append-nil s.records))
    ∙ ap₂ (λ c l. ok (record s { cursor = c }, messages_from s.generation l s.records)) e e'

steps_of-step :
    (n : ℕ) (s t : SendScheduler) → step s ≡ step t → steps_of (suc n) s ≡ steps_of (suc n) t
unfolding steps_of
steps_of-step n s t e = rw (e, steps_of)

step-rewind :
    (s : SendScheduler) {r : Bytes} {rs : List Bytes}
    → IsSettled s
    → s.records ≡ r ∷ rs
    → s.cursor ≡ length s.records
    → s.loop ≡ true
    → step s ≡ step (rewind s)
step-rewind s {r} {rs} h p c l =
    step-settled s h
    ∙ ap (step_record s) p
    ∙ step_record-rewind s (r ∷ rs) p c l (λ e. cc)
    ∙ ap (step_record (rewind s)) (sym p)
    ∙ sym (step-settled (rewind s) (record { no_swap = h.no_swap; no_header = h.no_header }))

-- As many calls of `step` as there are active records send each of them once, in the order of the
-- file, with the line numbers 1, 2, ... and the current generation, and leave the scheduler behind
-- the last record: from there the next pass begins if the scheduler loops.
pub steps_of-pass :
    (s : SendScheduler)
    → IsSettled s
    → AtStart s
    → steps_of (total_lines s) s
      ≡ ok (record s { cursor = total_lines s }, messages_from s.generation 1 s.records)
unfolding total_lines
steps_of-pass s h (inl z) = from_zero s h z
steps_of-pass s h (inr (c, l)) = at_end s.records refl
  where
    at_end :
        (rs : List Bytes)
        → s.records ≡ rs
        → steps_of (length s.records) s
          ≡ ok (record s { cursor = length s.records }, messages_from s.generation 1 s.records)
    at_end [] p = from_zero s h (c ∙ ap length p)
    at_end (r ∷ rs) p =
        ap (λ n. steps_of n s) (ap length p)
        ∙ steps_of-step (length rs) s (rewind s) (step-rewind s h p c l)
        ∙ ap (λ n. steps_of n (rewind s)) (sym (ap length p))
        ∙ from_zero (rewind s) (record { no_swap = h.no_swap; no_header = h.no_header }) refl

-- A file swap takes effect at the next call of `step`, whatever was left to send: its header comes
-- first, if there is one, with line number 0, and then the active lines of the new file from the
-- first on, all under the next generation.
pub steps_of-swap :
    (s : SendScheduler) (records : List Bytes) (header : Bytes)
    → (let new = active s.start_line s.end_line s.first_n records in
        steps_of (suc (length new)) (request_file_swap records (some header) s)
        ≡ ok (
          record s {
            source_records = records;
            records = new;
            cursor = length new;
            generation = s.generation + 1;
            pending_swap = none;
            pending_header = none;
          },
          header_message (s.generation + 1) header ∷ messages_from (s.generation + 1) 1 new,
        ))
unfolding request_file_swap
steps_of-swap s records header =
    let new = active s.start_line s.end_line s.first_n records in
    let t = record s {
      source_records = records;
      records = new;
      cursor = 0;
      generation = s.generation + 1;
      pending_swap = none;
      pending_header = none;
    } in
    steps_of-suc (length new) (request_file_swap records (some header) s) {s' = t}
      {m = header_message (s.generation + 1) header} (unfold step in refl)
    ∙ ap (cons_message (header_message (s.generation + 1) header))
        (from_zero t (record { no_swap = refl; no_header = refl }) refl)
