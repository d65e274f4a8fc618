-- ===== src/Scheduler/Calls.antt =====
-- The scheduler's invariant, kept by every call, and `step`, which never fails on a valid scheduler.
use mathlib.Core.List.{foldl}
use tcp_server_simulator.Prelude.{
  Bool, Bool-cases, Bytes, List, Option, Result, [], ap, arith, false, get_elem?, get_elem?_lt,
  if◌then◌else◌, inl, inr, leb, length, ltb, none, not, ok, raise, refl, some, suc, sym,
  take_of_length-le, true, ℕ, ◌+◌, ◌<◌, ◌>>=◌, ◌||◌, ◌∷◌, ◌≡◌, ◌≤◌,
}
use tcp_server_simulator.Scheduler.{
  ScheduledMessage, SendScheduler, Step, apply_swap, emit_record, header_message, init, jump_to,
  pause, rebuild_active_records, record_message, request_file_swap, resume, set_line_controls,
  set_rate, set_records, start, step, step_record, step_swapped, stop,
}
use tcp_server_simulator.Scheduler.Active.{active, check_line_controls}

-- The active records are those that the controls select, and the cursor lies among them or at
-- their end.
pub record IsValid (s : SendScheduler) : Type 0 where
  pub selected : s.records ≡ active s.start_line s.end_line s.first_n s.source_records
  pub cursor_le : s.cursor ≤ length s.records
  pub controls_ok : check_line_controls s.start_line s.end_line s.first_n ≡ ok tt
  pub rate_le : 100 ≤ s.rate

-- The calls that change a scheduler.
pub data Call : Type 0 where
  starts stops pauses resumes steps : Call
  sets_rate jumps_to : ℕ → Call
  sets_records : List Bytes → Call
  swaps : List Bytes → Option Bytes → Call
  sets_line_controls : Option ℕ → Option ℕ → Option ℕ → Call

abbrev pub or_unchanged : SendScheduler → Result SendScheduler → SendScheduler
or_unchanged s (ok s') = s'
or_unchanged s (raise e) = s

abbrev pub stepped :
    SendScheduler → Result (SendScheduler × Option ScheduledMessage) → SendScheduler
stepped s (ok (s', m)) = s'
stepped s (raise e) = s

-- The state after a call. Every exception is raised before the state is touched.
unfoldable pub call : Call → SendScheduler → SendScheduler
unfolding start stop pause resume set_rate set_records request_file_swap set_line_controls jump_to
    step
call starts s = start s
call stops s = stop s
call pauses s = pause s
call resumes s = resume s
call (sets_rate r) s = set_rate r s
call (sets_records rs) s = set_records rs s
call (swaps rs h) s = request_file_swap rs h s
call (sets_line_controls st en fn) s = or_unchanged s (set_line_controls st en fn s)
call (jumps_to n) s = or_unchanged s (jump_to n s)
call steps s = stepped s (step s)

pub active_all : (xs : List Bytes) → active none none none xs ≡ xs
unfolding active
active_all [] = refl
active_all (x ∷ xs) = ground (arith, take_of_length-le (suc (length xs)) (x ∷ xs) (omega arith))

pub init-IsValid :
    (records : List Bytes) (rate : ℕ) (loop : Bool) → IsValid (init records rate loop)
unfolding init check_line_controls
init-IsValid records rate loop = record {
  selected = sym (active_all records);
  cursor_le = omega arith;
  controls_ok = refl;
  rate_le = omega arith;
}

rebuild-IsValid :
    (s : SendScheduler)
    → check_line_controls s.start_line s.end_line s.first_n ≡ ok tt
    → 100 ≤ s.rate
    → IsValid (rebuild_active_records s)
unfolding rebuild_active_records
rebuild-IsValid s c r = record {
  selected = refl;
  cursor_le = omega arith;
  controls_ok = c;
  rate_le = r;
}

swap-IsValid :
    (s : SendScheduler) (o : Option (List Bytes × Option Bytes))
    → IsValid s
    → IsValid (apply_swap s o)
unfolding apply_swap
swap-IsValid s none v = v
swap-IsValid s (some (records, header)) v = record {
  selected = refl;
  cursor_le = omega arith;
  controls_ok = v.controls_ok;
  rate_le = v.rate_le;
}

-- What `step` must do from a valid scheduler: return, and leave a valid one.
abbrev pub Returns : Step → Type 0
Returns r = (s' : SendScheduler) × (m : Option ScheduledMessage) × (r ≡ ok (s', m)) × IsValid s'

emit_record-Returns :
    (s : SendScheduler)
    → IsValid s
    → s.cursor < length s.records
    → Returns (emit_record s (get_elem? s.records s.cursor))
emit_record-Returns s v h =
    let (a, e) = get_elem?_lt s.records s.cursor h in
    rw e (
      unfold emit_record in
      (
        record s { cursor = s.cursor + 1 },
        some (record_message s.generation (s.cursor + 1) a),
        refl,
        record {
          selected = v.selected;
          cursor_le = omega arith;
          controls_ok = v.controls_ok;
          rate_le = v.rate_le;
        },
      ))

rewound-IsValid : (s : SendScheduler) → IsValid s → IsValid (record s { cursor = 0 })
rewound-IsValid s v = record {
  selected = v.selected;
  cursor_le = omega arith;
  controls_ok = v.controls_ok;
  rate_le = v.rate_le;
}

step_record-Returns :
    (s : SendScheduler) (rs : List Bytes) → IsValid s → s.records ≡ rs → Returns (step_record s rs)
unfolding step_record
step_record-Returns s [] v p = (s, none, refl, v)
step_record-Returns s (r ∷ rs) v p = elim (Bool-cases (leb (length s.records) s.cursor)) [
  | inl e ↦ rw (e, step_record) (at_end s.loop)
  | inr e ↦ rw (e, step_record) (emit_record-Returns s v (ground arith))
]
  where
    some_records : 0 < length s.records
    some_records = omega (arith, ap length p)

    at_end :
        (loop : Bool)
        → Returns (
            if not loop
            then ok (s, none)
            else emit_record (record s { cursor = 0 }) (get_elem? s.records 0))
    at_end false = (s, none, refl, v)
    at_end true = emit_record-Returns (record s { cursor = 0 }) (rewound-IsValid s v) some_records

step_swapped-Returns :
    (s : SendScheduler) (header : Option Bytes) → IsValid s → Returns (step_swapped s header)
unfolding step_swapped
step_swapped-Returns s (some h) v = (
  record s { pending_header = none },
  some (header_message s.generation h),
  refl,
  record {
    selected = v.selected;
    cursor_le = v.cursor_le;
    controls_ok = v.controls_ok;
    rate_le = v.rate_le;
  },
)
step_swapped-Returns s none v = step_record-Returns s s.records v refl

-- From a valid scheduler `step` raises no exception, its index never out of range, and leaves a
-- valid scheduler.
pub step-Returns : (s : SendScheduler) → IsValid s → Returns (step s)
unfolding step
step-Returns s v =
    let s' = apply_swap s s.pending_swap in
    step_swapped-Returns s' s'.pending_header (swap-IsValid s s.pending_swap v)

controls-IsValid :
    (s : SendScheduler) (start_line end_line first_n : Option ℕ)
    → IsValid s
    → IsValid (or_unchanged s (set_line_controls start_line end_line first_n s))
unfolding set_line_controls
controls-IsValid s start_line end_line first_n v =
    checked (check_line_controls start_line end_line first_n) refl
  where
    s' : SendScheduler
    s' = record s { start_line = start_line; end_line = end_line; first_n = first_n }

    checked :
        (r : Result (Unit {0}))
        → check_line_controls start_line end_line first_n ≡ r
        → IsValid (or_unchanged s (r >>= λ _. ok (rebuild_active_records s')))
    checked (ok u) e = rebuild-IsValid s' e v.rate_le
    checked (raise x) e = v

jump-IsValid : (s : SendScheduler) (n : ℕ) → IsValid s → IsValid (or_unchanged s (jump_to n s))
unfolding jump_to
jump-IsValid s n v = elim (Bool-cases (ltb n 1 || ltb (length s.records) n)) [
  | inl e ↦ rw (e, jump_to) v
  | inr e ↦
      rw (e, jump_to)
        (record {
          selected = v.selected;
          cursor_le = ground arith;
          controls_ok = v.controls_ok;
          rate_le = v.rate_le;
        })
]

-- Every call of the scheduler, failing or not, keeps it valid.
pub call-IsValid : (c : Call) (s : SendScheduler) → IsValid s → IsValid (call c s)
unfolding call
call-IsValid steps s v = let (s', m, e, v') = step-Returns s v in rw e v'
call-IsValid (sets_records rs) s v =
    rebuild-IsValid (record s { source_records = rs }) v.controls_ok v.rate_le
call-IsValid (sets_line_controls st en fn) s v = controls-IsValid s st en fn v
call-IsValid (jumps_to n) s v = jump-IsValid s n v
call-IsValid (sets_rate r) s v = record {
  selected = v.selected;
  cursor_le = v.cursor_le;
  controls_ok = v.controls_ok;
  rate_le = omega arith;
}
call-IsValid _ s v = record {
  selected = v.selected;
  cursor_le = v.cursor_le;
  controls_ok = v.controls_ok;
  rate_le = v.rate_le;
}

-- So it is valid after any calls on a new one.
pub calls-IsValid :
    (records : List Bytes) (rate : ℕ) (loop : Bool) (cs : List Call)
    → IsValid (foldl (λ s c. call c s) (init records rate loop) cs)
calls-IsValid records rate loop cs =
    run cs (init records rate loop) (init-IsValid records rate loop)
  where
    run : (cs : List Call) (s : SendScheduler) → IsValid s → IsValid (foldl (λ s c. call c s) s cs)
    run [] s v = v
    run (c ∷ cs) s v = run cs (call c s) (call-IsValid c s v)
