-- ===== src/Scheduler/Auto.antt =====
-- The automatic mode, with the calls that other tasks make while its loop waits.
use tcp_server_simulator.Prelude.{
  Bool, Bool-cases, Bytes, List, Option, [], arith, false, get_elem?, if◌then◌else◌, inl, inr, leb,
  length, none, not, ok, raise, refl, some, true, ℕ, ◌∷◌, ◌≡◌, ◌≤◌,
}
use tcp_server_simulator.Scheduler.{
  ScheduledMessage, SendScheduler, Step, apply_swap, emit_record, start, step, step_record,
  step_swapped, stop,
}
use tcp_server_simulator.Scheduler.Calls.{Call, call, jumps_to, sets_line_controls, stepped, steps}
use mathlib.Core.List.{foldl}

abbrev pub calls_of : List Call → SendScheduler → SendScheduler
calls_of cs s = foldl (λ t c. call c t) s cs

-- How a round of the loop ends: the loop is left, or it waits, after a message or without one.
pub data Round : Type 0 where
  leaves : SendScheduler → Round
  waits : SendScheduler → Option ScheduledMessage → Round

unfoldable pub round_step : SendScheduler → Step → Round
unfolding stop
round_step s (raise e) = leaves (stop s)
round_step s (ok (s', m)) = waits s' m

-- The body of `while self._running`; the `finally` stops the scheduler.
unfoldable pub round : SendScheduler → Round
unfolding round_step
round s =
    if not s.running
    then leaves (stop s)
    else if s.paused
    then waits s none
    else round_step s (step s)

abbrev pub then_sends : Option ScheduledMessage → List ScheduledMessage → List ScheduledMessage
then_sends none later = later
then_sends (some m) later = m ∷ later

unfoldable pub after_round :
    Round
    → (SendScheduler → SendScheduler × List ScheduledMessage)
    → SendScheduler × List ScheduledMessage
after_round (leaves s) rest = (s, [])
after_round (waits s m) rest = let (last, later) = rest s in (last, then_sends m later)

-- `run_auto`, behind `start`. Each list holds the calls made by other tasks while the loop waits
-- before its test of `_running`; at the end of the lists the task is cancelled.
unfoldable pub auto_loop : List (List Call) → SendScheduler → SendScheduler × List ScheduledMessage
unfolding round after_round
auto_loop [] s = (stop s, [])
auto_loop (cs ∷ rest) s = after_round (round (calls_of cs s)) (auto_loop rest)

-- `run_auto`
unfoldable pub run_auto : List (List Call) → SendScheduler → SendScheduler × List ScheduledMessage
unfolding auto_loop start
run_auto rounds s = auto_loop rounds (start s)

generation-swap :
    (s : SendScheduler) (o : Option (List Bytes × Option Bytes))
    → s.generation ≤ (apply_swap s o).generation
unfolding apply_swap
generation-swap s none = omega arith
generation-swap s (some (records, header)) = omega arith

-- A call of `step` that returns leaves a generation no lower, and its message carries it.
pub record Marks (generation : ℕ) (s : SendScheduler) (m : Option ScheduledMessage) : Type 0 where
  pub later : generation ≤ s.generation
  pub marked : (x : ScheduledMessage) → m ≡ some x → x.generation ≡ s.generation

abbrev pub Marked : ℕ → Step → Type 0
Marked g (ok (s, m)) = Marks g s m
Marked g (raise e) = Unit

Marked-if :
    (g : ℕ) (b : Bool) (x y : Step) → Marked g x → Marked g y → Marked g (if b then x else y)
Marked-if g true x y hx hy = hx
Marked-if g false x y hx hy = hy

Marks-none : (s : SendScheduler) → Marks s.generation s none
Marks-none s = record { later = omega arith; marked = λ x e. cc }

emit_record-Marked : (s : SendScheduler) (o : Option Bytes) → Marked s.generation (emit_record s o)
unfolding emit_record
emit_record-Marked s none = tt
emit_record-Marked s (some payload) = record { later = omega arith; marked = λ x e. ground arith }

step_record-Marked : (s : SendScheduler) (rs : List Bytes) → Marked s.generation (step_record s rs)
unfolding step_record
step_record-Marked s [] = Marks-none s
step_record-Marked s (r ∷ rs) =
    Marked-if s.generation (leb (length s.records) s.cursor) _ _
      (Marked-if s.generation (not s.loop) (ok (s, none)) _ (Marks-none s)
        (emit_record-Marked (record s { cursor = 0 }) (get_elem? s.records 0)))
      (emit_record-Marked s (get_elem? s.records s.cursor))

step_swapped-Marked :
    (s : SendScheduler) (o : Option Bytes) → Marked s.generation (step_swapped s o)
unfolding step_swapped
step_swapped-Marked s none = step_record-Marked s s.records
step_swapped-Marked s (some h) = record { later = omega arith; marked = λ x e. ground arith }

Marked-le : (g g' : ℕ) (r : Step) → g ≤ g' → Marked g' r → Marked g r
Marked-le g g' (ok (s, m)) h k = record { later = omega arith; marked = λ x e. k.marked x e }
Marked-le g g' (raise e) h k = tt

step-Marked : (s : SendScheduler) → Marked s.generation (step s)
unfolding step
step-Marked s =
    let t = apply_swap s s.pending_swap in
    Marked-le s.generation t.generation _ (generation-swap s s.pending_swap)
      (step_swapped-Marked t t.pending_header)

stepped-generation :
    (s : SendScheduler) (r : Step) → Marked s.generation r → s.generation ≤ (stepped s r).generation
stepped-generation s (ok (s', m)) h = h.later
stepped-generation s (raise e) h = omega arith

generation-call : (c : Call) (s : SendScheduler) → s.generation ≤ (call c s).generation
unfolding call
generation-call steps s = stepped-generation s (step s) (step-Marked s)
generation-call (sets_line_controls st en fn) s = ground arith
generation-call (jumps_to n) s = ground arith
generation-call _ s = omega arith

generation-calls_of :
    (cs : List Call) (s : SendScheduler) → s.generation ≤ (calls_of cs s).generation
generation-calls_of [] s = omega arith
generation-calls_of (c ∷ cs) s =
    omega (arith, generation-call c s, generation-calls_of cs (call c s))

-- The generations never fall along the messages, and start no lower than `g`.
abbrev pub Ascending : ℕ → List ScheduledMessage → Type 0
Ascending g [] = Unit
Ascending g (m ∷ ms) = (g ≤ m.generation) × Ascending m.generation ms

Ascending-le : (g g' : ℕ) (ms : List ScheduledMessage) → g ≤ g' → Ascending g' ms → Ascending g ms
Ascending-le g g' [] h a = tt
Ascending-le g g' (m ∷ ms) h a = (omega arith, a.1)

-- What the loop has sent, and its last state.
abbrev pub Ordered : ℕ → SendScheduler × List ScheduledMessage → Type 0
Ordered g (s, ms) = Ascending g ms × (s.running ≡ false)

Ordered-le :
    (g g' : ℕ) (r : SendScheduler × List ScheduledMessage) → g ≤ g' → Ordered g' r → Ordered g r
Ordered-le g g' (s, ms) h o = (Ascending-le g g' ms h o.0, o.1)

abbrev pub RoundMarked : ℕ → Round → Type 0
RoundMarked g (leaves s) = s.running ≡ false
RoundMarked g (waits s m) = Marks g s m

round_step-Marked :
    (s : SendScheduler) (r : Step)
    → Marked s.generation r
    → RoundMarked s.generation (round_step s r)
unfolding round_step
round_step-Marked s (ok (s', m)) h = h
round_step-Marked s (raise e) h = refl

round-Marked : (s : SendScheduler) → RoundMarked s.generation (round s)
unfolding round
round-Marked s = elim (Bool-cases (not s.running)) [
  | inl e ↦ rw (e, round) refl
  | inr e ↦ rw (e, round) (paused s.paused)
]
  where
    paused :
        (b : Bool) → RoundMarked s.generation (if b then waits s none else round_step s (step s))
    paused true = Marks-none s
    paused false = round_step-Marked s (step s) (step-Marked s)

then_sends-Ascending :
    (g : ℕ) (s : SendScheduler) (m : Option ScheduledMessage) (later : List ScheduledMessage)
    → Marks g s m
    → Ascending s.generation later
    → Ascending g (then_sends m later)
then_sends-Ascending g s none later k a = Ascending-le g s.generation later k.later a
then_sends-Ascending g s (some m) later k a =
    let e : m.generation ≡ s.generation = k.marked m refl in
    (omega (arith, k.later), Ascending-le m.generation s.generation later (omega arith) a)

after_round-Ordered :
    (g : ℕ) (r : Round) (rest : SendScheduler → SendScheduler × List ScheduledMessage)
    → RoundMarked g r
    → ((s : SendScheduler) → Ordered s.generation (rest s))
    → Ordered g (after_round r rest)
unfolding after_round
after_round-Ordered g (leaves s) rest h o = (tt, h)
after_round-Ordered g (waits s m) rest h o =
    (then_sends-Ascending g s m (rest s).1 h (o s).0, (o s).1)

auto_loop-Ordered :
    (rounds : List (List Call)) (s : SendScheduler) → Ordered s.generation (auto_loop rounds s)
unfolding auto_loop
auto_loop-Ordered [] s = (tt, refl)
auto_loop-Ordered (cs ∷ rest) s =
    let s' = calls_of cs s in
    Ordered-le s.generation s'.generation (after_round (round s') (auto_loop rest))
      (generation-calls_of cs s)
      (after_round-Ordered s'.generation (round s') (auto_loop rest) (round-Marked s')
        (auto_loop-Ordered rest))

-- Whatever other tasks call while the automatic mode waits, it sends its messages in the order of
-- their generations, none below the one that it began with: nothing of an old file is sent behind
-- a message of a newer one. At its end the scheduler is stopped.
pub run_auto-Ordered :
    (rounds : List (List Call)) (s : SendScheduler) → Ordered s.generation (run_auto rounds s)
unfolding run_auto
run_auto-Ordered rounds s = auto_loop-Ordered rounds (start s)
