-- ===== src/Scheduler/Tests.antt =====
-- The scheduler on a file of three records.
use tcp_server_simulator.Prelude.{
  Bytes, List, [], arith, false, get_elem?, inl, none, ok, raise, refl, some, true, value_error,
  ◌<◌, ◌>>=◌, ◌∷◌, ◌≡◌, ◌≤◌, ◌⊎◌,
}
use tcp_server_simulator.Scheduler.{
  SendScheduler, header_message, init, jump_to, record_message, request_file_swap,
  set_line_controls, step, total_lines,
}
use tcp_server_simulator.Scheduler.Active.{active, check_line_controls}
use tcp_server_simulator.Scheduler.Lines.{get_elem?-active}
use tcp_server_simulator.Scheduler.Calls.{
  IsValid, call, call-IsValid, jumps_to, pauses, resumes, starts, swaps,
}
use tcp_server_simulator.Scheduler.Pass.{
  IsSettled, messages_from, steps_of, steps_of-pass, steps_of-swap,
}
use tcp_server_simulator.Scheduler.Jump.{step-jump}
use tcp_server_simulator.Scheduler.Auto.{Ordered, run_auto, run_auto-Ordered}

abbrev file : List Bytes
file = (b'a' ∷ []) ∷ (b'b' ∷ []) ∷ (b'c' ∷ []) ∷ []

abbrev three : SendScheduler
three = record {
  source_records = file;
  records = file;
  rate = 10000;
  loop = true;
  start_line = none;
  end_line = none;
  first_n = none;
  running = false;
  paused = false;
  cursor = 0;
  generation = 0;
  pending_header = none;
  pending_swap = none;
}

three-init : init file 10000 true ≡ three
unfolding init
three-init = refl

three-IsValid : IsValid three
unfolding active check_line_controls
three-IsValid = record {
  selected = refl;
  cursor_le = omega arith;
  controls_ok = refl;
  rate_le = omega arith;
}

three-IsSettled : IsSettled three
three-IsSettled = record { no_swap = refl; no_header = refl }

-- The second and third line, one of them.
active_two : active (some 2) (some 3) (some 1) file ≡ (b'b' ∷ []) ∷ []
unfolding active
active_two = refl

controls_reversed : set_line_controls (some 3) (some 2) none three ≡ raise value_error
unfolding set_line_controls check_line_controls
controls_reversed = refl

-- A paused loop sends nothing; after a swap the header of the new file comes first.
auto_sent :
    (run_auto
      ([] ∷ (pauses ∷ []) ∷ (resumes ∷ swaps ((b'x' ∷ []) ∷ []) (some (b'h' ∷ [])) ∷ []) ∷ [] ∷ [])
      three).1
    ≡ record_message 0 1 (b'a' ∷ [])
      ∷ header_message 1 (b'h' ∷ [])
      ∷ record_message 1 1 (b'x' ∷ [])
      ∷ []
unfolding run_auto call step active
auto_sent = refl

call-IsValid_example : IsValid (call (jumps_to 3) three)
call-IsValid_example = call-IsValid (jumps_to 3) three three-IsValid

steps_of-pass_example :
    steps_of (total_lines three) three
    ≡ ok (record three { cursor = total_lines three }, messages_from 0 1 file)
steps_of-pass_example = steps_of-pass three three-IsSettled (inl refl)

steps_of-swap_example :
    steps_of 2 (request_file_swap ((b'x' ∷ []) ∷ []) (some (b'h' ∷ [])) three)
    ≡ ok (
      record three {
        source_records = (b'x' ∷ []) ∷ [];
        records = (b'x' ∷ []) ∷ [];
        cursor = 1;
        generation = 1;
      },
      header_message 1 (b'h' ∷ []) ∷ messages_from 1 1 ((b'x' ∷ []) ∷ []),
    )
unfolding active
steps_of-swap_example = steps_of-swap three ((b'x' ∷ []) ∷ []) (b'h' ∷ [])

step-jump_example :
    ((1 ≤ 2)
      × (2 ≤ total_lines three)
      × (r : Bytes) × (get_elem? file 1 ≡ some r)
      × ((jump_to 2 three >>= step)
          ≡ ok (record three { cursor = 2 }, some (record_message 0 2 r))))
    ⊎ (((2 < 1) ⊎ (total_lines three < 2)) × (jump_to 2 three ≡ raise value_error))
step-jump_example = step-jump 2 three three-IsSettled

run_auto-Ordered_example : Ordered 0 (run_auto ((starts ∷ []) ∷ []) three)
run_auto-Ordered_example = run_auto-Ordered ((starts ∷ []) ∷ []) three

get_elem?-active_example : get_elem? (active (some 2) none (some 1) file) 0 ≡ some (b'b' ∷ [])
get_elem?-active_example = get_elem?-active (some 2) none (some 1) file 0
