-- ===== src/Scheduler/Jump.antt =====
-- A jump to a line, and the lines that it accepts.
use tcp_server_simulator.Prelude.{
  Bool-cases, Bytes, ap, arith, get_elem?, get_elem?_lt, inl, inr, length, ltb, ok, raise, some,
  value_error, ℕ, ◌+◌, ◌-◌, ◌<◌, ◌>>=◌, ◌||◌, ◌∙◌, ◌≡◌, ◌≤◌, ◌⊎◌,
}
use tcp_server_simulator.Scheduler.{SendScheduler, jump_to, record_message, step, total_lines}
use tcp_server_simulator.Scheduler.Pass.{IsSettled, step-next}

jump_to-in_range :
    (n : ℕ) (s : SendScheduler)
    → 1 ≤ n
    → n ≤ total_lines s
    → jump_to n s ≡ ok (record s { cursor = n - 1 })
unfolding jump_to total_lines
jump_to-in_range n s h k = ground arith

step-jumped :
    (n : ℕ) (s : SendScheduler) {r : Bytes}
    → IsSettled s
    → 1 ≤ n
    → n ≤ total_lines s
    → get_elem? s.records (n - 1) ≡ some r
    → (jump_to n s >>= step) ≡ ok (record s { cursor = n }, some (record_message s.generation n r))
step-jumped n s {r} h low high e =
    let t = record s { cursor = n - 1 } in
    let back : n - 1 + 1 ≡ n = omega arith in
    ap (λ r. r >>= step) (jump_to-in_range n s low high)
    ∙ step-next t (record { no_swap = h.no_swap; no_header = h.no_header }) e
    ∙ ap (λ c. ok (record s { cursor = c }, some (record_message s.generation c r))) back

-- When no file swap and no header is pending, a jump to a line of the active records is accepted, and the next
-- message is that line; any other jump raises `ValueError`.
pub step-jump :
    (n : ℕ) (s : SendScheduler)
    → IsSettled s
    → ((1 ≤ n)
        × (n ≤ total_lines s)
        × (r : Bytes) × (get_elem? s.records (n - 1) ≡ some r)
        × ((jump_to n s >>= step)
            ≡ ok (record s { cursor = n }, some (record_message s.generation n r))))
      ⊎ (((n < 1) ⊎ (total_lines s < n)) × (jump_to n s ≡ raise value_error))
unfolding total_lines
step-jump n s h = elim (Bool-cases (ltb n 1 || ltb (length s.records) n)) [
  | inl e ↦ inr (unfold jump_to in (ground arith))
  | inr e ↦
      let low : 1 ≤ n = ground arith in
      let high : n ≤ length s.records = ground arith in
      let (r, found) = get_elem?_lt s.records (n - 1) (omega arith) in
      inl (low, high, r, found, step-jumped n s h low (unfold total_lines in high) found)
]
