-- ===== src/Connections/Queues.antt =====
-- The byte counts, the cap and the watermarks of the client queues.
use tcp_server_simulator.Prelude.{
  All, All-insert, All-lookup, All-remove, Bool-cases, Bytes, List, Option, String, String-discrete,
  [], ap, arith, false, inl, inr, is_some, length, ltb, ltb-false→le, ltb→lt, none, refl, some,
  subst, sym, true, ℕ, ◌++◌, ◌+◌, ◌<◌, ◌∷◌, ◌≡◌, ◌≤◌, ◌⊎◌,
}
use tcp_server_simulator.Connections.{
  ClientState, ConnectionManager, QueueThresholds, dequeue, enqueue, enqueue_found, enqueue_payload,
  get_client_state, new_client, pop_found, pop_next_payload, put_client, register_client,
  store_dequeued, unregister_client, update_blocked_state, with_payload, without_first,
}

abbrev pub total : List Bytes → ℕ
total [] = 0
total (p ∷ ps) = length p + total ps

pub total-append : (ps qs : List Bytes) → total (ps ++ qs) ≡ total ps + total qs
total-append [] qs = omega arith
total-append (p ∷ ps) qs = omega (arith, total-append ps qs)

-- The count is exact and within the cap, the time of blocking is known exactly while the client is
-- blocked, and the two watermarks are thresholds with hysteresis.
pub record IsValidClient (t : QueueThresholds) (e : String × ClientState) : Type 0 where
  pub named : e.1.client_id ≡ e.0
  pub counted : e.1.queued_bytes ≡ total e.1.queued_payloads
  pub capped : e.1.queued_bytes ≤ t.hard_cap_bytes
  pub timed : is_some e.1.blocked_since ≡ e.1.blocked
  pub above_low : e.1.blocked ≡ true → t.low_watermark_bytes < e.1.queued_bytes
  pub below_high : e.1.blocked ≡ false → e.1.queued_bytes < t.high_watermark_bytes

-- The low watermark lies below the high one, as in the defaults.
pub record IsValid (m : ConnectionManager) : Type 0 where
  pub ordered : m.thresholds.low_watermark_bytes < m.thresholds.high_watermark_bytes
  pub each : All (IsValidClient m.thresholds) m.clients

-- What holds of a client before its blocked state is brought up to date.
record IsCounted (t : QueueThresholds) (client_id : String) (state : ClientState) : Type 0 where
  named : state.client_id ≡ client_id
  counted : state.queued_bytes ≡ total state.queued_payloads
  capped : state.queued_bytes ≤ t.hard_cap_bytes
  timed : is_some state.blocked_since ≡ state.blocked

update-IsValidClient :
    (t : QueueThresholds) (now : ℕ) (client_id : String) (state : ClientState)
    → t.low_watermark_bytes < t.high_watermark_bytes
    → IsCounted t client_id state
    → IsValidClient t (client_id, update_blocked_state t now state)
unfolding update_blocked_state
update-IsValidClient t now client_id state h c = ground arith

-- The two ways in which an enqueue ends.
pub enqueue-cases :
    (t : QueueThresholds) (now : ℕ) (payload : Bytes) (state : ClientState)
    → ((t.hard_cap_bytes < state.queued_bytes + length payload)
        × (enqueue t now payload state ≡ none))
      ⊎ ((state.queued_bytes + length payload ≤ t.hard_cap_bytes)
          × (enqueue t now payload state
              ≡ some (update_blocked_state t now (with_payload payload state))))
unfolding enqueue
enqueue-cases t now payload state =
    elim (Bool-cases (ltb t.hard_cap_bytes (state.queued_bytes + length payload))) [
      | inl c ↦ inl (ltb→lt _ _ c, rw (c, enqueue))
      | inr c ↦ inr (ltb-false→le _ _ c, rw (c, enqueue))
    ]

module _ (t : QueueThresholds) (now : ℕ) (client_id : String) (state : ClientState)
    (ordered : t.low_watermark_bytes < t.high_watermark_bytes)
    (v : IsValidClient t (client_id, state)) where
  with_payload-IsValidClient :
      (payload : Bytes)
      → state.queued_bytes + length payload ≤ t.hard_cap_bytes
      → IsValidClient t (client_id, update_blocked_state t now (with_payload payload state))
  with_payload-IsValidClient payload h =
      update-IsValidClient t now client_id (with_payload payload state) ordered (record {
        named = v.named;
        counted = omega (arith, v.counted, total-append state.queued_payloads (payload ∷ []));
        capped = h;
        timed = v.timed;
      })

  without_first-IsValidClient :
      (payload : Bytes) (rest : List Bytes)
      → state.queued_payloads ≡ payload ∷ rest
      → IsValidClient t (client_id, update_blocked_state t now (without_first payload rest state))
  without_first-IsValidClient payload rest p =
      update-IsValidClient t now client_id (without_first payload rest state) ordered (record {
        named = v.named;
        counted = omega (arith, v.counted, ap total p);
        capped = omega (arith, v.capped);
        timed = v.timed;
      })

put-IsValid :
    (client_id : String) (state : ClientState) (m : ConnectionManager)
    → IsValid m
    → IsValidClient m.thresholds (client_id, state)
    → IsValid (put_client client_id state m)
put-IsValid client_id state m v c = record {
  ordered = v.ordered;
  each =
      All-insert String-discrete (IsValidClient m.thresholds) client_id state m.clients
        (λ j e. subst (λ i. IsValidClient m.thresholds (i, state)) (sym e) c) v.each;
}

-- The calls of the manager; the times are those that the clock shows.
pub data Call : Type 0 where
  registers : String → ℕ → Call
  unregisters : String → Call
  enqueues : ℕ → String → Bytes → Call
  pops : ℕ → String → Call

unfoldable pub manage : Call → ConnectionManager → ConnectionManager
unfolding register_client unregister_client enqueue_payload pop_next_payload
manage (registers client_id writer) m = register_client client_id writer m
manage (unregisters client_id) m = unregister_client client_id m
manage (enqueues now client_id payload) m = (enqueue_payload now client_id payload m).0
manage (pops now client_id) m = (pop_next_payload now client_id m).0

new_client-IsValidClient :
    (t : QueueThresholds) (client_id : String) (writer : ℕ)
    → t.low_watermark_bytes < t.high_watermark_bytes
    → IsValidClient t (client_id, new_client client_id writer)
new_client-IsValidClient t client_id writer h = ground arith

enqueue_found-IsValid :
    (now : ℕ) (client_id : String) (payload : Bytes) (m : ConnectionManager)
    (o : Option ClientState)
    → IsValid m
    → get_client_state m client_id ≡ o
    → IsValid (enqueue_found now client_id payload m o).0
unfolding get_client_state
enqueue_found-IsValid now client_id payload m none v e = v
enqueue_found-IsValid now client_id payload m (some state) v e =
    elim (enqueue-cases m.thresholds now payload state) [
      | inl (c, r) ↦ rw r v
      | inr (c, r) ↦ rw r (
          put-IsValid client_id _ m v (
            with_payload-IsValidClient m.thresholds now client_id state v.ordered
              (All-lookup String-discrete (IsValidClient m.thresholds) client_id m.clients v.each e)
              payload c))
    ]

pop_found-IsValid :
    (now : ℕ) (client_id : String) (m : ConnectionManager) (state : ClientState) (ps : List Bytes)
    → IsValid m
    → get_client_state m client_id ≡ some state
    → state.queued_payloads ≡ ps
    → IsValid (store_dequeued client_id m (dequeue m.thresholds now state ps)).0
unfolding get_client_state dequeue
pop_found-IsValid now client_id m state [] v e p = v
pop_found-IsValid now client_id m state (payload ∷ rest) v e p = put-IsValid client_id _ m v (
    without_first-IsValidClient m.thresholds now client_id state v.ordered
      (All-lookup String-discrete (IsValidClient m.thresholds) client_id m.clients v.each e) payload
      rest p)

pop-IsValid :
    (now : ℕ) (client_id : String) (m : ConnectionManager) (o : Option ClientState)
    → IsValid m
    → get_client_state m client_id ≡ o
    → IsValid (pop_found now client_id m o).0
pop-IsValid now client_id m none v e = v
pop-IsValid now client_id m (some state) v e =
    pop_found-IsValid now client_id m state state.queued_payloads v e refl

-- Every call, refused or not, keeps every client's count exact and within the hard cap, its time of
-- blocking known exactly while it is blocked, and the watermarks respected: a blocked client holds
-- more than the low one, any other less than the high one.
pub manage-IsValid : (c : Call) (m : ConnectionManager) → IsValid m → IsValid (manage c m)
unfolding manage
manage-IsValid (registers client_id writer) m v =
    put-IsValid client_id _ m v (new_client-IsValidClient m.thresholds client_id writer v.ordered)
manage-IsValid (unregisters client_id) m v = record {
  ordered = v.ordered;
  each = All-remove String-discrete (IsValidClient m.thresholds) client_id m.clients v.each;
}
manage-IsValid (enqueues now client_id payload) m v =
    enqueue_found-IsValid now client_id payload m (get_client_state m client_id) v refl
manage-IsValid (pops now client_id) m v =
    pop-IsValid now client_id m (get_client_state m client_id) v refl
