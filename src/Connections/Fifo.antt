-- ===== src/Connections/Fifo.antt =====
-- The queue of a client as a first-in-first-out channel, among the traffic of all clients.
use mathlib.Core.Logic.{if_pos, if_neg}
use mathlib.Core.Option.{some-injective}
use tcp_server_simulator.Prelude.{
  Bytes, List, Option, String, String-discrete, [], ap, append-nil, append_assoc, arith, if_neg,
  if_pos, inl, inr, ite, lookup-insert, none, refl, some, sym, ℕ, ◌++◌, ◌∙◌, ◌∷◌, ◌≡◌, ◌≢◌,
}
use tcp_server_simulator.Connections.{
  ClientState, ConnectionManager, QueueThresholds, Refusal, dequeue, enqueue_found, enqueue_payload,
  get_client_state, pop_found, pop_next_payload, put_client, store_dequeued, update_blocked_state,
  with_payload, without_first,
}
use tcp_server_simulator.Connections.Queues.{enqueue-cases}

pub data Traffic : Type 0 where
  enqueues : ℕ → String → Bytes → Traffic
  pops : ℕ → String → Traffic

-- What a call has put into and taken out of the queue of one client.
pub record Log : Type 0 where
  pub accepted : List Bytes
  pub popped : List Bytes

abbrev nothing : Log
nothing = record { accepted = []; popped = [] }

abbrev log_enqueued : Bytes → Option Refusal → Log
log_enqueued payload none = record { accepted = payload ∷ []; popped = [] }
log_enqueued payload (some r) = nothing

abbrev log_popped : Option Bytes → Log
log_popped none = nothing
log_popped (some payload) = record { accepted = []; popped = payload ∷ [] }

abbrev pub joined : Log → Log → Log
joined a b = record { accepted = a.accepted ++ b.accepted; popped = a.popped ++ b.popped }

-- One call, with what it does to the queue of `client`.
unfoldable pub serve : String → Traffic → ConnectionManager → ConnectionManager × Log
serve client (enqueues now client_id payload) m =
    let (m', r) = enqueue_payload now client_id payload m in
    (m', ite (String-discrete client_id client) (log_enqueued payload r) nothing)
serve client (pops now client_id) m =
    let (m', r) = pop_next_payload now client_id m in
    (m', ite (String-discrete client_id client) (log_popped r) nothing)

unfoldable pub serve_all : String → List Traffic → ConnectionManager → ConnectionManager × Log
unfolding serve
serve_all client [] m = (m, nothing)
serve_all client (c ∷ cs) m =
    let (m', log) = serve client c m in
    let (m'', later) = serve_all client cs m' in (m'', joined log later)

queue-update :
    (t : QueueThresholds) (now : ℕ) (state : ClientState)
    → (update_blocked_state t now state).queued_payloads ≡ state.queued_payloads
unfolding update_blocked_state
queue-update t now state = ground arith

-- What was queued and what came in is what went out and what is queued.
pub record Flows (client : String) (queue : List Bytes) (r : ConnectionManager × Log) : Type 0 where
  pub state : ClientState
  pub found : get_client_state r.0 client ≡ some state
  pub conserved : queue ++ r.1.accepted ≡ r.1.popped ++ state.queued_payloads

pub state-put :
    (client client_id : String) (state : ClientState) (m : ConnectionManager)
    → get_client_state (put_client client_id state m) client
      ≡ ite (String-discrete client_id client) (some state) (get_client_state m client)
unfolding get_client_state
state-put client client_id state m = lookup-insert String-discrete client_id client state m.clients

Flows-nothing :
    (client : String) (state : ClientState) (m : ConnectionManager)
    → get_client_state m client ≡ some state
    → Flows client state.queued_payloads (m, nothing)
Flows-nothing client state m e = record { state = state; found = e; conserved = append-nil _ }

-- A call for another client.
Flows-other :
    (client client_id : String) (state other : ClientState) (m : ConnectionManager)
    → client_id ≢ client
    → get_client_state m client ≡ some state
    → Flows client state.queued_payloads (put_client client_id other m, nothing)
Flows-other client client_id state other m n e = Flows-nothing client state _ (
    state-put client client_id other m
    ∙ if_neg (String-discrete client_id client) n (some other) (get_client_state m client)
    ∙ e)

module _ (client client_id : String) (m : ConnectionManager) (state : ClientState)
    (e : get_client_state m client ≡ some state) where
  -- A call that changes nothing.
  Flows-kept :
      Flows client state.queued_payloads (m, ite (String-discrete client_id client) nothing nothing)
  Flows-kept =
      elim (String-discrete client_id client)
        as (λ d. Flows client state.queued_payloads (m, ite d nothing nothing)) [
          | yes p ↦ Flows-nothing client state m e
          | no p ↦ Flows-nothing client state m e
        ]

  -- A call that stores a new state of the client that it is for.
  Flows-put :
      (old new : ClientState) (log : Log)
      → get_client_state m client_id ≡ some old
      → old.queued_payloads ++ log.accepted ≡ log.popped ++ new.queued_payloads
      → Flows client state.queued_payloads
          (put_client client_id new m, ite (String-discrete client_id client) log nothing)
  Flows-put old new log f c =
      elim (String-discrete client_id client)
        as (λ d.
          Flows client state.queued_payloads (put_client client_id new m, ite d log nothing)) [
            | yes p ↦
                let same : old ≡ state =
                  some-injective old state (sym f ∙ ap (get_client_state m) p ∙ e) in
                record {
                  state = new;
                  found =
                      state-put client client_id new m
                      ∙ if_pos (String-discrete client_id client) p (some new)
                          (get_client_state m client);
                  conserved = ap (λ s. s.queued_payloads ++ log.accepted) (sym same) ∙ c;
                }
            | no p ↦ Flows-other client client_id state new m p e
          ]

  enqueue-Flows :
      (now : ℕ) (payload : Bytes) (o : Option ClientState)
      → get_client_state m client_id ≡ o
      → (let (m', r) = enqueue_found now client_id payload m o in
          Flows client state.queued_payloads
            (m', ite (String-discrete client_id client) (log_enqueued payload r) nothing))
  enqueue-Flows now payload none f = Flows-kept
  enqueue-Flows now payload (some old) f = elim (enqueue-cases m.thresholds now payload old) [
    | inl (c, r) ↦ rw r Flows-kept
    | inr (c, r) ↦ rw r (
        Flows-put old _ (log_enqueued payload none) f
          (sym (queue-update m.thresholds now (with_payload payload old))))
  ]

  dequeue-Flows :
      (now : ℕ) (old : ClientState) (ps : List Bytes)
      → get_client_state m client_id ≡ some old
      → old.queued_payloads ≡ ps
      → (let (m', r) = store_dequeued client_id m (dequeue m.thresholds now old ps) in
          Flows client state.queued_payloads
            (m', ite (String-discrete client_id client) (log_popped r) nothing))
  unfolding dequeue
  dequeue-Flows now old [] f p = Flows-kept
  dequeue-Flows now old (payload ∷ rest) f p = Flows-put old _ (log_popped (some payload)) f (
      append-nil _
      ∙ p
      ∙ ap (◌∷◌ payload) (sym (queue-update m.thresholds now (without_first payload rest old))))

  pop-Flows :
      (now : ℕ) (o : Option ClientState)
      → get_client_state m client_id ≡ o
      → (let (m', r) = pop_found now client_id m o in
          Flows client state.queued_payloads
            (m', ite (String-discrete client_id client) (log_popped r) nothing))
  pop-Flows now none f = Flows-kept
  pop-Flows now (some old) f = dequeue-Flows now old old.queued_payloads f refl

serve-Flows :
    (client : String) (c : Traffic) (m : ConnectionManager) (state : ClientState)
    → get_client_state m client ≡ some state
    → Flows client state.queued_payloads (serve client c m)
unfolding serve enqueue_payload pop_next_payload
serve-Flows client (enqueues now client_id payload) m state e =
    enqueue-Flows client client_id m state e now payload (get_client_state m client_id) refl
serve-Flows client (pops now client_id) m state e =
    pop-Flows client client_id m state e now (get_client_state m client_id) refl

-- Whatever the traffic of all clients, the payloads that were queued for a client, followed by
-- those that were accepted for it, are those that were taken from its queue, followed by those
-- that are still queued: nothing is lost, repeated or reordered.
pub serve_all-Flows :
    (client : String) (cs : List Traffic) (m : ConnectionManager) (state : ClientState)
    → get_client_state m client ≡ some state
    → Flows client state.queued_payloads (serve_all client cs m)
unfolding serve_all
serve_all-Flows client [] m state e = Flows-nothing client state m e
serve_all-Flows client (c ∷ cs) m state e =
    let now = serve-Flows client c m state e in
    let later = serve_all-Flows client cs (serve client c m).0 now.state now.found in
    record {
      state = later.state;
      found = later.found;
      conserved =
          sym (append_assoc state.queued_payloads _ _)
          ∙ ap (λ l. l ++ (serve_all client cs (serve client c m).0).1.accepted) now.conserved
          ∙ append_assoc (serve client c m).1.popped _ _
          ∙ ap (◌++◌ (serve client c m).1.popped) later.conserved
          ∙ sym (append_assoc (serve client c m).1.popped _ _);
    }
