-- ===== src/Connections.antt =====
-- src/tcp_sim/transport/connection_manager.py: the queues of the clients of the TCP server. The
-- time of `time.monotonic()` is an argument of each call that reads it, in any unit.
pub mod Queues
pub mod Fifo
mod Tests
use tcp_server_simulator.Prelude.{
  Bool, Bytes, List, Option, String, String-discrete, [], false, if◌then◌else◌, insert, leb, length,
  lookup, ltb, map, max, none, not, remove, some, true, ℕ, ◌&&◌, ◌++◌, ◌+◌, ◌-◌, ◌∷◌,
}

pub record QueueThresholds : Type 0 where
  pub high_watermark_bytes : ℕ
  pub low_watermark_bytes : ℕ
  pub hard_cap_bytes : ℕ
  pub slow_client_timeout : ℕ

-- `writer` is the number of a stream writer of asyncio.
pub record ClientState : Type 0 where
  pub client_id : String
  pub writer : ℕ
  pub queued_payloads : List Bytes
  pub queued_bytes : ℕ
  pub blocked : Bool
  pub blocked_since : Option ℕ

pub record ConnectionManager : Type 0 where
  pub thresholds : QueueThresholds
  pub clients : List (String × ClientState)

pub data Refusal : Type 0 where
  client_not_found hard_cap_exceeded : Refusal

abbrev pub init : QueueThresholds → ConnectionManager
init thresholds = record { thresholds = thresholds; clients = [] }

unfoldable pub connected_clients : ConnectionManager → ℕ
connected_clients m = length m.clients

abbrev pub new_client : String → ℕ → ClientState
new_client client_id writer = record {
  client_id = client_id;
  writer = writer;
  queued_payloads = [];
  queued_bytes = 0;
  blocked = false;
  blocked_since = none;
}

abbrev pub put_client : String → ClientState → ConnectionManager → ConnectionManager
put_client client_id state m = record m {
  clients = insert String-discrete client_id state m.clients;
}

unfoldable pub register_client : String → ℕ → ConnectionManager → ConnectionManager
register_client client_id writer m = put_client client_id (new_client client_id writer) m

unfoldable pub unregister_client : String → ConnectionManager → ConnectionManager
unregister_client client_id m = record m { clients = remove String-discrete client_id m.clients }

unfoldable pub list_client_ids : ConnectionManager → List String
list_client_ids m = map (λ e. e.0) m.clients

unfoldable pub get_client_state : ConnectionManager → String → Option ClientState
get_client_state m client_id = lookup String-discrete client_id m.clients

-- `_update_blocked_state`
unfoldable pub update_blocked_state : QueueThresholds → ℕ → ClientState → ClientState
update_blocked_state t now state =
    if leb t.high_watermark_bytes state.queued_bytes
    then if not state.blocked
      then record state { blocked = true; blocked_since = some now }
      else state
    else if leb state.queued_bytes t.low_watermark_bytes
    then record state { blocked = false; blocked_since = none }
    else state

abbrev pub with_payload : Bytes → ClientState → ClientState
with_payload payload state = record state {
  queued_payloads = state.queued_payloads ++ payload ∷ [];
  queued_bytes = state.queued_bytes + length payload;
}

-- `pop(0)`, and the count without the payload.
abbrev pub without_first : Bytes → List Bytes → ClientState → ClientState
without_first payload rest state = record state {
  queued_payloads = rest;
  queued_bytes = max 0 (state.queued_bytes - length payload);
}

-- `enqueue_payload` on the state of the client that was found.
unfoldable pub enqueue : QueueThresholds → ℕ → Bytes → ClientState → Option ClientState
unfolding update_blocked_state
enqueue t now payload state =
    if ltb t.hard_cap_bytes (state.queued_bytes + length payload)
    then none
    else some (update_blocked_state t now (with_payload payload state))

abbrev pub store_enqueued :
    String → ConnectionManager → Option ClientState → ConnectionManager × Option Refusal
store_enqueued client_id m none = (m, some hard_cap_exceeded)
store_enqueued client_id m (some state) = (put_client client_id state m, none)

abbrev pub enqueue_found :
    ℕ → String → Bytes → ConnectionManager → Option ClientState → ConnectionManager × Option Refusal
enqueue_found now client_id payload m none = (m, some client_not_found)
enqueue_found now client_id payload m (some state) =
    store_enqueued client_id m (enqueue m.thresholds now payload state)

-- `enqueue_payload`; no refusal stands for `(True, None)`.
unfoldable pub enqueue_payload :
    ℕ → String → Bytes → ConnectionManager → ConnectionManager × Option Refusal
unfolding enqueue get_client_state
enqueue_payload now client_id payload m =
    enqueue_found now client_id payload m (get_client_state m client_id)

-- `pop_next_payload` on the payloads of the client that was found.
unfoldable pub dequeue :
    QueueThresholds → ℕ → ClientState → List Bytes → Option (Bytes × ClientState)
unfolding update_blocked_state
dequeue t now state [] = none
dequeue t now state (payload ∷ rest) =
    some (payload, update_blocked_state t now (without_first payload rest state))

abbrev pub store_dequeued :
    String → ConnectionManager → Option (Bytes × ClientState) → ConnectionManager × Option Bytes
store_dequeued client_id m none = (m, none)
store_dequeued client_id m (some (payload, state)) = (put_client client_id state m, some payload)

abbrev pub pop_found :
    ℕ → String → ConnectionManager → Option ClientState → ConnectionManager × Option Bytes
pop_found now client_id m none = (m, none)
pop_found now client_id m (some state) =
    store_dequeued client_id m (dequeue m.thresholds now state state.queued_payloads)

-- `pop_next_payload`
unfoldable pub pop_next_payload : ℕ → String → ConnectionManager → ConnectionManager × Option Bytes
unfolding dequeue get_client_state
pop_next_payload now client_id m = pop_found now client_id m (get_client_state m client_id)

-- The test of `get_disconnect_candidates`; a clock that runs backwards gives no duration.
abbrev pub is_slow : QueueThresholds → ℕ → ClientState → Bool
is_slow t now state = state.blocked && elim state.blocked_since [
  | none ↦ false
  | some since ↦ leb t.slow_client_timeout (now - since)
]

abbrev pub ids_where : (ClientState → Bool) → List (String × ClientState) → List String
ids_where test [] = []
ids_where test ((client_id, state) ∷ clients) =
    let rest = ids_where test clients in if test state then client_id ∷ rest else rest

-- `get_disconnect_candidates`
unfoldable pub get_disconnect_candidates : ℕ → ConnectionManager → List String
get_disconnect_candidates now m = ids_where (is_slow m.thresholds now) m.clients

unfoldable pub blocked_clients : ConnectionManager → List String
blocked_clients m = ids_where (λ state. state.blocked) m.clients
