-- ===== src/TcpServerSender/Ready.antt =====
-- The clients that are ready for a broadcast are connected ones.
use tcp_server_simulator.Prelude.{
  All, Bool, Bytes, List, Option, String, String-discrete, [], false, if_neg, is_some, ite, lookup,
  lookup-remove, none, refl, some, subst, sym, true, ℕ, ◌&&◌, ◌∙◌, ◌∷◌, ◌≡◌,
}
use tcp_server_simulator.Connections.{
  ClientState, ConnectionManager, dequeue, enqueue, enqueue_found, enqueue_payload,
  get_client_state, pop_found, put_client, store_dequeued, store_enqueued, unregister_client,
}
use tcp_server_simulator.Connections.Fifo.{state-put}
use tcp_server_simulator.TcpServerSender.{
  Reason, TcpServerSender, cancel_reader, client_disconnect, close_client, disconnect_alone,
  disconnect_client, disconnect_found, disconnect_other, is_member, is_nonempty, leave, without,
}

abbrev pub IsRegistered : ConnectionManager → String → Type 0
IsRegistered m client_id = is_some (get_client_state m client_id) ≡ true

pub record IsReady (s : TcpServerSender) : Type 0 where
  pub registered : All (IsRegistered s.manager) s.broadcast_ready_clients
  pub woken : s.broadcast_ready_event ≡ true → is_nonempty s.broadcast_ready_clients ≡ true

All-both :
    (P Q R : String → Type 0) (js : List String)
    → ((j : String) → P j → Q j → R j)
    → All P js
    → All Q js
    → All R js
All-both P Q R [] f h k = tt
All-both P Q R (j ∷ js) f h k = (f j (h.0) (k.0), All-both P Q R js f (h.1) (k.1))

-- From m to m' nobody is unregistered.
unfoldable pub Keeps : ConnectionManager → ConnectionManager → Type 0
Keeps m m' = (j : String) → IsRegistered m j → IsRegistered m' j

Keeps-All :
    (m m' : ConnectionManager) (js : List String)
    → Keeps m m'
    → All (IsRegistered m) js
    → All (IsRegistered m') js
unfolding Keeps
Keeps-All m m' js k h =
    All-both (IsRegistered m) (IsRegistered m) (IsRegistered m') js (λ j p q. k j p) h h

pub put-Keeps :
    (client_id : String) (state : ClientState) (m : ConnectionManager)
    → Keeps m (put_client client_id state m)
unfolding Keeps
put-Keeps client_id state m j h =
    subst (λ o. is_some o ≡ true) (sym (state-put j client_id state m))
      (elim (String-discrete client_id j)
        as (λ d. is_some (ite d (some state) (get_client_state m j)) ≡ true) [
          | yes e ↦ refl
          | no e ↦ h
        ])

store_enqueued-Keeps :
    (client_id : String) (m : ConnectionManager) (o : Option ClientState)
    → Keeps m ((store_enqueued client_id m o).0)
store_enqueued-Keeps client_id m none = unfold Keeps in (λ j h. h)
store_enqueued-Keeps client_id m (some state) = put-Keeps client_id state m

enqueue_found-Keeps :
    (now : ℕ) (client_id : String) (payload : Bytes) (m : ConnectionManager)
    (o : Option ClientState)
    → Keeps m ((enqueue_found now client_id payload m o).0)
enqueue_found-Keeps now client_id payload m none = unfold Keeps in (λ j h. h)
enqueue_found-Keeps now client_id payload m (some state) =
    store_enqueued-Keeps client_id m (enqueue m.thresholds now payload state)

pub enqueue_payload-Keeps :
    (now : ℕ) (client_id : String) (payload : Bytes) (m : ConnectionManager)
    → Keeps m ((enqueue_payload now client_id payload m).0)
unfolding enqueue_payload
enqueue_payload-Keeps now client_id payload m =
    enqueue_found-Keeps now client_id payload m (get_client_state m client_id)

store_dequeued-Keeps :
    (client_id : String) (m : ConnectionManager) (o : Option (Bytes × ClientState))
    → Keeps m ((store_dequeued client_id m o).0)
store_dequeued-Keeps client_id m none = unfold Keeps in (λ j h. h)
store_dequeued-Keeps client_id m (some (payload, state)) = put-Keeps client_id state m

pub pop_found-Keeps :
    (now : ℕ) (client_id : String) (m : ConnectionManager) (o : Option ClientState)
    → Keeps m ((pop_found now client_id m o).0)
pop_found-Keeps now client_id m none = unfold Keeps in (λ j h. h)
pop_found-Keeps now client_id m (some state) =
    store_dequeued-Keeps client_id m (dequeue m.thresholds now state state.queued_payloads)

pub Keeps-IsReady :
    (m : ConnectionManager) (s : TcpServerSender)
    → Keeps s.manager m
    → IsReady s
    → IsReady (record s { manager = m })
Keeps-IsReady m s k r = record {
  registered = Keeps-All s.manager m s.broadcast_ready_clients k r.registered;
  woken = r.woken;
}

without-All :
    (P : String → Type 0) (client_id : String) (js : List String)
    → All P js
    → All P (without client_id js)
without-All P client_id [] h = tt
without-All P client_id (j ∷ js) h =
    elim (String-discrete client_id j)
      as (λ d. All P (ite d (without client_id js) (j ∷ without client_id js))) [
        | yes e ↦ without-All P client_id js (h.1)
        | no e ↦ (h.0, without-All P client_id js (h.1))
      ]

without-excluded :
    (client_id : String) (js : List String) → All (λ j. ¬ (client_id ≡ j)) (without client_id js)
without-excluded client_id [] = tt
without-excluded client_id (j ∷ js) =
    elim (String-discrete client_id j)
      as (λ d.
        All (λ i. ¬ (client_id ≡ i)) (ite d (without client_id js) (j ∷ without client_id js))) [
          | yes e ↦ without-excluded client_id js
          | no e ↦ (e, without-excluded client_id js)
        ]

-- A client that is no longer ready.
pub record IsGone (client_id : String) (s : TcpServerSender) : Type 0 where
  pub rest : IsReady s
  pub excluded : All (λ j. ¬ (client_id ≡ j)) s.broadcast_ready_clients

woken-and : (a b : Bool) → a && b ≡ true → a ≡ true
woken-and true b h = refl
woken-and false b h = cc

leave-IsGone :
    (client_id : String) (s : TcpServerSender) → IsReady s → IsGone client_id (leave client_id s)
unfolding leave
leave-IsGone client_id s r = record {
  rest = record {
    registered =
        without-All (IsRegistered s.manager) client_id s.broadcast_ready_clients r.registered;
    woken =
        woken-and (is_nonempty (without client_id s.broadcast_ready_clients))
          s.broadcast_ready_event;
  };
  excluded = without-excluded client_id s.broadcast_ready_clients;
}

unregister-other :
    (client_id : String) (m : ConnectionManager) (j : String)
    → IsRegistered m j
    → ¬ (client_id ≡ j)
    → IsRegistered (unregister_client client_id m) j
unfolding unregister_client get_client_state
unregister-other client_id m j h n =
    subst (λ o. is_some o ≡ true)
      (sym (
        lookup-remove String-discrete client_id j m.clients
        ∙ if_neg (String-discrete client_id j) n none (lookup String-discrete j m.clients)))
      h

close_client-IsGone :
    (client_id : String) (reason : Reason) (s : TcpServerSender)
    → IsGone client_id s
    → IsGone client_id (close_client client_id reason s)
unfolding close_client
close_client-IsGone client_id reason s g = record {
  rest = record {
    registered =
        All-both (IsRegistered s.manager) (λ j. ¬ (client_id ≡ j))
          (IsRegistered (unregister_client client_id s.manager)) s.broadcast_ready_clients
          (λ j. unregister-other client_id s.manager j) g.rest.registered g.excluded;
    woken = g.rest.woken;
  };
  excluded = g.excluded;
}

pub disconnect_found-IsReady :
    (client_id : String) (reason : Reason) (o : Option ClientState) (s : TcpServerSender)
    → IsReady s
    → IsReady (disconnect_found client_id reason o s)
unfolding disconnect_found
disconnect_found-IsReady client_id reason none s r = r
disconnect_found-IsReady client_id reason (some state) s r =
    (close_client-IsGone client_id reason (leave client_id s) (leave-IsGone client_id s r)).rest

disconnect_found-IsGone :
    (client_id : String) (reason : Reason) (o : Option ClientState) (s : TcpServerSender)
    → IsGone client_id s
    → IsGone client_id (disconnect_found client_id reason o s)
unfolding disconnect_found
disconnect_found-IsGone client_id reason none s g = g
disconnect_found-IsGone client_id reason (some state) s g =
    close_client-IsGone client_id reason (leave client_id s) (leave-IsGone client_id s g.rest)

cancel_reader-IsGone :
    (b : Bool) (client_id : String) (s : TcpServerSender)
    → IsGone client_id s
    → IsGone client_id (cancel_reader b client_id s)
unfolding disconnect_alone
cancel_reader-IsGone true client_id s g =
    disconnect_found-IsGone client_id client_disconnect (get_client_state s.manager client_id) s g
cancel_reader-IsGone false client_id s g = g

disconnect_other-IsReady :
    (client_id : String) (reason : Reason) (o : Option ClientState) (s : TcpServerSender)
    → IsReady s
    → IsReady (disconnect_other client_id reason o s)
unfolding disconnect_other
disconnect_other-IsReady client_id reason none s r = r
disconnect_other-IsReady client_id reason (some state) s r =
    (close_client-IsGone client_id reason _ (
      cancel_reader-IsGone (is_member client_id s.reader_tasks) client_id (leave client_id s)
        (leave-IsGone client_id s r))).rest

pub disconnect_client-IsReady :
    (client_id : String) (reason : Reason) (s : TcpServerSender)
    → IsReady s
    → IsReady (disconnect_client client_id reason s)
unfolding disconnect_client
disconnect_client-IsReady client_id reason s r =
    disconnect_other-IsReady client_id reason (get_client_state s.manager client_id) s r
