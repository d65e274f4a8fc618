-- ===== src/TcpServerSender/Disconnect.antt =====
-- A client that the server disconnects.
use tcp_server_simulator.Prelude.{
  Option, String, [], ap, is_some, none, refl, some, true, ◌++◌, ◌∙◌, ◌∷◌, ◌≡◌,
}
use tcp_server_simulator.Connections.{ClientState, get_client_state}
use tcp_server_simulator.TcpServerSender.{
  Reason, TcpServerSender, cancel_reader, client_disconnect, client_disconnected, close_client,
  disconnect_alone, disconnect_client, disconnect_found, disconnect_other, is_member, leave,
}

disconnect_found-some :
    (client_id : String) (reason : Reason) (o : Option ClientState) (s : TcpServerSender)
    → is_some o ≡ true
    → (disconnect_found client_id reason o s).events
      ≡ s.events ++ client_disconnected client_id reason ∷ []
unfolding disconnect_found close_client leave
disconnect_found-some client_id reason none s h = cc
disconnect_found-some client_id reason (some state) s h = refl

disconnect_other-some :
    (client_id : String) (reason : Reason) (o : Option ClientState) (s : TcpServerSender)
    → get_client_state s.manager client_id ≡ o
    → is_some o ≡ true
    → is_member client_id s.reader_tasks ≡ true
    → (disconnect_other client_id reason o s).events
      ≡ (s.events ++ client_disconnected client_id client_disconnect ∷ [])
        ++ client_disconnected client_id reason ∷ []
unfolding disconnect_other disconnect_alone leave close_client
disconnect_other-some client_id reason none s e h m = cc
disconnect_other-some client_id reason (some state) s e h m =
    let gone = leave client_id s in
    let last = client_disconnected client_id reason ∷ [] in
    ap (λ b. (cancel_reader b client_id gone).events ++ last) m
    ∙ ap (λ es. es ++ last)
        (disconnect_found-some client_id client_disconnect (get_client_state s.manager client_id)
          gone (ap is_some e))

-- A connected client whose reader task runs is reported as disconnected twice when another task
-- disconnects it: first as a disconnect of the client's own, then with the reason there was.
pub disconnect_reported_twice :
    (client_id : String) (reason : Reason) (s : TcpServerSender)
    → is_some (get_client_state s.manager client_id) ≡ true
    → is_member client_id s.reader_tasks ≡ true
    → (disconnect_client client_id reason s).events
      ≡ (s.events ++ client_disconnected client_id client_disconnect ∷ [])
        ++ client_disconnected client_id reason ∷ []
unfolding disconnect_client
disconnect_reported_twice client_id reason s h m =
    disconnect_other-some client_id reason (get_client_state s.manager client_id) s refl h m
