-- ===== src/Controller/Sharing.antt =====
-- A transmission that is started while a receiver runs.
use tcp_server_simulator.Prelude.{
  Bool, Bytes, List, Option, [], ap, arith, false, length, none, ok, refl, some, true, ℕ, ◌∙◌, ◌∷◌,
  ◌≡◌, ◌≤◌,
}
use tcp_server_simulator.Controller.Transports.{Kind, RuntimeSettings, kind_of}
use tcp_server_simulator.Controller.Loading.{Source, StreamSettings, load_records, velocity_preset}
use tcp_server_simulator.Controller.Opening.{AreAccepted, selected}
use tcp_server_simulator.Controller.Delivery.{is_client, opened}
use tcp_server_simulator.Controller.Reception.{detach, leave_role, stop_reception}
use tcp_server_simulator.Controller.Receiving.{stop_reception-SameSender}
use tcp_server_simulator.Controller.Beginning.{start_transmission-lem}
use tcp_server_simulator.Controller.{Controller, Receiving, receiver}
use tcp_server_simulator.Controller.Starting.{start_transmission}
use tcp_server_simulator.Controller.Commands.{runs}
use tcp_server_simulator.Simulator.{is_live}

stop_reception-settings :
    (in_time : Bool) (c : Controller)
    → c.active_role ≡ receiver
    → (stop_reception in_time c).active_settings ≡ none
unfolding stop_reception detach leave_role
stop_reception-settings in_time c h = ground (arith, h)

-- Whether a receiver has started.
abbrev pub receives : Option Receiving → Bool
receives none = false
receives (some e) = e.started

pub record Shares (c c' : Controller) : Type 0 where
  pub sends : runs c.engine ≡ true
  pub receives_on : receives c.receiver_engine ≡ true
  pub role_eq : c.active_role ≡ receiver
  pub engine_same : c'.engine ≡ c.engine
  pub transport_same : c'.active_transport ≡ c.active_transport
  pub no_settings : c'.active_settings ≡ none

both_run :
    (k : Kind) (port now : ℕ) (source : Source) (settings : RuntimeSettings)
    (stream : StreamSettings) (c : Controller) (in_time : Bool) (selection : List Bytes)
    {records : List Bytes} {header : Option Bytes}
    → is_client k ≡ true
    → kind_of settings.protocol settings.mode ≡ some k
    → load_records (velocity_preset stream).adjusted source ≡ ok (records, header)
    → AreAccepted c
    → selected c records ≡ selection
    → 1 ≤ length selection
    → receives c.receiver_engine ≡ true
    → c.active_role ≡ receiver
    → let c' = start_transmission (ok port) now source settings stream c in
      Shares c' (stop_reception in_time c')
both_run k port now source settings stream c in_time [] h p l a eq n r role =
    absurd (omega (arith, n))
both_run k port now source settings stream c in_time (x ∷ xs) h p l a eq n r role =
    let c' = start_transmission (ok port) now source settings stream c in
    let same = (start_transmission-lem (ok port) now source settings stream c).0 in
    let going = (opened k port now source settings stream c h p l a eq).going in
    let kept = stop_reception-SameSender in_time c' in
    let role' : c'.active_role ≡ receiver = same.role_same ∙ role in
    record {
      sends = ap runs going.engine_eq ∙ ap is_live going.task_live;
      receives_on = ap receives same.engine_same ∙ r;
      role_eq = role';
      engine_same = kept.engine_same;
      transport_same = kept.transport_same;
      no_settings = stop_reception-settings in_time c' role';
    }

-- When a controller of accepted line controls, with a receiver that has started and its role, starts a
-- transmission by a TCP or UDP client, of a source whose records can be loaded and are selected in part at
-- least, then the task of its engine runs, the receiver is still started, and the role is the receiver's; and
-- a stop of the receiver then leaves the engine and its transport as they are, but drops their settings.
pub start_transmission-both :
    (k : Kind) (port now : ℕ) (source : Source) (settings : RuntimeSettings)
    (stream : StreamSettings) (c : Controller) (in_time : Bool) {records : List Bytes}
    {header : Option Bytes}
    → is_client k ≡ true
    → kind_of settings.protocol settings.mode ≡ some k
    → load_records (velocity_preset stream).adjusted source ≡ ok (records, header)
    → AreAccepted c
    → 1 ≤ length (selected c records)
    → receives c.receiver_engine ≡ true
    → c.active_role ≡ receiver
    → let c' = start_transmission (ok port) now source settings stream c in
      Shares c' (stop_reception in_time c')
start_transmission-both k port now source settings stream c in_time {records} h p l a n r role =
    both_run k port now source settings stream c in_time (selected c records) h p l a refl n r role
