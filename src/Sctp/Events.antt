-- ===== src/Sctp/Events.antt =====
-- The callbacks of socketapi/sctpsocketmaster.cc as steps, and the runs of such steps.
use socketapi.Prelude.{ℕ, ◌≡◌, Bool, Option, some}
use socketapi.Strings.Decimal.{ℤ}
use socketapi.Notifications.{Notification}
use socketapi.Internet.System.{Sockaddr}
use socketapi.Association.{Packet}
use socketapi.Sctp.{Master, Lib}
use socketapi.Sctp.Callbacks.{
  PathState, data_arrive_notif, send_failure_notif, network_status_change_notif,
  communication_up_notif, communication_lost_notif, shutdown_complete_notif,
  communication_error_notif, restart_notif, shutdown_received_notif, queue_status_change_notif,
}

-- A callback with its arguments.
pub data Event : Type 0 where
  data_arrive_event : ℕ → ℕ → ℕ → ℕ → ℕ → Event
  network_event : Option (Option Sockaddr) → ℕ → PathState → Event
  up_event : ℕ → ℕ → ℕ → Event
  send_failure_event lost_event error_event restart_event : ℕ → Event
  shutdown_received_event shutdown_complete_event queue_event : ℕ → Event

-- What the callbacks get from their surroundings.
pub record World : Type 0 where
  pub lib : Lib
  pub memory : Notification
  pub send : Packet → ℤ
  pub has_memory : Bool
  pub now : ℕ

unfoldable pub run_event : World → Event → Master → Option Master
run_event w (data_arrive_event id stream bytes proto_id unordered) m =
    some (data_arrive_notif w.lib w.memory id stream bytes proto_id unordered m)
run_event w (network_event destination id state) m =
    some (network_status_change_notif w.lib w.memory destination id state m)
run_event w (up_event id out_streams in_streams) m =
    communication_up_notif w.lib w.memory w.send w.has_memory w.now id out_streams in_streams m
run_event w (send_failure_event id) m = some (send_failure_notif w.lib w.memory id m)
run_event w (lost_event id) m = communication_lost_notif w.lib w.memory w.now id m
run_event w (error_event id) m = some (communication_error_notif w.lib w.memory id m)
run_event w (restart_event id) m = some (restart_notif w.lib w.memory id m)
run_event w (shutdown_received_event id) m = some (shutdown_received_notif w.lib w.memory id m)
run_event w (shutdown_complete_event id) m = shutdown_complete_notif w.lib w.memory w.now id m
run_event w (queue_event id) m = queue_status_change_notif w.lib w.send w.has_memory id m

-- A run of callbacks, each with the surroundings of its time.
pub data Run (m : Master) : Master → Type 0 where
  start : Run m m
  next : {n l : Master} (w : World) (e : Event) → Run m n → run_event w e n ≡ some l → Run m l
