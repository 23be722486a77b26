-- ===== src/Sctp/Kept/Runs.antt =====
-- What holds of every association, through a run of callbacks (socketapi/sctpsocketmaster.cc).
use socketapi.Prelude.{ℕ, subst, inl, inr, Bool, true, false, [], Option, none, some, Option-cases}
use socketapi.Strings.Decimal.{ℤ}
use socketapi.Notifications.{Notification}
use socketapi.Internet.System.{Sockaddr}
use socketapi.Association.{Association, Packet}
use socketapi.Sctp.{Master, Lib, put_association, get_association, get_socket_for}
use socketapi.Sctp.Every.{OfSome}
use socketapi.Sctp.Kept.{Kept, Whole, Everywhere, get_association-Kept, put-Kept}
use socketapi.Sctp.Callbacks.{
  PathState, data_arrive_notif, send_failure_notif, network_status_change_notif, send_waiting, lose,
  complete, communication_lost_notif, shutdown_complete_notif, communication_error_notif,
  restart_notif, shutdown_received_notif, queue_status_change_notif,
}
use socketapi.Sctp.Events.{
  World, Event, run_event, Run, start, next, data_arrive_event, network_event, up_event,
  send_failure_event, lost_event, error_event, restart_event, shutdown_received_event,
  shutdown_complete_event, queue_event,
}
use socketapi.Sctp.Kept.Calls.{
  queued-Kept, communication_up-Kept, lose-Kept, complete-Kept, end_callback-Kept,
  send_waiting-Kept, socket_for-Kept, put_socket-Kept,
}

module _ (P : Association → Type 0) (k : Kept P) where
  network-Kept :
      (lib : Lib) (memory : Notification) (destination : Option (Option Sockaddr)) (id : ℕ)
      (state : PathState) (m : Master)
      → Everywhere P k m
      → Everywhere P k (network_status_change_notif lib memory destination id state m)
  unfolding network_status_change_notif
  network-Kept lib memory none id state m p = p
  network-Kept lib memory (some d) id state m p = queued-Kept P k lib id _ m p

  restart-Kept :
      (lib : Lib) (memory : Notification) (id : ℕ) (m : Master)
      → Everywhere P k m
      → Everywhere P k (restart_notif lib memory id m)
  unfolding restart_notif
  restart-Kept lib memory id m p = queued-Kept P k lib id _ m p

  queue_status-Kept :
      (lib : Lib) (send : Packet → ℤ) (memory : Bool) (id : ℕ) (m : Master)
      → Everywhere P k m
      → OfSome (Everywhere P k) (queue_status_change_notif lib send memory id m)
  unfolding queue_status_change_notif
  queue_status-Kept lib send memory id m p = elim (Option-cases (get_socket_for lib id m)) [
    | inl e ↦ rw (e, queue_status_change_notif) p
    | inr (s, e) ↦
        let w = subst (OfSome (Whole P k)) e (socket_for-Kept P k lib id m p) in
        elim (Option-cases (get_association id false s)) [
          | inl h ↦ rw (e, h, queue_status_change_notif) p
          | inr (a, h) ↦
              let known = subst (OfSome P) h (get_association-Kept P k id false s w) in
              let ready = record a { write_ready = true } in
              elim (Option-cases (send_waiting send memory ready)) [
                | inl r ↦ rw (e, h, r, queue_status_change_notif) tt
                | inr (b, r) ↦
                    let sent =
                      subst (OfSome P) r
                        (send_waiting-Kept P k send memory ready (k.kept_write a known)) in
                    let t = record s { associations = put_association b s.associations } in
                    rw (e, h, r, queue_status_change_notif)
                      (put_socket-Kept P k t m (put-Kept P k b s sent w) p)
              ]
        ]
  ]

  run_event-Kept :
      (w : World) (e : Event) (m : Master)
      → Everywhere P k m
      → OfSome (Everywhere P k) (run_event w e m)
  unfolding run_event data_arrive_notif send_failure_notif communication_error_notif
      shutdown_received_notif communication_lost_notif shutdown_complete_notif
  run_event-Kept w (data_arrive_event id stream bytes proto_id unordered) m p =
      queued-Kept P k w.lib id _ m p
  run_event-Kept w (network_event destination id state) m p =
      network-Kept w.lib w.memory destination id state m p
  run_event-Kept w (up_event id out_streams in_streams) m p =
      communication_up-Kept P k w.lib w.memory w.send w.has_memory w.now id out_streams in_streams m
        p
  run_event-Kept w (send_failure_event id) m p = queued-Kept P k w.lib id _ m p
  run_event-Kept w (lost_event id) m p =
      end_callback-Kept P k (lose w.lib w.memory) w.lib w.now id (lose w.lib w.memory id) m
        (λ i s h. lose-Kept P k w.lib w.memory i s h) (λ s h. lose-Kept P k w.lib w.memory id s h) p
  run_event-Kept w (error_event id) m p = queued-Kept P k w.lib id _ m p
  run_event-Kept w (restart_event id) m p = restart-Kept w.lib w.memory id m p
  run_event-Kept w (shutdown_received_event id) m p = queued-Kept P k w.lib id _ m p
  run_event-Kept w (shutdown_complete_event id) m p =
      end_callback-Kept P k (lose w.lib w.memory) w.lib w.now id (λ s. (complete w.memory id s, []))
        m (λ i s h. lose-Kept P k w.lib w.memory i s h) (λ s h. complete-Kept P k w.memory id s h) p
  run_event-Kept w (queue_event id) m p = queue_status-Kept w.lib w.send w.has_memory id m p

  -- What holds of every association at the start of a run of callbacks holds at its end.
  pub Run-Kept : {m n : Master} → Run m n → Everywhere P k m → Everywhere P k n
  Run-Kept start p = p
  Run-Kept (next {n} w e r h) p =
      subst (OfSome (Everywhere P k)) h (run_event-Kept w e n (Run-Kept r p))
