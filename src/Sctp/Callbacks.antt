-- ===== src/Sctp/Callbacks.antt =====
-- The callbacks that sctplib makes (socketapi/sctpsocketmaster.cc). `memory` is what a notification
-- on the stack holds before it is made, and sctplib is taken to delete an association without an
-- error, where the code aborts if not. The version of sctplib is 1.3.0.
use socketapi.Prelude.{
  ℕ, Bool, true, false, List, [], ◌∷◌, ◌++◌, Option, none, some, length, ◌==◌, if◌then◌else◌,
}
use socketapi.Strings.Decimal.{ℤ}
use socketapi.Notifications.{
  Notification, send_failed, remote_error, shutdown_event, data_arrive, paddr_change, assoc_change,
}
use socketapi.Internet.System.{Sockaddr}
use socketapi.Association.{
  Association, Packet, LibCall, sctp_abort, sctp_delete_association, sctp_set_rto_max,
  new_association, send_packets,
}
use socketapi.Sctp.{
  Socket, Master, Lib, insert_association, put_association, get_association, put_socket,
  get_socket_for, note_lib,
}
use socketapi.Sctp.Lifetime.{Lost, association_garbage_collection, check_auto_close}
use socketapi.Sctp.Notify.{blank_notification, init_notification, queue_notification}

-- What a callback does to the socket of an association, if there is one.
unfoldable pub with_socket : Lib → ℕ → (Socket → Socket) → Master → Master
with_socket lib id f m = elim (get_socket_for lib id m) [
  | none ↦ m
  | some s ↦ record m { sockets = put_socket (f s) m.sockets }
]

-- SCTP_ASSOC_CHANGE with a state and the numbers of streams.
abbrev pub state_note : ℕ → ℕ → ℕ → ℕ → Notification → Notification
state_note id state out_streams in_streams n = record n {
  sn_type = 1;
  sn_assoc_id = id;
  content = assoc_change state out_streams in_streams;
}

-- dataArriveNotif.
unfoldable pub data_arrive_notif : Lib → Notification → ℕ → ℕ → ℕ → ℕ → ℕ → Master → Master
data_arrive_notif lib memory id stream bytes proto_id unordered = with_socket lib id (
    queue_notification id (record (init_notification lib id memory).0 {
      sn_type = 8;
      sn_assoc_id = id;
      content = data_arrive (if unordered == 1 then 1 else 0) bytes stream proto_id;
    }))

-- sendFailureNotif, which gives the type of a remote error.
unfoldable pub send_failure_notif : Lib → Notification → ℕ → Master → Master
send_failure_notif lib memory id = with_socket lib id (
    queue_notification id (record (init_notification lib id memory).0 {
      sn_type = 3;
      sn_assoc_id = id;
      content = send_failed;
    }))

-- The states of a path that sctplib tells.
pub data PathState : Type 0 where
  path_ok path_unreachable path_added path_removed : PathState
  asconf_succeeded asconf_failed path_other : PathState

-- spc_state and spc_error.
unfoldable pub path_change : PathState → ℕ × ℕ
path_change path_ok = (21, 0)
path_change path_unreachable = (22, 0)
path_change path_added = (24, 0)
path_change path_removed = (23, 0)
path_change asconf_succeeded = (26, 0)
path_change asconf_failed = (26, 1)
path_change path_other = (0, 0)

-- networkStatusChangeNotif. The argument `destination` is `none` where the status of the path fails
-- or its address is bad, and else what its getSystemAddress writes.
unfoldable pub network_status_change_notif :
    Lib → Notification → Option (Option Sockaddr) → ℕ → PathState → Master → Master
network_status_change_notif lib memory none id new_state m = m
network_status_change_notif lib memory (some destination) id new_state m =
    let (state, error) = path_change new_state in
    with_socket lib id
      (queue_notification id (record (init_notification lib id memory).0 {
        sn_type = 2;
        sn_assoc_id = id;
        content = paddr_change state error destination;
      }))
      m

-- Correct RTOMax: getAssocStatus and setAssocStatus with the rtoMax of the association.
unfoldable pub correct_rto_max : Lib → Association → Association × List LibCall
correct_rto_max lib a =
    if a.rto_max_is_init_timeout
    then (
      record a { rto_max_is_init_timeout = false },
      elim (lib.status_of a.assoc_id) [
        | none ↦ []
        | some st ↦ sctp_set_rto_max a.assoc_id a.rto_max ∷ []
      ],
    )
    else (a, [])

-- sendPreEstablishmentPackets, with as much fuel as there are packets; `none` where it does not end.
unfoldable pub send_waiting : (Packet → ℤ) → Bool → Association → Option Association
send_waiting send memory a = elim (send_packets send memory (length a.packets) a) [
  | none ↦ none
  | some (b, done) ↦ some b
]

-- What communicationUpNotif does to an association that associate has made.
unfoldable pub establish :
    Lib → (Packet → ℤ) → Bool → Association → Option (Association × List LibCall)
establish lib send has_memory a =
    let (b, calls) = correct_rto_max lib a in
    elim (send_waiting send has_memory (record b {
      up = true;
      write_ready = true;
      has_exception = false;
      waiting_addresses = none;
    })) [ none ↦ none | some c ↦ some (c, calls) ]

-- And to a socket that listens. The request has the notification without its content.
unfoldable pub add_request : ℕ → ℕ → Notification → Socket → Socket
add_request now id n s =
    let a = record (new_association s.instance id s.socket_notification_flags now) {
      up = true;
      write_ready = true;
      has_exception = false;
    } in
    record s {
      associations = insert_association a s.associations;
      requests = s.requests ++ record { incoming_id = id; notification = n } ∷ [];
      socket_read_ready = true;
    }

-- communicationUpNotif. An association that nobody wants is aborted and deleted.
unfoldable pub communication_up_notif :
    Lib → Notification → (Packet → ℤ) → Bool → ℕ → ℕ → ℕ → ℕ → Master → Option Master
communication_up_notif lib memory send has_memory now id out_streams in_streams m =
    let n = (init_notification lib id memory).0 in
    let up_note = state_note id 11 out_streams in_streams n in
    let rejected = note_lib (sctp_abort id ∷ sctp_delete_association id ∷ []) m in
    elim (get_socket_for lib id m) [
      | none ↦ some rejected
      | some s ↦ elim (get_association id true s) [
        | none ↦
            let t = queue_notification id up_note (add_request now id n s) in
            some (if s.listening then record m { sockets = put_socket t m.sockets } else rejected)
        | some a ↦ elim (establish lib send has_memory a) [
          | none ↦ none
          | some (b, calls) ↦
              let t = record s { associations = put_association b s.associations } in
              some (
                note_lib calls
                  (record m { sockets = put_socket (queue_notification id up_note t) m.sockets }))
        ]
      ]
    ]

-- A write to the association with a number, if it is there.
unfoldable pub update_association : ℕ → (Association → Association) → Socket → Socket
update_association id f s = elim (get_association id false s) [
  | none ↦ s
  | some a ↦ record s { associations = put_association (f a) s.associations }
]

abbrev pub wake_all : Association → Association
wake_all a = record a { has_exception = true; write_ready = true; read_ready = true }

-- What communicationLostNotif does to the socket.
unfoldable pub lose : Lib → Notification → ℕ → Socket → Socket × List LibCall
lose lib memory id s = elim (get_association id false s) [
  | none ↦ (s, [])
  | some a ↦
      let (b, calls) = correct_rto_max lib a in
      let c = record b { lost = true; shutdown_complete = true } in
      let n = state_note id 12 0 0 (blank_notification memory) in
      let t =
        queue_notification id n (record s { associations = put_association c s.associations }) in
      (update_association id wake_all t, calls)
]

-- And shutdownCompleteNotif.
unfoldable pub complete : Notification → ℕ → Socket → Socket
complete memory id s = elim (get_association id false s) [
  | none ↦ s
  | some a ↦
      let c = record (wake_all a) { shutdown_complete = true } in
      let n = state_note id 14 0 0 (blank_notification memory) in
      queue_notification id n (record s { associations = put_association c s.associations })
]

-- The rest of both: the garbage collection comes first, checkAutoClose last.
unfoldable pub end_callback :
    Lost → Lib → ℕ → ℕ → (Socket → Socket × List LibCall) → Master → Option Master
end_callback lost lib now id f m = elim (association_garbage_collection lost now id false m) [
  | none ↦ none
  | some (n, true) ↦ some n
  | some (n, false) ↦ elim (get_socket_for lib id n) [
    | none ↦ some n
    | some s ↦
        let (t, calls) = f s in
        elim (check_auto_close lost now t (note_lib calls n)) [
          | none ↦ none
          | some (u, k) ↦ some (record k { sockets = put_socket u k.sockets })
        ]
  ]
]

unfoldable pub communication_lost_notif : Lib → Notification → ℕ → ℕ → Master → Option Master
communication_lost_notif lib memory now id =
    end_callback (lose lib memory) lib now id (lose lib memory id)

unfoldable pub shutdown_complete_notif : Lib → Notification → ℕ → ℕ → Master → Option Master
shutdown_complete_notif lib memory now id =
    end_callback (lose lib memory) lib now id (λ s. (complete memory id s, []))

-- communicationErrorNotif.
unfoldable pub communication_error_notif : Lib → Notification → ℕ → Master → Master
communication_error_notif lib memory id = with_socket lib id (
    queue_notification id (record (init_notification lib id memory).0 {
      sn_type = 3;
      sn_assoc_id = id;
      content = remote_error;
    }))

-- restartNotif: one stream each way where the status fails.
unfoldable pub restart_notif : Lib → Notification → ℕ → Master → Master
restart_notif lib memory id =
    let n = blank_notification memory in
    with_socket lib id (
      queue_notification id (elim (lib.status_of id) [
        | none ↦ state_note id 13 1 1 n
        | some st ↦ state_note id 13 st.out_streams st.in_streams n
      ]))

-- shutdownReceivedNotif.
unfoldable pub shutdown_received_notif : Lib → Notification → ℕ → Master → Master
shutdown_received_notif lib memory id = with_socket lib id (
    queue_notification id (record (blank_notification memory) {
      sn_type = 5;
      sn_assoc_id = id;
      content = shutdown_event;
    }))

-- queueStatusChangeNotif.
unfoldable pub queue_status_change_notif : Lib → (Packet → ℤ) → Bool → ℕ → Master → Option Master
queue_status_change_notif lib send has_memory id m = elim (get_socket_for lib id m) [
  | none ↦ some m
  | some s ↦ elim (get_association id false s) [
    | none ↦ some m
    | some a ↦ elim (send_waiting send has_memory (record a { write_ready = true })) [
      | none ↦ none
      | some b ↦
          let t = record s { associations = put_association b s.associations } in
          some (record m { sockets = put_socket t m.sockets })
    ]
  ]
]
