-- ===== src/Sctp/Tests.antt =====
-- The theorems on sockets at a master with one socket and one association.
pub mod Calls
use socketapi.Prelude.{
  ◌≡◌, refl, ◌⊎◌, true, false, not, ◌&&◌, ◌||◌, [], ◌∷◌, none, some, arith, ◌==◌,
}
use socketapi.Strings.Decimal.{pos}
use socketapi.Notifications.{Notification, undefined, data_arrive, wants}
use socketapi.Association.{Association, Packet, send_packets, new_association}
use socketapi.Association.Waiting.{send_packets-endless}
use socketapi.Sctp.{
  Socket, Master, Lib, LibStatus, find_association, put_association, find_socket, put_socket,
  get_association, get_socket_for,
}
use socketapi.Sctp.Closing.{collect_sockets, instance_used}
use socketapi.Sctp.Lifetime.{Lost, unbind, unbind_connectionless}
use socketapi.Sctp.Notify.{
  queue_notification, enqueue, init_notification, fill_addresses, get_error_code, queue_has_data,
  association_has_data, minus_econnreset,
}
use socketapi.Sctp.Callbacks.{with_socket, data_arrive_notif}
use socketapi.Sctp.Events.{World, run_event, Run, start, next, data_arrive_event}
use socketapi.Sctp.Receive.{Request, Receiver, of_association, internal_receive, untouched, arrival}
use socketapi.Sctp.Kept.{Everywhere}
use socketapi.Sctp.Errors.{
  IsLostComplete, lost_complete-Kept, IsReady, ready-Kept, get_error_code-reset, Run-IsReady,
}
use socketapi.Sctp.Collect.{
  member, unregistered, count_closing, collect_sockets-unused, drain, drain-Empty, without_sockets,
}
use socketapi.Sctp.Unbind.{unbind-aborts}
use socketapi.Sctp.Every.{if-OfSome}
use socketapi.Sctp.Counting.{IsCounted, Covers, names, pending, queue_notification-IsCounted}
use socketapi.Sctp.Counting.Receiving.{IsSettled}
use socketapi.Sctp.Counting.Safe.{internal_receive-IsSettled}

abbrev pub blank : Notification
blank = record {
  remote_port = 0;
  remote_addresses = [];
  content_position = 0;
  sn_type = 0;
  sn_assoc_id = 0;
  content = undefined;
}

-- Association 5 of the instance 7, at the time 100.
abbrev pub peer : Association
peer = new_association 7 5 2 100

abbrev pub server : Socket
server = record {
  instance = 7;
  listening = true;
  global_queue_flag = false;
  auto_connect = false;
  socket_notification_flags = 2;
  socket_read_ready = false;
  auto_close_timeout = 30000000;
  associations = peer ∷ [];
  connectionless = 5 ∷ [];
  requests = [];
  global_queue = [];
}

abbrev pub one_socket : Master
one_socket = record {
  sockets = server ∷ [];
  closing_sockets = [];
  closing_associations = [];
  lib_calls = [];
}

abbrev pub small_status : LibStatus
small_status = record { dest_port = 80; paths = []; out_streams = 1; in_streams = 1 }

abbrev pub small_lib : Lib
small_lib = record {
  instance_of = λ id. some 7;
  status_of = λ id. some small_status;
  max_num_addresses = 32;
}

abbrev small_world : World
small_world = record {
  lib = small_lib;
  memory = blank;
  send = λ (p : Packet). pos 0;
  has_memory = true;
  now = 200;
}

-- Three bytes arrive on stream 1.
abbrev pub three_bytes : Notification
three_bytes = record blank {
  remote_port = 80;
  sn_type = 8;
  sn_assoc_id = 5;
  content = data_arrive 0 3 1 0;
}

abbrev served : Socket
served = queue_notification 5 three_bytes server

abbrev later : Master
later = record one_socket { sockets = served ∷ [] }

one_arrival : Run one_socket later
unfolding wants run_event data_arrive_notif with_socket get_socket_for init_notification
    fill_addresses find_socket put_socket queue_notification get_association find_association
    enqueue put_association new_association
one_arrival = next small_world (data_arrive_event 5 1 3 0 0) start refl

server-lost_complete : Everywhere IsLostComplete lost_complete-Kept one_socket
unfolding new_association
server-lost_complete = ((refl, tt), tt)

server-ready : Everywhere IsReady ready-Kept one_socket
unfolding new_association association_has_data queue_has_data
server-ready = ((refl, tt), tt)

get_error_code-reset_example :
    ((get_error_code 5 served).1 ≡ pos 0) ⊎ ((get_error_code 5 served).1 ≡ minus_econnreset)
unfolding wants find_socket queue_notification get_association find_association enqueue
    put_association new_association
get_error_code-reset_example = get_error_code-reset 7 5 served one_arrival server-lost_complete refl

abbrev served_peer : Association
served_peer = record peer { use_count = 1; in_queue = three_bytes ∷ []; read_ready = true }

Run-IsReady_example : served_peer.read_ready ≡ true
unfolding wants find_socket queue_notification get_association find_association enqueue
    put_association new_association association_has_data queue_has_data
Run-IsReady_example = Run-IsReady 7 5 served served_peer one_arrival server-ready refl refl refl

-- No association is lost.
abbrev pub no_callback : Lost
no_callback id s = (s, [])

drain-Empty_example :
    (n : Master) × (drain no_callback 9
        ((6, 7) ∷ (5, 7) ∷ [])
        (without_sockets one_socket ((5, 7) ∷ (6, 7) ∷ []))
      ≡ some n)
    × (n.closing_associations ≡ [])
    × (n.closing_sockets ≡ [])
unfolding count_closing
drain-Empty_example =
    drain-Empty no_callback 9 6 7 ((5, 7) ∷ []) ((5, 7) ∷ (6, 7) ∷ []) one_socket
      (λ j. ground arith)

-- A server whose association was not made by sendTo.
abbrev accepted : Socket
accepted = record server { connectionless = [] }

unbind-aborts_example : unbind no_callback 300 false accepted one_socket ≡ none
unfolding unbind_connectionless find_association
unbind-aborts_example =
    unbind-aborts no_callback 300 false peer [] accepted accepted one_socket one_socket
      (λ e. absurd (omega (arith, e))) refl refl refl

server-IsCounted : IsCounted server
unfolding find_association pending new_association
server-IsCounted =
    (tt, λ id. if-OfSome (Covers id []) (5 == id) (some peer) none (omega arith, tt) tt)

queue_notification-IsCounted_example : IsCounted (queue_notification 5 three_bytes server)
unfolding find_association names arrival new_association
queue_notification-IsCounted_example =
    queue_notification-IsCounted 5 three_bytes server refl (omega arith) server-IsCounted

abbrev small_request : Request
small_request = record {
  buffer = untouched;
  buffer_size = 10;
  msg_notification = false;
  msg_peek = false;
  msg_dontwait = true;
  msg_unordered = false;
  msg_eor = false;
  request_id = 5;
  stream_id = 0;
  proto_id = 0;
  ssn = 0;
  tsn = 0;
  wants_address = false;
  address = none;
}

abbrev small_receiver : Receiver
small_receiver = record {
  lib = small_lib;
  sctp_receive = λ id stream bytes peek. some (1 ∷ 2 ∷ 3 ∷ [], 0, 9);
  path_address = λ id. none;
  make_address = λ p port. none;
  now = 400;
}

internal_receive-IsSettled_example :
    IsSettled (internal_receive small_receiver (of_association 5) 2 small_request served)
internal_receive-IsSettled_example =
    internal_receive-IsSettled small_receiver (of_association 5) 2 small_request served
      queue_notification-IsCounted_example

abbrev pub small_packet : Packet
small_packet = record {
  data_bytes = 1 ∷ [];
  flags = 0;
  proto_id = 0;
  stream_id = 1;
  time_to_live = 9;
}

abbrev two_waiting : Master
two_waiting = record one_socket { closing_sockets = 7 ∷ 8 ∷ []; closing_associations = (5, 7) ∷ [] }

collect_sockets-unused_example :
    (member 8 (collect_sockets two_waiting).closing_sockets ≡ (true && false))
    × (unregistered 8 (collect_sockets two_waiting).lib_calls ≡ (false || (true && not false)))
unfolding member unregistered instance_used
collect_sockets-unused_example = collect_sockets-unused two_waiting 8

send_packets-endless_example :
    send_packets (λ p. pos 0) true 9 (record peer { up = false; packets = small_packet ∷ [] })
    ≡ none
send_packets-endless_example = send_packets-endless (λ p. pos 0) 9 small_packet [] peer
