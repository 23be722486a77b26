-- ===== src/Sctp/Tests/Calls.antt =====
-- The theorems on accepting, peeling off and sending at one association.
use socketapi.Prelude.{◌≡◌, refl, true, false, [], ◌∷◌, none, some, arith, Bool, Bytes, ◌==◌}
use socketapi.Strings.Decimal.{pos}
use socketapi.Association.{new_association}
use socketapi.Sctp.{Socket, Incoming, find_association}
use socketapi.Sctp.Notify.{queue_notification}
use socketapi.Sctp.Accept.{check_auto_connect, peel_off, search_waiting, contains_id}
use socketapi.Sctp.Accept.Outcomes.{
  AllTaken, is_among, check_auto_connect-Drained, search_waiting-first, peel_off-own_queue,
}
use socketapi.Sctp.Send.{SendCall, Sender, send_known}
use socketapi.Sctp.Send.Uses.{UseAfter, send_known-UseAfter}
use socketapi.Sctp.Tests.{no_callback, blank, peer, server, one_socket, small_packet, three_bytes}

abbrev request : Incoming
request = record { incoming_id = 4; notification = blank }

check_auto_connect-Drained_example :
    (t : Socket) × (check_auto_connect
        (record server { auto_connect = true; requests = request ∷ [] })
      ≡ some t)
    × (t.requests ≡ [])
    × AllTaken (request ∷ []) (5 ∷ []) t.connectionless
    × (t.listening ≡ true)
check_auto_connect-Drained_example =
    check_auto_connect-Drained (request ∷ []) server (omega arith, tt)

peel_off-own_queue_example :
    (queue_notification 5 three_bytes (peel_off 5 server).1).global_queue ≡ []
unfolding peel_off find_association contains_id new_association
peel_off-own_queue_example = peel_off-own_queue 5 three_bytes server refl

abbrev same_head : Bytes → Bytes → Bool
same_head (x ∷ xs) (y ∷ ys) = x == y
same_head [] ys = false
same_head (x ∷ xs) [] = false

search_waiting-first_example :
    (search_waiting same_head ((1 ∷ []) ∷ (2 ∷ []) ∷ []) ((2 ∷ []) ∷ [])
      ≡ is_among same_head (1 ∷ []) ((2 ∷ []) ∷ []))
    × (search_waiting same_head [] ((2 ∷ []) ∷ []) ≡ false)
search_waiting-first_example =
    search_waiting-first same_head (1 ∷ []) ((2 ∷ []) ∷ []) ((2 ∷ []) ∷ [])

abbrev sending : SendCall
sending = record {
  packet = small_packet;
  no_data = false;
  msg_abort = false;
  msg_eof = false;
  has_destinations = false;
  send_id = 5;
}

abbrev small_sender : Sender
small_sender = record {
  search = λ ids s. none;
  associate = λ s m. (none, s, m);
  send = λ p. pos 1;
  has_memory = true;
  now = 500;
  lost = no_callback;
}

send_known-UseAfter_example : UseAfter 5 0 (send_known small_sender sending peer server one_socket)
unfolding find_association new_association
send_known-UseAfter_example =
    send_known-UseAfter small_sender sending peer server one_socket refl (omega arith) refl refl
      refl
