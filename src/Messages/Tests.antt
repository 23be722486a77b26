-- ===== src/Messages/Tests.antt =====
-- The theorems on messages at a few bytes.
use socketapi.Prelude.{
  ltb, not, ℕ, ◌+◌, ◌≡◌, refl, true, ◌&&◌, ◌==◌, [], ◌∷◌, none, some, length, if◌then◌else◌,
}
use socketapi.Strings.Decimal.{pos, neg}
use socketapi.Addresses.{local}
use socketapi.Unix.{unix_reset}
use socketapi.Descriptors.{
  SctpDesc, sctp, invalid, World, new_desc, get_socket, errno_result, set_slot,
}
use socketapi.Descriptors.Calls.{Api, bind_to_any}
use socketapi.Messages.{Flags, no_flags, SendApi}
use socketapi.Messages.Sending.{ext_sendmsg, sctp_sendmsg_header}
use socketapi.Messages.Sent.{sctp_sendmsg-Sent}
use socketapi.Messages.Receive.{RecvApi, RecvHeader}

abbrev bound_api : Api
bound_api = record {
  id_of = λ p. 1;
  bind = λ p n xs. pos 0;
  change_socket = λ p b a. true;
  change_association = λ p b a. true;
  make_address = λ s. none;
  port_of = λ a. 0;
  any_address = λ n. local unix_reset;
  max_num_addresses = 20;
}

-- The association takes all bytes.
abbrev send_api : SendApi
send_api = record {
  binder = bound_api;
  random = λ i. i;
  make_address = λ s. none;
  associate = λ p n a t x b. none;
  socket_sends = λ p q. neg 5;
  association_sends = λ a q. pos (length q.payload);
}

abbrev flag_bits : ℕ → Flags
flag_bits n i = n == 0x2000 && i == 13

abbrev connected : SctpDesc
connected = record (new_desc 2 1 true 3) { association_ptr = some 9 }

abbrev one_socket : World
one_socket = record {
  sockets = λ i. if i == 4 then sctp connected else invalid;
  effects = [];
  errno = 0;
}

sctp_sendmsg-Sent_example :
    ext_sendmsg send_api flag_bits
      (neg 1)
      (pos 4)
      (sctp_sendmsg_header flag_bits (7 ∷ 8 ∷ []) none 51 0x2000 2 100)
      no_flags
      one_socket
    ≡ some (
        let v = (bind_to_any bound_api (λ i. i) connected one_socket).0 in
        errno_result (record v { sockets = set_slot v.sockets 4 (sctp connected) }) (pos 2))
unfolding get_socket
sctp_sendmsg-Sent_example =
    sctp_sendmsg-Sent send_api flag_bits (neg 1) 4 9 51 0x2000 2 100 connected (7 ∷ 8 ∷ [])
      one_socket refl refl refl

-- The messages 65 and 66 wait, of one byte each, and then none: EAGAIN. A call with no room fails.
abbrev byte_api : RecvApi ℕ
byte_api = record {
  receive = λ t size f n.
      let given = ltb n 67 && not (size == 0) in
      (
        if given then n + 1 else n,
        record {
          result = if given then pos 0 else if size == 0 then neg 22 else neg 11;
          bytes = if given then n ∷ [] else [];
          flags_after = λ i. given && i == 7;
          from_stream = 0;
          from_ppid = 0;
          from_ssn = n;
          from_tsn = n;
          from_assoc = 7;
          remote = none;
        },
      );
  notification_flags = λ t n. 1;
  write_address = λ a n m. none;
  flags_number = 0;
}

abbrev empty_header : RecvHeader
empty_header = record {
  name_space = none;
  control_space = some 100;
  header_flags = no_flags;
  name = none;
  info = none;
}
