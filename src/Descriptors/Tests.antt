-- ===== src/Descriptors/Tests.antt =====
-- The theorems on the table of descriptors at small tables.
use socketapi.Prelude.{
  ℕ, List, ◌||◌, ◌≤◌, ◌≡◌, ◌⊎◌, refl, true, false, some, none, [], ◌∷◌, ◌==◌, if◌then◌else◌, arith,
}
use socketapi.Strings.Decimal.{pos}
use socketapi.Internet.{mapped}
use socketapi.Internet.System.{Sockaddr, sock_in, sock_in6}
use socketapi.Descriptors.Packing.{
  Memory, required_size, required_by, copy_addresses, pack_sockaddr_storage, unpack_sockaddr,
  total_size, copied_by, unpacked_by, holds_bytes, same_sockaddr, unpack-pack, pack-Within,
}
use socketapi.Addresses.{local}
use socketapi.Descriptors.Calls.{make_addresses}
use socketapi.Descriptors.Connect.{ConnectApi, ext_connectx}
use socketapi.Descriptors.Connecting.{with_association, Replaces, ext_connectx-Replaces}
use socketapi.Descriptors.Names.{NameApi, ext_accept}
use socketapi.Descriptors.Accepting.{AcceptEnd, ext_accept-Accepted}
use socketapi.Descriptors.{
  SctpDesc, get_socket, Table, invalid, system, sctp, close_fd, World, set_slot, is_invalid,
  set_socket, ext_open, new_desc, initial_sockets, free_slot, errno_result,
}
use socketapi.Descriptors.Closing.{refers, holds, ext_close, ext_pipe}
use socketapi.Descriptors.Pipe.{PipeStored, PipeClosed, ext_close-ext_open, ext_pipe-Outcome}

abbrev first_world : World
first_world = record { sockets = initial_sockets; effects = []; errno = 0 }

-- A table whose slots 5 and 6 hold one SCTP socket object, and one in which the slots 0 and 5 do.
abbrev peeled_off : Table
peeled_off i = if i == 5 || i == 6 then sctp (new_desc 2 1 true 40) else invalid

abbrev in_slot_0 : Table
in_slot_0 i = if i == 5 || i == 0 then sctp (new_desc 2 1 true 40) else invalid

peeled_off-refers : refers peeled_off 5 40 6 ≡ true
unfolding refers holds
peeled_off-refers = refl

in_slot_0-alone : (i : ℕ) → 1 ≤ i → refers in_slot_0 5 40 i ≡ false
unfolding refers holds
in_slot_0-alone i h = ground arith

abbrev opened : World
opened = record first_world { sockets = set_slot initial_sockets 15 (system 7) }

ext_open-runs : ext_open 16 (pos 7) first_world ≡ (opened, pos 15)
unfolding ext_open errno_result set_socket free_slot is_invalid initial_sockets
ext_open-runs = refl

ext_close-ext_open_example :
    let (u, r) = ext_close (pos 15) opened in
    (r ≡ pos 0) × (u.effects ≡ close_fd 7 ∷ []) × (u.sockets 15 ≡ initial_sockets 15)
ext_close-ext_open_example = ext_close-ext_open 16 7 15 15 first_world opened ext_open-runs

ext_pipe-Outcome_example :
    PipeStored first_world 7 8 (ext_pipe 16 (some (7, 8)) (pos 0) (pos 0) first_world)
    ⊎ PipeClosed first_world 7 8 15 (ext_pipe 16 (some (7, 8)) (pos 0) (pos 0) first_world)
ext_pipe-Outcome_example = ext_pipe-Outcome 16 7 8 15 (pos 0) (pos 0) first_world

-- An IPv4 and an IPv6 address, and a socket that has one association to accept.
abbrev two_sockaddrs : List Sockaddr
two_sockaddrs = sock_in 80 1 2 ∷ sock_in6 80 0 (mapped 3 4) 0 ∷ []

abbrev nothing_there : Memory
nothing_there i = none

unpack-pack_example :
    (m : Memory) × (pack_sockaddr_storage nothing_there two_sockaddrs ≡ some (44, m))
    × (unpack_sockaddr 2 0 m ≡ some two_sockaddrs)
unfolding required_size required_by
unpack-pack_example = unpack-pack nothing_there two_sockaddrs 44 refl

abbrev packed_two : Memory
packed_two = copy_addresses two_sockaddrs 0 nothing_there

pack-Within_example : (packed_two 44 ≡ none) × (44 ≡ total_size two_sockaddrs)
unfolding required_size required_by pack_sockaddr_storage
pack-Within_example = pack-Within nothing_there packed_two two_sockaddrs 44 44 refl (omega arith)

abbrev one_peer : NameApi
one_peer = record {
  accept = λ p wait. some (70, []);
  local_of_socket = λ p. [];
  local_of_association = λ a. [];
  remote_of_association = λ a. [];
  system_address = λ a size domain. none;
}

abbrev listening_desc : SctpDesc
listening_desc = new_desc 2 1 true 60

abbrev listening_world : World
listening_world = record {
  sockets = λ i. if i == 3 then sctp listening_desc else invalid;
  effects = [];
  errno = 0;
}

ext_accept-Accepted_example :
    AcceptEnd one_peer 9 listening_desc 60 listening_world
      (ext_accept one_peer 9 none (pos 0) none (pos 3) listening_world)
unfolding get_socket
ext_accept-Accepted_example =
    ext_accept-Accepted one_peer 9 none (pos 0) none 3 60 listening_desc listening_world refl refl

-- An association 80 is made where the descriptor has the association 70.
abbrev one_association : ConnectApi
one_association = record {
  binder = record {
    id_of = λ p. 0;
    bind = λ p port xs. pos 0;
    change_socket = λ p add a. true;
    change_association = λ a add x. true;
    make_address = λ s. some (local (record { name = [] }));
    port_of = λ a. 0;
    any_address = λ port. local (record { name = [] });
    max_num_addresses = 20;
  };
  random = λ i. 5;
  associate = λ p streams attempts timeout xs waits. some 80;
  send_nothing = λ p waits attempts timeout xs streams. pos 0;
  association_id = λ a. a;
}

abbrev connected_desc : SctpDesc
connected_desc = with_association listening_desc (some 70)

abbrev connected_world : World
connected_world = record listening_world {
  sockets = λ i. if i == 3 then sctp connected_desc else invalid;
}

ext_connectx-Replaces_example :
    Replaces one_association 3 60 connected_desc
      (some 80)
      connected_world
      (ext_connectx one_association packed_two 2 (pos 3) connected_world)
unfolding get_socket unpack_sockaddr make_addresses copy_addresses copied_by unpacked_by holds_bytes
    same_sockaddr
ext_connectx-Replaces_example =
    ext_connectx-Replaces one_association packed_two 2 3 60 two_sockaddrs
      (local (record { name = [] }) ∷ local (record { name = [] }) ∷ []) connected_desc
      connected_world refl refl refl refl
