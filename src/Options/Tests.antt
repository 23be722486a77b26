-- ===== src/Options/Tests.antt =====
-- The theorems on the options at one association with two paths, and a library that keeps its status.
use socketapi.Prelude.{
  ◌⊎◌, ℕ, zero, suc, ◌≡◌, refl, inr, true, false, ◌==◌, Option, none, some, [], ◌∷◌, if◌then◌else◌,
  arith,
}
use socketapi.Strings.Decimal.{pos, neg}
use socketapi.Strings.{eq_text, string_compare}
use socketapi.Internet.{InternetAddress, zero_host}
use socketapi.Addresses.{local}
use socketapi.Unix.{unix_reset}
use socketapi.Association.{StreamTimeout, new_association}
use socketapi.Descriptors.{SctpDesc, sctp, invalid, World, new_desc, get_socket}
use socketapi.Options.{AssocStatus, PathStatus, SctpLib, AddressApi, Objects}
use socketapi.Options.Paths.{path_loop, path_index, set_primary}
use socketapi.Options.Methods.{get_assoc_status, set_assoc_status}
use socketapi.Options.Access.{get_assoc_params, set_assoc_params, target, by_association, params_of}
use socketapi.Options.Values.{
  RtoInfo, Linger, InitMsg, rtoinfo, so_linger, initmsg, autoclose, size_rto_info, size_linger,
  size_init_msg, size_int,
}
use socketapi.Options.Read.{get_rto_info}
use socketapi.Options.Write.{set_rto_info}
use socketapi.Options.RoundTrip.{Remembers}
use socketapi.Options.Calls.{get_rto_info-set}
use socketapi.Options.Held.{Read, ext_getsockopt-set}
use socketapi.Options.Search.{Searched, path_index-Searched, set_primary-Named}

abbrev fresh_memory : InternetAddress
fresh_memory = record { host = zero_host; port = 0; scope_id = 0; valid = true; print_format = 0 }

abbrev some_status : AssocStatus
some_status = record {
  state = 4;
  receiver_window = 9000;
  retransmission_chunks = 0;
  reception_chunks = 0;
  in_streams = 2;
  out_streams = 2;
  max_send_queue = 1000;
  max_recv_queue = 2000;
  rto_initial = 3000;
  rto_min = 1000;
  rto_max = 500;
  max_retransmits = 10;
  destination_paths = 2;
  cookie_life = 60000;
  delay = 200;
  ip_tos = 0;
  path_ids = λ i. i;
}

abbrev path_to : ℕ → PathStatus
path_to c = record {
  destination = c ∷ [];
  path_state = 0;
  cwnd = 3000;
  srtt = 10;
  rto = 1000;
  mtu = 1500;
  heartbeat_interval = 30000;
}

abbrev two_paths : ℕ → Option PathStatus
two_paths zero = some (path_to 97)
two_paths (suc zero) = some (path_to 98)
two_paths (suc (suc n)) = none

abbrev small_lib : SctpLib AssocStatus
small_lib = record {
  get_status = λ s id. some s;
  set_status = λ s id p. (p, true);
  get_defaults = λ s id. none;
  set_defaults = λ s id x. (s, false);
  path_status = λ s id i. two_paths i;
  get_primary = λ s id. pos 0;
  change_primary = λ s id i. (record s { ip_tos = i }, true);
  change_remote_primary = λ s id a. (s, false);
  request_heartbeat = λ s id i. (s, true);
  change_heartbeat = λ s id i b n. (s, true);
}

small_lib-Remembers : Remembers small_lib
unfolding Remembers
small_lib-Remembers s id p = inr (
  p,
  refl,
  record {
    same_rto_initial = refl;
    same_rto_min = refl;
    same_rto_max = refl;
    same_max_retransmits = refl;
    same_delay = refl;
    same_max_send_queue = refl;
    same_max_recv_queue = refl;
  },
)

-- The text of every address is "b".
abbrev small_api : AddressApi
small_api = record {
  memory = fresh_memory;
  of_text = λ t. none;
  text_of = λ a. 98 ∷ [];
  text_with_port = λ a. 98 ∷ [];
  system_address = λ a n m. none;
  max_ip_len = 46;
  rounds = 5;
}

-- The association waits for its INIT to be answered, so that its maximum of the RTO is 60000.
abbrev small_objects : Objects AssocStatus
small_objects = record {
  associations = λ i. record (new_association 1 7 0 0) {
    rto_max_is_init_timeout = true;
    init_timeout = 500;
    rto_max = 60000;
  };
  socket_settings = λ i. record {
    instance_name = 1;
    event_flags = 0;
    auto_close = 0;
    traffic_class = 0;
    connectionless = [];
  };
  lib_state = some_status;
}

abbrev small_desc : SctpDesc
small_desc = new_desc 2 1 true 3

abbrev connected_desc : SctpDesc
connected_desc = record small_desc { association_ptr = some 5 }

abbrev small_world : World
small_world = record {
  sockets = λ i. if i == 4 then sctp small_desc else invalid;
  effects = [];
  errno = 0;
}

abbrev new_rto : RtoInfo
new_rto = record { srto_assoc_id = 0; srto_initial = 0; srto_max = 8000; srto_min = 700 }

get_rto_info-set_example :
    (p : AssocStatus) × (params_of small_lib (by_association 5) 0 small_objects ≡ some p)
    × (get_rto_info small_lib connected_desc new_rto 16
          (set_rto_info small_lib connected_desc new_rto small_objects).0
        ≡ (
          pos 0,
          rtoinfo (
              some (record {
                srto_assoc_id = 7;
                srto_initial = p.rto_initial;
                srto_max = 8000;
                srto_min = 700;
              })),
          size_rto_info,
        ))
unfolding target set_rto_info get_assoc_params get_assoc_status set_assoc_params set_assoc_status
    new_association
get_rto_info-set_example =
    get_rto_info-set small_lib connected_desc new_rto 16 small_objects small_lib-Remembers refl

abbrev no_timeouts : ℕ → StreamTimeout
no_timeouts i = record { valid = false; timeout = 0 }

abbrev one_init : InitMsg
one_init = record { num_ostreams = 4; max_instreams = 5; max_attempts = 6; max_init_timeo = 7 }

abbrev no_linger : Linger
no_linger = record { onoff = neg 3; linger = pos 2 }

ext_getsockopt-set_example :
    Read small_lib small_api
      (path_to 0)
      no_timeouts
      4
      (so_linger (some (record { onoff = pos 1; linger = pos 30 })))
      (so_linger (some no_linger))
      8
      size_linger
      small_objects
      small_world
    × Read small_lib small_api
        (path_to 0)
        no_timeouts
        4
        (initmsg (some one_init))
        (initmsg (some one_init))
        8
        size_init_msg
        small_objects
        small_world
    × ((small_desc.socket_ptr ≡ none)
        ⊎ Read small_lib small_api
            (path_to 0)
            no_timeouts
            4
            (autoclose (some 4000000000))
            (autoclose (some 0))
            4
            size_int
            small_objects
            small_world)
unfolding get_socket
ext_getsockopt-set_example =
    ext_getsockopt-set small_lib small_api (path_to 0) no_timeouts 4 1 30 4000000000 8 8 4 0
      one_init one_init no_linger small_desc small_objects small_world refl refl (omega arith)
      (omega arith) (omega arith) (omega arith) (omega arith)

path_index-Searched_example :
    Searched two_paths
      (λ i. i)
      (98 ∷ [])
      5
      0
      (path_index small_lib small_api 7 (some (local unix_reset)) some_status)
path_index-Searched_example =
    path_index-Searched small_lib small_api 7 (local unix_reset) some_status some_status refl

set_primary-Named_example :
    (i : ℕ) × (p : PathStatus) × (two_paths i ≡ some p)
    × (eq_text (some (98 ∷ [])) (some p.destination) ≡ true)
    × (small_lib.change_primary some_status 7 i ≡ (record some_status { ip_tos = 1 }, true))
unfolding set_primary path_index eq_text path_loop string_compare
set_primary-Named_example =
    set_primary-Named small_lib small_api 7 (local unix_reset) some_status
      (record some_status { ip_tos = 1 }) refl
