-- ===== src/Messages/Sending.antt =====
-- ext_sendmsg and the calls on top of it (socketapi/sctpsocketwrapper.cc: ext_sendmsg, ext_sendto,
-- sctp_sendmsg, sctp_send).
use socketapi.Prelude.{
  ℕ, Bool, true, false, ◌&&◌, List, [], ◌∷◌, Option, none, some, Bytes, ◌==◌, if◌then◌else◌,
}
use socketapi.Strings.Decimal.{ℤ, pos, negsuc, neg}
use socketapi.Internet.{has_flag}
use socketapi.Internet.System.{Sockaddr, sock_in, sock_in6, sock_un, sock_other}
use socketapi.Addresses.{SocketAddress}
use socketapi.Descriptors.{
  SctpDesc, Descriptor, invalid, system, sctp, World, set_slot, errno_result, get_socket,
}
use socketapi.Descriptors.Calls.{bind_to_any}
use socketapi.Options.Values.{SndRcvInfo, InitMsg}
use socketapi.Messages.Gather.{gather}
use socketapi.Messages.{
  Cmsg, Flags, SendApi, SendHeader, SendRequest, infinite_lifetime, init, is_blocking, msg_dontwait,
  msg_multiaddrs, msg_pr_sctp_ttl, or_flags, other_cmsg, short_sndrcv, sndrcv,
}

-- What the loop over the control messages leaves: the descriptor, and the SCTP_SNDRCV or an error;
-- `none` where the process ends, since there is no socket.
abbrev pub Controlled : Type 0
Controlled = Option (SctpDesc × Option SndRcvInfo × ℤ)

abbrev first_address : SendApi → Option (List Sockaddr) → Option SocketAddress
first_address api none = none
first_address api (some []) = none
first_address api (some (s ∷ ss)) = api.make_address s

abbrev is_given : Option (List Sockaddr) → Bool
is_given none = false
is_given (some ss) = true

-- SCTP_INIT on a connection-oriented descriptor, with an address: -EBUSY, -EADDRNOTAVAIL and
-- -ENOTCONN are -16, -99 and -107.
unfoldable pub connect_by_init :
    SendApi → Option (List Sockaddr) → InitMsg → SctpDesc → Option (SctpDesc × ℤ)
connect_by_init api name x d = elim (d.association_ptr) [
  | some a ↦ some (d, neg 16)
  | none ↦ elim (first_address api name) [
    | none ↦ some (d, neg 99)
    | some y ↦ elim (d.socket_ptr) [
      | none ↦ none
      | some p ↦
          elim (api.associate p x.num_ostreams x.max_attempts x.max_init_timeo y (is_blocking d)) [
            | none ↦ some (d, neg 107)
            | some a ↦ some (record d { association_ptr = some a }, pos 0)
          ]
    ]
  ]
]

abbrev pub with_init : SctpDesc → InitMsg → SctpDesc
with_init d x = record d {
  sinit_num_ostreams = x.num_ostreams;
  sinit_max_instreams = x.max_instreams;
  sinit_max_attempts = x.max_attempts;
  sinit_max_init_timeo = x.max_init_timeo;
}

unfoldable pub init_step :
    SendApi → Option (List Sockaddr) → InitMsg → SctpDesc → Option (SctpDesc × ℤ)
init_step api name x d =
    let e = with_init d x in
    let connected = connect_by_init api name x e in
    if d.connection_oriented && is_given name then connected else some (e, pos 0)

unfoldable pub control_loop :
    SendApi → Option (List Sockaddr) → List Cmsg → SctpDesc → Option SndRcvInfo → Controlled
control_loop api name [] d info = some (d, info, pos 0)
control_loop api name (sndrcv x ∷ cs) d info = control_loop api name cs d (some x)
control_loop api name (short_sndrcv ∷ cs) d info = some (d, info, neg 22)
control_loop api name (init x ∷ cs) d info = elim (init_step api name x d) [
  | none ↦ none
  | some (e, pos n) ↦ control_loop api name cs e info
  | some (e, negsuc n) ↦ some (e, info, negsuc n)
]
control_loop api name (other_cmsg ∷ cs) d info = control_loop api name cs d info

-- How sending ends: with an error, or with a call of sendTo or of send.
pub data SendEnd : Type 0 where
  error : ℤ → SendEnd
  by_socket by_association : ℕ → SendRequest → SendEnd

-- The addresses of MSG_MULTIADDRS, which are those of IPv4 and IPv6.
unfoldable pub multi_addresses : SendApi → List Sockaddr → Option (List SocketAddress)
multi_addresses api [] = some []
multi_addresses api (s ∷ ss) =
    let rest = multi_addresses api ss in
    elim (api.make_address s) [
      | none ↦ none
      | some a ↦
          let more : Option (List SocketAddress) = elim rest [
            | none ↦ none
            | some xs ↦ some (a ∷ xs)
          ] in
          if is_inet s then more else none
    ]
  where
    is_inet : Sockaddr → Bool
    is_inet (sock_in port a0 a1) = true
    is_inet (sock_in6 port flow h scope) = true
    is_inet (sock_un path) = false
    is_inet (sock_other n) = false

-- The destinations; the list of one address that cannot be made is empty.
abbrev pub destinations_of : SendApi → Bool → List Sockaddr → Option (List SocketAddress)
destinations_of api true ss = multi_addresses api ss
destinations_of api false ss = elim (first_address api (some ss)) [
  | none ↦ some []
  | some a ↦ some (a ∷ [])
]

abbrev pub info_number : (SndRcvInfo → ℕ) → Option SndRcvInfo → ℕ
info_number f none = 0
info_number f (some x) = f x

-- The flags of a call with those of the SCTP_SNDRCV and the descriptor's O_NONBLOCK.
abbrev pub all_flags : (ℕ → Flags) → SctpDesc → Option SndRcvInfo → Flags → Flags
all_flags bits d none f = or_flags f (λ i. has_flag d.flags 2048 && i == msg_dontwait)
all_flags bits d (some x) f =
    or_flags (or_flags f (bits x.sinfo_flags)) (λ i. has_flag d.flags 2048 && i == msg_dontwait)

abbrev pub lifetime_of : (ℕ → Flags) → Option SndRcvInfo → ℕ
lifetime_of bits none = infinite_lifetime
lifetime_of bits (some x) =
    if bits x.sinfo_flags msg_pr_sctp_ttl then x.sinfo_timetolive else infinite_lifetime

abbrev pub is_none : Option SndRcvInfo → Bool
is_none none = true
is_none (some x) = false

abbrev pub request_of :
    (ℕ → Flags)
    → SctpDesc
    → Bytes
    → Flags
    → Option SndRcvInfo
    → Option (List SocketAddress)
    → SendRequest
request_of bits d bytes flags info to = record {
  payload = bytes;
  flags = flags;
  send_assoc_id = info_number (λ x. x.sinfo_assoc_id) info;
  stream = info_number (λ x. x.sinfo_stream) info;
  ppid = info_number (λ x. x.sinfo_ppid) info;
  lifetime = lifetime_of bits info;
  max_attempts = d.sinit_max_attempts;
  max_init_timeo = d.sinit_max_init_timeo;
  use_defaults = is_none info;
  destinations = to;
  out_streams = d.sinit_num_ostreams;
}

-- Behind the control messages: to addresses, by the association, or by the socket.
unfoldable pub send_to_name :
    SendApi → (ℕ → Flags) → SctpDesc → Bytes → Flags → Option SndRcvInfo → List Sockaddr → SendEnd
send_to_name api bits d bytes flags info ss = elim (d.socket_ptr) [
  | none ↦ error (neg 9)
  | some p ↦ elim (destinations_of api (flags msg_multiaddrs) ss) [
    | none ↦ error (neg 22)
    | some to ↦ by_socket p (request_of bits d bytes flags info (some to))
  ]
]

unfoldable pub send_message :
    SendApi
    → (ℕ → Flags)
    → SctpDesc
    → Bytes
    → Flags
    → Option SndRcvInfo
    → Option (List Sockaddr)
    → SendEnd
send_message api bits d bytes flags info (some ss) = send_to_name api bits d bytes flags info ss
send_message api bits d bytes flags info none = elim (d.association_ptr) [
  | some a ↦ by_association a (request_of bits d bytes flags info none)
  | none ↦ elim (d.socket_ptr) [
    | none ↦ error (neg 9)
    | some p ↦ by_socket p (request_of bits d bytes flags info none)
  ]
]

-- The bytes of the only buffer; a message without a buffer reads behind the array.
abbrev pub only_buffer : List Bytes → Option Bytes
only_buffer [] = none
only_buffer (b ∷ bs) = some b

-- ext_sendmsg_singlebuffer on an SCTP descriptor: the descriptor and the end. The bits of
-- sinfo_flags are an argument.
unfoldable pub send_single :
    SendApi → (ℕ → Flags) → SctpDesc → SendHeader → Bytes → Flags → Option (SctpDesc × SendEnd)
send_single api bits d h bytes flags = elim (control_loop api h.msg_name h.control d none) [
  | none ↦ none
  | some (e, info, pos n) ↦ some (
    e,
    send_message api bits e bytes (all_flags bits e info (or_flags flags h.msg_flags)) info
        h.msg_name,
  )
  | some (e, info, negsuc n) ↦ some (e, error (negsuc n))
]

abbrev pub end_send : SendApi → SendEnd → World → World × ℤ
end_send api (error r) w = errno_result w r
end_send api (by_socket p q) w = errno_result w (api.socket_sends p q)
end_send api (by_association a q) w = errno_result w (api.association_sends a q)

-- ext_sendmsg on the descriptor in the slot `k`, where the system's sendmsg returns `made`. With more
-- than one buffer, the bytes are copied into one.
unfoldable pub send_on :
    SendApi → (ℕ → Flags) → ℕ → ℤ → Descriptor → SendHeader → Flags → World → Option (World × ℤ)
send_on api bits k made invalid h flags w = some (errno_result w (neg 6))
send_on api bits k made (system fd) h flags w = some (w, made)
send_on api bits k made (sctp d) h flags w =
    let v = (bind_to_any api.binder api.random d w).0 in
    elim (gather h.buffers) [
      | none ↦ none
      | some bytes ↦ elim (send_single api bits d h bytes flags) [
        | none ↦ none
        | some (e, end) ↦
            some (end_send api end (record v { sockets = set_slot v.sockets k (sctp e) }))
      ]
    ]

unfoldable pub ext_sendmsg :
    SendApi → (ℕ → Flags) → ℤ → ℤ → SendHeader → Flags → World → Option (World × ℤ)
ext_sendmsg api bits made sockfd h flags w = elim (get_socket sockfd) [
  | none ↦ some (errno_result w (neg 9))
  | some k ↦ send_on api bits k made (w.sockets k) h flags w
]

-- The header of ext_sendto.
abbrev pub sendto_header : Bytes → Flags → Option (List Sockaddr) → SendHeader
sendto_header bytes flags to = record {
  msg_name = to;
  buffers = bytes ∷ [];
  control = [];
  msg_flags = flags;
}

-- The headers of sctp_sendmsg and of sctp_send, which are sent with the flags 0.
unfoldable pub sctp_sendmsg_header :
    (ℕ → Flags) → Bytes → Option (List Sockaddr) → ℕ → ℕ → ℕ → ℕ → SendHeader
sctp_sendmsg_header bits bytes to ppid flags stream timetolive = record {
  msg_name = to;
  buffers = bytes ∷ [];
  control =
      sndrcv (record {
        sinfo_stream = stream;
        sinfo_ssn = 0;
        sinfo_flags = flags;
        sinfo_ppid = ppid;
        sinfo_context = 0;
        sinfo_timetolive = timetolive;
        sinfo_tsn = 0;
        sinfo_cumtsn = 0;
        sinfo_assoc_id = 0;
      })
      ∷ [];
  msg_flags = bits flags;
}

unfoldable pub sctp_send_header : Bytes → SndRcvInfo → Flags → SendHeader
sctp_send_header bytes info flags = record {
  msg_name = none;
  buffers = bytes ∷ [];
  control = sndrcv info ∷ [];
  msg_flags = flags;
}
