-- ===== src/Descriptors/Connect.antt =====
-- ext_connect, ext_connectx and ext_shutdown (socketapi/sctpsocketwrapper.cc).
use socketapi.Prelude.{ℕ, zero, suc, Bool, not, Option, none, some, List, if◌then◌else◌}
use socketapi.Strings.Decimal.{ℤ, pos, negsuc, neg}
use socketapi.Internet.{has_flag}
use socketapi.Internet.System.{Sockaddr}
use socketapi.Addresses.{SocketAddress}
use socketapi.Descriptors.{
  SctpDesc, Descriptor, invalid, system, sctp, shutdown_association, World, note_effect, set_slot,
  errno_result, get_socket,
}
use socketapi.Descriptors.Packing.{Memory, unpack_sockaddr}
use socketapi.Descriptors.Calls.{Api, bind_to_any, make_addresses}

-- ext_shutdown, given what shutdown returned. The direction is not looked at.
unfoldable pub shutdown_on : ℤ → Descriptor → World → World × ℤ
shutdown_on shut invalid w = errno_result w (neg 6)
shutdown_on shut (system fd) w = (w, shut)
shutdown_on shut (sctp d) w = elim (d.association_ptr) [
  | none ↦ errno_result w (neg 95)
  | some a ↦ errno_result (note_effect (shutdown_association a) w) (pos 0)
]

unfoldable pub ext_shutdown : ℤ → ℤ → World → World × ℤ
ext_shutdown shut sockfd w = elim (get_socket sockfd) [
  | none ↦ errno_result w (neg 9)
  | some k ↦ shutdown_on shut (w.sockets k) w
]

-- What the SCTP classes return: associate of a socket with the streams, the attempts, the timeout, the
-- addresses and whether it waits; sendTo of nothing, with MSG_DONTWAIT or not, the attempts, the
-- timeout, the addresses and the streams; and getID of an association.
pub record ConnectApi : Type 0 where
  pub binder : Api
  pub random : ℕ → ℕ
  pub associate : ℕ → ℕ → ℕ → ℕ → List SocketAddress → Bool → Option ℕ
  pub send_nothing : ℕ → Bool → ℕ → ℕ → List SocketAddress → ℕ → ℤ
  pub association_id : ℕ → ℕ

abbrev pub is_nonblocking : SctpDesc → Bool
is_nonblocking d = has_flag d.flags 2048

-- The result, with what is written to `id`, if anything is.
abbrev pub with_id : World × ℤ → Option ℕ → World × ℤ × Option ℕ
with_id (w, r) id = (w, r, id)

abbrev pub associated : ConnectApi → SctpDesc → ℕ → List SocketAddress → Option ℕ
associated api d p xs =
    api.associate p d.sinit_num_ostreams d.sinit_max_attempts d.sinit_max_init_timeo xs
      (not (is_nonblocking d))

-- The end of a connection-oriented connect: -EIO is -5 and -EINPROGRESS -115.
unfoldable pub connect_end : ConnectApi → Bool → Option ℕ → World → World × ℤ × Option ℕ
connect_end api nonblocking none w = with_id (errno_result w (neg 5)) (some 0)
connect_end api nonblocking (some a) w =
    if nonblocking
    then with_id (errno_result w (neg 115)) (some 0)
    else with_id (errno_result w (pos 0)) (some (api.association_id a))

-- The result of a connect by sendTo.
unfoldable pub sent_result : Bool → ℤ → ℤ
sent_result nonblocking (pos zero) = if nonblocking then neg 115 else pos 0
sent_result nonblocking (pos (suc n)) = pos (suc n)
sent_result nonblocking (negsuc n) = negsuc n

-- The socket of the descriptor in the slot `k`, with its addresses made.
unfoldable pub connect_socket :
    ConnectApi → ℕ → SctpDesc → ℕ → List SocketAddress → World → World × ℤ × Option ℕ
connect_socket api k d p xs w =
    let made = associated api d p xs in
    let e = record d { association_ptr = made } in
    let sent =
      api.send_nothing p (is_nonblocking d) d.sinit_max_attempts d.sinit_max_init_timeo xs
        d.sinit_num_ostreams in
    if d.connection_oriented
    then connect_end api (is_nonblocking d) made
        (record w { sockets = set_slot w.sockets k (sctp e) })
    else with_id (errno_result w (sent_result (is_nonblocking d) sent)) (some 0)

unfoldable pub connectx_on :
    ConnectApi → List Sockaddr → ℕ → Descriptor → World → World × ℤ × Option ℕ
connectx_on api addrs k invalid w = with_id (errno_result w (neg 6)) none
connectx_on api addrs k (system fd) w = with_id (errno_result w (neg 95)) none
connectx_on api addrs k (sctp d) w =
    let v = (bind_to_any api.binder api.random d w).0 in
    elim (d.socket_ptr) [
      | none ↦ with_id (errno_result v (neg 9)) (some 0)
      | some p ↦ elim (make_addresses api.binder addrs) [
        | none ↦ with_id (errno_result v (neg 22)) (some 0)
        | some xs ↦ connect_socket api k d p xs v
      ]
    ]

-- ext_connectx of the addresses that are unpacked; `none` where the process ends for an unknown
-- family.
unfoldable pub ext_connectx : ConnectApi → Memory → ℕ → ℤ → World → Option (World × ℤ × Option ℕ)
ext_connectx api packed count sockfd w = elim (unpack_sockaddr count 0 packed) [
  | none ↦ none
  | some addrs ↦ elim (get_socket sockfd) [
    | none ↦ some (with_id (errno_result w (neg 9)) none)
    | some k ↦ some (connectx_on api addrs k (w.sockets k) w)
  ]
]

-- ext_connect, given what connect returned, which is also called on a slot that is not in use.
unfoldable pub ext_connect : ConnectApi → Memory → ℤ → ℤ → World → Option (World × ℤ)
ext_connect api address connected sockfd w = elim (get_socket sockfd) [
  | none ↦ some (errno_result w (neg 9))
  | some k ↦ elim (w.sockets k) [
    | invalid ↦ some (w, connected)
    | system fd ↦ some (w, connected)
    | sctp d ↦ elim (ext_connectx api address 1 sockfd w) [
      | none ↦ none
      | some (v, r, id) ↦ some (v, r)
    ]
  ]
]
