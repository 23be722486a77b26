-- ===== src/Descriptors/Calls.antt =====
-- Calls on one descriptor (socketapi/sctpsocketwrapper.cc): bindToAny, ext_bind, sctp_bindx,
-- ext_listen, ext_fcntl and ext_ioctl.
use socketapi.Prelude.{
  ℕ, zero, suc, ◌+◌, ◌-◌, ◌%◌, ◌^◌, Bool, true, false, ◌||◌, Option, none, some, List, [], ◌∷◌,
  length, ◌==◌, ltb, if◌then◌else◌,
}
use socketapi.Strings.Decimal.{ℤ, pos, neg}
use socketapi.Internet.System.{Sockaddr}
use socketapi.Addresses.{SocketAddress}
use socketapi.Descriptors.{
  SctpDesc, Descriptor, invalid, system, sctp, bind_socket, listen_socket, socket_address,
  association_address, World, note_effect, set_slot, errno_result, get_socket, failed,
}
use socketapi.Descriptors.Packing.{Memory, unpack_sockaddr}

-- What the SCTP classes return to the calls: getID of a socket, or 0; bind of a socket to a port and
-- a list of addresses; addAddress (true) and deleteAddress (false) of a socket and of an association;
-- and createSocketAddress and getPort.
pub record Api : Type 0 where
  pub id_of : ℕ → ℕ
  pub bind : ℕ → ℕ → List SocketAddress → ℤ
  pub change_socket : ℕ → Bool → SocketAddress → Bool
  pub change_association : ℕ → Bool → SocketAddress → Bool
  pub make_address : Sockaddr → Option SocketAddress
  pub port_of : SocketAddress → ℕ
  pub any_address : ℕ → SocketAddress
  pub max_num_addresses : ℕ

-- The loop of bindToAny over `n` random numbers from the one with the index `i`. The result is that
-- of the last bind.
unfoldable pub bind_any_loop : Api → (ℕ → ℕ) → SctpDesc → ℕ → ℕ → ℕ → ℤ → World → World × ℤ
bind_any_loop api random d p zero i result w = (w, result)
bind_any_loop api random d p (suc n) i result w =
    let port = 16384 + random i % (61000 - 16384) in
    let v = note_effect (bind_socket p port d.sinit_max_instreams d.sinit_num_ostreams) w in
    let tried = api.bind p port (api.any_address port ∷ []) in
    let rest = bind_any_loop api random d p n (i + 1) tried v in
    if failed tried then rest else (v, tried)

unfoldable pub bind_to_any : Api → (ℕ → ℕ) → SctpDesc → World → World × ℤ
bind_to_any api random d w = elim (d.socket_ptr) [
  | none ↦ errno_result w (pos 0)
  | some p ↦
      let (v, result) = bind_any_loop api random d p 50000 0 (pos 0) w in
      if api.id_of p == 0 then errno_result v result else errno_result w (pos 0)
]

-- ext_listen, given what listen returned. The result of bindToAny is not looked at.
unfoldable pub listen_on : Api → (ℕ → ℕ) → ℕ → ℤ → Descriptor → World → World × ℤ
listen_on api random backlog listened invalid w = errno_result w (neg 6)
listen_on api random backlog listened (system fd) w = (w, listened)
listen_on api random backlog listened (sctp d) w =
    let v = (bind_to_any api random d w).0 in
    elim (d.socket_ptr) [
      | none ↦ errno_result v (neg 95)
      | some p ↦ errno_result (note_effect (listen_socket p backlog) v) (pos 0)
    ]

unfoldable pub ext_listen : Api → (ℕ → ℕ) → ℕ → ℤ → ℤ → World → World × ℤ
ext_listen api random backlog listened sockfd w = elim (get_socket sockfd) [
  | none ↦ errno_result w (neg 9)
  | some k ↦ listen_on api random backlog listened (w.sockets k) w
]

-- The addresses of a list, or `none` where one is bad.
unfoldable pub make_addresses : Api → List Sockaddr → Option (List SocketAddress)
make_addresses api [] = some []
make_addresses api (s ∷ ss) = elim (api.make_address s) [
  | none ↦ none
  | some a ↦ elim (make_addresses api ss) [ none ↦ none | some xs ↦ some (a ∷ xs) ]
]

-- A loop over addresses that ends at the first one that is refused: how many calls are made, and
-- the result 0 or -EINVAL.
unfoldable pub change_loop : (SocketAddress → Bool) → List SocketAddress → ℕ × ℤ
change_loop ok [] = (0, pos 0)
change_loop ok (a ∷ xs) =
    let (n, result) = change_loop ok xs in if ok a then (n + 1, result) else (1, neg 22)

-- The bound socket adds or deletes the addresses, through its association if it has one.
unfoldable pub change_addresses : Api → SctpDesc → ℕ → Bool → List SocketAddress → World → World × ℤ
change_addresses api d p add xs w = elim (d.association_ptr) [
  | some a ↦
      let (n, result) = change_loop (api.change_association a add) xs in
      (note_effect (association_address a add n) w, result)
  | none ↦
      let (n, result) = change_loop (api.change_socket p add) xs in
      (note_effect (socket_address p add n) w, result)
]

-- The part of sctp_bindx behind the addresses. SCTP_BINDX_ADD_ADDR is 1, SCTP_BINDX_REM_ADDR 2.
unfoldable pub bindx_addresses : Api → SctpDesc → ℕ → ℕ → List SocketAddress → World → World × ℤ
bindx_addresses api d p flags [] w = errno_result w (neg 22)
bindx_addresses api d p flags (a ∷ xs) w =
    let port = api.port_of a in
    let bound = note_effect (bind_socket p port d.sinit_max_instreams d.sinit_num_ostreams) w in
    let (added, add_result) = change_addresses api d p true (a ∷ xs) w in
    let (removed, remove_result) = change_addresses api d p false (a ∷ xs) w in
    if api.id_of p == 0
    then if flags == 1
      then errno_result bound (api.bind p port (a ∷ xs))
      else errno_result w (neg 22)
    else if flags == 1
    then errno_result added add_result
    else if flags == 2
    then errno_result removed remove_result
    else errno_result w (neg 22)

unfoldable pub bindx_on : Api → List Sockaddr → ℕ → ℤ → Descriptor → World → World × ℤ
bindx_on api addrs flags bound invalid w = errno_result w (neg 6)
bindx_on api addrs flags bound (system fd) w = (w, bound)
bindx_on api addrs flags bound (sctp d) w =
    let count = length addrs in
    let bad_count = ltb count 1 || ltb api.max_num_addresses count in
    elim (d.socket_ptr) [
      | none ↦ if bad_count then errno_result w (neg 22) else errno_result w (neg 9)
      | some p ↦
          let done : World × ℤ = elim (make_addresses api addrs) [
            | none ↦ errno_result w (neg 12)
            | some xs ↦ bindx_addresses api d p flags xs w
          ] in
          if bad_count then errno_result w (neg 22) else done
    ]

-- sctp_bindx, given what bind returned; `none` where the process ends for an unknown family.
unfoldable pub sctp_bindx : Api → Memory → ℕ → ℕ → ℤ → ℤ → World → Option (World × ℤ)
sctp_bindx api packed count flags bound sockfd w = elim (unpack_sockaddr count 0 packed) [
  | none ↦ none
  | some addrs ↦ elim (get_socket sockfd) [
    | none ↦ some (errno_result w (neg 9))
    | some k ↦ some (bindx_on api addrs flags bound (w.sockets k) w)
  ]
]

-- ext_bind.
unfoldable pub ext_bind : Api → Memory → ℤ → ℤ → World → Option (World × ℤ)
ext_bind api address bound sockfd w = elim (get_socket sockfd) [
  | none ↦ some (errno_result w (neg 9))
  | some k ↦ elim (w.sockets k) [
    | invalid ↦ some (errno_result w (neg 6))
    | system fd ↦ some (w, bound)
    | sctp d ↦ sctp_bindx api address 1 1 bound sockfd w
  ]
]

-- The bits of an int as a number.
abbrev pub as_int : ℕ → ℤ
as_int n = if ltb n 0x8000_0000 then pos n else neg (0x1_0000_0000 - n)

-- ext_fcntl, given what fcntl returned. F_GETFL is 3 and F_SETFL is 4; Flags are the bits of an int.
unfoldable pub fcntl_on : ℕ → ℕ → ℕ → ℤ → Descriptor → World → World × ℤ
fcntl_on k cmd arg made invalid w = errno_result w (neg 6)
fcntl_on k cmd arg made (system fd) w = (w, made)
fcntl_on k cmd arg made (sctp d) w =
    if cmd == 3
    then errno_result w (as_int d.flags)
    else if cmd == 4
    then errno_result
        (record w { sockets = set_slot w.sockets k (sctp (record d { flags = arg % 2 ^ 32 })) })
        (pos 0)
    else errno_result w (neg 95)

unfoldable pub ext_fcntl : ℕ → ℕ → ℤ → ℤ → World → World × ℤ
ext_fcntl cmd arg made sockfd w = elim (get_socket sockfd) [
  | none ↦ errno_result w (neg 9)
  | some k ↦ fcntl_on k cmd arg made (w.sockets k) w
]

-- ext_ioctl, given what ioctl returned.
unfoldable pub ioctl_on : ℤ → Descriptor → World → World × ℤ
ioctl_on made invalid w = errno_result w (neg 6)
ioctl_on made (system fd) w = (w, made)
ioctl_on made (sctp d) w = errno_result w (neg 95)

unfoldable pub ext_ioctl : ℤ → ℤ → World → World × ℤ
ext_ioctl made sockfd w = elim (get_socket sockfd) [
  | none ↦ errno_result w (neg 9)
  | some k ↦ ioctl_on made (w.sockets k) w
]
