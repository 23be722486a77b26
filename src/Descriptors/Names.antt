-- ===== src/Descriptors/Names.antt =====
-- ext_accept, ext_getsockname and ext_getpeername (socketapi/sctpsocketwrapper.cc).
use socketapi.Prelude.{ℕ, Bool, true, not, Option, none, some, List, [], ◌∷◌, if◌then◌else◌}
use socketapi.Strings.Decimal.{ℤ, pos, negsuc, neg}
use socketapi.Internet.{has_flag}
use socketapi.Internet.System.{Sockaddr}
use socketapi.Addresses.{SocketAddress}
use socketapi.Descriptors.{
  SctpDesc, Descriptor, invalid, system, sctp, close_fd, set_association_flags, World, note_effect,
  errno_result, get_socket, set_socket, failed,
}

-- What the SCTP classes return: accept of a socket, which may wait, with the addresses of the peer;
-- the local addresses of a socket and of an association and the remote ones; and getSystemAddress
-- for a length and a domain.
pub record NameApi : Type 0 where
  pub accept : ℕ → Bool → Option (ℕ × List SocketAddress)
  pub local_of_socket : ℕ → List SocketAddress
  pub local_of_association : ℕ → List SocketAddress
  pub remote_of_association : ℕ → List SocketAddress
  pub system_address : SocketAddress → ℕ → ℕ → Option Sockaddr

-- The loop that looks for an address that fits: the first one that is written.
unfoldable pub first_fit : (SocketAddress → Option Sockaddr) → List SocketAddress → Option Sockaddr
first_fit write [] = none
first_fit write (a ∷ xs) =
    let rest = first_fit write xs in elim (write a) [ none ↦ rest | some s ↦ some s ]

-- The name, with `result` where there is no address; `space` is `none` where the caller gives none.
-- -ENAMETOOLONG is -36.
unfoldable pub name_result :
    NameApi → ℕ → Option ℕ → ℤ → List SocketAddress → World → World × ℤ × Option Sockaddr
name_result api domain space result [] w = let (v, r) = errno_result w result in (v, r, none)
name_result api domain none result (a ∷ xs) w = let (v, r) = errno_result w result in (v, r, none)
name_result api domain (some size) result (a ∷ xs) w =
    let found = first_fit (λ x. api.system_address x size domain) (a ∷ xs) in
    let (v, r) = errno_result w (elim (found) [ none ↦ neg 36 | some s ↦ pos 0 ]) in (v, r, found)

-- ext_getsockname of a descriptor, given what getsockname returned.
unfoldable pub sockname_on :
    NameApi → Option ℕ → ℤ × Option Sockaddr → Descriptor → World → World × ℤ × Option Sockaddr
sockname_on api space named invalid w = let (v, r) = errno_result w (neg 6) in (v, r, none)
sockname_on api space (r, s) (system fd) w = (w, r, s)
sockname_on api space named (sctp d) w =
    let of_socket : World × ℤ × Option Sockaddr = elim (d.socket_ptr) [
      | none ↦ name_result api d.domain space (neg 9) [] w
      | some p ↦ name_result api d.domain space (neg 6) (api.local_of_socket p) w
    ] in
    elim (d.association_ptr) [
      | none ↦ of_socket
      | some a ↦
          let of_association =
            name_result api d.domain space (neg 6) (api.local_of_association a) w in
          if d.connection_oriented then of_association else of_socket
    ]

unfoldable pub ext_getsockname :
    NameApi → Option ℕ → ℤ × Option Sockaddr → ℤ → World → World × ℤ × Option Sockaddr
ext_getsockname api space named sockfd w = elim (get_socket sockfd) [
  | none ↦ let (v, r) = errno_result w (neg 9) in (v, r, none)
  | some k ↦ sockname_on api space named (w.sockets k) w
]

-- ext_getpeername of a descriptor, given what getpeername returned.
unfoldable pub peername_on :
    NameApi → Option ℕ → ℤ × Option Sockaddr → Descriptor → World → World × ℤ × Option Sockaddr
peername_on api space named invalid w = let (v, r) = errno_result w (neg 6) in (v, r, none)
peername_on api space (r, s) (system fd) w = (w, r, s)
peername_on api space named (sctp d) w = elim (d.association_ptr) [
  | none ↦ name_result api d.domain space (neg 9) [] w
  | some a ↦ name_result api d.domain space (neg 6) (api.remote_of_association a) w
]

unfoldable pub ext_getpeername :
    NameApi → Option ℕ → ℤ × Option Sockaddr → ℤ → World → World × ℤ × Option Sockaddr
ext_getpeername api space named sockfd w = elim (get_socket sockfd) [
  | none ↦ let (v, r) = errno_result w (neg 9) in (v, r, none)
  | some k ↦ peername_on api space named (w.sockets k) w
]

-- The first address of the peer, where the caller gives space for one.
abbrev pub peer_name :
    (ℕ → SocketAddress → Option Sockaddr) → Option ℕ → List SocketAddress → Option Sockaddr
peer_name write none xs = none
peer_name write (some size) [] = none
peer_name write (some size) (x ∷ xs) = write size x

-- The descriptor that accept makes.
abbrev pub accepted_desc : SctpDesc → ℕ → SctpDesc
accepted_desc d a = record d { connection_oriented = true; association_ptr = some a }

-- ext_accept of an SCTP descriptor: the new descriptor, and the address of the peer. Where the table
-- is full, the association is deleted, and then its flags are set through a null pointer: `none`.
-- O_NONBLOCK is 2048, EWOULDBLOCK 11, and SCTP_RECVDATAIOEVNT 1.
unfoldable pub accept_sctp :
    NameApi → ℕ → Option ℕ → SctpDesc → World → Option (World × ℤ × Option Sockaddr)
accept_sctp api dtable space d w = elim (d.socket_ptr) [
  | none ↦ let (v, r) = errno_result w (neg 95) in some (v, r, none)
  | some p ↦ elim (api.accept p (not (has_flag d.flags 2048))) [
    | none ↦ let (v, r) = errno_result w (neg 11) in some (v, r, none)
    | some (a, peers) ↦
        let (v, result) = set_socket dtable (sctp (accepted_desc d a)) w in
        let (u, r) = errno_result (note_effect (set_association_flags a 1) v) result in
        let peer = peer_name (λ size x. api.system_address x size d.domain) space peers in
        if failed result then none else some (u, r, peer)
  ]
]

-- And of a system descriptor, given what accept returned.
unfoldable pub accept_system :
    ℕ → ℤ → Option Sockaddr → World → Option (World × ℤ × Option Sockaddr)
accept_system dtable (negsuc n) peer w = let (v, r) = errno_result w (negsuc n) in some (v, r, peer)
accept_system dtable (pos fd) peer w =
    let (v, result) = set_socket dtable (system fd) w in
    let (u, r) = errno_result (if failed result then note_effect (close_fd fd) v else v) result in
    some (u, r, peer)

unfoldable pub accept_on :
    NameApi
    → ℕ
    → Option ℕ
    → ℤ
    → Option Sockaddr
    → Descriptor
    → World
    → Option (World × ℤ × Option Sockaddr)
accept_on api dtable space made peer invalid w =
    let (v, r) = errno_result w (neg 6) in some (v, r, none)
accept_on api dtable space made peer (system fd) w = accept_system dtable made peer w
accept_on api dtable space made peer (sctp d) w = accept_sctp api dtable space d w

unfoldable pub ext_accept :
    NameApi → ℕ → Option ℕ → ℤ → Option Sockaddr → ℤ → World → Option (World × ℤ × Option Sockaddr)
ext_accept api dtable space made peer sockfd w = elim (get_socket sockfd) [
  | none ↦ let (v, r) = errno_result w (neg 9) in some (v, r, none)
  | some k ↦ accept_on api dtable space made peer (w.sockets k) w
]
