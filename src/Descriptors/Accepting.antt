-- ===== src/Descriptors/Accepting.antt =====
-- What accept and listen leave in the table of descriptors (socketapi/sctpsocketwrapper.cc:
-- ext_accept, ext_listen).
use socketapi.Prelude.{
  ℕ, ◌≡◌, refl, ◌⊎◌, inl, inr, true, false, not, Option, none, some, List, [], ◌∷◌, ◌++◌, ◌==◌,
  Option-cases, arith,
}
use socketapi.Strings.Decimal.{ℤ, pos, neg}
use socketapi.Internet.{has_flag}
use socketapi.Internet.System.{Sockaddr}
use socketapi.Addresses.{SocketAddress}
use socketapi.Descriptors.{
  SctpDesc, sctp, World, set_slot, free_slot, slot_limit, set_socket, errno_result, get_socket,
  set_association_flags,
}
use socketapi.Descriptors.Calls.{Api, ext_listen, listen_on}
use socketapi.Descriptors.Names.{
  NameApi, accept_sctp, accept_on, ext_accept, accepted_desc, peer_name,
}

-- What ext_accept does with the association `a` of an SCTP socket.
abbrev pub Accepted : ℕ → SctpDesc → ℕ → World → Option (World × ℤ × Option Sockaddr) → Type 0
Accepted dtable d a w r =
    ((r ≡ none) × (free_slot w.sockets (slot_limit dtable) ≡ none))
    ⊎ ((i : ℕ) × (v : World) × (peer : Option Sockaddr) × (r ≡ some (v, pos i, peer))
        × (free_slot w.sockets (slot_limit dtable) ≡ some i)
        × (v.sockets i ≡ sctp (record d { connection_oriented = true; association_ptr = some a }))
        × ((j : ℕ) → (j == i) ≡ false → v.sockets j ≡ w.sockets j))

-- What ext_accept does on an SCTP socket: nothing to accept, or an association.
abbrev pub AcceptEnd :
    NameApi → ℕ → SctpDesc → ℕ → World → Option (World × ℤ × Option Sockaddr) → Type 0
AcceptEnd api dtable d p w r =
    ((api.accept p (not (has_flag d.flags 2048)) ≡ none)
      × (r ≡ some (record w { errno = 11 }, neg 1, none)))
    ⊎ ((a : ℕ) × (peers : List SocketAddress) × (api.accept p (not (has_flag d.flags 2048))
          ≡ some (a, peers))
        × Accepted dtable d a w r)

new-Accepted :
    (api : NameApi) (dtable : ℕ) (space : Option ℕ) (made : ℤ) (peer : Option Sockaddr) (k p a : ℕ)
    (peers : List SocketAddress) (d : SctpDesc) (w : World)
    → get_socket (pos k) ≡ some k
    → w.sockets k ≡ sctp (record d { socket_ptr = some p })
    → api.accept p (not (has_flag d.flags 2048)) ≡ some (a, peers)
    → Accepted dtable
        (record d { socket_ptr = some p })
        a
        w
        (ext_accept api dtable space made peer (pos k) w)
unfolding ext_accept accept_on accept_sctp set_socket errno_result set_slot neg
new-Accepted api dtable space made peer k p a peers d w slot at accepts =
    elim (Option-cases (free_slot w.sockets (slot_limit dtable))) [
      | inl e ↦
          inl (rw (slot, at, accepts, e, ext_accept, accept_on, accept_sctp, set_socket) refl, e)
      | inr (i, e) ↦ inr (
        i,
        record w {
          sockets =
              set_slot w.sockets i (sctp (accepted_desc (record d { socket_ptr = some p }) a));
          effects = w.effects ++ set_association_flags a 1 ∷ [];
        },
        peer_name (λ size x. api.system_address x size d.domain) space peers,
        rw (slot, at, accepts, e, ext_accept, accept_on, accept_sctp, set_socket) refl,
        e,
        (let here : (i == i) ≡ true = ground arith in rw here refl),
        (λ j other. rw other refl),
      )
    ]

-- ext_accept of an SCTP socket tells -1 with EWOULDBLOCK, and changes nothing else, where its socket has
-- no association to accept, which it waits for unless the descriptor is non-blocking. Else it either puts
-- the association with the socket into the free slot that setSocket takes, as a connection-oriented
-- descriptor, and returns that slot, leaving the other slots as they are; or the table is full, and the
-- process ends.
pub ext_accept-Accepted :
    (api : NameApi) (dtable : ℕ) (space : Option ℕ) (made : ℤ) (peer : Option Sockaddr) (k p : ℕ)
    (d : SctpDesc) (w : World)
    → get_socket (pos k) ≡ some k
    → w.sockets k ≡ sctp (record d { socket_ptr = some p })
    → AcceptEnd api dtable
        (record d { socket_ptr = some p })
        p
        w
        (ext_accept api dtable space made peer (pos k) w)
unfolding ext_accept accept_on accept_sctp errno_result neg
ext_accept-Accepted api dtable space made peer k p d w slot at =
    elim (Option-cases (api.accept p (not (has_flag d.flags 2048)))) [
      | inl e ↦ inl (e, rw (slot, at, e, ext_accept, accept_on, accept_sctp) refl)
      | inr ((a, peers), e) ↦
          inr (a, peers, e, new-Accepted api dtable space made peer k p a peers d w slot at e)
    ]

-- ext_listen of an SCTP socket returns 0 whatever the bind to a port that it needs first has returned.
pub ext_listen-Success :
    (api : Api) (random : ℕ → ℕ) (backlog k p : ℕ) (listened : ℤ) (d : SctpDesc) (w : World)
    → get_socket (pos k) ≡ some k
    → w.sockets k ≡ sctp (record d { socket_ptr = some p })
    → (ext_listen api random backlog listened (pos k) w).1 ≡ pos 0
unfolding ext_listen listen_on errno_result
ext_listen-Success api random backlog k p listened d w slot at =
    rw (slot, at, ext_listen, listen_on) refl
