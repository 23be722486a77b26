-- ===== src/Options/Set.antt =====
-- ext_setsockopt (socketapi/sctpsocketwrapper.cc).
use socketapi.Prelude.{
  ℕ, ◌*◌, ◌%◌, ◌^◌, Bool, false, ◌==◌, ltb, not, Option, none, some, if◌then◌else◌,
}
use socketapi.Strings.Decimal.{ℤ, pos, negsuc, neg}
use socketapi.Association.{StreamTimeout}
use socketapi.Descriptors.{
  SctpDesc, Descriptor, invalid, system, sctp, World, set_slot, errno_result, get_socket,
}
use socketapi.Options.{PathStatus, SctpLib, AddressApi, Objects}
use socketapi.Options.Methods.{
  set_association_class, set_socket_class, set_send_buffer, set_socket_send_buffer,
  set_receive_buffer, set_socket_receive_buffer, set_auto_close,
}
use socketapi.Options.Values.{
  InitMsg, Linger, SockOption, ignored, other_sctp, other_name, ip_tos, autoclose, sndbuf, rcvbuf,
  initmsg, so_linger, rtoinfo, delayed_sack, associnfo, peer_addr_params, primary_addr,
  set_peer_primary_addr, events, set_default_send_param, set_stream_timeouts, status,
  get_peer_addr_info, size_int, size_rto_info, size_assoc_params, size_paddr_params, size_set_prim,
  size_set_timeout, size_event_subscribe, size_sack_info, size_sndrcvinfo, size_init_msg,
  size_linger,
}
use socketapi.Options.Access.{Target, by_association, by_socket, nowhere, target, result_or}
use socketapi.Options.Read.{Reply, configure_peer_address_params}
use socketapi.Options.Write.{
  Outcome, errno_return, plain_return, set_default_send_params, set_default_stream_timeouts,
  set_events, set_rto_info, set_delayed_ack_time, set_assoc_info, set_init_msg, set_primary_addr,
  set_peer_primary_addr_of,
}

-- The descriptor, the objects and the end of a call.
abbrev pub Written : Type 0 → Type 0
Written S = SctpDesc × Objects S × Outcome

-- A pointer that is NULL is refused, and a length that the test refuses.
abbrev pub accepted :
    {S A : Type 0}
    → Bool
    → Option A
    → SctpDesc
    → Objects S
    → (A → Option (Written S))
    → Option (Written S)
accepted refused none d o run = some (d, o, errno_return (neg 22))
accepted refused (some x) d o run =
    let made = run x in if refused then some (d, o, errno_return (neg 22)) else made

abbrev returned : {S : Type 0} → SctpDesc → Objects S × ℤ → Option (Written S)
returned d (o, r) = some (d, o, errno_return r)

abbrev ended : {S : Type 0} → SctpDesc → Objects S × Outcome → Option (Written S)
ended d (o, r) = some (d, o, r)

abbrev pub answered : {S : Type 0} → SctpDesc → Option (Objects S × ℤ) → Option (Written S)
answered d none = none
answered d (some (o, r)) = some (d, o, errno_return r)

abbrev pub configured : {S : Type 0} → SctpDesc → Option (Objects S × Reply) → Option (Written S)
configured d none = none
configured d (some (o, (r, v, n))) = some (d, o, errno_return r)

-- The fields of a linger that can be set.
abbrev linger_fields : Linger → Option (ℕ × ℕ)
linger_fields x = elim (x.onoff) [
  | negsuc n ↦ none
  | pos n ↦ elim (x.linger) [ negsuc m ↦ none | pos m ↦ if ltb 1 n then none else some (n, m) ]
]

module _ {S : Type 0} (lib : SctpLib S) where
  -- IP_TOS, SO_SNDBUF and SO_RCVBUF: `error` where there is no object.
  abbrev set_number :
      (ℕ → ℕ → Objects S → Objects S × Bool)
      → (ℕ → ℕ → Objects S → Objects S × Bool)
      → ℤ
      → Target
      → ℕ
      → Objects S
      → Objects S × ℤ
  set_number of_association of_socket error (by_association a) x o =
      let (v, ok) = of_association a x o in (v, result_or (neg 5) ok)
  set_number of_association of_socket error (by_socket p) x o =
      let (v, ok) = of_socket p x o in (v, result_or (neg 5) ok)
  set_number of_association of_socket error nowhere x o = (o, error)

  unfoldable pub set_tos : SctpDesc → ℕ → Objects S → Objects S × ℤ
  set_tos d x o =
      set_number (λ a y v. set_association_class lib a (y % 256) v) (set_socket_class lib) (neg 95)
        (target d) x o

  unfoldable pub set_sndbuf : SctpDesc → ℕ → Objects S → Objects S × ℤ
  set_sndbuf d x o =
      set_number (set_send_buffer lib) (set_socket_send_buffer lib) (neg 9) (target d) x o

  unfoldable pub set_rcvbuf : SctpDesc → ℕ → Objects S → Objects S × ℤ
  set_rcvbuf d x o =
      set_number (set_receive_buffer lib) (set_socket_receive_buffer lib) (neg 9) (target d) x o

  -- SCTP_AUTOCLOSE: microseconds of 64 bits.
  unfoldable pub set_autoclose : SctpDesc → ℕ → Objects S → Objects S × ℤ
  set_autoclose d x o = elim (d.socket_ptr) [
    | none ↦ (o, neg 9)
    | some p ↦ (set_auto_close p (1000000 * x % 2 ^ 64) o, pos 0)
  ]

  -- SCTP_INITMSG.
  unfoldable pub set_initmsg : SctpDesc → InitMsg → Objects S → Written S
  set_initmsg d x o = (
    record d {
      sinit_num_ostreams = x.num_ostreams;
      sinit_max_instreams = x.max_instreams;
      sinit_max_attempts = x.max_attempts;
      sinit_max_init_timeo = x.max_init_timeo;
    },
    elim (d.socket_ptr) [ none ↦ o | some p ↦ (set_init_msg lib p x o).0 ],
    errno_return (pos 0),
  )

  -- SO_LINGER.
  unfoldable pub set_linger : SctpDesc → Linger → Objects S → Written S
  set_linger d x o = elim (linger_fields x) [
    | none ↦ (d, o, errno_return (neg 22))
    | some (n, m) ↦ (record d { l_onoff = n; l_linger = m }, o, errno_return (pos 0))
  ]

  module _ (api : AddressApi) (fresh : PathStatus) (new : ℕ → StreamTimeout) where
    -- ext_setsockopt of an SCTP descriptor. At the level IPPROTO_SCTP, a name that is not known leaves
    -- the tests, for the end of the call. What SCTP_PEER_ADDR_PARAMS writes to the caller's struct is
    -- in `configure_peer_address_params`.
    unfoldable pub set_option : SctpDesc → SockOption → ℕ → Objects S → Option (Written S)
    set_option d ignored len o = some (d, o, errno_return (pos 0))
    set_option d other_sctp len o = some (d, o, errno_return (neg 6))
    set_option d other_name len o = some (d, o, errno_return (neg 95))
    set_option d (ip_tos v) len o =
        accepted (ltb len size_int) v d o (λ x. returned d (set_tos d x o))
    set_option d (autoclose v) len o =
        accepted (ltb len size_int) v d o (λ x. returned d (set_autoclose d x o))
    set_option d (sndbuf v) len o =
        accepted (ltb len size_int) v d o (λ x. returned d (set_sndbuf d x o))
    set_option d (rcvbuf v) len o =
        accepted (ltb len size_int) v d o (λ x. returned d (set_rcvbuf d x o))
    set_option d (initmsg v) len o =
        accepted (ltb len size_init_msg) v d o (λ x. some (set_initmsg d x o))
    set_option d (so_linger v) len o =
        accepted (ltb len size_linger) v d o (λ x. some (set_linger d x o))
    set_option d (rtoinfo v) len o =
        accepted (ltb len size_rto_info) v d o (λ x. returned d (set_rto_info lib d x o))
    set_option d (delayed_sack v) len o =
        accepted (ltb len size_sack_info) v d o (λ x. returned d (set_delayed_ack_time lib d x o))
    set_option d (associnfo v) len o =
        accepted (ltb len size_assoc_params) v d o (λ x. returned d (set_assoc_info lib d x o))
    set_option d (peer_addr_params v) len o =
        accepted (ltb len size_paddr_params) v d o
          (λ x. configured d (configure_peer_address_params lib api fresh false d x len o))
    set_option d (primary_addr v) len o =
        accepted (ltb len size_set_prim) v d o (λ x. answered d (set_primary_addr lib api d x o))
    set_option d (set_peer_primary_addr v) len o =
        accepted (ltb len size_set_prim) v d o
          (λ x. answered d (set_peer_primary_addr_of lib api d x o))
    set_option d (events v) len o =
        accepted (not (len == size_event_subscribe)) v d o (λ x. ended d (set_events d x o))
    set_option d (set_default_send_param v) len o =
        accepted (not (len == size_sndrcvinfo)) v d o (λ x. ended d (set_default_send_params d x o))
    set_option d (set_stream_timeouts v) len o =
        accepted (not (len == size_set_timeout)) v d o
          (λ x. ended d (set_default_stream_timeouts new d x o))
    set_option d (status v) len o = some (d, o, errno_return (neg 6))
    set_option d (get_peer_addr_info v) len o = some (d, o, errno_return (neg 6))

    abbrev pub end_call : Outcome → World → World × ℤ
    end_call (errno_return r) w = errno_result w r
    end_call (plain_return r) w = (w, r)

    -- The call on the descriptor in the slot `k`, where the system's setsockopt returns `made`.
    unfoldable pub set_option_on :
        ℕ → ℤ → Descriptor → SockOption → ℕ → Objects S → World → Option (World × Objects S × ℤ)
    set_option_on k made invalid v len o w = let (u, r) = errno_result w (neg 6) in some (u, o, r)
    set_option_on k made (system fd) v len o w = some (w, o, made)
    set_option_on k made (sctp d) v len o w = elim (set_option d v len o) [
      | none ↦ none
      | some (e, p, outcome) ↦
          let (u, r) = end_call outcome (record w { sockets = set_slot w.sockets k (sctp e) }) in
          some (u, p, r)
    ]

    unfoldable pub ext_setsockopt :
        ℤ → ℤ → SockOption → ℕ → Objects S → World → Option (World × Objects S × ℤ)
    ext_setsockopt made sockfd v len o w = elim (get_socket sockfd) [
      | none ↦ let (u, r) = errno_result w (neg 9) in some (u, o, r)
      | some k ↦ set_option_on k made (w.sockets k) v len o w
    ]
