-- ===== src/Options/Get.antt =====
-- ext_getsockopt (socketapi/sctpsocketwrapper.cc).
use socketapi.Prelude.{ℕ, true, ltb, Option, none, some, if◌then◌else◌}
use socketapi.Strings.Decimal.{ℤ, pos, neg}
use socketapi.Descriptors.{
  SctpDesc, Descriptor, invalid, system, sctp, World, errno_result, get_socket,
}
use socketapi.Options.{PathStatus, SctpLib, AddressApi, Objects}
use socketapi.Options.Methods.{get_send_buffer, get_receive_buffer, get_traffic_class}
use socketapi.Options.Values.{
  InitMsg, Linger, SockOption, ignored, other_sctp, other_name, ip_tos, autoclose, sndbuf, rcvbuf,
  initmsg, so_linger, rtoinfo, delayed_sack, associnfo, peer_addr_params, primary_addr,
  set_peer_primary_addr, events, set_default_send_param, set_stream_timeouts, status,
  get_peer_addr_info, size_int, size_rto_info, size_assoc_params, size_paddr_params,
  size_paddr_info, size_status_info, size_sack_info, size_init_msg, size_linger,
}
use socketapi.Options.Read.{
  Reply, get_rto_info, get_delayed_ack_time, get_assoc_info, get_autoclose, get_buffer,
  get_status_info, get_peer_address_info, configure_peer_address_params,
}

-- A pointer that is NULL, or a length below the size of the struct, is refused.
abbrev pub checked :
    {A : Type 0} → (Option A → SockOption) → ℕ → ℕ → Option A → (A → Option Reply) → Option Reply
checked option size len none run = some (neg 22, option none, len)
checked option size len (some x) run =
    let made = run x in if ltb len size then some (neg 22, option (some x), len) else made

abbrev reply_of : {B : Type 0} → Option (B × Reply) → Option Reply
reply_of none = none
reply_of (some (v, reply)) = some reply

abbrev init_msg_of : SctpDesc → InitMsg
init_msg_of d = record {
  num_ostreams = d.sinit_num_ostreams;
  max_instreams = d.sinit_max_instreams;
  max_attempts = d.sinit_max_attempts;
  max_init_timeo = d.sinit_max_init_timeo;
}

abbrev linger_of : SctpDesc → Linger
linger_of d = record { onoff = pos d.l_onoff; linger = pos d.l_linger }

module _ {S : Type 0} (lib : SctpLib S) (api : AddressApi) (fresh : PathStatus) where
  -- ext_getsockopt of an SCTP descriptor, in front of errno. IP_TOS gives the class as the result and
  -- leaves the caller's value alone.
  unfoldable pub get_option : SctpDesc → SockOption → ℕ → Objects S → Option Reply
  get_option d ignored len o = some (pos 0, ignored, len)
  get_option d other_sctp len o = some (neg 95, other_sctp, len)
  get_option d other_name len o = some (neg 95, other_name, len)
  get_option d (ip_tos v) len o = elim (d.association_ptr) [
    | none ↦ some (pos 0, ip_tos v, len)
    | some a ↦ some (get_traffic_class lib a o, ip_tos v, len)
  ]
  get_option d (autoclose v) len o =
      checked autoclose size_int len v (λ x. some (get_autoclose lib d x len o))
  get_option d (sndbuf v) len o =
      checked sndbuf size_int len v
        (λ x. some (get_buffer lib sndbuf (get_send_buffer lib) d x len o))
  get_option d (rcvbuf v) len o =
      checked rcvbuf size_int len v
        (λ x. some (get_buffer lib rcvbuf (get_receive_buffer lib) d x len o))
  get_option d (initmsg v) len o =
      checked initmsg size_init_msg len v
        (λ x. some (pos 0, initmsg (some (init_msg_of d)), size_init_msg))
  get_option d (so_linger v) len o =
      checked so_linger size_linger len v
        (λ x. some (pos 0, so_linger (some (linger_of d)), size_linger))
  get_option d (rtoinfo v) len o =
      checked rtoinfo size_rto_info len v (λ x. some (get_rto_info lib d x len o))
  get_option d (delayed_sack v) len o =
      checked delayed_sack size_sack_info len v (λ x. some (get_delayed_ack_time lib d x len o))
  get_option d (associnfo v) len o =
      checked associnfo size_assoc_params len v (λ x. some (get_assoc_info lib d x len o))
  get_option d (peer_addr_params v) len o =
      checked peer_addr_params size_paddr_params len v
        (λ x. reply_of (configure_peer_address_params lib api fresh true d x len o))
  get_option d (status v) len o =
      checked status size_status_info len v (λ x. get_status_info lib api fresh d x len o)
  get_option d (get_peer_addr_info v) len o =
      checked get_peer_addr_info size_paddr_info len v
        (λ x. get_peer_address_info lib api fresh d x len o)
  get_option d (primary_addr v) len o = some (neg 95, primary_addr v, len)
  get_option d (set_peer_primary_addr v) len o = some (neg 95, set_peer_primary_addr v, len)
  get_option d (events v) len o = some (neg 95, events v, len)
  get_option d (set_default_send_param v) len o = some (neg 95, set_default_send_param v, len)
  get_option d (set_stream_timeouts v) len o = some (neg 95, set_stream_timeouts v, len)

  -- The call, where the system's getsockopt gives `made`.
  unfoldable pub get_option_on :
      ℤ × SockOption × ℕ
      → Descriptor
      → SockOption
      → ℕ
      → Objects S
      → World
      → Option (World × ℤ × SockOption × ℕ)
  get_option_on made invalid v len o w = let (u, r) = errno_result w (neg 6) in some (u, r, v, len)
  get_option_on (r, v', len') (system fd) v len o w = some (w, r, v', len')
  get_option_on made (sctp d) v len o w = elim (get_option d v len o) [
    | none ↦ none
    | some (result, after, n) ↦ let (u, r) = errno_result w result in some (u, r, after, n)
  ]

  unfoldable pub ext_getsockopt :
      ℤ × SockOption × ℕ
      → ℤ
      → SockOption
      → ℕ
      → Objects S
      → World
      → Option (World × ℤ × SockOption × ℕ)
  ext_getsockopt made sockfd v len o w = elim (get_socket sockfd) [
    | none ↦ let (u, r) = errno_result w (neg 9) in some (u, r, v, len)
    | some k ↦ get_option_on made (w.sockets k) v len o w
  ]
