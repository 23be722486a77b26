-- ===== src/Options/Write.antt =====
-- What ext_setsockopt writes (socketapi/sctpsocketwrapper.cc): setDefaultSendParams,
-- setDefaultStreamTimeouts, setEvents, setRTOInfo, setDelayedAckTime, setAssocInfo, setPrimaryAddr,
-- setPeerPrimaryAddr and setInitMsg.
use socketapi.Prelude.{ℕ, ◌+◌, Bool, true, false, ◌==◌, Option, none, some, if◌then◌else◌}
use socketapi.Strings.Decimal.{ℤ, pos, neg}
use socketapi.Addresses.{SocketAddress, create_from_sockaddr}
use socketapi.Association.{StreamTimeout, Defaults}
use socketapi.Descriptors.{SctpDesc}
use socketapi.Options.{AssocStatus, SctpLib, AddressApi, Objects}
use socketapi.Options.Paths.{set_primary}
use socketapi.Options.Methods.{
  put_lib, get_assoc_defaults, set_assoc_defaults, set_io_defaults, set_association_timeouts,
  set_association_events, set_socket_events, set_socket_defaults, set_socket_timeouts,
}
use socketapi.Options.Values.{
  InitMsg, RtoInfo, SackInfo, AssocParams, SetPrim, SetTimeout, EventSubscribe, SndRcvInfo,
}
use socketapi.Options.Access.{
  Target, by_association, by_socket, nowhere, target, get_assoc_params, set_assoc_params, result_or,
}
use socketapi.Options.Read.{delay_id}

-- How a call ends: through errno_return, or with a return of its own that leaves errno alone.
pub data Outcome : Type 0 where
  errno_return plain_return : ℤ → Outcome

-- The bits of the flags: SCTP_RECVDATAIOEVNT and the others.
abbrev pub bit : Bool → ℕ → ℕ
bit b n = if b then n else 0

unfoldable pub event_flags_of : EventSubscribe → ℕ
event_flags_of e =
    bit e.data_io_event 1
    + bit e.association_event 2
    + bit e.address_event 4
    + bit e.send_failure_event 16
    + bit e.peer_error_event 8
    + bit e.shutdown_event 32
    + bit e.partial_delivery_event 128
    + bit e.adaptation_layer_event 64

abbrev pub defaults_of : SndRcvInfo → Defaults
defaults_of x = record {
  default_stream_id = x.sinfo_stream;
  default_proto_id = x.sinfo_ppid;
  default_time_to_live = x.sinfo_timetolive;
  default_context = x.sinfo_context;
}

module _ {S : Type 0} where
  abbrev pub send_params_of : Target → SndRcvInfo → Objects S → Objects S × Bool
  send_params_of (by_association a) x o = (set_io_defaults a (defaults_of x) o, true)
  send_params_of (by_socket p) x o = set_socket_defaults p x.sinfo_assoc_id (defaults_of x) o
  send_params_of nowhere x o = (o, false)

  unfoldable pub set_default_send_params : SctpDesc → SndRcvInfo → Objects S → Objects S × Outcome
  set_default_send_params d x o =
      let (v, ok) = send_params_of (target d) x o in (v, errno_return (result_or (neg 22) ok))

  -- The result of an association's call is not looked at.
  abbrev pub timeouts_of :
      (ℕ → StreamTimeout) → Target → SetTimeout → Objects S → Objects S × Outcome
  timeouts_of fresh (by_association a) x o = (
    (set_association_timeouts fresh a x.ssto_timeout x.ssto_streamid_start x.ssto_streamid_end o).0,
    plain_return (pos 0),
  )
  timeouts_of fresh (by_socket p) x o =
      let (v, ok) =
        set_socket_timeouts fresh p x.ssto_assoc_id x.ssto_timeout x.ssto_streamid_start
          x.ssto_streamid_end o in
      (v, if ok then plain_return (pos 0) else errno_return (neg 22))
  timeouts_of fresh nowhere x o = (o, errno_return (neg 22))

  unfoldable pub set_default_stream_timeouts :
      (ℕ → StreamTimeout) → SctpDesc → SetTimeout → Objects S → Objects S × Outcome
  set_default_stream_timeouts fresh d x o = timeouts_of fresh (target d) x o

  -- Without an object, -EBADF is returned as it is.
  abbrev pub events_of : Target → ℕ → Objects S → Objects S × Outcome
  events_of (by_association a) flags o = (set_association_events a flags o, errno_return (pos 0))
  events_of (by_socket p) flags o = (set_socket_events p flags o, errno_return (pos 0))
  events_of nowhere flags o = (o, plain_return (neg 9))

  unfoldable pub set_events : SctpDesc → EventSubscribe → Objects S → Objects S × Outcome
  set_events d x o = events_of (target d) (event_flags_of x) o

abbrev pub or_old : ℕ → ℕ → ℕ
or_old new old = if new == 0 then old else new

-- The error where the primary address is not set.
abbrev pub primary_error : Target → ℤ
primary_error (by_association a) = neg 5
primary_error (by_socket p) = neg 5
primary_error nowhere = neg 9

module _ {S : Type 0} (lib : SctpLib S) where
  -- A change of the parameters of an association: they are read, changed and written.
  abbrev pub change_found :
      (AssocStatus → AssocStatus) → SctpDesc → Objects S → Option (ℕ × AssocStatus) → Objects S × ℤ
  change_found f d o none = (o, neg 1)
  change_found f d o (some (i, p)) = set_assoc_params lib d i (f p) o

  abbrev pub change_assoc_params :
      (AssocStatus → AssocStatus) → SctpDesc → ℕ → Objects S → Objects S × ℤ
  change_assoc_params f d id o = change_found f d o (get_assoc_params lib d id o)

  -- setRTOInfo: a field that is 0 leaves its parameter.
  unfoldable pub set_rto_info : SctpDesc → RtoInfo → Objects S → Objects S × ℤ
  set_rto_info d x o =
      change_assoc_params
        (λ p. record p {
          rto_initial = or_old x.srto_initial p.rto_initial;
          rto_min = or_old x.srto_min p.rto_min;
          rto_max = or_old x.srto_max p.rto_max;
        })
        d x.srto_assoc_id o

  -- The instance's parameters, changed through the socket; `false` where it fails.
  abbrev pub set_instance_delay : SctpDesc → ℕ → Objects S → Objects S × Bool
  set_instance_delay d n o = elim (d.socket_ptr) [
    | none ↦ (o, false)
    | some p ↦ elim (get_assoc_defaults lib p o) [
      | none ↦ (o, false)
      | some x ↦ set_assoc_defaults lib p (record x { default_delay = n }) o
    ]
  ]

  unfoldable pub set_delayed_ack_time : SctpDesc → SackInfo → Objects S → Objects S × ℤ
  set_delayed_ack_time d x o =
      let id = delay_id lib d x o in
      let by_default : Objects S × ℤ =
        (let (v, ok) = set_instance_delay d x.sack_delay o in (v, result_or (neg 22) ok)) in
      let of_association = change_assoc_params (λ p. record p { delay = x.sack_delay }) d id o in
      if id == 0 then by_default else of_association

  unfoldable pub set_assoc_info : SctpDesc → AssocParams → Objects S → Objects S × ℤ
  set_assoc_info d x o =
      change_assoc_params (λ p. record p { max_retransmits = x.sasoc_asocmaxrxt }) d
        x.sasoc_assoc_id o

  -- setInitMsg of the socket; its result is not looked at.
  unfoldable pub set_init_msg : ℕ → InitMsg → Objects S → Objects S × Bool
  set_init_msg p x o = elim (get_assoc_defaults lib p o) [
    | none ↦ (o, false)
    | some y ↦
        set_assoc_defaults lib p
          (record y { default_out_streams = x.num_ostreams; default_in_streams = x.max_instreams })
          o
  ]

  module _ (api : AddressApi) where
    abbrev pub primary_of : Target → ℕ → SocketAddress → Objects S → Option (S × Bool)
    primary_of (by_association a) id x o =
        set_primary lib api (o.associations a).assoc_id x o.lib_state
    primary_of (by_socket p) id x o = set_primary lib api id x o.lib_state
    primary_of nowhere id x o = some (o.lib_state, false)

    unfoldable pub set_primary_addr : SctpDesc → SetPrim → Objects S → Option (Objects S × ℤ)
    set_primary_addr d x o = elim (create_from_sockaddr api.memory x.ssp_addr) [
      | none ↦ some (o, neg 22)
      | some y ↦ elim (primary_of (target d) x.ssp_assoc_id y o) [
        | none ↦ none
        | some (s, ok) ↦ some ((put_lib o (s, ok)).0, result_or (primary_error (target d)) ok)
      ]
    ]

    -- setPeerPrimaryAddr, which calls setPrimary, too.
    unfoldable pub set_peer_primary_addr_of :
        SctpDesc → SetPrim → Objects S → Option (Objects S × ℤ)
    set_peer_primary_addr_of d x o = elim (create_from_sockaddr api.memory x.ssp_addr) [
      | none ↦ some (o, neg 22)
      | some y ↦ elim (primary_of (target d) x.ssp_assoc_id y o) [
        | none ↦ none
        | some (s, ok) ↦ some ((put_lib o (s, ok)).0, result_or (primary_error (target d)) ok)
      ]
    ]
