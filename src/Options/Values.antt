-- ===== src/Options/Values.antt =====
-- The structs that the options read and write (socketapi/ext_socket.h), with their sizes on 64-bit
-- Linux, and the options as the calls tell them apart (socketapi/sctpsocketwrapper.cc).
use socketapi.Prelude.{ℕ, Bool, Option}
use socketapi.Strings.Decimal.{ℤ}
use socketapi.Internet.System.{Sockaddr}

-- sctp_rtoinfo.
pub record RtoInfo : Type 0 where
  pub srto_assoc_id : ℕ
  pub srto_initial : ℕ
  pub srto_max : ℕ
  pub srto_min : ℕ

-- sctp_assocparams; sasoc_local_rwnd is the bits of an int32_t.
pub record AssocParams : Type 0 where
  pub sasoc_assoc_id : ℕ
  pub sasoc_asocmaxrxt : ℕ
  pub sasoc_number_peer_destinations : ℕ
  pub sasoc_peer_rwnd : ℕ
  pub sasoc_local_rwnd : ℕ
  pub sasoc_cookie_life : ℕ

-- sctp_setprim and sctp_setpeerprim, which have the same fields.
pub record SetPrim : Type 0 where
  pub ssp_assoc_id : ℕ
  pub ssp_addr : Sockaddr

-- sctp_setstrm_timeout.
pub record SetTimeout : Type 0 where
  pub ssto_assoc_id : ℕ
  pub ssto_timeout : ℕ
  pub ssto_streamid_start : ℕ
  pub ssto_streamid_end : ℕ

-- sctp_paddrparams.
pub record PaddrParams : Type 0 where
  pub spp_assoc_id : ℕ
  pub spp_address : Sockaddr
  pub spp_hbinterval : ℕ
  pub spp_pathmaxrxt : ℕ
  pub spp_pathmtu : ℕ
  pub spp_sackdelay : ℕ
  pub spp_flags : ℕ

-- sctp_paddrinfo.
pub record PaddrInfo : Type 0 where
  pub spinfo_assoc_id : ℕ
  pub spinfo_address : Sockaddr
  pub spinfo_state : ℕ
  pub spinfo_cwnd : ℕ
  pub spinfo_srtt : ℕ
  pub spinfo_rto : ℕ
  pub spinfo_mtu : ℕ

-- sctp_status.
pub record StatusInfo : Type 0 where
  pub sstat_assoc_id : ℕ
  pub sstat_state : ℕ
  pub sstat_rwnd : ℕ
  pub sstat_unackdata : ℕ
  pub sstat_penddata : ℕ
  pub sstat_instrms : ℕ
  pub sstat_outstrms : ℕ
  pub sstat_fragmentation_point : ℕ
  pub sstat_primary : PaddrInfo

-- sctp_event_subscribe: whether each field is not 0.
pub record EventSubscribe : Type 0 where
  pub data_io_event : Bool
  pub association_event : Bool
  pub address_event : Bool
  pub send_failure_event : Bool
  pub peer_error_event : Bool
  pub shutdown_event : Bool
  pub partial_delivery_event : Bool
  pub adaptation_layer_event : Bool

-- sctp_sack_info.
pub record SackInfo : Type 0 where
  pub sack_assoc_id : ℕ
  pub sack_delay : ℕ
  pub sack_freq : ℕ

-- sctp_sndrcvinfo.
pub record SndRcvInfo : Type 0 where
  pub sinfo_stream : ℕ
  pub sinfo_ssn : ℕ
  pub sinfo_flags : ℕ
  pub sinfo_ppid : ℕ
  pub sinfo_context : ℕ
  pub sinfo_timetolive : ℕ
  pub sinfo_tsn : ℕ
  pub sinfo_cumtsn : ℕ
  pub sinfo_assoc_id : ℕ

-- sctp_initmsg.
pub record InitMsg : Type 0 where
  pub num_ostreams : ℕ
  pub max_instreams : ℕ
  pub max_attempts : ℕ
  pub max_init_timeo : ℕ

-- linger, whose fields are of type int.
pub record Linger : Type 0 where
  pub onoff : ℤ
  pub linger : ℤ

abbrev pub size_rto_info : ℕ
size_rto_info = 16

abbrev pub size_assoc_params : ℕ
size_assoc_params = 20

abbrev pub size_set_prim : ℕ
size_set_prim = 136

abbrev pub size_set_timeout : ℕ
size_set_timeout = 12

abbrev pub size_paddr_params : ℕ
size_paddr_params = 160

abbrev pub size_paddr_info : ℕ
size_paddr_info = 160

abbrev pub size_status_info : ℕ
size_status_info = 184

abbrev pub size_event_subscribe : ℕ
size_event_subscribe = 8

abbrev pub size_sack_info : ℕ
size_sack_info = 12

abbrev pub size_sndrcvinfo : ℕ
size_sndrcvinfo = 36

abbrev pub size_init_msg : ℕ
size_init_msg = 8

abbrev pub size_linger : ℕ
size_linger = 8

abbrev pub size_int : ℕ
size_int = 4

-- An option by its level and its name, with what its pointer shows as the struct of the option, or
-- `none` where the pointer is NULL. Only some can be read and only some written. `ignored` stands for
-- those that have no effect and the result 0 (IPV6_FLOWINFO, IPV6_FLOWINFO_SEND, IP_RECVTOS and
-- SCTP_NODELAY), `other_sctp` for another name at the level IPPROTO_SCTP, and `other_name` for another
-- name or level. The number of an int is its bits.
pub data SockOption : Type 0 where
  ignored other_sctp other_name : SockOption
  ip_tos autoclose sndbuf rcvbuf : Option ℕ → SockOption
  initmsg : Option InitMsg → SockOption
  so_linger : Option Linger → SockOption
  rtoinfo : Option RtoInfo → SockOption
  delayed_sack : Option SackInfo → SockOption
  associnfo : Option AssocParams → SockOption
  peer_addr_params : Option PaddrParams → SockOption
  primary_addr set_peer_primary_addr : Option SetPrim → SockOption
  events : Option EventSubscribe → SockOption
  set_default_send_param : Option SndRcvInfo → SockOption
  set_stream_timeouts : Option SetTimeout → SockOption
  status : Option StatusInfo → SockOption
  get_peer_addr_info : Option PaddrInfo → SockOption
