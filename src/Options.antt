-- ===== src/Options.antt =====
-- The settings of sockets and associations: the calls of SCTPSocket and SCTPAssociation that read and
-- write them (socketapi/sctpsocket.cc, sctpsocket.icc, sctpassociation.cc), and what ext_getsockopt
-- and ext_setsockopt of socketapi/sctpsocketwrapper.cc make of them.
-- Objects are named by their pointers, so that two descriptors may share one. The parameters that
-- sctplib keeps are a state of any type, which its calls read and write.
pub mod Paths
pub mod Methods
pub mod Values
pub mod Access
pub mod Read
pub mod Get
pub mod Write
pub mod Set
pub mod RoundTrip
pub mod Calls
pub mod Held
pub mod Search
mod Tests
use socketapi.Prelude.{ℕ, ◌+◌, Bool, ◌==◌, Option, List, Bytes, if◌then◌else◌}
use socketapi.Strings.Decimal.{ℤ}
use socketapi.Internet.{InternetAddress}
use socketapi.Internet.System.{Sockaddr}
use socketapi.Addresses.{SocketAddress}
use socketapi.Association.{Association}

-- SCTP_Association_Status, the fields that are read or written.
pub record AssocStatus : Type 0 where
  pub state : ℕ
  pub receiver_window : ℕ
  pub retransmission_chunks : ℕ
  pub reception_chunks : ℕ
  pub in_streams : ℕ
  pub out_streams : ℕ
  pub max_send_queue : ℕ
  pub max_recv_queue : ℕ
  pub rto_initial : ℕ
  pub rto_min : ℕ
  pub rto_max : ℕ
  pub max_retransmits : ℕ
  pub destination_paths : ℕ
  pub cookie_life : ℕ
  pub delay : ℕ
  pub ip_tos : ℕ
  pub path_ids : ℕ → ℕ

-- SCTP_PathStatus.
pub record PathStatus : Type 0 where
  pub destination : Bytes
  pub path_state : ℕ
  pub cwnd : ℕ
  pub srtt : ℕ
  pub rto : ℕ
  pub mtu : ℕ
  pub heartbeat_interval : ℕ

-- SCTP_Instance_Parameters.
pub record InstanceParameters : Type 0 where
  pub default_out_streams : ℕ
  pub default_in_streams : ℕ
  pub default_delay : ℕ

-- The calls of sctplib by the number of an association or an instance: `none`, or `false` beside the
-- state, stands for an error. change_heartbeat has the interval, which is 0 where it is switched off.
pub record SctpLib (S : Type 0) : Type 0 where
  pub get_status : S → ℕ → Option AssocStatus
  pub set_status : S → ℕ → AssocStatus → S × Bool
  pub get_defaults : S → ℕ → Option InstanceParameters
  pub set_defaults : S → ℕ → InstanceParameters → S × Bool
  pub path_status : S → ℕ → ℕ → Option PathStatus
  pub get_primary : S → ℕ → ℤ
  pub change_primary : S → ℕ → ℕ → S × Bool
  pub change_remote_primary : S → ℕ → Bytes → S × Bool
  pub request_heartbeat : S → ℕ → ℕ → S × Bool
  pub change_heartbeat : S → ℕ → ℕ → Bool → ℕ → S × Bool

-- The addresses as the calls need them: the memory that an object is made in, createSocketAddress
-- from the text of a path, getAddressString without the port and with it, getSystemAddress for a
-- length and a domain, and SCTP_MAX_IP_LEN. At most `rounds` paths are looked at.
pub record AddressApi : Type 0 where
  pub memory : InternetAddress
  pub of_text : Bytes → Option SocketAddress
  pub text_of : SocketAddress → Bytes
  pub text_with_port : SocketAddress → Bytes
  pub system_address : SocketAddress → ℕ → ℕ → Option Sockaddr
  pub max_ip_len : ℕ
  pub rounds : ℕ

-- The settings in an SCTPSocket; ConnectionlessAssociationList as pointers, in its order.
pub record SocketSettings : Type 0 where
  pub instance_name : ℕ
  pub event_flags : ℕ
  pub auto_close : ℕ
  pub traffic_class : ℕ
  pub connectionless : List ℕ

-- The objects that the calls reach, and the state of sctplib. The lock of the master is left out.
pub record Objects (S : Type 0) : Type 0 where
  pub associations : ℕ → Association
  pub socket_settings : ℕ → SocketSettings
  pub lib_state : S

-- A write through the pointer to an association or to a socket.
unfoldable pub put_object : {S : Type 0} → ℕ → Association → Objects S → Objects S
put_object a x o = record o { associations = λ i. if i == a then x else o.associations i }

unfoldable pub put_settings : {S : Type 0} → ℕ → SocketSettings → Objects S → Objects S
put_settings p x o = record o { socket_settings = λ i. if i == p then x else o.socket_settings i }
