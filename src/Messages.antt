-- ===== src/Messages.antt =====
-- Messages with their control data (socketapi/sctpsocketwrapper.cc): what is handed to ext_sendmsg,
-- and what it calls. What the SCTP classes and the system return are arguments. Sending has the
-- calls, Receive what receives, Gather the copy of several buffers.
pub mod Gather
pub mod Sending
pub mod Receive
pub mod Buffers
pub mod Sent
mod Tests
use socketapi.Prelude.{
  ℕ, ◌+◌, ◌-◌, ◌≡◌, Bool, true, false, not, ◌&&◌, ◌||◌, List, [], ◌∷◌, ◌++◌, Option, none, some,
  Bytes, length, ◌==◌, if◌then◌else◌,
}
use socketapi.Strings.Decimal.{ℤ, pos, negsuc, neg}
use socketapi.Internet.{has_flag}
use socketapi.Internet.System.{Sockaddr, sock_in, sock_in6, sock_un, sock_other}
use socketapi.Addresses.{SocketAddress}
use socketapi.Descriptors.{
  SctpDesc, Descriptor, invalid, system, sctp, World, set_slot, errno_result, get_socket,
}
use socketapi.Descriptors.Calls.{Api, bind_to_any}
use socketapi.Options.Values.{SndRcvInfo, InitMsg}
use socketapi.Messages.Gather.{gather}

-- Flags by their bits. MSG_MULTIADDRS is MSG_TRUNC, MSG_PR_SCTP_TTL is MSG_ERRQUEUE.
abbrev pub Flags : Type 0
Flags = ℕ → Bool

abbrev pub no_flags : Flags
no_flags i = false

abbrev pub or_flags : Flags → Flags → Flags
or_flags f g i = f i || g i

abbrev pub one_flag : ℕ → Flags
one_flag n i = i == n

abbrev pub msg_multiaddrs : ℕ
msg_multiaddrs = 5

abbrev pub msg_dontwait : ℕ
msg_dontwait = 6

abbrev pub msg_pr_sctp_ttl : ℕ
msg_pr_sctp_ttl = 13

abbrev pub infinite_lifetime : ℕ
infinite_lifetime = 0xffff_ffff

-- A control message: an SCTP_SNDRCV that is long enough or too short, an SCTP_INIT, or another one.
pub data Cmsg : Type 0 where
  sndrcv : SndRcvInfo → Cmsg
  short_sndrcv : Cmsg
  init : InitMsg → Cmsg
  other_cmsg : Cmsg

-- msghdr for sending: the addresses that stand one behind the other at msg_name, the buffers, and the
-- control messages in their order.
pub record SendHeader : Type 0 where
  pub msg_name : Option (List Sockaddr)
  pub buffers : List Bytes
  pub control : List Cmsg
  pub msg_flags : Flags

-- The parameters of sendTo of a socket; those of send of an association are among them.
pub record SendRequest : Type 0 where
  pub payload : Bytes
  pub flags : Flags
  pub send_assoc_id : ℕ
  pub stream : ℕ
  pub ppid : ℕ
  pub lifetime : ℕ
  pub max_attempts : ℕ
  pub max_init_timeo : ℕ
  pub use_defaults : Bool
  pub destinations : Option (List SocketAddress)
  pub out_streams : ℕ

-- createSocketAddress, associate of a socket with the streams, the attempts, the timeout, an address
-- and whether it waits, and sendTo and send.
pub record SendApi : Type 0 where
  pub binder : Api
  pub random : ℕ → ℕ
  pub make_address : Sockaddr → Option SocketAddress
  pub associate : ℕ → ℕ → ℕ → ℕ → SocketAddress → Bool → Option ℕ
  pub socket_sends : ℕ → SendRequest → ℤ
  pub association_sends : ℕ → SendRequest → ℤ

abbrev pub is_blocking : SctpDesc → Bool
is_blocking d = not (has_flag d.flags 2048)
