-- ===== src/Messages/Receive.antt =====
-- Receiving by ext_recvmsg and the calls on top of it (socketapi/sctpsocketwrapper.cc:
-- ext_recvmsg_singlebuffer, ext_recvmsg2). What receive of an association and receiveFrom of a socket
-- give is an argument, with a state of its own.
use socketapi.Prelude.{
  ℕ, zero, suc, Bool, true, false, not, ◌&&◌, ◌||◌, [], Option, none, some, Bytes, length, ◌==◌,
  leb, if◌then◌else◌,
}
use socketapi.Strings.Decimal.{ℤ, pos, negsuc, neg}
use socketapi.Internet.{has_flag}
use socketapi.Internet.System.{Sockaddr}
use socketapi.Addresses.{SocketAddress}
use socketapi.Descriptors.{SctpDesc}
use socketapi.Options.Values.{SndRcvInfo}
use socketapi.Options.Access.{Target, by_association, by_socket, nowhere, target}
use socketapi.Messages.{Flags, msg_dontwait}

-- What a call of receive gives: its result, the bytes in the buffer, which are as many as the size that
-- is left in iov_len, the flags, and what goes into the struct for the caller.
pub record Received : Type 0 where
  pub result : ℤ
  pub bytes : Bytes
  pub flags_after : Flags
  pub from_stream : ℕ
  pub from_ppid : ℕ
  pub from_ssn : ℕ
  pub from_tsn : ℕ
  pub from_assoc : ℕ
  pub remote : Option SocketAddress

-- receive and receiveFrom for a size and flags, the notification flags, and getSystemAddress for a
-- size and a domain. `flags_number` are the flags of the call as a number.
pub record RecvApi (R : Type 0) : Type 0 where
  pub receive : Target → ℕ → Flags → R → R × Received
  pub notification_flags : Target → R → ℕ
  pub write_address : SocketAddress → ℕ → ℕ → Option Sockaddr
  pub flags_number : ℕ

-- msghdr for receiving, without its buffers: the sizes behind msg_name and msg_control, `none` for
-- NULL, the flags, and what is written. CSpace(sizeof(sctp_sndrcvinfo)) is 56.
pub record RecvHeader : Type 0 where
  pub name_space : Option ℕ
  pub control_space : Option ℕ
  pub header_flags : Flags
  pub name : Option Sockaddr
  pub info : Option SndRcvInfo

-- MSG_NOTIFICATION is MSG_OOB, and MSG_EOR is 0x80.
abbrev pub msg_notification : ℕ
msg_notification = 0

abbrev pub msg_eor : ℕ
msg_eor = 7

abbrev pub is_again : ℤ → Bool
is_again (pos n) = false
is_again (negsuc n) = n == 10

abbrev pub is_negative : ℤ → Bool
is_negative (pos n) = false
is_negative (negsuc n) = true

-- What one buffer gets: the result in front of errno, the length that is left in iov_len, and the
-- bytes.
pub record OneBuffer : Type 0 where
  pub header : RecvHeader
  pub one_result : ℤ
  pub iov_len : ℕ
  pub contents : Bytes

-- The flags that receive gets.
abbrev pub flags_for : SctpDesc → Flags → Bool → RecvHeader → Flags
flags_for d f notifications h i =
    if i == msg_notification
    then notifications
    else h.header_flags i || f i || (has_flag d.flags 2048 && i == msg_dontwait)

abbrev pub failed_header : Flags → RecvHeader → RecvHeader
failed_header f h = record h {
  header_flags = f;
  name_space = none;
  control_space = none;
  name = none;
  info = none;
}

module _ {R : Type 0} (api : RecvApi R) where
  -- The loop around receive, which goes on while -EAGAIN comes without MSG_DONTWAIT; `none` where more
  -- than `n` rounds are needed.
  unfoldable pub receive_loop : ℕ → Target → ℕ → Flags → R → Option (R × Received)
  receive_loop zero t size f s = none
  receive_loop (suc n) t size f s =
      let (u, got) = api.receive t size f s in
      let rest = receive_loop n t size got.flags_after u in
      if is_again got.result && not (got.flags_after msg_dontwait) then rest else some (u, got)

  abbrev written_name : SctpDesc → Option ℕ → Option SocketAddress → Option Sockaddr
  written_name d (some size) (some a) = api.write_address a size d.domain
  written_name d _ _ = none

  abbrev info_for : Received → SndRcvInfo
  info_for got = record {
    sinfo_stream = got.from_stream;
    sinfo_ssn = got.from_ssn;
    sinfo_flags = api.flags_number;
    sinfo_ppid = got.from_ppid;
    sinfo_context = 0;
    sinfo_timetolive = 0;
    sinfo_tsn = got.from_tsn;
    sinfo_cumtsn = 0;
    sinfo_assoc_id = got.from_assoc;
  }

  abbrev has_space : Option ℕ → Bool
  has_space none = false
  has_space (some n) = leb 56 n

  -- The header where something was received, and where not.
  unfoldable pub filled_header : SctpDesc → Target → R → Received → RecvHeader → RecvHeader
  filled_header d t s got h =
      let told = has_flag (api.notification_flags t s) 1 && has_space h.control_space in
      record h {
        header_flags = got.flags_after;
        name = written_name d h.name_space got.remote;
        control_space = if told then some 56 else none;
        info = if told then some (info_for got) else none;
      }

  -- ext_recvmsg_singlebuffer on an SCTP descriptor that stands for `t`, for a buffer of the size and the
  -- flags `g` of receive.
  abbrev ended : SctpDesc → Target → RecvHeader → R × Received → R × OneBuffer
  ended d t h (u, got) = (
    u,
    (if is_negative got.result
        then record {
          header = failed_header got.flags_after h;
          one_result = got.result;
          iov_len = length got.bytes;
          contents = got.bytes;
        }
        else record {
          header = filled_header d t u got h;
          one_result = pos (length got.bytes);
          iov_len = length got.bytes;
          contents = got.bytes;
        }),
  )

  abbrev pub ended_all :
      SctpDesc → Target → RecvHeader → Option (R × Received) → Option (R × OneBuffer)
  ended_all d t h none = none
  ended_all d t h (some r) = some (ended d t h r)

  unfoldable pub recv_for :
      ℕ → SctpDesc → Flags → ℕ → RecvHeader → R → Target → Option (R × OneBuffer)
  recv_for n d g size h s (by_association a) =
      ended_all d (by_association a) h (receive_loop n (by_association a) size g s)
  recv_for n d g size h s (by_socket p) =
      ended_all d (by_socket p) h (receive_loop n (by_socket p) size g s)
  recv_for n d g size h s nowhere =
      some (
        s,
        record { header = failed_header g h; one_result = neg 9; iov_len = size; contents = [] },
      )

  unfoldable pub recv_single :
      ℕ → SctpDesc → Flags → Bool → ℕ → RecvHeader → R → Option (R × OneBuffer)
  recv_single n d f notifications size h s =
      recv_for n d (flags_for d f notifications h) size h s (target d)
