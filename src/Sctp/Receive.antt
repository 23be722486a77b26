-- ===== src/Sctp/Receive.antt =====
-- Receiving from a queue (socketapi/sctpsocket.cc: internalReceive). One call is modelled up to
-- where it returns, waits for a notification or ends the process; flags are Booleans.
use socketapi.Prelude.{
  ℕ, ◌+◌, ◌-◌, ◌%◌, ◌^◌, min, Bool, true, false, not, ◌&&◌, ◌||◌, List, [], ◌∷◌, Option, none, some,
  Bytes, length, ◌==◌, ltb, if◌then◌else◌,
}
use socketapi.Strings.Decimal.{ℤ, pos, negsuc}
use socketapi.Internet.{has_flag}
use socketapi.Addresses.{SocketAddress}
use socketapi.Notifications.{
  Notification, Content, undefined, send_failed, remote_error, shutdown_event, data_arrive,
  paddr_change, assoc_change, wants,
}
use socketapi.Sctp.{Socket, Lib, find_association, put_association, get_association}
use socketapi.Sctp.Notify.{
  queue_has_data, association_has_data, get_error_code, refresh_ready, minus_econnaborted,
}

-- The queue: the socket's GlobalQueue, or the InQueue of an association.
pub data Source : Type 0 where
  global : Source
  of_association : ℕ → Source

unfoldable pub queue_of : Source → Socket → List Notification
queue_of global s = s.global_queue
queue_of (of_association id) s = elim (find_association id s.associations) [
  | none ↦ []
  | some a ↦ a.in_queue
]

unfoldable pub put_queue : Source → List Notification → Socket → Socket
put_queue global ns s = record s { global_queue = ns }
put_queue (of_association id) ns s = elim (find_association id s.associations) [
  | none ↦ s
  | some a ↦ record s { associations = put_association (record a { in_queue = ns }) s.associations }
]

-- updateNotification and dropNotification.
abbrev pub update_first : Notification → List Notification → List Notification
update_first n [] = []
update_first n (m ∷ ns) = n ∷ ns

abbrev pub drop_first : List Notification → List Notification
drop_first [] = []
drop_first (n ∷ ns) = ns

-- What is in the buffer: bytes of the peer, or bytes of a notification, from a position on.
pub data Buffer : Type 0 where
  untouched : Buffer
  user_data : Bytes → Buffer
  notification_data : Notification → ℕ → ℕ → Buffer

-- The parameters of a call, before it and after it.
pub record Request : Type 0 where
  pub buffer : Buffer
  pub buffer_size : ℕ
  pub msg_notification : Bool
  pub msg_peek : Bool
  pub msg_dontwait : Bool
  pub msg_unordered : Bool
  pub msg_eor : Bool
  pub request_id : ℕ
  pub stream_id : ℕ
  pub proto_id : ℕ
  pub ssn : ℕ
  pub tsn : ℕ
  pub wants_address : Bool
  pub address : Option SocketAddress

-- sctp_receive for an association, a stream, a number of bytes and a peek: the data with its SSN and
-- TSN; the address of the path, as sctp_getPathStatus tells it; and createSocketAddress of an
-- address with a port.
pub record Receiver : Type 0 where
  pub lib : Lib
  pub sctp_receive : ℕ → ℕ → ℕ → Bool → Option (Bytes × ℕ × ℕ)
  pub path_address : ℕ → Option Bytes
  pub make_address : Bytes → ℕ → Option SocketAddress
  pub now : ℕ

pub data Outcome : Type 0 where
  returned : Socket → Request → ℤ → Outcome
  waiting : Socket → Outcome
  aborted : Outcome

-- EINVAL and EAGAIN, negated.
abbrev pub minus_einval : ℤ
minus_einval = negsuc 21

abbrev pub minus_eagain : ℤ
minus_eagain = negsuc 10

abbrev pub is_negative : ℤ → Bool
is_negative (pos n) = false
is_negative (negsuc n) = true

abbrev pub is_reset : ℤ → Bool
is_reset (pos n) = false
is_reset (negsuc n) = n == 103

-- No notification is there.
unfoldable pub receive_nothing : Source → ℕ → Request → Socket → Outcome
receive_nothing src flags r s =
    let (t, error) = get_error_code r.request_id s in
    if is_negative error
    then if is_reset error && not (queue_has_data flags (queue_of src t))
      then returned t (record r { buffer_size = 0; msg_notification = false }) (pos 0)
      else returned t (record r { buffer_size = 0 }) error
    else if r.msg_dontwait
    then returned t r minus_eagain
    else waiting t

-- association->ReadReady = hasData() || getErrorCode() < 0, with the error.
unfoldable pub mark_ready : ℕ → ℤ → Socket → Socket
mark_ready id error s = elim (find_association id s.associations) [
  | none ↦ s
  | some a ↦ record s {
    associations =
        put_association (record a { read_ready = association_has_data a || is_negative error })
          s.associations;
  }
]

-- The rest of the end of a call that drops a notification.
unfoldable pub count_down : Receiver → Request → ℤ → Socket → Outcome
count_down env r result t = elim (get_association r.request_id false t) [
  | none ↦ returned (refresh_ready t) r result
  | some a ↦
      let used = record a { last_usage = env.now; use_count = a.use_count - 1 } in
      let u = record t { associations = put_association used t.associations } in
      let (v, error) = get_error_code r.request_id u in
      let w = mark_ready r.request_id error v in
      if a.use_count == 0 then aborted else returned (refresh_ready w) r result
]

-- The end of a call: a notification that has not been updated is dropped, and its association is in
-- use once less.
unfoldable pub finish_drop : Receiver → Source → Request → ℤ → Socket → Outcome
finish_drop env src r result s =
    count_down env r result (put_queue src (drop_first (queue_of src s)) s)

unfoldable pub finish_update : Source → Notification → Request → ℤ → Socket → Outcome
finish_update src n r result s =
    returned (put_queue src (update_first n (queue_of src s)) s) r result

-- sda_flags, sda_bytes_arrived, sda_stream and sda_ppid; a notification of the type of arrived data
-- has them.
unfoldable pub arrival : Content → ℕ × ℕ × ℕ × ℕ
arrival (data_arrive flags bytes stream ppid) = (flags, bytes, stream, ppid)
arrival undefined = (0, 0, 0, 0)
arrival send_failed = (0, 0, 0, 0)
arrival remote_error = (0, 0, 0, 0)
arrival shutdown_event = (0, 0, 0, 0)
arrival (paddr_change state error a) = (0, 0, 0, 0)
arrival (assoc_change state out_streams in_streams) = (0, 0, 0, 0)

-- The address that the data came from, if it is asked for.
unfoldable pub address_of : Receiver → Request → ℕ → Option SocketAddress
address_of env r id =
    if r.wants_address
    then elim (env.path_address id) [
      | none ↦ r.address
      | some p ↦ elim (env.lib.status_of id) [
        | none ↦ r.address
        | some st ↦ env.make_address p st.dest_port
      ]
    ]
    else r.address

-- A data notification, of which there are bytes to read.
unfoldable pub receive_data : Receiver → Source → Notification → Request → Socket → Outcome
receive_data env src n q s =
    let (flags, bytes, stream, ppid) = arrival n.content in
    let id = n.sn_assoc_id in
    let r = record q {
      msg_notification = false;
      request_id = id;
      stream_id = stream;
      proto_id = ppid;
      msg_unordered = q.msg_unordered || has_flag flags 1;
    } in
    elim (env.sctp_receive id stream (min bytes q.buffer_size) q.msg_peek) [
      | none ↦ finish_drop env src r minus_econnaborted s
      | some (got, ssn, tsn) ↦
          let t = record r {
            buffer = user_data got;
            buffer_size = length got;
            ssn = ssn;
            tsn = tsn;
            address = address_of env q id;
          } in
          let left = (bytes + 2 ^ 32 - length got) % 2 ^ 32 in
          let rest = record n { content = data_arrive flags left stream ppid } in
          if q.msg_peek
          then finish_update src n t (pos (length got)) s
          else if ltb 0 left
          then finish_update src rest t (pos (length got)) s
          else finish_drop env src (record t { msg_eor = true }) (pos (length got)) s
    ]

-- sn_length: sizeof the structure, on a 64-bit Linux. The one of a shutdown event has the size of an
-- association change.
unfoldable pub sn_length : Content → ℕ
sn_length undefined = 0
sn_length send_failed = 48
sn_length remote_error = 16
sn_length shutdown_event = 20
sn_length (data_arrive flags bytes stream ppid) = 24
sn_length (paddr_change state error a) = 152
sn_length (assoc_change state out_streams in_streams) = 20

-- The number of the association by the type of a notification, `none` for a type that ends the
-- process. A failure to send that has the type of a remote error has the zeros of sinfo_stream and
-- sinfo_ssn where the number of the association would be.
unfoldable pub event_id : Notification → Option ℕ
event_id n =
    if n.sn_type == 3
    then some (elim (n.content) [ send_failed ↦ 0 | _ ↦ n.sn_assoc_id ])
    else if n.sn_type == 1 || n.sn_type == 2 || n.sn_type == 4 || n.sn_type == 5
    then some n.sn_assoc_id
    else none

-- A notification of another type that the caller wants to see: a piece of it is copied.
unfoldable pub receive_event : Receiver → Source → Notification → Request → Socket → Outcome
receive_event env src n r s =
    let size = sn_length n.content in
    let copied = min ((size + 2 ^ 32 - n.content_position) % 2 ^ 32) (r.buffer_size % 2 ^ 32) in
    let place = (n.content_position + copied) % 2 ^ 32 in
    let kept = record n { content_position = if r.msg_peek then 0 else place } in
    let t = record r {
      buffer = notification_data n n.content_position copied;
      buffer_size = copied;
      msg_notification = true;
    } in
    let done = record t { msg_eor = true } in
    if ltb place size
    then finish_update src kept t (pos copied) s
    else if r.msg_peek
    then finish_update src kept done (pos copied) s
    else finish_drop env src done (pos copied) s

-- And one that the caller does not want to see is dropped.
unfoldable pub skip_event : Receiver → Source → Request → Socket → Outcome
skip_event env src r s =
    let (t, error) = get_error_code r.request_id s in
    if is_negative error
    then finish_drop env src r error t
    else finish_drop env src (record r { msg_notification = false }) minus_eagain t

-- internalReceive. The argument `flags` is notificationFlags.
unfoldable pub internal_receive : Receiver → Source → ℕ → Request → Socket → Outcome
internal_receive env src flags r s = elim (queue_of src s) [
  | [] ↦ if r.buffer_size == 0 then returned s r minus_einval else receive_nothing src flags r s
  | n ∷ ns ↦
      if r.buffer_size == 0
      then returned s r minus_einval
      else if n.sn_type == 8
      then if ltb 0 (arrival n.content).1
        then receive_data env src n r s
        else finish_drop env src (record r { msg_notification = false; buffer_size = 0 }) (pos 0) s
      else elim (event_id n) [
        | none ↦ aborted
        | some id ↦
            let q = record r { request_id = id } in
            if r.msg_notification && wants flags n
            then receive_event env src n q s
            else skip_event env src q s
      ]
]
