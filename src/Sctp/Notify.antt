-- ===== src/Sctp/Notify.antt =====
-- How the master makes a notification and puts it into a queue (socketapi/sctpsocketmaster.cc:
-- initNotification and addNotification), and what tells a reader that there is data
-- (socketapi/sctpsocket.cc: hasData, getErrorCode). A queue is the list that it stands for.
use socketapi.Prelude.{
  ℕ, ◌+◌, ◌%◌, ◌^◌, Bool, true, false, not, ◌&&◌, ◌||◌, List, [], ◌∷◌, ◌++◌, Option, none, some,
  Bytes, take, if◌then◌else◌,
}
use socketapi.Strings.Decimal.{ℤ, pos, negsuc}
use socketapi.Notifications.{Notification, undefined, wants}
use socketapi.Association.{Association}
use socketapi.Sctp.{Socket, Lib, put_association, get_association}

-- initNotification(notification). The argument is the memory of the structure.
unfoldable pub blank_notification : Notification → Notification
blank_notification memory = record memory {
  sn_type = 0;
  content = undefined;
  content_position = 0;
  remote_port = 0;
  remote_addresses = [];
}

-- The array of addresses: what fails leaves an element as it is.
unfoldable pub fill_addresses : List (Option Bytes) → List Bytes → List Bytes
fill_addresses [] old = []
fill_addresses (p ∷ ps) [] = elim (p) [ none ↦ [] | some b ↦ b ] ∷ fill_addresses ps []
fill_addresses (p ∷ ps) (o ∷ old) = elim (p) [ none ↦ o | some b ↦ b ] ∷ fill_addresses ps old

-- initNotification(notification, assocID, streamID), with its result.
unfoldable pub init_notification : Lib → ℕ → Notification → Notification × Bool
init_notification lib id memory = elim (lib.status_of id) [
  | none ↦ (record memory { sn_type = 0; content = undefined; content_position = 0 }, false)
  | some st ↦ (
    record memory {
      sn_type = 0;
      content = undefined;
      content_position = 0;
      remote_port = st.dest_port;
      remote_addresses =
          fill_addresses (take lib.max_num_addresses st.paths) memory.remote_addresses;
    },
    true,
  )
]

-- hasData of a queue.
unfoldable pub queue_has_data : ℕ → List Notification → Bool
queue_has_data flags [] = false
queue_has_data flags (n ∷ ns) = wants flags n || queue_has_data flags ns

-- hasData of a socket and of an association.
unfoldable pub socket_has_data : Socket → Bool
socket_has_data s = s.global_queue_flag && queue_has_data s.socket_notification_flags s.global_queue

unfoldable pub association_has_data : Association → Bool
association_has_data a = queue_has_data a.notification_flags a.in_queue

abbrev pub is_empty {ℓ} : {A : Type ℓ} → List A → Bool
is_empty [] = true
is_empty (x ∷ xs) = false

-- ReadReady = hasData() || (ConnectionRequests != NULL).
unfoldable pub refresh_ready : Socket → Socket
refresh_ready s = record s { socket_read_ready = socket_has_data s || not (is_empty s.requests) }

-- UseCount++.
abbrev pub use_more : Association → Association
use_more a = record a { use_count = (a.use_count + 1) % 2 ^ 32 }

abbrev pub to_global : Association → Socket → Bool
to_global a s = s.global_queue_flag && not a.peeled_off

-- A notification that is wanted.
unfoldable pub enqueue : Notification → Association → Socket → Socket
enqueue n a s =
    let b = use_more a in
    let c = record b { in_queue = b.in_queue ++ n ∷ [] } in
    if to_global a s
    then refresh_ready (record s {
      associations = put_association b s.associations;
      global_queue = s.global_queue ++ n ∷ [];
    })
    else record s {
      associations =
          put_association (record c { read_ready = association_has_data c }) s.associations;
    }

-- addNotification. One that is not wanted only wakes the threads that wait.
unfoldable pub queue_notification : ℕ → Notification → Socket → Socket
queue_notification id n s = elim (get_association id false s) [
  | none ↦ s
  | some a ↦ if wants a.notification_flags n then enqueue n a s else s
]

-- ECONNRESET and ECONNABORTED, on Linux, negated.
abbrev pub minus_econnreset : ℤ
minus_econnreset = negsuc 103

abbrev pub minus_econnaborted : ℤ
minus_econnaborted = negsuc 102

-- getErrorCode, which marks an exception.
unfoldable pub get_error_code : ℕ → Socket → Socket × ℤ
get_error_code id s = elim (get_association id false s) [
  | none ↦ (s, pos 0)
  | some a ↦
      let t = record s {
        associations = put_association (record a { has_exception = true }) s.associations;
      } in
      if a.shutdown_complete
      then (t, minus_econnreset)
      else if a.lost
      then (t, minus_econnaborted)
      else (s, pos 0)
]
