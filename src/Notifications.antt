-- ===== src/Notifications.antt =====
-- The class SCTPNotificationQueue (socketapi/sctpnotificationqueue.h, .icc and .cc): a linked list
-- of notifications on a heap of its own, in the order in which they came.
pub mod Represents
pub mod Keeps
pub mod Loops
pub mod Fifo
mod Tests
use socketapi.Prelude.{
  ℕ, zero, suc, ◌+◌, ◌-◌, Bool, true, false, ◌&&◌, ◌||◌, Option, none, some, List, ◌==◌,
  if◌then◌else◌, Bytes,
}
use socketapi.Internet.{has_flag}
use socketapi.Internet.System.{Sockaddr}

-- The union sctp_notification without its type, lengths and constant fields: flags, bytes that
-- arrived, stream and payload protocol; state, error and address; state and numbers of streams.
pub data Content : Type 0 where
  undefined send_failed remote_error shutdown_event : Content
  data_arrive : ℕ → ℕ → ℕ → ℕ → Content
  paddr_change : ℕ → ℕ → Option Sockaddr → Content
  assoc_change : ℕ → ℕ → ℕ → Content

-- An SCTPNotification: `sn_type` is in the header of its content, `sn_assoc_id` in most contents.
pub record Notification : Type 0 where
  pub remote_port : ℕ
  pub remote_addresses : List Bytes
  pub content_position : ℕ
  pub sn_type : ℕ
  pub sn_assoc_id : ℕ
  pub content : Content

-- A notification with its NextNotification.
pub record Node : Type 0 where
  pub note : Notification
  pub next : Option ℕ

-- The cells at their addresses; a null pointer is `none`.
abbrev pub Heap : Type 0
Heap = ℕ → Option Node

pub record Queue : Type 0 where
  pub heap : Heap
  pub first : Option ℕ
  pub last : Option ℕ
  pub count : ℕ
  -- UpdateCondition has been broadcast.
  pub updated : Bool

unfoldable pub set_cell : Heap → ℕ → Option Node → Heap
set_cell h a x b = if b == a then x else h b

-- Last->NextNotification = newNotification.
unfoldable pub set_next : Heap → ℕ → Option ℕ → Heap
unfolding set_cell
set_next h a p = elim (h a) [ none ↦ h | some n ↦ set_cell h a (some (record n { next = p })) ]

abbrev pub or_else : Option ℕ → Option ℕ → Option ℕ
or_else none b = b
or_else (some a) b = some a

unfoldable pub empty_queue : Heap → Queue
empty_queue h = record { heap = h; first = none; last = none; count = 0; updated = false }

-- The address is what `new` returns. The second result is that of the call.
unfoldable pub add_notification : Option ℕ → Notification → Queue → Queue × Bool
unfolding set_cell set_next
add_notification none n q = (q, false)
add_notification (some a) n q =
    let made = set_cell q.heap a (some (record { note = n; next = none })) in
    (
      record {
        heap = elim (q.last) [ none ↦ made | some l ↦ set_next made l (some a) ];
        first = or_else q.first (some a);
        last = some a;
        count = q.count + 1;
        updated = true;
      },
      true,
    )

-- `none` stands for the result false.
unfoldable pub get_notification : Queue → Option Notification
get_notification q = elim (q.first) [
  | none ↦ none
  | some a ↦ elim (q.heap a) [ none ↦ none | some n ↦ some n.note ]
]

unfoldable pub update_notification : Notification → Queue → Queue
unfolding set_cell
update_notification m q = elim (q.first) [
  | none ↦ q
  | some a ↦ elim (q.heap a) [
    | none ↦ q
    | some n ↦ record q { heap = set_cell q.heap a (some (record n { note = m })) }
  ]
]

abbrev pub same_pointer : Option ℕ → ℕ → Bool
same_pointer none a = false
same_pointer (some b) a = b == a

unfoldable pub drop_notification : Queue → Queue
unfolding set_cell
drop_notification q = elim (q.first) [
  | none ↦ q
  | some a ↦ elim (q.heap a) [
    | none ↦ q
    | some n ↦ record q {
      heap = set_cell q.heap a none;
      first = n.next;
      last = if same_pointer q.last a then n.next else q.last;
      count = q.count - 1;
    }
  ]
]

-- The loop of flush on fuel: `none` where it runs out.
unfoldable pub delete_cells : ℕ → Heap → Option ℕ → Option Heap
unfolding set_cell
delete_cells f h none = some h
delete_cells zero h (some a) = none
delete_cells (suc f) h (some a) = elim (h a) [
  | none ↦ none
  | some n ↦ delete_cells f (set_cell h a none) n.next
]

unfoldable pub flush : ℕ → Queue → Option Queue
flush f q = elim (delete_cells f q.heap q.first) [
  | none ↦ none
  | some h ↦ some (record q { heap = h; first = none; last = none; count = 0 })
]

-- SCTP_DATA_ARRIVE, SCTP_ASSOC_CHANGE, SCTP_PEER_ADDR_CHANGE, SCTP_REMOTE_ERROR, SCTP_SEND_FAILED
-- and SCTP_SHUTDOWN_EVENT, each with the flag that asks for it.
unfoldable pub wants : ℕ → Notification → Bool
wants flags n =
    n.sn_type == 8
    || (n.sn_type == 1 && has_flag flags 2)
    || (n.sn_type == 2 && has_flag flags 4)
    || (n.sn_type == 3 && has_flag flags 8)
    || (n.sn_type == 4 && has_flag flags 16)
    || (n.sn_type == 5 && has_flag flags 32)

-- The loop of hasData on fuel.
unfoldable pub find_data : ℕ → ℕ → Heap → Option ℕ → Option Bool
find_data flags f h none = some false
find_data flags zero h (some a) = none
find_data flags (suc f) h (some a) = elim (h a) [
  | none ↦ none
  | some n ↦ let rest = find_data flags f h n.next in if wants flags n.note then some true else rest
]

unfoldable pub has_data : ℕ → ℕ → Queue → Option Bool
has_data flags f q = find_data flags f q.heap q.first
