-- ===== src/Sctp.antt =====
-- The classes SCTPSocket and SCTPSocketMaster (socketapi/sctpsocket.h and .cc, sctpsocketmaster.h
-- and .cc): the state, and how a socket and an association are found.
-- An association is named by its number, under which sctplib knows it, and a socket by the number of
-- its instance. The callbacks that sctplib makes are steps of their own.
pub mod Closing
pub mod Collect
pub mod Unbind
pub mod AutoClose
pub mod Lifetime
pub mod Notify
pub mod Callbacks
pub mod Events
pub mod Every
pub mod Find
pub mod Receive
pub mod Counting
pub mod Accept
pub mod Send
pub mod Kept
pub mod Errors
mod Tests
use socketapi.Prelude.{
  ℕ, ◌+◌, Bool, true, false, not, ◌&&◌, ◌||◌, List, [], ◌∷◌, ◌++◌, Option, none, some, Bytes, ◌==◌,
  ltb, leb, if◌then◌else◌,
}
use socketapi.Notifications.{Notification}
use socketapi.Association.{Association, LibCall}

-- IncomingConnection: the number of the association, and the notification.
pub record Incoming : Type 0 where
  pub incoming_id : ℕ
  pub notification : Notification

-- ConnectionlessAssociationList holds pointers to associations that AssociationList has too; they
-- are numbers here. `listening`, `global_queue_flag` and `auto_connect` are bits of Flags.
pub record Socket : Type 0 where
  pub instance : ℕ
  pub listening : Bool
  pub global_queue_flag : Bool
  pub auto_connect : Bool
  pub socket_notification_flags : ℕ
  pub socket_read_ready : Bool
  pub auto_close_timeout : ℕ
  pub associations : List Association
  pub connectionless : List ℕ
  pub requests : List Incoming
  pub global_queue : List Notification

-- ClosingAssociations holds the numbers of associations with those of their instances.
pub record Master : Type 0 where
  pub sockets : List Socket
  pub closing_sockets : List ℕ
  pub closing_associations : List (ℕ × ℕ)
  pub lib_calls : List LibCall

-- AssociationList.find.
unfoldable pub find_association : ℕ → List Association → Option Association
find_association id [] = none
find_association id (a ∷ xs) =
    let rest = find_association id xs in if a.assoc_id == id then some a else rest

-- What AssociationList.erase leaves, at the first association with the number.
unfoldable pub erase_association : ℕ → List Association → List Association
erase_association id [] = []
erase_association id (a ∷ xs) =
    let rest = erase_association id xs in if a.assoc_id == id then xs else a ∷ rest

-- AssociationList.insert: a multimap, in the order of the numbers.
unfoldable pub insert_association : Association → List Association → List Association
insert_association b [] = b ∷ []
insert_association b (a ∷ xs) =
    let rest = insert_association b xs in if ltb b.assoc_id a.assoc_id then b ∷ a ∷ xs else a ∷ rest

-- A write through the pointer to an association.
unfoldable pub put_association : Association → List Association → List Association
put_association b [] = []
put_association b (a ∷ xs) =
    let rest = put_association b xs in if a.assoc_id == b.assoc_id then b ∷ xs else a ∷ rest

-- getAssociationForAssociationID.
unfoldable pub get_association : ℕ → Bool → Socket → Option Association
get_association id active_only s = elim (find_association id s.associations) [
  | none ↦ none
  | some a ↦ if a.shutting_down && active_only then none else some a
]

-- SocketList.find, and a write through the pointer to a socket.
unfoldable pub find_socket : ℕ → List Socket → Option Socket
find_socket i [] = none
find_socket i (s ∷ ss) = let rest = find_socket i ss in if s.instance == i then some s else rest

unfoldable pub put_socket : Socket → List Socket → List Socket
put_socket t [] = []
put_socket t (s ∷ ss) =
    let rest = put_socket t ss in if s.instance == t.instance then t ∷ ss else s ∷ rest

unfoldable pub erase_socket : ℕ → List Socket → List Socket
erase_socket i [] = []
erase_socket i (s ∷ ss) = let rest = erase_socket i ss in if s.instance == i then ss else s ∷ rest

-- What sctplib tells of an association: its destination port, the addresses of its paths, or `none`
-- for one whose status fails, and its numbers of streams.
pub record LibStatus : Type 0 where
  pub dest_port : ℕ
  pub paths : List (Option Bytes)
  pub out_streams : ℕ
  pub in_streams : ℕ

-- sctp_getInstanceID and sctp_getAssocStatus, `none` for an error, and SCTP_MAX_NUM_ADDRESSES.
pub record Lib : Type 0 where
  pub instance_of : ℕ → Option ℕ
  pub status_of : ℕ → Option LibStatus
  pub max_num_addresses : ℕ

-- getSocketForAssociationID.
unfoldable pub get_socket_for : Lib → ℕ → Master → Option Socket
get_socket_for lib id m = elim (lib.instance_of id) [
  | none ↦ none
  | some i ↦ let found = find_socket i m.sockets in if i == 0 then none else found
]

abbrev pub note_lib : List LibCall → Master → Master
note_lib calls m = record m { lib_calls = m.lib_calls ++ calls }
