-- ===== src/Descriptors.antt =====
-- The table of socket descriptors and the calls that open and close them
-- (ExtSocketDescriptorMaster, ext_socket, ext_open and ext_creat of
-- socketapi/sctpsocketwrapper.cc; ext_close and ext_pipe are in Closing, the calls on one descriptor in
-- Calls, Names and Connect, lists of addresses in Packing). What the system and `new` return are arguments;
-- calls of the system and of the SCTP classes are noted down in the order in which they are made.
pub mod Slots
pub mod Open
pub mod Closing
pub mod Sharing
pub mod Pipe
pub mod Packing
pub mod Calls
pub mod Connect
pub mod Connecting
pub mod Names
pub mod Accepting
mod Tests
use socketapi.Prelude.{
  ℕ, zero, suc, ◌+◌, ◌-◌, ◌%◌, ◌^◌, Bool, true, false, not, ◌&&◌, ◌||◌, Option, none, some, List,
  [], ◌∷◌, ◌++◌, ◌==◌, ltb, if◌then◌else◌,
}
use socketapi.Strings.Decimal.{ℤ, pos, negsuc, neg}

-- FD_SETSIZE.
abbrev pub max_sockets : ℕ
max_sockets = 1024

-- SCTPSocketDesc, with the fields of its InitMsg and its Linger.
pub record SctpDesc : Type 0 where
  pub domain : ℕ
  pub type : ℕ
  pub flags : ℕ
  pub connection_oriented : Bool
  pub sinit_num_ostreams : ℕ
  pub sinit_max_instreams : ℕ
  pub sinit_max_attempts : ℕ
  pub sinit_max_init_timeo : ℕ
  pub l_onoff : ℕ
  pub l_linger : ℕ
  pub socket_ptr : Option ℕ
  pub association_ptr : Option ℕ

-- ExtSocketDescriptor by its Type.
pub data Descriptor : Type 0 where
  invalid : Descriptor
  system : ℕ → Descriptor
  sctp : SctpDesc → Descriptor

abbrev pub Table : Type 0
Table = ℕ → Descriptor

pub data Effect : Type 0 where
  close_fd : ℕ → Effect
  new_socket : ℕ → ℕ → ℕ → Effect
  set_notification_flags : ℕ → ℕ → Effect
  shutdown_association abort_association delete_association delete_socket : ℕ → Effect
  unbind : ℕ → Bool → Effect
  bind_socket : ℕ → ℕ → ℕ → ℕ → Effect
  listen_socket set_association_flags : ℕ → ℕ → Effect
  socket_address association_address : ℕ → Bool → ℕ → Effect

pub record World : Type 0 where
  pub sockets : Table
  pub effects : List Effect
  pub errno : ℕ

abbrev pub note_effect : Effect → World → World
note_effect e w = record w { effects = w.effects ++ e ∷ [] }

unfoldable pub set_slot : Table → ℕ → Descriptor → Table
set_slot t i d j = if j == i then d else t j

-- getErrnoResult.
unfoldable pub errno_result : World → ℤ → World × ℤ
errno_result w (pos n) = (w, pos n)
errno_result w (negsuc n) = (record w { errno = n + 1 }, negsuc 0)

-- The constructor of the table.
unfoldable pub initial_sockets : Table
initial_sockets i = if ltb i 3 then system i else invalid

-- The slot of an ID, or `none` for NULL.
unfoldable pub get_socket : ℤ → Option ℕ
get_socket (pos n) = if ltb n max_sockets then some n else none
get_socket (negsuc n) = none

unfoldable pub is_invalid : Descriptor → Bool
is_invalid invalid = true
is_invalid (system fd) = false
is_invalid (sctp d) = false

-- The loop of setSocket downwards from `i`.
unfoldable pub free_slot : Table → ℕ → Option ℕ
free_slot t zero = none
free_slot t (suc i) = let below = free_slot t i in if is_invalid (t i) then some i else below

-- The argument `dtable` is what getdtablesize returns.
abbrev pub slot_limit : ℕ → ℕ
slot_limit dtable = if ltb dtable max_sockets then dtable else max_sockets

unfoldable pub set_socket : ℕ → Descriptor → World → World × ℤ
unfolding set_slot
set_socket dtable d w = elim (free_slot w.sockets (slot_limit dtable)) [
  | none ↦ (w, neg 24)
  | some i ↦ (record w { sockets = set_slot w.sockets i d }, pos i)
]

abbrev pub failed : ℤ → Bool
failed (pos n) = false
failed (negsuc n) = true

-- The part that ext_open and ext_creat share, given what open or creat returned.
unfoldable pub ext_open : ℕ → ℤ → World → World × ℤ
ext_open dtable (negsuc n) w = errno_result w (negsuc n)
ext_open dtable (pos fd) w =
    let (v, result) = set_socket dtable (system fd) w in
    errno_result (if failed result then note_effect (close_fd fd) v else v) result

unfoldable pub ext_creat : ℕ → ℤ → World → World × ℤ
ext_creat dtable (negsuc n) w = errno_result w (negsuc n)
ext_creat dtable (pos fd) w =
    let (v, result) = set_socket dtable (system fd) w in
    errno_result (if failed result then note_effect (close_fd fd) v else v) result

-- ext_socket for a protocol other than SCTP, given what socket returned.
unfoldable pub ext_socket_system : ℕ → ℤ → World → World × ℤ
ext_socket_system dtable (negsuc n) w = errno_result w (negsuc n)
ext_socket_system dtable (pos fd) w =
    let (v, result) = set_socket dtable (system fd) w in errno_result v result

abbrev pub new_desc : ℕ → ℕ → Bool → ℕ → SctpDesc
new_desc domain type oriented p = record {
  domain = domain;
  type = type;
  flags = 0;
  connection_oriented = oriented;
  sinit_num_ostreams = 10;
  sinit_max_instreams = 10;
  sinit_max_attempts = 8;
  sinit_max_init_timeo = 60000;
  l_onoff = 1;
  l_linger = 10;
  socket_ptr = some p;
  association_ptr = none;
}

-- The branch for SCTP behind the check of its parameters, given what `new` returned.
unfoldable pub ext_socket_sctp : ℕ → ℕ → ℕ → Bool → ℕ → Option ℕ → World → World × ℤ
ext_socket_sctp dtable domain type oriented flags none w = errno_result w (neg 12)
ext_socket_sctp dtable domain type oriented flags (some p) w =
    let made = note_effect (new_socket p domain flags) w in
    let flagged = if oriented then made else note_effect (set_notification_flags p 1) made in
    let (v, result) = set_socket dtable (sctp (new_desc domain type oriented p)) flagged in
    errno_result (if failed result then note_effect (delete_socket p) v else v) result

-- ext_socket. The arguments behind the table's limit are what sctp_isavailable, `new` and socket
-- return; SOCK_STREAM, SOCK_DGRAM and SOCK_SEQPACKET are 1, 2 and 5, and IPPROTO_SCTP is 132.
unfoldable pub ext_socket : ℕ → Bool → Option ℕ → ℤ → ℕ → ℕ → ℕ → World → World × ℤ
ext_socket dtable available new_ptr made domain type protocol w =
    if protocol == 132
    then if not available
      then errno_result w (neg 92)
      else if type == 1
      then ext_socket_sctp dtable domain type true 0 new_ptr w
      else if type == 2 || type == 5
      then ext_socket_sctp dtable domain type false 3 new_ptr w
      else errno_result w (neg 22)
    else ext_socket_system dtable made w
