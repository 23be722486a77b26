-- ===== src/Select.antt =====
-- ext_select and ext_poll (socketapi/sctpsocketwrapper.cc). The waiting itself is left out: which
-- conditions have fired at its end, and which events the master saw on the descriptors of the
-- system, are arguments. The three sets are taken to be different objects.
pub mod Wrapper
pub mod Collect
pub mod Reported
pub mod Poll
mod Tests
use socketapi.Prelude.{
  ℕ, zero, suc, ◌+◌, ◌-◌, Bool, true, false, not, ◌&&◌, ◌||◌, List, [], ◌∷◌, ◌++◌, Option, none,
  some, ◌==◌, ltb, if◌then◌else◌,
}
use socketapi.Strings.Decimal.{ℤ, pos, negsuc, neg}
use socketapi.Descriptors.{
  SctpDesc, Descriptor, invalid, system, sctp, Table, World, errno_result, get_socket, max_sockets,
  failed,
}

-- fd_set, where NULL is `none`, with FD_SET, FD_CLR and SAFE_FD_ISSET.
abbrev pub FdSet : Type 0
FdSet = ℕ → Bool

abbrev pub put_fd : Bool → ℕ → FdSet → FdSet
put_fd b fd s j = if j == fd then b else s j

abbrev pub put_if : Bool → ℕ → Option FdSet → Option FdSet
put_if b fd none = none
put_if b fd (some s) = some (put_fd b fd s)

abbrev pub is_set : ℕ → Option FdSet → Bool
is_set fd none = false
is_set fd (some s) = s fd

pub record Sets : Type 0 where
  pub readfds : Option FdSet
  pub writefds : Option FdSet
  pub exceptfds : Option FdSet

-- An event mask: POLLIN, with which select asks for POLLPRI too, POLLOUT, POLLERR, and, in what has
-- happened, any other event.
pub record Events : Type 0 where
  pub poll_in : Bool
  pub poll_pri : Bool
  pub poll_out : Bool
  pub poll_err : Bool

-- UpdateConditionType.
pub data Kind : Type 0 where
  uct_read uct_write uct_except : Kind

abbrev pub is_write : Kind → Bool
is_write uct_read = false
is_write uct_write = true
is_write uct_except = false

-- Whose update condition it is.
pub data Owner : Type 0 where
  of_association of_socket : ℕ → Owner

-- ConditionFD, ConditionType and ConditionArray at one index, and UserCallbackFD and
-- UserNotification.
pub record Watched : Type 0 where
  pub fd : ℕ
  pub kind : Kind
  pub owner : Owner

pub record UserNote : Type 0 where
  pub user_fd : ℕ
  pub file_descriptor : ℕ
  pub event_mask : Events

-- SelectData: the conditions and the callbacks in their order. `signalled` are the write conditions
-- that are signalled at once.
pub record SelectData : Type 0 where
  pub conditions : List Watched
  pub user_callbacks : List UserNote
  pub signalled : List Owner

abbrev pub no_data : SelectData
no_data = record { conditions = []; user_callbacks = []; signalled = [] }

abbrev watch : Watched → SelectData → SelectData
watch x c = record c { conditions = c.conditions ++ x ∷ [] }

-- collectSCTP_FDs. A write condition of a socket that is not connection-oriented is signalled.
unfoldable pub collect_sctp_fds : ℕ → SctpDesc → Kind → SelectData → SelectData × ℤ
collect_sctp_fds fd d kind c =
    let of_the_socket : SelectData × ℤ = elim (d.socket_ptr) [
      | none ↦ (c, neg 9)
      | some p ↦
          let x = watch (record { fd = fd; kind = kind; owner = of_socket p }) c in
          let now = record x { signalled = x.signalled ++ of_socket p ∷ [] } in
          (if is_write kind && not d.connection_oriented then now else x, pos 0)
    ] in
    elim (d.association_ptr) [
      | none ↦ of_the_socket
      | some a ↦ (watch (record { fd = fd; kind = kind; owner = of_association a }) c, pos 0)
    ]

-- One event of collectFDs on an SCTP descriptor: the result is that of the last one.
abbrev pub collect_if : Bool → ℕ → SctpDesc → Kind → SelectData × ℤ → SelectData × ℤ
collect_if asked fd d kind (c, result) =
    let made = collect_sctp_fds fd d kind c in if asked then made else (c, result)

unfoldable pub collect_events : ℕ → SctpDesc → Events → SelectData → SelectData × ℤ
collect_events fd d e c =
    collect_if e.poll_err fd d uct_except
      (collect_if e.poll_out fd d uct_write (collect_if e.poll_in fd d uct_read (c, pos 0)))

-- collectFDs.
unfoldable pub collect_on : ℕ → Events → Descriptor → SelectData → World → SelectData × World × ℤ
collect_on fd e invalid c w = let (v, r) = errno_result w (neg 9) in (c, v, r)
collect_on fd e (system k) c w = (
  record c {
    user_callbacks =
        c.user_callbacks ++ record { user_fd = fd; file_descriptor = k; event_mask = e } ∷ [];
  },
  w,
  pos 0,
)
collect_on fd e (sctp d) c w =
    let (x, result) = collect_events fd d e c in let (v, r) = errno_result w result in (x, v, r)

unfoldable pub collect_fds : ℕ → Events → SelectData → World → SelectData × World × ℤ
collect_fds fd e c w = elim (get_socket (pos fd)) [
  | none ↦ let (v, r) = errno_result w (neg 9) in (c, v, r)
  | some k ↦ collect_on fd e (w.sockets k) c w
]

-- The mask of a descriptor in the sets of select.
abbrev pub mask_of : Sets → ℕ → Events
mask_of s i = record {
  poll_in = is_set i s.readfds;
  poll_pri = is_set i s.readfds;
  poll_out = is_set i s.writefds;
  poll_err = is_set i s.exceptfds;
}

abbrev pub is_asked : Events → Bool
is_asked e = e.poll_in || e.poll_out || e.poll_err

abbrev pub is_zero : ℤ → Bool
is_zero (pos n) = n == 0
is_zero (negsuc n) = false

abbrev pub collect_asked : ℕ → Events → SelectData → World → SelectData × World × ℤ
collect_asked i e c w = if is_asked e then collect_fds i e c w else (c, w, pos 0)

-- The loop over the descriptors from `i` on, which ends at the first result that is not 0.
unfoldable pub collect_loop : Sets → ℕ → ℕ → SelectData → World → SelectData × World × ℤ
collect_loop s zero i c w = (c, w, pos 0)
collect_loop s (suc n) i c w =
    let (x, v, result) = collect_asked i (mask_of s i) c w in
    let rest = collect_loop s n (i + 1) x v in if is_zero result then rest else (x, v, result)

-- What the wait ends with: the conditions that have fired, the events of the callbacks, and what
-- select returns, with errno, where there is nothing to wait for.
pub record Woken : Type 0 where
  pub fired : Watched → Bool
  pub events_of : UserNote → Events
  pub slept : ℤ

abbrev pub map_sets : (Option FdSet → Option FdSet) → Sets → Sets
map_sets f s = record { readfds = f s.readfds; writefds = f s.writefds; exceptfds = f s.exceptfds }

abbrev pub clear_all : List ℕ → Option FdSet → Option FdSet
clear_all [] s = s
clear_all (fd ∷ fds) s = clear_all fds (put_if false fd s)

abbrev pub condition_fds : List Watched → List ℕ
condition_fds [] = []
condition_fds (x ∷ xs) = x.fd ∷ condition_fds xs

abbrev pub callback_fds : List UserNote → List ℕ
callback_fds [] = []
callback_fds (x ∷ xs) = x.user_fd ∷ callback_fds xs

-- A condition that has fired: its descriptor in the set of its kind, where the set is there.
abbrev pub put_kind : Kind → ℕ → Sets → Sets
put_kind uct_read fd s = record s { readfds = put_if true fd s.readfds }
put_kind uct_write fd s = record s { writefds = put_if true fd s.writefds }
put_kind uct_except fd s = record s { exceptfds = put_if true fd s.exceptfds }

unfoldable pub fire_loop : (Watched → Bool) → List Watched → Sets → ℕ → Sets × ℕ
fire_loop fired [] s changes = (s, changes)
fire_loop fired (x ∷ xs) s changes =
    fire_loop fired xs (if fired x then put_kind x.kind x.fd s else s)
      (if fired x then changes + 1 else changes)

abbrev pub is_there : Option FdSet → Bool
is_there none = false
is_there (some s) = true

abbrev pub put_when : Bool → ℕ → Option FdSet → Option FdSet
put_when b fd s = if b then put_if true fd s else s

-- The loop over the callbacks.
unfoldable pub callback_loop : (UserNote → Events) → List UserNote → Sets → ℕ → Sets × ℕ
callback_loop events [] s changes = (s, changes)
callback_loop events (x ∷ xs) s changes =
    let e = events x in
    let reads = e.poll_in || e.poll_pri in
    let changed =
      is_there s.readfds && reads
      || is_there s.writefds && e.poll_out
      || is_there s.exceptfds && e.poll_err in
    let next : Sets = record {
      readfds = put_when reads x.user_fd s.readfds;
      writefds = put_when e.poll_out x.user_fd s.writefds;
      exceptfds = put_when e.poll_err x.user_fd s.exceptfds;
    } in
    callback_loop events xs next (if changed then changes + 1 else changes)

-- What ext_select does behind the wait.
unfoldable pub report : Woken → SelectData → Sets → Sets × ℕ
report e c s =
    let cleared = map_sets (clear_all (condition_fds c.conditions)) s in
    let (fired, changes) = fire_loop e.fired c.conditions cleared 0 in
    callback_loop e.events_of c.user_callbacks
      (map_sets (clear_all (callback_fds c.user_callbacks)) fired) changes

abbrev pub is_empty : SelectData → Bool
is_empty c = elim (c.conditions) [
  | [] ↦ elim (c.user_callbacks) [ [] ↦ true | x ∷ xs ↦ false ]
  | x ∷ xs ↦ false
]
