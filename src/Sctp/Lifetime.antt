-- ===== src/Sctp/Lifetime.antt =====
-- The end of associations and sockets: the destructor of SCTPAssociation
-- (socketapi/sctpassociation.cc), unbind and checkAutoClose (socketapi/sctpsocket.cc), and both
-- garbage collections whole (socketapi/sctpsocketmaster.cc).
use socketapi.Prelude.{
  zero, suc, length, ℕ, ◌+◌, ◌-◌, ◌*◌, ◌%◌, ◌^◌, Bool, true, false, not, ◌&&◌, ◌||◌, List, [], ◌∷◌,
  ◌++◌, Option, none, some, ◌==◌, ltb, if◌then◌else◌,
}
use socketapi.Association.{
  Association, LibCall, shutdown, abort, sctp_abort, sctp_delete_association,
}
use socketapi.Sctp.{
  Incoming, Socket, Master, note_lib, find_association, erase_association, put_association,
  put_socket, erase_socket, find_socket,
}
use socketapi.Sctp.Closing.{
  delayed_delete_association, delayed_delete_socket, collect_sockets, is_closing, erase_closing,
}

-- What the destructor does before it takes the association off its socket's list.
unfoldable pub release : Association → Master → Master
release a m =
    if a.shutdown_complete
    then note_lib (sctp_delete_association a.assoc_id ∷ []) m
    else note_lib ((shutdown a).1) (delayed_delete_association a.instance_id a.assoc_id m)

-- The destructor. `none` stands for the abort of the process, where the association is not on the
-- list.
unfoldable pub delete_association : Association → Socket → Master → Option (Socket × Master)
delete_association a s m = elim (find_association a.assoc_id s.associations) [
  | none ↦ none
  | some b ↦
      some (record s { associations = erase_association a.assoc_id s.associations }, release a m)
]

-- The difference of two times in 64 bits.
unfoldable pub elapsed : ℕ → ℕ → ℕ
elapsed now last = (now + 2 ^ 64 - last) % 2 ^ 64

-- What checkAutoClose does with an association.
pub data Decision : Type 0 where
  keep remove do_abort do_shutdown : Decision

unfoldable pub decide_close : ℕ → ℕ → Association → Decision
decide_close now timeout a =
    if not (a.use_count == 0)
    then keep
    else if a.shutdown_complete || a.lost
    then remove
    else if ltb 0 timeout && ltb (4 * timeout % 2 ^ 64) (elapsed now a.last_usage)
    then do_abort
    else if ltb 0 timeout && ltb timeout (elapsed now a.last_usage) && not a.shutting_down
    then do_shutdown
    else keep

abbrev pub after_call : Association × List LibCall → Socket → Master → Socket × Master
after_call (b, calls) s m =
    (record s { associations = put_association b s.associations }, note_lib calls m)

-- Erasing an element of ConnectionlessAssociationList.
unfoldable pub erase_id : ℕ → List ℕ → List ℕ
erase_id id [] = []
erase_id id (k ∷ ks) = let rest = erase_id id ks in if k == id then ks else k ∷ rest

-- What communicationLostNotif, which sctp_abort calls before it returns, does to the socket of an
-- association, up to its checkAutoClose; Callbacks has it as `lose`.
abbrev pub Lost : Type 0
Lost = ℕ → Socket → Socket × List LibCall

-- abort, with that callback.
unfoldable pub abort_through : Lost → Association → Socket → Master → Socket × Master
abort_through lost a s m =
    let (t, n) = after_call (abort a) s m in
    let (u, calls) = lost a.assoc_id t in (u, note_lib calls n)

unfoldable pub apply_decision :
    Lost → Decision → Association → Socket → Master → Option (Socket × Master)
apply_decision lost keep a s m = some (s, m)
apply_decision lost remove a s m =
    delete_association a (record s { connectionless = erase_id a.assoc_id s.connectionless }) m
apply_decision lost do_abort a s m = some (abort_through lost a s m)
apply_decision lost do_shutdown a s m = some (after_call (shutdown a) s m)

abbrev pub is_abort : Decision → Bool
is_abort do_abort = true
is_abort keep = false
is_abort remove = false
is_abort do_shutdown = false

-- The loop of checkAutoClose over ConnectionlessAssociationList. The last result is
-- AutoCloseNewCheckRequired: the callback's own checkAutoClose only sets it.
unfoldable pub close_loop :
    Lost → ℕ → List ℕ → Socket → Master → Bool → Option (Socket × Master × Bool)
close_loop lost now [] s m again = some (s, m, again)
close_loop lost now (id ∷ ids) s m again = elim (find_association id s.associations) [
  | none ↦ none
  | some a ↦
      let d = decide_close now s.auto_close_timeout a in
      elim (apply_decision lost d a s m) [
        | none ↦ none
        | some (t, n) ↦ close_loop lost now ids t n (again || is_abort d)
      ]
]

-- The outer loop on fuel, in which the time stands still.
unfoldable pub check_rounds : Lost → ℕ → ℕ → Socket → Master → Option (Socket × Master)
check_rounds lost now zero s m = none
check_rounds lost now (suc f) s m = elim (close_loop lost now s.connectionless s m false) [
  | none ↦ none
  | some (t, n, again) ↦
      let rest = check_rounds lost now f t n in if again then rest else some (t, n)
]

-- checkAutoClose where no other one runs, with one round more than there are associations on the list;
-- `none` where it needs more.
unfoldable pub check_auto_close : Lost → ℕ → Socket → Master → Option (Socket × Master)
check_auto_close lost now s m = check_rounds lost now (suc (length s.connectionless)) s m

-- The first half of socketGarbageCollection: checkAutoClose for each socket.
unfoldable pub auto_close_sockets : Lost → ℕ → List Socket → Master → Option Master
auto_close_sockets lost now [] m = some m
auto_close_sockets lost now (s ∷ ss) m = elim (check_auto_close lost now s m) [
  | none ↦ none
  | some (t, n) ↦ auto_close_sockets lost now ss (record n { sockets = put_socket t n.sockets })
]

unfoldable pub socket_garbage_collection : Lost → ℕ → Master → Option Master
socket_garbage_collection lost now m = elim (auto_close_sockets lost now m.sockets m) [
  | none ↦ none
  | some n ↦ some (collect_sockets n)
]

-- The result false stands for an association that is not closing.
unfoldable pub association_garbage_collection :
    Lost → ℕ → ℕ → Bool → Master → Option (Master × Bool)
association_garbage_collection lost now id send_abort m =
    if is_closing id m.closing_associations
    then elim (socket_garbage_collection lost now
        (record (note_lib
          ((if send_abort then sctp_abort id ∷ [] else []) ++ sctp_delete_association id ∷ []) m) {
            closing_associations = erase_closing id m.closing_associations;
          })) [ none ↦ none | some n ↦ some (n, true) ]
    else some (m, false)

-- `delete association` behind an optional abort.
abbrev pub abort_if : Bool → Association → Association × List LibCall
abort_if true a = abort a
abort_if false a = (a, [])

-- abort behind the erasing from the list, with the callback and its checkAutoClose.
unfoldable pub abort_checked : Lost → ℕ → Association → Socket → Master → Option (Socket × Master)
abort_checked lost now a s m =
    let (t, n) = abort_through lost a s m in check_auto_close lost now t n

abbrev pub abort_asked : Bool → Lost → ℕ → Association → Socket → Master → Option (Socket × Master)
abort_asked true lost now a s m = abort_checked lost now a s m
abort_asked false lost now a s m = some (s, m)

-- The destructor on an association as it is behind the callback.
unfoldable pub delete_found : ℕ → Socket × Master → Option (Socket × Master)
delete_found id (s, m) = elim (find_association id s.associations) [
  | none ↦ none
  | some b ↦ delete_association b s m
]

-- The first loop of unbind, over ConnectionlessAssociationList, on fuel. The callback may change the
-- association before it is deleted.
unfoldable pub unbind_connectionless :
    Lost → ℕ → Bool → ℕ → List ℕ → Socket → Master → Option (Socket × Master)
unbind_connectionless lost now send_abort zero ids s m = none
unbind_connectionless lost now send_abort (suc f) [] s m = some (s, m)
unbind_connectionless lost now send_abort (suc f) (id ∷ ids) s m =
    elim (find_association id s.associations) [
      | none ↦ none
      | some a ↦ elim (abort_asked send_abort lost now a (record s { connectionless = ids }) m) [
        | none ↦ none
        | some r ↦ elim (delete_found id r) [
          | none ↦ none
          | some (v, k) ↦ unbind_connectionless lost now send_abort f v.connectionless v k
        ]
      ]
    ]

-- The second loop, over AssociationList. The association is erased from the list before it is
-- deleted, and before the abort, so that its callback does not find it.
unfoldable pub unbind_associations :
    Bool → List Association → Socket → Master → Option (Socket × Master)
unbind_associations send_abort [] s m = some (s, m)
unbind_associations send_abort (a ∷ xs) s m =
    let (b, calls) = abort_if send_abort a in
    elim (delete_association b (record s { associations = xs }) (note_lib calls m)) [
      | none ↦ none
      | some (t, n) ↦ unbind_associations send_abort xs t n
    ]

-- The third loop, over ConnectionRequests: the association of each is deleted.
unfoldable pub unbind_requests : List Incoming → Socket → Master → Option (Socket × Master)
unbind_requests [] s m = some (record s { requests = [] }, m)
unbind_requests (r ∷ rs) s m = elim (find_association r.incoming_id s.associations) [
  | none ↦ none
  | some a ↦ elim (delete_association a s m) [ none ↦ none | some (t, n) ↦ unbind_requests rs t n ]
]

-- The rest of unbind; the process aborts where the socket is not on the master's list.
unfoldable pub unbind_finish : Socket → Master → Option (Socket × Master)
unbind_finish s m = elim (find_socket s.instance m.sockets) [
  | none ↦ none
  | some t ↦ some (
    record s { global_queue = []; instance = 0; listening = false },
    delayed_delete_socket s.instance (record m { sockets = erase_socket s.instance m.sockets }),
  )
]

unfoldable pub unbind : Lost → ℕ → Bool → Socket → Master → Option (Socket × Master)
unbind lost now send_abort s m =
    if s.instance == 0
    then some (s, m)
    else elim (unbind_connectionless lost now send_abort (suc (length s.connectionless))
        s.connectionless s m) [
          | none ↦ none
          | some (t, n) ↦ elim (unbind_associations send_abort t.associations t n) [
            | none ↦ none
            | some (u, k) ↦ elim (unbind_requests u.requests u k) [
              | none ↦ none
              | some (v, l) ↦ unbind_finish v l
            ]
          ]
        ]
