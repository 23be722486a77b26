-- ===== src/Sctp/Unbind.antt =====
-- What unbind (socketapi/sctpsocket.cc) does with the associations of a socket.
use socketapi.Prelude.{
  suc, length, ℕ, ◌≡◌, ◌≢◌, refl, Bool, true, false, List, [], ◌∷◌, none, some, ==-ne,
}
use socketapi.Association.{Association, abort}
use socketapi.Sctp.{Socket, Master, find_association}
use socketapi.Sctp.Lifetime.{
  Lost, release, delete_association, abort_if, unbind_connectionless, unbind_associations, unbind,
}

-- Each of the associations is released once, in their order.
unfoldable pub release_all : List Association → Master → Master
release_all [] m = m
release_all (a ∷ xs) m = release_all xs (release a m)

abort_if-id :
    (send_abort : Bool) (a : Association) → (abort_if send_abort a).0.assoc_id ≡ a.assoc_id
unfolding abort
abort_if-id true a = refl
abort_if-id false a = refl

-- unbind aborts the process where an association that sendTo did not make is on the socket's list,
-- once: it is erased from there before its destructor looks for it there.
pub unbind-aborts :
    (lost : Lost) (now : ℕ) (send_abort : Bool) (a : Association) (xs : List Association)
    (s t : Socket) (m n : Master)
    → s.instance ≢ 0
    → unbind_connectionless lost now send_abort (suc (length s.connectionless)) s.connectionless s m
      ≡ some (t, n)
    → t.associations ≡ a ∷ xs
    → find_association a.assoc_id xs ≡ none
    → unbind lost now send_abort s m ≡ none
unfolding unbind unbind_associations delete_association
unbind-aborts lost now send_abort a xs s t m n bound first left once =
    let absent : find_association (abort_if send_abort a).0.assoc_id xs ≡ none =
      rw (abort_if-id send_abort a) once in
    rw
      (
        ==-ne s.instance 0 bound,
        unbind,
        first,
        left,
        unbind_associations,
        absent,
        delete_association,
      )
      refl
