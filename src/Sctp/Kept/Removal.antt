-- ===== src/Sctp/Kept/Removal.antt =====
-- What holds of every association, through checkAutoClose (socketapi/sctpsocket.cc) and the garbage
-- collections (socketapi/sctpsocketmaster.cc).
use socketapi.Prelude.{
  zero, suc, length, false, ◌||◌, ℕ, subst, inl, inr, Bool, true, List, [], ◌∷◌, ◌++◌, some, All,
  if◌then◌else◌, Bool-cases, Option-cases,
}
use socketapi.Association.{
  Association, sctp_shutdown, sctp_abort, sctp_delete_association, abort, shutdown,
}
use socketapi.Sctp.{Socket, Master, find_association, put_socket, note_lib}
use socketapi.Sctp.Lifetime.{
  Lost, abort_through, is_abort, check_rounds, Decision, keep, remove, do_abort, do_shutdown,
  decide_close, apply_decision, close_loop, check_auto_close, auto_close_sockets,
  socket_garbage_collection, association_garbage_collection, erase_id,
}
use socketapi.Sctp.Closing.{collect_sockets, is_closing, erase_closing}
use socketapi.Sctp.Every.{OfSome, find_association-All, put_socket-All}
use socketapi.Sctp.Kept.{
  Kept, Whole, Everywhere, Both, put-Kept, either-Kept, delete_association-Kept,
}

module _ (P : Association → Type 0) (k : Kept P) where
  -- What a callback within sctp_abort does keeps what holds of every association.
  abbrev pub LostKept : Lost → Type 0
  LostKept lost = (id : ℕ) (s : Socket) → Whole P k s → Whole P k (lost id s).0

  abbrev pub OfFirst : Master × Bool → Type 0
  OfFirst (m, b) = Everywhere P k m

  abbrev OfLoop : Socket × Master × Bool → Type 0
  OfLoop (s, m, b) = Whole P k s × Everywhere P k m

module _ (P : Association → Type 0) (k : Kept P) (lost : Lost) (lost_kept : LostKept P k lost) where
  shutdown-Kept : (a : Association) → P a → P (shutdown a).0
  unfolding shutdown
  shutdown-Kept a h =
      either-Kept P k a.shutting_down (a, [])
        (record a { shutting_down = true }, sctp_shutdown a.assoc_id ∷ []) h (k.kept_shutdown a h)

  apply_decision-Kept :
      (d : Decision) (a : Association) (s : Socket) (m : Master)
      → P a
      → Whole P k s
      → Everywhere P k m
      → OfSome (Both P k) (apply_decision lost d a s m)
  unfolding apply_decision abort_through abort shutdown
  apply_decision-Kept keep a s m h p q = (p, q)
  apply_decision-Kept remove a s m h p q =
      delete_association-Kept P k a
        (record s { connectionless = erase_id a.assoc_id s.connectionless }) m p q
  apply_decision-Kept do_abort a s m h p q =
      (lost_kept a.assoc_id _ (put-Kept P k (abort a).0 s (k.kept_shutdown a h) p), q)
  apply_decision-Kept do_shutdown a s m h p q =
      (put-Kept P k (shutdown a).0 s (shutdown-Kept a h) p, q)

  close_loop-Kept :
      (now : ℕ) (ids : List ℕ) (s : Socket) (m : Master) (again : Bool)
      → Whole P k s
      → Everywhere P k m
      → OfSome (OfLoop P k) (close_loop lost now ids s m again)
  unfolding close_loop
  close_loop-Kept now [] s m again p q = (p, q)
  close_loop-Kept now (id ∷ ids) s m again p q =
      elim (Option-cases (find_association id s.associations)) [
        | inl e ↦ rw (e, close_loop) tt
        | inr (a, e) ↦
            let d = decide_close now s.auto_close_timeout a in
            let h = find_association-All P id s.associations (some a) e p in
            elim (Option-cases (apply_decision lost d a s m)) [
              | inl r ↦ rw (e, r, close_loop) tt
              | inr ((t, n), r) ↦
                  let both = subst (OfSome (Both P k)) r (apply_decision-Kept d a s m h p q) in
                  rw (e, r, close_loop)
                    (close_loop-Kept now ids t n (again || is_abort d) both.0 both.1)
            ]
      ]

  check_rounds-Kept :
      (now f : ℕ) (s : Socket) (m : Master)
      → Whole P k s
      → Everywhere P k m
      → OfSome (Both P k) (check_rounds lost now f s m)
  unfolding check_rounds
  check_rounds-Kept now zero s m p q = tt
  check_rounds-Kept now (suc f) s m p q =
      elim (Option-cases (close_loop lost now s.connectionless s m false)) [
        | inl e ↦ rw (e, check_rounds) tt
        | inr ((t, n, again), e) ↦
            let both =
              subst (OfSome (OfLoop P k)) e (close_loop-Kept now s.connectionless s m false p q) in
            elim (Bool-cases again) [
              | inl b ↦ rw (e, b, check_rounds) (check_rounds-Kept now f t n both.0 both.1)
              | inr b ↦ rw (e, b, check_rounds) both
            ]
      ]

  pub check_auto_close-Kept :
      (now : ℕ) (s : Socket) (m : Master)
      → Whole P k s
      → Everywhere P k m
      → OfSome (Both P k) (check_auto_close lost now s m)
  unfolding check_auto_close
  check_auto_close-Kept now s m p q = check_rounds-Kept now (suc (length s.connectionless)) s m p q

  auto_close_sockets-Kept :
      (now : ℕ) (ss : List Socket) (m : Master)
      → All (Whole P k) ss
      → Everywhere P k m
      → OfSome (Everywhere P k) (auto_close_sockets lost now ss m)
  unfolding auto_close_sockets
  auto_close_sockets-Kept now [] m p q = q
  auto_close_sockets-Kept now (s ∷ ss) m p q = elim (Option-cases (check_auto_close lost now s m)) [
    | inl e ↦ rw (e, auto_close_sockets) tt
    | inr ((t, n), e) ↦
        let both = subst (OfSome (Both P k)) e (check_auto_close-Kept now s m p.0 q) in
        rw (e, auto_close_sockets)
          (auto_close_sockets-Kept now ss (record n { sockets = put_socket t n.sockets }) p.1
            (put_socket-All (Whole P k) t n.sockets both.0 both.1))
  ]

  socket_garbage_collection-Kept :
      (now : ℕ) (m : Master)
      → Everywhere P k m
      → OfSome (Everywhere P k) (socket_garbage_collection lost now m)
  unfolding socket_garbage_collection collect_sockets
  socket_garbage_collection-Kept now m q =
      elim (Option-cases (auto_close_sockets lost now m.sockets m)) [
        | inl e ↦ rw (e, socket_garbage_collection) tt
        | inr (n, e) ↦
            rw (e, socket_garbage_collection)
              (subst (OfSome (Everywhere P k)) e (auto_close_sockets-Kept now m.sockets m q q))
      ]

  pub association_garbage_collection-Kept :
      (now id : ℕ) (send_abort : Bool) (m : Master)
      → Everywhere P k m
      → OfSome (OfFirst P k) (association_garbage_collection lost now id send_abort m)
  unfolding association_garbage_collection
  association_garbage_collection-Kept now id send_abort m q =
      elim (Bool-cases (is_closing id m.closing_associations)) [
        | inr e ↦ rw (e, association_garbage_collection) q
        | inl e ↦
            let calls =
              (if send_abort then sctp_abort id ∷ [] else []) ++ sctp_delete_association id ∷ [] in
            let gone = record (note_lib calls m) {
              closing_associations = erase_closing id m.closing_associations;
            } in
            elim (Option-cases (socket_garbage_collection lost now gone)) [
              | inl h ↦ rw (e, h, association_garbage_collection) tt
              | inr (n, h) ↦
                  rw (e, h, association_garbage_collection)
                    (subst (OfSome (Everywhere P k)) h (socket_garbage_collection-Kept now gone q))
            ]
      ]
