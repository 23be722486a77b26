-- ===== src/Sctp/Kept/Calls.antt =====
-- What holds of every association, through each callback that sctplib makes
-- (socketapi/sctpsocketmaster.cc).
use socketapi.Prelude.{
  ℕ, zero, suc, ◌≡◌, refl, subst, inl, inr, Bool, true, false, not, List, [], ◌∷◌, ◌++◌, Option,
  none, some, ◌==◌, if◌then◌else◌, Bool-cases, Option-cases, length,
}
use socketapi.Strings.Decimal.{ℤ}
use socketapi.Notifications.{Notification}
use socketapi.Association.{
  Association, internal_send, Packet, LibCall, send_to, send_packets, int_eq,
}
use socketapi.Sctp.{
  Socket, Master, Lib, put_association, get_association, put_socket, get_socket_for, note_lib,
}
use socketapi.Sctp.Lifetime.{Lost, check_auto_close, association_garbage_collection}
use socketapi.Sctp.Notify.{queue_notification, init_notification, blank_notification}
use socketapi.Sctp.Every.{OfSome, insert_association-All, find_socket-All, put_socket-All}
use socketapi.Sctp.Kept.{
  Kept, Whole, Everywhere, Both, get_association-Kept, put-Kept, either-Kept,
  queue_notification-Kept,
}
use socketapi.Sctp.Kept.Removal.{
  LostKept, check_auto_close-Kept, OfFirst, association_garbage_collection-Kept,
}
use socketapi.Sctp.Callbacks.{
  with_socket, correct_rto_max, send_waiting, establish, add_request, communication_up_notif,
  state_note, update_association, wake_all, lose, complete, end_callback,
}

module _ (P : Association → Type 0) (k : Kept P) where
  pub socket_for-Kept :
      (lib : Lib) (id : ℕ) (m : Master)
      → Everywhere P k m
      → OfSome (Whole P k) (get_socket_for lib id m)
  unfolding get_socket_for
  socket_for-Kept lib id m p = elim (Option-cases (lib.instance_of id)) [
    | inl e ↦ rw (e, get_socket_for) tt
    | inr (i, e) ↦ elim (Bool-cases (i == 0)) [
      | inl h ↦ rw (e, h, get_socket_for) tt
      | inr h ↦ rw (e, h, get_socket_for) (find_socket-All (Whole P k) i m.sockets _ refl p)
    ]
  ]

  pub put_socket-Kept :
      (t : Socket) (m : Master)
      → Whole P k t
      → Everywhere P k m
      → Everywhere P k (record m { sockets = put_socket t m.sockets })
  put_socket-Kept t m h p = put_socket-All (Whole P k) t m.sockets h p

  with_socket-Kept :
      (lib : Lib) (id : ℕ) (f : Socket → Socket) (m : Master)
      → ((s : Socket) → Whole P k s → Whole P k (f s))
      → Everywhere P k m
      → Everywhere P k (with_socket lib id f m)
  unfolding with_socket
  with_socket-Kept lib id f m h p = elim (Option-cases (get_socket_for lib id m)) [
    | inl e ↦ rw (e, with_socket) p
    | inr (s, e) ↦
        rw (e, with_socket)
          (put_socket-Kept (f s) m (h s (subst (OfSome (Whole P k)) e (socket_for-Kept lib id m p)))
            p)
  ]

  -- A callback that only queues a notification.
  pub queued-Kept :
      (lib : Lib) (id : ℕ) (n : Notification) (m : Master)
      → Everywhere P k m
      → Everywhere P k (with_socket lib id (queue_notification id n) m)
  queued-Kept lib id n m p =
      with_socket-Kept lib id (queue_notification id n) m
        (λ s h. queue_notification-Kept P k id n s h) p

  rto-Kept : (lib : Lib) (a : Association) → P a → P (correct_rto_max lib a).0
  unfolding correct_rto_max
  rto-Kept lib a h =
      either-Kept P k a.rto_max_is_init_timeout (record a { rto_max_is_init_timeout = false }, _)
        (a, []) (k.kept_rto a h) h

  abbrev OfFirstAssociation : Association × Bool → Type 0
  OfFirstAssociation (a, b) = P a

  send_to-Kept :
      (send : Packet → ℤ) (memory : Bool) (p : Packet) (a : Association)
      → P a
      → P (send_to send memory p a).0
  unfolding send_to
  send_to-Kept send memory p a h =
      either-Kept P k (not a.up)
        (if memory then record a { packets = a.packets ++ p ∷ [] } else a, _)
        (record a { calls = a.calls ++ internal_send p ∷ [] }, _)
        (elim (Bool-cases memory) [
          | inl e ↦ rw e (k.kept_send a (a.packets ++ p ∷ []) a.calls h)
          | inr e ↦ rw e h
        ])
        (k.kept_send a a.packets (a.calls ++ internal_send p ∷ []) h)

  if-OfFirst :
      (b : Bool) (x y : Option (Association × Bool))
      → OfSome OfFirstAssociation x
      → OfSome OfFirstAssociation y
      → OfSome OfFirstAssociation (if b then x else y)
  if-OfFirst true x y p q = p
  if-OfFirst false x y p q = q

  send_packets-Kept :
      (send : Packet → ℤ) (memory : Bool) (f : ℕ) (ps : List Packet) (a : Association)
      → P a
      → OfSome OfFirstAssociation (send_packets send memory f (record a { packets = ps }))
  unfolding send_packets
  send_packets-Kept send memory zero [] a h = k.kept_send a [] a.calls h
  send_packets-Kept send memory zero (p ∷ ps) a h = tt
  send_packets-Kept send memory (suc f) [] a h = k.kept_send a [] a.calls h
  send_packets-Kept send memory (suc f) (p ∷ ps) a h =
      let c = record a { packets = p ∷ ps } in
      let b = (send_to send memory p c).0 in
      let sent = send_to-Kept send memory p c (k.kept_send a (p ∷ ps) a.calls h) in
      if-OfFirst (int_eq (send_to send memory p c).1 (length p.data_bytes)) _ (some (b, false))
        (send_packets-Kept send memory f _ b sent) sent

  pub send_waiting-Kept :
      (send : Packet → ℤ) (memory : Bool) (a : Association)
      → P a
      → OfSome P (send_waiting send memory a)
  unfolding send_waiting
  send_waiting-Kept send memory a h =
      elim (Option-cases (send_packets send memory (length a.packets) a)) [
        | inl e ↦ rw (e, send_waiting) tt
        | inr ((b, done), e) ↦
            rw (e, send_waiting)
              (subst (OfSome OfFirstAssociation) e
                (send_packets-Kept send memory (length a.packets) a.packets a h))
      ]

  abbrev OfFirstEstablished : Association × List LibCall → Type 0
  OfFirstEstablished (a, calls) = P a

  establish-Kept :
      (lib : Lib) (send : Packet → ℤ) (memory : Bool) (a : Association)
      → P a
      → OfSome OfFirstEstablished (establish lib send memory a)
  unfolding establish
  establish-Kept lib send memory a h =
      let b = (correct_rto_max lib a).0 in
      let c = record b {
        up = true;
        write_ready = true;
        has_exception = false;
        waiting_addresses = none;
      } in
      elim (Option-cases (send_waiting send memory c)) [
        | inl e ↦ rw (e, establish) tt
        | inr (d, e) ↦
            rw (e, establish)
              (subst (OfSome P) e
                (send_waiting-Kept send memory c (k.kept_up b (rto-Kept lib a h))))
      ]

  add_request-Kept :
      (now id : ℕ) (n : Notification) (s : Socket)
      → Whole P k s
      → Whole P k (add_request now id n s)
  unfolding add_request
  add_request-Kept now id n s p =
      insert_association-All P _ s.associations
        (k.kept_new s.instance id s.socket_notification_flags now) p

  if-Everywhere :
      (b : Bool) (m n : Master)
      → Everywhere P k m
      → Everywhere P k n
      → Everywhere P k (if b then m else n)
  if-Everywhere true m n p q = p
  if-Everywhere false m n p q = q

  pub communication_up-Kept :
      (lib : Lib) (memory : Notification) (send : Packet → ℤ) (has_memory : Bool)
      (now id out_streams in_streams : ℕ) (m : Master)
      → Everywhere P k m
      → OfSome
          (Everywhere P k)
          (communication_up_notif lib memory send has_memory now id out_streams in_streams m)
  unfolding communication_up_notif
  communication_up-Kept lib memory send has_memory now id out_streams in_streams m p =
      elim (Option-cases (get_socket_for lib id m)) [
        | inl e ↦ rw (e, communication_up_notif) p
        | inr (s, e) ↦
            let w = subst (OfSome (Whole P k)) e (socket_for-Kept lib id m p) in
            elim (Option-cases (get_association id true s)) [
              | inl h ↦
                  let t = queue_notification id n (add_request now id bare s) in
                  let kept =
                    queue_notification-Kept P k id n _ (add_request-Kept now id bare s w) in
                  rw (e, h, communication_up_notif)
                    (if-Everywhere s.listening (record m { sockets = put_socket t m.sockets }) _
                      (put_socket-Kept t m kept p) p)
              | inr (a, h) ↦
                  let known = subst (OfSome P) h (get_association-Kept P k id true s w) in
                  elim (Option-cases (establish lib send has_memory a)) [
                    | inl l ↦ rw (e, h, l, communication_up_notif) tt
                    | inr ((b, calls), l) ↦
                        let up =
                          subst (OfSome OfFirstEstablished) l
                            (establish-Kept lib send has_memory a known) in
                        let u = record s { associations = put_association b s.associations } in
                        rw (e, h, l, communication_up_notif)
                          (put_socket-Kept (queue_notification id n u) m
                            (queue_notification-Kept P k id n u (put-Kept P k b s up w)) p)
                  ]
            ]
      ]
    where
      bare : Notification
      bare = (init_notification lib id memory).0

      n : Notification
      n = state_note id 11 out_streams in_streams bare

  update-Kept :
      (id : ℕ) (f : Association → Association) (s : Socket)
      → ((a : Association) → P a → P (f a))
      → Whole P k s
      → Whole P k (update_association id f s)
  unfolding update_association
  update-Kept id f s h p = elim (Option-cases (get_association id false s)) [
    | inl e ↦ rw (e, update_association) p
    | inr (a, e) ↦
        rw (e, update_association)
          (put-Kept P k (f a) s (h a (subst (OfSome P) e (get_association-Kept P k id false s p)))
            p)
  ]

  pub lose-Kept :
      (lib : Lib) (memory : Notification) (id : ℕ) (s : Socket)
      → Whole P k s
      → Whole P k (lose lib memory id s).0
  unfolding lose
  lose-Kept lib memory id s p = elim (Option-cases (get_association id false s)) [
    | inl e ↦ rw (e, lose) p
    | inr (a, e) ↦
        let n = state_note id 12 0 0 (blank_notification memory) in
        let h = subst (OfSome P) e (get_association-Kept P k id false s p) in
        let b = (correct_rto_max lib a).0 in
        let c = record b { lost = true; shutdown_complete = true } in
        let lost = put-Kept P k c s (k.kept_lost b (rto-Kept lib a h)) p in
        rw (e, lose)
          (update-Kept id wake_all _ k.kept_wake (queue_notification-Kept P k id n _ lost))
  ]

  pub complete-Kept :
      (memory : Notification) (id : ℕ) (s : Socket) → Whole P k s → Whole P k (complete memory id s)
  unfolding complete
  complete-Kept memory id s p = elim (Option-cases (get_association id false s)) [
    | inl e ↦ rw (e, complete) p
    | inr (a, e) ↦
        let n = state_note id 14 0 0 (blank_notification memory) in
        let h = subst (OfSome P) e (get_association-Kept P k id false s p) in
        let over = k.kept_complete (wake_all a) (k.kept_wake a h) in
        rw (e, complete) (queue_notification-Kept P k id n _ (put-Kept P k _ s over p))
  ]

  pub end_callback-Kept :
      (lost : Lost) (lib : Lib) (now id : ℕ) (f : Socket → Socket × List LibCall) (m : Master)
      → LostKept P k lost
      → ((s : Socket) → Whole P k s → Whole P k (f s).0)
      → Everywhere P k m
      → OfSome (Everywhere P k) (end_callback lost lib now id f m)
  unfolding end_callback
  end_callback-Kept lost lib now id f m lost_kept h p =
      elim (Option-cases (association_garbage_collection lost now id false m)) [
        | inl e ↦ rw (e, end_callback) tt
        | inr ((n, true), e) ↦ rw (e, end_callback) (collected e)
        | inr ((n, false), e) ↦ elim (Option-cases (get_socket_for lib id n)) [
          | inl l ↦ rw (e, l, end_callback) (collected e)
          | inr (s, l) ↦
              let w = subst (OfSome (Whole P k)) l (socket_for-Kept lib id n (collected e)) in
              elim (Option-cases (check_auto_close lost now (f s).0 (note_lib (f s).1 n))) [
                | inl r ↦ rw (e, l, r, end_callback) tt
                | inr ((u, v), r) ↦
                    let both = subst (OfSome (Both P k)) r (
                      check_auto_close-Kept P k lost lost_kept now (f s).0 (note_lib (f s).1 n)
                        (h s w) (collected e)) in
                    rw (e, l, r, end_callback) (put_socket-Kept u v both.0 both.1)
              ]
        ]
      ]
    where
      collected :
          {n : Master} {b : Bool}
          → association_garbage_collection lost now id false m ≡ some (n, b)
          → Everywhere P k n
      collected e =
          subst (OfSome (OfFirst P k)) e
            (association_garbage_collection-Kept P k lost lost_kept now id false m p)
