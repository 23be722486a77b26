-- ===== src/Sctp/Kept.antt =====
-- What holds of every association of every socket, and the changes that the callbacks of
-- socketapi/sctpsocketmaster.cc make to an association.
pub mod Removal
pub mod Calls
pub mod Runs
use socketapi.Prelude.{
  ℕ, zero, suc, ◌+◌, ◌≡◌, refl, subst, ◌⊎◌, inl, inr, Bool, true, false, not, ◌&&◌, List, [], ◌∷◌,
  ◌++◌, Option, none, some, All, if◌then◌else◌, Bool-cases, Option-cases, length,
}
use socketapi.Strings.Decimal.{ℤ}
use socketapi.Notifications.{Notification, wants}
use socketapi.Association.{
  Association, Call, Packet, LibCall, abort, shutdown, new_association, send_to, send_packets,
  int_eq,
}
use socketapi.Sctp.{
  Socket, Master, Lib, find_association, put_association, get_association, find_socket, put_socket,
  get_socket_for, note_lib,
}
use socketapi.Sctp.Lifetime.{
  Decision, keep, remove, do_abort, do_shutdown, decide_close, delete_association, apply_decision,
  close_loop, check_auto_close, auto_close_sockets, socket_garbage_collection,
  association_garbage_collection, erase_id, release,
}
use socketapi.Sctp.Closing.{delayed_delete_association, collect_sockets, is_closing, erase_closing}
use socketapi.Sctp.Notify.{
  queue_notification, enqueue, use_more, to_global, refresh_ready, association_has_data,
  init_notification, blank_notification,
}
use socketapi.Sctp.Every.{
  OfSome, find_association-All, put_association-All, erase_association-All, insert_association-All,
  find_socket-All, put_socket-All,
}

-- The changes that are made to an association.
pub record Kept (P : Association → Type 0) : Type 0 where
  pub kept_new :
      (instance id flags now : ℕ)
      → P (record (new_association instance id flags now) {
        up = true;
        write_ready = true;
        has_exception = false;
      })
  pub kept_shutdown : (a : Association) → P a → P (record a { shutting_down = true })
  pub kept_use : (a : Association) → P a → P (use_more a)
  pub kept_queue :
      (a : Association) (ns : List Notification)
      → P a
      → P (record a {
        in_queue = ns;
        read_ready = association_has_data (record a { in_queue = ns });
      })
  pub kept_rto : (a : Association) → P a → P (record a { rto_max_is_init_timeout = false })
  pub kept_up :
      (a : Association)
      → P a
      → P (record a {
        up = true;
        write_ready = true;
        has_exception = false;
        waiting_addresses = none;
      })
  pub kept_send :
      (a : Association) (ps : List Packet) (cs : List Call)
      → P a
      → P (record a { packets = ps; calls = cs })
  pub kept_write : (a : Association) → P a → P (record a { write_ready = true })
  pub kept_wake :
      (a : Association)
      → P a
      → P (record a { has_exception = true; write_ready = true; read_ready = true })
  pub kept_complete : (a : Association) → P a → P (record a { shutdown_complete = true })
  pub kept_lost : (a : Association) → P a → P (record a { lost = true; shutdown_complete = true })

module _ (P : Association → Type 0) (k : Kept P) where
  abbrev pub Whole : Socket → Type 0
  Whole s = All P s.associations

  abbrev pub Everywhere : Master → Type 0
  Everywhere m = All Whole m.sockets

  pub get_association-Kept :
      (id : ℕ) (active : Bool) (s : Socket) → Whole s → OfSome P (get_association id active s)
  unfolding get_association
  get_association-Kept id active s p = elim (Option-cases (find_association id s.associations)) [
    | inl e ↦ rw (e, get_association) tt
    | inr (a, e) ↦
        rw (e, get_association)
          (elim (Bool-cases (a.shutting_down && active)) [
            | inl h ↦ rw (h) tt
            | inr h ↦ rw h (find_association-All P id s.associations (some a) e p)
          ])
  ]

  pub either-Kept :
      {B : Type 0} (b : Bool) (x y : Association × B) → P x.0 → P y.0 → P (if b then x else y).0
  either-Kept true x y h l = h
  either-Kept false x y h l = l

  pub put-Kept :
      (b : Association) (s : Socket) → P b → Whole s → All P (put_association b s.associations)
  put-Kept b s q p = put_association-All P b s.associations q p

  pub enqueue-Kept :
      (n : Notification) (a : Association) (s : Socket) → P a → Whole s → Whole (enqueue n a s)
  unfolding enqueue refresh_ready
  enqueue-Kept n a s q p = elim (Bool-cases (to_global a s)) [
    | inl e ↦ rw e (put-Kept (use_more a) s (k.kept_use a q) p)
    | inr e ↦
        rw e (put-Kept _ s (k.kept_queue (use_more a) (a.in_queue ++ n ∷ []) (k.kept_use a q)) p)
  ]

  pub queue_notification-Kept :
      (id : ℕ) (n : Notification) (s : Socket) → Whole s → Whole (queue_notification id n s)
  unfolding queue_notification
  queue_notification-Kept id n s p = elim (Option-cases (get_association id false s)) [
    | inl e ↦ rw (e, queue_notification) p
    | inr (a, e) ↦
        rw (e, queue_notification)
          (elim (Bool-cases (wants a.notification_flags n)) [
            | inl h ↦
                rw h (enqueue-Kept n a s (subst (OfSome P) e (get_association-Kept id false s p)) p)
            | inr h ↦ rw h p
          ])
  ]

  -- The delete of an association, and what checkAutoClose does.
  abbrev pub Both : Socket × Master → Type 0
  Both (s, m) = Whole s × Everywhere m

  release-Kept : (a : Association) (m : Master) → Everywhere m → Everywhere (release a m)
  unfolding release shutdown delayed_delete_association
  release-Kept a m p = elim (Bool-cases a.shutdown_complete) [
    | inl e ↦ rw (e, release) p
    | inr e ↦ rw (e, release) p
  ]

  pub delete_association-Kept :
      (a : Association) (s : Socket) (m : Master)
      → Whole s
      → Everywhere m
      → OfSome Both (delete_association a s m)
  unfolding delete_association
  delete_association-Kept a s m p q =
      elim (Option-cases (find_association a.assoc_id s.associations)) [
        | inl e ↦ rw (e, delete_association) tt
        | inr (b, e) ↦
            rw (e, delete_association)
              (erase_association-All P a.assoc_id s.associations p, release-Kept a m q)
      ]
