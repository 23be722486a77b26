-- ===== src/Sctp/Errors.antt =====
-- Which errors getErrorCode (socketapi/sctpsocket.cc) tells, and when a reader is told of data
-- (ReadReady), after the callbacks of socketapi/sctpsocketmaster.cc.
use socketapi.Prelude.{
  ℕ, ◌≡◌, refl, subst, ◌⊎◌, inl, inr, Bool, true, false, not, ◌||◌, some, Option-cases, Bool-cases,
  arith,
}
use socketapi.Strings.Decimal.{pos}
use socketapi.Association.{Association, new_association}
use socketapi.Sctp.{Socket, Master, get_association, find_association, find_socket}
use socketapi.Sctp.Every.{OfSome, find_association-All, find_socket-All}
use socketapi.Sctp.Events.{Run}
use socketapi.Sctp.Notify.{get_error_code, minus_econnreset, association_has_data, queue_has_data}
use socketapi.Sctp.Kept.{Kept, Whole, Everywhere, get_association-Kept}
use socketapi.Sctp.Kept.Runs.{Run-Kept}

-- A lost association has completed its shutdown.
abbrev pub IsLostComplete : Association → Type 0
IsLostComplete a = (not a.lost || a.shutdown_complete) ≡ true

or_true : (b : Bool) → (b || true) ≡ true
or_true true = refl
or_true false = refl

pub lost_complete-Kept : Kept IsLostComplete
unfolding new_association
lost_complete-Kept = record {
  kept_new = λ instance id flags now. refl;
  kept_shutdown = λ a h. h;
  kept_use = λ a h. h;
  kept_queue = λ a ns h. h;
  kept_rto = λ a h. h;
  kept_up = λ a h. h;
  kept_send = λ a ps cs h. h;
  kept_write = λ a h. h;
  kept_wake = λ a h. h;
  kept_complete = λ a h. or_true (not a.lost);
  kept_lost = λ a h. refl;
}

-- Where an association has data for its reader, it says so.
abbrev pub IsReady : Association → Type 0
IsReady a = (not (association_has_data a) || a.read_ready) ≡ true

implies_self : (b : Bool) → (not b || b) ≡ true
implies_self true = refl
implies_self false = refl

pub ready-Kept : Kept IsReady
unfolding new_association association_has_data queue_has_data
ready-Kept = record {
  kept_new = λ instance id flags now. refl;
  kept_shutdown = λ a h. h;
  kept_use = λ a h. h;
  kept_queue = λ a ns h. implies_self (association_has_data (record a { in_queue = ns }));
  kept_rto = λ a h. h;
  kept_up = λ a h. h;
  kept_send = λ a ps cs h. h;
  kept_write = λ a h. h;
  kept_wake = λ a h. or_true (not (association_has_data a));
  kept_complete = λ a h. h;
  kept_lost = λ a h. h;
}

implies : (b c : Bool) → (not b || c) ≡ true → b ≡ true → c ≡ true
implies true c h e = h
implies false c h e = absurd (ground arith)

-- Where every lost association has completed its shutdown at first, getErrorCode of any socket and
-- any association after any run of callbacks tells 0 or -ECONNRESET; so it is never -ECONNABORTED.
pub get_error_code-reset :
    {m n : Master} (i id : ℕ) (s : Socket)
    → Run m n
    → Everywhere IsLostComplete lost_complete-Kept m
    → find_socket i n.sockets ≡ some s
    → ((get_error_code id s).1 ≡ pos 0) ⊎ ((get_error_code id s).1 ≡ minus_econnreset)
unfolding get_error_code
get_error_code-reset {m} {n} i id s r p f =
    let all = Run-Kept IsLostComplete lost_complete-Kept r p in
    let whole =
      find_socket-All (Whole IsLostComplete lost_complete-Kept) i n.sockets (some s) f all in
    elim (Option-cases (get_association id false s)) [
      | inl e ↦ inl (rw (e, get_error_code) refl)
      | inr (a, e) ↦
          let agrees =
            subst (OfSome IsLostComplete) e
              (get_association-Kept IsLostComplete lost_complete-Kept id false s whole) in
          elim (Bool-cases a.shutdown_complete) [
            | inl c ↦ inr (rw (e, c, get_error_code) refl)
            | inr c ↦ elim (Bool-cases a.lost) [
              | inl l ↦ absurd (ground (arith, implies a.lost a.shutdown_complete agrees l))
              | inr l ↦ inl (rw (e, c, l, get_error_code) refl)
            ]
          ]
    ]

-- Where every association with data for its reader is ready for reading at first, this is so of
-- each association of each socket after any run of callbacks.
pub Run-IsReady :
    {m n : Master} (i id : ℕ) (s : Socket) (a : Association)
    → Run m n
    → Everywhere IsReady ready-Kept m
    → find_socket i n.sockets ≡ some s
    → find_association id s.associations ≡ some a
    → queue_has_data a.notification_flags a.in_queue ≡ true
    → a.read_ready ≡ true
unfolding association_has_data
Run-IsReady {m} {n} i id s a r p f g h =
    let all = Run-Kept IsReady ready-Kept r p in
    let whole = find_socket-All (Whole IsReady ready-Kept) i n.sockets (some s) f all in
    implies (association_has_data a) a.read_ready
      (find_association-All IsReady id s.associations (some a) g whole) h
