-- ===== src/Notifications/Keeps.antt =====
-- The operations of a notification queue (socketapi/sctpnotificationqueue.cc) on what it stands for.
use socketapi.Prelude.{
  ℕ, ◌-◌, ◌≡◌, ◌≢◌, refl, sym, ap, ◌∙◌, inl, inr, false, none, some, [], ◌∷◌, ◌++◌, ◌==◌, ==-ne,
  if◌then◌else◌, All-append, Option-cases, arith, length-append,
}
use socketapi.Notifications.{
  Notification, Queue, set_cell, or_else, add_notification, get_notification, update_notification,
  drop_notification, same_pointer,
}
use socketapi.Notifications.Represents.{
  Entries, first_of, last_of, Linked, Apart, Distinct, Represents, set_cell-same, Linked-set_cell,
  free-Apart, Linked-append, last_of-Apart,
}

Distinct-append :
    (es : Entries) (a : ℕ) (m : Notification)
    → Distinct es
    → Apart a es
    → Distinct (es ++ (a, m) ∷ [])
Distinct-append [] a m d p = (tt, tt)
Distinct-append ((b, n) ∷ es) a m d p = (
  All-append _ es ((a, m) ∷ []) d.0 ((λ same. p.0 (sym same)), tt),
  Distinct-append es a m d.1 p.1,
)

first_of-append :
    (es : Entries) (a : ℕ) (m : Notification)
    → first_of (es ++ (a, m) ∷ []) ≡ or_else (first_of es) (some a)
first_of-append [] a m = refl
first_of-append ((b, n) ∷ es) a m = refl

last_of-append : (es : Entries) (a : ℕ) (m : Notification) → last_of (es ++ (a, m) ∷ []) ≡ some a
last_of-append [] a m = refl
last_of-append ((b, n) ∷ []) a m = refl
last_of-append ((b, n) ∷ x ∷ es) a m = last_of-append (x ∷ es) a m

last_of-none : (es : Entries) → last_of es ≡ none → es ≡ []
last_of-none [] e = refl
last_of-none ((b, n) ∷ []) e = absurd (ground arith)
last_of-none ((b, n) ∷ x ∷ es) e = absurd (more (last_of-none (x ∷ es) e))
  where
    more : x ∷ es ≢ []
    more p = cc

Linked-added :
    (q : Queue) (es : Entries) (a : ℕ) (m : Notification)
    → q.heap a ≡ none
    → Represents q es
    → Linked (add_notification (some a) m q).0.heap (es ++ (a, m) ∷ [])
unfolding add_notification
Linked-added q es a m f r = elim (Option-cases (q.last)) [
  | inl e ↦
      let empty : es ≡ [] = last_of-none es (sym r.last_entry ∙ e) in
      rw (empty, e) (set_cell-same q.heap a _, tt)
  | inr (l, e) ↦ rw e (Linked-append q.heap es a l m f (sym r.last_entry ∙ e) r.distinct r.linked)
]

-- A notification that is added at a free address stands behind the others.
pub add_notification-Represents :
    (q : Queue) (es : Entries) (a : ℕ) (m : Notification)
    → q.heap a ≡ none
    → Represents q es
    → Represents (add_notification (some a) m q).0 (es ++ (a, m) ∷ [])
unfolding add_notification
add_notification-Represents q es a m f r = record {
  linked = Linked-added q es a m f r;
  distinct = Distinct-append es a m r.distinct (free-Apart q.heap a es f r.linked);
  first_entry = ap (λ p. or_else p (some a)) r.first_entry ∙ sym (first_of-append es a m);
  last_entry = sym (last_of-append es a m);
  counted = omega (arith, length-append es ((a, m) ∷ []), r.counted);
}

last_of-some : (es : Entries) (x : ℕ × Notification) → (l : ℕ) × (last_of (x ∷ es) ≡ some l)
last_of-some [] (a, n) = (a, refl)
last_of-some (y ∷ es) (a, n) = last_of-some es y

-- The new Last, where the first of the entries is dropped.
last_of-drop :
    (es : Entries) (a : ℕ) (n : Notification)
    → Apart a es
    → (if same_pointer (last_of ((a, n) ∷ es)) a then first_of es else last_of ((a, n) ∷ es))
      ≡ last_of es
last_of-drop [] a n d = ground arith
last_of-drop (x ∷ es) a n d =
    let (l, e) = last_of-some es x in
    let other : (l == a) ≡ false = ==-ne l a (λ same. last_of-Apart (x ∷ es) a l e d (sym same)) in
    rw e (rw other refl)

drop_notification-eq :
    (q : Queue) (es : Entries) (a : ℕ) (n : Notification)
    → Represents q ((a, n) ∷ es)
    → drop_notification q ≡ record q {
      heap = set_cell q.heap a none;
      first = first_of es;
      last = if same_pointer q.last a then first_of es else q.last;
      count = q.count - 1;
    }
unfolding drop_notification set_cell
drop_notification-eq q es a n r = rw (r.first_entry, drop_notification, r.linked.0) refl

first_got :
    (q : Queue) (es : Entries) (a : ℕ) (n : Notification)
    → Represents q ((a, n) ∷ es)
    → get_notification q ≡ some n
unfolding get_notification
first_got q es a n r = rw (r.first_entry, r.linked.0) refl

-- The first notification is the one that is got; where it is dropped, the others are left in their
-- order, and its cell is free.
pub drop_notification-Represents :
    (q : Queue) (es : Entries) (a : ℕ) (n : Notification)
    → Represents q ((a, n) ∷ es)
    → (get_notification q ≡ some n)
      × Represents (drop_notification q) es
      × ((drop_notification q).heap a ≡ none)
drop_notification-Represents q es a n r = rw (drop_notification-eq q es a n r) (
  first_got q es a n r,
  record {
    linked = Linked-set_cell q.heap a none es r.distinct.0 r.linked.1;
    distinct = r.distinct.1;
    first_entry = refl;
    last_entry = rw r.last_entry (last_of-drop es a n r.distinct.0);
    counted = omega (arith, r.counted);
  },
  set_cell-same q.heap a none,
)

update_notification-eq :
    (q : Queue) (es : Entries) (a : ℕ) (n m : Notification)
    → Represents q ((a, n) ∷ es)
    → update_notification m q
      ≡ record q { heap = set_cell q.heap a (some (record { note = m; next = first_of es })) }
unfolding update_notification set_cell
update_notification-eq q es a n m r = rw (r.first_entry, r.linked.0) refl

-- An update puts the new notification in the place of the first one and leaves the others.
pub update_notification-Represents :
    (q : Queue) (es : Entries) (a : ℕ) (n m : Notification)
    → Represents q ((a, n) ∷ es)
    → Represents (update_notification m q) ((a, m) ∷ es)
update_notification-Represents q es a n m r = rw (update_notification-eq q es a n m r) (record {
  linked = (set_cell-same q.heap a _, Linked-set_cell q.heap a _ es r.distinct.0 r.linked.1);
  distinct = r.distinct;
  first_entry = r.first_entry;
  last_entry = r.last_entry ∙ same_last es;
  counted = r.counted;
})
  where
    same_last : (xs : Entries) → last_of ((a, n) ∷ xs) ≡ last_of ((a, m) ∷ xs)
    same_last [] = refl
    same_last (x ∷ xs) = refl
