-- ===== src/Notifications/Fifo.antt =====
-- Runs of a notification queue (socketapi/sctpnotificationqueue.cc): what goes in and comes out.
use socketapi.Prelude.{
  ℕ, ◌≡◌, refl, sym, ap, ◌∙◌, none, some, List, [], ◌∷◌, ◌++◌, append_assoc, arith,
}
use socketapi.Notifications.{
  Notification, Heap, Queue, empty_queue, add_notification, get_notification, drop_notification,
}
use socketapi.Notifications.Represents.{Entries, Represents}
use socketapi.Notifications.Keeps.{add_notification-Represents, drop_notification-Represents}

-- A run from an empty queue, with what was added, the last one first, and what was taken out by
-- getNotification and dropNotification, the last one first. `new` returns a free address or none.
pub data Run (h : Heap) : List Notification → List Notification → Queue → Type 0 where
  start : Run h [] [] (empty_queue h)
  add :
      {ins outs : List Notification} {q : Queue}
      → Run h ins outs q
      → (a : ℕ) (m : Notification) → q.heap a ≡ none
      → Run h (m ∷ ins) outs (add_notification (some a) m q).0
  refuse :
      {ins outs : List Notification} {q : Queue}
      → Run h ins outs q
      → (m : Notification) → Run h ins outs (add_notification none m q).0
  take_first :
      {ins outs : List Notification} {q : Queue}
      → Run h ins outs q
      → (m : Notification) → get_notification q ≡ some m
      → Run h ins (m ∷ outs) (drop_notification q)

-- The notifications of the entries, the last one first.
pub notes_back : Entries → List Notification
notes_back [] = []
notes_back ((a, n) ∷ es) = notes_back es ++ n ∷ []

notes_back-append :
    (es : Entries) (a : ℕ) (m : Notification) → notes_back (es ++ (a, m) ∷ []) ≡ m ∷ notes_back es
unfolding notes_back
notes_back-append [] a m = refl
notes_back-append ((b, n) ∷ es) a m = ap (λ t. t ++ n ∷ []) (notes_back-append es a m)

-- The queue of a run, and that what came in is what went out behind what is left.
abbrev Fifo : List Notification → List Notification → Queue → Type 0
Fifo ins outs q = (es : Entries) × Represents q es × (ins ≡ notes_back es ++ outs)

got_none : (q : Queue) → Represents q [] → get_notification q ≡ none
unfolding get_notification
got_none q r = rw r.first_entry refl

take_first-Fifo :
    (ins outs : List Notification) (q : Queue) (m : Notification) (es : Entries)
    → get_notification q ≡ some m
    → Represents q es
    → ins ≡ notes_back es ++ outs
    → Fifo ins (m ∷ outs) (drop_notification q)
unfolding notes_back
take_first-Fifo ins outs q m [] g r e =
    let none_some = sym (got_none q r) ∙ g in absurd (ground (arith, none_some))
take_first-Fifo ins outs q m ((a, n) ∷ es) g r e =
    let (got, after, free) = drop_notification-Represents q es a n r in
    let same : n ≡ m = ground (arith, sym got ∙ g) in
    (
      es,
      after,
      e ∙ append_assoc (notes_back es) (n ∷ []) outs ∙ ap (λ x. notes_back es ++ x ∷ outs) same,
    )

-- After any run from an empty queue, what was added is what was taken out, in the same order,
-- followed by what the queue still holds.
pub Run-Fifo :
    (h : Heap) (ins outs : List Notification) (q : Queue)
    → Run h ins outs q
    → (es : Entries) × Represents q es × (ins ≡ notes_back es ++ outs)
unfolding notes_back empty_queue add_notification
Run-Fifo h _ _ _ start = (
  [],
  record { linked = tt; distinct = tt; first_entry = refl; last_entry = refl; counted = refl },
  refl,
)
Run-Fifo h _ _ _ (add {ins} {outs} {q} run a m free) =
    let (es, r, e) = Run-Fifo h ins outs q run in
    (
      es ++ (a, m) ∷ [],
      add_notification-Represents q es a m free r,
      rw (notes_back-append es a m) (ap (λ t. m ∷ t) e),
    )
Run-Fifo h _ _ _ (refuse {ins} {outs} {q} run m) = Run-Fifo h ins outs q run
Run-Fifo h _ _ _ (take_first {ins} {outs} {q} run m got) =
    let (es, r, e) = Run-Fifo h ins outs q run in take_first-Fifo ins outs q m es got r e
