-- ===== src/Sctp/Accept/Outcomes.antt =====
-- What becomes of the connections that wait, and of an association that is peeled off
-- (socketapi/sctpsocket.cc).
use socketapi.Prelude.{
  ◌==◌, ◌≤◌, ◌+◌, ltb, ◌||◌, ℕ, suc, ◌≡◌, refl, sym, ap, ◌∙◌, inl, inr, Bool, true, false, not,
  ◌&&◌, List, [], ◌∷◌, Option, none, some, Bytes, length, if◌then◌else◌, arith, Bool-cases,
  Option-cases,
}
use socketapi.Notifications.{Notification, wants}
use socketapi.Association.{Association}
use socketapi.Sctp.{Incoming, Socket, find_association, put_association, get_association}
use socketapi.Sctp.Find.{find-put_same, find_association-id}
use socketapi.Sctp.Lifetime.{erase_id}
use socketapi.Sctp.Notify.{refresh_ready, queue_notification, enqueue, to_global}
use socketapi.Sctp.Counting.{and_false}
use socketapi.Sctp.Accept.{
  accept, take_request, insert_id, connect_loop, check_auto_connect, contains_id, peel_off,
  search_waiting,
}

-- How often a number is on a list, and in the requests.
unfoldable pub count_id : ℕ → List ℕ → ℕ
count_id j [] = 0
count_id j (k ∷ ks) = let rest = count_id j ks in if j == k then rest + 1 else rest

unfoldable pub count_requests : ℕ → List Incoming → ℕ
count_requests j [] = 0
count_requests j (r ∷ rs) =
    let rest = count_requests j rs in if j == r.incoming_id then rest + 1 else rest

insert_id-count :
    (j id : ℕ) (ks : List ℕ)
    → count_id j (insert_id id ks) ≡ (if j == id then count_id j ks + 1 else count_id j ks)
unfolding insert_id count_id
insert_id-count j id [] = refl
insert_id-count j id (k ∷ ks) = elim (Bool-cases (ltb id k)) [
  | inl e ↦ rw e refl
  | inr e ↦ rw e (ground (arith, insert_id-count j id ks))
]

-- The numbers from the least one, each one not below `low`, are in their order.
abbrev pub SortedFrom : ℕ → List ℕ → Type 0
SortedFrom low [] = Unit
SortedFrom low (k ∷ ks) = (low ≤ k) × SortedFrom k ks

SortedFrom-lower : (low k : ℕ) (ks : List ℕ) → low ≤ k → SortedFrom k ks → SortedFrom low ks
SortedFrom-lower low k [] h s = tt
SortedFrom-lower low k (j ∷ ks) h (g, s) = (omega arith, s)

insert_id-SortedFrom :
    (low id : ℕ) (ks : List ℕ) → low ≤ id → SortedFrom low ks → SortedFrom low (insert_id id ks)
unfolding insert_id
insert_id-SortedFrom low id [] h s = (h, tt)
insert_id-SortedFrom low id (k ∷ ks) h (g, s) = elim (Bool-cases (ltb id k)) [
  | inl e ↦ rw e (h, (ground (arith, e), s))
  | inr e ↦ rw e (g, insert_id-SortedFrom k id ks (ground (arith, e)) s)
]

-- The list has each number as often as the old list and the requests together, in the order.
abbrev pub AllTaken : List Incoming → List ℕ → List ℕ → Type 0
AllTaken rs old new =
    ((j : ℕ) → count_id j new ≡ count_id j old + count_requests j rs) × SortedFrom 0 new

-- The socket has taken all requests.
abbrev pub Drained : List Incoming → Socket → Option Socket → Type 0
Drained rs s r =
    (t : Socket) × (r ≡ some t)
    × (t.requests ≡ [])
    × AllTaken rs s.connectionless t.connectionless
    × (t.associations ≡ s.associations)

take_one :
    (r : Incoming) (rs : List Incoming) (old new : List ℕ)
    → AllTaken rs (insert_id r.incoming_id old) new
    → AllTaken (r ∷ rs) old new
unfolding count_requests
take_one r rs old new (counts, sorted) =
    (λ j. ground (arith, counts j, insert_id-count j r.incoming_id old), sorted)

connect_loop-Drained :
    (rs : List Incoming) (s : Socket)
    → SortedFrom 0 s.connectionless
    → Drained rs s (connect_loop (suc (length rs)) (record s { listening = true; requests = rs }))
unfolding connect_loop accept take_request refresh_ready count_requests
connect_loop-Drained [] s sorted =
    (record s { listening = true; requests = [] }, refl, refl, (λ j. omega arith, sorted), refl)
connect_loop-Drained (r ∷ rs) s sorted =
    let t = refresh_ready (record s { listening = true; requests = rs }) in
    let (u, run, empty, all, same) =
      connect_loop-Drained rs
        (record t { connectionless = insert_id r.incoming_id t.connectionless })
        (insert_id-SortedFrom 0 r.incoming_id s.connectionless (omega arith) sorted) in
    (u, run, empty, take_one r rs s.connectionless u.connectionless all, same)

-- checkAutoConnect of a socket that connects by itself ends. The list of the associations made by
-- sendTo, which is in its order, then has the connections that waited besides those it had, each number
-- as often as both together, and is in its order; none waits, and the socket listens if it did before.
pub check_auto_connect-Drained :
    (rs : List Incoming) (s : Socket)
    → SortedFrom 0 s.connectionless
    → (t : Socket) × (check_auto_connect (record s { auto_connect = true; requests = rs }) ≡ some t)
      × (t.requests ≡ [])
      × AllTaken rs s.connectionless t.connectionless
      × (t.listening ≡ s.listening)
unfolding check_auto_connect
check_auto_connect-Drained rs s sorted =
    let (t, run, empty, all, rest) =
      connect_loop-Drained rs (record s { auto_connect = true }) sorted in
    (record t { listening = s.listening }, rw (run, check_auto_connect) refl, empty, all, refl)

-- The destination is one of the addresses.
abbrev pub is_among : (Bytes → Bytes → Bool) → Bytes → List Bytes → Bool
is_among same d [] = false
is_among same d (w ∷ ws) = same d w || is_among same d ws

-- A search among the addresses that an association is being made to tells whether the first
-- destination is one of them, whatever the other destinations are; without destinations it finds none.
pub search_waiting-first :
    (same : Bytes → Bytes → Bool) (d : Bytes) (ds waiting : List Bytes)
    → (search_waiting same (d ∷ ds) waiting ≡ is_among same d waiting)
      × (search_waiting same [] waiting ≡ false)
unfolding search_waiting
search_waiting-first same d ds [] = (none_waits ds, refl)
  where
    none_waits : (xs : List Bytes) → search_waiting same xs [] ≡ false
    none_waits [] = refl
    none_waits (x ∷ xs) = none_waits xs
search_waiting-first same d ds (w ∷ waiting) =
    let (more, nothing) = search_waiting-first same d ds waiting in
    (ap (λ b. if same d w then true else b) more ∙ if-or (same d w) (is_among same d waiting), refl)
  where
    if-or : (b c : Bool) → (if b then true else c) ≡ (b || c)
    if-or true c = refl
    if-or false c = refl

own_queue :
    (n : Notification) (b : Association) (s : Socket)
    → to_global b s ≡ false
    → (enqueue n b s).global_queue ≡ s.global_queue
unfolding enqueue
own_queue n b s e = rw (e, enqueue) refl

queued :
    (id : ℕ) (n : Notification) (b : Association) (t : Socket)
    → find_association id t.associations ≡ some (record b { peeled_off = true })
    → (queue_notification id n t).global_queue ≡ t.global_queue
unfolding queue_notification get_association
queued id n b t here =
    let plain = and_false b.shutting_down in
    let c = record b { peeled_off = true } in
    elim (Bool-cases (wants b.notification_flags n)) [
      | inl h ↦
          rw (here, plain, h, queue_notification, get_association)
            (own_queue n c t (and_false t.global_queue_flag))
      | inr h ↦ rw (here, plain, h, queue_notification, get_association) refl
    ]

-- A notification for an association that has been peeled off does not go to the socket's queue.
pub peel_off-own_queue :
    (id : ℕ) (n : Notification) (s : Socket)
    → (peel_off id s).0 ≡ some id
    → (queue_notification id n (peel_off id s).1).global_queue ≡ s.global_queue
unfolding peel_off queue_notification get_association
peel_off-own_queue id n s e = elim (Option-cases (find_association id s.associations)) [
  | inl f ↦
      let bad : (peel_off id s).0 ≡ none = rw (f, peel_off) refl in absurd (ground (arith, e, bad))
  | inr (a, f) ↦ elim (Bool-cases (contains_id id s.connectionless && not a.shutting_down)) [
    | inr c ↦
        let bad : (peel_off id s).0 ≡ none = rw (f, c, peel_off) refl in
        absurd (ground (arith, e, bad))
    | inl c ↦
        let b = record a { peeled_off = true } in
        let own = find_association-id id s.associations a f in
        let f' = ap (λ i. find_association i s.associations) own ∙ f in
        let here : find_association id (put_association b s.associations) ≡ some b =
          ap (λ i. find_association i (put_association b s.associations)) (sym own)
          ∙ find-put_same b s.associations a f' in
        let t = record s {
          associations = put_association b s.associations;
          connectionless = erase_id id s.connectionless;
        } in
        let made : (peel_off id s).1 ≡ t = rw (f, c, peel_off) refl in
        ap (λ u. (queue_notification id n u).global_queue) made ∙ queued id n a t here
  ]
]
