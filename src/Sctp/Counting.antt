-- ===== src/Sctp/Counting.antt =====
-- The use counts of associations: addNotification (socketapi/sctpsocketmaster.cc) counts up what
-- internalReceive (socketapi/sctpsocket.cc) counts down.
pub mod Receiving
pub mod Safe
use socketapi.Prelude.{
  ℕ, ◌+◌, ◌-◌, ◌^◌, ◌%◌, ◌≤◌, ◌<◌, ◌≡◌, ◌≢◌, refl, sym, ap, subst, ◌∙◌, ◌⊎◌, inl, inr, Bool, true,
  false, not, ◌&&◌, ◌||◌, List, [], ◌∷◌, ◌++◌, Option, none, some, length, length-append, ◌==◌,
  ==-ne, ==_iff, ltb, All, if◌then◌else◌, arith, Bool-cases, Option-cases,
}
use mathlib.Core.Option.{some-injective}
use socketapi.Notifications.{Notification, wants}
use socketapi.Association.{Association}
use socketapi.Sctp.{Socket, find_association, put_association, get_association}
use socketapi.Sctp.Find.{find-put_other, find-put_same, find_association-id}
use socketapi.Sctp.Every.{OfSome, OfSome-intro}
use socketapi.Sctp.Notify.{
  queue_notification, enqueue, use_more, to_global, refresh_ready, association_has_data,
}
use socketapi.Sctp.Receive.{arrival, event_id}

-- The association that a notification is counted for when it is received. An empty data
-- notification names none.
unfoldable pub names : Notification → Option ℕ
names n =
    if n.sn_type == 8
    then if ltb 0 (arrival n.content).1 then some n.sn_assoc_id else none
    else event_id n

abbrev pub named : ℕ → Notification → Bool
named id n = elim (names n) [ none ↦ false | some k ↦ k == id ]

-- How many notifications of a queue name an association.
unfoldable pub pending : ℕ → List Notification → ℕ
pending id [] = 0
pending id (n ∷ ns) = let rest = pending id ns in if named id n then rest + 1 else rest

abbrev pub IsNamed : Notification → Type 0
IsNamed n = (id : ℕ) × (names n ≡ some id)

pub pending-same :
    (id : ℕ) (m n : Notification) (ns : List Notification)
    → names m ≡ names n
    → pending id (m ∷ ns) ≡ pending id (n ∷ ns)
unfolding pending
pending-same id m n ns e = rw (named, e) refl

-- What an association is in use for covers the notifications that wait for it.
abbrev pub Covers : ℕ → List Notification → Association → Type 0
Covers id queue a =
    (pending id queue + length a.in_queue ≤ a.use_count) × All (λ n. names n ≡ some id) a.in_queue

abbrev pub IsCounted : Socket → Type 0
IsCounted s =
    All IsNamed s.global_queue
    × ((id : ℕ) → OfSome (Covers id s.global_queue) (find_association id s.associations))

pub covers :
    (id : ℕ) (a : Association) (s : Socket)
    → IsCounted s
    → find_association id s.associations ≡ some a
    → Covers id s.global_queue a
covers id a s counted f = subst (OfSome (Covers id s.global_queue)) f (counted.1 id)

pub pending-append_same :
    (id : ℕ) (ns : List Notification) (n : Notification)
    → names n ≡ some id
    → pending id (ns ++ n ∷ []) ≡ pending id ns + 1
unfolding pending
pending-append_same id [] n e =
    let here : (id == id) ≡ true = ground arith in rw (named, e, here) refl
pending-append_same id (m ∷ ns) n e = ground (arith, pending-append_same id ns n e)

pub pending-append_other :
    (id k : ℕ) (ns : List Notification) (n : Notification)
    → names n ≡ some id
    → k ≢ id
    → pending k (ns ++ n ∷ []) ≡ pending k ns
unfolding pending
pending-append_other id k [] n e ne = rw (named, e, ==-ne id k (λ h. ne (sym h))) refl
pending-append_other id k (m ∷ ns) n e ne = ground (arith, pending-append_other id k ns n e ne)

pub and_false : (b : Bool) → (b && false) ≡ false
and_false true = refl
and_false false = refl

-- A change of the queue and of one association.
pub put-IsCounted :
    (id : ℕ) (a b : Association) (queue : List Notification) (s : Socket)
    → find_association id s.associations ≡ some a
    → b.assoc_id ≡ id
    → IsCounted s
    → All IsNamed queue
    → ((k : ℕ) → k ≢ id → pending k queue ≤ pending k s.global_queue)
    → Covers id queue b
    → IsCounted (record s { global_queue = queue; associations = put_association b s.associations })
put-IsCounted id a b queue s f own counted all less own_covers =
    (all, λ k. OfSome-intro (Covers k queue) _ (each k))
  where
    each :
        (k : ℕ) (c : Association)
        → find_association k (put_association b s.associations) ≡ some c
        → Covers k queue c
    each k c g = elim (Bool-cases (k == id)) [
      | inl h ↦
          let e : k ≡ id = (==_iff k id).0 h in
          let f' = ap (λ i. find_association i s.associations) own ∙ f in
          let here =
            ap (λ i. find_association i (put_association b s.associations)) (own ∙ sym e) in
          let same = some-injective b c (sym (find-put_same b s.associations a f') ∙ here ∙ g) in
          subst (λ x. Covers k queue x) same (subst (λ i. Covers i queue b) (sym e) own_covers)
      | inr h ↦
          let ne : k ≢ id = λ e. absurd (ground arith) in
          let g' = sym (find-put_other k b s.associations (λ e. ne (e ∙ own))) ∙ g in
          let old = covers k c s counted g' in (omega (arith, old.0, less k ne), old.1)
    ]

All-append_one :
    (P : Notification → Type 0) (ns : List Notification) (n : Notification)
    → All P ns
    → P n
    → All P (ns ++ n ∷ [])
All-append_one P [] n p q = (q, tt)
All-append_one P (m ∷ ns) n p q = (p.0, All-append_one P ns n p.1 q)

enqueue-IsCounted :
    (id : ℕ) (n : Notification) (a : Association) (s : Socket)
    → find_association id s.associations ≡ some a
    → names n ≡ some id
    → a.use_count + 1 < 2 ^ 32
    → IsCounted s
    → IsCounted (enqueue n a s)
unfolding enqueue refresh_ready
enqueue-IsCounted id n a s f e bound counted =
    let old = covers id a s counted f in
    let own = find_association-id id s.associations a f in
    let more : (a.use_count + 1) % 2 ^ 32 ≡ a.use_count + 1 = omega arith in
    elim (Bool-cases (to_global a s)) [
      | inl h ↦
          let one = pending-append_same id s.global_queue n e in
          rw (h, enqueue)
            (put-IsCounted id a (use_more a) (s.global_queue ++ n ∷ []) s f own counted
              (All-append_one IsNamed s.global_queue n counted.0 (id, e))
              (λ k ne. omega (arith, pending-append_other id k s.global_queue n e ne))
              (omega (arith, one, more, old.0), old.1))
      | inr h ↦
          let long = length-append a.in_queue (n ∷ []) in
          rw (h, enqueue)
            (put-IsCounted id a _ s.global_queue s f own counted counted.0 (λ k ne. omega arith)
              (omega (arith, long, more, old.0), All-append_one _ a.in_queue n old.1 e))
    ]

-- Where each notification that waits names an association, which is that of the queue if it is an
-- association's, and the use count of each association covers the notifications that wait for it,
-- the same holds after addNotification of a notification that names the association it is for, when
-- the use count does not overflow.
pub queue_notification-IsCounted :
    (id : ℕ) (n : Notification) (s : Socket)
    → names n ≡ some id
    → OfSome (λ a. a.use_count + 1 < 2 ^ 32) (find_association id s.associations)
    → IsCounted s
    → IsCounted (queue_notification id n s)
unfolding queue_notification get_association
queue_notification-IsCounted id n s e bound counted =
    elim (Option-cases (find_association id s.associations)) [
      | inl f ↦ rw (f, queue_notification, get_association) counted
      | inr (a, f) ↦
          let plain = and_false a.shutting_down in
          elim (Bool-cases (wants a.notification_flags n)) [
            | inl h ↦
                rw (f, plain, h, queue_notification, get_association)
                  (enqueue-IsCounted id n a s f e
                    (subst (OfSome (λ c. c.use_count + 1 < 2 ^ 32)) f bound) counted)
            | inr h ↦ rw (f, plain, h, queue_notification, get_association) counted
          ]
    ]
