-- ===== src/Sctp/Counting/Receiving.antt =====
-- The steps of internalReceive (socketapi/sctpsocket.cc) and the use counts of associations.
use socketapi.Prelude.{
  ℕ, ◌+◌, ◌-◌, ◌≤◌, ◌≡◌, refl, sym, ap, subst, ◌∙◌, inl, inr, Bool, true, false, List, ◌∷◌, some,
  length, ◌==◌, All, if◌then◌else◌, arith, Bool-cases, Option-cases,
}
use mathlib.Core.Option.{some-injective}
use socketapi.Strings.Decimal.{ℤ, pos}
use socketapi.Notifications.{Notification}
use socketapi.Association.{Association}
use socketapi.Sctp.{Socket, find_association, put_association, get_association}
use socketapi.Sctp.Find.{find-put_same, find_association-id}
use socketapi.Sctp.Every.{OfSome, OfSome-intro}
use socketapi.Sctp.Notify.{minus_econnreset, minus_econnaborted, get_error_code, refresh_ready}
use socketapi.Sctp.Receive.{
  Source, global, of_association, queue_of, put_queue, drop_first, Request, Receiver, Outcome,
  returned, waiting, aborted, mark_ready, count_down, finish_drop,
}
use socketapi.Sctp.Counting.{
  names, named, pending, IsNamed, Covers, IsCounted, covers, put-IsCounted, and_false,
}

-- The call does not end the process, and the use counts cover what waits.
abbrev pub IsSettled : Outcome → Type 0
IsSettled (returned s r result) = IsCounted s
IsSettled (waiting s) = IsCounted s
IsSettled aborted = ⊥

-- A change that is not about what waits.
touch-IsCounted :
    (id : ℕ) (a b : Association) (s : Socket)
    → find_association id s.associations ≡ some a
    → b.assoc_id ≡ id
    → b.use_count ≡ a.use_count
    → b.in_queue ≡ a.in_queue
    → IsCounted s
    → IsCounted (record s { associations = put_association b s.associations })
touch-IsCounted id a b s f own count queue counted =
    let old = covers id a s counted f in
    put-IsCounted id a b s.global_queue s f own counted counted.0 (λ k ne. omega arith)
      (rw (count, queue) old.0, subst (All (λ n. names n ≡ some id)) (sym queue) old.1)

either-IsCounted :
    (b : Bool) (x y : Socket × ℤ) → IsCounted x.0 → IsCounted y.0 → IsCounted (if b then x else y).0
either-IsCounted true x y p q = p
either-IsCounted false x y p q = q

pub get_error_code-IsCounted :
    (id : ℕ) (s : Socket) → IsCounted s → IsCounted (get_error_code id s).0
unfolding get_error_code get_association
get_error_code-IsCounted id s counted = elim (Option-cases (find_association id s.associations)) [
  | inl f ↦ rw (f, get_error_code, get_association) counted
  | inr (a, f) ↦
      let own = find_association-id id s.associations a f in
      let plain = and_false a.shutting_down in
      let marked =
        touch-IsCounted id a (record a { has_exception = true }) s f own refl refl counted in
      let there = record s {
        associations = put_association (record a { has_exception = true }) s.associations;
      } in
      rw (f, plain, get_error_code, get_association)
        (either-IsCounted a.shutdown_complete (there, minus_econnreset) _ marked
          (either-IsCounted a.lost (there, minus_econnaborted) (s, pos 0) marked counted))
]

mark_ready-IsCounted :
    (id : ℕ) (error : ℤ) (s : Socket) → IsCounted s → IsCounted (mark_ready id error s)
unfolding mark_ready
mark_ready-IsCounted id error s counted = elim (Option-cases (find_association id s.associations)) [
  | inl f ↦ rw (f, mark_ready) counted
  | inr (a, f) ↦
      rw (f, mark_ready)
        (touch-IsCounted id a _ s f (find_association-id id s.associations a f) refl refl counted)
]

pending-front :
    (k : ℕ) (n : Notification) (ns : List Notification) → pending k ns ≤ pending k (n ∷ ns)
unfolding pending
pending-front k n ns = elim (Bool-cases (named k n)) [
  | inl e ↦ rw (e, pending) (omega arith)
  | inr e ↦ rw (e, pending) (omega arith)
]

pending-front_same :
    (id : ℕ) (n : Notification) (ns : List Notification)
    → names n ≡ some id
    → pending id (n ∷ ns) ≡ pending id ns + 1
unfolding pending
pending-front_same id n ns e =
    let here : (id == id) ≡ true = ground arith in rw (named, e, here) refl

-- One more use than what waits for the association.
abbrev HasSpare : ℕ → Socket → Type 0
HasSpare id s =
    OfSome (λ a. pending id s.global_queue + length a.in_queue + 1 ≤ a.use_count)
      (find_association id s.associations)

count_down-IsSettled :
    (env : Receiver) (r : Request) (result : ℤ) (t : Socket)
    → IsCounted t
    → HasSpare r.request_id t
    → IsSettled (count_down env r result t)
unfolding count_down get_association refresh_ready
count_down-IsSettled env r result t counted spare =
    let id = r.request_id in
    elim (Option-cases (find_association id t.associations)) [
      | inl f ↦ rw (f, count_down, get_association) counted
      | inr (a, f) ↦
          let plain = and_false a.shutting_down in
          let more =
            subst (OfSome (λ c. pending id t.global_queue + length c.in_queue + 1 ≤ c.use_count)) f
              spare in
          let old = covers id a t counted f in
          let in_use : (a.use_count == 0) ≡ false = ground (arith, more) in
          let used = record a { last_usage = env.now; use_count = a.use_count - 1 } in
          let u = record t { associations = put_association used t.associations } in
          let less =
            put-IsCounted id a used t.global_queue t f (find_association-id id t.associations a f)
              counted counted.0 (λ k ne. omega arith) (omega (arith, more), old.1) in
          rw (f, plain, in_use, count_down, get_association)
            (mark_ready-IsCounted id (get_error_code id u).1 (get_error_code id u).0
              (get_error_code-IsCounted id u less))
    ]

pub queue_of-found :
    (k : ℕ) (a : Association) (s : Socket)
    → find_association k s.associations ≡ some a
    → queue_of (of_association k) s ≡ a.in_queue
unfolding queue_of
queue_of-found k a s f = rw (f, queue_of) refl

pub put_queue-found :
    (k : ℕ) (a : Association) (ns : List Notification) (s : Socket)
    → find_association k s.associations ≡ some a
    → put_queue (of_association k) ns s
      ≡ record s { associations = put_association (record a { in_queue = ns }) s.associations }
unfolding put_queue
put_queue-found k a ns s f = rw (f, put_queue) refl

-- The first notification of a queue is for an association.
pub front-IsNamed :
    (src : Source) (s : Socket) (n : Notification) (ns : List Notification)
    → queue_of src s ≡ n ∷ ns
    → IsCounted s
    → IsNamed n
unfolding queue_of
front-IsNamed global s n ns e counted = (subst (All IsNamed) e counted.0).0
front-IsNamed (of_association k) s n ns e counted =
    elim (Option-cases (find_association k s.associations)) [
      | inl f ↦ absurd (ground (arith, e, f))
      | inr (a, f) ↦
          let queue : a.in_queue ≡ n ∷ ns = sym (queue_of-found k a s f) ∙ e in
          (k, (subst (All (λ m. names m ≡ some k)) queue (covers k a s counted f).1).0)
    ]

drop_global-IsCounted :
    (id : ℕ) (s : Socket) (n : Notification) (ns : List Notification)
    → names n ≡ some id
    → IsCounted (record s { global_queue = n ∷ ns })
    → IsCounted (record s { global_queue = ns }) × HasSpare id (record s { global_queue = ns })
drop_global-IsCounted id s n ns e counted = (
  (
    counted.0.1,
    λ k. OfSome-intro (Covers k ns) _ (λ a f.
        let old = covers k a (record s { global_queue = n ∷ ns }) counted f in
        (omega (arith, old.0, pending-front k n ns), old.1)),
  ),
  OfSome-intro (λ a. pending id ns + length a.in_queue + 1 ≤ a.use_count) _
      (λ a f.
        let old = covers id a (record s { global_queue = n ∷ ns }) counted f in
        omega (arith, old.0, pending-front_same id n ns e)),
)

drop_own-IsCounted :
    (id : ℕ) (a : Association) (s : Socket) (n : Notification) (ns : List Notification)
    → find_association id s.associations ≡ some a
    → a.in_queue ≡ n ∷ ns
    → IsCounted s
    → IsCounted
        (record s { associations = put_association (record a { in_queue = ns }) s.associations })
      × HasSpare id
          (record s { associations = put_association (record a { in_queue = ns }) s.associations })
drop_own-IsCounted id a s n ns f queue counted =
    let old = covers id a s counted f in
    let own = find_association-id id s.associations a f in
    let long = ap length queue in
    let b = record a { in_queue = ns } in
    let f' = ap (λ i. find_association i s.associations) own ∙ f in
    let here =
      ap (λ i. find_association i (put_association b s.associations)) (sym own)
      ∙ find-put_same b s.associations a f' in
    (
      put-IsCounted id a b s.global_queue s f own counted counted.0 (λ k ne. omega arith)
          (omega (arith, old.0, long), (subst (All (λ m. names m ≡ some id)) queue old.1).1),
      subst (OfSome (λ c. pending id s.global_queue + length c.in_queue + 1 ≤ c.use_count))
          (sym here) (omega (arith, old.0, long)),
    )

-- The end of a call that drops the first notification.
pub finish_drop-IsSettled :
    (env : Receiver) (src : Source) (r : Request) (result : ℤ) (s : Socket) (n : Notification)
    (ns : List Notification)
    → queue_of src s ≡ n ∷ ns
    → names n ≡ some r.request_id
    → IsCounted s
    → IsSettled (finish_drop env src r result s)
unfolding finish_drop queue_of put_queue
finish_drop-IsSettled env global r result s n ns e named_by counted =
    let id = r.request_id in
    let (kept, spare) =
      drop_global-IsCounted id s n ns named_by
        (subst (λ q. IsCounted (record s { global_queue = q })) e counted) in
    subst (λ q. IsSettled (count_down env r result (record s { global_queue = drop_first q })))
      (sym e) (count_down-IsSettled env r result (record s { global_queue = ns }) kept spare)
finish_drop-IsSettled env (of_association k) r result s n ns e named_by counted =
    elim (Option-cases (find_association k s.associations)) [
      | inl f ↦ absurd (ground (arith, e, f))
      | inr (a, f) ↦
          let queue : a.in_queue ≡ n ∷ ns = sym (queue_of-found k a s f) ∙ e in
          let own = (subst (All (λ m. names m ≡ some k)) queue (covers k a s counted f).1).0 in
          let same : k ≡ r.request_id = some-injective k r.request_id (sym own ∙ named_by) in
          let g = ap (λ i. find_association i s.associations) (sym same) ∙ f in
          let (kept, spare) = drop_own-IsCounted r.request_id a s n ns g queue counted in
          let whole =
            put_queue-found k a (drop_first (queue_of (of_association k) s)) s f
            ∙ ap
                (λ q. record s {
                  associations =
                      put_association (record a { in_queue = drop_first q }) s.associations;
                })
                e in
          subst (λ t. IsSettled (count_down env r result t)) (sym whole)
            (count_down-IsSettled env r result _ kept spare)
    ]
