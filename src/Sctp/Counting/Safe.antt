-- ===== src/Sctp/Counting/Safe.antt =====
-- internalReceive (socketapi/sctpsocket.cc) as a whole, and the use counts of associations.
use socketapi.Prelude.{
  ℕ, ◌+◌, ◌-◌, ◌^◌, ◌%◌, ◌≡◌, ◌≢◌, refl, sym, ap, subst, ◌∙◌, inl, inr, Bool, true, false, ◌&&◌,
  List, [], ◌∷◌, none, some, length, min, ◌==◌, ==_iff, ltb, All, if◌then◌else◌, arith, Bool-cases,
  Option-cases,
}
use socketapi.Strings.Decimal.{ℤ, pos}
use socketapi.Notifications.{Notification, data_arrive, wants}
use socketapi.Association.{Association}
use socketapi.Sctp.{Socket, find_association, put_association, get_association}
use socketapi.Sctp.Find.{find-put_other, find-put_same, find_association-id}
use socketapi.Sctp.Every.{OfSome-intro}
use socketapi.Sctp.Notify.{minus_econnreset, minus_econnaborted, get_error_code}
use socketapi.Sctp.Receive.{
  Source, global, of_association, queue_of, put_queue, update_first, Request, Receiver, Outcome,
  returned, waiting, is_negative, finish_update, receive_nothing, receive_data, receive_event,
  skip_event, internal_receive, arrival, event_id,
}
use socketapi.Sctp.Counting.{
  names, pending-same, Covers, IsCounted, covers, put-IsCounted, and_false,
}
use socketapi.Sctp.Counting.Receiving.{
  IsSettled, get_error_code-IsCounted, finish_drop-IsSettled, front-IsNamed, queue_of-found,
  put_queue-found,
}

if-IsSettled :
    (b : Bool) (x y : Outcome) → IsSettled x → IsSettled y → IsSettled (if b then x else y)
if-IsSettled true x y p q = p
if-IsSettled false x y p q = q

if_with-IsSettled :
    (b : Bool) (x y : Outcome)
    → (b ≡ true → IsSettled x)
    → IsSettled y
    → IsSettled (if b then x else y)
if_with-IsSettled true x y p q = p refl
if_with-IsSettled false x y p q = q

-- A notification that is updated is for the same association.
finish_update-IsSettled :
    (src : Source) (m n : Notification) (ns : List Notification) (r : Request) (result : ℤ)
    (s : Socket)
    → queue_of src s ≡ n ∷ ns
    → names m ≡ names n
    → IsCounted s
    → IsSettled (finish_update src m r result s)
unfolding finish_update queue_of put_queue
finish_update-IsSettled global m n ns r result s e same counted =
    let before = subst (λ q. IsCounted (record s { global_queue = q })) e counted in
    subst (λ q. IsCounted (record s { global_queue = update_first m q })) (sym e)
      (
        ((before.0.0.0, same ∙ before.0.0.1), before.0.1),
        λ k. OfSome-intro (Covers k (m ∷ ns)) _ (λ a f.
            let old = covers k a (record s { global_queue = n ∷ ns }) before f in
            (omega (arith, old.0, pending-same k m n ns same), old.1)),
      )
finish_update-IsSettled (of_association k) m n ns r result s e same counted =
    elim (Option-cases (find_association k s.associations)) [
      | inl f ↦ absurd (ground (arith, e, f))
      | inr (a, f) ↦
          let queue : a.in_queue ≡ n ∷ ns = sym (queue_of-found k a s f) ∙ e in
          let old = covers k a s counted f in
          let long = ap length queue in
          let all = subst (All (λ x. names x ≡ some k)) queue old.1 in
          let b = record a { in_queue = m ∷ ns } in
          let whole =
            put_queue-found k a (update_first m (queue_of (of_association k) s)) s f
            ∙ ap
                (λ q. record s {
                  associations =
                      put_association (record a { in_queue = update_first m q }) s.associations;
                })
                e in
          subst IsCounted (sym whole) (
            put-IsCounted k a b s.global_queue s f (find_association-id k s.associations a f)
              counted counted.0 (λ j ne. omega arith)
              (omega (arith, old.0, long), (same ∙ all.0, all.1)))
    ]

receive_nothing-IsSettled :
    (src : Source) (flags : ℕ) (r : Request) (s : Socket)
    → IsCounted s
    → IsSettled (receive_nothing src flags r s)
unfolding receive_nothing
receive_nothing-IsSettled src flags r s counted =
    let t = (get_error_code r.request_id s).0 in
    let kept = get_error_code-IsCounted r.request_id s counted in
    if-IsSettled (is_negative (get_error_code r.request_id s).1) _ _
      (if-IsSettled _ (returned t _ _) (returned t _ _) kept kept)
      (if-IsSettled r.msg_dontwait (returned t _ _) (waiting t) kept kept)

data-names :
    (n : Notification)
    → (n.sn_type == 8) ≡ true
    → ltb 0 (arrival n.content).1 ≡ true
    → names n ≡ some n.sn_assoc_id
unfolding names
data-names n type some_bytes = rw (names, type, some_bytes) refl

empty-names :
    (n : Notification)
    → (n.sn_type == 8) ≡ true
    → ltb 0 (arrival n.content).1 ≡ false
    → names n ≡ none
unfolding names
empty-names n type empty = rw (names, type, empty) refl

event-names : (n : Notification) → (n.sn_type == 8) ≡ false → names n ≡ event_id n
unfolding names
event-names n type = rw (names, type) refl

receive_data-IsSettled :
    (env : Receiver) (src : Source) (n : Notification) (r : Request) (s : Socket)
    (ns : List Notification)
    → queue_of src s ≡ n ∷ ns
    → (n.sn_type == 8) ≡ true
    → ltb 0 (arrival n.content).1 ≡ true
    → IsCounted s
    → IsSettled (receive_data env src n r s)
unfolding receive_data arrival
receive_data-IsSettled env src n r s ns e type some_bytes counted =
    let by = data-names n type some_bytes in
    elim (Option-cases (
      env.sctp_receive n.sn_assoc_id (arrival n.content).2 (min (arrival n.content).1 r.buffer_size)
        r.msg_peek)) [
          | inl h ↦ rw (h, receive_data) (finish_drop-IsSettled env src _ _ s n ns e by counted)
          | inr ((got, ssn, tsn), h) ↦
              rw (h, receive_data)
                (if-IsSettled r.msg_peek _ _
                  (finish_update-IsSettled src n n ns _ _ s e refl counted)
                  (let (flags, bytes, stream, ppid) = arrival n.content in
                    let left = (bytes + 2 ^ 32 - length got) % 2 ^ 32 in
                    let rest = record n { content = data_arrive flags left stream ppid } in
                    if_with-IsSettled (ltb 0 left) _ _
                      (λ more.
                        finish_update-IsSettled src rest n ns _ _ s e
                          (data-names rest type more ∙ sym by) counted)
                      (finish_drop-IsSettled env src _ _ s n ns e by counted)))
        ]

receive_event-IsSettled :
    (env : Receiver) (src : Source) (n : Notification) (r : Request) (s : Socket)
    (ns : List Notification)
    → queue_of src s ≡ n ∷ ns
    → (n.sn_type == 8) ≡ false
    → event_id n ≡ some r.request_id
    → IsCounted s
    → IsSettled (receive_event env src n r s)
unfolding receive_event event_id
receive_event-IsSettled env src n r s ns e type by counted =
    let named_by = event-names n type ∙ by in
    if-IsSettled _ _ _
      (finish_update-IsSettled src _ n ns _ _ s e (event-names _ type ∙ sym (event-names n type))
        counted)
      (if-IsSettled r.msg_peek _ _
        (finish_update-IsSettled src _ n ns _ _ s e (event-names _ type ∙ sym (event-names n type))
          counted)
        (finish_drop-IsSettled env src _ _ s n ns e named_by counted))

-- A change of an association that is not one of its queue.
touch-queue_of :
    (src : Source) (id : ℕ) (a b : Association) (s : Socket)
    → find_association id s.associations ≡ some a
    → b.assoc_id ≡ id
    → b.in_queue ≡ a.in_queue
    → queue_of src (record s { associations = put_association b s.associations }) ≡ queue_of src s
unfolding queue_of
touch-queue_of global id a b s f own queue = refl
touch-queue_of (of_association k) id a b s f own queue = elim (Bool-cases (k == id)) [
  | inl h ↦
      let e : k ≡ id = (==_iff k id).0 h in
      let f' = ap (λ i. find_association i s.associations) own ∙ f in
      let here =
        ap (λ i. find_association i (put_association b s.associations)) (e ∙ sym own)
        ∙ find-put_same b s.associations a f' in
      queue_of-found k b (record s { associations = put_association b s.associations }) here
      ∙ queue
      ∙ sym (queue_of-found k a s (ap (λ i. find_association i s.associations) e ∙ f))
  | inr h ↦
      let ne : k ≢ id = λ e. absurd (ground arith) in
      ap (λ o. elim (o) [ none ↦ [] | some c ↦ c.in_queue ])
        (find-put_other k b s.associations (λ e. ne (e ∙ own)))
]

either-queue_of :
    (src : Source) (q : List Notification) (b : Bool) (x y : Socket × ℤ)
    → queue_of src x.0 ≡ q
    → queue_of src y.0 ≡ q
    → queue_of src (if b then x else y).0 ≡ q
either-queue_of src q true x y h l = h
either-queue_of src q false x y h l = l

-- getErrorCode leaves the queues as they are.
get_error_code-queue_of :
    (src : Source) (id : ℕ) (s : Socket) → queue_of src (get_error_code id s).0 ≡ queue_of src s
unfolding get_error_code get_association
get_error_code-queue_of src id s = elim (Option-cases (find_association id s.associations)) [
  | inl f ↦ rw (f, get_error_code, get_association) refl
  | inr (a, f) ↦
      let own = find_association-id id s.associations a f in
      let plain = and_false a.shutting_down in
      let there = record s {
        associations = put_association (record a { has_exception = true }) s.associations;
      } in
      let same = touch-queue_of src id a (record a { has_exception = true }) s f own refl in
      rw (f, plain, get_error_code, get_association)
        (either-queue_of src (queue_of src s) a.shutdown_complete (there, minus_econnreset) _ same
          (either-queue_of src (queue_of src s) a.lost (there, minus_econnaborted) (s, pos 0) same
            refl))
]

skip_event-IsSettled :
    (env : Receiver) (src : Source) (n : Notification) (r : Request) (s : Socket)
    (ns : List Notification)
    → queue_of src s ≡ n ∷ ns
    → names n ≡ some r.request_id
    → IsCounted s
    → IsSettled (skip_event env src r s)
unfolding skip_event
skip_event-IsSettled env src n r s ns e by counted =
    let t = (get_error_code r.request_id s).0 in
    let e' = get_error_code-queue_of src r.request_id s ∙ e in
    let kept = get_error_code-IsCounted r.request_id s counted in
    if-IsSettled _ _ _ (finish_drop-IsSettled env src r _ t n ns e' by kept)
      (finish_drop-IsSettled env src _ _ t n ns e' by kept)

-- Where each notification that waits names an association, which is that of the queue if it is an
-- association's, and the use count of each association covers the notifications that wait for it,
-- one call of internalReceive does not end the process, and afterwards the same holds.
pub internal_receive-IsSettled :
    (env : Receiver) (src : Source) (flags : ℕ) (r : Request) (s : Socket)
    → IsCounted s
    → IsSettled (internal_receive env src flags r s)
unfolding internal_receive
internal_receive-IsSettled env src flags r s counted = go (queue_of src s) refl
  where
    front :
        (n : Notification) (ns : List Notification)
        → queue_of src s ≡ n ∷ ns
        → IsSettled (internal_receive env src flags r s)
    front n ns e =
        let (id, by) = front-IsNamed src s n ns e counted in
        elim (Bool-cases (n.sn_type == 8)) [
          | inl type ↦ elim (Bool-cases (ltb 0 (arrival n.content).1)) [
            | inl more ↦
                rw (e, type, more, internal_receive)
                  (if-IsSettled (r.buffer_size == 0) (returned s r _) _ counted
                    (receive_data-IsSettled env src n r s ns e type more counted))
            | inr none_left ↦ absurd (ground (arith, by, empty-names n type none_left))
          ]
          | inr type ↦
              let event = sym (event-names n type) ∙ by in
              let q = record r { request_id = id } in
              rw (e, type, event, internal_receive)
                (if-IsSettled (r.buffer_size == 0) (returned s r _) _ counted (
                  if-IsSettled (r.msg_notification && wants flags n) _ _
                    (receive_event-IsSettled env src n q s ns e type event counted)
                    (skip_event-IsSettled env src n q s ns e by counted)))
        ]

    go :
        (q : List Notification)
        → queue_of src s ≡ q
        → IsSettled (internal_receive env src flags r s)
    go [] e =
        rw (e, internal_receive)
          (if-IsSettled (r.buffer_size == 0) (returned s r _) _ counted
            (receive_nothing-IsSettled src flags r s counted))
    go (n ∷ ns) e = front n ns e
