-- ===== src/Sctp/Collect.antt =====
-- What the garbage collection of instances (socketapi/sctpsocketmaster.cc) unregisters, and when
-- nothing is left to be collected.
use socketapi.Prelude.{
  ◌+◌, ◌<◌, if◌then◌else◌, ℕ, ◌≡◌, refl, ap, ◌∙◌, inl, inr, Bool, true, false, not, ◌&&◌, ◌||◌,
  List, [], ◌∷◌, ◌++◌, Option, none, some, ◌==◌, arith, Bool-cases,
}
use socketapi.Association.{
  LibCall, sctp_shutdown, sctp_abort, sctp_delete_association, sctp_unregister_instance,
  sctp_set_rto_max,
}
use socketapi.Sctp.{Master, note_lib}
use socketapi.Sctp.Closing.{
  instance_used, collect_instances, collect_sockets, is_closing, erase_closing,
}
use socketapi.Sctp.Lifetime.{
  Lost, auto_close_sockets, socket_garbage_collection, association_garbage_collection,
}

unfoldable pub member : ℕ → List ℕ → Bool
member i [] = false
member i (j ∷ js) = j == i || member i js

abbrev pub unregisters : ℕ → LibCall → Bool
unregisters i (sctp_unregister_instance j) = j == i
unregisters i (sctp_shutdown j) = false
unregisters i (sctp_abort j) = false
unregisters i (sctp_delete_association j) = false
unregisters i (sctp_set_rto_max j r) = false

-- The instance is unregistered by one of the calls.
unfoldable pub unregistered : ℕ → List LibCall → Bool
unregistered i [] = false
unregistered i (c ∷ cs) = unregisters i c || unregistered i cs

unregistered-append :
    (i : ℕ) (xs ys : List LibCall)
    → unregistered i (xs ++ ys) ≡ (unregistered i xs || unregistered i ys)
unfolding unregistered
unregistered-append i [] ys = refl
unregistered-append i (c ∷ xs) ys = ground (arith, unregistered-append i xs ys)

collect_instances-split :
    (es : List (ℕ × ℕ)) (js : List ℕ) (i : ℕ)
    → (member i (collect_instances es js).0 ≡ (member i js && instance_used i es))
      × (unregistered i (collect_instances es js).1 ≡ (member i js && not (instance_used i es)))
unfolding collect_instances member unregistered
collect_instances-split es [] i = (refl, refl)
collect_instances-split es (j ∷ js) i =
    let ih = collect_instances-split es js i in
    elim (Bool-cases (instance_used j es)) [
      | inl u ↦ rw u (ground (arith, ih), ground (arith, ih))
      | inr u ↦ rw u (ground (arith, ih), ground (arith, ih))
    ]

-- The garbage collection of instances unregisters an instance exactly if it waits for that and no
-- closing association uses it; one that is used goes on waiting.
pub collect_sockets-unused :
    (m : Master) (i : ℕ)
    → (member i (collect_sockets m).closing_sockets
        ≡ (member i m.closing_sockets && instance_used i m.closing_associations))
      × (unregistered i (collect_sockets m).lib_calls ≡ (
          unregistered i m.lib_calls
          || (member i m.closing_sockets && not (instance_used i m.closing_associations))))
unfolding collect_sockets
collect_sockets-unused m i =
    let split = collect_instances-split m.closing_associations m.closing_sockets i in
    (
      split.0,
      unregistered-append i m.lib_calls
            (collect_instances m.closing_associations m.closing_sockets).1
          ∙ ap (λ b. unregistered i m.lib_calls || b) split.1,
    )

-- communicationLostNotif or shutdownCompleteNotif for each of the associations.
unfoldable pub drain : Lost → ℕ → List (ℕ × ℕ) → Master → Option Master
drain lost now [] m = some m
drain lost now ((id, i) ∷ es) m = elim (association_garbage_collection lost now id false m) [
  | none ↦ none
  | some (n, done) ↦ drain lost now es n
]

collect_instances-nil : (js : List ℕ) → (collect_instances [] js).0 ≡ []
unfolding collect_instances instance_used
collect_instances-nil [] = refl
collect_instances-nil (j ∷ js) = collect_instances-nil js

-- A master with no sockets and the closing associations `es`.
abbrev pub without_sockets : Master → List (ℕ × ℕ) → Master
without_sockets m es = record m { sockets = []; closing_associations = es }

abbrev after_end : ℕ → List (ℕ × ℕ) → Master → Master
after_end id es m =
    collect_sockets (without_sockets (note_lib (sctp_delete_association id ∷ []) m) es)

-- How often an association is closing.
unfoldable pub count_closing : ℕ → List (ℕ × ℕ) → ℕ
count_closing j [] = 0
count_closing j ((k, i) ∷ es) = let rest = count_closing j es in if k == j then rest + 1 else rest

is_closing-count : (j : ℕ) (es : List (ℕ × ℕ)) → 0 < count_closing j es → is_closing j es ≡ true
unfolding count_closing is_closing
is_closing-count j [] h = absurd (omega arith)
is_closing-count j ((k, i) ∷ es) h = elim (Bool-cases (k == j)) [
  | inl e ↦ ground (arith, e)
  | inr e ↦
      let more : 0 < count_closing j es = ground (arith, h, e) in
      rw (e, is_closing) (is_closing-count j es more)
]

erase_closing-count :
    (j id : ℕ) (es : List (ℕ × ℕ))
    → 0 < count_closing id es
    → count_closing j es ≡ (
        if id == j
        then count_closing j (erase_closing id es) + 1
        else count_closing j (erase_closing id es))
unfolding count_closing erase_closing
erase_closing-count j id [] h = absurd (omega arith)
erase_closing-count j id ((k, i) ∷ es) h = elim (Bool-cases (k == id)) [
  | inl e ↦ rw e (ground (arith, e))
  | inr e ↦
      let more : 0 < count_closing id es = ground (arith, h, e) in
      rw e (ground (arith, e, erase_closing-count j id es more))
]

count_closing-nil : (es : List (ℕ × ℕ)) → ((j : ℕ) → count_closing j es ≡ 0) → es ≡ []
unfolding count_closing
count_closing-nil [] h = refl
count_closing-nil ((k, i) ∷ es) h = absurd (ground (arith, h k))

ends_one :
    (lost : Lost) (now id : ℕ) (es : List (ℕ × ℕ)) (m : Master)
    → is_closing id es ≡ true
    → association_garbage_collection lost now id false (without_sockets m es)
      ≡ some (after_end id (erase_closing id es) m, true)
unfolding association_garbage_collection socket_garbage_collection auto_close_sockets
ends_one lost now id es m closing = rw closing refl

after_end-form :
    (id : ℕ) (es : List (ℕ × ℕ)) (m : Master)
    → after_end id es m ≡ without_sockets (after_end id es m) es
unfolding collect_sockets
after_end-form id es m = refl

drain_step :
    (lost : Lost) (now id i : ℕ) (es : List (ℕ × ℕ)) (m n : Master) (b : Bool)
    → association_garbage_collection lost now id false m ≡ some (n, b)
    → drain lost now ((id, i) ∷ es) m ≡ drain lost now es n
unfolding drain
drain_step lost now id i es m n b e = rw (drain, e) refl

none_waits :
    (m : Master) (es : List (ℕ × ℕ)) (id : ℕ) → es ≡ [] → (after_end id es m).closing_sockets ≡ []
unfolding collect_sockets
none_waits m es id e =
    ap (λ l. (after_end id l m).closing_sockets) e ∙ collect_instances-nil m.closing_sockets

-- Where no socket is left, and sctplib reports the end of each closing association, of which there
-- is one at least, in any order, then none is closing and no instance waits any more.
pub drain-Empty :
    (lost : Lost) (now id i : ℕ) (order es : List (ℕ × ℕ)) (m : Master)
    → ((j : ℕ) → count_closing j ((id, i) ∷ order) ≡ count_closing j es)
    → (n : Master) × (drain lost now ((id, i) ∷ order) (without_sockets m es) ≡ some n)
      × (n.closing_associations ≡ [])
      × (n.closing_sockets ≡ [])
unfolding count_closing collect_sockets drain
drain-Empty lost now id i [] es m same =
    let there : 0 < count_closing id es = ground (arith, same id) in
    let left = erase_closing id es in
    let none_left : left ≡ [] =
      count_closing-nil left (λ j. ground (arith, same j, erase_closing-count j id es there)) in
    (
      after_end id left m,
      rw (drain, ends_one lost now id es m (is_closing-count id es there)) refl,
      none_left,
      none_waits m left id none_left,
    )
drain-Empty lost now id i ((k, j) ∷ order) es m same =
    let there : 0 < count_closing id es = ground (arith, same id) in
    let left = erase_closing id es in
    let next : Master = after_end id left m in
    let first = ends_one lost now id es m (is_closing-count id es there) in
    let (n, run, none_closing, none_waiting) =
      drain-Empty lost now k j order left next
        (λ l. ground (arith, same l, erase_closing-count l id es there)) in
    (
      n,
      drain_step lost now id i ((k, j) ∷ order) _ next true first
          ∙ ap (drain lost now ((k, j) ∷ order)) (after_end-form id left m)
          ∙ run,
      none_closing,
      none_waiting,
    )
