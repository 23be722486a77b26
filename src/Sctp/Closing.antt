-- ===== src/Sctp/Closing.antt =====
-- The delayed removal of associations and instances (socketapi/sctpsocketmaster.cc:
-- delayedDeleteAssociation, delayedDeleteSocket, associationGarbageCollection and the part of
-- socketGarbageCollection that unregisters instances).
use socketapi.Prelude.{ℕ, Bool, false, not, ◌||◌, List, [], ◌∷◌, ◌==◌, ltb, if◌then◌else◌}
use socketapi.Association.{LibCall, sctp_unregister_instance}
use socketapi.Sctp.{Master, note_lib}

-- ClosingAssociations.insert: a multimap, in the order of the keys.
unfoldable pub insert_closing : ℕ → ℕ → List (ℕ × ℕ) → List (ℕ × ℕ)
insert_closing id i [] = (id, i) ∷ []
insert_closing id i ((k, j) ∷ es) =
    let rest = insert_closing id i es in if ltb id k then (id, i) ∷ (k, j) ∷ es else (k, j) ∷ rest

unfoldable pub delayed_delete_association : ℕ → ℕ → Master → Master
delayed_delete_association instance id m = record m {
  closing_associations = insert_closing id instance m.closing_associations;
}

-- ClosingSockets.insert: a set.
unfoldable pub insert_instance : ℕ → List ℕ → List ℕ
insert_instance i [] = i ∷ []
insert_instance i (j ∷ js) =
    let rest = insert_instance i js in
    if i == j then j ∷ js else if ltb i j then i ∷ j ∷ js else j ∷ rest

unfoldable pub delayed_delete_socket : ℕ → Master → Master
delayed_delete_socket i m = record m { closing_sockets = insert_instance i m.closing_sockets }

-- The loop that sets `used`.
unfoldable pub instance_used : ℕ → List (ℕ × ℕ) → Bool
instance_used i [] = false
instance_used i ((k, j) ∷ es) = i == j || instance_used i es

-- The loop over ClosingSockets: what is left of it, and the calls of sctplib.
unfoldable pub collect_instances : List (ℕ × ℕ) → List ℕ → List ℕ × List LibCall
collect_instances es [] = ([], [])
collect_instances es (i ∷ is) =
    let (left, calls) = collect_instances es is in
    if not (instance_used i es)
    then (left, sctp_unregister_instance i ∷ calls)
    else (i ∷ left, calls)

-- The second half of socketGarbageCollection. sctplib is taken to succeed: the code aborts if not.
unfoldable pub collect_sockets : Master → Master
collect_sockets m =
    let (left, calls) = collect_instances m.closing_associations m.closing_sockets in
    note_lib calls (record m { closing_sockets = left })

-- ClosingAssociations.find and erase.
unfoldable pub is_closing : ℕ → List (ℕ × ℕ) → Bool
is_closing id [] = false
is_closing id ((k, j) ∷ es) = k == id || is_closing id es

unfoldable pub erase_closing : ℕ → List (ℕ × ℕ) → List (ℕ × ℕ)
erase_closing id [] = []
erase_closing id ((k, j) ∷ es) =
    let rest = erase_closing id es in if k == id then es else (k, j) ∷ rest
