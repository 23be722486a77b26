-- ===== src/Notifications/Loops.antt =====
-- The loops of a notification queue: flush and hasData of socketapi/sctpnotificationqueue.cc.
use socketapi.Prelude.{
  ℕ, zero, suc, ◌≤◌, ◌≡◌, refl, ◌∙◌, ◌⊎◌, inl, inr, ap, Bool, true, false, ◌==◌, ◌||◌, none, some,
  [], ◌∷◌, length, All, Bool-cases, arith,
}
use socketapi.Notifications.{Heap, Queue, set_cell, delete_cells, flush, wants, find_data, has_data}
use socketapi.Notifications.Represents.{
  Entries, first_of, Linked, Distinct, Represents, set_cell-same, Linked-set_cell,
}

-- The cell is that of an entry.
abbrev pub is_cell : ℕ → Entries → Bool
is_cell b [] = false
is_cell b ((a, n) ∷ es) = b == a || is_cell b es

-- What is left of the heap `h` where the cells of the entries are deleted.
abbrev Deleted : Heap → Entries → Heap → Type 0
Deleted h es k = All (λ e. k e.0 ≡ none) es × ((b : ℕ) → (is_cell b es ≡ true) ⊎ (k b ≡ h b))

is_cell-none :
    (b : ℕ) (es : Entries) (k : Heap)
    → All (λ e. k e.0 ≡ none) es
    → is_cell b es ≡ true
    → k b ≡ none
is_cell-none b [] k gone p = absurd (ground (arith, p))
is_cell-none b ((a, n) ∷ es) k gone p = elim (Bool-cases (b == a)) [
  | inl same ↦ let here : b ≡ a = ground (arith, same) in ap k here ∙ gone.0
  | inr other ↦ is_cell-none b es k gone.1 (ground (arith, p, other))
]

delete_cells-Deleted :
    (f : ℕ) (h : Heap) (es : Entries)
    → Linked h es
    → Distinct es
    → length es ≤ f
    → (k : Heap) × (delete_cells f h (first_of es) ≡ some k) × Deleted h es k
unfolding delete_cells
delete_cells-Deleted f h [] l d e = (h, refl, (tt, λ b. inr refl))
delete_cells-Deleted zero h ((a, n) ∷ es) l d e = absurd (omega arith)
delete_cells-Deleted (suc f) h ((a, n) ∷ es) l d e =
    let free : Heap = set_cell h a none in
    let (k, run, (gone, rest)) =
      delete_cells-Deleted f free es (Linked-set_cell h a none es d.0 l.1) d.1 (omega arith) in
    (k, rw (l.0, delete_cells) run, ((first k rest gone, gone), kept k rest))
  where
    first :
        (k : Heap)
        → ((b : ℕ) → (is_cell b es ≡ true) ⊎ (k b ≡ set_cell h a none b))
        → All (λ e. k e.0 ≡ none) es
        → k a ≡ none
    first k rest gone = elim (rest a) [
      | inl p ↦ is_cell-none a es k gone p
      | inr p ↦ p ∙ set_cell-same h a none
    ]

    kept :
        (k : Heap)
        → ((b : ℕ) → (is_cell b es ≡ true) ⊎ (k b ≡ set_cell h a none b))
        → (b : ℕ) → (is_cell b ((a, n) ∷ es) ≡ true) ⊎ (k b ≡ h b)
    kept k rest b = elim (rest b) [
      | inl p ↦ inl (ground (arith, p))
      | inr p ↦ elim (Bool-cases (b == a)) [
        | inl same ↦ inl (ground (arith, same))
        | inr other ↦ inr (p ∙ unfold set_cell in rw other refl)
      ]
    ]

-- On as much fuel as there are notifications, flush ends with an empty queue, in which the cell of
-- each notification is free; every other cell is as it was.
pub flush-Represents :
    (f : ℕ) (q : Queue) (es : Entries) (b : ℕ)
    → Represents q es
    → length es ≤ f
    → (p : Queue) × (flush f q ≡ some p)
      × Represents p []
      × All (λ e. p.heap e.0 ≡ none) es
      × ((is_cell b es ≡ true) ⊎ (p.heap b ≡ q.heap b))
unfolding flush
flush-Represents f q es b r e =
    let (k, run, (gone, rest)) = delete_cells-Deleted f q.heap es r.linked r.distinct e in
    (
      record q { heap = k; first = none; last = none; count = 0 },
      rw (r.first_entry, flush, run) refl,
      record { linked = tt; distinct = tt; first_entry = refl; last_entry = refl; counted = refl },
      gone,
      rest b,
    )

-- Some notification is wanted under the flags.
pub any_wanted : ℕ → Entries → Bool
any_wanted flags [] = false
any_wanted flags ((a, n) ∷ es) = wants flags n || any_wanted flags es

find_data-any_wanted :
    (flags f : ℕ) (h : Heap) (es : Entries)
    → Linked h es
    → length es ≤ f
    → find_data flags f h (first_of es) ≡ some (any_wanted flags es)
unfolding find_data any_wanted
find_data-any_wanted flags f h [] l e = refl
find_data-any_wanted flags zero h ((a, n) ∷ es) l e = absurd (omega arith)
find_data-any_wanted flags (suc f) h ((a, n) ∷ es) l e =
    let more = find_data-any_wanted flags f h es l.1 (omega arith) in
    rw (l.0, find_data)
      (elim (Bool-cases (wants flags n)) [ inl w ↦ rw w refl | inr w ↦ rw w more ])

-- On as much fuel as there are notifications, hasData ends, and tells whether one of them is wanted.
pub has_data-any_wanted :
    (flags f : ℕ) (q : Queue) (es : Entries)
    → Represents q es
    → length es ≤ f
    → has_data flags f q ≡ some (any_wanted flags es)
unfolding has_data
has_data-any_wanted flags f q es r e =
    rw r.first_entry (find_data-any_wanted flags f q.heap es r.linked e)
