-- ===== src/Descriptors/Slots.antt =====
-- Which slot setSocket (socketapi/sctpsocketwrapper.cc) takes.
use socketapi.Prelude.{
  ℕ, zero, suc, ◌≤◌, ◌<◌, ◌≡◌, refl, ◌⊎◌, inl, inr, true, false, Option, none, some, ◌==◌,
  Bool-cases, arith, ltb,
}
use socketapi.Strings.Decimal.{pos, neg}
use socketapi.Descriptors.{
  Table, Descriptor, is_invalid, free_slot, set_slot, World, set_socket, slot_limit, max_sockets,
}

-- What the loop from `limit` tells about the slot `j`: it is used, or outside of what was searched.
abbrev FreeSlot : Table → ℕ → ℕ → Option ℕ → Type 0
FreeSlot t limit j none = (limit ≤ j) ⊎ (is_invalid (t j) ≡ false)
FreeSlot t limit j (some i) =
    (i < limit) × (is_invalid (t i) ≡ true) × ((j ≤ i) ⊎ ((limit ≤ j) ⊎ (is_invalid (t j) ≡ false)))

free_slot-FreeSlot : (t : Table) (limit j : ℕ) → FreeSlot t limit j (free_slot t limit)
unfolding free_slot
free_slot-FreeSlot t zero j = inl (omega arith)
free_slot-FreeSlot t (suc i) j = elim (Bool-cases (is_invalid (t i))) [
  | inl e ↦ rw e (omega arith, e, above)
  | inr e ↦ rw e (step (free_slot t i) e (free_slot-FreeSlot t i j))
]
  where
    above : (j ≤ i) ⊎ ((suc i ≤ j) ⊎ (is_invalid (t j) ≡ false))
    above = elim (Bool-cases (ltb i j)) [
      | inl h ↦ inr (inl (ground arith))
      | inr h ↦ inl (ground arith)
    ]

    at_or_above : is_invalid (t i) ≡ false → i ≤ j → (suc i ≤ j) ⊎ (is_invalid (t j) ≡ false)
    at_or_above e h = elim (Bool-cases (i == j)) [
      | inl same ↦ inr (ground arith)
      | inr other ↦ inl (ground arith)
    ]

    step : (o : Option ℕ) → is_invalid (t i) ≡ false → FreeSlot t i j o → FreeSlot t (suc i) j o
    step none e (inl h) = at_or_above e h
    step none e (inr h) = inr h
    step (some k) e (k_lt, free, inl h) = (omega arith, free, inl h)
    step (some k) e (k_lt, free, inr (inl h)) = (omega arith, free, inr (at_or_above e h))
    step (some k) e (k_lt, free, inr (inr h)) = (omega arith, free, inr (inr h))

-- setSocket fails without a change where no slot under the limit is free. Else it puts the
-- descriptor in a free slot, the highest one under the limit.
pub set_socket-highest :
    (dtable : ℕ) (d : Descriptor) (w : World) (j : ℕ)
    → ((set_socket dtable d w ≡ (w, neg 24))
        × ((slot_limit dtable ≤ j) ⊎ (is_invalid (w.sockets j) ≡ false)))
      ⊎ ((i : ℕ) × (i < slot_limit dtable)
          × (is_invalid (w.sockets i) ≡ true)
          × (set_socket dtable d w ≡ (record w { sockets = set_slot w.sockets i d }, pos i))
          × ((j ≤ i) ⊎ ((slot_limit dtable ≤ j) ⊎ (is_invalid (w.sockets j) ≡ false))))
unfolding set_socket
set_socket-highest dtable d w j =
    go (free_slot w.sockets (slot_limit dtable)) refl
      (free_slot-FreeSlot w.sockets (slot_limit dtable) j)
  where
    go :
        (o : Option ℕ)
        → free_slot w.sockets (slot_limit dtable) ≡ o
        → FreeSlot w.sockets (slot_limit dtable) j o
        → ((set_socket dtable d w ≡ (w, neg 24))
            × ((slot_limit dtable ≤ j) ⊎ (is_invalid (w.sockets j) ≡ false)))
          ⊎ ((i : ℕ) × (i < slot_limit dtable)
              × (is_invalid (w.sockets i) ≡ true)
              × (set_socket dtable d w ≡ (record w { sockets = set_slot w.sockets i d }, pos i))
              × ((j ≤ i) ⊎ ((slot_limit dtable ≤ j) ⊎ (is_invalid (w.sockets j) ≡ false))))
    go none e h = inl (rw (e, set_socket) refl, h)
    go (some i) e (lt, free, h) = inr (i, lt, free, rw (e, set_socket) refl, h)

-- The cases of setSocket, with what a failure leaves.
pub set_socket-cases :
    (dtable : ℕ) (d : Descriptor) (w : World)
    → (set_socket dtable d w ≡ (w, neg 24))
      ⊎ ((i : ℕ) × (i < max_sockets)
          × (is_invalid (w.sockets i) ≡ true)
          × (set_socket dtable d w ≡ (record w { sockets = set_slot w.sockets i d }, pos i)))
set_socket-cases dtable d w = elim (set_socket-highest dtable d w 0) [
  | inl (e, h) ↦ inl e
  | inr (i, lt, free, e, h) ↦ inr (i, ground arith, free, e)
]
