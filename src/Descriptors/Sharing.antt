-- ===== src/Descriptors/Sharing.antt =====
-- When ext_close deletes the SCTP socket object of a descriptor.
use socketapi.Prelude.{
  ℕ, zero, suc, ◌+◌, ◌≤◌, ◌<◌, ◌≡◌, refl, inl, inr, true, false, not, some, [], ◌∷◌, ◌==◌,
  Bool-cases, arith, ltb,
}
use socketapi.Descriptors.{Table, SctpDesc, max_sockets, delete_socket, unbind}
use socketapi.Descriptors.Closing.{refers, referenced, may_remove_socket, close_socket}

referenced-hit :
    (t : Table) (k p i n j : ℕ)
    → i ≤ j
    → j < i + n
    → refers t k p j ≡ true
    → referenced t k p i n ≡ true
unfolding referenced
referenced-hit t k p i zero j h l e = absurd (omega arith)
referenced-hit t k p i (suc n) j h l e = elim (Bool-cases (i == j)) [
  | inl same ↦ let at : refers t k p i ≡ true = ground arith in rw at refl
  | inr other ↦
      let rest = referenced-hit t k p (i + 1) n j (ground arith) (omega arith) e in
      ground (arith, rest)
]

referenced-miss :
    (t : Table) (k p i n : ℕ)
    → ((j : ℕ) → i ≤ j → refers t k p j ≡ false)
    → referenced t k p i n ≡ false
unfolding referenced
referenced-miss t k p i zero none_refers = refl
referenced-miss t k p i (suc n) none_refers =
    let here = none_refers i (omega arith) in
    let rest = referenced-miss t k p (i + 1) n (λ j h. none_refers j (omega arith)) in rw here rest

refers-lt : (t : Table) (k p i : ℕ) → refers t k p i ≡ true → i < max_sockets
unfolding refers
refers-lt t k p i e = ground arith

-- ext_close leaves the SCTP socket object of the slot `k` alone while another slot, but for the
-- slot 0, holds it.
pub close_socket-shared :
    (t : Table) (k p i : ℕ) (d : SctpDesc)
    → d.socket_ptr ≡ some p
    → 1 ≤ i
    → refers t k p i ≡ true
    → close_socket t k d ≡ []
unfolding close_socket may_remove_socket
close_socket-shared t k p i d e h r =
    let hit : referenced t k p 1 max_sockets ≡ true =
      referenced-hit t k p 1 max_sockets i h (omega (arith, refers-lt t k p i r)) r in
    rw (e, close_socket, may_remove_socket, hit) refl

-- Where no other slot but for the slot 0 holds it, the object is deleted, even if the slot 0 does.
pub close_socket-last :
    (t : Table) (k p : ℕ) (d : SctpDesc)
    → d.socket_ptr ≡ some p
    → d.l_onoff ≡ 1
    → ((i : ℕ) → 1 ≤ i → refers t k p i ≡ false)
    → close_socket t k d ≡ unbind p (not (ltb 0 d.l_linger)) ∷ delete_socket p ∷ []
unfolding close_socket may_remove_socket
close_socket-last t k p d e on alone =
    let miss : referenced t k p 1 max_sockets ≡ false = referenced-miss t k p 1 max_sockets alone in
    rw (e, close_socket, may_remove_socket, miss, on) refl
