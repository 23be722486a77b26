-- ===== src/Sctp/Find.antt =====
-- A search of the list of associations (socketapi/sctpsocket.h: AssociationList) after a change.
use socketapi.Prelude.{ℕ, ◌≡◌, ◌≢◌, refl, List, [], ◌∷◌, some, arith}
use socketapi.Association.{Association}
use socketapi.Sctp.{find_association, erase_association, put_association}

pub find-erase_other :
    (id k : ℕ) (xs : List Association)
    → id ≢ k
    → find_association id (erase_association k xs) ≡ find_association id xs
unfolding find_association erase_association
find-erase_other id k [] ne = refl
find-erase_other id k (a ∷ xs) ne = ground (arith, find-erase_other id k xs ne)

pub find-put_other :
    (id : ℕ) (b : Association) (xs : List Association)
    → id ≢ b.assoc_id
    → find_association id (put_association b xs) ≡ find_association id xs
unfolding find_association put_association
find-put_other id b [] ne = refl
find-put_other id b (a ∷ xs) ne = ground (arith, find-put_other id b xs ne)

pub find_association-id :
    (id : ℕ) (xs : List Association) (a : Association)
    → find_association id xs ≡ some a
    → a.assoc_id ≡ id
unfolding find_association
find_association-id id [] a e = absurd (ground arith)
find_association-id id (b ∷ xs) a e = ground (arith, find_association-id id xs a)

pub find-put_same :
    (b : Association) (xs : List Association) (a : Association)
    → find_association b.assoc_id xs ≡ some a
    → find_association b.assoc_id (put_association b xs) ≡ some b
unfolding find_association put_association
find-put_same b [] a e = absurd (ground arith)
find-put_same b (c ∷ xs) a e = ground (arith, find-put_same b xs a)
