-- ===== src/Sctp/Every.antt =====
-- Lemmas on a predicate that holds of every association of a socket (socketapi/sctpsocket.h:
-- AssociationList) or of every socket.
use socketapi.Prelude.{
  refl, ℕ, ◌≡◌, subst, Bool, true, false, List, [], ◌∷◌, Option, none, some, All, ◌==◌, ltb,
  if◌then◌else◌,
}
use socketapi.Association.{Association}
use socketapi.Sctp.{
  Socket, find_association, insert_association, put_association, erase_association, find_socket,
  put_socket,
}

-- Of what a list is, on both sides of a test.
pub if-All {ℓ} :
    {A : Type ℓ} (P : A → Type 0) (b : Bool) (xs ys : List A)
    → All P xs
    → All P ys
    → All P (if b then xs else ys)
if-All P true xs ys p q = p
if-All P false xs ys p q = q

-- Of what a search gives, if it gives anything.
abbrev pub OfSome {ℓ} : {A : Type ℓ} → (A → Type 0) → Option A → Type 0
OfSome P none = Unit
OfSome P (some a) = P a

pub OfSome-intro {ℓ} :
    {A : Type ℓ} (P : A → Type 0) (o : Option A) → ((a : A) → o ≡ some a → P a) → OfSome P o
OfSome-intro P none h = tt
OfSome-intro P (some a) h = h a refl

pub if-OfSome {ℓ} :
    {A : Type ℓ} (P : A → Type 0) (b : Bool) (x y : Option A)
    → OfSome P x
    → OfSome P y
    → OfSome P (if b then x else y)
if-OfSome P true x y p q = p
if-OfSome P false x y p q = q

module _ (P : Association → Type 0) where
  pub find_association-All :
      (id : ℕ) (xs : List Association) (o : Option Association)
      → find_association id xs ≡ o
      → All P xs
      → OfSome P o
  unfolding find_association
  find_association-All id xs o e p = subst (OfSome P) e (found xs p)
    where
      found : (ys : List Association) → All P ys → OfSome P (find_association id ys)
      found [] q = tt
      found (a ∷ ys) q =
          if-OfSome P (a.assoc_id == id) (some a) (find_association id ys) q.0 (found ys q.1)

  pub put_association-All :
      (b : Association) (xs : List Association) → P b → All P xs → All P (put_association b xs)
  unfolding put_association
  put_association-All b [] p q = tt
  put_association-All b (a ∷ xs) p q =
      if-All P (a.assoc_id == b.assoc_id) (b ∷ xs) (a ∷ put_association b xs) (p, q.1)
        (q.0, put_association-All b xs p q.1)

  pub erase_association-All :
      (id : ℕ) (xs : List Association) → All P xs → All P (erase_association id xs)
  unfolding erase_association
  erase_association-All id [] q = tt
  erase_association-All id (a ∷ xs) q =
      if-All P (a.assoc_id == id) xs (a ∷ erase_association id xs) q.1
        (q.0, erase_association-All id xs q.1)

  pub insert_association-All :
      (b : Association) (xs : List Association) → P b → All P xs → All P (insert_association b xs)
  unfolding insert_association
  insert_association-All b [] p q = (p, tt)
  insert_association-All b (a ∷ xs) p q =
      if-All P (ltb b.assoc_id a.assoc_id) (b ∷ a ∷ xs) (a ∷ insert_association b xs) (p, q)
        (q.0, insert_association-All b xs p q.1)

-- And of sockets.
module _ (Q : Socket → Type 0) where
  pub find_socket-All :
      (i : ℕ) (ss : List Socket) (o : Option Socket) → find_socket i ss ≡ o → All Q ss → OfSome Q o
  unfolding find_socket
  find_socket-All i ss o e p = subst (OfSome Q) e (found ss p)
    where
      found : (ts : List Socket) → All Q ts → OfSome Q (find_socket i ts)
      found [] q = tt
      found (s ∷ ts) q =
          if-OfSome Q (s.instance == i) (some s) (find_socket i ts) q.0 (found ts q.1)

  pub put_socket-All : (t : Socket) (ss : List Socket) → Q t → All Q ss → All Q (put_socket t ss)
  unfolding put_socket
  put_socket-All t [] p q = tt
  put_socket-All t (s ∷ ss) p q =
      if-All Q (s.instance == t.instance) (t ∷ ss) (s ∷ put_socket t ss) (p, q.1)
        (q.0, put_socket-All t ss p q.1)
