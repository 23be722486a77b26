-- ===== src/Notifications/Represents.antt =====
-- What a notification queue stands for: the list of its notifications with their addresses.
use socketapi.Prelude.{
  ℕ, ◌≡◌, ◌≢◌, refl, sym, ap, ◌∙◌, inl, inr, Option, none, some, List, [], ◌∷◌, ◌++◌, ==-ne, length,
  All, Option-cases, arith,
}
use socketapi.Notifications.{Notification, Node, Heap, Queue, set_cell, set_next}

abbrev pub Entries : Type 0
Entries = List (ℕ × Notification)

abbrev pub first_of : Entries → Option ℕ
first_of [] = none
first_of ((a, n) ∷ es) = some a

abbrev pub last_of : Entries → Option ℕ
last_of [] = none
last_of ((a, n) ∷ []) = some a
last_of ((a, n) ∷ e ∷ es) = last_of (e ∷ es)

-- Each entry's cell holds it and points to the next entry's.
abbrev pub Linked : Heap → Entries → Type 0
Linked h [] = Unit
Linked h ((a, n) ∷ es) = (h a ≡ some (record { note = n; next = first_of es })) × Linked h es

abbrev pub Apart : ℕ → Entries → Type 0
Apart a = All (λ e. e.0 ≢ a)

abbrev pub Distinct : Entries → Type 0
Distinct [] = Unit
Distinct ((a, n) ∷ es) = Apart a es × Distinct es

pub record Represents (q : Queue) (es : Entries) : Type 0 where
  pub linked : Linked q.heap es
  pub distinct : Distinct es
  pub first_entry : q.first ≡ first_of es
  pub last_entry : q.last ≡ last_of es
  pub counted : q.count ≡ length es

pub set_cell-same : (h : Heap) (a : ℕ) (x : Option Node) → set_cell h a x a ≡ x
unfolding set_cell
set_cell-same h a x = ground arith

pub set_cell-other : (h : Heap) (a b : ℕ) (x : Option Node) → b ≢ a → set_cell h a x b ≡ h b
unfolding set_cell
set_cell-other h a b x ne = rw (==-ne b a ne) refl

pub Linked-set_cell :
    (h : Heap) (a : ℕ) (x : Option Node) (es : Entries)
    → Apart a es
    → Linked h es
    → Linked (set_cell h a x) es
Linked-set_cell h a x [] d l = tt
Linked-set_cell h a x ((b, n) ∷ es) d l =
    (set_cell-other h a b x d.0 ∙ l.0, Linked-set_cell h a x es d.1 l.1)

-- A cell that is free is the cell of no entry.
pub free-Apart : (h : Heap) (a : ℕ) (es : Entries) → h a ≡ none → Linked h es → Apart a es
free-Apart h a [] e l = tt
free-Apart h a ((b, n) ∷ es) e l =
    ((λ same. absurd (none-some (sym e ∙ sym (ap h same) ∙ l.0))), free-Apart h a es e l.1)
  where
    none-some : {n : Node} → none ≡ some n → ⊥
    none-some p = cc

set_next-same :
    (h : Heap) (a : ℕ) (n : Node) (p : Option ℕ)
    → h a ≡ some n
    → set_next h a p a ≡ some (record n { next = p })
unfolding set_next
set_next-same h a n p e = rw (e, set_next) (set_cell-same h a _)

set_next-other : (h : Heap) (a b : ℕ) (p : Option ℕ) → b ≢ a → set_next h a p b ≡ h b
unfolding set_next
set_next-other h a b p ne = elim (Option-cases (h a)) [
  | inl e ↦ rw (e, set_next) refl
  | inr (n, e) ↦ rw (e, set_next) (set_cell-other h a b _ ne)
]

pub last_of-Apart : (es : Entries) (a l : ℕ) → last_of es ≡ some l → Apart a es → a ≢ l
last_of-Apart [] a l e d = absurd (ground arith)
last_of-Apart ((b, n) ∷ []) a l e d = λ same. ground arith
last_of-Apart ((b, n) ∷ x ∷ es) a l e d = last_of-Apart (x ∷ es) a l e d.1

-- The new cell is linked behind the last one.
pub Linked-append :
    (h : Heap) (es : Entries) (a l : ℕ) (m : Notification)
    → h a ≡ none
    → last_of es ≡ some l
    → Distinct es
    → Linked h es
    → Linked
        (set_next (set_cell h a (some (record { note = m; next = none }))) l (some a))
        (es ++ (a, m) ∷ [])
Linked-append h [] a l m f e d k = absurd (ground arith)
Linked-append h ((b, n) ∷ []) a l m f e d k =
    let made : Heap = set_cell h a (some (record { note = m; next = none })) in
    let apart : b ≢ a = (free-Apart h a ((b, n) ∷ []) f k).0 in
    let same : b ≡ l = ground arith in
    let old : made b ≡ some (record { note = n; next = none }) =
      set_cell-other h a b _ apart ∙ k.0 in
    rw (← same) (
      set_next-same made b _ (some a) old,
      (set_next-other made b a (some a) (λ z. apart (sym z)) ∙ set_cell-same h a _, tt),
    )
Linked-append h ((b, n) ∷ x ∷ es) a l m f e d k =
    let made : Heap = set_cell h a (some (record { note = m; next = none })) in
    let apart : b ≢ a = (free-Apart h a ((b, n) ∷ x ∷ es) f k).0 in
    let early : b ≢ l = last_of-Apart (x ∷ es) b l e d.0 in
    (
      set_next-other made l b (some a) early ∙ set_cell-other h a b _ apart ∙ k.0,
      Linked-append h (x ∷ es) a l m f e d.1 k.1,
    )
