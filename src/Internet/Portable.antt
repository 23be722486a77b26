-- ===== src/Internet/Portable.antt =====
-- The comparisons of PortableAddress (socketapi/portableaddress.icc), which take its words and its
-- port as they are stored.
use socketapi.Prelude.{
  ℕ, ◌≡◌, refl, ◌⊎◌, Bool, true, false, not, ◌&&◌, ◌||◌, List, [], ◌∷◌, arith, ltb, ◌==◌,
  if◌then◌else◌, length,
}
use socketapi.Internet.{PortableAddress, words, zero_host}

pub reset_portable : PortableAddress
reset_portable = record { host = zero_host; port = 0 }

lt_stored : List ℕ → List ℕ → Bool → Bool
lt_stored [] ys rest = rest
lt_stored (a ∷ xs) [] rest = rest
lt_stored (a ∷ xs) (b ∷ ys) rest =
    let more = lt_stored xs ys rest in if ltb a b then true else if ltb b a then false else more

unfoldable pub lt_portable : PortableAddress → PortableAddress → Bool
unfolding lt_stored
lt_portable a b = lt_stored (words a.host) (words b.host) (ltb a.port b.port)

gt_stored : List ℕ → List ℕ → Bool → Bool
gt_stored [] ys rest = rest
gt_stored (a ∷ xs) [] rest = rest
gt_stored (a ∷ xs) (b ∷ ys) rest =
    let more = gt_stored xs ys rest in if ltb b a then true else if ltb a b then false else more

unfoldable pub gt_portable : PortableAddress → PortableAddress → Bool
unfolding gt_stored
gt_portable a b = gt_stored (words a.host) (words b.host) (ltb b.port a.port)

eq_stored : List ℕ → List ℕ → Bool → Bool
eq_stored [] ys rest = rest
eq_stored (a ∷ xs) [] rest = rest
eq_stored (a ∷ xs) (b ∷ ys) rest = a == b && eq_stored xs ys rest

unfoldable pub eq_portable : PortableAddress → PortableAddress → Bool
unfolding eq_stored
eq_portable a b = eq_stored (words a.host) (words b.host) (a.port == b.port)

ne_stored : List ℕ → List ℕ → Bool → Bool
ne_stored [] ys rest = rest
ne_stored (a ∷ xs) [] rest = rest
ne_stored (a ∷ xs) (b ∷ ys) rest = not (a == b) || ne_stored xs ys rest

unfoldable pub ne_portable : PortableAddress → PortableAddress → Bool
unfolding ne_stored
ne_portable a b = ne_stored (words a.host) (words b.host) (not (a.port == b.port))

pub le_portable : PortableAddress → PortableAddress → Bool
le_portable a b = lt_portable a b || eq_portable a b

pub ge_portable : PortableAddress → PortableAddress → Bool
ge_portable a b = gt_portable a b || eq_portable a b

-- One of less, equal and greater, and not equal is the negation of equal.
abbrev pub OneOf : Bool → Bool → Bool → Bool → Type 0
OneOf lt eq gt ne =
    ((lt ≡ true) × (eq ≡ false) × (gt ≡ false) × (ne ≡ true))
    ⊎ (((lt ≡ false) × (eq ≡ true) × (gt ≡ false) × (ne ≡ false))
        ⊎ ((lt ≡ false) × (eq ≡ false) × (gt ≡ true) × (ne ≡ true)))

stored-OneOf :
    (xs ys : List ℕ) (p q : ℕ)
    → length xs ≡ length ys
    → OneOf
        (lt_stored xs ys (ltb p q))
        (eq_stored xs ys (p == q))
        (gt_stored xs ys (ltb q p))
        (ne_stored xs ys (not (p == q)))
unfolding lt_stored eq_stored gt_stored ne_stored
stored-OneOf [] [] p q e = ground arith
stored-OneOf [] (y ∷ ys) p q e = absurd (omega arith)
stored-OneOf (x ∷ xs) [] p q e = absurd (omega arith)
stored-OneOf (x ∷ xs) (y ∷ ys) p q e =
    let shorter : length xs ≡ length ys = omega arith in
    ground (arith, stored-OneOf xs ys p q shorter)

-- Of any two portable addresses exactly one of <, == and > holds, and != is the negation of ==.
pub portable-OneOf :
    (a b : PortableAddress)
    → OneOf (lt_portable a b) (eq_portable a b) (gt_portable a b) (ne_portable a b)
unfolding lt_portable eq_portable gt_portable ne_portable
portable-OneOf a b = stored-OneOf (words a.host) (words b.host) a.port b.port refl
