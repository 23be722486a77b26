-- ===== src/Strings/Order.antt =====
-- The comparison operators of String (socketapi/tdstrings.icc) over strcmp.
use Prim.Native.Nat.{Ordering}
use socketapi.Prelude.{◌≡◌, ◌≢◌, ◌↔◌, refl, ap, some, none, true, not, [], ◌∷◌, arith, Bytes, ◌⊎◌}
use socketapi.Strings.{
  Text, strcmp, string_compare, eq_text, ne_text, lt_text, le_text, gt_text, ge_text,
}

abbrev flip : Ordering → Ordering
flip Ordering.lt = Ordering.gt
flip Ordering.eq = Ordering.eq
flip Ordering.gt = Ordering.lt

strcmp-flip : (s t : Bytes) → strcmp t s ≡ flip (strcmp s t)
unfolding strcmp
strcmp-flip [] [] = refl
strcmp-flip [] (y ∷ t) = refl
strcmp-flip (x ∷ s) [] = refl
strcmp-flip (x ∷ s) (y ∷ t) = ground (arith, strcmp-flip s t)

strcmp_refl : (s : Bytes) → strcmp s s ≡ Ordering.eq
unfolding strcmp
strcmp_refl [] = refl
strcmp_refl (x ∷ s) = ground (arith, strcmp_refl s)

strcmp-eq : (s t : Bytes) → strcmp s t ≡ Ordering.eq → s ≡ t
unfolding strcmp
strcmp-eq [] [] h = refl
strcmp-eq [] (y ∷ t) h = cc
strcmp-eq (x ∷ s) [] h = cc
strcmp-eq (x ∷ s) (y ∷ t) h = ground (arith, strcmp-eq s t)

strcmp_trans :
    (s t u : Bytes) → strcmp s t ≢ Ordering.gt → strcmp t u ≢ Ordering.gt → strcmp s u ≢ Ordering.gt
unfolding strcmp
strcmp_trans [] [] [] h k = h
strcmp_trans [] [] (z ∷ u) h k = k
strcmp_trans [] (y ∷ t) [] h k = absurd (k refl)
strcmp_trans [] (y ∷ t) (z ∷ u) h k = h
strcmp_trans (x ∷ s) [] u h k = absurd (h refl)
strcmp_trans (x ∷ s) (y ∷ t) [] h k = k
strcmp_trans (x ∷ s) (y ∷ t) (z ∷ u) h k = ground (arith, strcmp_trans s t u)

compare-flip : (a b : Text) → string_compare b a ≡ flip (string_compare a b)
unfolding string_compare
compare-flip none none = refl
compare-flip none (some t) = refl
compare-flip (some s) none = refl
compare-flip (some s) (some t) = strcmp-flip s t

compare-eq : (a b : Text) → string_compare a b ≡ Ordering.eq → a ≡ b
unfolding string_compare
compare-eq none none h = refl
compare-eq none (some t) h = cc
compare-eq (some s) none h = cc
compare-eq (some s) (some t) h = ap some (strcmp-eq s t h)

compare_refl : (a : Text) → string_compare a a ≡ Ordering.eq
unfolding string_compare
compare_refl none = refl
compare_refl (some s) = strcmp_refl s

compare_trans :
    (a b c : Text)
    → string_compare a b ≢ Ordering.gt
    → string_compare b c ≢ Ordering.gt
    → string_compare a c ≢ Ordering.gt
unfolding string_compare
compare_trans none none c h k = k
compare_trans none (some t) none h k = λ e. cc
compare_trans none (some t) (some u) h k = λ e. cc
compare_trans (some s) none c h k = absurd (h refl)
compare_trans (some s) (some t) none h k = k
compare_trans (some s) (some t) (some u) h k = strcmp_trans s t u h k

null-compare : (a : Text) → string_compare none a ≢ Ordering.gt
unfolding string_compare
null-compare none = λ e. cc
null-compare (some s) = λ e. cc

-- `<=` is a total order with `==` for its equality, and the other operators are what they are for
-- such an order.
pub record IsOrder : Type 0 where
  pub antisym : (a b : Text) → le_text a b ≡ true → le_text b a ≡ true → a ≡ b
  pub trans : (a b c : Text) → le_text a b ≡ true → le_text b c ≡ true → le_text a c ≡ true
  pub total : (a b : Text) → (le_text a b ≡ true) ⊎ (le_text b a ≡ true)
  pub eq_iff : (a b : Text) → (eq_text a b ≡ true) ↔ (a ≡ b)
  pub ne_not : (a b : Text) → ne_text a b ≡ not (eq_text a b)
  pub lt_not_ge : (a b : Text) → lt_text a b ≡ not (ge_text a b)
  pub gt_not_le : (a b : Text) → gt_text a b ≡ not (le_text a b)
  pub ge_flip : (a b : Text) → ge_text a b ≡ le_text b a
  pub null_first : (a : Text) → le_text none a ≡ true

le-not-gt : (a b : Text) → le_text a b ≡ true → string_compare a b ≢ Ordering.gt
unfolding le_text
le-not-gt a b h = ground arith

not-gt-le : (a b : Text) → string_compare a b ≢ Ordering.gt → le_text a b ≡ true
unfolding le_text
not-gt-le a b h = ground arith

-- The six comparison operators of String belong to one total order, in which NULL comes first.
pub text-IsOrder : IsOrder
unfolding le_text eq_text ne_text lt_text gt_text ge_text
text-IsOrder = record {
  antisym = λ a b h k. compare-eq a b (ground (arith, compare-flip a b));
  trans = λ a b c h k. not-gt-le a c (compare_trans a b c (le-not-gt a b h) (le-not-gt b c k));
  total = λ a b. ground (arith, compare-flip a b);
  eq_iff = λ a b. (
    λ h. compare-eq a b (ground arith),
    λ e. ground (arith, compare_refl b, ap (λ t. string_compare t b) e),
  );
  ne_not = λ a b. ground arith;
  lt_not_ge = λ a b. ground arith;
  gt_not_le = λ a b. ground arith;
  ge_flip = λ a b. ground (arith, compare-flip a b);
  null_first = λ a. not-gt-le none a (null-compare a);
}
