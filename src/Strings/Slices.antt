-- ===== src/Strings/Slices.antt =====
-- left, mid and right (socketapi/tdstrings.cc) as parts of one text.
use socketapi.Prelude.{
  ℕ, ◌-◌, ◌^◌, ◌≤◌, ◌<◌, ◌≡◌, sym, ap, ◌∙◌, some, inl, inr, min, [], ◌++◌, arith, Bytes, Bool-cases,
  leb, length, take, drop, take-append-drop, take-of-length-le, drop-of-length-le, length-drop,
}
use socketapi.Strings.{left, mid, mid_from, right}

take-min : (n : ℕ) (s : Bytes) → take (min (length s) n) s ≡ take n s
take-min n s = elim (Bool-cases (leb (length s) n)) [
  | inl e ↦
      let m : min (length s) n ≡ length s = ground arith in
      rw m
        (take-of-length-le (length s) s (omega arith) ∙ sym (take-of-length-le n s (ground arith)))
  | inr e ↦ let m : min (length s) n ≡ n = ground arith in rw m
]

pub left-eq-take : (s : Bytes) (n : ℕ) → left (some s) n ≡ take n s
unfolding left
left-eq-take s n = take-min n s

pub mid-eq-take : (s : Bytes) (i n : ℕ) → mid (some s) i n ≡ take n (drop i s)
unfolding mid
mid-eq-take s i n = elim (Bool-cases (leb (length s) i)) [
  | inl e ↦
      rw (e, drop-of-length-le i s (ground arith)) (sym (take-of-length-le n [] (omega arith)))
  | inr e ↦ rw (e, ← length-drop i s) (take-min n (drop i s))
]

pub mid_from-eq-drop : (s : Bytes) (i : ℕ) → length s < 2 ^ 32 → mid_from (some s) i ≡ drop i s
unfolding mid_from
mid_from-eq-drop s i h =
    mid-eq-take s i 0xffff_ffff
    ∙ take-of-length-le 0xffff_ffff (drop i s) (omega (arith, length-drop i s))

pub right-eq-drop : (s : Bytes) (n : ℕ) → right (some s) n ≡ drop (length s - n) s
unfolding right
right-eq-drop s n =
    let e : length s - min (length s) n ≡ length s - n = omega arith in
    rw e (
      take-of-length-le (min (length s) n) (drop (length s - n) s)
        (omega (arith, length-drop (length s - n) s)))

-- A text that a card32 can measure is its left part and the rest, wherever it is cut; the right
-- part of the remaining length is that rest too.
pub left-mid_from :
    (s : Bytes) (n : ℕ)
    → length s < 2 ^ 32
    → n ≤ length s
    → (left (some s) n ++ mid_from (some s) n ≡ s)
      × (right (some s) (length s - n) ≡ mid_from (some s) n)
left-mid_from s n fits h = (
  rw (left-eq-take s n, mid_from-eq-drop s n fits) (take-append-drop n s),
  right-eq-drop s (length s - n)
      ∙ ap (λ k. drop k s) (omega arith)
      ∙ sym (mid_from-eq-drop s n fits),
)
