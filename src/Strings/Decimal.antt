-- ===== src/Strings/Decimal.antt =====
-- Decimal numbers in text: printf's %d and %u, sscanf's %d, and the constructor and the assignment
-- of String from a number, which use them (socketapi/tdstrings.cc).
use socketapi.Prelude.{
  ℕ, zero, suc, ◌+◌, ◌-◌, ◌*◌, ◌/◌, ◌%◌, ◌^◌, ◌≤◌, ◌<◌, ◌≡◌, ◌≢◌, ◌↔◌, refl, sym, ap, ◌∙◌, Bool,
  false, ◌&&◌, ◌||◌, [], ◌∷◌, ◌++◌, Option, none, some, arith, Bytes, ltb, leb, ◌==◌, if◌then◌else◌,
  All, length, append-nil, Bool-cases, inl, inr,
}

-- `negsuc n` is -(n + 1).
pub data ℤ : Type 0 where
  pos : ℕ → ℤ
  negsuc : ℕ → ℤ

unfoldable pub neg : ℕ → ℤ
neg zero = pos 0
neg (suc n) = negsuc n

-- One round writes the last digit in front of those that are written; `n` rounds are enough.
pub digits : ℕ → ℕ → Bytes → Bytes
digits zero n out = out
digits (suc f) n out =
    let rest = digits f (n / 10) ((b'0' + n % 10) ∷ out) in if n == 0 then out else rest

unfoldable pub decimal : ℕ → Bytes
unfolding digits
decimal n = if n == 0 then b'0' ∷ [] else digits n n []

-- %d of a 32-bit value, which is read as signed.
unfoldable pub decimal_signed : ℕ → Bytes
unfolding decimal
decimal_signed n = if ltb n (2 ^ 31) then decimal n else b'-' ∷ decimal (2 ^ 32 - n)

-- The constructor String(const cardinal) prints by %llu.
unfoldable pub of_cardinal : ℕ → Option Bytes
unfolding decimal
of_cardinal value = some (decimal value)

-- The assignment of a cardinal prints by %d.
unfoldable pub assign_cardinal : ℕ → Option Bytes
unfolding decimal_signed
assign_cardinal value = some (decimal_signed value)

unfoldable pub is_digit : ℕ → Bool
is_digit c = leb b'0' c && leb c b'9'

pub is_space : ℕ → Bool
is_space c = c == b' ' || (leb 9 c && leb c 13)

-- The value of the digits at the front, behind `n`; the rest of the text is ignored.
pub scan_digits : Bytes → ℕ → ℕ
unfolding is_digit
scan_digits [] n = n
scan_digits (c ∷ s) n = if is_digit c then scan_digits s (n * 10 + (c - b'0')) else n

pub scan_unsigned : Bytes → Option ℕ
unfolding scan_digits
scan_unsigned [] = none
scan_unsigned (c ∷ s) = if is_digit c then some (scan_digits (c ∷ s) 0) else none

pub skip_space : Bytes → Bytes
unfolding is_space
skip_space [] = []
skip_space (c ∷ s) = if is_space c then skip_space s else c ∷ s

pub scan_signed : Bytes → Option ℤ
unfolding scan_unsigned neg
scan_signed [] = none
scan_signed (c ∷ s) =
    if c == b'-'
    then elim (scan_unsigned s) [ none ↦ none | some n ↦ some (neg n) ]
    else elim (scan_unsigned (if c == b'+' then s else c ∷ s)) [
      | none ↦ none
      | some n ↦ some (pos n)
    ]

-- sscanf(s, "%d", &n): `none` where no number is matched. C leaves a value outside of int open;
-- the model keeps it.
unfoldable pub scan_int : Bytes → Option ℤ
unfolding scan_signed skip_space
scan_int s = scan_signed (skip_space s)

-- A text that starts with a digit, as all that `decimal` prints do.
abbrev pub StartsDigit : Bytes → Type 0
StartsDigit [] = ⊥
StartsDigit (c ∷ s) = (b'0' ≤ c) × (c ≤ b'9')

abbrev pub Digits : Bytes → Type 0
Digits = All (λ c. (b'0' ≤ c) × (c ≤ b'9'))

abbrev pub EndsNumber : Bytes → Type 0
EndsNumber [] = Unit
EndsNumber (c ∷ s) = is_digit c ≡ false

digits-append : (f n : ℕ) (out rest : Bytes) → digits f n out ++ rest ≡ digits f n (out ++ rest)
unfolding digits
digits-append zero n out rest = refl
digits-append (suc f) n out rest =
    ground (arith, digits-append f (n / 10) ((b'0' + n % 10) ∷ out) rest)

scan_digits-digits :
    (f n : ℕ) (out : Bytes) → n ≤ f → scan_digits (digits f n out) 0 ≡ scan_digits out n
unfolding digits scan_digits
scan_digits-digits zero n out h = let e : n ≡ 0 = omega arith in ground arith
scan_digits-digits (suc f) n out h =
    ground (arith, scan_digits-digits f (n / 10) ((b'0' + n % 10) ∷ out))

digits-StartsDigit :
    (f n : ℕ) (out : Bytes) → n ≤ f → (n ≡ 0 → StartsDigit out) → StartsDigit (digits f n out)
unfolding digits
digits-StartsDigit zero n out h k = k (omega arith)
digits-StartsDigit (suc f) n out h k = elim (Bool-cases (n == 0)) [
  | inl e ↦ rw e (k (ground arith))
  | inr e ↦
      rw e (digits-StartsDigit f (n / 10) ((b'0' + n % 10) ∷ out) (ground arith) (λ _. omega arith))
]

pub decimal-StartsDigit : (n : ℕ) (rest : Bytes) → StartsDigit (decimal n ++ rest)
unfolding decimal
decimal-StartsDigit n rest = elim (Bool-cases (n == 0)) [
  | inl e ↦ rw e (omega arith)
  | inr e ↦
      rw (e, digits-append n n [] rest)
        (digits-StartsDigit n n rest (omega arith) (λ z. ground arith))
]

-- What stands behind a number does not change its value.
scan_digits_end : (rest : Bytes) (n : ℕ) → EndsNumber rest → scan_digits rest n ≡ n
unfolding scan_digits
scan_digits_end [] n h = refl
scan_digits_end (c ∷ rest) n h = rw h

pub scan_digits-decimal :
    (n : ℕ) (rest : Bytes) → EndsNumber rest → scan_digits (decimal n ++ rest) 0 ≡ n
unfolding decimal
scan_digits-decimal n rest h = elim (Bool-cases (n == 0)) [
  | inl e ↦
      let z : n ≡ 0 = ground arith in rw e (unfold scan_digits in scan_digits_end rest 0 h ∙ sym z)
  | inr e ↦
      rw (e, digits-append n n [] rest)
        (scan_digits-digits n n rest (omega arith) ∙ scan_digits_end rest n h)
]

scan_int-StartsDigit : (s : Bytes) → StartsDigit s → scan_int s ≡ some (pos (scan_digits s 0))
unfolding scan_int is_digit
scan_int-StartsDigit [] h = absurd h
scan_int-StartsDigit (c ∷ s) h = ground arith

-- %d reads back what %u printed, whatever stands behind the number, unless that is one more digit.
pub scan_int-decimal :
    (n : ℕ) (rest : Bytes) → EndsNumber rest → scan_int (decimal n ++ rest) ≡ some (pos n)
scan_int-decimal n rest h =
    scan_int-StartsDigit (decimal n ++ rest) (decimal-StartsDigit n rest)
    ∙ ap (λ k. some (pos k)) (scan_digits-decimal n rest h)

digits-Digits : (f n : ℕ) (out : Bytes) → Digits out → Digits (digits f n out)
unfolding digits
digits-Digits zero n out h = h
digits-Digits (suc f) n out h = elim (Bool-cases (n == 0)) [
  | inl e ↦ rw e h
  | inr e ↦ rw e (digits-Digits f (n / 10) ((b'0' + n % 10) ∷ out) ((omega arith, omega arith), h))
]

pub decimal-Digits : (n : ℕ) → Digits (decimal n)
unfolding decimal
decimal-Digits n = elim (Bool-cases (n == 0)) [
  | inl e ↦ rw e ((omega arith, omega arith), tt)
  | inr e ↦ rw e (digits-Digits n n [] tt)
]

length-digits : (f n : ℕ) (out : Bytes) → length (digits f n out) ≤ f + length out
unfolding digits
length-digits zero n out = omega arith
length-digits (suc f) n out = ground (arith, length-digits f (n / 10) ((b'0' + n % 10) ∷ out))

-- A generous bound, which is enough for the texts of this library.
pub length-decimal : (n : ℕ) → length (decimal n) ≤ n + 1
unfolding decimal
length-decimal n = ground (arith, length-digits n n [])

StartsDigit-ne-minus : (t s : Bytes) → StartsDigit t → t ≢ b'-' ∷ s
StartsDigit-ne-minus [] s h e = absurd h
StartsDigit-ne-minus (c ∷ t) s h e = ground arith

decimal-ne-minus : (n : ℕ) (s : Bytes) → decimal n ≢ b'-' ∷ s
decimal-ne-minus n s =
    StartsDigit-ne-minus (decimal n) s (rw (append-nil (decimal n)) at (decimal-StartsDigit n []))

-- For a card32, the assignment writes what the constructor writes exactly for the values below
-- 2 ^ 31 (for the others it writes a negative number).
pub assign_cardinal-of_cardinal :
    (v : ℕ) → v < 2 ^ 32 → (assign_cardinal v ≡ of_cardinal v) ↔ (v < 2 ^ 31)
unfolding assign_cardinal of_cardinal decimal_signed
assign_cardinal-of_cardinal v h = elim (Bool-cases (ltb v (2 ^ 31))) [
  | inl e ↦ (λ _. ground arith, λ _. rw e)
  | inr e ↦ (
    λ q. absurd (decimal-ne-minus v (decimal (2 ^ 32 - v)) (ground (arith, rw e at q))),
    λ lt. absurd (ground arith),
  )
]
