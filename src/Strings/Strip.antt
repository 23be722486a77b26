-- ===== src/Strings/Strip.antt =====
-- What stripWhiteSpace (socketapi/tdstrings.cc) takes off a text.
use socketapi.Prelude.{
  append_assoc, append-nil, drop-append_le, get_or-drop, get_or-take, drop-take, ℕ, zero, suc, ◌+◌,
  ◌-◌, ◌≤◌, ◌<◌, ◌≡◌, ◌≢◌, refl, sym, ap, ◌∙◌, inl, inr, [], ◌∷◌, ◌++◌, arith, Bytes, Bool-cases,
  leb, ◌==◌, ◌&&◌, length, get_or, take, drop, replicate, take-of-length-le, length-drop,
  length-take,
}
use socketapi.Strings.{skip_front, skip_back, strip_white_space}
use socketapi.Strings.Slices.{mid-eq-take}

abbrev pub spaces : ℕ → Bytes
spaces n = replicate n b' '

skip_front-split : (s : Bytes) → spaces (skip_front s) ++ drop (skip_front s) s ≡ s
unfolding skip_front
skip_front-split [] = refl
skip_front-split (x ∷ s) = elim (Bool-cases (x == b' ')) [
  | inl e ↦
      let x_space : x ≡ b' ' = ground arith in rw e (ground (arith, x_space, skip_front-split s))
  | inr e ↦ rw e
]

skip_front-stop : (s : Bytes) → get_or (drop (skip_front s) s) 0 0 ≢ b' '
unfolding skip_front
skip_front-stop [] = omega arith
skip_front-stop (x ∷ s) = elim (Bool-cases (x == b' ')) [
  | inl e ↦ rw e (skip_front-stop s)
  | inr e ↦ rw e (ground arith)
]

-- The final j + 1 is no further than it began, and not below i.
skip_back-bounds : (s : Bytes) (i j : ℕ) → i ≤ j → (i ≤ skip_back s i j) × (skip_back s i j ≤ j)
unfolding skip_back
skip_back-bounds s i zero h = (h, omega arith)
skip_back-bounds s i (suc j) h = elim (Bool-cases (leb i j && get_or s j 0 == b' ')) [
  | inl e ↦ let rest = skip_back-bounds s i j (ground arith) in rw e (rest.0, omega arith)
  | inr e ↦ rw e (h, omega arith)
]

-- Where it stops behind i, the byte in front of it is no space.
skip_back-stop : (s : Bytes) (i j k : ℕ) → skip_back s i j ≡ suc k → i ≤ k → get_or s k 0 ≢ b' '
unfolding skip_back
skip_back-stop s i zero k e h = absurd (omega arith)
skip_back-stop s i (suc j) k e h = elim (Bool-cases (leb i j && get_or s j 0 == b' ')) [
  | inl t ↦ skip_back-stop s i j k (ground arith) h
  | inr t ↦ let same : j ≡ k = ground arith in rw (← same) (ground arith)
]

pub replicate-snoc : (n : ℕ) → spaces n ++ b' ' ∷ [] ≡ spaces (suc n)
replicate-snoc zero = refl
replicate-snoc (suc n) = ap (◌∷◌ b' ') (replicate-snoc n)

take-suc : (s : Bytes) (j : ℕ) → j < length s → take (suc j) s ≡ take j s ++ get_or s j 0 ∷ []
take-suc [] j h = absurd (omega arith)
take-suc (x ∷ s) zero h = refl
take-suc (x ∷ s) (suc j) h = ap (◌∷◌ x) (take-suc s j (omega arith))

-- What lies between the stop and the start is spaces.
skip_back-split :
    (s : Bytes) (i j : ℕ)
    → j ≤ length s
    → i ≤ j
    → take j s ≡ take (skip_back s i j) s ++ spaces (j - skip_back s i j)
unfolding skip_back
skip_back-split s i zero h le = refl
skip_back-split s i (suc j) h le = elim (Bool-cases (leb i j && get_or s j 0 == b' ')) [
  | inl t ↦
      let space : get_or s j 0 ≡ b' ' = ground arith in
      let stop = skip_back-bounds s i j (ground arith) in
      let count : suc j - skip_back s i j ≡ suc (j - skip_back s i j) = omega arith in
      rw (t, count, ← replicate-snoc (j - skip_back s i j), take-suc s j h, space)
        (rw (skip_back-split s i j (omega arith) (ground arith))
          (append_assoc (take (skip_back s i j) s) (spaces (j - skip_back s i j)) (b' ' ∷ [])))
  | inr t ↦ let none_left : suc j - suc j ≡ 0 = omega arith in rw (t, none_left, append-nil)
]

take-length : (s : Bytes) → take (length s) s ≡ s
take-length s = take-of-length-le (length s) s (omega arith)

-- The text with its spaces off: what stands round it in the receiver is spaces, and it neither
-- begins nor ends with one.
pub record IsStripped (s r : Bytes) : Type 0 where
  pub before : ℕ
  pub after : ℕ
  pub whole : s ≡ spaces before ++ (r ++ spaces after)
  pub first : get_or r 0 0 ≢ b' '
  pub last : get_or r (length r - 1) 0 ≢ b' '

abbrev start : Bytes → ℕ
start s = skip_front s

abbrev stop : Bytes → ℕ
stop s = skip_back s (start s) (length s)

abbrev inner : Bytes → Bytes
inner s = take (stop s - start s) (drop (start s) s)

start-le : (s : Bytes) → start s ≤ length s
unfolding skip_front
start-le [] = omega arith
start-le (x ∷ s) = ground (arith, start-le s)

inner-split : (s : Bytes) → drop (start s) s ≡ inner s ++ spaces (length s - stop s)
inner-split s =
    let (lo, hi) = skip_back-bounds s (start s) (length s) (start-le s) in
    let reach : start s ≤ length (take (stop s) s) = omega (arith, length-take (stop s) s) in
    ap (drop (start s))
      (sym (take-length s) ∙ skip_back-split s (start s) (length s) (omega arith) (start-le s))
    ∙ drop-append_le (start s) (take (stop s) s) (spaces (length s - stop s)) reach
    ∙ ap (λ t. t ++ spaces (length s - stop s)) (drop-take (start s) (stop s) s)

inner-first : (s : Bytes) (n : ℕ) → get_or (take n (drop (start s) s)) 0 0 ≢ b' '
inner-first s zero = omega arith
inner-first s (suc n) =
    rw (get_or-take (suc n) 0 (drop (start s) s) 0 (omega arith)) (skip_front-stop s)

length-inner : (s : Bytes) → length (inner s) ≡ stop s - start s
length-inner s =
    let bounds = skip_back-bounds s (start s) (length s) (start-le s) in
    omega (
      arith,
      length-take (stop s - start s) (drop (start s) s),
      length-drop (start s) s,
      bounds.0,
      bounds.1,
    )

last-behind :
    (s : Bytes) (i e n : ℕ)
    → e ≡ i + n
    → ((k : ℕ) → e ≡ suc k → i ≤ k → get_or s k 0 ≢ b' ')
    → get_or (take n (drop i s)) (n - 1) 0 ≢ b' '
last-behind s i e zero h stops = omega arith
last-behind s i e (suc n) h stops =
    rw (get_or-take (suc n) (suc n - 1) (drop i s) 0 (omega arith), get_or-drop i (suc n - 1) s 0)
      (stops (i + (suc n - 1)) (omega arith) (omega arith))

inner-last : (s : Bytes) → get_or (inner s) (length (inner s) - 1) 0 ≢ b' '
inner-last s =
    let bounds = skip_back-bounds s (start s) (length s) (start-le s) in
    rw (length-inner s) (
      last-behind s (start s) (stop s) (stop s - start s) (omega (arith, bounds.0))
        (λ k e le. skip_back-stop s (start s) (length s) k e le))

-- stripWhiteSpace takes off all spaces in front and behind, and nothing else.
pub strip_white_space-IsStripped : (s : Bytes) → IsStripped s (strip_white_space s)
unfolding strip_white_space
strip_white_space-IsStripped s = rw (mid-eq-take s (start s) (stop s - start s)) (record {
  before = start s;
  after = length s - stop s;
  whole = sym (skip_front-split s) ∙ ap (◌++◌ (spaces (start s))) (inner-split s);
  first = inner-first s (stop s - start s);
  last = inner-last s;
})
