-- ===== src/Internet/Checksum.antt =====
-- The Internet checksum: calculateChecksum and wrapChecksum of socketapi/internetaddress.cc.
use socketapi.Prelude.{
  ℕ, ◌+◌, ◌-◌, ◌*◌, ◌/◌, ◌%◌, ◌^◌, ◌<◌, ◌≤◌, ◌≡◌, refl, ◌∙◌, [], ◌∷◌, ◌++◌, ltb, ◌==◌,
  if◌then◌else◌, arith, Bytes, All, length,
}
use socketapi.Internet.{swap16}

-- One addition with its carry, in a card32.
add_word : ℕ → ℕ → ℕ
add_word sum w =
    let total = (sum + w) % 2 ^ 32 in if ltb 0xffff total then total - 0xffff else total

-- The loop over the pairs of bytes, each read as a card16 of the host, and the byte left over.
pub calculate_checksum : Bytes → ℕ → ℕ
unfolding add_word
calculate_checksum [] sum = sum
calculate_checksum (b ∷ []) sum = add_word sum (swap16 b)
calculate_checksum (b0 ∷ b1 ∷ buf) sum =
    calculate_checksum buf (add_word sum (swap16 (b0 + 256 * b1)))

-- htons(~sum & 0xffff).
pub wrap_checksum : ℕ → ℕ
wrap_checksum sum = swap16 ((0xffff_ffff - sum) % 0x1_0000)

-- The two bytes of a card16 in the memory of the host.
abbrev pub store16 : ℕ → Bytes
store16 x = x % 256 ∷ x / 256 ∷ []

abbrev pub IsBytes : Bytes → Type 0
IsBytes = All (λ b. b < 256)

-- What the checksum stands for: the sum of the big-endian words, the last one filled up by 0.
pub word_sum : Bytes → ℕ
word_sum [] = 0
word_sum (b ∷ []) = b * 256
word_sum (b0 ∷ b1 ∷ buf) = b0 * 256 + b1 + word_sum buf

-- A one's complement sum: in 16 bits, equal to the number that it stands for modulo 0xffff, and 0
-- for the number 0 only.
abbrev pub Sums : ℕ → ℕ → Type 0
Sums r n = (r ≤ 0xffff) × (r % 0xffff ≡ n % 0xffff) × ((r == 0) ≡ (n == 0))

add_word-Sums : (sum w n : ℕ) → w ≤ 0xffff → Sums sum n → Sums (add_word sum w) (n + w)
unfolding add_word
add_word-Sums sum w n k h = ground arith

calculate_checksum-Sums_from :
    (buf : Bytes) (sum n : ℕ)
    → IsBytes buf
    → Sums sum n
    → Sums (calculate_checksum buf sum) (n + word_sum buf)
unfolding calculate_checksum word_sum
calculate_checksum-Sums_from [] sum n b h = ground arith
calculate_checksum-Sums_from (b ∷ []) sum n k h =
    let w : swap16 b ≡ b * 256 = unfold swap16 in omega arith in
    rw w (add_word-Sums sum (b * 256) n (omega arith) h)
calculate_checksum-Sums_from (b0 ∷ b1 ∷ buf) sum n (k0, (k1, k)) h =
    let w : swap16 (b0 + 256 * b1) ≡ b0 * 256 + b1 = unfold swap16 in omega arith in
    let step = add_word-Sums sum (b0 * 256 + b1) n (omega arith) h in
    let rest =
      calculate_checksum-Sums_from buf (add_word sum (b0 * 256 + b1)) (n + (b0 * 256 + b1)) k
        step in
    let regroup : n + (b0 * 256 + b1) + word_sum buf ≡ n + (b0 * 256 + b1 + word_sum buf) =
      omega arith in
    rw w (rw regroup at rest)

-- From a start in 16 bits, the checksum is the one's complement sum of the start and the words of
-- the buffer in network byte order: no carry is lost.
pub calculate_checksum-Sums :
    (buf : Bytes) (sum : ℕ)
    → IsBytes buf
    → sum ≤ 0xffff
    → Sums (calculate_checksum buf sum) (sum + word_sum buf)
calculate_checksum-Sums buf sum b h = calculate_checksum-Sums_from buf sum sum b (h, refl, refl)

calculate_checksum-append :
    (xs ys : Bytes) (sum : ℕ)
    → length xs % 2 ≡ 0
    → calculate_checksum (xs ++ ys) sum ≡ calculate_checksum ys (calculate_checksum xs sum)
unfolding calculate_checksum
calculate_checksum-append [] ys sum h = refl
calculate_checksum-append (b ∷ []) ys sum h = absurd (omega arith)
calculate_checksum-append (b0 ∷ b1 ∷ xs) ys sum h =
    calculate_checksum-append xs ys (add_word sum (swap16 (b0 + 256 * b1))) (omega arith)

-- What the sender stores behind an even number of bytes makes the receiver's checksum 0xffff.
pub calculate_checksum-wrap_checksum :
    (buf : Bytes)
    → IsBytes buf
    → length buf % 2 ≡ 0
    → calculate_checksum (buf ++ store16 (wrap_checksum (calculate_checksum buf 0))) 0 ≡ 0xffff
unfolding wrap_checksum
calculate_checksum-wrap_checksum buf b even =
    calculate_checksum-append buf _ 0 even ∙ complement (calculate_checksum buf 0) small.0
  where
    small : Sums (calculate_checksum buf 0) (0 + word_sum buf)
    small = calculate_checksum-Sums buf 0 b (omega arith)

    complement :
        (s : ℕ)
        → s ≤ 0xffff
        → calculate_checksum (store16 (swap16 ((0xffff_ffff - s) % 0x1_0000))) s ≡ 0xffff
    complement s h = unfold calculate_checksum add_word swap16 in ground arith
