-- ===== src/Descriptors/Packing.antt =====
-- Lists of addresses in the form in which they are passed (socketapi/sctpsocketwrapper.cc:
-- unpack_sockaddr and pack_sockaddr_storage). A byte of the memory of a list is one of an address that was
-- copied to it.
use socketapi.Prelude.{
  Bool-cases, ℕ, ◌+◌, ◌-◌, ◌≤◌, ◌<◌, ◌≡◌, refl, sym, ap, ◌∙◌, inl, inr, Bool, true, false, List, [],
  ◌∷◌, Option, none, some, length, ◌==◌, ◌&&◌, leb, ltb, if◌then◌else◌, arith, zero, suc,
  Option-cases,
}
use mathlib.Core.Option.{some-injective}
use socketapi.Internet.{Host}
use socketapi.Internet.System.{Sockaddr, sock_in, sock_in6, sock_un, sock_other, size_in, size_in6}

-- What is in a byte: the address and the number of the byte in it.
abbrev pub Memory : Type 0
Memory = ℕ → Option (Sockaddr × ℕ)

-- The three switches by the family: what is required, and, for both loops that copy, how many bytes are
-- copied and how far the pointer moves. `none` where the code ends the process.
unfoldable pub required_by : Sockaddr → Option ℕ
required_by (sock_in port a0 a1) = some size_in
required_by (sock_in6 port flow_info h scope) = some size_in6
required_by (sock_un path) = none
required_by (sock_other n) = none

unfoldable pub copied_by : Sockaddr → ℕ × ℕ
copied_by (sock_in port a0 a1) = (size_in, size_in)
copied_by (sock_in6 port flow_info h scope) = (size_in6, size_in6)
copied_by (sock_un path) = (0, 0)
copied_by (sock_other n) = (0, 0)

unfoldable pub unpacked_by : Sockaddr → Option (ℕ × ℕ)
unpacked_by (sock_in port a0 a1) = some (size_in, size_in)
unpacked_by (sock_in6 port flow_info h scope) = some (size_in6, size_in6)
unpacked_by (sock_un path) = none
unpacked_by (sock_other n) = none

-- The loop that finds `required`.
unfoldable pub required_size : List Sockaddr → Option ℕ
required_size [] = some 0
required_size (a ∷ xs) = elim (required_by a) [
  | none ↦ none
  | some n ↦ elim (required_size xs) [ none ↦ none | some m ↦ some (n + m) ]
]

-- memcpy of the first `n` bytes of an address.
abbrev pub write_bytes : ℕ → ℕ → Sockaddr → Memory → Memory
write_bytes n offset a m i =
    if leb offset i && ltb i (offset + n) then some (a, i - offset) else m i

-- The loop that copies, from an offset on.
unfoldable pub copy_addresses : List Sockaddr → ℕ → Memory → Memory
copy_addresses [] offset m = m
copy_addresses (a ∷ xs) offset m =
    let (n, step) = copied_by a in copy_addresses xs (offset + step) (write_bytes n offset a m)

-- pack_sockaddr_storage: the size and the content of the array; a size of 0 stands for NULL.
unfoldable pub pack_sockaddr_storage : Memory → List Sockaddr → Option (ℕ × Memory)
pack_sockaddr_storage fresh xs = elim (required_size xs) [
  | none ↦ none
  | some n ↦ some (n, if n == 0 then fresh else copy_addresses xs 0 fresh)
]

abbrev same_host : Host → Host → Bool
same_host h k =
    h.h0 == k.h0
    && h.h1 == k.h1
    && h.h2 == k.h2
    && h.h3 == k.h3
    && h.h4 == k.h4
    && h.h5 == k.h5
    && h.h6 == k.h6
    && h.h7 == k.h7

abbrev is_in : ℕ → ℕ → ℕ → Sockaddr → Bool
is_in port a0 a1 (sock_in q b0 b1) = port == q && a0 == b0 && a1 == b1
is_in port a0 a1 (sock_in6 q flow_info h scope) = false
is_in port a0 a1 (sock_un path) = false
is_in port a0 a1 (sock_other n) = false

abbrev is_in6 : ℕ → ℕ → Host → ℕ → Sockaddr → Bool
is_in6 port flow_info h scope (sock_in q b0 b1) = false
is_in6 port flow_info h scope (sock_in6 q f k s) =
    port == q && flow_info == f && scope == s && same_host h k
is_in6 port flow_info h scope (sock_un path) = false
is_in6 port flow_info h scope (sock_other n) = false

-- Two Internet addresses are the same.
unfoldable pub same_sockaddr : Sockaddr → Sockaddr → Bool
same_sockaddr (sock_in port a0 a1) b = is_in port a0 a1 b
same_sockaddr (sock_in6 port flow_info h scope) b = is_in6 port flow_info h scope b
same_sockaddr (sock_un path) b = false
same_sockaddr (sock_other n) b = false

abbrev pub is_byte : Sockaddr → ℕ → Option (Sockaddr × ℕ) → Bool
is_byte a n none = false
is_byte a n (some (b, k)) = same_sockaddr a b && k == n

-- The first `n` bytes of the address are at the offset.
unfoldable pub holds_bytes : Sockaddr → ℕ → ℕ → Memory → Bool
holds_bytes a offset zero m = true
holds_bytes a offset (suc n) m = is_byte a n (m (offset + n)) && holds_bytes a offset n m

-- The size of the address itself.
abbrev pub sizeof_sockaddr : Sockaddr → ℕ
sizeof_sockaddr (sock_in port a0 a1) = 16
sizeof_sockaddr (sock_in6 port flow_info h scope) = 28
sizeof_sockaddr (sock_un path) = 110
sizeof_sockaddr (sock_other n) = 0

-- What is copied is the whole address whose first byte is at the offset.
abbrev pub is_whole : Sockaddr → ℕ → ℕ → Memory → Bool
is_whole a copied offset m =
    leb (sizeof_sockaddr a) copied && holds_bytes a offset (sizeof_sockaddr a) m

-- unpack_sockaddr, from an offset on; `none` also where the bytes are not those of one address.
unfoldable pub unpack_sockaddr : ℕ → ℕ → Memory → Option (List Sockaddr)
unpack_sockaddr zero offset m = some []
unpack_sockaddr (suc n) offset m = elim (m offset) [
  | none ↦ none
  | some (a, k) ↦ elim (unpacked_by a) [
    | none ↦ none
    | some (copied, step) ↦
        let rest : Option (List Sockaddr) = elim (unpack_sockaddr n (offset + step) m) [
          | none ↦ none
          | some xs ↦ some (a ∷ xs)
        ] in
        if is_whole a copied offset m then rest else none
  ]
]

-- The three switches agree with each other, and with the size.
switches_agree :
    (a : Sockaddr) (k : ℕ)
    → required_by a ≡ some k
    → (copied_by a ≡ (k, k))
      × (unpacked_by a ≡ some (k, k))
      × (sizeof_sockaddr a ≡ k)
      × (same_sockaddr a a ≡ true)
      × (0 < k)
unfolding required_by copied_by unpacked_by same_sockaddr
switches_agree (sock_in port a0 a1) k e =
    let size : 16 ≡ k = some-injective 16 k e in
    (ap (λ n. (n, n)) size, ap (λ n. some (n, n)) size, size, ground arith, omega arith)
switches_agree (sock_in6 port flow_info h scope) k e =
    let size : 28 ≡ k = some-injective 28 k e in
    (ap (λ n. (n, n)) size, ap (λ n. some (n, n)) size, size, ground arith, omega arith)
switches_agree (sock_un path) k e = absurd (ground (arith, e))
switches_agree (sock_other n) k e = absurd (ground (arith, e))

copy-below :
    (xs : List Sockaddr) (offset i : ℕ) (m : Memory)
    → i < offset
    → copy_addresses xs offset m i ≡ m i
unfolding copy_addresses
copy-below [] offset i m h = refl
copy-below (a ∷ xs) offset i m h =
    let (n, step) = copied_by a in
    let other : leb offset i ≡ false = ground arith in
    copy-below xs (offset + step) i (write_bytes n offset a m) (omega arith) ∙ rw other refl

holds_bytes-all :
    (a : Sockaddr) (offset n : ℕ) (m : Memory)
    → same_sockaddr a a ≡ true
    → ((j : ℕ) → j < n → m (offset + j) ≡ some (a, j))
    → holds_bytes a offset n m ≡ true
unfolding holds_bytes
holds_bytes-all a offset zero m same h = refl
holds_bytes-all a offset (suc n) m same h =
    let number : (n == n) ≡ true = ground arith in
    rw (h n (omega arith), same, number)
      (holds_bytes-all a offset n m same (λ j l. h j (omega arith)))

unpack-step :
    (n offset k : ℕ) (a : Sockaddr) (xs : List Sockaddr) (m : Memory)
    → m offset ≡ some (a, 0)
    → unpacked_by a ≡ some (k, k)
    → is_whole a k offset m ≡ true
    → unpack_sockaddr n (offset + k) m ≡ some xs
    → unpack_sockaddr (suc n) offset m ≡ some (a ∷ xs)
unfolding unpack_sockaddr
unpack-step n offset k a xs m here size whole rest =
    rw (unpack_sockaddr, here, size, rest, whole) refl

-- The size of a list is that of its first address and of the rest.
required-cons :
    (a : Sockaddr) (xs : List Sockaddr) (n : ℕ)
    → required_size (a ∷ xs) ≡ some n
    → (k : ℕ) × (l : ℕ) × (required_by a ≡ some k) × (required_size xs ≡ some l) × (n ≡ k + l)
unfolding required_size
required-cons a xs n e = elim (Option-cases (required_by a)) [
  | inl h ↦
      let bad : required_size (a ∷ xs) ≡ none = rw (h, required_size) refl in
      absurd (ground (arith, e, bad))
  | inr (k, h) ↦ elim (Option-cases (required_size xs)) [
    | inl r ↦
        let bad : required_size (a ∷ xs) ≡ none = rw (h, r, required_size) refl in
        absurd (ground (arith, e, bad))
    | inr (l, r) ↦
        let sum : required_size (a ∷ xs) ≡ some (k + l) = rw (h, r, required_size) refl in
        (k, l, h, r, some-injective n (k + l) (sym e ∙ sum))
  ]
]

copy-cons :
    (a : Sockaddr) (xs : List Sockaddr) (offset k : ℕ) (m : Memory)
    → copied_by a ≡ (k, k)
    → copy_addresses (a ∷ xs) offset m ≡ copy_addresses xs (offset + k) (write_bytes k offset a m)
unfolding copy_addresses
copy-cons a xs offset k m e =
    ap (λ r. copy_addresses xs (offset + r.1) (write_bytes r.0 offset a m)) e

-- The bytes of the first address stay where the others are copied.
copy-first :
    (a : Sockaddr) (xs : List Sockaddr) (offset k j : ℕ) (m : Memory)
    → j < k
    → copy_addresses xs (offset + k) (write_bytes k offset a m) (offset + j) ≡ some (a, j)
copy-first a xs offset k j m h =
    let low : leb offset (offset + j) ≡ true = ground arith in
    let high : ltb (offset + j) (offset + k) ≡ true = ground arith in
    let number : offset + j - offset ≡ j = omega arith in
    copy-below xs (offset + k) (offset + j) (write_bytes k offset a m) (omega arith)
    ∙ rw (low, high, number) refl

unpack-copy :
    (xs : List Sockaddr) (offset n : ℕ) (m : Memory)
    → required_size xs ≡ some n
    → unpack_sockaddr (length xs) offset (copy_addresses xs offset m) ≡ some xs
unfolding copy_addresses unpack_sockaddr
unpack-copy [] offset n m e = refl
unpack-copy (a ∷ xs) offset n m e =
    let (k, l, size, rest, sum) = required-cons a xs n e in
    let (copied, unpacked, whole_size, same, positive) = switches_agree a k size in
    let done = copy_addresses xs (offset + k) (write_bytes k offset a m) in
    let here : done offset ≡ some (a, 0) =
      (let start : offset ≡ offset + 0 = omega arith in ap done start)
      ∙ copy-first a xs offset k 0 m positive in
    let all_there : holds_bytes a offset k done ≡ true =
      holds_bytes-all a offset k done same (λ j h. copy-first a xs offset k j m h) in
    let enough : leb k k ≡ true = ground arith in
    let whole : is_whole a k offset done ≡ true =
      ap (λ s. leb s k && holds_bytes a offset s done) whole_size ∙ rw enough all_there in
    ap (unpack_sockaddr (suc (length xs)) offset) (copy-cons a xs offset k m copied)
    ∙ unpack-step (length xs) offset k a xs done here unpacked whole
        (unpack-copy xs (offset + k) l (write_bytes k offset a m) rest)

-- A list of IPv4 and IPv6 addresses that is packed into an array is unpacked from there as the same
-- list, byte for byte.
pub unpack-pack :
    (fresh : Memory) (xs : List Sockaddr) (n : ℕ)
    → required_size xs ≡ some n
    → (m : Memory) × (pack_sockaddr_storage fresh xs ≡ some (n, m))
      × (unpack_sockaddr (length xs) 0 m ≡ some xs)
unfolding pack_sockaddr_storage unpack_sockaddr required_size
unpack-pack fresh [] n e =
    let zero_size : 0 ≡ n = some-injective 0 n e in
    (fresh, ap (λ k. some (k, fresh)) zero_size, refl)
unpack-pack fresh (a ∷ xs) n e =
    let (k, l, size, rest, sum) = required-cons a xs n e in
    let some_bytes : (n == 0) ≡ false = ground (arith, sum, (switches_agree a k size).4) in
    (
      copy_addresses (a ∷ xs) 0 fresh,
      rw (e, some_bytes, pack_sockaddr_storage) refl,
      unpack-copy (a ∷ xs) 0 n fresh e,
    )

copy-above :
    (xs : List Sockaddr) (offset n i : ℕ) (m : Memory)
    → required_size xs ≡ some n
    → offset + n ≤ i
    → copy_addresses xs offset m i ≡ m i
unfolding copy_addresses required_size
copy-above [] offset n i m e h = refl
copy-above (a ∷ xs) offset n i m e h =
    let (k, l, size, rest, sum) = required-cons a xs n e in
    let (copied, unpacked, whole_size, same, positive) = switches_agree a k size in
    let high : ltb i (offset + k) ≡ false = ground (arith, sum, h) in
    let low : leb offset i ≡ true = ground (arith, sum, h) in
    ap (λ x. x i) (copy-cons a xs offset k m copied)
    ∙ copy-above xs (offset + k) l i (write_bytes k offset a m) rest (omega (arith, sum))
    ∙ rw (low, high) refl

abbrev pub total_size : List Sockaddr → ℕ
total_size [] = 0
total_size (a ∷ xs) = sizeof_sockaddr a + total_size xs

required_size-total : (xs : List Sockaddr) (n : ℕ) → required_size xs ≡ some n → n ≡ total_size xs
unfolding required_size
required_size-total [] n e = sym (some-injective 0 n e)
required_size-total (a ∷ xs) n e =
    let (k, l, size, rest, sum) = required-cons a xs n e in
    let (copied, unpacked, whole_size, same, positive) = switches_agree a k size in
    omega (arith, sum, whole_size, required_size-total xs l rest)

-- Where pack_sockaddr_storage gives an array of `n` bytes, it writes nothing at or behind its end, and the
-- array has the sum of the sizes of the addresses, which are 16 and 28 bytes.
pub pack-Within :
    (fresh m : Memory) (xs : List Sockaddr) (n i : ℕ)
    → pack_sockaddr_storage fresh xs ≡ some (n, m)
    → n ≤ i
    → (m i ≡ fresh i) × (n ≡ total_size xs)
unfolding pack_sockaddr_storage
pack-Within fresh m xs n i e h = elim (Option-cases (required_size xs)) [
  | inl none_there ↦
      let bad : pack_sockaddr_storage fresh xs ≡ none =
        rw (none_there, pack_sockaddr_storage) refl in
      absurd (ground (arith, e, bad))
  | inr (l, size) ↦
      let packed = if l == 0 then fresh else copy_addresses xs 0 fresh in
      let made : pack_sockaddr_storage fresh xs ≡ some (l, packed) =
        rw (size, pack_sockaddr_storage) refl in
      let same_size : l ≡ n = ap (λ r. (result_of r).0) (sym made ∙ e) in
      let same_memory : packed i ≡ m i = ap (λ r. (result_of r).1 i) (sym made ∙ e) in
      let kept : packed i ≡ fresh i = elim (Bool-cases (l == 0)) [
        | inl z ↦ rw z refl
        | inr z ↦ rw z (copy-above xs 0 l i fresh size (omega arith))
      ] in
      (sym same_memory ∙ kept, sym same_size ∙ required_size-total xs l size)
]
  where
    result_of : Option (ℕ × Memory) → ℕ × Memory
    result_of none = (n, m)
    result_of (some r) = r
