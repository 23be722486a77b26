-- ===== src/Internet/Order/Laws.antt =====
-- The order of InternetAddress (socketapi/internetaddress.icc): `<`, and `>` against it.
use socketapi.Prelude.{
  ℕ, ◌<◌, ◌≡◌, refl, ap₂, subst, ◌⊎◌, inl, inr, Bool, true, false, List, [], ◌∷◌, arith, ltb,
  if◌then◌else◌, length, All, Bool-cases,
}
use socketapi.Internet.{Host, InternetAddress, words, swap16, IsHost, IsWord}
use socketapi.Internet.Order.{lt_words, lt_address, gt_words, gt_address, eq_words, eq_address}

-- On lists of one length the loop is the lexicographic order of the words in network byte order.
lt_words_asym :
    (xs ys : List ℕ) (r s : Bool)
    → length xs ≡ length ys
    → (r ≡ true → s ≡ false)
    → lt_words xs ys r ≡ true
    → lt_words ys xs s ≡ false
unfolding lt_words
lt_words_asym [] [] r s e h k = h k
lt_words_asym [] (y ∷ ys) r s e h k = absurd (omega arith)
lt_words_asym (x ∷ xs) [] r s e h k = absurd (omega arith)
lt_words_asym (x ∷ xs) (y ∷ ys) r s e h k =
    let shorter : length xs ≡ length ys = omega arith in
    ground (arith, lt_words_asym xs ys r s shorter h)

lt_words_irrefl : (xs : List ℕ) (r : Bool) → r ≡ false → lt_words xs xs r ≡ false
unfolding lt_words
lt_words_irrefl [] r h = h
lt_words_irrefl (x ∷ xs) r h = ground (arith, lt_words_irrefl xs r h)

lt_words_trans :
    (xs ys zs : List ℕ) (r s t : Bool)
    → length xs ≡ length ys
    → length ys ≡ length zs
    → (r ≡ true → s ≡ true → t ≡ true)
    → lt_words xs ys r ≡ true
    → lt_words ys zs s ≡ true
    → lt_words xs zs t ≡ true
unfolding lt_words
lt_words_trans [] [] [] r s t e f h k l = h k l
lt_words_trans [] [] (z ∷ zs) r s t e f h k l = absurd (omega arith)
lt_words_trans [] (y ∷ ys) zs r s t e f h k l = absurd (omega arith)
lt_words_trans (x ∷ xs) [] zs r s t e f h k l = absurd (omega arith)
lt_words_trans (x ∷ xs) (y ∷ ys) [] r s t e f h k l = absurd (omega arith)
lt_words_trans (x ∷ xs) (y ∷ ys) (z ∷ zs) r s t e f h k l =
    let e' : length xs ≡ length ys = omega arith in
    let f' : length ys ≡ length zs = omega arith in
    ground (arith, lt_words_trans xs ys zs r s t e' f' h)

abbrev AllWords : List ℕ → Type 0
AllWords = All (λ x. x < 0x1_0000)

swap16-injective : (x y : ℕ) → x < 0x1_0000 → y < 0x1_0000 → swap16 x ≡ swap16 y → x ≡ y
unfolding swap16
swap16-injective x y h k e = omega arith

lt_words_connected :
    (xs ys : List ℕ) (r s : Bool)
    → length xs ≡ length ys
    → AllWords xs
    → AllWords ys
    → lt_words xs ys r ≡ false
    → lt_words ys xs s ≡ false
    → (xs ≡ ys) × (r ≡ false) × (s ≡ false)
unfolding lt_words
lt_words_connected [] [] r s e h k l m = (refl, l, m)
lt_words_connected [] (y ∷ ys) r s e h k l m = absurd (omega arith)
lt_words_connected (x ∷ xs) [] r s e h k l m = absurd (omega arith)
lt_words_connected (x ∷ xs) (y ∷ ys) r s e h k l m =
    let shorter : length xs ≡ length ys = omega arith in
    let same : x ≡ y = swap16-injective x y h.0 k.0 (ground arith) in
    let (tails, p, q) =
      lt_words_connected xs ys r s shorter h.1 k.1 (ground arith) (ground arith) in
    (ap₂ ◌∷◌ same tails, p, q)

words-injective : (a b : Host) → words a ≡ words b → a ≡ b
words-injective a b e = ground arith

host-AllWords : (a : Host) → IsHost a → AllWords (words a)
host-AllWords a h = omega arith

lt_address_asym : (a b : InternetAddress) → lt_address a b ≡ true → lt_address b a ≡ false
unfolding lt_address
lt_address_asym a b = lt_words_asym (words a.host) (words b.host) _ _ refl (λ h. ground arith)

lt_address_connected :
    (a b : InternetAddress)
    → IsWord a
    → IsWord b
    → lt_address a b ≡ false
    → lt_address b a ≡ false
    → (a.host ≡ b.host) × (a.port ≡ b.port)
unfolding lt_address
lt_address_connected a b v w h k =
    let (hosts, p, q) =
      lt_words_connected (words a.host) (words b.host) _ _ refl (host-AllWords a.host v.host_words)
        (host-AllWords b.host w.host_words) h k in
    (
      words-injective a.host b.host hosts,
      swap16-injective a.port b.port v.port_word w.port_word (ground arith),
    )

-- One of three holds: one address is less than the other, not the other way round; or they have
-- one host and one port, and neither is less.
pub lt_address_trichotomy :
    (a b : InternetAddress)
    → IsWord a
    → IsWord b
    → ((lt_address a b ≡ true) × (lt_address b a ≡ false))
      ⊎ (((lt_address a b ≡ false) × (lt_address b a ≡ true))
          ⊎ ((a.host ≡ b.host)
              × (a.port ≡ b.port)
              × (lt_address a b ≡ false)
              × (lt_address b a ≡ false)))
lt_address_trichotomy a b v w = elim (Bool-cases (lt_address a b)) [
  | inl h ↦ inl (h, lt_address_asym a b h)
  | inr h ↦ elim (Bool-cases (lt_address b a)) [
    | inl k ↦ inr (inl (h, k))
    | inr k ↦ inr (inr (same h k))
  ]
]
  where
    same :
        lt_address a b ≡ false
        → lt_address b a ≡ false
        → (a.host ≡ b.host)
          × (a.port ≡ b.port)
          × (lt_address a b ≡ false)
          × (lt_address b a ≡ false)
    same h k = let (hosts, ports) = lt_address_connected a b v w h k in (hosts, ports, h, k)

-- `<` is transitive.
pub lt_address_trans :
    (a b c : InternetAddress)
    → lt_address a b ≡ true
    → lt_address b c ≡ true
    → lt_address a c ≡ true
unfolding lt_address
lt_address_trans a b c =
    lt_words_trans (words a.host) (words b.host) (words c.host) _ _ _ refl refl
      (λ h k. ground arith)

-- Where two addresses differ in a word, `>` is `<` the other way round.
gt_words-lt_words :
    (xs ys : List ℕ) (r s : Bool)
    → AllWords xs
    → AllWords ys
    → length xs ≡ length ys
    → eq_words xs ys ≡ false
    → gt_words xs ys r ≡ lt_words ys xs s
unfolding gt_words lt_words eq_words
gt_words-lt_words [] [] r s v w l h = cc
gt_words-lt_words [] (y ∷ ys) r s v w l h = absurd (omega arith)
gt_words-lt_words (x ∷ xs) [] r s v w l h = absurd (omega arith)
gt_words-lt_words (x ∷ xs) (y ∷ ys) r s v w l h =
    let shorter : length xs ≡ length ys = omega arith in
    ground (arith, swap16-injective x y v.0 w.0, gt_words-lt_words xs ys r s v.1 w.1 shorter)

eq_words-eq : (xs ys : List ℕ) → length xs ≡ length ys → eq_words xs ys ≡ true → xs ≡ ys
unfolding eq_words
eq_words-eq [] [] l h = refl
eq_words-eq [] (y ∷ ys) l h = absurd (omega arith)
eq_words-eq (x ∷ xs) [] l h = absurd (omega arith)
eq_words-eq (x ∷ xs) (y ∷ ys) l h =
    let shorter : length xs ≡ length ys = omega arith in ground (arith, eq_words-eq xs ys shorter)

gt_words_same : (xs : List ℕ) (r : Bool) → gt_words xs xs r ≡ r
unfolding gt_words
gt_words_same [] r = refl
gt_words_same (x ∷ xs) r = ground (arith, gt_words_same xs r)

lt_words_same : (xs : List ℕ) (r : Bool) → lt_words xs xs r ≡ r
unfolding lt_words
lt_words_same [] r = refl
lt_words_same (x ∷ xs) r = ground (arith, lt_words_same xs r)

gt_address_cases :
    (a b : InternetAddress)
    → IsWord a
    → IsWord b
    → (eq_address a b ≡ false → gt_address a b ≡ lt_address b a)
      × (eq_address a b ≡ true
          → (gt_address a b ≡ ltb b.port a.port)
            × (lt_address b a ≡ ltb (swap16 b.port) (swap16 a.port)))
unfolding gt_address lt_address eq_address
gt_address_cases a b v w = (
  λ h.
      gt_words-lt_words (words a.host) (words b.host) _ _ (host-AllWords a.host v.host_words)
        (host-AllWords b.host w.host_words) refl h,
  λ h.
      let same = eq_words-eq (words a.host) (words b.host) refl h in
      (
        subst (λ ys. gt_words (words a.host) ys (ltb b.port a.port) ≡ ltb b.port a.port) same
            (gt_words_same (words a.host) _),
        subst
            (λ ys.
              lt_words ys (words a.host) (ltb (swap16 b.port) (swap16 a.port))
              ≡ ltb (swap16 b.port) (swap16 a.port))
            same (lt_words_same (words a.host) _),
      ),
)

-- `a > b` is `b < a` for addresses that differ under `==`; for two that do not, it compares the
-- ports as they lie in memory.
pub gt_address-lt_address :
    (a b : InternetAddress)
    → IsWord a
    → IsWord b
    → gt_address a b ≡ (if eq_address a b then ltb b.port a.port else lt_address b a)
gt_address-lt_address a b v w = elim (Bool-cases (eq_address a b)) [
  | inl h ↦ rw h ((gt_address_cases a b v w).1 h).0
  | inr h ↦ rw h ((gt_address_cases a b v w).0 h)
]
