-- ===== src/Strings/Search.antt =====
-- What index and rindex find (socketapi/tdstrings.icc).
use socketapi.Prelude.{
  ℕ, zero, suc, ◌+◌, ◌≤◌, ◌<◌, ◌≡◌, ◌≢◌, refl, sym, ap, none, some, inl, inr, [], ◌∷◌, ◌++◌, arith,
  Bytes, Lacks, Bool-cases, ◌==◌, length, get_or, length-append,
}
use socketapi.Strings.{index_from, index, rindex_from, rindex}

index_from-found :
    (p rest : Bytes) (c k : ℕ) → Lacks c p → index_from (p ++ c ∷ rest) c k ≡ some (k + length p)
unfolding index_from
index_from-found [] rest c k h = ground arith
index_from-found (x ∷ p) rest c k h = ground (arith, index_from-found p rest c (k + 1) h.1)

index_from-missing : (s : Bytes) (c k : ℕ) → c ≢ 0 → Lacks c s → index_from s c k ≡ none
unfolding index_from
index_from-missing [] c k nz h = ground arith
index_from-missing (x ∷ s) c k nz h = ground (arith, index_from-missing s c (k + 1) nz h.1)

pub index_parts :
    (c : ℕ)
    → c ≢ 0
    → ((p rest : Bytes) → Lacks c p → index (some (p ++ c ∷ rest)) c ≡ some (length p))
      × ((s : Bytes) → Lacks c s → index (some s) c ≡ none)
unfolding index
index_parts c nz = (
  λ p rest h. ground (arith, index_from-found p rest c 0 h),
  λ s h. index_from-missing s c 0 nz h,
)

module _ (s : Bytes) (c : ℕ) where
  rindex_from-found :
      (i q : ℕ)
      → get_or s i 0 ≡ c
      → ((j : ℕ) → i < j → get_or s j 0 ≢ c)
      → i ≤ q
      → rindex_from s c q ≡ some i
  unfolding rindex_from
  rindex_from-found i zero e miss h = let z : i ≡ 0 = omega arith in ground arith
  rindex_from-found i (suc q) e miss h = elim (Bool-cases (i == suc q)) [
    | inl same ↦ let z : i ≡ suc q = ground arith in ground (arith, ap (λ k. get_or s k 0) z)
    | inr other ↦
        ground (arith, miss (suc q) (ground arith), rindex_from-found i q e miss (ground arith))
  ]

  rindex_from-missing : (q : ℕ) → ((j : ℕ) → get_or s j 0 ≢ c) → rindex_from s c q ≡ none
  unfolding rindex_from
  rindex_from-missing zero miss = ground (arith, miss 0)
  rindex_from-missing (suc q) miss = ground (arith, miss (suc q), rindex_from-missing q miss)

module _ (c : ℕ) (nz : c ≢ 0) where
  get_or-Lacks : (s : Bytes) (j : ℕ) → Lacks c s → get_or s j 0 ≢ c
  get_or-Lacks [] j h e = nz (sym e)
  get_or-Lacks (x ∷ s) zero h e = h.0 e
  get_or-Lacks (x ∷ s) (suc j) h e = get_or-Lacks s j h.1 e

  get_or-behind :
      (p rest : Bytes) (j : ℕ) → Lacks c rest → length p < j → get_or (p ++ c ∷ rest) j 0 ≢ c
  get_or-behind p rest zero h lt = absurd (omega arith)
  get_or-behind [] rest (suc j) h lt = get_or-Lacks rest j h
  get_or-behind (x ∷ p) rest (suc j) h lt = get_or-behind p rest j h (omega arith)

pub get_or-length : (p rest : Bytes) (c : ℕ) → get_or (p ++ c ∷ rest) (length p) 0 ≡ c
get_or-length [] rest c = refl
get_or-length (x ∷ p) rest c = get_or-length p rest c

pub rindex_parts :
    (c : ℕ)
    → c ≢ 0
    → ((p rest : Bytes) → Lacks c rest → rindex (some (p ++ c ∷ rest)) c ≡ some (length p))
      × ((s : Bytes) → Lacks c s → rindex (some s) c ≡ none)
unfolding rindex
rindex_parts c nz = (
  λ p rest h.
      rindex_from-found (p ++ c ∷ rest) c (length p) (length (p ++ c ∷ rest))
        (get_or-length p rest c) (λ j lt. get_or-behind c nz p rest j h lt)
        (omega (arith, length-append p (c ∷ rest))),
  λ s h. rindex_from-missing s c (length s) (λ j. get_or-Lacks c nz s j h),
)

-- index finds the byte `c`, which is not NUL, behind a part without it, at the length of that part,
-- and answers -1 for that part alone.
pub index-first :
    (p rest : Bytes) (c : ℕ)
    → c ≢ 0
    → Lacks c p
    → (index (some (p ++ c ∷ rest)) c ≡ some (length p)) × (index (some p) c ≡ none)
index-first p rest c nz h = ((index_parts c nz).0 p rest h, (index_parts c nz).1 p h)

-- rindex finds the byte `c`, which is not NUL, in front of a part without it, at the length of what
-- stands before, and answers -1 for that part alone.
pub rindex-last :
    (p rest : Bytes) (c : ℕ)
    → c ≢ 0
    → Lacks c rest
    → (rindex (some (p ++ c ∷ rest)) c ≡ some (length p)) × (rindex (some rest) c ≡ none)
rindex-last p rest c nz h = ((rindex_parts c nz).0 p rest h, (rindex_parts c nz).1 rest h)
