-- ===== src/Association/Timeouts.antt =====
-- setDefaultStreamTimeouts and getDefaultStreamTimeout (socketapi/sctpassociation.cc) together.
use socketapi.Prelude.{
  ℕ, zero, suc, ◌+◌, ◌-◌, ◌<◌, ◌≤◌, ◌≡◌, refl, ap, ◌⊎◌, ◌∙◌, true, false, ◌&&◌, ◌||◌, Option, none,
  some, ◌==◌, ltb, leb, if◌then◌else◌, arith, Bool-cases, inl, inr,
}
use socketapi.Association.{
  StreamTimeout, Association, update_loop, copy_loop, fill_loop, set_timeouts, get_timeout,
}

-- The loop changes the elements in its range and leaves the others.
update_loop-at :
    (f : ℕ → StreamTimeout → StreamTimeout) (n i : ℕ) (t : ℕ → StreamTimeout) (j : ℕ)
    → update_loop f n i t j ≡ (if leb i j && ltb j (i + n) then f j (t j) else t j)
unfolding update_loop
update_loop-at f zero i t j = ground arith
update_loop-at f (suc n) i t j =
    update_loop-at f n (i + 1) (λ k. if k == i then f i (t i) else t k) j
    ∙ one_more (Bool-cases (j == i))
  where
    one_more :
        ((j == i) ≡ true) ⊎ ((j == i) ≡ false)
        → (if leb (i + 1) j && ltb j (i + 1 + n)
            then f j (if j == i then f i (t i) else t j)
            else (if j == i then f i (t i) else t j))
          ≡ (if leb i j && ltb j (i + suc n) then f j (t j) else t j)
    one_more (inl e) = let same : j ≡ i = ground arith in rw (same) (ground arith)
    one_more (inr e) = ground arith

filled-at :
    (timeout start end : ℕ) (t : ℕ → StreamTimeout) (s : ℕ)
    → start ≤ end
    → fill_loop timeout start end t s
      ≡ (if leb start s && leb s end then record { valid = true; timeout = timeout } else t s)
filled-at timeout start end t s h = update_loop-at _ (end + 1 - start) start t s ∙ ground arith

copied-at :
    (a : Association) (fresh : ℕ → StreamTimeout) (s : ℕ)
    → (a.has_array || a.timeout_count == 0) ≡ true
    → s < a.timeout_count
    → copy_loop a fresh s ≡ a.timeouts s
copied-at a fresh s k lt =
    let there : a.has_array ≡ true = ground arith in
    let inside : (leb 0 s && ltb s (0 + (a.timeout_count + 1))) ≡ true = ground arith in
    rw there (update_loop-at _ (a.timeout_count + 1) 0 fresh s ∙ rw inside refl)

-- The new array in front of the streams that are set: the old elements, then invalid ones.
grown-at :
    (a : Association) (fresh : ℕ → StreamTimeout) (timeout start end s : ℕ)
    → start ≤ end
    → leb start s && leb s end ≡ false
    → fill_loop timeout start end
        (update_loop
          (λ i x. record x { valid = false })
          (start - a.timeout_count)
          a.timeout_count
          (copy_loop a fresh))
        s
      ≡ (if leb a.timeout_count s && ltb s (a.timeout_count + (start - a.timeout_count))
          then record (copy_loop a fresh s) { valid = false }
          else copy_loop a fresh s)
grown-at a fresh timeout start end s h out =
    filled-at timeout start end _ s h
    ∙ rw out (update_loop-at _ (start - a.timeout_count) a.timeout_count (copy_loop a fresh) s)

-- An element of an array with a count.
element : ℕ → ℕ → StreamTimeout → Option ℕ
element s count x = if ltb s count && x.valid then some x.timeout else none

get_timeout-element :
    (s : ℕ) (a : Association) → get_timeout s a ≡ element s a.timeout_count (a.timeouts s)
unfolding get_timeout element
get_timeout-element s a = refl

set_in_range :
    (a : Association) (fresh : ℕ → StreamTimeout) (timeout start end s : ℕ)
    → start ≤ end
    → leb (end + 1) a.timeout_count ≡ true
    → get_timeout s (set_timeouts fresh timeout start end a).0
      ≡ (if leb start s && leb s end then some timeout else get_timeout s a)
unfolding set_timeouts get_timeout
set_in_range a fresh timeout start end s h fits =
    let order : ltb end start ≡ false = ground arith in
    rw (order, fits)
      (ap (λ x. if ltb s a.timeout_count && x.valid then some x.timeout else none)
          (filled-at timeout start end a.timeouts s h)
        ∙ ground arith)

set_grown :
    (a : Association) (fresh : ℕ → StreamTimeout) (timeout start end s : ℕ)
    → start ≤ end
    → (a.has_array || a.timeout_count == 0) ≡ true
    → leb (end + 1) a.timeout_count ≡ false
    → get_timeout s (set_timeouts fresh timeout start end a).0
      ≡ (if leb start s && leb s end then some timeout else get_timeout s a)
unfolding set_timeouts get_timeout
set_grown a fresh timeout start end s h k grows =
    let order : ltb end start ≡ false = ground arith in
    rw (order, grows)
      (elim (Bool-cases (leb start s && leb s end)) [
        | inl r ↦
            ap (λ x. if ltb s (end + 1) && x.valid then some x.timeout else none)
              (filled-at timeout start end _ s h)
            ∙ ground arith
        | inr o ↦
            ap (λ x. if ltb s (end + 1) && x.valid then some x.timeout else none)
              (grown-at a fresh timeout start end s h o)
            ∙ ground (arith, copied-at a fresh s k)
      ])

-- Once the timeout of the streams from `start` to `end` is set, it is theirs; every other stream has
-- the timeout it had, or none. What the copy reads behind the old array does not matter.
pub get_timeout-set :
    (fresh : ℕ → StreamTimeout) (timeout start end s : ℕ) (a : Association)
    → start ≤ end
    → (a.has_array || a.timeout_count == 0) ≡ true
    → get_timeout s (set_timeouts fresh timeout start end a).0
      ≡ (if leb start s && leb s end then some timeout else get_timeout s a)
get_timeout-set fresh timeout start end s a h k =
    elim (Bool-cases (leb (end + 1) a.timeout_count)) [
      | inl e ↦ set_in_range a fresh timeout start end s h e
      | inr e ↦ set_grown a fresh timeout start end s h k e
    ]
