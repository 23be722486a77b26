-- ===== src/Descriptors/Pipe.antt =====
-- What ext_close takes back of ext_open, and what ext_pipe leaves behind.
use socketapi.Prelude.{
  ℕ, ◌<◌, ◌≡◌, ◌≢◌, refl, sym, ap, ◌∙◌, ◌⊎◌, inl, inr, true, some, [], ◌∷◌, ◌++◌, ◌==◌, ==-ne,
  Bool-cases, arith, lt→ltb,
}
use socketapi.Strings.Decimal.{ℤ, pos, negsuc, neg}
use socketapi.Descriptors.{
  Table, Descriptor, invalid, system, sctp, is_invalid, set_slot, World, max_sockets, close_fd,
  ext_open, errno_result, get_socket,
}
use socketapi.Descriptors.Slots.{set_socket-cases}
use socketapi.Descriptors.Open.{ext_open-Outcome}
use socketapi.Descriptors.Closing.{close_slot, ext_close, pipe_second, ext_pipe}

set_slot-same : (t : Table) (i : ℕ) (d : Descriptor) → set_slot t i d i ≡ d
unfolding set_slot
set_slot-same t i d = ground arith

set_slot-other : (t : Table) (i j : ℕ) (d : Descriptor) → j ≢ i → set_slot t i d j ≡ t j
unfolding set_slot
set_slot-other t i j d ne = rw (==-ne j i ne) refl

is_invalid-eq : (d : Descriptor) → is_invalid d ≡ true → d ≡ invalid
unfolding is_invalid
is_invalid-eq invalid e = refl
is_invalid-eq (system fd) e = absurd (ground arith)
is_invalid-eq (sctp d) e = absurd (ground arith)

-- A slot that was free is free again once what was put there is taken out.
set_slot-back :
    (t : Table) (i j : ℕ) (d : Descriptor)
    → is_invalid (t i) ≡ true
    → set_slot (set_slot t i d) i invalid j ≡ t j
set_slot-back t i j d free = elim (Bool-cases (j == i)) [
  | inl e ↦
      let same : j ≡ i = ground arith in
      rw same (set_slot-same (set_slot t i d) i invalid ∙ sym (is_invalid-eq (t i) free))
  | inr e ↦
      let other : j ≢ i = λ same. ground arith in
      set_slot-other (set_slot t i d) i j invalid other ∙ set_slot-other t i j d other
]

abbrev stored : World → ℕ → Descriptor → World
stored w i d = record w { sockets = set_slot w.sockets i d }

ext_close-stored :
    (w : World) (i fd : ℕ)
    → i < max_sockets
    → ext_close (pos i) (stored w i (system fd)) ≡ (
      record w {
        sockets = set_slot (set_slot w.sockets i (system fd)) i invalid;
        effects = w.effects ++ close_fd fd ∷ [];
      },
      pos 0,
    )
unfolding ext_close close_slot get_socket is_invalid
ext_close-stored w i fd lt =
    let inside = lt→ltb i max_sockets lt in
    rw (inside, ext_close, close_slot, set_slot-same w.sockets i (system fd)) refl

-- ext_close of what ext_open returned succeeds, closes the file descriptor and nothing else, and
-- leaves every slot `j` as it was before ext_open.
pub ext_close-ext_open :
    (dtable fd i j : ℕ) (w v : World)
    → ext_open dtable (pos fd) w ≡ (v, pos i)
    → let (u, r) = ext_close (pos i) v in
      (r ≡ pos 0) × (u.effects ≡ w.effects ++ close_fd fd ∷ []) × (u.sockets j ≡ w.sockets j)
ext_close-ext_open dtable fd i j w v e = elim ((ext_open-Outcome dtable fd w).0) [
  | inl (k, lt, free, ev, er) ↦
      let at : i ≡ k = ground (arith, er, ap (λ p. p.1) e) in
      let left : v ≡ stored w k (system fd) = sym (ap (λ p. p.0) e) ∙ ev in
      rw (at, left, ext_close-stored w k fd lt)
        (refl, refl, set_slot-back w.sockets k j (system fd) free)
  | inr f ↦ absurd (ground (arith, ap (λ p. p.1) (sym e ∙ f)))
]

-- Both ends of the pipe are in the table, in two slots, and nothing is closed.
abbrev pub PipeStored : World → ℕ → ℕ → World × ℤ × ℤ × ℤ → Type 0
PipeStored w a b (v, r, x, y) =
    (r ≡ pos 0)
    × ((i : ℕ) × (k : ℕ) × (x ≡ pos i)
        × (y ≡ pos k)
        × (i ≢ k)
        × (v.sockets i ≡ system a)
        × (v.sockets k ≡ system b)
        × (v.effects ≡ w.effects))

-- Both ends of the pipe are closed, and the slot `j` is as before.
abbrev pub PipeClosed : World → ℕ → ℕ → ℕ → World × ℤ × ℤ × ℤ → Type 0
PipeClosed w a b j (v, r, x, y) =
    (r ≡ negsuc 0)
    × (v.errno ≡ 24)
    × (v.effects ≡ (w.effects ++ close_fd a ∷ []) ++ close_fd b ∷ [])
    × (v.sockets j ≡ w.sockets j)

second_slot :
    (w : World) (a i k : ℕ) → is_invalid ((stored w i (system a)).sockets k) ≡ true → i ≢ k
unfolding is_invalid
second_slot w a i k free same =
    let at =
      ap is_invalid
        (ap (set_slot w.sockets i (system a)) (sym same) ∙ set_slot-same w.sockets i (system a)) in
    ground (arith, sym free ∙ at)

pipe_second-Outcome :
    (dtable a b i j : ℕ) (w : World)
    → i < max_sockets
    → is_invalid (w.sockets i) ≡ true
    → let p = pipe_second dtable (pos i) b (stored w i (system a)) in
      PipeStored w a b p ⊎ PipeClosed w a b j p
unfolding pipe_second errno_result neg
pipe_second-Outcome dtable a b i j w lt free =
    let v : World = stored w i (system a) in
    elim (set_socket-cases dtable (system b) v) [
      | inl e ↦
          rw (e, pipe_second, ext_close-stored w i a lt)
            (inr (refl, refl, refl, set_slot-back w.sockets i j (system a) free))
      | inr (k, k_lt, k_free, e) ↦
          let apart : i ≢ k = second_slot w a i k k_free in
          let kept =
            set_slot-other v.sockets k i (system b) apart ∙ set_slot-same w.sockets i (system a) in
          let new = set_slot-same v.sockets k (system b) in
          rw (e, pipe_second) (inl (refl, (i, k, refl, refl, apart, kept, new, refl)))
    ]

-- Where pipe made a pipe, ext_pipe succeeds with both ends of it in the table; or it fails with
-- EMFILE, both ends are closed, and every slot `j` is as before.
pub ext_pipe-Outcome :
    (dtable a b j : ℕ) (f0 f1 : ℤ) (w : World)
    → PipeStored w a b (ext_pipe dtable (some (a, b)) f0 f1 w)
      ⊎ PipeClosed w a b j (ext_pipe dtable (some (a, b)) f0 f1 w)
unfolding ext_pipe errno_result neg
ext_pipe-Outcome dtable a b j f0 f1 w = elim (set_socket-cases dtable (system a) w) [
  | inl e ↦ rw (e, ext_pipe) (inr (refl, refl, refl, refl))
  | inr (i, lt, free, e) ↦ rw (e, ext_pipe) (pipe_second-Outcome dtable a b i j w lt free)
]
