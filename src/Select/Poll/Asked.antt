-- ===== src/Select/Poll/Asked.antt =====
-- What ext_poll asks of ext_select, and what it tells of the entries that it cannot ask for
-- (socketapi/sctpsocketwrapper.cc).
use socketapi.Prelude.{
  ℕ, ◌+◌, ◌<◌, ◌≤◌, ◌≡◌, refl, sym, ◌∙◌, ◌⊎◌, inl, inr, Bool, true, false, ◌&&◌, ◌||◌, List, [],
  ◌∷◌, map, Option, none, some, ◌==◌, ltb, if◌then◌else◌, Bool-cases, Option-cases, arith,
}
use socketapi.Strings.Decimal.{ℤ}
use socketapi.Descriptors.{World, failed, World, failed}
use socketapi.Select.{is_set, Sets, Kind, uct_read, uct_write, uct_except, is_there}
use socketapi.Select.Reported.{set_of, put_if-set, put_if-there, only_there}
use socketapi.Select.Poll.{
  PollFd, Prepared, answer, ask, ask_entry, clear_revents, ext_poll, fd_of, in_range, nothing_asked,
  prepare, timeout_of,
}

-- What an entry asks of a descriptor in the set of a kind.
abbrev pub asks_fd : Kind → ℕ → PollFd → Option ℕ → Bool
asks_fd k i x none = false
asks_fd uct_read i x (some fd) = x.asks_in && i == fd
asks_fd uct_write i x (some fd) = x.asks_out && i == fd
asks_fd uct_except i x (some fd) = i == fd

abbrev pub is_asked_by : Kind → ℕ → List PollFd → Bool
is_asked_by k i [] = false
is_asked_by k i (x ∷ xs) = asks_fd k i x (fd_of x) || is_asked_by k i xs

-- Sets that are there and only have descriptors up to the largest one.
abbrev pub Bounded : Kind → ℕ → Prepared → Type 0
Bounded k i p =
    (is_there (set_of k p.asked) ≡ true) × ((is_set i (set_of k p.asked) ≡ false) ⊎ (i ≤ p.largest))

ask_entry-set :
    (k : Kind) (i : ℕ) (x : PollFd) (o : Option ℕ) (p : Prepared)
    → is_there (set_of k p.asked) ≡ true
    → is_set i (set_of k (ask_entry x o p).asked) ≡ (is_set i (set_of k p.asked) || asks_fd k i x o)
unfolding ask
ask_entry-set k i x none p h = ground arith
ask_entry-set uct_read i x (some fd) p h =
    ground (arith, h, put_if-set true fd i p.asked.readfds, only_there i p.asked.readfds)
ask_entry-set uct_write i x (some fd) p h =
    ground (arith, h, put_if-set true fd i p.asked.writefds, only_there i p.asked.writefds)
ask_entry-set uct_except i x (some fd) p h =
    ground (arith, h, put_if-set true fd i p.asked.exceptfds, only_there i p.asked.exceptfds)

ask_entry-there :
    (k : Kind) (x : PollFd) (o : Option ℕ) (p : Prepared)
    → is_there (set_of k p.asked) ≡ true
    → is_there (set_of k (ask_entry x o p).asked) ≡ true
unfolding ask
ask_entry-there k x none p h = h
ask_entry-there uct_read x (some fd) p h = ground (arith, h, put_if-there true fd p.asked.readfds)
ask_entry-there uct_write x (some fd) p h = ground (arith, h, put_if-there true fd p.asked.writefds)
ask_entry-there uct_except x (some fd) p h =
    ground (arith, h, put_if-there true fd p.asked.exceptfds)

bound_of : (b : Bool) (i fd n : ℕ) → ((b && i == fd) ≡ false) ⊎ (i ≤ (if ltb n fd then fd else n))
bound_of b i fd n = elim (Bool-cases (i == fd)) [
  | inl e ↦ inr (ground (arith, e))
  | inr e ↦ inl (ground (arith, e))
]

-- The bound grows, and holds what is asked.
ask_entry-largest :
    (k : Kind) (i : ℕ) (x : PollFd) (o : Option ℕ) (p : Prepared)
    → (p.largest ≤ (ask_entry x o p).largest)
      × ((asks_fd k i x o ≡ false) ⊎ (i ≤ (ask_entry x o p).largest))
unfolding ask
ask_entry-largest k i x none p = (omega arith, inl refl)
ask_entry-largest uct_read i x (some fd) p = (ground arith, bound_of x.asks_in i fd p.largest)
ask_entry-largest uct_write i x (some fd) p = (ground arith, bound_of x.asks_out i fd p.largest)
ask_entry-largest uct_except i x (some fd) p = (ground arith, bound_of true i fd p.largest)

prepare-Bounded :
    (k : Kind) (i : ℕ) (xs : List PollFd) (p : Prepared)
    → Bounded k i p
    → Bounded k i (prepare xs p)
unfolding prepare
prepare-Bounded k i [] p h = h
prepare-Bounded k i (x ∷ xs) p (there, low) =
    let o = fd_of x in
    let (grows, asks) = ask_entry-largest k i x o p in
    prepare-Bounded k i xs (ask_entry x o p)
      (ask_entry-there k x o p there, later asks low (ask_entry-set k i x o p there) grows)
  where
    later :
        {b c d : Bool} {n m : ℕ}
        → ((b ≡ false) ⊎ (i ≤ m))
        → ((c ≡ false) ⊎ (i ≤ n))
        → d ≡ (c || b)
        → n ≤ m
        → (d ≡ false) ⊎ (i ≤ m)
    later (inr h) l e g = inr h
    later (inl h) (inr l) e g = inr (omega arith)
    later (inl h) (inl l) e g = inl (ground (arith, h, l, e))

prepare-set :
    (k : Kind) (i : ℕ) (xs : List PollFd) (p : Prepared)
    → is_there (set_of k p.asked) ≡ true
    → is_set i (set_of k (prepare xs p).asked) ≡ (is_set i (set_of k p.asked) || is_asked_by k i xs)
unfolding prepare
prepare-set k i [] p h = ground arith
prepare-set k i (x ∷ xs) p h =
    prepare-set k i xs (ask_entry x (fd_of x) p) (ask_entry-there k x (fd_of x) p h)
    ∙ ground (arith, ask_entry-set k i x (fd_of x) p h)

nothing-there : (k : Kind) → is_there (set_of k nothing_asked.asked) ≡ true
nothing-there uct_read = refl
nothing-there uct_write = refl
nothing-there uct_except = refl

nothing-set : (k : Kind) (i : ℕ) → is_set i (set_of k nothing_asked.asked) ≡ false
nothing-set uct_read i = refl
nothing-set uct_write i = refl
nothing-set uct_except i = refl

-- The sets have exactly the descriptors that the entries ask for, and all of these are below `n`.
abbrev pub Asks : List PollFd → ℕ → Sets → Type 0
Asks xs n s =
    (k : Kind) (i : ℕ)
    → (is_set i (set_of k s) ≡ is_asked_by k i xs) × ((is_asked_by k i xs ≡ false) ⊎ (i < n))

prepare-Asks :
    (xs : List PollFd)
    → Asks xs ((prepare xs nothing_asked).largest + 1) (prepare xs nothing_asked).asked
prepare-Asks xs k i =
    let exact : is_set i (set_of k (prepare xs nothing_asked).asked) ≡ is_asked_by k i xs =
      prepare-set k i xs nothing_asked (nothing-there k) ∙ ground (arith, nothing-set k i) in
    let (there, low) =
      prepare-Bounded k i xs nothing_asked (nothing-there k, inl (nothing-set k i)) in
    (exact, elim low [ inl e ↦ inl (sym exact ∙ e) | inr h ↦ inr (omega arith) ])

-- Where an entry of ext_poll has a descriptor that select can take, ext_poll calls ext_select once, with
-- sets that have exactly the descriptors that the entries ask for, and a bound that all of these are
-- below, and the timeout in microseconds; what ext_select leaves is what ext_poll leaves, and its result
-- is returned if it is negative.
pub ext_poll-Asked :
    (xs : List PollFd) (time : ℤ) (w : World)
    → ((prepare xs nothing_asked).fdcount == 0) ≡ false
    → (n : ℕ) × (s : Sets) × Asks xs n s
      × ((select : ℕ → Sets → Option (ℕ × ℕ) → World → World × Sets × ℤ)
          → ((ext_poll select xs time w).0 ≡ (select n s (timeout_of time) w).0)
            × ((failed (select n s (timeout_of time) w).2 ≡ false)
                ⊎ ((ext_poll select xs time w).2 ≡ (select n s (timeout_of time) w).2)))
unfolding ext_poll
ext_poll-Asked xs time w some_there =
    let p = prepare xs nothing_asked in
    (
      p.largest + 1,
      p.asked,
      prepare-Asks xs,
      λ select.
          let r = (select (p.largest + 1) p.asked (timeout_of time) w).2 in
          elim (Bool-cases (failed r)) [
            | inl e ↦ rw (some_there, e) (refl, inr refl)
            | inr e ↦ rw (some_there, e) (refl, inl refl)
          ],
    )

-- The entries, with those out of range among them, behind the call.
abbrev pub Unreported : List PollFd → List PollFd → Type 0
Unreported [] [] = Unit
Unreported [] (y ∷ ys) = ⊥
Unreported (x ∷ xs) [] = ⊥
Unreported (x ∷ xs) (y ∷ ys) = ((in_range (fd_of x) ≡ true) ⊎ (y.revents ≡ 0)) × Unreported xs ys

cleared-Unreported : (xs : List PollFd) → Unreported xs (map clear_revents xs)
cleared-Unreported [] = tt
cleared-Unreported (x ∷ xs) = (inr refl, cleared-Unreported xs)

answered-Unreported :
    (s : Sets) (xs : List PollFd) → Unreported xs (map (answer s) (map clear_revents xs))
answered-Unreported s [] = tt
answered-Unreported s (x ∷ xs) = (
  (elim (Option-cases (fd_of x)) [ inl e ↦ inr (rw e refl) | inr (fd, e) ↦ inl (rw e refl) ]),
  answered-Unreported s xs,
)

-- As soon as one entry of ext_poll has a descriptor that select can take, every entry with one that
-- it cannot take is left with no events at all, and not with POLLNVAL.
pub ext_poll-Unreported :
    (select : ℕ → Sets → Option (ℕ × ℕ) → World → World × Sets × ℤ) (xs : List PollFd) (time : ℤ)
    (w : World)
    → ((prepare xs nothing_asked).fdcount == 0) ≡ false
    → Unreported xs (ext_poll select xs time w).1
unfolding ext_poll
ext_poll-Unreported select xs time w some_there =
    let p = prepare xs nothing_asked in
    let (v, s, r) = select (p.largest + 1) p.asked (timeout_of time) w in
    elim (Bool-cases (failed r)) [
      | inl e ↦ rw (some_there, e) (cleared-Unreported xs)
      | inr e ↦ rw (some_there, e) (answered-Unreported s xs)
    ]
