-- ===== src/Select/Poll.antt =====
-- ext_poll (socketapi/sctpsocketwrapper.cc), which asks ext_select; that is an argument here.
pub mod Asked
use socketapi.Prelude.{
  ℕ, ◌+◌, ◌*◌, ◌/◌, ◌%◌, ◌<◌, ◌≤◌, ◌≡◌, refl, sym, ◌∙◌, ◌⊎◌, inl, inr, Bool, true, false, not, ◌&&◌,
  ◌||◌, List, [], ◌∷◌, map, Option, none, some, ◌==◌, ltb, if◌then◌else◌, Bool-cases, Option-cases,
  arith,
}
use socketapi.Strings.Decimal.{ℤ, pos, negsuc}
use socketapi.Descriptors.{World, max_sockets, failed}
use socketapi.Select.{FdSet, put_if, is_set, Sets, Kind, uct_read, uct_write, uct_except, is_there}
use socketapi.Select.Reported.{set_of, put_if-set, put_if-there, only_there}

-- pollfd: whether POLLIN and POLLOUT are among the events, and the bits of revents.
pub record PollFd : Type 0 where
  pub poll_fd : ℤ
  pub asks_in : Bool
  pub asks_out : Bool
  pub revents : ℕ

-- The descriptor, if select can take it.
abbrev pub fd_of : PollFd → Option ℕ
fd_of x = elim (x.poll_fd) [ pos n ↦ if ltb n max_sockets then some n else none | negsuc n ↦ none ]

-- What the first loop makes: the sets, the largest descriptor and the number of entries in range.
pub record Prepared : Type 0 where
  pub asked : Sets
  pub largest : ℕ
  pub fdcount : ℕ

abbrev pub empty_set : Option FdSet
empty_set = some (λ i. false)

abbrev pub nothing_asked : Prepared
nothing_asked = record {
  asked = record { readfds = empty_set; writefds = empty_set; exceptfds = empty_set };
  largest = 0;
  fdcount = 0;
}

abbrev pub put_asked : Bool → ℕ → Option FdSet → Option FdSet
put_asked b fd s = if b then put_if true fd s else s

unfoldable pub ask : PollFd → ℕ → Prepared → Prepared
ask x fd p = record {
  asked = record {
    readfds = put_asked x.asks_in fd p.asked.readfds;
    writefds = put_asked x.asks_out fd p.asked.writefds;
    exceptfds = put_if true fd p.asked.exceptfds;
  };
  largest = if ltb p.largest fd then fd else p.largest;
  fdcount = p.fdcount + 1;
}

abbrev pub ask_entry : PollFd → Option ℕ → Prepared → Prepared
ask_entry x none p = p
ask_entry x (some fd) p = ask x fd p

unfoldable pub prepare : List PollFd → Prepared → Prepared
prepare [] p = p
prepare (x ∷ xs) p = prepare xs (ask_entry x (fd_of x) p)

-- POLLNVAL is 32, POLLIN 1, POLLOUT 4 and POLLERR 8.
abbrev pub mark_invalid : PollFd → PollFd
mark_invalid x = elim (fd_of x) [ none ↦ record x { revents = 32 } | some fd ↦ x ]

abbrev pub clear_revents : PollFd → PollFd
clear_revents x = record x { revents = 0 }

abbrev pub event_bit : Bool → ℕ → ℕ
event_bit b n = if b then n else 0

-- The events of an entry behind select.
abbrev pub answer_of : Sets → PollFd → Option ℕ → PollFd
answer_of s x none = x
answer_of s x (some fd) = record x {
  revents =
      event_bit (is_set fd s.readfds && x.asks_in) 1
      + event_bit (is_set fd s.writefds && x.asks_out) 4
      + event_bit (is_set fd s.exceptfds) 8;
}

abbrev pub answer : Sets → PollFd → PollFd
answer s x = answer_of s x (fd_of x)

abbrev pub in_range : Option ℕ → Bool
in_range none = false
in_range (some fd) = true

unfoldable pub count_changed : List PollFd → ℕ
count_changed [] = 0
count_changed (x ∷ xs) =
    let rest = count_changed xs in
    if in_range (fd_of x) && not (x.revents == 0) then rest + 1 else rest

-- The timeout in seconds and microseconds; `none` for a negative number of milliseconds.
abbrev pub timeout_of : ℤ → Option (ℕ × ℕ)
timeout_of (pos n) = some (n / 1000, n % 1000 * 1000)
timeout_of (negsuc n) = none

unfoldable pub ext_poll :
    (ℕ → Sets → Option (ℕ × ℕ) → World → World × Sets × ℤ)
    → List PollFd
    → ℤ
    → World
    → World × List PollFd × ℤ
ext_poll select fdlist time w =
    let p = prepare fdlist nothing_asked in
    let (v, s, r) = select (p.largest + 1) p.asked (timeout_of time) w in
    let cleared = map clear_revents fdlist in
    let answered = map (answer s) cleared in
    if p.fdcount == 0
    then (w, map mark_invalid fdlist, pos 0)
    else if failed r
    then (v, cleared, r)
    else (v, answered, pos (count_changed answered))
