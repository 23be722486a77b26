-- ===== src/Select/Wrapper.antt =====
-- select_wrapper and ext_select (socketapi/sctpsocketwrapper.cc).
use socketapi.Prelude.{
  ℕ, zero, suc, ◌+◌, Bool, true, false, not, ◌&&◌, ◌||◌, Option, none, some, ◌==◌, ltb,
  if◌then◌else◌,
}
use socketapi.Strings.Decimal.{ℤ, pos, negsuc}
use socketapi.Descriptors.{
  Descriptor, invalid, system, sctp, World, max_sockets, errno_result, failed,
}
use socketapi.Select.{
  FdSet, put_if, is_set, Sets, Woken, SelectData, no_data, collect_loop, is_zero, is_empty, report,
  put_when,
}

-- What the loop over the descriptors makes: the sets and the largest descriptor of the system, which of
-- ours each of them is, and whether a socket is asked for that is not bound yet.
pub record Wrapped : Type 0 where
  pub system_sets : Sets
  pub max_fd : ℕ
  pub reverse_mapping : ℕ → ℕ
  pub fake_write : Bool

abbrev pub no_fds : Option FdSet
no_fds = some (λ i. false)

abbrev pub nothing_wrapped : Wrapped
nothing_wrapped = record {
  system_sets = record { readfds = no_fds; writefds = no_fds; exceptfds = no_fds };
  max_fd = 0;
  reverse_mapping = λ i. 0;
  fake_write = false;
}

-- Both sets with the descriptor `to` in those of the second that have `from` in those of the first.
abbrev pub carry : ℕ → ℕ → Sets → Sets → Sets
carry from to a b = record {
  readfds = put_when (is_set from a.readfds) to b.readfds;
  writefds = put_when (is_set from a.writefds) to b.writefds;
  exceptfds = put_when (is_set from a.exceptfds) to b.exceptfds;
}

unfoldable pub wrap_one : Sets → ℕ → Descriptor → Wrapped → Wrapped
wrap_one s i invalid x = x
wrap_one s i (system fd) x = record {
  system_sets = carry i fd s x.system_sets;
  max_fd = if ltb x.max_fd fd then fd else x.max_fd;
  reverse_mapping = λ k. if k == fd then i else x.reverse_mapping k;
  fake_write = x.fake_write;
}
wrap_one s i (sctp d) x = if d.connection_oriented then x else record x { fake_write = true }

unfoldable pub wrap_loop : Sets → ℕ → ℕ → World → Wrapped → Wrapped
wrap_loop s zero i w x = x
wrap_loop s (suc n) i w x =
    let asked = is_set i s.readfds || is_set i s.writefds || is_set i s.exceptfds in
    wrap_loop s n (i + 1) w (if asked then wrap_one s i (w.sockets i) x else x)

abbrev pub is_unbound : Descriptor → Bool
is_unbound invalid = false
is_unbound (system fd) = false
is_unbound (sctp d) = not d.connection_oriented

-- The loop over writefds: only sockets that are not connection-oriented stay, and each one counts.
unfoldable pub keep_writes : ℕ → ℕ → World → Option FdSet → ℕ → Option FdSet × ℕ
keep_writes zero i w s result = (s, result)
keep_writes (suc n) i w s result =
    let unbound = is_unbound (w.sockets i) in
    keep_writes n (i + 1) w (if is_set i s then put_if unbound i s else s)
      (if is_set i s && unbound then result + 1 else result)

unfoldable pub map_back : ℕ → ℕ → (ℕ → ℕ) → Sets → Sets → Sets
map_back zero i reverse got s = s
map_back (suc n) i reverse got s = map_back n (i + 1) reverse got (carry i (reverse i) got s)

abbrev pub zero_set : Option FdSet → Option FdSet
zero_set none = none
zero_set (some s) = no_fds

-- Behind select. If it fails, the sets are as they were.
unfoldable pub wrapped_end : Wrapped → Sets → World → Sets → ℤ → World × Sets × ℤ
wrapped_end x s v got (negsuc m) = (v, s, negsuc m)
wrapped_end x s v got (pos m) =
    let (writes, result) =
      if x.fake_write then keep_writes max_sockets 0 v s.writefds m else (zero_set s.writefds, m) in
    let cleared : Sets = record {
      readfds = zero_set s.readfds;
      writefds = writes;
      exceptfds = zero_set s.exceptfds;
    } in
    (v, map_back (x.max_fd + 1) 0 x.reverse_mapping got cleared, pos result)

abbrev pub limit_of : ℕ → ℕ
limit_of n = if ltb n max_sockets then n else max_sockets

-- The system's select, with the bound, the sets, and whether the timeout is 0 instead of what the
-- caller gave; it sets errno.
abbrev pub SystemSelect : Type 0
SystemSelect = ℕ → Sets → Bool → World → World × Sets × ℤ

abbrev pub wrapped : ℕ → Sets → World → Wrapped
wrapped n s w = wrap_loop s (limit_of n) 0 w nothing_wrapped

unfoldable pub select_wrapper : SystemSelect → ℕ → Sets → World → World × Sets × ℤ
select_wrapper select n s w =
    let x = wrapped n s w in
    let (v, got, result) = select (x.max_fd + 1) x.system_sets x.fake_write w in
    wrapped_end x s v got result

-- ext_select, with whether the master runs.
unfoldable pub ext_select :
    Bool → SystemSelect → (SelectData → Woken) → ℕ → Sets → World → World × Sets × ℤ
ext_select false select wait n s w = select_wrapper select n s w
ext_select true select wait n s w =
    let (c, v, collected) = collect_loop s (limit_of n) 0 no_data w in
    let result = if is_zero collected && is_empty c then (wait c).slept else collected in
    let (t, changes) = report (wait c) c s in
    let (u, r) = errno_result v (if failed result then result else pos changes) in (u, t, r)
