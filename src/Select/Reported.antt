-- ===== src/Select/Reported.antt =====
-- What the sets hold after ext_select (socketapi/sctpsocketwrapper.cc).
use socketapi.Prelude.{
  ℕ, ◌+◌, ◌≡◌, refl, ap, ap₂, ◌∙◌, Bool, true, false, not, ◌&&◌, ◌||◌, List, [], ◌∷◌, Option, none,
  some, ◌==◌, if◌then◌else◌, arith,
}
use socketapi.Select.{
  FdSet, put_if, is_set, Sets, Events, Kind, uct_read, uct_write, uct_except, Watched, UserNote,
  SelectData, Woken, map_sets, clear_all, condition_fds, callback_fds, put_kind, put_when,
  fire_loop, is_there, callback_loop, report,
}

-- The set of a kind, the events that select reports in it, and the tests on kinds and lists.
abbrev pub set_of : Kind → Sets → Option FdSet
set_of uct_read s = s.readfds
set_of uct_write s = s.writefds
set_of uct_except s = s.exceptfds

abbrev pub wants : Kind → Events → Bool
wants uct_read e = e.poll_in || e.poll_pri
wants uct_write e = e.poll_out
wants uct_except e = e.poll_err

abbrev pub same_kind : Kind → Kind → Bool
same_kind uct_read uct_read = true
same_kind uct_write uct_write = true
same_kind uct_except uct_except = true
same_kind _ _ = false

abbrev pub holds_fd : ℕ → List ℕ → Bool
holds_fd i [] = false
holds_fd i (fd ∷ fds) = i == fd || holds_fd i fds

abbrev pub has_fired : (Watched → Bool) → Kind → ℕ → List Watched → Bool
has_fired fired k i [] = false
has_fired fired k i (x ∷ xs) = fired x && same_kind k x.kind && i == x.fd || has_fired fired k i xs

abbrev pub has_happened : (UserNote → Events) → Kind → ℕ → List UserNote → Bool
has_happened events k i [] = false
has_happened events k i (x ∷ xs) =
    wants k (events x) && i == x.user_fd || has_happened events k i xs

pub put_if-set :
    (b : Bool) (fd i : ℕ) (s : Option FdSet)
    → is_set i (put_if b fd s) ≡ is_there s && (if i == fd then b else is_set i s)
put_if-set b fd i none = refl
put_if-set b fd i (some s) = refl

pub put_if-there : (b : Bool) (fd : ℕ) (s : Option FdSet) → is_there (put_if b fd s) ≡ is_there s
put_if-there b fd none = refl
put_if-there b fd (some s) = refl

pub only_there : (i : ℕ) (s : Option FdSet) → is_there s && is_set i s ≡ is_set i s
only_there i none = refl
only_there i (some s) = refl

clear_all-set :
    (fds : List ℕ) (i : ℕ) (s : Option FdSet)
    → is_set i (clear_all fds s) ≡ not (holds_fd i fds) && is_set i s
clear_all-set [] i s = refl
clear_all-set (fd ∷ fds) i s =
    ground (arith, clear_all-set fds i (put_if false fd s), put_if-set false fd i s, only_there i s)

clear_all-there : (fds : List ℕ) (s : Option FdSet) → is_there (clear_all fds s) ≡ is_there s
clear_all-there [] s = refl
clear_all-there (fd ∷ fds) s = clear_all-there fds (put_if false fd s) ∙ put_if-there false fd s

set_of-map :
    (k : Kind) (f : Option FdSet → Option FdSet) (s : Sets)
    → set_of k (map_sets f s) ≡ f (set_of k s)
set_of-map uct_read f s = refl
set_of-map uct_write f s = refl
set_of-map uct_except f s = refl

put_kind-set :
    (k j : Kind) (fd : ℕ) (s : Sets)
    → set_of k (put_kind j fd s)
      ≡ (if same_kind k j then put_if true fd (set_of k s) else set_of k s)
put_kind-set uct_read uct_read fd s = refl
put_kind-set uct_read uct_write fd s = refl
put_kind-set uct_read uct_except fd s = refl
put_kind-set uct_write uct_read fd s = refl
put_kind-set uct_write uct_write fd s = refl
put_kind-set uct_write uct_except fd s = refl
put_kind-set uct_except uct_read fd s = refl
put_kind-set uct_except uct_write fd s = refl
put_kind-set uct_except uct_except fd s = refl

-- One condition that has fired or not.
put_when_fired :
    (b : Bool) (k j : Kind) (fd i : ℕ) (s : Sets)
    → is_set i (set_of k (if b then put_kind j fd s else s))
      ≡ (is_set i (set_of k s) || is_there (set_of k s) && (b && same_kind k j && i == fd))
put_when_fired true k j fd i s =
    ap (is_set i) (put_kind-set k j fd s)
    ∙ ground (arith, put_if-set true fd i (set_of k s), only_there i (set_of k s))
put_when_fired false k j fd i s = ground arith

there_when_fired :
    (b : Bool) (k j : Kind) (fd : ℕ) (s : Sets)
    → is_there (set_of k (if b then put_kind j fd s else s)) ≡ is_there (set_of k s)
there_when_fired true k j fd s =
    ap is_there (put_kind-set k j fd s) ∙ ground (arith, put_if-there true fd (set_of k s))
there_when_fired false k j fd s = refl

fire_loop-set :
    (fired : Watched → Bool) (xs : List Watched) (k : Kind) (i n : ℕ) (s : Sets)
    → is_set i (set_of k (fire_loop fired xs s n).0)
      ≡ (is_set i (set_of k s) || is_there (set_of k s) && has_fired fired k i xs)
unfolding fire_loop
fire_loop-set fired [] k i n s = ground arith
fire_loop-set fired (x ∷ xs) k i n s =
    let t = if fired x then put_kind x.kind x.fd s else s in
    fire_loop-set fired xs k i (if fired x then n + 1 else n) t
    ∙ ground (
      arith,
      put_when_fired (fired x) k x.kind x.fd i s,
      there_when_fired (fired x) k x.kind x.fd s,
    )

fire_loop-there :
    (fired : Watched → Bool) (xs : List Watched) (k : Kind) (n : ℕ) (s : Sets)
    → is_there (set_of k (fire_loop fired xs s n).0) ≡ is_there (set_of k s)
unfolding fire_loop
fire_loop-there fired [] k n s = refl
fire_loop-there fired (x ∷ xs) k n s =
    fire_loop-there fired xs k (if fired x then n + 1 else n) _
    ∙ there_when_fired (fired x) k x.kind x.fd s

-- One callback: its descriptor in the sets of its events.
abbrev after_events : Events → ℕ → Sets → Sets
after_events e fd s = record {
  readfds = put_when (wants uct_read e) fd s.readfds;
  writefds = put_when (wants uct_write e) fd s.writefds;
  exceptfds = put_when (wants uct_except e) fd s.exceptfds;
}

put_when-set :
    (b : Bool) (fd i : ℕ) (s : Option FdSet)
    → is_set i (put_when b fd s) ≡ (is_set i s || is_there s && (b && i == fd))
put_when-set true fd i s = ground (arith, put_if-set true fd i s, only_there i s)
put_when-set false fd i s = ground arith

put_when-there : (b : Bool) (fd : ℕ) (s : Option FdSet) → is_there (put_when b fd s) ≡ is_there s
put_when-there true fd s = put_if-there true fd s
put_when-there false fd s = refl

after_events-set :
    (e : Events) (k : Kind) (fd i : ℕ) (s : Sets)
    → is_set i (set_of k (after_events e fd s))
      ≡ (is_set i (set_of k s) || is_there (set_of k s) && (wants k e && i == fd))
after_events-set e uct_read fd i s = put_when-set (wants uct_read e) fd i s.readfds
after_events-set e uct_write fd i s = put_when-set (wants uct_write e) fd i s.writefds
after_events-set e uct_except fd i s = put_when-set (wants uct_except e) fd i s.exceptfds

after_events-there :
    (e : Events) (k : Kind) (fd : ℕ) (s : Sets)
    → is_there (set_of k (after_events e fd s)) ≡ is_there (set_of k s)
after_events-there e uct_read fd s = put_when-there (wants uct_read e) fd s.readfds
after_events-there e uct_write fd s = put_when-there (wants uct_write e) fd s.writefds
after_events-there e uct_except fd s = put_when-there (wants uct_except e) fd s.exceptfds

callback_loop-set :
    (events : UserNote → Events) (xs : List UserNote) (k : Kind) (i n : ℕ) (s : Sets)
    → is_set i (set_of k (callback_loop events xs s n).0)
      ≡ (is_set i (set_of k s) || is_there (set_of k s) && has_happened events k i xs)
unfolding callback_loop
callback_loop-set events [] k i n s = ground arith
callback_loop-set events (x ∷ xs) k i n s =
    callback_loop-set events xs k i _ (after_events (events x) x.user_fd s)
    ∙ ground (
      arith,
      after_events-set (events x) k x.user_fd i s,
      after_events-there (events x) k x.user_fd s,
    )

cleared-set :
    (fds : List ℕ) (k : Kind) (i : ℕ) (s : Sets)
    → is_set i (set_of k (map_sets (clear_all fds) s))
      ≡ not (holds_fd i fds) && is_set i (set_of k s)
cleared-set fds k i s =
    ap (is_set i) (set_of-map k (clear_all fds) s) ∙ clear_all-set fds i (set_of k s)

cleared-there :
    (fds : List ℕ) (k : Kind) (s : Sets)
    → is_there (set_of k (map_sets (clear_all fds) s)) ≡ is_there (set_of k s)
cleared-there fds k s =
    ap is_there (set_of-map k (clear_all fds) s) ∙ clear_all-there fds (set_of k s)

happened-held :
    (events : UserNote → Events) (k : Kind) (i : ℕ) (xs : List UserNote)
    → has_happened events k i xs && not (holds_fd i (callback_fds xs)) ≡ false
happened-held events k i [] = refl
happened-held events k i (x ∷ xs) = ground (arith, happened-held events k i xs)

fired-held :
    (fired : Watched → Bool) (k : Kind) (i : ℕ) (xs : List Watched)
    → has_fired fired k i xs && not (holds_fd i (condition_fds xs)) ≡ false
fired-held fired k i [] = refl
fired-held fired k i (x ∷ xs) = ground (arith, fired-held fired k i xs)

-- How clearing for the conditions, setting, clearing for the callbacks and setting act together.
combined :
    (there was held_user happened held fired : Bool)
    → there && was ≡ was
    → happened && not held_user ≡ false
    → fired && not held ≡ false
    → ((not held_user && (not held && was || there && fired)) || there && happened)
      ≡ (there && (if held_user then happened else if held then fired else was))
combined there was held_user happened held fired a b c = ground (arith, a, b, c)

-- Behind the wait of ext_select, a descriptor is in a set that the caller gave where a callback for
-- it has seen an event of the set; or, where no callback is for it, where a condition for it that is
-- of the kind of the set has fired; or, where neither a callback nor a condition is for it, where it
-- was in the set before.
pub report-Reported :
    (e : Woken) (c : SelectData) (s : Sets) (k : Kind) (i : ℕ)
    → is_set i (set_of k (report e c s).0) ≡ (
        is_there (set_of k s)
        && (if holds_fd i (callback_fds c.user_callbacks)
            then has_happened e.events_of k i c.user_callbacks
            else if holds_fd i (condition_fds c.conditions)
            then has_fired e.fired k i c.conditions
            else is_set i (set_of k s)))
unfolding report
report-Reported e c s k i =
    let a = map_sets (clear_all (condition_fds c.conditions)) s in
    let b = (fire_loop e.fired c.conditions a 0).0 in
    let d = map_sets (clear_all (callback_fds c.user_callbacks)) b in
    callback_loop-set e.events_of c.user_callbacks k i _ d
    ∙ ap₂ (λ x y. x || y && has_happened e.events_of k i c.user_callbacks)
        (cleared-set (callback_fds c.user_callbacks) k i b
          ∙ ap (λ x. not (holds_fd i (callback_fds c.user_callbacks)) && x)
              (fire_loop-set e.fired c.conditions k i 0 a
                ∙ ap₂ (λ x y. x || y && has_fired e.fired k i c.conditions)
                    (cleared-set (condition_fds c.conditions) k i s)
                    (cleared-there (condition_fds c.conditions) k s)))
        (cleared-there (callback_fds c.user_callbacks) k b
          ∙ fire_loop-there e.fired c.conditions k 0 a
          ∙ cleared-there (condition_fds c.conditions) k s)
    ∙ combined _ _ _ _ _ _ (only_there i (set_of k s))
        (happened-held e.events_of k i c.user_callbacks) (fired-held e.fired k i c.conditions)
