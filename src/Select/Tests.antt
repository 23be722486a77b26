-- ===== src/Select/Tests.antt =====
-- The theorems on ext_select and ext_poll at a few descriptors.
use socketapi.Prelude.{
  ltb, leb, if◌then◌else◌, ℕ, ◌≡◌, refl, ◌⊎◌, true, false, ◌==◌, List, [], ◌∷◌, Option, none, some,
}
use socketapi.Strings.Decimal.{ℤ, pos, negsuc}
use socketapi.Descriptors.{SctpDesc, invalid, system, sctp, failed, World, new_desc}
use socketapi.Select.{
  FdSet, is_set, Sets, uct_read, of_association, SelectData, Woken, no_data, report,
}
use socketapi.Select.Reported.{set_of, report-Reported}
use socketapi.Select.Wrapper.{SystemSelect, wrapped_end, ext_select, select_wrapper}
use socketapi.Select.Poll.{PollFd, prepare, ask, ext_poll}
use socketapi.Select.Poll.Asked.{Unreported, Asks, ext_poll-Asked, ext_poll-Unreported}

abbrev associated : ℕ → SctpDesc
associated i = record (new_desc 2 1 true 3) { association_ptr = some 9 }

-- The standard descriptors are of the system, and 400 more are associations.
abbrev many_associations : World
many_associations = record {
  sockets = λ i. if ltb i 3 then system i else if ltb i 403 then sctp (associated i) else invalid;
  effects = [];
  errno = 0;
}

abbrev from_three : Option FdSet
from_three = some (λ i. leb 3 i)

abbrev asks_all : Sets
asks_all = record { readfds = from_three; writefds = from_three; exceptfds = from_three }

abbrev only_reading : Sets
only_reading = record { readfds = some (λ i. i == 4); writefds = none; exceptfds = none }

-- The read condition of descriptor 4 has fired.
abbrev woken : Woken
woken = record {
  fired = λ x. x.fd == 4;
  events_of = λ x. record { poll_in = false; poll_pri = false; poll_out = false; poll_err = false };
  slept = pos 0;
}

abbrev watching : SelectData
watching = record no_data {
  conditions = record { fd = 4; kind = uct_read; owner = of_association 9 } ∷ [];
}

report-Reported_example : is_set 4 (set_of uct_read (report woken watching only_reading).0) ≡ true
report-Reported_example = report-Reported woken watching only_reading uct_read 4

-- A descriptor that is not open.
abbrev no_descriptors : World
no_descriptors = record { sockets = λ i. invalid; effects = []; errno = 0 }

-- select is interrupted.
abbrev interrupted : SystemSelect
interrupted n s b w = (record w { errno = 4 }, s, negsuc 0)

interrupted_wrapped :
    (ext_select false interrupted (λ c. woken) 5 only_reading no_descriptors).0.errno ≡ 4
unfolding ext_select select_wrapper wrapped_end
interrupted_wrapped = refl

abbrev two_entries : List PollFd
two_entries =
    record { poll_fd = pos 4; asks_in = true; asks_out = false; revents = 0 }
    ∷ record { poll_fd = pos 5000; asks_in = true; asks_out = false; revents = 0 }
    ∷ []

ext_poll-Asked_example :
    (n : ℕ) × (s : Sets) × Asks two_entries n s
    × ((select : ℕ → Sets → Option (ℕ × ℕ) → World → World × Sets × ℤ)
        → ((ext_poll select two_entries (pos 1500) no_descriptors).0
            ≡ (select n s (some (1, 500000)) no_descriptors).0)
          × ((failed (select n s (some (1, 500000)) no_descriptors).2 ≡ false)
              ⊎ ((ext_poll select two_entries (pos 1500) no_descriptors).2
                  ≡ (select n s (some (1, 500000)) no_descriptors).2)))
unfolding prepare ask
ext_poll-Asked_example = ext_poll-Asked two_entries (pos 1500) no_descriptors refl

ext_poll-Unreported_example :
    Unreported two_entries
      (ext_poll (λ n s t w. (w, s, pos 1)) two_entries (pos 1500) no_descriptors).1
unfolding prepare ask
ext_poll-Unreported_example =
    ext_poll-Unreported (λ n s t w. (w, s, pos 1)) two_entries (pos 1500) no_descriptors refl
