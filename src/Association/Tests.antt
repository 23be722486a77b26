-- ===== src/Association/Tests.antt =====
-- The theorems on an association at two packets and one range of streams.
use socketapi.Prelude.{ℕ, ◌≡◌, refl, false, some, [], ◌∷◌, arith, ◌&&◌, leb, if◌then◌else◌}
use socketapi.Strings.Decimal.{ℤ, pos}
use socketapi.Association.{
  new_association, Packet, StreamTimeout, Association, set_timeouts, get_timeout,
}
use socketapi.Association.Waiting.{left_over}
use socketapi.Association.Timeouts.{get_timeout-set}

abbrev hello : Packet
hello = record {
  data_bytes = 104 ∷ 105 ∷ [];
  flags = 0;
  proto_id = 7;
  stream_id = 1;
  time_to_live = 9;
}

abbrev empty_packet : Packet
empty_packet = record hello { data_bytes = [] }

-- A socket that takes no byte of any packet.
abbrev blocked : Packet → ℤ
blocked p = pos 0

abbrev no_timeouts : ℕ → StreamTimeout
no_timeouts i = record { valid = false; timeout = 0 }

abbrev small_association : Association
small_association = new_association 1 2 3 0

left_over_runs : left_over blocked (empty_packet ∷ hello ∷ []) ≡ hello ∷ []
unfolding left_over
left_over_runs = refl

get_timeout-set_example :
    get_timeout 3 (set_timeouts no_timeouts 50 2 4 small_association).0
    ≡ (if leb 2 3 && leb 3 4 then some 50 else get_timeout 3 small_association)
unfolding new_association
get_timeout-set_example = get_timeout-set no_timeouts 50 2 4 3 small_association (omega arith) refl
