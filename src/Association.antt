-- ===== src/Association.antt =====
-- Parts of the class SCTPAssociation (socketapi/sctpassociation.cc): its state and constructor, the
-- packets that wait until the association is up, its shutdown, and the default timeouts of its
-- streams. Its destructor is in Sctp.Lifetime.
pub mod Waiting
pub mod Timeouts
mod Tests
use socketapi.Prelude.{
  ℕ, zero, suc, ◌+◌, ◌-◌, ◌<◌, ◌≤◌, Bool, true, false, not, ◌&&◌, ◌||◌, List, [], ◌∷◌, ◌++◌, Option,
  none, some, Bytes, length, ◌==◌, ltb, leb, if◌then◌else◌,
}
use socketapi.Strings.Decimal.{ℤ, pos, negsuc}
use socketapi.Notifications.{Notification}

-- PreEstablishmentPacket; the list from the first to the last one is a list.
pub record Packet : Type 0 where
  pub data_bytes : Bytes
  pub flags : ℕ
  pub proto_id : ℕ
  pub stream_id : ℕ
  pub time_to_live : ℕ

pub record StreamTimeout : Type 0 where
  pub valid : Bool
  pub timeout : ℕ

-- AssocIODefaults.
pub record Defaults : Type 0 where
  pub default_stream_id : ℕ
  pub default_proto_id : ℕ
  pub default_time_to_live : ℕ
  pub default_context : ℕ

-- What is called on the socket.
pub data Call : Type 0 where
  internal_send : Packet → Call

-- What is called on sctplib, by the number of an association or of an instance, or with the rtoMax
-- that an association gets.
pub data LibCall : Type 0 where
  sctp_shutdown sctp_abort sctp_delete_association sctp_unregister_instance : ℕ → LibCall
  sctp_set_rto_max : ℕ → ℕ → LibCall

-- The array of timeouts has arbitrary elements behind its count; it is not there at first.
-- `instance_id` is the number of its socket, and `in_queue` the list that its queue stands for.
pub record Association : Type 0 where
  pub assoc_id : ℕ
  pub instance_id : ℕ
  pub up : Bool
  pub lost : Bool
  pub shutdown_complete : Bool
  pub use_count : ℕ
  pub last_usage : ℕ
  pub notification_flags : ℕ
  pub read_ready : Bool
  pub write_ready : Bool
  pub has_exception : Bool
  pub rto_max_is_init_timeout : Bool
  pub init_timeout : ℕ
  pub rto_max : ℕ
  pub peeled_off : Bool
  pub waiting_addresses : Option (List Bytes)
  pub in_queue : List Notification
  pub packets : List Packet
  pub shutting_down : Bool
  pub calls : List Call
  pub has_array : Bool
  pub timeout_count : ℕ
  pub timeouts : ℕ → StreamTimeout
  pub defaults : Defaults

-- The constructor, at the time `now`. The context of its defaults is left as the memory has it, 0 here.
-- SCTP_INFINITE_LIFETIME is 0xffffffff.
unfoldable pub new_association : ℕ → ℕ → ℕ → ℕ → Association
new_association instance_id assoc_id notification_flags now = record {
  assoc_id = assoc_id;
  instance_id = instance_id;
  up = false;
  lost = false;
  shutdown_complete = false;
  use_count = 0;
  last_usage = now;
  notification_flags = notification_flags;
  read_ready = false;
  write_ready = false;
  has_exception = false;
  rto_max_is_init_timeout = false;
  init_timeout = 0;
  rto_max = 0;
  peeled_off = false;
  waiting_addresses = none;
  in_queue = [];
  packets = [];
  shutting_down = false;
  calls = [];
  has_array = false;
  timeout_count = 0;
  timeouts = λ i. record { valid = false; timeout = 0 };
  defaults = record {
    default_stream_id = 0;
    default_proto_id = 0;
    default_time_to_live = 0xffff_ffff;
    default_context = 0;
  };
}

abbrev pub note_call : Call → Association → Association
note_call c a = record a { calls = a.calls ++ c ∷ [] }

abbrev pub int_eq : ℤ → ℕ → Bool
int_eq (pos n) m = n == m
int_eq (negsuc n) m = false

-- sendTo without the defaults. The argument `send` is what SCTPSocket::internalSend returns for a
-- packet, and `memory` tells whether `new` gives memory for one.
unfoldable pub send_to : (Packet → ℤ) → Bool → Packet → Association → Association × ℤ
send_to send memory p a =
    if not a.up
    then (
      if memory then record a { packets = a.packets ++ p ∷ [] } else a,
      pos (length p.data_bytes),
    )
    else (note_call (internal_send p) a, send p)

-- The loop of sendPreEstablishmentPackets on fuel: `none` where it runs out. A packet is taken off
-- the front of what the list is after it has been sent.
unfoldable pub send_packets : (Packet → ℤ) → Bool → ℕ → Association → Option (Association × Bool)
send_packets send memory zero a = elim (a.packets) [ [] ↦ some (a, true) | p ∷ ps ↦ none ]
send_packets send memory (suc f) a = elim (a.packets) [
  | [] ↦ some (a, true)
  | p ∷ ps ↦
      let (b, result) = send_to send memory p a in
      let rest = send_packets send memory f (record b { packets = tail_of b.packets }) in
      if int_eq result (length p.data_bytes) then rest else some (b, false)
]
  where
    tail_of : List Packet → List Packet
    tail_of [] = []
    tail_of (x ∷ xs) = xs

-- Each with what it calls on sctplib.
unfoldable pub shutdown : Association → Association × List LibCall
shutdown a =
    if a.shutting_down
    then (a, [])
    else (record a { shutting_down = true }, sctp_shutdown a.assoc_id ∷ [])

unfoldable pub abort : Association → Association × List LibCall
abort a = (record a { shutting_down = true }, sctp_abort a.assoc_id ∷ [])

-- A loop that changes `n` elements of an array from `i`.
unfoldable pub update_loop :
    (ℕ → StreamTimeout → StreamTimeout) → ℕ → ℕ → (ℕ → StreamTimeout) → ℕ → StreamTimeout
update_loop f zero i t = t
update_loop f (suc n) i t = update_loop f n (i + 1) (λ j. if j == i then f i (t i) else t j)

-- The three loops of setDefaultStreamTimeouts: `i <= count` for the copy, then `i < start` from
-- `count` on, then `i <= end` from `start` on.
abbrev pub copy_loop : Association → (ℕ → StreamTimeout) → ℕ → StreamTimeout
copy_loop a t =
    if a.has_array then update_loop (λ i x. a.timeouts i) (a.timeout_count + 1) 0 t else t

abbrev pub fill_loop : ℕ → ℕ → ℕ → (ℕ → StreamTimeout) → ℕ → StreamTimeout
fill_loop timeout start end t =
    update_loop (λ i x. record { valid = true; timeout = timeout }) (end + 1 - start) start t

-- The argument `fresh` is the content of the array that `new` makes.
unfoldable pub set_timeouts : (ℕ → StreamTimeout) → ℕ → ℕ → ℕ → Association → Association × Bool
set_timeouts fresh timeout start end a =
    if ltb end start
    then (a, false)
    else if leb (end + 1) a.timeout_count
    then (record a { timeouts = fill_loop timeout start end a.timeouts }, true)
    else (
      record a {
        timeouts = fill_loop timeout start end (
            update_loop (λ i x. record x { valid = false }) (start - a.timeout_count)
              a.timeout_count (copy_loop a fresh));
        timeout_count = end + 1;
        has_array = true;
      },
      true,
    )

-- getDefaultStreamTimeout, `none` for the result false.
unfoldable pub get_timeout : ℕ → Association → Option ℕ
get_timeout s a =
    if ltb s a.timeout_count && (a.timeouts s).valid then some (a.timeouts s).timeout else none
