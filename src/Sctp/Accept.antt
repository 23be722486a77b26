-- ===== src/Sctp/Accept.antt =====
-- Connections that wait to be accepted, and associations that leave a socket
-- (socketapi/sctpsocket.cc: listen, accept, checkAutoConnect, peelOff and
-- findAssociationForDestinationAddress).
pub mod Outcomes
use socketapi.Prelude.{
  ℕ, zero, suc, Bool, true, false, not, ◌&&◌, ◌||◌, List, [], ◌∷◌, Option, none, some, Bytes,
  length, ◌==◌, ltb, if◌then◌else◌,
}
use socketapi.Addresses.{SocketAddress}
use socketapi.Association.{Association}
use socketapi.Sctp.{Incoming, Socket, Lib, LibStatus, find_association, put_association}
use socketapi.Sctp.Lifetime.{erase_id}
use socketapi.Sctp.Notify.{refresh_ready, is_empty}

-- listen.
unfoldable pub listen : ℕ → Socket → Socket
listen backlog s = record s { listening = ltb 0 backlog }

-- The addresses of the peer. Where one is bad, the list is deleted and its pointer becomes NULL, so
-- that the process ends by the next one: `none`; where it is the last one, there is no list.
unfoldable pub accept_addresses :
    (Bytes → ℕ → Option SocketAddress) → ℕ → List Bytes → Option (Option (List SocketAddress))
accept_addresses make port [] = some (some [])
accept_addresses make port (b ∷ bs) =
    let rest = accept_addresses make port bs in
    elim (make b port) [
      | none ↦ if is_empty bs then some none else none
      | some a ↦ elim (rest) [
        | none ↦ none
        | some o ↦ elim (o) [ none ↦ some none | some xs ↦ some (some (a ∷ xs)) ]
      ]
    ]

-- How accept ends: without a connection it returns NULL, or waits if it is asked to. A socket that
-- does not listen is left with the lock of the master taken.
pub data AcceptEnd : Type 0 where
  not_listening no_connection crashed : AcceptEnd
  accepted : ℕ → Option (List SocketAddress) → AcceptEnd

-- What is done with the first request.
unfoldable pub take_request :
    Incoming → List Incoming → Option (List SocketAddress) → Socket → AcceptEnd × Socket
take_request r rs addresses s =
    (accepted r.incoming_id addresses, refresh_ready (record s { requests = rs }))

-- accept; the first argument is `none` where the caller wants no addresses.
unfoldable pub accept : Option (Bytes → ℕ → Option SocketAddress) → Socket → AcceptEnd × Socket
accept wants s = elim (s.requests) [
  | [] ↦ if not s.listening then (not_listening, s) else (no_connection, s)
  | r ∷ rs ↦
      let done : AcceptEnd × Socket = elim (wants) [
        | none ↦ take_request r rs none s
        | some make ↦
            elim (accept_addresses make r.notification.remote_port
              r.notification.remote_addresses) [
                | none ↦ (crashed, s)
                | some addresses ↦ take_request r rs addresses s
              ]
      ] in
      if not s.listening then (not_listening, s) else done
]

-- ConnectionlessAssociationList.insert: a multimap, in the order of the numbers.
unfoldable pub insert_id : ℕ → List ℕ → List ℕ
insert_id id [] = id ∷ []
insert_id id (k ∷ ks) = let rest = insert_id id ks in if ltb id k then id ∷ k ∷ ks else k ∷ rest

-- The loop of checkAutoConnect on fuel: `none` where it runs out.
unfoldable pub connect_loop : ℕ → Socket → Option Socket
connect_loop zero s = none
connect_loop (suc f) s =
    let (end, t) = accept none s in
    elim (end) [
      | accepted id addresses ↦
          connect_loop f (record t { connectionless = insert_id id t.connectionless })
      | not_listening ↦ some t
      | no_connection ↦ some t
      | crashed ↦ some t
    ]

unfoldable pub check_auto_connect : Socket → Option Socket
check_auto_connect s =
    if s.auto_connect
    then elim (connect_loop (suc (length s.requests)) (record s { listening = true })) [
      | none ↦ none
      | some t ↦ some (record t { listening = s.listening })
    ]
    else some s

unfoldable pub contains_id : ℕ → List ℕ → Bool
contains_id id [] = false
contains_id id (k ∷ ks) = k == id || contains_id id ks

-- peelOff of an association by its number.
unfoldable pub peel_off : ℕ → Socket → Option ℕ × Socket
peel_off id s = elim (find_association id s.associations) [
  | none ↦ (none, s)
  | some a ↦
      if contains_id id s.connectionless && not a.shutting_down
      then (
        some id,
        record s {
          associations = put_association (record a { peeled_off = true }) s.associations;
          connectionless = erase_id id s.connectionless;
        },
      )
      else (none, s)
]

-- peelOff by an address: the first association whose port and primary address are those of the
-- destination. The argument `primary` tells whether the primary address is the destination's.
unfoldable pub peel_loop : Lib → (ℕ → Bool) → ℕ → List ℕ → Socket → Option ℕ
peel_loop lib primary port [] s = none
peel_loop lib primary port (id ∷ ids) s =
    let rest = peel_loop lib primary port ids s in
    elim (find_association id s.associations) [
      | none ↦ rest
      | some a ↦ elim (lib.status_of id) [
        | none ↦ rest
        | some st ↦
            if not a.shutting_down && port == st.dest_port && primary id then some id else rest
      ]
    ]

unfoldable pub peel_off_address : Lib → (ℕ → Bool) → ℕ → Socket → Option ℕ × Socket
peel_off_address lib primary port s = elim (peel_loop lib primary port s.connectionless s) [
  | none ↦ (none, s)
  | some id ↦ peel_off id s
]

-- The two loops of findAssociationForDestinationAddress over the destinations and the addresses that
-- an association is being made to. The inner index is not set back, so that only the first
-- destination is compared with any address.
unfoldable pub search_waiting : (Bytes → Bytes → Bool) → List Bytes → List Bytes → Bool
search_waiting same [] waiting = false
search_waiting same (d ∷ ds) [] = search_waiting same ds []
search_waiting same (d ∷ ds) (w ∷ waiting) =
    let rest = search_waiting same (d ∷ ds) waiting in if same d w then true else rest
