-- ===== src/Sctp/Send.antt =====
-- Sending by a socket (socketapi/sctpsocket.cc: sendTo), without the defaults of an association. What
-- findAssociationForDestinationAddress and associate give are arguments, and so is what
-- internalSend returns for a packet.
pub mod Uses
use socketapi.Prelude.{
  ℕ, ◌+◌, ◌-◌, ◌%◌, ◌^◌, ◌<◌, ◌≡◌, ◌≢◌, refl, sym, ap, subst, ◌∙◌, inl, inr, Bool, true, false, not,
  ◌&&◌, ◌||◌, List, [], ◌∷◌, Option, none, some, length, ◌==◌, if◌then◌else◌, arith, Bool-cases,
  Option-cases,
}
use socketapi.Strings.Decimal.{ℤ, pos, negsuc}
use socketapi.Association.{
  Association, Packet, LibCall, internal_send, send_to, abort, shutdown, note_call,
}
use socketapi.Sctp.{Socket, Master, find_association, put_association, note_lib}
use socketapi.Sctp.Find.{find-put_same, find_association-id}
use socketapi.Sctp.Lifetime.{
  Lost, abort_asked, abort_checked, erase_id, delete_association, after_call,
}
use socketapi.Sctp.Notify.{use_more}
use socketapi.Sctp.Accept.{check_auto_connect, insert_id}

-- The parameters of a call: what is sent, whether there is no data, the flags, and whether there are
-- destinations, or else the number of an association.
pub record SendCall : Type 0 where
  pub packet : Packet
  pub no_data : Bool
  pub msg_abort : Bool
  pub msg_eof : Bool
  pub has_destinations : Bool
  pub send_id : ℕ

-- `search` finds an association of a list by the destinations; `associate` makes one; `lost` is what the
-- callback within sctp_abort does.
pub record Sender : Type 0 where
  pub search : List ℕ → Socket → Option ℕ
  pub associate : Socket → Master → Option ℕ × Socket × Master
  pub send : Packet → ℤ
  pub has_memory : Bool
  pub now : ℕ
  pub lost : Lost

abbrev pub ids_of : List Association → List ℕ
ids_of [] = []
ids_of (a ∷ xs) = a.assoc_id ∷ ids_of xs

-- The lookup of an association.
unfoldable pub lookup : Sender → SendCall → Socket → Option ℕ
lookup env c s =
    let by_address = env.search (ids_of s.associations) s in
    if c.has_destinations
    then if s.auto_connect
      then elim (env.search s.connectionless s) [ none ↦ by_address | some id ↦ some id ]
      else by_address
    else elim (find_association c.send_id s.associations) [ none ↦ none | some a ↦ some c.send_id ]

-- The end: the association is in use once less. `none` stands for the abort of the process.
unfoldable pub send_done : Sender → ℕ → ℤ → Socket → Master → Option (Socket × Master × ℤ)
send_done env id result s m = elim (find_association id s.associations) [
  | none ↦ none
  | some a ↦
      let used = record a { last_usage = env.now; use_count = a.use_count - 1 } in
      if a.use_count == 0
      then none
      else some (record s { associations = put_association used s.associations }, m, result)
]

-- MSG_EOF behind the sending, on the association as it is then.
unfoldable pub send_eof :
    Sender → SendCall → Association → ℤ → Socket → Master → Option (Socket × Master × ℤ)
send_eof env c b result s m =
    let (e, calls) = if c.msg_eof then shutdown b else (b, []) in
    let (t, n) = after_call (e, calls) s m in
    let unlisted = record t { connectionless = erase_id b.assoc_id t.connectionless } in
    let deleted = elim (delete_association e unlisted n) as (λ o. Option (Socket × Master × ℤ)) [
      | none ↦ none
      | some (u, k) ↦ elim (check_auto_connect u) [ none ↦ none | some v ↦ some (v, k, result) ]
    ] in
    if s.auto_connect then deleted else send_done env b.assoc_id result t n

-- MSG_ABORT and MSG_EOF behind the sending. The callback within the abort may change the association,
-- which is in use and so not removed.
unfoldable pub send_end :
    Sender → SendCall → Association → ℤ → Socket → Master → Option (Socket × Master × ℤ)
send_end env c a result s m = elim (abort_asked c.msg_abort env.lost env.now a s m) [
  | none ↦ none
  | some (t, n) ↦ elim (find_association a.assoc_id t.associations) [
    | none ↦ none
    | some b ↦ send_eof env c b result t n
  ]
]

-- Sending to an association that is in use for this call.
unfoldable pub send_on :
    Sender → SendCall → Association → Socket → Master → Option (Socket × Master × ℤ)
send_on env c a s m =
    let (b, result) =
      if c.no_data then (a, pos 0) else send_to env.send env.has_memory c.packet a in
    let t = record s { associations = put_association b s.associations } in
    if c.msg_eof || c.msg_abort
    then send_end env c b result t m
    else send_done env b.assoc_id result t m

-- EISCONN and EIO, negated.
abbrev pub minus_eisconn : ℤ
minus_eisconn = negsuc 105

abbrev pub minus_eio : ℤ
minus_eio = negsuc 4

-- An association that was found. With MSG_ABORT it is aborted, and stays in use.
unfoldable pub send_known :
    Sender → SendCall → Association → Socket → Master → Option (Socket × Master × ℤ)
send_known env c a s m =
    let b = use_more a in
    let t = record s { associations = put_association b s.associations } in
    let aborted =
      elim (abort_checked env.lost env.now b t m) as (λ o. Option (Socket × Master × ℤ)) [
        | none ↦ none
        | some (u, n) ↦ some (u, n, pos 0)
      ] in
    if c.no_data && not (c.msg_abort || c.msg_eof)
    then some (s, m, minus_eisconn)
    else if c.msg_abort
    then aborted
    else send_on env c b t m

-- And none was found: a socket that connects by itself makes one.
unfoldable pub send_unknown : Sender → SendCall → Socket → Master → Option (Socket × Master × ℤ)
send_unknown env c s m =
    let (made, t, n) = env.associate s m in
    let connected = elim (made) as (λ o. Option (Socket × Master × ℤ)) [
      | none ↦ some (t, n, minus_eio)
      | some id ↦ elim (find_association id t.associations) [
        | none ↦ none
        | some a ↦
            send_on env c (use_more a)
              (record t {
                associations = put_association (use_more a) t.associations;
                connectionless = insert_id id t.connectionless;
              })
              n
      ]
    ] in
    if s.auto_connect && c.has_destinations then connected else some (s, m, minus_eio)

-- sendTo without MSG_SEND_TO_ALL.
unfoldable pub send_one : Sender → SendCall → Socket → Master → Option (Socket × Master × ℤ)
send_one env c s m = elim (lookup env c s) [
  | none ↦ send_unknown env c s m
  | some id ↦ elim (find_association id s.associations) [
    | none ↦ none
    | some a ↦ send_known env c a s m
  ]
]

-- sendTo with MSG_SEND_TO_ALL: the loop over the associations that sendTo made.
unfoldable pub send_all : Sender → SendCall → List ℕ → Socket → Socket × ℤ
send_all env c [] s = (s, pos (length c.packet.data_bytes))
send_all env c (id ∷ ids) s = elim (find_association id s.associations) [
  | none ↦ send_all env c ids s
  | some a ↦
      let b = (send_to env.send env.has_memory c.packet a).0 in
      send_all env c ids (record s { associations = put_association b s.associations })
]
