-- ===== src/Options/Methods.antt =====
-- The calls of SCTPAssociation (socketapi/sctpassociation.cc) and of SCTPSocket
-- (socketapi/sctpsocket.cc, sctpsocket.icc) that read and write settings; the paths are in Paths.
use socketapi.Prelude.{ℕ, ◌%◌, Bool, true, false, Option, none, some, List, [], ◌∷◌, if◌then◌else◌}
use socketapi.Strings.Decimal.{ℤ, pos, neg}
use socketapi.Association.{StreamTimeout, Defaults, set_timeouts, get_timeout}
use socketapi.Options.{AssocStatus, InstanceParameters, SctpLib, Objects, put_object, put_settings}

-- A call of sctplib that changes its state.
abbrev pub put_lib : {S : Type 0} → Objects S → S × Bool → Objects S × Bool
put_lib o (s, ok) = (record o { lib_state = s }, ok)

abbrev pub first_of : List ℕ → Option ℕ
first_of [] = none
first_of (a ∷ xs) = some a

module _ {S : Type 0} (lib : SctpLib S) where
  -- SCTPAssociation::getAssocStatus: while the timeout of the INIT stands in for the maximum of the
  -- RTO in sctplib, the saved maximum is given.
  unfoldable pub get_assoc_status : ℕ → Objects S → Option AssocStatus
  get_assoc_status a o =
      let x = o.associations a in
      elim (lib.get_status o.lib_state x.assoc_id) [
        | none ↦ none
        | some p ↦ some (if x.rto_max_is_init_timeout then record p { rto_max = x.rto_max } else p)
      ]

  -- SCTPAssociation::setAssocStatus.
  unfoldable pub set_assoc_status : ℕ → AssocStatus → Objects S → Objects S × Bool
  set_assoc_status a p o =
      let x = o.associations a in
      let saved = put_object a (record x { rto_max = p.rto_max }) o in
      let late = record p { rto_max = x.init_timeout } in
      if x.rto_max_is_init_timeout
      then put_lib saved (lib.set_status o.lib_state x.assoc_id late)
      else put_lib o (lib.set_status o.lib_state x.assoc_id p)

  -- SCTPSocket::setAssocStatus, which sctplib gets as it is, as with getAssocStatus.
  unfoldable pub set_socket_status : ℕ → AssocStatus → Objects S → Objects S × Bool
  set_socket_status id p o = put_lib o (lib.set_status o.lib_state id p)

  -- getAssocDefaults and setAssocDefaults.
  unfoldable pub get_assoc_defaults : ℕ → Objects S → Option InstanceParameters
  get_assoc_defaults p o = lib.get_defaults o.lib_state (o.socket_settings p).instance_name

  unfoldable pub set_assoc_defaults : ℕ → InstanceParameters → Objects S → Objects S × Bool
  set_assoc_defaults p x o =
      put_lib o (lib.set_defaults o.lib_state (o.socket_settings p).instance_name x)

  -- getSendBuffer, getReceiveBuffer and getTrafficClass: a number that sctplib has, or -1.
  abbrev number_of : (AssocStatus → ℕ) → ℕ → Objects S → ℤ
  number_of field a o = elim (lib.get_status o.lib_state (o.associations a).assoc_id) [
    | none ↦ neg 1
    | some p ↦ pos (field p)
  ]

  unfoldable pub get_send_buffer : ℕ → Objects S → ℤ
  get_send_buffer a o = number_of (λ p. p.max_send_queue) a o

  unfoldable pub get_receive_buffer : ℕ → Objects S → ℤ
  get_receive_buffer a o = number_of (λ p. p.max_recv_queue) a o

  unfoldable pub get_traffic_class : ℕ → Objects S → ℤ
  get_traffic_class a o = number_of (λ p. p.ip_tos) a o

  -- setSendBuffer and setReceiveBuffer of an association.
  abbrev change_status : (AssocStatus → AssocStatus) → ℕ → Objects S → Objects S × Bool
  change_status f a o = elim (lib.get_status o.lib_state (o.associations a).assoc_id) [
    | none ↦ (o, false)
    | some p ↦ put_lib o (lib.set_status o.lib_state (o.associations a).assoc_id (f p))
  ]

  unfoldable pub set_send_buffer : ℕ → ℕ → Objects S → Objects S × Bool
  set_send_buffer a size o = change_status (λ p. record p { max_send_queue = size }) a o

  unfoldable pub set_receive_buffer : ℕ → ℕ → Objects S → Objects S × Bool
  set_receive_buffer a size o = change_status (λ p. record p { max_recv_queue = size }) a o

  -- SCTPAssociation::setTrafficClass, which does nothing.
  unfoldable pub set_association_class : ℕ → ℕ → Objects S → Objects S × Bool
  set_association_class a tos o = (o, true)

  -- The calls of a socket on its associations: only the first one of ConnectionlessAssociationList.
  unfoldable pub set_socket_send_buffer : ℕ → ℕ → Objects S → Objects S × Bool
  set_socket_send_buffer p size o = elim (first_of (o.socket_settings p).connectionless) [
    | none ↦ (o, true)
    | some a ↦ set_send_buffer a size o
  ]

  unfoldable pub set_socket_receive_buffer : ℕ → ℕ → Objects S → Objects S × Bool
  set_socket_receive_buffer p size o = elim (first_of (o.socket_settings p).connectionless) [
    | none ↦ (o, true)
    | some a ↦ set_receive_buffer a size o
  ]

  -- The class is a card8.
  unfoldable pub set_socket_class : ℕ → ℕ → Objects S → Objects S × Bool
  set_socket_class p tos o =
      let x = o.socket_settings p in
      let v = put_settings p (record x { traffic_class = tos % 256 }) o in
      elim (first_of x.connectionless) [
        | none ↦ (v, true)
        | some a ↦ set_association_class a (tos % 256) v
      ]

-- The calls on the objects alone.
module _ {S : Type 0} where
  unfoldable pub set_io_defaults : ℕ → Defaults → Objects S → Objects S
  set_io_defaults a x o = put_object a (record (o.associations a) { defaults = x }) o

  unfoldable pub set_association_timeouts :
      (ℕ → StreamTimeout) → ℕ → ℕ → ℕ → ℕ → Objects S → Objects S × Bool
  set_association_timeouts fresh a timeout start end o =
      let (x, ok) = set_timeouts fresh timeout start end (o.associations a) in
      (put_object a x o, ok)

  unfoldable pub set_association_events : ℕ → ℕ → Objects S → Objects S
  set_association_events a flags o =
      put_object a (record (o.associations a) { notification_flags = flags }) o

  unfoldable pub set_socket_events : ℕ → ℕ → Objects S → Objects S
  set_socket_events p flags o =
      put_settings p (record (o.socket_settings p) { event_flags = flags }) o

  unfoldable pub set_auto_close : ℕ → ℕ → Objects S → Objects S
  set_auto_close p timeout o =
      put_settings p (record (o.socket_settings p) { auto_close = timeout }) o

  -- The calls of a socket that reach only the first association on its list: getAssocIODefaults,
  -- setAssocIODefaults, setDefaultStreamTimeouts and getDefaultStreamTimeout. The number of an
  -- association that they get is not looked at. `none` stands for the result false.
  unfoldable pub get_socket_defaults : ℕ → Objects S → Objects S × Option Defaults
  get_socket_defaults p o = elim (first_of (o.socket_settings p).connectionless) [
    | none ↦ (o, none)
    | some a ↦ (o, some (o.associations a).defaults)
  ]

  unfoldable pub set_socket_defaults : ℕ → ℕ → Defaults → Objects S → Objects S × Bool
  set_socket_defaults p id x o = elim (first_of (o.socket_settings p).connectionless) [
    | none ↦ (o, false)
    | some a ↦ (set_io_defaults a x o, true)
  ]

  unfoldable pub set_socket_timeouts :
      (ℕ → StreamTimeout) → ℕ → ℕ → ℕ → ℕ → ℕ → Objects S → Objects S × Bool
  set_socket_timeouts fresh p id timeout start end o =
      elim (first_of (o.socket_settings p).connectionless) [
        | none ↦ (o, false)
        | some a ↦ ((set_association_timeouts fresh a timeout start end o).0, true)
      ]

  -- The result is true where there is no timeout, too.
  unfoldable pub get_socket_timeout : ℕ → ℕ → ℕ → Objects S → Objects S × Bool × Option ℕ
  get_socket_timeout p id stream o = elim (first_of (o.socket_settings p).connectionless) [
    | none ↦ (o, false, none)
    | some a ↦ (o, true, get_timeout stream (o.associations a))
  ]
