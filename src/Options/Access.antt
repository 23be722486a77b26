-- ===== src/Options/Access.antt =====
-- What a descriptor's settings are read from and written to (socketapi/sctpsocketwrapper.cc):
-- getAssocParams, setAssocParams, getPathStatus, setPathStatus and getPrimaryAddressInfo. A
-- connection-oriented descriptor with an association stands for it, another one for its socket.
use socketapi.Prelude.{ℕ, Bool, false, Option, none, some, if◌then◌else◌}
use socketapi.Strings.Decimal.{ℤ, pos, neg}
use socketapi.Internet.System.{Sockaddr}
use socketapi.Addresses.{SocketAddress, create_from_sockaddr}
use socketapi.Descriptors.{SctpDesc}
use socketapi.Options.{AssocStatus, PathStatus, SctpLib, AddressApi, Objects}
use socketapi.Options.Paths.{get_path_parameters, set_path_parameters}
use socketapi.Options.Methods.{put_lib, get_assoc_status, set_assoc_status, set_socket_status}
use socketapi.Options.Values.{PaddrInfo}

pub data Target : Type 0 where
  by_association by_socket : ℕ → Target
  nowhere : Target

abbrev pub socket_target : Option ℕ → Target
socket_target none = nowhere
socket_target (some p) = by_socket p

-- The test on the two pointers that these calls share.
unfoldable pub target : SctpDesc → Target
target d = elim (d.association_ptr) [
  | none ↦ socket_target d.socket_ptr
  | some a ↦ if d.connection_oriented then by_association a else socket_target d.socket_ptr
]

abbrev pub result_or : ℤ → Bool → ℤ
result_or error ok = if ok then pos 0 else error

abbrev pub with_number : ℕ → Option AssocStatus → Option (ℕ × AssocStatus)
with_number i none = none
with_number i (some p) = some (i, p)

module _ {S : Type 0} (lib : SctpLib S) where
  -- The number of the association that is meant where the caller gives `id`.
  abbrev pub id_of_target : Target → ℕ → Objects S → ℕ
  id_of_target (by_association a) id o = (o.associations a).assoc_id
  id_of_target (by_socket p) id o = id
  id_of_target nowhere id o = id

  -- getAssocParams: `none` stands for the result -1. The number of an association is the caller's
  -- after the call.
  abbrev pub params_of : Target → ℕ → Objects S → Option AssocStatus
  params_of (by_association a) id o = get_assoc_status lib a o
  params_of (by_socket p) id o = lib.get_status o.lib_state id
  params_of nowhere id o = none

  unfoldable pub get_assoc_params : SctpDesc → ℕ → Objects S → Option (ℕ × AssocStatus)
  get_assoc_params d id o = with_number (id_of_target (target d) id o) (params_of (target d) id o)

  abbrev pub change_params : Target → ℕ → AssocStatus → Objects S → Objects S × Bool
  change_params (by_association a) id p o = set_assoc_status lib a p o
  change_params (by_socket q) id p o = set_socket_status lib id p o
  change_params nowhere id p o = (o, false)

  -- setAssocParams.
  unfoldable pub set_assoc_params : SctpDesc → ℕ → AssocStatus → Objects S → Objects S × ℤ
  set_assoc_params d id p o =
      let (v, ok) = change_params (target d) id p o in (v, result_or (neg 1) ok)

  module _ (api : AddressApi) where
    abbrev pub path_of :
        PathStatus → Target → ℕ → Option SocketAddress → Objects S → Option (Option PathStatus)
    path_of fresh (by_association a) id x o =
        get_path_parameters lib api fresh (o.associations a).assoc_id x o.lib_state
    path_of fresh (by_socket p) id x o = get_path_parameters lib api fresh id x o.lib_state
    path_of fresh nowhere id x o = some none

    -- getPathStatus: the result, and the parameters where it is 0; `fresh` is what they are before.
    unfoldable pub get_path_status :
        PathStatus → SctpDesc → ℕ → Sockaddr → Objects S → Option (ℤ × PathStatus)
    get_path_status fresh d id s o = elim (create_from_sockaddr api.memory s) [
      | none ↦ some (neg 22, fresh)
      | some x ↦ elim (path_of fresh (target d) id (some x) o) [
        | none ↦ none
        | some found ↦ elim found [ none ↦ some (neg 5, fresh) | some p ↦ some (pos 0, p) ]
      ]
    ]

    abbrev pub change_path :
        Target → ℕ → Option SocketAddress → PathStatus → Objects S → Option (S × Bool)
    change_path (by_association a) id x p o =
        set_path_parameters lib api (o.associations a).assoc_id x p o.lib_state
    change_path (by_socket q) id x p o = set_path_parameters lib api id x p o.lib_state
    change_path nowhere id x p o = some (o.lib_state, false)

    -- setPathStatus.
    unfoldable pub set_path_status :
        SctpDesc → ℕ → Sockaddr → PathStatus → Objects S → Option (Objects S × ℤ)
    set_path_status d id s p o = elim (create_from_sockaddr api.memory s) [
      | none ↦ some (o, neg 22)
      | some x ↦ elim (change_path (target d) id (some x) p o) [
        | none ↦ none
        | some (t, ok) ↦ some ((put_lib o (t, ok)).0, result_or (neg 5) ok)
      ]
    ]

    -- The part of getPrimaryAddressInfo behind the path: its text as an address, and that in the
    -- caller's struct.
    unfoldable pub fill_paddrinfo : SctpDesc → ℕ → PathStatus → PaddrInfo → ℤ × PaddrInfo
    fill_paddrinfo d id p info = elim (api.of_text p.destination) [
      | none ↦ (neg 5, info)
      | some x ↦ elim (api.system_address x 128 d.domain) [
        | none ↦ (neg 5, info)
        | some s ↦ (
          pos 0,
          record info {
            spinfo_address = s;
            spinfo_state = p.path_state;
            spinfo_cwnd = p.cwnd;
            spinfo_srtt = p.srtt;
            spinfo_rto = p.rto;
            spinfo_mtu = p.mtu;
            spinfo_assoc_id = id;
          },
        )
      ]
    ]

    -- getPrimaryAddressInfo. A path that is not found leaves the result -EBADF.
    unfoldable pub get_primary_info :
        PathStatus → SctpDesc → ℕ → PaddrInfo → Objects S → Option (ℤ × PaddrInfo)
    get_primary_info fresh d id info o = elim (path_of fresh (target d) id none o) [
      | none ↦ none
      | some found ↦ elim found [
        | none ↦ some (neg 9, info)
        | some p ↦ some (fill_paddrinfo d (id_of_target (target d) id o) p info)
      ]
    ]
