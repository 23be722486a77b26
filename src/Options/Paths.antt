-- ===== src/Options/Paths.antt =====
-- The paths of an association (socketapi/sctpsocket.cc): getPathIndexForAddress, getPathParameters,
-- setPathParameters, getPrimaryAddress, setPrimary and setPeerPrimary.
use socketapi.Prelude.{
  ℕ, zero, suc, ◌+◌, Bool, false, ◌==◌, ltb, Option, none, some, Bytes, take, ◌-◌, if◌then◌else◌,
}
use socketapi.Strings.{eq_text}
use socketapi.Strings.Decimal.{ℤ, pos, negsuc}
use socketapi.Addresses.{SocketAddress}
use socketapi.Options.{PathStatus, SctpLib, AddressApi}

-- The loop of getPathIndexForAddress from the element `i` of the IDs: it ends at a path with the name
-- or at an ID without a path, `some none`. `none` where more than `n` paths are there.
unfoldable pub path_loop : (ℕ → Option PathStatus) → (ℕ → ℕ) → Bytes → ℕ → ℕ → Option (Option ℕ)
path_loop status ids name zero i = none
path_loop status ids name (suc n) i =
    let rest = path_loop status ids name n (i + 1) in
    elim (status (ids i)) [
      | none ↦ some none
      | some p ↦ if eq_text (some name) (some p.destination) then some (some (ids i)) else rest
    ]

abbrev pub as_index : ℤ → Option ℕ
as_index (pos n) = some n
as_index (negsuc n) = none

-- getPathIndexForAddress, where the address may be NULL: the index, or `some none` for -1.
unfoldable pub path_index :
    {S : Type 0} → SctpLib S → AddressApi → ℕ → Option SocketAddress → S → Option (Option ℕ)
path_index lib api id none s = some (as_index (lib.get_primary s id))
path_index lib api id (some a) s = elim (lib.get_status s id) [
  | none ↦ some none
  | some status ↦ path_loop (lib.path_status s id) status.path_ids (api.text_of a) api.rounds 0
]

-- getPathParameters: the parameters, or `some none` for the result false. Those of a path whose
-- status cannot be read are what the caller had, `fresh`.
unfoldable pub get_path_parameters :
    {S : Type 0}
    → SctpLib S
    → AddressApi
    → PathStatus
    → ℕ
    → Option SocketAddress
    → S
    → Option (Option PathStatus)
get_path_parameters lib api fresh id a s = elim (path_index lib api id a s) [
  | none ↦ none
  | some found ↦ elim found [
    | none ↦ some none
    | some i ↦ elim (lib.path_status s id i) [ none ↦ some (some fresh) | some p ↦ some (some p) ]
  ]
]

-- setPathParameters: of the parameters, only the interval of the heartbeats is set; -1 asks for one.
unfoldable pub set_path_parameters :
    {S : Type 0}
    → SctpLib S
    → AddressApi
    → ℕ
    → Option SocketAddress
    → PathStatus
    → S
    → Option (S × Bool)
set_path_parameters lib api id a p s = elim (path_index lib api id a s) [
  | none ↦ none
  | some found ↦ elim found [
    | none ↦ some (s, false)
    | some i ↦ some (
        if p.heartbeat_interval == 0xffff_ffff
        then lib.request_heartbeat s id i
        else lib.change_heartbeat s id i (ltb 0 p.heartbeat_interval) p.heartbeat_interval)
  ]
]

-- SCTPSocket::getPrimaryAddress.
unfoldable pub get_primary_address :
    {S : Type 0} → SctpLib S → AddressApi → ℕ → S → Option SocketAddress
get_primary_address lib api id s = elim (as_index (lib.get_primary s id)) [
  | none ↦ none
  | some i ↦ elim (lib.path_status s id i) [ none ↦ none | some p ↦ api.of_text p.destination ]
]

-- SCTPSocket::setPrimary and setPeerPrimary.
abbrev pub set_found : {S : Type 0} → SctpLib S → ℕ → S → Option (Option ℕ) → Option (S × Bool)
set_found lib id s none = none
set_found lib id s (some none) = some (s, false)
set_found lib id s (some (some i)) = some (lib.change_primary s id i)

unfoldable pub set_primary :
    {S : Type 0} → SctpLib S → AddressApi → ℕ → SocketAddress → S → Option (S × Bool)
set_primary lib api id a s = set_found lib id s (path_index lib api id (some a) s)

-- The text of the address is cut to SCTP_MAX_IP_LEN bytes with the 0 at its end.
unfoldable pub set_peer_primary :
    {S : Type 0} → SctpLib S → AddressApi → ℕ → SocketAddress → S → S × Bool
set_peer_primary lib api id a s =
    lib.change_remote_primary s id (take (api.max_ip_len - 1) (api.text_with_port a))
