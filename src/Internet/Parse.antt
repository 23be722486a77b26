-- ===== src/Internet/Parse.antt =====
-- The constructor of InternetAddress from a text (socketapi/internetaddress.cc): NAME, NAME:PORT,
-- [ADDRESS]:PORT and TEXT (ADDRESS:PORT).
pub mod Forms
pub mod Round
use socketapi.Prelude.{
  ℕ, zero, suc, ◌+◌, ◌-◌, ◌*◌, ◌/◌, ◌%◌, ◌^◌, ◌<◌, ◌≤◌, ◌≡◌, ◌≢◌, refl, sym, ap, ap₂, ◌∙◌, ◌↔◌, ◌⊎◌,
  inl, inr, Bool, true, false, List, [], ◌∷◌, ◌++◌, not, ◌&&◌, ◌||◌, ◌==◌, leb, ltb, if◌then◌else◌,
  arith, Option, none, some, Bytes, codes, append_assoc, append-nil, take-append, drop-append,
  Bool-cases, All, All-append, Lacks, get_or, length, length-append,
}
use socketapi.Strings.{Text, index, rindex, left, mid, mid_from}
use socketapi.Strings.Decimal.{ℤ, pos, negsuc, scan_int, decimal, scan_int-decimal, decimal-Digits}
use socketapi.Internet.{InternetAddress, reset}
use socketapi.Internet.Lookup.{Net, init_host, get_service_by_name}

-- The text in round brackets, if there is one behind the first byte. The second line of the source
-- takes the whole of it again.
pub bracketed : Bytes → Bytes
bracketed address = elim (index (some address) b'(') [
  | none ↦ address
  | some p1 ↦
      let host = mid_from (some address) (p1 + 1) in
      if ltb 0 p1 then left (some host) (length host) else address
]

abbrev pub zero_port : Bytes
zero_port = b'0' ∷ []

-- [HOST], [HOST]:PORT and [HOST]!PORT: a host and a port, or `none` where ']' is missing.
pub split_bracket : Bytes → Option (Bytes × Bytes)
split_bracket host = elim (index (some host) b']') [
  | none ↦ none
  | some p1 ↦
      let behind = get_or host (p1 + 1) 0 in
      let inner = mid (some host) 1 (p1 - 1) in
      let port =
        if behind == b':' || behind == b'!' then mid_from (some host) (p1 + 2) else zero_port in
      if ltb 0 p1 then some (left (some inner) (length inner), port) else none
]

-- The last ':', or the last '!' if there is no ':'.
pub last_separator : Bytes → Option ℕ
last_separator address = elim (rindex (some address) b':') [
  | none ↦ rindex (some address) b'!'
  | some p1 ↦ some p1
]

-- HOST:PORT. The separator is looked for in the whole address.
pub split_standard : Bytes → Bytes → Bytes × Bytes
split_standard address host = elim (last_separator address) [
  | none ↦ (host, zero_port)
  | some p1 ↦
      if ltb 0 p1
      then (left (some address) p1, mid_from (some address) (p1 + 1))
      else (host, zero_port)
]

unfoldable pub split_address : Bytes → Option (Bytes × Bytes)
split_address address =
    let host = bracketed address in
    if get_or host 0 0 == b'[' then split_bracket host else some (split_standard address host)

-- The number of a port, or else of a service; `none` for neither.
pub port_number : Net → Bytes → Option ℕ
port_number net port = elim (scan_int port) [
  | none ↦ service
  | some n ↦ elim n [ pos k ↦ if leb k 65535 then some k else service | negsuc k ↦ service ]
]
  where
    service : Option ℕ
    service = let n = get_service_by_name net port in if n == 0 then none else some n

pub parse_parts : Bool → Net → InternetAddress → Bytes × Bytes → InternetAddress
parse_parts use_ipv6 net a (host, port) = elim (port_number net port) [
  | none ↦ record a { valid = false }
  | some n ↦ init_host use_ipv6 net a (some host) n
]

-- The argument `a` is the memory that the object is made in: what the source leaves uninitialised.
unfoldable pub parse : Bool → Net → InternetAddress → Text → InternetAddress
parse use_ipv6 net a none = reset a
parse use_ipv6 net a (some address) = elim (split_address address) [
  | none ↦ record a { valid = false }
  | some parts ↦ parse_parts use_ipv6 net a parts
]
