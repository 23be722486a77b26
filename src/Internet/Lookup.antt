-- ===== src/Internet/Lookup.antt =====
-- Names: getHostByName, getServiceByName and the initialisation from a host name and a port
-- (socketapi/internetaddress.cc). getaddrinfo is the argument `Net`.
use socketapi.Prelude.{
  ℕ, ◌%◌, ◌≡◌, ◌≢◌, refl, ◌⊎◌, inl, inr, Bool, true, false, [], ◌∷◌, ◌&&◌, ◌||◌, ◌==◌,
  if◌then◌else◌, Option, none, some, Bytes,
}
use socketapi.Strings.{Text}
use socketapi.Strings.Decimal.{is_digit}
use socketapi.Internet.{
  Host, InternetAddress, swap16, mapped, reset, zero_host, set_port, pf_default, init_port,
}
use socketapi.Internet.System.{
  Family, unspec, inet, Sockaddr, sock_in, sock_in6, sock_un, sock_other,
}
use socketapi.Internet.Classes.{link_local6}

-- The field ai_flags of the hints.
pub data Flags : Type 0 where
  no_flags addr_config numeric_host : Flags

-- getaddrinfo: the first address for a host name under the hints' family and flags, and the
-- sin_port for a service name; `none` for an error.
pub record Net : Type 0 where
  pub lookup_host : Bytes → Family → Flags → Option Sockaddr
  pub lookup_service : Bytes → Option ℕ

-- Length 4, length 16 with the scope, or length 0.
pub data HostResult : Type 0 where
  host4 : ℕ → ℕ → HostResult
  host16 : Host → ℕ → HostResult
  no_host : HostResult

pub has_colon : Bytes → Bool
has_colon [] = false
has_colon (c ∷ s) = c == b':' || has_colon s

unfoldable pub digits_and_dots : Bytes → Bool
digits_and_dots [] = true
digits_and_dots (c ∷ s) = (is_digit c || c == b'.') && digits_and_dots s

unfoldable pub is_numeric : Bytes → Bool
is_numeric name = has_colon name || digits_and_dots name

unfoldable pub host_family : Bool → Family
host_family use_ipv6 = if use_ipv6 then unspec else inet

pub host_flags : Bool → Bytes → Flags
host_flags use_ipv6 name =
    if is_numeric name then numeric_host else if use_ipv6 then addr_config else no_flags

-- The switch over the family of the first result.
pub copy_host : Sockaddr → HostResult
copy_host (sock_in port a0 a1) = host4 a0 a1
copy_host (sock_in6 port flow_info h scope) =
    if link_local6 h && scope == 0 then no_host else host16 h (scope % 0x1_0000)
copy_host (sock_un path) = no_host
copy_host (sock_other n) = no_host

unfoldable pub get_host_by_name : Bool → Net → Text → HostResult
get_host_by_name use_ipv6 net none = if use_ipv6 then host16 zero_host 0 else host4 0 0
get_host_by_name use_ipv6 net (some name) =
    elim (net.lookup_host name (host_family use_ipv6) (host_flags use_ipv6 name)) [
      | none ↦ no_host
      | some s ↦ copy_host s
    ]

unfoldable pub get_service_by_name : Net → Bytes → ℕ
get_service_by_name net name = elim (net.lookup_service name) [ none ↦ 0 | some port ↦ swap16 port ]

-- The fields that init sets before it looks at the length.
pub init_fields : InternetAddress → ℕ → ℕ → InternetAddress
init_fields a port scope = record (set_port (record a { valid = true }) port) {
  print_format = pf_default;
  scope_id = scope;
}

pub init_result : InternetAddress → ℕ → HostResult → InternetAddress
init_result a port (host4 a0 a1) = record (init_fields a port 0) { host = mapped a0 a1 }
init_result a port (host16 h scope) = record (init_fields a port scope) { host = h }
init_result a port no_host = record (reset (init_fields a port 0)) { valid = false }

-- init(const String& hostName, const card16 port).
unfoldable pub init_host : Bool → Net → InternetAddress → Text → ℕ → InternetAddress
init_host use_ipv6 net a name port = init_result a port (get_host_by_name use_ipv6 net name)

-- The constructor from a host name and a port.
unfoldable pub new_host_port : Bool → Net → InternetAddress → Text → ℕ → InternetAddress
new_host_port use_ipv6 net a none port = init_port a port
new_host_port use_ipv6 net a (some name) port = init_host use_ipv6 net a (some name) port

-- What is left behind by the two outcomes of a lookup.
abbrev pub Outcome : InternetAddress → ℕ → HostResult → Type 0
Outcome r port h =
    ((r.valid ≡ true) × (r.port ≡ swap16 port) × (h ≢ no_host))
    ⊎ ((r.valid ≡ false) × (r.port ≡ 0) × (r.host ≡ zero_host) × (h ≡ no_host))

init_result-Outcome :
    (a : InternetAddress) (port : ℕ) (h : HostResult) → Outcome (init_result a port h) port h
unfolding init_result init_fields reset set_port swap16
init_result-Outcome a port (host4 a0 a1) = inl (refl, refl, λ e. cc)
init_result-Outcome a port (host16 h scope) = inl (refl, refl, λ e. cc)
init_result-Outcome a port no_host = inr (refl, refl, refl, refl)

-- The initialisation from a host name leaves a valid address with the port that is asked for
-- exactly where the name is found, and an invalid one that is reset where it is not.
pub init_host-Outcome :
    (use_ipv6 : Bool) (net : Net) (a : InternetAddress) (name : Text) (port : ℕ)
    → Outcome (init_host use_ipv6 net a name port) port (get_host_by_name use_ipv6 net name)
unfolding init_host
init_host-Outcome use_ipv6 net a name port =
    init_result-Outcome a port (get_host_by_name use_ipv6 net name)

-- A name that is a number and is read as an IPv4 address.
pub get_host_by_name-numeric :
    (use_ipv6 : Bool) (net : Net) (name : Bytes) (port a0 a1 : ℕ)
    → is_numeric name ≡ true
    → net.lookup_host name (host_family use_ipv6) numeric_host ≡ some (sock_in port a0 a1)
    → get_host_by_name use_ipv6 net (some name) ≡ host4 a0 a1
unfolding get_host_by_name copy_host
get_host_by_name-numeric use_ipv6 net name port a0 a1 n e =
    let flags : host_flags use_ipv6 name ≡ numeric_host = unfold host_flags in rw n in
    rw (flags, get_host_by_name, e)

pub init_host-host4 :
    (use_ipv6 : Bool) (net : Net) (a : InternetAddress) (name : Text) (port a0 a1 : ℕ)
    → get_host_by_name use_ipv6 net name ≡ host4 a0 a1
    → let r = init_host use_ipv6 net a name port in
      (r.host ≡ mapped a0 a1) × (r.port ≡ swap16 port) × (r.valid ≡ true)
unfolding init_host init_result init_fields set_port
init_host-host4 use_ipv6 net a name port a0 a1 e = rw e (refl, refl, refl)
