-- ===== src/Internet/System.antt =====
-- InternetAddress to and from the system's socket addresses: getSystemAddress, setSystemAddress,
-- getIPv4Address and setIPv4Address of socketapi/internetaddress.cc.
use socketapi.Prelude.{
  ◌≤◌, ℕ, ◌%◌, ◌<◌, ◌≡◌, refl, sym, ◌⊎◌, inl, inr, Bool, true, false, leb, if◌then◌else◌, arith,
  Option, none, some, Bytes, Bool-cases,
}
use socketapi.Internet.{Host, InternetAddress, mapped, reset, pf_default}
use socketapi.Internet.Classes.{is_ipv4, v4_mapped, unspecified}

-- The address families, with the number of any other.
pub data Family : Type 0 where
  unspec inet inet6 unix : Family
  other : ℕ → Family

-- A sockaddr by its family: sockaddr_in with sin_port and the two words of s_addr, sockaddr_in6
-- with sin6_port, sin6_flowinfo, sin6_addr and sin6_scope_id, and sockaddr_un with sun_path.
pub data Sockaddr : Type 0 where
  sock_in : ℕ → ℕ → ℕ → Sockaddr
  sock_in6 : ℕ → ℕ → Host → ℕ → Sockaddr
  sock_un : Bytes → Sockaddr
  sock_other : ℕ → Sockaddr

pub sockaddr_family : Sockaddr → Family
sockaddr_family (sock_in port a0 a1) = inet
sockaddr_family (sock_in6 port flow_info a scope) = inet6
sockaddr_family (sock_un path) = unix
sockaddr_family (sock_other n) = other n

-- sizeof, on Linux.
abbrev pub size_in : ℕ
size_in = 16

abbrev pub size_in6 : ℕ
size_in6 = 28

-- AF_UNSPEC is the family that the host supports.
pub system_type : Bool → Family → Family
system_type use_ipv6 unspec = if use_ipv6 then inet6 else inet
system_type use_ipv6 inet = inet
system_type use_ipv6 inet6 = inet6
system_type use_ipv6 unix = unix
system_type use_ipv6 (other n) = other n

pub write_address : InternetAddress → ℕ → Family → Option Sockaddr
write_address a length inet6 =
    if leb size_in6 length then some (sock_in6 a.port 0 a.host a.scope_id) else none
write_address a length inet =
    if leb size_in length
    then if is_ipv4 a then some (sock_in a.port a.host.h6 a.host.h7) else none
    else none
write_address a length unspec = none
write_address a length unix = none
write_address a length (other n) = none

-- `none` stands for the result 0; else the result is the size of the sockaddr that is written.
unfoldable pub get_system_address : Bool → InternetAddress → ℕ → Family → Option Sockaddr
unfolding system_type write_address
get_system_address use_ipv6 a length type = write_address a length (system_type use_ipv6 type)

-- The address after the call, and its result. ScopeID is a card16.
unfoldable pub set_system_address : InternetAddress → Sockaddr → InternetAddress × Bool
set_system_address a (sock_in port a0 a1) =
    (record a { port = port; host = mapped a0 a1; valid = true }, true)
set_system_address a (sock_in6 port flow_info h scope) =
    (record a { port = port; host = h; scope_id = scope % 0x1_0000; valid = true }, true)
set_system_address a (sock_un path) = (record (reset a) { valid = true }, false)
set_system_address a (sock_other n) = (record (reset a) { valid = true }, false)

-- init(const sockaddr*, socklen_t) and the constructor from a sockaddr.
unfoldable pub init_sockaddr : InternetAddress → Sockaddr → InternetAddress
unfolding set_system_address
init_sockaddr a s = record ((set_system_address a s).0) { print_format = pf_default }

-- setIPv4Address: the two words of the in_addr; `none` for the result false.
unfoldable pub set_ipv4_address : Bool → InternetAddress → Option (ℕ × ℕ)
set_ipv4_address use_ipv6 a = elim (get_system_address use_ipv6 a size_in inet) [
  | none ↦ none
  | some s ↦ elim s [
    | sock_in port a0 a1 ↦ some (a0, a1)
    | sock_in6 port flow_info h scope ↦ none
    | sock_un path ↦ none
    | sock_other n ↦ none
  ]
]

-- getIPv4Address: an object in the memory `a`, from a sockaddr_in with port 0.
unfoldable pub get_ipv4_address : InternetAddress → ℕ × ℕ → InternetAddress
get_ipv4_address a (a0, a1) = init_sockaddr a (sock_in 0 a0 a1)

-- What an address is after it went through a sockaddr of IPv4.
abbrev pub SameAddress : InternetAddress → InternetAddress → Type 0
SameAddress a b = (a.host ≡ b.host) × (a.port ≡ b.port) × (a.valid ≡ true)

-- What getSystemAddress writes for AF_INET6, setSystemAddress reads back: every address keeps its
-- host, port and scope. A buffer that is too small gets nothing.
pub set_system_address-get_inet6 :
    (use_ipv6 : Bool) (a b : InternetAddress) (length : ℕ)
    → a.scope_id < 0x1_0000
    → ((length < size_in6) × (get_system_address use_ipv6 a length inet6 ≡ none))
      ⊎ ((s : Sockaddr) × (get_system_address use_ipv6 a length inet6 ≡ some s)
          × (SameAddress (set_system_address b s).0 a)
          × ((set_system_address b s).0.scope_id ≡ a.scope_id))
unfolding get_system_address set_system_address
set_system_address-get_inet6 use_ipv6 a b length h = elim (Bool-cases (leb size_in6 length)) [
  | inl e ↦ inr (sock_in6 a.port 0 a.host a.scope_id, rw e, (refl, refl, refl), omega arith)
  | inr e ↦ inl (ground arith, rw e)
]

pub v4_mapped-eq : (h : Host) → v4_mapped h ≡ true → h ≡ mapped h.h6 h.h7
unfolding v4_mapped
v4_mapped-eq h e = ground arith

unspecified-mapped : (h : Host) → unspecified h ≡ true → mapped h.h6 h.h7 ≡ mapped 0 0
unfolding unspecified
unspecified-mapped h e = ground arith

is_ipv4-unspecified :
    (a : InternetAddress) → is_ipv4 a ≡ true → v4_mapped a.host ≡ false → unspecified a.host ≡ true
unfolding is_ipv4
is_ipv4-unspecified a v m = ground arith

-- For AF_INET, getSystemAddress fails where the buffer is too small or the address is none of
-- IPv4, and only there. What it writes is read back as the same address and port if the address is
-- IPv4-mapped;
-- the unspecified IPv6 address comes back as the IPv4-mapped one.
pub set_system_address-get_inet :
    (use_ipv6 : Bool) (a b : InternetAddress) (length : ℕ)
    → (((length < size_in) ⊎ (is_ipv4 a ≡ false))
        × (get_system_address use_ipv6 a length inet ≡ none))
      ⊎ ((s : Sockaddr) × (size_in ≤ length)
          × (is_ipv4 a ≡ true)
          × (get_system_address use_ipv6 a length inet ≡ some s)
          × (((v4_mapped a.host ≡ true) × SameAddress (set_system_address b s).0 a)
              ⊎ ((unspecified a.host ≡ true) × ((set_system_address b s).0.host ≡ mapped 0 0))))
unfolding get_system_address set_system_address
set_system_address-get_inet use_ipv6 a b length = elim (Bool-cases (leb size_in length)) [
  | inl e ↦ elim (Bool-cases (is_ipv4 a)) [
    | inl v ↦ elim (Bool-cases (v4_mapped a.host)) [
      | inl m ↦ inr (
        sock_in a.port a.host.h6 a.host.h7,
        ground arith,
        v,
        rw (e, v),
        inl (m, (sym (v4_mapped-eq a.host m), refl, refl)),
      )
      | inr m ↦ inr (
        sock_in a.port a.host.h6 a.host.h7,
        ground arith,
        v,
        rw (e, v),
        inr (is_ipv4-unspecified a v m, unspecified-mapped a.host (is_ipv4-unspecified a v m)),
      )
    ]
    | inr v ↦ inl (inr v, rw (e, v))
  ]
  | inr e ↦ inl (inl (ground arith), rw e)
]
