-- ===== src/Addresses.antt =====
-- The class SocketAddress (socketapi/socketaddress.cc): which address a name, a family or a sockaddr
-- is made into.
use socketapi.Prelude.{
  ℕ, ◌≡◌, refl, Bool, true, false, ◌⊎◌, inl, inr, Option, none, some, if◌then◌else◌, Bool-cases,
}
use socketapi.Strings.{Text}
use socketapi.Internet.{InternetAddress, new_address, has_flag, pf_hide_port}
use socketapi.Internet.System.{
  Family, unspec, inet, inet6, unix, other, Sockaddr, sock_in, sock_in6, sock_un, sock_other,
  init_sockaddr,
}
use socketapi.Internet.Lookup.{Net, new_host_port}
use socketapi.Internet.Parse.{parse}
use socketapi.Unix.{UnixAddress, unix_reset, unix_init, unix_is_valid, unix_set_system_address}

-- An object of one of the two classes. `new` never returns NULL.
pub data SocketAddress : Type 0 where
  internet : InternetAddress → SocketAddress
  local : UnixAddress → SocketAddress

pub is_valid : SocketAddress → Bool
is_valid (internet a) = a.valid
is_valid (local a) = unix_is_valid a

-- An object that is kept if it is valid, and deleted if not.
abbrev pub if_valid : SocketAddress → Option SocketAddress
if_valid a = if is_valid a then some a else none

-- createSocketAddress(family). The argument `m` is the memory that an object is made in.
unfoldable pub create_for_family : InternetAddress → Family → Option SocketAddress
create_for_family m inet = some (internet (new_address m))
create_for_family m inet6 = some (internet (new_address m))
create_for_family m unix = some (local unix_reset)
create_for_family m unspec = none
create_for_family m (other n) = none

abbrev pub internet_of_name : Bool → Net → InternetAddress → ℕ → Text → InternetAddress
internet_of_name use_ipv6 net m flags name =
    if has_flag flags pf_hide_port
    then new_host_port use_ipv6 net m name 0
    else parse use_ipv6 net m name

-- createSocketAddress(flags, name).
unfoldable pub create_from_name : Bool → Net → InternetAddress → ℕ → Text → Option SocketAddress
create_from_name use_ipv6 net m flags name =
    let a = internet_of_name use_ipv6 net m flags name in
    let unix_address = if_valid (local (unix_init name)) in
    if is_valid (internet a) then some (internet a) else unix_address

-- createSocketAddress(flags, name, port).
unfoldable pub create_with_port : Bool → Net → InternetAddress → Text → ℕ → Option SocketAddress
create_with_port use_ipv6 net m name port =
    if_valid (internet (new_host_port use_ipv6 net m name port))

-- createSocketAddress(flags, address, length).
unfoldable pub create_from_sockaddr : InternetAddress → Sockaddr → Option SocketAddress
create_from_sockaddr m (sock_in port a0 a1) =
    if_valid (internet (init_sockaddr m (sock_in port a0 a1)))
create_from_sockaddr m (sock_in6 port flow_info h scope) =
    if_valid (internet (init_sockaddr m (sock_in6 port flow_info h scope)))
create_from_sockaddr m (sock_un path) =
    if_valid (local (unix_set_system_address unix_reset (sock_un path)).0)
create_from_sockaddr m (sock_other n) = none

-- What is not `none` is valid.
abbrev pub OnlyValid : Option SocketAddress → Type 0
OnlyValid o = (o ≡ none) ⊎ ((a : SocketAddress) × (o ≡ some a) × (is_valid a ≡ true))

if_valid-OnlyValid : (a : SocketAddress) → OnlyValid (if_valid a)
if_valid-OnlyValid a = elim (Bool-cases (is_valid a)) [
  | inl e ↦ inr (a, rw e refl, e)
  | inr e ↦ inl (rw e refl)
]

from_sockaddr-OnlyValid :
    (m : InternetAddress) (s : Sockaddr) → OnlyValid (create_from_sockaddr m s)
unfolding create_from_sockaddr
from_sockaddr-OnlyValid m (sock_in port a0 a1) =
    if_valid-OnlyValid (internet (init_sockaddr m (sock_in port a0 a1)))
from_sockaddr-OnlyValid m (sock_in6 port flow_info h scope) =
    if_valid-OnlyValid (internet (init_sockaddr m (sock_in6 port flow_info h scope)))
from_sockaddr-OnlyValid m (sock_un path) =
    if_valid-OnlyValid (local (unix_set_system_address unix_reset (sock_un path)).0)
from_sockaddr-OnlyValid m (sock_other n) = inl refl

-- What the calls make of a name, a name with a port, and a sockaddr is NULL or a valid address.
pub create-OnlyValid :
    (use_ipv6 : Bool) (net : Net) (m : InternetAddress) (flags port : ℕ) (name : Text)
    (s : Sockaddr)
    → OnlyValid (create_from_name use_ipv6 net m flags name)
      × OnlyValid (create_with_port use_ipv6 net m name port)
      × OnlyValid (create_from_sockaddr m s)
unfolding create_from_name create_with_port
create-OnlyValid use_ipv6 net m flags port name s = (
  from_name (Bool-cases (is_valid (internet (internet_of_name use_ipv6 net m flags name)))),
  if_valid-OnlyValid (internet (new_host_port use_ipv6 net m name port)),
  from_sockaddr-OnlyValid m s,
)
  where
    a : InternetAddress
    a = internet_of_name use_ipv6 net m flags name

    from_name :
        (is_valid (internet a) ≡ true) ⊎ (is_valid (internet a) ≡ false)
        → OnlyValid (create_from_name use_ipv6 net m flags name)
    from_name (inl e) = inr (internet a, rw e refl, e)
    from_name (inr e) = rw e (if_valid-OnlyValid (local (unix_init name)))
