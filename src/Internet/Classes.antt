-- ===== src/Internet/Classes.antt =====
-- The classes of addresses (socketapi/internetaddress.icc) over the tests of <netinet/in.h>.
use socketapi.Prelude.{
  ℕ, ◌+◌, ◌*◌, ◌/◌, ◌%◌, ◌≡◌, Bool, true, false, List, [], ◌∷◌, not, ◌&&◌, ◌||◌, ◌==◌, leb, ltb,
  if◌then◌else◌, arith,
}
use socketapi.Internet.{Host, InternetAddress, words, swap16, swap32, host32, IsHost}

-- The loop of isNull and isUnspecified: only 0, or 0xffff in the word 5, may stand in a word.
zero_or_mapped : List ℕ → ℕ → Bool
zero_or_mapped [] i = true
zero_or_mapped (w ∷ ws) i =
    if w == 0 then zero_or_mapped ws (i + 1) else i == 5 && w == 0xffff && zero_or_mapped ws (i + 1)

unfoldable pub is_unspecified : InternetAddress → Bool
unfolding zero_or_mapped
is_unspecified a = zero_or_mapped (words a.host) 0

unfoldable pub is_null : InternetAddress → Bool
unfolding zero_or_mapped
is_null a = zero_or_mapped (words a.host) 0 && a.port == 0

-- IN6_IS_ADDR_V4MAPPED, IN6_IS_ADDR_UNSPECIFIED, IN6_IS_ADDR_V4COMPAT and IN6_IS_ADDR_LOOPBACK.
pub first_zero : Host → Bool
first_zero h = h.h0 == 0 && h.h1 == 0 && h.h2 == 0 && h.h3 == 0 && h.h4 == 0

unfoldable pub v4_mapped : Host → Bool
unfolding first_zero
v4_mapped h = first_zero h && h.h5 == 0xffff

unfoldable pub unspecified : Host → Bool
unfolding first_zero
unspecified h = first_zero h && h.h5 == 0 && h.h6 == 0 && h.h7 == 0

v4_compat : Host → Bool
unfolding first_zero
v4_compat h = first_zero h && h.h5 == 0 && ltb 1 (swap32 (host32 h))

loopback6 : Host → Bool
unfolding first_zero
loopback6 h = first_zero h && h.h5 == 0 && h.h6 == 0 && h.h7 == 0x100

-- IN6_IS_ADDR_MULTICAST, and the scopes of it, which stand in the second byte.
multicast6 : Host → Bool
multicast6 h = h.h0 % 256 == 0xff

mc_scope : Host → ℕ → Bool
unfolding multicast6
mc_scope h scope = multicast6 h && h.h0 / 256 % 16 == scope

-- Prefixes fe80::/10 and fec0::/10.
pub link_local6 : Host → Bool
link_local6 h = swap16 h.h0 / 64 == 0x3fa

site_local6 : Host → Bool
site_local6 h = swap16 h.h0 / 64 == 0x3fb

-- ntohl(AddrSpec.Host32[3]), and the two bytes of ntohs(AddrSpec.Host16[6]).
unfoldable pub ipv4 : InternetAddress → ℕ
ipv4 a = swap32 (host32 a.host)

pub byte_a : InternetAddress → ℕ
byte_a a = swap16 a.host.h6 / 256 % 256

pub byte_b : InternetAddress → ℕ
byte_b a = swap16 a.host.h6 % 256

-- IN_MULTICAST, IN_BADCLASS and IN_EXPERIMENTAL (as glibc has it).
in_multicast : ℕ → Bool
in_multicast x = x / 0x1000_0000 == 0xe

in_badclass : ℕ → Bool
in_badclass x = x / 0x1000_0000 == 0xf

in_experimental : ℕ → Bool
in_experimental x = x / 0x2000_0000 == 7

unfoldable pub is_ipv6 : InternetAddress → Bool
unfolding v4_mapped
is_ipv6 a = not (v4_mapped a.host)

unfoldable pub is_ipv4 : InternetAddress → Bool
unfolding v4_mapped unspecified
is_ipv4 a = v4_mapped a.host || unspecified a.host

unfoldable pub is_ipv4_compatible : InternetAddress → Bool
unfolding v4_compat
is_ipv4_compatible a = v4_compat a.host

unfoldable pub is_loopback : InternetAddress → Bool
unfolding loopback6
is_loopback a = if is_ipv6 a then loopback6 a.host else byte_a a == 127

unfoldable pub is_multicast : InternetAddress → Bool
unfolding multicast6 in_multicast
is_multicast a = if is_ipv6 a then multicast6 a.host else in_multicast (ipv4 a)

unfoldable pub is_broadcast : InternetAddress → Bool
is_broadcast a = if is_ipv6 a then false else ipv4 a == 0xffff_ffff

unfoldable pub is_unicast : InternetAddress → Bool
is_unicast a = not (is_multicast a || is_broadcast a)

unfoldable pub is_reserved : InternetAddress → Bool
unfolding in_badclass in_experimental
is_reserved a = if is_ipv6 a then false else in_badclass (ipv4 a) || in_experimental (ipv4 a)

-- For IPv4 the network 127, which is not cut to a card8 here.
unfoldable pub is_link_local : InternetAddress → Bool
unfolding link_local6
is_link_local a = if is_ipv6 a then link_local6 a.host else swap16 a.host.h6 / 256 == 127

unfoldable pub is_site_local : InternetAddress → Bool
unfolding site_local6
is_site_local a =
    if is_ipv6 a
    then site_local6 a.host
    else if byte_a a == 127 || byte_a a == 10
    then true
    else if byte_a a == 192 && byte_b a == 168
    then true
    else byte_a a == 172 && leb 13 (byte_b a) && leb (byte_b a) 31

unfoldable pub is_global : InternetAddress → Bool
is_global a = not (is_site_local a || is_link_local a || is_loopback a)

unfoldable pub is_node_local_multicast : InternetAddress → Bool
unfolding mc_scope
is_node_local_multicast a = if is_ipv6 a then mc_scope a.host 1 else false

-- (x & INADDR_MAX_LOCAL_GROUP) == x: no bit but those of 0xe00000ff.
unfoldable pub is_link_local_multicast : InternetAddress → Bool
unfolding mc_scope in_multicast
is_link_local_multicast a =
    if is_ipv6 a
    then mc_scope a.host 2
    else in_multicast (ipv4 a) && ipv4 a / 0x2000_0000 % 8 * 0x2000_0000 + ipv4 a % 256 == ipv4 a

unfoldable pub is_site_local_multicast : InternetAddress → Bool
unfolding mc_scope
is_site_local_multicast a = if is_ipv6 a then mc_scope a.host 5 else false

unfoldable pub is_org_local_multicast : InternetAddress → Bool
unfolding mc_scope
is_org_local_multicast a = if is_ipv6 a then mc_scope a.host 8 else false

unfoldable pub is_global_multicast : InternetAddress → Bool
unfolding mc_scope
is_global_multicast a = if is_ipv6 a then mc_scope a.host 0xe else false

-- The first two of the four octets of an IPv4 address, in the order in which they are written.
abbrev pub octet_a : InternetAddress → ℕ
octet_a a = a.host.h6 % 256

abbrev pub octet_b : InternetAddress → ℕ
octet_b a = a.host.h6 / 256

ipv4-octets :
    (a : InternetAddress)
    → IsHost a.host
    → (ipv4 a / 0x100_0000 ≡ octet_a a)
      × (byte_a a ≡ octet_a a)
      × (byte_b a ≡ octet_b a)
      × (swap16 a.host.h6 / 256 ≡ octet_a a)
unfolding ipv4 byte_a byte_b swap16 swap32 host32
ipv4-octets a h = omega arith

-- An IPv4 address is a multicast, a reserved, a loopback and a link-local address by its first octet:
-- 224 to 239, 224 and more, 127, and 127. It is not both a multicast and a broadcast address.
pub kinds_by_octet :
    (a : InternetAddress)
    → IsHost a.host
    → is_ipv6 a ≡ false
    → (is_multicast a ≡ (leb 224 (octet_a a) && leb (octet_a a) 239))
      × (is_reserved a ≡ leb 224 (octet_a a))
      × (is_loopback a ≡ (octet_a a == 127))
      × (is_link_local a ≡ (octet_a a == 127))
      × ((is_multicast a && is_broadcast a) ≡ false)
unfolding is_multicast is_broadcast is_reserved is_loopback is_link_local in_multicast in_badclass
    in_experimental
kinds_by_octet a h v = (
  ground (arith, ipv4-octets a h),
  ground (arith, ipv4-octets a h),
  ground (arith, ipv4-octets a h),
  ground (arith, ipv4-octets a h),
  ground (arith, ipv4-octets a h),
)

-- An IPv4 address is site-local exactly if it is in 127/8, in one of the private networks 10/8,
-- 192.168/16 and 172.16/12, or in 172.13, 172.14 or 172.15, which are public.
pub is_site_local_by_octet :
    (a : InternetAddress)
    → IsHost a.host
    → is_ipv6 a ≡ false
    → is_site_local a ≡ (
        octet_a a == 127
        || octet_a a == 10
        || (octet_a a == 192 && octet_b a == 168)
        || (octet_a a == 172 && octet_b a / 16 == 1)
        || (octet_a a == 172 && leb 13 (octet_b a) && leb (octet_b a) 15))
unfolding is_site_local
is_site_local_by_octet a h v = ground (arith, ipv4-octets a h)
