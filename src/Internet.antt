-- ===== src/Internet.antt =====
-- The class InternetAddress (socketapi/internetaddress.h, .icc and .cc): its state, the
-- constructors and initialisers from numbers and from other addresses, and the byte order.
-- The model is of a little-endian host, where ntohs and htons swap the bytes of a card16.
pub mod System
pub mod Order
pub mod Portable
pub mod Classes
pub mod Lookup
pub mod Parse
pub mod Print
pub mod RoundTrip
pub mod Checksum
pub mod Numeric
mod Tests
use Prim.Native.Nat.{bit_and}
use socketapi.Prelude.{
  ℕ, ◌+◌, ◌*◌, ◌/◌, ◌%◌, ◌<◌, ◌≡◌, Bool, true, false, List, [], ◌∷◌, Option, Bytes, not, ◌==◌,
  arith,
}

-- The eight words of AddrSpec.Host16, each as it lies in memory.
pub record Host : Type 0 where
  pub h0 : ℕ
  pub h1 : ℕ
  pub h2 : ℕ
  pub h3 : ℕ
  pub h4 : ℕ
  pub h5 : ℕ
  pub h6 : ℕ
  pub h7 : ℕ

abbrev pub words : Host → List ℕ
words a = a.h0 ∷ a.h1 ∷ a.h2 ∷ a.h3 ∷ a.h4 ∷ a.h5 ∷ a.h6 ∷ a.h7 ∷ []

-- Port is in network byte order.
pub record InternetAddress : Type 0 where
  pub host : Host
  pub port : ℕ
  pub scope_id : ℕ
  pub valid : Bool
  pub print_format : ℕ

-- The print formats of socketapi/socketaddress.h.
abbrev pub pf_address : ℕ
pf_address = 1

abbrev pub pf_hostname : ℕ
pf_hostname = 2

abbrev pub pf_hide_port : ℕ
pf_hide_port = 0x8000

abbrev pub pf_legacy : ℕ
pf_legacy = 0x1_0000

abbrev pub pf_default : ℕ
pf_default = 0x1_0001

-- A test `flags & mask`.
pub has_flag : ℕ → ℕ → Bool
has_flag flags mask = not (bit_and flags mask == 0)

-- ntohs and htons; ntohl and htonl.
unfoldable pub swap16 : ℕ → ℕ
swap16 x = x % 256 * 256 + x / 256

unfoldable pub swap32 : ℕ → ℕ
swap32 x =
    x % 256 * 0x100_0000 + x / 256 % 256 * 0x1_0000 + x / 0x1_0000 % 256 * 256 + x / 0x100_0000

-- AddrSpec.Host32[3]: the last two words read as one.
unfoldable pub host32 : Host → ℕ
host32 a = a.h6 + 0x1_0000 * a.h7

abbrev pub zero_host : Host
zero_host = record { h0 = 0; h1 = 0; h2 = 0; h3 = 0; h4 = 0; h5 = 0; h6 = 0; h7 = 0 }

-- An IPv4 address as an IPv4-mapped IPv6 address: 0xffff has the same bytes in both orders.
abbrev pub mapped : ℕ → ℕ → Host
mapped a0 a1 = record { h0 = 0; h1 = 0; h2 = 0; h3 = 0; h4 = 0; h5 = 0xffff; h6 = a0; h7 = a1 }

unfoldable pub get_port : InternetAddress → ℕ
get_port a = swap16 a.port

pub set_port : InternetAddress → ℕ → InternetAddress
set_port a port = record a { port = swap16 port }

unfoldable pub reset : InternetAddress → InternetAddress
unfolding set_port
reset a = record (set_port (record a { host = zero_host; scope_id = 0; valid = true }) 0) {
  print_format = pf_default;
}

-- init(const card16 port).
unfoldable pub init_port : InternetAddress → ℕ → InternetAddress
unfolding set_port
init_port a port =
    record (set_port (record a { host = zero_host; scope_id = 0; valid = true }) port) {
      print_format = pf_default;
    }

-- init(const InternetAddress&), which the copy constructor and the assignment call.
unfoldable pub init_copy : InternetAddress → InternetAddress → InternetAddress
init_copy a b = record {
  host = b.host;
  port = b.port;
  scope_id = b.scope_id;
  valid = b.valid;
  print_format = b.print_format;
}

-- InternetAddress(): the argument is the memory that the object is made in.
unfoldable pub new_address : InternetAddress → InternetAddress
unfolding reset
new_address a = record (reset a) { valid = false }

-- The class PortableAddress (socketapi/portableaddress.h and .icc).
pub record PortableAddress : Type 0 where
  pub host : Host
  pub port : ℕ

unfoldable pub get_portable_address : InternetAddress → PortableAddress
get_portable_address a = record { host = a.host; port = a.port }

-- init(const PortableAddress&) and the constructor from one.
unfoldable pub init_portable : InternetAddress → PortableAddress → InternetAddress
init_portable a p = record {
  host = p.host;
  port = p.port;
  scope_id = 0;
  valid = true;
  print_format = pf_default;
}

-- Every field is in the range of its C type.
abbrev pub IsHost : Host → Type 0
IsHost a =
    (a.h0 < 0x1_0000)
    × (a.h1 < 0x1_0000)
    × (a.h2 < 0x1_0000)
    × (a.h3 < 0x1_0000)
    × (a.h4 < 0x1_0000)
    × (a.h5 < 0x1_0000)
    × (a.h6 < 0x1_0000)
    × (a.h7 < 0x1_0000)

pub record IsWord (a : InternetAddress) : Type 0 where
  pub host_words : IsHost a.host
  pub port_word : a.port < 0x1_0000

-- Swapping the bytes twice gives the word back, and a swapped word is a word.
pub swap16-swap16 : (x : ℕ) → x < 0x1_0000 → swap16 (swap16 x) ≡ x
unfolding swap16
swap16-swap16 x h = omega arith

pub swap16-lt : (x : ℕ) → x < 0x1_0000 → swap16 x < 0x1_0000
unfolding swap16
swap16-lt x h = omega arith

pub swap32-swap32 : (x : ℕ) → x < 0x1_0000_0000 → swap32 (swap32 x) ≡ x
unfolding swap32
swap32-swap32 x h = omega arith

-- Reading the last two words as one number in network byte order puts the first in front.
pub swap32-host32 : (a : Host) → IsHost a → swap32 (host32 a) ≡ swap16 a.h6 * 0x1_0000 + swap16 a.h7
unfolding swap32 host32 swap16
swap32-host32 a h = omega arith
