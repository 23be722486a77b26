-- ===== src/Unix.antt =====
-- The class UnixAddress (socketapi/unixaddress.h, .icc and .cc): the name of a local socket.
pub mod Laws
mod Tests
use socketapi.Prelude.{
  ℕ, Bool, true, false, not, ◌∷◌, [], ◌++◌, Option, none, some, Bytes, codes, take, ltb, leb,
  if◌then◌else◌,
}
use socketapi.Strings.{
  Text, string_length, left, mid_from, eq_text, ne_text, lt_text, gt_text, le_text, ge_text, plus,
  chars,
}
use socketapi.Internet.System.{
  Family, unspec, unix, inet, inet6, other, Sockaddr, sock_in, sock_in6, sock_un, sock_other,
}

-- MaxNameLength is the size of sun_path; the other is that of sockaddr_un.
abbrev pub max_name_length : ℕ
max_name_length = 108

abbrev pub size_un : ℕ
size_un = 110

-- Name, up to its NUL.
pub record UnixAddress : Type 0 where
  pub name : Bytes

abbrev pub unix_reset : UnixAddress
unix_reset = record { name = [] }

abbrev pub unix_prefix : Bytes
unix_prefix = codes "unix:"

-- init(const String&), which begins with an empty name.
unfoldable pub unix_init : Text → UnixAddress
unix_init t =
    if ltb (string_length t) max_name_length
    then if eq_text (some (left t 5)) (some unix_prefix)
      then record { name = mid_from t 5 }
      else unix_reset
    else unix_reset

-- init(const UnixAddress&), which the copy constructor and the assignment call: it hands the name
-- to init as a text.
unfoldable pub unix_copy : UnixAddress → UnixAddress
unix_copy a = unix_init (some a.name)

abbrev pub unix_is_null : UnixAddress → Bool
unix_is_null a = elim (a.name) [ [] ↦ true | c ∷ s ↦ false ]

unfoldable pub unix_is_valid : UnixAddress → Bool
unix_is_valid a = not (unix_is_null a)

unfoldable pub unix_address_string : UnixAddress → Bytes
unix_address_string a =
    if unix_is_null a then codes "(invalid)" else chars (plus (some unix_prefix) (some a.name))

-- `none` stands for the result 0.
unfoldable pub unix_get_system_address : UnixAddress → ℕ → Family → Option Sockaddr
unix_get_system_address a length unspec =
    if leb size_un length then some (sock_un (take max_name_length a.name)) else none
unix_get_system_address a length unix =
    if leb size_un length then some (sock_un (take max_name_length a.name)) else none
unix_get_system_address a length inet = none
unix_get_system_address a length inet6 = none
unix_get_system_address a length (other n) = none

-- The address after the call, and its result.
unfoldable pub unix_set_system_address : UnixAddress → Sockaddr → UnixAddress × Bool
unix_set_system_address a (sock_un path) = (record { name = take max_name_length path }, true)
unix_set_system_address a (sock_in port a0 a1) = (unix_reset, false)
unix_set_system_address a (sock_in6 port flow_info h scope) = (unix_reset, false)
unix_set_system_address a (sock_other n) = (unix_reset, false)

-- The operators compare the names by strcmp, as those of String do.
pub eq_unix : UnixAddress → UnixAddress → Bool
eq_unix a b = eq_text (some a.name) (some b.name)

pub ne_unix : UnixAddress → UnixAddress → Bool
ne_unix a b = ne_text (some a.name) (some b.name)

pub lt_unix : UnixAddress → UnixAddress → Bool
lt_unix a b = lt_text (some a.name) (some b.name)

pub gt_unix : UnixAddress → UnixAddress → Bool
gt_unix a b = gt_text (some a.name) (some b.name)

pub le_unix : UnixAddress → UnixAddress → Bool
le_unix a b = le_text (some a.name) (some b.name)

pub ge_unix : UnixAddress → UnixAddress → Bool
ge_unix a b = ge_text (some a.name) (some b.name)
