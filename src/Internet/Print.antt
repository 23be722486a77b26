-- ===== src/Internet/Print.antt =====
-- InternetAddress::getAddressString (socketapi/internetaddress.cc). getnameinfo and if_indextoname
-- are the arguments `Names`; the buffers are long enough for what is printed into them.
use socketapi.Prelude.{
  ℕ, zero, suc, ◌+◌, ◌-◌, ◌/◌, ◌%◌, ◌≡◌, refl, Bool, true, false, List, [], ◌∷◌, ◌++◌, not, ◌&&◌,
  ◌||◌, ◌==◌, leb, ltb, if◌then◌else◌, Option, none, some, Bytes, codes, get_or, length,
}
use socketapi.Strings.Decimal.{decimal}
use socketapi.Internet.{
  Host, InternetAddress, words, swap16, swap32, host32, get_port, has_flag, pf_address, pf_hostname,
  pf_hide_port, pf_legacy, mapped, zero_host, pf_default,
}
use socketapi.Internet.Classes.{is_ipv4, is_ipv6, is_link_local, ipv4}
use socketapi.Internet.System.{Sockaddr, unspec, get_system_address, size_in6}

-- The name of a host and of a service for a sockaddr (none is passed on where getSystemAddress
-- failed), and the name of an interface.
pub record Names : Type 0 where
  pub name_info : Option Sockaddr → Option (Bytes × Bytes)
  pub interface_name : ℕ → Option Bytes

-- %x.
hex_digit : ℕ → ℕ
hex_digit d = if ltb d 10 then b'0' + d else b'a' + d - 10

hex_digits : ℕ → ℕ → Bytes → Bytes
unfolding hex_digit
hex_digits zero n out = out
hex_digits (suc f) n out =
    let rest = hex_digits f (n / 16) (hex_digit (n % 16) ∷ out) in if n == 0 then out else rest

hex : ℕ → Bytes
unfolding hex_digits
hex n = if n == 0 then b'0' ∷ [] else hex_digits n n []

-- %d.%d.%d.%d over the four octets of ntohl(AddrSpec.Host32[3]).
unfoldable pub dotted : ℕ → Bytes
dotted x =
    decimal (x / 0x100_0000)
    ++ (b'.' ∷ decimal (x / 0x1_0000 % 256)
        ++ (b'.' ∷ decimal (x / 0x100 % 256) ++ (b'.' ∷ decimal (x % 256))))

-- The first position behind `i` with a word that is not 0, or 8.
next_nonzero : List ℕ → ℕ → ℕ → ℕ
next_nonzero [] i pos = 8
next_nonzero (w ∷ ws) i pos = if ltb i pos && not (w == 0) then pos else next_nonzero ws i (pos + 1)

-- One round: the text for the word i, the new i, and whether zeros have been left out.
hex_round : List ℕ → ℕ → Bool → Bytes × ℕ × Bool
unfolding hex next_nonzero
hex_round ws i compressed =
    let value = swap16 (get_or ws i 0) in
    let j = next_nonzero ws i 0 in
    if not (value == 0) || compressed || i == 7 || j == i + 1
    then (hex value, i, compressed)
    else (if i == 0 || j == 8 then b':' ∷ [] else [], j - 1, true)

-- The loop `for(i = 0;i < length;i++)`, which needs 8 rounds at most.
hex_loop : ℕ → ℕ → List ℕ → ℕ → Bool → Bytes
unfolding hex_round
hex_loop zero len ws i compressed = []
hex_loop (suc f) len ws i compressed =
    let (str, k, more) = hex_round ws i compressed in
    let rest = hex_loop f len ws (k + 1) more in
    if ltb i len then str ++ ((if ltb k 7 then b':' ∷ [] else []) ++ rest) else []

-- With the second colon of "::".
hex_words : Host → ℕ → Bytes
unfolding hex_loop
hex_words h len =
    let out = hex_loop 8 len (words h) 0 false in
    if leb (length out) 1 then out ++ b':' ∷ [] else out

scope_text : Names → ℕ → Bytes
scope_text names scope = elim (names.interface_name scope) [
  | none ↦ codes "%(BAD!)"
  | some name ↦ b'%' ∷ name
]

-- The branch in IPv6 notation, in square brackets if the port is printed.
ipv6_text : Names → ℕ → InternetAddress → Bytes
unfolding hex_words scope_text
ipv6_text names format a =
    let open_bracket = if has_flag format pf_hide_port then [] else b'[' ∷ [] in
    let hexes = hex_words a.host (if is_ipv6 a then 8 else 6) in
    let tail = if is_ipv6 a then [] else dotted (ipv4 a) in
    let scope = if is_ipv6 a && is_link_local a then scope_text names a.scope_id else [] in
    let port = if has_flag format pf_hide_port then [] else codes "]:" ++ decimal (get_port a) in
    open_bracket ++ (hexes ++ (tail ++ (scope ++ port)))

-- The branch in IPv4 notation.
pub ipv4_text : ℕ → InternetAddress → Bytes
ipv4_text format a =
    dotted (ipv4 a) ++ (if has_flag format pf_hide_port then [] else b':' ∷ decimal (get_port a))

-- hostString.
host_text : Bool → Names → ℕ → InternetAddress → Bytes
host_text use_ipv6 names format a =
    if has_flag format pf_hostname
    then elim (names.name_info (get_system_address use_ipv6 a size_in6 unspec)) [
      | none ↦ []
      | some (cname, sname) ↦
          if has_flag format pf_hide_port then cname else cname ++ (b':' ∷ sname)
    ]
    else []

abbrev pub is_empty : Bytes → Bool
is_empty [] = true
is_empty (c ∷ s) = false

-- addressString, given hostString.
address_text : Bool → Names → ℕ → InternetAddress → Bytes → Bytes
address_text use_ipv6 names format a host =
    if has_flag format pf_address || (has_flag format pf_hostname && is_empty host)
    then if (use_ipv6 && not (has_flag format pf_legacy)) || not (is_ipv4 a)
      then ipv6_text names format a
      else ipv4_text format a
    else []

join_texts : Bytes → Bytes → Bytes
join_texts host address =
    if not (is_empty host) && not (is_empty address)
    then host ++ (codes " (" ++ (address ++ b')' ∷ []))
    else host ++ address

pub get_address_string : Bool → Names → ℕ → InternetAddress → Bytes
unfolding host_text address_text join_texts
get_address_string use_ipv6 names format a =
    let host = host_text use_ipv6 names format a in
    if not a.valid
    then codes "(invalid)"
    else if not (has_flag format pf_hostname || has_flag format pf_address)
    then codes "(check print format)"
    else join_texts host (address_text use_ipv6 names format a host)

-- The default format of an IPv4 address is its octets and its port.
pub get_address_string-default :
    (use_ipv6 : Bool) (names : Names) (a : InternetAddress)
    → a.valid ≡ true
    → is_ipv4 a ≡ true
    → get_address_string use_ipv6 names pf_default a
      ≡ dotted (ipv4 a) ++ (b':' ∷ decimal (get_port a))
unfolding get_address_string ipv4_text has_flag
get_address_string-default true names a v f = simp (v, f)
get_address_string-default false names a v f = simp (v, f)

nowhere : Names
nowhere = record { name_info = λ s. none; interface_name = λ n. none }

sample : Host → InternetAddress
sample h = record { host = h; port = 0x5000; scope_id = 0; valid = true; print_format = pf_default }

print_any : get_address_string true nowhere 1 (sample zero_host) ≡ codes "[::]:80"
unfolding get_address_string nowhere sample has_flag is_ipv4 is_ipv6 is_link_local decimal ipv6_text
    swap16 get_port
print_any = refl

print_mapped :
    get_address_string true nowhere 1 (sample (mapped 0x007f 0x0100))
    ≡ codes "[::ffff:127.0.0.1]:80"
unfolding get_address_string nowhere sample has_flag is_ipv4 is_ipv6 is_link_local decimal ipv6_text
    swap16 swap32 host32 dotted get_port ipv4
print_mapped = refl
