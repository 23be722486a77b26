-- ===== src/Internet/RoundTrip.antt =====
-- getAddressString and the constructor from a text (socketapi/internetaddress.cc) together.
use socketapi.Prelude.{
  false, ◌⊎◌, inl, inr, ℕ, ◌/◌, ◌%◌, ◌^◌, ◌<◌, ◌≤◌, ◌≡◌, ◌≢◌, refl, sym, ◌∙◌, Bool, true, [], ◌∷◌,
  ◌++◌, arith, some, Bytes, All, All-append, Lacks, get_or, length, length-append,
}
use socketapi.Strings.Decimal.{
  decimal, decimal-Digits, length-decimal, Digits, is_digit, decimal-StartsDigit, StartsDigit,
}
use socketapi.Internet.{
  Host, InternetAddress, swap16, swap32, host32, IsHost, IsWord, pf_default, get_port,
  swap16-swap16, swap16-lt,
}
use socketapi.Internet.Classes.{ipv4, is_ipv4, v4_mapped}
use socketapi.Internet.System.{Family, unspec, inet, sock_in, SameAddress, v4_mapped-eq}
use socketapi.Internet.Lookup.{
  Net, numeric_host, is_numeric, digits_and_dots, host_family, get_host_by_name-numeric,
  init_host-host4,
}
use socketapi.Internet.Parse.{parse}
use socketapi.Internet.Parse.Forms.{parse_host_port}
use socketapi.Internet.Print.{Names, dotted, get_address_string, get_address_string-default}

-- Asked for AF_UNSPEC or AF_INET, getaddrinfo reads the number of an IPv4 address, written as inet_ntoa
-- writes it, for itself.
abbrev pub ReadsNumbers : Net → Type 0
ReadsNumbers net =
    (h : Host) (family : Family)
    → IsHost h
    → (family ≡ unspec) ⊎ (family ≡ inet)
    → (port : ℕ) × (net.lookup_host (dotted (swap32 (host32 h))) family numeric_host
        ≡ some (sock_in port h.h6 h.h7))

-- getHostByName asks for no other family.
host_family-asked : (b : Bool) → (host_family b ≡ unspec) ⊎ (host_family b ≡ inet)
unfolding host_family
host_family-asked true = inl refl
host_family-asked false = inr refl

abbrev DigitsDots : Bytes → Type 0
DigitsDots = All (λ c. (b'.' ≤ c) × (c ≢ b'/') × (c ≤ b'9'))

decimal-DigitsDots : (s : Bytes) → Digits s → DigitsDots s
decimal-DigitsDots [] d = tt
decimal-DigitsDots (c ∷ s) d = (omega arith, decimal-DigitsDots s d.1)

dot-DigitsDots : (n : ℕ) (t : Bytes) → DigitsDots t → DigitsDots (decimal n ++ b'.' ∷ t)
dot-DigitsDots n t d =
    All-append _ (decimal n) (b'.' ∷ t) (decimal-DigitsDots (decimal n) (decimal-Digits n))
      (omega arith, d)

dotted-DigitsDots : (x : ℕ) → DigitsDots (dotted x)
unfolding dotted
dotted-DigitsDots x = dot-DigitsDots (x / 0x100_0000) _ (
    dot-DigitsDots (x / 0x1_0000 % 256) _ (
      dot-DigitsDots (x / 0x100 % 256) (decimal (x % 256))
        (decimal-DigitsDots (decimal (x % 256)) (decimal-Digits (x % 256)))))

digits_and_dots-DigitsDots : (s : Bytes) → DigitsDots s → digits_and_dots s ≡ true
unfolding digits_and_dots is_digit
digits_and_dots-DigitsDots [] d = refl
digits_and_dots-DigitsDots (c ∷ s) d = ground (arith, digits_and_dots-DigitsDots s d.1)

dotted-is_numeric : (x : ℕ) → is_numeric (dotted x) ≡ true
unfolding is_numeric
dotted-is_numeric x = ground (arith, digits_and_dots-DigitsDots (dotted x) (dotted-DigitsDots x))

DigitsDots-Lacks : (s : Bytes) → DigitsDots s → Lacks b'(' s
DigitsDots-Lacks [] d = tt
DigitsDots-Lacks (c ∷ s) d = (ground arith, DigitsDots-Lacks s d.1)

StartsDigit-first : (s : Bytes) → StartsDigit s → (s ≢ []) × (get_or s 0 0 ≢ b'[')
StartsDigit-first [] h = absurd h
StartsDigit-first (c ∷ s) h = (λ e. cc, λ e. omega arith)

dotted-first : (x : ℕ) → (dotted x ≢ []) × (get_or (dotted x) 0 0 ≢ b'[')
unfolding dotted
dotted-first x = StartsDigit-first (dotted x) (decimal-StartsDigit (x / 0x100_0000) _)

length-dotted : (x : ℕ) → x < 2 ^ 32 → length (dotted x) ≤ 1100
unfolding dotted
length-dotted x h =
    let o1 = x / 0x100_0000 in
    let o2 = x / 0x1_0000 % 256 in
    let o3 = x / 0x100 % 256 in
    let o4 = x % 256 in
    omega (
      arith,
      length-append (decimal o1)
          (b'.' ∷ (decimal o2 ++ (b'.' ∷ (decimal o3 ++ (b'.' ∷ decimal o4))))),
      length-append (decimal o2) (b'.' ∷ (decimal o3 ++ (b'.' ∷ decimal o4))),
      length-append (decimal o3) (b'.' ∷ decimal o4),
      length-decimal o1,
      length-decimal o2,
      length-decimal o3,
      length-decimal o4,
    )

ipv4-lt : (a : InternetAddress) → IsHost a.host → ipv4 a < 2 ^ 32
unfolding ipv4 swap32 host32
ipv4-lt a h = omega arith

get_port-lt : (a : InternetAddress) → IsWord a → get_port a < 0x1_0000
unfolding get_port
get_port-lt a w = swap16-lt a.port w.port_word

swap16-get_port : (a : InternetAddress) → IsWord a → swap16 (get_port a) ≡ a.port
unfolding get_port
swap16-get_port a w = swap16-swap16 a.port w.port_word

v4_mapped-is_ipv4 : (a : InternetAddress) → v4_mapped a.host ≡ true → is_ipv4 a ≡ true
unfolding is_ipv4
v4_mapped-is_ipv4 a f = ground arith

-- With a getaddrinfo that reads numbers, an IPv4 address that is printed in the default format and
-- parsed again is the same address with the same port, and valid.
pub parse-get_address_string :
    (use_ipv6 : Bool) (net : Net) (names : Names) (m a : InternetAddress)
    → ReadsNumbers net
    → IsWord a
    → a.valid ≡ true
    → v4_mapped a.host ≡ true
    → SameAddress (parse use_ipv6 net m (some (get_address_string use_ipv6 names pf_default a))) a
parse-get_address_string use_ipv6 net names m a reads w v f =
    let n : ℕ = get_port a in
    let small : n ≤ 65535 = omega (arith, get_port-lt a w) in
    let text : Bytes = dotted (ipv4 a) in
    let printed = get_address_string-default use_ipv6 names a v (v4_mapped-is_ipv4 a f) in
    let fits : length (text ++ b':' ∷ decimal n) < 2 ^ 32 = omega (
      arith,
      length-append text (b':' ∷ decimal n),
      length-dotted (ipv4 a) (ipv4-lt a w.host_words),
      length-decimal n,
    ) in
    let first = dotted-first (ipv4 a) in
    let parsed =
      parse_host_port use_ipv6 net m text n small first.0 first.1
        (DigitsDots-Lacks text (dotted-DigitsDots (ipv4 a))) fits in
    let (port, found) =
      reads a.host (host_family use_ipv6) w.host_words (host_family-asked use_ipv6) in
    let named =
      get_host_by_name-numeric use_ipv6 net text port a.host.h6 a.host.h7
        (dotted-is_numeric (ipv4 a)) (unfold ipv4 in found) in
    let (host, word, valid) =
      init_host-host4 use_ipv6 net m (some text) n a.host.h6 a.host.h7 named in
    rw (printed, parsed) (host ∙ sym (v4_mapped-eq a.host f), word ∙ swap16-get_port a w, valid)
