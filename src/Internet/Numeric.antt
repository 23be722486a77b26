-- ===== src/Internet/Numeric.antt =====
-- A getaddrinfo that reads the number of an IPv4 address, which shows that what RoundTrip asks of
-- getaddrinfo can hold.
use socketapi.Prelude.{
  ℕ, ◌+◌, ◌*◌, ◌/◌, ◌%◌, ◌≡◌, refl, ap, ap₂, ◌∙◌, append-nil, [], ◌∷◌, ◌++◌, ◌==◌, if◌then◌else◌,
  arith, none, some, Bytes, Lacks,
}
use socketapi.Strings.Decimal.{
  decimal, decimal-Digits, scan_digits, scan_digits-decimal, EndsNumber, is_digit,
}
use socketapi.Internet.{swap32, host32}
use socketapi.Internet.System.{Sockaddr, sock_in}
use socketapi.Internet.Lookup.{Net}
use socketapi.Internet.Parse.Forms.{Digits-Lacks}
use socketapi.Internet.Print.{dotted}
use socketapi.Internet.RoundTrip.{ReadsNumbers}

-- What stands behind the first dot.
after_dot : Bytes → Bytes
after_dot [] = []
after_dot (c ∷ s) = let rest = after_dot s in if c == b'.' then s else rest

octet : Bytes → ℕ
octet s = scan_digits s 0

pub read_dotted : Bytes → Sockaddr
read_dotted s =
    let s2 = after_dot s in
    let s3 = after_dot s2 in
    let s4 = after_dot s3 in sock_in 0 (octet s + 256 * octet s2) (octet s3 + 256 * octet s4)

pub numeric_net : Net
numeric_net = record {
  lookup_host = λ name family flags. some (read_dotted name);
  lookup_service = λ name. none;
}

after_dot-append : (p rest : Bytes) → Lacks b'.' p → after_dot (p ++ b'.' ∷ rest) ≡ rest
unfolding after_dot
after_dot-append [] rest h = refl
after_dot-append (c ∷ p) rest h = ground (arith, after_dot-append p rest h.1)

dot-EndsNumber : (rest : Bytes) → EndsNumber (b'.' ∷ rest)
unfolding is_digit
dot-EndsNumber rest = refl

octet-decimal : (n : ℕ) (rest : Bytes) → octet (decimal n ++ b'.' ∷ rest) ≡ n
unfolding octet
octet-decimal n rest = scan_digits-decimal n (b'.' ∷ rest) (dot-EndsNumber rest)

octet-end : (n : ℕ) → octet (decimal n) ≡ n
unfolding octet
octet-end n = rw append-nil at (scan_digits-decimal n [] tt)

after_dot-decimal : (n : ℕ) (rest : Bytes) → after_dot (decimal n ++ b'.' ∷ rest) ≡ rest
after_dot-decimal n rest =
    after_dot-append (decimal n) rest
      (Digits-Lacks b'.' (decimal n) (omega arith) (decimal-Digits n))

read_dotted-four :
    (a b c d : ℕ)
    → read_dotted (decimal a ++ b'.' ∷ (decimal b ++ b'.' ∷ (decimal c ++ b'.' ∷ decimal d)))
      ≡ sock_in 0 (a + 256 * b) (c + 256 * d)
unfolding read_dotted
read_dotted-four a b c d = rw (
  octet-decimal a _,
  after_dot-decimal a _,
  octet-decimal b _,
  after_dot-decimal b _,
  octet-decimal c _,
  after_dot-decimal c _,
  octet-end d,
)

read_dotted-dotted :
    (x : ℕ)
    → read_dotted (dotted x)
      ≡ sock_in 0 (x / 0x100_0000 + 256 * (x / 0x1_0000 % 256)) (x / 0x100 % 256 + 256 * (x % 256))
unfolding dotted
read_dotted-dotted x =
    read_dotted-four (x / 0x100_0000) (x / 0x1_0000 % 256) (x / 0x100 % 256) (x % 256)

-- The number of an IPv4 address is read as the two words of it.
pub numeric_net-ReadsNumbers : ReadsNumbers numeric_net
unfolding numeric_net
numeric_net-ReadsNumbers h family w asked =
    let x : ℕ = swap32 (host32 h) in
    let first : x / 0x100_0000 + 256 * (x / 0x1_0000 % 256) ≡ h.h6 =
      unfold swap32 host32 in omega arith in
    let second : x / 0x100 % 256 + 256 * (x % 256) ≡ h.h7 = unfold swap32 host32 in omega arith in
    (0, ap some (read_dotted-dotted x ∙ ap₂ (sock_in 0) first second))
