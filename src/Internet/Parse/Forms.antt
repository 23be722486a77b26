-- ===== src/Internet/Parse/Forms.antt =====
-- What the constructor from a text makes of HOST:PORT and [HOST]:PORT.
use socketapi.Prelude.{
  ℕ, suc, ◌+◌, ◌-◌, ◌^◌, ◌<◌, ◌≤◌, ◌≡◌, ◌≢◌, refl, sym, ap, ◌∙◌, ◌⊎◌, Bool, true, false, [], ◌∷◌,
  ◌++◌, ◌==◌, ltb, arith, some, Bytes, append_assoc, append-nil, take-append, drop-append,
  take-of-length-le, ==-ne, All-append, Lacks, get_or, length, length-append, drop,
}
use socketapi.Strings.{left, mid, mid_from}
use socketapi.Strings.Decimal.{pos, scan_int, decimal, scan_int-decimal, decimal-Digits, Digits}
use socketapi.Strings.Search.{index_parts, rindex_parts, get_or-length}
use socketapi.Strings.Slices.{left-eq-take, mid-eq-take, mid_from-eq-drop}
use socketapi.Internet.{InternetAddress}
use socketapi.Internet.Lookup.{Net, init_host}
use socketapi.Internet.Parse.{
  bracketed, split_bracket, split_standard, last_separator, split_address, port_number, parse_parts,
  parse,
}

-- Digits have none of the signs that part an address.
pub Digits-Lacks : (c : ℕ) (s : Bytes) → (c < b'0') ⊎ (b'9' < c) → Digits s → Lacks c s
Digits-Lacks c [] h d = tt
Digits-Lacks c (x ∷ s) h d = (ground arith, Digits-Lacks c s h d.1)

-- The last ':' parts the host from the port.
pub split_standard-colon :
    (host port other : Bytes)
    → host ≢ []
    → Lacks b':' port
    → length (host ++ b':' ∷ port) < 2 ^ 32
    → split_standard (host ++ b':' ∷ port) other ≡ (host, port)
unfolding split_standard last_separator
split_standard-colon host port other ne h fits =
    let some_byte : ltb 0 (length host) ≡ true = ground arith in
    let address : Bytes = host ++ b':' ∷ port in
    let l : left (some address) (length host) ≡ host =
      left-eq-take address (length host) ∙ take-append host (b':' ∷ port) (length host) refl in
    let r : mid_from (some address) (length host + 1) ≡ port =
      mid_from-eq-drop address (length host + 1) fits
      ∙ ap (drop (length host + 1)) (sym (append_assoc host (b':' ∷ []) port))
      ∙ drop-append (host ++ b':' ∷ []) port (length host + 1)
          (omega (arith, length-append host (b':' ∷ []))) in
    rw (
      (rindex_parts b':' (omega arith)).0 host port h,
      last_separator,
      split_standard,
      some_byte,
      l,
      r,
    )

bracketed-none : (address : Bytes) → Lacks b'(' address → bracketed address ≡ address
unfolding bracketed
bracketed-none address h = rw ((index_parts b'(' (omega arith)).1 address h, bracketed)

pub first-append :
    (host rest : Bytes) (c : ℕ) → host ≢ [] → get_or host 0 0 ≢ c → get_or (host ++ rest) 0 0 ≢ c
first-append [] rest c ne h = absurd (ne refl)
first-append (x ∷ host) rest c ne h = h

-- HOST:PORT, with a host that is empty neither nor in brackets, is parted at its colon.
split_address-standard :
    (host : Bytes) (n : ℕ)
    → host ≢ []
    → get_or host 0 0 ≢ b'['
    → Lacks b'(' host
    → length (host ++ b':' ∷ decimal n) < 2 ^ 32
    → split_address (host ++ b':' ∷ decimal n) ≡ some (host, decimal n)
unfolding split_address
split_address-standard host n ne h l fits =
    let d = decimal-Digits n in
    let address : Bytes = host ++ b':' ∷ decimal n in
    let plain : bracketed address ≡ address = bracketed-none address (
      All-append (λ c. c ≢ b'(') host (b':' ∷ decimal n) l
        (omega arith, Digits-Lacks b'(' (decimal n) (omega arith) d)) in
    let not_bracket : (get_or address 0 0 == b'[') ≡ false =
      ==-ne (get_or address 0 0) b'[' (first-append host (b':' ∷ decimal n) b'[' ne h) in
    rw (plain, not_bracket)
      (ap some (
        split_standard-colon host (decimal n) address ne
          (Digits-Lacks b':' (decimal n) (omega arith) d) fits))

module _ (host port : Bytes) where
  abbrev in_brackets : Bytes
  in_brackets = b'[' ∷ (host ++ b']' ∷ b':' ∷ port)

  bracket-colon : get_or in_brackets (suc (length host) + 1) 0 ≡ b':'
  bracket-colon =
      let at : suc (length host) + 1 ≡ suc (length (host ++ b']' ∷ [])) =
        omega (arith, length-append host (b']' ∷ [])) in
      rw (at, ← append_assoc host (b']' ∷ []) (b':' ∷ port))
        (get_or-length (host ++ b']' ∷ []) port b':')

  bracket-port :
      length host + length port + 3 < 2 ^ 32
      → mid_from (some in_brackets) (suc (length host) + 2) ≡ port
  bracket-port fits =
      mid_from-eq-drop in_brackets (suc (length host) + 2)
        (omega (arith, length-append host (b']' ∷ b':' ∷ port)))
      ∙ ap (drop (suc (length host) + 2))
          (ap (◌∷◌ b'[') (sym (append_assoc host (b']' ∷ b':' ∷ []) port)))
      ∙ drop-append (b'[' ∷ (host ++ b']' ∷ b':' ∷ [])) port (suc (length host) + 2)
          (omega (arith, length-append host (b']' ∷ b':' ∷ [])))

  bracket-host : mid (some in_brackets) 1 (suc (length host) - 1) ≡ host
  bracket-host =
      mid-eq-take in_brackets 1 (suc (length host) - 1)
      ∙ take-append host (b']' ∷ b':' ∷ port) (suc (length host) - 1) (omega arith)

  -- [HOST]:PORT is parted at the first ']'.
  split_bracket-host :
      Lacks b']' host
      → length host + length port + 3 < 2 ^ 32
      → split_bracket in_brackets ≡ some (host, port)
  unfolding split_bracket
  split_bracket-host r fits =
      let some_byte : ltb 0 (suc (length host)) ≡ true = ground arith in
      let whole : left (some host) (length host) ≡ host =
        left-eq-take host (length host) ∙ take-of-length-le (length host) host (omega arith) in
      rw (
        (index_parts b']' (omega arith)).0 (b'[' ∷ host) (b':' ∷ port) (omega arith, r),
        split_bracket,
        some_byte,
        bracket-colon,
        bracket-port fits,
        bracket-host,
        whole,
      )

split_address-bracket :
    (host : Bytes) (n : ℕ)
    → Lacks b'(' host
    → Lacks b']' host
    → length host + length (decimal n) + 3 < 2 ^ 32
    → split_address (in_brackets host (decimal n)) ≡ some (host, decimal n)
unfolding split_address
split_address-bracket host n l r fits =
    let d = Digits-Lacks b'(' (decimal n) (omega arith) (decimal-Digits n) in
    let plain : bracketed (in_brackets host (decimal n)) ≡ in_brackets host (decimal n) =
      bracketed-none (in_brackets host (decimal n)) (
        omega arith,
        All-append (λ c. c ≢ b'(') host (b']' ∷ b':' ∷ decimal n) l (omega arith, (omega arith, d)),
      ) in
    rw plain (split_bracket-host host (decimal n) r fits)

port_number-decimal : (net : Net) (n : ℕ) → n ≤ 65535 → port_number net (decimal n) ≡ some n
unfolding port_number
port_number-decimal net n h =
    let scanned : scan_int (decimal n) ≡ some (pos n) =
      rw append-nil at (scan_int-decimal n [] tt) in
    rw (scanned, port_number) (ground arith)

-- HOST:PORT, with a host that neither is empty nor starts with '[' nor has a '(', is looked up as
-- that host and that port.
pub parse_host_port :
    (use_ipv6 : Bool) (net : Net) (a : InternetAddress) (host : Bytes) (n : ℕ)
    → n ≤ 65535
    → host ≢ []
    → get_or host 0 0 ≢ b'['
    → Lacks b'(' host
    → length (host ++ b':' ∷ decimal n) < 2 ^ 32
    → parse use_ipv6 net a (some (host ++ b':' ∷ decimal n))
      ≡ init_host use_ipv6 net a (some host) n
unfolding parse parse_parts
parse_host_port use_ipv6 net a host n small ne h l fits =
    rw (
      split_address-standard host n ne h l fits,
      parse,
      parse_parts,
      port_number-decimal net n small,
    )

-- [HOST]:PORT, with a host that has neither '(' nor ']', is looked up as that host and that port.
pub parse_bracket_port :
    (use_ipv6 : Bool) (net : Net) (a : InternetAddress) (host : Bytes) (n : ℕ)
    → n ≤ 65535
    → Lacks b'(' host
    → Lacks b']' host
    → length host + length (decimal n) + 3 < 2 ^ 32
    → parse use_ipv6 net a (some (b'[' ∷ (host ++ b']' ∷ b':' ∷ decimal n)))
      ≡ init_host use_ipv6 net a (some host) n
unfolding parse parse_parts
parse_bracket_port use_ipv6 net a host n small l r fits =
    rw (split_address-bracket host n l r fits, parse, parse_parts, port_number-decimal net n small)
