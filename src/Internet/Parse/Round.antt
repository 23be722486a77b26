-- ===== src/Internet/Parse/Round.antt =====
-- What the constructor from a text makes of the form TEXT (HOST:PORT).
use socketapi.Prelude.{
  ℕ, ◌+◌, ◌^◌, ◌<◌, ◌≤◌, ◌≡◌, ◌≢◌, refl, sym, ap, ◌∙◌, Bool, true, false, [], ◌∷◌, ◌++◌, ◌==◌, ltb,
  arith, some, Bytes, append_assoc, drop-append, take-of-length-le, ==-ne, All-append, Lacks,
  get_or, length, length-append, drop,
}
use socketapi.Strings.{left, mid_from}
use socketapi.Strings.Decimal.{decimal, scan_int-decimal, decimal-Digits, is_digit}
use socketapi.Strings.Search.{index_parts}
use socketapi.Strings.Slices.{left-eq-take, mid_from-eq-drop}
use socketapi.Internet.{InternetAddress}
use socketapi.Internet.Lookup.{Net, init_host}
use socketapi.Internet.Parse.{
  bracketed, split_standard, split_address, port_number, parse_parts, parse,
}
use socketapi.Internet.Parse.Forms.{Digits-Lacks, split_standard-colon, first-append}

port_number-close :
    (net : Net) (n : ℕ) → n ≤ 65535 → port_number net (decimal n ++ b')' ∷ []) ≡ some n
unfolding port_number is_digit
port_number-close net n h = rw (scan_int-decimal n (b')' ∷ []) refl, port_number) (ground arith)

ne-append : (s t : Bytes) → s ≢ [] → s ++ t ≢ []
ne-append [] t h = absurd (h refl)
ne-append (x ∷ s) t h = λ e. cc

split_address-round :
    (text host port : Bytes)
    → text ≢ []
    → Lacks b'(' text
    → host ≢ []
    → get_or host 0 0 ≢ b'['
    → Lacks b':' port
    → length (text ++ b'(' ∷ (host ++ b':' ∷ port)) < 2 ^ 32
    → split_address (text ++ b'(' ∷ (host ++ b':' ∷ port)) ≡ some (text ++ b'(' ∷ host, port)
unfolding split_address bracketed
split_address-round text host port nt l nh h c fits =
    let body : Bytes = host ++ b':' ∷ port in
    let address : Bytes = text ++ b'(' ∷ body in
    let some_byte : ltb 0 (length text) ≡ true = ground arith in
    let cut : mid_from (some address) (length text + 1) ≡ body =
      mid_from-eq-drop address (length text + 1) fits
      ∙ ap (drop (length text + 1)) (sym (append_assoc text (b'(' ∷ []) body))
      ∙ drop-append (text ++ b'(' ∷ []) body (length text + 1)
          (omega (arith, length-append text (b'(' ∷ []))) in
    let whole : left (some body) (length body) ≡ body =
      left-eq-take body (length body) ∙ take-of-length-le (length body) body (omega arith) in
    let inner : bracketed address ≡ body =
      rw ((index_parts b'(' (omega arith)).0 text body l, bracketed, some_byte, cut, whole) in
    let not_bracket : (get_or body 0 0 == b'[') ≡ false =
      ==-ne (get_or body 0 0) b'[' (first-append host (b':' ∷ port) b'[' nh h) in
    let regroup : (text ++ b'(' ∷ host) ++ b':' ∷ port ≡ address =
      append_assoc text (b'(' ∷ host) (b':' ∷ port) in
    let ne : text ++ b'(' ∷ host ≢ [] = ne-append text (b'(' ∷ host) nt in
    rw (inner, not_bracket)
      (ap some (
        ap (λ t. split_standard t body) (sym regroup)
        ∙ split_standard-colon (text ++ b'(' ∷ host) port body ne c (rw regroup fits)))

-- The form TEXT (HOST:PORT), which is meant to be looked up as HOST, is looked up as "TEXT (HOST"
-- where the host is not in square brackets: the separator is looked for in the whole text, and so
-- the closing bracket is left on the port.
pub parse_round_brackets :
    (use_ipv6 : Bool) (net : Net) (a : InternetAddress) (text host : Bytes) (n : ℕ)
    → n ≤ 65535
    → text ≢ []
    → Lacks b'(' text
    → host ≢ []
    → get_or host 0 0 ≢ b'['
    → length text + length host + length (decimal n) + 4 < 2 ^ 32
    → parse use_ipv6 net a (some (text ++ b'(' ∷ (host ++ b':' ∷ (decimal n ++ b')' ∷ []))))
      ≡ init_host use_ipv6 net a (some (text ++ b'(' ∷ host)) n
unfolding parse parse_parts
parse_round_brackets use_ipv6 net a text host n small nt l nh h fits =
    let close : Bytes = decimal n ++ b')' ∷ [] in
    let count : length (text ++ b'(' ∷ (host ++ b':' ∷ close)) < 2 ^ 32 = omega (
      arith,
      length-append text (b'(' ∷ (host ++ b':' ∷ close)),
      length-append host (b':' ∷ close),
      length-append (decimal n) (b')' ∷ []),
    ) in
    let lacks : Lacks b':' close =
      All-append (λ c. c ≢ b':') (decimal n) (b')' ∷ [])
        (Digits-Lacks b':' (decimal n) (omega arith) (decimal-Digits n)) (omega arith, tt) in
    rw (
      split_address-round text host close nt l nh h lacks count,
      parse,
      parse_parts,
      port_number-close net n small,
    )
