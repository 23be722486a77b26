-- ===== src/Unix/Laws.antt =====
-- What a UnixAddress keeps when it is printed and read, copied, and passed through a sockaddr_un.
use socketapi.Prelude.{
  ℕ, ◌+◌, ◌≤◌, ◌<◌, ◌≡◌, ◌≢◌, refl, ap, ◌∙◌, ◌⊎◌, inl, inr, true, false, ◌∷◌, [], ◌++◌, none, some,
  Bytes, take, length, ltb, leb, lt→ltb, arith, take-of-length-le, take-append, drop-append,
  length-take, length-append, Bool-cases,
}
use socketapi.Strings.{string_length, left, mid_from, eq_text, plus, strcmp, string_compare}
use socketapi.Strings.Slices.{left-eq-take, mid_from-eq-drop}
use socketapi.Internet.System.{unix, Sockaddr, sock_un}
use socketapi.Unix.{
  UnixAddress, unix_prefix, unix_init, unix_copy, unix_is_null, unix_is_valid, unix_address_string,
  unix_get_system_address, unix_set_system_address, max_name_length, size_un,
}

prefix-eq : eq_text (some unix_prefix) (some unix_prefix) ≡ true
unfolding eq_text string_compare strcmp
prefix-eq = refl

unix_init-prefix :
    (name : Bytes)
    → length name + 5 < max_name_length
    → unix_init (some (unix_prefix ++ name)) ≡ record { name = name }
unfolding unix_init string_length
unix_init-prefix name h =
    let short : ltb (length (unix_prefix ++ name)) max_name_length ≡ true =
      lt→ltb _ _ (omega (arith, length-append unix_prefix name)) in
    let front : left (some (unix_prefix ++ name)) 5 ≡ unix_prefix =
      left-eq-take (unix_prefix ++ name) 5 ∙ take-append unix_prefix name 5 (omega arith) in
    let back : mid_from (some (unix_prefix ++ name)) 5 ≡ name =
      mid_from-eq-drop (unix_prefix ++ name) 5 (omega (arith, length-append unix_prefix name))
      ∙ drop-append unix_prefix name 5 (omega arith) in
    rw (short, front, prefix-eq, back) refl

-- A Unix address with a name that is printed and read again is the same, if the text is shorter
-- than what a name may be.
pub unix_init-address_string :
    (a : UnixAddress)
    → a.name ≢ []
    → length a.name + 5 < max_name_length
    → unix_init (some (unix_address_string a)) ≡ a
unfolding unix_address_string plus
unix_init-address_string a ne h = rw (not_null a.name ne) (unix_init-prefix a.name h)
  where
    not_null : (s : Bytes) → s ≢ [] → unix_is_null (record { name = s }) ≡ false
    not_null [] e = absurd (e refl)
    not_null (c ∷ s) e = refl

-- The copy of a Unix address is not valid, unless the name itself starts with "unix:".
pub unix_copy-invalid :
    (a : UnixAddress)
    → eq_text (some (left (some a.name) 5)) (some unix_prefix) ≡ false
    → unix_is_valid (unix_copy a) ≡ false
unfolding unix_copy unix_init unix_is_valid
unix_copy-invalid a h = elim (Bool-cases (ltb (string_length (some a.name)) max_name_length)) [
  | inl e ↦ rw (e, h) refl
  | inr e ↦ rw e refl
]

-- A buffer that is too small gets nothing; else what is written is read back as the same address.
pub unix_set_system_address-get :
    (a b : UnixAddress) (n : ℕ)
    → length a.name ≤ max_name_length
    → ((n < size_un) × (unix_get_system_address a n unix ≡ none))
      ⊎ ((s : Sockaddr) × (unix_get_system_address a n unix ≡ some s)
          × (unix_set_system_address b s ≡ (a, true)))
unfolding unix_get_system_address unix_set_system_address
unix_set_system_address-get a b n h = elim (Bool-cases (leb size_un n)) [
  | inl e ↦ inr (
    sock_un (take max_name_length a.name),
    rw e refl,
    ap (λ t. (record { name = t }, true))
        (take-of-length-le max_name_length (take max_name_length a.name)
            (omega (arith, length-take max_name_length a.name))
          ∙ take-of-length-le max_name_length a.name h),
  )
  | inr e ↦ inl (ground arith, rw e refl)
]
