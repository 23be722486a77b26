-- ===== src/Strings/Setting.antt =====
-- scanSetting (socketapi/tdstrings.cc) on settings NAME=VALUE and NAME="VALUE".
use socketapi.Prelude.{
  ℕ, zero, suc, ◌+◌, ◌-◌, ◌^◌, ◌<◌, ◌≡◌, ◌≢◌, refl, sym, ap, ◌∙◌, ap₂, some, true, [], ◌∷◌, ◌++◌,
  append-nil, append_assoc, arith, Bytes, Lacks, leb, ltb, ◌%◌, length, get_or, drop, take-append,
  drop-append, length-append,
}
use socketapi.Strings.{
  Text, scan_setting, scan_parts, setting_name, setting_value, to_upper, strip_white_space,
  string_length, unquote,
}
use socketapi.Strings.Search.{index_parts, get_or-length}
use socketapi.Strings.Slices.{left-eq-take, right-eq-drop, mid-eq-take}
use socketapi.Strings.Strip.{spaces, replicate-snoc, strip_white_space-IsStripped}

strip_fixed_cases :
    (before after : ℕ) (s r : Bytes)
    → s ≡ spaces before ++ (r ++ spaces after)
    → get_or s 0 0 ≢ b' '
    → get_or s (length s - 1) 0 ≢ b' '
    → r ≡ s
strip_fixed_cases (suc n) after s r e h k = absurd ((rw e at h) refl)
strip_fixed_cases zero zero s r e h k = sym (append-nil r) ∙ sym e
strip_fixed_cases zero (suc n) s r e h k = absurd (k (rw (snoc, len) (get_or-length p [] b' ')))
  where
    p : Bytes
    p = r ++ spaces n

    snoc : s ≡ p ++ b' ' ∷ []
    snoc = e ∙ ap (◌++◌ r) (sym (replicate-snoc n)) ∙ sym (append_assoc r (spaces n) (b' ' ∷ []))

    len : length (p ++ b' ' ∷ []) - 1 ≡ length p
    len = omega (arith, length-append p (b' ' ∷ []))

-- A text with no spaces at its ends is left as it is.
strip_fixed :
    (s : Bytes) → get_or s 0 0 ≢ b' ' → get_or s (length s - 1) 0 ≢ b' ' → strip_white_space s ≡ s
strip_fixed s h k =
    let v = strip_white_space-IsStripped s in
    strip_fixed_cases v.before v.after s (strip_white_space s) v.whole h k

module _ (name value : Bytes) where
  abbrev line : Bytes
  line = name ++ b'=' ∷ value

  setting_name-split :
      setting_name (some line) (length name) ≡ to_upper (some (strip_white_space name))
  unfolding setting_name
  setting_name-split =
      rw (left-eq-take line (length name), take-append name (b'=' ∷ value) (length name) refl)

  setting_value-split : setting_value (some line) (length name) ≡ strip_white_space value
  unfolding setting_value string_length
  setting_value-split =
      let count : length line - (length line - length name - 1) ≡ length (name ++ b'=' ∷ []) =
        omega (arith, length-append name (b'=' ∷ value), length-append name (b'=' ∷ [])) in
      ap strip_white_space (
        right-eq-drop line (length line - length name - 1)
        ∙ ap (λ k. drop k line) count
        ∙ ap (drop (length (name ++ b'=' ∷ []))) (sym (append_assoc name (b'=' ∷ []) value))
        ∙ drop-append (name ++ b'=' ∷ []) value (length (name ++ b'=' ∷ [])) refl)

  -- The two sides of the first '=' are the parts that are looked at, whatever the old values are.
  pub scan_setting-split :
      (s1 s2 : Text)
      → name ≢ []
      → Lacks b'=' name
      → scan_setting (some line) s1 s2
        ≡ scan_parts (to_upper (some (strip_white_space name))) (strip_white_space value)
  unfolding scan_setting
  scan_setting-split s1 s2 h l =
      let some_byte : leb 1 (length name) ≡ true = ground arith in
      rw ((index_parts b'=' (omega arith)).0 name value l, scan_setting, some_byte)
        (ap₂ scan_parts setting_name-split setting_value-split)

unquote_quoted : (v : Bytes) → length v + 2 < 2 ^ 32 → unquote (b'"' ∷ (v ++ b'"' ∷ [])) ≡ v
unfolding unquote
unquote_quoted v h =
    let n : length (b'"' ∷ (v ++ b'"' ∷ [])) ≡ length v + 2 =
      omega (arith, length-append v (b'"' ∷ [])) in
    let last : get_or (b'"' ∷ (v ++ b'"' ∷ [])) (length v + 2 - 1) 0 ≡ b'"' =
      let at : length v + 2 - 1 ≡ suc (length v) = omega arith in rw at (get_or-length v [] b'"') in
    let cut : (length v + 2 + 2 ^ 32 - 2) % 2 ^ 32 ≡ length v = omega arith in
    rw (n, last, cut)
      (mid-eq-take (b'"' ∷ (v ++ b'"' ∷ [])) 1 (length v)
        ∙ take-append v (b'"' ∷ []) (length v) refl)

length-to_upper : (s : Bytes) → length (to_upper (some s)) ≡ length s
unfolding to_upper
length-to_upper [] = refl
length-to_upper (c ∷ s) = ap suc (length-to_upper s)

-- NAME="VALUE" is scanned as the name in upper case and the value between the quotes, whatever
-- bytes that is, where the name has no '=' in it and neither begins nor ends with a space.
pub scan_setting_quoted :
    (name value : Bytes) (s1 s2 : Text)
    → name ≢ []
    → Lacks b'=' name
    → get_or name 0 0 ≢ b' '
    → get_or name (length name - 1) 0 ≢ b' '
    → length value + 2 < 2 ^ 32
    → scan_setting (some (name ++ b'=' ∷ b'"' ∷ (value ++ b'"' ∷ []))) s1 s2
      ≡ (true, some (to_upper (some name)), some value)
unfolding scan_parts
scan_setting_quoted name value s1 s2 ne l f e fits =
    let quoted : Bytes = b'"' ∷ (value ++ b'"' ∷ []) in
    let end : get_or quoted (length quoted - 1) 0 ≢ b' ' =
      let at : length quoted - 1 ≡ suc (length value) =
        omega (arith, length-append value (b'"' ∷ [])) in
      rw (at, get_or-length value [] b'"') (omega arith) in
    let some_name : ltb 0 (length (to_upper (some name))) ≡ true =
      rw (length-to_upper name) (ground arith) in
    let some_value : ltb 0 (length quoted) ≡ true = ground arith in
    scan_setting-split name quoted s1 s2 ne l
    ∙ ap₂ (λ n v. scan_parts (to_upper (some n)) v) (strip_fixed name f e)
        (strip_fixed quoted (omega arith) end)
    ∙ rw (some_name, some_value, unquote_quoted value fits)
