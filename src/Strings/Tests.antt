-- ===== src/Strings/Tests.antt =====
-- Tests of the class String, and its theorems at concrete inputs.
use socketapi.Prelude.{◌≡◌, refl, some, none, true, false, codes}
use socketapi.Strings.{
  index, scan_setting, strip_white_space, to_upper, scan_parts, setting_name, setting_value,
  unquote, left, right, string_length,
}
use socketapi.Strings.Decimal.{is_digit}

scan_setting_runs :
    scan_setting (some (codes " key = \"a b\" ")) none none
    ≡ (true, some (codes "KEY"), some (codes "a b"))
unfolding scan_setting index setting_name setting_value left right string_length strip_white_space
    to_upper scan_parts unquote
scan_setting_runs = refl

not_digit : is_digit 32 ≡ false
unfolding is_digit
not_digit = refl
