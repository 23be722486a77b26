-- ===== src/Unix/Tests.antt =====
-- Tests of Unix addresses.
use socketapi.Prelude.{◌≡◌, refl, false, some, codes}
use socketapi.Strings.{left, eq_text, string_compare, strcmp, string_length}
use socketapi.Unix.{UnixAddress, unix_prefix}

abbrev log_socket : UnixAddress
log_socket = record { name = codes "/dev/log" }

no_prefix : eq_text (some (left (some log_socket.name) 5)) (some unix_prefix) ≡ false
unfolding eq_text string_compare strcmp left string_length
no_prefix = refl
