-- ===== src/Internet/Tests.antt =====
-- The theorems on InternetAddress at concrete addresses, and runs of its operations.
use socketapi.Prelude.{
  ◌≤◌, ◌<◌, ◌≡◌, refl, ◌⊎◌, true, false, [], ◌∷◌, ◌++◌, some, none, arith, if◌then◌else◌,
}
use socketapi.Internet.{InternetAddress, mapped, swap16, IsWord, pf_default}
use socketapi.Internet.Classes.{is_ipv6, v4_mapped, is_ipv4, unspecified}
use socketapi.Internet.Checksum.{
  calculate_checksum, wrap_checksum, store16, calculate_checksum-wrap_checksum,
}
use socketapi.Internet.Order.{lt_address, gt_address, eq_address, lt_words}
use socketapi.Internet.Order.Laws.{gt_address-lt_address}
use socketapi.Internet.System.{
  Sockaddr, inet, size_in, get_system_address, set_system_address, SameAddress,
  set_system_address-get_inet,
}
use socketapi.Internet.Parse.{parse}
use socketapi.Internet.Print.{Names, get_address_string}
use socketapi.Internet.RoundTrip.{parse-get_address_string}
use socketapi.Internet.Numeric.{numeric_net, numeric_net-ReadsNumbers}

-- 192.168.1.2:5060, the same host with port 300, and 10.0.0.1:80.
abbrev home : InternetAddress
home = record {
  host = mapped 43200 513;
  port = 50195;
  scope_id = 0;
  valid = true;
  print_format = pf_default;
}

abbrev home_300 : InternetAddress
home_300 = record home { port = 11265 }

abbrev office : InternetAddress
office = record home { host = mapped 10 256; port = 20480 }

-- Memory in which an object is made.
abbrev memory : InternetAddress
memory = record home { host = mapped 1 2; port = 3; scope_id = 4; valid = false; print_format = 5 }

home-IsWord : IsWord home
home-IsWord = record { host_words = omega arith; port_word = omega arith }

home_300-IsWord : IsWord home_300
home_300-IsWord = record { host_words = omega arith; port_word = omega arith }

office-IsWord : IsWord office
office-IsWord = record { host_words = omega arith; port_word = omega arith }

home-v4_mapped : v4_mapped home.host ≡ true
unfolding v4_mapped
home-v4_mapped = refl

home-not_ipv6 : is_ipv6 home ≡ false
unfolding is_ipv6 is_ipv4 v4_mapped
home-not_ipv6 = refl

no_names : Names
no_names = record { name_info = λ s. none; interface_name = λ n. none }

parse-get_address_string_example :
    SameAddress
      (parse true numeric_net memory (some (get_address_string true no_names pf_default home)))
      home
parse-get_address_string_example =
    parse-get_address_string true numeric_net no_names memory home numeric_net-ReadsNumbers
      home-IsWord refl home-v4_mapped

set_system_address-get_inet_example :
    (((16 < size_in) ⊎ (is_ipv4 home ≡ false)) × (get_system_address true home 16 inet ≡ none))
    ⊎ ((s : Sockaddr) × (size_in ≤ 16)
        × (is_ipv4 home ≡ true)
        × (get_system_address true home 16 inet ≡ some s)
        × (((v4_mapped home.host ≡ true) × SameAddress (set_system_address memory s).0 home)
            ⊎ ((unspecified home.host ≡ true)
                × ((set_system_address memory s).0.host ≡ mapped 0 0))))
set_system_address-get_inet_example = set_system_address-get_inet true home memory 16

calculate_checksum-wrap_checksum_example :
    calculate_checksum
      ((0x45 ∷ 0 ∷ []) ++ store16 (wrap_checksum (calculate_checksum (0x45 ∷ 0 ∷ []) 0)))
      0
    ≡ 0xffff
calculate_checksum-wrap_checksum_example =
    calculate_checksum-wrap_checksum (0x45 ∷ 0 ∷ []) (omega arith) (omega arith)

office-lt : lt_address office home_300 ≡ true
unfolding lt_address lt_words swap16
office-lt = refl

home_300-lt : lt_address home_300 home ≡ true
unfolding lt_address lt_words swap16
home_300-lt = refl

gt_address-lt_address_example :
    gt_address home office ≡ (if eq_address home office then true else lt_address office home)
gt_address-lt_address_example = gt_address-lt_address home office home-IsWord office-IsWord
