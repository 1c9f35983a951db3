-- ===== src/Tests/NetCases.antt =====
-- Addresses, ranges, chains and issuers.
use semantius_idp.Prelude.{
  ℕ, Text, codes, true, false, Option, none, some, List, [], ◌∷◌, ◌≡◌, ◌-◌, refl, split_on, trim,
  has_char, cut_at, arith,
}
use semantius_idp.Net.Address.{to_bytes, v4_bytes, hex_value, hextet, group_bytes}
use semantius_idp.Net.ClientIp.{
  ranges, normalize_ip, in_cidr, is_trusted, client_ip_from, range_bits, hops_of,
}
use semantius_idp.Net.ClientIp.Chain.{client_ip_from-unspoofable}
use semantius_idp.Net.ClientIp.Prefix.{bits}
use semantius_idp.Net.ClientIp.Range.{in_cidr_iff}

-- `Number` on the texts used here.
abbrev number : Text → Option ℕ
number (a ∷ []) = some (a - 48)
number _ = none

abbrev trusted : List Text
trusted = codes "10.0.0.0/8" ∷ []

v6_reads :
    to_bytes (codes "2001:db8::1")
    ≡ some (0x20 ∷ 1 ∷ 0x0d ∷ 0xb8 ∷ 0 ∷ 0 ∷ 0 ∷ 0 ∷ 0 ∷ 0 ∷ 0 ∷ 0 ∷ 0 ∷ 0 ∷ 0 ∷ 1 ∷ [])
unfolding to_bytes hextet hex_value group_bytes has_char split_on
v6_reads = refl

octal_refused : v4_bytes (codes "010.0.0.1") ≡ none
unfolding v4_bytes split_on
octal_refused = refl

in_cidr_iff_example : in_cidr number (codes "10.1.2.3") (codes "10.0.0.0/8") ≡ true
unfolding to_bytes has_char split_on range_bits bits
in_cidr_iff_example =
    (in_cidr_iff number (codes "10.1.2.3") (codes "10.0.0.0/8") b'1' (codes "0.0.0.0")
        (codes "8" ∷ []) 8 (10 ∷ 1 ∷ 2 ∷ 3 ∷ []) (10 ∷ 0 ∷ 0 ∷ 0 ∷ []) refl refl refl refl).1
      (refl, omega arith, (refl, (refl, (refl, (refl, (refl, (refl, (refl, (refl, tt)))))))))

header_read :
    client_ip_from number (ranges trusted) (some (codes "10.0.0.9")) (some (codes "203.0.113.5"))
    ≡ some (codes "203.0.113.5")
unfolding client_ip_from is_trusted in_cidr normalize_ip to_bytes has_char split_on trim hops_of
    cut_at
header_read = refl

outside : is_trusted number (codes "203.0.113.5") trusted ≡ false
unfolding is_trusted in_cidr to_bytes has_char split_on
outside = refl

client_ip_from-unspoofable_example :
    client_ip_from number
      (ranges trusted)
      (some (codes "10.0.0.9"))
      (some (codes "1.2.3.4,203.0.113.5"))
    ≡ some (codes "203.0.113.5")
client_ip_from-unspoofable_example =
    client_ip_from-unspoofable number trusted (some (codes "10.0.0.9")) (codes "1.2.3.4") b'2'
      (codes "03.0.113.5") (codes "203.0.113.5") header_read outside
