-- ===== src/Gateway/Address/Laws.antt =====
-- Where the addresses of the two parsers meet.
use semantius_idp.Prelude.{
  ℕ, Text, split_on, nat_eq, ◌&&◌, some, List, [], ◌∷◌, ◌≡◌, refl, arith, Option-cases, inl, inr,
}
use semantius_idp.Net.Address.{v4_bytes, octet, four_octets}
use semantius_idp.Gateway.Address.{
  small_number, up_to_255, quad_of, parse_ipv4, is_link_local_address,
}

small_number_of_octet : (s : Text) (v : ℕ) → octet s ≡ some v → up_to_255 (small_number s) ≡ some v
unfolding octet small_number
small_number_of_octet [] v e = cc
small_number_of_octet (a ∷ []) v e = ground (arith, e)
small_number_of_octet (a ∷ b ∷ []) v e = ground (arith, e)
small_number_of_octet (a ∷ b ∷ c ∷ []) v e = ground (arith, e)
small_number_of_octet (a ∷ b ∷ c ∷ d ∷ s) v e = cc

quad_of_octets :
    (parts : List Text) (bytes : List ℕ)
    → four_octets parts ≡ some bytes
    → quad_of parts ≡ some bytes
unfolding four_octets quad_of
quad_of_octets (p ∷ q ∷ r ∷ s ∷ []) bytes e = elim (Option-cases (octet p)) [
  | inl n ↦ absurd (cc (rw n at e))
  | inr (a, ea) ↦ elim (Option-cases (octet q)) [
    | inl n ↦ absurd (cc (rw (ea, n) at e))
    | inr (b, eb) ↦ elim (Option-cases (octet r)) [
      | inl n ↦ absurd (cc (rw (ea, eb, n) at e))
      | inr (c, ec) ↦ elim (Option-cases (octet s)) [
        | inl n ↦ absurd (cc (rw (ea, eb, ec, n) at e))
        | inr (d, ed) ↦
            rw
              (
                small_number_of_octet p a ea,
                small_number_of_octet q b eb,
                small_number_of_octet r c ec,
                small_number_of_octet s d ed,
              )
              (rw (ea, eb, ec, ed) at e)
      ]
    ]
  ]
]
quad_of_octets (p ∷ q ∷ r ∷ s ∷ t ∷ ts) bytes e = cc
quad_of_octets (p ∷ q ∷ r ∷ []) bytes e = cc
quad_of_octets (p ∷ q ∷ []) bytes e = cc
quad_of_octets (p ∷ []) bytes e = cc
quad_of_octets [] bytes e = cc

-- Whatever the address parser of the server reads as four bytes is judged by its first two:
-- link-local exactly for `169.254`.
pub link_local_quad :
    (lower : Text → Text) (address : Text) (a b c d : ℕ)
    → v4_bytes address ≡ some (a ∷ b ∷ c ∷ d ∷ [])
    → is_link_local_address lower address ≡ (nat_eq a 169 && nat_eq b 254)
unfolding is_link_local_address parse_ipv4 v4_bytes
link_local_quad lower address a b c d e =
    rw (quad_of_octets (split_on b'.' address) (a ∷ b ∷ c ∷ d ∷ []) e, is_link_local_address) refl
