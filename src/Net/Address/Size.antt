-- ===== src/Net/Address/Size.antt =====
-- An address that is read has four or sixteen bytes.
use semantius_idp.Prelude.{
  ℕ, zero, suc, ◌+◌, ◌-◌, ◌*◌, ◌/◌, ◌%◌, ◌<◌, Text, All, length, length-append, ltb, nat_eq,
  nat_eq_iff, has_char, not, some, List, [], ◌∷◌, ◌++◌, ◌≡◌, ◌⊎◌, inl, inr, refl, arith, Bool-cases,
  Option-cases, split_on, ◌&&◌, some_inj,
}
use semantius_idp.Net.Address.{
  octet, four_octets, hex_value, hextet, replicate, groups_of, group_bytes, halves_bytes,
  unfold_quad, v6_bytes, to_bytes, split_double,
}
use semantius_idp.Net.Address.Octets.{octet_sound}

abbrev pub IsByte : ℕ → Type 0
IsByte b = b < 256

-- The bytes of an address of either kind.
abbrev pub IsAddress : List ℕ → Type 0
IsAddress bytes = ((length bytes ≡ 4) ⊎ (length bytes ≡ 16)) × All IsByte bytes

four_octets-IsAddress :
    (ps : List Text) (bytes : List ℕ)
    → four_octets ps ≡ some bytes
    → (length bytes ≡ 4) × All IsByte bytes
unfolding four_octets
four_octets-IsAddress (p ∷ q ∷ r ∷ s ∷ []) bytes h = elim (Option-cases (octet p)) [
  | inl e ↦ ground (arith, e)
  | inr (a, ea) ↦ elim (Option-cases (octet q)) [
    | inl e ↦ ground (arith, e, ea)
    | inr (b, eb) ↦ elim (Option-cases (octet r)) [
      | inl e ↦ ground (arith, e, ea, eb)
      | inr (c, ec) ↦ elim (Option-cases (octet s)) [
        | inl e ↦ ground (arith, e, ea, eb, ec)
        | inr (d, ed) ↦
            let bounds : All IsByte (a ∷ b ∷ c ∷ d ∷ []) = (
              (octet_sound p a ea).0,
              ((octet_sound q b eb).0, ((octet_sound r c ec).0, ((octet_sound s d ed).0, tt))),
            ) in
            let same : a ∷ b ∷ c ∷ d ∷ [] ≡ bytes = ground (arith, ea, eb, ec, ed) in
            rw (← same) (refl, bounds)
      ]
    ]
  ]
]
four_octets-IsAddress _ bytes h = cc

hex_value-lt : (c v : ℕ) → hex_value c ≡ some v → v < 16
unfolding hex_value
hex_value-lt c v h = ground arith

hextet-lt : (g : Text) (v : ℕ) → hextet g ≡ some v → v < 65536
unfolding hextet
hextet-lt [] v h = cc
hextet-lt (a ∷ []) v h = omega (arith, hex_value-lt a v h)
hextet-lt (a ∷ b ∷ []) v h = grind (arith, hex_value-lt)
hextet-lt (a ∷ b ∷ c ∷ []) v h = grind (arith, hex_value-lt)
hextet-lt (a ∷ b ∷ c ∷ d ∷ []) v h = grind (arith, hex_value-lt)
hextet-lt (a ∷ b ∷ c ∷ d ∷ e ∷ g) v h = cc

group_bytes-IsAddress :
    (gs : List Text) (bytes : List ℕ)
    → group_bytes gs ≡ some bytes
    → (length bytes ≡ 2 * length gs) × All IsByte bytes
unfolding group_bytes
group_bytes-IsAddress [] bytes h = rw (← some_inj h) (refl, tt)
group_bytes-IsAddress (g ∷ gs) bytes h = elim (Option-cases (hextet g)) [
  | inl e ↦ ground (arith, e)
  | inr (v, ev) ↦ elim (Option-cases (group_bytes gs)) [
    | inl e ↦ ground (arith, e, ev)
    | inr (rest, er) ↦
        let (n, all) = group_bytes-IsAddress gs rest er in
        let bound = hextet-lt g v ev in
        let same : v / 256 ∷ v % 256 ∷ rest ≡ bytes = ground (arith, ev, er) in
        rw (← same) (omega (arith, n), (omega (arith, bound), (omega arith, all)))
  ]
]

length-replicate : (n : ℕ) (g : Text) → length (replicate n g) ≡ n
length-replicate zero g = refl
length-replicate (suc n) g = omega (arith, length-replicate n g)

halves_bytes-IsAddress :
    (halves : List Text) (bytes : List ℕ)
    → halves_bytes halves ≡ some bytes
    → (length bytes ≡ 16) × All IsByte bytes
unfolding halves_bytes
halves_bytes-IsAddress (h ∷ []) bytes e = elim (Bool-cases (nat_eq (length (groups_of h)) 8)) [
  | inl p ↦
      let (n, all) = group_bytes-IsAddress (groups_of h) bytes (rw p at e) in
      (omega (arith, n, (nat_eq_iff (length (groups_of h)) 8).0 p), all)
  | inr p ↦ ground (arith, p, e)
]
halves_bytes-IsAddress (h ∷ t ∷ []) bytes e =
    let zeros : List Text =
      replicate (8 - length (groups_of h) - length (groups_of t)) (b'0' ∷ []) in
    elim (Bool-cases (ltb 8 (length (groups_of h) + length (groups_of t)))) [
      | inl p ↦ ground (arith, p, e)
      | inr p ↦
          let (n, all) =
            group_bytes-IsAddress (groups_of h ++ (zeros ++ groups_of t)) bytes (rw p at e) in
          (
            ground (
              arith,
              n,
              p,
              length-append (groups_of h) (zeros ++ groups_of t),
              length-append zeros (groups_of t),
              length-replicate (8 - length (groups_of h) - length (groups_of t)) (b'0' ∷ []),
            ),
            all,
          )
    ]
halves_bytes-IsAddress _ bytes e = cc

v6_bytes-IsAddress :
    (ip : Text) (bytes : List ℕ) → v6_bytes ip ≡ some bytes → (length bytes ≡ 16) × All IsByte bytes
unfolding v6_bytes
v6_bytes-IsAddress ip bytes h = elim (Option-cases (unfold_quad ip)) [
  | inl e ↦ ground (arith, e, h)
  | inr (t, e) ↦ halves_bytes-IsAddress (split_double t) bytes (rw (e, v6_bytes) at h)
]

-- An address that is read has four bytes, or sixteen, and each is below 256.
pub to_bytes-IsAddress : (ip : Text) (bytes : List ℕ) → to_bytes ip ≡ some bytes → IsAddress bytes
unfolding to_bytes
to_bytes-IsAddress ip bytes h = elim (Bool-cases (has_char b'.' ip && not (has_char b':' ip))) [
  | inl p ↦
      let (n, all) = four_octets-IsAddress (split_on b'.' ip) bytes (rw p at h) in (inl n, all)
  | inr p ↦ elim (Bool-cases (has_char b':' ip)) [
    | inl q ↦ let (n, all) = v6_bytes-IsAddress ip bytes (rw (p, q) at h) in (inr n, all)
    | inr q ↦ ground (arith, p, q, h)
  ]
]
