-- ===== src/Net/Address/Octets.antt =====
-- One spelling for each IPv4 address, and the printing of hexadecimal groups.
use semantius_idp.Prelude.{
  ℕ, ◌+◌, ◌*◌, ◌/◌, ◌%◌, ◌<◌, Text, ltb, Lacks, split_on, split_on-join_with, join_with-split_on,
  join_with, some, List, [], ◌∷◌, ◌≡◌, ◌↔◌, sym, ap, ◌∙◌, arith, if◌then◌else◌, Bool-cases, ltb→lt,
  inl, inr,
}
use semantius_idp.Net.Address.{octet, four_octets, v4_bytes, hex_value, hextet, hex_digit, to_hex}

-- A number below 1000 in decimal, without leading zeros.
pub decimal : ℕ → Text
decimal v =
    if ltb v 10
    then (48 + v) ∷ []
    else if ltb v 100
    then (48 + v / 10) ∷ (48 + v % 10) ∷ []
    else (48 + v / 100) ∷ (48 + v / 10 % 10) ∷ (48 + v % 10) ∷ []

pub octet_sound : (s : Text) (v : ℕ) → octet s ≡ some v → (v < 256) × (s ≡ decimal v)
unfolding octet decimal
octet_sound [] v h = cc
octet_sound (a ∷ []) v h = ground arith
octet_sound (a ∷ b ∷ []) v h = ground arith
octet_sound (a ∷ b ∷ c ∷ []) v h = ground arith
octet_sound (a ∷ b ∷ c ∷ d ∷ s) v h = cc

octet_two :
    (a b : ℕ) → 0 < a → a < 10 → b < 10 → octet ((48 + a) ∷ (48 + b) ∷ []) ≡ some (a * 10 + b)
unfolding octet
octet_two a b p h k = ground arith

octet_three :
    (a b c : ℕ)
    → 0 < a
    → a < 10
    → b < 10
    → c < 10
    → a * 100 + b * 10 + c < 256
    → octet ((48 + a) ∷ (48 + b) ∷ (48 + c) ∷ []) ≡ some (a * 100 + b * 10 + c)
unfolding octet
octet_three a b c p h k l bound = ground arith

octet-decimal : (v : ℕ) → v < 256 → octet (decimal v) ≡ some v
unfolding decimal
octet-decimal v h = elim (Bool-cases (ltb v 10)) [
  | inl e ↦ rw e (unfold octet in ground arith)
  | inr e ↦ elim (Bool-cases (ltb v 100)) [
    | inl f ↦
        rw (e, f)
          (octet_two (v / 10) (v % 10) (ground arith) (ground arith) (omega arith)
            ∙ ap some (omega arith))
    | inr f ↦
        rw (e, f)
          (octet_three (v / 100) (v / 10 % 10) (v % 10) (ground arith) (ground arith) (omega arith)
              (omega arith) (omega arith)
            ∙ ap some (omega arith))
  ]
]

-- A text is read as an octet exactly when it is the decimal of a number below 256.
octet_iff : (s : Text) (v : ℕ) → (octet s ≡ some v) ↔ ((v < 256) × (s ≡ decimal v))
octet_iff s v = (octet_sound s v, λ (h, e). rw e (octet-decimal v h))

-- `a.b.c.d`
pub print_v4 : ℕ → ℕ → ℕ → ℕ → Text
print_v4 a b c d = join_with (b'.' ∷ []) (decimal a ∷ decimal b ∷ decimal c ∷ decimal d ∷ [])

decimal-Lacks : (v : ℕ) → v < 256 → Lacks b'.' (decimal v)
unfolding decimal
decimal-Lacks v h = elim (Bool-cases (ltb v 10)) [
  | inl e ↦ rw e (λ p. omega arith, tt)
  | inr e ↦ elim (Bool-cases (ltb v 100)) [
    | inl f ↦ rw (e, f) (λ p. omega arith, (λ p. omega arith, tt))
    | inr f ↦ rw (e, f) (λ p. omega arith, (λ p. omega arith, (λ p. omega arith, tt)))
  ]
]

four_octets_sound :
    (ps : List Text) (a b c d : ℕ)
    → four_octets ps ≡ some (a ∷ b ∷ c ∷ d ∷ [])
    → (a < 256)
      × (b < 256)
      × (c < 256)
      × (d < 256)
      × (ps ≡ decimal a ∷ decimal b ∷ decimal c ∷ decimal d ∷ [])
unfolding four_octets
four_octets_sound (p ∷ q ∷ r ∷ s ∷ []) a b c d h =
    ground (arith, octet_sound p a, octet_sound q b, octet_sound r c, octet_sound s d)
four_octets_sound _ a b c d h = cc

four_octets-decimal :
    (a b c d : ℕ)
    → a < 256
    → b < 256
    → c < 256
    → d < 256
    → four_octets (decimal a ∷ decimal b ∷ decimal c ∷ decimal d ∷ []) ≡ some (a ∷ b ∷ c ∷ d ∷ [])
unfolding four_octets
four_octets-decimal a b c d la lb lc ld =
    ground (arith, octet-decimal a la, octet-decimal b lb, octet-decimal c lc, octet-decimal d ld)

-- The only text read as the bytes `a b c d` is their dotted decimal without leading zeros.
pub v4_bytes_iff :
    (s : Text) (a b c d : ℕ)
    → (v4_bytes s ≡ some (a ∷ b ∷ c ∷ d ∷ []))
      ↔ ((a < 256) × (b < 256) × (c < 256) × (d < 256) × (s ≡ print_v4 a b c d))
unfolding v4_bytes print_v4
v4_bytes_iff s a b c d = (
  λ h.
      let (la, lb, lc, ld, e) = four_octets_sound (split_on b'.' s) a b c d h in
      (la, lb, lc, ld, sym (join_with-split_on b'.' s) ∙ ap (join_with (b'.' ∷ [])) e),
  λ (la, lb, lc, ld, e).
      rw
        (
          e,
          split_on-join_with b'.' (decimal a) (decimal b ∷ decimal c ∷ decimal d ∷ []) (
            decimal-Lacks a la,
            (decimal-Lacks b lb, (decimal-Lacks c lc, (decimal-Lacks d ld, tt))),
          ),
        )
        (four_octets-decimal a b c d la lb lc ld),
)

hex_value-hex_digit : (d : ℕ) → d < 16 → hex_value (hex_digit d) ≡ some d
unfolding hex_value hex_digit
hex_value-hex_digit d h = ground arith

module _ (n : ℕ) where
  low : hex_value (hex_digit (n % 16)) ≡ some (n % 16)
  low = hex_value-hex_digit (n % 16) (omega arith)

  middle : hex_value (hex_digit (n / 16 % 16)) ≡ some (n / 16 % 16)
  middle = hex_value-hex_digit (n / 16 % 16) (omega arith)

  upper : hex_value (hex_digit (n / 256 % 16)) ≡ some (n / 256 % 16)
  upper = hex_value-hex_digit (n / 256 % 16) (omega arith)

  hextet_two : n < 256 → hextet (hex_digit (n / 16) ∷ hex_digit (n % 16) ∷ []) ≡ some n
  unfolding hextet
  hextet_two h = rw (hex_value-hex_digit (n / 16) (omega arith), low) (ap some (omega arith))

  hextet_three :
      n < 4096
      → hextet (hex_digit (n / 256) ∷ hex_digit (n / 16 % 16) ∷ hex_digit (n % 16) ∷ []) ≡ some n
  unfolding hextet
  hextet_three h =
      rw (hex_value-hex_digit (n / 256) (omega arith), middle, low) (ap some (omega arith))

  hextet_four :
      n < 65536
      → hextet (
          hex_digit (n / 4096)
          ∷ hex_digit (n / 256 % 16)
          ∷ hex_digit (n / 16 % 16)
          ∷ hex_digit (n % 16)
          ∷ [])
        ≡ some n
  unfolding hextet
  hextet_four h =
      rw (hex_value-hex_digit (n / 4096) (omega arith), upper, middle, low) (ap some (omega arith))

-- Reading back a printed group gives its value.
pub hextet-to_hex : (n : ℕ) → n < 65536 → hextet (to_hex n) ≡ some n
unfolding hextet to_hex
hextet-to_hex n h = elim (Bool-cases (ltb n 16)) [
  | inl e ↦ rw e (hex_value-hex_digit n (ltb→lt n 16 e))
  | inr e ↦ elim (Bool-cases (ltb n 256)) [
    | inl f ↦ rw (e, f) (hextet_two n (ltb→lt n 256 f))
    | inr f ↦ elim (Bool-cases (ltb n 4096)) [
      | inl g ↦ rw (e, f, g) (hextet_three n (ltb→lt n 4096 g))
      | inr g ↦ rw (e, f, g) (hextet_four n h)
    ]
  ]
]
