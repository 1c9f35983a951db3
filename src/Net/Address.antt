-- ===== src/Net/Address.antt =====
-- Reading IPv4 and IPv6 addresses: the lower half of apps/web/src/server/http/client-ip.ts.
pub mod Octets
pub mod Size
use semantius_idp.Prelude.{
  ℕ, ◌+◌, ◌-◌, ◌*◌, ◌/◌, ◌%◌, Text, String, codes, nat_eq, leb, ltb, length, all, is_empty,
  has_char, split_on, push_head, Bool, not, ◌&&◌, Option, none, some, if◌then◌else◌, List, [], ◌∷◌,
  ◌++◌, zero, suc,
}

-- `a ?? return undefined`: the chains of early returns.
infixl 5 ◌>>=◌
abbrev pub ◌>>=◌ {ℓ κ} : {A : Type ℓ} {B : Type κ} → Option A → (A → Option B) → Option B
none >>= f = none
some a >>= f = f a

abbrev pub is_digit : ℕ → Bool
is_digit c = leb b'0' c && leb c b'9'

abbrev pub is_lead : ℕ → Bool
is_lead c = leb b'1' c && leb c b'9'

abbrev pub below_256 : ℕ → Option ℕ
below_256 v = if ltb 255 v then none else some v

-- `/^(0|[1-9]\d{0,2})$/`, then the range check
unfoldable pub octet : Text → Option ℕ
octet (a ∷ []) = if is_digit a then some (a - 48) else none
octet (a ∷ b ∷ []) = if is_lead a && is_digit b then some ((a - 48) * 10 + (b - 48)) else none
octet (a ∷ b ∷ c ∷ []) =
    if is_lead a && is_digit b && is_digit c
    then below_256 ((a - 48) * 100 + (b - 48) * 10 + (c - 48))
    else none
octet _ = none

-- The four parts of `v4Bytes`
unfoldable pub four_octets : List Text → Option (List ℕ)
four_octets (p ∷ q ∷ r ∷ s ∷ []) = do
  a ← octet p
  b ← octet q
  c ← octet r
  d ← octet s
  some (a ∷ b ∷ c ∷ d ∷ [])
four_octets _ = none

-- `v4Bytes`
unfoldable pub v4_bytes : Text → Option (List ℕ)
unfolding four_octets octet
v4_bytes ip = four_octets (split_on b'.' ip)

-- The value of a hexadecimal digit of either case.
unfoldable pub hex_value : ℕ → Option ℕ
hex_value c =
    if is_digit c
    then some (c - 48)
    else if leb b'a' c && leb c b'f'
    then some (c - 87)
    else if leb b'A' c && leb c b'F'
    then some (c - 55)
    else none

-- `/^[0-9a-f]{1,4}$/i` and `Number.parseInt(group, 16)`
unfoldable pub hextet : Text → Option ℕ
hextet (a ∷ []) = hex_value a
hextet (a ∷ b ∷ []) = do x ← hex_value a; y ← hex_value b; some (x * 16 + y)
hextet (a ∷ b ∷ c ∷ []) = do
  x ← hex_value a
  y ← hex_value b
  z ← hex_value c
  some (x * 256 + y * 16 + z)
hextet (a ∷ b ∷ c ∷ d ∷ []) = do
  x ← hex_value a
  y ← hex_value b
  z ← hex_value c
  w ← hex_value d
  some (x * 4096 + y * 256 + z * 16 + w)
hextet _ = none

unfoldable pub hex_digit : ℕ → ℕ
hex_digit d = if ltb d 10 then 48 + d else 87 + d

-- `n.toString(16)` for n below 65536
unfoldable pub to_hex : ℕ → Text
unfolding hex_digit
to_hex n =
    if ltb n 16
    then hex_digit n ∷ []
    else if ltb n 256
    then hex_digit (n / 16) ∷ hex_digit (n % 16) ∷ []
    else if ltb n 4096
    then hex_digit (n / 256) ∷ hex_digit (n / 16 % 16) ∷ hex_digit (n % 16) ∷ []
    else hex_digit (n / 4096)
      ∷ hex_digit (n / 256 % 16)
      ∷ hex_digit (n / 16 % 16)
      ∷ hex_digit (n % 16)
      ∷ []

abbrev digits_only : Text → Bool
digits_only part = not (is_empty part) && all is_digit part

-- `\d+\.\d+\.\d+\.\d+` from end to end
unfoldable pub is_dotted_quad : Text → Bool
is_dotted_quad s = let parts = split_on b'.' s in nat_eq (length parts) 4 && all digits_only parts

-- `/(\d+\.\d+\.\d+\.\d+)$/`: the text before the leftmost match, and the match.
unfoldable pub dotted_tail : Text → Option (Text × Text)
unfolding is_dotted_quad
dotted_tail [] = none
dotted_tail (c ∷ s) =
    let rest = dotted_tail s in
    if is_dotted_quad (c ∷ s)
    then some ([], c ∷ s)
    else elim rest [ none ↦ none | some (before, quad) ↦ some (c ∷ before, quad) ]

-- `text.split("::")`
unfoldable pub split_double : Text → List Text
split_double [] = [] ∷ []
split_double (c ∷ []) = (c ∷ []) ∷ []
split_double (c ∷ d ∷ s) =
    let skip = split_double s in
    let rest = split_double (d ∷ s) in
    if nat_eq c b':' && nat_eq d b':' then [] ∷ skip else push_head c rest

-- `half === "" ? [] : half.split(":")`
unfoldable pub groups_of : Text → List Text
groups_of [] = []
groups_of (c ∷ s) = split_on b':' (c ∷ s)

abbrev pub replicate {ℓ} : {A : Type ℓ} → ℕ → A → List A
replicate zero a = []
replicate (suc n) a = a ∷ replicate n a

-- The bytes of the groups, each read by `hextet`
unfoldable pub group_bytes : List Text → Option (List ℕ)
group_bytes [] = some []
group_bytes (g ∷ gs) = do
  value ← hextet g
  rest ← group_bytes gs
  some (value / 256 ∷ value % 256 ∷ rest)

-- The halves about `::`, with the missing groups as zeros
unfoldable pub halves_bytes : List Text → Option (List ℕ)
unfolding groups_of group_bytes
halves_bytes (h ∷ []) = if nat_eq (length (groups_of h)) 8 then group_bytes (groups_of h) else none
halves_bytes (h ∷ t ∷ []) =
    let head = groups_of h in
    let tail = groups_of t in
    if ltb 8 (length head + length tail)
    then none
    else group_bytes (head ++ (replicate (8 - length head - length tail) (b'0' ∷ []) ++ tail))
halves_bytes _ = none

-- A trailing IPv4 part becomes two groups.
unfoldable pub unfold_quad : Text → Option Text
unfolding dotted_tail v4_bytes to_hex
unfold_quad ip = elim (dotted_tail ip) [
  | none ↦ some ip
  | some (before, quad) ↦ elim (v4_bytes quad) [
    | some (a ∷ b ∷ c ∷ d ∷ []) ↦
        some (before ++ (to_hex (a * 256 + b) ++ (b':' ∷ to_hex (c * 256 + d))))
    | _ ↦ none
  ]
]

-- `v6Bytes`
unfoldable pub v6_bytes : Text → Option (List ℕ)
unfolding unfold_quad split_double halves_bytes
v6_bytes ip = do text ← unfold_quad ip; halves_bytes (split_double text)

-- `toBytes`
unfoldable pub to_bytes : Text → Option (List ℕ)
unfolding v4_bytes v6_bytes
to_bytes ip =
    if has_char b'.' ip && not (has_char b':' ip)
    then v4_bytes ip
    else if has_char b':' ip
    then v6_bytes ip
    else none
