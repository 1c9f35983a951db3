-- ===== src/Gateway/Address.antt =====
-- Link-local addresses: the address half of apps/web/src/lib/gateway-rules.ts.
pub mod Laws
use semantius_idp.Prelude.{
  ℕ, ◌+◌, ◌*◌, ◌-◌, Text, String, codes, has_char, trim, cut_at, leb, ltb, nat_eq, all, any, length,
  split_on, Bool, false, ◌&&◌, ◌||◌, Option, none, some, if◌then◌else◌, List, [], ◌∷◌, ◌++◌,
}
use semantius_idp.Net.Address.{is_digit, hextet, to_hex, split_double, replicate, groups_of, ◌>>=◌}
use Prim.Native.Nat.{bit_and, ◌/◌, ◌%◌}

-- `\d{1,3}` with its number
unfoldable pub small_number : Text → Option ℕ
small_number (a ∷ []) = if is_digit a then some (a - 48) else none
small_number (a ∷ b ∷ []) =
    if is_digit a && is_digit b then some ((a - 48) * 10 + (b - 48)) else none
small_number (a ∷ b ∷ c ∷ []) =
    if is_digit a && is_digit b && is_digit c
    then some ((a - 48) * 100 + (b - 48) * 10 + (c - 48))
    else none
small_number _ = none

abbrev pub up_to_255 : Option ℕ → Option ℕ
up_to_255 none = none
up_to_255 (some n) = if leb n 255 then some n else none

unfoldable pub quad_of : List Text → Option (List ℕ)
quad_of (p ∷ q ∷ r ∷ s ∷ []) = do
  a ← up_to_255 (small_number p)
  b ← up_to_255 (small_number q)
  c ← up_to_255 (small_number r)
  d ← up_to_255 (small_number s)
  some (a ∷ b ∷ c ∷ d ∷ [])
quad_of _ = none

-- `parseIpv4`
unfoldable pub parse_ipv4 : Text → Option (List ℕ)
parse_ipv4 value = quad_of (split_on b'.' value)

abbrev is_upper : ℕ → Bool
is_upper c = leb b'A' c && leb c b'Z'

-- `/^[0-9a-f]{1,4}$/` with its number
abbrev lower_hextet : Text → Option ℕ
lower_hextet group = if any is_upper group then none else hextet group

hextets_of : List Text → Option (List ℕ)
hextets_of [] = some []
hextets_of (g ∷ gs) = do h ← lower_hextet g; rest ← hextets_of gs; some (h ∷ rest)

-- `toHextets`
to_hextets : Text → Option (List ℕ)
unfolding hextets_of
to_hextets part = hextets_of (groups_of part)

-- The halves about `::`
eight_hextets : List Text → Option (List ℕ)
unfolding to_hextets
eight_hextets (h ∷ []) = do head ← to_hextets h; if nat_eq (length head) 8 then some head else none
eight_hextets (h ∷ t ∷ []) = do
  head ← to_hextets h
  rest ← to_hextets t
  if ltb (length head + length rest) 8
      then some (head ++ (replicate (8 - length head - length rest) 0 ++ rest))
      else none
eight_hextets _ = none

abbrev shift_cut : ℕ → Text → Option (Text × Text) → Option (Text × Text)
shift_cut c s (some (before, after)) = some (c ∷ before, after)
shift_cut c s none = if nat_eq c b':' then some ([], s) else none

-- The text before and after the last colon
cut_last_colon : Text → Option (Text × Text)
cut_last_colon [] = none
cut_last_colon (c ∷ s) = let rest = cut_last_colon s in shift_cut c s rest

abbrev quad_groups : Text → Option (List ℕ) → Option Text
quad_groups before (some (a ∷ b ∷ c ∷ d ∷ [])) =
    some (before ++ (b':' ∷ (to_hex (a * 256 + b) ++ b':' ∷ to_hex (c * 256 + d))))
quad_groups before _ = none

-- A trailing dotted quad becomes the last two hextets.
quad_to_hextets : Text → Option Text
unfolding cut_last_colon
quad_to_hextets text = elim (cut_last_colon text) [
  | none ↦ none
  | some (before, tail) ↦
      if has_char b'.' tail then quad_groups before (parse_ipv4 tail) else some text
]

drop_last : Text → Text
drop_last [] = []
drop_last (c ∷ []) = []
drop_last (c ∷ d ∷ s) = c ∷ drop_last (d ∷ s)

ends_in : ℕ → Text → Bool
ends_in x [] = false
ends_in x (c ∷ []) = nat_eq c x
ends_in x (c ∷ d ∷ s) = ends_in x (d ∷ s)

unbracket : Text → Text
unfolding drop_last ends_in
unbracket [] = []
unbracket (c ∷ s) = if nat_eq c b'[' && ends_in b']' (c ∷ s) then drop_last s else c ∷ s

abbrev before_zone : Text → Option (Text × Text) → Text
before_zone text none = text
before_zone text (some (before, zone)) = before

module _ (lower : Text → Text) where
  -- `parseIpv6`; `lower` is `toLowerCase`.
  unfoldable pub parse_ipv6 : Text → Option (List ℕ)
  unfolding unbracket quad_to_hextets eight_hextets
  parse_ipv6 value =
      let bare = unbracket (lower (trim value)) in
      do
        text ← quad_to_hextets (before_zone bare (cut_at b'%' bare))
        eight_hextets (split_double text)

  -- `169.254` in the last two hextets, behind zeros or the mapped prefix
  abbrev embeds_link_local : List ℕ → Bool
  embeds_link_local (a ∷ b ∷ c ∷ d ∷ e ∷ f ∷ g ∷ hs) =
      all (λ h. nat_eq h 0) (a ∷ b ∷ c ∷ d ∷ e ∷ [])
      && (nat_eq f 0xffff || nat_eq f 0)
      && nat_eq (g / 256) 169
      && nat_eq (bit_and g 0xff) 254
  embeds_link_local _ = false

  abbrev hextets_link_local : List ℕ → Bool
  hextets_link_local [] = false
  hextets_link_local (h ∷ hs) = nat_eq (bit_and h 0xffc0) 0xfe80 || embeds_link_local (h ∷ hs)

  abbrev pub quad_link_local : List ℕ → Bool
  quad_link_local (a ∷ b ∷ rest) = nat_eq a 169 && nat_eq b 254
  quad_link_local _ = false

  -- `isLinkLocalAddress`
  unfoldable pub is_link_local_address : Text → Bool
  is_link_local_address address = elim (parse_ipv4 address) [
    | some quad ↦ quad_link_local quad
    | none ↦ elim (parse_ipv6 address) [ none ↦ false | some hextets ↦ hextets_link_local hextets ]
  ]
