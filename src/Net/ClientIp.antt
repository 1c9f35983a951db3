-- ===== src/Net/ClientIp.antt =====
-- The caller's address and the trusted ranges: the upper half of
-- apps/web/src/server/http/client-ip.ts.
pub mod Chain
pub mod Prefix
pub mod Range
pub mod Edge
use Prim.Native.Nat.{bit_and}
use semantius_idp.Prelude.{
  ℕ, zero, suc, ◌+◌, ◌-◌, ◌*◌, ◌/◌, ◌%◌, ◌^◌, Text, String, codes, nat_eq, ltb, length, any,
  has_char, split_on, cut_at, trim, join_with, Bool, true, false, not, ◌&&◌, ◌||◌, Option, none,
  some, or_option, is_none, if◌then◌else◌, List, [], ◌∷◌, ◌++◌,
}
use mathlib.Core.Option
use semantius_idp.Net.Address.{◌>>=◌, to_bytes, to_hex, is_dotted_quad}

-- `TrustProxy`
pub data TrustProxy : Type 0 where
  never always : TrustProxy
  ranges : List Text → TrustProxy

abbrev is_f : ℕ → Bool
is_f c = nat_eq c b'f' || nat_eq c b'F'

-- `/^::ffff:(\d+\.\d+\.\d+\.\d+)$/i`: the quad, if it matches.
unfoldable pub mapped_quad : Text → Option Text
unfolding is_dotted_quad
mapped_quad (a ∷ b ∷ c ∷ d ∷ e ∷ f ∷ g ∷ quad) =
    if nat_eq a b':'
      && nat_eq b b':'
      && is_f c
      && is_f d
      && is_f e
      && is_f f
      && nat_eq g b':'
      && is_dotted_quad quad
    then some quad
    else none
mapped_quad _ = none

-- `ip.split(":").length - 1`
unfoldable pub count_char : ℕ → Text → ℕ
count_char c [] = 0
count_char c (d ∷ s) = let rest = count_char c s in if nat_eq d c then suc rest else rest

abbrev before_cut : Text → Option (Text × Text) → Text
before_cut s none = s
before_cut s (some (before, after)) = before

-- The brackets and the port of `normalizeIp`
unfoldable pub bare : Text → Option Text
unfolding count_char
bare [] = none
bare (c ∷ s) =
    if nat_eq c b'['
    then Option.map (λ p. p.0) (cut_at b']' s)
    else if has_char b'.' (c ∷ s) && has_char b':' (c ∷ s) && nat_eq (count_char b':' (c ∷ s)) 1
    then some (before_cut (c ∷ s) (cut_at b':' (c ∷ s)))
    else some (c ∷ s)

abbrev checked : Text → Option Text
checked ip = if is_none (to_bytes ip) then none else some ip

-- `normalizeIp`; `null` is `none`.
unfoldable pub normalize_ip : Option Text → Option Text
unfolding bare mapped_quad
normalize_ip none = none
normalize_ip (some s) = do
  ip ← bare (trim s)
  elim (mapped_quad ip) [ some quad ↦ checked quad | none ↦ checked ip ]

-- The byte comparison of `inCidr`: whole bytes, then the masked one.
unfoldable pub cidr_match : ℕ → ℕ → List ℕ → List ℕ → Bool
cidr_match (suc k) rem (t ∷ ts) (b ∷ bs) = nat_eq t b && cidr_match k rem ts bs
cidr_match zero rem (t ∷ ts) (b ∷ bs) =
    if nat_eq rem 0
    then true
    else nat_eq (bit_and t (255 * 2 ^ (8 - rem))) (bit_and b (255 * 2 ^ (8 - rem)))
cidr_match _ rem _ _ = true

-- The addresses that the entries of the header name
unfoldable pub hops_of : List Text → List Text
hops_of [] = []
hops_of (hop ∷ hops) =
    let rest = hops_of hops in elim (normalize_ip (some hop)) [ none ↦ rest | some ip ↦ ip ∷ rest ]

abbrev pub to_list : Option Text → List Text
to_list none = []
to_list (some a) = a ∷ []

abbrev pub first : List Text → Option Text
first [] = none
first (a ∷ rest) = some a

-- An absent or empty header names none.
forwarded_hops : Option Text → List Text
forwarded_hops none = []
forwarded_hops (some []) = []
forwarded_hops (some (c ∷ s)) = hops_of (split_on b',' (c ∷ s))

-- `number` is `Number(text)` where that is a whole number from 0 on.
module _ (number : Text → Option ℕ) where
  -- The prefix length of `inCidr`
  unfoldable pub range_bits : ℕ → List Text → Option ℕ
  range_bits size [] = some (size * 8)
  range_bits size (bits ∷ _) = number bits

  compare_bytes : List ℕ → List ℕ → List Text → Bool
  unfolding range_bits cidr_match
  compare_bytes target base rest =
      if not (nat_eq (length target) (length base))
      then false
      else elim (range_bits (length base) rest) [
        | none ↦ false
        | some bits ↦
            if ltb (length base * 8) bits
            then false
            else cidr_match (bits / 8) (bits % 8) target base
      ]

  in_range : Text → List Text → Bool
  unfolding compare_bytes
  in_range ip [] = false
  in_range ip ([] ∷ rest) = false
  in_range ip ((c ∷ network) ∷ rest) = elim (to_bytes ip) [
    | none ↦ false
    | some target ↦ elim (to_bytes (c ∷ network)) [
      | none ↦ false
      | some base ↦ compare_bytes target base rest
    ]
  ]

  -- `inCidr`
  unfoldable pub in_cidr : Text → Text → Bool
  unfolding in_range
  in_cidr ip range = in_range ip (split_on b'/' range)

  -- `isTrusted`
  unfoldable pub is_trusted : Text → List Text → Bool
  is_trusted ip trusted = any (in_cidr ip) trusted

  -- The walk from the right over the chain
  unfoldable pub last_untrusted : List Text → List Text → Option Text
  last_untrusted trusted [] = none
  last_untrusted trusted (hop ∷ hops) =
      or_option (last_untrusted trusted hops) (if is_trusted hop trusted then none else some hop)

  -- From the hops on, which are not empty
  pick_hop : TrustProxy → Option Text → List Text → Option Text
  unfolding last_untrusted
  pick_hop trust direct [] = direct
  pick_hop never direct (hop ∷ hops) = direct
  pick_hop always direct (hop ∷ hops) = some hop
  pick_hop (ranges trusted) direct (hop ∷ hops) =
      let chain = (hop ∷ hops) ++ to_list direct in
      or_option (last_untrusted trusted chain) (first chain)

  -- `clientIpFrom`: the socket's address and the forwarded header
  unfoldable pub client_ip_from : TrustProxy → Option Text → Option Text → Option Text
  unfolding pick_hop forwarded_hops
  client_ip_from trust socket forwarded =
      pick_hop trust (normalize_ip socket) (forwarded_hops forwarded)

-- The first four groups of `rateLimitKeyAddress`
unfoldable pub subnet_groups : ℕ → List ℕ → List Text
subnet_groups (suc k) (hi ∷ lo ∷ bytes) = to_hex (hi * 256 + lo) ∷ subnet_groups k bytes
subnet_groups _ _ = []

-- `rateLimitKeyAddress`
unfoldable pub rate_limit_key_address : Option Text → Option Text
unfolding subnet_groups
rate_limit_key_address value = do
  ip ← normalize_ip value
  elim (to_bytes ip) [
    | none ↦ some ip
    | some bytes ↦
        if nat_eq (length bytes) 4
        then some ip
        else some (join_with (b':' ∷ []) (subnet_groups 4 bytes) ++ codes "::/64")
  ]
