-- ===== src/Net/ClientIp/Range.antt =====
-- `inCidr` on texts, and the keys of the rate limiter.
use mathlib.Core.List.{append_cancel_right}
use semantius_idp.Prelude.{
  ℕ, zero, suc, ◌+◌, ◌*◌, ◌/◌, ◌%◌, ◌≤◌, ◌<◌, Text, All, length, nat_eq, nat_eq_iff, ltb, split_on,
  split_on-join_with, Lacks, true, Option, some, some_inj, List, [], ◌∷◌, ◌++◌, ◌≡◌, ◌≢◌, ◌↔◌, refl,
  sym, ap, subst, ◌∙◌, arith, Bool-cases, inl, inr, ltb→lt, codes, join_with,
}
use semantius_idp.Net.Address.{to_bytes, to_hex, hextet, hex_digit}
use semantius_idp.Net.Address.Octets.{hextet-to_hex}
use semantius_idp.Net.Address.Size.{IsByte, to_bytes-IsAddress}
use semantius_idp.Net.ClientIp.{
  range_bits, in_cidr, in_range, compare_bytes, normalize_ip, subnet_groups, rate_limit_key_address,
}
use semantius_idp.Net.ClientIp.Prefix.{bits, Agree, cidr_match_iff}

module _ (number : Text → Option ℕ) where
  compare_bytes_iff :
      (target base : List ℕ) (rest : List Text) (n : ℕ)
      → All IsByte target
      → All IsByte base
      → range_bits number (length base) rest ≡ some n
      → (compare_bytes number target base rest ≡ true) ↔ (
          (length target ≡ length base) × (n ≤ 8 * length base) × Agree n (bits target) (bits base))
  unfolding compare_bytes
  compare_bytes_iff target base rest n ht hb e =
      elim (Bool-cases (nat_eq (length target) (length base))) [
        | inr p ↦ rw p (λ h. cc, λ (s, f, a). ground (arith, p, s))
        | inl p ↦ elim (Bool-cases (ltb (length base * 8) n)) [
          | inl q ↦ rw (p, e, compare_bytes) (rw q (λ h. cc, λ (s, f, a). ground (arith, q, f)))
          | inr q ↦
              let same = (nat_eq_iff (length target) (length base)).0 p in
              let fits : n ≤ 8 * length base = ground (arith, q) in
              let whole : 8 * (n / 8) + n % 8 ≡ n = omega arith in
              let (to, from) =
                cidr_match_iff (n / 8) (n % 8) target base (omega arith) same
                  (omega (arith, fits, whole)) ht hb in
              rw (p, e, compare_bytes)
                (rw q (
                  λ h. (same, fits, subst (λ k. Agree k (bits target) (bits base)) whole (to h)),
                  λ (s, f, a). from (subst (λ k. Agree k (bits target) (bits base)) (sym whole) a),
                ))
        ]
      ]

  -- An address is inside a range exactly when both are of one kind, the prefix length fits, and
  -- the address agrees with the network in that many leading bits.
  pub in_cidr_iff :
      (ip range : Text) (c : ℕ) (network : Text) (rest : List Text) (n : ℕ) (target base : List ℕ)
      → split_on b'/' range ≡ (c ∷ network) ∷ rest
      → to_bytes ip ≡ some target
      → to_bytes (c ∷ network) ≡ some base
      → range_bits number (length base) rest ≡ some n
      → (in_cidr number ip range ≡ true) ↔ (
          (length target ≡ length base) × (n ≤ 8 * length base) × Agree n (bits target) (bits base))
  unfolding in_cidr in_range
  in_cidr_iff ip range c network rest n target base s t b e =
      rw (s, t, b, in_range)
        (compare_bytes_iff target base rest n (to_bytes-IsAddress ip target t).1
          (to_bytes-IsAddress (c ∷ network) base b).1 e)

hex_digit-ne : (d : ℕ) → d < 16 → hex_digit d ≢ b':'
unfolding hex_digit
hex_digit-ne d h = ground arith

to_hex-Lacks : (n : ℕ) → n < 65536 → Lacks b':' (to_hex n)
unfolding to_hex
to_hex-Lacks n h = elim (Bool-cases (ltb n 16)) [
  | inl e ↦ rw e (hex_digit-ne n (ltb→lt n 16 e), tt)
  | inr e ↦ elim (Bool-cases (ltb n 256)) [
    | inl f ↦
        let small = ltb→lt n 256 f in
        rw (e, f) (hex_digit-ne (n / 16) (omega arith), (hex_digit-ne (n % 16) (omega arith), tt))
    | inr f ↦ elim (Bool-cases (ltb n 4096)) [
      | inl g ↦
          let small = ltb→lt n 4096 g in
          rw (e, f, g)
            (
              hex_digit-ne (n / 256) (omega arith),
              (hex_digit-ne (n / 16 % 16) (omega arith), (hex_digit-ne (n % 16) (omega arith), tt)),
            )
      | inr g ↦
          rw (e, f, g)
            (
              hex_digit-ne (n / 4096) (omega arith),
              (
                hex_digit-ne (n / 256 % 16) (omega arith),
                (
                  hex_digit-ne (n / 16 % 16) (omega arith),
                  (hex_digit-ne (n % 16) (omega arith), tt),
                ),
              ),
            )
    ]
  ]
]

to_hex-injective : (m n : ℕ) → m < 65536 → n < 65536 → to_hex m ≡ to_hex n → m ≡ n
to_hex-injective m n hm hn e =
    some_inj (sym (hextet-to_hex m hm) ∙ (ap hextet e ∙ hextet-to_hex n hn))

abbrev twice : ℕ → ℕ
twice zero = zero
twice (suc k) = suc (suc (twice k))

subnet_groups_iff :
    (k : ℕ) (bs cs : List ℕ)
    → twice k ≤ length bs
    → twice k ≤ length cs
    → All IsByte bs
    → All IsByte cs
    → (subnet_groups k bs ≡ subnet_groups k cs) ↔ Agree (twice k) bs cs
unfolding subnet_groups
subnet_groups_iff zero bs cs lb lc hb hc = (λ e. tt, λ a. refl)
subnet_groups_iff (suc k) (a ∷ b ∷ bs) (c ∷ d ∷ cs) lb lc (ha, (hb, hbs)) (hc, (hd, hcs)) =
    let (to, from) = subnet_groups_iff k bs cs (omega arith) (omega arith) hbs hcs in
    (
      λ e.
          let same =
            to_hex-injective (a * 256 + b) (c * 256 + d) (omega arith) (omega arith) (cc) in
          (omega (arith, same), (omega (arith, same), to (cc))),
      λ (p, (q, r)). cc (p, q, from r),
    )
subnet_groups_iff (suc k) [] cs lb lc hb hc = absurd (omega arith)
subnet_groups_iff (suc k) (a ∷ []) cs lb lc hb hc = absurd (omega arith)
subnet_groups_iff (suc k) (a ∷ b ∷ bs) [] lb lc hb hc = absurd (omega arith)
subnet_groups_iff (suc k) (a ∷ b ∷ bs) (c ∷ []) lb lc hb hc = absurd (omega arith)

subnet_groups-Lacks :
    (k : ℕ) (bs : List ℕ) → All IsByte bs → All (λ g. Lacks b':' g) (subnet_groups k bs)
unfolding subnet_groups
subnet_groups-Lacks (suc k) (a ∷ b ∷ bs) (ha, (hb, h)) =
    (to_hex-Lacks (a * 256 + b) (omega arith), subnet_groups-Lacks k bs h)
subnet_groups-Lacks zero bs h = tt
subnet_groups-Lacks (suc k) [] h = tt
subnet_groups-Lacks (suc k) (a ∷ []) h = tt

-- The text of four groups determines them.
joined_injective :
    (bs cs : List ℕ)
    → 8 ≤ length bs
    → All IsByte bs
    → 8 ≤ length cs
    → All IsByte cs
    → join_with (b':' ∷ []) (subnet_groups 4 bs) ≡ join_with (b':' ∷ []) (subnet_groups 4 cs)
    → subnet_groups 4 bs ≡ subnet_groups 4 cs
joined_injective bs cs lb hb lc hc e =
    sym (pieces bs lb hb) ∙ (ap (split_on b':') e ∙ pieces cs lc hc)
  where
    pieces :
        (bs : List ℕ)
        → 8 ≤ length bs
        → All IsByte bs
        → split_on b':' (join_with (b':' ∷ []) (subnet_groups 4 bs)) ≡ subnet_groups 4 bs
    pieces (a ∷ b ∷ bs) l h =
        unfold subnet_groups in
        split_on-join_with b':' (to_hex (a * 256 + b)) (subnet_groups 3 bs)
          (subnet_groups-Lacks 4 (a ∷ b ∷ bs) h)
    pieces [] l h = absurd (omega arith)
    pieces (a ∷ []) l h = absurd (omega arith)

key_of_v6 :
    (value : Option Text) (ip : Text) (bytes : List ℕ)
    → normalize_ip value ≡ some ip
    → to_bytes ip ≡ some bytes
    → length bytes ≡ 16
    → rate_limit_key_address value
      ≡ some (join_with (b':' ∷ []) (subnet_groups 4 bytes) ++ codes "::/64")
unfolding rate_limit_key_address
key_of_v6 value ip bytes n b l = ground (arith, n, b, l)

-- Two IPv6 callers share a rate-limit key exactly when their addresses share the first 64 bits.
pub same_key_iff :
    (v w : Option Text) (ip jp : Text) (bs cs : List ℕ)
    → normalize_ip v ≡ some ip
    → normalize_ip w ≡ some jp
    → to_bytes ip ≡ some bs
    → to_bytes jp ≡ some cs
    → length bs ≡ 16
    → length cs ≡ 16
    → (rate_limit_key_address v ≡ rate_limit_key_address w) ↔ Agree 8 bs cs
same_key_iff v w ip jp bs cs n m b c lb lc =
    let hb = (to_bytes-IsAddress ip bs b).1 in
    let hc = (to_bytes-IsAddress jp cs c).1 in
    let (to, from) = subnet_groups_iff 4 bs cs (omega arith) (omega arith) hb hc in
    let kv = key_of_v6 v ip bs n b lb in
    let kw = key_of_v6 w jp cs m c lc in
    (
      λ e. to (
          joined_injective bs cs (omega arith) hb (omega arith) hc
            (append_cancel_right _ _ (codes "::/64") (some_inj (sym kv ∙ (e ∙ kw))))),
      λ a. kv ∙ (ap (λ gs. some (join_with (b':' ∷ []) gs ++ codes "::/64")) (from a) ∙ sym kw),
    )
