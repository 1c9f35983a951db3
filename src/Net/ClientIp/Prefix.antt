-- ===== src/Net/ClientIp/Prefix.antt =====
-- Membership of a range is agreement of the leading bits, and a rate-limit key names a /64.
use Prim.Native.Nat.{bit_and}
use semantius_idp.Prelude.{
  false, if◌then◌else◌, ℕ, zero, suc, ◌+◌, ◌-◌, ◌*◌, ◌/◌, ◌%◌, ◌^◌, ◌≤◌, ◌<◌, All, length, nat_eq,
  nat_eq_iff, Bool, true, List, [], ◌∷◌, ◌++◌, ◌≡◌, ◌↔◌, refl, subst, arith, Bool-cases, inl, inr,
}
use semantius_idp.Net.ClientIp.{cidr_match}

-- The eight bits of a byte, the high one first.
bits_of : ℕ → List ℕ
bits_of b =
    b / 128 % 2
    ∷ b / 64 % 2
    ∷ b / 32 % 2
    ∷ b / 16 % 2
    ∷ b / 8 % 2
    ∷ b / 4 % 2
    ∷ b / 2 % 2
    ∷ b % 2
    ∷ []

-- The bits of an address.
unfoldable pub bits : List ℕ → List ℕ
unfolding bits_of
bits [] = []
bits (b ∷ bs) = bits_of b ++ bits bs

-- The first `n` entries of the two lists are the same.
abbrev pub Agree : ℕ → List ℕ → List ℕ → Type 0
Agree zero xs ys = Unit
Agree (suc n) (x ∷ xs) (y ∷ ys) = (x ≡ y) × Agree n xs ys
Agree (suc n) [] [] = Unit
Agree (suc n) _ _ = ⊥

abbrev pub IsByte : ℕ → Type 0
IsByte b = b < 256

holds_up_to : (ℕ → Bool) → ℕ → Bool
holds_up_to test zero = true
holds_up_to test (suc limit) =
    let lower = holds_up_to test limit in if test limit then lower else false

holds_up_to_lem :
    (test : ℕ → Bool) (byte limit : ℕ)
    → byte < limit
    → holds_up_to test limit ≡ true
    → test byte ≡ true
unfolding holds_up_to
holds_up_to_lem test byte zero within passed = absurd (omega arith)
holds_up_to_lem test byte (suc limit) within passed = elim (Bool-cases (nat_eq byte limit)) [
  | inl last ↦ rw ((nat_eq_iff byte limit).0 last) (ground (arith, passed))
  | inr below ↦ ground (arith, holds_up_to_lem test byte limit, below, passed)
]

-- The mask keeps the high bits of a byte.
masks : ℕ → Bool
masks r =
    holds_up_to (λ x. nat_eq (bit_and x (255 * 2 ^ (8 - r))) (x / 2 ^ (8 - r) * 2 ^ (8 - r))) 256

mask_lem :
    (r x : ℕ)
    → masks r ≡ true
    → x < 256
    → bit_and x (255 * 2 ^ (8 - r)) ≡ x / 2 ^ (8 - r) * 2 ^ (8 - r)
unfolding masks
mask_lem r x t h = (nat_eq_iff _ _).0 (holds_up_to_lem _ x 256 h t)

mask_table : (r : ℕ) → 0 < r → r < 8 → masks r ≡ true
unfolding masks holds_up_to
mask_table (suc zero) p h = refl
mask_table (suc (suc zero)) p h = refl
mask_table (suc (suc (suc zero))) p h = refl
mask_table (suc (suc (suc (suc zero)))) p h = refl
mask_table (suc (suc (suc (suc (suc zero))))) p h = refl
mask_table (suc (suc (suc (suc (suc (suc zero)))))) p h = refl
mask_table (suc (suc (suc (suc (suc (suc (suc zero))))))) p h = refl
mask_table (suc (suc (suc (suc (suc (suc (suc (suc r)))))))) p h = absurd (omega arith)
mask_table zero p h = absurd (omega arith)

high_bits_iff :
    (r t b : ℕ) (ts bs : List ℕ)
    → 0 < r
    → r < 8
    → t < 256
    → b < 256
    → (t / 2 ^ (8 - r) * 2 ^ (8 - r) ≡ b / 2 ^ (8 - r) * 2 ^ (8 - r))
      ↔ Agree r (bits_of t ++ ts) (bits_of b ++ bs)
unfolding bits_of
high_bits_iff (suc zero) t b ts bs p h lt lb = (λ e. omega arith, λ a. omega arith)
high_bits_iff (suc (suc zero)) t b ts bs p h lt lb = (λ e. omega arith, λ a. omega arith)
high_bits_iff (suc (suc (suc zero))) t b ts bs p h lt lb = (λ e. omega arith, λ a. omega arith)
high_bits_iff (suc (suc (suc (suc zero)))) t b ts bs p h lt lb =
    (λ e. omega arith, λ a. omega arith)
high_bits_iff (suc (suc (suc (suc (suc zero))))) t b ts bs p h lt lb =
    (λ e. omega arith, λ a. omega arith)
high_bits_iff (suc (suc (suc (suc (suc (suc zero)))))) t b ts bs p h lt lb =
    (λ e. omega arith, λ a. omega arith)
high_bits_iff (suc (suc (suc (suc (suc (suc (suc zero))))))) t b ts bs p h lt lb =
    (λ e. omega arith, λ a. omega arith)
high_bits_iff (suc (suc (suc (suc (suc (suc (suc (suc (r))))))))) t b ts bs p h lt lb =
    absurd (omega arith)
high_bits_iff zero t b ts bs p h lt lb = absurd (omega arith)

-- The masked bytes are equal exactly when their first `r` bits agree.
masked_iff :
    (r t b : ℕ) (ts bs : List ℕ)
    → 0 < r
    → r < 8
    → t < 256
    → b < 256
    → (bit_and t (255 * 2 ^ (8 - r)) ≡ bit_and b (255 * 2 ^ (8 - r)))
      ↔ Agree r (bits_of t ++ ts) (bits_of b ++ bs)
masked_iff r t b ts bs p h lt lb =
    rw (mask_lem r t (mask_table r p h) lt, mask_lem r b (mask_table r p h) lb)
      (high_bits_iff r t b ts bs p h lt lb)

byte_bits_iff :
    (k t b : ℕ) (ts bs : List ℕ)
    → t < 256
    → b < 256
    → Agree (suc (suc (suc (suc (suc (suc (suc (suc k)))))))) (bits_of t ++ ts) (bits_of b ++ bs)
      ↔ ((t ≡ b) × Agree k ts bs)
unfolding bits_of
byte_bits_iff k t b ts bs lt lb = (
  λ (h1, (h2, (h3, (h4, (h5, (h6, (h7, (h8, rest)))))))). (omega arith, rest),
  λ (e, rest). rw e (refl, (refl, (refl, (refl, (refl, (refl, (refl, (refl, rest)))))))),
)

eight : (k r : ℕ) → 8 * suc k + r ≡ suc (suc (suc (suc (suc (suc (suc (suc (8 * k + r))))))))
eight k r = omega arith

none_left : (r : ℕ) → 8 * zero + r ≡ r
none_left r = omega arith

-- The comparison of `inCidr` over whole bytes and a mask is agreement of the leading bits.
pub cidr_match_iff :
    (k r : ℕ) (target base : List ℕ)
    → r < 8
    → length target ≡ length base
    → 8 * k + r ≤ 8 * length base
    → All IsByte target
    → All IsByte base
    → (cidr_match k r target base ≡ true) ↔ Agree (8 * k + r) (bits target) (bits base)
unfolding cidr_match bits
cidr_match_iff (suc k) r (t ∷ ts) (b ∷ bs) h same fits (lt, ht) (lb, hb) =
    let (to, from) = cidr_match_iff k r ts bs h (omega arith) (omega arith) ht hb in
    let (split, join) = byte_bits_iff (8 * k + r) t b (bits ts) (bits bs) lt lb in
    rw (eight k r) (
      λ m. join ((nat_eq_iff t b).0 (ground arith), to (ground arith)),
      λ a. let (e, rest) = split a in ground (arith, from rest, (nat_eq_iff t b).1 e),
    )
cidr_match_iff zero r (t ∷ ts) (b ∷ bs) h same fits (lt, ht) (lb, hb) =
    rw (none_left r) (elim (Bool-cases (nat_eq r 0)) [
      | inl e ↦ rw ((nat_eq_iff r 0).0 e) (λ m. tt, λ a. refl)
      | inr e ↦
          let (to, from) = masked_iff r t b (bits ts) (bits bs) (ground (arith, e)) h lt lb in
          rw e (λ m. to ((nat_eq_iff _ _).0 m), λ a. (nat_eq_iff _ _).1 (from a))
    ])
cidr_match_iff zero r [] [] h same fits ht hb =
    let e : 0 ≡ 8 * zero + r = omega arith in (λ m. subst (λ n. Agree n [] []) e tt, λ a. refl)
cidr_match_iff (suc k) r [] [] h same fits ht hb = absurd (omega arith)
cidr_match_iff k r (t ∷ ts) [] h same fits ht hb = absurd (omega arith)
cidr_match_iff k r [] (b ∷ bs) h same fits ht hb = absurd (omega arith)
