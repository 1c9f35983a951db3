-- ===== src/Net/ClientIp/Chain.antt =====
-- Which hop of the forwarded chain is taken for the caller.
use semantius_idp.Prelude.{
  ℕ, Text, All, split_on, split_on-concat, true, false, Option, none, some, some_inj, List, [], ◌∷◌,
  ◌++◌, ◌≡◌, ◌≢◌, ◌⊎◌, inl, inr, refl, ap, ◌∙◌, arith, Option-cases,
}
use mathlib.Core.List.{append_assoc}
use semantius_idp.Net.ClientIp.{
  ranges, normalize_ip, is_trusted, last_untrusted, hops_of, first, to_list, pick_hop,
  forwarded_hops, client_ip_from,
}

hops_of-append : (xs ys : List Text) → hops_of (xs ++ ys) ≡ hops_of xs ++ hops_of ys
unfolding hops_of
hops_of-append [] ys = refl
hops_of-append (x ∷ xs) ys = elim (Option-cases (normalize_ip (some x))) [
  | inl e ↦ rw (e, hops_of) (hops_of-append xs ys)
  | inr (ip, e) ↦ rw (e, hops_of) (ap (λ r. ip ∷ r) (hops_of-append xs ys))
]

forwarded_hops-concat :
    (front : Text) (c : ℕ) (s : Text)
    → forwarded_hops (some (front ++ b',' ∷ c ∷ s))
      ≡ hops_of (split_on b',' front) ++ hops_of (split_on b',' (c ∷ s))
unfolding forwarded_hops
forwarded_hops-concat [] c s =
    ap hops_of (split_on-concat b',' [] (c ∷ s)) ∙ hops_of-append (split_on b',' []) _
forwarded_hops-concat (d ∷ front) c s =
    ap hops_of (split_on-concat b',' (d ∷ front) (c ∷ s))
    ∙ hops_of-append (split_on b',' (d ∷ front)) _

module _ (number : Text → Option ℕ) (trusted : List Text) where
  -- `hop` stands in the chain, is not trusted, and all to the right of it are.
  pub record IsRightmost (chain : List Text) (hop : Text) : Type 0 where
    pub before : List Text
    pub after : List Text
    pub here : chain ≡ before ++ hop ∷ after
    pub outside : is_trusted number hop trusted ≡ false
    pub inside : All (λ h. is_trusted number h trusted ≡ true) after

  abbrev AllTrusted : List Text → Type 0
  AllTrusted = All (λ h. is_trusted number h trusted ≡ true)

  last_untrusted-none :
      (chain : List Text) → last_untrusted number trusted chain ≡ none → AllTrusted chain
  unfolding last_untrusted
  last_untrusted-none [] e = tt
  last_untrusted-none (h ∷ chain) e = (ground arith, last_untrusted-none chain (ground arith))

  last_untrusted-some :
      (chain : List Text) (hop : Text)
      → last_untrusted number trusted chain ≡ some hop
      → IsRightmost chain hop
  unfolding last_untrusted
  last_untrusted-some [] hop e = cc
  last_untrusted-some (h ∷ chain) hop e =
      elim (Option-cases (last_untrusted number trusted chain)) [
        | inl n ↦ record {
          before = [];
          after = chain;
          here = ground arith;
          outside = ground arith;
          inside = last_untrusted-none chain n;
        }
        | inr (found, m) ↦
            let r = last_untrusted-some chain found m in
            let same : found ≡ hop = ground arith in
            record {
              before = h ∷ r.before;
              after = r.after;
              here = cc (r.here);
              outside = rw same at r.outside;
              inside = r.inside;
            }
      ]

  -- Hops put in front do not move the rightmost untrusted one.
  last_untrusted-append :
      (front chain : List Text) (hop : Text)
      → last_untrusted number trusted chain ≡ some hop
      → last_untrusted number trusted (front ++ chain) ≡ some hop
  unfolding last_untrusted
  last_untrusted-append [] chain hop e = e
  last_untrusted-append (f ∷ front) chain hop e = rw (last_untrusted-append front chain hop e) refl

  picked :
      (direct : Option Text) (hops : List Text) (hop : Text)
      → pick_hop number (ranges trusted) direct hops ≡ some hop
      → hops ≢ []
      → IsRightmost (hops ++ to_list direct) hop
        ⊎ (AllTrusted (hops ++ to_list direct) × (first (hops ++ to_list direct) ≡ some hop))
  unfolding pick_hop
  picked direct [] hop e n = absurd (n refl)
  picked direct (h ∷ hs) hop e n =
      elim (Option-cases (last_untrusted number trusted ((h ∷ hs) ++ to_list direct))) [
        | inl m ↦ inr (last_untrusted-none ((h ∷ hs) ++ to_list direct) m, ground (arith, m))
        | inr (found, m) ↦
            inl (last_untrusted-some ((h ∷ hs) ++ to_list direct) hop (ground (arith, m)))
      ]

  last_of_pick :
      (direct : Option Text) (hops : List Text) (hop : Text)
      → pick_hop number (ranges trusted) direct hops ≡ some hop
      → is_trusted number hop trusted ≡ false
      → last_untrusted number trusted (hops ++ to_list direct) ≡ some hop
  unfolding pick_hop
  last_of_pick none [] hop e n = cc
  last_of_pick (some d) [] hop e n = unfold last_untrusted in ground (arith, some_inj e)
  last_of_pick direct (h ∷ hs) hop e n =
      elim (Option-cases (last_untrusted number trusted ((h ∷ hs) ++ to_list direct))) [
        | inl m ↦
            let a = last_untrusted-none ((h ∷ hs) ++ to_list direct) m in
            ground (arith, a.0, n, e, m)
        | inr (found, m) ↦ ground (arith, m)
      ]

  pick-append :
      (direct : Option Text) (front hops : List Text) (hop : Text)
      → pick_hop number (ranges trusted) direct hops ≡ some hop
      → is_trusted number hop trusted ≡ false
      → pick_hop number (ranges trusted) direct (front ++ hops) ≡ some hop
  unfolding pick_hop
  pick-append direct [] hops hop e n = e
  pick-append direct (f ∷ front) hops hop e n =
      let last =
        last_untrusted-append (f ∷ front) (hops ++ to_list direct) hop
          (last_of_pick direct hops hop e n) in
      let chain = append_assoc (f ∷ front) hops (to_list direct) in
      rw (ap (last_untrusted number trusted) chain ∙ last, pick_hop) refl

  -- With a list of trusted ranges and a header that names a hop, the caller is the rightmost hop
  -- outside the ranges, the socket's own address counted last; if there is none, every hop is
  -- trusted and the caller is the leftmost.
  pub client_ip_from-ranges :
      (socket : Option Text) (c : ℕ) (s hop : Text)
      → client_ip_from number (ranges trusted) socket (some (c ∷ s)) ≡ some hop
      → hops_of (split_on b',' (c ∷ s)) ≢ []
      → let chain = hops_of (split_on b',' (c ∷ s)) ++ to_list (normalize_ip socket) in
        IsRightmost chain hop ⊎ (AllTrusted chain × (first chain ≡ some hop))
  unfolding client_ip_from
  client_ip_from-ranges socket c s hop e n = picked (normalize_ip socket) _ hop e n

  -- What a caller writes in front of the header changes nothing, once the header or the socket
  -- shows an untrusted address.
  pub client_ip_from-unspoofable :
      (socket : Option Text) (front : Text) (c : ℕ) (s hop : Text)
      → client_ip_from number (ranges trusted) socket (some (c ∷ s)) ≡ some hop
      → is_trusted number hop trusted ≡ false
      → client_ip_from number (ranges trusted) socket (some (front ++ b',' ∷ c ∷ s)) ≡ some hop
  unfolding client_ip_from
  client_ip_from-unspoofable socket front c s hop e n =
      rw (forwarded_hops-concat front c s)
        (pick-append (normalize_ip socket) (hops_of (split_on b',' front)) _ hop e n)
