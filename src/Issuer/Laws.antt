-- ===== src/Issuer/Laws.antt =====
-- What an issuer can be.
use semantius_idp.Prelude.{
  ℕ, suc, ◌<◌, Text, codes, text_eq, text_eq_iff, has_char, length, length-append, true, false,
  Option, none, some, or_option, List, [], ◌∷◌, ◌++◌, ◌≡◌, ◌≢◌, ◌↔◌, ◌⊎◌, inl, inr, refl, ap, ◌∙◌,
  trim, arith, Bool-cases, Option-cases, ◌||◌, some_inj, sym, false,
}
use semantius_idp.Net.ClientIp.{TrustProxy, never, always, ranges}
use semantius_idp.Issuer.{
  Platform, Base, Inbound, ends_with, name_fits, host_allowed, normalize_host, check_host,
  request_host, forwarded, leftmost, boot_issuer, host_issuer, resolve_request_issuer,
}

ends_nil : (t w : Text) → [] ≡ w ++ t → ends_with [] t ≡ true
unfolding ends_with
ends_nil t [] e = (text_eq_iff [] t).1 e
ends_nil t (x ∷ w) e = cc

ends_step :
    (c : ℕ) (s t w : Text)
    → c ∷ s ≡ w ++ t
    → (((v : Text) × (s ≡ v ++ t)) → ends_with s t ≡ true)
    → ends_with (c ∷ s) t ≡ true
unfolding ends_with
ends_step c s t [] e from = ground (arith, (text_eq_iff (c ∷ s) t).1 e)
ends_step c s t (x ∷ w) e from = ground (arith, from (w, cc))

pub ends_with_iff : (s t : Text) → (ends_with s t ≡ true) ↔ ((w : Text) × (s ≡ w ++ t))
unfolding ends_with
ends_with_iff [] t = (λ h. ([], (text_eq_iff [] t).0 h), λ (w, e). ends_nil t w e)
ends_with_iff (c ∷ s) t =
    let (to, from) = ends_with_iff s t in
    (
      λ h. elim (Bool-cases (text_eq (c ∷ s) t)) [
        | inl e ↦ ([], (text_eq_iff (c ∷ s) t).0 e)
        | inr e ↦ let (w, p) = to (ground arith) in (c ∷ w, cc p)
      ],
      λ (w, e). ends_step c s t w e from,
    )

length_pos : (s : Text) → s ≢ [] → 0 < length s
length_pos [] n = absurd (n refl)
length_pos (c ∷ s) n = omega arith

-- A pattern `*.domain` takes exactly the names that put something before `.domain`: neither the
-- domain itself nor a name that merely ends in its letters.
pub suffix_pattern_iff :
    (hostname domain : Text)
    → (name_fits hostname (b'*' ∷ b'.' ∷ domain) ≡ true)
      ↔ ((label : Text) × (label ≢ []) × (hostname ≡ label ++ b'.' ∷ domain))
unfolding name_fits
suffix_pattern_iff hostname domain =
    let (to, from) = ends_with_iff hostname (b'.' ∷ domain) in
    (
      λ h.
          let (label, e) = to (ground arith) in
          let longer : suc (length domain) < length hostname = ground arith in
          (label, λ n. omega (arith, longer, ap length (e ∙ ap (λ l. l ++ b'.' ∷ domain) n)), e),
      λ (label, n, e). ground (
        arith,
        from (label, e),
        length_pos label n,
        length-append label (b'.' ∷ domain),
        ap length e,
      ),
    )

module _ (platform : Platform) where
  open platform use {url_host, lower}

  -- A host that the URL parser gives back unchanged, without `*` and `?`.
  pub record IsHost (host : Text) : Type 0 where
    pub same : url_host (codes "https://" ++ host) ≡ some host
    pub no_star : has_char b'*' host ≡ false
    pub no_query : has_char b'?' host ≡ false

  check_host-IsHost : (s host : Text) → check_host platform s ≡ some host → IsHost host
  unfolding check_host
  check_host-IsHost [] host e = cc
  check_host-IsHost (c ∷ s) host e =
      elim (Bool-cases (has_char b'*' (c ∷ s) || has_char b'?' (c ∷ s))) [
        | inl p ↦ ground (arith, p, e)
        | inr p ↦ elim (Option-cases (url_host (codes "https://" ++ (c ∷ s)))) [
          | inl u ↦ ground (arith, p, u, e)
          | inr (h, u) ↦ elim (Bool-cases (text_eq h (c ∷ s))) [
            | inr q ↦ ground (arith, p, u, q, e)
            | inl q ↦
                let whole : h ≡ c ∷ s = (text_eq_iff h (c ∷ s)).0 q in
                let same : c ∷ s ≡ host = ground (arith, p, u, q, e) in
                rw (← same) (record {
                  same = u ∙ ap some whole;
                  no_star = ground arith;
                  no_query = ground arith;
                })
          ]
        ]
      ]

  pub normalize_host-IsHost :
      (v : Option Text) (host : Text) → normalize_host platform v ≡ some host → IsHost host
  unfolding normalize_host
  normalize_host-IsHost none host e = cc
  normalize_host-IsHost (some []) host e = cc
  normalize_host-IsHost (some (c ∷ s)) host e = check_host-IsHost (lower (trim (c ∷ s))) host e

  forwarded-IsHost :
      (trust : TrustProxy) (h : Option Text) (host : Text)
      → forwarded platform trust h ≡ some host
      → IsHost host
  forwarded-IsHost never h host e = cc
  forwarded-IsHost always h host e = normalize_host-IsHost (leftmost platform h) host e
  forwarded-IsHost (ranges rs) h host e = normalize_host-IsHost (leftmost platform h) host e

  pub or_option-some :
      (a b : Option Text) (x : Text) → or_option a b ≡ some x → (a ≡ some x) ⊎ (b ≡ some x)
  or_option-some none b x e = inr e
  or_option-some (some a) b x e = inl e

  request_host-IsHost :
      (trust : TrustProxy) (request : Inbound) (host : Text)
      → request_host platform trust request ≡ some host
      → IsHost host
  unfolding request_host
  request_host-IsHost trust request host e = elim (or_option-some _ _ host e) [
    | inl f ↦ forwarded-IsHost trust request.forwarded_host host f
    | inr f ↦ elim (or_option-some _ _ host f) [
      | inl g ↦ normalize_host-IsHost request.host host g
      | inr g ↦ normalize_host-IsHost (url_host request.url) host g
    ]
  ]

  -- Whatever the headers, the issuer is the configured scheme and mount path about an allowed host
  -- that survives the check, or the boot issuer, and that only with the flag off or where the
  -- request's host, the first candidate that survives the check, is missing or not allowed.
  pub issuer_cases :
      (base : Base) (trust : TrustProxy) (allowed : Option (List Text)) (request : Inbound)
      → (((host : Text)
            → base.dynamic_issuer ≡ true
            → request_host platform trust request ≡ some host
            → host_allowed platform host allowed ≡ false)
          × (resolve_request_issuer platform base trust allowed request
              ≡ boot_issuer platform base))
        ⊎ ((host : Text) × (base.dynamic_issuer ≡ true)
            × IsHost host
            × (host_allowed platform host allowed ≡ true)
            × (resolve_request_issuer platform base trust allowed request
                ≡ host_issuer platform base host))
  unfolding resolve_request_issuer
  issuer_cases base trust allowed request = elim (Bool-cases base.dynamic_issuer) [
    | inr off ↦ inl (λ host on h. cc (on, off), rw off refl)
    | inl on ↦ elim (Option-cases (request_host platform trust request)) [
      | inl n ↦ inl (λ host d h. cc (h, n), rw (on, n, resolve_request_issuer) refl)
      | inr (host, h) ↦ elim (Bool-cases (host_allowed platform host allowed)) [
        | inr n ↦ inl (
          λ other d e. ap (λ x. host_allowed platform x allowed) (some_inj (sym e ∙ h)) ∙ n,
          ground (arith, on, h, n),
        )
        | inl y ↦
            inr (host, on, request_host-IsHost trust request host h, y, ground (arith, on, h, y))
      ]
    ]
  ]
