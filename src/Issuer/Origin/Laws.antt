-- ===== src/Issuer/Origin/Laws.antt =====
-- Which posts pass `assertSameOrigin` of apps/web/src/server/http/request-origin.ts.
use semantius_idp.Prelude.{
  Bool-cases, In, In-append_iff, List, Option, Text, [], ap, codes, false, has_text, inl, inr, none,
  refl, some, subst, some_inj, sym, text_eq, text_eq_iff, trim, true, ◌++◌, ◌↔◌, ◌∙◌, ◌∷◌, ◌≡◌, ◌⊎◌,
  arith,
}
use semantius_idp.Roles.Laws.{has_text_iff}
use semantius_idp.Issuer.{Platform, Inbound, leftmost}
use semantius_idp.Issuer.Laws.{IsHost, normalize_host-IsHost, or_option-some}
use semantius_idp.Issuer.Origin.{
  Post, is_foreign_site, add_host, origins_of, forwarded_name, direct_name, request_origins,
  assert_same_origin, is_own_origin,
}

-- The origin names the host, under either scheme.
abbrev pub Names : Text → Text → Type 0
Names origin host = (origin ≡ codes "https://" ++ host) ⊎ (origin ≡ codes "http://" ++ host)

origins_of_iff :
    (o : Text) (hs : List Text) → In o (origins_of hs) ↔ ((h : Text) × In h hs × Names o h)
unfolding origins_of
origins_of_iff o [] = (λ i. absurd i, λ (h, i, n). absurd i)
origins_of_iff o (g ∷ hs) =
    let (to, from) = origins_of_iff o hs in
    (
      elim [
        | inl e ↦ (g, inl refl, inl (sym e))
        | inr (inl e) ↦ (g, inl refl, inr (sym e))
        | inr (inr i) ↦ let (h, j, n) = to i in (h, inr j, n)
      ],
      λ (h, i, n). elim i [
        | inr j ↦ inr (inr (from (h, j, n)))
        | inl e ↦ elim n [
          | inl q ↦ inl (ap (λ x. codes "https://" ++ x) e ∙ sym q)
          | inr q ↦ inr (inl (ap (λ x. codes "http://" ++ x) e ∙ sym q))
        ]
      ],
    )

add_host_iff :
    (o : Option Text) (hs : List Text) (h : Text) → In h (add_host o hs) ↔ ((o ≡ some h) ⊎ In h hs)
add_host_iff none hs h = (λ i. inr i, elim [ inl e ↦ absurd (cc e) | inr i ↦ i ])
add_host_iff (some g) hs h =
    let (found, has) = has_text_iff hs g in
    let (to, from) = In-append_iff h hs (g ∷ []) in
    elim (Bool-cases (has_text hs g)) [
      | inl y ↦
          rw (y)
            (λ i. inr i, elim [ inl e ↦ subst (λ x. In x hs) (some_inj e) (found y) | inr i ↦ i ])
      | inr n ↦ rw (n) (
        λ i. elim (to i) [ inl j ↦ inr j | inr (inl e) ↦ inl (ap some e) | inr (inr a) ↦ absurd a ],
        elim [ inl e ↦ from (inr (inl (some_inj e))) | inr i ↦ from (inl i) ],
      )
    ]

-- What `Sec-Fetch-Site` may be: missing, or one of two values
abbrev pub IsOwnSite : Option Text → Type 0
IsOwnSite site =
    (site ≡ none) ⊎ ((site ≡ some (codes "same-origin")) ⊎ (site ≡ some (codes "none")))

IsOwnSite-iff : (site : Option Text) → (is_foreign_site site ≡ false) ↔ IsOwnSite site
unfolding is_foreign_site
IsOwnSite-iff none = (λ h. inl refl, λ s. refl)
IsOwnSite-iff (some site) =
    let (same_to, same_from) = text_eq_iff site (codes "same-origin") in
    let (none_to, none_from) = text_eq_iff site (codes "none") in
    (
      λ h. elim (Bool-cases (text_eq site (codes "same-origin"))) [
        | inl y ↦ inr (inl (ap some (same_to y)))
        | inr n ↦ inr (inr (ap some (none_to (ground (arith, h, n)))))
      ],
      elim [
        | inl e ↦ absurd (cc e)
        | inr (inl e) ↦ ground (arith, same_from (some_inj e))
        | inr (inr e) ↦ ground (arith, none_from (some_inj e))
      ],
    )

module _ (platform : Platform) where
  open platform use {url_host, lower}

  -- The request arrived on the host: it is the leftmost forwarded one, or the one of the request
  -- itself, and is a literal host.
  abbrev pub ArrivedOn : Inbound → Text → Type 0
  ArrivedOn request host =
      ((forwarded_name platform request ≡ some host) ⊎ (direct_name platform request ≡ some host))
      × IsHost platform host

  arrived_literal :
      (request : Inbound) (host : Text)
      → ((forwarded_name platform request ≡ some host) ⊎ (direct_name platform request ≡ some host))
      → IsHost platform host
  arrived_literal request host (inl e) =
      normalize_host-IsHost platform (leftmost platform request.forwarded_host) host e
  arrived_literal request host (inr e) = elim (or_option-some platform _ _ host e) [
    | inl f ↦ normalize_host-IsHost platform request.host host f
    | inr f ↦ normalize_host-IsHost platform (url_host request.url) host f
  ]

  request_origins_iff :
      (o : Text) (request : Inbound)
      → In o (request_origins platform (some request))
        ↔ ((h : Text) × ArrivedOn request h × Names o h)
  unfolding request_origins
  request_origins_iff o request =
      let (to, from) =
        origins_of_iff o (
          add_host (direct_name platform request)
            (add_host (forwarded_name platform request) [])) in
      let direct =
        add_host_iff (direct_name platform request)
          (add_host (forwarded_name platform request) []) in
      let forward = add_host_iff (forwarded_name platform request) [] in
      (
        λ i.
            let (h, j, n) = to i in
            let arrived : (forwarded_name platform request ≡ some h)
                ⊎ (direct_name platform request ≡ some h) =
              elim ((direct h).0 j) [
                | inl e ↦ inr e
                | inr k ↦ elim ((forward h).0 k) [ inl e ↦ inl e | inr a ↦ absurd a ]
              ] in
            (h, (arrived, arrived_literal request h arrived), n),
        λ (h, (a, l), n). from (
          h,
          elim a [
            | inl e ↦ (direct h).1 (inr ((forward h).1 (inl e)))
            | inr e ↦ (direct h).1 (inl e)
          ],
          n,
        ),
      )

  abbrev pub HasOwnOrigin : Inbound → Option Text → Type 0
  HasOwnOrigin request origin =
      (origin ≡ none)
      ⊎ ((o host : Text) × (origin ≡ some o) × ArrivedOn request host × Names (lower (trim o)) host)

  HasOwnOrigin-iff :
      (request : Inbound) (origin : Option Text)
      → (is_own_origin platform request origin ≡ true) ↔ HasOwnOrigin request origin
  unfolding is_own_origin
  HasOwnOrigin-iff request none = (λ h. inl refl, λ o. refl)
  HasOwnOrigin-iff request (some o) =
      let (found, has) = has_text_iff (request_origins platform (some request)) (lower (trim o)) in
      let (to, from) = request_origins_iff (lower (trim o)) request in
      (
        λ h. let (host, a, n) = to (found h) in inr (o, host, refl, a, n),
        elim [
          | inl e ↦ absurd (cc e)
          | inr (p, host, e, a, n) ↦
              has (from (host, a, subst (λ x. Names (lower (trim x)) host) (sym (some_inj e)) n))
        ],
      )

  -- A post passes exactly where `Sec-Fetch-Site` is missing, `same-origin` or `none`, and `Origin` is
  -- missing or, trimmed and in lower case, names under either scheme a host that the request arrived
  -- on: the leftmost of `X-Forwarded-Host` or its own, which the URL parser gives back unchanged and
  -- which has neither `*` nor `?`.
  pub assert_same_origin_iff :
      (post : Post)
      → (assert_same_origin platform post ≡ true)
        ↔ (IsOwnSite post.fetch_site × HasOwnOrigin post.arrival post.origin)
  unfolding assert_same_origin
  assert_same_origin_iff post =
      let (to, from) = HasOwnOrigin-iff post.arrival post.origin in
      let (site_to, site_from) = IsOwnSite-iff post.fetch_site in
      elim (Bool-cases (is_foreign_site post.fetch_site)) [
        | inl f ↦ rw (f) (λ h. cc h, λ (s, o). cc (f, site_from s))
        | inr f ↦ rw (f) (λ h. (site_to f, to h), λ (s, o). from o)
      ]
