-- ===== src/Cors/Laws.antt =====
-- Which origins are allowed: apps/web/src/server/http/cors.ts.
use semantius_idp.Prelude.{
  In, In-append_iff, List, Option, Text, [], ap, codes, filled, find, inl, inr, refl, some,
  some_inj, subst, sym, text_eq, ◌++◌, ◌↔◌, ◌∙◌, ◌∷◌, ◌≡◌, ◌≢◌, ◌⊎◌,
}
use semantius_idp.Clients.{ClientEntry}
use semantius_idp.Cors.{
  Parsed, Policy, public, clients, none_allowed, Inbound, add_each, origin_of, browser_origins_of,
  file_uris, client_origins, cors_for,
}
use semantius_idp.Cors.Allowed.{StandsFor, In-add_each, filled_iff, In-with_origin, allowed_iff}

module _ (parse : Text → Option Parsed) where
  In-browser_origins :
      (o : Text) (uris : List Text)
      → In o (browser_origins_of parse uris)
        ↔ ((u : Text) × In u uris × (origin_of parse u ≡ some o))
  unfolding browser_origins_of
  In-browser_origins o [] = (λ i. absurd i, λ (u, i, e). i)
  In-browser_origins o (v ∷ vs) =
      let (to, from) = In-browser_origins o vs in
      let (split, merge) = In-with_origin o (origin_of parse v) (browser_origins_of parse vs) in
      (
        λ i. elim (split i) [
          | inl e ↦ (v, inl refl, e)
          | inr j ↦ let (u, k, f) = to j in (u, inr k, f)
        ],
        λ (u, i, f). elim i [
          | inl q ↦ merge (inl (ap (origin_of parse) q ∙ f))
          | inr j ↦ merge (inr (from (u, j, f)))
        ],
      )

  -- The URI is one of the client's.
  abbrev pub HasUri : ClientEntry → Text → Type 0
  HasUri c u = In u c.redirect_uris ⊎ In u c.post_logout_redirect_uris

  In-file_uris :
      (u : Text) (cs : List ClientEntry)
      → In u (file_uris parse cs) ↔ ((c : ClientEntry) × In c cs × HasUri c u)
  In-file_uris u [] = (λ i. absurd i, λ (c, i, h). i)
  In-file_uris u (c ∷ cs) =
      let (split, merge) =
        In-append_iff u (c.redirect_uris ++ c.post_logout_redirect_uris) (file_uris parse cs) in
      let (halves, whole) = In-append_iff u c.redirect_uris c.post_logout_redirect_uris in
      let (to, from) = In-file_uris u cs in
      (
        λ i. elim (split i) [
          | inl j ↦ (c, inl refl, halves j)
          | inr j ↦ let (d, k, h) = to j in (d, inr k, h)
        ],
        λ (d, i, h). elim i [
          | inl e ↦ merge (inl (whole (subst (λ x. HasUri x u) (sym e) h)))
          | inr j ↦ merge (inr (from (d, j, h)))
        ],
      )

  -- The origin is that of a URI of a client of the file, or is cached from the database.
  abbrev pub IsRegistered : Option Text → List ClientEntry → List Text → Text → Type 0
  IsRegistered host entries database x =
      ((c : ClientEntry) × In c entries
        × (u : Text) × HasUri c u
        × (p : Text) × (origin_of parse u ≡ some p)
        × StandsFor host p x)
      ⊎ ((p : Text) × In p database × StandsFor host p x)

  client_origins_iff :
      (host : Option Text) (entries : List ClientEntry) (database : List Text) (x : Text)
      → In x (client_origins parse host entries database) ↔ IsRegistered host entries database x
  unfolding client_origins
  client_origins_iff host entries database x =
      let (outer, outer_back) =
        In-add_each host x database
          (add_each host [] (browser_origins_of parse (file_uris parse entries))) in
      let (inner, inner_back) =
        In-add_each host x (browser_origins_of parse (file_uris parse entries)) [] in
      (
        λ i. elim (outer i) [
          | inl j ↦ elim (inner j) [
            | inl k ↦ absurd k
            | inr (p, k, s) ↦
                let (u, m, e) = (In-browser_origins p (file_uris parse entries)).0 k in
                let (c, n, h) = (In-file_uris u entries).0 m in inl (c, n, u, h, p, e, s)
          ]
          | inr y ↦ inr y
        ],
        elim [
          | inl (c, n, u, h, p, e, s) ↦ outer_back (
              inl (
                inner_back (
                  inr (
                    p,
                    (In-browser_origins p (file_uris parse entries)).1
                        (u, (In-file_uris u entries).1 (c, n, h), e),
                    s,
                  ))))
          | inr y ↦ outer_back (inr y)
        ],
      )

  -- What a response allows: any origin on the public documents, on the client endpoints the request's own
  -- origin and only where it is registered, and none elsewhere; credentials are allowed on the client
  -- endpoints only.
  pub cors_exact :
      (host : Option Text) (entries : List ClientEntry) (database : List Text) (policy : Policy)
      (request : Inbound)
      → ((v : Text)
          → (find
                (codes "access-control-allow-origin")
                (cors_for parse host entries database policy request).headers
              ≡ some v)
            ↔ (((policy ≡ public) × (codes "*" ≡ v))
                ⊎ ((policy ≡ clients)
                    × (request.origin ≡ some v)
                    × (v ≢ [])
                    × IsRegistered host entries database v)))
        × ((c : Text)
            → find
                (codes "access-control-allow-credentials")
                (cors_for parse host entries database policy request).headers
              ≡ some c
            → policy ≡ clients)
  unfolding cors_for find text_eq
  cors_exact host entries database none_allowed request =
      (λ v. (λ h. cc h, elim [ inl (p, e) ↦ cc p | inr (p, q, n, r) ↦ cc p ]), λ c h. cc h)
  cors_exact host entries database public request = (
    λ v. (λ h. inl (refl, some_inj h), elim [ inl (p, e) ↦ ap some e | inr (p, q, n, r) ↦ cc p ]),
    λ c h. cc h,
  )
  cors_exact host entries database clients request = (
    λ v.
        let (to, from) =
          allowed_iff (client_origins parse host entries database) (filled request.origin) v in
        let (full, fill) = filled_iff request.origin v in
        let (listed, list) = client_origins_iff host entries database v in
        (
          λ h. let (e, i) = to h in inr (refl, (full e).0, (full e).1, listed i),
          elim [ inl (p, q) ↦ cc p | inr (p, f, n, r) ↦ from (fill (f, n), list r) ],
        ),
    λ c h. refl,
  )
