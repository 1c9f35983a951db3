-- ===== src/Cors/Allowed.antt =====
-- Which origins a list of allowed ones holds: apps/web/src/server/http/cors.ts.
use semantius_idp.Prelude.{
  Bool-cases, In, In-append_iff, List, Option, Option-cases, Text, [], ap, codes, false, filled,
  find, has_text, inl, inr, none, refl, some, some_inj, subst, sym, text_eq, true, ◌↔◌, ◌∙◌, ◌∷◌,
  ◌≡◌, ◌≢◌, ◌⊎◌,
}
use semantius_idp.Roles.Laws.{has_text_iff}
use semantius_idp.Clients.{has_host_template}
use semantius_idp.Cors.{
  expand_host_template, add_origin, add_expanded, add_each, with_origin, client_headers,
}

-- What an origin stands for on a host: itself, or its template with the host put in
abbrev pub StandsFor : Option Text → Text → Text → Type 0
StandsFor host p o =
    (p ≢ [])
    × (((has_host_template p ≡ false) × (p ≡ o))
        ⊎ ((h : Text) × (filled host ≡ some h)
            × (has_host_template p ≡ true)
            × (expand_host_template p h ≡ o)))

pub In-add_origin :
    (o x : Text) (origins : List Text) → In x (add_origin o origins) ↔ (In x origins ⊎ (o ≡ x))
unfolding add_origin
In-add_origin o x origins = elim (Bool-cases (has_text origins o)) [
  | inl h ↦ rw h (
    λ i. inl i,
    elim [ inl i ↦ i | inr e ↦ subst (λ y. In y origins) e ((has_text_iff origins o).0 h) ],
  )
  | inr h ↦
      let (to, from) = In-append_iff x origins (o ∷ []) in
      rw h (
        λ i. elim (to i) [ inl j ↦ inl j | inr (inl e) ↦ inr e | inr (inr j) ↦ absurd j ],
        elim [ inl i ↦ from (inl i) | inr e ↦ from (inr (inl e)) ],
      )
]

pub In-add_expanded :
    (host : Option Text) (p x : Text) (origins : List Text)
    → In x (add_expanded host origins p) ↔ (In x origins ⊎ StandsFor host p x)
unfolding add_expanded
In-add_expanded host [] x origins = (λ i. inl i, elim [ inl i ↦ i | inr (n, s) ↦ absurd (n refl) ])
In-add_expanded host (c ∷ p) x origins = elim (Bool-cases (has_host_template (c ∷ p))) [
  | inr plain ↦
      let (to, from) = In-add_origin (c ∷ p) x origins in
      rw plain (
        λ i. elim (to i) [ inl j ↦ inl j | inr e ↦ inr (λ q. cc q, inl (refl, e)) ],
        elim [
          | inl i ↦ from (inl i)
          | inr (n, inl (h, e)) ↦ from (inr e)
          | inr (n, inr (h, f, t, e)) ↦ absurd (cc t)
        ],
      )
  | inl templated ↦ elim (Option-cases (filled host)) [
    | inl none_there ↦
        rw (templated, none_there)
          (
            λ i. inl i,
            elim [
              | inl i ↦ i
              | inr (n, inl (h, e)) ↦ absurd (cc h)
              | inr (n, inr (h, f, t, e)) ↦ absurd (cc f)
            ],
          )
    | inr (h, there) ↦
        let (to, from) = In-add_origin (expand_host_template (c ∷ p) h) x origins in
        rw (templated, there)
          (
            λ i. elim (to i) [ inl j ↦ inl j | inr e ↦ inr (λ q. cc q, inr (h, refl, refl, e)) ],
            elim [
              | inl i ↦ from (inl i)
              | inr (n, inl (f, e)) ↦ absurd (cc f)
              | inr (n, inr (g, f, t, e)) ↦
                  from (inr (ap (expand_host_template (c ∷ p)) (some_inj f) ∙ e))
            ],
          )
  ]
]

pub In-add_each :
    (host : Option Text) (x : Text) (ps origins : List Text)
    → In x (add_each host origins ps) ↔ (In x origins ⊎ ((p : Text) × In p ps × StandsFor host p x))
In-add_each host x [] origins = (λ i. inl i, elim [ inl i ↦ i | inr (p, i, s) ↦ absurd i ])
In-add_each host x (p ∷ ps) origins =
    let (to, from) = In-add_each host x ps (add_expanded host origins p) in
    let (one, back) = In-add_expanded host p x origins in
    (
      λ i. elim (to i) [
        | inl j ↦ elim (one j) [ inl k ↦ inl k | inr s ↦ inr (p, inl refl, s) ]
        | inr (q, j, s) ↦ inr (q, inr j, s)
      ],
      elim [
        | inl i ↦ from (inl (back (inl i)))
        | inr (q, inl e, s) ↦ from (inl (back (inr (subst (λ y. StandsFor host y x) (sym e) s))))
        | inr (q, inr j, s) ↦ from (inr (q, j, s))
      ],
    )

pub filled_iff : (o : Option Text) (v : Text) → (filled o ≡ some v) ↔ ((o ≡ some v) × (v ≢ []))
filled_iff none v = (λ h. cc h, λ (h, n). cc h)
filled_iff (some []) v = (λ h. cc h, λ (h, n). absurd (n (sym (some_inj h))))
filled_iff (some (c ∷ s)) v = (λ h. (h, λ q. cc (q, h)), λ (h, n). h)

pub In-with_origin :
    (o : Text) (m : Option Text) (rest : List Text)
    → In o (with_origin m rest) ↔ ((m ≡ some o) ⊎ In o rest)
In-with_origin o none rest = (λ i. inr i, elim [ inl e ↦ cc e | inr i ↦ i ])
In-with_origin o (some p) rest = (
  elim [ inl e ↦ inl (ap some e) | inr i ↦ inr i ],
  elim [ inl e ↦ inl (some_inj e) | inr i ↦ inr i ],
)

pub allowed_iff :
    (origins : List Text) (m : Option Text) (v : Text)
    → (find (codes "access-control-allow-origin") (client_headers origins m) ≡ some v)
      ↔ ((m ≡ some v) × In v origins)
unfolding client_headers find text_eq
allowed_iff origins none v = (λ h. cc h, λ (h, i). cc h)
allowed_iff origins (some o) v = elim (Bool-cases (has_text origins o)) [
  | inl h ↦
      rw h (
        λ q. (q, subst (λ y. In y origins) (some_inj q) ((has_text_iff origins o).0 h)),
        λ (q, i). q,
      )
  | inr h ↦ rw h (
    λ q. cc q,
    λ (q, i).
        absurd
          (cc (h, (has_text_iff origins o).1 (subst (λ y. In y origins) (sym (some_inj q)) i))),
  )
]
