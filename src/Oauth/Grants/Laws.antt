-- ===== src/Oauth/Grants/Laws.antt =====
-- What a grant is made of: apps/web/src/server/oidc/grants.ts.
use semantius_idp.Prelude.{
  Bool, Bool-cases, Dict, In, In-append_iff, List, Option, Text, [], ap, false, find, find-put,
  has_text, inl, inr, keep, put, refl, some, subst, text_eq, text_eq-cases, text_eq_iff, true, ◌↔◌,
  ◌∙◌, ◌∷◌, ◌≡◌, ◌⊎◌,
}
use semantius_idp.Roles.Laws.{has_text_iff}
use semantius_idp.Oauth.{RefreshToken, Consent}
use semantius_idp.Oauth.Grants.{
  ActiveGrant, grant_of_consent, add_scope, add_scopes, next_grant, add_consents, add_tokens,
}

abbrev pub is_client : Text → RefreshToken → Bool
is_client client_id t = text_eq t.client_id client_id

abbrev pub consents_to : Text → Consent → Bool
consents_to client_id c = text_eq c.client_id client_id

-- What the tokens of one client add to its grant, the other clients left out
abbrev pub summed :
    (Text → Option Text) → List RefreshToken → Option ActiveGrant → Option ActiveGrant
summed name_of [] g = g
summed name_of (t ∷ ts) g = summed name_of ts (some (next_grant name_of t g))

-- The grant of the client's last consent
abbrev pub consented : (Text → Option Text) → List Consent → Option ActiveGrant → Option ActiveGrant
consented name_of [] g = g
consented name_of (c ∷ cs) g = consented name_of cs (some (grant_of_consent name_of c))

module _ (name_of : Text → Option Text) where
  pub find-add_consents :
      (k : Text) (rows : List Consent) (m : Dict ActiveGrant)
      → find k (add_consents name_of rows m)
        ≡ consented name_of (keep (consents_to k) rows) (find k m)
  unfolding add_consents
  find-add_consents k [] m = refl
  find-add_consents k (row ∷ rows) m = elim (Bool-cases (text_eq row.client_id k)) [
    | inl h ↦
        find-add_consents k rows (put row.client_id (grant_of_consent name_of row) m)
        ∙ rw (find-put row.client_id k (grant_of_consent name_of row) m, h) refl
    | inr h ↦
        find-add_consents k rows (put row.client_id (grant_of_consent name_of row) m)
        ∙ rw (find-put row.client_id k (grant_of_consent name_of row) m, h) refl
  ]

  pub find-add_tokens :
      (k : Text) (rows : List RefreshToken) (m : Dict ActiveGrant)
      → find k (add_tokens name_of rows m) ≡ summed name_of (keep (is_client k) rows) (find k m)
  unfolding add_tokens
  find-add_tokens k [] m = refl
  find-add_tokens k (row ∷ rows) m =
      let next = next_grant name_of row (find row.client_id m) in
      elim (text_eq-cases row.client_id k) [
        | inl e ↦
            find-add_tokens k rows (put row.client_id next m)
            ∙ rw (find-put row.client_id k next m, (text_eq_iff row.client_id k).1 e)
                (ap
                  (λ n.
                    summed name_of (keep (is_client k) rows)
                      (some (next_grant name_of row (find n m))))
                  e)
        | inr h ↦
            find-add_tokens k rows (put row.client_id next m)
            ∙ rw (find-put row.client_id k next m, h) refl
      ]

  -- The grant after the consents: that of a consent to the client, or as it was where there is none
  pub consented-cases :
      (k : Text) (rows : List Consent) (g : Option ActiveGrant)
      → ((consented name_of (keep (consents_to k) rows) g ≡ g)
          × ((c : Consent) → In c rows → consents_to k c ≡ false))
        ⊎ ((c : Consent) × In c rows
            × (consents_to k c ≡ true)
            × (consented name_of (keep (consents_to k) rows) g ≡ some (grant_of_consent name_of c)))
  consented-cases k [] g = inl (refl, λ c i. absurd i)
  consented-cases k (row ∷ rows) g = elim (Bool-cases (consents_to k row)) [
    | inl h ↦ elim (consented-cases k rows (some (grant_of_consent name_of row))) [
      | inl (e, n) ↦ inr (row, inl refl, h, rw h e)
      | inr (c, i, t, e) ↦ inr (c, inr i, t, rw h e)
    ]
    | inr h ↦ elim (consented-cases k rows g) [
      | inl (e, n) ↦
          inl
            (rw h e, λ c. elim [ inl q ↦ subst (λ x. consents_to k x ≡ false) q h | inr i ↦ n c i ])
      | inr (c, i, t, e) ↦ inr (c, inr i, t, rw h e)
    ]
  ]

-- A scope that is there already is not added again.
In-add_scope :
    (scopes : List Text) (t s : Text) → In s (add_scope scopes t) ↔ (In s scopes ⊎ (t ≡ s))
In-add_scope scopes t s = elim (Bool-cases (has_text scopes t)) [
  | inl h ↦ rw h (
    λ i. inl i,
    elim [ inl i ↦ i | inr e ↦ subst (λ x. In x scopes) e ((has_text_iff scopes t).0 h) ],
  )
  | inr h ↦
      let (to, from) = In-append_iff s scopes (t ∷ []) in
      rw h (
        λ i. elim (to i) [ inl j ↦ inl j | inr (inl e) ↦ inr e | inr (inr j) ↦ absurd j ],
        elim [ inl i ↦ from (inl i) | inr e ↦ from (inr (inl e)) ],
      )
]

pub In-add_scopes :
    (scopes ts : List Text) (s : Text) → In s (add_scopes scopes ts) ↔ (In s scopes ⊎ In s ts)
unfolding add_scopes
In-add_scopes scopes [] s = (λ i. inl i, elim [ inl i ↦ i | inr i ↦ absurd i ])
In-add_scopes scopes (t ∷ ts) s =
    let (to, from) = In-add_scopes (add_scope scopes t) ts s in
    let (one, back) = In-add_scope scopes t s in
    (
      λ i. elim (to i) [
        | inl j ↦ elim (one j) [ inl k ↦ inl k | inr e ↦ inr (inl e) ]
        | inr j ↦ inr (inr j)
      ],
      elim [
        | inl i ↦ from (inl (back (inl i)))
        | inr (inl e) ↦ from (inl (back (inr e)))
        | inr (inr i) ↦ from (inr i)
      ],
    )
