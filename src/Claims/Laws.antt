-- ===== src/Claims/Laws.antt =====
-- Which value each claim of a token has.
use semantius_idp.Prelude.{
  ℕ, Text, text_eq, text_eq_iff, text_eq_refl, In, Option, none, some, or_option, List, [], ◌∷◌,
  ◌≡◌, ◌≢◌, ◌⊎◌, ◌↔◌, inl, inr, refl, subst, ◌∙◌, ap, arith, Option-cases, if◌then◌else◌,
  false_of_ne_true,
}
use semantius_idp.Js.{as_text, truthy}
use semantius_idp.Roles.{split_roles, effective_roles}
use semantius_idp.Roles.Laws.{effective_roles_iff}
use semantius_idp.Claims.{
  UserClaimName, email, name, given_name, family_name, roles, claim_key, ClaimsUser, ClaimValue,
  role_list, Claims, set_claim, get_claim, ClaimsConfig, value_for, add_claim, add_claims,
  build_user_claims,
}

get_claim-set_claim :
    (key other : Text) (v : ClaimValue) (claims : Claims)
    → get_claim other (set_claim key v claims)
      ≡ (if text_eq key other then some v else get_claim other claims)
unfolding get_claim set_claim
get_claim-set_claim key other v [] = refl
get_claim-set_claim key other v ((k, w) ∷ claims) = ground (
  arith,
  text_eq_iff k key,
  text_eq_iff k other,
  text_eq_iff key other,
  get_claim-set_claim key other v claims,
)

-- The keys differ in their first letters.
abbrev head_unit : Text → ℕ
head_unit [] = 0
head_unit (c ∷ s) = c

claim_key-injective : (a b : UserClaimName) → claim_key a ≡ claim_key b → a ≡ b
unfolding claim_key
claim_key-injective email email e = refl
claim_key-injective name name e = refl
claim_key-injective given_name given_name e = refl
claim_key-injective family_name family_name e = refl
claim_key-injective roles roles e = refl
claim_key-injective _ _ e = absurd (omega (arith, ap head_unit e))

UserClaimName-discrete : Discrete UserClaimName
UserClaimName-discrete = hlevel

asked-cases : (c : UserClaimName) (cs : List UserClaimName) → In c cs ⊎ (¬ In c cs)
asked-cases c [] = inr (λ m. m)
asked-cases c (d ∷ cs) = elim (UserClaimName-discrete d c) [
  | yes e ↦ inl (inl e)
  | no n ↦ elim (asked-cases c cs) [
    | inl m ↦ inl (inr m)
    | inr k ↦ inr (elim [ inl e ↦ n e | inr m ↦ k m ])
  ]
]

module _ (user : ClaimsUser) (config : ClaimsConfig) where
  -- A key that is none of the user claims keeps its value.
  add_claims-other :
      (cs : List UserClaimName) (key : Text) (claims : Claims)
      → ((c : UserClaimName) → In c cs → claim_key c ≢ key)
      → get_claim key (add_claims cs user config claims) ≡ get_claim key claims
  unfolding add_claims
  add_claims-other [] key claims n = refl
  add_claims-other (c ∷ cs) key claims n =
      add_claims-other cs key (add_claim (claim_key c) (value_for c user config) claims)
        (λ d m. n d (inr m))
      ∙ elim (Option-cases (value_for c user config)) [
        | inl e ↦ rw e refl
        | inr (v, e) ↦
            rw
              (
                e,
                get_claim-set_claim (claim_key c) key v claims,
                false_of_ne_true _ (λ t. n c (inl refl) ((text_eq_iff (claim_key c) key).0 t)),
              )
              refl
      ]

  step_same :
      (c : UserClaimName) (claims : Claims)
      → get_claim (claim_key c) (add_claim (claim_key c) (value_for c user config) claims)
        ≡ or_option (value_for c user config) (get_claim (claim_key c) claims)
  step_same c claims = elim (Option-cases (value_for c user config)) [
    | inl e ↦ rw e refl
    | inr (v, e) ↦
        rw (e, get_claim-set_claim (claim_key c) (claim_key c) v claims, text_eq_refl (claim_key c))
          refl
  ]

  step_other :
      (d c : UserClaimName) (claims : Claims)
      → ¬ (d ≡ c)
      → get_claim (claim_key c) (add_claim (claim_key d) (value_for d user config) claims)
        ≡ get_claim (claim_key c) claims
  step_other d c claims n = elim (Option-cases (value_for d user config)) [
    | inl e ↦ rw e refl
    | inr (v, e) ↦
        rw
          (
            e,
            get_claim-set_claim (claim_key d) (claim_key c) v claims,
            false_of_ne_true _
                (λ t. n (claim_key-injective d c ((text_eq_iff (claim_key d) (claim_key c)).0 t))),
          )
          refl
  ]

  or_twice : (v x : Option ClaimValue) → or_option v (or_option v x) ≡ or_option v x
  or_twice none x = refl
  or_twice (some a) x = refl

  -- Asking for `d` first changes nothing for a claim that is asked for later.
  absorbed :
      (d c : UserClaimName) (claims : Claims)
      → or_option
          (value_for c user config)
          (get_claim (claim_key c) (add_claim (claim_key d) (value_for d user config) claims))
        ≡ or_option (value_for c user config) (get_claim (claim_key c) claims)
  absorbed d c claims = elim (UserClaimName-discrete d c) [
    | yes e ↦ rw e (
        ap (or_option (value_for c user config)) (step_same c claims)
        ∙ or_twice (value_for c user config) _)
    | no n ↦ ap (or_option (value_for c user config)) (step_other d c claims n)
  ]

  -- The value of a key after the loop, if the key is a claim that was asked for.
  add_claims-asked :
      (cs : List UserClaimName) (c : UserClaimName) (claims : Claims)
      → In c cs
      → get_claim (claim_key c) (add_claims cs user config claims)
        ≡ or_option (value_for c user config) (get_claim (claim_key c) claims)
  unfolding add_claims
  add_claims-asked [] c claims m = absurd m
  add_claims-asked (d ∷ cs) c claims m = elim (asked-cases c cs) [
    | inl later ↦
        add_claims-asked cs c (add_claim (claim_key d) (value_for d user config) claims) later
        ∙ absorbed d c claims
    | inr last ↦ elim m [
      | inr later ↦ absurd (last later)
      | inl e ↦
          add_claims-other cs (claim_key c)
            (add_claim (claim_key d) (value_for d user config) claims)
            (λ b i p. last (subst (λ k. In k cs) (claim_key-injective b c p) i))
          ∙ rw e (step_same c claims)
    ]
  ]

  -- A claim that was asked for has the user's value where the user has one, and otherwise what the
  -- configuration gives.
  pub asked_claim :
      (c : UserClaimName)
      → In c config.user_claims
      → get_claim (claim_key c) (build_user_claims (some user) config)
        ≡ or_option (value_for c user config) (get_claim (claim_key c) config.claims)
  unfolding build_user_claims
  asked_claim c m = add_claims-asked config.user_claims c config.claims m

  -- A key that is none of the claims asked for keeps the configured value.
  pub other_claim :
      (key : Text)
      → ((c : UserClaimName) → In c config.user_claims → claim_key c ≢ key)
      → get_claim key (build_user_claims (some user) config) ≡ get_claim key config.claims
  unfolding build_user_claims
  other_claim key n = add_claims-other config.user_claims key config.claims n

  -- A role stands in the `roles` claim only if the catalog defines it and the user's column holds
  -- it, and the claim is given, if empty, whenever it is asked for.
  pub roles_claim :
      In roles config.user_claims
      → (rs : List Text) × (get_claim (claim_key roles) (build_user_claims (some user) config)
          ≡ some (role_list rs))
        × ((r : Text)
            → In r rs ↔ (In r config.catalog × In r (split_roles (truthy (as_text user.role)))))
  roles_claim m = (
    effective_roles (truthy (as_text user.role)) config.catalog,
    asked_claim roles m ∙ unfold value_for in refl,
    λ r. effective_roles_iff (truthy (as_text user.role)) config.catalog r,
  )
