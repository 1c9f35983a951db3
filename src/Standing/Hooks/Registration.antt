-- ===== src/Standing/Hooks/Registration.antt =====
-- Who is registered and may sign in: `user.create.before` of
-- apps/web/src/server/auth/options/database-hooks.ts.
use semantius_idp.Prelude.{
  Bool, Bool-cases, In, In-of_any, Lacks, List, Option, Option-cases, Text, [], any_of_In, ap,
  codes, false, false_of_ne_true, has_text, if◌then◌else◌, inl, inr, nat_eq, nat_eq_iff, none, not,
  refl, some, some_inj, subst, sym, text_eq, text_eq_iff, true, ℕ, ◌&&◌, ◌++◌, ◌↔◌, ◌∙◌, ◌∷◌, ◌≡◌,
  ◌≢◌, arith,
}
use semantius_idp.Standing.{
  Date, account_banned, account_pending_approval, is_true, ban_has_expired, assert_user_may_sign_in,
}
use semantius_idp.Standing.Hooks.{
  is_administrative_create, domain_of, Applicant, SignUp, Registered, gate_user,
  is_email_domain_allowed, normalize_email, new_status, user_creating,
}

no_at-Lacks : (s : Text) → domain_of s ≡ none → Lacks b'@' s
unfolding domain_of
no_at-Lacks [] e = tt
no_at-Lacks (c ∷ s) e = elim (Option-cases (domain_of s)) [
  | inr (d, n) ↦ absurd (ground (arith, n, e))
  | inl n ↦ elim (Bool-cases (nat_eq c b'@')) [
    | inl h ↦ absurd (ground (arith, n, h, rw (n, domain_of, h) at e))
    | inr h ↦ (λ q. cc (h, (nat_eq_iff c b'@').1 q), no_at-Lacks s n)
  ]
]

Lacks-no_at : (s : Text) → Lacks b'@' s → domain_of s ≡ none
unfolding domain_of
Lacks-no_at [] h = refl
Lacks-no_at (c ∷ s) (n, h) = elim (Bool-cases (nat_eq c b'@')) [
  | inl e ↦ absurd (n ((nat_eq_iff c b'@').0 e))
  | inr e ↦ rw (Lacks-no_at s h, domain_of, e) refl
]

-- The domain is what stands after the last `@`.
domain_of-Lacks :
    (s d : Text) → domain_of s ≡ some d → (before : Text) × (s ≡ before ++ b'@' ∷ d) × Lacks b'@' d
unfolding domain_of
domain_of-Lacks [] d e = cc
domain_of-Lacks (c ∷ s) d e = elim (Option-cases (domain_of s)) [
  | inr (r, n) ↦
      let (before, q, l) = domain_of-Lacks s d (n ∙ rw (n, domain_of) at e) in
      (c ∷ before, ap (λ t. c ∷ t) q, l)
  | inl n ↦ elim (Bool-cases (nat_eq c b'@')) [
    | inl h ↦
        let same : s ≡ d = some_inj (rw (n, domain_of, h) at e) in
        ([], cc ((nat_eq_iff c b'@').0 h, same), subst (Lacks b'@') same (no_at-Lacks s n))
    | inr h ↦ cc (rw (n, domain_of, h) at e)
  ]
]

domain_of-append : (before d : Text) → Lacks b'@' d → domain_of (before ++ b'@' ∷ d) ≡ some d
unfolding domain_of
domain_of-append [] d l = rw (Lacks-no_at d l) refl
domain_of-append (c ∷ before) d l = rw (domain_of-append before d l) refl

has_two_iff : (a b p : Text) → (has_text (a ∷ b ∷ []) p ≡ false) ↔ ((p ≢ a) × (p ≢ b))
unfolding has_text
has_two_iff a b p = (
  λ h. (
    λ e. ground (arith, h, (text_eq_iff a p).1 (sym e)),
    λ e. ground (arith, h, (text_eq_iff b p).1 (sym e)),
  ),
  λ (n, m).
      let x = false_of_ne_true _ (λ h. n (sym ((text_eq_iff a p).0 h))) in
      let y = false_of_ne_true _ (λ h. m (sym ((text_eq_iff b p).0 h))) in ground (arith, x, y),
)

-- The request has a path, and it is neither of the two of the administration.
abbrev pub IsSelfService : Option Text → Type 0
IsSelfService path =
    (p : Text) × (path ≡ some p)
    × (p ≢ [])
    × (p ≢ codes "/admin/create-user")
    × (p ≢ codes "/admin/update-user")

IsSelfService-iff :
    (path : Option Text) → (is_administrative_create path ≡ false) ↔ IsSelfService path
unfolding is_administrative_create
IsSelfService-iff none = (λ h. cc h, λ (p, e, n, m, k). cc e)
IsSelfService-iff (some []) = (λ h. cc h, λ (p, e, n, m, k). absurd (n (sym (some_inj e))))
IsSelfService-iff (some (c ∷ s)) =
    let (to, from) =
      has_two_iff (codes "/admin/create-user") (codes "/admin/update-user") (c ∷ s) in
    (
      λ h. let (n, m) = to h in (c ∷ s, refl, λ e. cc e, n, m),
      λ (p, e, r, n, m). from (λ q. n (sym (some_inj e) ∙ q), λ q. m (sym (some_inj e) ∙ q)),
    )

refused_iff :
    (a b : Bool) (row : Registered)
    → ((if not a && not b then none else some row) ≡ none) ↔ ((a ≡ false) × (b ≡ false))
refused_iff true b row = (λ e. cc e, λ (h, k). cc h)
refused_iff false true row = (λ e. cc e, λ (h, k). cc k)
refused_iff false false row = (λ e. (refl, refl), λ h. refl)

made_row :
    (b : Bool) (row made : Registered) → (if b then none else some row) ≡ some made → row ≡ made
made_row true row made e = cc e
made_row false row made e = some_inj e

module _ (lower : Text → Text) where
  -- Domains are listed, and none of them is what stands after the last `@`, whatever the case of its
  -- letters; an address without `@` has no domain.
  abbrev pub IsForeign : Text → List Text → Type 0
  IsForeign email domains =
      (domains ≢ [])
      × ((listed before domain : Text)
          → In listed domains
          → email ≡ before ++ b'@' ∷ domain
          → Lacks b'@' domain
          → lower listed ≢ lower domain)

  IsForeign-iff :
      (email : Text) (domains : List Text)
      → (is_email_domain_allowed lower email domains ≡ false) ↔ IsForeign email domains
  unfolding is_email_domain_allowed
  IsForeign-iff email [] = (λ h. cc h, λ (n, h). absurd (n refl))
  IsForeign-iff email (d ∷ ds) = elim (Option-cases (domain_of email)) [
    | inl e ↦
        rw (e, is_email_domain_allowed)
          (
            λ h. (
              λ q. cc q,
              λ listed before domain i q l.
                  λ same. cc (e, ap domain_of q, domain_of-append before domain l),
            ),
            λ h. refl,
          )
    | inr (found, e) ↦
        let test : Text → Bool = λ allowed. text_eq (lower allowed) (lower found) in
        rw (e, is_email_domain_allowed)
          (
            λ h. (
              λ q. cc q,
              λ listed before domain i q l. λ same.
                  let own : found ≡ domain =
                    some_inj (sym e ∙ (ap domain_of q ∙ domain_of-append before domain l)) in
                  cc (
                    h,
                    any_of_In test listed (d ∷ ds) i
                        ((text_eq_iff (lower listed) (lower found)).1 (same ∙ ap lower (sym own))),
                  ),
            ),
            λ (n, none_fits).
                let (before, q, l) = domain_of-Lacks email found e in
                false_of_ne_true _ (λ h.
                  let (listed, i, t) = In-of_any test (d ∷ ds) h in
                  none_fits listed before found i q l
                    ((text_eq_iff (lower listed) (lower found)).0 t)),
          )
  ]

  module _ (config : SignUp) (now : ℕ) (path : Option Text) (user : Applicant) where
    -- The columns of a row that is made, as far as a gate reads them
    made_columns :
        (made : Registered)
        → user_creating lower config now path user ≡ some made
        → (made.status ≡ new_status lower (is_administrative_create path) config)
          × (made.carried ≡ user.carried)
    unfolding user_creating
    made_columns made e =
        let same = made_row _ _ made e in
        (ap (λ r. r.status) (sym same), ap (λ r. r.carried) (sym same))

    -- A registration is refused exactly where the request has a path that is not one of the
    -- administration's two, and domains are listed of which none is what stands after the last `@` of
    -- the trimmed, lower-cased address. An account that is made keeps the columns that it comes with,
    -- the ban among them: it is refused as banned while that ban is in force; else, one that an
    -- administrator makes may sign in, and one that registered itself is refused as pending where
    -- approvals are required, and may sign in otherwise.
    pub registration_gate :
        (parse_date : Text → Date) (clock : ℕ)
        → ((user_creating lower config now path user ≡ none) ↔ (
            IsSelfService path
            × IsForeign (normalize_email lower user.email) config.allowed_email_domains))
          × ((is_administrative_create path ≡ false) ↔ IsSelfService path)
          × ((made : Registered)
              → user_creating lower config now path user ≡ some made
              → (made.carried ≡ user.carried)
                × (assert_user_may_sign_in parse_date clock (gate_user made) ≡ (
                    if is_true user.carried.banned
                      && not (ban_has_expired parse_date clock user.carried.ban_expires)
                    then some account_banned
                    else if is_administrative_create path
                    then none
                    else if config.require_approval
                    then some account_pending_approval
                    else none)))
    unfolding user_creating assert_user_may_sign_in text_eq
    registration_gate parse_date clock =
        let own = IsSelfService-iff path in
        let listed =
          IsForeign-iff (normalize_email lower user.email) config.allowed_email_domains in
        let refused = refused_iff (is_administrative_create path) _ _ in
        (
          (
            λ e. let (a, b) = refused.0 e in (own.0 a, listed.0 b),
            λ (a, b). refused.1 (own.1 a, listed.1 b),
          ),
          own,
          λ made e.
              let (status, carried) = made_columns made e in
              (
                carried,
                rw (status, carried)
                    (elim (Bool-cases (is_administrative_create path)) [
                      | inl a ↦ rw (a) refl
                      | inr a ↦ elim (Bool-cases config.require_approval) [
                        | inl r ↦ rw (a, r) refl
                        | inr r ↦ rw (a, r) refl
                      ]
                    ]),
              ),
        )
