-- ===== src/Gateway/Laws.antt =====
-- Which targets a gateway may have.
use semantius_idp.Prelude.{
  any, is_space, sym, ap, ◌∙◌, ◌≢◌, or_else, trim, Text, codes, text_eq, text_eq_iff, has_char,
  is_empty, true, false, ◌||◌, Option, none, some, [], ◌∷◌, ◌≡◌, ◌↔◌, ◌⊎◌, inl, inr, refl, arith,
  Option-cases, Bool-cases, some_inj,
}
use semantius_idp.Gateway.Address.{is_link_local_address}
use semantius_idp.Gateway.{
  Url, ends_with_slash, check_parsed, check_gateway_url, check_gateway_audience, GatewayFormValues,
  url_error, audience_error, validate_gateway_form, is_valid_gateway_name,
}

pub empty_iff : (s : Text) → (is_empty s ≡ true) ↔ (s ≡ [])
empty_iff [] = (λ h. refl, λ h. refl)
empty_iff (c ∷ s) = (λ h. cc, λ h. cc)

module _ (parse_url : Text → Option Url) (lower : Text → Text) where
  -- What an accepted target is: an http or https URL without credentials, query, fragment or
  -- trailing slash, whose host is not a link-local address.
  pub record IsTarget (value : Text) (url : Url) : Type 0 where
    pub web : (url.protocol ≡ codes "http:") ⊎ (url.protocol ≡ codes "https:")
    pub no_user : url.username ≡ []
    pub no_password : url.password ≡ []
    pub routable : is_link_local_address lower url.hostname ≡ false
    pub no_search : url.search ≡ []
    pub no_question : has_char b'?' value ≡ false
    pub no_hash : url.hash ≡ []
    pub no_number_sign : has_char b'#' value ≡ false
    pub no_slash : ends_with_slash value ≡ false

  check_parsed_iff :
      (value : Text) (url : Url)
      → (check_parsed parse_url lower value url ≡ none) ↔ IsTarget value url
  unfolding check_parsed
  check_parsed_iff value url =
      let http = text_eq_iff url.protocol (codes "http:") in
      let https = text_eq_iff url.protocol (codes "https:") in
      (
        λ h. record {
          web = elim (Bool-cases (text_eq url.protocol (codes "http:"))) [
            | inl e ↦ inl (http.0 e)
            | inr e ↦ inr (https.0 (ground (arith, e, h)))
          ];
          no_user = (empty_iff url.username).0 (ground (arith, h));
          no_password = (empty_iff url.password).0 (ground (arith, h));
          routable = ground (arith, h);
          no_search = (empty_iff url.search).0 (ground (arith, h));
          no_question = ground (arith, h);
          no_hash = (empty_iff url.hash).0 (ground (arith, h));
          no_number_sign = ground (arith, h);
          no_slash = ground (arith, h);
        },
        λ t.
            let scheme_ok : (text_eq url.protocol (codes "http:")
                  || text_eq url.protocol (codes "https:"))
                ≡ true =
              elim t.web [ inl e ↦ ground (arith, http.1 e) | inr e ↦ ground (arith, https.1 e) ] in
            let user_ok = (empty_iff url.username).1 t.no_user in
            let password_ok = (empty_iff url.password).1 t.no_password in
            let search_ok = (empty_iff url.search).1 t.no_search in
            let hash_ok = (empty_iff url.hash).1 t.no_hash in
            ground (
              arith, scheme_ok, user_ok, password_ok, t.routable, search_ok, t.no_question, hash_ok,
              t.no_number_sign, t.no_slash,
            ),
      )

  -- A target is accepted exactly when it parses to an http or https URL without credentials,
  -- query, fragment or trailing slash, whose host is not a link-local address.
  pub check_gateway_url_iff :
      (value : Text)
      → (check_gateway_url parse_url lower value ≡ none)
        ↔ ((url : Url) × (parse_url value ≡ some url) × IsTarget value url)
  unfolding check_gateway_url
  check_gateway_url_iff value = elim (Option-cases (parse_url value)) [
    | inl n ↦ rw n (λ h. cc, λ (url, e, t). cc)
    | inr (url, n) ↦
        let (to, from) = check_parsed_iff value url in
        rw (n, check_gateway_url) (λ h. (url, refl, to h), λ (u, e, t). from (rw (some_inj e) t))
  ]

  -- What an accepted audience is: a text without white space that parses as a URL, without fragment.
  pub record IsAudience (value : Text) (url : Url) : Type 0 where
    pub parsed : parse_url value ≡ some url
    pub solid : any is_space value ≡ false
    pub no_hash : url.hash ≡ []
    pub no_number_sign : has_char b'#' value ≡ false

  check_gateway_audience_iff :
      (value : Text)
      → (check_gateway_audience parse_url lower value ≡ none) ↔ ((url : Url) × IsAudience value url)
  unfolding check_gateway_audience
  check_gateway_audience_iff value = elim (Option-cases (parse_url value)) [
    | inl n ↦ rw (n) (λ h. absurd (ground (arith, h)), λ (url, a). cc (n, a.parsed))
    | inr (url, n) ↦ rw (n) (
      λ h. (
        url,
        record {
          parsed = n;
          solid = ground (arith, h);
          no_hash = (empty_iff url.hash).0 (ground (arith, h));
          no_number_sign = ground (arith, h);
        },
      ),
      λ (other, a).
          let same : url.hash ≡ [] = ap (λ u. u.hash) (some_inj (sym n ∙ a.parsed)) ∙ a.no_hash in
          ground (arith, a.solid, (empty_iff url.hash).1 same, a.no_number_sign),
    )
  ]

  url_error_iff :
      (value : Text)
      → (url_error parse_url lower value ≡ none)
        ↔ ((value ≢ []) × ((url : Url) × (parse_url value ≡ some url) × IsTarget value url))
  unfolding url_error
  url_error_iff [] = (λ h. cc h, λ (n, t). absurd (n refl))
  url_error_iff (c ∷ s) =
      let (to, from) = check_gateway_url_iff (c ∷ s) in
      elim (Option-cases (check_gateway_url parse_url lower (c ∷ s))) [
        | inl n ↦ rw (n, url_error) (λ h. (λ e. cc e, to n), λ t. refl)
        | inr (p, n) ↦ rw (n, url_error) (λ h. cc h, λ (f, t). cc (n, from t))
      ]

  audience_error_iff :
      (value : Text)
      → (audience_error parse_url lower value ≡ none)
        ↔ ((value ≡ []) ⊎ ((url : Url) × IsAudience value url))
  unfolding audience_error
  audience_error_iff [] = (λ h. inl refl, λ t. refl)
  audience_error_iff (c ∷ s) =
      let (to, from) = check_gateway_audience_iff (c ∷ s) in
      elim (Option-cases (check_gateway_audience parse_url lower (c ∷ s))) [
        | inl n ↦ rw (n, audience_error) (λ h. inr (to n), λ t. refl)
        | inr (p, n) ↦
            rw (n, audience_error)
              (λ h. cc h, elim [ inl e ↦ absurd (cc e) | inr t ↦ cc (n, from t) ])
      ]

  -- The form has no message exactly when the name is valid, the trimmed URL is not empty and parses
  -- to an http or https URL without credentials, query, fragment or trailing slash, whose host is not a link-local
  -- address, and the trimmed audience is empty, or has no white space and parses to a URL without a
  -- fragment.
  pub validate_gateway_form_iff :
      (values : GatewayFormValues)
      → (((validate_gateway_form parse_url lower values).name ≡ none)
          × ((validate_gateway_form parse_url lower values).url ≡ none)
          × ((validate_gateway_form parse_url lower values).audience ≡ none))
        ↔ ((is_valid_gateway_name values.name ≡ true)
            × (trim values.url ≢ [])
            × ((url : Url) × (parse_url (trim values.url) ≡ some url)
                × IsTarget (trim values.url) url)
            × ((trim (or_else values.audience []) ≡ [])
                ⊎ ((url : Url) × IsAudience (trim (or_else values.audience [])) url)))
  unfolding validate_gateway_form
  validate_gateway_form_iff values =
      let (url_to, url_from) = url_error_iff (trim values.url) in
      let (audience_to, audience_from) = audience_error_iff (trim (or_else values.audience [])) in
      elim (Bool-cases (is_valid_gateway_name values.name)) [
        | inr n ↦ rw (n) (λ (h, u, a). cc h, λ (h, f, u, a). cc h)
        | inl y ↦ rw (y) (
          λ (h, u, a). (refl, (url_to u).0, (url_to u).1, audience_to a),
          λ (h, f, t, a). (refl, url_from (f, t), audience_from a),
        )
      ]
