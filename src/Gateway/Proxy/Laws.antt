-- ===== src/Gateway/Proxy/Laws.antt =====
-- When the gateway proxy calls an upstream, where, and with which headers:
-- apps/web/src/server/gateways/proxy.ts.
use semantius_idp.Prelude.{
  filled, ℕ, Text, codes, any, true, false, Option, none, some, List, find, ◌≡◌, ◌≢◌, ◌⊎◌, inl, inr,
  refl, ap, ◌∙◌, arith, Bool-cases, Option-cases,
}
use semantius_idp.Net.ClientIp.{TrustProxy}
use semantius_idp.Gateway.{Url}
use semantius_idp.Gateway.Address.{is_link_local_address}
use semantius_idp.Gateway.Headers.{Headers, wants_upgrade, relayed_headers}
use semantius_idp.Gateway.Headers.Laws.{with_credential}
use semantius_idp.Gateway.Tokens.{key, session, Translation, bearer, rejected}
use semantius_idp.Gateway.Proxy.{
  GatewayRow, Surroundings, Inbound, refuse, send, Authorization, anonymous, authorization, refusal,
  is_address_literal, from_translation, without_credential, scope_of, by_session, by_key,
  translate_auth, resolve_target, has_address_problem, is_too_large, outbound_headers,
  send_translated, send_to, through_row, proxy_gateway_request, session_credential,
}

-- The credential of a request that is not refused
abbrev pub allowed : Option Text → Authorization
allowed none = anonymous
allowed (some value) = authorization value

module _ (s : Surroundings) where
  open s use {parse_url, lower, exceeds, resolve, exchange}

  -- The host is no link-local address, and no name that resolves to one.
  abbrev pub IsReachable : Text → Type 0
  IsReachable href =
      (url : Url) × (parse_url href ≡ some url)
      × (is_link_local_address lower url.hostname ≡ false)
      × ((is_address_literal url.hostname ≡ true)
          ⊎ ((found : List Text) × (resolve url.hostname ≡ some found)
              × (any (is_link_local_address lower) found ≡ false)))

  address-IsReachable : (row : GatewayRow) → has_address_problem s row ≡ false → IsReachable row.url
  unfolding has_address_problem
  address-IsReachable row h = elim (Option-cases (parse_url row.url)) [
    | inl e ↦ absurd (ground (arith, rw (e, has_address_problem) at h))
    | inr (url, e) ↦ elim (Bool-cases (is_link_local_address lower url.hostname)) [
      | inl l ↦ absurd (ground (arith, rw (e, has_address_problem, l) at h))
      | inr l ↦ elim (Bool-cases (is_address_literal url.hostname)) [
        | inl a ↦ (url, e, l, inl a)
        | inr a ↦ elim (Option-cases (resolve url.hostname)) [
          | inl r ↦ absurd (ground (arith, rw (e, has_address_problem, l, a, r) at h))
          | inr (found, r) ↦ (url, e, l, inr (found, r, rw (e, has_address_problem, l, a, r) at h))
        ]
      ]
    ]
  ]

  translated :
      (row : GatewayRow) (t : Translation) (a : Authorization)
      → from_translation t ≡ a
      → a ≢ anonymous
  translated row (bearer token) a e n = cc
  translated row (rejected status code) a e n = cc

  without_credential-required :
      (row : GatewayRow) → row.require_auth ≡ true → without_credential row ≢ anonymous
  without_credential-required row h e = ground (arith, h, e)

  by_session-required :
      (row : GatewayRow) (token : Option Text)
      → row.require_auth ≡ true
      → by_session s row token ≢ anonymous
  unfolding by_session
  by_session-required row none h = without_credential-required row h
  by_session-required row (some token) h =
      elim (Option-cases (exchange (session token) (scope_of row))) [
        | inl e ↦ rw (e, by_session) (without_credential-required row h)
        | inr (t, e) ↦ rw (e, by_session) (translated row t (from_translation t) refl)
      ]

  by_key-required :
      (row : GatewayRow) (headers : Headers) (k : Option Text)
      → row.require_auth ≡ true
      → by_key s row headers k ≢ anonymous
  unfolding by_key
  by_key-required row headers none h = by_session-required row (session_credential headers) h
  by_key-required row headers (some k) h = elim (Option-cases (exchange (key k) (scope_of row))) [
    | inl e ↦ rw (e, by_key) (λ n. cc)
    | inr (t, e) ↦ rw (e, by_key) (translated row t (from_translation t) refl)
  ]

  translate_auth-required :
      (row : GatewayRow) (headers : Headers)
      → row.require_auth ≡ true
      → translate_auth s headers row ≢ anonymous
  unfolding translate_auth
  translate_auth-required row headers h =
      elim (Option-cases (filled (find (codes "authorization") headers))) [
        | inl e ↦
            rw (e, translate_auth)
              (by_key-required row headers (filled (find (codes "x-api-key") headers)) h)
        | inr (v, e) ↦ rw (e, translate_auth) (λ n. cc)
      ]

  -- What holds of a call that the proxy makes
  pub record IsGuarded (trust : TrustProxy) (limit : ℕ) (gateway : Option GatewayRow)
      (inbound : Inbound) (path target : Text) (sent : Headers) : Type 0 where
    pub row : GatewayRow
    pub found : gateway ≡ some row
    pub on : row.enabled ≡ true
    pub plain : wants_upgrade lower inbound.headers ≡ false
    pub resolved : resolve_target s row.url path inbound.url.search ≡ some target
    pub small : is_too_large s limit (find (codes "content-length") inbound.headers) ≡ false
    pub reachable : IsReachable row.url
    pub credential : Option Text
    pub translated : translate_auth s inbound.headers row ≡ allowed credential
    pub signed : row.require_auth ≡ true → credential ≢ none
    pub headers :
        sent
        ≡ outbound_headers s trust inbound
            (with_credential credential (relayed_headers lower inbound.headers))

  module _ (trust : TrustProxy) (limit : ℕ) (inbound : Inbound) (path : Text) where
    -- A call is made with a credential's header, or with none.
    send_translated-cases :
        (target aim : Text) (sent : Headers) (a : Authorization)
        → send_translated s trust inbound aim a ≡ send target sent
        → (credential : Option Text) × (a ≡ allowed credential)
          × (aim ≡ target)
          × (sent
              ≡ outbound_headers s trust inbound
                  (with_credential credential (relayed_headers lower inbound.headers)))
    unfolding send_translated
    send_translated-cases target aim sent anonymous e = (none, refl, cc, cc)
    send_translated-cases target aim sent (authorization v) e = (some v, refl, cc, cc)
    send_translated-cases target aim sent (refusal status code) e = cc

    send_to-IsGuarded :
        (row : GatewayRow) (aim target : Text) (sent : Headers)
        → row.enabled ≡ true
        → wants_upgrade lower inbound.headers ≡ false
        → resolve_target s row.url path inbound.url.search ≡ some aim
        → send_to s trust limit inbound row aim ≡ send target sent
        → IsGuarded trust limit (some row) inbound path target sent
    unfolding send_to
    send_to-IsGuarded row aim target sent on plain r e =
        elim (Bool-cases (is_too_large s limit (find (codes "content-length") inbound.headers))) [
          | inl h ↦ absurd (ground (arith, h, e))
          | inr small ↦ elim (Bool-cases (has_address_problem s row)) [
            | inl h ↦ absurd (ground (arith, small, h, e))
            | inr good ↦
                let (credential, a, same, h) =
                  send_translated-cases target aim sent (translate_auth s inbound.headers row)
                    (rw (small, good) at e) in
                record {
                  row = row;
                  found = refl;
                  on = on;
                  plain = plain;
                  resolved = r ∙ ap some same;
                  small = small;
                  reachable = address-IsReachable row good;
                  credential = credential;
                  translated = a;
                  signed = λ q n. translate_auth-required row inbound.headers q (a ∙ ap allowed n);
                  headers = h;
                }
          ]
        ]

    through_row-IsGuarded :
        (row : GatewayRow) (target : Text) (sent : Headers)
        → through_row s trust limit inbound path row ≡ send target sent
        → IsGuarded trust limit (some row) inbound path target sent
    unfolding through_row
    through_row-IsGuarded row target sent e = elim (Bool-cases row.enabled) [
      | inr off ↦ absurd (ground (arith, off, e))
      | inl on ↦ elim (Bool-cases (wants_upgrade lower inbound.headers)) [
        | inl up ↦ absurd (ground (arith, on, up, e))
        | inr plain ↦ elim (Option-cases (resolve_target s row.url path inbound.url.search)) [
          | inl n ↦ absurd (ground (arith, on, plain, n, e))
          | inr (aim, r) ↦
              send_to-IsGuarded row aim target sent on plain r (rw (on, through_row, plain, r) at e)
        ]
      ]
    ]

    -- A request reaches an upstream only through a gateway that is found and switched on, without an
    -- upgrade, within the limit on its declared length, at a host that is no link-local address and
    -- resolves to none, with exactly the headers relayed and forwarded; a gateway that requires
    -- authentication is never called without a credential.
    pub sent-IsGuarded :
        (gateway : Option GatewayRow) (target : Text) (sent : Headers)
        → proxy_gateway_request s trust limit gateway inbound path ≡ send target sent
        → IsGuarded trust limit gateway inbound path target sent
    unfolding proxy_gateway_request
    sent-IsGuarded none target sent e = absurd (ground (arith, e))
    sent-IsGuarded (some row) target sent e = through_row-IsGuarded row target sent e

    pub none_refused :
        proxy_gateway_request s trust limit none inbound path ≡ refuse 404 (codes "unknown_gateway")
    unfolding proxy_gateway_request
    none_refused = refl

    pub disabled_refused :
        (row : GatewayRow)
        → row.enabled ≡ false
        → proxy_gateway_request s trust limit (some row) inbound path
          ≡ refuse 404 (codes "unknown_gateway")
    unfolding proxy_gateway_request through_row
    disabled_refused row h = rw h refl
