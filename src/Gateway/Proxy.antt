-- ===== src/Gateway/Proxy.antt =====
-- One request through a gateway: `proxyGatewayRequest` of apps/web/src/server/gateways/proxy.ts.
pub mod Laws
pub mod Sent
use semantius_idp.Prelude.{
  filled, ℕ, Text, String, codes, text_eq, starts_with, split_on, cut_at, trim, is_empty, any, all,
  Bool, true, false, not, ◌||◌, Option, none, some, is_none, if◌then◌else◌, List, [], ◌∷◌, ◌++◌,
  find,
}
use semantius_idp.Net.ClientIp.{TrustProxy}
use semantius_idp.Gateway.{Url}
use semantius_idp.Gateway.Address.{small_number, is_link_local_address}
use semantius_idp.Gateway.Headers.{
  Headers, wants_upgrade, relayed_headers, set_header, apply_forwarded_headers,
}
use semantius_idp.Gateway.Tokens.{Credential, key, session, Translation, bearer, rejected}

-- `GatewayRow`, as far as the proxy reads it
pub record GatewayRow : Type 0 where
  pub name : Text
  pub url : Text
  pub require_auth : Bool
  pub audience : Option Text
  pub enabled : Bool

-- What the platform and the other parts answer: the URL parser, `toLowerCase`, whether the number
-- in a text exceeds a limit, the resolver (`none` where it fails), and `exchange`.
pub record Surroundings : Type 0 where
  pub parse_url : Text → Option Url
  pub lower : Text → Text
  pub exceeds : Text → ℕ → Bool
  pub resolve : Text → Option (List Text)
  pub exchange : Credential → Option Text → Option Translation

pub record Inbound : Type 0 where
  pub headers : Headers
  pub url : Url
  pub client_ip : Option Text

-- A refusal by its status and code, or the call that is made upstream.
pub data Outcome : Type 0 where
  refuse : ℕ → Text → Outcome
  send : Text → Headers → Outcome

-- `name.endsWith(SESSION_COOKIE_SUFFIX)`
unfoldable pub ends_with : Text → Text → Bool
ends_with [] t = text_eq [] t
ends_with (c ∷ s) t = text_eq (c ∷ s) t || ends_with s t

abbrev cookie_token : Text × Text → Option Text → Option Text
cookie_token (name, value) rest =
    if is_empty (trim value) || not (ends_with (trim name) (codes "session_token"))
    then rest
    else some (trim value)

-- The loop of `sessionCredential`
unfoldable pub session_token : List Text → Option Text
session_token [] = none
session_token (pair ∷ pairs) =
    let rest = session_token pairs in
    elim (cut_at b'=' pair) [ none ↦ rest | some parts ↦ cookie_token parts rest ]

abbrev pub is_own_site : Option Text → Bool
is_own_site none = true
is_own_site (some site) = text_eq site (codes "same-origin") || text_eq site (codes "none")

-- `sessionCredential`
unfoldable pub session_credential : Headers → Option Text
unfolding session_token
session_credential headers = elim (filled (find (codes "cookie") headers)) [
  | none ↦ none
  | some header ↦
      if not (is_own_site (find (codes "sec-fetch-site") headers))
      then none
      else session_token (split_on b';' header)
]

is_quad : List Text → Bool
is_quad (p ∷ q ∷ r ∷ s ∷ []) = all (λ t. not (is_none (small_number t))) (p ∷ q ∷ r ∷ s ∷ [])
is_quad _ = false

-- `isAddressLiteral`
unfoldable pub is_address_literal : Text → Bool
unfolding is_quad
is_address_literal hostname = is_quad (split_on b'.' hostname) || starts_with hostname (codes "[")

-- `Translation`: the header to send, nothing, or a refusal.
pub data Authorization : Type 0 where
  anonymous : Authorization
  authorization : Text → Authorization
  refusal : ℕ → Text → Authorization

abbrev from_translation : Translation → Authorization
from_translation (bearer token) = authorization (codes "Bearer " ++ token)
from_translation (rejected status code) = refusal status code

abbrev pub scope_of : GatewayRow → Option Text
scope_of row = if is_none row.audience then none else some row.name

abbrev without_credential : GatewayRow → Authorization
without_credential row = if row.require_auth then refusal 401 (codes "auth_required") else anonymous

module _ (s : Surroundings) where
  open s use {parse_url, lower, exceeds, resolve, exchange}

  by_session : GatewayRow → Option Text → Authorization
  by_session row none = without_credential row
  by_session row (some token) = elim (exchange (session token) (scope_of row)) [
    | none ↦ without_credential row
    | some t ↦ from_translation t
  ]

  by_key : GatewayRow → Headers → Option Text → Authorization
  unfolding by_session
  by_key row headers none = by_session row (session_credential headers)
  by_key row headers (some k) = elim (exchange (key k) (scope_of row)) [
    | none ↦ refusal 401 (codes "invalid_api_key")
    | some t ↦ from_translation t
  ]

  -- `translateAuth`
  unfoldable pub translate_auth : Headers → GatewayRow → Authorization
  unfolding by_key
  translate_auth headers row = elim (filled (find (codes "authorization") headers)) [
    | some existing ↦ authorization existing
    | none ↦ by_key row headers (filled (find (codes "x-api-key") headers))
  ]

  abbrev slashed : Text → Text
  slashed href = if ends_with href (codes "/") then href else href ++ codes "/"

  inside : Text → Text → Url → Url → Option Text
  inside candidate search base parsed =
      if not (is_empty parsed.search) || not (is_empty parsed.hash)
      then none
      else if not (starts_with parsed.href (slashed base.href))
      then none
      else some (candidate ++ search)

  -- `resolveTarget`
  unfoldable pub resolve_target : Text → Text → Text → Option Text
  unfolding inside
  resolve_target url [] search = some (url ++ search)
  resolve_target url (c ∷ path) search = elim (parse_url url) [
    | none ↦ none
    | some base ↦ elim (parse_url (url ++ b'/' ∷ c ∷ path)) [
      | none ↦ none
      | some parsed ↦ inside (url ++ b'/' ∷ c ∷ path) search base parsed
    ]
  ]

  -- `upstreamAddressProblem`: whether there is one
  unfoldable pub has_address_problem : GatewayRow → Bool
  has_address_problem row = elim (parse_url row.url) [
    | none ↦ true
    | some url ↦
        if is_link_local_address lower url.hostname
        then true
        else if is_address_literal url.hostname
        then false
        else elim (resolve url.hostname) [
          | none ↦ true
          | some addresses ↦ any (is_link_local_address lower) addresses
        ]
  ]

  abbrev is_too_large : ℕ → Option Text → Bool
  is_too_large limit none = false
  is_too_large limit (some declared) = exceeds declared limit

  abbrev without_colon : Text → Text
  without_colon protocol = elim (cut_at b':' protocol) [
    | none ↦ protocol
    | some (before, after) ↦ before ++ after
  ]

  -- The call, with the headers that it carries
  abbrev pub outbound_headers : TrustProxy → Inbound → Headers → Headers
  outbound_headers trust inbound outbound =
      apply_forwarded_headers trust inbound.headers inbound.url.host
        (without_colon inbound.url.protocol) inbound.client_ip outbound

  send_translated : TrustProxy → Inbound → Text → Authorization → Outcome
  send_translated trust inbound target (refusal status code) = refuse status code
  send_translated trust inbound target anonymous =
      send target (outbound_headers trust inbound (relayed_headers lower inbound.headers))
  send_translated trust inbound target (authorization value) = send target (
      outbound_headers trust inbound
        (set_header (codes "authorization") value (relayed_headers lower inbound.headers)))

  -- From the target on
  send_to : TrustProxy → ℕ → Inbound → GatewayRow → Text → Outcome
  unfolding send_translated
  send_to trust limit inbound row target =
      if is_too_large limit (find (codes "content-length") inbound.headers)
      then refuse 413 (codes "payload_too_large")
      else if has_address_problem row
      then refuse 502 (codes "bad_gateway")
      else send_translated trust inbound target (translate_auth inbound.headers row)

  through_row : TrustProxy → ℕ → Inbound → Text → GatewayRow → Outcome
  unfolding send_to
  through_row trust limit inbound path row =
      if not row.enabled
      then refuse 404 (codes "unknown_gateway")
      else if wants_upgrade lower inbound.headers
      then refuse 501 (codes "upgrade_not_supported")
      else elim (resolve_target row.url path inbound.url.search) [
        | none ↦ refuse 400 (codes "invalid_path")
        | some target ↦ send_to trust limit inbound row target
      ]

  -- `proxyGatewayRequest`, up to the call upstream; `row` is what `lookupGateway` finds.
  unfoldable pub proxy_gateway_request :
      TrustProxy → ℕ → Option GatewayRow → Inbound → Text → Outcome
  unfolding through_row
  proxy_gateway_request trust limit none inbound path = refuse 404 (codes "unknown_gateway")
  proxy_gateway_request trust limit (some row) inbound path =
      through_row trust limit inbound path row
