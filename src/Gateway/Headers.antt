-- ===== src/Gateway/Headers.antt =====
-- Which headers cross the gateway proxy: apps/web/src/server/gateways/proxy.ts. A header list is
-- what iterating `Headers` gives: lower-case names, each once but for `set-cookie`.
pub mod Laws
pub mod Response
use semantius_idp.Prelude.{
  Text, String, codes, text_eq, has_text, starts_with, split_on, trim, is_empty, keep, any, Bool,
  true, not, ◌&&◌, ◌||◌, Option, none, some, or_option, is_none, if◌then◌else◌, List, [], ◌∷◌, ◌++◌,
  map, Dict, find,
}
use semantius_idp.Net.ClientIp.{TrustProxy, never, always, ranges}

abbrev pub Headers : Type 0
Headers = Dict Text

-- `headers.set(name, value)`
unfoldable pub set_header : Text → Text → Headers → Headers
set_header name value headers = keep (λ e. not (text_eq e.0 name)) headers ++ (name, value) ∷ []

-- `HOP_BY_HOP`
abbrev pub hop_by_hop : List Text
hop_by_hop =
    codes "connection"
    ∷ codes "keep-alive"
    ∷ codes "proxy-authenticate"
    ∷ codes "proxy-authorization"
    ∷ codes "proxy-connection"
    ∷ codes "te"
    ∷ codes "trailer"
    ∷ codes "transfer-encoding"
    ∷ codes "upgrade"
    ∷ []

-- `NEVER_FORWARDED`, with `API_KEY_HEADER` and `SOCKET_ADDRESS_HEADER`
abbrev pub never_forwarded : List Text
never_forwarded =
    codes "host"
    ∷ codes "content-length"
    ∷ codes "cookie"
    ∷ codes "x-api-key"
    ∷ codes "x-idp-socket-address"
    ∷ []

-- `isForwardingHeader`
unfoldable pub is_forwarding_header : Text → Bool
is_forwarding_header name =
    starts_with name (codes "x-forwarded-")
    || has_text (codes "forwarded" ∷ codes "x-real-ip" ∷ []) name

-- `RESPONSE_DENY`
abbrev pub response_deny : List Text
response_deny =
    codes "strict-transport-security"
    ∷ codes "x-frame-options"
    ∷ codes "permissions-policy"
    ∷ codes "feature-policy"
    ∷ codes "clear-site-data"
    ∷ codes "refresh"
    ∷ codes "report-to"
    ∷ codes "reporting-endpoints"
    ∷ codes "nel"
    ∷ codes "alt-svc"
    ∷ []

-- `RESPONSE_DENY_PREFIXES`
abbrev pub response_deny_prefixes : List Text
response_deny_prefixes =
    codes "set-cookie"
    ∷ codes "content-security-policy"
    ∷ codes "access-control-"
    ∷ codes "public-key-pins"
    ∷ []

-- `isDeniedResponseHeader`
unfoldable pub is_denied_response_header : Text → Bool
is_denied_response_header name =
    if has_text response_deny name
    then true
    else any (λ prefix. starts_with name prefix) response_deny_prefixes

abbrev pub filled_tokens : List Text → List Text
filled_tokens = keep (λ t. not (is_empty t))

abbrev pub without_location : Headers → Headers
without_location = keep (λ e. not (text_eq e.0 (codes "location")))

abbrev pub located : (Text → Bool) → Option Text → Headers → Headers
located same_origin none headers = headers
located same_origin (some location) headers =
    if same_origin location then headers else without_location headers

module _ (lower : Text → Text) where
  -- `connectionTokens`
  unfoldable pub connection_tokens : Headers → List Text
  connection_tokens headers = elim (find (codes "connection") headers) [
    | none ↦ []
    | some value ↦ filled_tokens (map (λ t. lower (trim t)) (split_on b',' value))
  ]

  -- `wantsUpgrade`
  unfoldable pub wants_upgrade : Headers → Bool
  unfolding connection_tokens
  wants_upgrade headers =
      if not (is_none (find (codes "upgrade") headers))
      then true
      else has_text (connection_tokens headers) (codes "upgrade")

  -- The tests of the loop over the request's headers
  unfoldable pub is_relayed : List Text → Text → Bool
  is_relayed dropped name =
      not (has_text hop_by_hop (lower name) || has_text never_forwarded (lower name))
      && not (has_text dropped (lower name))
      && not (is_forwarding_header (lower name))

  -- `outbound` after the loop
  unfoldable pub relayed_headers : Headers → Headers
  relayed_headers headers = keep (λ e. is_relayed (connection_tokens headers) e.0) headers

  -- The tests of the loop over the upstream's headers
  unfoldable pub is_returned : List Text → Text → Bool
  is_returned dropped name =
      not (has_text hop_by_hop (lower name) || has_text dropped (lower name))
      && not (is_denied_response_header (lower name))

  -- The headers of `buildResponse`; `same_origin` is `sameUpstreamOrigin` of a location.
  unfoldable pub response_headers : (Text → Bool) → Headers → Headers
  response_headers same_origin upstream =
      let kept = keep (λ e. is_returned (connection_tokens upstream) e.0) upstream in
      set_header (codes "cache-control") (codes "no-store") (
        set_header (codes "content-security-policy") (codes "sandbox; default-src 'none'")
          (located same_origin (find (codes "location") upstream) kept))

-- `trustProxy !== false ? … : null`
abbrev pub if_trusted : TrustProxy → Option Text → Option Text
if_trusted never value = none
if_trusted always value = value
if_trusted (ranges rs) value = value

abbrev pub set_some : Text → Option Text → Headers → Headers
set_some name none headers = headers
set_some name (some value) headers = set_header name value headers

-- `applyForwardedHeaders`; `host` and `proto` are those of the request's URL.
unfoldable pub apply_forwarded_headers :
    TrustProxy → Headers → Text → Text → Option Text → Headers → Headers
apply_forwarded_headers trust headers host proto client_ip outbound =
    let forwarded_host =
      or_option (if_trusted trust (find (codes "x-forwarded-host") headers))
        (or_option (find (codes "host") headers) (some host)) in
    let forwarded_proto =
      or_option (if_trusted trust (find (codes "x-forwarded-proto") headers)) (some proto) in
    set_some (codes "x-forwarded-proto") forwarded_proto (
      set_some (codes "x-forwarded-host") forwarded_host
        (set_some (codes "x-forwarded-for") client_ip outbound))
