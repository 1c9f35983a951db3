-- ===== src/Gateway/Headers/Laws.antt =====
-- Which headers the gateway proxy sends and returns: apps/web/src/server/gateways/proxy.ts.
use semantius_idp.Prelude.{
  Text, codes, text_eq, text_eq_iff, has_text, starts_with_iff, keep, all, ℕ, leb, Bool, true,
  false, not, ◌&&◌, ◌||◌, Option, none, some, or_option, is_none, if◌then◌else◌, List, [], ◌∷◌,
  ◌++◌, ◌≡◌, refl, ap, subst, arith, false_of_ne_true, find, find-keep, find-append,
}
use semantius_idp.Net.ClientIp.{TrustProxy}
use semantius_idp.Gateway.Headers.{
  Headers, set_header, hop_by_hop, never_forwarded, is_forwarding_header, connection_tokens,
  is_relayed, relayed_headers, if_trusted, set_some, apply_forwarded_headers,
}

-- Units that `toLowerCase` keeps, whatever the rest of its text
abbrev pub is_lower : ℕ → Bool
is_lower c = not (leb b'A' c && leb c b'Z') && leb c 127

pub find-set_header :
    (k j v : Text) (h : Headers)
    → find j (set_header k v h) ≡ (if text_eq k j then some v else find j h)
unfolding set_header find
find-set_header k j v h = ground (
  arith,
  find-append j (keep (λ e. not (text_eq e.0 k)) h) ((k, v) ∷ []),
  find-keep (λ n. not (text_eq n k)) j h,
  text_eq_iff k j,
  text_eq_iff j k,
)

pub find-set_some :
    (k j : Text) (v : Option Text) (h : Headers)
    → find j (set_some k v h) ≡ (if text_eq k j then or_option v (find j h) else find j h)
find-set_some k j none h = ground arith
find-set_some k j (some v) h = find-set_header k j v h

-- `HOP_BY_HOP.has(lower) || NEVER_FORWARDED.has(lower)`
abbrev pub is_withheld : Text → Bool
is_withheld name = has_text hop_by_hop name || has_text never_forwarded name

-- What the upstream is told of one header, by name: the proxy's own three, then the credential, then
-- the request's header where it may pass.
abbrev pub upstream_header :
    (Text → Text)
    → TrustProxy
    → Headers
    → Text
    → Text
    → Option Text
    → Option Text
    → Text
    → Option Text
upstream_header lower trust headers host proto client_ip credential name =
    if text_eq (codes "x-forwarded-proto") name
    then or_option (if_trusted trust (find (codes "x-forwarded-proto") headers)) (some proto)
    else if text_eq (codes "x-forwarded-host") name
    then or_option (if_trusted trust (find (codes "x-forwarded-host") headers))
        (or_option (find (codes "host") headers) (some host))
    else if text_eq (codes "x-forwarded-for") name
    then client_ip
    else if text_eq (codes "authorization") name && not (is_none credential)
    then credential
    else if is_relayed lower (connection_tokens lower headers) name
    then find name headers
    else none

abbrev pub with_credential : Option Text → Headers → Headers
with_credential none h = h
with_credential (some value) h = set_header (codes "authorization") value h

module _ (lower : Text → Text) (keeps : (t : Text) → all is_lower t ≡ true → lower t ≡ t) where
  find-relayed :
      (headers : Headers) (name : Text)
      → find name (relayed_headers lower headers) ≡ (
          if is_relayed lower (connection_tokens lower headers) name
          then find name headers
          else none)
  unfolding relayed_headers
  find-relayed headers name =
      find-keep (is_relayed lower (connection_tokens lower headers)) name headers

  is_relayed-forwarded :
      (dropped : List Text) (rest : Text)
      → all is_lower rest ≡ true
      → is_relayed lower dropped (codes "x-forwarded-" ++ rest) ≡ false
  unfolding is_relayed is_forwarding_header
  is_relayed-forwarded dropped rest h = ground (
    arith,
    keeps (codes "x-forwarded-" ++ rest) h,
    (starts_with_iff (codes "x-forwarded-" ++ rest) (codes "x-forwarded-")).1 (rest, refl),
  )

  find-with_credential :
      (credential : Option Text) (h : Headers) (name : Text)
      → find name (with_credential credential h) ≡ (
          if text_eq (codes "authorization") name && not (is_none credential)
          then credential
          else find name h)
  find-with_credential none h name = ground arith
  find-with_credential (some v) h name =
      ground (arith, find-set_header (codes "authorization") name v h)

  not_credential :
      (name : Text)
      → text_eq (codes "x-forwarded-for") name ≡ true
      → text_eq (codes "authorization") name ≡ false
  unfolding text_eq
  not_credential name h =
      subst (λ n. text_eq (codes "authorization") n ≡ false)
        ((text_eq_iff (codes "x-forwarded-for") name).0 h) refl

  not_relayed :
      (dropped : List Text) (name : Text)
      → text_eq (codes "x-forwarded-for") name ≡ true
      → is_relayed lower dropped name ≡ false
  not_relayed dropped name h =
      subst (λ n. is_relayed lower dropped n ≡ false)
        ((text_eq_iff (codes "x-forwarded-for") name).0 h)
        (is_relayed-forwarded dropped (codes "for") refl)

  pub find-outbound :
      (trust : TrustProxy) (headers : Headers) (host proto : Text)
      (client_ip credential : Option Text) (name : Text)
      → find name (
          apply_forwarded_headers trust headers host proto client_ip
            (with_credential credential (relayed_headers lower headers)))
        ≡ upstream_header lower trust headers host proto client_ip credential name
  unfolding apply_forwarded_headers
  find-outbound trust headers host proto client_ip credential name =
      let relayed = relayed_headers lower headers in
      let first = with_credential credential relayed in
      let second = set_some (codes "x-forwarded-for") client_ip first in
      let proto_header =
        or_option (if_trusted trust (find (codes "x-forwarded-proto") headers)) (some proto) in
      let host_header =
        or_option (if_trusted trust (find (codes "x-forwarded-host") headers))
          (or_option (find (codes "host") headers) (some host)) in
      ground (
        arith,
        find-set_some (codes "x-forwarded-proto") name proto_header
            (set_some (codes "x-forwarded-host") host_header second),
        find-set_some (codes "x-forwarded-host") name host_header second,
        find-set_some (codes "x-forwarded-for") name client_ip first,
        find-with_credential credential relayed name,
        find-relayed headers name,
        not_credential name,
        not_relayed (connection_tokens lower headers) name,
      )

  -- A header that a list withholds is none of those that the proxy sets itself.
  not_own :
      (own name : Text)
      → all is_lower own ≡ true
      → is_withheld own ≡ false
      → is_withheld (lower name) ≡ true
      → text_eq own name ≡ false
  not_own own name l n h = false_of_ne_true (text_eq own name) (λ e. cc (
    n,
    h,
    ap is_withheld (keeps own l),
    ap (λ t. is_withheld (lower t)) ((text_eq_iff own name).0 e),
  ))

  pub upstream_header-withheld :
      (trust : TrustProxy) (headers : Headers) (host proto : Text)
      (client_ip credential : Option Text) (name : Text)
      → is_withheld (lower name) ≡ true
      → upstream_header lower trust headers host proto client_ip credential name ≡ none
  unfolding is_relayed has_text
  upstream_header-withheld trust headers host proto client_ip credential name h = ground (
    arith,
    h,
    not_own (codes "x-forwarded-proto") name refl refl h,
    not_own (codes "x-forwarded-host") name refl refl h,
    not_own (codes "x-forwarded-for") name refl refl h,
    not_own (codes "authorization") name refl refl h,
  )
