-- ===== src/Gateway/Proxy/Sent.antt =====
-- What an upstream receives from the gateway proxy: which headers, and at which address:
-- apps/web/src/server/gateways/proxy.ts.
use semantius_idp.Prelude.{
  ℕ, Text, codes, text_eq, all, true, Option, none, some, [], ◌∷◌, ◌++◌, find, ◌≡◌, ◌<◌, ◌⊎◌, ap,
  ◌∙◌,
}
use semantius_idp.Net.ClientIp.{TrustProxy}
use semantius_idp.Gateway.{Url}
use semantius_idp.Gateway.Headers.{Headers}
use semantius_idp.Gateway.Headers.Laws.{
  is_lower, is_withheld, upstream_header, upstream_header-withheld, find-outbound,
}
use semantius_idp.Gateway.Proxy.{
  GatewayRow, Surroundings, Inbound, send, without_colon, proxy_gateway_request, translate_auth,
}
use semantius_idp.Gateway.Proxy.Laws.{sent-IsGuarded, allowed}

module _ (s : Surroundings) where
  open s use {parse_url, lower}

  -- What the request's `search` is: nothing, or a text that starts with `?`.
  abbrev pub IsQuery : Text → Type 0
  IsQuery q = (q ≡ []) ⊎ ((rest : Text) × (q ≡ b'?' ∷ rest))

  -- A text whose last unit is no white space and no control character, which a URL parser strips.
  abbrev pub IsSolid : Text → Type 0
  IsSolid c = (before : Text) × (d : ℕ) × (c ≡ before ++ d ∷ []) × (32 < d)

  -- What the URL Standard says of a query: put behind the text of a URL that has no query and no
  -- fragment, it only prolongs the parsed URL, by a query.
  abbrev pub IsQueryKept : Type 0
  IsQueryKept =
      (c q : Text) (u : Url)
      → IsSolid c
      → IsQuery q
      → parse_url c ≡ some u
      → u.search ≡ []
      → u.hash ≡ []
      → (v : Url) × (r : Text) × (parse_url (c ++ q) ≡ some v) × (v.href ≡ u.href ++ r) × IsQuery r

  -- The text of the address, without the request's query
  abbrev pub address : Text → Text → Text
  address href [] = href
  address href (c ∷ path) = href ++ b'/' ∷ c ∷ path

  -- The second URL is the first, or goes on behind it at the end of a segment of its path.
  abbrev pub IsWithin : Text → Text → Type 0
  IsWithin base called =
      (rest : Text) × (called ≡ base ++ rest)
      × ((rest ≡ [])
          ⊎ (((below : Text) × (rest ≡ b'/' ∷ below))
              ⊎ (((query : Text) × (rest ≡ b'?' ∷ query))
                  ⊎ ((before : Text) × (base ≡ before ++ b'/' ∷ [])))))

  -- The call goes to the address with the request's query behind it; the address itself has no query
  -- and no fragment; and what the call is parsed to is the gateway's URL or below it.
  pub record IsBelow (href path search target : Text) : Type 0 where
    pub base : Url
    pub bare : Url
    pub called : Url
    pub base_parsed : parse_url href ≡ some base
    pub bare_parsed : parse_url (address href path) ≡ some bare
    pub no_search : bare.search ≡ []
    pub no_hash : bare.hash ≡ []
    pub queried : target ≡ address href path ++ search
    pub parsed : parse_url target ≡ some called
    pub within : IsWithin base.href called.href

  module _ (keeps : (t : Text) → all is_lower t ≡ true → lower t ≡ t) (trust : TrustProxy)
      (limit : ℕ) (gateway : Option GatewayRow) (inbound : Inbound) (path target : Text)
      (sent : Headers)
      (h : proxy_gateway_request s trust limit gateway inbound path ≡ send target sent) where
    -- Where `toLowerCase` keeps the texts that have no upper-case letter, every header of a call is
    -- given by its name: the client's address, the host and the protocol are this hop's, the
    -- credential is the translated one, and any other header is the request's, where it may pass.
    pub sent_header :
        (name : Text)
        → (credential : Option Text) × (row : GatewayRow) × (gateway ≡ some row)
          × (translate_auth s inbound.headers row ≡ allowed credential)
          × (find name sent
              ≡ upstream_header lower trust inbound.headers inbound.url.host
                  (without_colon s inbound.url.protocol)
                  inbound.client_ip
                  credential
                  name)
    sent_header name =
        let g = sent-IsGuarded s trust limit inbound path gateway target sent h in
        (
          g.credential,
          g.row,
          g.found,
          g.translated,
          ap (find name) g.headers
              ∙ find-outbound lower keeps trust inbound.headers inbound.url.host
                  (without_colon s inbound.url.protocol) inbound.client_ip g.credential name,
        )

    -- Where `toLowerCase` keeps the texts that have no upper-case letter, no header of a single hop
    -- and none of `host`, `content-length`, `cookie`, `x-api-key` and `x-idp-socket-address` reaches
    -- an upstream, and `x-forwarded-for` is the resolved client address, never the caller's.
    pub secrets_withheld :
        ((name : Text) → is_withheld (lower name) ≡ true → find name sent ≡ none)
        × (find (codes "x-forwarded-for") sent ≡ inbound.client_ip)
    unfolding text_eq
    secrets_withheld = (
      λ name w.
          let (credential, row, found, t, e) = sent_header name in
          e
          ∙ upstream_header-withheld lower keeps trust inbound.headers inbound.url.host
              (without_colon s inbound.url.protocol) inbound.client_ip credential name w,
      (let (credential, row, found, t, e) = sent_header (codes "x-forwarded-for") in e),
    )
