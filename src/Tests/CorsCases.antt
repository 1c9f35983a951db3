-- ===== src/Tests/CorsCases.antt =====
-- The origins that browsers may call from: apps/web/src/server/http/cors.ts.
use semantius_idp.Prelude.{
  Option, Text, [], codes, false, find, has_text, none, refl, some, starts_with, text_eq, true, ◌↔◌,
  ◌∷◌, ◌≡◌, ◌≢◌, ◌⊎◌,
}
use semantius_idp.Clients.{contains_text, has_host_template}
use semantius_idp.Cors.{
  Parsed, public, clients, Inbound, cors_for, client_headers, client_origins, browser_origins_of,
  origin_of, add_expanded, add_origin, expand_host_template, refresh_database_client_origins,
}
use semantius_idp.Cors.Laws.{IsRegistered, cors_exact}

-- Every text is the origin of itself.
abbrev as_origin : Text → Option Parsed
as_origin uri = some (record { protocol = codes "https:"; origin = uri })

abbrev from_shop : Inbound
from_shop = record { method = codes "POST"; origin = some (codes "https://shop.idp.org") }

-- The template of a row stands for the host of the request.
host_allowed :
    find
      (codes "access-control-allow-origin")
      (cors_for as_origin
        (some (codes "idp.org"))
        []
        (codes "https://shop.{host}" ∷ [])
        clients
        from_shop).headers
    ≡ some (codes "https://shop.idp.org")
unfolding cors_for client_headers client_origins browser_origins_of origin_of add_expanded
    add_origin expand_host_template contains_text has_host_template has_text text_eq find
    starts_with
host_allowed = refl

-- A row that is disabled, or has no value there, gives no origin.
refreshed :
    refresh_database_client_origins as_origin
      (some (
        record {
          disabled = some false;
          redirect_uris = codes "https://a" ∷ [];
          post_logout_redirect_uris = none;
        }
        ∷ record {
          disabled = some true;
          redirect_uris = codes "https://b" ∷ [];
          post_logout_redirect_uris = none;
        }
        ∷ record {
          disabled = none;
          redirect_uris = codes "https://c" ∷ [];
          post_logout_redirect_uris = none;
        }
        ∷ []))
      []
    ≡ codes "https://a" ∷ []
unfolding refresh_database_client_origins browser_origins_of origin_of add_origin has_text text_eq
refreshed = refl

cors_exact_example :
    ((v : Text)
      → (find
            (codes "access-control-allow-origin")
            (cors_for as_origin none []
              (codes "https://shop.idp.org" ∷ [])
              clients
              from_shop).headers
          ≡ some v)
        ↔ (((clients ≡ public) × (codes "*" ≡ v))
            ⊎ ((clients ≡ clients)
                × (from_shop.origin ≡ some v)
                × (v ≢ [])
                × IsRegistered as_origin none [] (codes "https://shop.idp.org" ∷ []) v)))
    × ((c : Text)
        → find
            (codes "access-control-allow-credentials")
            (cors_for as_origin none []
              (codes "https://shop.idp.org" ∷ [])
              clients
              from_shop).headers
          ≡ some c
        → clients ≡ clients)
cors_exact_example =
    cors_exact as_origin none [] (codes "https://shop.idp.org" ∷ []) clients from_shop
