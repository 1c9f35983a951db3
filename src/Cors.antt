-- ===== src/Cors.antt =====
-- Which browser origins may call which endpoint: apps/web/src/server/http/cors.ts, with the refresh of
-- the cached origins of oidc/client-origins.ts and `expandHostTemplate` of lib/client-rules.ts.
pub mod Allowed
pub mod Laws
use semantius_idp.Prelude.{
  put, Bool, Dict, List, Option, String, Text, [], codes, false, filled, has_text, if◌then◌else◌,
  keep, ltb, none, not, or_else, some, starts_with, suc, text_eq, true, zero, ℕ, ◌&&◌, ◌*◌, ◌++◌,
  ◌+◌, ◌-◌, ◌∷◌, arith,
}
use semantius_idp.Clients.{ClientEntry, has_host_template}

-- `new URL(text)`: what is read of it
pub record Parsed : Type 0 where
  pub protocol : Text
  pub origin : Text

-- `CorsPolicy`
pub data Policy : Type 0 where
  public clients none_allowed : Policy

-- What is read of a request
pub record Inbound : Type 0 where
  pub method : Text
  pub origin : Option Text

-- `CorsDecision`
pub record Decision : Type 0 where
  pub headers : Dict Text
  pub preflight : Bool

-- What is read of a client's row
pub record OriginRow : Type 0 where
  pub disabled : Option Bool
  pub redirect_uris : List Text
  pub post_logout_redirect_uris : Option (List Text)

-- The texts that `replaceAll` leaves after it has found `{host}`: `skip` units of the match are left.
replace_from : Text → ℕ → Text → Text
replace_from host skip [] = []
replace_from host skip (c ∷ s) =
    if ltb 0 skip
    then replace_from host (skip - 1) s
    else if starts_with (c ∷ s) (codes "{host}")
    then host ++ replace_from host 5 s
    else c ∷ replace_from host 0 s

-- `expandHostTemplate`, for hosts without `$`, which `replaceAll` reads as a pattern in what it puts in
unfoldable pub expand_host_template : Text → Text → Text
unfolding replace_from
expand_host_template uri host = replace_from host 0 uri

-- `seen.add(origin)`
unfoldable pub add_origin : Text → List Text → List Text
add_origin o origins = if has_text origins o then origins else origins ++ o ∷ []

-- `add` of `clientOrigins`; `host` is the one of the request's issuer.
unfoldable pub add_expanded : Option Text → List Text → Text → List Text
add_expanded host origins [] = origins
add_expanded host origins (c ∷ o) =
    if has_host_template (c ∷ o)
    then elim (filled host) [
      | none ↦ origins
      | some h ↦ add_origin (expand_host_template (c ∷ o) h) origins
    ]
    else add_origin (c ∷ o) origins

abbrev pub add_each : Option Text → List Text → List Text → List Text
add_each host origins [] = origins
add_each host origins (o ∷ os) = add_each host (add_expanded host origins o) os

-- The headers on an endpoint of clients, from the request's origin
unfoldable pub client_headers : List Text → Option Text → Dict Text
client_headers origins none = (codes "vary", codes "Origin") ∷ []
client_headers origins (some origin) =
    if not (has_text origins origin)
    then (codes "vary", codes "Origin") ∷ []
    else (codes "access-control-allow-origin", origin)
      ∷ (codes "access-control-allow-methods", codes "POST, OPTIONS")
      ∷ (codes "access-control-allow-headers", codes "authorization, content-type, dpop")
      ∷ (codes "access-control-allow-credentials", codes "true")
      ∷ (codes "access-control-max-age", codes "600")
      ∷ (codes "vary", codes "Origin")
      ∷ []

abbrev pub with_origin : Option Text → List Text → List Text
with_origin none rest = rest
with_origin (some o) rest = o ∷ rest

module _ (parse : Text → Option Parsed) where
  -- `originOf`
  unfoldable pub origin_of : Text → Option Text
  origin_of uri = elim (parse uri) [
    | none ↦ none
    | some url ↦
        if not (text_eq url.protocol (codes "https:")) && not (text_eq url.protocol (codes "http:"))
        then none
        else some url.origin
  ]

  -- `browserOriginsOf`
  unfoldable pub browser_origins_of : List Text → List Text
  browser_origins_of [] = []
  browser_origins_of (uri ∷ uris) = with_origin (origin_of uri) (browser_origins_of uris)

  -- The URIs of the clients of the file, in the order of the loops
  abbrev pub file_uris : List ClientEntry → List Text
  file_uris [] = []
  file_uris (c ∷ cs) = (c.redirect_uris ++ c.post_logout_redirect_uris) ++ file_uris cs

  -- `clientOrigins`; `database` is `databaseOrigins`.
  unfoldable pub client_origins : Option Text → List ClientEntry → List Text → List Text
  client_origins host entries database =
      add_each host (add_each host [] (browser_origins_of (file_uris entries))) database

  -- `corsFor`
  unfoldable pub cors_for : Option Text → List ClientEntry → List Text → Policy → Inbound → Decision
  cors_for host entries database none_allowed request = record {
    headers = [];
    preflight = text_eq request.method (codes "OPTIONS");
  }
  cors_for host entries database public request = record {
    headers =
        (codes "access-control-allow-origin", codes "*")
        ∷ (codes "access-control-allow-methods", codes "GET, OPTIONS")
        ∷ (codes "access-control-allow-headers", codes "authorization, content-type, dpop")
        ∷ (codes "access-control-max-age", codes "600")
        ∷ [];
    preflight = text_eq request.method (codes "OPTIONS");
  }
  cors_for host entries database clients request = record {
    headers = client_headers (client_origins host entries database) (filled request.origin);
    preflight = text_eq request.method (codes "OPTIONS");
  }

  -- `eq(disabled, false)`
  abbrev pub is_enabled : OriginRow → Bool
  is_enabled row = elim (row.disabled) [ none ↦ false | some d ↦ not d ]

  abbrev pub row_origins : List OriginRow → List Text
  row_origins [] = []
  row_origins (r ∷ rs) =
      browser_origins_of (r.redirect_uris ++ or_else r.post_logout_redirect_uris [])
      ++ row_origins rs

  -- `new Set(origins)` of `setDatabaseClientOrigins`, and the set that is passed to it
  abbrev add_plain : List Text → List Text → List Text
  add_plain origins [] = origins
  add_plain origins (o ∷ os) = add_plain (add_origin o origins) os

  -- `clearDatabaseClientOrigins`
  abbrev pub clear_database_client_origins : List Text → List Text
  clear_database_client_origins database = []

  -- `refreshDatabaseClientOrigins`: the cached origins afterwards; `none` where the query fails.
  unfoldable pub refresh_database_client_origins : Option (List OriginRow) → List Text → List Text
  refresh_database_client_origins none database = database
  refresh_database_client_origins (some rows) database =
      add_plain [] (row_origins (keep is_enabled rows))

-- A response as far as the decision is copied onto it
pub record CorsAnswer : Type 0 where
  pub status : ℕ
  pub headers : Dict Text

-- The loop over the decision's headers
unfoldable pub set_headers : Dict Text → Dict Text → Dict Text
set_headers [] headers = headers
set_headers ((name, value) ∷ rest) headers = set_headers rest (put name value headers)

-- `withCors`
unfoldable pub with_cors : CorsAnswer → Decision → CorsAnswer
with_cors response decision = record {
  status = response.status;
  headers = set_headers decision.headers response.headers;
}

-- `preflightResponse`
unfoldable pub preflight_response : Decision → CorsAnswer
preflight_response decision = record { status = 204; headers = decision.headers }
