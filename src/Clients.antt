-- ===== src/Clients.antt =====
-- A client of the file as a row of the table, and the resources it may name:
-- apps/web/src/server/oidc/client-mapping.ts. The entry is what the schema of clients-schema.ts
-- parses; an object is its entries in order.
pub mod Rows
pub mod Reconcile
use semantius_idp.Prelude.{
  Bool, Dict, List, Option, String, Text, [], any, codes, false, filled, has_text, if◌then◌else◌,
  is_empty, none, or_else, put, some, starts_with, suc, text_eq, true, zero, ◌++◌, ◌+◌, ◌-◌, ◌||◌,
  ◌∷◌, arith,
}
use semantius_idp.Js.{Value, bool}

abbrev pub Metadata : Type 0
Metadata = Dict Value

pub data Audience : Type 0 where
  one : Text → Audience
  many : List Text → Audience

-- `ClientEntry`
pub record ClientEntry : Type 0 where
  pub client_id : Text
  pub name : Option Text
  pub kind : Text
  pub client_secret : Option Text
  pub token_endpoint_auth_method : Option Text
  pub first_party : Bool
  pub redirect_uris : List Text
  pub post_logout_redirect_uris : List Text
  pub scopes : Option (List Text)
  pub audience : Option Audience
  pub grant_types : Option (List Text)
  pub response_types : Option (List Text)
  pub require_pkce : Bool
  pub skip_consent : Bool
  pub enable_end_session : Bool
  pub resource_server : Bool
  pub disabled : Bool
  pub uri : Option Text
  pub icon : Option Text
  pub contacts : List Text
  pub tos : Option Text
  pub policy : Option Text
  pub metadata : Option Metadata

-- `ClientRow`
pub record ClientRow : Type 0 where
  pub client_id : Text
  pub client_secret : Option Text
  pub name : Option Text
  pub disabled : Bool
  pub skip_consent : Bool
  pub enable_end_session : Bool
  pub scopes : Option (List Text)
  pub redirect_uris : List Text
  pub post_logout_redirect_uris : List Text
  pub grant_types : List Text
  pub response_types : List Text
  pub require_pkce : Bool
  pub token_endpoint_auth_method : Text
  pub application_type : Option Text
  pub uri : Option Text
  pub icon : Option Text
  pub contacts : List Text
  pub tos : Option Text
  pub policy : Option Text
  pub metadata : Option Metadata
  pub user_id : Option Text
  pub client_discovery_id : Option Text

abbrev pub default_grant_types : List Text
default_grant_types = codes "authorization_code" ∷ codes "refresh_token" ∷ []

abbrev pub public_client_types : List Text
public_client_types = codes "spa" ∷ codes "native" ∷ []

-- `isPublic`
unfoldable pub is_public : ClientEntry → Bool
is_public entry = has_text public_client_types entry.kind

-- `authMethodFor`
unfoldable pub auth_method_for : ClientEntry → Text
auth_method_for entry =
    or_else (filled entry.token_endpoint_auth_method)
      (if is_public entry then codes "none" else codes "client_secret_basic")

-- `s.includes(t)`
unfoldable pub contains_text : Text → Text → Bool
contains_text [] t = starts_with [] t
contains_text (c ∷ s) t = starts_with (c ∷ s) t || contains_text s t

-- `hasHostTemplate`
unfoldable pub has_host_template : Text → Bool
has_host_template value = contains_text value (codes "{host}")

abbrev flagged : Text → Bool → Metadata → Metadata
flagged key true m = put key (bool true) m
flagged key false m = m

-- `metadataFor`
unfoldable pub metadata_for : ClientEntry → Option Metadata
metadata_for entry =
    let merged =
      flagged (codes "firstParty") entry.first_party
        (flagged (codes "resourceServer") entry.resource_server (or_else entry.metadata [])) in
    if is_empty merged then none else some merged

-- `toClientRow`
unfoldable pub to_client_row : ClientEntry → Option Text → Option Text → ClientRow
to_client_row entry hashed_secret user_id = record {
  client_id = entry.client_id;
  client_secret = if is_public entry then none else hashed_secret;
  name = entry.name;
  disabled = entry.disabled;
  skip_consent = entry.skip_consent;
  enable_end_session = entry.enable_end_session;
  scopes = entry.scopes;
  redirect_uris = entry.redirect_uris;
  post_logout_redirect_uris = entry.post_logout_redirect_uris;
  grant_types = or_else entry.grant_types default_grant_types;
  response_types = or_else entry.response_types (codes "code" ∷ []);
  require_pkce = if is_public entry then true else entry.require_pkce;
  token_endpoint_auth_method = auth_method_for entry;
  application_type = if text_eq entry.kind (codes "native") then some (codes "native") else none;
  uri = entry.uri;
  icon = entry.icon;
  contacts = entry.contacts;
  tos = entry.tos;
  policy = entry.policy;
  metadata = metadata_for entry;
  user_id = user_id;
  client_discovery_id =
      if any has_host_template (entry.redirect_uris ++ entry.post_logout_redirect_uris)
      then some (codes "host-template")
      else none;
}

abbrev add_once : List Text → Text → List Text
add_once seen t = if has_text seen t then seen else seen ++ t ∷ []

abbrev add_all : List Text → List Text → List Text
add_all seen [] = seen
add_all seen (t ∷ ts) = add_all (add_once seen t) ts

-- `dedupe`
unfoldable pub dedupe : List Text → List Text
dedupe values = add_all [] values

abbrev declared_audience : Option Audience → List Text
declared_audience none = []
declared_audience (some (one [])) = []
declared_audience (some (one (c ∷ s))) = (c ∷ s) ∷ []
declared_audience (some (many ts)) = ts

-- What `resourceLinksFor` reads of the configuration
pub record Targets : Type 0 where
  pub resources : List Text
  pub default_audience : List Text

-- `resourceLinksFor`
unfoldable pub resource_links_for : ClientEntry → Targets → List Text
resource_links_for entry config =
    if entry.resource_server
    then dedupe config.resources
    else dedupe (config.default_audience ++ declared_audience entry.audience)
