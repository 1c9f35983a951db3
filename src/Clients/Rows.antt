-- ===== src/Clients/Rows.antt =====
-- The tables that a reconciliation of clients writes, the columns of a row and the difference that it
-- reports: apps/web/src/server/oidc/reconcile.ts. A row gives each column a value.
use semantius_idp.Prelude.{
  Bool, Dict, List, Option, Text, [], codes, false, is_empty, none, some, text_eq, true, ℕ, ◌&&◌,
  ◌++◌, ◌∷◌,
}
use semantius_idp.Clients.{Metadata, ClientRow}
use semantius_idp.Oauth.{Tables}

-- The value of a column
pub data Column : Type 0 where
  null : Column
  text : Text → Column
  flag : Bool → Column
  texts : List Text → Column
  json : Metadata → Column
  time : ℕ → Column

abbrev pub TableRow : Type 0
TableRow = Text → Column

-- The tables that the transaction reads and writes; a link is a client and a resource.
pub record Store : Type 0 where
  pub clients : Dict TableRow
  pub resources : List Text
  pub links : List (Text × Text)
  pub tables : Tables

-- `ReconcileDiff`, without `unchanged`
pub record Diff : Type 0 where
  pub created : List Text
  pub updated : List Text
  pub disabled : List Text
  pub deleted : List Text
  pub relinked : List Text

abbrev pub empty_diff : Diff
empty_diff = record { created = []; updated = []; disabled = []; deleted = []; relinked = [] }

-- `diff.unchanged`
abbrev pub is_unchanged : Diff → Bool
is_unchanged d =
    is_empty d.created
    && is_empty d.updated
    && is_empty d.disabled
    && is_empty d.deleted
    && is_empty d.relinked

pub record Pass : Type 0 where
  pub store : Store
  pub diff : Diff

abbrev pub texts_eq : List Text → List Text → Bool
texts_eq [] [] = true
texts_eq (a ∷ rest) (b ∷ others) = text_eq a b && texts_eq rest others
texts_eq _ _ = false

abbrev pub of_text : Option Text → Column
of_text none = null
of_text (some t) = text t

abbrev pub of_texts : Option (List Text) → Column
of_texts none = null
of_texts (some ts) = texts ts

abbrev pub of_json : Option Metadata → Column
of_json none = null
of_json (some m) = json m

-- `OWNED_COLUMNS`, each with the desired value
unfoldable pub owned_columns : ClientRow → Dict Column
owned_columns row =
    (codes "clientSecret", of_text row.client_secret)
    ∷ (codes "name", of_text row.name)
    ∷ (codes "disabled", flag row.disabled)
    ∷ (codes "clientDiscoveryId", of_text row.client_discovery_id)
    ∷ (codes "skipConsent", flag row.skip_consent)
    ∷ (codes "enableEndSession", flag row.enable_end_session)
    ∷ (codes "scopes", of_texts row.scopes)
    ∷ (codes "redirectUris", texts row.redirect_uris)
    ∷ (codes "postLogoutRedirectUris", texts row.post_logout_redirect_uris)
    ∷ (codes "grantTypes", texts row.grant_types)
    ∷ (codes "responseTypes", texts row.response_types)
    ∷ (codes "requirePKCE", flag row.require_pkce)
    ∷ (codes "tokenEndpointAuthMethod", text row.token_endpoint_auth_method)
    ∷ (codes "applicationType", of_text row.application_type)
    ∷ (codes "uri", of_text row.uri)
    ∷ (codes "icon", of_text row.icon)
    ∷ (codes "contacts", texts row.contacts)
    ∷ (codes "tos", of_text row.tos)
    ∷ (codes "policy", of_text row.policy)
    ∷ (codes "metadata", of_json row.metadata)
    ∷ (codes "userId", of_text row.user_id)
    ∷ []

-- All of a desired row's columns
abbrev pub columns_of : ClientRow → Dict Column
columns_of row = (codes "clientId", text row.client_id) ∷ owned_columns row

abbrev pub add_created : Text → Diff → Diff
add_created id d = record {
  created = d.created ++ id ∷ [];
  updated = d.updated;
  disabled = d.disabled;
  deleted = d.deleted;
  relinked = d.relinked;
}

abbrev pub add_updated : Text → Diff → Diff
add_updated id d = record {
  created = d.created;
  updated = d.updated ++ id ∷ [];
  disabled = d.disabled;
  deleted = d.deleted;
  relinked = d.relinked;
}

abbrev pub add_disabled : Text → Diff → Diff
add_disabled id d = record {
  created = d.created;
  updated = d.updated;
  disabled = d.disabled ++ id ∷ [];
  deleted = d.deleted;
  relinked = d.relinked;
}

abbrev pub add_deleted : Text → Diff → Diff
add_deleted id d = record {
  created = d.created;
  updated = d.updated;
  disabled = d.disabled;
  deleted = d.deleted ++ id ∷ [];
  relinked = d.relinked;
}

abbrev pub add_relinked : Text → Diff → Diff
add_relinked id d = record {
  created = d.created;
  updated = d.updated;
  disabled = d.disabled;
  deleted = d.deleted;
  relinked = d.relinked ++ id ∷ [];
}

abbrev pub with_clients : Dict TableRow → Store → Store
with_clients clients s = record {
  clients = clients;
  resources = s.resources;
  links = s.links;
  tables = s.tables;
}

abbrev pub with_links : List (Text × Text) → Store → Store
with_links links s = record {
  clients = s.clients;
  resources = s.resources;
  links = links;
  tables = s.tables;
}
