-- ===== src/Tests/ClientCases.antt =====
-- The reconciliation of clients: apps/web/src/server/oidc/reconcile.ts.
use semantius_idp.Prelude.{
  In, IsUnique, Text, [], change, codes, false, find, has_text, if◌then◌else◌, inl, leb, length,
  none, put, refl, some, starts_with, text_eq, true, ◌++◌, ◌↔◌, ◌∷◌, ◌≡◌,
}
use semantius_idp.Oauth.{AccessToken, RefreshToken}
use semantius_idp.Js.{Value}
use semantius_idp.Clients.{
  Metadata, ClientEntry, Targets, resource_links_for, metadata_for, dedupe, to_client_row,
  is_public, auth_method_for, has_host_template, contains_text,
}
use semantius_idp.Clients.Rows.{null, text, TableRow, Store, owned_columns}
use semantius_idp.Clients.Reconcile.{
  Environment, apply_reconciliation, apply_entries, apply_entry, desired_row, differs, equal, write,
  sweep, sweep_orphan, sync_entries, sync_resource_links, revoke_tokens_for,
}
use semantius_idp.Clients.Reconcile.Table.{by_id, client_after, reconciled_client}
use semantius_idp.Clients.Reconcile.Tokens.{IsOrphaned, orphans_cut}
use semantius_idp.Clients.Reconcile.Links.{links_exact}
use semantius_idp.Clients.Reconcile.Again.{updated_again_iff, IsMangled}
use semantius_idp.Clients.Reconcile.Public.{IsSafe, public_clients-IsSafe}

-- The keys of an object
abbrev keys_text : Metadata → Text
keys_text [] = []
keys_text ((k, v) ∷ m) = k ++ b',' ∷ keys_text m

abbrev same : Metadata → Metadata
same m = m

abbrev insert_short : Text × Value → Metadata → Metadata
insert_short e [] = e ∷ []
insert_short e (f ∷ m) = if leb (length e.0) (length f.0) then e ∷ f ∷ m else f ∷ insert_short e m

-- The shorter keys first, as `jsonb` gives an object back
abbrev short_first : Metadata → Metadata
short_first [] = []
short_first (e ∷ m) = insert_short e (short_first m)

abbrev hashed : Text → Text
hashed t = b'#' ∷ t

abbrev empty_row : TableRow
empty_row name = null

abbrev id_of : Text → Text
id_of t = t

abbrev plain : Environment
plain = record {
  stringify = keys_text;
  normal = same;
  hash = hashed;
  blank = empty_row;
  uuid = id_of;
}

abbrev postgres : Environment
postgres = record {
  stringify = keys_text;
  normal = short_first;
  hash = hashed;
  blank = empty_row;
  uuid = id_of;
}

abbrev shop : ClientEntry
shop = record {
  client_id = codes "shop";
  name = some (codes "Shop");
  kind = codes "spa";
  client_secret = none;
  token_endpoint_auth_method = none;
  first_party = true;
  redirect_uris = codes "https://shop.example/cb" ∷ [];
  post_logout_redirect_uris = [];
  scopes = none;
  audience = none;
  grant_types = none;
  response_types = none;
  require_pkce = false;
  skip_consent = true;
  enable_end_session = true;
  resource_server = true;
  disabled = false;
  uri = none;
  icon = none;
  contacts = [];
  tos = none;
  policy = none;
  metadata = none;
}

abbrev config : Targets
config = record { resources = codes "api" ∷ codes "gone" ∷ []; default_audience = [] }

abbrev mine : TableRow
mine name = if text_eq name (codes "userId") then text (codes "ada") else null

abbrev token_of : Text → RefreshToken
token_of client = record {
  id = client;
  client_id = client;
  session_id = none;
  user_id = codes "ada";
  scopes = [];
  created_at = 1;
  expires_at = 9;
  auth_time = none;
  revoked = none;
}

abbrev store : Store
store = record {
  clients = (codes "old", empty_row) ∷ (codes "mine", mine) ∷ [];
  resources = codes "api" ∷ [];
  links = (codes "shop", codes "stale") ∷ [];
  tables = record {
    access = [];
    refresh = token_of (codes "old") ∷ token_of (codes "mine") ∷ [];
    consents = [];
    sessions = [];
  };
}

-- The first run creates the client and disables the one that is no longer in the file.
first_run : (apply_reconciliation postgres 5 false config (shop ∷ []) store).diff ≡ record {
  created = codes "shop" ∷ [];
  updated = [];
  disabled = codes "old" ∷ [];
  deleted = [];
  relinked = codes "shop" ∷ [];
}
unfolding apply_reconciliation apply_entries apply_entry differs equal write owned_columns sweep
    sweep_orphan sync_entries sync_resource_links revoke_tokens_for resource_links_for metadata_for
    dedupe to_client_row is_public auth_method_for has_host_template contains_text has_text text_eq
    find put change starts_with
first_run = refl

-- A second run updates a client with both flags again where the database puts shorter keys first.
second_run :
    (apply_reconciliation postgres 6 false config
      (shop ∷ [])
      (apply_reconciliation postgres 5 false config (shop ∷ []) store).store).diff
    ≡ record {
      created = [];
      updated = codes "shop" ∷ [];
      disabled = [];
      deleted = [];
      relinked = [];
    }
unfolding apply_reconciliation apply_entries apply_entry differs equal write owned_columns sweep
    sweep_orphan sync_entries sync_resource_links revoke_tokens_for resource_links_for metadata_for
    dedupe to_client_row is_public auth_method_for has_host_template contains_text has_text text_eq
    find put change starts_with
second_run = refl

store-IsUnique : IsUnique store.clients
unfolding find text_eq
store-IsUnique = (refl, (refl, tt))

shop-IsUnique : IsUnique (by_id (shop ∷ []))
unfolding find
shop-IsUnique = (refl, tt)

reconciled_client_example :
    find (codes "old") (apply_reconciliation plain 5 false config (shop ∷ []) store).store.clients
    ≡ client_after plain 5 false
        (find (codes "old") (by_id (shop ∷ [])))
        (find (codes "old") store.clients)
reconciled_client_example =
    reconciled_client plain 5 false config (shop ∷ []) store (codes "old") store-IsUnique
      shop-IsUnique

orphans_cut_example :
    ((a : AccessToken)
      → In a (apply_reconciliation plain 5 true config (shop ∷ []) store).store.tables.access
        ↔ (In a store.tables.access × ¬ IsOrphaned (shop ∷ []) store a.client_id))
    × ((r : RefreshToken)
        → r.revoked ≡ none
        → In r (apply_reconciliation plain 5 true config (shop ∷ []) store).store.tables.refresh
          ↔ (In r store.tables.refresh × ¬ IsOrphaned (shop ∷ []) store r.client_id))
orphans_cut_example = orphans_cut plain 5 true config (shop ∷ []) store

links_exact_example :
    In
      (codes "shop", codes "api")
      (apply_reconciliation plain 5 false config (shop ∷ []) store).store.links
    ↔ (In (codes "api") (resource_links_for shop config) × In (codes "api") store.resources)
links_exact_example =
    links_exact plain 5 false config (shop ∷ []) store shop (codes "api") shop-IsUnique (inl refl)

updated_again_iff_example :
    In
      (codes "shop")
      (apply_reconciliation postgres 6 false config
        (shop ∷ [])
        (apply_reconciliation postgres 5 false config (shop ∷ []) store).store).diff.updated
    ↔ ((e : ClientEntry) × In e (shop ∷ [])
        × (e.client_id ≡ codes "shop")
        × ((row : TableRow)
            → find e.client_id store.clients ≡ some row
            → differs postgres row (desired_row postgres e) ≡ true)
        × IsMangled postgres e)
updated_again_iff_example =
    updated_again_iff postgres false config (shop ∷ []) store 5 store-IsUnique shop-IsUnique 6
      (codes "shop")

shop_public : is_public shop ≡ true
unfolding is_public has_text text_eq
shop_public = refl

public_clients-IsSafe_example :
    (row : TableRow) × (find
        (codes "shop")
        (apply_reconciliation plain 5 false config (shop ∷ []) store).store.clients
      ≡ some row)
    × IsSafe row
public_clients-IsSafe_example =
    public_clients-IsSafe plain 5 false config (shop ∷ []) store shop store-IsUnique shop-IsUnique
      (inl refl) shop_public
