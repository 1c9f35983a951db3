-- ===== src/Oauth/Grants.antt =====
-- The applications that a user is connected to: apps/web/src/server/oidc/grants.ts.
pub mod Laws
pub mod Listed
pub mod Sorted
pub mod Exact
use semantius_idp.Prelude.{
  true, false, nat_eq, Bool, Dict, List, Option, String, Text, [], codes, false, find, has_text,
  if◌then◌else◌, is_none, keep, leb, ltb, map, none, not, or_else, put, some, suc, text_eq, true,
  zero, ℕ, ◌&&◌, ◌++◌, ◌+◌, ◌∷◌, arith,
}
use semantius_idp.Oauth.{RefreshToken, Consent, Tables}

-- `ActiveGrant`
pub record ActiveGrant : Type 0 where
  pub client_id : Text
  pub client_name : Text
  pub scopes : List Text
  pub connected_at : ℕ
  pub has_consent : Bool
  pub active_tokens : ℕ

-- `liveTokensFor`
unfoldable pub is_live_token : Text → ℕ → RefreshToken → Bool
is_live_token user_id now t = text_eq t.user_id user_id && is_none t.revoked && ltb now t.expires_at

abbrev pub is_users_consent : Text → Consent → Bool
is_users_consent user_id c = elim (c.user_id) [ none ↦ false | some u ↦ text_eq u user_id ]

-- The grant of a consent; the name is that of the joined row.
abbrev pub grant_of_consent : (Text → Option Text) → Consent → ActiveGrant
grant_of_consent name_of row = record {
  client_id = row.client_id;
  client_name = or_else (name_of row.client_id) row.client_id;
  scopes = row.scopes;
  connected_at = row.created_at;
  has_consent = true;
  active_tokens = 0;
}

-- `row.authTime ?? row.createdAt`
abbrev pub connected : RefreshToken → ℕ
connected row = or_else row.auth_time row.created_at

abbrev pub grant_of_token : (Text → Option Text) → RefreshToken → ActiveGrant
grant_of_token name_of row = record {
  client_id = row.client_id;
  client_name = or_else (name_of row.client_id) row.client_id;
  scopes = row.scopes;
  connected_at = connected row;
  has_consent = false;
  active_tokens = 1;
}

abbrev pub add_scope : List Text → Text → List Text
add_scope scopes scope = if has_text scopes scope then scopes else scopes ++ scope ∷ []

-- `if (!existing.scopes.includes(scope)) existing.scopes.push(scope)` for each scope
unfoldable pub add_scopes : List Text → List Text → List Text
add_scopes scopes [] = scopes
add_scopes scopes (s ∷ ss) = add_scopes (add_scope scopes s) ss

abbrev pub with_token : RefreshToken → ActiveGrant → ActiveGrant
with_token row existing = record {
  client_id = existing.client_id;
  client_name = existing.client_name;
  scopes = if existing.has_consent then existing.scopes else add_scopes existing.scopes row.scopes;
  connected_at =
      if not existing.has_consent && ltb (connected row) existing.connected_at
      then connected row
      else existing.connected_at;
  has_consent = existing.has_consent;
  active_tokens = existing.active_tokens + 1;
}

-- The grant of a token's client after the token
abbrev pub next_grant : (Text → Option Text) → RefreshToken → Option ActiveGrant → ActiveGrant
next_grant name_of row none = grant_of_token name_of row
next_grant name_of row (some existing) = with_token row existing

-- The loop over the consents
unfoldable pub add_consents :
    (Text → Option Text) → List Consent → Dict ActiveGrant → Dict ActiveGrant
add_consents name_of [] grants = grants
add_consents name_of (row ∷ rows) grants =
    add_consents name_of rows (put row.client_id (grant_of_consent name_of row) grants)

-- The loop over the tokens
unfoldable pub add_tokens :
    (Text → Option Text) → List RefreshToken → Dict ActiveGrant → Dict ActiveGrant
add_tokens name_of [] grants = grants
add_tokens name_of (row ∷ rows) grants =
    add_tokens name_of rows
      (put row.client_id (next_grant name_of row (find row.client_id grants)) grants)

-- `grants` after both loops
unfoldable pub grants_of : (Text → Option Text) → Text → ℕ → Tables → Dict ActiveGrant
grants_of name_of user_id now tables =
    add_tokens name_of (keep (is_live_token user_id now) tables.refresh)
      (add_consents name_of (keep (is_users_consent user_id) tables.consents) [])

unfoldable pub insert_grant : ActiveGrant → List ActiveGrant → List ActiveGrant
insert_grant g [] = g ∷ []
insert_grant g (h ∷ hs) =
    if leb h.connected_at g.connected_at then g ∷ h ∷ hs else h ∷ insert_grant g hs

-- The stable sort by `connectedAt`, the latest first
unfoldable pub sort_grants : List ActiveGrant → List ActiveGrant
unfolding insert_grant
sort_grants [] = []
sort_grants (g ∷ gs) = insert_grant g (sort_grants gs)

-- `activeGrantsFor`
unfoldable pub active_grants_for : (Text → Option Text) → Text → ℕ → Tables → List ActiveGrant
active_grants_for name_of user_id now tables =
    sort_grants (map (λ e. e.1) (grants_of name_of user_id now tables))

-- The order of `sort` on texts: by code units
unfoldable pub text_leb : Text → Text → Bool
text_leb [] t = true
text_leb (c ∷ s) [] = false
text_leb (c ∷ s) (d ∷ t) = let rest = text_leb s t in if ltb c d then true else nat_eq c d && rest

unfoldable pub insert_name : Text → List Text → List Text
insert_name n [] = n ∷ []
insert_name n (m ∷ ms) = if text_leb n m then n ∷ m ∷ ms else m ∷ insert_name n ms

-- `[...names].sort()`
unfoldable pub sort_names : List Text → List Text
unfolding insert_name
sort_names [] = []
sort_names (n ∷ ns) = insert_name n (sort_names ns)

-- The loop over the rows
unfoldable pub names_by_session :
    (Text → Option Text) → List RefreshToken → Dict (List Text) → Dict (List Text)
names_by_session name_of [] by_session = by_session
names_by_session name_of (row ∷ rows) by_session =
    let name = or_else (name_of row.client_id) row.client_id in
    names_by_session name_of rows (elim (row.session_id) [
      | none ↦ by_session
      | some session ↦
          put session (add_scope (or_else (find session by_session) []) name) by_session
    ])

-- `liveTokenClientsBySession`
unfoldable pub live_token_clients_by_session :
    (Text → Option Text) → Text → ℕ → Tables → Dict (List Text)
live_token_clients_by_session name_of user_id now tables =
    map (λ e. (e.0, sort_names e.1))
      (names_by_session name_of (keep (is_live_token user_id now) tables.refresh) [])
