-- ===== src/Oauth/Revoke.antt =====
-- Revoking tokens: apps/web/src/server/oidc/revoke-user-tokens.ts.
pub mod Laws
pub mod Others
use semantius_idp.Prelude.{
  Bool, List, Option, String, Text, [], codes, false, filled, if◌then◌else◌, is_none, keep, length,
  map, nat_eq, none, not, some, suc, text_eq, true, zero, ℕ, ◌&&◌, ◌+◌, ◌∷◌, arith,
}
use semantius_idp.Oauth.{AccessToken, RefreshToken, Session, Tables}

-- `RevokeResult`
pub record RevokeResult : Type 0 where
  pub access_tokens : ℕ
  pub refresh_tokens : ℕ

pub data Scope : Type 0 where
  user session client : Scope

-- The audit row `token.revoked`
pub record Event : Type 0 where
  pub user_id : Option Text
  pub reason : Text
  pub scope : Scope
  pub session_id : Option Text
  pub client_id : Option Text
  pub result : RevokeResult

-- The tables and the audit trail, the newest row first
pub record Store : Type 0 where
  pub tables : Tables
  pub trail : List Event

abbrev pub is_unrevoked : RefreshToken → Bool
is_unrevoked t = is_none t.revoked

abbrev pub revoked_at : ℕ → RefreshToken → RefreshToken
revoked_at now t = record {
  id = t.id;
  client_id = t.client_id;
  session_id = t.session_id;
  user_id = t.user_id;
  scopes = t.scopes;
  created_at = t.created_at;
  expires_at = t.expires_at;
  auth_time = t.auth_time;
  revoked = some now;
}

abbrev pub revoked_if : ℕ → (RefreshToken → Bool) → RefreshToken → RefreshToken
revoked_if now p t = if p t && is_unrevoked t then revoked_at now t else t

-- `revoke`: the tables afterwards
unfoldable pub revoke : ℕ → (AccessToken → Bool) → (RefreshToken → Bool) → Tables → Tables
revoke now access_where refresh_where tables = record {
  access = keep (λ a. not (access_where a)) tables.access;
  refresh = map (revoked_if now refresh_where) tables.refresh;
  consents = tables.consents;
  sessions = tables.sessions;
}

-- `revoke`: the rows that the two statements return
unfoldable pub revoked_rows : (AccessToken → Bool) → (RefreshToken → Bool) → Tables → RevokeResult
revoked_rows access_where refresh_where tables = record {
  access_tokens = length (keep access_where tables.access);
  refresh_tokens = length (keep (λ t. refresh_where t && is_unrevoked t) tables.refresh);
}

-- `record`: no row where nothing was revoked
unfoldable pub record_event : Event → List Event → List Event
record_event event trail =
    if nat_eq event.result.access_tokens 0 && nat_eq event.result.refresh_tokens 0
    then trail
    else event ∷ trail

abbrev pub is_for : Option Text → Text → Bool
is_for none user_id = false
is_for (some u) user_id = text_eq u user_id

abbrev pub user_access : Text → AccessToken → Bool
user_access user_id a = is_for a.user_id user_id

abbrev pub user_refresh : Text → RefreshToken → Bool
user_refresh user_id t = text_eq t.user_id user_id

-- `revokeAllForUser`
unfoldable pub revoke_all_for_user : ℕ → Text → Text → Store → Store × RevokeResult
revoke_all_for_user now user_id reason store =
    let result = revoked_rows (user_access user_id) (user_refresh user_id) store.tables in
    (
      record {
        tables = revoke now (user_access user_id) (user_refresh user_id) store.tables;
        trail =
            record_event
              (record {
                user_id = some user_id;
                reason = reason;
                scope = user;
                session_id = none;
                client_id = none;
                result = result;
              })
              store.trail;
      },
      result,
    )

abbrev pub of_user : Option Text → Bool → Bool
of_user none is_users = true
of_user (some u) is_users = is_users

abbrev pub asked_user : Option Text → Text
asked_user none = []
asked_user (some u) = u

abbrev pub session_access : Text → Option Text → AccessToken → Bool
session_access session_id user_id a =
    is_for a.session_id session_id && of_user (filled user_id) (user_access (asked_user user_id) a)

abbrev pub session_refresh : Text → Option Text → RefreshToken → Bool
session_refresh session_id user_id t =
    is_for t.session_id session_id && of_user (filled user_id) (user_refresh (asked_user user_id) t)

-- `revokeForSession`
unfoldable pub revoke_for_session : ℕ → Text → Option Text → Text → Store → Store × RevokeResult
revoke_for_session now session_id user_id reason store =
    let result =
      revoked_rows (session_access session_id user_id) (session_refresh session_id user_id)
        store.tables in
    (
      record {
        tables =
            revoke now (session_access session_id user_id) (session_refresh session_id user_id)
              store.tables;
        trail =
            record_event
              (record {
                user_id = user_id;
                reason = reason;
                scope = session;
                session_id = some session_id;
                client_id = none;
                result = result;
              })
              store.trail;
      },
      result,
    )

abbrev add_results : RevokeResult → RevokeResult → RevokeResult
add_results a b = record {
  access_tokens = a.access_tokens + b.access_tokens;
  refresh_tokens = a.refresh_tokens + b.refresh_tokens;
}

-- The loop over the other sessions; `clock n` is the time of its pass `n`.
unfoldable pub revoke_sessions :
    (ℕ → ℕ) → ℕ → List Session → Text → Text → Store × RevokeResult → Store × RevokeResult
revoke_sessions clock n [] user_id reason (store, total) = (store, total)
revoke_sessions clock n (row ∷ rows) user_id reason (store, total) =
    let (after, result) = revoke_for_session (clock n) row.id (some user_id) reason store in
    revoke_sessions clock (n + 1) rows user_id reason (after, add_results total result)

abbrev pub is_other_session : Text → Text → Session → Bool
is_other_session user_id current_session_id row =
    text_eq row.user_id user_id && not (text_eq row.id current_session_id)

-- `revokeForOtherSessions`
unfoldable pub revoke_for_other_sessions :
    (ℕ → ℕ) → Text → Text → Text → Store → Store × RevokeResult
revoke_for_other_sessions clock user_id current_session_id reason store =
    revoke_sessions clock 0
      (keep (is_other_session user_id current_session_id) store.tables.sessions) user_id reason
      (store, record { access_tokens = 0; refresh_tokens = 0 })

abbrev pub client_access : Text → Text → AccessToken → Bool
client_access user_id client_id a = user_access user_id a && text_eq a.client_id client_id

abbrev pub client_refresh : Text → Text → RefreshToken → Bool
client_refresh user_id client_id t = user_refresh user_id t && text_eq t.client_id client_id

-- `revokeForClient`
unfoldable pub revoke_for_client : ℕ → Text → Text → Text → Store → Store × RevokeResult
revoke_for_client now user_id client_id reason store =
    let result =
      revoked_rows (client_access user_id client_id) (client_refresh user_id client_id)
        store.tables in
    (
      record {
        tables =
            revoke now (client_access user_id client_id) (client_refresh user_id client_id)
              store.tables;
        trail =
            record_event
              (record {
                user_id = some user_id;
                reason = reason;
                scope = client;
                session_id = none;
                client_id = some client_id;
                result = result;
              })
              store.trail;
      },
      result,
    )
