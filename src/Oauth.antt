-- ===== src/Oauth.antt =====
-- The tables of the OAuth provider, as far as the program reads and writes them: `oauthAccessToken`,
-- `oauthRefreshToken`, `oauthConsent` and `session` of apps/web/src/server/db/schema/auth-schema.ts.
-- Times are milliseconds.
pub mod Revoke
pub mod Grants
use semantius_idp.Prelude.{ℕ, Text, Option, List}

pub record AccessToken : Type 0 where
  pub id : Text
  pub client_id : Text
  pub session_id : Option Text
  pub user_id : Option Text

pub record RefreshToken : Type 0 where
  pub id : Text
  pub client_id : Text
  pub session_id : Option Text
  pub user_id : Text
  pub scopes : List Text
  pub created_at : ℕ
  pub expires_at : ℕ
  pub auth_time : Option ℕ
  pub revoked : Option ℕ

pub record Consent : Type 0 where
  pub client_id : Text
  pub user_id : Option Text
  pub scopes : List Text
  pub created_at : ℕ

pub record Session : Type 0 where
  pub id : Text
  pub user_id : Text

-- The tables
pub record Tables : Type 0 where
  pub access : List AccessToken
  pub refresh : List RefreshToken
  pub consents : List Consent
  pub sessions : List Session
