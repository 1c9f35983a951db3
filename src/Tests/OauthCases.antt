-- ===== src/Tests/OauthCases.antt =====
-- Revoked tokens and the list of connected applications.
use semantius_idp.Prelude.{
  In, Option, Text, [], codes, find, inl, map, none, put, refl, some, text_eq, true, ◌+◌, ◌↔◌, ◌∷◌,
  ◌≡◌, ◌≢◌, ◌⊎◌,
}
use semantius_idp.Oauth.{AccessToken, RefreshToken, Consent, Tables}
use semantius_idp.Oauth.Revoke.{
  Store, revoke_for_other_sessions, revoke_all_for_user, revoke, revoke_sessions,
  revoke_for_session, revoked_rows,
}
use semantius_idp.Oauth.Revoke.Others.{OnOther, others_cut}
use semantius_idp.Oauth.Grants.{
  ActiveGrant, active_grants_for, grants_of, sort_grants, add_tokens, add_consents, is_live_token,
}
use semantius_idp.Oauth.Grants.Listed.{live_tokens, HasConsent, IsGrant}
use semantius_idp.Oauth.Grants.Sorted.{IsLatestFirst, AreDistinct}
use semantius_idp.Oauth.Grants.Exact.{grants_exact}

abbrev ada : Text
ada = codes "ada"

-- A token of the application, from one of the two sessions
abbrev issued : Text → Text → RefreshToken
issued id session = record {
  id = id;
  client_id = codes "shop";
  session_id = some session;
  user_id = ada;
  scopes = codes "openid" ∷ [];
  created_at = 10;
  expires_at = 100;
  auth_time = some 5;
  revoked = none;
}

abbrev opaque_token : AccessToken
opaque_token = record {
  id = codes "a";
  client_id = codes "shop";
  session_id = some (codes "phone");
  user_id = some ada;
}

abbrev agreed : Consent
agreed = record {
  client_id = codes "mail";
  user_id = some ada;
  scopes = codes "email" ∷ [];
  created_at = 7;
}

abbrev tables : Tables
tables = record {
  access = opaque_token ∷ [];
  refresh = issued (codes "1") (codes "phone") ∷ issued (codes "2") (codes "laptop") ∷ [];
  consents = agreed ∷ [];
  sessions =
      record { id = codes "phone"; user_id = ada }
      ∷ record { id = codes "laptop"; user_id = ada }
      ∷ [];
}

abbrev store : Store
store = record { tables = tables; trail = [] }

abbrev no_name : Text → Option Text
no_name client = none

-- The token of the phone and its access token are cut, the laptop's is kept.
cut_phone :
    (revoke_for_other_sessions (λ n. 50 + n) ada (codes "laptop") (codes "user") store).1
    ≡ record { access_tokens = 1; refresh_tokens = 1 }
unfolding revoke_for_other_sessions revoke_sessions text_eq revoke_for_session revoked_rows
cut_phone = refl

listed : map (λ g. g.active_tokens) (active_grants_for no_name ada 50 tables) ≡ 0 ∷ 2 ∷ []
unfolding active_grants_for sort_grants grants_of add_tokens is_live_token text_eq add_consents put
    find
listed = refl

others_cut_example :
    ((a : AccessToken)
      → In a
          (revoke_for_other_sessions
            (λ n. 50 + n)
            ada
            (codes "laptop")
            (codes "user")
            store).0.tables.access
        ↔ (In a tables.access
            × ¬ (
                (a.user_id ≡ some ada)
                × OnOther ada (codes "laptop") tables.sessions a.session_id)))
    × ((t : RefreshToken)
        → t.revoked ≡ none
        → In t
            (revoke_for_other_sessions
              (λ n. 50 + n)
              ada
              (codes "laptop")
              (codes "user")
              store).0.tables.refresh
          ↔ (In t tables.refresh
              × ¬ ((t.user_id ≡ ada) × OnOther ada (codes "laptop") tables.sessions t.session_id)))
others_cut_example = others_cut (λ n. 50 + n) ada (codes "laptop") (codes "user") store (λ e. cc e)

grants_exact_example :
    ((g : ActiveGrant)
      → In g (active_grants_for no_name ada 50 tables)
      → IsGrant ada tables (live_tokens ada 50 tables g.client_id) g.client_id g)
    × ((k : Text)
        → HasConsent ada tables k ⊎ (live_tokens ada 50 tables k ≢ [])
        → (g : ActiveGrant) × In g (active_grants_for no_name ada 50 tables) × (g.client_id ≡ k))
    × IsLatestFirst (active_grants_for no_name ada 50 tables)
    × AreDistinct (active_grants_for no_name ada 50 tables)
grants_exact_example = grants_exact no_name ada 50 tables

abbrev mail_grant : ActiveGrant
mail_grant = record {
  client_id = codes "mail";
  client_name = codes "mail";
  scopes = codes "email" ∷ [];
  connected_at = 7;
  has_consent = true;
  active_tokens = 0;
}

-- Once all tokens are revoked, an application with a consent is listed without a live token.
mail_listed :
    In mail_grant
      (active_grants_for no_name ada 80 (revoke_all_for_user 60 ada (codes "reset") store).0.tables)
unfolding active_grants_for revoke_all_for_user sort_grants grants_of add_tokens revoke
    is_live_token text_eq add_consents put
mail_listed = inl refl
