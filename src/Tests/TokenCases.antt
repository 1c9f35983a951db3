-- ===== src/Tests/TokenCases.antt =====
-- Role columns, token claims and issuers.
use semantius_idp.Prelude.{
  Text, codes, text_eq, has_text, cut_at, starts_with, trim, has_char, true, false, Option, none,
  some, List, [], ◌∷◌, ◌≡◌, ◌⊎◌, ◌↔◌, refl, arith, if◌then◌else◌, split_on,
}
use semantius_idp.Js.{str}
use semantius_idp.Roles.{split_roles, join_roles, effective_roles}
use semantius_idp.Roles.Laws.{IsRoleName, split_roles-join_roles}
use semantius_idp.Claims.{
  email, roles, claim_key, ClaimsUser, static, plain, role_list, ClaimsConfig, build_user_claims,
  value_for, set_claim,
}
use semantius_idp.Net.ClientIp.{never}
use semantius_idp.Issuer.{
  Platform, Base, Inbound, resolve_request_issuer, boot_issuer, host_issuer, host_allowed,
  normalize_host, request_host,
}
use semantius_idp.Issuer.Laws.{issuer_cases, IsHost}
use semantius_idp.Issuer.Origin.{
  Post, assert_same_origin, is_foreign_site, is_own_origin, request_origins, origins_of,
}
use semantius_idp.Issuer.Origin.Laws.{assert_same_origin_iff, IsOwnSite, HasOwnOrigin}

abbrev admin_and_dev : List Text
admin_and_dev = codes "admin" ∷ codes "dev" ∷ []

abbrev column : Text
column = codes " admin, dev "

admin_IsRoleName : IsRoleName (codes "admin")
unfolding trim
admin_IsRoleName = record { filled = λ e. cc; trimmed = refl; whole = ground arith }

dev_IsRoleName : IsRoleName (codes "dev")
unfolding trim
dev_IsRoleName = record { filled = λ e. cc; trimmed = refl; whole = ground arith }

split_roles-join_roles_example : split_roles (some (join_roles admin_and_dev)) ≡ admin_and_dev
split_roles-join_roles_example =
    split_roles-join_roles admin_and_dev (admin_IsRoleName, (dev_IsRoleName, tt))

column_roles : split_roles (some column) ≡ admin_and_dev
unfolding split_roles split_on trim
column_roles = refl

abbrev ada : ClaimsUser
ada = record {
  mail = some (str (codes "ada@example.com"));
  full_name = none;
  first_name = none;
  last_name = none;
  role = some (str column);
}

abbrev asking : ClaimsConfig
asking = record {
  claims = (codes "tenant", static (str (codes "acme"))) ∷ [];
  user_claims = email ∷ roles ∷ [];
  catalog = codes "dev" ∷ [];
}

ada_claims :
    build_user_claims (some ada) asking
    ≡ (codes "tenant", static (str (codes "acme")))
      ∷ (codes "email", plain (codes "ada@example.com"))
      ∷ (codes "roles", role_list (codes "dev" ∷ []))
      ∷ []
unfolding build_user_claims value_for set_claim text_eq claim_key effective_roles has_text split_on
    trim
ada_claims = refl

abbrev after_scheme : Text → Text
after_scheme (_ ∷ _ ∷ _ ∷ _ ∷ _ ∷ _ ∷ _ ∷ _ ∷ s) = s
after_scheme s = s

-- A parser that takes every text as a host, or what follows `https://`.
abbrev platform : Platform
platform = record {
  url_host = λ s. if starts_with s (codes "https://") then some (after_scheme s) else none;
  lower = λ s. s;
}

abbrev base : Base
base = record {
  origin = codes "https://idp.example";
  base_path = codes "/auth";
  dynamic_issuer = true;
  secure = true;
}

abbrev inbound : Inbound
inbound = record {
  forwarded_host = some (codes "evil.example");
  host = some (codes "eu.acme.dev");
  url = codes "http://x/";
}

abbrev allowed : Option (List Text)
allowed = some (codes "*.acme.dev" ∷ [])

tenant_issuer :
    resolve_request_issuer platform base never allowed inbound ≡ codes "https://eu.acme.dev/auth"
unfolding resolve_request_issuer normalize_host host_allowed trim has_char starts_with text_eq
    cut_at
tenant_issuer = refl

issuer_cases_example :
    (((host : Text)
        → base.dynamic_issuer ≡ true
        → request_host platform never inbound ≡ some host
        → host_allowed platform host allowed ≡ false)
      × (resolve_request_issuer platform base never allowed inbound ≡ boot_issuer platform base))
    ⊎ ((host : Text) × (base.dynamic_issuer ≡ true)
        × IsHost platform host
        × (host_allowed platform host allowed ≡ true)
        × (resolve_request_issuer platform base never allowed inbound
            ≡ host_issuer platform base host))
issuer_cases_example = issuer_cases platform base never allowed inbound

-- A page of a sibling subdomain, in a browser that sends no `Sec-Fetch-Site`
abbrev sibling : Post
sibling = record {
  fetch_site = none;
  origin = some (codes "https://apps.acme.dev");
  arrival = record {
    forwarded_host = none;
    host = some (codes "eu.acme.dev");
    url = codes "http://x/";
  };
}

sibling_refused : assert_same_origin platform sibling ≡ false
unfolding assert_same_origin is_foreign_site is_own_origin request_origins origins_of normalize_host
    trim has_char starts_with text_eq has_text
sibling_refused = refl

assert_same_origin_iff_example :
    (assert_same_origin platform sibling ≡ true)
    ↔ (IsOwnSite sibling.fetch_site × HasOwnOrigin platform sibling.arrival sibling.origin)
assert_same_origin_iff_example = assert_same_origin_iff platform sibling
