-- ===== src/Claims.antt =====
-- The user claims of a token: apps/web/src/server/claims/build-claims.ts.
pub mod Laws
use semantius_idp.Prelude.{
  Text, String, codes, text_eq, Option, none, some, if◌then◌else◌, List, [], ◌∷◌,
}
use semantius_idp.Js.{Value, str, as_text, truthy}
use semantius_idp.Roles.{effective_roles}

-- `UserClaimName`
pub data UserClaimName : Type 0 where
  email name given_name family_name roles : UserClaimName

unfoldable pub claim_key : UserClaimName → Text
claim_key email = codes "email"
claim_key name = codes "name"
claim_key given_name = codes "given_name"
claim_key family_name = codes "family_name"
claim_key roles = codes "roles"

-- `ClaimsUser`
pub record ClaimsUser : Type 0 where
  pub mail : Option Value
  pub full_name : Option Value
  pub first_name : Option Value
  pub last_name : Option Value
  pub role : Option Value

-- A claim's value: a static one of the configuration, a text, or the roles.
pub data ClaimValue : Type 0 where
  static : Value → ClaimValue
  plain : Text → ClaimValue
  role_list : List Text → ClaimValue

-- An object as its entries, the later write of a key replacing the earlier in its place.
abbrev pub Claims : Type 0
Claims = List (Text × ClaimValue)

unfoldable pub set_claim : Text → ClaimValue → Claims → Claims
set_claim key v [] = (key, v) ∷ []
set_claim key v ((k, w) ∷ claims) =
    if text_eq k key then (k, v) ∷ claims else (k, w) ∷ set_claim key v claims

unfoldable pub get_claim : Text → Claims → Option ClaimValue
get_claim key [] = none
get_claim key ((k, w) ∷ claims) = if text_eq k key then some w else get_claim key claims

-- `text`, `truthy (as_text v)`; then the claim of it
abbrev pub plain_claim : Option Text → Option ClaimValue
plain_claim none = none
plain_claim (some s) = some (plain s)

-- `IdpConfig`: the static claims, the claims asked for, and the names of the role catalog.
pub record ClaimsConfig : Type 0 where
  pub claims : Claims
  pub user_claims : List UserClaimName
  pub catalog : List Text

-- `valueFor`
unfoldable pub value_for : UserClaimName → ClaimsUser → ClaimsConfig → Option ClaimValue
value_for email user config = plain_claim (truthy (as_text user.mail))
value_for name user config = plain_claim (truthy (as_text user.full_name))
value_for given_name user config = plain_claim (truthy (as_text user.first_name))
value_for family_name user config = plain_claim (truthy (as_text user.last_name))
value_for roles user config =
    some (role_list (effective_roles (truthy (as_text user.role)) config.catalog))

abbrev add_claim : Text → Option ClaimValue → Claims → Claims
add_claim key none claims = claims
add_claim key (some v) claims = set_claim key v claims

-- The loop of `buildUserClaims`
unfoldable pub add_claims : List UserClaimName → ClaimsUser → ClaimsConfig → Claims → Claims
add_claims [] user config claims = claims
add_claims (c ∷ cs) user config claims =
    add_claims cs user config (add_claim (claim_key c) (value_for c user config) claims)

-- `buildUserClaims`
unfoldable pub build_user_claims : Option ClaimsUser → ClaimsConfig → Claims
unfolding add_claims
build_user_claims none config = config.claims
build_user_claims (some user) config = add_claims config.user_claims user config config.claims
