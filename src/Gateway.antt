-- ===== src/Gateway.antt =====
-- What a gateway of the API may be: apps/web/src/lib/gateway-rules.ts.
pub mod Address
pub mod Laws
pub mod Tokens
pub mod Headers
pub mod Proxy
pub mod Reconcile
pub mod Registry
use semantius_idp.Prelude.{
  or_else, trim, ◌++◌, ℕ, ◌-◌, Text, String, codes, text_eq, has_char, is_empty, is_space, leb,
  nat_eq, all, any, length, Bool, false, not, ◌&&◌, ◌||◌, Option, none, some, if◌then◌else◌, [],
  ◌∷◌,
}
use semantius_idp.Net.Address.{is_digit}
use semantius_idp.Gateway.Address.{is_link_local_address}

-- `new URL(value)`
pub record Url : Type 0 where
  pub protocol : Text
  pub username : Text
  pub password : Text
  pub hostname : Text
  pub host : Text
  pub href : Text
  pub origin : Text
  pub search : Text
  pub hash : Text

abbrev is_name_start : ℕ → Bool
is_name_start c = (leb b'a' c && leb c b'z') || is_digit c

abbrev is_name_unit : ℕ → Bool
is_name_unit c = is_name_start c || nat_eq c b'_' || nat_eq c b'-'

-- `isValidGatewayName`
unfoldable pub is_valid_gateway_name : Text → Bool
is_valid_gateway_name [] = false
is_valid_gateway_name (c ∷ s) = is_name_start c && leb (length s) 63 && all is_name_unit s

-- `GatewayUrlProblem`
pub data GatewayUrlProblem : Type 0 where
  not_absolute scheme trailing_slash query fragment credentials link_local : GatewayUrlProblem

-- `value.endsWith("/")`
unfoldable pub ends_with_slash : Text → Bool
ends_with_slash [] = false
ends_with_slash (c ∷ []) = nat_eq c b'/'
ends_with_slash (c ∷ d ∷ s) = ends_with_slash (d ∷ s)

-- `GatewayResourceProblem`
pub data GatewayResourceProblem : Type 0 where
  not_uri has_fragment : GatewayResourceProblem

-- `problem`, as the form's messages spell it
abbrev pub url_problem_text : GatewayUrlProblem → Text
url_problem_text not_absolute = codes "not_absolute"
url_problem_text scheme = codes "scheme"
url_problem_text trailing_slash = codes "trailing_slash"
url_problem_text query = codes "query"
url_problem_text fragment = codes "fragment"
url_problem_text credentials = codes "credentials"
url_problem_text link_local = codes "link_local"

abbrev pub resource_problem_text : GatewayResourceProblem → Text
resource_problem_text not_uri = codes "not_uri"
resource_problem_text has_fragment = codes "fragment"

-- `GatewayFormValues`
pub record GatewayFormValues : Type 0 where
  pub name : Text
  pub url : Text
  pub audience : Option Text

-- `GatewayFormErrors`
pub record GatewayFormErrors : Type 0 where
  pub name : Option Text
  pub url : Option Text
  pub audience : Option Text

module _ (parse_url : Text → Option Url) (lower : Text → Text) where
  check_parsed : Text → Url → Option GatewayUrlProblem
  unfolding ends_with_slash
  check_parsed value url =
      if not (text_eq url.protocol (codes "http:")) && not (text_eq url.protocol (codes "https:"))
      then some scheme
      else if not (is_empty url.username) || not (is_empty url.password)
      then some credentials
      else if is_link_local_address lower url.hostname
      then some link_local
      else if not (is_empty url.search) || has_char b'?' value
      then some query
      else if not (is_empty url.hash) || has_char b'#' value
      then some fragment
      else if ends_with_slash value
      then some trailing_slash
      else none

  -- `checkGatewayUrl`
  unfoldable pub check_gateway_url : Text → Option GatewayUrlProblem
  unfolding check_parsed
  check_gateway_url value = elim (parse_url value) [
    | none ↦ some not_absolute
    | some url ↦ check_parsed value url
  ]

  -- `checkGatewayAudience`
  unfoldable pub check_gateway_audience : Text → Option GatewayResourceProblem
  check_gateway_audience value =
      if any is_space value then some not_uri else elim (parse_url value) [
        | none ↦ some not_uri
        | some url ↦
            if not (is_empty url.hash) || has_char b'#' value then some has_fragment else none
      ]

  -- The message for the URL, trimmed
  unfoldable pub url_error : Text → Option Text
  url_error [] = some (codes "required")
  url_error (c ∷ s) = elim (check_gateway_url (c ∷ s)) [
    | none ↦ none
    | some problem ↦ some (codes "url:" ++ (url_problem_text problem ++ (codes ":" ++ (c ∷ s))))
  ]

  -- The message for the audience, trimmed
  unfoldable pub audience_error : Text → Option Text
  audience_error [] = none
  audience_error (c ∷ s) = elim (check_gateway_audience (c ∷ s)) [
    | none ↦ none
    | some problem ↦
        some (codes "audience:" ++ (resource_problem_text problem ++ (codes ":" ++ (c ∷ s))))
  ]

  -- `validateGatewayForm`
  unfoldable pub validate_gateway_form : GatewayFormValues → GatewayFormErrors
  validate_gateway_form values = record {
    name = if not (is_valid_gateway_name values.name) then some (codes "invalid") else none;
    url = url_error (trim values.url);
    audience = audience_error (trim (or_else values.audience []));
  }
