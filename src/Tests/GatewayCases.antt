-- ===== src/Tests/GatewayCases.antt =====
-- Targets of gateways.
use semantius_idp.Prelude.{
  Option, Text, [], codes, cut_at, false, find, has_char, has_text, if◌then◌else◌, inl, none, refl,
  some, split_on, starts_with, text_eq, trim, true, ◌∷◌, ◌≡◌,
}
use semantius_idp.Net.Address.{v4_bytes, split_double, hextet, hex_value, groups_of, to_hex}
use semantius_idp.Net.ClientIp.{never}
use semantius_idp.Gateway.Tokens.{bearer}
use semantius_idp.Gateway.Headers.{
  Headers, relayed_headers, apply_forwarded_headers, set_header, wants_upgrade, connection_tokens,
  is_relayed, is_forwarding_header, response_headers, is_returned, is_denied_response_header,
}
use semantius_idp.Gateway.Headers.Laws.{is_withheld}
use semantius_idp.Gateway.Headers.Response.{caller_header_lem}
use semantius_idp.Gateway.Proxy.{
  GatewayRow, Inbound, Surroundings, send, proxy_gateway_request, resolve_target,
  has_address_problem, translate_auth, is_address_literal, ends_with,
}
use semantius_idp.Gateway.Proxy.Laws.{IsGuarded, sent-IsGuarded}
use semantius_idp.Gateway.Proxy.Sent.{secrets_withheld}
use semantius_idp.Gateway.{
  Url, GatewayFormValues, ends_with_slash, is_valid_gateway_name, validate_gateway_form,
}
use semantius_idp.Gateway.Laws.{validate_gateway_form_iff, IsTarget}
use semantius_idp.Gateway.Address.{
  is_link_local_address, parse_ipv4, parse_ipv6, quad_of, small_number,
}

abbrev same : Text → Text
same s = s

-- What a URL parser answers for one target.
abbrev upstream : Url
upstream = record {
  protocol = codes "http:";
  username = [];
  password = [];
  hostname = codes "10.0.0.7";
  host = codes "10.0.0.7";
  href = codes "http://10.0.0.7/";
  origin = codes "http://10.0.0.7";
  search = [];
  hash = [];
}

abbrev parse_url : Text → Option Url
parse_url value = if text_eq value (codes "http://10.0.0.7") then some upstream else none

upstream-IsTarget : IsTarget parse_url same (codes "http://10.0.0.7") upstream
unfolding is_link_local_address parse_ipv4 quad_of small_number split_on has_char ends_with_slash
upstream-IsTarget = record {
  web = inl refl;
  no_user = refl;
  no_password = refl;
  routable = refl;
  no_search = refl;
  no_question = refl;
  no_hash = refl;
  no_number_sign = refl;
  no_slash = refl;
}

-- What an administrator types
abbrev typed : GatewayFormValues
typed = record {
  name = codes "reports";
  url = codes " http://10.0.0.7";
  audience = some (codes " ");
}

validate_gateway_form_iff_example :
    ((validate_gateway_form parse_url same typed).name ≡ none)
    × ((validate_gateway_form parse_url same typed).url ≡ none)
    × ((validate_gateway_form parse_url same typed).audience ≡ none)
unfolding is_valid_gateway_name trim text_eq
validate_gateway_form_iff_example =
    (validate_gateway_form_iff parse_url same typed).1
      (refl, λ e. cc e, (upstream, refl, upstream-IsTarget), inl refl)

metadata_refused : is_link_local_address same (codes "[::ffff:a9fe:a9fe]") ≡ true
unfolding is_link_local_address parse_ipv4 quad_of small_number split_on trim cut_at parse_ipv6
    has_char split_double hextet hex_value groups_of to_hex
metadata_refused = refl

metadata_bytes : v4_bytes (codes "169.254.169.254") ≡ some (169 ∷ 254 ∷ 169 ∷ 254 ∷ [])
unfolding v4_bytes split_on
metadata_bytes = refl

-- An upstream at an address, and whatever token the credential is exchanged for.
abbrev below : Url
below = record {
  protocol = codes "http:";
  username = [];
  password = [];
  hostname = codes "10.0.0.7";
  host = codes "10.0.0.7";
  href = codes "http://10.0.0.7/items";
  origin = codes "http://10.0.0.7";
  search = [];
  hash = [];
}

abbrev parse_both : Text → Option Url
parse_both value =
    if text_eq value (codes "http://10.0.0.7/items") then some below else parse_url value

abbrev pub surroundings : Surroundings
surroundings = record {
  parse_url = parse_both;
  lower = same;
  exceeds = λ value limit. false;
  resolve = λ name. none;
  exchange = λ credential scope. some (bearer (codes "jwt"));
}

-- A request with a key and a cookie, which claims another address.
abbrev pub inbound : Inbound
inbound = record {
  headers =
      (codes "accept", codes "*/*")
      ∷ (codes "cookie", codes "idp.session_token=s")
      ∷ (codes "x-api-key", codes "idp_k")
      ∷ (codes "x-forwarded-for", codes "1.2.3.4")
      ∷ [];
  url = below;
  client_ip = some (codes "9.9.9.9");
}

abbrev gateway : GatewayRow
gateway = record {
  name = codes "data";
  url = codes "http://10.0.0.7";
  require_auth = true;
  audience = none;
  enabled = true;
}

abbrev sent_headers : Headers
sent_headers =
    (codes "accept", codes "*/*")
    ∷ (codes "authorization", codes "Bearer jwt")
    ∷ (codes "x-forwarded-for", codes "9.9.9.9")
    ∷ (codes "x-forwarded-host", codes "10.0.0.7")
    ∷ (codes "x-forwarded-proto", codes "http")
    ∷ []

call_made :
    proxy_gateway_request surroundings never 1000 (some gateway) inbound (codes "items")
    ≡ send (codes "http://10.0.0.7/items") sent_headers
unfolding proxy_gateway_request resolve_target has_address_problem translate_auth relayed_headers
    apply_forwarded_headers set_header wants_upgrade connection_tokens is_relayed
    is_forwarding_header find text_eq has_text starts_with is_link_local_address parse_ipv4 quad_of
    small_number split_on has_char is_address_literal ends_with cut_at
call_made = refl

sent-IsGuarded_example :
    IsGuarded surroundings never 1000
      (some gateway)
      inbound
      (codes "items")
      (codes "http://10.0.0.7/items")
      sent_headers
sent-IsGuarded_example =
    sent-IsGuarded surroundings never 1000 inbound (codes "items") (some gateway)
      (codes "http://10.0.0.7/items") sent_headers call_made

target_resolved :
    resolve_target surroundings (codes "http://10.0.0.7") (codes "items") []
    ≡ some (codes "http://10.0.0.7/items")
unfolding resolve_target text_eq starts_with ends_with
target_resolved = refl

-- A parser that takes every text for a URL without query and fragment
abbrev taken : Text → Url
taken value = record {
  protocol = codes "http:";
  username = [];
  password = [];
  hostname = codes "10.0.0.7";
  host = codes "10.0.0.7";
  href = value;
  origin = codes "http://10.0.0.7";
  search = [];
  hash = [];
}

abbrev parse_any : Text → Option Url
parse_any value = some (taken value)

abbrev elsewhere : Surroundings
elsewhere = record {
  parse_url = parse_any;
  lower = same;
  exceeds = λ value limit. false;
  resolve = λ name. none;
  exchange = λ credential scope. none;
}

-- A path that leaves the gateway's by a longer last segment is refused.
abbrev climbed : Text → Option Url
climbed value = some (
    taken
      (if text_eq value (codes "http://h/v1/../v1-evil") then codes "http://h/v1-evil" else value))

climb_refused :
    resolve_target
      (record {
        parse_url = climbed;
        lower = same;
        exceeds = λ value limit. false;
        resolve = λ name. none;
        exchange = λ credential scope. none;
      })
      (codes "http://h/v1")
      (codes "../v1-evil")
      []
    ≡ none
unfolding resolve_target text_eq starts_with ends_with
climb_refused = refl

secrets_withheld_example :
    ((name : Text) → is_withheld name ≡ true → find name sent_headers ≡ none)
    × (find (codes "x-forwarded-for") sent_headers ≡ some (codes "9.9.9.9"))
secrets_withheld_example =
    secrets_withheld surroundings (λ t h. refl) never 1000 (some gateway) inbound (codes "items")
      (codes "http://10.0.0.7/items") sent_headers call_made

-- An answer that sets a cookie and sends the caller elsewhere
abbrev answer : Headers
answer =
    (codes "content-type", codes "text/html")
    ∷ (codes "location", codes "http://evil.example/")
    ∷ (codes "set-cookie", codes "a=b")
    ∷ []

-- A redirect to another origin is not passed on.
location_withheld :
    find (codes "location") (response_headers same (λ location. false) answer) ≡ none
unfolding text_eq is_returned has_text connection_tokens find is_denied_response_header starts_with
location_withheld = caller_header_lem same (λ location. false) answer (codes "location")
