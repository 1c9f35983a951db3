-- ===== src/Issuer.antt =====
-- The issuer that a request is answered with: apps/web/src/server/oidc/request-issuer.ts, and
-- `normalizeHost` of apps/web/src/server/http/request-origin.ts.
pub mod Laws
pub mod Origin
use semantius_idp.Prelude.{
  Text, String, codes, text_eq, has_char, is_empty, any, all, length, ltb, leb, nat_eq, cut_at,
  split_on, trim, Bool, true, false, not, ◌&&◌, ◌||◌, Option, none, some, or_option, if◌then◌else◌,
  List, [], ◌∷◌, ◌++◌,
}
use semantius_idp.Net.Address.{is_digit}
use semantius_idp.Net.ClientIp.{TrustProxy, never, always, ranges}

-- What the platform provides: `new URL(text).host`, if the text is a URL, and `toLowerCase`.
pub record Platform : Type 0 where
  pub url_host : Text → Option Text
  pub lower : Text → Text

-- `BasePathInfo`
pub record Base : Type 0 where
  pub origin : Text
  pub base_path : Text
  pub dynamic_issuer : Bool
  pub secure : Bool

-- What the issuer reads of a request.
pub record Inbound : Type 0 where
  pub forwarded_host : Option Text
  pub host : Option Text
  pub url : Text

-- `s.endsWith(t)`
unfoldable pub ends_with : Text → Text → Bool
ends_with [] t = text_eq [] t
ends_with (c ∷ s) t = text_eq (c ∷ s) t || ends_with s t

-- `(?::(\d{1,5}))?$`: `none` where the rest does not match.
unfoldable pub port_suffix : Text → Option (Option Text)
port_suffix [] = some none
port_suffix (c ∷ ds) =
    if nat_eq c b':' && not (is_empty ds) && leb (length ds) 5 && all is_digit ds
    then some (some ds)
    else none

abbrev with_port : Text → Option (Option Text) → Option (Text × Option Text)
with_port host none = none
with_port host (some port) = some (host, port)

-- `\[[^\]]*\]`, then the port
bracketed : Text → Option (Text × Option Text)
unfolding port_suffix
bracketed [] = none
bracketed (c ∷ s) =
    if nat_eq c b'['
    then elim (cut_at b']' s) [
      | none ↦ none
      | some (inside, rest) ↦ with_port (b'[' ∷ (inside ++ b']' ∷ [])) (port_suffix rest)
    ]
    else none

abbrev plain_parts : Text → Option (Text × Text) → Text × Text
plain_parts s none = (s, [])
plain_parts s (some (before, after)) = (before, b':' ∷ after)

-- `[^:]+`, then the port
unbracketed : Text → Option (Text × Option Text)
unfolding port_suffix
unbracketed s =
    let (before, rest) = plain_parts s (cut_at b':' s) in
    if is_empty before then none else with_port before (port_suffix rest)

abbrev or_whole : Text → Option (Text × Option Text) → Text × Option Text
or_whole s none = (s, none)
or_whole s (some p) = p

-- `splitHostPort`
unfoldable pub split_host_port : Text → Text × Option Text
unfolding bracketed unbracketed
split_host_port s = or_whole s (or_option (bracketed s) (unbracketed s))

-- `patternPort !== undefined && patternPort !== port`, denied
abbrev pub port_fits : Option Text → Option Text → Bool
port_fits none port = true
port_fits (some p) none = false
port_fits (some p) (some q) = text_eq p q

-- The pattern against the host's name
unfoldable pub name_fits : Text → Text → Bool
unfolding ends_with
name_fits hostname (a ∷ b ∷ domain) =
    if nat_eq a b'*' && nat_eq b b'.'
    then ltb (length (b ∷ domain)) (length hostname) && ends_with hostname (b ∷ domain)
    else text_eq hostname (a ∷ b ∷ domain)
name_fits hostname pattern = text_eq hostname pattern

module _ (platform : Platform) where
  open platform use {url_host, lower}

  entry_fits : Text × Option Text → Text × Option Text → Bool
  unfolding name_fits
  entry_fits (hostname, port) (pattern, pattern_port) =
      port_fits pattern_port port && name_fits hostname pattern

  -- `hostAllowed`
  unfoldable pub host_allowed : Text → Option (List Text) → Bool
  unfolding entry_fits split_host_port
  host_allowed host none = true
  host_allowed host (some allowed) =
      any (λ entry. entry_fits (split_host_port (lower host)) (split_host_port (lower entry)))
        allowed

  abbrev same_host : Text → Option Text → Option Text
  same_host candidate none = none
  same_host candidate (some host) = if text_eq host candidate then some candidate else none

  -- The checks of `normalizeHost` on the candidate
  check_host : Text → Option Text
  check_host [] = none
  check_host (c ∷ s) =
      if has_char b'*' (c ∷ s) || has_char b'?' (c ∷ s)
      then none
      else same_host (c ∷ s) (url_host (codes "https://" ++ (c ∷ s)))

  -- `normalizeHost`
  unfoldable pub normalize_host : Option Text → Option Text
  unfolding check_host
  normalize_host none = none
  normalize_host (some []) = none
  normalize_host (some (c ∷ s)) = check_host (lower (trim (c ∷ s)))

  abbrev first_piece : List Text → Option Text
  first_piece [] = none
  first_piece (p ∷ ps) = some p

  -- `headers.get("x-forwarded-host")?.split(",")[0]`
  abbrev leftmost : Option Text → Option Text
  leftmost none = none
  leftmost (some s) = first_piece (split_on b',' s)

  abbrev forwarded : TrustProxy → Option Text → Option Text
  forwarded never h = none
  forwarded always h = normalize_host (leftmost h)
  forwarded (ranges rs) h = normalize_host (leftmost h)

  -- The host candidates, in their order
  unfoldable pub request_host : TrustProxy → Inbound → Option Text
  request_host trust request =
      or_option (forwarded trust request.forwarded_host)
        (or_option (normalize_host request.host) (normalize_host (url_host request.url)))

  abbrev pub boot_issuer : Base → Text
  boot_issuer base = base.origin ++ base.base_path

  abbrev pub scheme : Base → Text
  scheme base = if base.secure then codes "https" else codes "http"

  abbrev pub host_issuer : Base → Text → Text
  host_issuer base host = scheme base ++ (codes "://" ++ (host ++ base.base_path))

  -- `resolveRequestIssuer`
  unfoldable pub resolve_request_issuer : Base → TrustProxy → Option (List Text) → Inbound → Text
  unfolding request_host
  resolve_request_issuer base trust allowed request =
      if not base.dynamic_issuer then boot_issuer base else elim (request_host trust request) [
        | none ↦ boot_issuer base
        | some host ↦
            if not (host_allowed host allowed) then boot_issuer base else host_issuer base host
      ]
