-- ===== src/Issuer/Origin.antt =====
-- Whether a post comes from the deployment's own pages: `requestOrigins` and `assertSameOrigin` of
-- apps/web/src/server/http/request-origin.ts.
pub mod Laws
use semantius_idp.Prelude.{
  Bool, Bool-cases, In, List, Option, Option-cases, Text, [], ap, codes, false, has_text,
  if◌then◌else◌, inl, inr, none, not, or_option, refl, some, subst, some_inj, sym, text_eq,
  text_eq_iff, trim, true, ◌&&◌, ◌++◌, ◌↔◌, ◌∙◌, ◌∷◌, ◌≡◌, ◌⊎◌, arith,
}
use semantius_idp.Roles.Laws.{has_text_iff}
use semantius_idp.Issuer.{Platform, Inbound, normalize_host, leftmost}
use semantius_idp.Issuer.Laws.{IsHost, normalize_host-IsHost}

-- What `assertSameOrigin` reads of a request
pub record Post : Type 0 where
  pub fetch_site : Option Text
  pub origin : Option Text
  pub arrival : Inbound

-- `site !== null && site !== "same-origin" && site !== "none"`
unfoldable pub is_foreign_site : Option Text → Bool
is_foreign_site none = false
is_foreign_site (some site) =
    not (text_eq site (codes "same-origin")) && not (text_eq site (codes "none"))

-- `if (host) hosts.add(host)`
abbrev pub add_host : Option Text → List Text → List Text
add_host none hosts = hosts
add_host (some h) hosts = if has_text hosts h then hosts else hosts ++ h ∷ []

-- `hosts.flatMap(…)`
unfoldable pub origins_of : List Text → List Text
origins_of [] = []
origins_of (h ∷ hs) = (codes "https://" ++ h) ∷ (codes "http://" ++ h) ∷ origins_of hs

module _ (platform : Platform) where
  open platform use {url_host, lower}

  abbrev pub forwarded_name : Inbound → Option Text
  forwarded_name request = normalize_host platform (leftmost platform request.forwarded_host)

  abbrev pub direct_name : Inbound → Option Text
  direct_name request =
      or_option (normalize_host platform request.host)
        (normalize_host platform (url_host request.url))

  -- `requestOrigins`
  unfoldable pub request_origins : Option Inbound → List Text
  unfolding origins_of
  request_origins none = []
  request_origins (some request) =
      origins_of (add_host (direct_name request) (add_host (forwarded_name request) []))

  -- The check of `Origin`
  unfoldable pub is_own_origin : Inbound → Option Text → Bool
  is_own_origin request none = true
  is_own_origin request (some o) = has_text (request_origins (some request)) (lower (trim o))

  -- `assertSameOrigin`
  unfoldable pub assert_same_origin : Post → Bool
  assert_same_origin post =
      if is_foreign_site post.fetch_site then false else is_own_origin post.arrival post.origin
