-- ===== src/Refresh.antt =====
-- The absolute lifetime of refresh tokens: apps/web/src/server/oidc/refresh-lifetime.ts. Times are
-- milliseconds; the cutoff stops at 0, before which no row was made.
pub mod Laws
use semantius_idp.Prelude.{
  text_eq, ℕ, ◌-◌, ◌*◌, Text, has_text, ltb, keep, map, length, Bool, false, ◌&&◌, Option, none,
  some, is_none, if◌then◌else◌, List, [], ◌∷◌,
}

-- A row of `oauth_refresh_token`, as far as the sweep reads it
pub record Token : Type 0 where
  pub id : Text
  pub family : Option Text
  pub created_at : ℕ
  pub revoked : Option ℕ

abbrev pub cutoff_of : ℕ → ℕ → ℕ
cutoff_of now max_lifetime = now - max_lifetime * 1000

-- The condition of the first query
abbrev pub is_old : ℕ → Token → Bool
is_old cutoff t = is_none t.revoked && ltb t.created_at cutoff

-- `familyIds`
unfoldable pub family_ids : List Token → List Text
family_ids [] = []
family_ids (t ∷ ts) =
    let rest = family_ids ts in elim (t.family) [ none ↦ rest | some f ↦ f ∷ rest ]

-- The condition of the update
abbrev pub is_hit : List Text → Token → Bool
is_hit ids t = is_none t.revoked && elim (t.family) [ none ↦ false | some f ↦ has_text ids f ]

abbrev pub revoke : ℕ → Token → Token
revoke now t = record {
  id = t.id;
  family = t.family;
  created_at = t.created_at;
  revoked = some now;
}

-- The update and its count; with no family, none is made.
unfoldable pub revoke_families : ℕ → List Text → List Token → List Token × ℕ
revoke_families now [] tokens = (tokens, 0)
revoke_families now (f ∷ fs) tokens = (
  map (λ t. if is_hit (f ∷ fs) t then revoke now t else t) tokens,
  length (keep (is_hit (f ∷ fs)) tokens),
)

-- `revokeExpiredRefreshFamilies`: the table and the number of tokens
unfoldable pub revoke_expired_refresh_families : ℕ → ℕ → List Token → List Token × ℕ
unfolding revoke_families
revoke_expired_refresh_families now max_lifetime tokens =
    revoke_families now (family_ids (keep (is_old (cutoff_of now max_lifetime)) tokens)) tokens

-- `backdateFamily`
unfoldable pub backdate_family : Text → ℕ → List Token → List Token
backdate_family family created_at = map (λ t.
    if elim (t.family) [ none ↦ false | some f ↦ text_eq f family ]
    then record { id = t.id; family = t.family; created_at = created_at; revoked = t.revoked }
    else t)
