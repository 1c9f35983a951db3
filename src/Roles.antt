-- ===== src/Roles.antt =====
-- apps/web/src/server/role-utils.ts: the comma-separated role column.
pub mod Laws
use semantius_idp.Prelude.{
  Text, has_text, trim, split_on, join_with, keep, any, is_empty, not, Bool, Option, none, some,
  List, [], ◌∷◌, map,
}

abbrev pub nonblank : Text → Bool
nonblank s = not (is_empty s)

-- `splitRoles`; `null` and `undefined` are `none`, and the empty string is falsy.
unfoldable pub split_roles : Option Text → List Text
split_roles none = []
split_roles (some []) = []
split_roles (some (c ∷ s)) = keep nonblank (map trim (split_on b',' (c ∷ s)))

-- `joinRoles`
unfoldable pub join_roles : List Text → Text
join_roles roles = join_with (b',' ∷ []) (keep nonblank (map trim roles))

-- `effectiveRoles`, over the names of the catalog
unfoldable pub effective_roles : Option Text → List Text → List Text
unfolding split_roles
effective_roles stored catalog = keep (has_text (split_roles stored)) catalog

-- `isAdmin`
unfoldable pub is_admin : Option Text → List Text → Bool
unfolding split_roles
is_admin stored admin_roles = any (has_text (split_roles stored)) admin_roles
