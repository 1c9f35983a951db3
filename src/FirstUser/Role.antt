-- ===== src/FirstUser/Role.antt =====
-- The role of the first user: apps/web/src/server/admin/first-user.ts.
use semantius_idp.Prelude.{
  All, Bool-cases, In, In-append_right, List, Text, inl, inr, refl, some, subst, sym, text_eq,
  text_eq_iff, text_eq_refl, ℕ, ◌∷◌, ◌≡◌, arith,
}
use semantius_idp.Roles.{split_roles}
use semantius_idp.Roles.Laws.{IsRoleName, split_roles-join_roles, is_admin_iff}
use semantius_idp.Admin.{is_usable_admin, is_currently_banned}
use semantius_idp.Admin.LastAdmin.{HasAdmin}
use semantius_idp.Standing.{status_active}
use semantius_idp.FirstUser.{
  NameFormat, FirstUserInput, new_user, first_user_role, row_of, role_set, World, create_user,
}

role_set-In : (a d : Text) → In a (role_set a d) × In d (role_set a d)
role_set-In a d = elim (Bool-cases (text_eq a d)) [
  | inl e ↦ rw e (inl refl, inl ((text_eq_iff a d).0 e))
  | inr e ↦ rw e (inl refl, inr (inl refl))
]

role_set-names : (a d : Text) → IsRoleName a → IsRoleName d → All IsRoleName (role_set a d)
role_set-names a d r s = elim (Bool-cases (text_eq a d)) [
  | inl e ↦ rw e (r, tt)
  | inr e ↦ rw e (r, (s, tt))
]

-- With admin roles configured, and role names that are trimmed, filled and free of commas, the first
-- user is a usable administrator from the moment it is made, and has the default role besides.
pub first_user_administers :
    (lower : Text → Text) (format : NameFormat) (role : Text) (roles : List Text)
    (default_role : Text) (input : FirstUserInput) (id : Text) (now : ℕ) (w : World)
    → IsRoleName role
    → IsRoleName default_role
    → HasAdmin
        (role ∷ roles)
        now
        (create_user id (new_user lower format (role ∷ roles) default_role input) w).users
      × In default_role (split_roles (some (first_user_role (role ∷ roles) default_role)))
unfolding create_user new_user first_user_role is_usable_admin is_currently_banned
first_user_administers lower format role roles default_role input id now w r d = (
  (
    row_of id (new_user lower format (role ∷ roles) default_role input),
    In-append_right _ w.users _ (inl refl),
    ground (
      arith,
      text_eq_refl status_active,
      (is_admin_iff (some (first_user_role (role ∷ roles) default_role)) (role ∷ roles)).1
          (role, inl refl, subst (In role) (sym columns) (role_set-In role default_role).0),
    ),
  ),
  subst (In default_role) (sym columns) (role_set-In role default_role).1,
)
  where
    columns :
        split_roles (some (first_user_role (role ∷ roles) default_role))
        ≡ role_set role default_role
    columns =
        split_roles-join_roles (role_set role default_role) (role_set-names role default_role r d)
