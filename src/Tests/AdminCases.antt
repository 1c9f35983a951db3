-- ===== src/Tests/AdminCases.antt =====
-- Two administrators and a user: requests that pass the rules and requests that do not.
use semantius_idp.Prelude.{
  All, Lacks, Text, codes, has_text, In, true, false, Option, none, some, some_inj, List, [], ◌∷◌,
  ◌≡◌, inl, inr, refl, ap, sym, arith, text_eq, split_on, trim, join_with,
}
use semantius_idp.Roles.{split_roles, is_admin}
use semantius_idp.Roles.Laws.{has_text_iff}
use semantius_idp.Admin.{
  AdminUser, AdminAction, set_role, ban, unban, delete, reject, impersonate, comma, is_usable_admin,
  is_currently_banned, removes_an_admin, remaining, assert_admin_invariants, load_admins,
  last_admin,
}
use semantius_idp.Admin.Invariants.{OtherUsable, assert_passes_iff}
use semantius_idp.Admin.Table.{AdminStore, UniqueIds, after_action}
use semantius_idp.Admin.LastAdmin.{act, here, next, IsAdministered, Reach-IsAdministered}

abbrev pub admin_roles : List Text
admin_roles = codes "admin" ∷ []

abbrev pub ada : AdminUser
ada = record {
  id = codes "a";
  role = some (codes "user, admin");
  status = some (codes "active");
  banned = none;
  ban_expires = none;
}

abbrev pub bob : AdminUser
bob = record {
  id = codes "b";
  role = some (codes "admin");
  status = some (codes "active");
  banned = some false;
  ban_expires = none;
}

abbrev pub both : List AdminUser
both = ada ∷ bob ∷ []

-- A store that writes what the admin endpoints document.
abbrev write_row : AdminAction → AdminUser → Option AdminUser
write_row (set_role roles) u = some (record u { role = some (join_with comma roles) })
write_row ban u = some (record u { banned = some true })
write_row unban u = some (record u { banned = some false; ban_expires = none })
write_row delete u = none
write_row reject u = some (record u { status = some (codes "rejected") })
write_row impersonate u = some u

write_row-id : (a : AdminAction) (u v : AdminUser) → write_row a u ≡ some v → v.id ≡ u.id
write_row-id (set_role roles) u v e = sym (ap (λ w. w.id) (some_inj e))
write_row-id ban u v e = sym (ap (λ w. w.id) (some_inj e))
write_row-id unban u v e = sym (ap (λ w. w.id) (some_inj e))
write_row-id delete u v e = cc
write_row-id reject u v e = sym (ap (λ w. w.id) (some_inj e))
write_row-id impersonate u v e = sym (ap (λ w. w.id) (some_inj e))

holds_role :
    (role : Text) (column : Option Text)
    → In role (split_roles column)
    → has_text (split_roles column) role ≡ true
holds_role role column m = (has_text_iff (split_roles column) role).1 m

abbrev store : AdminStore
store = record {
  like = λ role column. has_text (split_roles column) role;
  write = write_row;
  like_finds = λ role column safe held. holds_role role column held;
  write_id = write_row-id;
  write-set_role = λ roles u. refl;
  write-unban = λ u. refl;
  write-impersonate = λ u. refl;
}

both-UniqueIds : UniqueIds both
both-UniqueIds u v (inl e) (inl f) same = cc
both-UniqueIds u v (inl e) (inr (inl f)) same = absurd (ground (arith, e, f, same))
both-UniqueIds u v (inr (inl e)) (inl f) same = absurd (ground (arith, e, f, same))
both-UniqueIds u v (inr (inl e)) (inr (inl f)) same = cc
both-UniqueIds u v (inr (inr m)) k same = absurd m
both-UniqueIds u v k (inr (inr m)) same = absurd m

admin_roles_safe : All (Lacks 92) admin_roles
admin_roles_safe = ground arith

ada_usable : is_usable_admin 5 ada admin_roles ≡ true
unfolding is_usable_admin is_currently_banned is_admin has_text split_on trim text_eq
ada_usable = refl

both-IsAdministered : IsAdministered store admin_roles (record { now = 5; rows = both })
both-IsAdministered = record { unique = both-UniqueIds; somebody = (ada, inl refl, ada_usable) }

demotion_passes :
    assert_admin_invariants 5 ada bob
      (set_role (codes "user" ∷ []))
      admin_roles
      (load_admins store.like both admin_roles)
    ≡ none
unfolding assert_admin_invariants removes_an_admin is_usable_admin is_currently_banned is_admin
    has_text split_on trim text_eq remaining load_admins join_with
demotion_passes = refl

Reach-IsAdministered_example :
    IsAdministered store admin_roles
      (record { now = 5; rows = after_action store bob (set_role (codes "user" ∷ [])) both })
Reach-IsAdministered_example =
    Reach-IsAdministered store admin_roles admin_roles_safe both-IsAdministered (
      next here
        (act 5 both ada bob (set_role (codes "user" ∷ [])) (inr (inl refl)) demotion_passes))

-- Removing the only administrator is refused as the last one, also by that one.
lone_refused : assert_admin_invariants 5 ada ada delete admin_roles (ada ∷ []) ≡ some last_admin
unfolding assert_admin_invariants removes_an_admin is_usable_admin is_currently_banned is_admin
    has_text split_on trim text_eq remaining
lone_refused = refl

deletion_passes : assert_admin_invariants 5 ada bob delete admin_roles both ≡ none
unfolding assert_admin_invariants removes_an_admin is_usable_admin is_currently_banned is_admin
    has_text split_on trim text_eq remaining
deletion_passes = refl

deletion_removes : removes_an_admin 5 delete bob admin_roles ≡ true
unfolding removes_an_admin is_usable_admin is_currently_banned is_admin has_text split_on trim
    text_eq
deletion_removes = refl

assert_passes_iff_example : OtherUsable 5 bob admin_roles both
assert_passes_iff_example =
    ((assert_passes_iff 5 bob admin_roles both ada delete).0 deletion_passes).0 deletion_removes

bob_is_admin : is_admin bob.role admin_roles ≡ true
unfolding is_admin has_text split_on trim text_eq
bob_is_admin = refl
