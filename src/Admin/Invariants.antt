-- ===== src/Admin/Invariants.antt =====
-- When `assertAdminInvariants` refuses.
use semantius_idp.Prelude.{
  ℕ, Text, text_eq, text_eq_iff, In, In-keep_iff, is_empty, true, false, ◌&&◌, none, some, List, [],
  ◌∷◌, ◌≡◌, ◌≢◌, ◌↔◌, inl, inr, refl, Bool-cases, arith, false_of_ne_true, true_of_ne_false,
}
use semantius_idp.Roles.{is_admin}
use semantius_idp.Admin.{
  AdminUser, AdminAction, unban, last_admin, is_usable_admin, removes_an_admin, grants_admin,
  remaining, assert_admin_invariants,
}

pub nonempty_iff : {A : Type 0} (xs : List A) → (is_empty xs ≡ false) ↔ ((a : A) × In a xs)
nonempty_iff [] = (λ h. cc, λ (a, m). absurd m)
nonempty_iff (x ∷ xs) = (λ h. (x, inl refl), λ (a, m). refl)

module _ (now : ℕ) (target : AdminUser) (admin_roles : List Text) (admins : List AdminUser) where
  -- Somebody else among the admins could take over.
  abbrev pub OtherUsable : Type 0
  OtherUsable =
      (a : AdminUser) × In a admins
      × (a.id ≢ target.id)
      × (is_usable_admin now a admin_roles ≡ true)

  remaining_iff : (is_empty (remaining now target admin_roles admins) ≡ false) ↔ OtherUsable
  unfolding remaining
  remaining_iff =
      let (to, from) = nonempty_iff (remaining now target admin_roles admins) in
      (
        λ h.
            let (a, m) = to h in
            let (i, e) = (In-keep_iff _ a admins).0 m in
            (a, i, λ p. ground (arith, (text_eq_iff a.id target.id).1 p), ground arith),
        λ (a, i, n, u). from (
          a,
          (In-keep_iff _ a admins).1
              (i, ground (arith, false_of_ne_true _ (λ e. n ((text_eq_iff a.id target.id).0 e)))),
        ),
      )

  module _ (actor : AdminUser) (action : AdminAction) where
    -- The last-administrator refusal is given exactly when the action would take away a usable
    -- administrator and nobody else among the admins could take over.
    pub last_admin_iff :
        (assert_admin_invariants now actor target action admin_roles admins ≡ some last_admin)
        ↔ ((removes_an_admin now action target admin_roles ≡ true) × ¬ OtherUsable)
    unfolding assert_admin_invariants
    last_admin_iff =
        let (to, from) = remaining_iff in
        (
          λ h. (ground arith, λ o. ground (arith, from o)),
          λ (r, n). ground (arith, true_of_ne_false _ (λ e. n (to e))),
        )

    -- An action passes exactly when it leaves another usable administrator if it takes one away,
    -- is not done to oneself (lifting a ban excepted), and grants an admin role only by an admin.
    pub assert_passes_iff :
        (assert_admin_invariants now actor target action admin_roles admins ≡ none) ↔ (
          (removes_an_admin now action target admin_roles ≡ true → OtherUsable)
          × (actor.id ≡ target.id → action ≡ unban)
          × (grants_admin action admin_roles ≡ true → is_admin actor.role admin_roles ≡ true))
    unfolding assert_admin_invariants
    assert_passes_iff =
        let (to, from) = remaining_iff in
        (
          λ h. (
            λ r. to (ground arith),
            λ e. ground (arith, (text_eq_iff actor.id target.id).1 e),
            λ g. ground arith,
          ),
          λ (r, s, g).
              let survives : (removes_an_admin now action target admin_roles
                    && is_empty (remaining now target admin_roles admins))
                  ≡ false =
                elim (Bool-cases (removes_an_admin now action target admin_roles)) [
                  | inl e ↦ ground (arith, from (r e))
                  | inr e ↦ ground arith
                ] in
              let other : text_eq actor.id target.id ≡ true → action ≡ unban =
                λ e. s ((text_eq_iff actor.id target.id).0 e) in
              ground (arith, survives, other),
        )
