-- ===== src/Roles/Laws.antt =====
-- The stored column and the roles it stands for.
use semantius_idp.Prelude.{
  All, All-map, Bool-cases, In, In-keep_iff, In-of_any, Lacks, List, Option, Text, [], any_of_In,
  ap, false, false_of_ne_true, has_text, if◌then◌else◌, inl, inr, join_with, keep, map, none, refl,
  some, split_on, split_on-Lacks, split_on-join_with, subst, text_eq, text_eq_iff, trim, trim-Lacks,
  trim_idem, true, ◌↔◌, ◌∙◌, ◌∷◌, ◌≡◌, ◌≢◌, arith,
}
use semantius_idp.Roles.{split_roles, join_roles, effective_roles, is_admin, nonblank}

-- A role name as the column stores it: not blank, trimmed, and free of the separator.
pub record IsRoleName (role : Text) : Type 0 where
  pub filled : role ≢ []
  pub trimmed : trim role ≡ role
  pub whole : Lacks b',' role

pub has_text_iff : (ts : List Text) (s : Text) → (has_text ts s ≡ true) ↔ In s ts
unfolding has_text
has_text_iff [] s = (λ h. cc, λ h. absurd h)
has_text_iff (t ∷ ts) s =
    let (to, from) = has_text_iff ts s in
    (
      λ h. elim (Bool-cases (text_eq t s)) [
        | inl e ↦ inl ((text_eq_iff t s).0 e)
        | inr e ↦ inr (to (ground arith))
      ],
      elim [ inl e ↦ ground (arith, (text_eq_iff t s).1 e) | inr m ↦ ground (arith, from m) ],
    )

pub has_text-false : (ts : List Text) (s : Text) → (has_text ts s ≡ false) ↔ (¬ In s ts)
has_text-false ts s = (
  λ h i. cc (h, (has_text_iff ts s).1 i),
  λ n. false_of_ne_true _ (λ h. n ((has_text_iff ts s).0 h)),
)

keep_name :
    (w t : Text) (rest : List Text)
    → trim w ≡ t
    → Lacks b',' w
    → All IsRoleName rest
    → All IsRoleName (if nonblank t then t ∷ rest else rest)
keep_name w [] rest e h hs = hs
keep_name w (c ∷ t) rest e h hs = (
  record {
    filled = λ p. cc;
    trimmed = rw (← e) (trim_idem w);
    whole = subst (λ x. Lacks b',' x) e (trim-Lacks b',' w h);
  },
  hs,
)

clean-IsRoleName :
    (ws : List Text) → All (Lacks b',') ws → All IsRoleName (keep nonblank (map trim ws))
clean-IsRoleName [] h = tt
clean-IsRoleName (w ∷ ws) (h, hs) = keep_name w (trim w) _ refl h (clean-IsRoleName ws hs)

-- Every role read from a column is a role name.
pub split_roles-IsRoleName : (stored : Option Text) → All IsRoleName (split_roles stored)
unfolding split_roles
split_roles-IsRoleName none = tt
split_roles-IsRoleName (some []) = tt
split_roles-IsRoleName (some (c ∷ s)) = clean-IsRoleName _ (split_on-Lacks b',' (c ∷ s))

clean_of_IsRoleName :
    (roles : List Text) → All IsRoleName roles → keep nonblank (map trim roles) ≡ roles
clean_of_IsRoleName [] h = refl
clean_of_IsRoleName ([] ∷ rs) (h, hs) = absurd (h.filled refl)
clean_of_IsRoleName ((c ∷ r) ∷ rs) (h, hs) =
    rw h.trimmed (ap (λ ws. (c ∷ r) ∷ ws) (clean_of_IsRoleName rs hs))

-- The test for the empty column changes nothing.
split_roles-some : (s : Text) → split_roles (some s) ≡ keep nonblank (map trim (split_on b',' s))
unfolding split_roles split_on trim
split_roles-some [] = refl
split_roles-some (c ∷ s) = refl

split_on-joined :
    (roles : List Text)
    → All IsRoleName roles
    → keep nonblank (map trim (split_on b',' (join_with (b',' ∷ []) roles))) ≡ roles
split_on-joined [] h = unfold split_on trim join_with in refl
split_on-joined (r ∷ rs) h =
    rw (split_on-join_with b',' r rs (All-map (λ r k. k.whole) (r ∷ rs) h))
      (clean_of_IsRoleName (r ∷ rs) h)

-- Splitting the joined column gives the role names back.
pub split_roles-join_roles :
    (roles : List Text) → All IsRoleName roles → split_roles (some (join_roles roles)) ≡ roles
unfolding join_roles
split_roles-join_roles roles h =
    split_roles-some _ ∙ rw (clean_of_IsRoleName roles h) (split_on-joined roles h)

-- A user is an administrator exactly when a role of the column is one of the configured ones.
pub is_admin_iff :
    (stored : Option Text) (admin_roles : List Text)
    → (is_admin stored admin_roles ≡ true)
      ↔ ((role : Text) × In role admin_roles × In role (split_roles stored))
unfolding is_admin
is_admin_iff stored admin_roles = (
  λ h.
      let (r, m, e) = In-of_any _ admin_roles h in
      (r, m, (has_text_iff (split_roles stored) r).0 e),
  λ (r, m, e). any_of_In _ r admin_roles m ((has_text_iff (split_roles stored) r).1 e),
)

-- A role is claimed exactly when the catalog defines it and the column holds it.
pub effective_roles_iff :
    (stored : Option Text) (catalog : List Text) (role : Text)
    → In role (effective_roles stored catalog) ↔ (In role catalog × In role (split_roles stored))
unfolding effective_roles
effective_roles_iff stored catalog role =
    let (to, from) = In-keep_iff (has_text (split_roles stored)) role catalog in
    let held = has_text_iff (split_roles stored) role in
    (λ m. let (i, h) = to m in (i, held.0 h), λ (i, h). from (i, held.1 h))
